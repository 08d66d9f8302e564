-- ===== src/Tests/Main.antt =====
-- main on a small file system, and on the guest of the relocation's tests.
use kvm_dmesg.Base.{
  ℕ, ◌≤◌, ◌≡◌, refl, ◌++◌, some, arith, length-replicate, replicate, if◌then◌else◌,
}
use mathlib.Core.Option.{or_else}
use kvm_dmesg.Base.Bytes.{Bytes, le}
use kvm_dmesg.Base.Run.{Returns}
use kvm_dmesg.Base.Word.{pos, add64}
use kvm_dmesg.Guest.{start_kernel_map}
use kvm_dmesg.Main.{Files, regular, socket, choose_files, Memory, locate}
use kvm_dmesg.Main.Arguments.{no_file, choose_files_swap}
use kvm_dmesg.Main.Locate.{IsStarted, IsSized, IsLocated, kaslr_in, idt_table_in, locate-IsLocated}
use kvm_dmesg.Machine.{Machine}
use kvm_dmesg.Symbols.{streq, symbol_needed}
use kvm_dmesg.Symbols.Map.{fgets_lines, scan_line}
use kvm_dmesg.Text.Scan.{c_str, skip_space, token, hex_value, hex_digits, scan_lx}
use kvm_dmesg.Symbols.Load.{first_address}
use kvm_dmesg.Tests.Guests.{started, client}
use kvm_dmesg.Tests.Kaslr.{registers, idt-IsMapped}
use kvm_dmesg.Tests.Paging.{tables, tables-IsImage}
use kvm_dmesg.Tests.Symbols.{line}
use kvm_dmesg.Text.{codes}

abbrev system_map : Bytes
system_map =
    line (codes "100000000000 T asm_exc_divide_error")
    ++ line (codes "ffffffff82000000 D idt_table")

-- A map at "m", and a socket at "s".
abbrev files : Files
files = record {
  stat = λ path. if streq path (codes "m") then some regular else some socket;
  contents = λ path. some system_map;
}

choose_files_swap_example :
    (choose_files files (codes "m") (codes "s") ≡ some (codes "m", codes "s"))
    × (choose_files files (codes "s") (codes "m") ≡ some (codes "m", codes "s"))
unfolding streq
choose_files_swap_example =
    choose_files_swap files (codes "m") (codes "s") system_map refl refl refl
      (no_file (some socket) (λ e. cc) refl)

abbrev pub memory : Memory
memory = record {
  malloc = λ n. replicate n 0;
  pages = record {
    pgd = replicate 4096 1;
    pud = replicate 4096 2;
    pmd = replicate 4096 3;
    ptbl = replicate 4096 4;
  };
  gate = replicate 16 0;
  local₄ = replicate 4 0;
  local₈ = replicate 8 0;
  size_local = replicate 8 1;
  data_local = replicate 8 2;
  cr4 = 0;
}

pub memory-IsSized : IsSized memory
memory-IsSized = record {
  pgd_size = length-replicate {A = ℕ} 4096 1;
  pud_size = length-replicate {A = ℕ} 4096 2;
  pmd_size = length-replicate {A = ℕ} 4096 3;
  ptbl_size = length-replicate {A = ℕ} 4096 4;
  gate_size = refl;
}

abbrev machine : Machine
machine = started tables registers 0 0

machine-IsStarted : IsStarted tables 0 registers machine
machine-IsStarted = record {
  serves = record { client = client tables registers; chosen = refl; reads = λ a buf. refl };
  reports = record { status = pos 0; run = refl };
  no_symbols = refl;
  unmoved = refl;
  no_pud = refl;
  no_pmd = refl;
  no_ptbl = refl;
}

reading : Unit {0}
unfolding streq symbol_needed fgets_lines c_str skip_space token hex_value hex_digits scan_lx
    scan_line first_address or_else le
reading = tt

offset : kaslr_in tables registers system_map ≡ 0x1000
unfolding reading
offset = refl

idt_linked : idt_table_in system_map ≡ 0xffff_ffff_8200_0000
unfolding reading
idt_linked = refl

high : start_kernel_map ≤ add64 (idt_table_in system_map) (kaslr_in tables registers system_map)
high = rw (offset, idt_linked) (omega arith)

locate-IsLocated_example :
    Returns
      (locate memory (some system_map) machine)
      (IsLocated tables registers system_map 0xffff_ffff_8300_0000)
locate-IsLocated_example =
    locate-IsLocated tables memory registers machine system_map 0xffff_ffff_8300_0000 tables-IsImage
      machine-IsStarted memory-IsSized (omega arith) idt-IsMapped (omega arith) high
