-- ===== src/Tests/Located.antt =====
-- A guest whose bytes are all 0xab, and which libvirt reaches: main up to derive_kaslr_offset.
use kvm_dmesg.Base.{
  ◌*◌, ◌/◌, ◌≡◌, refl, some, ◌++◌, arith, if◌then◌else◌, replicate, length-replicate,
}
use mathlib.Core.Option.{or_else}
use kvm_dmesg.Base.Bytes.{Bytes, le}
use kvm_dmesg.Base.Run.{Returns}
use kvm_dmesg.Client.Libvirt.{Monitor, libvirt_client}
use kvm_dmesg.Client.Libvirt.Serves.{PrintsMemory}
use kvm_dmesg.Machine.{Registers}
use kvm_dmesg.Main.{locate}
use kvm_dmesg.Main.Guests.{IsLocatable, PrintsRegisters, libvirt_guest-IsLocated}
use kvm_dmesg.Main.Locate.{IsLocated, kaslr_in, idt_table_in}
use kvm_dmesg.Paging.Walk.{IsMapped}
use kvm_dmesg.Symbols.{streq, symbol_needed}
use kvm_dmesg.Symbols.Load.{first_address}
use kvm_dmesg.Symbols.Map.{fgets_lines, scan_line}
use kvm_dmesg.Tests.Guests.{started, no_registers}
use kvm_dmesg.Tests.Libvirt.{
  printer, allocator, filled, one_word, formed_lem, values_lem, printer_lem, answer, idt_last,
  cr3_last,
}
use kvm_dmesg.Tests.Main.{memory, memory-IsSized}
use kvm_dmesg.Tests.Symbols.{line}
use kvm_dmesg.Text.{codes}
use kvm_dmesg.Text.Scan.{c_str, skip_space, token, hex_value, hex_digits, scan_lx}
use kvm_dmesg.Text.Search.{is_prefix}

-- It answers both commands.
abbrev monitor : Monitor
monitor command = if is_prefix (codes "info") command then some answer else printer command

monitor-PrintsMemory : PrintsMemory filled monitor allocator
unfolding is_prefix
monitor-PrintsMemory = record {
  bytes = λ a. omega arith;
  wraps = λ a. refl;
  room = λ n h. (replicate n 0, refl, length-replicate n 0);
  prints = λ n addr some_words few fits. record {
    lines = replicate n one_word;
    formed = formed_lem n;
    values = values_lem n addr;
    answer = printer_lem n addr (omega arith);
  };
}

monitor-PrintsRegisters : PrintsRegisters monitor 0xffff_fe00_0000_0000 0x1_0a60_a000
unfolding is_prefix
monitor-PrintsRegisters = record {
  answer = answer;
  answered = refl;
  idtr_line = idt_last;
  cr3_line = cr3_last;
}

abbrev registers : Registers
registers = record { idtr = 0xffff_fe00_0000_0000; cr3 = 0x1_0a60_a000; cr4 = 0 }

-- The handler is where it was linked.
abbrev system_map : Bytes
system_map =
    line (codes "abababababababab T asm_exc_divide_error")
    ++ line (codes "ffffffff82000000 D idt_table")

reading : Unit {0}
unfolding streq symbol_needed fgets_lines c_str skip_space token hex_value hex_digits scan_lx
    scan_line first_address or_else le
reading = tt

offset : kaslr_in filled registers system_map ≡ 0
unfolding reading
offset = refl

idt_linked : idt_table_in system_map ≡ 0xffff_ffff_8200_0000
unfolding reading
idt_linked = refl

registers-IsMapped : IsMapped filled (registers.cr3 / 8192 * 8192) registers.idtr
unfolding le
registers-IsMapped = record {
  pud_there = λ e. absurd (omega (arith, e));
  pmd_there = λ e. absurd (omega (arith, e));
  ptbl_there = λ e. absurd (omega (arith, e));
}

filled-IsLocatable : IsLocatable filled memory registers system_map
filled-IsLocatable = record {
  bytes = λ a. omega arith;
  sized = memory-IsSized;
  mapped = registers-IsMapped;
  high = rw (offset, idt_linked) (omega arith);
}

libvirt_guest-IsLocated_example :
    Returns
      (locate memory (some system_map) (record (started filled no_registers 0 0) {
        client = some (libvirt_client monitor allocator);
      }))
      (IsLocated filled registers system_map 0xffff_ffff_8300_0000)
libvirt_guest-IsLocated_example =
    libvirt_guest-IsLocated filled monitor allocator 0xffff_fe00_0000_0000 0x1_0a60_a000 memory
      (started filled no_registers 0 0) system_map 0xffff_ffff_8300_0000
      (record { no_symbols = refl; unmoved = refl; no_pud = refl; no_pmd = refl; no_ptbl = refl })
      monitor-PrintsMemory monitor-PrintsRegisters filled-IsLocatable (omega arith)
