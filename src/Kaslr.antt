-- ===== src/Kaslr.antt =====
-- main.c, where the guest's kernel is: x86_64_init, calc_kaslr_offset, derive_kaslr_offset and
-- x86_64_post_reloc.
pub mod Gate
pub mod Relocation
pub mod Derive
use Prim.Native.Nat.{bit_and, bit_or}
use kvm_dmesg.Base.{ℕ, ◌+◌, ◌-◌, ◌*◌, ◌^◌, Bool, true, false, ◌==◌, if◌then◌else◌}
use kvm_dmesg.Base.Bytes.{Bytes, le, encode, ushort, uint}
use kvm_dmesg.Base.Run.{Run, ok, ◌>>=◌}
use kvm_dmesg.Base.Word.{add64, sub64, u64, not64}
use kvm_dmesg.Guest.{readmem, physaddr, get_cr3_idtr, start_kernel_map}
use kvm_dmesg.Machine.{Machine, KernelTable, MachdepTable, MachineSpecific}
use kvm_dmesg.Paging.{x86_64_kvtop}
use kvm_dmesg.Symbols.{kernel_symbol_exists, get_symbol_data, reloc_set}
use kvm_dmesg.Text.{codes}

-- What malloc returned for the four pages.
pub record Pages : Type 0 where
  pub pgd : Bytes
  pub pud : Bytes
  pub pmd : Bytes
  pub ptbl : Bytes

abbrev pub default_page_offset : ℕ
default_page_offset = 0xffff_8800_0000_0000

-- `machdep->pagesize - 1` is computed on an `unsigned int`.
unfoldable pub x86_64_init : Pages → Machine → Machine
x86_64_init pages m = record m {
  machdep = record m.machdep {
    pgd = pages.pgd;
    pud = pages.pud;
    pmd = pages.pmd;
    ptbl = pages.ptbl;
    machspec = record {
      page_offset = default_page_offset;
      phys_base = 0;
      pgdir_shift = 0;
      ptrs_per_pgd = 0;
      physical_mask_shift = 0;
    };
    pagesize = 4096;
    pageoffset = 4096 - 1;
    pagemask = not64 (4096 - 1);
  };
}

-- get_vec0_addr: the handler's address from the three parts that a gate has of it, with what stands in
-- the local `gate` before it is read.
unfoldable pub get_vec0_addr : Machine → Bytes → ℕ → Run ℕ
get_vec0_addr m local idtr = do
  (r, gate) ← readmem m idtr physaddr local 16
  offset_low ← ushort gate 0
  offset_middle ← ushort gate 6
  offset_high ← uint gate 8
  ok (u64 (offset_high * 2 ^ 32 + offset_middle * 2 ^ 16 + offset_low))

-- CR3 without the PCID and the bit that tells the user's tables from the kernel's.
abbrev pub cr3_mask : ℕ
cr3_mask = not64 (bit_or 0xfff (2 ^ 12))

-- calc_kaslr_offset: kaslr_offset and phys_base, and the state it leaves.
unfoldable pub calc_kaslr_offset : Bytes → ℕ → Machine → Run (ℕ × ℕ × Machine)
calc_kaslr_offset local cr4 m = do
  (cr3, idtr) ← get_cr3_idtr m 0 0 cr4
  let pgd = bit_and cr3 cr3_mask
  let m₁ = record m {
    kernel_pgd = pgd;
    machdep = record m.machdep {
      last_pgd_read = pgd;
      machspec = record m.machdep.machspec {
        physical_mask_shift = 46;
        pgdir_shift = 39;
        ptrs_per_pgd = 512;
      };
    };
  }
  (r, page) ← readmem m₁ pgd physaddr m₁.machdep.pgd m₁.machdep.pagesize
  let m₂ = record m₁ { machdep = record m₁.machdep { pgd = page } }
  (idtr_paddr, m₃) ← x86_64_kvtop m₂ idtr
  divide_error_vmcore ← get_vec0_addr m₃ local idtr_paddr
  let kaslr_offset = sub64 divide_error_vmcore m₃.st.divide_error_vmlinux
  let linked = sub64 (add64 m₃.st.idt_table_vmlinux kaslr_offset) start_kernel_map
  ok (kaslr_offset, sub64 idtr_paddr linked, m₃)

-- The end of derive_kaslr_offset. `kaslr_offset * -1` is a product of `unsigned long`s.
unfoldable pub set_relocation : ℕ → ℕ → Machine → Machine
set_relocation kaslr_offset phys_base m = record m {
  kt = if kaslr_offset == 0 then m.kt else record m.kt {
    relocate = u64 (kaslr_offset * (2 ^ 64 - 1));
    flags = bit_or m.kt.flags reloc_set;
  };
  machdep = record m.machdep { machspec = record m.machdep.machspec { phys_base = phys_base } };
}

unfoldable pub derive_kaslr_offset : Bytes → ℕ → Machine → Run Machine
derive_kaslr_offset local cr4 m = do
  (kaslr_offset, phys_base, m') ← calc_kaslr_offset local cr4 m
  ok (set_relocation kaslr_offset phys_base m')

-- x86_64_post_reloc: the guest's own page offset, where it has one. The eight bytes of the old value
-- are what get_symbol_data writes over.
unfoldable pub x86_64_post_reloc : Machine → Run Machine
x86_64_post_reloc m = do
  exists ← kernel_symbol_exists m (codes "page_offset_base")
  elim exists [
    | false ↦ ok m
    | true ↦ do
      bytes ←
          get_symbol_data m (codes "page_offset_base") 8 (encode 8 m.machdep.machspec.page_offset)
      ok (record m {
        machdep = record m.machdep {
          machspec = record m.machdep.machspec { page_offset = le bytes };
        };
      })
  ]
