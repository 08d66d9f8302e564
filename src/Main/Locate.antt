-- ===== src/Main/Locate.antt =====
-- What main knows of the guest's kernel behind symtab_init, x86_64_init and derive_kaslr_offset.
use kvm_dmesg.Base.{
  ℕ, ◌*◌, ◌/◌, ◌^◌, ◌≤◌, ◌<◌, ◌≡◌, refl, ap, ◌∙◌, sym, Option, none, some, [], arith, inl, length,
}
use mathlib.Core.Option.{or_else}
use kvm_dmesg.Base.Bytes.{Bytes}
use kvm_dmesg.Base.Run.{Returns, ok}
use kvm_dmesg.Base.Word.{add64, sub64}
use kvm_dmesg.Guest.{paddr_of, kvaddr, start_kernel_map}
use kvm_dmesg.Guest.Translate.{Image, Serves}
use kvm_dmesg.Kaslr.{x86_64_init, set_relocation, derive_kaslr_offset}
use kvm_dmesg.Kaslr.Derive.{
  IsReady, Reports, IsRelocated, kaslr_of, idt_paddr_of, topped, derive_step,
  derive_kaslr_offset-IsRelocated,
}
use kvm_dmesg.Kaslr.Gate.{handler_at}
use kvm_dmesg.Machine.{Machine, Registers, SymbolTableData}
use kvm_dmesg.Main.{Memory, locate}
use kvm_dmesg.Paging.Walk.{IsImage, IsMapped, walked}
use kvm_dmesg.Symbols.{relocated}
use kvm_dmesg.Symbols.Bounds.{AddressFits, first_address-AddressFits}
use kvm_dmesg.Symbols.Init.{or_zero, symtab_init-IsFilled}
use kvm_dmesg.Symbols.Load.{empty_table, first_address}
use kvm_dmesg.Symbols.Map.{fgets_lines, line_room}
use kvm_dmesg.Text.{codes}

-- The state as global_data.c starts it, with a client that reads `mem` and reports `regs`.
pub record IsStarted (mem : Image) (cr4 : ℕ) (regs : Registers) (m : Machine) : Type 0 where
  pub serves : Serves mem m
  pub reports : Reports cr4 regs serves.client
  pub no_symbols : m.st.symname_hash ≡ empty_table
  pub unmoved : m.kt.flags ≡ 0
  pub no_pud : m.machdep.last_pud_read ≡ 0
  pub no_pmd : m.machdep.last_pmd_read ≡ 0
  pub no_ptbl : m.machdep.last_ptbl_read ≡ 0

-- malloc returned pages of their size, and a gate takes 16 bytes.
pub record IsSized (mem : Memory) : Type 0 where
  pub pgd_size : length mem.pages.pgd ≡ 4096
  pub pud_size : length mem.pages.pud ≡ 4096
  pub pmd_size : length mem.pages.pmd ≡ 4096
  pub ptbl_size : length mem.pages.ptbl ≡ 4096
  pub gate_size : length mem.gate ≡ 16

x86_64_init-IsReady :
    (image : Image) (mem : Memory) (cr4 : ℕ) (regs : Registers) (m : Machine) (st : SymbolTableData)
    → IsStarted image cr4 regs m
    → IsSized mem
    → IsReady image (x86_64_init mem.pages (record m { st = st }))
unfolding x86_64_init
x86_64_init-IsReady image mem cr4 regs m st s z = record {
  serves = record { client = s.serves.client; chosen = s.serves.chosen; reads = s.serves.reads };
  unmoved = s.unmoved;
  pagesize = refl;
  pageoffset = refl;
  pagemask = refl;
  pgd_page = z.pgd_size;
  pud_kept = (z.pud_size, inl s.no_pud);
  pmd_kept = (z.pmd_size, inl s.no_pmd);
  ptbl_kept = (z.ptbl_size, inl s.no_ptbl);
}

-- Where System.map says the handler of the divide error and the table of gates are; 0 if it does not.
abbrev pub divide_error_in : Bytes → ℕ
divide_error_in file = or_zero (
    or_else (first_address (fgets_lines line_room [] file) (codes "asm_exc_divide_error"))
      (first_address (fgets_lines line_room [] file) (codes "divide_error")))

abbrev pub idt_table_in : Bytes → ℕ
idt_table_in file = or_zero (first_address (fgets_lines line_room [] file) (codes "idt_table"))

-- How far the guest's kernel is from where System.map has it.
abbrev pub kaslr_in : Image → Registers → Bytes → ℕ
kaslr_in image regs file = sub64 (handler_at image (idt_paddr_of image regs)) (divide_error_in file)

-- Where the physical addresses of the kernel's map start.
abbrev pub phys_base_in : Image → Registers → Bytes → ℕ
phys_base_in image regs file =
    sub64 (idt_paddr_of image regs)
      (sub64 (add64 (idt_table_in file) (kaslr_in image regs file)) start_kernel_map)

or_zero-lt : (o : Option ℕ) → AddressFits o → or_zero o < 2 ^ 64
or_zero-lt none h = omega arith
or_zero-lt (some a) h = h

or_else-lt : (a b : Option ℕ) → AddressFits a → AddressFits b → or_zero (or_else a b) < 2 ^ 64
unfolding or_else
or_else-lt none b p q = or_zero-lt b q
or_else-lt (some v) b p q = p

divide_error_in-lt : (file : Bytes) → divide_error_in file < 2 ^ 64
divide_error_in-lt file =
    let lines = fgets_lines line_room [] file in
    or_else-lt _ _ (first_address-AddressFits lines (codes "asm_exc_divide_error"))
      (first_address-AddressFits lines (codes "divide_error"))

idt_table_in-lt : (file : Bytes) → idt_table_in file < 2 ^ 64
idt_table_in-lt file =
    or_zero-lt _ (first_address-AddressFits (fgets_lines line_room [] file) (codes "idt_table"))

-- What the state says of addresses: a symbol that System.map has at `value` is read at that address
-- plus the offset, the handler of the divide error is where the guest's IDT has it, and the relocated
-- address of `idt_table` is translated to where the guest's IDT is.
pub record IsLocated (image : Image) (regs : Registers) (file : Bytes) (value : ℕ) (r : Machine)
    : Type 0 where
  pub moved : relocated r value ≡ add64 value (kaslr_in image regs file)
  pub handler : relocated r (divide_error_in file) ≡ handler_at image (idt_paddr_of image regs)
  pub idt : paddr_of r (relocated r (idt_table_in file)) kvaddr ≡ idt_paddr_of image regs

module _ (image : Image) (mem : Memory) (regs : Registers) (file : Bytes) (value : ℕ) (m : Machine)
    (st : SymbolTableData) (divide : st.divide_error_vmlinux ≡ divide_error_in file)
    (table : st.idt_table_vmlinux ≡ idt_table_in file) where
  abbrev ready : Machine
  ready = x86_64_init mem.pages (record m { st = st })

  -- The state that derive_kaslr_offset leaves.
  abbrev pub derived : Machine
  derived =
      let pgd : ℕ = regs.cr3 / 8192 * 8192 in
      set_relocation (kaslr_in image regs file) (phys_base_in image regs file)
        (walked image pgd (topped image pgd ready) regs.idtr)

  pub derived_lem :
      IsImage image
      → IsStarted image mem.cr4 regs m
      → IsSized mem
      → regs.cr3 < 2 ^ 64
      → IsMapped image (regs.cr3 / 8192 * 8192) regs.idtr
      → derive_kaslr_offset mem.gate mem.cr4 ready ≡ ok derived
  unfolding x86_64_init x86_64_init-IsReady
  derived_lem bytes s z fits mapped =
      derive_step image ready mem.gate mem.cr4 regs bytes
        (x86_64_init-IsReady image mem mem.cr4 regs m st s z) z.gate_size fits s.reports mapped
      ∙ rw (divide, table)

  IsRelocated-IsLocated :
      (r : Machine)
      → IsRelocated image
          (idt_paddr_of image regs)
          (kaslr_of image (idt_paddr_of image regs) ready)
          value
          ready
          r
      → IsLocated image regs file value r
  unfolding x86_64_init
  IsRelocated-IsLocated r rel = record {
    moved =
        rel.moved
        ∙ ap (λ (n : ℕ). add64 value (sub64 (handler_at image (idt_paddr_of image regs)) n)) divide;
    handler = ap (relocated r) (sym divide) ∙ rel.handler;
    idt = ap (λ (n : ℕ). paddr_of r (relocated r n) kvaddr) (sym table) ∙ rel.idt;
  }

  derive_ready :
      IsImage image
      → IsStarted image mem.cr4 regs m
      → IsSized mem
      → regs.cr3 < 2 ^ 64
      → IsMapped image (regs.cr3 / 8192 * 8192) regs.idtr
      → value < 2 ^ 64
      → start_kernel_map ≤ add64 (idt_table_in file) (kaslr_in image regs file)
      → Returns (derive_kaslr_offset mem.gate mem.cr4 ready) (IsLocated image regs file value)
  unfolding x86_64_init x86_64_init-IsReady
  derive_ready bytes s z fits mapped v high =
      let (r, run, rel) =
        derive_kaslr_offset-IsRelocated image ready mem.gate mem.cr4 regs value bytes
          (x86_64_init-IsReady image mem mem.cr4 regs m st s z) z.gate_size fits s.reports mapped
          (omega (arith, divide, divide_error_in-lt file))
          (omega (arith, table, idt_table_in-lt file)) v (rw (divide, table) high) in
      (r, run, IsRelocated-IsLocated r rel)

-- From a state as global_data.c starts it, with a client that serves the guest's memory, which
-- holds bytes, and reports a CR3 of 64 bits, buffers of their sizes, a table at every level of the
-- IDT's address and an idt_table that is relocated into the kernel's map, symtab_init, x86_64_init
-- and derive_kaslr_offset succeed; a 64-bit symbol value is then read at that value plus the
-- offset, the handler that System.map has is read where the guest's IDT has it, and the address of
-- idt_table is translated to where the guest's IDT is.
pub locate-IsLocated :
    (image : Image) (mem : Memory) (regs : Registers) (m : Machine) (file : Bytes) (value : ℕ)
    → IsImage image
    → IsStarted image mem.cr4 regs m
    → IsSized mem
    → regs.cr3 < 2 ^ 64
    → IsMapped image (regs.cr3 / 8192 * 8192) regs.idtr
    → value < 2 ^ 64
    → start_kernel_map ≤ add64 (idt_table_in file) (kaslr_in image regs file)
    → Returns (locate mem (some file) m) (IsLocated image regs file value)
unfolding locate
locate-IsLocated image mem regs m file value bytes s z fits mapped v high =
    let (loaded, run, is_loaded) = symtab_init-IsFilled file m s.no_symbols in
    let (r, derived, good) =
      derive_ready image mem regs file value m loaded.st is_loaded.divide_error is_loaded.idt_table
        bytes s z fits mapped v high in
    (
      r,
      rw run (
          ap (λ (n : Machine). derive_kaslr_offset mem.gate mem.cr4 (x86_64_init mem.pages n))
            is_loaded.rest
          ∙ derived),
      good,
    )
