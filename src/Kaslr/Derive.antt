-- ===== src/Kaslr/Derive.antt =====
-- What derive_kaslr_offset leaves: addresses of the linked kernel are moved to where the guest has
-- them.
use kvm_dmesg.Kaslr.Gate.{handler_at, handler_at-lt, get_vec0_addr_lem}
use kvm_dmesg.Kaslr.Relocation.{relocated-set_relocation, paddr_of-phys_base}
use Prim.Native.Nat.{bit_and}
use kvm_dmesg.Base.{ℕ, ◌-◌, ◌*◌, ◌/◌, ◌^◌, ◌≤◌, ◌<◌, ◌≡◌, refl, sym, ap, ◌∙◌, arith, length}
use kvm_dmesg.Base.Bits.{bit_and_high, bit_and_low}
use kvm_dmesg.Base.Bytes.{Bytes}
use kvm_dmesg.Base.Run.{ok, Returns}
use kvm_dmesg.Base.Word.{ℤ, add64, sub64, not64, pos}
use kvm_dmesg.Guest.{readmem, physaddr, kvaddr, paddr_of, get_cr3_idtr, start_kernel_map}
use kvm_dmesg.Guest.Translate.{Image, slice, Serves, readmem-Serves}
use kvm_dmesg.Kaslr.{cr3_mask, calc_kaslr_offset, set_relocation, derive_kaslr_offset}
use kvm_dmesg.Machine.{Machine, Registers, GuestClient}
use kvm_dmesg.Paging.Tables.{physical}
use kvm_dmesg.Paging.Walk.{IsImage, IsKept, IsWalkable, IsMapped, walked, x86_64_kvtop-physical}
use kvm_dmesg.Symbols.{relocated}

-- The part of CR3 that is the top-level page: its low 13 bits are cleared.
pub cr3_page : (cr3 : ℕ) → cr3 < 2 ^ 64 → bit_and cr3 cr3_mask ≡ cr3 / 8192 * 8192
cr3_page cr3 h =
    bit_and_high 13 cr3 (2 ^ 51 - 1)
    ∙ ap (λ (t : ℕ). t * 8192) (bit_and_low 51 (cr3 / 8192))
    ∙ omega arith

-- The state before derive_kaslr_offset: x86_64_init has run, a client reads `mem`, and nothing has been
-- relocated.
pub record IsReady (mem : Image) (m : Machine) : Type 0 where
  pub serves : Serves mem m
  pub unmoved : m.kt.flags ≡ 0
  pub pagesize : m.machdep.pagesize ≡ 4096
  pub pageoffset : m.machdep.pageoffset ≡ 4095
  pub pagemask : m.machdep.pagemask ≡ not64 4095
  pub pgd_page : length m.machdep.pgd ≡ 4096
  pub pud_kept : IsKept mem m.machdep.pud m.machdep.last_pud_read
  pub pmd_kept : IsKept mem m.machdep.pmd m.machdep.last_pmd_read
  pub ptbl_kept : IsKept mem m.machdep.ptbl m.machdep.last_ptbl_read

-- The client reports these registers, whatever it returns.
pub record Reports (cr4 : ℕ) (regs : Registers) (client : GuestClient) : Type 0 where
  pub status : ℤ
  pub run : client.get_registers (record { idtr = 0; cr3 = 0; cr4 = cr4 }) ≡ ok (status, regs)

physical-lt : (mem : Image) (pgd va : ℕ) → physical mem pgd va < 2 ^ 64
physical-lt mem pgd va = omega arith

pub sub64-lt : (a b : ℕ) → sub64 a b < 2 ^ 64
sub64-lt a b = omega arith

add64-sub64 : (a b : ℕ) → a < 2 ^ 64 → b < 2 ^ 64 → add64 b (sub64 a b) ≡ a
add64-sub64 a b p q = omega arith

-- The state in which calc_kaslr_offset walks the tables.
abbrev pub topped : Image → ℕ → Machine → Machine
topped mem pgd m = record m {
  kernel_pgd = pgd;
  machdep = record m.machdep {
    pgd = slice mem pgd 4096;
    last_pgd_read = pgd;
    machspec = record m.machdep.machspec {
      physical_mask_shift = 46;
      pgdir_shift = 39;
      ptrs_per_pgd = 512;
    };
  };
}

topped-IsWalkable :
    (mem : Image) (pgd : ℕ) (m : Machine) → IsReady mem m → IsWalkable mem pgd (topped mem pgd m)
topped-IsWalkable mem pgd m r = record {
  serves = record { client = r.serves.client; chosen = r.serves.chosen; reads = r.serves.reads };
  x8664 = record {
    pagesize = r.pagesize;
    pageoffset = r.pageoffset;
    pagemask = r.pagemask;
    pgdir_shift = refl;
    ptrs_per_pgd = refl;
    physical_mask_shift = refl;
  };
  top = refl;
  pud_kept = r.pud_kept;
  pmd_kept = r.pmd_kept;
  ptbl_kept = r.ptbl_kept;
}

module _ (mem : Image) (m : Machine) (local : Bytes) (cr4 : ℕ) (regs : Registers)
    (bytes : IsImage mem) (ready : IsReady mem m) (room : length local ≡ 16)
    (cr3_fits : regs.cr3 < 2 ^ 64) (reports : Reports cr4 regs ready.serves.client)
    (mapped : IsMapped mem (regs.cr3 / 8192 * 8192) regs.idtr) where
  abbrev pgd : ℕ
  pgd = regs.cr3 / 8192 * 8192

  -- The physical address of the guest's IDT.
  abbrev idt_paddr : ℕ
  idt_paddr = physical mem pgd regs.idtr

  abbrev offset : ℕ
  offset = sub64 (handler_at mem idt_paddr) m.st.divide_error_vmlinux

  abbrev base : ℕ
  base = sub64 idt_paddr (sub64 (add64 m.st.idt_table_vmlinux offset) start_kernel_map)

  registers_step : get_cr3_idtr m 0 0 cr4 ≡ ok (regs.cr3, regs.idtr)
  unfolding get_cr3_idtr
  registers_step = rw (ready.serves.chosen, reports.run)

  -- The state in which the top-level page is read.
  abbrev reading : Machine
  reading = record m {
    kernel_pgd = pgd;
    machdep = record m.machdep {
      last_pgd_read = pgd;
      machspec = record m.machdep.machspec {
        physical_mask_shift = 46;
        pgdir_shift = 39;
        ptrs_per_pgd = 512;
      };
    };
  }

  page_step :
      readmem reading pgd physaddr m.machdep.pgd m.machdep.pagesize ≡ ok (pos 0, slice mem pgd 4096)
  unfolding paddr_of
  page_step =
      let s = ready.serves in
      readmem-Serves mem reading pgd physaddr m.machdep.pgd m.machdep.pagesize
        (record { client = s.client; chosen = s.chosen; reads = s.reads })
        (ready.pgd_page ∙ sym ready.pagesize)
      ∙ ap (λ (n : ℕ). ok (pos 0, slice mem pgd n)) ready.pagesize

  calc_step :
      calc_kaslr_offset local cr4 m ≡ ok (offset, base, walked mem pgd (topped mem pgd m) regs.idtr)
  unfolding calc_kaslr_offset
  calc_step =
      let w = topped-IsWalkable mem pgd m ready in
      let walk = x86_64_kvtop-physical mem pgd (topped mem pgd m) regs.idtr bytes w mapped in
      rw (
        registers_step,
        cr3_page regs.cr3 cr3_fits,
        page_step,
        walk.0,
        get_vec0_addr_lem mem (walked mem pgd (topped mem pgd m) regs.idtr) local idt_paddr bytes
            walk.1.serves room,
      )

  pub derive_step :
      derive_kaslr_offset local cr4 m
      ≡ ok (set_relocation offset base (walked mem pgd (topped mem pgd m) regs.idtr))
  unfolding derive_kaslr_offset
  derive_step = rw calc_step

-- What the state after derive_kaslr_offset says of addresses: a symbol at `value` is read at its linked
-- address plus the offset, the first exception handler is where the guest's IDT has it, and the
-- relocated address of `idt_table` is translated to where the guest's IDT is.
pub record IsRelocated (mem : Image) (idt_paddr offset value : ℕ) (m r : Machine) : Type 0 where
  pub moved : relocated r value ≡ add64 value offset
  pub handler : relocated r m.st.divide_error_vmlinux ≡ handler_at mem idt_paddr
  pub idt : paddr_of r (relocated r m.st.idt_table_vmlinux) kvaddr ≡ idt_paddr

-- How far the guest's kernel is from where it was linked, by the gate at `idt_paddr`.
abbrev pub kaslr_of : Image → ℕ → Machine → ℕ
kaslr_of mem idt_paddr m = sub64 (handler_at mem idt_paddr) m.st.divide_error_vmlinux

-- The physical address of the IDT, by the registers.
abbrev pub idt_paddr_of : Image → Registers → ℕ
idt_paddr_of mem regs = physical mem (regs.cr3 / 8192 * 8192) regs.idtr

-- With a client that serves the guest's memory, which holds bytes, and reports registers of which
-- CR3 is a 64-bit value, a state in which nothing is relocated and the constants are set, linked
-- addresses of 64 bits, a gate of 16 bytes, tables for the address of the IDT and a relocated
-- idt_table in the kernel's map, derive_kaslr_offset succeeds, and leaves a state in which a 64-bit
-- symbol is read at its linked address plus the offset, the handler of the divide error is where
-- the guest's IDT has it, and the address of idt_table is translated to where the guest's IDT is.
pub derive_kaslr_offset-IsRelocated :
    (mem : Image) (m : Machine) (local : Bytes) (cr4 : ℕ) (regs : Registers) (value : ℕ)
    → IsImage mem
    → (ready : IsReady mem m) → length local ≡ 16
    → regs.cr3 < 2 ^ 64
    → Reports cr4 regs ready.serves.client
    → IsMapped mem (regs.cr3 / 8192 * 8192) regs.idtr
    → m.st.divide_error_vmlinux < 2 ^ 64
    → m.st.idt_table_vmlinux < 2 ^ 64
    → value < 2 ^ 64
    → start_kernel_map ≤ add64 m.st.idt_table_vmlinux (kaslr_of mem (idt_paddr_of mem regs) m)
    → Returns
        (derive_kaslr_offset local cr4 m)
        (IsRelocated mem (idt_paddr_of mem regs) (kaslr_of mem (idt_paddr_of mem regs) m) value m)
derive_kaslr_offset-IsRelocated mem m local cr4 regs value bytes ready room fits reports mapped div
      idt v high =
    let pgd : ℕ = regs.cr3 / 8192 * 8192 in
    let gate : ℕ = physical mem pgd regs.idtr in
    let offset : ℕ = kaslr_of mem gate m in
    let base : ℕ = sub64 gate (sub64 (add64 m.st.idt_table_vmlinux offset) start_kernel_map) in
    let w = walked mem pgd (topped mem pgd m) regs.idtr in
    let moved = λ (a : ℕ) (h : a < 2 ^ 64).
      relocated-set_relocation w offset base a ready.unmoved (sub64-lt _ _) h in
    (
      set_relocation offset base w,
      derive_step mem m local cr4 regs bytes ready room fits reports mapped,
      record {
        moved = moved value v;
        handler =
            moved m.st.divide_error_vmlinux div
            ∙ add64-sub64 _ _ (handler_at-lt mem bytes gate) div;
        idt =
            ap (λ (a : ℕ). paddr_of (set_relocation offset base w) a kvaddr)
              (moved m.st.idt_table_vmlinux idt)
            ∙ paddr_of-phys_base w offset m.st.idt_table_vmlinux gate
                (physical-lt mem pgd regs.idtr) high;
      },
    )
