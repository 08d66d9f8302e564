-- ===== src/Kaslr/Relocation.antt =====
-- set_relocation of Kaslr, the end of derive_kaslr_offset: how it moves addresses.
use kvm_dmesg.Base.{ℕ, ◌^◌, ◌≤◌, ◌<◌, ◌≡◌, ◌==◌, arith, Bool-cases, inl, inr, le→leb}
use kvm_dmesg.Base.Word.{add64, sub64}
use kvm_dmesg.Guest.{kvaddr, paddr_of, start_kernel_map}
use kvm_dmesg.Kaslr.{set_relocation}
use kvm_dmesg.Machine.{Machine}
use kvm_dmesg.Symbols.{relocated}

-- If nothing was relocated before, then behind set_relocation a 64-bit symbol value is read at that
-- value plus the offset, modulo 2^64, whether the offset is 0 or not.
pub relocated-set_relocation :
    (m : Machine) (kaslr phys_base value : ℕ)
    → m.kt.flags ≡ 0
    → kaslr < 2 ^ 64
    → value < 2 ^ 64
    → relocated (set_relocation kaslr phys_base m) value ≡ add64 value kaslr
unfolding relocated set_relocation
relocated-set_relocation m kaslr phys_base value clear k v = elim (Bool-cases (kaslr == 0)) [
  | inl none_needed ↦ rw (none_needed, clear) (ground arith)
  | inr moved ↦ rw (moved, clear) (omega arith)
]

-- If the relocated address of idt_table is in the kernel's map, phys_base as calc_kaslr_offset
-- computes it makes readmem translate that address to the physical address of the guest's IDT.
pub paddr_of-phys_base :
    (m : Machine) (kaslr idt idtr_paddr : ℕ)
    → idtr_paddr < 2 ^ 64
    → start_kernel_map ≤ add64 idt kaslr
    → paddr_of
        (set_relocation kaslr (sub64 idtr_paddr (sub64 (add64 idt kaslr) start_kernel_map)) m)
        (add64 idt kaslr)
        kvaddr
      ≡ idtr_paddr
unfolding paddr_of set_relocation
paddr_of-phys_base m kaslr idt idtr_paddr fits high =
    rw (le→leb start_kernel_map (add64 idt kaslr) high) (omega arith)
