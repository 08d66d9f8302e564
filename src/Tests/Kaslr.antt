-- ===== src/Tests/Kaslr.antt =====
-- The relocation of a guest whose IDT is in the page at 0x1000.
use kvm_dmesg.Base.{ℕ, ◌*◌, ◌/◌, ◌≤◌, ◌≡◌, refl, arith, replicate, length-replicate}
use kvm_dmesg.Base.Bytes.{le}
use kvm_dmesg.Base.Run.{Returns}
use kvm_dmesg.Base.Word.{pos, add64}
use kvm_dmesg.Guest.{start_kernel_map}
use kvm_dmesg.Kaslr.{derive_kaslr_offset}
use kvm_dmesg.Kaslr.Derive.{
  IsReady, IsRelocated, kaslr_of, idt_paddr_of, derive_kaslr_offset-IsRelocated,
}
use kvm_dmesg.Kaslr.Gate.{handler_at}
use kvm_dmesg.Machine.{Machine, Registers}
use kvm_dmesg.Paging.Walk.{IsMapped}
use kvm_dmesg.Tests.Guests.{started, client}
use kvm_dmesg.Tests.Paging.{tables, tables-IsImage, blank-IsKept}

abbrev pub registers : Registers
registers = record { idtr = 0xffff_fe00_0000_0000; cr3 = 0x3801; cr4 = 0 }

abbrev divide_error : ℕ
divide_error = 0x1000_0000_0000

abbrev idt_table : ℕ
idt_table = 0xffff_ffff_8200_0000

abbrev machine : Machine
machine = started tables registers divide_error idt_table

abbrev machine-IsReady : IsReady tables machine
machine-IsReady = record {
  serves = record { client = client tables registers; chosen = refl; reads = λ a buf. refl };
  unmoved = refl;
  pagesize = refl;
  pageoffset = refl;
  pagemask = refl;
  pgd_page = length-replicate {A = ℕ} 4096 0;
  pud_kept = blank-IsKept;
  pmd_kept = blank-IsKept;
  ptbl_kept = blank-IsKept;
}

pub idt-IsMapped : IsMapped tables (registers.cr3 / 8192 * 8192) registers.idtr
unfolding le
idt-IsMapped = record {
  pud_there = λ e. absurd (omega (arith, e));
  pmd_there = λ e. absurd (omega (arith, e));
  ptbl_there = λ e. absurd (omega (arith, e));
}

handler : handler_at tables (idt_paddr_of tables registers) ≡ 0x1000_0000_1000
unfolding le
handler = refl

high : start_kernel_map ≤ add64 idt_table (kaslr_of tables (idt_paddr_of tables registers) machine)
unfolding le
high = omega arith

derive_kaslr_offset-IsRelocated_example : Returns (derive_kaslr_offset (replicate 16 0) 0 machine) (
    IsRelocated tables
      (idt_paddr_of tables registers)
      (kaslr_of tables (idt_paddr_of tables registers) machine)
      0xffff_ffff_8300_0000
      machine)
derive_kaslr_offset-IsRelocated_example =
    derive_kaslr_offset-IsRelocated tables machine (replicate 16 0) 0 registers
      0xffff_ffff_8300_0000 tables-IsImage machine-IsReady refl (omega arith)
      (record { status = pos 0; run = refl }) idt-IsMapped (omega arith) (omega arith) (omega arith)
      high
