-- ===== src/Tests/Paging.antt =====
-- A guest in which every entry of a page table is 0x1000.
use kvm_dmesg.Base.{ℕ, ◌%◌, ◌≡◌, refl, ◌==◌, if◌then◌else◌, arith, inl, replicate, length-replicate}
use kvm_dmesg.Base.Bytes.{le}
use kvm_dmesg.Base.Run.{ok}
use kvm_dmesg.Guest.Translate.{Image, slice, Serves}
use kvm_dmesg.Machine.{Machine}
use kvm_dmesg.Paging.{x86_64_kvtop}
use kvm_dmesg.Paging.Tables.{physical}
use kvm_dmesg.Paging.Walk.{IsImage, IsKept, IsWalkable, IsMapped, walked, x86_64_kvtop-physical}
use kvm_dmesg.Tests.Guests.{started, no_registers, client}

abbrev pub tables : Image
tables a = if a % 8 == 1 then 16 else 0

pub tables-IsImage : IsImage tables
tables-IsImage a = ground arith

-- The state with the top-level page read.
abbrev pub machine : Machine
machine =
    let m = started tables no_registers 0 0 in
    record m {
      machdep = record m.machdep { pgd = slice tables 0x2000 4096; last_pgd_read = 0x2000 };
    }

machine-Serves : Serves tables machine
machine-Serves = record {
  client = client tables no_registers;
  chosen = refl;
  reads = λ a buf. refl;
}

pub blank-IsKept : IsKept tables (replicate 4096 0) 0
blank-IsKept = (length-replicate {A = ℕ} 4096 0, inl refl)

machine-IsWalkable : IsWalkable tables 0x2000 machine
machine-IsWalkable = record {
  serves = machine-Serves;
  x8664 = record {
    pagesize = refl;
    pageoffset = refl;
    pagemask = refl;
    pgdir_shift = refl;
    ptrs_per_pgd = refl;
    physical_mask_shift = refl;
  };
  top = refl;
  pud_kept = blank-IsKept;
  pmd_kept = blank-IsKept;
  ptbl_kept = blank-IsKept;
}

abbrev va : ℕ
va = 0xffff_ffff_8123_4567

pub va-IsMapped : IsMapped tables 0x2000 va
unfolding le
va-IsMapped = record {
  pud_there = λ e. absurd (omega (arith, e));
  pmd_there = λ e. absurd (omega (arith, e));
  ptbl_there = λ e. absurd (omega (arith, e));
}

-- The page at 0x1000, and the offset of the address.
va-physical : physical tables 0x2000 va ≡ 0x1567
unfolding le
va-physical = refl

x86_64_kvtop-physical_example :
    (x86_64_kvtop machine va ≡ ok (physical tables 0x2000 va, walked tables 0x2000 machine va))
    × IsWalkable tables 0x2000 (walked tables 0x2000 machine va)
x86_64_kvtop-physical_example =
    x86_64_kvtop-physical tables 0x2000 machine va tables-IsImage machine-IsWalkable va-IsMapped
