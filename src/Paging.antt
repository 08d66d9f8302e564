-- ===== src/Paging.antt =====
-- main.c, the page-table walk: x86_64_kvtop and the functions that it calls, with the pages that
-- the macros FILL_PUD, FILL_PMD and FILL_PTBL of defs.h keep.
pub mod Tables
pub mod Walk
use Prim.Native.Nat.{bit_and}
use kvm_dmesg.Base.{ℕ, ◌+◌, ◌-◌, ◌*◌, ◌/◌, ◌^◌, Bool, true, false, ◌==◌, if◌then◌else◌}
use kvm_dmesg.Base.Bytes.{Bytes, ulong}
use kvm_dmesg.Base.Run.{Run, ok, ◌>>=◌}
use kvm_dmesg.Base.Word.{add64, u64, not64}
use kvm_dmesg.Guest.{readmem, physaddr}
use kvm_dmesg.Machine.{Machine, MachdepTable, MachineSpecific}

abbrev pub page_shift : ℕ
page_shift = 12

-- PHYSICAL_PAGE_MASK
unfoldable pub physical_page_mask : Machine → ℕ
physical_page_mask m =
    bit_and (not64 (2 ^ page_shift - 1)) (2 ^ m.machdep.machspec.physical_mask_shift - 1)

-- PAGEOFFSET and PAGEBASE.
unfoldable pub page_offset_of : Machine → ℕ → ℕ
page_offset_of m x = bit_and x m.machdep.pageoffset

unfoldable pub page_base_of : Machine → ℕ → ℕ
page_base_of m x = bit_and x m.machdep.pagemask

-- pgd_index, pud_index, pmd_index and pte_index.
unfoldable pub pgd_index : Machine → ℕ → ℕ
pgd_index m address =
    let spec = m.machdep.machspec in
    bit_and (address / 2 ^ spec.pgdir_shift) (spec.ptrs_per_pgd - 1)

unfoldable pub pud_index : ℕ → ℕ
pud_index address = bit_and (address / 2 ^ 30) (512 - 1)

unfoldable pub pmd_index : ℕ → ℕ
pmd_index address = bit_and (address / 2 ^ 21) (512 - 1)

unfoldable pub pte_index : ℕ → ℕ
pte_index address = bit_and (address / 2 ^ page_shift) (512 - 1)

-- A FILL macro: the page at `paddr` is read unless it is the one that was read last. The result of
-- readmem is not looked at.
unfoldable pub fill_page : Machine → ℕ → Bytes → ℕ → Run Bytes
fill_page m paddr page last_read =
    if paddr == last_read
    then ok page
    else do (r, filled) ← readmem m paddr physaddr page m.machdep.pagesize; ok filled

-- `*(((ulong *)paddr) + index)`, read from the copy of the page.
unfoldable pub table_entry : Machine → Bytes → ℕ → ℕ → Run ℕ
table_entry m page paddr index = ulong page (page_offset_of m (add64 paddr (8 * index)))

-- x86_64_kpgd_offset, and the entry that it points to.
unfoldable pub x86_64_kpgd_offset : Machine → ℕ → Run ℕ
x86_64_kpgd_offset m kvaddr = ulong m.machdep.pgd (8 * pgd_index m kvaddr)

unfoldable pub x86_64_pud_offset : Machine → ℕ → ℕ → Run (ℕ × Machine)
x86_64_pud_offset m pgd_pte vaddr = do
  let pud_paddr = bit_and pgd_pte (physical_page_mask m)
  pud ← fill_page m pud_paddr m.machdep.pud m.machdep.last_pud_read
  pud_pte ← table_entry m pud pud_paddr (pud_index vaddr)
  ok (pud_pte, record m { machdep = record m.machdep { pud = pud; last_pud_read = pud_paddr } })

unfoldable pub x86_64_pmd_offset : Machine → ℕ → ℕ → Run (ℕ × Machine)
x86_64_pmd_offset m pud_pte vaddr = do
  let pmd_paddr = bit_and pud_pte (physical_page_mask m)
  pmd ← fill_page m pmd_paddr m.machdep.pmd m.machdep.last_pmd_read
  pmd_pte ← table_entry m pmd pmd_paddr (pmd_index vaddr)
  ok (pmd_pte, record m { machdep = record m.machdep { pmd = pmd; last_pmd_read = pmd_paddr } })

unfoldable pub x86_64_pte_offset : Machine → ℕ → ℕ → Run (ℕ × Machine)
x86_64_pte_offset m pmd_pte vaddr = do
  let pte_paddr = bit_and pmd_pte (physical_page_mask m)
  ptbl ← fill_page m pte_paddr m.machdep.ptbl m.machdep.last_ptbl_read
  pte ← table_entry m ptbl pte_paddr (pte_index vaddr)
  ok (pte, record m { machdep = record m.machdep { ptbl = ptbl; last_ptbl_read = pte_paddr } })

-- x86_64_kvtop: the physical address, and the state with the pages that were read.
unfoldable pub x86_64_kvtop : Machine → ℕ → Run (ℕ × Machine)
x86_64_kvtop m kvaddr = do
  pgd_pte ← x86_64_kpgd_offset m kvaddr
  (pud_pte, m₁) ← x86_64_pud_offset m pgd_pte kvaddr
  (pmd_pte, m₂) ← x86_64_pmd_offset m₁ pud_pte kvaddr
  (pte, m₃) ← x86_64_pte_offset m₂ pmd_pte kvaddr
  let base = bit_and (page_base_of m₃ pte) (physical_page_mask m₃)
  ok (add64 base (page_offset_of m₃ kvaddr), m₃)
