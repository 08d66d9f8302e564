-- ===== src/Paging/Tables.antt =====
-- The masks and indices of the walk as arithmetic, and the page tables as they stand in memory.
use Prim.Native.Nat.{bit_and}
use kvm_dmesg.Base.{ℕ, ◌+◌, ◌-◌, ◌*◌, ◌/◌, ◌%◌, ◌^◌, ◌<◌, ◌≡◌, ◌∙◌, ap, arith}
use kvm_dmesg.Base.Bits.{bit_and_low, bit_and_high}
use kvm_dmesg.Base.Bytes.{le}
use kvm_dmesg.Base.Word.{add64, not64}
use kvm_dmesg.Guest.Translate.{Image, slice}
use kvm_dmesg.Machine.{Machine}
use kvm_dmesg.Paging.{
  physical_page_mask, page_offset_of, page_base_of, pgd_index, pud_index, pmd_index, pte_index,
}

-- The constants that x86_64_init and calc_kaslr_offset set: 4 KiB pages, four levels, 46-bit physical
-- addresses.
pub record IsX8664 (m : Machine) : Type 0 where
  pub pagesize : m.machdep.pagesize ≡ 4096
  pub pageoffset : m.machdep.pageoffset ≡ 4095
  pub pagemask : m.machdep.pagemask ≡ not64 4095
  pub pgdir_shift : m.machdep.machspec.pgdir_shift ≡ 39
  pub ptrs_per_pgd : m.machdep.machspec.ptrs_per_pgd ≡ 512
  pub physical_mask_shift : m.machdep.machspec.physical_mask_shift ≡ 46

-- The page that an entry points to: bits 12 to 45.
abbrev pub table_of : ℕ → ℕ
table_of pte = pte / 4096 % 2 ^ 34 * 4096

-- Entry `index` of the table in the page at `table`.
abbrev pub entry_at : Image → ℕ → ℕ → ℕ
entry_at mem table index = le (slice mem (table + 8 * index) 8)

middle_bits : (a : ℕ) → bit_and a 0x3fff_ffff_f000 ≡ table_of a
middle_bits a =
    bit_and_high 12 a (2 ^ 34 - 1) ∙ ap (λ (t : ℕ). t * 4096) (bit_and_low 34 (a / 4096))

high_bits : (a : ℕ) → a < 2 ^ 64 → bit_and a (not64 4095) ≡ a / 4096 * 4096
high_bits a h =
    bit_and_high 12 a (2 ^ 52 - 1)
    ∙ ap (λ (t : ℕ). t * 4096) (bit_and_low 52 (a / 4096))
    ∙ omega arith

module _ (m : Machine) (x : IsX8664 m) where
  pub physical_page_mask_lem : (pte : ℕ) → bit_and pte (physical_page_mask m) ≡ table_of pte
  unfolding physical_page_mask
  physical_page_mask_lem pte = rw x.physical_mask_shift (middle_bits pte)

  pub page_offset_of_lem : (a : ℕ) → page_offset_of m a ≡ a % 4096
  unfolding page_offset_of
  page_offset_of_lem a = rw x.pageoffset (bit_and_low 12 a)

  -- The offset of entry `index` in a page is where it stands in the copy of the page.
  pub entry_offset :
      (pte index : ℕ)
      → index < 512
      → page_offset_of m (add64 (table_of pte) (8 * index)) ≡ 8 * index
  entry_offset pte index h = page_offset_of_lem _ ∙ omega arith

  pub page_base_lem :
      (pte : ℕ) → pte < 2 ^ 64 → bit_and (page_base_of m pte) (physical_page_mask m) ≡ table_of pte
  unfolding page_base_of physical_page_mask
  page_base_lem pte h =
      rw (x.pagemask, high_bits pte h) (physical_page_mask_lem (pte / 4096 * 4096) ∙ omega arith)

  pub pgd_index_lem : (va : ℕ) → pgd_index m va ≡ va / 2 ^ 39 % 512
  unfolding pgd_index
  pgd_index_lem va = rw (x.pgdir_shift, x.ptrs_per_pgd) (bit_and_low 9 (va / 2 ^ 39))

pub pud_index_lem : (va : ℕ) → pud_index va ≡ va / 2 ^ 30 % 512
unfolding pud_index
pud_index_lem va = bit_and_low 9 (va / 2 ^ 30)

pub pmd_index_lem : (va : ℕ) → pmd_index va ≡ va / 2 ^ 21 % 512
unfolding pmd_index
pmd_index_lem va = bit_and_low 9 (va / 2 ^ 21)

pub pte_index_lem : (va : ℕ) → pte_index va ≡ va / 2 ^ 12 % 512
unfolding pte_index
pte_index_lem va = bit_and_low 9 (va / 2 ^ 12)

-- The four-level walk over the tables in memory, from the page of the top level.
pub record Translation : Type 0 where
  pub pgd_entry : ℕ
  pub pud_entry : ℕ
  pub pmd_entry : ℕ
  pub pte : ℕ

abbrev pub translate : Image → ℕ → ℕ → Translation
translate mem pgd va =
    let pgd_entry = entry_at mem pgd (va / 2 ^ 39 % 512) in
    let pud_entry = entry_at mem (table_of pgd_entry) (va / 2 ^ 30 % 512) in
    let pmd_entry = entry_at mem (table_of pud_entry) (va / 2 ^ 21 % 512) in
    record {
      pgd_entry = pgd_entry;
      pud_entry = pud_entry;
      pmd_entry = pmd_entry;
      pte = entry_at mem (table_of pmd_entry) (va / 2 ^ 12 % 512);
    }

abbrev pub physical : Image → ℕ → ℕ → ℕ
physical mem pgd va = table_of (translate mem pgd va).pte + va % 4096
