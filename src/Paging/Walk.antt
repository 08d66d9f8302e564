-- ===== src/Paging/Walk.antt =====
-- x86_64_kvtop is the walk over the tables in the guest's memory, whichever pages are kept from
-- earlier walks.
use Prim.Native.Nat.{bit_and}
use kvm_dmesg.Base.{
  ℕ, zero, suc, ◌+◌, ◌*◌, ◌/◌, ◌%◌, ◌^◌, ◌<◌, ◌≡◌, refl, sym, ap, ◌∙◌, ◌≢◌, ◌⊎◌, ◌==◌, arith,
  length, Bool-cases, inl, inr, ==→eq,
}
use native.Mathlib.Nat.{pow-suc}
use kvm_dmesg.Base.Bytes.{Bytes, le, load}
use kvm_dmesg.Base.Run.{ok}
use kvm_dmesg.Base.Word.{add64}
use kvm_dmesg.Guest.{physaddr, paddr_of}
use kvm_dmesg.Guest.Translate.{Image, slice, length-slice, load-slice, Serves, readmem-Serves}
use kvm_dmesg.Machine.{Machine}
use kvm_dmesg.Paging.{
  fill_page, table_entry, physical_page_mask, page_base_of, page_offset_of, x86_64_kpgd_offset,
  x86_64_pud_offset, x86_64_pmd_offset, x86_64_pte_offset, x86_64_kvtop,
}
use kvm_dmesg.Paging.Tables.{
  IsX8664, table_of, entry_at, physical_page_mask_lem, entry_offset, page_base_lem,
  page_offset_of_lem, pgd_index_lem, pud_index_lem, pmd_index_lem, pte_index_lem, translate,
  physical,
}

-- Memory holds bytes.
abbrev pub IsImage : Image → Type 0
IsImage mem = (a : ℕ) → mem a < 256

pub le-slice-lt : (mem : Image) → IsImage mem → (w a : ℕ) → le (slice mem a w) < 256 ^ w
unfolding le
le-slice-lt mem bytes zero a = omega arith
le-slice-lt mem bytes (suc w) a =
    omega (arith, bytes a, le-slice-lt mem bytes w (a + 1), pow-suc 256 w)

-- A kept page is the one in memory at the address noted with it. The address 0 is noted before any
-- page is read.
abbrev pub IsKept : Image → Bytes → ℕ → Type 0
IsKept mem page last = (length page ≡ 4096) × ((last ≡ 0) ⊎ (page ≡ slice mem last 4096))

IsKept-slice : (mem : Image) (a : ℕ) → IsKept mem (slice mem a 4096) a
IsKept-slice mem a = (length-slice mem a 4096, inr refl)

-- The client reads `mem`, the constants are set, the top level is the page at `pgd`, and the other
-- pages are kept right.
pub record IsWalkable (mem : Image) (pgd : ℕ) (m : Machine) : Type 0 where
  pub serves : Serves mem m
  pub x8664 : IsX8664 m
  pub top : m.machdep.pgd ≡ slice mem pgd 4096
  pub pud_kept : IsKept mem m.machdep.pud m.machdep.last_pud_read
  pub pmd_kept : IsKept mem m.machdep.pmd m.machdep.last_pmd_read
  pub ptbl_kept : IsKept mem m.machdep.ptbl m.machdep.last_ptbl_read

module _ (mem : Image) (m : Machine) (s : Serves mem m) (x : IsX8664 m) where
  pub fill_page-slice :
      (paddr : ℕ) (page : Bytes) (last : ℕ)
      → IsKept mem page last
      → paddr ≢ 0
      → fill_page m paddr page last ≡ ok (slice mem paddr 4096)
  unfolding fill_page paddr_of
  fill_page-slice paddr page last kept there = elim (Bool-cases (paddr == last)) [
    | inl same ↦
        let e = ==→eq paddr last same in
        elim kept.1 [
          | inl zero_last ↦ absurd (there (e ∙ zero_last))
          | inr right ↦ rw same (ap ok right ∙ ap (λ (a : ℕ). ok (slice mem a 4096)) (sym e))
        ]
    | inr other ↦
        rw
          (
            other,
            readmem-Serves mem m paddr physaddr page m.machdep.pagesize s (kept.0 ∙ sym x.pagesize),
          )
          (ap (λ (n : ℕ). ok (slice mem paddr n)) x.pagesize)
  ]

  pub table_entry-slice :
      (pte index : ℕ)
      → index < 512
      → table_entry m (slice mem (table_of pte) 4096) (table_of pte) index
        ≡ ok (entry_at mem (table_of pte) index)
  unfolding table_entry
  table_entry-slice pte index h =
      rw (entry_offset m x pte index h)
        (load-slice mem 8 (8 * index) (table_of pte) 4096 (omega arith))

module _ (mem : Image) (pgd : ℕ) (m : Machine) (w : IsWalkable mem pgd m) (va : ℕ) where
  abbrev with_pud : ℕ → Machine
  with_pud a = record m { machdep = record m.machdep { pud = slice mem a 4096; last_pud_read = a } }

  abbrev with_pmd : ℕ → Machine
  with_pmd a = record m { machdep = record m.machdep { pmd = slice mem a 4096; last_pmd_read = a } }

  abbrev with_ptbl : ℕ → Machine
  with_ptbl a = record m {
    machdep = record m.machdep { ptbl = slice mem a 4096; last_ptbl_read = a };
  }

  kpgd_step : x86_64_kpgd_offset m va ≡ ok (entry_at mem pgd (va / 2 ^ 39 % 512))
  unfolding x86_64_kpgd_offset
  kpgd_step =
      rw (pgd_index_lem m w.x8664 va) (ap (λ (p : Bytes). load 8 p (8 * (va / 2 ^ 39 % 512))) w.top)
      ∙ load-slice mem 8 (8 * (va / 2 ^ 39 % 512)) pgd 4096 (omega arith)

  pud_step :
      (pte : ℕ)
      → table_of pte ≢ 0
      → x86_64_pud_offset m pte va
        ≡ ok (entry_at mem (table_of pte) (va / 2 ^ 30 % 512), with_pud (table_of pte))
  unfolding x86_64_pud_offset
  pud_step pte there = rw (
    physical_page_mask_lem m w.x8664 pte,
    fill_page-slice mem m w.serves w.x8664 (table_of pte) m.machdep.pud m.machdep.last_pud_read
        w.pud_kept there,
    pud_index_lem va,
    table_entry-slice mem m w.serves w.x8664 pte (va / 2 ^ 30 % 512) (omega arith),
  )

  pmd_step :
      (pte : ℕ)
      → table_of pte ≢ 0
      → x86_64_pmd_offset m pte va
        ≡ ok (entry_at mem (table_of pte) (va / 2 ^ 21 % 512), with_pmd (table_of pte))
  unfolding x86_64_pmd_offset
  pmd_step pte there = rw (
    physical_page_mask_lem m w.x8664 pte,
    fill_page-slice mem m w.serves w.x8664 (table_of pte) m.machdep.pmd m.machdep.last_pmd_read
        w.pmd_kept there,
    pmd_index_lem va,
    table_entry-slice mem m w.serves w.x8664 pte (va / 2 ^ 21 % 512) (omega arith),
  )

  pte_step :
      (pte : ℕ)
      → table_of pte ≢ 0
      → x86_64_pte_offset m pte va
        ≡ ok (entry_at mem (table_of pte) (va / 2 ^ 12 % 512), with_ptbl (table_of pte))
  unfolding x86_64_pte_offset
  pte_step pte there = rw (
    physical_page_mask_lem m w.x8664 pte,
    fill_page-slice mem m w.serves w.x8664 (table_of pte) m.machdep.ptbl m.machdep.last_ptbl_read
        w.ptbl_kept there,
    pte_index_lem va,
    table_entry-slice mem m w.serves w.x8664 pte (va / 2 ^ 12 % 512) (omega arith),
  )

final_step :
    (m : Machine) (x : IsX8664 m) (pte va : ℕ)
    → pte < 2 ^ 64
    → add64 (bit_and (page_base_of m pte) (physical_page_mask m)) (page_offset_of m va)
      ≡ table_of pte + va % 4096
final_step m x pte va h = rw (page_base_lem m x pte h, page_offset_of_lem m x va) (omega arith)

-- The same state with other pages kept.
abbrev pub with_pages : Machine → Bytes → ℕ → Bytes → ℕ → Bytes → ℕ → Machine
with_pages m pud a pmd b ptbl c = record m {
  machdep = record m.machdep {
    pud = pud;
    pmd = pmd;
    ptbl = ptbl;
    last_pud_read = a;
    last_pmd_read = b;
    last_ptbl_read = c;
  };
}

with_pages-IsWalkable :
    (mem : Image) (pgd : ℕ) (m : Machine) (pud : Bytes) (a : ℕ) (pmd : Bytes) (b : ℕ) (ptbl : Bytes)
    (c : ℕ)
    → IsWalkable mem pgd m
    → IsKept mem pud a
    → IsKept mem pmd b
    → IsKept mem ptbl c
    → IsWalkable mem pgd (with_pages m pud a pmd b ptbl c)
with_pages-IsWalkable mem pgd m pud a pmd b ptbl c w p q r = record {
  serves = record { client = w.serves.client; chosen = w.serves.chosen; reads = w.serves.reads };
  x8664 = record {
    pagesize = w.x8664.pagesize;
    pageoffset = w.x8664.pageoffset;
    pagemask = w.x8664.pagemask;
    pgdir_shift = w.x8664.pgdir_shift;
    ptrs_per_pgd = w.x8664.ptrs_per_pgd;
    physical_mask_shift = w.x8664.physical_mask_shift;
  };
  top = w.top;
  pud_kept = p;
  pmd_kept = q;
  ptbl_kept = r;
}

-- Every level of the walk has a table, at an address that is not 0.
pub record IsMapped (mem : Image) (pgd va : ℕ) : Type 0 where
  pub pud_there : table_of (translate mem pgd va).pgd_entry ≢ 0
  pub pmd_there : table_of (translate mem pgd va).pud_entry ≢ 0
  pub ptbl_there : table_of (translate mem pgd va).pmd_entry ≢ 0

-- The state after the walk: the three pages of this walk are kept.
abbrev pub walked : Image → ℕ → Machine → ℕ → Machine
walked mem pgd m va =
    let t = translate mem pgd va in
    with_pages m (slice mem (table_of t.pgd_entry) 4096) (table_of t.pgd_entry)
      (slice mem (table_of t.pud_entry) 4096) (table_of t.pud_entry)
      (slice mem (table_of t.pmd_entry) 4096) (table_of t.pmd_entry)

-- With a client that serves the guest's memory, which holds bytes, the constants set, the kept
-- pages right and a table at every level, x86_64_kvtop returns the address that the four-level
-- tables in memory give, whichever pages were kept, and leaves a state of which the same holds.
pub x86_64_kvtop-physical :
    (mem : Image) (pgd : ℕ) (m : Machine) (va : ℕ)
    → IsImage mem
    → IsWalkable mem pgd m
    → IsMapped mem pgd va
    → (x86_64_kvtop m va ≡ ok (physical mem pgd va, walked mem pgd m va))
      × IsWalkable mem pgd (walked mem pgd m va)
unfolding x86_64_kvtop
x86_64_kvtop-physical mem pgd m va bytes w there =
    let t = translate mem pgd va in
    let a : ℕ = table_of t.pgd_entry in
    let b : ℕ = table_of t.pud_entry in
    let c : ℕ = table_of t.pmd_entry in
    let d = m.machdep in
    let ka = IsKept-slice mem a in
    let kb = IsKept-slice mem b in
    let kc = IsKept-slice mem c in
    let w1 =
      with_pages-IsWalkable mem pgd m (slice mem a 4096) a d.pmd d.last_pmd_read d.ptbl
        d.last_ptbl_read w ka w.pmd_kept w.ptbl_kept in
    let w2 =
      with_pages-IsWalkable mem pgd m (slice mem a 4096) a (slice mem b 4096) b d.ptbl
        d.last_ptbl_read w ka kb w.ptbl_kept in
    let w3 =
      with_pages-IsWalkable mem pgd m (slice mem a 4096) a (slice mem b 4096) b (slice mem c 4096) c
        w ka kb kc in
    (
      rw (
        kpgd_step mem pgd m w va,
        pud_step mem pgd m w va t.pgd_entry there.pud_there,
        pmd_step mem pgd
            (with_pages m (slice mem a 4096) a d.pmd d.last_pmd_read d.ptbl d.last_ptbl_read) w1 va
            t.pud_entry there.pmd_there,
        pte_step mem pgd
            (with_pages m (slice mem a 4096) a (slice mem b 4096) b d.ptbl d.last_ptbl_read) w2 va
            t.pmd_entry there.ptbl_there,
        final_step (walked mem pgd m va) w3.x8664 t.pte va
            (le-slice-lt mem bytes 8 (c + 8 * (va / 2 ^ 12 % 512))),
      ),
      w3,
    )
