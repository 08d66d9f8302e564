-- ===== src/Printk/Ring/Lines.antt =====
-- The whole ring: what is printed of it, if its arrays are laid out as printk.h says.
use kvm_dmesg.Base.{
  ℕ, zero, suc, ◌+◌, ◌%◌, ◌^◌, ◌<◌, ◌≡◌, refl, ◌∙◌, Option, none, some, List, [], ◌∷◌, ◌++◌,
  if◌then◌else◌, arith, length, get_elem?, lt-get_elem?,
}
use mathlib.Core.Path.{subst}
use mathlib.Core.Option.{some-injective}
use kvm_dmesg.Base.Bytes.{Bytes}
use kvm_dmesg.Base.Run.{ok}
use kvm_dmesg.Printk.Layout.{PrbDesc, PrintkInfo, IsPrbDesc, IsPrintkInfo}
use kvm_dmesg.Printk.Record.{PrbMap, dump_record}
use kvm_dmesg.Printk.Record.Show.{Holds, IsBlock, record_line, dump_record-record_line}
use kvm_dmesg.Printk.Ring.{dump_ring}
use kvm_dmesg.Printk.Ring.Order.{ring_ids, ring_distance, dump_ids, dump_ring-ids}
use kvm_dmesg.Printk.State.{state_matches}

-- The values of a list that are all good.
abbrev pub All {ℓ} : {A : Type ℓ} → (A → Type 0) → List A → Type 0
All P [] = Unit {0}
All P (x ∷ xs) = P x × All P xs

All-get_elem? {ℓ} :
    {A : Type ℓ} (P : A → Type 0) (xs : List A) (i : ℕ) (x : A)
    → All P xs
    → get_elem? xs i ≡ some x
    → P x
All-get_elem? P [] i x h e = cc
All-get_elem? P (y ∷ ys) zero x h e = subst P (some-injective _ _ e) h.0
All-get_elem? P (y ∷ ys) (suc i) x h e = All-get_elem? P ys i x h.1 e

-- The map holds a descriptor and an info for each slot; the fields fit their types, and every block is
-- empty or has room for its ID.
pub record IsRing (ds : List PrbDesc) (is : List PrintkInfo) (m : PrbMap) : Type 0 where
  pub holds : Holds ds is m
  pub desc_count : length ds ≡ m.desc_ring_count
  pub info_count : length is ≡ m.desc_ring_count
  pub descs_fit : All IsPrbDesc ds
  pub infos_fit : All IsPrintkInfo is
  pub blocks : All (IsBlock m) ds

abbrev slot_line : PrbMap → ℕ → Option PrbDesc → Option PrintkInfo → Bytes
slot_line m id none i = []
slot_line m id (some d) none = []
slot_line m id (some d) (some i) = if state_matches id d.state_var then record_line m d i else []

-- The lines of a list of IDs.
unfoldable pub ring_lines : PrbMap → List PrbDesc → List PrintkInfo → List ℕ → Bytes
ring_lines m ds is [] = []
ring_lines m ds is (id ∷ ids) =
    let slot = id % m.desc_ring_count in
    slot_line m id (get_elem? ds slot) (get_elem? is slot) ++ ring_lines m ds is ids

module _ (ds : List PrbDesc) (is : List PrintkInfo) (m : PrbMap) (ring : IsRing ds is m) where
  -- The line of one ID.
  pub record_step :
      (id : ℕ)
      → dump_record m id
        ≡ ok (
            slot_line m id
              (get_elem? ds (id % m.desc_ring_count))
              (get_elem? is (id % m.desc_ring_count)))
  record_step id =
      let some_slot = ring.holds.some_slot in
      let (d, e) = lt-get_elem? ds (id % m.desc_ring_count) (omega (arith, ring.desc_count)) in
      let (i, f) = lt-get_elem? is (id % m.desc_ring_count) (omega (arith, ring.info_count)) in
      let here =
        dump_record-record_line m id d i
          (record {
            ds = ds;
            is = is;
            holds = ring.holds;
            desc_at = e;
            info_at = f;
            desc_fits = All-get_elem? IsPrbDesc ds _ d ring.descs_fit e;
            info_fits = All-get_elem? IsPrintkInfo is _ i ring.infos_fit f;
          })
          (All-get_elem? (IsBlock m) ds _ d ring.blocks e) in
      rw (e, f) here

  pub dump_ids-ring_lines : (ids : List ℕ) → dump_ids m ids ≡ ok (ring_lines m ds is ids)
  unfolding dump_ids ring_lines
  dump_ids-ring_lines [] = refl
  dump_ids-ring_lines (id ∷ ids) = rw (record_step id, dump_ids-ring_lines ids)

-- With both IDs below 2^62 and arrays that are laid out as printk.h says, the loop over the ring
-- ends without a fault and prints the line of each record from tail_id to head_id, in the order of
-- the ring.
pub dump_ring-ring_lines :
    (ds : List PrbDesc) (is : List PrintkInfo) (m : PrbMap) (tail head : ℕ)
    → IsRing ds is m
    → tail < 2 ^ 62
    → head < 2 ^ 62
    → dump_ring m tail head ≡ ok (ring_lines m ds is (ring_ids (ring_distance tail head + 1) tail))
dump_ring-ring_lines ds is m tail head ring p q =
    dump_ring-ids m tail head p q
    ∙ dump_ids-ring_lines ds is m ring (ring_ids (ring_distance tail head + 1) tail)
