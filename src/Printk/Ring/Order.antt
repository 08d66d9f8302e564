-- ===== src/Printk/Ring/Order.antt =====
-- The IDs that the loop visits, in their order, and when it does not end.
use kvm_dmesg.Base.{
  ℕ, zero, suc, ◌+◌, ◌-◌, ◌%◌, ◌^◌, ◌<◌, ◌≡◌, refl, sym, ap, ◌≢◌, List, [], ◌∷◌, ◌++◌, arith,
  append_assoc, append-nil, ne→==, eq→==,
}
use native.Mathlib.Numerals.{add-one}
use kvm_dmesg.Base.Bits.{bit_and_low}
use kvm_dmesg.Base.Bytes.{Bytes}
use kvm_dmesg.Base.Run.{Run, ok, fault, diverges, ◌>>=◌}
use kvm_dmesg.Base.Word.{add64}
use kvm_dmesg.Printk.Record.{PrbMap, dump_record}
use kvm_dmesg.Printk.Ring.{ring_next, ring_loop, ring_fuel, dump_ring}

pub ring_next_lem : (id : ℕ) → ring_next id ≡ (id + 1) % 2 ^ 62
unfolding ring_next
ring_next_lem id = omega (arith, bit_and_low 62 (add64 id 1))

-- `n` IDs from `id` on, in the order of the ring.
unfoldable pub ring_ids : ℕ → ℕ → List ℕ
ring_ids zero id = []
ring_ids (suc n) id = id ∷ ring_ids n ((id + 1) % 2 ^ 62)

-- How far `head` is ahead of `tail` in the ring of IDs.
abbrev pub ring_distance : ℕ → ℕ → ℕ
ring_distance tail head = (head + 2 ^ 62 - tail) % 2 ^ 62

-- The records of a list of IDs, one behind the other.
unfoldable pub dump_ids : PrbMap → List ℕ → Run Bytes
dump_ids m [] = ok []
dump_ids m (id ∷ ids) = do out ← dump_record m id; rest ← dump_ids m ids; ok (out ++ rest)

abbrev finish : PrbMap → Run (Bytes × ℕ) → Run Bytes
finish m r = do (out, id) ← r; last ← dump_record m id; ok (out ++ last)

join_last :
    (out rest : Bytes) (last t : Run Bytes)
    → (last >>= λ l. ok (rest ++ l)) ≡ t
    → (last >>= λ l. ok ((out ++ rest) ++ l)) ≡ (t >>= λ r. ok (out ++ r))
join_last out rest (ok l) t e = rw (← e) (ap ok (append_assoc out rest l))
join_last out rest fault t e = rw (← e)
join_last out rest diverges t e = rw (← e)

only_last : (last : Run Bytes) → (last >>= λ l. ok ([] ++ l)) ≡ (last >>= λ l. ok (l ++ []))
only_last (ok l) = ap ok (sym (append-nil l))
only_last fault = refl
only_last diverges = refl

finish_cons :
    (m : PrbMap) (r : Run Bytes) (s : Run (Bytes × ℕ)) (t : Run Bytes)
    → finish m s ≡ t
    → finish m (do out ← r; (rest, last) ← s; ok (out ++ rest, last))
      ≡ (do out ← r; rest ← t; ok (out ++ rest))
finish_cons m (ok out) (ok (rest, id)) t e = join_last out rest (dump_record m id) t e
finish_cons m (ok out) fault t e = rw (← e)
finish_cons m (ok out) diverges t e = rw (← e)
finish_cons m fault s t e = refl
finish_cons m diverges s t e = refl

ring_loop_stop :
    (m : PrbMap) (head fuel id : ℕ) → id ≡ head → ring_loop m head (suc fuel) id ≡ ok ([], id)
unfolding ring_loop
ring_loop_stop m head fuel id same = rw (eq→== id head same, ring_loop)

ring_loop_step :
    (m : PrbMap) (head fuel id : ℕ)
    → id ≢ head
    → ring_loop m head (suc fuel) id ≡ (do
      out ← dump_record m id
      (rest, last) ← ring_loop m head fuel ((id + 1) % 2 ^ 62)
      ok (out ++ rest, last))
unfolding ring_loop
ring_loop_step m head fuel id apart = rw (ne→== id head apart, ring_loop, ← ring_next_lem id)

ring_fuel_enough : (n : ℕ) → n % 2 ^ 62 < ring_fuel
unfolding ring_fuel
ring_fuel_enough n = omega arith

module _ (m : PrbMap) (head : ℕ) (head_fits : head < 2 ^ 62) where
  ring_loop-ids :
      (n fuel id : ℕ)
      → id < 2 ^ 62
      → ring_distance id head ≡ n
      → n < fuel
      → finish m (ring_loop m head fuel id) ≡ dump_ids m (ring_ids (suc n) id)
  unfolding dump_ids ring_ids
  ring_loop-ids n zero id fits e h = absurd (omega arith)
  ring_loop-ids zero (suc fuel) id fits e h =
      let same : id ≡ head = omega arith in
      rw (ring_loop_stop m head fuel id same) (only_last (dump_record m id))
  ring_loop-ids (suc n) (suc fuel) id fits e h =
      let apart : id ≢ head = λ same. absurd (omega arith) in
      let rest =
        ring_loop-ids n fuel ((id + 1) % 2 ^ 62) (omega arith) (omega arith) (omega arith) in
      rw (ring_loop_step m head fuel id apart)
        (finish_cons m (dump_record m id) (ring_loop m head fuel ((id + 1) % 2 ^ 62)) _ rest)

-- With both IDs below 2^62 the loop does not run out of fuel: it dumps the records of the IDs from
-- tail_id to head_id, both included, once each in the order of the ring, whatever the map holds,
-- and comes to the fault of one of them if it has one.
pub dump_ring-ids :
    (m : PrbMap) (tail head : ℕ)
    → tail < 2 ^ 62
    → head < 2 ^ 62
    → dump_ring m tail head ≡ dump_ids m (ring_ids (ring_distance tail head + 1) tail)
unfolding dump_ring
dump_ring-ids m tail head tail_fits head_fits = rw (add-one (ring_distance tail head)) (
    ring_loop-ids m head head_fits (ring_distance tail head) ring_fuel tail tail_fits refl
      (ring_fuel_enough _))
