-- ===== src/Printk/Ring.antt =====
-- The loop of dump_lockless_record_log (printk.c) over the descriptor IDs from tail to head.
pub mod Order
pub mod Lines
use Prim.Native.Nat.{bit_and}
use kvm_dmesg.Base.{ℕ, zero, suc, ◌+◌, ◌^◌, true, false, [], ◌++◌, ◌==◌}
use kvm_dmesg.Base.Bytes.{Bytes}
use kvm_dmesg.Base.Run.{Run, ok, diverges, ◌>>=◌}
use kvm_dmesg.Base.Word.{add64}
use kvm_dmesg.Printk.Record.{PrbMap, dump_record}
use kvm_dmesg.Printk.State.{desc_id_mask}

-- `id = (id + 1) & DESC_ID_MASK`
unfoldable pub ring_next : ℕ → ℕ
ring_next id = bit_and (add64 id 1) desc_id_mask

-- `for (id = tail_id; id != head_id; …) dump_record(&m, id);`: what it prints, and `id` at its end.
unfoldable pub ring_loop : PrbMap → ℕ → ℕ → ℕ → Run (Bytes × ℕ)
ring_loop m head_id zero id = diverges
ring_loop m head_id (suc fuel) id = elim (id == head_id) [
  | true ↦ ok ([], id)
  | false ↦ do
    out ← dump_record m id
    (rest, last) ← ring_loop m head_id fuel (ring_next id)
    ok (out ++ rest, last)
]

-- One test for each value that `id` can take from its second one on, and two more.
unfoldable pub ring_fuel : ℕ
ring_fuel = 2 ^ 62 + 2

-- The loop, and the record behind it.
unfoldable pub dump_ring : PrbMap → ℕ → ℕ → Run Bytes
dump_ring m tail_id head_id = do
  (out, id) ← ring_loop m head_id ring_fuel tail_id
  last ← dump_record m id
  ok (out ++ last)
