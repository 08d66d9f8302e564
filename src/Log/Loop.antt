-- ===== src/Log/Loop.antt =====
-- The loop of dump_variable_length_record_log over a buffer that holds records: without a wrap, and
-- with one, where a length of zero sends the reader back to the front.
use kvm_dmesg.Base.{
  ℕ, suc, ◌+◌, ◌-◌, ◌^◌, ◌≤◌, ◌<◌, ◌≡◌, ◌≢◌, ◌⊎◌, inl, inr, refl, sym, ap, ◌∙◌, List, [], ◌∷◌, ◌++◌,
  arith, lt→leb, eq→==, ne→==, length, drop, append_assoc, append-nil,
}
use kvm_dmesg.Base.Bytes.{Bytes, load, ushort}
use kvm_dmesg.Base.Run.{Run, ok, fault, diverges, ◌>>=◌}
use kvm_dmesg.Log.{log_len, log_from_idx, log_next, dump_log_entry, log_loop, log_fuel}
use kvm_dmesg.Log.Records.{
  LogEntry, IsLogEntry, entry_len, entry_line, entry_onto, load-drop, field_len,
  dump_log_entry-entry_line, log_from_idx_lem, log_next_lem, drop-entry_len,
}

-- Records one behind the other, and then other bytes.
abbrev pub entries_onto : List LogEntry → Bytes → Bytes
entries_onto [] s = s
entries_onto (e ∷ es) s = entry_onto e (entries_onto es s)

abbrev pub entries_len : List LogEntry → ℕ
entries_len [] = 0
entries_len (e ∷ es) = entry_len e + entries_len es

abbrev pub entry_lines : List LogEntry → Bytes
entry_lines [] = []
entry_lines (e ∷ es) = entry_line e ++ entry_lines es

abbrev pub AllEntries : List LogEntry → Type 0
AllEntries [] = Unit {0}
AllEntries (e ∷ es) = IsLogEntry e × AllEntries es

entries_len_ge : (es : List LogEntry) → length es ≤ entries_len es
entries_len_ge [] = omega arith
entries_len_ge (e ∷ es) = omega (arith, entries_len_ge es)

-- One round of the loop that goes on.
pub loop_step :
    (buf : Bytes) (len next fuel idx ptr idx' : ℕ) (out : Bytes)
    → idx ≢ next
    → log_from_idx idx buf ≡ ok ptr
    → dump_log_entry buf ptr ≡ ok out
    → log_next idx buf ≡ ok idx'
    → idx' < len
    → log_loop buf len next (suc fuel) idx
      ≡ (log_loop buf len next fuel idx' >>= λ rest. ok (out ++ rest))
unfolding log_loop
loop_step buf len next fuel idx ptr idx' out apart p q r below =
    rw (ne→== idx next apart, log_loop, p, q, r, ◌>>=◌, lt→leb len idx' below)

loop_stop :
    (buf : Bytes) (len next fuel idx : ℕ)
    → idx ≡ next
    → log_loop buf len next (suc fuel) idx ≡ ok []
unfolding log_loop
loop_stop buf len next fuel idx same = rw (eq→== idx next same, log_loop)

join :
    (a b : Bytes) (r : Run Bytes)
    → (r >>= (λ rest. ok (b ++ rest)) >>= λ rest. ok (a ++ rest))
      ≡ (r >>= λ rest. ok ((a ++ b) ++ rest))
join a b (ok t) = ap ok (sym (append_assoc a b t))
join a b fault = refl
join a b diverges = refl

unit : (r : Run Bytes) → r ≡ (r >>= λ rest. ok rest)
unit (ok t) = refl
unit fault = refl
unit diverges = refl

module _ (buf : Bytes) (len next : ℕ) (small : len ≤ 2 ^ 21) where
  -- The loop over records that stand in the buffer from `idx` on, none of which starts at `next`.
  loop_over :
      (es : List LogEntry) (fuel idx : ℕ) (s : Bytes)
      → AllEntries es
      → drop idx buf ≡ entries_onto es s
      → idx + entries_len es < len
      → (next < idx) ⊎ (idx + entries_len es ≤ next)
      → log_loop buf len next (length es + fuel) idx ≡ (
          log_loop buf len next fuel (idx + entries_len es) >>= λ rest. ok (entry_lines es ++ rest))
  loop_over [] fuel idx s all at room apart =
      let fuel_same : 0 + fuel ≡ fuel = omega arith in
      let idx_same : idx + 0 ≡ idx = omega arith in rw (fuel_same, idx_same) (unit _)
  loop_over (e ∷ es) fuel idx s all at room apart =
      let here = entries_onto es s in
      let behind = drop-entry_len buf idx e here all.0 at in
      let rest =
        loop_over es fuel (idx + entry_len e) s all.1 behind (omega arith) (ground arith) in
      let fuel_same : suc (length es) + fuel ≡ suc (length es + fuel) = omega arith in
      let idx_same : idx + entry_len e + entries_len es ≡ idx + (entry_len e + entries_len es) =
        omega arith in
      let step =
        loop_step buf len next (length es + fuel) idx idx (idx + entry_len e) (entry_line e)
          (ground arith) (log_from_idx_lem buf idx e here all.0 at)
          (dump_log_entry-entry_line buf idx e here all.0 at)
          (log_next_lem buf idx e here all.0 at (omega arith)) (omega arith) in
      rw fuel_same (
        step
        ∙ ap (λ (r : Run Bytes). r >>= λ t. ok (entry_line e ++ t)) rest
        ∙ join (entry_line e) (entry_lines es)
            (log_loop buf len next fuel (idx + entry_len e + entries_len es))
        ∙ ap
            (λ (n : ℕ).
              log_loop buf len next fuel n >>= λ t. ok ((entry_line e ++ entry_lines es) ++ t))
            idx_same)

-- Records from `first` on, and room for more behind them: the loop ends within its fuel, reads nothing
-- outside the buffer, and prints the line of each record, in their order.
pub log_loop-entries :
    (es : List LogEntry) (buf s : Bytes) (len first : ℕ)
    → AllEntries es
    → drop first buf ≡ entries_onto es s
    → first + entries_len es < len
    → len < 2 ^ 21
    → log_loop buf len (first + entries_len es) log_fuel first ≡ ok (entry_lines es)
log_loop-entries es buf s len first all at room small =
    let many = entries_len_ge es in
    let next : ℕ = first + entries_len es in
    let fuel : ℕ = log_fuel - length es - 1 in
    let enough : log_fuel ≡ length es + suc fuel = omega arith in
    ap (λ (n : ℕ). log_loop buf len next n first) enough
    ∙ loop_over buf len next (omega arith) es (suc fuel) first s all at room (inr (omega arith))
    ∙ ap (λ (r : Run Bytes). r >>= λ t. ok (entry_lines es ++ t))
        (loop_stop buf len next fuel next refl)
    ∙ ap ok (append-nil (entry_lines es))

drop-entries :
    (es : List LogEntry) (buf s : Bytes) (idx : ℕ)
    → AllEntries es
    → drop idx buf ≡ entries_onto es s
    → drop (idx + entries_len es) buf ≡ s
drop-entries [] buf s idx all at = let same : idx + 0 ≡ idx = omega arith in rw same at
drop-entries (e ∷ es) buf s idx all at =
    let same : idx + (entry_len e + entries_len es) ≡ idx + entry_len e + entries_len es =
      omega arith in
    rw same (
      drop-entries es buf s (idx + entry_len e) all.1
        (drop-entry_len buf idx e (entries_onto es s) all.0 at))

-- A length of zero at `idx`, and a record at the front: that record is printed, and the loop goes on
-- behind it.
wrap_step :
    (buf s : Bytes) (e : LogEntry) (rest : Bytes) (len next fuel idx : ℕ)
    → IsLogEntry e
    → drop idx buf ≡ s
    → ushort s log_len ≡ ok 0
    → buf ≡ entry_onto e rest
    → idx ≢ next
    → entry_len e < len
    → log_loop buf len next (suc fuel) idx
      ≡ (log_loop buf len next fuel (entry_len e) >>= λ t. ok (entry_line e ++ t))
unfolding log_from_idx log_next
wrap_step buf s e rest len next fuel idx fits at zero_len front apart below =
    let none : load 2 buf (idx + log_len) ≡ ok 0 =
      load-drop 2 log_len idx buf (omega arith)
      ∙ ap (λ (t : Bytes). load 2 t log_len) at
      ∙ zero_len in
    loop_step buf len next fuel idx 0 (entry_len e) (entry_line e) apart (rw none)
      (dump_log_entry-entry_line buf 0 e rest fits front)
      (rw none (field_len buf 0 e rest fits front)) below

-- Records `old` from `first` on with a length of zero behind them, and newer ones from the front of
-- the buffer that end before `first`: the loop
-- prints the lines of the old records, then
-- those of the new ones.
pub log_loop-wrap :
    (old : List LogEntry) (e : LogEntry) (es : List LogEntry) (buf s mid : Bytes) (len first : ℕ)
    → AllEntries old
    → AllEntries (e ∷ es)
    → drop first buf ≡ entries_onto old s
    → buf ≡ entries_onto (e ∷ es) mid
    → ushort s log_len ≡ ok 0
    → entries_len (e ∷ es) < first
    → first + entries_len old < len
    → len < 2 ^ 21
    → log_loop buf len (entries_len (e ∷ es)) log_fuel first
      ≡ ok (entry_lines old ++ entry_lines (e ∷ es))
log_loop-wrap old e es buf s mid len first olds news at front zero_len before room small =
    let many = entries_len_ge old in
    let more = entries_len_ge es in
    let next : ℕ = entry_len e + entries_len es in
    let end : ℕ = first + entries_len old in
    let fuel : ℕ = log_fuel - length old - length es - 2 in
    let enough : log_fuel ≡ length old + suc (length es + suc fuel) = omega arith in
    let same : entry_len e ≡ 0 + entry_len e = omega arith in
    let behind : drop (entry_len e) buf ≡ entries_onto es mid =
      ap (λ (n : ℕ). drop n buf) same ∙ drop-entry_len buf 0 e (entries_onto es mid) news.0 front in
    let new_lines : log_loop buf len next (length es + suc fuel) (entry_len e)
        ≡ ok (entry_lines es) =
      loop_over buf len next (omega arith) es (suc fuel) (entry_len e) mid news.1 behind
        (omega arith) (inr (omega arith))
      ∙ ap (λ (r : Run Bytes). r >>= λ t. ok (entry_lines es ++ t))
          (loop_stop buf len next fuel (entry_len e + entries_len es) refl)
      ∙ ap ok (append-nil (entry_lines es)) in
    ap (λ (n : ℕ). log_loop buf len next n first) enough
    ∙ loop_over buf len next (omega arith) old (suc (length es + suc fuel)) first s olds at room
        (inl (omega arith))
    ∙ ap (λ (r : Run Bytes). r >>= λ t. ok (entry_lines old ++ t))
        (wrap_step buf s e (entries_onto es mid) len next (length es + suc fuel) end news.0
            (drop-entries old buf s first olds at) zero_len front (ground arith) (omega arith)
          ∙ ap (λ (r : Run Bytes). r >>= λ t. ok (entry_line e ++ t)) new_lines)
