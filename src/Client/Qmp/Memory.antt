-- ===== src/Client/Qmp/Memory.antt =====
-- The memory that qmp_populate_mem finds in the answer of QMP.
use native.Mathlib.Decide.{dec_lt}
use kvm_dmesg.Base.{
  ℕ, ◌+◌, ◌-◌, ◌≤◌, ◌<◌, ◌≡◌, ◌≢◌, refl, sym, ap, ap₂, ◌∙◌, append_assoc, append-nil, List, [], ◌∷◌,
  ◌++◌, map, arith, le→leb, lt→leb, lt→ltb, ne→==, length, drop, length-append, length-drop,
  drop-drop,
}
use kvm_dmesg.Base.Bytes.{Bytes, store_bytes, store_bytes-next}
use kvm_dmesg.Base.Run.{Run, ok, ◌>>=◌}
use kvm_dmesg.Base.Word.{u8}
use kvm_dmesg.Client.Qmp.{other, step_at, populate}
use kvm_dmesg.Text.Lines.{
  dump_values, AllLines, DumpLine, IsLine, values_of, line_text, line_text-AllFrom, AllFrom,
  scan_dump-line_text,
}
use kvm_dmesg.Text.Scan.{c_str, scan_dump, scan_0x}
use kvm_dmesg.Text.Words.{AllBelow}

step_at-plain :
    (size filled c d : ℕ) → c ≢ b'"' → c ≢ b'\\' → filled < size → step_at size filled c d ≡ other
unfolding step_at
step_at-plain size filled c d p q h = rw (ne→== c b'"' p, ne→== c b'\\' q, lt→leb size filled h)

-- A character of a line is put behind those that are there.
populate-plain :
    (c : ℕ) (cs line buffer : Bytes) (filled : ℕ)
    → 0 < length cs
    → c ≢ b'"'
    → c ≢ b'\\'
    → filled < length buffer
    → length line < 128
    → populate (c ∷ cs) line filled buffer ≡ populate cs (line ++ c ∷ []) filled buffer
unfolding populate
populate-plain c [] line buffer filled h p q room short = absurd (omega arith)
populate-plain c (d ∷ cs) line buffer filled h p q room short =
    rw (step_at-plain (length buffer) filled c d p q room, lt→ltb (length line) 128 short, populate)

populate-chars :
    (s cs line buffer : Bytes) (filled : ℕ)
    → AllFrom 32 s
    → 0 < length cs
    → filled < length buffer
    → length line + length s ≤ 128
    → populate (s ++ cs) line filled buffer ≡ populate cs (line ++ s) filled buffer
populate-chars [] cs line buffer filled h more room short =
    ap (λ (t : Bytes). populate cs t filled buffer) (sym (append-nil line))
populate-chars (c ∷ s) cs line buffer filled (p, q, r, h) more room short =
    populate-plain c (s ++ cs) line buffer filled (omega (arith, length-append s cs, more)) q r room
      (omega arith)
    ∙ populate-chars s cs (line ++ c ∷ []) buffer filled h more room
        (omega (arith, short, length-append line (c ∷ [])))
    ∙ ap (λ (t : Bytes). populate cs t filled buffer) (append_assoc line (c ∷ []) s)

c_str-AllFrom : (s : Bytes) → AllFrom 32 s → c_str s ≡ s
unfolding c_str
c_str-AllFrom [] h = refl
c_str-AllFrom (c ∷ cs) (p, q, r, h) =
    rw (ne→== c 0 (λ e. absurd (omega arith))) (ap (◌∷◌ c) (c_str-AllFrom cs h))

-- The two characters that end a line, and the values of the line.
populate-end :
    (cs line buffer values : Bytes) (filled : ℕ)
    → filled < length buffer
    → length line < 128
    → scan_dump u8 8 (c_str line) ≡ values
    → populate (b'\\' ∷ b'r' ∷ cs) line filled buffer ≡ (
        store_bytes values filled buffer >>= λ buffer.
        populate cs [] (filled + length values) buffer)
unfolding populate step_at
populate-end cs line buffer values filled room short e =
    rw (lt→leb (length buffer) filled room, populate, lt→ltb (length line) 128 short, e)

-- Behind a line the loop stops if the buffer is full, and otherwise goes on with the next line.
populate-feed :
    (cs buffer result : Bytes) (filled : ℕ)
    → (length buffer ≤ filled → result ≡ buffer)
    → populate cs [] filled buffer ≡ ok result
    → populate (b'\\' ∷ b'n' ∷ cs) [] filled buffer ≡ ok result
unfolding populate step_at
populate-feed cs buffer result filled full e = elim (dec_lt filled (length buffer)) [
  | yes room ↦ rw (populate, step_at, lt→leb (length buffer) filled room, populate) e
  | no last ↦
      rw (populate, step_at, le→leb (length buffer) filled (omega arith), populate)
        (ap ok (sym (full (omega arith))))
]

-- The lines as JSON has them.
abbrev pub lines_text : List DumpLine → Bytes
lines_text [] = []
lines_text (l ∷ ls) = line_text 2 l ++ b'\\' ∷ b'r' ∷ b'\\' ∷ b'n' ∷ lines_text ls

-- Each line fits into `line`.
abbrev pub AllShort : List DumpLine → Type 0
AllShort [] = Unit {0}
AllShort (l ∷ ls) = (length (line_text 2 l) < 128) × AllShort ls

map-u8 : (vs : List ℕ) → AllBelow 256 vs → map u8 vs ≡ vs
map-u8 [] h = refl
map-u8 (v ∷ vs) (p, h) = let same : u8 v ≡ v = omega arith in rw (same, map-u8 vs h)

line_values : (l : DumpLine) → IsLine 2 8 l → scan_dump u8 8 (c_str (line_text 2 l)) ≡ values_of l
unfolding scan_0x
line_values l h =
    ap (scan_dump u8 8)
      (c_str-AllFrom (line_text 2 l) (line_text-AllFrom 2 8 l h) ∙ sym (append-nil (line_text 2 l)))
    ∙ scan_dump-line_text u8 0 8 l [] h (omega arith) (tt, refl)
    ∙ map-u8 (values_of l) h.fits

-- A line is taken apart and stored.
populate-line :
    (l : DumpLine) (cs before rest : Bytes)
    → IsLine 2 8 l
    → length (line_text 2 l) < 128
    → length (values_of l) ≤ length rest
    → populate (line_text 2 l ++ b'\\' ∷ b'r' ∷ cs) [] (length before) (before ++ rest)
      ≡ populate cs []
          (length (before ++ values_of l))
          ((before ++ values_of l) ++ drop (length (values_of l)) rest)
populate-line l cs before rest h short room =
    let inside : length before < length (before ++ rest) =
      omega (arith, length-append before rest, room) in
    let vs : List ℕ = values_of l in
    populate-chars (line_text 2 l) (b'\\' ∷ b'r' ∷ cs) [] (before ++ rest) (length before)
      (line_text-AllFrom 2 8 l h) (omega arith) inside (omega arith)
    ∙ populate-end cs (line_text 2 l) (before ++ rest) vs (length before) inside short
        (line_values l h)
    ∙ ap (λ (r : Run Bytes). r >>= λ buffer. populate cs [] (length before + length vs) buffer)
        (store_bytes-next before vs rest room)
    ∙ ap (λ (n : ℕ). populate cs [] n ((before ++ vs) ++ drop (length vs) rest))
        (sym (length-append before vs))

all_stored :
    (ls : List DumpLine) (before rest : Bytes)
    → length (dump_values ls) ≤ length rest
    → length (before ++ rest) ≤ length before
    → (before ++ dump_values ls) ++ drop (length (dump_values ls)) rest ≡ before ++ rest
all_stored [] before rest room full = ap (λ (t : Bytes). t ++ rest) (append-nil before)
all_stored (l ∷ ls) before rest room full = absurd (
    omega
      (arith, length-append before rest, room, full, length-append (values_of l) (dump_values ls)))

-- All lines up to the quote that ends the text.
pub populate-lines :
    (ls : List DumpLine) (tail before rest : Bytes)
    → AllLines 2 8 ls
    → AllShort ls
    → length (dump_values ls) ≤ length rest
    → populate (lines_text ls ++ b'"' ∷ tail) [] (length before) (before ++ rest)
      ≡ ok ((before ++ dump_values ls) ++ drop (length (dump_values ls)) rest)
unfolding populate step_at
populate-lines [] [] before rest h short room = rw (append-nil before)
populate-lines [] (c ∷ tail) before rest h short room = rw (append-nil before)
populate-lines (l ∷ ls) tail before rest (line, h) (fits, short) room =
    let vs : List ℕ = values_of l in
    let n : ℕ = length vs in
    let all : length (dump_values (l ∷ ls)) ≡ n + length (dump_values ls) =
      length-append vs (dump_values ls) in
    let left : length (drop n rest) ≡ length rest - n = length-drop n rest in
    let next =
      populate-lines ls tail (before ++ vs) (drop n rest) h short
        (omega (arith, room, all, left)) in
    let text =
      append_assoc (line_text 2 l) (b'\\' ∷ b'r' ∷ b'\\' ∷ b'n' ∷ lines_text ls) (b'"' ∷ tail) in
    ap (λ (t : Bytes). populate t [] (length before) (before ++ rest)) text
    ∙ populate-line l (b'\\' ∷ b'n' ∷ (lines_text ls ++ b'"' ∷ tail)) before rest line fits
        (omega (arith, room, all))
    ∙ populate-feed (lines_text ls ++ b'"' ∷ tail) ((before ++ vs) ++ drop n rest) _
        (length (before ++ vs))
        (all_stored ls (before ++ vs) (drop n rest) (omega (arith, room, all, left))) next
    ∙ ap ok (
        ap₂ (λ (s t : Bytes). s ++ t) (append_assoc before vs (dump_values ls))
          (drop-drop (length (dump_values ls)) n rest ∙ ap (λ (k : ℕ). drop k rest) (sym all)))
