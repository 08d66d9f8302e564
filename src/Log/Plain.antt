-- ===== src/Log/Plain.antt =====
-- The oldest log, a buffer of text, which main itself dumps.
use kvm_dmesg.Base.{
  ℕ, ◌≡◌, refl, ap, sym, ◌∙◌, Bool, true, false, List, [], ◌∷◌, ◌++◌, leb, ◌==◌, if◌then◌else◌,
  append_assoc, arith, Bool-cases, inl, inr, ne→==,
}
use Prim.Native.Nat.{bit_and}
use kvm_dmesg.Base.Bytes.{Bytes, le, encode}
use kvm_dmesg.Base.Run.{Run, ok, ◌>>=◌}
use kvm_dmesg.Guest.{readmem, kvaddr}
use kvm_dmesg.Log.{log_buf_mask}
use kvm_dmesg.Machine.{Machine}
use kvm_dmesg.Symbols.{get_symbol_data}
use kvm_dmesg.Text.{codes}
use kvm_dmesg.Text.Search.{NoNul}

-- ascii, of a `char` that is signed: a byte from 128 on is negative.
unfoldable pub ascii : ℕ → Bool
ascii c = leb c 0x7f

-- The loop over the buffer, with `next_line`: what it prints.
unfoldable pub plain_loop : Bool → Bytes → Bytes
plain_loop next_line [] = []
plain_loop next_line (c ∷ cs) =
    let printed = plain_loop true cs in
    let skipped = plain_loop next_line cs in
    let ended = plain_loop false cs in
    if c == 0
    then (if next_line then b'\n' ∷ ended else ended)
    else if ascii c
    then c ∷ printed
    else skipped

-- The end of main, from the two reads of symbols on: what is printed, and what is written to
-- dmesg.data. `log_buf_len` is a `ulong` of which four bytes are read.
unfoldable pub dump_plain_log : (ℕ → Bytes) → Machine → Run (Bytes × Bytes)
dump_plain_log malloc m = do
  log_buf ← get_symbol_data m (codes "log_buf") 8 (encode 8 0)
  log_buf_len ← get_symbol_data m (codes "log_buf_len") 4 (encode 8 0)
  let len = bit_and (le log_buf_len) log_buf_mask
  (r, logbuf) ← readmem m (le log_buf) kvaddr (malloc len) len
  ok (plain_loop false logbuf ++ b'\n' ∷ [], logbuf)

-- The ASCII characters of a text.
abbrev pub ascii_only : Bytes → Bytes
ascii_only [] = []
ascii_only (c ∷ cs) = if ascii c then c ∷ ascii_only cs else ascii_only cs

-- A line, if there is anything on it.
abbrev pub line_of : Bytes → Bytes
line_of [] = []
line_of (c ∷ cs) = (c ∷ cs) ++ b'\n' ∷ []

-- Texts, each with a NUL behind it.
abbrev pub texts_onto : List Bytes → Bytes → Bytes
texts_onto [] s = s
texts_onto (t ∷ ts) s = t ++ 0 ∷ texts_onto ts s

abbrev pub AllNoNul : List Bytes → Type 0
AllNoNul [] = Unit {0}
AllNoNul (t ∷ ts) = NoNul t × AllNoNul ts

abbrev pub lines_of : List Bytes → Bytes
lines_of [] = []
lines_of (t ∷ ts) = line_of (ascii_only t) ++ lines_of ts

-- Inside a line.
inside :
    (t rest : Bytes)
    → NoNul t
    → plain_loop true (t ++ 0 ∷ rest) ≡ ascii_only t ++ b'\n' ∷ plain_loop false rest
unfolding plain_loop
inside [] rest h = refl
inside (c ∷ cs) rest h = ground (arith, inside cs rest h.1, h.0)

-- At the start of a line.
start :
    (t rest : Bytes)
    → NoNul t
    → plain_loop false (t ++ 0 ∷ rest) ≡ line_of (ascii_only t) ++ plain_loop false rest
unfolding plain_loop
start [] rest h = refl
start (c ∷ cs) rest h = elim (Bool-cases (ascii c)) [
  | inl good ↦
      rw (ne→== c 0 h.0, good)
        (ap (◌∷◌ c) (
          inside cs rest h.1
          ∙ sym (append_assoc (ascii_only cs) (b'\n' ∷ []) (plain_loop false rest))))
  | inr bad ↦ rw (ne→== c 0 h.0, bad) (start cs rest h.1)
]

last_text : (b : Bool) (t : Bytes) → NoNul t → plain_loop b t ≡ ascii_only t
unfolding plain_loop
last_text b [] h = refl
last_text b (c ∷ cs) h = elim (Bool-cases (ascii c)) [
  | inl good ↦ rw (ne→== c 0 h.0, good) (ap (◌∷◌ c) (last_text true cs h.1))
  | inr bad ↦ rw (ne→== c 0 h.0, bad) (last_text b cs h.1)
]

-- Of a buffer of texts, each ended by a NUL, the loop prints each text that has an ASCII character as a
-- line, without its other characters, and the text at the buffer's end without a newline.
pub plain_loop-lines_of :
    (ts : List Bytes) (t : Bytes)
    → AllNoNul ts
    → NoNul t
    → plain_loop false (texts_onto ts t) ≡ lines_of ts ++ ascii_only t
plain_loop-lines_of [] t all h = last_text false t h
plain_loop-lines_of (u ∷ us) t all h =
    start u (texts_onto us t) all.0
    ∙ ap (λ (s : Bytes). line_of (ascii_only u) ++ s) (plain_loop-lines_of us t all.1 h)
    ∙ sym (append_assoc (line_of (ascii_only u)) (lines_of us) (ascii_only t))
