-- ===== src/Text.antt =====
-- Characters and text as the C library has them: ctype.h in the C locale, and the character loops
-- of printk.c (dump_record) and main.c (dump_log_entry).
pub mod Decimal
pub mod Search
pub mod Scan
pub mod Hex
pub mod Words
pub mod Lines
use Prim.Native.Char.{code}
use Prim.Native.String.{String}
use kvm_dmesg.Base.{
  ℕ, zero, suc, ◌+◌, ◌≤◌, ◌<◌, ◌≡◌, refl, Bool, ◌&&◌, ◌||◌, List, [], ◌∷◌, ◌++◌, map, arith, leb,
  ◌==◌, if◌then◌else◌, length, take, drop, lt-get_elem?, get_elem?, drop-get_elem?,
}
use kvm_dmesg.Base.Run.{Run, ok, fault, ◌>>=◌}
use kvm_dmesg.Base.Bytes.{Bytes, byte_at, byte_at-some, byte_at-beyond}
use native.Mathlib.Decide.{dec_lt}

-- The bytes of an ASCII text.
abbrev pub codes : String → Bytes
codes String.[] = []
codes (String.◌∷◌ c s) = code c ∷ codes s

abbrev pub isprint : ℕ → Bool
isprint c = leb b' ' c && leb c b'~'

abbrev pub isspace : ℕ → Bool
isspace c = (leb b'\t' c && leb c b'\r') || c == b' '

-- What one round of the loop prints.
unfoldable pub put_char : ℕ → ℕ
put_char c = if c == b'\n' then b'\n' else if isprint c || isspace c then c else b'.'

-- `for (i = 0, p = text; i < text_len; i++, p++)`, with the rounds left and the index of `*p`.
unfoldable pub put_text : ℕ → Bytes → ℕ → Run Bytes
put_text zero buf p = ok []
put_text (suc left) buf p = do
  c ← byte_at buf p
  rest ← put_text left buf (p + 1)
  ok (put_char c ∷ rest)

-- A text that lies within the buffer is printed character by character, and nothing is read outside
-- the buffer.
pub put_text_lem :
    (n : ℕ) (buf : Bytes) (p : ℕ)
    → p + n ≤ length buf
    → put_text n buf p ≡ ok (map put_char (take n (drop p buf)))
unfolding put_text
put_text_lem zero buf p h = refl
put_text_lem (suc n) buf p h =
    let (c, e) = lt-get_elem? buf p (omega arith) in
    rw (byte_at-some buf p c e, put_text_lem n buf (p + 1) (omega arith), drop-get_elem? buf p c e)

-- A loop that goes past the buffer's end is a fault.
pub put_text_fault :
    (n : ℕ) (buf : Bytes) (p : ℕ) → length buf < p + n → 0 < n → put_text n buf p ≡ fault
unfolding put_text
put_text_fault zero buf p h pos = absurd (omega arith)
put_text_fault (suc n) buf p h pos = elim (dec_lt p (length buf)) [
  | yes inside ↦
      let (c, e) = lt-get_elem? buf p inside in
      rw (byte_at-some buf p c e, put_text_fault n buf (p + 1) (omega arith) (omega arith))
  | no beyond ↦ rw (byte_at-beyond buf p (omega arith))
]
