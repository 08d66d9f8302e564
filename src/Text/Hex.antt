-- ===== src/Text/Hex.antt =====
-- Hexadecimal numbers: `%0*x` and `%zx` as the C library prints them, and what the `%lx` of sscanf
-- makes of them.
use native.Mathlib.Nat.{pow-suc}
use kvm_dmesg.Base.{
  min, false, ◌==◌, ℕ, zero, suc, ◌+◌, ◌-◌, ◌*◌, ◌/◌, ◌%◌, ◌^◌, ◌<◌, ◌≤◌, length, length-append,
  ◌≡◌, refl, sym, ap, ◌∙◌, append_assoc, none, some, [], ◌∷◌, ◌++◌, arith, ltb, if◌then◌else◌,
}
use kvm_dmesg.Base.Bytes.{Bytes}
use kvm_dmesg.Text.Scan.{hex_value, hex_digits, hex_number, hex_prefix, scan_lx}

-- A digit below 16.
unfoldable pub hex_digit : ℕ → ℕ
hex_digit d = if ltb d 10 then d + b'0' else d - 10 + b'a'

-- `%0*x` of a number that has at most so many digits.
unfoldable pub hex_padded : ℕ → ℕ → Bytes
unfolding hex_digit
hex_padded zero v = []
hex_padded (suc w) v = hex_padded w (v / 16) ++ hex_digit (v % 16) ∷ []

-- `%x`, with fuel for so many digits.
unfoldable pub hex_plain : ℕ → ℕ → Bytes
unfolding hex_digit
hex_plain zero v = []
hex_plain (suc f) v =
    let rest = hex_plain f (v / 16) in
    if ltb v 16 then hex_digit v ∷ [] else rest ++ hex_digit (v % 16) ∷ []

-- `%zx`: a 64-bit number has at most sixteen digits.
unfoldable pub hex : ℕ → Bytes
unfolding hex_plain
hex n = hex_plain 16 n

hex_value-hex_digit : (d : ℕ) → d < 16 → hex_value (hex_digit d) ≡ some d
unfolding hex_value hex_digit
hex_value-hex_digit d h = ground arith

-- One more digit.
hex_digits-hex_digit :
    (acc d : ℕ) (rest : Bytes)
    → d < 16
    → hex_digits acc (hex_digit d ∷ rest) ≡ hex_digits (acc * 16 + d) rest
unfolding hex_digits
hex_digits-hex_digit acc d rest h = rw (hex_value-hex_digit d h, hex_digits)

digits_sum : (acc p v : ℕ) → (acc * p + v / 16) * 16 + v % 16 ≡ acc * (p * 16) + v
digits_sum acc p v = grind arith

-- The digits of a number add it to what has been read, whatever stands behind them.
hex_digits-hex_padded :
    (w acc v : ℕ) (rest : Bytes)
    → v < 16 ^ w
    → hex_digits acc (hex_padded w v ++ rest) ≡ hex_digits (acc * 16 ^ w + v) rest
unfolding hex_padded
hex_digits-hex_padded zero acc v rest h =
    ap (λ (n : ℕ). hex_digits n rest) (let e : acc ≡ acc * 1 + v = omega arith in e)
hex_digits-hex_padded (suc w) acc v rest h =
    let room : v < 16 ^ w * 16 = omega (arith, pow-suc 16 w) in
    ap (hex_digits acc) (append_assoc (hex_padded w (v / 16)) (hex_digit (v % 16) ∷ []) rest)
    ∙ hex_digits-hex_padded w acc (v / 16) (hex_digit (v % 16) ∷ rest) (omega arith)
    ∙ hex_digits-hex_digit (acc * 16 ^ w + v / 16) (v % 16) rest (omega arith)
    ∙ ap (λ (n : ℕ). hex_digits n rest)
        (digits_sum acc (16 ^ w) v ∙ ap (λ (p : ℕ). acc * p + v) (sym (pow-suc 16 w)))

-- Two digits at the front.
abbrev pub LeadsDigits : Bytes → Type 0
LeadsDigits s =
    (d : ℕ) × (e : ℕ) × (t : Bytes) × (s ≡ hex_digit d ∷ hex_digit e ∷ t) × (d < 16) × (e < 16)

pub hex_padded-LeadsDigits : (w v : ℕ) → LeadsDigits (hex_padded (suc (suc w)) v)
unfolding hex_padded
hex_padded-LeadsDigits zero v = (v / 16 % 16, v % 16, [], refl, omega arith, omega arith)
hex_padded-LeadsDigits (suc w) v =
    let (d, e, t, front, p, q) = hex_padded-LeadsDigits w (v / 16) in
    (
      d,
      e,
      t ++ hex_digit (v % 16) ∷ [],
      ap (λ (s : Bytes). s ++ hex_digit (v % 16) ∷ []) front,
      p,
      q,
    )

-- Behind a number: no further digit.
abbrev pub Ends : Bytes → Type 0
Ends [] = Unit {0}
Ends (c ∷ cs) = hex_value c ≡ none

hex_digits-Ends : (v : ℕ) (rest : Bytes) → Ends rest → hex_digits v rest ≡ (v, rest)
unfolding hex_digits
hex_digits-Ends v [] h = refl
hex_digits-Ends v (c ∷ cs) h = rw (h, hex_digits)

hex_number_lem :
    (d v : ℕ) (cs rest : Bytes)
    → d < 16
    → hex_digits d cs ≡ (v, rest)
    → v < 2 ^ 64
    → hex_number (hex_digit d ∷ cs) ≡ some (v, rest)
unfolding hex_number
hex_number_lem d v cs rest h e fits =
    let least : min v (2 ^ 64 - 1) ≡ v = omega arith in
    rw (hex_value-hex_digit d h, hex_number, e, least)

hex_prefix-hex_digit :
    (d e : ℕ) (t : Bytes)
    → d < 16
    → e < 16
    → hex_prefix (hex_digit d ∷ hex_digit e ∷ t) ≡ hex_digit d ∷ hex_digit e ∷ t
unfolding hex_prefix hex_digit
hex_prefix-hex_digit d e t p q = ground arith

-- No sign stands in front of a digit.
scan_lx-hex_digit :
    (d : ℕ) (cs : Bytes)
    → d < 16
    → scan_lx (hex_digit d ∷ cs) ≡ hex_number (hex_prefix (hex_digit d ∷ cs))
unfolding scan_lx hex_digit
scan_lx-hex_digit d cs h =
    let minus : (hex_digit d == b'-') ≡ false = ground arith in
    let plus : (hex_digit d == b'+') ≡ false = ground arith in rw (minus, plus)

-- `%lx` reads a number that was printed with two or more digits, and stops behind it.
pub scan_lx-hex_padded :
    (w v : ℕ) (rest : Bytes)
    → v < 16 ^ suc (suc w)
    → v < 2 ^ 64
    → Ends rest
    → scan_lx (hex_padded (suc (suc w)) v ++ rest) ≡ some (v, rest)
scan_lx-hex_padded w v rest room fits ends =
    let (d, e, t, front, p, q) = hex_padded-LeadsDigits w v in
    let text : hex_padded (suc (suc w)) v ++ rest ≡ hex_digit d ∷ hex_digit e ∷ (t ++ rest) =
      ap (λ (s : Bytes). s ++ rest) front in
    let value : hex_digits d (hex_digit e ∷ (t ++ rest)) ≡ (v, rest) =
      ap (λ (n : ℕ). hex_digits n (hex_digit e ∷ (t ++ rest)))
        (let z : d ≡ 0 * 16 + d = omega arith in z)
      ∙ sym (hex_digits-hex_digit 0 d (hex_digit e ∷ (t ++ rest)) p)
      ∙ ap (hex_digits 0) (sym text)
      ∙ hex_digits-hex_padded (suc (suc w)) 0 v rest room
      ∙ ap (λ (n : ℕ). hex_digits n rest) (let z : 0 * 16 ^ suc (suc w) + v ≡ v = omega arith in z)
      ∙ hex_digits-Ends v rest ends in
    ap scan_lx text
    ∙ scan_lx-hex_digit d (hex_digit e ∷ (t ++ rest)) p
    ∙ ap hex_number (hex_prefix-hex_digit d e (t ++ rest) p q)
    ∙ hex_number_lem d v (hex_digit e ∷ (t ++ rest)) rest p value fits

length-hex_plain : (f v : ℕ) → length (hex_plain f v) ≤ f
unfolding hex_plain
length-hex_plain zero v = omega arith
length-hex_plain (suc f) v = ground (
  arith,
  length-append (hex_plain f (v / 16)) (hex_digit (v % 16) ∷ []),
  length-hex_plain f (v / 16),
)

pub length-hex : (v : ℕ) → length (hex v) ≤ 16
unfolding hex
length-hex v = length-hex_plain 16 v
