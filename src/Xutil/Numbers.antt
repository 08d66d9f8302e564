-- ===== src/Xutil/Numbers.antt =====
-- The numbers of xutil.c: xstroul and to_bytes.
use native.Mathlib.Decide.{dec_lt}
use native.Mathlib.Nat.{pow-suc}
use kvm_dmesg.Base.{
  ℕ, zero, suc, ◌+◌, ◌-◌, ◌*◌, ◌/◌, ◌%◌, ◌^◌, ◌<◌, ◌≡◌, refl, sym, ap, ◌∙◌, append_assoc, Bool,
  true, false, ◌&&◌, ◌||◌, Option, none, some, [], ◌∷◌, ◌++◌, arith, leb, ltb, ◌==◌, if◌then◌else◌,
  lt→ltb, le→ltb,
}
use kvm_dmesg.Base.Bytes.{Bytes, store_bytes}
use kvm_dmesg.Base.Run.{Run, ok, fault, ◌>>=◌}
use kvm_dmesg.Base.Word.{u64, sub64}
use kvm_dmesg.Text.Decimal.{dec, dec_digits}

-- A digit of xstroul and to_bytes: 0 to 9, and letters of either case from 10 on.
unfoldable pub digit_of : ℕ → Option ℕ
digit_of c =
    if leb b'0' c && leb c b'9'
    then some (c - b'0')
    else if leb b'a' c && leb c b'z'
    then some (c - b'a' + 10)
    else if leb b'A' c && leb c b'Z'
    then some (c - b'A' + 10)
    else none

-- The loop of xstroul: the value, modulo 2^64, and where it stops, as it does at a NUL.
unfoldable pub xstroul_digits : ℕ → ℕ → Bytes → Run (ℕ × Bytes)
xstroul_digits base val [] = fault
xstroul_digits base val (c ∷ cs) = elim (digit_of c) [
  | none ↦ ok (val, c ∷ cs)
  | some d ↦ elim (ltb d base) [
    | false ↦ ok (val, c ∷ cs)
    | true ↦ xstroul_digits base (u64 (val * base + d)) cs
  ]
]

-- The base and the digits behind a prefix.
unfoldable pub base_prefix : ℕ → Bytes → Run (ℕ × Bytes)
base_prefix base [] = fault
base_prefix base (c ∷ []) =
    if (base == 0 || base == 16) && c == b'0'
    then fault
    else ok (if base == 0 then 10 else base, c ∷ [])
base_prefix base (c ∷ d ∷ cs) =
    if (base == 0 || base == 16) && (c == b'0' && d == b'x')
    then ok (16, cs)
    else if base == 0 && c == b'0'
    then ok (8, d ∷ cs)
    else ok (if base == 0 then 10 else base, c ∷ d ∷ cs)

-- xstroul. xskipwhitespace moves its own copy of the pointer only, so no white space is skipped;
-- `neg` is what stands in the variable before a sign is seen.
unfoldable pub xstroul : Bool → ℕ → Bytes → Run (ℕ × Bytes)
xstroul neg base [] = fault
xstroul neg base (c ∷ cs) =
    let is_neg = if c == b'-' then true else neg in
    let digits = if c == b'+' || c == b'-' then cs else c ∷ cs in
    do
      (base, digits) ← base_prefix base digits
      (val, rest) ← xstroul_digits base 0 digits
      ok (if is_neg then sub64 0 val else val, rest)

-- to_bytes: how many digits it stored, and the object; a character that is no digit of the base
-- frees the object and returns 0.
unfoldable pub to_bytes : Bytes → ℕ → Bytes → ℕ → Run (ℕ × Option Bytes)
to_bytes d sn [] base = fault
to_bytes d sn (c ∷ cs) base = elim (c == 0) [
  | true ↦ ok (sn, some d)
  | false ↦ elim (digit_of c) [
    | none ↦ ok (0, none)
    | some digit ↦ elim (ltb digit base) [
      | false ↦ ok (0, none)
      | true ↦ do d ← store_bytes (digit ∷ []) sn d; to_bytes d (sn + 1) cs base
    ]
  ]
]

digit_of-digit : (d : ℕ) → d < 10 → digit_of (d + b'0') ≡ some d
unfolding digit_of
digit_of-digit d h = ground arith

xstroul_digits-digit :
    (val d : ℕ) (rest : Bytes)
    → d < 10
    → val * 10 + d < 2 ^ 64
    → xstroul_digits 10 val ((d + b'0') ∷ rest) ≡ xstroul_digits 10 (val * 10 + d) rest
unfolding xstroul_digits
xstroul_digits-digit val d rest h fits =
    let same : u64 (val * 10 + d) ≡ val * 10 + d = omega arith in
    rw (digit_of-digit d h, xstroul_digits, lt→ltb d 10 h, same)

xstroul_digits-dec_digits :
    (f n : ℕ) (rest : Bytes)
    → n < 10 ^ f
    → n < 2 ^ 64
    → xstroul_digits 10 0 (dec_digits f n ++ rest) ≡ xstroul_digits 10 n rest
unfolding dec_digits
xstroul_digits-dec_digits zero n rest h fits =
    ap (λ (k : ℕ). xstroul_digits 10 k rest) (omega arith)
xstroul_digits-dec_digits (suc f) n rest h fits = elim (dec_lt n 10) [
  | yes small ↦ rw (lt→ltb n 10 small) (
      xstroul_digits-digit 0 n rest small (omega arith)
      ∙ ap (λ (k : ℕ). xstroul_digits 10 k rest) (omega arith))
  | no large ↦
      let room : n < 10 ^ f * 10 = omega (arith, pow-suc 10 f) in
      rw (le→ltb n 10 (omega arith)) (
        ap (xstroul_digits 10 0) (append_assoc (dec_digits f (n / 10)) ((n % 10 + b'0') ∷ []) rest)
        ∙ xstroul_digits-dec_digits f (n / 10) ((n % 10 + b'0') ∷ rest) (omega arith) (omega arith)
        ∙ xstroul_digits-digit (n / 10) (n % 10) rest (omega arith) (omega arith)
        ∙ ap (λ (k : ℕ). xstroul_digits 10 k rest) (omega arith))
]

-- The first digit.
abbrev LeadsDigit : Bytes → Type 0
LeadsDigit s = (d : ℕ) × (t : Bytes) × (s ≡ (d + b'0') ∷ t) × (d < 10)

dec_digits-LeadsDigit : (f n : ℕ) → n < 10 ^ suc f → LeadsDigit (dec_digits (suc f) n)
unfolding dec_digits
dec_digits-LeadsDigit zero n h =
    let small : n < 10 = omega arith in (n, [], rw (lt→ltb n 10 small), small)
dec_digits-LeadsDigit (suc f) n h = elim (dec_lt n 10) [
  | yes small ↦ (n, [], rw (lt→ltb n 10 small), small)
  | no large ↦
      let room : n < 10 ^ suc f * 10 = omega (arith, pow-suc 10 (suc f)) in
      let (d, t, front, p) = dec_digits-LeadsDigit f (n / 10) (omega arith) in
      (
        d,
        t ++ (n % 10 + b'0') ∷ [],
        rw (le→ltb n 10 (omega arith)) (ap (λ (s : Bytes). s ++ (n % 10 + b'0') ∷ []) front),
        p,
      )
]

base_prefix-decimal : (c : ℕ) (cs : Bytes) → base_prefix 10 (c ∷ cs) ≡ ok (10, c ∷ cs)
unfolding base_prefix
base_prefix-decimal c [] = refl
base_prefix-decimal c (d ∷ cs) = refl

abbrev pub signed : Bool → ℕ → ℕ
signed neg n = if neg then sub64 0 n else n

-- In front of a digit there is no sign.
unsigned :
    (neg : Bool) (d v : ℕ) (cs rest : Bytes)
    → d < 10
    → xstroul_digits 10 0 ((d + b'0') ∷ cs) ≡ ok (v, rest)
    → xstroul neg 10 ((d + b'0') ∷ cs) ≡ ok (signed neg v, rest)
unfolding xstroul
unsigned neg d v cs rest h e =
    let minus : (d + b'0' == b'-') ≡ false = ground arith in
    let plus : (d + b'0' == b'+') ≡ false = ground arith in
    rw (minus, plus, base_prefix-decimal (d + b'0') cs, ◌>>=◌, e)

ends : (n : ℕ) (rest : Bytes) → xstroul_digits 10 n (0 ∷ rest) ≡ ok (n, 0 ∷ rest)
unfolding xstroul_digits digit_of
ends n rest = refl

-- To the base 10, xstroul reads a 64-bit number that was printed in decimal, and stops at its end;
-- but since no sign sets it, what stands in the uninitialised `neg` says whether the number or its
-- negation modulo 2^64 is returned.
pub xstroul-dec :
    (neg : Bool) (n : ℕ) (rest : Bytes)
    → n < 2 ^ 64
    → xstroul neg 10 (dec n ++ 0 ∷ rest) ≡ ok (signed neg n, 0 ∷ rest)
unfolding dec
xstroul-dec neg n rest h =
    let (d, t, front, p) = dec_digits-LeadsDigit 19 n (omega arith) in
    let text : dec_digits 20 n ++ 0 ∷ rest ≡ (d + b'0') ∷ (t ++ 0 ∷ rest) =
      ap (λ (s : Bytes). s ++ 0 ∷ rest) front in
    ap (xstroul neg 10) text
    ∙ unsigned neg d n (t ++ 0 ∷ rest) (0 ∷ rest) p (
        ap (xstroul_digits 10 0) (sym text)
        ∙ xstroul_digits-dec_digits 20 n (0 ∷ rest) (omega arith) h
        ∙ ends n rest)
