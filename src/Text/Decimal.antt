-- ===== src/Text/Decimal.antt =====
-- Decimal numbers: `%d` with a width, and the time stamp of a log line, which printk.c (dump_record)
-- and main.c (dump_log_entry) print by the same format.
use kvm_dmesg.Base.{
  ℕ, zero, suc, ◌+◌, ◌-◌, ◌*◌, ◌/◌, ◌%◌, ◌^◌, ◌≤◌, ◌<◌, ◌≡◌, refl, [], ◌∷◌, ◌++◌, arith, ltb,
  if◌then◌else◌, length, replicate, length-append, length-replicate, ◌∙◌,
}
use kvm_dmesg.Base.Bytes.{Bytes}
use native.Mathlib.Nat.{pow-suc}

-- The digits of a number, with fuel for so many digits.
unfoldable pub dec_digits : ℕ → ℕ → Bytes
dec_digits zero n = []
dec_digits (suc f) n =
    let rest = dec_digits f (n / 10) in
    if ltb n 10 then (n + b'0') ∷ [] else rest ++ (n % 10 + b'0') ∷ []

-- A 64-bit number has at most twenty digits.
unfoldable pub dec : ℕ → Bytes
unfolding dec_digits
dec n = dec_digits 20 n

unfoldable pub pad : ℕ → ℕ → Bytes → Bytes
pad width c s = replicate (width - length s) c ++ s

-- `%06ld` of `ts_nsec % 1000000000 / 1000`.
unfoldable pub micros : ℕ → Bytes
unfolding dec pad
micros ts_nsec = pad 6 b'0' (dec (ts_nsec % 1_000_000_000 / 1000))

-- `"[%5lld.%06ld] "` of `ts_nsec / 1000000000` and the microseconds.
unfoldable pub stamp : ℕ → Bytes
unfolding dec pad micros
stamp ts_nsec =
    b'['
    ∷ (pad 5 b' ' (dec (ts_nsec / 1_000_000_000)) ++ b'.' ∷ (micros ts_nsec ++ b']' ∷ b' ' ∷ []))

-- The number that a run of digits stands for, read from the left.
unfoldable pub number_from : ℕ → Bytes → ℕ
number_from acc [] = acc
number_from acc (c ∷ s) = number_from (acc * 10 + (c - b'0')) s

pub number_from-append :
    (acc : ℕ) (s t : Bytes) → number_from acc (s ++ t) ≡ number_from (number_from acc s) t
unfolding number_from
number_from-append acc [] t = refl
number_from-append acc (c ∷ s) t = number_from-append (acc * 10 + (c - b'0')) s t

pub number_from-dec_digits : (f n : ℕ) → n < 10 ^ f → number_from 0 (dec_digits f n) ≡ n
unfolding number_from dec_digits
number_from-dec_digits zero n h = omega arith
number_from-dec_digits (suc f) n h =
    let room : n < 10 ^ f * 10 = omega (arith, pow-suc 10 f) in
    ground (
      arith,
      number_from-append 0 (dec_digits f (n / 10)) ((n % 10 + b'0') ∷ []),
      number_from-dec_digits f (n / 10) (omega arith),
    )

-- What is printed by `%lu` reads back.
pub number_from-dec : (n : ℕ) → n < 2 ^ 64 → number_from 0 (dec n) ≡ n
unfolding dec
number_from-dec n h = number_from-dec_digits 20 n (omega arith)

number_from-zeros : (k : ℕ) (s : Bytes) → number_from 0 (replicate k b'0' ++ s) ≡ number_from 0 s
unfolding number_from
number_from-zeros zero s = refl
number_from-zeros (suc k) s = number_from-zeros k s

pub number_from-pad : (w n : ℕ) → n < 2 ^ 64 → number_from 0 (pad w b'0' (dec n)) ≡ n
unfolding pad
number_from-pad w n h = number_from-zeros (w - length (dec n)) (dec n) ∙ number_from-dec n h

pub length-dec_digits : (f k n : ℕ) → 0 < k → k ≤ f → n < 10 ^ k → length (dec_digits f n) ≤ k
unfolding dec_digits
length-dec_digits zero k n p q h = absurd (omega arith)
length-dec_digits (suc f) zero n p q h = absurd (omega arith)
length-dec_digits (suc f) (suc zero) n p q h = ground arith
length-dec_digits (suc f) (suc (suc k)) n p q h =
    let room : n < 10 ^ suc k * 10 = omega (arith, pow-suc 10 (suc k)) in
    ground (
      arith,
      length-append (dec_digits f (n / 10)) ((n % 10 + b'0') ∷ []),
      length-dec_digits f (suc k) (n / 10),
    )

length-padded : (n : ℕ) → n < 1_000_000 → length (pad 6 b'0' (dec n)) ≡ 6
unfolding pad dec
length-padded n h = omega (
  arith,
  length-append (replicate (6 - length (dec_digits 20 n)) b'0') (dec_digits 20 n),
  length-replicate {A = ℕ} (6 - length (dec_digits 20 n)) b'0',
  length-dec_digits 20 6 n (omega arith) (omega arith) h,
)

-- The microseconds of a time stamp take exactly six places, and read as a decimal number they are
-- the microseconds of the second.
pub micros_lem :
    (ts_nsec : ℕ)
    → (length (micros ts_nsec) ≡ 6)
      × (number_from 0 (micros ts_nsec) ≡ ts_nsec % 1_000_000_000 / 1000)
unfolding micros
micros_lem ts_nsec =
    let n : ℕ = ts_nsec % 1_000_000_000 / 1000 in
    (length-padded n (omega arith), number_from-pad 6 n (omega arith))

pub length-dec : (n : ℕ) → n < 2 ^ 64 → length (dec n) ≤ 20
unfolding dec
length-dec n h = length-dec_digits 20 20 n (omega arith) (omega arith) (omega arith)
