-- ===== src/Base/Bits.antt =====
-- `&` on machine words as arithmetic: with a mask of low bits, and with a mask of a middle field.
use Prim.Native.Nat.{
  ℕ, zero, suc, ◌+◌, ◌-◌, ◌*◌, ◌/◌, ◌%◌, ◌^◌, ◌≤◌, ◌<◌, min, bit_and, digits, bit_and-bitwise,
}
use mathlib.Core.Path.{◌≡◌, refl, ap, ◌∙◌}
use mathlib.Core.WellFounded.{Acc, WellFounded, induction}
use native.Mathlib.Nat.{
  pow-suc, one-le-pow, div-add-mod, mod-lt, add-mul-mod_self_right, mod-eq_of_lt,
  div-div-eq-div-mul,
}
use native.Mathlib.Omega.{arith}

word_acc : (bound n : ℕ) → n < bound → Acc ◌<◌ n
word_acc zero n h = absurd (omega arith)
word_acc (suc bound) n h = Acc.intro n (λ m below. word_acc bound m (omega arith))

below_wf : WellFounded ◌<◌
below_wf = record { apply = λ n. word_acc (suc n) n (omega arith) }

-- The native operation is a recursion on binary digits whose fuel is its first argument.
abbrev conj_digits : ℕ → ℕ → ℕ → ℕ
conj_digits fuel a b = digits (λ y. 0) min fuel a b

digits_settled : (x y f g : ℕ) → x ≤ f → x ≤ g → conj_digits f x y ≡ conj_digits g x y
digits_settled zero y zero zero p q = refl
digits_settled zero y zero (suc g) p q = refl
digits_settled zero y (suc f) zero p q = refl
digits_settled zero y (suc f) (suc g) p q = refl
digits_settled (suc x) y zero g p q = absurd (omega arith)
digits_settled (suc x) y (suc f) zero p q = absurd (omega arith)
digits_settled (suc x) y (suc f) (suc g) p q =
    let half = digits_settled (suc x / 2) (y / 2) f g (omega arith) (omega arith) in omega arith

bit_and-none : (y : ℕ) → bit_and 0 y ≡ 0
bit_and-none = bit_and-bitwise 0

-- The lowest digit of `x & y`, and the digits above it.
lowest_digit : (x y : ℕ) → bit_and x y ≡ min (x % 2) (y % 2) + 2 * bit_and (x / 2) (y / 2)
lowest_digit (suc x) y =
    let whole = bit_and-bitwise (suc x) y in
    let half = bit_and-bitwise (suc x / 2) (y / 2) in
    let same = digits_settled (suc x / 2) (y / 2) x (suc x / 2) (omega arith) (omega arith) in
    omega arith
lowest_digit zero y = let half = bit_and-none (y / 2) in omega (arith, bit_and-none y)

bit_and-zero : (a : ℕ) → bit_and a 0 ≡ 0
bit_and-zero a =
    induction below_wf {C = λ k. bit_and k 0 ≡ 0} a
      λ k ih. ground (arith, bit_and-none 0, lowest_digit k 0, ih (k / 2))

mod_double : (a p : ℕ) → 0 < p → a % (p * 2) ≡ a / 2 % p * 2 + a % 2
mod_double a p h =
    let q = a / 2 / p in
    let r = a / 2 % p in
    let small : r * 2 + a % 2 < p * 2 = omega (arith, mod-lt (a / 2) h) in
    let split : a ≡ r * 2 + a % 2 + q * (p * 2) = omega (arith, div-add-mod (a / 2) p) in
    ap (λ (t : ℕ). t % (p * 2)) split
    ∙ add-mul-mod_self_right (r * 2 + a % 2) q (p * 2)
    ∙ mod-eq_of_lt small

-- A mask of the `k` low bits is the remainder by `2 ^ k`.
pub bit_and_low : (k a : ℕ) → bit_and a (2 ^ k - 1) ≡ a % 2 ^ k
bit_and_low zero a = ground (arith, bit_and-zero a)
bit_and_low (suc k) a =
    rw (pow-suc 2 k, mod_double a (2 ^ k) (one-le-pow k 2 (omega arith)))
      (ground (
        arith,
        one-le-pow k 2 (omega arith),
        lowest_digit a (2 ^ k * 2 - 1),
        bit_and_low k (a / 2),
      ))

-- A mask that is zero in its `k` low bits acts on what stands above them.
pub bit_and_high : (k a m : ℕ) → bit_and a (m * 2 ^ k) ≡ bit_and (a / 2 ^ k) m * 2 ^ k
bit_and_high zero a m = ground arith
bit_and_high (suc k) a m = rw (pow-suc 2 k) (
    ground (
      arith,
      lowest_digit a (m * (2 ^ k * 2)),
      div-div-eq-div-mul a 2 (2 ^ k),
      bit_and_high k (a / 2) m,
    ))
