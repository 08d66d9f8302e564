-- ===== src/Printk/Vmcoreinfo/Value.antt =====
-- A value of vmcoreinfo that is there: what the kernel printed by `%lu` is read back.
use kvm_dmesg.Base.{
  ℕ, zero, suc, ◌+◌, ◌-◌, ◌*◌, ◌/◌, ◌%◌, ◌^◌, ◌<◌, ◌≡◌, refl, ap, ◌∙◌, true, [], ◌∷◌, ◌++◌, arith,
  some, length, take, drop, length-append, take-append, drop-append, ltb, Bool-cases, inl, inr,
}
use kvm_dmesg.Base.Bytes.{Bytes}
use kvm_dmesg.Base.Run.{ok}
use kvm_dmesg.Printk.Vmcoreinfo.{
  vmcoreinfo_read_string, value_behind, value_before, datatype_info, isdigit, decimal, strtol,
  Request, struct_size_request, member_offset_request,
}
use kvm_dmesg.Printk.Vmcoreinfo.Missing.{search_key}
use kvm_dmesg.Text.Decimal.{dec, dec_digits, number_from, number_from-dec}
use kvm_dmesg.Text.Search.{strstr_first, IsFirst, is_prefix}

abbrev AllDigits : Bytes → Type 0
AllDigits [] = Unit {0}
AllDigits (c ∷ cs) = (isdigit c ≡ true) × AllDigits cs

AllDigits-append : (s t : Bytes) → AllDigits s → AllDigits t → AllDigits (s ++ t)
AllDigits-append [] t p q = q
AllDigits-append (c ∷ cs) t p q = (p.0, AllDigits-append cs t p.1 q)

digit_is : (n : ℕ) → n < 10 → isdigit (n + b'0') ≡ true
digit_is n h = ground arith

AllDigits-dec_digits : (f n : ℕ) → AllDigits (dec_digits f n)
unfolding dec_digits
AllDigits-dec_digits zero n = tt
AllDigits-dec_digits (suc f) n = elim (Bool-cases (ltb n 10)) [
  | inl small ↦ rw small (digit_is n (ground arith), tt)
  | inr large ↦ rw large (
      AllDigits-append (dec_digits f (n / 10)) _ (AllDigits-dec_digits f (n / 10))
        (digit_is (n % 10) (omega arith), tt))
]

AllDigits-dec : (n : ℕ) → AllDigits (dec n)
unfolding dec
AllDigits-dec n = AllDigits-dec_digits 20 n

decimal-number_from : (acc : ℕ) (s : Bytes) → AllDigits s → decimal acc s ≡ number_from acc s
unfolding decimal number_from
decimal-number_from acc [] h = refl
decimal-number_from acc (c ∷ cs) h = rw h.0 (decimal-number_from (acc * 10 + (c - b'0')) cs h.1)

-- strtol of a run of digits is their number, if that is a `long`.
strtol-digits : (s : Bytes) → AllDigits s → number_from 0 s < 2 ^ 63 → strtol s ≡ number_from 0 s
unfolding strtol
strtol-digits [] h fits = unfold number_from in refl
strtol-digits (c ∷ cs) h fits = ground (arith, decimal-number_from 0 (c ∷ cs) h, h.0)

strtol-dec : (value : ℕ) → value < 2 ^ 63 → strtol (dec value) ≡ value
strtol-dec value fits =
    let same = number_from-dec value (omega arith) in
    strtol-digits (dec value) (AllDigits-dec value) (omega arith) ∙ same

IsFirst-digits : (s rest : Bytes) → AllDigits s → IsFirst (b'\n' ∷ []) s rest
unfolding is_prefix
IsFirst-digits [] rest h = tt
IsFirst-digits (c ∷ cs) rest h = (ground arith, ground arith, IsFirst-digits cs rest h.1)

-- The key, a run of digits and a newline, behind text that does not have the key: the digits are
-- what is read.
read_digits :
    (pre key digits post : Bytes)
    → AllDigits digits
    → (k : ℕ) (ks : Bytes) → take 79 (key ++ b'=' ∷ []) ≡ k ∷ ks
    → IsFirst (k ∷ ks) pre ((k ∷ ks) ++ (digits ++ b'\n' ∷ post))
    → vmcoreinfo_read_string (pre ++ ((k ∷ ks) ++ (digits ++ b'\n' ∷ post))) key ≡ ok (some digits)
unfolding vmcoreinfo_read_string value_behind value_before
read_digits pre key digits post all k ks e first =
    let p2 : Bytes = digits ++ b'\n' ∷ post in
    let behind : drop (length (k ∷ ks)) ((k ∷ ks) ++ p2) ≡ p2 = drop-append (k ∷ ks) p2 in
    let width : length p2 - length (b'\n' ∷ post) ≡ length digits =
      omega (arith, length-append digits (b'\n' ∷ post)) in
    rw (
      e,
      strstr_first pre k ks p2 first,
      behind,
      strstr_first digits b'\n' [] post (IsFirst-digits digits _ all),
      width,
      take-append digits (b'\n' ∷ post),
    )

-- `key=value`, a newline, and what stands behind it.
abbrev pub key_line : Request → Bytes → Bytes → ℕ → Bytes → Bytes
key_line datatype name member value post =
    search_key datatype name member ++ (dec value ++ b'\n' ∷ post)

-- A value below 2^63 that stands, printed in decimal, behind the first occurrence of its key and
-- before a newline is what datatype_info returns, for both kinds of request.
pub datatype_info-dec :
    (pre name member post : Bytes) (datatype : Request) (value : ℕ)
    → value < 2 ^ 63
    → IsFirst (search_key datatype name member) pre (key_line datatype name member value post)
    → datatype_info (pre ++ key_line datatype name member value post) name member datatype
      ≡ ok value
unfolding datatype_info
datatype_info-dec pre name member post struct_size_request value fits first =
    rw (read_digits pre _ (dec value) post (AllDigits-dec value) _ _ refl first)
      (ap ok (strtol-dec value fits))
datatype_info-dec pre name member post member_offset_request value fits first =
    rw (read_digits pre _ (dec value) post (AllDigits-dec value) _ _ refl first)
      (ap ok (strtol-dec value fits))
