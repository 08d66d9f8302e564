-- ===== src/Printk/State.antt =====
-- The DESC_ macros of printk.c and get_desc_state: a state variable holds the descriptor's ID in its
-- low 62 bits and the state in the two bits above them.
use Prim.Native.Nat.{bit_and}
use kvm_dmesg.Base.{
  ℕ, zero, suc, ◌-◌, ◌*◌, ◌/◌, ◌%◌, ◌^◌, ◌<◌, ◌≡◌, refl, Bool, true, false, not, ◌&&◌, ◌||◌, arith,
  ◌==◌, if◌then◌else◌,
}
use kvm_dmesg.Base.Bits.{bit_and_low}
use kvm_dmesg.Base.Word.{not64, u64}

abbrev pub desc_sv_bits : ℕ
desc_sv_bits = 8 * 8

abbrev pub desc_flags_shift : ℕ
desc_flags_shift = desc_sv_bits - 2

abbrev pub desc_flags_mask : ℕ
desc_flags_mask = u64 (3 * 2 ^ desc_flags_shift)

abbrev pub desc_id_mask : ℕ
desc_id_mask = not64 desc_flags_mask

unfoldable pub desc_state_bits : ℕ → ℕ
desc_state_bits sv = bit_and (sv / 2 ^ desc_flags_shift) 3

unfoldable pub desc_id : ℕ → ℕ
desc_id sv = bit_and sv desc_id_mask

pub data DescState : Type 0 where
  desc_miss desc_reserved desc_committed desc_finalized desc_reusable : DescState

-- The enumerator of a number from 0 to 3.
abbrev pub desc_state_of : ℕ → DescState
desc_state_of zero = desc_reserved
desc_state_of (suc zero) = desc_committed
desc_state_of (suc (suc zero)) = desc_finalized
desc_state_of (suc (suc (suc _))) = desc_reusable

unfoldable pub get_desc_state : ℕ → ℕ → DescState
unfolding desc_state_bits desc_id
get_desc_state id state_val =
    if not (id == desc_id state_val) then desc_miss else desc_state_of (desc_state_bits state_val)

-- `state == desc_committed || state == desc_finalized`
abbrev pub is_readable : DescState → Bool
is_readable desc_committed = true
is_readable desc_finalized = true
is_readable _ = false

pub desc_id_lem : (sv : ℕ) → desc_id sv ≡ sv % 2 ^ 62
unfolding desc_id
desc_id_lem sv = bit_and_low 62 sv

pub desc_state_bits_lem : (sv : ℕ) → desc_state_bits sv ≡ sv / 2 ^ 62 % 4
unfolding desc_state_bits
desc_state_bits_lem sv = bit_and_low 2 (sv / 2 ^ 62)

readable_bits : (n : ℕ) → is_readable (desc_state_of n) ≡ (n == 1 || n == 2)
readable_bits zero = refl
readable_bits (suc zero) = refl
readable_bits (suc (suc zero)) = refl
readable_bits (suc (suc (suc n))) = ground arith

-- The two bits of a state that is printed: committed or finalized.
abbrev pub state_matches : ℕ → ℕ → Bool
state_matches id sv = id == sv % 2 ^ 62 && (sv / 2 ^ 62 == 1 || sv / 2 ^ 62 == 2)

-- For every 64-bit state variable, dump_record takes a descriptor as readable exactly if the low 62
-- bits are the wanted ID and the two bits above them are 1 or 2.
pub get_desc_state_lem :
    (id sv : ℕ) → sv < 2 ^ 64 → is_readable (get_desc_state id sv) ≡ state_matches id sv
unfolding get_desc_state
get_desc_state_lem id sv h =
    rw (desc_id_lem sv, desc_state_bits_lem sv) (ground (arith, readable_bits (sv / 2 ^ 62 % 4)))
