-- ===== src/Tests/Text.antt =====
-- Characters and numbers.
use kvm_dmesg.Base.{ℕ, ◌≡◌, refl, ◌++◌, ◌%◌, ◌/◌, ◌∷◌, [], map, length}
use kvm_dmesg.Text.{codes, put_char}
use kvm_dmesg.Text.Decimal.{dec, dec_digits, pad, stamp, micros, micros_lem, number_from}

abbrev bell : ℕ
bell = 7

put_text_run : map put_char (codes "b" ++ bell ∷ 10 ∷ []) ≡ codes "b." ++ 10 ∷ []
unfolding put_char
put_text_run = refl

stamp_run : stamp 12_345_006_007_008 ≡ codes "[12345.006007] "
unfolding stamp micros pad dec dec_digits
stamp_run = refl

micros_lem_example :
    (length (micros 12_345_006_007_008) ≡ 6)
    × (number_from 0 (micros 12_345_006_007_008) ≡ 12_345_006_007_008 % 1_000_000_000 / 1000)
micros_lem_example = micros_lem 12_345_006_007_008
