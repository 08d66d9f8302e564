-- ===== src/Text/Words.antt =====
-- The lines that QEMU's `xp` prints, and what sscanf reads from them: a label, and numbers in
-- hexadecimal with `0x` in front.
use kvm_dmesg.Base.{
  ℕ, zero, suc, ◌^◌, ◌≤◌, ◌<◌, ◌≡◌, refl, sym, ap, ◌∙◌, append_assoc, some, none, List, [], ◌∷◌,
  ◌++◌, map, arith, false, length,
}
use kvm_dmesg.Base.Bytes.{Bytes}
use kvm_dmesg.Text.{isspace}
use kvm_dmesg.Text.Hex.{hex_digit, hex_padded, Ends, scan_lx-hex_padded, hex_padded-LeadsDigits}
use kvm_dmesg.Text.Scan.{hex_value, skip_space, scan_lx, scan_0x, scan_values}

-- ` 0x%0*x`.
abbrev pub word_text : ℕ → ℕ → Bytes
word_text w v = b' ' ∷ b'0' ∷ b'x' ∷ hex_padded w v

abbrev pub words_text : ℕ → List ℕ → Bytes
words_text w [] = []
words_text w (v ∷ vs) = word_text w v ++ words_text w vs

abbrev pub AllBelow : ℕ → List ℕ → Type 0
AllBelow b [] = Unit {0}
AllBelow b (v ∷ vs) = (v < b) × AllBelow b vs

-- No number is behind these.
abbrev pub Closes : Bytes → Type 0
Closes rest = Ends rest × (scan_0x rest ≡ none)

pub skip_space-hex_padded :
    (w v : ℕ) (rest : Bytes)
    → skip_space (hex_padded (suc (suc w)) v ++ rest) ≡ hex_padded (suc (suc w)) v ++ rest
unfolding skip_space hex_digit
skip_space-hex_padded w v rest =
    let (d, e, t, front, p, q) = hex_padded-LeadsDigits w v in
    let blank : isspace (hex_digit d) ≡ false = ground arith in
    let text : hex_padded (suc (suc w)) v ++ rest ≡ hex_digit d ∷ hex_digit e ∷ (t ++ rest) =
      ap (λ (s : Bytes). s ++ rest) front in
    ap skip_space text ∙ rw blank (sym text)

scan_0x-word_text :
    (w v : ℕ) (rest : Bytes)
    → v < 16 ^ suc (suc w)
    → v < 2 ^ 64
    → Ends rest
    → scan_0x (word_text (suc (suc w)) v ++ rest) ≡ some (v, rest)
unfolding scan_0x skip_space
scan_0x-word_text w v rest room fits ends =
    ap scan_lx (skip_space-hex_padded w v rest) ∙ scan_lx-hex_padded w v rest room fits ends

Ends-words_text : (w : ℕ) (vs : List ℕ) (rest : Bytes) → Ends rest → Ends (words_text w vs ++ rest)
unfolding hex_value
Ends-words_text w [] rest h = h
Ends-words_text w (v ∷ vs) rest h = refl

-- As many conversions as there are numbers, or more, read the numbers.
pub scan_values-words_text :
    (narrow : ℕ → ℕ) (w n : ℕ) (vs : List ℕ) (rest : Bytes)
    → length vs ≤ n
    → 16 ^ suc (suc w) ≤ 2 ^ 64
    → AllBelow (16 ^ suc (suc w)) vs
    → Closes rest
    → scan_values narrow n (words_text (suc (suc w)) vs ++ rest) ≡ map narrow vs
unfolding scan_values
scan_values-words_text narrow w zero [] rest h fits below closes = refl
scan_values-words_text narrow w zero (v ∷ vs) rest h fits below closes = absurd (omega arith)
scan_values-words_text narrow w (suc n) [] rest h fits below closes = rw (closes.1, scan_values)
scan_values-words_text narrow w (suc n) (v ∷ vs) rest h fits below closes =
    let behind : Bytes = words_text (suc (suc w)) vs ++ rest in
    ap (scan_values narrow (suc n))
      (append_assoc (word_text (suc (suc w)) v) (words_text (suc (suc w)) vs) rest)
    ∙ rw (
      scan_0x-word_text w v behind below.0 (omega (arith, below.0))
          (Ends-words_text (suc (suc w)) vs rest closes.0),
      scan_values,
      scan_values-words_text narrow w n vs rest (omega arith) fits below.1 closes,
    )
