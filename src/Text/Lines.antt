-- ===== src/Text/Lines.antt =====
-- Lines of a label and numbers: which bytes they hold, and how strtok and sscanf take them apart.
use kvm_dmesg.Base.{
  ℕ, zero, suc, ◌/◌, ◌%◌, ◌^◌, ◌≤◌, ◌<◌, ◌≡◌, ◌≢◌, refl, ap, ◌∙◌, append_assoc, List, [], ◌∷◌, ◌++◌,
  map, arith, false, ◌==◌, length,
}
use kvm_dmesg.Base.Bytes.{Bytes}
use kvm_dmesg.Text.{isspace, codes}
use kvm_dmesg.Text.Hex.{hex_digit, hex_padded}
use kvm_dmesg.Text.Scan.{
  skip_space, token, scan_values, scan_dump, cut_lines, strtok_lines, unless_empty,
}
use kvm_dmesg.Text.Words.{AllBelow, Closes, word_text, words_text, scan_values-words_text}

-- Every byte is `lo` or more, and no quote and no backslash.
abbrev pub AllFrom : ℕ → Bytes → Type 0
AllFrom lo [] = Unit {0}
AllFrom lo (c ∷ cs) = (lo ≤ c) × (c ≢ b'"') × (c ≢ b'\\') × AllFrom lo cs

pub AllFrom-weaken : (lo hi : ℕ) (s : Bytes) → lo ≤ hi → AllFrom hi s → AllFrom lo s
AllFrom-weaken lo hi [] h all = tt
AllFrom-weaken lo hi (c ∷ cs) h (p, q, r, all) = (omega arith, q, r, AllFrom-weaken lo hi cs h all)

pub AllFrom-append : (lo : ℕ) (s t : Bytes) → AllFrom lo s → AllFrom lo t → AllFrom lo (s ++ t)
AllFrom-append lo [] t h k = k
AllFrom-append lo (c ∷ cs) t (p, q, r, all) k = (p, q, r, AllFrom-append lo cs t all k)

hex_digit-AllFrom : (d : ℕ) → d < 16 → AllFrom 32 (hex_digit d ∷ [])
unfolding hex_digit
hex_digit-AllFrom d h = (ground arith, ground arith, ground arith, tt)

pub hex_padded-AllFrom : (w v : ℕ) → AllFrom 32 (hex_padded w v)
unfolding hex_padded
hex_padded-AllFrom zero v = tt
hex_padded-AllFrom (suc w) v =
    AllFrom-append 32 (hex_padded w (v / 16)) (hex_digit (v % 16) ∷ [])
      (hex_padded-AllFrom w (v / 16)) (hex_digit-AllFrom (v % 16) (omega arith))

codes-AllFrom : AllFrom 32 (codes " 0x")
codes-AllFrom = (
  omega arith,
  λ e. absurd (omega arith),
  λ e. absurd (omega arith),
  (
    omega arith,
    λ e. absurd (omega arith),
    λ e. absurd (omega arith),
    (omega arith, λ e. absurd (omega arith), λ e. absurd (omega arith), tt),
  ),
)

words_text-AllFrom : (w : ℕ) (vs : List ℕ) → AllFrom 32 (words_text w vs)
words_text-AllFrom w [] = tt
words_text-AllFrom w (v ∷ vs) =
    AllFrom-append 32 (word_text w v) (words_text w vs)
      (AllFrom-append 32 (codes " 0x") (hex_padded w v) codes-AllFrom (hex_padded-AllFrom w v))
      (words_text-AllFrom w vs)

-- One line of a dump: its label, and the numbers that stand in it.
pub record DumpLine : Type 0 where
  pub label : Bytes
  pub first : ℕ
  pub more : List ℕ

abbrev pub values_of : DumpLine → List ℕ
values_of l = l.first ∷ l.more

abbrev pub line_text : ℕ → DumpLine → Bytes
line_text w l = l.label ++ words_text w (values_of l)

-- The label is there and has no blanks, quotes and backslashes; there are at most `most` numbers, of
-- `w` digits.
pub record IsLine (w most : ℕ) (l : DumpLine) : Type 0 where
  pub labelled : 0 < length l.label
  pub printed : AllFrom 33 l.label
  pub few : length (values_of l) ≤ most
  pub fits : AllBelow (16 ^ w) (values_of l)

-- The numbers of all lines.
abbrev pub dump_values : List DumpLine → List ℕ
dump_values [] = []
dump_values (l ∷ ls) = values_of l ++ dump_values ls

abbrev pub AllLines : ℕ → ℕ → List DumpLine → Type 0
AllLines w most [] = Unit {0}
AllLines w most (l ∷ ls) = IsLine w most l × AllLines w most ls

pub line_text-AllFrom : (w most : ℕ) (l : DumpLine) → IsLine w most l → AllFrom 32 (line_text w l)
line_text-AllFrom w most l h =
    AllFrom-append 32 l.label (words_text w (values_of l))
      (AllFrom-weaken 32 33 l.label (omega arith) h.printed) (words_text-AllFrom w (values_of l))

-- `%s` reads a label.
token-label :
    (label rest : Bytes) → AllFrom 33 label → token (label ++ b' ' ∷ rest) ≡ (label, b' ' ∷ rest)
unfolding token
token-label [] rest h = refl
token-label (c ∷ cs) rest (p, q, r, all) =
    let blank : isspace c ≡ false = ground arith in rw (blank, token-label cs rest all)

skip_space-printed : (c : ℕ) (cs : Bytes) → 33 ≤ c → skip_space (c ∷ cs) ≡ c ∷ cs
unfolding skip_space
skip_space-printed c cs h = let blank : isspace c ≡ false = ground arith in rw blank

scan_dump-label :
    (narrow : ℕ → ℕ) (n : ℕ) (label rest : Bytes)
    → 0 < length label
    → AllFrom 33 label
    → scan_dump narrow n (label ++ b' ' ∷ rest) ≡ scan_values narrow n (b' ' ∷ rest)
unfolding scan_dump
scan_dump-label narrow n [] rest h all = absurd (omega arith)
scan_dump-label narrow n (c ∷ cs) rest h (p, q, r, all) =
    let got : token (skip_space (c ∷ (cs ++ b' ' ∷ rest))) ≡ (c ∷ cs, b' ' ∷ rest) =
      ap token (skip_space-printed c (cs ++ b' ' ∷ rest) p)
      ∙ token-label (c ∷ cs) rest (p, q, r, all) in
    rw (got, scan_dump) (ap (λ (t : Bytes × Bytes). scan_values narrow n t.1) got)

-- sscanf reads the numbers of a line, whatever closes it.
pub scan_dump-line_text :
    (narrow : ℕ → ℕ) (w most : ℕ) (l : DumpLine) (rest : Bytes)
    → IsLine (suc (suc w)) most l
    → 16 ^ suc (suc w) ≤ 2 ^ 64
    → Closes rest
    → scan_dump narrow most (line_text (suc (suc w)) l ++ rest) ≡ map narrow (values_of l)
scan_dump-line_text narrow w most l rest h fits closes =
    ap (scan_dump narrow most) (append_assoc l.label (words_text (suc (suc w)) (values_of l)) rest)
    ∙ scan_dump-label narrow most l.label _ h.labelled h.printed
    ∙ scan_values-words_text narrow w most (values_of l) rest h.few fits h.fits closes

-- strtok stops at the end of a line.
cut_lines-line :
    (s rest : Bytes)
    → AllFrom 32 s
    → cut_lines (s ++ b'\r' ∷ b'\n' ∷ rest) ≡ (s ++ b'\r' ∷ [], strtok_lines rest)
unfolding cut_lines strtok_lines
cut_lines-line [] rest h = refl
cut_lines-line (c ∷ cs) rest (p, q, r, all) =
    let other : (c == b'\n') ≡ false = ground arith in rw (other, cut_lines-line cs rest all)

unless_empty-snoc :
    (s : Bytes) (c : ℕ) (lines : List Bytes)
    → unless_empty (s ++ c ∷ []) lines ≡ (s ++ c ∷ []) ∷ lines
unless_empty-snoc [] c lines = refl
unless_empty-snoc (x ∷ xs) c lines = refl

pub strtok_lines-line :
    (s rest : Bytes)
    → AllFrom 32 s
    → strtok_lines (s ++ b'\r' ∷ b'\n' ∷ rest) ≡ (s ++ b'\r' ∷ []) ∷ strtok_lines rest
unfolding strtok_lines
strtok_lines-line s rest h =
    ap (λ (p : Bytes × List Bytes). unless_empty p.0 p.1) (cut_lines-line s rest h)
    ∙ unless_empty-snoc s b'\r' (strtok_lines rest)
