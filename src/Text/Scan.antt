-- ===== src/Text/Scan.antt =====
-- sscanf and strtoul as the C library has them: strings, tokens and hexadecimal numbers.
use kvm_dmesg.Base.{
  zero, suc, List, ℕ, ◌+◌, ◌-◌, ◌*◌, ◌^◌, min, ◌&&◌, ◌||◌, Option, none, some, [], ◌∷◌, leb, ◌==◌,
  if◌then◌else◌,
}
use kvm_dmesg.Base.Bytes.{Bytes}
use kvm_dmesg.Base.Word.{sub64}
use kvm_dmesg.Text.{isspace}

-- A string in a buffer ends before its first NUL.
unfoldable pub c_str : Bytes → Bytes
c_str [] = []
c_str (c ∷ cs) = if c == 0 then [] else c ∷ c_str cs

-- White space in a format, and the white space before `%lx` and `%s`.
unfoldable pub skip_space : Bytes → Bytes
skip_space [] = []
skip_space (c ∷ cs) = if isspace c then skip_space cs else c ∷ cs

-- `%s`: at least one byte that is no white space.
unfoldable pub token : Bytes → Bytes × Bytes
token [] = ([], [])
token (c ∷ cs) = let (t, rest) = token cs in if isspace c then ([], c ∷ cs) else (c ∷ t, rest)

abbrev pub scan_token : Bytes → Option (Bytes × Bytes)
scan_token s =
    let (t, rest) = token (skip_space s) in elim t [ [] ↦ none | x ∷ xs ↦ some (x ∷ xs, rest) ]

unfoldable pub hex_value : ℕ → Option ℕ
hex_value c =
    if leb b'0' c && leb c b'9'
    then some (c - b'0')
    else if leb b'a' c && leb c b'f'
    then some (c - b'a' + 10)
    else if leb b'A' c && leb c b'F'
    then some (c - b'A' + 10)
    else none

-- The digits of a hexadecimal number, their value so far first, and what stands behind them.
unfoldable pub hex_digits : ℕ → Bytes → ℕ × Bytes
unfolding hex_value
hex_digits acc [] = (acc, [])
hex_digits acc (c ∷ cs) = elim (hex_value c) [
  | some d ↦ hex_digits (acc * 16 + d) cs
  | none ↦ (acc, c ∷ cs)
]

-- At least one digit; a value that does not fit is ULONG_MAX.
unfoldable pub hex_number : Bytes → Option (ℕ × Bytes)
unfolding hex_digits
hex_number [] = none
hex_number (c ∷ cs) = elim (hex_value c) [
  | none ↦ none
  | some d ↦ let (n, rest) = hex_digits d cs in some (min n (2 ^ 64 - 1), rest)
]

unfoldable pub hex_prefix : Bytes → Bytes
hex_prefix (c ∷ d ∷ cs) = if c == b'0' && (d == b'x' || d == b'X') then cs else c ∷ d ∷ cs
hex_prefix s = s

-- `%lx`: an optional sign, an optional `0x`, and digits.
unfoldable pub scan_lx : Bytes → Option (ℕ × Bytes)
unfolding hex_number hex_prefix
scan_lx [] = none
scan_lx (c ∷ cs) =
    if c == b'-'
    then elim (hex_number (hex_prefix cs)) [ some (n, rest) ↦ some (sub64 0 n, rest) | none ↦ none ]
    else hex_number (hex_prefix (if c == b'+' then cs else c ∷ cs))

-- `0x%x` behind white space. White space is skipped in front of the number as well.
unfoldable pub scan_0x : Bytes → Option (ℕ × Bytes)
unfolding skip_space scan_lx
scan_0x s = elim (skip_space s) [
  | [] ↦ none
  | c ∷ [] ↦ none
  | c ∷ d ∷ cs ↦ if c == b'0' && d == b'x' then scan_lx (skip_space cs) else none
]

-- ` 0x%x 0x%x …`: the values that so many conversions assign, up to the first that does not match.
-- `narrow` is what fits into the variables.
unfoldable pub scan_values : (ℕ → ℕ) → ℕ → Bytes → List ℕ
unfolding scan_0x
scan_values narrow zero s = []
scan_values narrow (suc n) s = elim (scan_0x s) [
  | none ↦ []
  | some (v, rest) ↦ narrow v ∷ scan_values narrow n rest
]

-- `%*s 0x%x 0x%x …`: a token that is not stored, and the values.
unfoldable pub scan_dump : (ℕ → ℕ) → ℕ → Bytes → List ℕ
unfolding scan_values token skip_space
scan_dump narrow n line = elim (scan_token line) [
  | none ↦ []
  | some (label, rest) ↦ scan_values narrow n rest
]

-- strtok skips empty lines.
abbrev pub unless_empty : Bytes → List Bytes → List Bytes
unless_empty [] lines = lines
unless_empty (c ∷ cs) lines = (c ∷ cs) ∷ lines

-- strtok with "\n" until it returns NULL: the line at the front, and the lines behind it that are not
-- empty.
unfoldable pub cut_lines : Bytes → Bytes × List Bytes
cut_lines [] = ([], [])
cut_lines (c ∷ cs) =
    let (line, lines) = cut_lines cs in
    if c == b'\n' then ([], unless_empty line lines) else (c ∷ line, lines)

unfoldable pub strtok_lines : Bytes → List Bytes
unfolding cut_lines
strtok_lines s = let (line, lines) = cut_lines s in unless_empty line lines
