-- ===== src/Symbols/Bounds.antt =====
-- The addresses that are read from System.map fit 64 bits.
use kvm_dmesg.Base.{
  ℕ, ◌^◌, ◌<◌, Option, none, some, List, [], ◌∷◌, if◌then◌else◌, arith, Option-cases, Bool-cases,
  inl, inr, ◌==◌,
}
use mathlib.Core.Option.{or_else}
use kvm_dmesg.Base.Bytes.{Bytes}
use kvm_dmesg.Base.Word.{sub64}
use kvm_dmesg.Symbols.{streq, symbol_needed}
use kvm_dmesg.Symbols.Load.{line_symbol, needed_only, address_if, first_address}
use kvm_dmesg.Symbols.Map.{scan_line}
use kvm_dmesg.Text.Scan.{hex_value, hex_number, hex_prefix, scan_lx, scan_token, skip_space, c_str}

abbrev NumberFits : Option (ℕ × Bytes) → Type 0
NumberFits none = Unit {0}
NumberFits (some (n, rest)) = n < 2 ^ 64

abbrev SymbolFits : Option (Bytes × ℕ) → Type 0
SymbolFits none = Unit {0}
SymbolFits (some (symbol, address)) = address < 2 ^ 64

abbrev pub AddressFits : Option ℕ → Type 0
AddressFits none = Unit {0}
AddressFits (some address) = address < 2 ^ 64

hex_number-NumberFits : (s : Bytes) → NumberFits (hex_number s)
unfolding hex_number
hex_number-NumberFits [] = tt
hex_number-NumberFits (c ∷ cs) = elim (Option-cases (hex_value c)) [
  | inl none_there ↦ rw (none_there, NumberFits) tt
  | inr (d, e) ↦ rw (e, NumberFits) (omega arith)
]

minus-NumberFits :
    (r : Option (ℕ × Bytes))
    → NumberFits (elim r [ some (n, rest) ↦ some (sub64 0 n, rest) | none ↦ none ])
minus-NumberFits none = tt
minus-NumberFits (some (n, rest)) = omega arith

scan_lx-NumberFits : (s : Bytes) → NumberFits (scan_lx s)
unfolding scan_lx
scan_lx-NumberFits [] = tt
scan_lx-NumberFits (c ∷ cs) = elim (Bool-cases (c == b'-')) [
  | inl minus ↦ rw minus (minus-NumberFits (hex_number (hex_prefix cs)))
  | inr plus ↦ rw plus (hex_number-NumberFits (hex_prefix (if c == b'+' then cs else c ∷ cs)))
]

third_field :
    (address : ℕ) (t : Option (Bytes × Bytes))
    → address < 2 ^ 64
    → SymbolFits (elim t [ none ↦ none | some (symbol, _) ↦ some (symbol, address) ])
third_field address none h = tt
third_field address (some (symbol, rest)) h = h

second_field :
    (address : ℕ) (t : Option (Bytes × Bytes))
    → address < 2 ^ 64
    → SymbolFits (elim t [
      | none ↦ none
      | some (_, u) ↦ elim (scan_token u) [
        | none ↦ none
        | some (symbol, _) ↦ some (symbol, address)
      ]
    ])
second_field address none h = tt
second_field address (some (symbol, u)) h = third_field address (scan_token u) h

first_field :
    (r : Option (ℕ × Bytes))
    → NumberFits r
    → SymbolFits (elim r [
      | none ↦ none
      | some (address, s) ↦ elim (scan_token s) [
        | none ↦ none
        | some (_, t) ↦ elim (scan_token t) [
          | none ↦ none
          | some (symbol, _) ↦ some (symbol, address)
        ]
      ]
    ])
first_field none h = tt
first_field (some (address, s)) h = second_field address (scan_token s) h

scan_line-SymbolFits : (line : Bytes) → SymbolFits (scan_line line)
unfolding scan_line
scan_line-SymbolFits line =
    first_field (scan_lx (skip_space line)) (scan_lx-NumberFits (skip_space line))

address_if-AddressFits :
    (found : Option (Bytes × ℕ)) (name : Bytes)
    → SymbolFits found
    → AddressFits (address_if (needed_only found) name)
address_if-AddressFits none name h = tt
address_if-AddressFits (some (symbol, address)) name h = elim (Bool-cases (symbol_needed symbol)) [
  | inr unneeded ↦ rw unneeded tt
  | inl needed ↦ elim (Bool-cases (streq symbol name)) [
    | inl same ↦ rw (needed, same) h
    | inr differ ↦ rw (needed, differ) tt
  ]
]

or_else-AddressFits : (a b : Option ℕ) → AddressFits a → AddressFits b → AddressFits (or_else a b)
unfolding or_else
or_else-AddressFits none b p q = q
or_else-AddressFits (some v) b p q = p

pub first_address-AddressFits :
    (lines : List Bytes) (name : Bytes) → AddressFits (first_address lines name)
unfolding first_address line_symbol
first_address-AddressFits [] name = tt
first_address-AddressFits (line ∷ rest) name =
    or_else-AddressFits _ _
      (address_if-AddressFits (scan_line (c_str line)) name (scan_line-SymbolFits (c_str line)))
      (first_address-AddressFits rest name)
