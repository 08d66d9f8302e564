-- ===== src/Symbols/Load.antt =====
-- What the table holds after the loop of symname_hash_init: for each name the address on the first
-- line that has it.
use kvm_dmesg.Base.{
  ℕ, zero, suc, ◌≡◌, refl, ap, ◌∙◌, Bool, true, ◌&&◌, Option, none, some, List, [], ◌∷◌,
  if◌then◌else◌, arith, Bool-cases, inl, inr, ◌≢◌, replicate, get_elem?, lt-get_elem?, sym,
}
use mathlib.Core.Path.{subst}
use mathlib.Core.Option.{or_else}
use kvm_dmesg.Base.Bytes.{Bytes}
use kvm_dmesg.Base.Run.{Run, ok, Returns}
use kvm_dmesg.Machine.{Syment, Chain}
use kvm_dmesg.Symbols.{streq, any_streq, symtab_array, symbol_needed, chain_search}
use kvm_dmesg.Symbols.Chains.{value_of, IsCounted, streq→eq}
use kvm_dmesg.Symbols.Lookup.{
  IsTable, address_of, address_of_lem, install-first_of, index_total, IsIndexed, is_ascii,
}
use kvm_dmesg.Symbols.Map.{
  scan_line, map_line, map_lines, install_needed, fgets_lines, line_room, symname_hash_init,
}
use kvm_dmesg.Text.Scan.{c_str}

abbrev pub needed_only : Option (Bytes × ℕ) → Option (Bytes × ℕ)
needed_only none = none
needed_only (some (symbol, address)) = if symbol_needed symbol then some (symbol, address) else none

-- The symbol of a line, if the line has one and the program needs it.
unfoldable pub line_symbol : Bytes → Option (Bytes × ℕ)
line_symbol line = needed_only (scan_line (c_str line))

abbrev pub address_if : Option (Bytes × ℕ) → Bytes → Option ℕ
address_if none name = none
address_if (some (symbol, address)) name = if streq symbol name then some address else none

-- The address on the first line that has the name as a needed symbol.
unfoldable pub first_address : List Bytes → Bytes → Option ℕ
unfolding line_symbol
first_address [] name = none
first_address (line ∷ rest) name =
    or_else (address_if (line_symbol line) name) (first_address rest name)

-- `t` is a table that reads as `table` does, and behind it as `f`.
abbrev pub Extends : List Chain → (Bytes → Option ℕ) → List Chain → Type 0
Extends table f t =
    IsTable t
    × ((name : Bytes)
        → IsIndexed name
        → (old : Option ℕ) × (address_of table name ≡ ok old)
          × (address_of t name ≡ ok (or_else old (f name))))

abbrev all_ascii : List Bytes → Bool
all_ascii [] = true
all_ascii (s ∷ rest) = is_ascii s && all_ascii rest

any_streq-is_ascii :
    (symbol : Bytes) (names : List Bytes)
    → all_ascii names ≡ true
    → any_streq symbol names ≡ true
    → is_ascii symbol ≡ true
unfolding any_streq
any_streq-is_ascii symbol [] all h = cc
any_streq-is_ascii symbol (s ∷ rest) all h = elim (Bool-cases (streq symbol s)) [
  | inl same ↦ ap is_ascii (streq→eq symbol s same) ∙ ground arith
  | inr differ ↦ any_streq-is_ascii symbol rest (ground arith) (ground arith)
]

-- The symbols that are needed are of ASCII bytes.
symbol_needed-is_ascii : (s : Bytes) → symbol_needed s ≡ true → is_ascii s ≡ true
unfolding symbol_needed
symbol_needed-is_ascii s h = any_streq-is_ascii s symtab_array refl h

symbol_needed_named : (s : Bytes) → symbol_needed s ≡ true → s ≢ []
unfolding symbol_needed
symbol_needed_named [] h e = cc
symbol_needed_named (c ∷ cs) h e = cc

-- A table reads in some way at every name.
address_total :
    (table : List Chain)
    → IsTable table
    → (name : Bytes) → IsIndexed name
    → (old : Option ℕ) × (address_of table name ≡ ok old)
address_total table valid name (i, at, below) =
    let (c, here) = lt-get_elem? table i (omega (arith, valid.width)) in
    (value_of (chain_search c name), address_of_lem table name at here)

or_else-none : (o : Option ℕ) → or_else o none ≡ o
unfolding or_else
or_else-none none = refl
or_else-none (some a) = refl

or_else_assoc : (a b c : Option ℕ) → or_else (or_else a b) c ≡ or_else a (or_else b c)
unfolding or_else
or_else_assoc none b c = refl
or_else_assoc (some x) b c = refl

reads_on :
    {r s : Run (Option ℕ)} (old a b mid : Option ℕ)
    → r ≡ ok (or_else old a)
    → r ≡ ok mid
    → s ≡ ok (or_else mid b)
    → s ≡ ok (or_else old (or_else a b))
reads_on old a b mid p q h = cc (or_else_assoc old a b)

reads_empty :
    {r s : Run (Option ℕ)} (old a : Option ℕ)
    → r ≡ ok none
    → r ≡ ok old
    → s ≡ ok (or_else old a)
    → s ≡ ok a
unfolding or_else
reads_empty none a p q h = h
reads_empty (some v) a p q h = cc

-- A line that installs nothing changes nothing.
Extends-refl : (table : List Chain) → IsTable table → Extends table (λ name. none) table
Extends-refl table valid = (
  valid,
  λ name indexed.
      let (old, e) = address_total table valid name indexed in
      (old, e, e ∙ ap ok (sym (or_else-none old))),
)

install_needed-Extends :
    (found : Option (Bytes × ℕ)) (table : List Chain)
    → IsTable table
    → Returns (install_needed found table) (Extends table (address_if (needed_only found)))
unfolding install_needed
install_needed-Extends none table valid = (table, refl, Extends-refl table valid)
install_needed-Extends (some (symbol, address)) table valid =
    elim (Bool-cases (symbol_needed symbol)) [
      | inr unneeded ↦ rw unneeded (table, refl, Extends-refl table valid)
      | inl needed ↦ rw needed (
          install-first_of table (record { value = address; name = symbol; cnt = 0 }) valid
            (index_total symbol (symbol_needed_named symbol needed)
              (symbol_needed-is_ascii symbol needed)))
    ]

pub map_line-Extends :
    (line : Bytes) (table : List Chain)
    → IsTable table
    → Returns (map_line line table) (Extends table (address_if (line_symbol line)))
unfolding map_line line_symbol
map_line-Extends line table valid = install_needed-Extends (scan_line (c_str line)) table valid

-- From any valid table the loop over the lines ends in a valid one, in which a name reads as before
-- if it was there, and else as the first line that has it.
pub map_lines-Extends :
    (lines : List Bytes) (table : List Chain)
    → IsTable table
    → Returns (map_lines lines table) (Extends table (first_address lines))
unfolding map_lines first_address
map_lines-Extends [] table valid = (table, refl, Extends-refl table valid)
map_lines-Extends (line ∷ rest) table valid =
    let (t, run, (good, reads)) = map_line-Extends line table valid in
    let (u, later, (fine, reads')) = map_lines-Extends rest t good in
    (
      u,
      rw run later,
      (
        fine,
        λ name indexed.
            let (old, e, e') = reads name indexed in
            let (mid, f, f') = reads' name indexed in (old, e, reads_on old _ _ mid e' f f'),
      ),
    )

abbrev pub empty_table : List Chain
empty_table = replicate 512 []

get_elem?-replicate : (n i : ℕ) (c : Chain) → get_elem? (replicate n []) i ≡ some c → c ≡ []
get_elem?-replicate zero i c h = cc
get_elem?-replicate (suc n) zero c h = cc
get_elem?-replicate (suc n) (suc i) c h = get_elem?-replicate n i c h

chain_search-empty : (name : Bytes) → chain_search [] name ≡ none
unfolding chain_search
chain_search-empty name = refl

pub empty_table-IsTable : IsTable empty_table
empty_table-IsTable = record {
  width = refl;
  counted = λ i c h. subst IsCounted (sym (get_elem?-replicate 512 i c h)) tt;
}

address_of-empty : (name : Bytes) → IsIndexed name → address_of empty_table name ≡ ok none
address_of-empty name (i, at, below) =
    let (c, here) = lt-get_elem? empty_table i below in
    address_of_lem empty_table name at here
    ∙ ap (λ (d : Chain). ok (value_of (chain_search d name))) (get_elem?-replicate 512 i c here)
    ∙ ap (λ (o : Option Syment). ok (value_of o)) (chain_search-empty name)

-- symname_hash_init over an empty table succeeds; afterwards the table is valid, and it gives every
-- name that has an index the address on the first line of the file that has it as a needed symbol.
pub symname_hash_init-first :
    (file : Bytes)
    → Returns (symname_hash_init (some file) empty_table) λ t.
      IsTable t
      × ((name : Bytes)
          → IsIndexed name
          → address_of t name ≡ ok (first_address (fgets_lines line_room [] file) name))
unfolding symname_hash_init or_else
symname_hash_init-first file =
    let (t, run, (valid, reads)) =
      map_lines-Extends (fgets_lines line_room [] file) empty_table empty_table-IsTable in
    (
      t,
      run,
      (
        valid,
        λ name indexed.
            let (old, e, e') = reads name indexed in
            reads_empty old _ (address_of-empty name indexed) e e',
      ),
    )

-- The address on the first line that has the name, needed or not.
unfoldable pub first_listed : List Bytes → Bytes → Option ℕ
first_listed [] name = none
first_listed (line ∷ rest) name =
    or_else (address_if (scan_line (c_str line)) name) (first_listed rest name)

line_listed :
    (found : Option (Bytes × ℕ)) (name : Bytes)
    → address_if (needed_only found) name
      ≡ (if symbol_needed name then address_if found name else none)
line_listed none name = ground arith
line_listed (some (symbol, address)) name = elim (Bool-cases (streq symbol name)) [
  | inl same ↦
      let needed = ap symbol_needed (streq→eq symbol name same) in ground (arith, needed, same)
  | inr differ ↦ ground (arith, differ)
]

-- The names that the program needs read as the first line that has them, and the others as none.
pub first_address-first_listed :
    (lines : List Bytes) (name : Bytes)
    → first_address lines name ≡ (if symbol_needed name then first_listed lines name else none)
unfolding first_address first_listed line_symbol or_else
first_address-first_listed [] name = ground arith
first_address-first_listed (line ∷ rest) name =
    let here = line_listed (scan_line (c_str line)) name in
    let later = first_address-first_listed rest name in
    rw (here, later)
      (elim (Bool-cases (symbol_needed name)) [
        | inl needed ↦ rw needed refl
        | inr unneeded ↦ rw unneeded refl
      ])
