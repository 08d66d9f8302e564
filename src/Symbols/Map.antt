-- ===== src/Symbols/Map.antt =====
-- symbols.c, reading System.map: symname_hash_init and symtab_init, with fgets and sscanf as the C
-- library has them.
use kvm_dmesg.Base.{
  ℕ, ◌-◌, true, false, ◌||◌, Option, none, some, List, [], ◌∷◌, ◌++◌, leb, ◌==◌, if◌then◌else◌,
}
use kvm_dmesg.Base.Bytes.{Bytes}
use kvm_dmesg.Base.Run.{Run, ok, ◌>>=◌}
use kvm_dmesg.Machine.{Machine, Chain}
use kvm_dmesg.Symbols.{symbol_needed, symname_hash_install, kernel_symbol_exists, symbol_value}
use kvm_dmesg.Text.{codes}
use kvm_dmesg.Text.Scan.{c_str, skip_space, token, scan_token, scan_lx}

-- fgets(line, 256): up to and with a newline, and at most 255 bytes. `room` is what is left of them.
abbrev pub line_room : ℕ
line_room = 255

unfoldable pub fgets_lines : ℕ → Bytes → Bytes → List Bytes
fgets_lines room line [] = elim line [ [] ↦ [] | l ∷ ls ↦ (l ∷ ls) ∷ [] ]
fgets_lines room line (c ∷ cs) = elim (c == b'\n' || leb room 1) [
  | true ↦ (line ++ c ∷ []) ∷ fgets_lines line_room [] cs
  | false ↦ fgets_lines (room - 1) (line ++ c ∷ []) cs
]

-- `sscanf(line, "%lx %*s %s", &address, symbol) == 2`
unfoldable pub scan_line : Bytes → Option (Bytes × ℕ)
unfolding scan_lx skip_space token
scan_line line = elim (scan_lx (skip_space line)) [
  | none ↦ none
  | some (address, s) ↦ elim (scan_token s) [
    | none ↦ none
    | some (_, t) ↦ elim (scan_token t) [ none ↦ none | some (symbol, _) ↦ some (symbol, address) ]
  ]
]

-- What the loop of symname_hash_init does with the two fields of a line.
unfoldable pub install_needed : Option (Bytes × ℕ) → List Chain → Run (List Chain)
unfolding symbol_needed symname_hash_install
install_needed none table = ok table
install_needed (some (symbol, address)) table =
    if symbol_needed symbol
    then symname_hash_install table (record { value = address; name = symbol; cnt = 0 })
    else ok table

-- One round of that loop.
unfoldable pub map_line : Bytes → List Chain → Run (List Chain)
unfolding scan_line c_str install_needed
map_line line table = install_needed (scan_line (c_str line)) table

unfoldable pub map_lines : List Bytes → List Chain → Run (List Chain)
unfolding map_line
map_lines [] table = ok table
map_lines (line ∷ rest) table = map_line line table >>= map_lines rest

-- symname_hash_init, on the contents of the file, or on nothing if it cannot be opened. The file is not
-- closed; Main/Whole counts it, with what else the process holds.
unfoldable pub symname_hash_init : Option Bytes → List Chain → Run (List Chain)
unfolding map_lines fgets_lines
symname_hash_init none table = ok table
symname_hash_init (some file) table = map_lines (fgets_lines line_room [] file) table

-- symtab_init
unfoldable pub symtab_init : Option Bytes → Machine → Run Machine
unfolding symname_hash_init kernel_symbol_exists symbol_value
symtab_init file m = do
  table ← symname_hash_init file m.st.symname_hash
  let loaded = record m { st = record m.st { symname_hash = table } }
  asm ← kernel_symbol_exists loaded (codes "asm_exc_divide_error")
  divide ← symbol_value loaded (if asm then codes "asm_exc_divide_error" else codes "divide_error")
  idt ← symbol_value loaded (codes "idt_table")
  ok (record m {
    st = record { symname_hash = table; divide_error_vmlinux = divide; idt_table_vmlinux = idt };
  })
