-- ===== src/Tests/Symbols.antt =====
-- A System.map of four lines.
use mathlib.Core.Bool.{xor}
use mathlib.Core.Option.{or_else}
use kvm_dmesg.Base.{ℕ, ◌≡◌, refl, ◌++◌, ◌∷◌, [], some, none, Option}
use kvm_dmesg.Base.Bytes.{Bytes, byte_at}
use kvm_dmesg.Base.Run.{ok, fault, Returns}
use kvm_dmesg.Machine.{Machine}
use kvm_dmesg.Symbols.{
  symname_hash_install, streq, symbol_needed, chain_search, symname_hash_search, symname_hash_index,
  index_of, chain_install, set_chain, chain_at, kernel_symbol_exists, symbol_value,
}
use kvm_dmesg.Symbols.Init.{IsLoaded, listed_in, symtab_init-IsLoaded}
use kvm_dmesg.Symbols.Load.{empty_table, empty_table-IsTable, first_address, first_listed}
use kvm_dmesg.Symbols.Lookup.{IsTable, address_of, first_of, install-IsTable}
use kvm_dmesg.Symbols.Map.{
  symtab_init, symname_hash_init, fgets_lines, line_room, scan_line, map_line, map_lines,
  install_needed,
}
use kvm_dmesg.Text.Scan.{c_str, skip_space, token, hex_value, hex_digits, scan_lx}
use kvm_dmesg.Tests.Guests.{started, no_registers, memory}
use kvm_dmesg.Text.{codes}

abbrev pub line : Bytes → Bytes
line s = s ++ b'\n' ∷ []

abbrev system_map : Bytes
system_map =
    line (codes "ffffffff81000000 T _text")
    ++ (line (codes "ffffffff81a00b40 T asm_exc_divide_error")
        ++ (line (codes "ffffffff82c00000 D idt_table") ++ codes "ffffffff82f08ca0 D prb"))

abbrev machine : Machine
machine = started (memory []) no_registers 0 0

program : Unit {0}
unfolding byte_at streq symbol_needed symname_hash_index chain_install set_chain chain_at
    symname_hash_install chain_search symname_hash_search kernel_symbol_exists symbol_value
    fgets_lines c_str skip_space token hex_value hex_digits scan_lx scan_line install_needed
    map_line map_lines symname_hash_init symtab_init address_of first_address or_else
program = tt

scan_line_run :
    scan_line (codes "  ffffffff82f08ca0 D prb") ≡ some (codes "prb", 0xffff_ffff_82f0_8ca0)
unfolding program
scan_line_run = refl

-- The last line has no end.
lines_run :
    first_address (fgets_lines line_room [] system_map) (codes "prb") ≡ some 0xffff_ffff_82f0_8ca0
unfolding program
lines_run = refl

unneeded_run : first_address (fgets_lines line_room [] system_map) (codes "_text") ≡ none
unfolding program
unneeded_run = refl

symtab_init-IsLoaded_example :
    Returns (symtab_init (some system_map) machine) (IsLoaded system_map (codes "_text") machine)
symtab_init-IsLoaded_example =
    symtab_init-IsLoaded system_map (codes "_text") machine refl (λ e. cc) refl

-- The first needed name behind one that is not.
prb_listed : listed_in system_map (codes "prb") ≡ some 0xffff_ffff_82f0_8ca0
unfolding program first_listed
prb_listed = refl

-- A name of one byte that is negative as a `char`.
negative_run : symname_hash_index (0x80 ∷ []) ≡ fault
unfolding program xor index_of
negative_run = refl

install-IsTable_example :
    Returns
      (symname_hash_install empty_table (record { value = 5; name = codes "prb"; cnt = 0 }))
      λ t.
        IsTable t
        × (old : Option ℕ) × (address_of empty_table (codes "prb") ≡ ok old)
        × (address_of t (codes "prb")
            ≡ ok (first_of old (record { value = 5; name = codes "prb"; cnt = 0 }) (codes "prb")))
install-IsTable_example =
    install-IsTable empty_table (record { value = 5; name = codes "prb"; cnt = 0 }) (codes "prb")
      empty_table-IsTable (λ e. cc) refl (λ e. cc) refl
