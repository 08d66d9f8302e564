-- ===== src/Symbols/Init.antt =====
-- symtab_init, and the readers of the table: kernel_symbol_exists and symbol_value.
use kvm_dmesg.Base.{
  ℕ, ◌≡◌, ◌≢◌, ◌∙◌, ap, refl, Bool, true, false, Option, none, some, [], if◌then◌else◌, arith,
}
use mathlib.Core.Option.{or_else}
use kvm_dmesg.Base.Bytes.{Bytes}
use kvm_dmesg.Base.Run.{Run, ok, fault, diverges, ◌>>=◌, Returns}
use kvm_dmesg.Machine.{Machine, Syment}
use kvm_dmesg.Symbols.{
  streq, symbol_needed, symname_hash_search, kernel_symbol_exists, symbol_value,
}
use kvm_dmesg.Symbols.Chains.{value_of}
use kvm_dmesg.Symbols.Lookup.{IsTable, address_of, IsIndexed, is_ascii, index_total, index_at}
use kvm_dmesg.Symbols.Load.{
  first_address, first_listed, first_address-first_listed, empty_table, symname_hash_init-first,
}
use kvm_dmesg.Symbols.Map.{fgets_lines, line_room, symtab_init}
use kvm_dmesg.Text.{codes}

abbrev pub is_some : Option ℕ → Bool
is_some none = false
is_some (some a) = true

abbrev pub or_zero : Option ℕ → ℕ
or_zero none = 0
or_zero (some a) = a

module _ (m : Machine) (name : Bytes) {found : Option ℕ}
    (reads : address_of m.st.symname_hash name ≡ ok found) where
  search_cases :
      (r : Run (Option Syment))
      → (r >>= λ sp. ok (value_of sp)) ≡ ok found
      → ((r >>= λ sp. elim sp [ some _ ↦ ok true | none ↦ ok false ]) ≡ ok (is_some found))
        × ((r >>= λ sp. elim sp [ some s ↦ ok s.value | none ↦ ok 0 ]) ≡ ok (or_zero found))
  search_cases (ok none) h = ground arith
  search_cases (ok (some sp)) h = ground arith
  search_cases fault h = cc
  search_cases diverges h = cc

  -- Existence and value of a symbol are those of the map.
  pub kernel_symbol_exists_lem : kernel_symbol_exists m name ≡ ok (is_some found)
  unfolding kernel_symbol_exists address_of
  kernel_symbol_exists_lem = (search_cases (symname_hash_search m.st.symname_hash name) reads).0

  pub symbol_value_lem : symbol_value m name ≡ ok (or_zero found)
  unfolding symbol_value address_of
  symbol_value_lem = (search_cases (symname_hash_search m.st.symname_hash name) reads).1

-- What symtab_init leaves: the whole state but for the symbol data is as before.
pub record IsFilled (file : Bytes) (m r : Machine) : Type 0 where
  pub table : IsTable r.st.symname_hash
  pub reads :
      (name : Bytes)
      → IsIndexed name
      → address_of r.st.symname_hash name ≡ ok (first_address (fgets_lines line_room [] file) name)
  pub divide_error :
      r.st.divide_error_vmlinux
      ≡ or_zero (
          or_else
            (first_address (fgets_lines line_room [] file) (codes "asm_exc_divide_error"))
            (first_address (fgets_lines line_room [] file) (codes "divide_error")))
  pub idt_table :
      r.st.idt_table_vmlinux
      ≡ or_zero (first_address (fgets_lines line_room [] file) (codes "idt_table"))
  pub rest : r ≡ record m { st = r.st }

choose_divide : (a b : Option ℕ) → or_zero (if is_some a then a else b) ≡ or_zero (or_else a b)
unfolding or_else
choose_divide none b = refl
choose_divide (some v) b = refl

abbrev choice : Bool → Bytes
choice b = if b then codes "asm_exc_divide_error" else codes "divide_error"

divide_reads :
    (m : Machine) (a b : Option ℕ)
    → address_of m.st.symname_hash (codes "asm_exc_divide_error") ≡ ok a
    → address_of m.st.symname_hash (codes "divide_error") ≡ ok b
    → symbol_value m (choice (is_some a)) ≡ ok (or_zero (or_else a b))
unfolding or_else
divide_reads m none b p q = symbol_value_lem m _ q
divide_reads m (some v) b p q = symbol_value_lem m _ p

-- symtab_init over an empty table, at all names that have an index.
pub symtab_init-IsFilled :
    (file : Bytes) (m : Machine)
    → m.st.symname_hash ≡ empty_table
    → Returns (symtab_init (some file) m) (IsFilled file m)
unfolding symtab_init
symtab_init-IsFilled file m blank =
    let (t, run, (valid, reads)) = symname_hash_init-first file in
    let loaded = record m { st = record m.st { symname_hash = t } } in
    let first = first_address (fgets_lines line_room [] file) in
    let asm : address_of t (codes "asm_exc_divide_error")
        ≡ ok (first (codes "asm_exc_divide_error")) =
      reads _ (index_at _ _ refl) in
    let divide : address_of t (codes "divide_error") ≡ ok (first (codes "divide_error")) =
      reads _ (index_at _ _ refl) in
    let idt : address_of t (codes "idt_table") ≡ ok (first (codes "idt_table")) =
      reads _ (index_at _ _ refl) in
    (
      record m {
        st = record {
          symname_hash = t;
          divide_error_vmlinux =
              or_zero
                (or_else (first (codes "asm_exc_divide_error")) (first (codes "divide_error")));
          idt_table_vmlinux = or_zero (first (codes "idt_table"));
        };
      },
      rw (
        blank,
        run,
        ◌>>=◌,
        kernel_symbol_exists_lem loaded _ asm,
        divide_reads loaded _ _ asm divide,
        symbol_value_lem loaded _ idt,
      ),
      record { table = valid; reads = reads; divide_error = refl; idt_table = refl; rest = refl },
    )

-- The address on the first line of a file that has the name.
abbrev pub listed_in : Bytes → Bytes → Option ℕ
listed_in file name = first_listed (fgets_lines line_room [] file) name

needed_in :
    (file name : Bytes)
    → symbol_needed name ≡ true
    → first_address (fgets_lines line_room [] file) name ≡ listed_in file name
needed_in file name needed =
    first_address-first_listed (fgets_lines line_room [] file) name ∙ rw needed

-- What symtab_init leaves, at a name.
pub record IsLoaded (file name : Bytes) (m r : Machine) : Type 0 where
  pub table : IsTable r.st.symname_hash
  pub reads :
      address_of r.st.symname_hash name
      ≡ ok (if symbol_needed name then listed_in file name else none)
  pub divide_error :
      r.st.divide_error_vmlinux
      ≡ or_zero (
          or_else
            (listed_in file (codes "asm_exc_divide_error"))
            (listed_in file (codes "divide_error")))
  pub idt_table : r.st.idt_table_vmlinux ≡ or_zero (listed_in file (codes "idt_table"))
  pub rest : r ≡ record m { st = r.st }

-- Over an empty table symtab_init succeeds; afterwards the table is valid, a name of ASCII bytes
-- that is not empty has the address on the first line of the file that has it if it is one of
-- symtab_array (none where no line has it), and none if it is not, the two addresses that the
-- relocation is computed from are those of the file or 0, and the rest of the state is as before.
pub symtab_init-IsLoaded :
    (file name : Bytes) (m : Machine)
    → m.st.symname_hash ≡ empty_table
    → name ≢ []
    → is_ascii name ≡ true
    → Returns (symtab_init (some file) m) (IsLoaded file name m)
unfolding symbol_needed streq
symtab_init-IsLoaded file name m blank named ascii =
    let (r, run, filled) = symtab_init-IsFilled file m blank in
    (
      r,
      run,
      record {
        table = filled.table;
        reads =
            filled.reads name (index_total name named ascii)
            ∙ ap ok (first_address-first_listed (fgets_lines line_room [] file) name);
        divide_error =
            filled.divide_error
            ∙ rw (
              needed_in file (codes "asm_exc_divide_error") refl,
              needed_in file (codes "divide_error") refl,
            );
        idt_table = filled.idt_table ∙ ap or_zero (needed_in file (codes "idt_table") refl);
        rest = filled.rest;
      },
    )
