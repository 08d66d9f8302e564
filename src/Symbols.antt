-- ===== src/Symbols.antt =====
-- symbols.c: the hash table of the kernel symbols that the program needs.
pub mod Map
pub mod Chains
pub mod Lookup
pub mod Load
pub mod Init
pub mod Data
pub mod Bounds
use Prim.Native.Nat.{bit_and, bit_xor}
use kvm_dmesg.Base.{
  ℕ, zero, suc, ◌+◌, ◌-◌, ◌*◌, ◌/◌, ◌%◌, ◌^◌, ◌≡◌, refl, Bool, true, false, ◌&&◌, ◌||◌, Option,
  none, some, List, [], ◌∷◌, ◌++◌, leb, ltb, ◌==◌, if◌then◌else◌, length, get_elem?,
}
use mathlib.Core.Bool.{xor}
use kvm_dmesg.Base.Bytes.{Bytes, byte_at}
use kvm_dmesg.Base.Run.{Run, ok, fault, ◌>>=◌}
use kvm_dmesg.Base.Word.{ℤ, u8, u32, sub64}
use kvm_dmesg.Guest.{readmem, kvaddr}
use kvm_dmesg.Machine.{Machine, Syment, Chain, SymbolTableData}
use kvm_dmesg.Text.{codes}

-- STREQ of two strings that are there.
unfoldable pub streq : Bytes → Bytes → Bool
streq [] [] = true
streq [] (d ∷ ds) = false
streq (c ∷ cs) [] = false
streq (c ∷ cs) (d ∷ ds) = c == d && streq cs ds

abbrev pub symtab_array : List Bytes
symtab_array =
    codes "log_first_idx"
    ∷ codes "log_next_idx"
    ∷ codes "log_buf"
    ∷ codes "log_end"
    ∷ codes "log_buf_len"
    ∷ codes "divide_error"
    ∷ codes "asm_exc_divide_error"
    ∷ codes "idt_table"
    ∷ codes "vmcoreinfo_data"
    ∷ codes "vmcoreinfo_size"
    ∷ codes "page_offset_base"
    ∷ codes "vmalloc_base"
    ∷ codes "prb"
    ∷ []

unfoldable pub any_streq : Bytes → List Bytes → Bool
any_streq symbol [] = false
any_streq symbol (s ∷ rest) = streq symbol s || any_streq symbol rest

unfoldable pub symbol_needed : Bytes → Bool
unfolding any_streq streq
symbol_needed symbol = any_streq symbol symtab_array

abbrev pub symname_hash_size : ℕ
symname_hash_size = 512

-- A `char`, which is signed, as the 32 bits of an `int`.
abbrev pub int_of : ℕ → ℕ
int_of c = if leb c 127 then c else c + (2 ^ 32 - 256)

-- `bits % SYMNAME_HASH` of an `int` as an index, by its sign: a negative one is before the table, but
-- for a multiple of 512.
unfoldable pub index_of : Bool → ℕ → Run ℕ
index_of false bits = ok (bits % symname_hash_size)
index_of true bits = if (2 ^ 32 - bits) % symname_hash_size == 0 then ok 0 else fault

-- SYMNAME_HASH_INDEX. The sign of `^` is that of one of its operands if they differ in it. Of the empty
-- name it reads `name[-1]`.
unfoldable pub symname_hash_index : Bytes → Run ℕ
unfolding index_of
symname_hash_index [] = fault
symname_hash_index name = do
  first ← byte_at name 0
  last ← byte_at name (length name - 1)
  middle ← byte_at name (length name / 2)
  let product = u32 (int_of last * int_of middle)
  index_of (xor (leb (2 ^ 31) (int_of first)) (leb (2 ^ 31) product))
      (bit_xor (int_of first) product)

-- `cnt++` of an `unsigned char`, if the names are equal.
abbrev pub bump : Bool → Syment → Syment
bump true sp = record sp { cnt = u8 (sp.cnt + 1) }
bump false sp = sp

-- The walk of symname_hash_install down a chain; the new entry goes to its end.
unfoldable pub chain_install : Syment → Chain → Chain
unfolding streq
chain_install spn [] = spn ∷ []
chain_install spn (sp ∷ rest) =
    let same = streq sp.name spn.name in bump same sp ∷ chain_install (bump same spn) rest

-- `st->symname_hash[index] = …`
unfoldable pub set_chain : List Chain → ℕ → Chain → List Chain
set_chain [] i c = []
set_chain (d ∷ ds) zero c = c ∷ ds
set_chain (d ∷ ds) (suc i) c = d ∷ set_chain ds i c

unfoldable pub chain_at : List Chain → ℕ → Run Chain
chain_at table i = elim (get_elem? table i) [ some c ↦ ok c | none ↦ fault ]

unfoldable pub symname_hash_install : List Chain → Syment → Run (List Chain)
unfolding chain_install set_chain chain_at symname_hash_index
symname_hash_install table spn = do
  index ← symname_hash_index spn.name
  chain ← chain_at table index
  ok (set_chain table index (chain_install (record spn { cnt = 1 }) chain))

-- The walk of symname_hash_search.
unfoldable pub chain_search : Chain → Bytes → Option Syment
unfolding streq
chain_search [] name = none
chain_search (sp ∷ rest) name = if streq sp.name name then some sp else chain_search rest name

unfoldable pub symname_hash_search : List Chain → Bytes → Run (Option Syment)
unfolding chain_search chain_at symname_hash_index
symname_hash_search table name = do
  index ← symname_hash_index name
  chain ← chain_at table index
  ok (chain_search chain name)

-- symbol_search
abbrev pub symbol_search : Machine → Bytes → Run (Option Syment)
symbol_search m s = symname_hash_search m.st.symname_hash s

unfoldable pub kernel_symbol_exists : Machine → Bytes → Run Bool
kernel_symbol_exists m symbol = do
  sp ← symbol_search m symbol
  elim sp [ some _ ↦ ok true | none ↦ ok false ]

unfoldable pub symbol_value : Machine → Bytes → Run ℕ
symbol_value m symbol = do
  sp ← symbol_search m symbol
  elim sp [ some s ↦ ok s.value | none ↦ ok 0 ]

abbrev pub reloc_set : ℕ
reloc_set = 0x2000000

-- The address that get_symbol_data reads at.
unfoldable pub relocated : Machine → ℕ → ℕ
relocated m value = if bit_and m.kt.flags reloc_set == 0 then value else sub64 value m.kt.relocate

-- get_symbol_data: what stands in `local` afterwards. The result of readmem is not looked at, and
-- `local` stays as it is when the symbol is not there.
unfoldable pub get_symbol_data : Machine → Bytes → ℕ → Bytes → Run Bytes
unfolding relocated readmem
get_symbol_data m symbol size local = do
  found ← symbol_search m symbol
  elim found [
    | none ↦ ok local
    | some sp ↦ do (r, filled) ← readmem m (relocated m sp.value) kvaddr local size; ok filled
  ]
