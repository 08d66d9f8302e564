-- ===== src/Symbols/Data.antt =====
-- What get_symbol_data reads of a guest whose memory is a given image.
use kvm_dmesg.Base.{ℕ, ◌≡◌, ◌≤◌, ◌++◌, drop, refl, Option, none, some, length}
use kvm_dmesg.Base.Bytes.{Bytes}
use kvm_dmesg.Base.Run.{Run, ok, fault, diverges, ◌>>=◌}
use kvm_dmesg.Guest.{readmem, paddr_of, kvaddr}
use kvm_dmesg.Guest.Translate.{Image, slice, Serves, readmem-Serves, readmem_room}
use kvm_dmesg.Machine.{Machine, Syment}
use kvm_dmesg.Symbols.{symname_hash_search, relocated, get_symbol_data}
use kvm_dmesg.Symbols.Chains.{value_of}
use kvm_dmesg.Symbols.Lookup.{address_of}

-- The bytes at a symbol's address, if the symbol has one.
abbrev pub data_at : Image → Machine → Option ℕ → ℕ → Bytes → Bytes
data_at mem m none size local = local
data_at mem m (some a) size local = slice mem (paddr_of m (relocated m a) kvaddr) size

abbrev read_found : Machine → ℕ → Bytes → Option Syment → Run Bytes
read_found m size local found = elim found [
  | none ↦ ok local
  | some sp ↦ do (r, filled) ← readmem m (relocated m sp.value) kvaddr local size; ok filled
]

module _ (mem : Image) (m : Machine) (size : ℕ) (local : Bytes) (s : Serves mem m)
    (room : length local ≡ size) where
  found_cases :
      (r : Run (Option Syment)) (found : Option ℕ)
      → (r >>= λ sp. ok (value_of sp)) ≡ ok found
      → (r >>= read_found m size local) ≡ ok (data_at mem m found size local)
  found_cases (ok none) none h = refl
  found_cases (ok none) (some a) h = cc
  found_cases (ok (some sp)) none h = cc
  found_cases (ok (some sp)) (some a) h =
      rw (readmem-Serves mem m (relocated m sp.value) kvaddr local size s room) cc
  found_cases fault found h = cc
  found_cases diverges found h = cc

-- With a client that serves the guest's memory and a local of the size that is asked for,
-- get_symbol_data fills the local with the bytes at the symbol's relocated address, and leaves it
-- as it is if the table does not have the symbol.
pub get_symbol_data-slice :
    (mem : Image) (m : Machine) (symbol : Bytes) (size : ℕ) (local : Bytes) (found : Option ℕ)
    → Serves mem m
    → length local ≡ size
    → address_of m.st.symname_hash symbol ≡ ok found
    → get_symbol_data m symbol size local ≡ ok (data_at mem m found size local)
unfolding get_symbol_data address_of
get_symbol_data-slice mem m symbol size local found s room reads =
    found_cases mem m size local s room (symname_hash_search m.st.symname_hash symbol) found reads

module _ (mem : Image) (m : Machine) (size : ℕ) (local : Bytes) (s : Serves mem m)
    (room : size ≤ length local) where
  room_cases :
      (r : Run (Option Syment)) (a : ℕ)
      → (r >>= λ sp. ok (value_of sp)) ≡ ok (some a)
      → (r >>= read_found m size local)
        ≡ ok (slice mem (paddr_of m (relocated m a) kvaddr) size ++ drop size local)
  room_cases (ok none) a h = cc
  room_cases (ok (some sp)) a h =
      rw (readmem_room mem m (relocated m sp.value) kvaddr size local s room) cc
  room_cases fault a h = cc
  room_cases diverges a h = cc

  -- The rest of a local that is longer is kept.
  pub get_symbol_data_room :
      (symbol : Bytes) (a : ℕ)
      → address_of m.st.symname_hash symbol ≡ ok (some a)
      → get_symbol_data m symbol size local
        ≡ ok (slice mem (paddr_of m (relocated m a) kvaddr) size ++ drop size local)
  unfolding get_symbol_data address_of
  get_symbol_data_room symbol a reads =
      room_cases (symname_hash_search m.st.symname_hash symbol) a reads
