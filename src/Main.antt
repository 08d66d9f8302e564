-- ===== src/Main.antt =====
-- main of main.c: its arguments, and what it does once the guest is reached. Its messages and the
-- lines that name its arguments are left out.
pub mod Arguments
pub mod Choice
pub mod Locate
pub mod Whole
pub mod Guests
pub mod Kernel
pub mod Records
pub mod Ring
use kvm_dmesg.Base.{
  ℕ, zero, suc, Bool, true, false, ◌&&◌, ◌||◌, Option, none, some, [], ◌∷◌, ◌==◌, if◌then◌else◌,
}
use kvm_dmesg.Base.Bytes.{Bytes}
use kvm_dmesg.Base.Run.{Run, ok, ◌>>=◌}
use kvm_dmesg.Base.Word.{ℤ, pos, minus_one}
use kvm_dmesg.Kaslr.{Pages, x86_64_init, derive_kaslr_offset, x86_64_post_reloc}
use kvm_dmesg.Log.{dump_variable_length_record_log}
use kvm_dmesg.Log.Plain.{dump_plain_log}
use kvm_dmesg.Machine.{Machine, GuestAccess, guest_name, guest_memory, qmp_socket}
use kvm_dmesg.Printk.Lockless.{dump_lockless_record_log}
use kvm_dmesg.Symbols.{kernel_symbol_exists}
use kvm_dmesg.Symbols.Map.{symtab_init}
use kvm_dmesg.Text.{codes, isprint, isspace}

-- What stat says of a path, and what fopen and fread give of one.
pub data FileType : Type 0 where
  regular socket other : FileType

pub record Files : Type 0 where
  pub stat : Bytes → Option FileType
  pub contents : Bytes → Option Bytes

abbrev pub text_byte : ℕ → Bool
text_byte byte = isprint byte || (isspace byte || byte == 0)

-- The loop of is_text_file, with the rounds that are left.
unfoldable pub text_within : ℕ → Bytes → Bool
text_within zero file = true
text_within (suc left) [] = true
text_within (suc left) (byte ∷ file) = text_byte byte && text_within left file

unfoldable pub is_text_file : Option Bytes → ℤ
unfolding text_within
is_text_file none = minus_one
is_text_file (some file) = if text_within 1024 file then pos 1 else pos 0

abbrev pub is_one : ℤ → Bool
is_one (pos (suc zero)) = true
is_one _ = false

abbrev is_regular : Option FileType → Bool
is_regular (some regular) = true
is_regular _ = false

-- The test that main makes of each argument.
unfoldable pub is_symmap : Files → Bytes → Bool
is_symmap files path = is_regular (files.stat path) && is_one (is_text_file (files.contents path))

-- symmap_file and guest_ac, by argv[1] and argv[2].
unfoldable pub choose_files : Files → Bytes → Bytes → Option (Bytes × Bytes)
choose_files files argv₁ argv₂ =
    if is_symmap files argv₁
    then some (argv₁, argv₂)
    else if is_symmap files argv₂
    then some (argv₂, argv₁)
    else none

-- ac_type
unfoldable pub access_type : Option FileType → Option GuestAccess
access_type (some regular) = some guest_memory
access_type (some socket) = some qmp_socket
access_type (some other) = none
access_type none = some guest_name

-- What malloc returns, and what stands in locals before they are written.
pub record Memory : Type 0 where
  pub malloc : ℕ → Bytes
  pub pages : Pages
  pub gate : Bytes
  pub local₄ : Bytes
  pub local₈ : Bytes
  pub size_local : Bytes
  pub data_local : Bytes
  pub cr4 : ℕ

-- `kernel_symbol_exists("log_first_idx") && kernel_symbol_exists("log_next_idx")`
unfoldable pub has_log_indices : Machine → Run Bool
has_log_indices m = do
  first ← kernel_symbol_exists m (codes "log_first_idx")
  elim first [ true ↦ kernel_symbol_exists m (codes "log_next_idx") | false ↦ ok false ]

abbrev pub dump_lockless : Memory → Machine → Run (Bytes × Option Bytes)
dump_lockless mem m = do
  (m', out) ← dump_lockless_record_log mem.local₈ mem.size_local mem.data_local m
  ok (out, none)

abbrev pub dump_records : Memory → Machine → Run (Bytes × Option Bytes)
dump_records mem m = do
  out ← dump_variable_length_record_log mem.malloc mem.local₄ mem.local₈ m
  ok (out, none)

abbrev pub dump_plain : Memory → Machine → Run (Bytes × Option Bytes)
dump_plain mem m = do (out, data_file) ← dump_plain_log mem.malloc m; ok (out, some data_file)

-- The choice between the logs.
abbrev pub dump_by_indices : Bool → Memory → Machine → Run (Bytes × Option Bytes)
dump_by_indices true mem m = dump_records mem m
dump_by_indices false mem m = dump_plain mem m

abbrev pub dump_by_prb : Bool → Memory → Machine → Run (Bytes × Option Bytes)
dump_by_prb true mem m = dump_lockless mem m
dump_by_prb false mem m = do indices ← has_log_indices m; dump_by_indices indices mem m

-- From the tests of the symbols on: what is printed, and what is written to dmesg.data if anything is.
unfoldable pub dump_log : Memory → Machine → Run (Bytes × Option Bytes)
dump_log mem m = do prb ← kernel_symbol_exists m (codes "prb"); dump_by_prb prb mem m

-- symtab_init, x86_64_init and derive_kaslr_offset.
unfoldable pub locate : Memory → Option Bytes → Machine → Run Machine
locate mem file m₀ = do
  m ← symtab_init file m₀
  derive_kaslr_offset mem.gate mem.cr4 (x86_64_init mem.pages m)

-- main from symtab_init on.
unfoldable pub dump_guest : Memory → Option Bytes → Machine → Run (Bytes × Option Bytes)
dump_guest mem file m₀ = do m₁ ← locate mem file m₀; m₂ ← x86_64_post_reloc m₁; dump_log mem m₂
