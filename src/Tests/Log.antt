-- ===== src/Tests/Log.antt =====
-- A buffer with two records, one with a wrap, and a plain one.
use kvm_dmesg.Base.{ℕ, ◌^◌, ◌<◌, ◌≡◌, refl, [], ◌∷◌, ◌++◌, List, arith, replicate, length-replicate}
use mathlib.Core.Bool.{xor}
use kvm_dmesg.Base.Bytes.{Bytes, byte_at, encode, load, le, ushort}
use kvm_dmesg.Base.Run.{ok, diverges}
use kvm_dmesg.Guest.{paddr_of, kvaddr}
use kvm_dmesg.Guest.Translate.{Image, slice, Serves}
use kvm_dmesg.Log.{log_len, dump_log_entry, log_loop, log_fuel, dump_variable_length_record_log}
use kvm_dmesg.Log.Dump.{Variable, IsLog, IsAllocated, dump_variable_length_record_log-entries}
use kvm_dmesg.Log.Endless.{log_loop_diverges}
use kvm_dmesg.Log.Loop.{entry_lines, entries_onto}
use kvm_dmesg.Log.Buffer.{dump_plain_log-lines_of}
use kvm_dmesg.Log.Plain.{dump_plain_log, texts_onto, lines_of, ascii_only}
use kvm_dmesg.Log.Records.{LogEntry, IsLogEntry, log_bytes}
use kvm_dmesg.Machine.{Machine, Syment, Chain}
use kvm_dmesg.Symbols.{
  relocated, symname_hash_index, index_of, chain_at, chain_search, symname_hash_search, streq,
  set_chain,
}
use kvm_dmesg.Symbols.Load.{empty_table}
use kvm_dmesg.Symbols.Lookup.{address_of}
use kvm_dmesg.Tests.Guests.{memory, started, no_registers, client}
use kvm_dmesg.Text.{codes, put_char, put_text}
use kvm_dmesg.Text.Decimal.{dec, dec_digits, pad, micros, stamp}

abbrev entry : ℕ → Bytes → LogEntry
entry ts text = record {
  ts_nsec = ts;
  dict_len = 0;
  facility = 0;
  flags_level = 0;
  text = text;
  rest = 0 ∷ 0 ∷ [];
}

abbrev pub first_entry : LogEntry
first_entry = entry 1_000_000_000 (codes "ab")

abbrev pub second_entry : LogEntry
second_entry = entry 2_000_000_000 (codes "cd")

pub entry-IsLogEntry : (ts : ℕ) → ts < 2 ^ 64 → IsLogEntry (entry ts (codes "ab"))
entry-IsLogEntry ts h = record { ts_nsec_fits = h; len_fits = omega arith }

pub second-IsLogEntry : IsLogEntry second_entry
second-IsLogEntry = record { ts_nsec_fits = omega arith; len_fits = omega arith }

-- The four variables, and the buffer at 20.
abbrev with_variables : ℕ → ℕ → ℕ → Bytes → Bytes
with_variables first next len buf =
    encode 4 first ++ (encode 4 next ++ (encode 4 len ++ (encode 8 20 ++ buf)))

abbrev entry_bytes : LogEntry → Bytes
entry_bytes e = log_bytes e ++ (e.text ++ e.rest)

-- Both records from the front on, and sixteen zeros.
abbrev pub straight : Bytes
straight = entry_bytes first_entry ++ (entry_bytes second_entry ++ replicate 16 0)

-- The older record stands behind the newer one and a gap of four bytes.
abbrev wrapped : Bytes
wrapped = entry_bytes second_entry ++ (replicate 4 0 ++ (entry_bytes first_entry ++ replicate 16 0))

unfoldable straight_memory : Image
unfolding log_bytes encode
straight_memory = memory (with_variables 0 40 56 straight)

unfoldable wrapped_memory : Image
unfolding log_bytes encode
wrapped_memory = memory (with_variables 24 20 60 wrapped)

abbrev symbol : Bytes → ℕ → Syment
symbol name value = record { value = value; name = name; cnt = 1 }

-- A table with the four symbols, in their chains.
unfoldable pub table : List Chain
unfolding set_chain
table =
    set_chain
      (set_chain
        (set_chain (set_chain empty_table 284 (symbol (codes "log_first_idx") 0 ∷ [])) 44
          (symbol (codes "log_next_idx") 4 ∷ []))
        42 (symbol (codes "log_buf_len") 8 ∷ []))
      438 (symbol (codes "log_buf") 12 ∷ [])

abbrev guest : Image → Machine
guest mem =
    let m = started mem no_registers 0 0 in record m { st = record m.st { symname_hash = table } }

guest-Serves : (mem : Image) → Serves mem (guest mem)
guest-Serves mem = record { client = client mem no_registers; chosen = refl; reads = λ a buf. refl }

lookup : Unit {0}
unfolding le encode log_bytes relocated paddr_of address_of symname_hash_search symname_hash_index
    index_of xor chain_at chain_search streq byte_at table set_chain straight_memory wrapped_memory
    load
lookup = tt

straight-IsLog : IsLog straight_memory (guest straight_memory) 0 40 56 20
unfolding lookup
straight-IsLog = record {
  serves = guest-Serves straight_memory;
  first_at = (0, refl, refl);
  next_at = (4, refl, refl);
  len_at = (8, refl, refl);
  addr_at = (12, refl, refl);
  small = omega arith;
}

pub zeros-IsAllocated : IsAllocated (λ n. replicate n 0) (replicate 4 0) (replicate 8 0)
zeros-IsAllocated = record {
  malloc_size = λ n. length-replicate {A = ℕ} n 0;
  four = refl;
  eight = refl;
}

straight_stands :
    slice straight_memory (paddr_of (guest straight_memory) 20 kvaddr) 56
    ≡ entries_onto (first_entry ∷ second_entry ∷ []) (replicate 16 0)
unfolding lookup
straight_stands = refl

dump_variable_length_record_log-entries_example :
    dump_variable_length_record_log
      (λ n. replicate n 0)
      (replicate 4 0)
      (replicate 8 0)
      (guest straight_memory)
    ≡ ok (entry_lines (first_entry ∷ second_entry ∷ []))
dump_variable_length_record_log-entries_example =
    dump_variable_length_record_log-entries straight_memory (guest straight_memory)
      (λ n. replicate n 0) (replicate 4 0) (replicate 8 0) 0 56 20 (first_entry ∷ second_entry ∷ [])
      (replicate 16 0) straight-IsLog zeros-IsAllocated
      (entry-IsLogEntry 1_000_000_000 (omega arith), (second-IsLogEntry, tt)) straight_stands
      (omega arith)

lines_run :
    entry_lines (first_entry ∷ second_entry ∷ [])
    ≡ codes "[    1.000000] ab" ++ (b'\n' ∷ codes "[    2.000000] cd" ++ b'\n' ∷ [])
unfolding stamp micros pad dec dec_digits put_char
lines_run = refl

-- A buffer of zeros.
zero_entry : dump_log_entry (replicate 32 0) 0 ≡ ok (codes "[    0.000000] " ++ b'\n' ∷ [])
unfolding dump_log_entry load le put_text stamp micros pad dec dec_digits
zero_entry = refl

zeros_long : ushort (replicate 32 0) log_len ≡ ok 0
unfolding load le
zeros_long = refl

log_loop_diverges_example : log_loop (replicate 32 0) 32 16 log_fuel 0 ≡ diverges
log_loop_diverges_example =
    log_loop_diverges (replicate 32 0) (codes "[    0.000000] " ++ b'\n' ∷ []) 32 16 log_fuel
      zeros_long zero_entry (omega arith) (omega arith)

-- A plain buffer of nine bytes: two texts with an empty one between them, and the front of a third.
abbrev texts : List Bytes
texts = codes "one" ∷ [] ∷ codes "t" ∷ []

unfoldable plain_memory : Image
unfolding encode
plain_memory = memory (with_variables 0 0 9 (texts_onto texts (codes "th")))

plain_stands :
    slice plain_memory (paddr_of (guest plain_memory) 20 kvaddr) 9 ≡ texts_onto texts (codes "th")
unfolding lookup plain_memory
plain_stands = refl

length_at : Variable plain_memory (guest plain_memory) (codes "log_buf_len") 4 9
unfolding lookup plain_memory
length_at = (8, refl, refl)

buffer_at : Variable plain_memory (guest plain_memory) (codes "log_buf") 8 20
unfolding lookup plain_memory
buffer_at = (12, refl, refl)

dump_plain_log-lines_of_example :
    dump_plain_log (λ n. replicate n 0) (guest plain_memory)
    ≡ ok (
      lines_of texts ++ (ascii_only (codes "th") ++ b'\n' ∷ []),
      slice plain_memory (paddr_of (guest plain_memory) 20 kvaddr) 9,
    )
dump_plain_log-lines_of_example =
    dump_plain_log-lines_of plain_memory (guest plain_memory) (λ n. replicate n 0) 9 20 texts
      (codes "th") (guest-Serves plain_memory) (λ n. length-replicate {A = ℕ} n 0) buffer_at
      length_at (omega arith) plain_stands
      ((λ e. cc, (λ e. cc, (λ e. cc, tt))), (tt, ((λ e. cc, tt), tt))) (λ e. cc, (λ e. cc, tt))
