-- ===== src/Log/Dump.antt =====
-- dump_variable_length_record_log as a whole, on a guest whose memory is a given image.
use kvm_dmesg.Base.{ℕ, ◌+◌, ◌%◌, ◌^◌, ◌<◌, ◌≡◌, ◌∙◌, List, some, arith, length, drop}
use kvm_dmesg.Base.Bits.{bit_and_low}
use kvm_dmesg.Base.Bytes.{Bytes, le}
use kvm_dmesg.Base.Run.{ok}
use kvm_dmesg.Guest.{paddr_of, kvaddr}
use kvm_dmesg.Guest.Translate.{Image, slice, Serves, readmem-Serves}
use kvm_dmesg.Log.{log_loop, log_fuel, dump_variable_length_record_log}
use kvm_dmesg.Log.Loop.{AllEntries, entries_onto, entries_len, entry_lines, log_loop-entries}
use kvm_dmesg.Log.Records.{LogEntry}
use kvm_dmesg.Machine.{Machine}
use kvm_dmesg.Symbols.{relocated}
use kvm_dmesg.Symbols.Data.{get_symbol_data-slice}
use kvm_dmesg.Symbols.Lookup.{address_of}
use kvm_dmesg.Text.{codes}

-- The kernel's variable of that name has a value, of so many bytes.
abbrev pub Variable : Image → Machine → Bytes → ℕ → ℕ → Type 0
Variable mem m name size value =
    (a : ℕ) × (address_of m.st.symname_hash name ≡ ok (some a))
    × (le (slice mem (paddr_of m (relocated m a) kvaddr) size) ≡ value)

-- The guest has a log of records: where it starts and ends, how long its buffer is, and where that is.
pub record IsLog (mem : Image) (m : Machine) (first next len addr : ℕ) : Type 0 where
  pub serves : Serves mem m
  pub first_at : Variable mem m (codes "log_first_idx") 4 first
  pub next_at : Variable mem m (codes "log_next_idx") 4 next
  pub len_at : Variable mem m (codes "log_buf_len") 4 len
  pub addr_at : Variable mem m (codes "log_buf") 8 addr
  pub small : len < 2 ^ 21

-- What malloc returns has the size that was asked for, and the locals have theirs.
pub record IsAllocated (malloc : ℕ → Bytes) (local₄ local₈ : Bytes) : Type 0 where
  pub malloc_size : (n : ℕ) → length (malloc n) ≡ n
  pub four : length local₄ ≡ 4
  pub eight : length local₈ ≡ 8

-- The buffer as it stands in the guest's memory.
abbrev pub log_in : Image → Machine → ℕ → ℕ → Bytes
log_in mem m addr len = slice mem (paddr_of m addr kvaddr) len

dump_loop :
    (mem : Image) (m : Machine) (malloc : ℕ → Bytes) (local₄ local₈ : Bytes)
    (first next len addr : ℕ)
    → IsLog mem m first next len addr
    → IsAllocated malloc local₄ local₈
    → dump_variable_length_record_log malloc local₄ local₈ m
      ≡ log_loop (log_in mem m addr len) len next log_fuel first
unfolding dump_variable_length_record_log
dump_loop mem m malloc local₄ local₈ first next len addr log a =
    let masked : len % 2 ^ 21 ≡ len = let small = log.small in omega arith in
    rw (
      get_symbol_data-slice mem m (codes "log_first_idx") 4 local₄ _ log.serves a.four
          log.first_at.1,
      get_symbol_data-slice mem m (codes "log_next_idx") 4 local₄ _ log.serves a.four log.next_at.1,
      get_symbol_data-slice mem m (codes "log_buf_len") 4 local₄ _ log.serves a.four log.len_at.1,
      get_symbol_data-slice mem m (codes "log_buf") 8 local₈ _ log.serves a.eight log.addr_at.1,
      log.first_at.2,
      log.next_at.2,
      log.len_at.2,
      log.addr_at.2,
      bit_and_low 21 len,
      masked,
      readmem-Serves mem m addr kvaddr (malloc len) len log.serves (a.malloc_size len),
    )

-- On a guest whose four variables say where the log is, in a buffer of less than 2 MiB, with
-- well-formed records from log_first_idx up to log_next_idx and room behind them,
-- dump_variable_length_record_log ends without a fault and prints the line of each record, in their
-- order.
pub dump_variable_length_record_log-entries :
    (mem : Image) (m : Machine) (malloc : ℕ → Bytes) (local₄ local₈ : Bytes) (first len addr : ℕ)
    (es : List LogEntry) (s : Bytes)
    → IsLog mem m first (first + entries_len es) len addr
    → IsAllocated malloc local₄ local₈
    → AllEntries es
    → drop first (log_in mem m addr len) ≡ entries_onto es s
    → first + entries_len es < len
    → dump_variable_length_record_log malloc local₄ local₈ m ≡ ok (entry_lines es)
dump_variable_length_record_log-entries mem m malloc local₄ local₈ first len addr es s log a all at
      room =
    dump_loop mem m malloc local₄ local₈ first (first + entries_len es) len addr log a
    ∙ log_loop-entries es (log_in mem m addr len) s len first all at room log.small
