-- ===== src/Log.antt =====
-- The logs of older kernels, which main.c dumps: records of a variable length, each with its length
-- in front, and a plain buffer of text.
pub mod Records
pub mod Loop
pub mod Endless
pub mod Plain
pub mod Buffer
pub mod Dump
use Prim.Native.Nat.{bit_and, bit_or}
use kvm_dmesg.Base.{
  ℕ, zero, suc, ◌+◌, ◌-◌, ◌^◌, true, false, [], ◌∷◌, ◌++◌, leb, ◌==◌, if◌then◌else◌,
}
use kvm_dmesg.Base.Bytes.{Bytes, le, load, ushort}
use kvm_dmesg.Base.Run.{Run, ok, diverges, ◌>>=◌}
use kvm_dmesg.Base.Word.{u32}
use kvm_dmesg.Guest.{readmem, kvaddr}
use kvm_dmesg.Machine.{Machine}
use kvm_dmesg.Symbols.{get_symbol_data}
use kvm_dmesg.Text.{codes, put_text}
use kvm_dmesg.Text.Decimal.{stamp}

-- Offsets in struct log of printk.h, and its size.
abbrev pub log_len : ℕ
log_len = 8

abbrev pub log_text_len : ℕ
log_text_len = 10

abbrev pub sizeof_log : ℕ
sizeof_log = 16

-- log_from_idx. Pointers into `logbuf` are offsets.
unfoldable pub log_from_idx : ℕ → Bytes → Run ℕ
log_from_idx idx logbuf = do
  msglen ← ushort logbuf (idx + log_len)
  ok (if msglen == 0 then 0 else idx)

-- log_next
unfoldable pub log_next : ℕ → Bytes → Run ℕ
log_next idx logbuf = do
  msglen ← ushort logbuf (idx + log_len)
  if msglen == 0 then ushort logbuf log_len else ok (u32 (idx + msglen))

-- dump_log_entry: what it prints.
unfoldable pub dump_log_entry : Bytes → ℕ → Run Bytes
dump_log_entry logbuf logptr = do
  text_len ← ushort logbuf (logptr + log_text_len)
  ts_nsec ← load 8 logbuf (logptr + 0)
  text ← put_text text_len logbuf (logptr + sizeof_log)
  ok (stamp ts_nsec ++ (text ++ b'\n' ∷ []))

-- The loop of dump_variable_length_record_log.
unfoldable pub log_loop : Bytes → ℕ → ℕ → ℕ → ℕ → Run Bytes
log_loop logbuf log_buf_len log_next_idx zero idx = diverges
log_loop logbuf log_buf_len log_next_idx (suc fuel) idx = elim (idx == log_next_idx) [
  | true ↦ ok []
  | false ↦ do
    logptr ← log_from_idx idx logbuf
    out ← dump_log_entry logbuf logptr
    idx' ← log_next idx logbuf
    elim (leb log_buf_len idx') [
      | true ↦ ok out
      | false ↦ do rest ← log_loop logbuf log_buf_len log_next_idx fuel idx'; ok (out ++ rest)
    ]
]

-- The buffer has less than this many bytes, and a record takes some of them.
abbrev pub log_fuel : ℕ
log_fuel = 2 ^ 21

-- `(1<<20) | ((1<<20) - 1)`
abbrev pub log_buf_mask : ℕ
log_buf_mask = bit_or (2 ^ 20) (2 ^ 20 - 1)

-- dump_variable_length_record_log, with what malloc returns and what stands in the locals of four
-- and eight bytes before they are written.
unfoldable pub dump_variable_length_record_log : (ℕ → Bytes) → Bytes → Bytes → Machine → Run Bytes
dump_variable_length_record_log malloc local₄ local₈ m = do
  log_first_idx ← get_symbol_data m (codes "log_first_idx") 4 local₄
  log_next_idx ← get_symbol_data m (codes "log_next_idx") 4 local₄
  log_buf_len ← get_symbol_data m (codes "log_buf_len") 4 local₄
  log_buf ← get_symbol_data m (codes "log_buf") 8 local₈
  let len = bit_and (le log_buf_len) log_buf_mask
  (r, logbuf) ← readmem m (le log_buf) kvaddr (malloc len) len
  log_loop logbuf len (le log_next_idx) log_fuel (le log_first_idx)
