-- ===== src/Main/Choice.antt =====
-- Which log main dumps.
use kvm_dmesg.Base.{ℕ, ◌≡◌, ◌&&◌, Option, none, some}
use kvm_dmesg.Base.Bytes.{Bytes}
use kvm_dmesg.Base.Run.{Run, ok}
use kvm_dmesg.Machine.{Machine}
use kvm_dmesg.Main.{Memory, has_log_indices, dump_lockless, dump_records, dump_plain, dump_log}
use kvm_dmesg.Symbols.Init.{is_some, kernel_symbol_exists_lem}
use kvm_dmesg.Symbols.Lookup.{address_of}
use kvm_dmesg.Text.{codes}

has_log_indices_lem :
    (m : Machine) (first next : Option ℕ)
    → address_of m.st.symname_hash (codes "log_first_idx") ≡ ok first
    → address_of m.st.symname_hash (codes "log_next_idx") ≡ ok next
    → has_log_indices m ≡ ok (is_some first && is_some next)
unfolding has_log_indices
has_log_indices_lem m none next p q = rw (kernel_symbol_exists_lem m _ p)
has_log_indices_lem m (some a) next p q =
    rw (kernel_symbol_exists_lem m _ p) (kernel_symbol_exists_lem m _ q)

-- The log that is dumped: the lockless one if the guest has prb, else the records if it has both
-- indices, else the plain buffer.
abbrev pub log_of : Option ℕ → Option ℕ → Option ℕ → Memory → Machine → Run (Bytes × Option Bytes)
log_of (some a) first next = dump_lockless
log_of none (some a) (some b) = dump_records
log_of none _ _ = dump_plain

-- On a guest of which the table can be read at the three names, main dumps the lockless log if it
-- has prb, else the records if it has both log_first_idx and log_next_idx, and else the plain
-- buffer.
pub dump_log_lem :
    (mem : Memory) (m : Machine) (prb first next : Option ℕ)
    → address_of m.st.symname_hash (codes "prb") ≡ ok prb
    → address_of m.st.symname_hash (codes "log_first_idx") ≡ ok first
    → address_of m.st.symname_hash (codes "log_next_idx") ≡ ok next
    → dump_log mem m ≡ log_of prb first next mem m
unfolding dump_log
dump_log_lem mem m (some a) first next p q r = rw (kernel_symbol_exists_lem m _ p)
dump_log_lem mem m none none next p q r =
    rw (kernel_symbol_exists_lem m _ p, has_log_indices_lem m none next q r)
dump_log_lem mem m none (some a) none p q r =
    rw (kernel_symbol_exists_lem m _ p, has_log_indices_lem m (some a) none q r)
dump_log_lem mem m none (some a) (some b) p q r =
    rw (kernel_symbol_exists_lem m _ p, has_log_indices_lem m (some a) (some b) q r)
