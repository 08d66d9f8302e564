-- ===== src/Main/Records.antt =====
-- main as a whole, on a guest with a log of records: from its arguments to the lines that it prints.
use kvm_dmesg.Base.{refl, ℕ, ◌+◌, ◌^◌, ◌<◌, ◌≡◌, ◌∙◌, ap, List, some, none, [], ◌∷◌, drop}
use kvm_dmesg.Base.Bytes.{Bytes}
use kvm_dmesg.Base.Run.{ok}
use kvm_dmesg.Base.Word.{pos}
use kvm_dmesg.Client.Life.{World}
use kvm_dmesg.Client.Life.Round.{fresh, Reaches}
use kvm_dmesg.Guest.Translate.{Image, slice}
use kvm_dmesg.Log.Dump.{IsLog, IsAllocated, dump_variable_length_record_log-entries}
use kvm_dmesg.Log.Loop.{AllEntries, entries_onto, entries_len, entry_lines}
use kvm_dmesg.Log.Records.{LogEntry}
use kvm_dmesg.Machine.{Machine, Registers, GuestAccess, GuestClient}
use kvm_dmesg.Main.{Files, Memory, choose_files, access_type, dump_guest, dump_log}
use kvm_dmesg.Main.Choice.{dump_log_lem}
use kvm_dmesg.Main.Guests.{IsLocatable}
use kvm_dmesg.Main.Kernel.{
  Kernel, place, symbol_in, kernel_in, IsAt, places, ValueIn, ValueIn-Variable, dump_guest-IsAt,
}
use kvm_dmesg.Main.Locate.{IsStarted}
use kvm_dmesg.Main.Whole.{with_debug, hold_map, run_main, run_main_lem}
use kvm_dmesg.Text.{codes}

-- The kernel has a log of records, and no lockless one: where the log starts and ends, how long its
-- buffer is, and where that is.
pub record HasRecords (image : Image) (file : Bytes) (k : Kernel) (first next len addr : ℕ)
    : Type 0 where
  pub no_prb : symbol_in file (codes "prb") ≡ none
  pub first_there : ValueIn image file k (codes "log_first_idx") 4 first
  pub next_there : ValueIn image file k (codes "log_next_idx") 4 next
  pub len_there : ValueIn image file k (codes "log_buf_len") 4 len
  pub addr_there : ValueIn image file k (codes "log_buf") 8 addr
  pub small : len < 2 ^ 21

module _ (image : Image) (file : Bytes) (k : Kernel) (m r : Machine)
    (at : IsAt image file k m r) where
  records-IsLog :
      (first next len addr : ℕ)
      → HasRecords image file k first next len addr
      → IsLog image r first next len addr
  records-IsLog first next len addr log = record {
    serves = at.serves;
    first_at = ValueIn-Variable image file k m r at _ _ 4 first refl log.first_there;
    next_at = ValueIn-Variable image file k m r at _ _ 4 next refl log.next_there;
    len_at = ValueIn-Variable image file k m r at _ _ 4 len refl log.len_there;
    addr_at = ValueIn-Variable image file k m r at _ _ 8 addr refl log.addr_there;
    small = log.small;
  }

  dump_records_step :
      (mem : Memory) (first len addr : ℕ) (es : List LogEntry) (s : Bytes)
      → HasRecords image file k first (first + entries_len es) len addr
      → IsAllocated mem.malloc mem.local₄ mem.local₈
      → AllEntries es
      → drop first (slice image (place k addr) len) ≡ entries_onto es s
      → first + entries_len es < len
      → dump_log mem r ≡ ok (entry_lines es, none)
  dump_records_step mem first len addr es s log a all stands room =
      let (f, first_in, v) = log.first_there in
      let (n, next_in, w) = log.next_there in
      let lines =
        dump_variable_length_record_log-entries image r mem.malloc mem.local₄ mem.local₈ first len
          addr es s (records-IsLog first (first + entries_len es) len addr log) a all
          (ap (λ (p : ℕ). drop first (slice image p len)) (places image file k m r at addr)
            ∙ stands)
          room in
      dump_log_lem mem r none (some f) (some n) (at.reads _ _ refl ∙ ap ok log.no_prb)
        (at.reads _ _ refl ∙ ap ok first_in) (at.reads _ _ refl ∙ ap ok next_in)
      ∙ rw lines

-- What the guest and its log of records are, for main.
pub record IsRecordGuest (image : Image) (mem : Memory) (regs : Registers) (file : Bytes)
    (first len addr : ℕ) (es : List LogEntry) : Type 0 where
  pub locatable : IsLocatable image mem regs file
  pub cr3_fits : regs.cr3 < 2 ^ 64
  pub log :
      HasRecords image file (kernel_in image regs file) first (first + entries_len es) len addr
  pub allocated : IsAllocated mem.malloc mem.local₄ mem.local₈
  pub formed : AllEntries es
  pub behind : Bytes
  pub stands :
      drop first (slice image (place (kernel_in image regs file) addr) len) ≡ entries_onto es behind
  pub room : first + entries_len es < len

dump_guest-entries :
    (image : Image) (mem : Memory) (regs : Registers) (m : Machine) (file : Bytes)
    (first len addr : ℕ) (es : List LogEntry)
    → IsStarted image mem.cr4 regs m
    → IsRecordGuest image mem regs file first len addr es
    → dump_guest mem (some file) m ≡ ok (entry_lines es, none)
dump_guest-entries image mem regs m file first len addr es start g =
    let (r, run, at) = dump_guest-IsAt image mem regs m file start g.locatable g.cr3_fits in
    run
    ∙ dump_records_step image file (kernel_in image regs file) m r at mem first len addr es g.behind
        g.log g.allocated g.formed g.stands g.room

-- If the arguments name a System.map and a guest that can be reached, the state is as global_data.c
-- starts it, the client serves the guest's memory, which holds bytes, and reports a CR3 of 64 bits,
-- malloc's blocks and the locals have their sizes, there is a table at every level of the IDT's
-- address and idt_table is relocated into the kernel's map, and by System.map, the registers and
-- memory the kernel has well-formed records in a buffer of less than 2 MiB from log_first_idx up to
-- log_next_idx, with room behind them, and no lockless log, then main prints the line of each
-- record, in their order, returns 0, and gives back every handle but the file of System.map, which
-- stays open.
pub run_main-entries :
    (w : World) (mem : Memory) (files : Files) (m₀ : Machine)
    (argv₁ argv₂ symmap_file guest_ac file : Bytes) (ac_type : GuestAccess) (c : GuestClient)
    (image : Image) (regs : Registers) (first len addr : ℕ) (es : List LogEntry)
    → choose_files files argv₁ argv₂ ≡ some (symmap_file, guest_ac)
    → access_type (files.stat guest_ac) ≡ some ac_type
    → files.contents symmap_file ≡ some file
    → Reaches w guest_ac ac_type c
    → IsStarted image mem.cr4 regs (record (with_debug m₀) { client = some c })
    → IsRecordGuest image mem regs file first len addr es
    → run_main w mem files m₀ (argv₁ ∷ argv₂ ∷ [])
      ≡ ok (record {
        status = pos 0;
        dumped = some (entry_lines es, none);
        handles = hold_map (some file) fresh;
      })
run_main-entries w mem files m₀ argv₁ argv₂ symmap_file guest_ac file ac_type c image regs first len
      addr es chosen ty there reached start g =
    run_main_lem w mem files m₀ argv₁ argv₂ symmap_file guest_ac ac_type c chosen ty reached
    ∙ rw (
      there,
      dump_guest-entries image mem regs (record (with_debug m₀) { client = some c }) file first len
          addr es start g,
    )
