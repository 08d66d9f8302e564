-- ===== src/Main/Ring.antt =====
-- main as a whole, on a guest with the lockless log: from its arguments to the lines that it prints.
use kvm_dmesg.Base.{
  ℕ, ◌+◌, ◌*◌, ◌^◌, ◌<◌, ◌≡◌, ◌∙◌, refl, ap, List, some, none, [], ◌∷◌, ◌++◌, length, true, ◌==◌,
  eq→==,
}
use kvm_dmesg.Base.Bytes.{Bytes}
use kvm_dmesg.Base.Run.{ok}
use kvm_dmesg.Base.Word.{pos}
use kvm_dmesg.Client.Life.{World}
use kvm_dmesg.Client.Life.Round.{fresh, Reaches}
use kvm_dmesg.Guest.Translate.{Image, slice}
use kvm_dmesg.Machine.{Machine, Registers, GuestAccess, GuestClient, SizeTable, OffsetTable}
use kvm_dmesg.Main.{Files, Memory, choose_files, access_type, dump_guest}
use kvm_dmesg.Main.Choice.{dump_log_lem}
use kvm_dmesg.Main.Guests.{IsLocatable}
use kvm_dmesg.Main.Kernel.{
  Kernel, place, symbol_in, kernel_in, IsAt, places, ValueIn, ValueIn-Variable, data_at_place,
  dump_guest-IsAt,
}
use kvm_dmesg.Main.Locate.{IsStarted}
use kvm_dmesg.Main.Whole.{with_debug, hold_map, run_main, run_main_lem}
use kvm_dmesg.Printk.Layout.{PrbDesc, PrintkInfo}
use kvm_dmesg.Printk.Lockless.{copy_in, dump_prb, dump_lockless_record_log}
use kvm_dmesg.Printk.Lockless.Copies.{IsPrb, copied_map, copy_in-slice, dump_prb-ring_lines}
use kvm_dmesg.Printk.Record.{PrbMap}
use kvm_dmesg.Printk.Ring.Lines.{IsRing, ring_lines}
use kvm_dmesg.Printk.Ring.Order.{ring_ids, ring_distance}
use kvm_dmesg.Printk.Vmcoreinfo.{vmcoreinfo_init}
use kvm_dmesg.Printk.Vmcoreinfo.Tables.{Describes, vmcoreinfo_init-Describes}
use kvm_dmesg.Symbols.{relocated}
use kvm_dmesg.Text.{codes}

-- The control block's values: the two sizes as powers of 2, where the three arrays are, and the IDs.
pub record Ring : Type 0 where
  pub count_bits : ℕ
  pub size_bits : ℕ
  pub descs : ℕ
  pub infos : ℕ
  pub text : ℕ
  pub tail : ℕ
  pub head : ℕ

abbrev pub with_tables : Machine → SizeTable → OffsetTable → Machine
with_tables m sizes offsets = record m { size_table = sizes; offset_table = offsets }

-- The ring buffer as it stands in the guest's memory, with its control block at an address.
abbrev pub ring_in : Image → Kernel → SizeTable → OffsetTable → ℕ → Ring → PrbMap
ring_in image k s o addr ring = record {
  prb = slice image (place k addr) s.printk_ringbuffer;
  desc_ring = o.prb_desc_ring;
  desc_ring_count = 2 ^ ring.count_bits;
  descs = slice image (place k ring.descs) (s.prb_desc * 2 ^ ring.count_bits);
  infos = slice image (place k ring.infos) (s.printk_info * 2 ^ ring.count_bits);
  text_data_ring = o.prb_text_data_ring;
  text_data_ring_size = 2 ^ ring.size_bits;
  text_data = slice image (place k ring.text) (2 ^ ring.size_bits);
}

-- The lines of the records from tail_id to head_id.
abbrev pub lines_in :
    Image → Kernel → SizeTable → OffsetTable → ℕ → Ring → List PrbDesc → List PrintkInfo → Bytes
lines_in image k s o addr ring ds is =
    ring_lines (ring_in image k s o addr ring) ds is
      (ring_ids (ring_distance ring.tail ring.head + 1) ring.tail)

-- The kernel has a lockless log: vmcoreinfo has all sizes and offsets, and by them the control block
-- and the arrays are laid out as printk.h says.
pub record HasRing (image : Image) (file : Bytes) (k : Kernel) (m : Machine) (s : SizeTable)
    (o : OffsetTable) (addr : ℕ) (ring : Ring) (ds : List PrbDesc) (is : List PrintkInfo)
    : Type 0 where
  pub info_size : ℕ
  pub info_addr : ℕ
  pub size_there : ValueIn image file k (codes "vmcoreinfo_size") 8 info_size
  pub data_there : ValueIn image file k (codes "vmcoreinfo_data") 8 info_addr
  pub small : info_size < 2 ^ 13
  pub described : Describes (slice image (place k info_addr) info_size ++ b'\n' ∷ []) s o
  pub prb_there : ValueIn image file k (codes "prb") 8 addr
  pub prb_small : s.printk_ringbuffer < 2 ^ 32
  pub block :
      IsPrb
        (with_tables m s o)
        (slice image (place k addr) s.printk_ringbuffer)
        ring.count_bits
        ring.size_bits
        ring.descs
        ring.infos
        ring.text
        ring.tail
        ring.head
  pub arrays : IsRing ds is (ring_in image k s o addr ring)
  pub tail_fits : ring.tail < 2 ^ 62
  pub head_fits : ring.head < 2 ^ 62

module _ (image : Image) (file : Bytes) (k : Kernel) (m r : Machine) (at : IsAt image file k m r)
    (s : SizeTable) (o : OffsetTable) where
  -- The state behind vmcoreinfo_init.
  tables-IsAt : IsAt image file k (with_tables m s o) (with_tables r s o)
  unfolding relocated
  tables-IsAt = record {
    serves = record {
      client = at.serves.client;
      chosen = at.serves.chosen;
      reads = at.serves.reads;
    };
    reads = at.reads;
    phys_base = at.phys_base;
    page_offset = at.page_offset;
    sizes = refl;
    debug = at.debug;
    moved = at.moved;
  }

  info_step :
      (size_local data_local : Bytes) (addr : ℕ) (ring : Ring) (ds : List PrbDesc)
      (is : List PrintkInfo)
      → HasRing image file k m s o addr ring ds is
      → length size_local ≡ 8
      → length data_local ≡ 8
      → m.debug ≡ 1
      → vmcoreinfo_init size_local data_local r ≡ ok (with_tables r s o, [])
  info_step size_local data_local addr ring ds is has room data_room debug =
      vmcoreinfo_init-Describes image r size_local data_local has.info_size has.info_addr s o
        at.serves room data_room (at.debug ∙ debug)
        (ValueIn-Variable image file k m r at _ _ 8 has.info_size refl has.size_there)
        (ValueIn-Variable image file k m r at _ _ 8 has.info_addr refl has.data_there) has.small
        (rw (places image file k m r at has.info_addr) has.described)

  prb_step :
      (addr : ℕ) (ring : Ring) (ds : List PrbDesc) (is : List PrintkInfo)
      → HasRing image file k m s o addr ring ds is
      → copy_in (with_tables r s o) addr s.printk_ringbuffer (dump_prb (with_tables r s o))
        ≡ ok (lines_in image k s o addr ring ds is)
  prb_step addr ring ds is has =
      let at' = tables-IsAt in
      let b = has.block in
      let p = places image file k (with_tables m s o) (with_tables r s o) at' in
      let map : copied_map image (with_tables r s o)
            (slice image (place k addr) s.printk_ringbuffer) ring.count_bits ring.size_bits
            ring.descs ring.infos ring.text
          ≡ ring_in image k s o addr ring =
        rw (p ring.descs, p ring.infos, p ring.text) in
      copy_in-slice image (with_tables r s o) addr s.printk_ringbuffer _ at'.serves has.prb_small
      ∙ rw (p addr) (
          dump_prb-ring_lines image (with_tables r s o)
            (slice image (place k addr) s.printk_ringbuffer) ring.count_bits ring.size_bits
            ring.descs ring.infos ring.text ring.tail ring.head ds is at'.serves
            (record {
              count_bits_at = b.count_bits_at;
              descs_at = b.descs_at;
              infos_at = b.infos_at;
              size_bits_at = b.size_bits_at;
              text_at = b.text_at;
              tail_at = b.tail_at;
              head_at = b.head_at;
              count_fits = b.count_fits;
              size_fits = b.size_fits;
              descs_small = b.descs_small;
              infos_small = b.infos_small;
            })
            (rw map has.arrays) has.tail_fits has.head_fits
          ∙ ap
              (λ (n : PrbMap).
                ok
                  (ring_lines n ds is (ring_ids (ring_distance ring.tail ring.head + 1) ring.tail)))
              map)

  lockless_step :
      (local size_local data_local : Bytes) (addr : ℕ) (ring : Ring) (ds : List PrbDesc)
      (is : List PrintkInfo)
      → HasRing image file k m s o addr ring ds is
      → length local ≡ 8
      → length size_local ≡ 8
      → length data_local ≡ 8
      → m.debug ≡ 1
      → m.size_table.printk_info ≡ 0
      → dump_lockless_record_log local size_local data_local r
        ≡ ok (with_tables r s o, lines_in image k s o addr ring ds is)
  unfolding dump_lockless_record_log
  lockless_step local size_local data_local addr ring ds is has room size_room data_room debug
        blank =
      let (a, e, v) = has.prb_there in
      let unset : (r.size_table.printk_info == 0) ≡ true =
        eq→== _ 0 (ap (λ (t : SizeTable). t.printk_info) at.sizes ∙ blank) in
      rw (
        unset,
        info_step size_local data_local addr ring ds is has size_room data_room debug,
        data_at_place image file k (with_tables m s o) (with_tables r s o) tables-IsAt _ _ 8 local a
            refl room e,
        v,
        prb_step addr ring ds is has,
      )

-- What the guest and its lockless log are, for main.
pub record IsRingGuest (image : Image) (mem : Memory) (regs : Registers) (file : Bytes)
    (m : Machine) (s : SizeTable) (o : OffsetTable) (addr : ℕ) (ring : Ring) (ds : List PrbDesc)
    (is : List PrintkInfo) : Type 0 where
  pub locatable : IsLocatable image mem regs file
  pub cr3_fits : regs.cr3 < 2 ^ 64
  pub has_ring : HasRing image file (kernel_in image regs file) m s o addr ring ds is
  pub local : length mem.local₈ ≡ 8
  pub size_local : length mem.size_local ≡ 8
  pub data_local : length mem.data_local ≡ 8
  pub blank : m.size_table.printk_info ≡ 0

dump_guest-ring_lines :
    (image : Image) (mem : Memory) (regs : Registers) (m : Machine) (file : Bytes) (s : SizeTable)
    (o : OffsetTable) (addr : ℕ) (ring : Ring) (ds : List PrbDesc) (is : List PrintkInfo)
    → IsStarted image mem.cr4 regs m
    → IsRingGuest image mem regs file m s o addr ring ds is
    → m.debug ≡ 1
    → dump_guest mem (some file) m
      ≡ ok (lines_in image (kernel_in image regs file) s o addr ring ds is, none)
dump_guest-ring_lines image mem regs m file s o addr ring ds is start g debug =
    let k = kernel_in image regs file in
    let (r, run, at) = dump_guest-IsAt image mem regs m file start g.locatable g.cr3_fits in
    let (a, e, v) = g.has_ring.prb_there in
    run
    ∙ dump_log_lem mem r (some a) (symbol_in file (codes "log_first_idx"))
        (symbol_in file (codes "log_next_idx")) (at.reads _ _ refl ∙ ap ok e) (at.reads _ _ refl)
        (at.reads _ _ refl)
    ∙ rw (
        lockless_step image file k m r at s o mem.local₈ mem.size_local mem.data_local addr ring ds
          is g.has_ring g.local g.size_local g.data_local debug g.blank)

-- If the arguments name a System.map and a guest that can be reached, the state is as global_data.c
-- starts it, the client serves the guest's memory, which holds bytes, and reports a CR3 of 64 bits,
-- malloc's blocks and the locals have their sizes, there is a table at every level of the IDT's
-- address and idt_table is relocated into the kernel's map, the size of printk_info starts as 0,
-- and by System.map, the registers and memory the kernel has a vmcoreinfo with all keys and, laid
-- out as it and printk.h say, a ring buffer of at most 2^30 slots and bytes of text, with copies of
-- less than 4 GiB and both IDs below 2^62, then main prints the lines of the records from tail_id
-- to head_id in the order of the ring, returns 0, and gives back every handle but the file of
-- System.map, which stays open.
pub run_main-ring_lines :
    (w : World) (mem : Memory) (files : Files) (m₀ : Machine)
    (argv₁ argv₂ symmap_file guest_ac file : Bytes) (ac_type : GuestAccess) (c : GuestClient)
    (image : Image) (regs : Registers) (s : SizeTable) (o : OffsetTable) (addr : ℕ) (ring : Ring)
    (ds : List PrbDesc) (is : List PrintkInfo)
    → choose_files files argv₁ argv₂ ≡ some (symmap_file, guest_ac)
    → access_type (files.stat guest_ac) ≡ some ac_type
    → files.contents symmap_file ≡ some file
    → Reaches w guest_ac ac_type c
    → IsStarted image mem.cr4 regs (record (with_debug m₀) { client = some c })
    → IsRingGuest image mem regs file
        (record (with_debug m₀) { client = some c })
        s
        o
        addr
        ring
        ds
        is
    → run_main w mem files m₀ (argv₁ ∷ argv₂ ∷ [])
      ≡ ok (record {
        status = pos 0;
        dumped = some (lines_in image (kernel_in image regs file) s o addr ring ds is, none);
        handles = hold_map (some file) fresh;
      })
run_main-ring_lines w mem files m₀ argv₁ argv₂ symmap_file guest_ac file ac_type c image regs s o
      addr ring ds is chosen ty there reached start g =
    run_main_lem w mem files m₀ argv₁ argv₂ symmap_file guest_ac ac_type c chosen ty reached
    ∙ rw (
      there,
      dump_guest-ring_lines image mem regs (record (with_debug m₀) { client = some c }) file s o
          addr ring ds is start g,
    )
