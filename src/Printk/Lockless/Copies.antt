-- ===== src/Printk/Lockless/Copies.antt =====
-- The copies that dump_lockless_record_log makes, when the client reads the guest's memory.
use native.Mathlib.Nat.{pow-le-pow_right}
use kvm_dmesg.Base.{
  ℕ, ◌+◌, ◌*◌, ◌^◌, ◌≤◌, ◌<◌, ◌≡◌, ◌∙◌, List, arith, length, length-replicate, le→leb,
}
use kvm_dmesg.Base.Bytes.{Bytes, uint, ulong}
use kvm_dmesg.Base.Run.{Run, ok, fault}
use kvm_dmesg.Base.Word.{u64, u32}
use kvm_dmesg.Guest.{kvaddr, paddr_of}
use kvm_dmesg.Guest.Translate.{Image, slice, Serves, readmem-Serves, readmem_overflows}
use kvm_dmesg.Machine.{Machine}
use kvm_dmesg.Paging.Walk.{IsImage}
use kvm_dmesg.Printk.Layout.{PrbDesc, PrintkInfo}
use kvm_dmesg.Printk.Lockless.{shl_int, copy_in, dump_copied, dump_prb}
use kvm_dmesg.Printk.Record.{PrbMap}
use kvm_dmesg.Printk.Ring.Lines.{IsRing, ring_lines, dump_ring-ring_lines}
use kvm_dmesg.Printk.Ring.Order.{ring_ids, ring_distance}
use kvm_dmesg.Xutil.{xmalloc}

length-xmalloc : (size : ℕ) → size < 2 ^ 32 → length (xmalloc size) ≡ size
length-xmalloc size h = length-replicate (u32 size) 0 ∙ omega arith

pub copy_in-slice :
    (mem : Image) (m : Machine) (kaddr size : ℕ) (use_copy : Bytes → Run Bytes)
    → Serves mem m
    → size < 2 ^ 32
    → copy_in m kaddr size use_copy ≡ use_copy (slice mem (paddr_of m kaddr kvaddr) size)
unfolding copy_in
copy_in-slice mem m kaddr size use_copy s h =
    rw (readmem-Serves mem m kaddr kvaddr (xmalloc size) size s (length-xmalloc size h))

-- With a client that serves the guest's memory, which holds bytes, a copy of 4 GiB or more is
-- written past the end of the buffer that xmalloc returns.
pub copy_in_overflows :
    (mem : Image) (m : Machine) (kaddr size : ℕ) (use_copy : Bytes → Run Bytes)
    → Serves mem m
    → IsImage mem
    → 2 ^ 32 ≤ size
    → copy_in m kaddr size use_copy ≡ fault
unfolding copy_in
copy_in_overflows mem m kaddr size use_copy s bytes h = rw (
    readmem_overflows mem m kaddr kvaddr (xmalloc size) size s bytes
      (omega (arith, length-replicate {A = ℕ} (u32 size) 0)))

-- The copy of struct printk_ringbuffer has these values, by the offsets of the guest's kernel.
pub record IsPrb (m : Machine) (prb : Bytes) (count_bits size_bits descs infos text tail head : ℕ)
    : Type 0 where
  pub count_bits_at :
      uint prb (m.offset_table.prb_desc_ring + m.offset_table.prb_desc_ring_count_bits)
      ≡ ok count_bits
  pub descs_at :
      ulong prb (m.offset_table.prb_desc_ring + m.offset_table.prb_desc_ring_descs) ≡ ok descs
  pub infos_at :
      ulong prb (m.offset_table.prb_desc_ring + m.offset_table.prb_desc_ring_infos) ≡ ok infos
  pub size_bits_at :
      uint prb (m.offset_table.prb_text_data_ring + m.offset_table.prb_data_ring_size_bits)
      ≡ ok size_bits
  pub text_at :
      ulong prb (m.offset_table.prb_text_data_ring + m.offset_table.prb_data_ring_data) ≡ ok text
  pub tail_at :
      ulong prb (m.offset_table.prb_desc_ring + m.offset_table.prb_desc_ring_tail_id) ≡ ok tail
  pub head_at :
      ulong prb (m.offset_table.prb_desc_ring + m.offset_table.prb_desc_ring_head_id) ≡ ok head
  pub count_fits : count_bits ≤ 30
  pub size_fits : size_bits ≤ 30
  pub descs_small : m.size_table.prb_desc * 2 ^ count_bits < 2 ^ 32
  pub infos_small : m.size_table.printk_info * 2 ^ count_bits < 2 ^ 32

-- The copies of the arrays, by the guest's memory.
abbrev pub copied_map : Image → Machine → Bytes → ℕ → ℕ → ℕ → ℕ → ℕ → PrbMap
copied_map mem m prb count_bits size_bits descs infos text = record {
  prb = prb;
  desc_ring = m.offset_table.prb_desc_ring;
  desc_ring_count = 2 ^ count_bits;
  descs = slice mem (paddr_of m descs kvaddr) (m.size_table.prb_desc * 2 ^ count_bits);
  infos = slice mem (paddr_of m infos kvaddr) (m.size_table.printk_info * 2 ^ count_bits);
  text_data_ring = m.offset_table.prb_text_data_ring;
  text_data_ring_size = 2 ^ size_bits;
  text_data = slice mem (paddr_of m text kvaddr) (2 ^ size_bits);
}

shl_int_lem : (n : ℕ) → n ≤ 30 → shl_int n ≡ ok (2 ^ n)
unfolding shl_int
shl_int_lem n h = rw (le→leb n 30 h)

u64_small : (n : ℕ) → n < 2 ^ 32 → u64 n ≡ n
u64_small n h = omega arith

power_small : (n : ℕ) → n ≤ 30 → 2 ^ n < 2 ^ 32
power_small n h = let bound : 2 ^ n ≤ 2 ^ 30 = pow-le-pow_right (omega arith) h in omega arith

-- From the copy of the control block on: with a client that serves the guest's memory, the arrays
-- in that memory laid out as printk.h says, at most 2^30 slots and bytes of text, descriptors and
-- infos of less than 4 GiB and both IDs below 2^62, dump_lockless_record_log reads the three arrays
-- and prints, without a fault, the lines of the records from tail_id to head_id in the order of the
-- ring.
pub dump_prb-ring_lines :
    (mem : Image) (m : Machine) (prb : Bytes) (count_bits size_bits descs infos text tail head : ℕ)
    (ds : List PrbDesc) (is : List PrintkInfo)
    → Serves mem m
    → IsPrb m prb count_bits size_bits descs infos text tail head
    → IsRing ds is (copied_map mem m prb count_bits size_bits descs infos text)
    → tail < 2 ^ 62
    → head < 2 ^ 62
    → dump_prb m prb
      ≡ ok (
          ring_lines
            (copied_map mem m prb count_bits size_bits descs infos text)
            ds
            is
            (ring_ids (ring_distance tail head + 1) tail))
unfolding dump_prb dump_copied
dump_prb-ring_lines mem m prb count_bits size_bits descs infos text tail head ds is s at ring p q =
    rw
      (
        at.count_bits_at,
        shl_int_lem count_bits at.count_fits,
        at.descs_at,
        u64_small (m.size_table.prb_desc * 2 ^ count_bits) at.descs_small,
        copy_in-slice mem m descs (m.size_table.prb_desc * 2 ^ count_bits) _ s at.descs_small,
        at.infos_at,
        u64_small (m.size_table.printk_info * 2 ^ count_bits) at.infos_small,
        copy_in-slice mem m infos (m.size_table.printk_info * 2 ^ count_bits) _ s at.infos_small,
        at.size_bits_at,
        shl_int_lem size_bits at.size_fits,
        at.text_at,
        copy_in-slice mem m text (2 ^ size_bits) _ s (power_small size_bits at.size_fits),
        at.tail_at,
        at.head_at,
      )
      (dump_ring-ring_lines ds is (copied_map mem m prb count_bits size_bits descs infos text) tail
        head ring p q)
