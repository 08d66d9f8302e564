-- ===== src/Printk/Lockless.antt =====
-- dump_lockless_record_log of printk.c: the copies that it makes of the guest's ring buffer.
pub mod Copies
use kvm_dmesg.Base.{
  ℕ, zero, suc, ◌+◌, ◌*◌, ◌^◌, Bool, true, false, [], ◌++◌, leb, ◌==◌, if◌then◌else◌,
}
use kvm_dmesg.Base.Bytes.{Bytes, le, uint, ulong}
use kvm_dmesg.Base.Run.{Run, ok, fault, ◌>>=◌}
use kvm_dmesg.Base.Word.{u64, nonzero}
use kvm_dmesg.Guest.{readmem, kvaddr}
use kvm_dmesg.Machine.{Machine}
use kvm_dmesg.Printk.Record.{PrbMap}
use kvm_dmesg.Printk.Ring.{dump_ring}
use kvm_dmesg.Printk.Vmcoreinfo.{vmcoreinfo_init}
use kvm_dmesg.Xutil.{xmalloc}
use kvm_dmesg.Symbols.{get_symbol_data}
use kvm_dmesg.Text.{codes}

-- `1 << n` of an `int`, which has no value that fits from 31 on.
unfoldable pub shl_int : ℕ → Run ℕ
shl_int n = if leb n 30 then ok (2 ^ n) else fault

-- One `xmalloc` and `readmem` of a number of bytes; nothing if the read fails.
unfoldable pub copy_in : Machine → ℕ → ℕ → (Bytes → Run Bytes) → Run Bytes
copy_in m kaddr size use_copy = do
  (r, buf) ← readmem m kaddr kvaddr (xmalloc size) size
  if nonzero r then ok [] else use_copy buf

-- From the copy of the text on.
unfoldable pub dump_copied : Machine → Bytes → ℕ → Bytes → Bytes → Run Bytes
dump_copied m prb count descs infos = do
  let desc_ring = m.offset_table.prb_desc_ring
  let text_ring = m.offset_table.prb_text_data_ring
  size_bits ← uint prb (text_ring + m.offset_table.prb_data_ring_size_bits)
  size ← shl_int size_bits
  text_addr ← ulong prb (text_ring + m.offset_table.prb_data_ring_data)
  copy_in m text_addr size λ text. do
    tail_id ← ulong prb (desc_ring + m.offset_table.prb_desc_ring_tail_id)
    head_id ← ulong prb (desc_ring + m.offset_table.prb_desc_ring_head_id)
    dump_ring
        (record {
          prb = prb;
          desc_ring = desc_ring;
          desc_ring_count = count;
          descs = descs;
          infos = infos;
          text_data_ring = text_ring;
          text_data_ring_size = size;
          text_data = text;
        })
        tail_id head_id

-- From the copy of struct printk_ringbuffer on. A product of a `long` and an `unsigned long` wraps.
unfoldable pub dump_prb : Machine → Bytes → Run Bytes
dump_prb m prb = do
  let desc_ring = m.offset_table.prb_desc_ring
  count_bits ← uint prb (desc_ring + m.offset_table.prb_desc_ring_count_bits)
  count ← shl_int count_bits
  descs_addr ← ulong prb (desc_ring + m.offset_table.prb_desc_ring_descs)
  copy_in m descs_addr (u64 (m.size_table.prb_desc * count)) λ descs. do
    infos_addr ← ulong prb (desc_ring + m.offset_table.prb_desc_ring_infos)
    copy_in m infos_addr (u64 (m.size_table.printk_info * count))
        λ infos. dump_copied m prb count descs infos

-- dump_lockless_record_log: the state that it leaves and what it prints, with what stands in its
-- locals and in those of vmcoreinfo_init before they are written.
unfoldable pub dump_lockless_record_log : Bytes → Bytes → Bytes → Machine → Run (Machine × Bytes)
dump_lockless_record_log local size_local data_local m₀ = do
  (m, shown) ←
      (if m₀.size_table.printk_info == 0
        then vmcoreinfo_init size_local data_local m₀
        else ok (m₀, []))
  kaddr ← get_symbol_data m (codes "prb") 8 local
  out ← copy_in m (le kaddr) m.size_table.printk_ringbuffer (dump_prb m)
  ok (m, shown ++ out)
