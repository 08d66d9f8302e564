-- ===== src/Printk/Record/Overread.antt =====
-- A block that is too short for its ID: `next - begin` wraps, the length is not cut, and the loop
-- over the text can leave the buffer.
use kvm_dmesg.Base.{
  ℕ, ◌+◌, ◌*◌, ◌%◌, ◌^◌, ◌≤◌, ◌<◌, ◌≡◌, ◌∙◌, ◌≢◌, true, ltb, if◌then◌else◌, arith, ne→==,
}
use kvm_dmesg.Base.Run.{fault}
use kvm_dmesg.Base.Word.{add64, sub64, u16}
use kvm_dmesg.Printk.Layout.{PrbDesc, PrintkInfo, load-ts_nsec, sizeof_printk_info}
use kvm_dmesg.Printk.Record.{PrbMap, dump_text, dump_record}
use kvm_dmesg.Printk.Record.Show.{
  InSlot, block_start, slot, size, info_load, state_step, readable_step,
}
use kvm_dmesg.Printk.State.{state_matches}
use kvm_dmesg.Text.{put_text_fault}

not_cut :
    (s next text_len : ℕ)
    → s ≤ 2 ^ 31
    → next < s + 8
    → next < 2 ^ 31
    → text_len < 2 ^ 16
    → (if ltb (sub64 next (s + 8)) text_len then u16 (sub64 next (s + 8)) else text_len) ≡ text_len
not_cut s next text_len p q r t = ground arith

module _ (m : PrbMap) (id : ℕ) (d : PrbDesc) (i : PrintkInfo) (h : InSlot m id d i) where
  dump_text_overreads :
      (begin next : ℕ)
      → begin < size m id d i h
      → next < size m id d i h
      → next < block_start begin next + 8
      → size m id d i h < block_start begin next + 8 + i.text_len
      → 0 < i.text_len
      → dump_text m (slot m id d i h * sizeof_printk_info) i.text_len begin next ≡ fault
  unfolding dump_text
  dump_text_overreads begin next low below short long pos =
      let start : ℕ = block_start begin next in
      let small = h.holds.small in
      let text_room = h.holds.text_holds in
      let start_le : start ≤ begin = ground arith in
      let start_fits : add64 start 8 ≡ start + 8 = omega arith in
      rw (
        info_load m id d i h 8 8 i.ts_nsec (omega arith) (load-ts_nsec i h.info_fits),
        start_fits,
        not_cut start next i.text_len (omega arith) short (omega arith) h.info_fits.text_len_fits,
        put_text_fault i.text_len m.text_data (start + 8) (omega arith) pos,
      )

-- Where the text block of a descriptor begins and ends in the buffer.
abbrev pub begin_of : PrbMap → PrbDesc → ℕ
begin_of m d = d.begin % m.text_data_ring_size

abbrev pub next_of : PrbMap → PrbDesc → ℕ
next_of m d = d.next % m.text_data_ring_size

-- A committed or finalized record whose block is not empty but ends within 8 bytes of its start,
-- and whose length would pass the end of the text buffer, makes dump_record read outside the
-- buffer.
pub dump_record_overreads :
    (m : PrbMap) (id : ℕ) (d : PrbDesc) (i : PrintkInfo)
    → InSlot m id d i
    → state_matches id d.state_var ≡ true
    → begin_of m d ≢ next_of m d
    → next_of m d < block_start (begin_of m d) (next_of m d) + 8
    → m.text_data_ring_size < block_start (begin_of m d) (next_of m d) + 8 + i.text_len
    → 0 < i.text_len
    → dump_record m id ≡ fault
dump_record_overreads m id d i h good apart short long pos =
    let some_text = h.holds.some_text in
    let begin : ℕ = d.begin % m.text_data_ring_size in
    let next : ℕ = d.next % m.text_data_ring_size in
    state_step m id d i h
    ∙ rw good (
        readable_step m id d i h
        ∙ rw (ne→== begin next apart)
            (dump_text_overreads m id d i h begin next (omega arith) (omega arith) short long pos))
