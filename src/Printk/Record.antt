-- ===== src/Printk/Record.antt =====
-- dump_record of printk.c: one record of the ring, from the copies of its arrays that struct prb_map
-- points to.
pub mod Show
pub mod Overread
use kvm_dmesg.Base.{
  ℕ, zero, suc, ◌+◌, ◌-◌, ◌*◌, ◌/◌, ◌%◌, ◌^◌, Bool, true, false, [], ◌∷◌, ◌++◌, ltb, ◌==◌,
  if◌then◌else◌,
}
use kvm_dmesg.Base.Bytes.{Bytes, ulong, ushort}
use kvm_dmesg.Base.Run.{Run, ok, fault, ◌>>=◌}
use kvm_dmesg.Base.Word.{add64, sub64, u16, rem}
use kvm_dmesg.Printk.Layout.{
  sizeof_prb_desc, sizeof_printk_info, desc_state_var, desc_text_blk_lpos, lpos_begin, lpos_next,
  info_ts_nsec, info_text_len,
}
use kvm_dmesg.Printk.State.{get_desc_state, is_readable}
use kvm_dmesg.Text.{put_text}
use kvm_dmesg.Text.Decimal.{stamp}

-- struct prb_map. `desc_ring` and `text_data_ring` point into `prb`: they are offsets.
pub record PrbMap : Type 0 where
  pub prb : Bytes
  pub desc_ring : ℕ
  pub desc_ring_count : ℕ
  pub descs : Bytes
  pub infos : Bytes
  pub text_data_ring : ℕ
  pub text_data_ring_size : ℕ
  pub text_data : Bytes

-- The text of a record, from the test of the wrap on.
unfoldable pub dump_text : PrbMap → ℕ → ℕ → ℕ → ℕ → Run Bytes
dump_text m info text_len begin next = do
  ts_nsec ← ulong m.infos (info + info_ts_nsec)
  let begin' = add64 (if ltb next begin then 0 else begin) 8
  let room = sub64 next begin'
  text ← put_text (if ltb room text_len then u16 room else text_len) m.text_data begin'
  ok (stamp ts_nsec ++ (text ++ b'\n' ∷ []))

-- The record behind the test of the state.
unfoldable pub dump_readable : PrbMap → ℕ → ℕ → Run Bytes
dump_readable m slot desc = do
  let info = slot * sizeof_printk_info
  text_len ← ushort m.infos (info + info_text_len)
  lpos ← ulong m.descs (desc + (desc_text_blk_lpos + lpos_begin))
  begin ← rem lpos m.text_data_ring_size
  lpos' ← ulong m.descs (desc + (desc_text_blk_lpos + lpos_next))
  next ← rem lpos' m.text_data_ring_size
  if begin == next then ok (b'\n' ∷ []) else dump_text m info text_len begin next

-- dump_record: what it prints.
unfoldable pub dump_record : PrbMap → ℕ → Run Bytes
dump_record m id = do
  slot ← rem id m.desc_ring_count
  let desc = slot * sizeof_prb_desc
  state_var ← ulong m.descs (desc + desc_state_var)
  if is_readable (get_desc_state id state_var) then dump_readable m slot desc else ok []
