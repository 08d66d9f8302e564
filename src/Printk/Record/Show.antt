-- ===== src/Printk/Record/Show.antt =====
-- What dump_record prints of a ring whose arrays are laid out as printk.h says.
use kvm_dmesg.Base.{
  ℕ, ◌+◌, ◌-◌, ◌*◌, ◌%◌, ◌^◌, ◌≤◌, ◌<◌, ◌≡◌, ◌∙◌, ◌≢◌, false, List, [], ◌∷◌, ◌++◌, map, ltb, ◌==◌,
  if◌then◌else◌, min, some, arith, length, get_elem?, take, drop, Bool-cases, inl, inr,
}
use kvm_dmesg.Base.Bytes.{Bytes, array, load, load-array}
use kvm_dmesg.Base.Run.{ok}
use kvm_dmesg.Base.Word.{add64, sub64, u16, rem}
use kvm_dmesg.Printk.Layout.{
  PrbDesc, PrintkInfo, prb_desc_bytes, printk_info_bytes, IsPrbDesc, IsPrintkInfo, load-state_var,
  load-begin, load-next, load-ts_nsec, load-text_len, length-prb_desc_bytes,
  length-printk_info_bytes, sizeof_prb_desc, sizeof_printk_info,
}
use kvm_dmesg.Printk.Record.{PrbMap, dump_text, dump_readable, dump_record}
use kvm_dmesg.Printk.State.{get_desc_state_lem, state_matches}
use kvm_dmesg.Text.{put_char, put_text_lem}
use kvm_dmesg.Text.Decimal.{stamp}

-- The arrays of the map hold these descriptors and infos, one of each to a slot.
pub record Holds (ds : List PrbDesc) (is : List PrintkInfo) (m : PrbMap) : Type 0 where
  pub some_slot : 0 < m.desc_ring_count
  pub descs_hold : m.descs ≡ array prb_desc_bytes sizeof_prb_desc ds
  pub infos_hold : m.infos ≡ array printk_info_bytes sizeof_printk_info is
  pub some_text : 0 < m.text_data_ring_size
  pub small : m.text_data_ring_size ≤ 2 ^ 31
  pub text_holds : length m.text_data ≡ m.text_data_ring_size

-- Where a block starts: one that would cross the end of the buffer stands at its front.
abbrev pub block_start : ℕ → ℕ → ℕ
block_start begin next = if ltb next begin then 0 else begin

-- The text of a block behind its 8-byte ID, not longer than the block.
abbrev pub block_text : PrbMap → ℕ → ℕ → ℕ → Bytes
block_text m begin next text_len =
    let start = block_start begin next + 8 in
    take (min text_len (next - start)) (drop start m.text_data)

-- The line of a record that is committed or finalized.
abbrev pub record_line : PrbMap → PrbDesc → PrintkInfo → Bytes
record_line m d i =
    let begin = d.begin % m.text_data_ring_size in
    let next = d.next % m.text_data_ring_size in
    if begin == next
    then b'\n' ∷ []
    else stamp i.ts_nsec ++ (map put_char (block_text m begin next i.text_len) ++ b'\n' ∷ [])

-- A block is empty, or has room for its ID.
abbrev pub IsBlock : PrbMap → PrbDesc → Type 0
IsBlock m d =
    let begin = d.begin % m.text_data_ring_size in
    let next = d.next % m.text_data_ring_size in begin ≢ next → block_start begin next + 8 ≤ next

-- `m` holds `d` and `i` in the slot of `id`.
pub record InSlot (m : PrbMap) (id : ℕ) (d : PrbDesc) (i : PrintkInfo) : Type 0 where
  pub ds : List PrbDesc
  pub is : List PrintkInfo
  pub holds : Holds ds is m
  pub desc_at : get_elem? ds (id % m.desc_ring_count) ≡ some d
  pub info_at : get_elem? is (id % m.desc_ring_count) ≡ some i
  pub desc_fits : IsPrbDesc d
  pub info_fits : IsPrintkInfo i

start_fits : (s next : ℕ) → s + 8 ≤ next → next < 2 ^ 31 → add64 s 8 ≡ s + 8
start_fits s next p q = omega arith

room_min :
    (s next text_len : ℕ)
    → s ≤ next
    → next < 2 ^ 31
    → text_len < 2 ^ 16
    → (if ltb (sub64 next s) text_len then u16 (sub64 next s) else text_len)
      ≡ min text_len (next - s)
room_min s next text_len p q t = ground arith

==-false : {a b : ℕ} → (a == b) ≡ false → a ≢ b
==-false h e = ground arith

module _ (m : PrbMap) (id : ℕ) (d : PrbDesc) (i : PrintkInfo) (h : InSlot m id d i) where
  abbrev pub slot : ℕ
  slot = id % m.desc_ring_count

  desc_load :
      (off v : ℕ)
      → off + 8 ≤ sizeof_prb_desc
      → load 8 (prb_desc_bytes d) off ≡ ok v
      → load 8 m.descs (slot * sizeof_prb_desc + off) ≡ ok v
  desc_load off v room e = rw h.holds.descs_hold (
      load-array prb_desc_bytes sizeof_prb_desc length-prb_desc_bytes 8 off h.ds slot d h.desc_at
        room
      ∙ e)

  pub info_load :
      (w off v : ℕ)
      → off + w ≤ sizeof_printk_info
      → load w (printk_info_bytes i) off ≡ ok v
      → load w m.infos (slot * sizeof_printk_info + off) ≡ ok v
  info_load w off v room e = rw h.holds.infos_hold (
      load-array printk_info_bytes sizeof_printk_info length-printk_info_bytes w off h.is slot i
        h.info_at room
      ∙ e)

  pub rem_ok : (a b : ℕ) → 0 < b → rem a b ≡ ok (a % b)
  rem_ok a b p = ground arith

  abbrev pub size : ℕ
  size = m.text_data_ring_size

  pub state_step : dump_record m id ≡ (
      if state_matches id d.state_var then dump_readable m slot (slot * sizeof_prb_desc) else ok [])
  unfolding dump_record
  state_step = rw (
    rem_ok id m.desc_ring_count h.holds.some_slot,
    desc_load 0 d.state_var (omega arith) (load-state_var d h.desc_fits),
    get_desc_state_lem id d.state_var h.desc_fits.state_var_fits,
  )

  pub readable_step : dump_readable m slot (slot * sizeof_prb_desc) ≡ (
      if d.begin % size == d.next % size
      then ok (b'\n' ∷ [])
      else dump_text m (slot * sizeof_printk_info) i.text_len (d.begin % size) (d.next % size))
  unfolding dump_readable
  readable_step = rw (
    info_load 2 16 i.text_len (omega arith) (load-text_len i h.info_fits),
    desc_load 8 d.begin (omega arith) (load-begin d h.desc_fits),
    rem_ok d.begin size h.holds.some_text,
    desc_load 16 d.next (omega arith) (load-next d h.desc_fits),
    rem_ok d.next size h.holds.some_text,
  )

  text_step :
      (begin next : ℕ)
      → next < size
      → block_start begin next + 8 ≤ next
      → dump_text m (slot * sizeof_printk_info) i.text_len begin next
        ≡ ok (stamp i.ts_nsec ++ (map put_char (block_text m begin next i.text_len) ++ b'\n' ∷ []))
  unfolding dump_text
  text_step begin next below room =
      let start : ℕ = block_start begin next + 8 in
      let size_lt = h.holds.small in
      let text_room = h.holds.text_holds in
      rw (
        info_load 8 8 i.ts_nsec (omega arith) (load-ts_nsec i h.info_fits),
        start_fits (block_start begin next) next room (omega arith),
        room_min start next i.text_len room (omega arith) h.info_fits.text_len_fits,
        put_text_lem (min i.text_len (next - start)) m.text_data start (omega arith),
      )

  readable_line :
      IsBlock m d → dump_readable m slot (slot * sizeof_prb_desc) ≡ ok (record_line m d i)
  readable_line block =
      let some_text = h.holds.some_text in
      readable_step ∙ elim (Bool-cases (d.begin % size == d.next % size)) [
        | inl same ↦ rw same
        | inr differ ↦
            rw differ
              (text_step (d.begin % size) (d.next % size) (omega arith) (block (==-false differ)))
      ]

-- For a slot whose descriptor and info are laid out as printk.h says and whose block is empty or
-- has room for its ID, dump_record prints one line if the state is committed or finalized (a
-- newline alone for an empty block, and else the stamp, the printable form of the text, cut at the
-- end of its block, and a newline), and nothing otherwise.
pub dump_record-record_line :
    (m : PrbMap) (id : ℕ) (d : PrbDesc) (i : PrintkInfo)
    → InSlot m id d i
    → IsBlock m d
    → dump_record m id ≡ ok (if state_matches id d.state_var then record_line m d i else [])
dump_record-record_line m id d i h block =
    state_step m id d i h ∙ elim (Bool-cases (state_matches id d.state_var)) [
      | inl good ↦ rw good (readable_line m id d i h block)
      | inr wrong ↦ rw wrong
    ]
