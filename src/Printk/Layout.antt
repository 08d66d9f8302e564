-- ===== src/Printk/Layout.antt =====
-- The structures of printk.h as the x86-64 ABI lays them out: sizes, offsets, and the bytes of a
-- structure's fields.
use kvm_dmesg.Base.{
  ℕ, ◌+◌, ◌^◌, ◌≤◌, ◌<◌, ◌≡◌, sym, ap, ◌∙◌, [], ◌++◌, arith, length, length-append, append-nil,
}
use kvm_dmesg.Base.Bytes.{Bytes, encode, length-encode, load, load-encode, load-append_right}
use kvm_dmesg.Base.Run.{ok}

-- struct prb_desc: an atomic_long_t and a struct prb_data_blk_lpos.
pub record PrbDesc : Type 0 where
  pub state_var : ℕ
  pub begin : ℕ
  pub next : ℕ

abbrev pub sizeof_prb_desc : ℕ
sizeof_prb_desc = 24

abbrev pub desc_state_var : ℕ
desc_state_var = 0

abbrev pub desc_text_blk_lpos : ℕ
desc_text_blk_lpos = 8

abbrev pub lpos_begin : ℕ
lpos_begin = 0

abbrev pub lpos_next : ℕ
lpos_next = 8

unfoldable pub prb_desc_bytes : PrbDesc → Bytes
prb_desc_bytes d = encode 8 d.state_var ++ (encode 8 d.begin ++ encode 8 d.next)

-- struct printk_info: `flags` and `level` share a byte, and `dev_info` is 64 bytes of text.
pub record PrintkInfo : Type 0 where
  pub seq : ℕ
  pub ts_nsec : ℕ
  pub text_len : ℕ
  pub facility : ℕ
  pub flags_level : ℕ
  pub caller_id : ℕ
  pub dev_info : ℕ

abbrev pub sizeof_printk_info : ℕ
sizeof_printk_info = 88

abbrev pub info_ts_nsec : ℕ
info_ts_nsec = 8

abbrev pub info_text_len : ℕ
info_text_len = 16

unfoldable pub printk_info_bytes : PrintkInfo → Bytes
printk_info_bytes i =
    encode 8 i.seq
    ++ (encode 8 i.ts_nsec
        ++ (encode 2 i.text_len
            ++ (encode 1 i.facility
                ++ (encode 1 i.flags_level ++ (encode 4 i.caller_id ++ encode 64 i.dev_info)))))

-- The fields fit their types.
pub record IsPrbDesc (d : PrbDesc) : Type 0 where
  pub state_var_fits : d.state_var < 2 ^ 64
  pub begin_fits : d.begin < 2 ^ 64
  pub next_fits : d.next < 2 ^ 64

pub record IsPrintkInfo (i : PrintkInfo) : Type 0 where
  pub ts_nsec_fits : i.ts_nsec < 2 ^ 64
  pub text_len_fits : i.text_len < 2 ^ 16

pub length-prb_desc_bytes : (d : PrbDesc) → length (prb_desc_bytes d) ≡ sizeof_prb_desc
unfolding prb_desc_bytes
length-prb_desc_bytes d = rw (
  length-append (encode 8 d.state_var) (encode 8 d.begin ++ encode 8 d.next),
  length-append (encode 8 d.begin) (encode 8 d.next),
  length-encode 8 d.state_var,
  length-encode 8 d.begin,
  length-encode 8 d.next,
)

-- A load behind the first field of a structure.
pub load_behind :
    (w k off v : ℕ) (rest : Bytes)
    → off + w ≤ length rest
    → load w (encode k v ++ rest) (k + off) ≡ load w rest off
load_behind w k off v rest h =
    ap (λ (n : ℕ). load w (encode k v ++ rest) (n + off)) (sym (length-encode k v))
    ∙ load-append_right w off (encode k v) rest h

load_only : (w v : ℕ) → v < 256 ^ w → load w (encode w v) 0 ≡ ok v
load_only w v h =
    ap (λ (s : Bytes). load w s 0) (sym (append-nil (encode w v))) ∙ load-encode w v [] h

module _ (d : PrbDesc) (fits : IsPrbDesc d) where
  pub load-state_var : load 8 (prb_desc_bytes d) desc_state_var ≡ ok d.state_var
  unfolding prb_desc_bytes
  load-state_var = load-encode 8 d.state_var _ (fits.state_var_fits)

  pub load-begin : load 8 (prb_desc_bytes d) (desc_text_blk_lpos + lpos_begin) ≡ ok d.begin
  unfolding prb_desc_bytes
  load-begin =
      load_behind 8 8 0 d.state_var (encode 8 d.begin ++ encode 8 d.next)
        (omega (arith, length-append (encode 8 d.begin) (encode 8 d.next), length-encode 8 d.begin))
      ∙ load-encode 8 d.begin _ fits.begin_fits

  pub load-next : load 8 (prb_desc_bytes d) (desc_text_blk_lpos + lpos_next) ≡ ok d.next
  unfolding prb_desc_bytes
  load-next =
      let room = length-append (encode 8 d.begin) (encode 8 d.next) in
      let begin_room = length-encode 8 d.begin in
      let next_room = length-encode 8 d.next in
      load_behind 8 8 8 d.state_var (encode 8 d.begin ++ encode 8 d.next) (omega arith)
      ∙ load_behind 8 8 0 d.begin (encode 8 d.next) (omega arith)
      ∙ load_only 8 d.next fits.next_fits

abbrev info_tail : PrintkInfo → Bytes
info_tail i =
    encode 1 i.facility
    ++ (encode 1 i.flags_level ++ (encode 4 i.caller_id ++ encode 64 i.dev_info))

length-info_tail : (i : PrintkInfo) → length (info_tail i) ≡ 70
length-info_tail i = rw (
  length-append (encode 1 i.facility)
      (encode 1 i.flags_level ++ (encode 4 i.caller_id ++ encode 64 i.dev_info)),
  length-append (encode 1 i.flags_level) (encode 4 i.caller_id ++ encode 64 i.dev_info),
  length-append (encode 4 i.caller_id) (encode 64 i.dev_info),
  length-encode 1 i.facility,
  length-encode 1 i.flags_level,
  length-encode 4 i.caller_id,
  length-encode 64 i.dev_info,
)

info_middle : (i : PrintkInfo) → length (encode 2 i.text_len ++ info_tail i) ≡ 72
info_middle i = omega (
  arith,
  length-append (encode 2 i.text_len) (info_tail i),
  length-encode 2 i.text_len,
  length-info_tail i,
)

pub length-printk_info_bytes : (i : PrintkInfo) → length (printk_info_bytes i) ≡ sizeof_printk_info
unfolding printk_info_bytes
length-printk_info_bytes i = omega (
  arith,
  length-append (encode 8 i.seq) (encode 8 i.ts_nsec ++ (encode 2 i.text_len ++ info_tail i)),
  length-append (encode 8 i.ts_nsec) (encode 2 i.text_len ++ info_tail i),
  info_middle i,
  length-encode 8 i.seq,
  length-encode 8 i.ts_nsec,
)

module _ (i : PrintkInfo) (fits : IsPrintkInfo i) where
  pub load-ts_nsec : load 8 (printk_info_bytes i) info_ts_nsec ≡ ok i.ts_nsec
  unfolding printk_info_bytes
  load-ts_nsec =
      let room = length-append (encode 8 i.ts_nsec) (encode 2 i.text_len ++ info_tail i) in
      let ts_room = length-encode 8 i.ts_nsec in
      load_behind 8 8 0 i.seq (encode 8 i.ts_nsec ++ (encode 2 i.text_len ++ info_tail i))
        (omega arith)
      ∙ load-encode 8 i.ts_nsec _ fits.ts_nsec_fits

  pub load-text_len : load 2 (printk_info_bytes i) info_text_len ≡ ok i.text_len
  unfolding printk_info_bytes
  load-text_len =
      let room = length-append (encode 8 i.ts_nsec) (encode 2 i.text_len ++ info_tail i) in
      let ts_room = length-encode 8 i.ts_nsec in
      let middle = info_middle i in
      load_behind 2 8 8 i.seq (encode 8 i.ts_nsec ++ (encode 2 i.text_len ++ info_tail i))
        (omega arith)
      ∙ load_behind 2 8 0 i.ts_nsec (encode 2 i.text_len ++ info_tail i) (omega arith)
      ∙ load-encode 2 i.text_len _ fits.text_len_fits
