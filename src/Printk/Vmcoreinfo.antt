-- ===== src/Printk/Vmcoreinfo.antt =====
-- vmcoreinfo of printk.c: the text that the guest kernel keeps about its own structures, and the
-- tables of sizes and offsets that are filled from it.
pub mod Value
pub mod Missing
pub mod Tables
use Prim.Native.Nat.{bit_and}
use kvm_dmesg.Base.{
  ℕ, zero, suc, ◌+◌, ◌-◌, ◌*◌, ◌%◌, ◌^◌, min, Bool, true, false, ◌&&◌, ◌||◌, Option, none, some, [],
  ◌∷◌, ◌++◌, leb, ltb, ◌==◌, if◌then◌else◌, length, take, drop, replicate,
}
use kvm_dmesg.Base.Bytes.{Bytes, le}
use kvm_dmesg.Base.Run.{Run, ok, fault, ◌>>=◌}
use kvm_dmesg.Base.Word.{sub64, u32, nonzero}
use kvm_dmesg.Guest.{readmem, kvaddr}
use kvm_dmesg.Xutil.{xmalloc}
use kvm_dmesg.Machine.{Machine, SizeTable, OffsetTable}
use kvm_dmesg.Symbols.{get_symbol_data}
use kvm_dmesg.Text.{codes, isspace}
use kvm_dmesg.Text.Search.{strstr}

-- The value up to `p1`, the end of its line. A line without an end leaves `p1` NULL, and what is
-- computed from it has no meaning.
unfoldable pub value_before : Bytes → Option Bytes → Run (Option Bytes)
value_before p2 none = fault
value_before p2 (some p1) = ok (some (take (length p2 - length p1) p2))

-- The value behind the place where the key was found.
unfoldable pub value_behind : Bytes → Option Bytes → Run (Option Bytes)
value_behind keybuf none = ok none
value_behind keybuf (some at) = do
  let p2 = drop (length keybuf) at
  end ← strstr p2 (b'\n' ∷ [])
  value_before p2 end

unfoldable pub vmcoreinfo_read_string : Bytes → Bytes → Run (Option Bytes)
vmcoreinfo_read_string buf key = do
  let keybuf = take 79 (key ++ b'=' ∷ [])
  found ← strstr buf keybuf
  value_behind keybuf found

abbrev pub isdigit : ℕ → Bool
isdigit c = leb b'0' c && leb c b'9'

-- The digits at the front of a string, as a number.
unfoldable pub decimal : ℕ → Bytes → ℕ
decimal acc [] = acc
decimal acc (c ∷ cs) =
    let more = decimal (acc * 10 + (c - b'0')) cs in if isdigit c then more else acc

-- strtol(s, &endptr, 10), as the bit pattern of the `long`; what does not fit is the nearest `long`.
unfoldable pub strtol : Bytes → ℕ
unfolding decimal
strtol [] = 0
strtol (c ∷ cs) =
    let blank = strtol cs in
    if isspace c
    then blank
    else if c == b'-'
    then sub64 0 (min (decimal 0 cs) (2 ^ 63))
    else min (decimal 0 (if c == b'+' then cs else c ∷ cs)) (2 ^ 63 - 1)

-- STRUCT_SIZE_REQUEST and MEMBER_OFFSET_REQUEST.
pub data Request : Type 0 where
  struct_size_request member_offset_request : Request

-- `buf` of datatype_info, a string in 64 bytes.
abbrev pub request_key : Request → Bytes → Bytes → Bytes
request_key struct_size_request name member = take 63 (codes "SIZE(" ++ (name ++ codes ")"))
request_key member_offset_request name member =
    take 63 (codes "OFFSET(" ++ (name ++ (codes "." ++ (member ++ codes ")"))))

-- datatype_info over the buffer `vmcoreinfo_buf`. Neither key is empty.
unfoldable pub datatype_info : Bytes → Bytes → Bytes → Request → Run ℕ
datatype_info buf name member datatype = do
  value ← vmcoreinfo_read_string buf (request_key datatype name member)
  elim value [ none ↦ ok 0 | some s ↦ ok (strtol s) ]

-- STRUCT_SIZE and MEMBER_OFFSET.
abbrev struct_size : Bytes → Bytes → Run ℕ
struct_size buf n = datatype_info buf n [] struct_size_request

abbrev member_offset : Bytes → Bytes → Bytes → Run ℕ
member_offset buf n member = datatype_info buf n member member_offset_request

-- The requests of vmcoreinfo_init, in their order. SIZE(prb_data_ring) is the last size asked for.
unfoldable pub vmcoreinfo_tables : Bytes → Run (SizeTable × OffsetTable)
vmcoreinfo_tables buf = do
  printk_info ← struct_size buf (codes "printk_info")
  prb_desc ← struct_size buf (codes "prb_desc")
  printk_ringbuffer ← struct_size buf (codes "printk_ringbuffer")
  desc_ring ← member_offset buf (codes "printk_ringbuffer") (codes "desc_ring")
  text_data_ring ← member_offset buf (codes "printk_ringbuffer") (codes "text_data_ring")
  prb_desc_ring ← struct_size buf (codes "prb_desc_ring")
  count_bits ← member_offset buf (codes "prb_desc_ring") (codes "count_bits")
  descs ← member_offset buf (codes "prb_desc_ring") (codes "descs")
  infos ← member_offset buf (codes "prb_desc_ring") (codes "infos")
  head_id ← member_offset buf (codes "prb_desc_ring") (codes "head_id")
  tail_id ← member_offset buf (codes "prb_desc_ring") (codes "tail_id")
  prb_data_ring ← struct_size buf (codes "prb_data_ring")
  size_bits ← member_offset buf (codes "prb_data_ring") (codes "size_bits")
  data_ptr ← member_offset buf (codes "prb_data_ring") (codes "data")
  ok (
    record {
      printk_info = printk_info;
      prb_desc = prb_desc;
      printk_ringbuffer = printk_ringbuffer;
      prb_desc_ring = prb_desc_ring;
      prb_data_ring = prb_data_ring;
    },
    record {
      prb_desc_ring = desc_ring;
      prb_text_data_ring = text_data_ring;
      prb_desc_ring_count_bits = count_bits;
      prb_desc_ring_descs = descs;
      prb_desc_ring_infos = infos;
      prb_desc_ring_head_id = head_id;
      prb_desc_ring_tail_id = tail_id;
      prb_data_ring_size_bits = size_bits;
      prb_data_ring_data = data_ptr;
    },
  )

-- vmcoreinfo_init from `buf[vmcoreinfo_size] = '\n'` on, with what it prints.
unfoldable pub vmcoreinfo_parse : Machine → Bytes → Run (Machine × Bytes)
vmcoreinfo_parse m text = do
  let buf = text ++ b'\n' ∷ []
  (sizes, offsets) ← vmcoreinfo_tables buf
  ok (record m { size_table = sizes; offset_table = offsets }, if leb 2 m.debug then buf else [])

-- vmcoreinfo_init, with what stands in its two locals before they are written.
unfoldable pub vmcoreinfo_init : Bytes → Bytes → Machine → Run (Machine × Bytes)
vmcoreinfo_init size_local data_local m = do
  size_bytes ← get_symbol_data m (codes "vmcoreinfo_size") 8 size_local
  let size = bit_and (le size_bytes) (2 ^ 13 - 1)
  data_bytes ← get_symbol_data m (codes "vmcoreinfo_data") 8 data_local
  (r, text) ← readmem m (le data_bytes) kvaddr (xmalloc (size + 1)) size
  if nonzero r then ok (m, []) else vmcoreinfo_parse m (take size text)
