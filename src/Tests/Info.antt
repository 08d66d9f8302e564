-- ===== src/Tests/Info.antt =====
-- A vmcoreinfo with all the keys, for the guest of Whole.
use kvm_dmesg.Base.{ℕ, ◌+◌, ◌^◌, ◌<◌, ◌≡◌, refl, false, [], ◌∷◌, ◌++◌, List, arith, take, drop}
use kvm_dmesg.Base.Bytes.{Bytes}
use kvm_dmesg.Machine.{SizeTable, OffsetTable}
use kvm_dmesg.Printk.Vmcoreinfo.{Request, struct_size_request, member_offset_request}
use kvm_dmesg.Printk.Vmcoreinfo.Missing.{search_key}
use kvm_dmesg.Printk.Vmcoreinfo.Tables.{HasKey, Describes}
use kvm_dmesg.Printk.Vmcoreinfo.Value.{key_line}
use kvm_dmesg.Tests.Qmp.{unclear, unclear-IsFirst}
use kvm_dmesg.Tests.Symbols.{line}
use kvm_dmesg.Text.{codes}
use kvm_dmesg.Text.Decimal.{dec, dec_digits}
use kvm_dmesg.Text.Search.{is_prefix}

-- The lines of vmcoreinfo.
abbrev info_lines : List Bytes
info_lines =
    codes "SIZE(printk_info)=88"
    ∷ codes "SIZE(prb_desc)=24"
    ∷ codes "SIZE(printk_ringbuffer)=56"
    ∷ codes "OFFSET(printk_ringbuffer.desc_ring)=0"
    ∷ codes "OFFSET(printk_ringbuffer.text_data_ring)=0"
    ∷ codes "SIZE(prb_desc_ring)=48"
    ∷ codes "OFFSET(prb_desc_ring.count_bits)=0"
    ∷ codes "OFFSET(prb_desc_ring.descs)=8"
    ∷ codes "OFFSET(prb_desc_ring.infos)=16"
    ∷ codes "OFFSET(prb_desc_ring.head_id)=48"
    ∷ codes "OFFSET(prb_desc_ring.tail_id)=40"
    ∷ codes "SIZE(prb_data_ring)=32"
    ∷ codes "OFFSET(prb_data_ring.size_bits)=24"
    ∷ codes "OFFSET(prb_data_ring.data)=32"
    ∷ []

abbrev joined : List Bytes → Bytes
joined [] = []
joined (l ∷ ls) = line l ++ joined ls

unfoldable pub info_text : Bytes
info_text = joined info_lines

abbrev pub sizes : SizeTable
sizes = record {
  printk_info = 88;
  prb_desc = 24;
  printk_ringbuffer = 56;
  prb_desc_ring = 48;
  prb_data_ring = 32;
}

abbrev pub offsets : OffsetTable
offsets = record {
  prb_desc_ring = 0;
  prb_text_data_ring = 0;
  prb_desc_ring_count_bits = 0;
  prb_desc_ring_descs = 8;
  prb_desc_ring_infos = 16;
  prb_desc_ring_head_id = 48;
  prb_desc_ring_tail_id = 40;
  prb_data_ring_size_bits = 24;
  prb_data_ring_data = 32;
}

-- The key of a line, by the lines in front of it and behind it.
at_line :
    (n : ℕ) (datatype : Request) (name member : Bytes) (value : ℕ)
    → info_text
      ≡ joined (take n info_lines)
        ++ key_line datatype name member value (joined (drop (n + 1) info_lines))
    → value < 2 ^ 63
    → unclear
        (search_key datatype name member)
        (joined (take n info_lines))
        (key_line datatype name member value (joined (drop (n + 1) info_lines)))
      ≡ false
    → HasKey info_text datatype name member value
at_line n datatype name member value cut fits clear = record {
  pre = joined (take n info_lines);
  post = joined (drop (n + 1) info_lines);
  cut = cut;
  fits = fits;
  first = unclear-IsFirst _ _ _ clear;
}

pub info_text-Describes : Describes info_text sizes offsets
unfolding info_text unclear is_prefix dec dec_digits
info_text-Describes = record {
  printk_info = at_line 0 struct_size_request (codes "printk_info") [] 88 refl (omega arith) refl;
  prb_desc = at_line 1 struct_size_request (codes "prb_desc") [] 24 refl (omega arith) refl;
  printk_ringbuffer =
      at_line 2 struct_size_request (codes "printk_ringbuffer") [] 56 refl (omega arith) refl;
  desc_ring =
      at_line 3 member_offset_request (codes "printk_ringbuffer") (codes "desc_ring") 0 refl
        (omega arith) refl;
  text_data_ring =
      at_line 4 member_offset_request (codes "printk_ringbuffer") (codes "text_data_ring") 0 refl
        (omega arith) refl;
  prb_desc_ring =
      at_line 5 struct_size_request (codes "prb_desc_ring") [] 48 refl (omega arith) refl;
  count_bits =
      at_line 6 member_offset_request (codes "prb_desc_ring") (codes "count_bits") 0 refl
        (omega arith) refl;
  descs =
      at_line 7 member_offset_request (codes "prb_desc_ring") (codes "descs") 8 refl (omega arith)
        refl;
  infos =
      at_line 8 member_offset_request (codes "prb_desc_ring") (codes "infos") 16 refl (omega arith)
        refl;
  head_id =
      at_line 9 member_offset_request (codes "prb_desc_ring") (codes "head_id") 48 refl
        (omega arith) refl;
  tail_id =
      at_line 10 member_offset_request (codes "prb_desc_ring") (codes "tail_id") 40 refl
        (omega arith) refl;
  prb_data_ring =
      at_line 11 struct_size_request (codes "prb_data_ring") [] 32 refl (omega arith) refl;
  size_bits =
      at_line 12 member_offset_request (codes "prb_data_ring") (codes "size_bits") 24 refl
        (omega arith) refl;
  data_ptr =
      at_line 13 member_offset_request (codes "prb_data_ring") (codes "data") 32 refl (omega arith)
        refl;
}
