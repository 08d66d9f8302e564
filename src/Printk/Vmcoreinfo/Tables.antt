-- ===== src/Printk/Vmcoreinfo/Tables.antt =====
-- vmcoreinfo_init on a guest whose vmcoreinfo has all the keys that it asks for.
use kvm_dmesg.Base.{
  ℕ, ◌+◌, ◌≤◌, ◌%◌, ◌^◌, ◌<◌, ◌≡◌, ap, sym, ◌∙◌, some, [], ◌∷◌, ◌++◌, arith, length, take, drop,
  take-append, length-replicate,
}
use kvm_dmesg.Base.Bits.{bit_and_low}
use kvm_dmesg.Base.Bytes.{Bytes}
use kvm_dmesg.Base.Run.{ok}
use kvm_dmesg.Base.Word.{u32}
use kvm_dmesg.Guest.{kvaddr, paddr_of}
use kvm_dmesg.Guest.Translate.{Image, slice, length-slice, Serves, readmem_room}
use kvm_dmesg.Log.Dump.{Variable}
use kvm_dmesg.Machine.{Machine, SizeTable, OffsetTable}
use kvm_dmesg.Printk.Vmcoreinfo.{
  Request, struct_size_request, member_offset_request, datatype_info, vmcoreinfo_tables,
  vmcoreinfo_parse, vmcoreinfo_init,
}
use kvm_dmesg.Printk.Vmcoreinfo.Missing.{search_key}
use kvm_dmesg.Printk.Vmcoreinfo.Value.{key_line, datatype_info-dec}
use kvm_dmesg.Symbols.Data.{get_symbol_data-slice}
use kvm_dmesg.Text.{codes}
use kvm_dmesg.Text.Search.{IsFirst}
use kvm_dmesg.Xutil.{xmalloc}

-- A text has a key and a value, printed in decimal, on one line, and nothing like the key in front.
pub record HasKey (text : Bytes) (datatype : Request) (name member : Bytes) (value : ℕ)
    : Type 0 where
  pub pre : Bytes
  pub post : Bytes
  pub cut : text ≡ pre ++ key_line datatype name member value post
  pub fits : value < 2 ^ 63
  pub first :
      IsFirst (search_key datatype name member) pre (key_line datatype name member value post)

abbrev HasSize : Bytes → Bytes → ℕ → Type 0
HasSize text name value = HasKey text struct_size_request name [] value

abbrev HasOffset : Bytes → Bytes → Bytes → ℕ → Type 0
HasOffset text name member value = HasKey text member_offset_request name member value

-- A text has all the sizes and offsets.
pub record Describes (text : Bytes) (s : SizeTable) (o : OffsetTable) : Type 0 where
  pub printk_info : HasSize text (codes "printk_info") s.printk_info
  pub prb_desc : HasSize text (codes "prb_desc") s.prb_desc
  pub printk_ringbuffer : HasSize text (codes "printk_ringbuffer") s.printk_ringbuffer
  pub desc_ring : HasOffset text (codes "printk_ringbuffer") (codes "desc_ring") o.prb_desc_ring
  pub text_data_ring :
      HasOffset text (codes "printk_ringbuffer") (codes "text_data_ring") o.prb_text_data_ring
  pub prb_desc_ring : HasSize text (codes "prb_desc_ring") s.prb_desc_ring
  pub count_bits :
      HasOffset text (codes "prb_desc_ring") (codes "count_bits") o.prb_desc_ring_count_bits
  pub descs : HasOffset text (codes "prb_desc_ring") (codes "descs") o.prb_desc_ring_descs
  pub infos : HasOffset text (codes "prb_desc_ring") (codes "infos") o.prb_desc_ring_infos
  pub head_id : HasOffset text (codes "prb_desc_ring") (codes "head_id") o.prb_desc_ring_head_id
  pub tail_id : HasOffset text (codes "prb_desc_ring") (codes "tail_id") o.prb_desc_ring_tail_id
  pub prb_data_ring : HasSize text (codes "prb_data_ring") s.prb_data_ring
  pub size_bits :
      HasOffset text (codes "prb_data_ring") (codes "size_bits") o.prb_data_ring_size_bits
  pub data_ptr : HasOffset text (codes "prb_data_ring") (codes "data") o.prb_data_ring_data

key_lem :
    (text : Bytes) (datatype : Request) (name member : Bytes) (value : ℕ)
    → HasKey text datatype name member value
    → datatype_info text name member datatype ≡ ok value
key_lem text datatype name member value h =
    ap (λ (t : Bytes). datatype_info t name member datatype) h.cut
    ∙ datatype_info-dec h.pre name member h.post datatype value h.fits h.first

tables_lem :
    (text : Bytes) (s : SizeTable) (o : OffsetTable)
    → Describes text s o
    → vmcoreinfo_tables text ≡ ok (s, o)
unfolding vmcoreinfo_tables
tables_lem text s o d = rw (
  key_lem text _ _ _ _ d.printk_info,
  key_lem text _ _ _ _ d.prb_desc,
  key_lem text _ _ _ _ d.printk_ringbuffer,
  key_lem text _ _ _ _ d.desc_ring,
  key_lem text _ _ _ _ d.text_data_ring,
  key_lem text _ _ _ _ d.prb_desc_ring,
  key_lem text _ _ _ _ d.count_bits,
  key_lem text _ _ _ _ d.descs,
  key_lem text _ _ _ _ d.infos,
  key_lem text _ _ _ _ d.head_id,
  key_lem text _ _ _ _ d.tail_id,
  key_lem text _ _ _ _ d.prb_data_ring,
  key_lem text _ _ _ _ d.size_bits,
  key_lem text _ _ _ _ d.data_ptr,
)

-- With a client that serves the guest's memory, a vmcoreinfo of less than 8 KiB with all the keys is
-- read into the tables.
pub vmcoreinfo_init-Describes :
    (image : Image) (m : Machine) (size_local data_local : Bytes) (size addr : ℕ) (s : SizeTable)
    (o : OffsetTable)
    → Serves image m
    → length size_local ≡ 8
    → length data_local ≡ 8
    → m.debug ≡ 1
    → Variable image m (codes "vmcoreinfo_size") 8 size
    → Variable image m (codes "vmcoreinfo_data") 8 addr
    → size < 2 ^ 13
    → Describes (slice image (paddr_of m addr kvaddr) size ++ b'\n' ∷ []) s o
    → vmcoreinfo_init size_local data_local m
      ≡ ok (record m { size_table = s; offset_table = o }, [])
unfolding vmcoreinfo_init vmcoreinfo_parse
vmcoreinfo_init-Describes image m size_local data_local size addr s o serves room data_room debug
      (a, p, e) (b, q, f) small d =
    let masked : size % 2 ^ 13 ≡ size = omega arith in
    let text : Bytes = slice image (paddr_of m addr kvaddr) size in
    let buf : Bytes = xmalloc (size + 1) in
    let fits : size ≤ length buf = omega (arith, length-replicate {A = ℕ} (u32 (size + 1)) 0) in
    let whole : take size (text ++ drop size buf) ≡ text =
      ap (λ (n : ℕ). take n (text ++ drop size buf)) (sym (length-slice image _ size))
      ∙ take-append text (drop size buf) in
    rw (
      get_symbol_data-slice image m (codes "vmcoreinfo_size") 8 size_local (some a) serves room p,
      e,
      bit_and_low 13 size,
      masked,
      get_symbol_data-slice image m (codes "vmcoreinfo_data") 8 data_local (some b) serves data_room
          q,
      f,
      readmem_room image m addr kvaddr size buf serves fits,
      whole,
      tables_lem (text ++ b'\n' ∷ []) s o d,
      debug,
    )
