-- ===== src/Tests/Ring.antt =====
-- A ring of two slots, of which the second holds a record, in a guest's memory.
use kvm_dmesg.Base.{◌+◌, ◌*◌, ◌^◌, ◌≡◌, ◌-◌, if◌then◌else◌, refl, [], ◌∷◌, ◌++◌, replicate, arith}
use kvm_dmesg.Base.Bytes.{Bytes, byte_at, encode, array, load, le}
use kvm_dmesg.Base.Run.{ok, fault}
use kvm_dmesg.Guest.{readmem, paddr_of}
use kvm_dmesg.Guest.Translate.{Image, Serves}
use kvm_dmesg.Machine.{Machine}
use kvm_dmesg.Printk.Layout.{
  PrbDesc, PrintkInfo, prb_desc_bytes, printk_info_bytes, IsPrbDesc, IsPrintkInfo,
}
use kvm_dmesg.Printk.Lockless.{shl_int, dump_copied, dump_prb, copy_in}
use kvm_dmesg.Printk.Lockless.Copies.{IsPrb, copied_map, dump_prb-ring_lines, copy_in_overflows}
use kvm_dmesg.Printk.Record.{dump_text, dump_readable, PrbMap, dump_record}
use kvm_dmesg.Printk.Record.Overread.{dump_record_overreads}
use kvm_dmesg.Printk.Record.Show.{Holds, InSlot, record_line, dump_record-record_line}
use kvm_dmesg.Printk.Ring.{ring_next, dump_ring, ring_loop, ring_fuel}
use kvm_dmesg.Printk.Ring.Lines.{IsRing, ring_lines}
use kvm_dmesg.Printk.Ring.Order.{ring_ids, ring_distance, dump_ids, dump_ring-ids}
use kvm_dmesg.Printk.State.{get_desc_state, is_readable, state_matches, get_desc_state_lem}
use kvm_dmesg.Text.{codes, put_text, put_char}
use kvm_dmesg.Text.Decimal.{dec_digits, dec, pad, micros, stamp}
use kvm_dmesg.Tests.Guests.{memory, started, started-Serves, no_registers, client}
use kvm_dmesg.Tests.Paging.{tables, tables-IsImage}

-- The ID 7 in its slot, committed, with eight bytes of ID and two of text from byte 4 on.
abbrev pub free_desc : PrbDesc
free_desc = record { state_var = 3 * 2 ^ 62 + 6; begin = 0; next = 0 }

abbrev pub desc : PrbDesc
desc = record { state_var = 2 ^ 62 + 7; begin = 4; next = 14 }

abbrev pub info : PrintkInfo
info = record {
  seq = 0;
  ts_nsec = 1_002_003_000;
  text_len = 2;
  facility = 0;
  flags_level = 0;
  caller_id = 0;
  dev_info = 0;
}

abbrev pub text : Bytes
text = replicate 12 0 ++ (b'o' ∷ b'k' ∷ 0 ∷ 0 ∷ [])

-- count_bits, descs, infos, size_bits, text, tail_id and head_id.
unfoldable prb : Bytes
unfolding encode
prb =
    encode 8 1
    ++ (encode 8 0 ++ (encode 8 48 ++ (encode 8 4 ++ (encode 8 224 ++ (encode 8 6 ++ encode 8 7)))))

unfoldable ring_memory : Image
unfolding array prb_desc_bytes printk_info_bytes encode
ring_memory = memory (
    array prb_desc_bytes 24 (free_desc ∷ desc ∷ [])
    ++ (array printk_info_bytes 88 (info ∷ info ∷ []) ++ text))

abbrev machine : Machine
machine = record (started ring_memory no_registers 0 0) {
  size_table = record {
    printk_info = 88;
    prb_desc = 24;
    printk_ringbuffer = 56;
    prb_desc_ring = 0;
    prb_data_ring = 0;
  };
  offset_table = record {
    prb_desc_ring = 0;
    prb_text_data_ring = 0;
    prb_desc_ring_count_bits = 0;
    prb_desc_ring_descs = 8;
    prb_desc_ring_infos = 16;
    prb_desc_ring_head_id = 48;
    prb_desc_ring_tail_id = 40;
    prb_data_ring_size_bits = 24;
    prb_data_ring_data = 32;
  };
}

abbrev map : PrbMap
map = copied_map ring_memory machine prb 1 4 0 48 224

prb-IsPrb : IsPrb machine prb 1 4 0 48 224 6 7
unfolding load le prb
prb-IsPrb = record {
  count_bits_at = refl;
  descs_at = refl;
  infos_at = refl;
  size_bits_at = refl;
  text_at = refl;
  tail_at = refl;
  head_at = refl;
  count_fits = omega arith;
  size_fits = omega arith;
  descs_small = omega arith;
  infos_small = omega arith;
}

pub free_desc-IsPrbDesc : IsPrbDesc free_desc
free_desc-IsPrbDesc = record {
  state_var_fits = omega arith;
  begin_fits = omega arith;
  next_fits = omega arith;
}

pub desc-IsPrbDesc : IsPrbDesc desc
desc-IsPrbDesc = record {
  state_var_fits = omega arith;
  begin_fits = omega arith;
  next_fits = omega arith;
}

pub info-IsPrintkInfo : IsPrintkInfo info
info-IsPrintkInfo = record { ts_nsec_fits = omega arith; text_len_fits = omega arith }

map-Holds : Holds (free_desc ∷ desc ∷ []) (info ∷ info ∷ []) map
unfolding paddr_of array prb_desc_bytes printk_info_bytes encode ring_memory
map-Holds = record {
  some_slot = omega arith;
  descs_hold = refl;
  infos_hold = refl;
  some_text = omega arith;
  small = omega arith;
  text_holds = refl;
}

map-IsRing : IsRing (free_desc ∷ desc ∷ []) (info ∷ info ∷ []) map
map-IsRing = record {
  holds = map-Holds;
  desc_count = refl;
  info_count = refl;
  descs_fit = (free_desc-IsPrbDesc, (desc-IsPrbDesc, tt));
  infos_fit = (info-IsPrintkInfo, (info-IsPrintkInfo, tt));
  blocks = (λ apart. omega arith, (λ apart. omega arith, tt));
}

machine-Serves : Serves ring_memory machine
machine-Serves = record {
  client = client ring_memory no_registers;
  chosen = refl;
  reads = λ a buf. refl;
}

dump_prb-ring_lines_example :
    dump_prb machine prb
    ≡ ok (
        ring_lines map
          (free_desc ∷ desc ∷ [])
          (info ∷ info ∷ [])
          (ring_ids (ring_distance 6 7 + 1) 6))
dump_prb-ring_lines_example =
    dump_prb-ring_lines ring_memory machine prb 1 4 0 48 224 6 7 (free_desc ∷ desc ∷ [])
      (info ∷ info ∷ []) machine-Serves prb-IsPrb map-IsRing (omega arith) (omega arith)

program : Unit {0}
unfolding byte_at encode array prb_desc_bytes printk_info_bytes load le prb ring_memory paddr_of
    put_text put_char dec_digits dec pad micros stamp get_desc_state dump_text dump_readable
    dump_record ring_next ring_loop ring_fuel dump_ring shl_int copy_in readmem dump_copied dump_prb
program = tt

-- Only the second slot is committed.
prints : dump_prb machine prb ≡ ok (codes "[    1.002003] ok" ++ b'\n' ∷ [])
unfolding program
prints = refl

-- The last ID is followed by 0.
dump_ring-ids_example :
    dump_ring map (2 ^ 62 - 1) 0
    ≡ dump_ids map (ring_ids (ring_distance (2 ^ 62 - 1) 0 + 1) (2 ^ 62 - 1))
dump_ring-ids_example = dump_ring-ids map (2 ^ 62 - 1) 0 (omega arith) (omega arith)

desc-InSlot : InSlot map 7 desc info
desc-InSlot = record {
  ds = free_desc ∷ desc ∷ [];
  is = info ∷ info ∷ [];
  holds = map-Holds;
  desc_at = refl;
  info_at = refl;
  desc_fits = desc-IsPrbDesc;
  info_fits = info-IsPrintkInfo;
}

dump_record-record_line_example :
    dump_record map 7
    ≡ ok (if state_matches 7 desc.state_var then record_line map desc info else [])
dump_record-record_line_example =
    dump_record-record_line map 7 desc info desc-InSlot (λ apart. omega arith)

get_desc_state_lem_example :
    is_readable (get_desc_state 7 desc.state_var) ≡ state_matches 7 desc.state_var
get_desc_state_lem_example = get_desc_state_lem 7 desc.state_var (omega arith)

copy_in_overflows_example : copy_in (started tables no_registers 0 0) 0 (2 ^ 32) ok ≡ fault
copy_in_overflows_example =
    copy_in_overflows tables (started tables no_registers 0 0) 0 (2 ^ 32) ok
      (started-Serves tables no_registers 0 0) tables-IsImage (omega arith)

-- A block of four bytes, and a record that claims a hundred.
abbrev short_desc : PrbDesc
short_desc = record { state_var = 2 ^ 62 + 7; begin = 4; next = 8 }

abbrev long_info : PrintkInfo
long_info = record info { text_len = 100 }

unfoldable short_map : PrbMap
unfolding array prb_desc_bytes printk_info_bytes encode
short_map = record map {
  descs = array prb_desc_bytes 24 (short_desc ∷ []);
  infos = array printk_info_bytes 88 (long_info ∷ []);
  desc_ring_count = 1;
  text_data = text;
}

short_desc-InSlot : InSlot short_map 7 short_desc long_info
unfolding short_map
short_desc-InSlot = record {
  ds = short_desc ∷ [];
  is = long_info ∷ [];
  holds = record {
    some_slot = omega arith;
    descs_hold = refl;
    infos_hold = refl;
    some_text = omega arith;
    small = omega arith;
    text_holds = refl;
  };
  desc_at = refl;
  info_at = refl;
  desc_fits = record {
    state_var_fits = omega arith;
    begin_fits = omega arith;
    next_fits = omega arith;
  };
  info_fits = record { ts_nsec_fits = omega arith; text_len_fits = omega arith };
}

dump_record_overreads_example : dump_record short_map 7 ≡ fault
unfolding short_map
dump_record_overreads_example =
    dump_record_overreads short_map 7 short_desc long_info short_desc-InSlot refl
      (λ same. absurd (omega arith)) (omega arith) (omega arith) (omega arith)
