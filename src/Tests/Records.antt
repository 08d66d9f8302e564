-- ===== src/Tests/Records.antt =====
-- main on a guest that libvirt reaches, with a log of two records, in a kernel that is 0x1000 bytes from where it
-- was linked and has its own page offset.
use kvm_dmesg.Base.{◌*◌, ◌/◌, ◌≡◌, refl, true, [], ◌∷◌, ◌++◌, some, none, arith, replicate}
use mathlib.Core.Option.{or_else}
use kvm_dmesg.Base.Bytes.{Bytes, encode, le}
use kvm_dmesg.Base.Run.{ok}
use kvm_dmesg.Base.Word.{pos}
use kvm_dmesg.Client.Libvirt.{libvirt_client}
use kvm_dmesg.Client.Life.Round.{fresh}
use kvm_dmesg.Guest.Translate.{Image, slice}
use kvm_dmesg.Log.Loop.{entry_lines, entries_onto}
use kvm_dmesg.Log.Records.{log_bytes}
use kvm_dmesg.Machine.{guest_name}
use kvm_dmesg.Main.{text_within, access_type}
use kvm_dmesg.Main.Guests.{IsLocatable}
use kvm_dmesg.Main.Kernel.{place, kernel_in}
use kvm_dmesg.Main.Locate.{kaslr_in, idt_table_in}
use kvm_dmesg.Main.Records.{HasRecords, IsRecordGuest, run_main-entries}
use kvm_dmesg.Main.Whole.{hold_map, run_main}
use kvm_dmesg.Paging.Walk.{IsMapped}
use kvm_dmesg.Symbols.{streq, symbol_needed}
use kvm_dmesg.Symbols.Load.{first_address}
use kvm_dmesg.Symbols.Map.{fgets_lines, scan_line}
use kvm_dmesg.Tests.Domain.{
  image_of, all_bytes, image_of-IsImage, printer_of, registers, files, guest_world, guest_machine,
  chosen, map_contents, guest-IsStarted, guest-Reaches,
}
use kvm_dmesg.Tests.Log.{
  first_entry, second_entry, entry-IsLogEntry, second-IsLogEntry, straight, zeros-IsAllocated,
}
use kvm_dmesg.Tests.Libvirt.{allocator}
use kvm_dmesg.Tests.Main.{memory, memory-IsSized}
use kvm_dmesg.Tests.Symbols.{line}
use kvm_dmesg.Text.{codes}
use kvm_dmesg.Text.Scan.{c_str, skip_space, token, hex_value, hex_digits, scan_lx}

-- The page offset, the four variables, and the buffer; 84 bytes.
unfoldable front : Bytes
unfolding log_bytes encode
front =
    encode 8 0xffff_8880_0000_0000
    ++ (encode 4 0
        ++ (encode 4 40 ++ (encode 4 56 ++ (encode 8 0xffff_8880_0000_001c ++ straight))))

abbrev image : Image
image = image_of 84 front

front_bytes : all_bytes front ≡ true
unfolding front
front_bytes = refl

-- The addresses are 0x1000 below those of the guest.
abbrev system_map : Bytes
system_map =
    line (codes "abababababab9bab T asm_exc_divide_error")
    ++ (line (codes "ffffffff82000000 D idt_table")
        ++ (line (codes "ffff87fffffff000 D page_offset_base")
            ++ (line (codes "ffff887ffffff008 D log_first_idx")
                ++ (line (codes "ffff887ffffff00c D log_next_idx")
                    ++ (line (codes "ffff887ffffff010 D log_buf_len")
                        ++ line (codes "ffff887ffffff014 D log_buf"))))))

reading : Unit {0}
unfolding streq symbol_needed fgets_lines c_str skip_space token hex_value hex_digits scan_lx
    scan_line first_address or_else le front
reading = tt

offset : kaslr_in image registers system_map ≡ 0x1000
unfolding reading
offset = refl

idt_linked : idt_table_in system_map ≡ 0xffff_ffff_8200_0000
unfolding reading
idt_linked = refl

kernel_page_offset : (kernel_in image registers system_map).page_offset ≡ 0xffff_8880_0000_0000
unfolding reading
kernel_page_offset = refl

registers-IsMapped : IsMapped image (registers.cr3 / 8192 * 8192) registers.idtr
unfolding le front
registers-IsMapped = record {
  pud_there = λ e. absurd (omega (arith, e));
  pmd_there = λ e. absurd (omega (arith, e));
  ptbl_there = λ e. absurd (omega (arith, e));
}

image-IsLocatable : IsLocatable image memory registers system_map
image-IsLocatable = record {
  bytes = image_of-IsImage 84 front front_bytes;
  sized = memory-IsSized;
  mapped = registers-IsMapped;
  high = rw (offset, idt_linked) (omega arith);
}

image-HasRecords :
    HasRecords image system_map (kernel_in image registers system_map) 0 40 56 0xffff_8880_0000_001c
unfolding reading
image-HasRecords = record {
  no_prb = refl;
  first_there = (0xffff_887f_ffff_f008, refl, refl);
  next_there = (0xffff_887f_ffff_f00c, refl, refl);
  len_there = (0xffff_887f_ffff_f010, refl, refl);
  addr_there = (0xffff_887f_ffff_f014, refl, refl);
  small = omega arith;
}

records_stand :
    slice image (place (kernel_in image registers system_map) 0xffff_8880_0000_001c) 56
    ≡ entries_onto (first_entry ∷ second_entry ∷ []) (replicate 16 0)
unfolding reading log_bytes encode
records_stand = refl

image-IsRecordGuest :
    IsRecordGuest image memory registers system_map 0 56 0xffff_8880_0000_001c
      (first_entry ∷ second_entry ∷ [])
image-IsRecordGuest = record {
  locatable = image-IsLocatable;
  cr3_fits = omega arith;
  log = image-HasRecords;
  allocated = zeros-IsAllocated;
  formed = (entry-IsLogEntry 1_000_000_000 (omega arith), (second-IsLogEntry, tt));
  behind = replicate 16 0;
  stands = records_stand;
  room = omega arith;
}

text_map : text_within 1024 system_map ≡ true
unfolding text_within
text_map = refl

run_main-entries_example :
    run_main
      (guest_world image)
      memory
      (files system_map)
      (guest_machine image 0)
      (codes "vm1" ∷ codes "m" ∷ [])
    ≡ ok (record {
      status = pos 0;
      dumped = some (entry_lines (first_entry ∷ second_entry ∷ []), none);
      handles = hold_map (some system_map) fresh;
    })
unfolding access_type streq
run_main-entries_example =
    run_main-entries (guest_world image) memory (files system_map) (guest_machine image 0)
      (codes "vm1") (codes "m") (codes "m") (codes "vm1") system_map guest_name
      (libvirt_client (printer_of image) allocator) image registers 0 56 0xffff_8880_0000_001c
      (first_entry ∷ second_entry ∷ []) (chosen system_map text_map) refl (map_contents system_map)
      (guest-Reaches image) (guest-IsStarted 84 front 1 front_bytes) image-IsRecordGuest
