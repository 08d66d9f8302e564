-- ===== src/Tests/Whole.antt =====
-- main on a guest that libvirt reaches, with the lockless log of the tests of the ring, in a kernel that is 0x1000
-- bytes from where it was linked and has its own page offset.
use kvm_dmesg.Base.{◌*◌, ◌/◌, ◌≡◌, refl, true, [], ◌∷◌, ◌++◌, some, none, arith}
use mathlib.Core.Option.{or_else}
use kvm_dmesg.Base.Bytes.{Bytes, encode, le, load}
use kvm_dmesg.Base.Run.{ok}
use kvm_dmesg.Base.Word.{pos}
use kvm_dmesg.Client.Libvirt.{libvirt_client}
use kvm_dmesg.Client.Life.Round.{fresh}
use kvm_dmesg.Guest.Translate.{Image, slice}
use kvm_dmesg.Machine.{Machine, guest_name}
use kvm_dmesg.Main.{access_type, text_within}
use kvm_dmesg.Main.Guests.{IsLocatable}
use kvm_dmesg.Main.Kernel.{Kernel, place, kernel_in}
use kvm_dmesg.Main.Locate.{kaslr_in, idt_table_in}
use kvm_dmesg.Main.Ring.{Ring, HasRing, ring_in, lines_in, with_tables, run_main-ring_lines}
use kvm_dmesg.Main.Whole.{with_debug, hold_map, run_main}
use kvm_dmesg.Paging.Walk.{IsMapped}
use kvm_dmesg.Printk.Layout.{prb_desc_bytes, printk_info_bytes}
use kvm_dmesg.Base.Bytes.{array}
use kvm_dmesg.Printk.Lockless.Copies.{IsPrb}
use kvm_dmesg.Printk.Record.Show.{Holds}
use kvm_dmesg.Printk.Ring.Lines.{IsRing}
use kvm_dmesg.Symbols.{streq, symbol_needed}
use kvm_dmesg.Symbols.Load.{first_address}
use kvm_dmesg.Symbols.Map.{fgets_lines, scan_line}
use kvm_dmesg.Tests.Domain.{
  image_of, all_bytes, image_of-IsImage, printer_of, registers, files, guest_world, guest_machine,
  chosen, map_contents, guest-IsStarted, guest-Reaches,
}
use kvm_dmesg.Tests.Info.{info_text, sizes, offsets, info_text-Describes}
use kvm_dmesg.Tests.Libvirt.{allocator}
use kvm_dmesg.Tests.Main.{memory, memory-IsSized}
use kvm_dmesg.Tests.Ring.{
  free_desc, desc, info, text, free_desc-IsPrbDesc, desc-IsPrbDesc, info-IsPrintkInfo,
}
use kvm_dmesg.Tests.Symbols.{line}
use kvm_dmesg.Text.{codes}
use kvm_dmesg.Text.Scan.{c_str, skip_space, token, hex_value, hex_digits, scan_lx}

-- The page offset, the three variables, the control block, the arrays and vmcoreinfo.
unfoldable front : Bytes
unfolding array prb_desc_bytes printk_info_bytes encode info_text
front =
    encode 8 0xffff_8880_0000_0000
    ++ (encode 8 419
        ++ (encode 8 0xffff_8880_0000_0148
            ++ (encode 8 0xffff_8880_0000_0020
                ++ (encode 8 1
                    ++ (encode 8 0xffff_8880_0000_0058
                        ++ (encode 8 0xffff_8880_0000_0088
                            ++ (encode 8 4
                                ++ (encode 8 0xffff_8880_0000_0138
                                    ++ (encode 8 6
                                        ++ (encode 8 7
                                            ++ (array prb_desc_bytes 24 (free_desc ∷ desc ∷ [])
                                                ++ (array printk_info_bytes 88 (info ∷ info ∷ [])
                                                    ++ (text ++ info_text)))))))))))))

abbrev image : Image
image = image_of 748 front

front_bytes : all_bytes front ≡ true
unfolding front
front_bytes = refl

-- The addresses are 0x1000 below those of the guest.
abbrev system_map : Bytes
system_map =
    line (codes "abababababab9bab T asm_exc_divide_error")
    ++ (line (codes "ffffffff82000000 D idt_table")
        ++ (line (codes "ffff87fffffff000 D page_offset_base")
            ++ (line (codes "ffff887ffffff008 D vmcoreinfo_size")
                ++ (line (codes "ffff887ffffff010 D vmcoreinfo_data")
                    ++ line (codes "ffff887ffffff018 D prb")))))

reading : Unit {0}
unfolding streq symbol_needed fgets_lines c_str skip_space token hex_value hex_digits scan_lx
    scan_line first_address or_else le front
reading = tt

offset : kaslr_in image registers system_map ≡ 0x1000
unfolding reading
offset = refl

idt_linked : idt_table_in system_map ≡ 0xffff_ffff_8200_0000
unfolding reading
idt_linked = refl

registers-IsMapped : IsMapped image (registers.cr3 / 8192 * 8192) registers.idtr
unfolding le front
registers-IsMapped = record {
  pud_there = λ e. absurd (omega (arith, e));
  pmd_there = λ e. absurd (omega (arith, e));
  ptbl_there = λ e. absurd (omega (arith, e));
}

image-IsLocatable : IsLocatable image memory registers system_map
image-IsLocatable = record {
  bytes = image_of-IsImage 748 front front_bytes;
  sized = memory-IsSized;
  mapped = registers-IsMapped;
  high = rw (offset, idt_linked) (omega arith);
}

abbrev kernel : Kernel
kernel = kernel_in image registers system_map

text_stands : slice image (place kernel 0xffff_8880_0000_0148) 419 ++ b'\n' ∷ [] ≡ info_text
unfolding reading
text_stands = refl

abbrev ring : Ring
ring = record {
  count_bits = 1;
  size_bits = 4;
  descs = 0xffff_8880_0000_0058;
  infos = 0xffff_8880_0000_0088;
  text = 0xffff_8880_0000_0138;
  tail = 6;
  head = 7;
}

-- The state with the client.
abbrev machine : Machine
machine = record (with_debug (guest_machine image 0)) {
  client = some (libvirt_client (printer_of image) allocator);
}

block_there :
    IsPrb
      (with_tables machine sizes offsets)
      (slice image (place kernel 0xffff_8880_0000_0020) 56)
      1
      4
      0xffff_8880_0000_0058
      0xffff_8880_0000_0088
      0xffff_8880_0000_0138
      6
      7
unfolding reading load
block_there = record {
  count_bits_at = refl;
  descs_at = refl;
  infos_at = refl;
  size_bits_at = refl;
  text_at = refl;
  tail_at = refl;
  head_at = refl;
  count_fits = omega arith;
  size_fits = omega arith;
  descs_small = omega arith;
  infos_small = omega arith;
}

arrays_hold :
    Holds
      (free_desc ∷ desc ∷ [])
      (info ∷ info ∷ [])
      (ring_in image kernel sizes offsets 0xffff_8880_0000_0020 ring)
unfolding reading array prb_desc_bytes printk_info_bytes encode
arrays_hold = record {
  some_slot = omega arith;
  descs_hold = refl;
  infos_hold = refl;
  some_text = omega arith;
  small = omega arith;
  text_holds = refl;
}

ring-IsRing :
    IsRing
      (free_desc ∷ desc ∷ [])
      (info ∷ info ∷ [])
      (ring_in image kernel sizes offsets 0xffff_8880_0000_0020 ring)
ring-IsRing = record {
  holds = arrays_hold;
  desc_count = refl;
  info_count = refl;
  descs_fit = (free_desc-IsPrbDesc, (desc-IsPrbDesc, tt));
  infos_fit = (info-IsPrintkInfo, (info-IsPrintkInfo, tt));
  blocks = (λ apart. omega arith, (λ apart. omega arith, tt));
}

image-HasRing :
    HasRing image system_map kernel machine sizes offsets 0xffff_8880_0000_0020 ring
      (free_desc ∷ desc ∷ [])
      (info ∷ info ∷ [])
unfolding reading
image-HasRing = record {
  info_size = 419;
  info_addr = 0xffff_8880_0000_0148;
  size_there = (0xffff_887f_ffff_f008, refl, refl);
  data_there = (0xffff_887f_ffff_f010, refl, refl);
  small = omega arith;
  described = rw text_stands info_text-Describes;
  prb_there = (0xffff_887f_ffff_f018, refl, refl);
  prb_small = omega arith;
  block = block_there;
  arrays = ring-IsRing;
  tail_fits = omega arith;
  head_fits = omega arith;
}

text_map : text_within 1024 system_map ≡ true
unfolding text_within
text_map = refl

run_main-ring_lines_example :
    run_main
      (guest_world image)
      memory
      (files system_map)
      (guest_machine image 0)
      (codes "vm1" ∷ codes "m" ∷ [])
    ≡ ok (record {
      status = pos 0;
      dumped = some (
        lines_in image kernel sizes offsets 0xffff_8880_0000_0020 ring
            (free_desc ∷ desc ∷ [])
            (info ∷ info ∷ []),
        none,
      );
      handles = hold_map (some system_map) fresh;
    })
unfolding access_type streq
run_main-ring_lines_example =
    run_main-ring_lines (guest_world image) memory (files system_map) (guest_machine image 0)
      (codes "vm1") (codes "m") (codes "m") (codes "vm1") system_map guest_name
      (libvirt_client (printer_of image) allocator) image registers sizes offsets
      0xffff_8880_0000_0020 ring (free_desc ∷ desc ∷ []) (info ∷ info ∷ [])
      (chosen system_map text_map) refl (map_contents system_map) (guest-Reaches image)
      (guest-IsStarted 748 front 1 front_bytes)
      (record {
        locatable = image-IsLocatable;
        cr3_fits = omega arith;
        has_ring = image-HasRing;
        local = refl;
        size_local = refl;
        data_local = refl;
        blank = refl;
      })
