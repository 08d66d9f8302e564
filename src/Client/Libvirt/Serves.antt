-- ===== src/Client/Libvirt/Serves.antt =====
-- The libvirt client serves the guest's memory, if the monitor prints it as QEMU's `xp` does.
use kvm_dmesg.Base.{
  ℕ, zero, suc, ◌+◌, ◌*◌, ◌/◌, ◌%◌, ◌^◌, ◌≤◌, ◌<◌, ◌≡◌, refl, sym, ap, ap₂, ◌∙◌, some, List, [],
  ◌∷◌, ◌++◌, arith, le→ltb, length, take, drop, length-append, take_all, take-append_le,
}
use kvm_dmesg.Base.Bytes.{Bytes, le, encode}
use kvm_dmesg.Base.Run.{ok, ◌>>=◌}
use kvm_dmesg.Base.Word.{pos, u64}
use kvm_dmesg.Client.Libvirt.{
  Monitor, Malloc, store_lines, xp_words, roundup_4, libvirt_dump_phy_memory, copied,
  libvirt_readmem_part, libvirt_readmem, libvirt_client,
}
use kvm_dmesg.Client.Libvirt.Memory.{dump_text, strtok_lines-dump_text, encodes, store_lines-next}
use kvm_dmesg.Client.Steps.{readmem_in_steps-slice, slice_wraps, slice-append}
use kvm_dmesg.Guest.Translate.{Image, slice, length-slice, take-slice, Serves}
use kvm_dmesg.Machine.{Machine}
use kvm_dmesg.Paging.Walk.{IsImage}
use kvm_dmesg.Text.{codes}
use kvm_dmesg.Text.Decimal.{dec, length-dec}
use kvm_dmesg.Text.Hex.{hex, length-hex}
use kvm_dmesg.Text.Lines.{dump_values, AllLines, DumpLine}
use kvm_dmesg.Text.Scan.{strtok_lines}

-- The 32-bit words from an address on.
abbrev pub words_at : Image → ℕ → ℕ → List ℕ
words_at mem a zero = []
words_at mem a (suc n) = le (slice mem a 4) ∷ words_at mem (a + 4) n

-- What the monitor prints of `n` words: lines of at most four numbers of eight digits.
pub record Printed (mem : Image) (monitor : Monitor) (n addr : ℕ) : Type 0 where
  pub lines : List DumpLine
  pub formed : AllLines 8 4 lines
  pub values : dump_values lines ≡ words_at mem addr n
  pub answer : monitor (xp_words n addr) ≡ some (dump_text 8 lines)

-- malloc has room, and the monitor prints what the guest's memory holds, which are bytes at
-- addresses of 64 bits.
pub record PrintsMemory (mem : Image) (monitor : Monitor) (malloc : Malloc) : Type 0 where
  pub bytes : IsImage mem
  pub wraps : (a : ℕ) → mem (a % 2 ^ 64) ≡ mem a
  pub room : (n : ℕ) → n ≤ 16384 → (object : Bytes) × (malloc n ≡ some object) × (length object ≡ n)
  pub prints : (n addr : ℕ) → 0 < n → n ≤ 1024 → addr < 2 ^ 64 → Printed mem monitor n addr

encode-le : (mem : Image) → IsImage mem → (w a : ℕ) → encode w (le (slice mem a w)) ≡ slice mem a w
unfolding encode le
encode-le mem bytes zero a = refl
encode-le mem bytes (suc w) a =
    let rest : ℕ = le (slice mem (a + 1) w) in
    let low : (mem a + 256 * rest) % 256 ≡ mem a = omega (arith, bytes a) in
    let high : (mem a + 256 * rest) / 256 ≡ rest = omega (arith, bytes a) in
    rw (low, high, encode-le mem bytes w (a + 1))

encodes-words_at :
    (mem : Image) → IsImage mem → (a n : ℕ) → encodes (words_at mem a n) ≡ slice mem a (4 * n)
encodes-words_at mem bytes a zero = refl
encodes-words_at mem bytes a (suc n) =
    ap₂ (λ (s t : Bytes). s ++ t) (encode-le mem bytes 4 a) (encodes-words_at mem bytes (a + 4) n)
    ∙ sym (slice-append mem a 4 (4 * n))
    ∙ ap (slice mem a) (omega arith)

length-words_at : (mem : Image) (a n : ℕ) → length (words_at mem a n) ≡ n
length-words_at mem a zero = refl
length-words_at mem a (suc n) = ap suc (length-words_at mem (a + 4) n)

-- The command fits into 63 bytes.
xp_words_fits : (n addr : ℕ) → n < 2 ^ 64 → take 63 (xp_words n addr) ≡ xp_words n addr
xp_words_fits n addr h = take_all 63 (xp_words n addr) (
    omega (
      arith,
      length-append (codes "xp /") (dec n ++ (codes "xw 0x" ++ hex addr)),
      length-append (dec n) (codes "xw 0x" ++ hex addr),
      length-append (codes "xw 0x") (hex addr),
      length-dec n h,
      length-hex addr,
    ))

module _ (mem : Image) (monitor : Monitor) (malloc : Malloc)
    (p : PrintsMemory mem monitor malloc) where
  stored :
      (n addr : ℕ) (object : Bytes) (d : Printed mem monitor n addr)
      → 4 * n ≤ length object
      → store_lines (strtok_lines (dump_text 8 d.lines)) 0 object
        ≡ ok (slice mem addr (4 * n) ++ drop (4 * n) object)
  stored n addr object d room =
      let size : length (dump_values d.lines) ≡ n =
        ap length d.values ∙ length-words_at mem addr n in
      ap (λ (ls : List Bytes). store_lines ls 0 object)
        (strtok_lines-dump_text 8 4 d.lines d.formed)
      ∙ store_lines-next [] object 0 d.lines refl (omega (arith, size, room)) d.formed
      ∙ ap₂ (λ (s : Bytes) (k : ℕ). ok (s ++ drop (4 * k) object))
          (ap encodes d.values ∙ encodes-words_at mem p.bytes addr n) size

  dump_lem :
      (addr size n : ℕ)
      → n ≡ roundup_4 size / 4
      → addr < 2 ^ 64
      → 0 < size
      → size ≤ 4096
      → (rest : Bytes) × (libvirt_dump_phy_memory monitor malloc addr size
          ≡ ok (some (slice mem addr (4 * n) ++ rest)))
  unfolding libvirt_dump_phy_memory
  dump_lem addr size n words fits some_bytes few =
      let (object, got, full) = p.room (1024 + roundup_4 size * 2) (omega arith) in
      let d = p.prints n addr (omega arith) (omega arith) fits in
      let command =
        ap (λ (k : ℕ). monitor (take 63 (xp_words k addr))) (sym words)
        ∙ ap monitor (xp_words_fits n addr (omega arith))
        ∙ d.answer in
      let store = stored n addr object d (omega (arith, full, words)) in
      (drop (4 * n) object, rw (command, libvirt_dump_phy_memory, got, store, ◌>>=◌))

  copied_lem :
      (addr size n : ℕ) (rest : Bytes)
      → size ≤ 4 * n
      → copied size (some (slice mem addr (4 * n) ++ rest)) ≡ ok (some (slice mem addr size))
  unfolding copied
  copied_lem addr size n rest h =
      let s : Bytes = slice mem addr (4 * n) in
      let long : length s ≡ 4 * n = length-slice mem addr (4 * n) in
      rw (le→ltb (length (s ++ rest)) size (omega (arith, length-append s rest, long))) (
        ap (λ (t : Bytes). ok (some t))
          (take-append_le size s rest (omega (arith, long)) ∙ take-slice mem size addr (4 * n) h))

  part_lem :
      (addr : ℕ) (buf : Bytes)
      → addr < 2 ^ 64
      → 0 < length buf
      → length buf ≤ 4096
      → libvirt_readmem_part monitor malloc addr buf ≡ ok (some (slice mem addr (length buf)))
  unfolding libvirt_readmem_part
  part_lem addr buf fits some_bytes few =
      let size : ℕ = length buf in
      let n : ℕ = roundup_4 size / 4 in
      let (rest, run) = dump_lem addr size n refl fits some_bytes few in
      rw run (copied_lem addr size n rest (omega arith))

pub libvirt_readmem-slice :
    (mem : Image) (monitor : Monitor) (malloc : Malloc) (a : ℕ) (buf : Bytes)
    → PrintsMemory mem monitor malloc
    → libvirt_readmem monitor malloc a buf ≡ ok (pos 0, slice mem a (length buf))
unfolding libvirt_readmem
libvirt_readmem-slice mem monitor malloc a buf p =
    readmem_in_steps-slice mem (libvirt_readmem_part monitor malloc) (u64 a) buf
      (record { reads = part_lem mem monitor malloc p; wraps = p.wraps }) (omega arith)
    ∙ ap (λ (t : Bytes). ok (pos 0, t))
        (slice_wraps mem p.wraps (u64 a) a (length buf) (omega arith))

-- If malloc has room, and the monitor answers each `xp` with the words of memory as QEMU prints
-- them, then the client of libvirt serves the guest's memory: every read, of any size and at any
-- address, succeeds and fills the buffer with the bytes of memory.
pub libvirt_client-Serves :
    (mem : Image) (monitor : Monitor) (malloc : Malloc) (m : Machine)
    → PrintsMemory mem monitor malloc
    → Serves mem (record m { client = some (libvirt_client monitor malloc) })
libvirt_client-Serves mem monitor malloc m p = record {
  client = libvirt_client monitor malloc;
  chosen = refl;
  reads = λ a buf. libvirt_readmem-slice mem monitor malloc a buf p;
}
