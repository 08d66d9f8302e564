-- ===== src/Tests/Domain.antt =====
-- A guest that libvirt reaches, whose memory has some bytes at its front and 0xab from there on.
use native.Mathlib.Nat.{pow-suc}
use kvm_dmesg.Base.{
  ℕ, zero, suc, ◌+◌, ◌-◌, ◌*◌, ◌/◌, ◌%◌, ◌^◌, ◌<◌, ◌≡◌, refl, ap, Bool, true, false, ◌&&◌, none,
  some, [], ◌∷◌, ◌++◌, List, ltb, ◌==◌, if◌then◌else◌, arith, drop, replicate, length-replicate,
}
use kvm_dmesg.Base.Bytes.{Bytes, le}
use kvm_dmesg.Client.Libvirt.{Monitor, xp_words, libvirt_client}
use kvm_dmesg.Client.Libvirt.Memory.{dump_text}
use kvm_dmesg.Client.Libvirt.Serves.{PrintsMemory, words_at}
use kvm_dmesg.Client.Life.{World, libvirt_dlsym}
use kvm_dmesg.Client.Life.Round.{Reaches, by_name}
use kvm_dmesg.Guest.Translate.{Image, slice}
use kvm_dmesg.Machine.{Machine, Registers, guest_name}
use kvm_dmesg.Main.{Files, regular, is_symmap, is_text_file, text_within, choose_files}
use kvm_dmesg.Main.Guests.{PrintsRegisters, libvirt_guest-IsStarted}
use kvm_dmesg.Main.Locate.{IsStarted}
use kvm_dmesg.Paging.Walk.{IsImage, le-slice-lt}
use kvm_dmesg.Symbols.{streq}
use kvm_dmesg.Tests.Guests.{started, no_registers}
use kvm_dmesg.Tests.Libvirt.{
  before_x, before_x_lem, dec_digits-AllDigits, AllDigits, allocator, label-AllFrom, answer,
  idt_last, cr3_last,
}
use kvm_dmesg.Tests.Reached.{world}
use kvm_dmesg.Text.{codes}
use kvm_dmesg.Text.Decimal.{dec, number_from, number_from-dec}
use kvm_dmesg.Text.Hex.{hex, hex_plain, hex_digit}
use kvm_dmesg.Text.Lines.{DumpLine, dump_values, AllLines}
use kvm_dmesg.Text.Search.{is_prefix}

abbrev pub from_front : Bytes → Image
from_front [] a = 0xab
from_front (b ∷ bs) zero = b
from_front (b ∷ bs) (suc a) = from_front bs a

-- The front has `n` bytes; an address is one of 64 bits.
abbrev pub image_of : ℕ → Bytes → Image
image_of n front a = if ltb (a % 2 ^ 64) n then from_front front (a % 2 ^ 64) else 0xab

abbrev pub all_bytes : Bytes → Bool
all_bytes [] = true
all_bytes (b ∷ bs) = ltb b 256 && all_bytes bs

from_front-lt : (bs : Bytes) (a : ℕ) → all_bytes bs ≡ true → from_front bs a < 256
from_front-lt [] a h = omega arith
from_front-lt (b ∷ bs) zero h = ground arith
from_front-lt (b ∷ bs) (suc a) h = from_front-lt bs a (ground arith)

pub image_of-IsImage : (n : ℕ) (front : Bytes) → all_bytes front ≡ true → IsImage (image_of n front)
image_of-IsImage n front all a = let h = from_front-lt front (a % 2 ^ 64) all in ground arith

image_of_wraps :
    (n : ℕ) (front : Bytes) (a : ℕ) → image_of n front (a % 2 ^ 64) ≡ image_of n front a
image_of_wraps n front a = let e : a % 2 ^ 64 % 2 ^ 64 ≡ a % 2 ^ 64 = omega arith in rw e

-- The number of hexadecimal digits.
unfoldable pub read_hex : ℕ → Bytes → ℕ
read_hex acc [] = acc
read_hex acc (c ∷ cs) = read_hex (acc * 16 + (if ltb c b'a' then c - b'0' else c - b'a' + 10)) cs

read_hex-append : (acc : ℕ) (s t : Bytes) → read_hex acc (s ++ t) ≡ read_hex (read_hex acc s) t
unfolding read_hex
read_hex-append acc [] t = refl
read_hex-append acc (c ∷ s) t =
    read_hex-append (acc * 16 + (if ltb c b'a' then c - b'0' else c - b'a' + 10)) s t

read_hex-hex_digit : (acc d : ℕ) → d < 16 → read_hex acc (hex_digit d ∷ []) ≡ acc * 16 + d
unfolding read_hex hex_digit
read_hex-hex_digit acc d h = ground arith

read_hex-hex_plain : (f n : ℕ) → n < 16 ^ f → read_hex 0 (hex_plain f n) ≡ n
unfolding hex_plain read_hex
read_hex-hex_plain zero n h = omega arith
read_hex-hex_plain (suc f) n h =
    let room : n < 16 ^ f * 16 = omega (arith, pow-suc 16 f) in
    ground (
      arith,
      read_hex-append 0 (hex_plain f (n / 16)) (hex_digit (n % 16) ∷ []),
      read_hex-hex_plain f (n / 16) (omega arith),
      read_hex-hex_digit (n / 16) (n % 16) (omega arith),
      read_hex-hex_digit 0 n,
    )

-- What stands behind the first `x` of a command.
unfoldable pub behind_x : Bytes → Bytes
behind_x [] = []
behind_x (c ∷ cs) = if c == b'x' then cs else behind_x cs

behind_x_lem : (s rest : Bytes) → AllDigits s → behind_x (s ++ b'x' ∷ rest) ≡ rest
unfolding behind_x
behind_x_lem [] rest h = refl
behind_x_lem (c ∷ cs) rest (p, h) =
    let other : (c == b'x') ≡ false = ground arith in rw other (behind_x_lem cs rest h)

-- One line for each word.
abbrev pub word_line : Image → ℕ → DumpLine
word_line image addr = record { label = codes "0:"; first = le (slice image addr 4); more = [] }

abbrev pub lines_at : Image → ℕ → ℕ → List DumpLine
lines_at image addr zero = []
lines_at image addr (suc n) = word_line image addr ∷ lines_at image (addr + 4) n

-- The monitor reads the number of words and the address from the command.
abbrev pub printer_of : Image → Monitor
printer_of image command =
    if is_prefix (codes "info") command
    then some answer
    else some (
        dump_text 8 (
          lines_at image (read_hex 0 (drop 4 (behind_x (drop 4 command))))
            (number_from 0 (before_x (drop 4 command)))))

lines_formed : (image : Image) → IsImage image → (addr n : ℕ) → AllLines 8 4 (lines_at image addr n)
lines_formed image bytes addr zero = tt
lines_formed image bytes addr (suc n) = (
  record {
    labelled = omega arith;
    printed = label-AllFrom;
    few = omega arith;
    fits = (omega (arith, le-slice-lt image bytes 4 addr), tt);
  },
  lines_formed image bytes (addr + 4) n,
)

lines_hold :
    (image : Image) (addr n : ℕ) → dump_values (lines_at image addr n) ≡ words_at image addr n
lines_hold image addr zero = refl
lines_hold image addr (suc n) = ap (◌∷◌ (le (slice image addr 4))) (lines_hold image (addr + 4) n)

printer_of_lem :
    (image : Image) (n addr : ℕ)
    → n < 2 ^ 64
    → addr < 2 ^ 64
    → printer_of image (xp_words n addr) ≡ some (dump_text 8 (lines_at image addr n))
unfolding dec hex is_prefix
printer_of_lem image n addr h g = rw (
  before_x_lem (dec n) (codes "w 0x" ++ hex addr) (dec_digits-AllDigits 20 n),
  behind_x_lem (dec n) (codes "w 0x" ++ hex addr) (dec_digits-AllDigits 20 n),
  number_from-dec n h,
  read_hex-hex_plain 16 addr (omega arith),
)

printer_of-PrintsMemory :
    (n : ℕ) (front : Bytes)
    → all_bytes front ≡ true
    → PrintsMemory (image_of n front) (printer_of (image_of n front)) allocator
printer_of-PrintsMemory n front all =
    let image = image_of n front in
    let bytes = image_of-IsImage n front all in
    record {
      bytes = bytes;
      wraps = image_of_wraps n front;
      room = λ n h. (replicate n 0, refl, length-replicate n 0);
      prints = λ n addr some_words few fits. record {
        lines = lines_at image addr n;
        formed = lines_formed image bytes addr n;
        values = lines_hold image addr n;
        answer = printer_of_lem image n addr (omega arith) fits;
      };
    }

abbrev pub registers : Registers
registers = record { idtr = 0xffff_fe00_0000_0000; cr3 = 0x1_0a60_a000; cr4 = 0 }

printer_of-PrintsRegisters :
    (image : Image) → PrintsRegisters (printer_of image) 0xffff_fe00_0000_0000 0x1_0a60_a000
unfolding is_prefix
printer_of-PrintsRegisters image = record {
  answer = answer;
  answered = refl;
  idtr_line = idt_last;
  cr3_line = cr3_last;
}

abbrev pub guest_machine : Image → ℕ → Machine
guest_machine image debug = record (started image no_registers 0 0) { debug = debug }

pub guest-IsStarted :
    (n : ℕ) (front : Bytes) (debug : ℕ)
    → all_bytes front ≡ true
    → IsStarted (image_of n front) 0 registers (record (guest_machine (image_of n front) debug) {
      client = some (libvirt_client (printer_of (image_of n front)) allocator);
    })
guest-IsStarted n front debug all =
    let image = image_of n front in
    libvirt_guest-IsStarted image (printer_of image) allocator 0xffff_fe00_0000_0000 0x1_0a60_a000 0
      (guest_machine image debug)
      (record { no_symbols = refl; unmoved = refl; no_pud = refl; no_pmd = refl; no_ptbl = refl })
      (printer_of-PrintsMemory n front all) (printer_of-PrintsRegisters image)

-- System.map at "m", and no other file.
abbrev pub files : Bytes → Files
files system_map = record {
  stat = λ path. if streq path (codes "m") then some regular else none;
  contents = λ path. if streq path (codes "m") then some system_map else none;
}

abbrev pub guest_world : Image → World
guest_world image = record world { monitor = printer_of image }

pub guest-Reaches :
    (image : Image)
    → Reaches
        (guest_world image)
        (codes "vm1")
        guest_name
        (libvirt_client (printer_of image) allocator)
unfolding libvirt_dlsym is_prefix
guest-Reaches image = by_name refl refl refl refl refl

pub chosen :
    (system_map : Bytes)
    → text_within 1024 system_map ≡ true
    → choose_files (files system_map) (codes "vm1") (codes "m") ≡ some (codes "m", codes "vm1")
unfolding choose_files is_symmap is_text_file streq text_within
chosen system_map h = rw h

pub map_contents : (system_map : Bytes) → (files system_map).contents (codes "m") ≡ some system_map
unfolding streq
map_contents system_map = refl
