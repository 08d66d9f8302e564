-- ===== src/Tests/Libvirt.antt =====
-- A guest whose bytes are all 0xab behind a monitor that reads its commands, and a real answer to
-- `info registers`.
use native.Mathlib.Decide.{dec_lt}
use kvm_dmesg.Base.{
  ℕ, zero, suc, ◌+◌, ◌/◌, ◌%◌, ◌^◌, ◌<◌, ◌≡◌, refl, ap, ◌∙◌, some, [], ◌∷◌, ◌++◌, arith, false, ltb,
  ◌==◌, if◌then◌else◌, le→ltb, lt→ltb, drop, replicate, length-replicate,
}
use kvm_dmesg.Base.Bytes.{Bytes, le}
use kvm_dmesg.Base.Word.{pos}
use kvm_dmesg.Client.Libvirt.{Monitor, Malloc, xp_words, libvirt_client, libvirt_get_registers}
use kvm_dmesg.Client.Libvirt.Answer.{LastNames, Names, libvirt_get_registers-LastNames}
use kvm_dmesg.Client.Libvirt.Memory.{dump_text}
use kvm_dmesg.Client.Libvirt.Serves.{PrintsMemory, words_at, libvirt_client-Serves}
use kvm_dmesg.Guest.Translate.{Image, Serves}
use kvm_dmesg.Tests.Guests.{started, no_registers}
use kvm_dmesg.Text.{codes}
use kvm_dmesg.Text.Decimal.{dec, dec_digits, number_from, number_from-dec}
use kvm_dmesg.Text.Hex.{hex_padded}
use kvm_dmesg.Text.Lines.{AllFrom, dump_values, AllLines, DumpLine, IsLine}
use kvm_dmesg.Text.Search.{find}
use kvm_dmesg.Text.Scan.{hex_value, strtok_lines}

abbrev pub filled : Image
filled a = 0xab

-- The digits in front of the `x` of a command.
unfoldable pub before_x : Bytes → Bytes
before_x [] = []
before_x (c ∷ cs) = if c == b'x' then [] else c ∷ before_x cs

-- One line for each word.
abbrev pub one_word : DumpLine
one_word = record { label = codes "0:"; first = 0xabab_abab; more = [] }

abbrev pub printer : Monitor
printer command =
    some (dump_text 8 (replicate (number_from 0 (before_x (drop 4 command))) one_word))

abbrev pub allocator : Malloc
allocator n = some (replicate n 0)

abbrev pub AllDigits : Bytes → Type 0
AllDigits [] = Unit {0}
AllDigits (c ∷ cs) = (c < b'x') × AllDigits cs

pub before_x_lem : (s rest : Bytes) → AllDigits s → before_x (s ++ b'x' ∷ rest) ≡ s
unfolding before_x
before_x_lem [] rest h = refl
before_x_lem (c ∷ cs) rest (p, h) =
    let other : (c == b'x') ≡ false = ground arith in rw other (ap (◌∷◌ c) (before_x_lem cs rest h))

AllDigits-append : (s t : Bytes) → AllDigits s → AllDigits t → AllDigits (s ++ t)
AllDigits-append [] t h k = k
AllDigits-append (c ∷ cs) t (p, h) k = (p, AllDigits-append cs t h k)

last_digit-AllDigits :
    (s : Bytes) (n : ℕ)
    → AllDigits s
    → AllDigits (if ltb n 10 then (n + b'0') ∷ [] else s ++ (n % 10 + b'0') ∷ [])
last_digit-AllDigits s n h = elim (dec_lt n 10) [
  | yes small ↦ rw (lt→ltb n 10 small) (omega arith, tt)
  | no large ↦
      rw (le→ltb n 10 (omega arith)) (AllDigits-append s ((n % 10 + b'0') ∷ []) h (omega arith, tt))
]

pub dec_digits-AllDigits : (f n : ℕ) → AllDigits (dec_digits f n)
unfolding dec_digits
dec_digits-AllDigits zero n = tt
dec_digits-AllDigits (suc f) n =
    last_digit-AllDigits (dec_digits f (n / 10)) n (dec_digits-AllDigits f (n / 10))

pub printer_lem :
    (n addr : ℕ)
    → n < 2 ^ 64
    → printer (xp_words n addr) ≡ some (dump_text 8 (replicate n one_word))
unfolding dec
printer_lem n addr h =
    ap (λ (t : Bytes). some (dump_text 8 (replicate (number_from 0 t) one_word)))
      (before_x_lem (dec n) _ (dec_digits-AllDigits 20 n))
    ∙ ap (λ (k : ℕ). some (dump_text 8 (replicate k one_word))) (number_from-dec n h)

pub label-AllFrom : AllFrom 33 (codes "0:")
label-AllFrom = (
  omega arith,
  λ e. absurd (omega arith),
  λ e. absurd (omega arith),
  (omega arith, λ e. absurd (omega arith), λ e. absurd (omega arith), tt),
)

one_word-IsLine : IsLine 8 4 one_word
one_word-IsLine = record {
  labelled = omega arith;
  printed = label-AllFrom;
  few = omega arith;
  fits = (omega arith, tt);
}

pub formed_lem : (n : ℕ) → AllLines 8 4 (replicate n one_word)
formed_lem zero = tt
formed_lem (suc n) = (one_word-IsLine, formed_lem n)

pub values_lem : (n addr : ℕ) → dump_values (replicate n one_word) ≡ words_at filled addr n
unfolding le
values_lem zero addr = refl
values_lem (suc n) addr = ap (◌∷◌ 0xabab_abab) (values_lem n (addr + 4))

printer-PrintsMemory : PrintsMemory filled printer allocator
printer-PrintsMemory = record {
  bytes = λ a. omega arith;
  wraps = λ a. refl;
  room = λ n h. (replicate n 0, refl, length-replicate n 0);
  prints = λ n addr some_words few fits. record {
    lines = replicate n one_word;
    formed = formed_lem n;
    values = values_lem n addr;
    answer = printer_lem n addr (omega arith);
  };
}

libvirt_client-Serves_example :
    Serves filled (record (started filled no_registers 0 0) {
      client = some (libvirt_client printer allocator);
    })
libvirt_client-Serves_example =
    libvirt_client-Serves filled printer allocator (started filled no_registers 0 0)
      printer-PrintsMemory

-- The two lines that count, between others.
abbrev pub answer : Bytes
answer =
    codes
      "RAX=0000000000000000 RBX=ffffffff818e2880\r\nGDT=     fffffe0000001000 0000007f\r\nIDT=     fffffe0000000000 00000fff\r\nCR0=80050033 CR2=00007f6d6b2ad000 CR3=000000010a60a000 CR4=000006f0\r\nDR0=0000000000000000\r\n"

abbrev info : Monitor
info command = some answer

idt_line : Names (codes "IDT") (codes "IDT=     fffffe0000000000 00000fff\r") 0xffff_fe00_0000_0000
unfolding find hex_padded hex_value
idt_line = record {
  between = codes "=     ";
  rest = codes " 00000fff\r";
  found = refl;
  blanks = (refl, (refl, (refl, (refl, (refl, (refl, tt))))));
  ends = refl;
  fits = omega arith;
}

cr3_line :
    Names
      (codes "CR3")
      (codes "CR0=80050033 CR2=00007f6d6b2ad000 CR3=000000010a60a000 CR4=000006f0\r")
      0x1_0a60_a000
unfolding find hex_padded hex_value
cr3_line = record {
  between = codes "=";
  rest = codes " CR4=000006f0\r";
  found = refl;
  blanks = (refl, tt);
  ends = refl;
  fits = omega arith;
}

pub idt_last : LastNames (codes "IDT") (strtok_lines answer) 0xffff_fe00_0000_0000
unfolding strtok_lines find
idt_last = record {
  before =
      codes "RAX=0000000000000000 RBX=ffffffff818e2880\r"
      ∷ codes "GDT=     fffffe0000001000 0000007f\r"
      ∷ [];
  line = codes "IDT=     fffffe0000000000 00000fff\r";
  after =
      codes "CR0=80050033 CR2=00007f6d6b2ad000 CR3=000000010a60a000 CR4=000006f0\r"
      ∷ codes "DR0=0000000000000000\r"
      ∷ [];
  split = refl;
  names = idt_line;
  quiet = (refl, (refl, tt));
}

pub cr3_last : LastNames (codes "CR3") (strtok_lines answer) 0x1_0a60_a000
unfolding strtok_lines find
cr3_last = record {
  before =
      codes "RAX=0000000000000000 RBX=ffffffff818e2880\r"
      ∷ codes "GDT=     fffffe0000001000 0000007f\r"
      ∷ codes "IDT=     fffffe0000000000 00000fff\r"
      ∷ [];
  line = codes "CR0=80050033 CR2=00007f6d6b2ad000 CR3=000000010a60a000 CR4=000006f0\r";
  after = codes "DR0=0000000000000000\r" ∷ [];
  split = refl;
  names = cr3_line;
  quiet = (refl, tt);
}

libvirt_get_registers-LastNames_example :
    libvirt_get_registers info no_registers
    ≡ (pos 0, record { idtr = 0xffff_fe00_0000_0000; cr3 = 0x1_0a60_a000; cr4 = 0 })
libvirt_get_registers-LastNames_example =
    libvirt_get_registers-LastNames info answer 0xffff_fe00_0000_0000 0x1_0a60_a000 no_registers
      refl idt_last cr3_last
