-- ===== src/Tests/Qmp.antt =====
-- A guest whose bytes are all 0xab behind a QMP socket that reads its commands, a session, and an
-- answer to `info registers`.
use kvm_dmesg.Base.{
  ℕ, zero, suc, ◌+◌, ◌-◌, ◌*◌, ◌^◌, ◌≤◌, ◌<◌, ◌≡◌, refl, sym, ap, ◌∙◌, append-nil, some, List, [],
  ◌∷◌, ◌++◌, arith, Bool, true, false, ◌||◌, ◌==◌, min, length, take, drop, take-append-drop,
  length-drop, length-append, inr,
}
use kvm_dmesg.Base.Bytes.{Bytes}
use kvm_dmesg.Base.Run.{ok}
use kvm_dmesg.Base.Word.{pos}
use kvm_dmesg.Client.Qmp.{
  Poll, timeout, readable, Socket, xp_bytes, info_registers, qmp_client, qmp_get_registers,
}
use kvm_dmesg.Client.Qmp.Answer.{Holds, qmp_get_registers-Holds}
use kvm_dmesg.Client.Qmp.Delivers.{Delivers}
use kvm_dmesg.Client.Qmp.Memory.{lines_text, AllShort}
use kvm_dmesg.Client.Qmp.Serves.{AnswersMemory, answer_text, qmp_client-Serves}
use kvm_dmesg.Client.Qmp.Session.{Connection, qmp_client_init}
use kvm_dmesg.Client.Qmp.Session.Accepts.{is_front, accepted, result, qmp_client_init-accepted}
use kvm_dmesg.Guest.Translate.{slice, Serves}
use kvm_dmesg.Tests.Guests.{started, no_registers}
use kvm_dmesg.Tests.Libvirt.{label-AllFrom, filled, before_x, before_x_lem, dec_digits-AllDigits}
use mathlib.Core.Path.{subst}
use kvm_dmesg.Text.{codes}
use kvm_dmesg.Text.Hex.{hex_padded}
use kvm_dmesg.Text.Scan.{hex_value}
use kvm_dmesg.Text.Decimal.{dec, number_from, number_from-dec}
use kvm_dmesg.Text.Lines.{DumpLine, IsLine, AllLines, dump_values}
use kvm_dmesg.Text.Search.{is_prefix, IsFirst}
use kvm_dmesg.Xutil.Io.{Suffices, arrived, failed, xread-take, incoming, wrote, xwrite}

-- A text that arrives in pieces of 1024 bytes.
unfoldable pub pieces : ℕ → Bytes → List Poll
pieces zero text = timeout ∷ []
pieces (suc f) text = readable (arrived text ∷ failed ∷ []) ∷ pieces f (drop 1024 text)

whole : (text : Bytes) → incoming (arrived text ∷ failed ∷ []) ≡ text
unfolding incoming
whole [] = refl
whole (c ∷ cs) = append-nil (c ∷ cs)

is_closed : (text : Bytes) → Suffices (arrived text ∷ failed ∷ []) 1024
is_closed [] = inr tt
is_closed (c ∷ cs) = inr tt

no_more : (text : Bytes) → length text ≤ 0 → text ≡ []
no_more [] h = refl
no_more (c ∷ cs) h = absurd (omega arith)

pub pieces-Delivers :
    (f : ℕ) (text : Bytes) → length text ≤ f * 1024 → Delivers (pieces f text) text
unfolding pieces
pieces-Delivers zero text h = no_more text (omega arith)
pieces-Delivers (suc f) text h = (
  take 1024 text,
  drop 1024 text,
  xread-take (arrived text ∷ failed ∷ []) 1024 (is_closed text)
      ∙ ap (λ (t : Bytes). ok (take 1024 t)) (whole text),
  sym (take-append-drop 1024 text),
  pieces-Delivers f (drop 1024 text) (omega (arith, h, length-drop 1024 text)),
)

whole_write : (n : ℕ) → xwrite (wrote n ∷ []) n ≡ ok n
unfolding xwrite
whole_write zero = refl
whole_write (suc n) =
    let least : min (suc n) (suc n) ≡ suc n = omega arith in
    let left : suc n - suc n ≡ 0 = omega arith in
    let sum : suc n + 0 ≡ suc n = omega arith in rw (least, left, sum)

-- Lines of two bytes.
abbrev one_byte : DumpLine
one_byte = record { label = codes "0:"; first = 0xab; more = [] }

abbrev two_bytes : DumpLine
two_bytes = record { label = codes "0:"; first = 0xab; more = 0xab ∷ [] }

abbrev lines_for : ℕ → List DumpLine
lines_for zero = []
lines_for (suc zero) = one_byte ∷ []
lines_for (suc (suc n)) = two_bytes ∷ lines_for n

abbrev machine_socket : Socket
machine_socket = record {
  writes = λ cmd. wrote (length cmd) ∷ [];
  polls = λ cmd. pieces 64 (answer_text (lines_for (number_from 0 (before_x (drop 72 cmd)))));
}

one_byte-IsLine : IsLine 2 8 one_byte
one_byte-IsLine = record {
  labelled = omega arith;
  printed = label-AllFrom;
  few = omega arith;
  fits = (omega arith, tt);
}

two_bytes-IsLine : IsLine 2 8 two_bytes
two_bytes-IsLine = record {
  labelled = omega arith;
  printed = label-AllFrom;
  few = omega arith;
  fits = (omega arith, (omega arith, tt));
}

polls_lem :
    (n addr : ℕ)
    → n < 2 ^ 64
    → machine_socket.polls (xp_bytes n addr) ≡ pieces 64 (answer_text (lines_for n))
unfolding dec
polls_lem n addr h =
    ap (λ (t : Bytes). pieces 64 (answer_text (lines_for (number_from 0 t))))
      (before_x_lem (dec n) _ (dec_digits-AllDigits 20 n))
    ∙ ap (λ (k : ℕ). pieces 64 (answer_text (lines_for k))) (number_from-dec n h)

formed_lem : (n : ℕ) → AllLines 2 8 (lines_for n)
formed_lem zero = tt
formed_lem (suc zero) = (one_byte-IsLine, tt)
formed_lem (suc (suc n)) = (two_bytes-IsLine, formed_lem n)

short_lem : (n : ℕ) → AllShort (lines_for n)
unfolding hex_padded
short_lem zero = tt
short_lem (suc zero) = (omega arith, tt)
short_lem (suc (suc n)) = (omega arith, short_lem n)

values_lem : (n addr : ℕ) → dump_values (lines_for n) ≡ slice filled addr n
values_lem zero addr = refl
values_lem (suc zero) addr = refl
values_lem (suc (suc n)) addr = ap (λ (t : Bytes). 0xab ∷ 0xab ∷ t) (values_lem n (addr + 1 + 1))

lines_lem : (n : ℕ) → length (lines_text (lines_for n)) ≤ 8 * n + 8
unfolding hex_padded
lines_lem zero = omega arith
lines_lem (suc zero) = omega arith
lines_lem (suc (suc n)) = omega (arith, lines_lem n)

answer_lem : (n : ℕ) → length (answer_text (lines_for n)) ≤ 8 * n + 64
answer_lem n =
    omega (arith, lines_lem n, length-append (lines_text (lines_for n)) (b'"' ∷ codes "}\r\n"))

machine_socket-AnswersMemory : AnswersMemory filled machine_socket
machine_socket-AnswersMemory = record {
  wraps = λ a. refl;
  answers = λ n addr some_bytes few fits. record {
    lines = lines_for n;
    formed = formed_lem n;
    short = short_lem n;
    values = values_lem n addr;
    written = whole_write (length (xp_bytes n addr));
    delivered =
        subst (λ (p : List Poll). Delivers p (answer_text (lines_for n)))
          (sym (polls_lem n addr (omega arith)))
          (pieces-Delivers 64 (answer_text (lines_for n)) (omega (arith, answer_lem n)));
    small = omega (arith, answer_lem n);
  };
}

qmp_client-Serves_example :
    Serves filled
      (record (started filled no_registers 0 0) { client = some (qmp_client machine_socket) })
qmp_client-Serves_example =
    qmp_client-Serves filled machine_socket (started filled no_registers 0 0)
      machine_socket-AnswersMemory

-- The name does not stand in front; computed.
unfoldable pub unclear : Bytes → Bytes → Bytes → Bool
unclear key [] rest = false
unclear key (p ∷ before) rest =
    (p == 0) || (is_prefix key (p ∷ (before ++ rest)) || unclear key before rest)

or_false : (a b : Bool) → (a || b) ≡ false → (a ≡ false) × (b ≡ false)
or_false true b h = cc
or_false false b h = (refl, h)

==_false : (p : ℕ) → (p == 0) ≡ false → 0 < p
==_false p h = ground arith

pub unclear-IsFirst :
    (key before rest : Bytes) → unclear key before rest ≡ false → IsFirst key before rest
unfolding unclear
unclear-IsFirst key [] rest h = tt
unclear-IsFirst key (p ∷ before) rest h =
    let (nul, more) = or_false (p == 0) _ h in
    let (here, later) = or_false (is_prefix key (p ∷ (before ++ rest))) _ more in
    (λ e. absurd (omega (arith, ==_false p nul, e)), here, unclear-IsFirst key before rest later)

abbrev answer : Bytes
answer =
    codes
      "{\"return\": \"IDT=     fffffe0000000000 00000fff\\r\\nCR0=80050033 CR3=000000010a60a000 CR4=000006f0\\r\\n\"}\r\n"

abbrev answer_socket : Socket
answer_socket = record { writes = λ cmd. wrote (length cmd) ∷ []; polls = λ cmd. pieces 1 answer }

cr3_found : Holds b'C' (codes "R3") answer 0x1_0a60_a000
unfolding hex_padded hex_value unclear is_prefix
cr3_found = record {
  before = codes "{\"return\": \"IDT=     fffffe0000000000 00000fff\\r\\nCR0=80050033 ";
  blanks = 0;
  more = 14;
  rest = codes " CR4=000006f0\\r\\n\"}\r\n";
  split = refl;
  first = λ behind.
      unclear-IsFirst (codes "CR3")
        (codes "{\"return\": \"IDT=     fffffe0000000000 00000fff\\r\\nCR0=80050033 ")
        (codes "CR3" ++ behind) refl;
  ends = refl;
  digits = omega arith;
  fits = omega arith;
}

cr4_found : Holds b'C' (codes "R4") answer 0x6f0
unfolding hex_padded hex_value unclear is_prefix
cr4_found = record {
  before =
      codes
        "{\"return\": \"IDT=     fffffe0000000000 00000fff\\r\\nCR0=80050033 CR3=000000010a60a000 ";
  blanks = 0;
  more = 6;
  rest = codes "\\r\\n\"}\r\n";
  split = refl;
  first = λ behind.
      unclear-IsFirst (codes "CR4")
        (codes
          "{\"return\": \"IDT=     fffffe0000000000 00000fff\\r\\nCR0=80050033 CR3=000000010a60a000 ")
        (codes "CR4" ++ behind) refl;
  ends = refl;
  digits = omega arith;
  fits = omega arith;
}

idt_found : Holds b'I' (codes "DT") answer 0xffff_fe00_0000_0000
unfolding hex_padded hex_value unclear is_prefix
idt_found = record {
  before = codes "{\"return\": \"";
  blanks = 5;
  more = 14;
  rest = codes " 00000fff\\r\\nCR0=80050033 CR3=000000010a60a000 CR4=000006f0\\r\\n\"}\r\n";
  split = refl;
  first = λ behind.
      unclear-IsFirst (codes "IDT") (codes "{\"return\": \"") (codes "IDT" ++ behind) refl;
  ends = refl;
  digits = omega arith;
  fits = omega arith;
}

qmp_get_registers-Holds_example :
    qmp_get_registers answer_socket no_registers
    ≡ ok (pos 0, record { cr3 = 0x1_0a60_a000; cr4 = 0x6f0; idtr = 0xffff_fe00_0000_0000 })
qmp_get_registers-Holds_example =
    qmp_get_registers-Holds answer_socket answer 0x1_0a60_a000 0x6f0 0xffff_fe00_0000_0000
      no_registers (whole_write (length info_registers)) (pieces-Delivers 1 answer (omega arith))
      (omega arith) cr3_found cr4_found idt_found

-- A session that is greeted in a way that QEMU has not, and gets no reply.
abbrev pub greeting : Bytes
greeting = codes "hello"

abbrev pub connection : Connection
connection = record {
  created = true;
  connected = true;
  greeting = pieces 1 greeting;
  socket = record { writes = λ cmd. wrote (length cmd) ∷ []; polls = λ cmd. pieces 0 [] };
}

-- It is taken all the same.
pub connection_lem : qmp_client_init connection (codes "s") ≡ ok (pos 0, true)
unfolding pieces is_front
connection_lem =
    qmp_client_init-accepted connection (codes "s") greeting 33 []
      (record {
        some_path = omega arith;
        short_path = omega arith;
        created = refl;
        connected = refl;
      })
      (pieces-Delivers 1 greeting (omega arith)) (omega arith) (whole_write 33) refl (omega arith)
      tt

qmp_client_init-accepted_example :
    qmp_client_init connection (codes "/tmp/qmp") ≡ ok (result (accepted greeting 33 []), true)
unfolding pieces
qmp_client_init-accepted_example =
    qmp_client_init-accepted connection (codes "/tmp/qmp") greeting 33 []
      (record {
        some_path = omega arith;
        short_path = omega arith;
        created = refl;
        connected = refl;
      })
      (pieces-Delivers 1 greeting (omega arith)) (omega arith) (whole_write 33) refl (omega arith)
      tt
