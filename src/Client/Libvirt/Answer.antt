-- ===== src/Client/Libvirt/Answer.antt =====
-- The registers that libvirt_get_registers finds in the monitor's answer.
use kvm_dmesg.Base.{
  ℕ, ◌^◌, ◌<◌, ◌≡◌, refl, sym, ap, ◌∙◌, true, false, ◌||◌, none, some, List, [], ◌∷◌, ◌++◌, ◌==◌,
  arith, inl, inr, drop-append, Option-cases,
}
use kvm_dmesg.Base.Bytes.{Bytes}
use kvm_dmesg.Base.Word.{pos}
use kvm_dmesg.Client.Libvirt.{
  Monitor, strtoul_16, skip_equals, get_line_value, set_idtr, set_cr3, lines_registers,
  libvirt_get_registers,
}
use kvm_dmesg.Machine.{Registers}
use kvm_dmesg.Text.{codes}
use kvm_dmesg.Text.Words.{skip_space-hex_padded}
use kvm_dmesg.Text.Hex.{hex_digit, hex_padded, hex_padded-LeadsDigits, Ends, scan_lx-hex_padded}
use kvm_dmesg.Text.Scan.{strtok_lines}
use kvm_dmesg.Text.Search.{find}

-- The value of a key in a line that has it.
abbrev value_or : ℕ → Bytes → Bytes → ℕ
value_or v key line = elim (find key line) [ none ↦ v | some start ↦ get_line_value line key ]

-- The value in the last line that has the key.
abbrev last_value : ℕ → Bytes → List Bytes → ℕ
last_value v key [] = v
last_value v key (line ∷ lines) = last_value (value_or v key line) key lines

set_idtr_lem :
    (line : Bytes) (regs : Registers)
    → set_idtr line regs ≡ record regs { idtr = value_or regs.idtr (codes "IDT") line }
unfolding set_idtr
set_idtr_lem line regs = elim (Option-cases (find (codes "IDT") line)) [
  | inl missing ↦ rw (missing, set_idtr, value_or)
  | inr (start, found) ↦ rw (found, set_idtr, value_or)
]

set_cr3_lem :
    (line : Bytes) (regs : Registers)
    → set_cr3 line regs ≡ record regs { cr3 = value_or regs.cr3 (codes "CR3") line }
unfolding set_cr3
set_cr3_lem line regs = elim (Option-cases (find (codes "CR3") line)) [
  | inl missing ↦ rw (missing, set_cr3, value_or)
  | inr (start, found) ↦ rw (found, set_cr3, value_or)
]

-- The loop leaves what the last line with each key has.
lines_registers-last_value :
    (lines : List Bytes) (regs : Registers)
    → lines_registers lines regs ≡ record {
      idtr = last_value regs.idtr (codes "IDT") lines;
      cr3 = last_value regs.cr3 (codes "CR3") lines;
      cr4 = regs.cr4;
    }
unfolding lines_registers
lines_registers-last_value [] regs = refl
lines_registers-last_value (line ∷ lines) regs =
    ap (λ (r : Registers). lines_registers lines (set_cr3 line r)) (set_idtr_lem line regs)
    ∙ ap (lines_registers lines) (set_cr3_lem line _)
    ∙ lines_registers-last_value lines _

-- Blanks and equals signs.
abbrev pub AllEquals : Bytes → Type 0
AllEquals [] = Unit {0}
AllEquals (c ∷ cs) = ((c == b' ' || c == b'=') ≡ true) × AllEquals cs

-- The line has the key, behind it blanks and equals signs, and then the value in sixteen digits.
pub record Names (key line : Bytes) (v : ℕ) : Type 0 where
  pub between : Bytes
  pub rest : Bytes
  pub found : find key line ≡ some (key ++ (between ++ (hex_padded 16 v ++ rest)))
  pub blanks : AllEquals between
  pub ends : Ends rest
  pub fits : v < 2 ^ 64

-- The lines do not have the key.
abbrev pub AllQuiet : Bytes → List Bytes → Type 0
AllQuiet key [] = Unit {0}
AllQuiet key (line ∷ lines) = (find key line ≡ none) × AllQuiet key lines

-- The last line that has the key has this value.
pub record LastNames (key : Bytes) (lines : List Bytes) (v : ℕ) : Type 0 where
  pub before : List Bytes
  pub line : Bytes
  pub after : List Bytes
  pub split : lines ≡ before ++ line ∷ after
  pub names : Names key line v
  pub quiet : AllQuiet key after

skip_equals-digits :
    (between rest : Bytes) (v : ℕ)
    → AllEquals between
    → skip_equals (between ++ (hex_padded 16 v ++ rest)) ≡ hex_padded 16 v ++ rest
unfolding skip_equals hex_digit
skip_equals-digits [] rest v h =
    let (d, e, t, front, p, q) = hex_padded-LeadsDigits 14 v in
    let blank : (hex_digit d == b' ') ≡ false = ground arith in
    let equals : (hex_digit d == b'=') ≡ false = ground arith in
    let text = ap (λ (s : Bytes). s ++ rest) front in
    ap skip_equals text ∙ rw (blank, equals) (sym text)
skip_equals-digits (c ∷ cs) rest v (p, h) = rw p (skip_equals-digits cs rest v h)

strtoul_16-hex_padded :
    (v : ℕ) (rest : Bytes) → v < 2 ^ 64 → Ends rest → strtoul_16 (hex_padded 16 v ++ rest) ≡ v
unfolding strtoul_16
strtoul_16-hex_padded v rest fits ends =
    rw (skip_space-hex_padded 14 v rest, scan_lx-hex_padded 14 v rest fits fits ends, strtoul_16)

get_line_value-Names : (key line : Bytes) (v : ℕ) → Names key line v → get_line_value line key ≡ v
unfolding get_line_value
get_line_value-Names key line v h =
    let number : Bytes = hex_padded 16 v ++ h.rest in
    rw (h.found, get_line_value)
      (ap (λ (t : Bytes). strtoul_16 (skip_equals t)) (drop-append key (h.between ++ number))
        ∙ ap strtoul_16 (skip_equals-digits h.between h.rest v h.blanks)
        ∙ strtoul_16-hex_padded v h.rest h.fits h.ends)

last_value-quiet :
    (v : ℕ) (key : Bytes) (lines : List Bytes) → AllQuiet key lines → last_value v key lines ≡ v
last_value-quiet v key [] h = refl
last_value-quiet v key (line ∷ lines) (p, h) =
    let same : value_or v key line ≡ v = rw (p, value_or) in
    ap (λ (n : ℕ). last_value n key lines) same ∙ last_value-quiet v key lines h

last_value-append :
    (u v : ℕ) (key line : Bytes) (before after : List Bytes)
    → Names key line v
    → AllQuiet key after
    → last_value u key (before ++ line ∷ after) ≡ v
last_value-append u v key line [] after h quiet =
    let here : value_or u key line ≡ v =
      rw (h.found, value_or) (get_line_value-Names key line v h) in
    ap (λ (n : ℕ). last_value n key after) here ∙ last_value-quiet v key after quiet
last_value-append u v key line (b ∷ before) after h quiet =
    last_value-append (value_or u key b) v key line before after h quiet

last_value-LastNames :
    (u v : ℕ) (key : Bytes) (lines : List Bytes)
    → LastNames key lines v
    → last_value u key lines ≡ v
last_value-LastNames u v key lines h =
    ap (last_value u key) h.split
    ∙ last_value-append u v key h.line h.before h.after h.names h.quiet

-- If the monitor answers `info registers` with a text in which the last line with "IDT" and the
-- last line with "CR3" have, behind blanks and equals signs, a number of sixteen digits each, then
-- the client of libvirt succeeds and reports these two numbers, and 0 for CR4.
pub libvirt_get_registers-LastNames :
    (monitor : Monitor) (answer : Bytes) (idtr cr3 : ℕ) (regs : Registers)
    → monitor (codes "info registers") ≡ some answer
    → LastNames (codes "IDT") (strtok_lines answer) idtr
    → LastNames (codes "CR3") (strtok_lines answer) cr3
    → libvirt_get_registers monitor regs ≡ (pos 0, record { idtr = idtr; cr3 = cr3; cr4 = 0 })
unfolding libvirt_get_registers
libvirt_get_registers-LastNames monitor answer idtr cr3 regs e p q = rw (
  e,
  libvirt_get_registers,
  lines_registers-last_value (strtok_lines answer) regs,
  last_value-LastNames regs.idtr idtr (codes "IDT") (strtok_lines answer) p,
  last_value-LastNames regs.cr3 cr3 (codes "CR3") (strtok_lines answer) q,
)
