-- ===== src/Client/Qmp/Answer.antt =====
-- The registers that qmp_get_registers finds in the answer of QMP.
use kvm_dmesg.Base.{
  ℕ, zero, suc, ◌-◌, ◌^◌, ◌<◌, ◌≡◌, refl, ap, ◌∙◌, append_assoc, some, [], ◌∷◌, ◌++◌, arith, ◌==◌,
  Bool-cases, inl, inr, ne→==, length, drop, replicate, length-append,
}
use kvm_dmesg.Base.Bytes.{Bytes}
use kvm_dmesg.Base.Run.{ok, ◌>>=◌}
use kvm_dmesg.Base.Word.{pos}
use kvm_dmesg.Client.Qmp.{
  Socket, info_registers, behind_equals, c_string, qmp_populate_reg, populate_regs,
  qmp_get_registers,
}
use kvm_dmesg.Client.Qmp.Delivers.{Delivers}
use kvm_dmesg.Client.Qmp.Serves.{exchange_lem}
use kvm_dmesg.Machine.{Registers}
use kvm_dmesg.Text.{codes}
use kvm_dmesg.Text.Hex.{hex_padded, Ends, scan_lx-hex_padded}
use kvm_dmesg.Text.Lines.{AllFrom, hex_padded-AllFrom}
use kvm_dmesg.Text.Scan.{scan_lx, c_str, skip_space}
use kvm_dmesg.Text.Search.{IsFirst, strstr_first}
use kvm_dmesg.Text.Words.{skip_space-hex_padded}
use kvm_dmesg.Xutil.{xmalloc}
use kvm_dmesg.Xutil.Io.{xwrite}

-- The text has the register's name, an equals sign, blanks and the value, in two or more digits; the
-- name does not stand in front of that.
pub record Holds (k : ℕ) (ks text : Bytes) (v : ℕ) : Type 0 where
  pub before : Bytes
  pub blanks : ℕ
  pub more : ℕ
  pub rest : Bytes
  pub split :
      text
      ≡ before
        ++ (k ∷ (ks ++ b'=' ∷ (replicate blanks b' ' ++ (hex_padded (suc (suc more)) v ++ rest))))
  pub first : (behind : Bytes) → IsFirst (k ∷ ks) before ((k ∷ ks) ++ behind)
  pub ends : Ends rest
  pub digits : v < 16 ^ suc (suc more)
  pub fits : v < 2 ^ 64

-- Behind the end of the string nothing is read.
c_string-c_str : (s t : Bytes) → c_string (s ++ 0 ∷ t) ≡ ok (c_str s)
unfolding c_string c_str
c_string-c_str [] t = refl
c_string-c_str (c ∷ cs) t = elim (Bool-cases (c == 0)) [
  | inl nul ↦ rw nul
  | inr char ↦ rw (char, c_string-c_str cs t)
]

c_str-append : (s t : Bytes) → AllFrom 32 s → c_str (s ++ t) ≡ s ++ c_str t
unfolding c_str
c_str-append [] t h = refl
c_str-append (c ∷ cs) t (p, q, r, h) =
    rw (ne→== c 0 (λ e. absurd (omega arith))) (ap (◌∷◌ c) (c_str-append cs t h))

c_str-Ends : (s : Bytes) → Ends s → Ends (c_str s)
unfolding c_str
c_str-Ends [] h = tt
c_str-Ends (c ∷ cs) h = elim (Bool-cases (c == 0)) [ inl nul ↦ rw nul tt | inr char ↦ rw char h ]

blanks-AllFrom : (n : ℕ) → AllFrom 32 (replicate n b' ')
blanks-AllFrom zero = tt
blanks-AllFrom (suc n) =
    (omega arith, λ e. absurd (omega arith), λ e. absurd (omega arith), blanks-AllFrom n)

skip_space-blanks : (n : ℕ) (s : Bytes) → skip_space (replicate n b' ' ++ s) ≡ skip_space s
unfolding skip_space
skip_space-blanks zero s = refl
skip_space-blanks (suc n) s = skip_space-blanks n s

drop-replicate : (n m : ℕ) → drop n (replicate {A = ℕ} m 0) ≡ replicate (m - n) 0
drop-replicate zero m = let e : m - 0 ≡ m = omega arith in rw e
drop-replicate (suc n) zero = let e : 0 - suc n ≡ 0 = omega arith in rw e
drop-replicate (suc n) (suc m) =
    let e : suc m - suc n ≡ m - n = omega arith in rw e (drop-replicate n m)

-- The number behind the equals sign.
number_scanned :
    (blanks more v : ℕ) (rest : Bytes)
    → v < 16 ^ suc (suc more)
    → v < 2 ^ 64
    → Ends rest
    → scan_lx
        (skip_space (c_str (replicate blanks b' ' ++ (hex_padded (suc (suc more)) v ++ rest))))
      ≡ some (v, c_str rest)
number_scanned blanks more v rest digits fits ends =
    let number : Bytes = hex_padded (suc (suc more)) v in
    ap (λ (t : Bytes). scan_lx (skip_space t))
      (c_str-append (replicate blanks b' ') (number ++ rest) (blanks-AllFrom blanks)
        ∙ ap (λ (t : Bytes). replicate blanks b' ' ++ t)
            (c_str-append number rest (hex_padded-AllFrom (suc (suc more)) v)))
    ∙ ap scan_lx (
        skip_space-blanks blanks (number ++ c_str rest) ∙ skip_space-hex_padded more v (c_str rest))
    ∙ scan_lx-hex_padded more v (c_str rest) digits fits (c_str-Ends rest ends)

-- In a buffer that ends behind the text, the register is found.
qmp_populate_reg_lem :
    (k : ℕ) (ks text tail : Bytes) (v : ℕ)
    → Holds k ks text v
    → ((t : Bytes) → behind_equals ((k ∷ ks) ++ b'=' ∷ t) ≡ ok t)
    → qmp_populate_reg (text ++ 0 ∷ tail) (k ∷ ks) ≡ ok (some v)
unfolding qmp_populate_reg
qmp_populate_reg_lem k ks text tail v h key =
    let number : Bytes = replicate h.blanks b' ' ++ (hex_padded (suc (suc h.more)) v ++ h.rest) in
    let behind : Bytes = number ++ 0 ∷ tail in
    let all : text ++ 0 ∷ tail ≡ h.before ++ ((k ∷ ks) ++ b'=' ∷ behind) =
      ap (λ (t : Bytes). t ++ 0 ∷ tail) h.split
      ∙ append_assoc h.before ((k ∷ ks) ++ b'=' ∷ number) (0 ∷ tail)
      ∙ ap (λ (t : Bytes). h.before ++ t) (append_assoc (k ∷ ks) (b'=' ∷ number) (0 ∷ tail)) in
    let found = strstr_first h.before k ks (b'=' ∷ behind) (h.first (b'=' ∷ behind)) in
    ap (λ (t : Bytes). qmp_populate_reg t (k ∷ ks)) all
    ∙ rw (
      found,
      ◌>>=◌,
      key behind,
      c_string-c_str number tail,
      number_scanned h.blanks h.more v h.rest h.digits h.fits h.ends,
    )

Holds-length : (k : ℕ) (ks text : Bytes) (v : ℕ) → Holds k ks text v → 0 < length text
Holds-length k ks text v h =
    omega (arith, ap length h.split, length-append h.before (k ∷ (ks ++ _)))

found_cr3 :
    (text tail : Bytes) (v : ℕ)
    → Holds b'C' (codes "R3") text v
    → qmp_populate_reg (text ++ 0 ∷ tail) (codes "CR3") ≡ ok (some v)
unfolding behind_equals
found_cr3 text tail v h = qmp_populate_reg_lem b'C' (codes "R3") text tail v h (λ t. refl)

found_cr4 :
    (text tail : Bytes) (v : ℕ)
    → Holds b'C' (codes "R4") text v
    → qmp_populate_reg (text ++ 0 ∷ tail) (codes "CR4") ≡ ok (some v)
unfolding behind_equals
found_cr4 text tail v h = qmp_populate_reg_lem b'C' (codes "R4") text tail v h (λ t. refl)

found_idt :
    (text tail : Bytes) (v : ℕ)
    → Holds b'I' (codes "DT") text v
    → qmp_populate_reg (text ++ 0 ∷ tail) (codes "IDT") ≡ ok (some v)
unfolding behind_equals
found_idt text tail v h = qmp_populate_reg_lem b'I' (codes "DT") text tail v h (λ t. refl)

-- If the command is written whole, and the answer is a text of at most 8191 bytes that has each of
-- the names CR3, CR4 and IDT with an equals sign, blanks and a number, in front of which the name
-- does not stand, then qmp_get_registers succeeds and stores the three numbers.
pub qmp_get_registers-Holds :
    (socket : Socket) (text : Bytes) (cr3 cr4 idtr : ℕ) (regs : Registers)
    → xwrite (socket.writes info_registers) (length info_registers) ≡ ok (length info_registers)
    → Delivers (socket.polls info_registers) text
    → length text < 8192
    → Holds b'C' (codes "R3") text cr3
    → Holds b'C' (codes "R4") text cr4
    → Holds b'I' (codes "DT") text idtr
    → qmp_get_registers socket regs ≡ ok (pos 0, record { cr3 = cr3; cr4 = cr4; idtr = idtr })
unfolding qmp_get_registers populate_regs
qmp_get_registers-Holds socket text cr3 cr4 idtr regs w d small p q r =
    let n : ℕ = 8192 - length text in
    let room : 8192 - length text ≡ suc (8191 - length text) = omega (arith, small) in
    let tail : Bytes = replicate (8191 - length text) 0 in
    let buffer : text ++ drop (length text) (xmalloc 8192) ≡ text ++ 0 ∷ tail =
      ap (λ (t : Bytes). text ++ t)
        (drop-replicate (length text) 8192 ∙ ap (λ (k : ℕ). replicate k 0) room) in
    let got =
      exchange_lem socket info_registers text 8192 w d (Holds-length b'C' (codes "R3") text cr3 p)
        (omega (arith, small)) (omega arith)
      ∙ ap (λ (t : Bytes). ok (some t)) buffer in
    rw
      (got, ◌>>=◌, found_cr3 text tail cr3 p, found_cr4 text tail cr4 q, found_idt text tail idtr r)
