-- ===== src/Client/Steps.antt =====
-- A client that reads in steps serves the guest's memory if each part does, and says so if one fails.
use kvm_dmesg.Base.{
  ℕ, zero, suc, ◌+◌, ◌*◌, ◌/◌, ◌%◌, ◌^◌, ◌<◌, ◌≤◌, ◌≡◌, refl, sym, ap, ◌∙◌, none, some, [], ◌∷◌,
  ◌++◌, ◌==◌, false, arith, length, take, drop, length-drop, length-take, take_all, append_assoc,
  append-nil, Bool-cases, ==→eq, inl, inr, drop-drop,
}
use mathlib.Core.Path.{subst}
use kvm_dmesg.Base.Bytes.{Bytes}
use kvm_dmesg.Base.Run.{ok, ◌>>=◌}
use kvm_dmesg.Base.Word.{ℤ, pos, minus_one, u64}
use kvm_dmesg.Client.{Part, read_steps, readmem_in_steps}
use kvm_dmesg.Guest.Translate.{Image, slice, drop_all}

-- A part of at most 4096 bytes is the bytes of memory. Addresses are 64 bits wide.
pub record ServesPart (mem : Image) (part : Part) : Type 0 where
  pub reads :
      (a : ℕ) (buf : Bytes)
      → a < 2 ^ 64
      → 0 < length buf
      → length buf ≤ 4096
      → part a buf ≡ ok (some (slice mem a (length buf)))
  pub wraps : (a : ℕ) → mem (a % 2 ^ 64) ≡ mem a

pub slice-append :
    (mem : Image) (a m n : ℕ) → slice mem a (m + n) ≡ slice mem a m ++ slice mem (a + m) n
slice-append mem a zero n =
    let e : 0 + n ≡ n = omega arith in let f : a + 0 ≡ a = omega arith in rw (e, f)
slice-append mem a (suc m) n =
    let e : suc m + n ≡ suc (m + n) = omega arith in
    let f : a + suc m ≡ a + 1 + m = omega arith in
    rw (e, f) (ap (◌∷◌ (mem a)) (slice-append mem (a + 1) m n))

-- Memory is the same at an address that wrapped.
pub slice_wraps :
    (mem : Image)
    → ((a : ℕ) → mem (a % 2 ^ 64) ≡ mem a)
    → (a b n : ℕ) → a % 2 ^ 64 ≡ b % 2 ^ 64
    → slice mem a n ≡ slice mem b n
slice_wraps mem wraps a b zero e = refl
slice_wraps mem wraps a b (suc n) e =
    let here : mem a ≡ mem b = sym (wraps a) ∙ ap mem e ∙ wraps b in
    rw (here, slice_wraps mem wraps (a + 1) (b + 1) n (omega arith))

abbrev in_front : Bytes → ℤ × Bytes → ℤ × Bytes
in_front bytes p = (p.0, bytes ++ p.1)

-- One step that is read.
step_lem :
    (part : Part) (steps addr left : ℕ) (buf bytes : Bytes) (rest : ℤ × Bytes)
    → part addr (take 4096 buf) ≡ ok (some bytes)
    → read_steps part steps (u64 (addr + 4096)) left (drop 4096 buf) ≡ ok rest
    → read_steps part (suc steps) addr left buf ≡ ok (in_front bytes rest)
unfolding read_steps
step_lem part steps addr left buf bytes rest e f = rw (e, ◌>>=◌, read_steps, f)

-- Two slices that meet.
meet :
    (mem : Image) (r : ℤ) (a b n total : ℕ) (tail : Bytes)
    → ((a : ℕ) → mem (a % 2 ^ 64) ≡ mem a)
    → (w : ℕ) → (a + w) % 2 ^ 64 ≡ b % 2 ^ 64
    → w + n ≡ total
    → in_front (slice mem a w) (r, slice mem b n ++ tail) ≡ (r, slice mem a total ++ tail)
meet mem r a b n total tail wraps w same size =
    ap (λ (t : Bytes). (r, slice mem a w ++ (t ++ tail)))
      (sym (slice_wraps mem wraps (a + w) b n same))
    ∙ ap (λ (t : Bytes). (r, t)) (sym (append_assoc (slice mem a w) (slice mem (a + w) n) tail))
    ∙ ap (λ (t : Bytes). (r, t ++ tail)) (sym (slice-append mem a w n))
    ∙ ap (λ (k : ℕ). (r, slice mem a k ++ tail)) size

==_false : (n : ℕ) → (n == 0) ≡ false → 0 < n
==_false n h = ground arith

module _ (mem : Image) (part : Part) (s : ServesPart mem part) where
  left_lem :
      (addr left : ℕ) (buf : Bytes)
      → length buf ≡ left
      → left ≤ 4096
      → addr < 2 ^ 64
      → read_steps part 0 addr left buf ≡ ok (pos 0, slice mem addr left)
  unfolding read_steps
  left_lem addr left buf size few fits = elim (Bool-cases (left == 0)) [
    | inl none_left ↦
        let empty : left ≡ 0 = ==→eq left 0 none_left in
        let all = drop_all buf 0 (size ∙ empty) in
        rw none_left (ap (λ (t : Bytes). ok (pos 0, t)) (all ∙ ap (slice mem addr) (sym empty)))
    | inr some_left ↦
        let whole : take left buf ≡ buf = take_all left buf (omega (arith, size)) in
        let got =
          s.reads addr buf fits (omega (arith, size, ==_false left some_left))
            (omega (arith, size)) in
        rw (some_left, whole, got, drop_all buf left size)
          (ap (λ (t : Bytes). ok (pos 0, t))
            (append-nil (slice mem addr (length buf)) ∙ ap (slice mem addr) size))
  ]

  read_steps-slice :
      (steps addr left : ℕ) (buf : Bytes)
      → length buf ≡ steps * 4096 + left
      → left ≤ 4096
      → addr < 2 ^ 64
      → read_steps part steps addr left buf ≡ ok (pos 0, slice mem addr (steps * 4096 + left))
  read_steps-slice zero addr left buf size few fits =
      let same : 0 * 4096 + left ≡ left = omega arith in
      left_lem addr left buf (size ∙ same) few fits
      ∙ ap (λ (n : ℕ). ok (pos 0, slice mem addr n)) (sym same)
  read_steps-slice (suc steps) addr left buf size few fits =
      let n : ℕ = steps * 4096 + left in
      let page : length (take 4096 buf) ≡ 4096 = length-take 4096 buf ∙ omega (arith, size) in
      let split : 4096 + n ≡ suc steps * 4096 + left = omega arith in
      step_lem part steps addr left buf (slice mem addr 4096)
        (pos 0, slice mem (u64 (addr + 4096)) n ++ [])
        (s.reads addr (take 4096 buf) fits (omega (arith, page)) (omega (arith, page))
          ∙ ap (λ (k : ℕ). ok (some (slice mem addr k))) page)
        (read_steps-slice steps (u64 (addr + 4096)) left (drop 4096 buf)
            (length-drop 4096 buf ∙ omega arith) few (omega arith)
          ∙ ap (λ (t : Bytes). ok (pos 0, t)) (sym (append-nil (slice mem (u64 (addr + 4096)) n))))
      ∙ ap ok (
          meet mem (pos 0) addr (u64 (addr + 4096)) n (suc steps * 4096 + left) [] s.wraps 4096
            (omega arith) split)
      ∙ ap (λ (t : Bytes). ok (pos 0, t)) (append-nil (slice mem addr (suc steps * 4096 + left)))

-- If each part that is read is the bytes of memory, and memory is the same at addresses that are
-- equal modulo 2^64, then a read of any size from an address of 64 bits, in steps of 4096 bytes,
-- returns 0 and fills the buffer with the bytes of memory.
pub readmem_in_steps-slice :
    (mem : Image) (part : Part) (addr : ℕ) (buffer : Bytes)
    → ServesPart mem part
    → addr < 2 ^ 64
    → readmem_in_steps part addr buffer ≡ ok (pos 0, slice mem addr (length buffer))
unfolding readmem_in_steps
readmem_in_steps-slice mem part addr buffer s fits =
    let size : length buffer ≡ length buffer / 4096 * 4096 + length buffer % 4096 = omega arith in
    read_steps-slice mem part s (length buffer / 4096) addr (length buffer % 4096) buffer size
      (omega arith) fits
    ∙ ap (λ (n : ℕ). ok (pos 0, slice mem addr n)) (sym size)

-- A whole step from this address is read, or fails.
abbrev pub ReadsPage : Image → Part → ℕ → Type 0
ReadsPage mem part a = (buf : Bytes) → length buf ≡ 4096 → part a buf ≡ ok (some (slice mem a 4096))

abbrev pub FailsPage : Part → ℕ → Type 0
FailsPage part a = (buf : Bytes) → length buf ≡ 4096 → part a buf ≡ ok none

stops :
    (part : Part) (steps addr left : ℕ) (buf : Bytes)
    → part addr (take 4096 buf) ≡ ok none
    → read_steps part (suc steps) addr left buf ≡ ok (minus_one, buf)
unfolding read_steps
stops part steps addr left buf e = rw (e, ◌>>=◌, read_steps)

-- If a step fails behind some that were good, in a buffer that has room for them, the read returns
-- -1; the buffer holds the bytes that the good steps read, and behind them what it held before.
pub read_steps_fails :
    (mem : Image) (part : Part) (before after addr left : ℕ) (buf : Bytes)
    → ((a : ℕ) → mem (a % 2 ^ 64) ≡ mem a)
    → addr < 2 ^ 64
    → suc before * 4096 ≤ length buf
    → ((i : ℕ) → i < before → ReadsPage mem part (u64 (addr + i * 4096)))
    → FailsPage part (u64 (addr + before * 4096))
    → read_steps part (before + suc after) addr left buf
      ≡ ok (minus_one, slice mem addr (before * 4096) ++ drop (before * 4096) buf)
read_steps_fails mem part zero after addr left buf wraps fits room good bad =
    let here : u64 (addr + 0 * 4096) ≡ addr = omega arith in
    let steps : 0 + suc after ≡ suc after = omega arith in
    let page : length (take 4096 buf) ≡ 4096 = length-take 4096 buf ∙ omega (arith, room) in
    ap (λ (n : ℕ). read_steps part n addr left buf) steps
    ∙ stops part after addr left buf (subst (FailsPage part) here bad (take 4096 buf) page)
read_steps_fails mem part (suc before) after addr left buf wraps fits room good bad =
    let here : u64 (addr + 0 * 4096) ≡ addr = omega arith in
    let next : ℕ = u64 (addr + 4096) in
    let moved = λ (i : ℕ).
      let same : u64 (addr + suc i * 4096) ≡ u64 (next + i * 4096) = omega arith in same in
    let steps : suc before + suc after ≡ suc (before + suc after) = omega arith in
    let page : length (take 4096 buf) ≡ 4096 = length-take 4096 buf ∙ omega (arith, room) in
    ap (λ (n : ℕ). read_steps part n addr left buf) steps
    ∙ step_lem part (before + suc after) addr left buf (slice mem addr 4096)
        (minus_one, slice mem next (before * 4096) ++ drop (before * 4096) (drop 4096 buf))
        (subst (ReadsPage mem part) here (good 0 (omega arith)) (take 4096 buf) page)
        (read_steps_fails mem part before after next left (drop 4096 buf) wraps (omega arith)
          (omega (arith, room, length-drop 4096 buf))
          (λ i h. subst (ReadsPage mem part) (moved i) (good (suc i) (omega arith)))
          (subst (FailsPage part) (moved before) bad))
    ∙ ap ok (
        meet mem minus_one addr next (before * 4096) (suc before * 4096)
          (drop (before * 4096) (drop 4096 buf)) wraps 4096 (omega arith) (omega arith))
    ∙ ap (λ (t : Bytes). ok (minus_one, slice mem addr (suc before * 4096) ++ t))
        (drop-drop (before * 4096) 4096 buf ∙ ap (λ (n : ℕ). drop n buf) (omega arith))
