-- ===== src/Base/Bytes.antt =====
-- Buffers of bytes, little-endian loads from them, and the layout of structures in them.
use kvm_dmesg.Base.Lists.{length, take, drop, length-append, take-append, get_elem?, get_elem?-lt}
use kvm_dmesg.Base.Run.{Run, ok, fault}
use kvm_dmesg.Base.Tests.{leb, if◌then◌else◌, le→leb, lt→leb}
use Prim.Native.Nat.{ℕ, zero, suc, ◌+◌, ◌*◌, ◌/◌, ◌%◌, ◌^◌, ◌≤◌, ◌<◌}
use Prim.Native.Nat.add
use mathlib.Core.Path.{◌≡◌, refl, sym, ap, ◌∙◌}
use mathlib.Core.Option.{none, some, some-injective}
use mathlib.Core.List.{List, [], ◌∷◌, ◌++◌, append_assoc}
use native.Mathlib.Nat.{pow-suc}
use native.Mathlib.Omega.{arith}

abbrev pub Bytes : Type 0
Bytes = List ℕ

unfoldable pub le : Bytes → ℕ
le [] = 0
le (b ∷ bs) = b + 256 * le bs

-- The little-endian bytes of a number, at a width.
unfoldable pub encode : ℕ → ℕ → Bytes
encode zero v = []
encode (suc w) v = v % 256 ∷ encode w (v / 256)

-- A load of `w` bytes at an offset; outside the buffer it is a fault.
unfoldable pub load : ℕ → Bytes → ℕ → Run ℕ
load w buf off = if leb (off + w) (length buf) then ok (le (take w (drop off buf))) else fault

-- ULONG, ULONGLONG, UINT and USHORT of defs.h.
abbrev pub ulong : Bytes → ℕ → Run ℕ
ulong = load 8

abbrev pub uint : Bytes → ℕ → Run ℕ
uint = load 4

abbrev pub ushort : Bytes → ℕ → Run ℕ
ushort = load 2

-- `buf[i]` of a `char *`.
unfoldable pub byte_at : Bytes → ℕ → Run ℕ
byte_at buf i = elim (get_elem? buf i) [ some c ↦ ok c | none ↦ fault ]

-- Stores of consecutive bytes, from an offset on; outside the buffer they are a fault.
unfoldable pub store_bytes : Bytes → ℕ → Bytes → Run Bytes
store_bytes bytes off buf =
    if leb (off + length bytes) (length buf)
    then ok (take off buf ++ (bytes ++ drop (off + length bytes) buf))
    else fault

pub byte_at-some : (buf : Bytes) (i c : ℕ) → get_elem? buf i ≡ some c → byte_at buf i ≡ ok c
unfolding byte_at
byte_at-some buf i c e = rw (e, byte_at)

pub byte_at-beyond : (buf : Bytes) (i : ℕ) → length buf ≤ i → byte_at buf i ≡ fault
unfolding byte_at
byte_at-beyond [] i h = refl
byte_at-beyond (b ∷ bs) zero h = absurd (omega arith)
byte_at-beyond (b ∷ bs) (suc i) h = byte_at-beyond bs i (omega arith)

pub length-encode : (w v : ℕ) → length (encode w v) ≡ w
unfolding encode
length-encode zero v = refl
length-encode (suc w) v = ap suc (length-encode w (v / 256))

pub le-encode : (w v : ℕ) → v < 256 ^ w → le (encode w v) ≡ v
unfolding le encode
le-encode zero v h = omega arith
le-encode (suc w) v h =
    let room : v < 256 ^ w * 256 = omega (arith, pow-suc 256 w) in
    omega (arith, le-encode w (v / 256) (omega arith))

take-drop-append :
    (w off : ℕ) (buf post : Bytes)
    → off + w ≤ length buf
    → take w (drop off (buf ++ post)) ≡ take w (drop off buf)
take-drop-append zero off buf post h = refl
take-drop-append (suc w) zero [] post h = absurd (omega arith)
take-drop-append (suc w) zero (b ∷ bs) post h =
    ap (◌∷◌ b) (take-drop-append w 0 bs post (omega arith))
take-drop-append (suc w) (suc off) [] post h = absurd (omega arith)
take-drop-append (suc w) (suc off) (b ∷ bs) post h =
    take-drop-append (suc w) off bs post (omega arith)

drop-append_add : (pre buf : Bytes) (off : ℕ) → drop (length pre + off) (pre ++ buf) ≡ drop off buf
drop-append_add [] buf off = rw (add.zero off)
drop-append_add (p ∷ pre) buf off = rw (add.suc (length pre) off) (drop-append_add pre buf off)

-- A load that lies in the first part of a buffer, and one that lies behind it.
pub load-append_left :
    (w off : ℕ) (buf post : Bytes)
    → off + w ≤ length buf
    → load w (buf ++ post) off ≡ load w buf off
unfolding load
load-append_left w off buf post h = rw (
  le→leb (off + w) (length buf) h,
  le→leb (off + w) (length (buf ++ post)) (omega (arith, length-append buf post)),
  take-drop-append w off buf post h,
)

pub load-append_right :
    (w off : ℕ) (pre buf : Bytes)
    → off + w ≤ length buf
    → load w (pre ++ buf) (length pre + off) ≡ load w buf off
unfolding load
load-append_right w off pre buf h = rw (
  le→leb (off + w) (length buf) h,
  le→leb (length pre + off + w) (length (pre ++ buf)) (omega (arith, length-append pre buf)),
  drop-append_add pre buf off,
)

pub load-encode : (w v : ℕ) (post : Bytes) → v < 256 ^ w → load w (encode w v ++ post) 0 ≡ ok v
unfolding load
load-encode w v post h = rw (
  le→leb (0 + w) (length (encode w v ++ post))
      (omega (arith, length-append (encode w v) post, length-encode w v)),
  take-encode,
  le-encode w v h,
)
  where
    take-encode : take w (encode w v ++ post) ≡ encode w v
    take-encode =
        ap (λ (n : ℕ). take n (encode w v ++ post)) (sym (length-encode w v))
        ∙ take-append (encode w v) post

slot_room : (n i size : ℕ) → i < n → i * size + size ≤ n * size
slot_room n i size h = grind arith

-- An array of structures that all take `size` bytes.
module _ {ℓ} {A : Type ℓ} (layout : A → Bytes) (size : ℕ) where
  unfoldable pub array : List A → Bytes
  array [] = []
  array (x ∷ xs) = layout x ++ array xs

  module _ (uniform : (x : A) → length (layout x) ≡ size) where
    pub length-array : (xs : List A) → length (array xs) ≡ length xs * size
    unfolding array
    length-array [] = omega arith
    length-array (x ∷ xs) =
        omega (arith, length-append (layout x) (array xs), uniform x, length-array xs)

    -- A load inside element `i` is that load in the element's own bytes.
    pub load-array :
        (w off : ℕ) (xs : List A) (i : ℕ) (x : A)
        → get_elem? xs i ≡ some x
        → off + w ≤ size
        → load w (array xs) (i * size + off) ≡ load w (layout x) off
    unfolding array
    load-array w off [] i x e h = cc
    load-array w off (y ∷ ys) zero x e h =
        let fits : off + w ≤ length (layout y) = omega (arith, uniform y) in
        let first : 0 * size + off ≡ off = omega arith in
        rw first (
          load-append_left w off (layout y) (array ys) fits
          ∙ ap (λ (z : A). load w (layout z) off) (some-injective y x e))
    load-array w off (y ∷ ys) (suc i) x e h =
        let inside = slot_room (length ys) i size (get_elem?-lt ys i x e) in
        let fits : i * size + off + w ≤ length (array ys) = omega (arith, length-array ys) in
        let next : suc i * size + off ≡ length (layout y) + (i * size + off) =
          omega (arith, uniform y) in
        rw next (
          load-append_right w (i * size + off) (layout y) (array ys) fits
          ∙ load-array w off ys i x e h)

-- The next stores behind those that are done.
pub store_bytes-next :
    (before bytes rest : Bytes)
    → length bytes ≤ length rest
    → store_bytes bytes (length before) (before ++ rest)
      ≡ ok ((before ++ bytes) ++ drop (length bytes) rest)
unfolding store_bytes
store_bytes-next before bytes rest h =
    rw
      (
        le→leb (length before + length bytes) (length (before ++ rest))
            (omega (arith, length-append before rest)),
        take-append before rest,
        drop-append_add before rest (length bytes),
      )
      (ap ok (sym (append_assoc before bytes (drop (length bytes) rest))))

pub store_bytes_beyond :
    (before bytes rest : Bytes)
    → length rest < length bytes
    → store_bytes bytes (length before) (before ++ rest) ≡ fault
unfolding store_bytes
store_bytes_beyond before bytes rest h = rw (
    lt→leb (length before + length bytes) (length (before ++ rest))
      (omega (arith, length-append before rest)))
