-- ===== src/Guest/Translate.antt =====
-- What readmem does with a guest whose memory is a given image.
use kvm_dmesg.Base.{
  ℕ, zero, suc, ◌+◌, ◌-◌, ◌≤◌, ◌<◌, ◌==◌, ◌++◌, false, ne→==, lt→ltb, replicate, length-append,
  length-replicate, length-take, ◌≡◌, refl, ap, [], ◌∷◌, some, arith, length, take, drop, le→ltb,
  append-nil, le→leb,
}
use kvm_dmesg.Base.Bytes.{Bytes, load, le}
use kvm_dmesg.Base.Run.{ok, fault}
use kvm_dmesg.Base.Word.{pos}
use kvm_dmesg.Guest.{MemType, paddr_of, readmem, marks_stand, read_beyond}
use kvm_dmesg.Machine.{Machine, GuestClient}

-- The guest's physical memory, and `n` bytes of it from an address on.
abbrev pub Image : Type 0
Image = ℕ → ℕ

abbrev pub slice : Image → ℕ → ℕ → Bytes
slice mem a zero = []
slice mem a (suc n) = mem a ∷ slice mem (a + 1) n

pub length-slice : (mem : Image) (a n : ℕ) → length (slice mem a n) ≡ n
length-slice mem a zero = refl
length-slice mem a (suc n) = ap suc (length-slice mem (a + 1) n)

pub take-slice : (mem : Image) (w a n : ℕ) → w ≤ n → take w (slice mem a n) ≡ slice mem a w
take-slice mem zero a n h = refl
take-slice mem (suc w) a zero h = absurd (omega arith)
take-slice mem (suc w) a (suc n) h = ap (◌∷◌ (mem a)) (take-slice mem w (a + 1) n (omega arith))

drop-slice : (mem : Image) (off a n : ℕ) → drop off (slice mem a n) ≡ slice mem (a + off) (n - off)
drop-slice mem zero a n =
    let e : a + 0 ≡ a = omega arith in let f : n - 0 ≡ n = omega arith in rw (e, f)
drop-slice mem (suc off) a zero = let f : zero - suc off ≡ 0 = omega arith in rw f
drop-slice mem (suc off) a (suc n) =
    let e : a + suc off ≡ a + 1 + off = omega arith in
    let f : suc n - suc off ≡ n - off = omega arith in rw (e, f) (drop-slice mem off (a + 1) n)

-- A load from a copy of memory is the number that stands in memory.
pub load-slice :
    (mem : Image) (w off a n : ℕ)
    → off + w ≤ n
    → load w (slice mem a n) off ≡ ok (le (slice mem (a + off) w))
unfolding load
load-slice mem w off a n h = rw (
  le→leb (off + w) (length (slice mem a n)) (omega (arith, length-slice mem a n)),
  drop-slice mem off a n,
  take-slice mem w (a + off) (n - off) (omega arith),
)

-- The client is there, and reads the memory `mem`: every read succeeds and fills the buffer.
pub record Serves (mem : Image) (m : Machine) : Type 0 where
  pub client : GuestClient
  pub chosen : m.client ≡ some client
  pub reads : (a : ℕ) (buf : Bytes) → client.readmem a buf ≡ ok (pos 0, slice mem a (length buf))

take_all : (buf : Bytes) (n : ℕ) → length buf ≡ n → take n buf ≡ buf
take_all [] zero h = refl
take_all [] (suc n) h = absurd (omega arith)
take_all (b ∷ bs) zero h = absurd (omega arith)
take_all (b ∷ bs) (suc n) h = ap (◌∷◌ b) (take_all bs n (omega arith))

pub drop_all : (buf : Bytes) (n : ℕ) → length buf ≡ n → drop n buf ≡ []
drop_all [] zero h = refl
drop_all [] (suc n) h = refl
drop_all (b ∷ bs) zero h = absurd (omega arith)
drop_all (b ∷ bs) (suc n) h = drop_all bs n (omega arith)

-- With a client that serves the guest's memory, a read of a whole buffer returns 0 and the bytes of
-- memory from the translated address on.
pub readmem-Serves :
    (mem : Image) (m : Machine) (addr : ℕ) (kind : MemType) (buf : Bytes) (size : ℕ)
    → Serves mem m
    → length buf ≡ size
    → readmem m addr kind buf size ≡ ok (pos 0, slice mem (paddr_of m addr kind) size)
unfolding readmem paddr_of
readmem-Serves mem m addr kind buf size s h = rw (
  s.chosen,
  le→ltb (length buf) size (omega arith),
  take_all buf size h,
  drop_all buf size h,
  s.reads (paddr_of m addr kind) buf,
  append-nil (slice mem (paddr_of m addr kind) (length buf)),
  h,
)

marks_over : (mem : Image) (a n : ℕ) → mem a < 256 → 0 < n → marks_stand (slice mem a n) ≡ false
marks_over mem a zero h some_room = absurd (omega arith)
marks_over mem a (suc n) h some_room =
    let other : (mem a == 256) ≡ false = ne→== (mem a) 256 (λ e. absurd (omega arith)) in rw other

-- With a client that serves the guest's memory, which holds bytes, a read of more bytes than the
-- buffer has writes behind its end.
pub readmem_overflows :
    (mem : Image) (m : Machine) (addr : ℕ) (kind : MemType) (buf : Bytes) (size : ℕ)
    → Serves mem m
    → ((a : ℕ) → mem a < 256)
    → length buf < size
    → readmem m addr kind buf size ≡ fault
unfolding readmem read_beyond paddr_of
readmem_overflows mem m addr kind buf size s bytes h =
    let n : ℕ = size - length buf in
    let p : ℕ = paddr_of m addr kind in
    let behind : length (buf ++ replicate n 256) - length buf ≡ n =
      omega (arith, length-append buf (replicate n 256), length-replicate {A = ℕ} n 256) in
    rw (
      s.chosen,
      lt→ltb (length buf) size h,
      s.reads p (buf ++ replicate n 256),
      drop-slice mem (length buf) p (length (buf ++ replicate n 256)),
      behind,
      marks_over mem (p + length buf) n (bytes (p + length buf)) (omega arith),
    )

-- A read into a buffer that has more room.
pub readmem_room :
    (image : Image) (m : Machine) (addr : ℕ) (kind : MemType) (size : ℕ) (buf : Bytes)
    → Serves image m
    → size ≤ length buf
    → readmem m addr kind buf size
      ≡ ok (pos 0, slice image (paddr_of m addr kind) size ++ drop size buf)
unfolding readmem paddr_of
readmem_room image m addr kind size buf s h =
    let taken : length (take size buf) ≡ size = omega (arith, length-take size buf) in
    rw (s.chosen, le→ltb (length buf) size h, s.reads (paddr_of m addr kind) (take size buf), taken)
