-- ===== src/Text/Search.antt =====
-- `strstr` on a buffer: the bytes that it looks at, up to a match or the end of the string.
use kvm_dmesg.Base.{
  ℕ, ◌≤◌, ◌<◌, ◌≡◌, refl, ap, ◌∙◌, ◌≢◌, ◌⊎◌, inl, inr, Bool, ◌||◌, length, length-append, true,
  false, [], ◌∷◌, ◌++◌, arith, ◌==◌, if◌then◌else◌, Option, none, some,
}
use kvm_dmesg.Base.Run.{Run, ok, fault, ◌>>=◌}
use kvm_dmesg.Base.Bytes.{Bytes}

-- Does the string at the front of the buffer begin with `key`? The comparison stops at the first
-- difference; past the buffer's end it is a fault.
unfoldable pub starts_with : Bytes → Bytes → Run Bool
starts_with [] buf = ok true
starts_with (k ∷ ks) [] = fault
starts_with (k ∷ ks) (c ∷ cs) = if c == k then starts_with ks cs else ok false

-- The rest of the buffer from the first match on, or nothing if the string ends before one.
unfoldable pub strstr : Bytes → Bytes → Run (Option Bytes)
unfolding starts_with
strstr [] [] = ok (some [])
strstr [] (k ∷ ks) = fault
strstr (c ∷ cs) key = do
  found ← starts_with key (c ∷ cs)
  elim found [
    | true ↦ ok (some (c ∷ cs))
    | false ↦ elim (c == 0) [ true ↦ ok none | false ↦ strstr cs key ]
  ]

-- `key` stands at the front of `buf`.
unfoldable pub is_prefix : Bytes → Bytes → Bool
is_prefix [] buf = true
is_prefix (k ∷ ks) [] = false
is_prefix (k ∷ ks) (c ∷ cs) = if c == k then is_prefix ks cs else false

-- `key`, which is not empty, stands somewhere in `buf`.
unfoldable pub occurs : Bytes → Bytes → Bool
unfolding is_prefix
occurs key [] = false
occurs key (c ∷ cs) = is_prefix key (c ∷ cs) || occurs key cs

-- strstr of a key that is not empty, in a whole string.
unfoldable pub find : Bytes → Bytes → Option Bytes
unfolding is_prefix
find key [] = none
find key (c ∷ cs) = if is_prefix key (c ∷ cs) then some (c ∷ cs) else find key cs

abbrev pub NoNul : Bytes → Type 0
NoNul [] = Unit {0}
NoNul (c ∷ cs) = (c ≢ 0) × NoNul cs

-- Within the buffer the comparison has its answer; it is a fault only where the buffer ends first.
pub starts_with_lem :
    (key buf : Bytes) → length key ≤ length buf → starts_with key buf ≡ ok (is_prefix key buf)
unfolding starts_with is_prefix
starts_with_lem [] buf h = refl
starts_with_lem (k ∷ ks) [] h = absurd (omega arith)
starts_with_lem (k ∷ ks) (c ∷ cs) h = ground (arith, starts_with_lem ks cs)

starts_with_fails :
    (key buf : Bytes)
    → is_prefix key buf ≡ false
    → (starts_with key buf ≡ ok false) ⊎ (starts_with key buf ≡ fault)
unfolding starts_with is_prefix
starts_with_fails [] buf h = cc
starts_with_fails (k ∷ ks) [] h = inr refl
starts_with_fails (k ∷ ks) (c ∷ cs) h = ground (arith, starts_with_fails ks cs)

strstr_step :
    (c : ℕ) (cs key : Bytes)
    → c ≢ 0
    → starts_with key (c ∷ cs) ≡ ok false
    → strstr (c ∷ cs) key ≡ strstr cs key
unfolding strstr
strstr_step c cs key nonzero e = rw (e, strstr) (ground arith)

strstr_fault :
    (c : ℕ) (cs key : Bytes) → starts_with key (c ∷ cs) ≡ fault → strstr (c ∷ cs) key ≡ fault
unfolding strstr
strstr_fault c cs key e = rw (e, strstr)

-- In a buffer that holds neither the key nor a NUL, strstr runs past the end.
pub strstr_overreads :
    (buf : Bytes) (k : ℕ) (ks : Bytes)
    → NoNul buf
    → occurs (k ∷ ks) buf ≡ false
    → strstr buf (k ∷ ks) ≡ fault
unfolding occurs
strstr_overreads [] k ks clean h = unfold strstr in refl
strstr_overreads (c ∷ cs) k ks clean h = elim (starts_with_fails (k ∷ ks) (c ∷ cs) (ground arith)) [
  | inr over ↦ strstr_fault c cs (k ∷ ks) over
  | inl no_match ↦
      strstr_step c cs (k ∷ ks) clean.0 no_match ∙ strstr_overreads cs k ks clean.1 (ground arith)
]

-- The key does not stand at any place of `pre` in `pre ++ rest`, and `pre` has no NUL.
abbrev pub IsFirst : Bytes → Bytes → Bytes → Type 0
IsFirst key [] rest = Unit {0}
IsFirst key (p ∷ pre) rest =
    (p ≢ 0) × (is_prefix key (p ∷ (pre ++ rest)) ≡ false) × IsFirst key pre rest

is_prefix-append : (key rest : Bytes) → is_prefix key (key ++ rest) ≡ true
unfolding is_prefix
is_prefix-append [] rest = refl
is_prefix-append (k ∷ ks) rest = ground (arith, is_prefix-append ks rest)

strstr_here :
    (buf key : Bytes)
    → starts_with key buf ≡ ok true
    → 0 < length buf
    → strstr buf key ≡ ok (some buf)
unfolding strstr
strstr_here [] key e h = absurd (omega arith)
strstr_here (c ∷ cs) key e h = rw (e, strstr)

-- strstr finds the first place where the key stands.
pub strstr_first :
    (pre : Bytes) (k : ℕ) (ks rest : Bytes)
    → IsFirst (k ∷ ks) pre ((k ∷ ks) ++ rest)
    → strstr (pre ++ ((k ∷ ks) ++ rest)) (k ∷ ks) ≡ ok (some ((k ∷ ks) ++ rest))
strstr_first [] k ks rest h =
    let key : Bytes = k ∷ ks in
    strstr_here (key ++ rest) key
      (starts_with_lem key (key ++ rest) (omega (arith, length-append key rest))
        ∙ ap ok (is_prefix-append key rest))
      (omega arith)
strstr_first (p ∷ pre) k ks rest h =
    let key : Bytes = k ∷ ks in
    strstr_step p (pre ++ (key ++ rest)) key h.0 (
      starts_with_lem key (p ∷ (pre ++ (key ++ rest)))
        (omega (arith, length-append pre (key ++ rest), length-append key rest))
      ∙ ap ok h.1)
    ∙ strstr_first pre k ks rest h.2
