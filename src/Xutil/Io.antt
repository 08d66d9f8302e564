-- ===== src/Xutil/Io.antt =====
-- xread and xwrite of xutil.c. What the calls of read and write come to is a parameter: the list of
-- their results in order. Behind the list a call does not return.
use kvm_dmesg.Base.{
  ℕ, zero, suc, ◌+◌, ◌-◌, ◌≤◌, ◌≡◌, refl, sym, ap, min, List, [], ◌∷◌, ◌++◌, arith, length, take,
  length-append, length-take, take-append_split, ◌⊎◌, inl, inr,
}
use kvm_dmesg.Base.Bytes.{Bytes}
use kvm_dmesg.Base.Run.{Run, ok, diverges, ◌>>=◌}

-- A result of read: the bytes that wait, of which it takes what fits, or -1 with EINTR, or -1 with
-- another error. No bytes are the end of the file.
pub data Read : Type 0 where
  arrived : Bytes → Read
  interrupted failed : Read

-- The bytes that xread puts into the buffer; their number is what it returns.
unfoldable pub xread : List Read → ℕ → Run Bytes
xread reads zero = ok []
xread [] (suc n) = diverges
xread (interrupted ∷ reads) (suc n) = xread reads (suc n)
xread (failed ∷ reads) (suc n) = ok []
xread (arrived [] ∷ reads) (suc n) = ok []
xread (arrived (c ∷ cs) ∷ reads) (suc n) = do
  rest ← xread reads (suc n - length (take (suc n) (c ∷ cs)))
  ok (take (suc n) (c ∷ cs) ++ rest)

-- A result of write: how many bytes it took, at most what is left, or -1.
pub data Write : Type 0 where
  wrote : ℕ → Write
  interrupted failed : Write

-- What xwrite returns.
unfoldable pub xwrite : List Write → ℕ → Run ℕ
xwrite writes zero = ok 0
xwrite [] (suc n) = diverges
xwrite (interrupted ∷ writes) (suc n) = xwrite writes (suc n)
xwrite (failed ∷ writes) (suc n) = ok 0
xwrite (wrote zero ∷ writes) (suc n) = ok 0
xwrite (wrote (suc k) ∷ writes) (suc n) = do
  total ← xwrite writes (suc n - min (suc n) (suc k))
  ok (min (suc n) (suc k) + total)

-- What the calls of read bring before one fails or finds the end.
unfoldable pub incoming : List Read → Bytes
incoming [] = []
incoming (interrupted ∷ reads) = incoming reads
incoming (failed ∷ reads) = []
incoming (arrived [] ∷ reads) = []
incoming (arrived (c ∷ cs) ∷ reads) = (c ∷ cs) ++ incoming reads

-- One of the calls fails or finds the end.
abbrev pub IsClosed : List Read → Type 0
IsClosed [] = ⊥
IsClosed (interrupted ∷ reads) = IsClosed reads
IsClosed (failed ∷ reads) = Unit {0}
IsClosed (arrived [] ∷ reads) = Unit {0}
IsClosed (arrived (c ∷ cs) ∷ reads) = IsClosed reads

-- Enough comes, or it is known that no more does.
abbrev pub Suffices : List Read → ℕ → Type 0
Suffices reads n = (n ≤ length (incoming reads)) ⊎ IsClosed reads

behind :
    (reads : List Read) (n : ℕ) (bytes : Bytes)
    → (n ≤ length (bytes ++ incoming reads)) ⊎ IsClosed reads
    → Suffices reads (n - length (take n bytes))
behind reads n bytes (inl h) =
    inl (omega (arith, h, length-append bytes (incoming reads), length-take n bytes))
behind reads n bytes (inr h) = inr h

-- If enough bytes arrive, or a call fails or finds the end, xread puts the bytes that arrive into
-- the buffer, up to its size and up to the first failure; calls that a signal interrupts change
-- nothing.
pub xread-take :
    (reads : List Read) (n : ℕ) → Suffices reads n → xread reads n ≡ ok (take n (incoming reads))
unfolding xread incoming
xread-take reads zero h = refl
xread-take [] (suc n) (inl h) = absurd (omega arith)
xread-take [] (suc n) (inr h) = absurd h
xread-take (interrupted ∷ reads) (suc n) h = xread-take reads (suc n) h
xread-take (failed ∷ reads) (suc n) h = refl
xread-take (arrived [] ∷ reads) (suc n) h = refl
xread-take (arrived (c ∷ cs) ∷ reads) (suc n) h =
    let got : Bytes = take (suc n) (c ∷ cs) in
    rw (xread-take reads (suc n - length got) (behind reads (suc n) (c ∷ cs) h))
      (ap ok (sym (take-append_split (suc n) (c ∷ cs) (incoming reads))))
