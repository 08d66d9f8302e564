-- ===== src/Xutil/Strings.antt =====
-- The copies of strings in xutil.c: xstrcpy and xstrlcpy.
use kvm_dmesg.Base.{
  ℕ, zero, suc, ◌≤◌, ◌≡◌, min, [], ◌∷◌, ◌++◌, arith, ◌==◌, if◌then◌else◌, length, take, drop, ne→==,
}
use kvm_dmesg.Base.Bytes.{Bytes}
use kvm_dmesg.Base.Run.{Run, ok, fault, ◌>>=◌}
use kvm_dmesg.Text.Search.{NoNul}

-- xstrcpy: the object that `dst` points to, after the copy of the string with its NUL.
unfoldable pub xstrcpy : Bytes → Bytes → Run Bytes
xstrcpy [] src = fault
xstrcpy (d ∷ dst) [] = fault
xstrcpy (d ∷ dst) (c ∷ src) =
    if c == 0 then ok (0 ∷ dst) else (do rest ← xstrcpy dst src; ok (c ∷ rest))

-- The loop of xstrlcpy with `--size`, and the NUL behind it: the object, and what has been copied.
unfoldable pub copy_within : Bytes → Bytes → ℕ → Run (ℕ × Bytes)
copy_within [] src size = fault
copy_within (d ∷ dst) src zero = ok (0, 0 ∷ dst)
copy_within (d ∷ dst) [] (suc size) = fault
copy_within (d ∷ dst) (c ∷ src) (suc size) =
    if c == 0
    then ok (0, 0 ∷ dst)
    else (do (n, rest) ← copy_within dst src size; ok (suc n, c ∷ rest))

unfoldable pub xstrlcpy : Bytes → Bytes → ℕ → Run (ℕ × Bytes)
xstrlcpy dst src zero = ok (0, dst)
xstrlcpy dst src (suc size) = copy_within dst src size

copied :
    (dst s rest : Bytes) (size : ℕ)
    → NoNul s
    → suc size ≤ length dst
    → copy_within dst (s ++ 0 ∷ rest) size
      ≡ ok (min size (length s), take size s ++ 0 ∷ drop (suc (min size (length s))) dst)
unfolding copy_within
copied [] s rest size h room = absurd (omega arith)
copied (d ∷ dst) s rest zero h room =
    let none_taken : min 0 (length s) ≡ 0 = omega arith in rw none_taken
copied (d ∷ dst) [] rest (suc size) h room =
    let none_taken : min (suc size) 0 ≡ 0 = omega arith in rw none_taken
copied (d ∷ dst) (c ∷ s) rest (suc size) (p, h) room =
    let one_more : min (suc size) (suc (length s)) ≡ suc (min size (length s)) = omega arith in
    rw (ne→== c 0 p, copied dst s rest size h (omega arith), one_more)

-- A string that stands with its NUL in an object is copied up to the size less one, ends in a NUL,
-- and the rest of a destination that has room is kept; what is returned is how much was copied.
pub xstrlcpy-take :
    (dst s rest : Bytes) (size : ℕ)
    → NoNul s
    → suc size ≤ length dst
    → xstrlcpy dst (s ++ 0 ∷ rest) (suc size)
      ≡ ok (min size (length s), take size s ++ 0 ∷ drop (suc (min size (length s))) dst)
unfolding xstrlcpy
xstrlcpy-take dst s rest size h room = copied dst s rest size h room
