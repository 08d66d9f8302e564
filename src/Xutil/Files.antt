-- ===== src/Xutil/Files.antt =====
-- file_read of xutil.c. What open, fstat and read come to is a parameter.
use kvm_dmesg.Base.{ℕ, zero, suc, Bool, Option, none, some, List, ◌==◌, if◌then◌else◌, length}
use kvm_dmesg.Base.Bytes.{Bytes, store_bytes}
use kvm_dmesg.Base.Run.{Run, ok, ◌>>=◌}
use kvm_dmesg.Base.Word.{ℤ, pos, negsuc, minus_one}
use kvm_dmesg.Xutil.{xmalloc}
use kvm_dmesg.Xutil.Io.{Read, xread}

pub record Opened : Type 0 where
  pub opens : Bool
  pub fstat : Option ℤ
  pub reads : List Read

-- What stands at `*dst`, if anything, after the call; where a read comes short it has been freed,
-- also if it was the caller's.
unfoldable pub read_into : List Read → ℕ → Bytes → Run (ℤ × Option Bytes)
read_into reads flen dst = do
  bytes ← xread reads flen
  dst ← store_bytes bytes 0 dst
  ok (if length bytes == flen then (pos 0, some dst) else (minus_one, none))

-- file_read: its result and `*dst`; the length that it stores is the file's.
unfoldable pub file_read : Opened → Option Bytes → Run (ℤ × Option Bytes)
file_read f dst =
    if f.opens
    then elim f.fstat [
      | none ↦ ok (minus_one, dst)
      | some (negsuc n) ↦ ok (minus_one, dst)
      | some (pos zero) ↦ ok (minus_one, dst)
      | some (pos (suc n)) ↦ elim dst [
        | none ↦ read_into f.reads (suc n) (xmalloc (suc n))
        | some object ↦ read_into f.reads (suc n) object
      ]
    ]
    else ok (minus_one, dst)
