-- ===== src/Xutil.antt =====
-- xutil.c: the helpers that allocate, that read and write, and those on strings.
pub mod Io
pub mod Strings
pub mod Numbers
pub mod Files
use kvm_dmesg.Base.{ℕ, replicate}
use kvm_dmesg.Base.Bytes.{Bytes}
use kvm_dmesg.Base.Word.{u32}

-- xmalloc takes an `unsigned int`, and clears what it allocates.
abbrev pub xmalloc : ℕ → Bytes
xmalloc size = replicate (u32 size) 0
