-- ===== src/Client.antt =====
-- How a client reads the guest's memory: in steps of 4096 bytes (libvirt_readmem of libvirt_client.c
-- and qmp_readmem of qmp_client.c), or from a file (file_client_init and its companions).
pub mod Steps
pub mod File
pub mod Libvirt
pub mod Qmp
pub mod Life
use kvm_dmesg.Base.{
  ℕ, zero, suc, ◌+◌, ◌-◌, ◌/◌, ◌%◌, ◌^◌, ltb, Bool, true, false, not, Option, none, some, [], ◌++◌,
  ◌==◌, if◌then◌else◌, length, drop, take,
}
use kvm_dmesg.Base.Bytes.{Bytes}
use kvm_dmesg.Base.Run.{Run, ok, ◌>>=◌}
use kvm_dmesg.Base.Word.{ℤ, pos, negsuc, minus_one, u32, u64}
use kvm_dmesg.Machine.{GuestClient, GuestAccess, guest_memory, Registers}

-- One read of a part into a buffer of its size: the buffer's bytes, or nothing if it failed, which
-- leaves the buffer.
abbrev pub Part : Type 0
Part = ℕ → Bytes → Run (Option Bytes)

-- The part behind the whole steps.
abbrev pub read_left : Option Bytes → ℕ → Bytes → ℤ × Bytes
read_left none left buf = (minus_one, buf)
read_left (some bytes) left buf = (pos 0, bytes ++ drop left buf)

-- The loop with the steps to go, and what stands behind it. A step that fails ends it.
unfoldable pub read_steps : Part → ℕ → ℕ → ℕ → Bytes → Run (ℤ × Bytes)
read_steps part zero addr left buf =
    if left == 0
    then ok (pos 0, buf)
    else (do got ← part addr (take left buf); ok (read_left got left buf))
read_steps part (suc steps) addr left buf = do
  got ← part addr (take 4096 buf)
  elim got [
    | none ↦ ok (minus_one, buf)
    | some bytes ↦ do
      (r, rest) ← read_steps part steps (u64 (addr + 4096)) left (drop 4096 buf)
      ok (r, bytes ++ rest)
  ]

-- libvirt_readmem and qmp_readmem, by the function that reads a part.
unfoldable pub readmem_in_steps : Part → ℕ → Bytes → Run (ℤ × Bytes)
readmem_in_steps part addr buffer =
    read_steps part (length buffer / 4096) addr (length buffer % 4096) buffer

-- fseek and fread on `mem_file`: whether the position can be set, and the bytes that were read with
-- what feof says afterwards.
pub record MemFile : Type 0 where
  pub fseek : ℕ → Bool
  pub fread : ℕ → ℕ → Bytes × Bool

-- A `size_t` that is returned as an `int`.
abbrev pub returned : ℕ → ℤ
returned n = let bits = u32 n in if ltb bits (2 ^ 31) then pos bits else negsuc (2 ^ 32 - 1 - bits)

-- What file_readmem makes of the result of fread.
unfoldable pub file_result : Bytes → Bytes → Bool → ℤ × Bytes
file_result buffer got eof =
    let filled = got ++ drop (length got) buffer in
    if length got == length buffer
    then (pos 0, filled)
    else if eof
    then (returned (length got), filled)
    else (minus_one, filled)

unfoldable pub file_readmem : MemFile → ℕ → Bytes → Run (ℤ × Bytes)
file_readmem file addr buffer =
    if file.fseek addr
    then (let (got, eof) = file.fread addr (length buffer) in ok (file_result buffer got eof))
    else ok (minus_one, buffer)

-- file_get_registers: the registers of one guest.
abbrev pub file_get_registers : Registers → Run (ℤ × Registers)
file_get_registers before =
    ok (pos 0, record { cr3 = 0x1987_2000; idtr = 0xffff_ffff_ff52_8000; cr4 = 0 })

-- The client that guest_client_new makes for a file.
abbrev pub file_client : MemFile → GuestClient
file_client file = record {
  ty = guest_memory;
  get_registers = file_get_registers;
  readmem = file_readmem file;
}
