-- ===== src/Guest.antt =====
-- libvirt_client.c, the part that does not depend on how the guest is reached: readmem and
-- get_cr3_idtr.
pub mod Translate
use Prim.Native.Nat.{bit_and}
use kvm_dmesg.Base.{
  ℕ, ◌+◌, ◌-◌, ◌≡◌, refl, Bool, true, false, [], ◌∷◌, ◌&&◌, ◌==◌, replicate, ◌++◌, leb, ltb,
  if◌then◌else◌, none, some, length, take, drop,
}
use kvm_dmesg.Base.Bytes.{Bytes}
use kvm_dmesg.Base.Run.{Run, ok, fault, ◌>>=◌}
use kvm_dmesg.Base.Word.{ℤ, add64, sub64}
use kvm_dmesg.Machine.{Machine, GuestClient, Registers}

-- KVADDR, UVADDR and PHYSADDR.
pub data MemType : Type 0 where
  kvaddr uvaddr physaddr : MemType

abbrev pub start_kernel_map : ℕ
start_kernel_map = 0xffff_ffff_8000_0000

-- The `switch` of readmem; `paddr` starts as 0, and UVADDR has no case.
unfoldable pub paddr_of : Machine → ℕ → MemType → ℕ
paddr_of m addr kvaddr =
    let spec = m.machdep.machspec in
    if leb start_kernel_map addr
    then add64 (sub64 addr start_kernel_map) spec.phys_base
    else sub64 addr spec.page_offset
paddr_of m addr physaddr = addr
paddr_of m addr uvaddr = 0

-- What stands behind a buffer's end: 256, which is no byte, so that a write there shows.
abbrev pub marks_stand : Bytes → Bool
marks_stand [] = true
marks_stand (b ∷ bs) = b == 256 && marks_stand bs

-- A read of more bytes than the buffer has. It is a fault if the client writes behind the end; a client
-- that fails before it comes there does not.
unfoldable pub read_beyond : GuestClient → ℕ → Bytes → ℕ → Run (ℤ × Bytes)
read_beyond c paddr buffer size = do
  (r, filled) ← c.readmem paddr (buffer ++ replicate (size - length buffer) 256)
  if marks_stand (drop (length buffer) filled) then ok (r, take (length buffer) filled) else fault

-- The client is called through `guest_client`, which must not be NULL, and fills `size` bytes of the
-- buffer.
unfoldable pub readmem : Machine → ℕ → MemType → Bytes → ℕ → Run (ℤ × Bytes)
readmem m addr memtype buffer size = elim m.client [
  | none ↦ fault
  | some c ↦
      if ltb (length buffer) size then read_beyond c (paddr_of m addr memtype) buffer size else do
        (r, filled) ← c.readmem (paddr_of m addr memtype) (take size buffer)
        ok (r, filled ++ drop size buffer)
]

-- get_cr3_idtr; the client's result is not looked at.
unfoldable pub get_cr3_idtr : Machine → ℕ → ℕ → ℕ → Run (ℕ × ℕ)
get_cr3_idtr m cr3 idtr cr4 = elim m.client [
  | none ↦ fault
  | some c ↦ do
    (r, regs) ← c.get_registers (record { idtr = idtr; cr3 = cr3; cr4 = cr4 })
    ok (regs.cr3, regs.idtr)
]
