-- ===== src/Kaslr/Gate.antt =====
-- get_vec0_addr on a guest whose memory is a given image.
use kvm_dmesg.Base.{ℕ, ◌+◌, ◌*◌, ◌^◌, ◌<◌, ◌≡◌, arith, length}
use kvm_dmesg.Base.Bytes.{Bytes, le}
use kvm_dmesg.Base.Run.{ok}
use kvm_dmesg.Base.Word.{u64}
use kvm_dmesg.Guest.{physaddr, paddr_of}
use kvm_dmesg.Guest.Translate.{Image, slice, load-slice, Serves, readmem-Serves}
use kvm_dmesg.Kaslr.{get_vec0_addr}
use kvm_dmesg.Machine.{Machine}
use kvm_dmesg.Paging.Walk.{IsImage, le-slice-lt}

-- The handler's address in the gate at a physical address.
abbrev pub handler_at : Image → ℕ → ℕ
handler_at mem gate =
    le (slice mem (gate + 8) 4) * 2 ^ 32
    + le (slice mem (gate + 6) 2) * 2 ^ 16
    + le (slice mem gate 2)

handler_fits :
    (a b c : ℕ)
    → a < 2 ^ 32
    → b < 2 ^ 16
    → c < 2 ^ 16
    → u64 (a * 2 ^ 32 + b * 2 ^ 16 + c) ≡ a * 2 ^ 32 + b * 2 ^ 16 + c
handler_fits a b c p q r = omega arith

pub handler_at-lt : (mem : Image) → IsImage mem → (gate : ℕ) → handler_at mem gate < 2 ^ 64
handler_at-lt mem bytes gate = omega (
  arith,
  le-slice-lt mem bytes 4 (gate + 8),
  le-slice-lt mem bytes 2 (gate + 6),
  le-slice-lt mem bytes 2 gate,
)

-- With a client that serves the guest's memory, which holds bytes, and a gate of 16 bytes,
-- get_vec0_addr returns the handler's address that the three parts in the gate make up.
pub get_vec0_addr_lem :
    (mem : Image) (m : Machine) (local : Bytes) (gate : ℕ)
    → IsImage mem
    → Serves mem m
    → length local ≡ 16
    → get_vec0_addr m local gate ≡ ok (handler_at mem gate)
unfolding get_vec0_addr paddr_of
get_vec0_addr_lem mem m local gate bytes s room =
    let same : gate + 0 ≡ gate = omega arith in
    rw (
      readmem-Serves mem m gate physaddr local 16 s room,
      load-slice mem 2 0 gate 16 (omega arith),
      load-slice mem 2 6 gate 16 (omega arith),
      load-slice mem 4 8 gate 16 (omega arith),
      same,
      handler_fits _ _ _ (le-slice-lt mem bytes 4 (gate + 8)) (le-slice-lt mem bytes 2 (gate + 6))
          (le-slice-lt mem bytes 2 gate),
    )
