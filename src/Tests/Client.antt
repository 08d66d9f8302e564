-- ===== src/Tests/Client.antt =====
-- A guest that is all zeros, a file of three bytes, and reads of them.
use kvm_dmesg.Base.{
  ℕ, suc, ◌+◌, ◌-◌, ◌*◌, ◌^◌, ◌≡◌, refl, [], ◌∷◌, ◌++◌, some, none, ltb, if◌then◌else◌, arith,
  length, take, drop, replicate, ap, length-replicate, lt→ltb,
}
use kvm_dmesg.Base.Bytes.{Bytes}
use kvm_dmesg.Base.Run.{ok}
use kvm_dmesg.Base.Word.{pos, minus_one, u64}
use kvm_dmesg.Client.{Part, MemFile, read_steps, readmem_in_steps, file_readmem}
use kvm_dmesg.Client.File.{HasContents, file_readmem_beyond}
use kvm_dmesg.Client.Steps.{ServesPart, readmem_in_steps-slice, read_steps_fails}
use kvm_dmesg.Guest.Translate.{Image, slice}

abbrev zeros : Image
zeros a = 0

abbrev all_parts : Part
all_parts a buf = ok (some (slice zeros a (length buf)))

all_parts-ServesPart : ServesPart zeros all_parts
all_parts-ServesPart = record { reads = λ a buf fits some_bytes few. refl; wraps = λ a. refl }

readmem_in_steps-slice_example :
    readmem_in_steps all_parts (2 ^ 64 - 5000) (replicate 10 7)
    ≡ ok (pos 0, slice zeros (2 ^ 64 - 5000) (length (replicate {A = ℕ} 10 7)))
readmem_in_steps-slice_example =
    readmem_in_steps-slice zeros all_parts (2 ^ 64 - 5000) (replicate 10 7) all_parts-ServesPart
      (omega arith)

-- Nothing can be read from 8192 on.
abbrev two_parts : Part
two_parts a buf = if ltb a 8192 then ok (some (slice zeros a (length buf))) else ok none

read_steps_fails_example :
    read_steps two_parts (2 + suc 3) 0 5 (replicate 12288 7)
    ≡ ok (minus_one, slice zeros 0 (2 * 4096) ++ drop (2 * 4096) (replicate 12288 7))
read_steps_fails_example =
    read_steps_fails zeros two_parts 2 3 0 5 (replicate 12288 7) (λ a. refl) (omega arith)
      (omega (arith, length-replicate {A = ℕ} 12288 7))
      (λ i h buf size.
        rw (lt→ltb (u64 (0 + i * 4096)) 8192 (omega arith))
          (ap (λ (n : ℕ). ok (some (slice zeros (u64 (0 + i * 4096)) n))) size))
      (λ buf size. refl)

abbrev contents : Bytes
contents = 1 ∷ 2 ∷ 3 ∷ []

abbrev file : MemFile
file = record {
  fseek = λ addr. ltb addr (2 ^ 63);
  fread = λ addr n. (take n (drop addr contents), ltb 3 (addr + n));
}

file-HasContents : HasContents contents file
file-HasContents = record {
  seeks = λ addr. refl;
  reads = λ addr n. refl;
  at_end = λ addr n h. lt→ltb 3 (addr + n) h;
}

file_readmem_beyond_example : file_readmem file 5 (9 ∷ 9 ∷ []) ≡ ok (pos 0, 9 ∷ 9 ∷ [])
file_readmem_beyond_example =
    file_readmem_beyond contents file 5 (9 ∷ 9 ∷ []) file-HasContents (omega arith) (omega arith)
      (omega arith)
