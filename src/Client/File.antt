-- ===== src/Client/File.antt =====
-- file_readmem on a file that is read as the C library does.
use kvm_dmesg.Base.{
  ℕ, zero, suc, ◌+◌, ◌≤◌, ◌<◌, ◌≡◌, refl, ap, ◌∷◌, ◌∙◌, sym, true, [], ◌++◌, eq→==, ne→==, ltb,
  lt→ltb, ◌^◌, arith, length, take, drop, append-nil, length-take, length-drop,
}
use kvm_dmesg.Base.Bytes.{Bytes}
use kvm_dmesg.Base.Run.{ok}
use kvm_dmesg.Base.Word.{pos}
use kvm_dmesg.Client.{MemFile, file_result, file_readmem}
use kvm_dmesg.Guest.Translate.{drop_all}

-- The file has these contents: a position that is not negative as a `long` can be set, and no other; a
-- read gives what is there from it on, and feof holds behind a read that was short.
pub record HasContents (contents : Bytes) (file : MemFile) : Type 0 where
  pub seeks : (addr : ℕ) → file.fseek addr ≡ ltb addr (2 ^ 63)
  pub reads : (addr n : ℕ) → (file.fread addr n).0 ≡ take n (drop addr contents)
  pub at_end : (addr n : ℕ) → length contents < addr + n → (file.fread addr n).1 ≡ true

-- If fseek and fread read a file of some contents, a read within the file returns 0 and fills the
-- buffer with what the file has from the address on.
pub file_readmem-take :
    (contents : Bytes) (file : MemFile) (addr : ℕ) (buffer : Bytes)
    → HasContents contents file
    → addr < 2 ^ 63
    → addr + length buffer ≤ length contents
    → file_readmem file addr buffer ≡ ok (pos 0, take (length buffer) (drop addr contents))
unfolding file_readmem file_result
file_readmem-take contents file addr buffer h low inside =
    let got : Bytes = take (length buffer) (drop addr contents) in
    let full : length got ≡ length buffer =
      length-take (length buffer) (drop addr contents) ∙ omega (arith, length-drop addr contents) in
    rw
      (
        h.seeks addr,
        lt→ltb addr (2 ^ 63) low,
        h.reads addr (length buffer),
        eq→== (length got) (length buffer) full,
      )
      (ap (λ (t : Bytes). ok (pos 0, got ++ t)) (drop_all buffer (length got) (sym full))
        ∙ ap (λ (t : Bytes). ok (pos 0, t)) (append-nil got))

nothing_behind :
    (n addr : ℕ) (contents : Bytes) → length contents ≤ addr → take n (drop addr contents) ≡ []
nothing_behind zero addr contents h = refl
nothing_behind (suc n) zero [] h = refl
nothing_behind (suc n) (suc addr) [] h = refl
nothing_behind (suc n) zero (c ∷ cs) h = absurd (omega arith)
nothing_behind (suc n) (suc addr) (c ∷ cs) h = nothing_behind (suc n) addr cs (omega arith)

-- If fseek and fread read a file of some contents, a read into a buffer that is not empty, from an
-- address below 2^63 that is at or behind the end of the file, returns 0 and leaves the buffer as
-- it is.
pub file_readmem_beyond :
    (contents : Bytes) (file : MemFile) (addr : ℕ) (buffer : Bytes)
    → HasContents contents file
    → addr < 2 ^ 63
    → length contents ≤ addr
    → 0 < length buffer
    → file_readmem file addr buffer ≡ ok (pos 0, buffer)
unfolding file_readmem file_result
file_readmem_beyond contents file addr buffer h low beyond some_room = rw (
  h.seeks addr,
  lt→ltb addr (2 ^ 63) low,
  h.reads addr (length buffer),
  nothing_behind (length buffer) addr contents beyond,
  ne→== 0 (length buffer) (λ e. absurd (omega arith)),
  h.at_end addr (length buffer) (omega arith),
)
