-- ===== src/Main/Arguments.antt =====
-- Which of its two arguments main takes for System.map.
use kvm_dmesg.Base.{
  ℕ, zero, suc, ◌≡◌, refl, ap, ◌∙◌, Bool, true, false, ◌&&◌, ◌≢◌, Option, arith, none, some, [],
  ◌∷◌, if◌then◌else◌, take,
}
use kvm_dmesg.Base.Bytes.{Bytes}
use kvm_dmesg.Base.Word.{pos}
use kvm_dmesg.Main.{
  is_one, FileType, Files, regular, socket, other, text_byte, text_within, is_text_file, is_symmap,
  choose_files,
}

-- All of the bytes are text.
abbrev pub all_text : Bytes → Bool
all_text [] = true
all_text (c ∷ cs) = text_byte c && all_text cs

text_within_lem : (n : ℕ) (file : Bytes) → text_within n file ≡ all_text (take n file)
unfolding text_within
text_within_lem zero file = refl
text_within_lem (suc n) [] = refl
text_within_lem (suc n) (c ∷ cs) = ap (λ (b : Bool). text_byte c && b) (text_within_lem n cs)

one_if : (b : Bool) → is_one (if b then pos 1 else pos 0) ≡ b
one_if true = refl
one_if false = refl

-- A regular file that can be read passes main's test for System.map exactly if all of its first
-- 1024 bytes are printable, white space or NUL.
pub is_symmap_lem :
    (files : Files) (path file : Bytes)
    → files.stat path ≡ some regular
    → files.contents path ≡ some file
    → is_symmap files path ≡ all_text (take 1024 file)
unfolding is_symmap is_text_file
is_symmap_lem files path file there readable =
    rw (there, readable) (one_if (text_within 1024 file) ∙ text_within_lem 1024 file)

-- What is no System.map for main: no regular file, one that cannot be read, or one that has another byte
-- among its first 1024.
pub data IsNoMap (files : Files) (path : Bytes) : Type 0 where
  no_file : (ty : Option FileType) → ty ≢ some regular → files.stat path ≡ ty → IsNoMap files path
  unreadable : files.contents path ≡ none → IsNoMap files path
  binary :
      (file : Bytes)
      → files.stat path ≡ some regular
      → files.contents path ≡ some file
      → all_text (take 1024 file) ≡ false
      → IsNoMap files path

IsNoMap-is_symmap :
    (files : Files) (path : Bytes) → IsNoMap files path → is_symmap files path ≡ false
unfolding is_symmap is_text_file
IsNoMap-is_symmap files path (no_file none apart there) = rw there
IsNoMap-is_symmap files path (no_file (some regular) apart there) = absurd (apart refl)
IsNoMap-is_symmap files path (no_file (some socket) apart there) = rw there
IsNoMap-is_symmap files path (no_file (some other) apart there) = rw there
IsNoMap-is_symmap files path (unreadable absent) = ground (arith, absent)
IsNoMap-is_symmap files path (binary file there readable differs) =
    is_symmap_lem files path file there readable ∙ differs

-- If one argument is a regular file that can be read and whose first 1024 bytes are printable,
-- white space or NUL, and the other is no regular file, cannot be read, or is one with another byte
-- among its first 1024, main takes the first for System.map and the second for the guest in either
-- order.
pub choose_files_swap :
    (files : Files) (symmap guest text : Bytes)
    → files.stat symmap ≡ some regular
    → files.contents symmap ≡ some text
    → all_text (take 1024 text) ≡ true
    → IsNoMap files guest
    → (choose_files files symmap guest ≡ some (symmap, guest))
      × (choose_files files guest symmap ≡ some (symmap, guest))
unfolding choose_files
choose_files_swap files symmap guest text there readable good no_map =
    let p = is_symmap_lem files symmap text there readable ∙ good in
    let q = IsNoMap-is_symmap files guest no_map in (rw p, rw (p, q))
