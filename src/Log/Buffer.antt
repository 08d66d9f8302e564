-- ===== src/Log/Buffer.antt =====
-- The oldest log as a whole, on a guest whose memory is a given image.
use kvm_dmesg.Base.{
  ℕ, ◌+◌, ◌*◌, ◌%◌, ◌^◌, ◌<◌, ◌≡◌, ◌∙◌, ap, refl, List, [], ◌∷◌, ◌++◌, append_assoc, false, arith,
  length, drop,
}
use kvm_dmesg.Base.Bits.{bit_and_low}
use kvm_dmesg.Base.Bytes.{Bytes, le, encode, length-encode}
use kvm_dmesg.Base.Run.{ok}
use kvm_dmesg.Guest.{paddr_of, kvaddr}
use kvm_dmesg.Guest.Translate.{Image, slice, Serves, readmem-Serves}
use kvm_dmesg.Log.Dump.{Variable}
use kvm_dmesg.Log.Plain.{
  plain_loop, dump_plain_log, texts_onto, lines_of, ascii_only, AllNoNul, plain_loop-lines_of,
}
use kvm_dmesg.Machine.{Machine}
use kvm_dmesg.Symbols.{relocated}
use kvm_dmesg.Symbols.Data.{get_symbol_data-slice, get_symbol_data_room}
use kvm_dmesg.Text.{codes}
use kvm_dmesg.Text.Search.{NoNul}

le-zeros : (s : Bytes) → le (s ++ 0 ∷ 0 ∷ 0 ∷ 0 ∷ []) ≡ le s
unfolding le
le-zeros [] = refl
le-zeros (b ∷ bs) = ap (λ (n : ℕ). b + 256 * n) (le-zeros bs)

rest_of_zero : drop 4 (encode 8 0) ≡ 0 ∷ 0 ∷ 0 ∷ 0 ∷ []
unfolding encode
rest_of_zero = refl

-- With a client that serves the guest's memory and blocks of malloc of their size, on a guest whose
-- log_buf and log_buf_len give a buffer of less than 2 MiB of texts, each ended by a NUL but for
-- the last, main prints each text that has an ASCII character as a line, without its other
-- characters, then the last text and a newline, and hands the buffer to write_data_to_file.
pub dump_plain_log-lines_of :
    (mem : Image) (m : Machine) (malloc : ℕ → Bytes) (len addr : ℕ) (ts : List Bytes) (t : Bytes)
    → Serves mem m
    → ((n : ℕ) → length (malloc n) ≡ n)
    → Variable mem m (codes "log_buf") 8 addr
    → Variable mem m (codes "log_buf_len") 4 len
    → len < 2 ^ 21
    → slice mem (paddr_of m addr kvaddr) len ≡ texts_onto ts t
    → AllNoNul ts
    → NoNul t
    → dump_plain_log malloc m
      ≡ ok (lines_of ts ++ (ascii_only t ++ b'\n' ∷ []), slice mem (paddr_of m addr kvaddr) len)
unfolding dump_plain_log
dump_plain_log-lines_of mem m malloc len addr ts t s sizes (a, p, e) (b, q, f) small stands all
      last =
    let masked : len % 2 ^ 21 ≡ len = omega arith in
    rw
      (
        get_symbol_data-slice mem m (codes "log_buf") 8 (encode 8 0) _ s (length-encode 8 0) p,
        e,
        get_symbol_data_room mem m 4 (encode 8 0) s (omega (arith, length-encode 8 0))
            (codes "log_buf_len") b q,
        rest_of_zero,
        le-zeros (slice mem (paddr_of m (relocated m b) kvaddr) 4),
        f,
        bit_and_low 21 len,
        masked,
        readmem-Serves mem m addr kvaddr (malloc len) len s (sizes len),
      )
      (ap (λ (out : Bytes). ok (out ++ b'\n' ∷ [], slice mem (paddr_of m addr kvaddr) len))
          (ap (plain_loop false) stands ∙ plain_loop-lines_of ts t all last)
        ∙ ap (λ (out : Bytes). ok (out, slice mem (paddr_of m addr kvaddr) len))
            (append_assoc (lines_of ts) (ascii_only t) (b'\n' ∷ [])))
