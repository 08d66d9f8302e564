-- ===== src/Client/Qmp/Delivers.antt =====
-- What qmp_read collects of the rounds of its loop.
use kvm_dmesg.Base.{
  ℕ, ◌+◌, ◌≤◌, ◌<◌, ◌≡◌, sym, ap, ap₂, ◌∙◌, append_assoc, append-nil, some, List, [], ◌∷◌, ◌++◌,
  arith, length, drop, drop-drop, length-append, length-drop,
}
use kvm_dmesg.Base.Bytes.{Bytes, store_bytes-next, store_bytes_beyond}
use kvm_dmesg.Base.Run.{ok, fault, ◌>>=◌}
use kvm_dmesg.Client.Qmp.{Poll, timeout, error, hangup, readable, qmp_read}
use kvm_dmesg.Xutil.Io.{xread}
use native.Mathlib.Decide.{dec_le}

-- The rounds end with a timeout, and bring this text before it.
abbrev pub Delivers : List Poll → Bytes → Type 0
Delivers [] text = ⊥
Delivers (timeout ∷ polls) text = text ≡ []
Delivers (error ∷ polls) text = ⊥
Delivers (hangup ∷ polls) text = Delivers polls text
Delivers (readable reads ∷ polls) text =
    (bytes : Bytes) × (rest : Bytes) × (xread reads 1024 ≡ ok bytes)
    × (text ≡ bytes ++ rest)
    × Delivers polls rest

-- Behind what has been read, the text is put into the buffer.
pub qmp_read-Delivers :
    (polls : List Poll) (text before rest : Bytes)
    → Delivers polls text
    → length text ≤ length rest
    → qmp_read polls (length before) (before ++ rest)
      ≡ ok (some (length before + length text, (before ++ text) ++ drop (length text) rest))
unfolding qmp_read
qmp_read-Delivers [] text before rest d h = absurd d
qmp_read-Delivers (error ∷ polls) text before rest d h = absurd d
qmp_read-Delivers (timeout ∷ polls) text before rest d h =
    let n : length before + 0 ≡ length before = omega arith in rw (d, n, append-nil before)
qmp_read-Delivers (hangup ∷ polls) text before rest d h =
    qmp_read-Delivers polls text before rest d h
qmp_read-Delivers (readable reads ∷ polls) text before rest (bytes, more, got, all, d) h =
    let size : length text ≡ length bytes + length more =
      ap length all ∙ length-append bytes more in
    let stored = store_bytes-next before bytes rest (omega (arith, size, h)) in
    let next =
      qmp_read-Delivers polls more (before ++ bytes) (drop (length bytes) rest) d
        (omega (arith, size, h, length-drop (length bytes) rest)) in
    rw (got, stored, ◌>>=◌)
      (ap (λ (n : ℕ). qmp_read polls n ((before ++ bytes) ++ drop (length bytes) rest))
          (sym (length-append before bytes))
        ∙ next
        ∙ ap₂ (λ (n : ℕ) (t : Bytes). ok (some (n, t)))
            (omega (arith, size, length-append before bytes))
            (ap₂ (λ (s t : Bytes). s ++ t)
              (append_assoc before bytes more ∙ ap (λ (t : Bytes). before ++ t) (sym all))
              (drop-drop (length more) (length bytes) rest
                ∙ ap (λ (n : ℕ). drop n rest) (sym size))))

pub qmp_read_whole :
    (polls : List Poll) (text buf : Bytes)
    → Delivers polls text
    → length text ≤ length buf
    → qmp_read polls 0 buf ≡ ok (some (length text, text ++ drop (length text) buf))
qmp_read_whole polls text buf d h =
    qmp_read-Delivers polls text [] buf d h
    ∙ ap (λ (n : ℕ). ok (some (n, text ++ drop (length text) buf))) (omega arith)

-- A text that is longer than the buffer is written past the buffer's end.
pub qmp_read_overflows :
    (polls : List Poll) (text before rest : Bytes)
    → Delivers polls text
    → length rest < length text
    → qmp_read polls (length before) (before ++ rest) ≡ fault
unfolding qmp_read
qmp_read_overflows [] text before rest d h = absurd d
qmp_read_overflows (error ∷ polls) text before rest d h = absurd d
qmp_read_overflows (timeout ∷ polls) text before rest d h = absurd (omega (arith, h, ap length d))
qmp_read_overflows (hangup ∷ polls) text before rest d h =
    qmp_read_overflows polls text before rest d h
qmp_read_overflows (readable reads ∷ polls) text before rest (bytes, more, got, all, d) h =
    let size : length text ≡ length bytes + length more =
      ap length all ∙ length-append bytes more in
    elim (dec_le (length bytes) (length rest)) [
      | yes fits ↦
          rw (got, store_bytes-next before bytes rest fits, ◌>>=◌)
            (ap (λ (n : ℕ). qmp_read polls n ((before ++ bytes) ++ drop (length bytes) rest))
                (sym (length-append before bytes))
              ∙ qmp_read_overflows polls more (before ++ bytes) (drop (length bytes) rest) d
                  (omega (arith, size, h, length-drop (length bytes) rest)))
      | no large ↦ rw (got, store_bytes_beyond before bytes rest (omega arith), ◌>>=◌)
    ]
