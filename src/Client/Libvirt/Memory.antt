-- ===== src/Client/Libvirt/Memory.antt =====
-- The memory that libvirt_readmem reads: what the monitor prints of it, taken apart and stored.
use kvm_dmesg.Base.{
  ℕ, suc, ◌+◌, ◌-◌, ◌*◌, ◌^◌, ◌≤◌, ◌≡◌, refl, sym, ap, ◌∙◌, append_assoc, append-nil, List, [], ◌∷◌,
  ◌++◌, map, arith, le→leb, length, take, drop, take-append, drop-append, length-append,
  length-drop, drop-drop,
}
use kvm_dmesg.Base.Bytes.{Bytes, encode, length-encode}
use kvm_dmesg.Base.Run.{ok, ◌>>=◌}
use kvm_dmesg.Base.Word.{u32}
use kvm_dmesg.Client.Libvirt.{store_u32, store_values, store_lines}
use kvm_dmesg.Text.Lines.{
  dump_values, AllLines, DumpLine, IsLine, values_of, line_text, line_text-AllFrom,
  scan_dump-line_text, strtok_lines-line,
}
use kvm_dmesg.Text.Scan.{scan_dump, strtok_lines, scan_0x}
use kvm_dmesg.Text.Words.{AllBelow}

-- The lines of a dump, each with its end.
abbrev pub dump_text : ℕ → List DumpLine → Bytes
dump_text w [] = []
dump_text w (l ∷ ls) = line_text w l ++ b'\r' ∷ b'\n' ∷ dump_text w ls

-- What strtok makes of it: each line with a carriage return.
abbrev pub cut : ℕ → List DumpLine → List Bytes
cut w [] = []
cut w (l ∷ ls) = (line_text w l ++ b'\r' ∷ []) ∷ cut w ls

pub strtok_lines-dump_text :
    (w most : ℕ) (ls : List DumpLine)
    → AllLines w most ls
    → strtok_lines (dump_text w ls) ≡ cut w ls
unfolding strtok_lines
strtok_lines-dump_text w most [] h = refl
strtok_lines-dump_text w most (l ∷ ls) (p, h) =
    strtok_lines-line (line_text w l) (dump_text w ls) (line_text-AllFrom w most l p)
    ∙ ap (λ (t : List Bytes). (line_text w l ++ b'\r' ∷ []) ∷ t)
        (strtok_lines-dump_text w most ls h)

-- The bytes of words.
abbrev pub encodes : List ℕ → Bytes
encodes [] = []
encodes (v ∷ vs) = encode 4 v ++ encodes vs

encodes-append : (vs ws : List ℕ) → encodes (vs ++ ws) ≡ encodes vs ++ encodes ws
encodes-append [] ws = refl
encodes-append (v ∷ vs) ws =
    ap (λ (t : Bytes). encode 4 v ++ t) (encodes-append vs ws)
    ∙ sym (append_assoc (encode 4 v) (encodes vs) (encodes ws))

store_u32-next :
    (before rest : Bytes) (i v : ℕ)
    → length before ≡ 4 * i
    → 4 ≤ length rest
    → store_u32 (before ++ rest) i v ≡ ok ((before ++ encode 4 v) ++ drop 4 rest)
unfolding store_u32
store_u32-next before rest i v size room =
    let front : take (4 * i) (before ++ rest) ≡ before =
      ap (λ (n : ℕ). take n (before ++ rest)) (sym size) ∙ take-append before rest in
    let back : drop (4 * i + 4) (before ++ rest) ≡ drop 4 rest =
      ap (λ (n : ℕ). drop (n + 4) (before ++ rest)) (sym size)
      ∙ sym (drop-drop 4 (length before) (before ++ rest))
      ∙ ap (drop 4) (drop-append before rest) in
    rw
      (
        le→leb (4 * i + 4) (length (before ++ rest))
            (omega (arith, length-append before rest, size)),
        front,
        back,
      )
      (ap ok (sym (append_assoc before (encode 4 v) (drop 4 rest))))

store_values-next :
    (before rest : Bytes) (i : ℕ) (vs : List ℕ)
    → length before ≡ 4 * i
    → 4 * length vs ≤ length rest
    → AllBelow (2 ^ 32) vs
    → store_values (map u32 vs) i (before ++ rest)
      ≡ ok (i + length vs, (before ++ encodes vs) ++ drop (4 * length vs) rest)
unfolding store_values
store_values-next before rest i [] size room below =
    let none_more : i + 0 ≡ i = omega arith in
    let start : 4 * 0 ≡ 0 = omega arith in rw (none_more, append-nil before)
store_values-next before rest i (v ∷ vs) size room (fits, below) =
    let same : u32 v ≡ v = omega arith in
    let filled : Bytes = before ++ encode 4 v in
    let full : length filled ≡ 4 * (i + 1) =
      length-append before (encode 4 v) ∙ omega (arith, size, length-encode 4 v) in
    let left : length (drop 4 rest) ≡ length rest - 4 = length-drop 4 rest in
    rw (same, store_u32-next before rest i v size (omega arith), ◌>>=◌)
      (store_values-next filled (drop 4 rest) (i + 1) vs full (omega arith) below
        ∙ ap (λ (k : ℕ). ok (k, (filled ++ encodes vs) ++ drop (4 * length vs) (drop 4 rest)))
            (omega arith)
        ∙ ap (λ (t : Bytes). ok (i + suc (length vs), t ++ drop (4 * length vs) (drop 4 rest)))
            (append_assoc before (encode 4 v) (encodes vs))
        ∙ ap (λ (t : Bytes). ok (i + suc (length vs), (before ++ encodes (v ∷ vs)) ++ t))
            (drop-drop (4 * length vs) 4 rest ∙ ap (λ (k : ℕ). drop k rest) (omega arith)))

pub length-encodes : (vs : List ℕ) → length (encodes vs) ≡ 4 * length vs
length-encodes [] = refl
length-encodes (v ∷ vs) =
    length-append (encode 4 v) (encodes vs) ∙ omega (arith, length-encode 4 v, length-encodes vs)

line_scanned :
    (l : DumpLine)
    → IsLine 8 4 l
    → scan_dump u32 4 (line_text 8 l ++ b'\r' ∷ []) ≡ map u32 (values_of l)
unfolding scan_0x
line_scanned l h = scan_dump-line_text u32 6 4 l (b'\r' ∷ []) h (omega arith) (refl, refl)

-- What the lines store, from the place where the last store ended.
pub store_lines-next :
    (before rest : Bytes) (i : ℕ) (ls : List DumpLine)
    → length before ≡ 4 * i
    → 4 * length (dump_values ls) ≤ length rest
    → AllLines 8 4 ls
    → store_lines (cut 8 ls) i (before ++ rest)
      ≡ ok ((before ++ encodes (dump_values ls)) ++ drop (4 * length (dump_values ls)) rest)
unfolding store_lines
store_lines-next before rest i [] size room h = rw (append-nil before)
store_lines-next before rest i (l ∷ ls) size room (line, h) =
    let vs : List ℕ = values_of l in
    let n : ℕ = length vs in
    let m : ℕ = length (dump_values ls) in
    let filled : Bytes = before ++ encodes vs in
    let all : length (dump_values (l ∷ ls)) ≡ n + m = length-append vs (dump_values ls) in
    let full : length filled ≡ 4 * (i + n) =
      length-append before (encodes vs) ∙ omega (arith, size, length-encodes vs) in
    let left : length (drop (4 * n) rest) ≡ length rest - 4 * n = length-drop (4 * n) rest in
    rw
      (
        line_scanned l line,
        store_values-next before rest i vs size (omega (arith, all, room)) line.fits,
        ◌>>=◌,
      )
      (store_lines-next filled (drop (4 * n) rest) (i + n) ls full (omega (arith, all, room, left))
          h
        ∙ ap (λ (t : Bytes). ok (t ++ drop (4 * m) (drop (4 * n) rest)))
            (append_assoc before (encodes vs) (encodes (dump_values ls))
              ∙ ap (λ (t : Bytes). before ++ t) (sym (encodes-append vs (dump_values ls))))
        ∙ ap (λ (t : Bytes). ok ((before ++ encodes (dump_values (l ∷ ls))) ++ t))
            (drop-drop (4 * m) (4 * n) rest ∙ ap (λ (k : ℕ). drop k rest) (omega (arith, all))))
