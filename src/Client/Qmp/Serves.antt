-- ===== src/Client/Qmp/Serves.antt =====
-- The QMP client serves the guest's memory, if QEMU answers each `xp` with what it prints, as JSON.
use kvm_dmesg.Base.{
  ℕ, ◌+◌, ◌*◌, ◌%◌, ◌^◌, ◌≤◌, ◌<◌, ◌≡◌, refl, sym, ap, ◌∙◌, append_assoc, append-nil, some, List,
  [], ◌∷◌, ◌++◌, arith, ne→==, eq→==, length, take, drop, length-append, length-replicate, take_all,
}
use kvm_dmesg.Base.Bytes.{Bytes}
use kvm_dmesg.Base.Run.{ok, ◌>>=◌}
use kvm_dmesg.Base.Word.{pos, u32, u64}
use kvm_dmesg.Client.Qmp.{
  Socket, exchange, xp_bytes, return_start, qmp_populate_mem, qmp_readmem_part, qmp_readmem,
  qmp_client,
}
use kvm_dmesg.Client.Qmp.Delivers.{Delivers, qmp_read_whole}
use kvm_dmesg.Client.Qmp.Memory.{lines_text, AllShort, populate-lines}
use kvm_dmesg.Client.Steps.{readmem_in_steps-slice, slice_wraps}
use kvm_dmesg.Guest.Translate.{Image, slice, length-slice, Serves, drop_all}
use kvm_dmesg.Machine.{Machine}
use kvm_dmesg.Text.{codes}
use kvm_dmesg.Text.Decimal.{dec, length-dec}
use kvm_dmesg.Text.Hex.{hex, length-hex}
use kvm_dmesg.Text.Lines.{DumpLine, AllLines, dump_values}
use kvm_dmesg.Text.Search.{strstr, is_prefix, strstr_first}
use kvm_dmesg.Xutil.{xmalloc}
use kvm_dmesg.Xutil.Io.{xwrite}

-- The answer's JSON, behind its brace and up to its end.
abbrev answer_end : Bytes
answer_end = codes "}\r\n"

abbrev pub answer_text : List DumpLine → Bytes
answer_text ls = b'{' ∷ (return_start ++ (lines_text ls ++ b'"' ∷ answer_end))

-- The command for `n` bytes is written whole, and the answer prints the bytes of memory, in lines of
-- at most eight numbers of two digits, and fits into the buffer.
pub record Answered (mem : Image) (socket : Socket) (n addr : ℕ) : Type 0 where
  pub lines : List DumpLine
  pub formed : AllLines 2 8 lines
  pub short : AllShort lines
  pub values : dump_values lines ≡ slice mem addr n
  pub written :
      xwrite (socket.writes (xp_bytes n addr)) (length (xp_bytes n addr))
      ≡ ok (length (xp_bytes n addr))
  pub delivered : Delivers (socket.polls (xp_bytes n addr)) (answer_text lines)
  pub small : length (answer_text lines) ≤ 1024 + n * 8

-- QEMU answers for every part, and memory is the same at addresses that are equal modulo 2^64.
pub record AnswersMemory (mem : Image) (socket : Socket) : Type 0 where
  pub wraps : (a : ℕ) → mem (a % 2 ^ 64) ≡ mem a
  pub answers : (n addr : ℕ) → 0 < n → n ≤ 4096 → addr < 2 ^ 64 → Answered mem socket n addr

-- A command that is written whole, and its answer.
pub exchange_lem :
    (socket : Socket) (cmd text : Bytes) (size : ℕ)
    → xwrite (socket.writes cmd) (length cmd) ≡ ok (length cmd)
    → Delivers (socket.polls cmd) text
    → 0 < length text
    → length text ≤ size
    → size < 2 ^ 32
    → exchange socket cmd size ≡ ok (some (text ++ drop (length text) (xmalloc size)))
unfolding exchange
exchange_lem socket cmd text size w d some_text small fits =
    let read =
      qmp_read_whole (socket.polls cmd) text (xmalloc size) d
        (omega (arith, small, length-replicate {A = ℕ} (u32 size) 0)) in
    rw (
      w,
      ◌>>=◌,
      eq→== (length cmd) (length cmd) refl,
      read,
      ne→== (length text) 0 (λ e. absurd (omega (arith, some_text))),
    )

xp_bytes_fits : (n addr : ℕ) → n < 2 ^ 64 → take 255 (xp_bytes n addr) ≡ xp_bytes n addr
xp_bytes_fits n addr h =
    let front =
      codes "{\"execute\": \"human-monitor-command\", \"arguments\": {\"command-line\": \"xp /" in
    take_all 255 (xp_bytes n addr) (
      omega (
        arith,
        length-append front (dec n ++ (codes "xb 0x" ++ (hex addr ++ codes "\"}}"))),
        length-append (dec n) (codes "xb 0x" ++ (hex addr ++ codes "\"}}")),
        length-append (codes "xb 0x") (hex addr ++ codes "\"}}"),
        length-append (hex addr) (codes "\"}}"),
        length-dec n h,
        length-hex addr,
      ))

qmp_populate_mem_lem :
    (ls : List DumpLine) (rest buffer : Bytes)
    → AllLines 2 8 ls
    → AllShort ls
    → length (dump_values ls) ≡ length buffer
    → qmp_populate_mem (answer_text ls ++ rest) buffer ≡ ok (pos 0, dump_values ls)
unfolding qmp_populate_mem is_prefix
qmp_populate_mem_lem ls rest buffer h short size =
    let tail : Bytes = answer_end ++ rest in
    let behind : Bytes = lines_text ls ++ b'"' ∷ tail in
    let text : answer_text ls ++ rest ≡ b'{' ∷ (return_start ++ behind) =
      ap (λ (t : Bytes). b'{' ∷ (return_start ++ t))
        (append_assoc (lines_text ls) (b'"' ∷ answer_end) rest) in
    let found : strstr (b'{' ∷ (return_start ++ behind)) return_start
        ≡ ok (some (return_start ++ behind)) =
      strstr_first (b'{' ∷ []) b'"' (codes "return\": \"") behind
        ((λ e. absurd (omega arith)), refl, tt) in
    let stored = populate-lines ls tail [] buffer h short (omega (arith, size)) in
    let values : Bytes = dump_values ls in
    ap (λ (t : Bytes). qmp_populate_mem t buffer) text
    ∙ rw (found, ◌>>=◌, stored)
        (ap (λ (t : Bytes). ok (pos 0, values ++ t)) (drop_all buffer (length values) (sym size))
          ∙ ap (λ (t : Bytes). ok (pos 0, t)) (append-nil values))

module _ (mem : Image) (socket : Socket) (h : AnswersMemory mem socket) where
  part_lem :
      (addr : ℕ) (buf : Bytes)
      → addr < 2 ^ 64
      → 0 < length buf
      → length buf ≤ 4096
      → qmp_readmem_part socket addr buf ≡ ok (some (slice mem addr (length buf)))
  unfolding qmp_readmem_part
  part_lem addr buf fits some_bytes few =
      let n : ℕ = length buf in
      let a = h.answers n addr some_bytes few fits in
      let size : length (dump_values a.lines) ≡ n = ap length a.values ∙ length-slice mem addr n in
      let got =
        exchange_lem socket (xp_bytes n addr) (answer_text a.lines) (1024 + n * 8) a.written
          a.delivered (omega arith) a.small (omega arith) in
      rw
        (
          ne→== n 0 (λ e. absurd (omega (arith, some_bytes))),
          xp_bytes_fits n addr (omega arith),
          got,
          ◌>>=◌,
          qmp_populate_mem_lem a.lines _ buf a.formed a.short size,
        )
        (ap (λ (t : Bytes). ok (some t)) a.values)

pub qmp_readmem-slice :
    (mem : Image) (socket : Socket) (a : ℕ) (buf : Bytes)
    → AnswersMemory mem socket
    → qmp_readmem socket a buf ≡ ok (pos 0, slice mem a (length buf))
unfolding qmp_readmem
qmp_readmem-slice mem socket a buf h =
    readmem_in_steps-slice mem (qmp_readmem_part socket) (u64 a) buf
      (record { reads = part_lem mem socket h; wraps = h.wraps }) (omega arith)
    ∙ ap (λ (t : Bytes). ok (pos 0, t))
        (slice_wraps mem h.wraps (u64 a) a (length buf) (omega arith))

-- If QEMU answers each command for a part of at most 4096 bytes with what `xp` prints of the
-- guest's memory, as a JSON text that arrives in any pieces and fits into the buffer, then the QMP
-- client serves the guest's memory: every read, of any size and at any address, succeeds and fills
-- the buffer with the bytes of memory.
pub qmp_client-Serves :
    (mem : Image) (socket : Socket) (m : Machine)
    → AnswersMemory mem socket
    → Serves mem (record m { client = some (qmp_client socket) })
qmp_client-Serves mem socket m h = record {
  client = qmp_client socket;
  chosen = refl;
  reads = λ a buf. qmp_readmem-slice mem socket a buf h;
}
