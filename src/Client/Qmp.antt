-- ===== src/Client/Qmp.antt =====
-- qmp_client.c: the socket's calls are a parameter, by the results that they give in order.
pub mod Delivers
pub mod Session
pub mod Memory
pub mod Serves
pub mod Answer
use kvm_dmesg.Base.{
  ℕ, suc, ◌+◌, ◌-◌, ◌*◌, Bool, true, false, ◌&&◌, ◌||◌, Option, none, some, List, [], ◌∷◌, ◌++◌,
  leb, ltb, ◌==◌, if◌then◌else◌, length, take, drop, map,
}
use kvm_dmesg.Base.Bytes.{Bytes, store_bytes}
use kvm_dmesg.Base.Run.{Run, ok, fault, diverges, ◌>>=◌}
use kvm_dmesg.Base.Word.{ℤ, pos, minus_one, u8, u64}
use kvm_dmesg.Client.{readmem_in_steps}
use kvm_dmesg.Machine.{GuestClient, qmp_socket, Registers}
use kvm_dmesg.Text.{codes}
use kvm_dmesg.Text.Decimal.{dec}
use kvm_dmesg.Text.Hex.{hex}
use kvm_dmesg.Text.Scan.{c_str, skip_space, scan_lx, scan_dump}
use kvm_dmesg.Text.Search.{strstr}
use kvm_dmesg.Xutil.{xmalloc}
use kvm_dmesg.Xutil.Io.{Read, xread, Write, xwrite}

-- A result of poll on the socket: 0 behind its time, -1, or 1 with POLLIN or without it; with POLLIN
-- also what the calls of read come to that follow.
pub data Poll : Type 0 where
  timeout error hangup : Poll
  readable : List Read → Poll

-- qmp_read: the number of bytes read and the buffer, or nothing where it returns -1. Each round may
-- read 1024 bytes, whatever room the buffer has.
unfoldable pub qmp_read : List Poll → ℕ → Bytes → Run (Option (ℕ × Bytes))
qmp_read [] tread buf = diverges
qmp_read (timeout ∷ polls) tread buf = ok (some (tread, buf))
qmp_read (error ∷ polls) tread buf = ok none
qmp_read (hangup ∷ polls) tread buf = qmp_read polls tread buf
qmp_read (readable reads ∷ polls) tread buf = do
  bytes ← xread reads 1024
  buf ← store_bytes bytes tread buf
  qmp_read polls (tread + length bytes) buf

-- The socket behind a session: what write and poll come to for a command.
pub record Socket : Type 0 where
  pub writes : Bytes → List Write
  pub polls : Bytes → List Poll

-- QMP_COMMAND_INFO_REGS.
abbrev pub info_registers : Bytes
info_registers =
    codes
      "{\"execute\": \"human-monitor-command\", \"arguments\": {\"command-line\": \"info registers\"}}"

-- QMP_COMMAND_XP.
abbrev pub xp_bytes : ℕ → ℕ → Bytes
xp_bytes size addr =
    codes "{\"execute\": \"human-monitor-command\", \"arguments\": {\"command-line\": \"xp /"
    ++ (dec size ++ (codes "xb 0x" ++ (hex addr ++ codes "\"}}")))

-- One command and its answer, in a buffer of zeros: nothing where the callers return -1.
unfoldable pub exchange : Socket → Bytes → ℕ → Run (Option Bytes)
exchange socket cmd size = do
  nwrite ← xwrite (socket.writes cmd) (length cmd)
  if nwrite == length cmd
      then (do
        got ← qmp_read (socket.polls cmd) 0 (xmalloc size)
        elim got [
          | none ↦ ok none
          | some (nread, buf) ↦ ok (if nread == 0 then none else some buf)
        ])
      else ok none

-- The loop of qmp_populate_reg: behind the first `=`, or at the end of the string.
unfoldable pub behind_equals : Bytes → Run Bytes
behind_equals [] = fault
behind_equals (c ∷ cs) =
    if c == 0 then ok (c ∷ cs) else if c == b'=' then ok cs else behind_equals cs

-- A string within an object.
unfoldable pub c_string : Bytes → Run Bytes
c_string [] = fault
c_string (c ∷ cs) = if c == 0 then ok [] else (do rest ← c_string cs; ok (c ∷ rest))

unfoldable pub qmp_populate_reg : Bytes → Bytes → Run (Option ℕ)
qmp_populate_reg buf reg_name = do
  found ← strstr buf reg_name
  elim found [
    | none ↦ ok none
    | some start ↦ do
      behind ← behind_equals start
      text ← c_string behind
      elim (scan_lx (skip_space text)) [ none ↦ ok none | some (v, rest) ↦ ok (some v) ]
  ]

-- The three registers, in the order of the code; one that is not found ends it.
unfoldable pub populate_regs : Bytes → Registers → Run (ℤ × Registers)
populate_regs buf regs = do
  cr3 ← qmp_populate_reg buf (codes "CR3")
  elim cr3 [
    | none ↦ ok (minus_one, regs)
    | some cr3 ↦ do
      cr4 ← qmp_populate_reg buf (codes "CR4")
      elim cr4 [
        | none ↦ ok (minus_one, record regs { cr3 = cr3 })
        | some cr4 ↦ do
          idtr ← qmp_populate_reg buf (codes "IDT")
          elim idtr [
            | none ↦ ok (minus_one, record regs { cr3 = cr3; cr4 = cr4 })
            | some idtr ↦ ok (pos 0, record { cr3 = cr3; cr4 = cr4; idtr = idtr })
          ]
      ]
  ]

unfoldable pub qmp_get_registers : Socket → Registers → Run (ℤ × Registers)
qmp_get_registers socket regs = do
  answer ← exchange socket info_registers 8192
  elim answer [ none ↦ ok (minus_one, regs) | some buf ↦ populate_regs buf regs ]

-- What the loop of qmp_populate_mem does at two characters.
pub data Step : Type 0 where
  stop line_end line_feed other : Step

unfoldable pub step_at : ℕ → ℕ → ℕ → ℕ → Step
step_at size filled c d =
    if c == b'"' || leb size filled
    then stop
    else if c == b'\\' && d == b'r'
    then line_end
    else if c == b'\\' && d == b'n'
    then line_feed
    else other

-- The loop, from `*start` on: the line that is collected, `pos`, and the buffer of `size` bytes.
-- `line` has room for 128 bytes, and `*start` is read before it is compared with the end.
unfoldable pub populate : Bytes → Bytes → ℕ → Bytes → Run Bytes
populate [] line filled buffer = fault
populate (c ∷ []) line filled buffer =
    if c == b'"' || leb (length buffer) filled then ok buffer else fault
populate (c ∷ d ∷ cs) line filled buffer = elim (step_at (length buffer) filled c d) [
  | stop ↦ ok buffer
  | line_end ↦ do
    let values = scan_dump u8 8 (c_str line)
    buffer ← if ltb (length line) 128 then store_bytes values filled buffer else fault
    populate cs [] (filled + length values) buffer
  | line_feed ↦ populate cs line filled buffer
  | other ↦
      if ltb (length line) 128 then populate (d ∷ cs) (line ++ c ∷ []) filled buffer else fault
]

-- `return_start`.
abbrev pub return_start : Bytes
return_start = codes "\"return\": \""

unfoldable pub qmp_populate_mem : Bytes → Bytes → Run (ℤ × Bytes)
qmp_populate_mem input buffer = do
  found ← strstr input return_start
  elim found [
    | none ↦ ok (minus_one, buffer)
    | some start ↦ do
      buffer ← populate (drop (length return_start) start) [] 0 buffer
      ok (pos 0, buffer)
  ]

-- qmp_readmem_part; the result of qmp_populate_mem is not looked at, and a size of 0 is returned.
unfoldable pub qmp_readmem_part : Socket → ℕ → Bytes → Run (Option Bytes)
qmp_readmem_part socket addr buffer =
    let size = length buffer in
    if size == 0 then ok (some buffer) else (do
      answer ← exchange socket (take 255 (xp_bytes size addr)) (1024 + size * 8)
      elim answer [
        | none ↦ ok none
        | some buf ↦ do (r, buffer) ← qmp_populate_mem buf buffer; ok (some buffer)
      ])

-- qmp_readmem; the address is a uint64_t.
unfoldable pub qmp_readmem : Socket → ℕ → Bytes → Run (ℤ × Bytes)
qmp_readmem socket addr buffer = readmem_in_steps (qmp_readmem_part socket) (u64 addr) buffer

-- The client that guest_client_new makes for a socket.
abbrev pub qmp_client : Socket → GuestClient
qmp_client socket = record {
  ty = qmp_socket;
  get_registers = qmp_get_registers socket;
  readmem = qmp_readmem socket;
}
