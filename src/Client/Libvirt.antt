-- ===== src/Client/Libvirt.antt =====
-- libvirt_client.c, the part that asks QEMU through libvirt: what the monitor answers is a parameter.
pub mod Memory
pub mod Serves
pub mod Answer
use kvm_dmesg.Base.{
  ℕ, suc, ◌+◌, ◌-◌, ◌*◌, ◌/◌, Bool, ◌||◌, Option, none, some, List, [], ◌∷◌, ◌++◌, leb, ltb, ◌==◌,
  if◌then◌else◌, length, take, drop,
}
use kvm_dmesg.Base.Bytes.{Bytes, encode}
use kvm_dmesg.Base.Run.{Run, ok, fault, ◌>>=◌}
use kvm_dmesg.Base.Word.{ℤ, pos, minus_one, u32, u64}
use kvm_dmesg.Client.{readmem_in_steps}
use kvm_dmesg.Machine.{GuestClient, guest_name, Registers}
use kvm_dmesg.Text.{codes}
use kvm_dmesg.Text.Decimal.{dec}
use kvm_dmesg.Text.Hex.{hex}
use kvm_dmesg.Text.Scan.{skip_space, scan_lx, scan_dump, strtok_lines}
use kvm_dmesg.Text.Search.{find}

-- virDomainQemuMonitorCommand on `domain`: the text that it stores for a command, or a negative
-- result.
abbrev pub Monitor : Type 0
Monitor = Bytes → Option Bytes

-- malloc: the bytes of the new object, or NULL.
abbrev pub Malloc : Type 0
Malloc = ℕ → Option Bytes

-- strtoul to the base 16; 0 where no number stands.
unfoldable pub strtoul_16 : Bytes → ℕ
strtoul_16 s = elim (scan_lx (skip_space s)) [ none ↦ 0 | some (n, rest) ↦ n ]

-- `while (*start == ' ' || *start == '=') start++`.
unfoldable pub skip_equals : Bytes → Bytes
skip_equals [] = []
skip_equals (c ∷ cs) = if c == b' ' || c == b'=' then skip_equals cs else c ∷ cs

unfoldable pub get_line_value : Bytes → Bytes → ℕ
get_line_value line key = elim (find key line) [
  | none ↦ 0
  | some start ↦ strtoul_16 (skip_equals (drop (length key) start))
]

-- What one line sets.
unfoldable pub set_idtr : Bytes → Registers → Registers
set_idtr line regs = elim (find (codes "IDT") line) [
  | none ↦ regs
  | some start ↦ record regs { idtr = get_line_value line (codes "IDT") }
]

unfoldable pub set_cr3 : Bytes → Registers → Registers
set_cr3 line regs = elim (find (codes "CR3") line) [
  | none ↦ regs
  | some start ↦ record regs { cr3 = get_line_value line (codes "CR3") }
]

unfoldable pub lines_registers : List Bytes → Registers → Registers
lines_registers [] regs = regs
lines_registers (line ∷ lines) regs = lines_registers lines (set_cr3 line (set_idtr line regs))

unfoldable pub libvirt_get_registers : Monitor → Registers → ℤ × Registers
libvirt_get_registers monitor regs = elim (monitor (codes "info registers")) [
  | none ↦ (minus_one, regs)
  | some response ↦ (pos 0, record (lines_registers (strtok_lines response) regs) { cr4 = 0 })
]

-- `data[i] = value` of a `uint32_t *`.
unfoldable pub store_u32 : Bytes → ℕ → ℕ → Run Bytes
store_u32 words i value =
    if leb (4 * i + 4) (length words)
    then ok (take (4 * i) words ++ (encode 4 value ++ drop (4 * i + 4) words))
    else fault

-- The values of one line, from `data[i]` on.
unfoldable pub store_values : List ℕ → ℕ → Bytes → Run (ℕ × Bytes)
store_values [] i words = ok (i, words)
store_values (v ∷ vs) i words = do words ← store_u32 words i v; store_values vs (i + 1) words

unfoldable pub store_lines : List Bytes → ℕ → Bytes → Run Bytes
store_lines [] i words = ok words
store_lines (line ∷ lines) i words = do
  (i, words) ← store_values (scan_dump u32 4 line) i words
  store_lines lines i words

-- `"xp /%luxw 0x%zx"`.
abbrev pub xp_words : ℕ → ℕ → Bytes
xp_words n addr = codes "xp /" ++ (dec n ++ (codes "xw 0x" ++ hex addr))

-- `roundup(size, 4)`.
abbrev pub roundup_4 : ℕ → ℕ
roundup_4 size = (size + 3) / 4 * 4

-- libvirt_dump_phy_memory: the object that it returns, or NULL. The command has room for 63 bytes.
unfoldable pub libvirt_dump_phy_memory : Monitor → Malloc → ℕ → ℕ → Run (Option Bytes)
libvirt_dump_phy_memory monitor malloc start_addr size =
    let buffer = malloc (1024 + roundup_4 size * 2) in
    elim (monitor (take 63 (xp_words (roundup_4 size / 4) start_addr))) [
      | none ↦ ok none
      | some response ↦ elim buffer [
        | none ↦ do words ← store_lines (strtok_lines response) 0 []; ok none
        | some bytes ↦ do words ← store_lines (strtok_lines response) 0 bytes; ok (some words)
      ]
    ]

-- What memcpy takes from the object.
unfoldable pub copied : ℕ → Option Bytes → Run (Option Bytes)
copied size none = ok none
copied size (some buf) = if ltb (length buf) size then fault else ok (some (take size buf))

unfoldable pub libvirt_readmem_part : Monitor → Malloc → ℕ → Bytes → Run (Option Bytes)
libvirt_readmem_part monitor malloc addr buffer =
    libvirt_dump_phy_memory monitor malloc addr (length buffer) >>= copied (length buffer)

-- libvirt_readmem; the address is a uint64_t.
unfoldable pub libvirt_readmem : Monitor → Malloc → ℕ → Bytes → Run (ℤ × Bytes)
libvirt_readmem monitor malloc addr buffer =
    readmem_in_steps (libvirt_readmem_part monitor malloc) (u64 addr) buffer

-- The client that guest_client_new makes for a domain.
abbrev pub libvirt_client : Monitor → Malloc → GuestClient
libvirt_client monitor malloc = record {
  ty = guest_name;
  get_registers = λ regs. ok (libvirt_get_registers monitor regs);
  readmem = libvirt_readmem monitor malloc;
}
