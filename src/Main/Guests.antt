-- ===== src/Main/Guests.antt =====
-- main up to derive_kaslr_offset on the guests that libvirt and QMP reach.
use kvm_dmesg.Base.{ℕ, ◌/◌, ◌*◌, ◌^◌, ◌≤◌, ◌<◌, ◌≡◌, ap, some, refl, length}
use kvm_dmesg.Base.Bytes.{Bytes}
use kvm_dmesg.Base.Run.{Returns, ok}
use kvm_dmesg.Base.Word.{add64, pos}
use kvm_dmesg.Client.Libvirt.{Monitor, Malloc, libvirt_client}
use kvm_dmesg.Client.Libvirt.Answer.{LastNames, libvirt_get_registers-LastNames}
use kvm_dmesg.Client.Libvirt.Serves.{PrintsMemory, libvirt_readmem-slice}
use kvm_dmesg.Client.Qmp.{Socket, info_registers, qmp_client}
use kvm_dmesg.Client.Qmp.Answer.{Holds, qmp_get_registers-Holds}
use kvm_dmesg.Client.Qmp.Delivers.{Delivers}
use kvm_dmesg.Client.Qmp.Serves.{AnswersMemory, qmp_readmem-slice}
use kvm_dmesg.Guest.{start_kernel_map}
use kvm_dmesg.Guest.Translate.{Image}
use kvm_dmesg.Machine.{Machine, Registers}
use kvm_dmesg.Main.{Memory, locate}
use kvm_dmesg.Main.Locate.{IsStarted, IsSized, IsLocated, kaslr_in, idt_table_in, locate-IsLocated}
use kvm_dmesg.Paging.Walk.{IsImage, IsMapped}
use kvm_dmesg.Symbols.Load.{empty_table}
use kvm_dmesg.Text.{codes}
use kvm_dmesg.Text.Scan.{strtok_lines}
use kvm_dmesg.Xutil.Io.{xwrite}

-- The state as global_data.c starts it, whatever the client.
pub record IsBlank (m : Machine) : Type 0 where
  pub no_symbols : m.st.symname_hash ≡ empty_table
  pub unmoved : m.kt.flags ≡ 0
  pub no_pud : m.machdep.last_pud_read ≡ 0
  pub no_pmd : m.machdep.last_pmd_read ≡ 0
  pub no_ptbl : m.machdep.last_ptbl_read ≡ 0

-- What is asked of the guest beside its client: buffers of their sizes, a table at every level of the
-- IDT's address, and an idt_table that is relocated into the kernel's map.
pub record IsLocatable (image : Image) (mem : Memory) (regs : Registers) (file : Bytes)
    : Type 0 where
  pub bytes : IsImage image
  pub sized : IsSized mem
  pub mapped : IsMapped image (regs.cr3 / 8192 * 8192) regs.idtr
  pub high : start_kernel_map ≤ add64 (idt_table_in file) (kaslr_in image regs file)

-- The registers that a monitor prints.
pub record PrintsRegisters (monitor : Monitor) (idtr cr3 : ℕ) : Type 0 where
  pub answer : Bytes
  pub answered : monitor (codes "info registers") ≡ some answer
  pub idtr_line : LastNames (codes "IDT") (strtok_lines answer) idtr
  pub cr3_line : LastNames (codes "CR3") (strtok_lines answer) cr3

pub libvirt_guest-IsStarted :
    (image : Image) (monitor : Monitor) (malloc : Malloc) (idtr cr3 cr4 : ℕ) (m : Machine)
    → IsBlank m
    → PrintsMemory image monitor malloc
    → PrintsRegisters monitor idtr cr3
    → IsStarted image cr4
        (record { idtr = idtr; cr3 = cr3; cr4 = 0 })
        (record m { client = some (libvirt_client monitor malloc) })
libvirt_guest-IsStarted image monitor malloc idtr cr3 cr4 m b p r = record {
  serves = record {
    client = libvirt_client monitor malloc;
    chosen = refl;
    reads = λ a buf. libvirt_readmem-slice image monitor malloc a buf p;
  };
  reports = record {
    status = pos 0;
    run = ap ok (
        libvirt_get_registers-LastNames monitor r.answer idtr cr3
          (record { idtr = 0; cr3 = 0; cr4 = cr4 }) r.answered r.idtr_line r.cr3_line);
  };
  no_symbols = b.no_symbols;
  unmoved = b.unmoved;
  no_pud = b.no_pud;
  no_pmd = b.no_pmd;
  no_ptbl = b.no_ptbl;
}

-- From a state as global_data.c starts it, on a guest of which the monitor of libvirt prints memory
-- and registers as QEMU does, and which can be located by them, main up to derive_kaslr_offset
-- succeeds: a 64-bit symbol value is read at that value plus the offset, the handler that
-- System.map has is read where the guest's IDT has it, and the address of idt_table is translated
-- to where the guest's IDT is.
pub libvirt_guest-IsLocated :
    (image : Image) (monitor : Monitor) (malloc : Malloc) (idtr cr3 : ℕ) (mem : Memory)
    (m : Machine) (file : Bytes) (value : ℕ)
    → IsBlank m
    → PrintsMemory image monitor malloc
    → PrintsRegisters monitor idtr cr3
    → IsLocatable image mem (record { idtr = idtr; cr3 = cr3; cr4 = 0 }) file
    → value < 2 ^ 64
    → Returns
        (locate mem (some file) (record m { client = some (libvirt_client monitor malloc) }))
        (IsLocated image (record { idtr = idtr; cr3 = cr3; cr4 = 0 }) file value)
libvirt_guest-IsLocated image monitor malloc idtr cr3 mem m file value b p r l v =
    locate-IsLocated image mem (record { idtr = idtr; cr3 = cr3; cr4 = 0 })
      (record m { client = some (libvirt_client monitor malloc) }) file value l.bytes
      (libvirt_guest-IsStarted image monitor malloc idtr cr3 mem.cr4 m b p r) l.sized
      r.cr3_line.names.fits l.mapped v l.high

-- The registers that QMP answers, as a text that arrives in any pieces.
pub record AnswersRegisters (socket : Socket) (idtr cr3 cr4 : ℕ) : Type 0 where
  pub text : Bytes
  pub written :
      xwrite (socket.writes info_registers) (length info_registers) ≡ ok (length info_registers)
  pub delivered : Delivers (socket.polls info_registers) text
  pub small : length text < 8192
  pub cr3_there : Holds b'C' (codes "R3") text cr3
  pub cr4_there : Holds b'C' (codes "R4") text cr4
  pub idt_there : Holds b'I' (codes "DT") text idtr

qmp_guest-IsStarted :
    (image : Image) (socket : Socket) (idtr cr3 cr4 local : ℕ) (m : Machine)
    → IsBlank m
    → AnswersMemory image socket
    → AnswersRegisters socket idtr cr3 cr4
    → IsStarted image local
        (record { idtr = idtr; cr3 = cr3; cr4 = cr4 })
        (record m { client = some (qmp_client socket) })
qmp_guest-IsStarted image socket idtr cr3 cr4 local m b p r = record {
  serves = record {
    client = qmp_client socket;
    chosen = refl;
    reads = λ a buf. qmp_readmem-slice image socket a buf p;
  };
  reports = record {
    status = pos 0;
    run =
        qmp_get_registers-Holds socket r.text cr3 cr4 idtr
          (record { idtr = 0; cr3 = 0; cr4 = local }) r.written r.delivered r.small r.cr3_there
          r.cr4_there r.idt_there;
  };
  no_symbols = b.no_symbols;
  unmoved = b.unmoved;
  no_pud = b.no_pud;
  no_pmd = b.no_pmd;
  no_ptbl = b.no_ptbl;
}

-- The same on a guest of which QMP answers memory and registers.
pub qmp_guest-IsLocated :
    (image : Image) (socket : Socket) (idtr cr3 cr4 : ℕ) (mem : Memory) (m : Machine) (file : Bytes)
    (value : ℕ)
    → IsBlank m
    → AnswersMemory image socket
    → AnswersRegisters socket idtr cr3 cr4
    → IsLocatable image mem (record { idtr = idtr; cr3 = cr3; cr4 = cr4 }) file
    → value < 2 ^ 64
    → Returns
        (locate mem (some file) (record m { client = some (qmp_client socket) }))
        (IsLocated image (record { idtr = idtr; cr3 = cr3; cr4 = cr4 }) file value)
qmp_guest-IsLocated image socket idtr cr3 cr4 mem m file value b p r l v =
    locate-IsLocated image mem (record { idtr = idtr; cr3 = cr3; cr4 = cr4 })
      (record m { client = some (qmp_client socket) }) file value l.bytes
      (qmp_guest-IsStarted image socket idtr cr3 cr4 mem.cr4 m b p r) l.sized r.cr3_there.fits
      l.mapped v l.high
