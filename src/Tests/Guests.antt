-- ===== src/Tests/Guests.antt =====
-- The guests of the tests: their memory, and the program's state with a client that reads it.
use kvm_dmesg.Base.{ℕ, zero, suc, refl, [], ◌∷◌, replicate, length, some}
use kvm_dmesg.Base.Bytes.{Bytes}
use kvm_dmesg.Base.Run.{ok}
use kvm_dmesg.Base.Word.{pos, not64}
use kvm_dmesg.Guest.Translate.{Image, Serves, slice}
use kvm_dmesg.Machine.{Machine, GuestClient, guest_name, Registers, SizeTable, OffsetTable}
use kvm_dmesg.Symbols.Load.{empty_table}

-- The bytes of a list from the address 0 on, and zeros behind them.
abbrev pub memory : Bytes → Image
memory [] a = 0
memory (b ∷ bs) zero = b
memory (b ∷ bs) (suc a) = memory bs a

abbrev pub client : Image → Registers → GuestClient
client mem regs = record {
  ty = guest_name;
  get_registers = λ _. ok (pos 0, regs);
  readmem = λ a buf. ok (pos 0, slice mem a (length buf));
}

abbrev pub no_sizes : SizeTable
no_sizes = record {
  printk_info = 0;
  prb_desc = 0;
  printk_ringbuffer = 0;
  prb_desc_ring = 0;
  prb_data_ring = 0;
}

abbrev pub no_offsets : OffsetTable
no_offsets = record {
  prb_desc_ring = 0;
  prb_text_data_ring = 0;
  prb_desc_ring_count_bits = 0;
  prb_desc_ring_descs = 0;
  prb_desc_ring_infos = 0;
  prb_desc_ring_head_id = 0;
  prb_desc_ring_tail_id = 0;
  prb_data_ring_size_bits = 0;
  prb_data_ring_data = 0;
}

abbrev blank_page : Bytes
blank_page = replicate 4096 0

-- Behind x86_64_init, with the registers that the client reports.
abbrev pub started : Image → Registers → ℕ → ℕ → Machine
started mem regs divide idt = record {
  client = some (client mem regs);
  debug = 0;
  kt = record { flags = 0; relocate = 0 };
  kernel_pgd = 0;
  st = record {
    symname_hash = empty_table;
    divide_error_vmlinux = divide;
    idt_table_vmlinux = idt;
  };
  machdep = record {
    pgd = blank_page;
    pud = blank_page;
    pmd = blank_page;
    ptbl = blank_page;
    last_pgd_read = 0;
    last_pud_read = 0;
    last_pmd_read = 0;
    last_ptbl_read = 0;
    machspec = record {
      page_offset = 0;
      phys_base = 0;
      pgdir_shift = 39;
      ptrs_per_pgd = 512;
      physical_mask_shift = 46;
    };
    pagesize = 4096;
    pageoffset = 4095;
    pagemask = not64 4095;
  };
  size_table = no_sizes;
  offset_table = no_offsets;
}

abbrev pub no_registers : Registers
no_registers = record { idtr = 0; cr3 = 0; cr4 = 0 }

pub started-Serves :
    (mem : Image) (regs : Registers) (divide idt : ℕ) → Serves mem (started mem regs divide idt)
started-Serves mem regs divide idt = record {
  client = client mem regs;
  chosen = refl;
  reads = λ a buf. refl;
}
