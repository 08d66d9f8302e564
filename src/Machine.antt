-- ===== src/Machine.antt =====
-- The program's global state: the structures of defs.h and client.h, and the variables of
-- global_data.c. Pointers to the one instance of a structure (kt, vt, st, machdep, machdep->machspec,
-- pc) are the structure itself.
use kvm_dmesg.Base.{ℕ, Option, List}
use kvm_dmesg.Base.Bytes.{Bytes}
use kvm_dmesg.Base.Run.{Run}
use kvm_dmesg.Base.Word.{ℤ}

-- guest_access_t
pub data GuestAccess : Type 0 where
  guest_name guest_memory qmp_socket : GuestAccess

-- The registers that `get_registers` writes through its three pointers.
pub record Registers : Type 0 where
  pub idtr : ℕ
  pub cr3 : ℕ
  pub cr4 : ℕ

-- guest_client_t. The two function pointers are functions: from what stands behind the pointers
-- before the call to the `int` returned and what stands there after it.
pub record GuestClient : Type 0 where
  pub ty : GuestAccess
  pub get_registers : Registers → Run (ℤ × Registers)
  pub readmem : ℕ → Bytes → Run (ℤ × Bytes)

pub record KernelTable : Type 0 where
  pub flags : ℕ
  pub relocate : ℕ

pub record MachineSpecific : Type 0 where
  pub page_offset : ℕ
  pub phys_base : ℕ
  pub pgdir_shift : ℕ
  pub ptrs_per_pgd : ℕ
  pub physical_mask_shift : ℕ

pub record MachdepTable : Type 0 where
  pub pgd : Bytes
  pub pud : Bytes
  pub pmd : Bytes
  pub ptbl : Bytes
  pub last_pgd_read : ℕ
  pub last_pud_read : ℕ
  pub last_pmd_read : ℕ
  pub last_ptbl_read : ℕ
  pub machspec : MachineSpecific
  pub pagesize : ℕ
  pub pageoffset : ℕ
  pub pagemask : ℕ

-- struct syment, without the link: a chain is the list of its entries.
pub record Syment : Type 0 where
  pub value : ℕ
  pub name : Bytes
  pub cnt : ℕ

abbrev pub Chain : Type 0
Chain = List Syment

pub record SymbolTableData : Type 0 where
  pub symname_hash : List Chain
  pub divide_error_vmlinux : ℕ
  pub idt_table_vmlinux : ℕ

pub record SizeTable : Type 0 where
  pub printk_info : ℕ
  pub prb_desc : ℕ
  pub printk_ringbuffer : ℕ
  pub prb_desc_ring : ℕ
  pub prb_data_ring : ℕ

pub record OffsetTable : Type 0 where
  pub prb_desc_ring : ℕ
  pub prb_text_data_ring : ℕ
  pub prb_desc_ring_count_bits : ℕ
  pub prb_desc_ring_descs : ℕ
  pub prb_desc_ring_infos : ℕ
  pub prb_desc_ring_head_id : ℕ
  pub prb_desc_ring_tail_id : ℕ
  pub prb_data_ring_size_bits : ℕ
  pub prb_data_ring_data : ℕ

pub record Machine : Type 0 where
  pub client : Option GuestClient
  pub debug : ℕ
  pub kt : KernelTable
  pub kernel_pgd : ℕ
  pub st : SymbolTableData
  pub machdep : MachdepTable
  pub size_table : SizeTable
  pub offset_table : OffsetTable
