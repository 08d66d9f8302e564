-- ===== src/Main/Kernel.antt =====
-- Where the guest's kernel is, by System.map, the registers and memory, and that the state behind
-- x86_64_post_reloc says so.
use kvm_dmesg.Base.{
  ℕ, ◌*◌, ◌/◌, ◌^◌, ◌<◌, ◌≡◌, refl, ap, ◌∙◌, Option, none, some, [], ◌∷◌, true, leb, length,
  if◌then◌else◌,
}
use kvm_dmesg.Base.Bytes.{Bytes, le, encode, length-encode}
use kvm_dmesg.Base.Run.{Returns, ok, ◌>>=◌}
use kvm_dmesg.Base.Word.{add64, sub64}
use kvm_dmesg.Guest.{paddr_of, kvaddr, start_kernel_map}
use kvm_dmesg.Guest.Translate.{Image, Serves, slice}
use kvm_dmesg.Kaslr.{
  default_page_offset, set_relocation, x86_64_init, derive_kaslr_offset, x86_64_post_reloc,
}
use kvm_dmesg.Kaslr.Derive.{sub64-lt, topped}
use kvm_dmesg.Kaslr.Relocation.{relocated-set_relocation}
use kvm_dmesg.Log.Dump.{Variable}
use kvm_dmesg.Machine.{Machine, Registers}
use kvm_dmesg.Main.{Memory, locate, dump_log, dump_guest}
use kvm_dmesg.Main.Guests.{IsLocatable}
use kvm_dmesg.Main.Locate.{IsStarted, kaslr_in, phys_base_in, derived, derived_lem}
use kvm_dmesg.Paging.Walk.{walked}
use mathlib.Core.Path.{subst}
use kvm_dmesg.Symbols.{relocated, get_symbol_data, kernel_symbol_exists}
use kvm_dmesg.Symbols.Bounds.{AddressFits, first_address-AddressFits}
use kvm_dmesg.Symbols.Data.{get_symbol_data-slice}
use kvm_dmesg.Symbols.Init.{IsFilled, symtab_init-IsFilled, kernel_symbol_exists_lem, is_some}
use kvm_dmesg.Symbols.Load.{first_address}
use kvm_dmesg.Symbols.Lookup.{address_of, is_ascii, index_at}
use kvm_dmesg.Symbols.Map.{fgets_lines, line_room}
use kvm_dmesg.Text.{codes}

-- How far the kernel is from where it was linked, and where its two maps of memory start.
pub record Kernel : Type 0 where
  pub kaslr : ℕ
  pub phys_base : ℕ
  pub page_offset : ℕ

-- The physical address of a kernel's address.
abbrev pub place : Kernel → ℕ → ℕ
place k addr =
    if leb start_kernel_map addr
    then add64 (sub64 addr start_kernel_map) k.phys_base
    else sub64 addr k.page_offset

-- The address that System.map has for a name.
abbrev pub symbol_in : Bytes → Bytes → Option ℕ
symbol_in file name = first_address (fgets_lines line_room [] file) name

-- The kernel by the IDT alone.
abbrev pub kernel_by_idt : Image → Registers → Bytes → Kernel
kernel_by_idt image regs file = record {
  kaslr = kaslr_in image regs file;
  phys_base = phys_base_in image regs file;
  page_offset = default_page_offset;
}

-- The start of the direct map: what stands at page_offset_base, if the kernel has it.
abbrev page_offset_at : Image → Kernel → Option ℕ → ℕ
page_offset_at image k none = k.page_offset
page_offset_at image k (some a) = le (slice image (place k (add64 a k.kaslr)) 8)

abbrev pub kernel_in : Image → Registers → Bytes → Kernel
kernel_in image regs file =
    let k = kernel_by_idt image regs file in
    record k { page_offset = page_offset_at image k (symbol_in file (codes "page_offset_base")) }

-- The state `r` reads System.map and the guest's memory as the kernel has them; what main does not
-- touch up to the dump is as in `m`.
pub record IsAt (image : Image) (file : Bytes) (k : Kernel) (m r : Machine) : Type 0 where
  pub serves : Serves image r
  pub reads :
      (c : ℕ) (cs : Bytes)
      → is_ascii (c ∷ cs) ≡ true
      → address_of r.st.symname_hash (c ∷ cs) ≡ ok (symbol_in file (c ∷ cs))
  pub phys_base : r.machdep.machspec.phys_base ≡ k.phys_base
  pub page_offset : r.machdep.machspec.page_offset ≡ k.page_offset
  pub sizes : r.size_table ≡ m.size_table
  pub debug : r.debug ≡ m.debug
  pub moved : (value : ℕ) → value < 2 ^ 64 → relocated r value ≡ add64 value k.kaslr

-- The value of a kernel's variable, of so many bytes, by System.map and memory.
abbrev pub ValueIn : Image → Bytes → Kernel → Bytes → ℕ → ℕ → Type 0
ValueIn image file k name size value =
    (a : ℕ) × (symbol_in file name ≡ some a)
    × (le (slice image (place k (add64 a k.kaslr)) size) ≡ value)

-- An address of System.map fits 64 bits.
pub symbol_in-lt : (file name : Bytes) (a : ℕ) → symbol_in file name ≡ some a → a < 2 ^ 64
symbol_in-lt file name a e =
    subst AddressFits e (first_address-AddressFits (fgets_lines line_room [] file) name)

module _ (image : Image) (mem : Memory) (regs : Registers) (file : Bytes) (m loaded : Machine)
    (start : IsStarted image mem.cr4 regs m) (is_loaded : IsFilled file m loaded) where
  abbrev behind : Machine
  behind = derived image mem regs file 0 m loaded.st is_loaded.divide_error is_loaded.idt_table

  abbrev ready_state : Machine
  ready_state = x86_64_init mem.pages (record m { st = loaded.st })

  derived-IsAt : IsAt image file (kernel_by_idt image regs file) m behind
  unfolding x86_64_init set_relocation
  derived-IsAt = record {
    serves = record {
      client = start.serves.client;
      chosen = start.serves.chosen;
      reads = start.serves.reads;
    };
    reads = λ c cs ascii. is_loaded.reads (c ∷ cs) (index_at c cs ascii);
    phys_base = refl;
    page_offset = refl;
    sizes = refl;
    debug = refl;
    moved = λ value h.
        relocated-set_relocation
          (walked image (regs.cr3 / 8192 * 8192) (topped image (regs.cr3 / 8192 * 8192) ready_state)
            regs.idtr)
          (kaslr_in image regs file) (phys_base_in image regs file) value start.unmoved
          (sub64-lt _ _) h;
  }

-- symtab_init, x86_64_init and derive_kaslr_offset find where the IDT says the kernel is.
locate-IsAt :
    (image : Image) (mem : Memory) (regs : Registers) (m : Machine) (file : Bytes)
    → IsStarted image mem.cr4 regs m
    → IsLocatable image mem regs file
    → regs.cr3 < 2 ^ 64
    → Returns (locate mem (some file) m) (IsAt image file (kernel_by_idt image regs file) m)
unfolding locate
locate-IsAt image mem regs m file start l fits =
    let (loaded, run, is_loaded) = symtab_init-IsFilled file m start.no_symbols in
    (
      behind image mem regs file m loaded start is_loaded,
      rw run (
          ap (λ (n : Machine). derive_kaslr_offset mem.gate mem.cr4 (x86_64_init mem.pages n))
            is_loaded.rest
          ∙ derived_lem image mem regs file 0 m loaded.st is_loaded.divide_error is_loaded.idt_table
              l.bytes start l.sized fits l.mapped),
      derived-IsAt image mem regs file m loaded start is_loaded,
    )

module _ (image : Image) (file : Bytes) (k : Kernel) (m r : Machine)
    (at : IsAt image file k m r) where
  pub places : (addr : ℕ) → paddr_of r addr kvaddr ≡ place k addr
  unfolding paddr_of
  places addr = rw (at.phys_base, at.page_offset)

  -- What a variable of the kernel is for the state.
  pub ValueIn-Variable :
      (c : ℕ) (cs : Bytes) (size value : ℕ)
      → is_ascii (c ∷ cs) ≡ true
      → ValueIn image file k (c ∷ cs) size value
      → Variable image r (c ∷ cs) size value
  ValueIn-Variable c cs size value ascii (a, e, v) = (
    a,
    at.reads c cs ascii ∙ ap ok e,
    ap (λ (addr : ℕ). le (slice image addr size))
          (places (relocated r a) ∙ ap (place k) (at.moved a (symbol_in-lt file (c ∷ cs) a e)))
        ∙ v,
  )

  -- What get_symbol_data reads of a variable that System.map has.
  pub data_at_place :
      (c : ℕ) (cs : Bytes) (size : ℕ) (local : Bytes) (a : ℕ)
      → is_ascii (c ∷ cs) ≡ true
      → length local ≡ size
      → symbol_in file (c ∷ cs) ≡ some a
      → get_symbol_data r (c ∷ cs) size local ≡ ok (slice image (place k (add64 a k.kaslr)) size)
  data_at_place c cs size local a ascii room e =
      get_symbol_data-slice image r (c ∷ cs) size local (some a) at.serves room
        (at.reads c cs ascii ∙ ap ok e)
      ∙ ap (λ (addr : ℕ). ok (slice image addr size))
          (places (relocated r a) ∙ ap (place k) (at.moved a (symbol_in-lt file (c ∷ cs) a e)))

  -- The page offset of another start of the direct map.
  with_offset-IsAt :
      (offset : ℕ)
      → IsAt image file
          (record k { page_offset = offset })
          m
          (record r {
            machdep = record r.machdep {
              machspec = record r.machdep.machspec { page_offset = offset };
            };
          })
  unfolding relocated
  with_offset-IsAt offset = record {
    serves = record {
      client = at.serves.client;
      chosen = at.serves.chosen;
      reads = at.serves.reads;
    };
    reads = at.reads;
    phys_base = at.phys_base;
    page_offset = refl;
    sizes = at.sizes;
    debug = at.debug;
    moved = at.moved;
  }

  exists_at :
      (found : Option ℕ)
      → symbol_in file (codes "page_offset_base") ≡ found
      → kernel_symbol_exists r (codes "page_offset_base") ≡ ok (is_some found)
  exists_at found e =
      kernel_symbol_exists_lem r (codes "page_offset_base") (at.reads _ _ refl ∙ ap ok e)

  post_reloc-IsAt :
      (found : Option ℕ)
      → symbol_in file (codes "page_offset_base") ≡ found
      → Returns
          (x86_64_post_reloc r)
          (IsAt image file (record k { page_offset = page_offset_at image k found }) m)
  unfolding x86_64_post_reloc
  post_reloc-IsAt none e = (r, rw (exists_at none e), at)
  post_reloc-IsAt (some a) e =
      let offset : ℕ = le (slice image (place k (add64 a k.kaslr)) 8) in
      let read =
        data_at_place _ _ 8 (encode 8 r.machdep.machspec.page_offset) a refl (length-encode 8 _)
          e in
      (_, rw (exists_at (some a) e, read), with_offset-IsAt offset)

-- From a state as global_data.c starts it, main comes to the dump in a state that has the kernel.
pub dump_guest-IsAt :
    (image : Image) (mem : Memory) (regs : Registers) (m : Machine) (file : Bytes)
    → IsStarted image mem.cr4 regs m
    → IsLocatable image mem regs file
    → regs.cr3 < 2 ^ 64
    → (r : Machine) × (dump_guest mem (some file) m ≡ dump_log mem r)
      × IsAt image file (kernel_in image regs file) m r
unfolding dump_guest
dump_guest-IsAt image mem regs m file start l fits =
    let (r, run, at) = locate-IsAt image mem regs m file start l fits in
    let (s, moved, good) =
      post_reloc-IsAt image file (kernel_by_idt image regs file) m r at
        (symbol_in file (codes "page_offset_base")) refl in
    (s, rw (run, ◌>>=◌, moved), good)
