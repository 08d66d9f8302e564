-- ===== src/Client/Life.antt =====
-- How a client comes and goes: libvirt_dlopen, libvirt_dlsym, the inits and uninits of the three
-- clients, guest_client_new and guest_client_release of libvirt_client.c, and qmp_client_uninit of
-- qmp_client.c. What the process holds is counted beside the pointers, so that a resource that is lost
-- shows.
pub mod Round
pub mod Failure
use kvm_dmesg.Base.{ℕ, suc, zero, ◌+◌, Bool, true, false, ◌&&◌, Option, none, some, if◌then◌else◌}
use kvm_dmesg.Base.Bytes.{Bytes}
use kvm_dmesg.Base.Run.{Run, ok, fault, ◌>>=◌}
use kvm_dmesg.Base.Word.{ℤ, pos, negsuc, minus_one}
use kvm_dmesg.Client.{MemFile, file_client}
use kvm_dmesg.Client.Libvirt.{Monitor, Malloc, libvirt_client}
use kvm_dmesg.Client.Qmp.{qmp_client}
use kvm_dmesg.Client.Qmp.Session.{Connection, qmp_client_init}
use kvm_dmesg.Machine.{GuestClient, GuestAccess, guest_name, guest_memory, qmp_socket}
use kvm_dmesg.Text.{codes}

-- What the calls of libdl, of libvirt and of the C library come to.
pub record World : Type 0 where
  pub libvirt_loads : Bool
  pub libvirt_qemu_loads : Bool
  pub has_symbol : Bytes → Bool
  pub connects : Bool
  pub has_domain : Bytes → Bool
  pub monitor : Monitor
  pub malloc : Malloc
  pub fopen : Bytes → Option MemFile
  pub qmp : Connection

-- How many of each resource the process holds: the two libraries, connections to libvirt, domains,
-- files, sockets, and blocks of memory for clients.
pub record Held : Type 0 where
  pub libvirt : ℕ
  pub libvirt_qemu : ℕ
  pub connections : ℕ
  pub domains : ℕ
  pub files : ℕ
  pub sockets : ℕ
  pub blocks : ℕ

-- The global variables: which handles are not NULL, mem_file and guest_client.
pub record Handles : Type 0 where
  pub libvirt_handle : Bool
  pub libvirt_qemu_handle : Bool
  pub domain_conn : Bool
  pub domain : Bool
  pub mem_file : Option MemFile
  pub guest_client : Option GuestClient
  pub held : Held

-- One of a resource is given back; there must be one.
abbrev pub give_back : ℕ → Run ℕ
give_back zero = fault
give_back (suc n) = ok n

-- A function of libvirt.so.0 is called; it must be loaded.
abbrev pub call_libvirt : Handles → Run ℕ
call_libvirt s = give_back s.held.libvirt

unfoldable pub libvirt_dlopen : World → Handles → Run (ℤ × Handles)
libvirt_dlopen w s =
    if w.libvirt_loads
    then (let s₁ = record s {
      libvirt_handle = true;
      held = record s.held { libvirt = suc s.held.libvirt };
    } in
        if w.libvirt_qemu_loads
        then ok (
          pos 0,
          record s₁ {
            libvirt_qemu_handle = true;
            held = record s₁.held { libvirt_qemu = suc s₁.held.libvirt_qemu };
          },
        )
        else (do
          n ← give_back s₁.held.libvirt
          ok (
            minus_one,
            record s₁ {
              libvirt_handle = false;
              libvirt_qemu_handle = false;
              held = record s₁.held { libvirt = n };
            },
          )))
    else ok (minus_one, record s { libvirt_handle = false })

unfoldable pub libvirt_dlsym : World → ℤ
libvirt_dlsym w =
    if w.has_symbol (codes "virConnectOpen")
      && (w.has_symbol (codes "virConnectClose")
          && (w.has_symbol (codes "virDomainLookupByName")
              && (w.has_symbol (codes "virDomainFree")
                  && w.has_symbol (codes "virDomainQemuMonitorCommand"))))
    then pos 0
    else minus_one

-- virConnectOpen, where there is no connection yet.
abbrev pub open_connection : World → Handles → Handles
open_connection w s =
    if s.domain_conn
    then s
    else if w.connects
    then record s {
      domain_conn = true;
      held = record s.held { connections = suc s.held.connections };
    }
    else s

-- virDomainLookupByName, where there is no domain yet.
abbrev pub look_up : World → Bytes → Handles → Handles
look_up w name s =
    if s.domain
    then s
    else if w.has_domain name
    then record s { domain = true; held = record s.held { domains = suc s.held.domains } }
    else s

-- virConnectClose, and the pointer is cleared.
unfoldable pub close_connection : Handles → Run Handles
close_connection s = do
  loaded ← call_libvirt s
  n ← give_back s.held.connections
  ok (record s { domain_conn = false; held = record s.held { connections = n } })

-- libvirt_client_init from virConnectOpen on.
unfoldable pub connect_domain : World → Bytes → Handles → Run (ℤ × Handles)
connect_domain w name s =
    let s₁ = open_connection w s in
    let s₂ = look_up w name s₁ in
    if s₁.domain_conn
    then if s₂.domain then ok (pos 0, s₂) else (do s₃ ← close_connection s₂; ok (minus_one, s₃))
    else ok (minus_one, s₁)

unfoldable pub libvirt_client_init : World → Bytes → Handles → Run (ℤ × Handles)
libvirt_client_init w name s = do
  (r, s₁) ← libvirt_dlopen w s
  elim r [
    | negsuc n ↦ ok (minus_one, s₁)
    | pos n ↦ elim (libvirt_dlsym w) [
      | negsuc n ↦ ok (minus_one, s₁)
      | pos n ↦ connect_domain w name s₁
    ]
  ]

-- virDomainFree, where there is a domain.
unfoldable pub free_domain : Handles → Run Handles
free_domain s =
    if s.domain
    then (do
      loaded ← call_libvirt s
      n ← give_back s.held.domains
      ok (record s { domain = false; held = record s.held { domains = n } }))
    else ok s

-- The two dlcloses.
unfoldable pub close_libraries : Handles → Run Handles
close_libraries s = do
  s₁ ←
      if s.libvirt_handle
      then (do
        n ← give_back s.held.libvirt
        ok (record s { libvirt_handle = false; held = record s.held { libvirt = n } }))
      else ok s
  if s₁.libvirt_qemu_handle
      then (do
        n ← give_back s₁.held.libvirt_qemu
        ok (record s₁ { libvirt_qemu_handle = false; held = record s₁.held { libvirt_qemu = n } }))
      else ok s₁

unfoldable pub libvirt_client_uninit : Handles → Run Handles
libvirt_client_uninit s = do
  s₁ ← free_domain s
  s₂ ← if s₁.domain_conn then close_connection s₁ else ok s₁
  close_libraries s₂

unfoldable pub file_client_init : World → Bytes → Handles → ℤ × Handles
file_client_init w path s = elim s.mem_file [
  | some file ↦ (pos 0, s)
  | none ↦ elim (w.fopen path) [
    | none ↦ (minus_one, s)
    | some file ↦ (
      pos 0,
      record s { mem_file = some file; held = record s.held { files = suc s.held.files } },
    )
  ]
]

unfoldable pub file_client_uninit : Handles → Run Handles
file_client_uninit s = elim s.mem_file [
  | none ↦ ok s
  | some file ↦ do
    n ← give_back s.held.files
    ok (record s { mem_file = none; held = record s.held { files = n } })
]

-- qmp_client_init; a socket that it leaves open is held.
unfoldable pub open_qmp : World → Bytes → Handles → Run (ℤ × Handles)
open_qmp w path s = do
  (r, is_open) ← qmp_client_init w.qmp path
  ok (r, if is_open then record s { held = record s.held { sockets = suc s.held.sockets } } else s)

-- qmp_client_uninit, behind an init that made the socket: close fails where it is closed already, and
-- nobody looks at that.
unfoldable pub qmp_client_uninit : Handles → ℤ × Handles
qmp_client_uninit s = elim s.held.sockets [
  | zero ↦ (minus_one, s)
  | suc n ↦ (pos 0, record s { held = record s.held { sockets = n } })
]

-- The init of a kind of access.
unfoldable pub client_init : World → Bytes → GuestAccess → Handles → Run (ℤ × Handles)
client_init w ac guest_name s = libvirt_client_init w ac s
client_init w ac guest_memory s = ok (file_client_init w ac s)
client_init w ac qmp_socket s = open_qmp w ac s

-- The client that a kind of access has, with its two functions. file_readmem goes by mem_file.
unfoldable pub client_of : World → GuestAccess → Handles → Option GuestClient
client_of w guest_name s = some (libvirt_client w.monitor w.malloc)
client_of w qmp_socket s = some (qmp_client w.qmp.socket)
client_of w guest_memory s = elim s.mem_file [ none ↦ none | some file ↦ some (file_client file) ]

-- guest_client_new. The block of a client that could not be set up is not given back.
unfoldable pub guest_client_new : World → Bytes → GuestAccess → Handles → Run (ℤ × Handles)
guest_client_new w ac ty s = elim s.guest_client [
  | some c ↦ ok (pos 0, s)
  | none ↦ do
    let s₁ = record s { held = record s.held { blocks = suc s.held.blocks } }
    (r, s₂) ← client_init w ac ty s₁
    elim r [
      | negsuc n ↦ ok (minus_one, s₂)
      | pos n ↦ ok (pos 0, record s₂ { guest_client = client_of w ty s₂ })
    ]
]

-- The uninit of a kind of access.
unfoldable pub client_uninit : GuestAccess → Handles → Run Handles
client_uninit guest_name s = libvirt_client_uninit s
client_uninit guest_memory s = file_client_uninit s
client_uninit qmp_socket s = ok (qmp_client_uninit s).1

unfoldable pub guest_client_release : Handles → Run Handles
guest_client_release s = elim s.guest_client [
  | none ↦ ok s
  | some c ↦ do
    s₁ ← client_uninit c.ty s
    n ← give_back s₁.held.blocks
    ok (record s₁ { guest_client = none; held = record s₁.held { blocks = n } })
]
