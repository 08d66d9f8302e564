-- ===== src/Client/Life/Round.antt =====
-- A client that comes and goes leaves nothing behind.
use kvm_dmesg.Base.{suc, ◌≡◌, refl, true, false, none, some}
use kvm_dmesg.Base.Bytes.{Bytes}
use kvm_dmesg.Base.Run.{ok, Returns, ◌>>=◌}
use kvm_dmesg.Base.Word.{ℤ, pos}
use kvm_dmesg.Client.{MemFile, file_client}
use kvm_dmesg.Client.Libvirt.{libvirt_client}
use kvm_dmesg.Client.Life.{
  World, Handles, libvirt_dlopen, libvirt_dlsym, close_connection, connect_domain,
  libvirt_client_init, free_domain, close_libraries, libvirt_client_uninit, file_client_init,
  file_client_uninit, open_qmp, qmp_client_uninit, client_init, client_of, guest_client_new,
  client_uninit, guest_client_release,
}
use kvm_dmesg.Client.Qmp.{qmp_client}
use kvm_dmesg.Client.Qmp.Session.{qmp_client_init}
use kvm_dmesg.Machine.{GuestAccess, guest_name, guest_memory, qmp_socket, GuestClient}

-- As the program starts: every pointer is NULL, and nothing is held.
abbrev pub fresh : Handles
fresh = record {
  libvirt_handle = false;
  libvirt_qemu_handle = false;
  domain_conn = false;
  domain = false;
  mem_file = none;
  guest_client = none;
  held = record {
    libvirt = 0;
    libvirt_qemu = 0;
    connections = 0;
    domains = 0;
    files = 0;
    sockets = 0;
    blocks = 0;
  };
}

-- The client that the world gives to a kind of access, if everything that its init calls succeeds.
pub data Reaches (w : World) (ac : Bytes) : GuestAccess → GuestClient → Type 0 where
  by_name :
      w.libvirt_loads ≡ true
      → w.libvirt_qemu_loads ≡ true
      → libvirt_dlsym w ≡ pos 0
      → w.connects ≡ true
      → w.has_domain ac ≡ true
      → Reaches w ac guest_name (libvirt_client w.monitor w.malloc)
  by_file : (file : MemFile) → w.fopen ac ≡ some file → Reaches w ac guest_memory (file_client file)
  by_socket :
      qmp_client_init w.qmp ac ≡ ok (pos 0, true)
      → Reaches w ac qmp_socket (qmp_client w.qmp.socket)

-- With the block for the client.
abbrev begun : Handles
begun = record fresh { held = record fresh.held { blocks = 1 } }

new_lem :
    (w : World) (ac : Bytes) (ty : GuestAccess) (s : Handles)
    → client_init w ac ty begun ≡ ok (pos 0, s)
    → guest_client_new w ac ty fresh ≡ ok (pos 0, record s { guest_client = client_of w ty s })
unfolding guest_client_new
new_lem w ac ty s e = rw (e, ◌>>=◌)

-- The client is set, and its release gives back all that is held.
pub record IsReleased (c : GuestClient) (run : ℤ × Handles) : Type 0 where
  pub result : run.0 ≡ pos 0
  pub client : run.1.guest_client ≡ some c
  pub released : guest_client_release run.1 ≡ ok fresh

-- One more file is held.
abbrev pub one_more_file : Handles → Handles
one_more_file s = record s { held = record s.held { files = suc s.held.files } }

-- The release gives back the client alone: a file that is held beside it stays.
pub record IsFramed (c : GuestClient) (run : ℤ × Handles) : Type 0 where
  pub released : IsReleased c run
  pub framed : guest_client_release (one_more_file run.1) ≡ ok (one_more_file fresh)

pub guest_client_new-IsFramed :
    (w : World) (ac : Bytes) (ty : GuestAccess) (c : GuestClient)
    → Reaches w ac ty c
    → Returns (guest_client_new w ac ty fresh) (IsFramed c)
unfolding client_init client_of libvirt_client_init libvirt_dlopen connect_domain file_client_init
    open_qmp guest_client_release client_uninit libvirt_client_uninit file_client_uninit
    qmp_client_uninit free_domain close_libraries close_connection
guest_client_new-IsFramed w ac guest_name c (by_name p q r s t) =
    let held = record begun.held { libvirt = 1; libvirt_qemu = 1; connections = 1; domains = 1 } in
    let opened : Handles = record begun {
      libvirt_handle = true;
      libvirt_qemu_handle = true;
      domain_conn = true;
      domain = true;
      held = held;
    } in
    (
      (pos 0, record opened { guest_client = client_of w guest_name opened }),
      new_lem w ac guest_name opened (rw (p, q, ◌>>=◌, r, s, t)),
      record { released = record { result = refl; client = refl; released = refl }; framed = refl },
    )
guest_client_new-IsFramed w ac guest_memory c (by_file file e) =
    let opened : Handles = record begun {
      mem_file = some file;
      held = record begun.held { files = 1 };
    } in
    (
      (pos 0, record opened { guest_client = client_of w guest_memory opened }),
      new_lem w ac guest_memory opened (rw e),
      record { released = record { result = refl; client = refl; released = refl }; framed = refl },
    )
guest_client_new-IsFramed w ac qmp_socket c (by_socket e) =
    let opened : Handles = record begun { held = record begun.held { sockets = 1 } } in
    (
      (pos 0, record opened { guest_client = client_of w qmp_socket opened }),
      new_lem w ac qmp_socket opened (rw e),
      record { released = record { result = refl; client = refl; released = refl }; framed = refl },
    )

-- If everything that the init of a kind of access calls succeeds, then guest_client_new, as the
-- program starts, returns 0 and sets the client of that kind, and guest_client_release behind it
-- gives back everything that is held, in an order in which no call needs what has been given back,
-- and clears all pointers.
pub guest_client_new-IsReleased :
    (w : World) (ac : Bytes) (ty : GuestAccess) (c : GuestClient)
    → Reaches w ac ty c
    → Returns (guest_client_new w ac ty fresh) (IsReleased c)
guest_client_new-IsReleased w ac ty c reached =
    let (run, new, e) = guest_client_new-IsFramed w ac ty c reached in (run, new, e.released)
