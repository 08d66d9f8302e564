-- ===== src/Client/Life/Failure.antt =====
-- What guest_client_new keeps when it fails.
use kvm_dmesg.Base.{◌≡◌, refl, true, false, none}
use kvm_dmesg.Base.Bytes.{Bytes}
use kvm_dmesg.Base.Run.{ok, Returns, ◌>>=◌}
use kvm_dmesg.Base.Word.{ℤ, pos, minus_one}
use kvm_dmesg.Client.Life.{
  World, Handles, libvirt_dlopen, libvirt_dlsym, close_connection, connect_domain,
  libvirt_client_init, client_init, guest_client_new, guest_client_release,
}
use kvm_dmesg.Client.Life.Round.{fresh}
use kvm_dmesg.Machine.{guest_name}

-- The two libraries and the block for the client are kept, and guest_client_release does nothing
-- about them.
pub record IsLost (run : ℤ × Handles) : Type 0 where
  pub result : run.0 ≡ minus_one
  pub no_client : run.1.guest_client ≡ none
  pub kept : guest_client_release run.1 ≡ ok run.1
  pub libvirt : run.1.held.libvirt ≡ 1
  pub libvirt_qemu : run.1.held.libvirt_qemu ≡ 1
  pub blocks : run.1.held.blocks ≡ 1
  pub connections : run.1.held.connections ≡ 0

-- If the libraries load with their functions and the connection opens, but the domain is not found,
-- guest_client_new returns -1; the connection is closed again, but the two libraries and the block
-- for the client stay, and guest_client_release does not give them back.
pub guest_client_new-IsLost :
    (w : World) (ac : Bytes)
    → w.libvirt_loads ≡ true
    → w.libvirt_qemu_loads ≡ true
    → libvirt_dlsym w ≡ pos 0
    → w.connects ≡ true
    → w.has_domain ac ≡ false
    → Returns (guest_client_new w ac guest_name fresh) IsLost
unfolding guest_client_new client_init libvirt_client_init libvirt_dlopen connect_domain
    close_connection guest_client_release
guest_client_new-IsLost w ac p q r s t = (
  (
    minus_one,
    record fresh {
      libvirt_handle = true;
      libvirt_qemu_handle = true;
      held = record fresh.held { libvirt = 1; libvirt_qemu = 1; blocks = 1 };
    },
  ),
  rw (p, q, ◌>>=◌, r, s, t),
  record {
    result = refl;
    no_client = refl;
    kept = refl;
    libvirt = refl;
    libvirt_qemu = refl;
    blocks = refl;
    connections = refl;
  },
)
