-- ===== src/Tests/Reached.antt =====
-- Guests that are reached: the three kinds of access, and a guest whose bytes are all 0xab, of which
-- the registers and the memory are printed.
use kvm_dmesg.Base.{◌≡◌, refl, true, none}
use kvm_dmesg.Base.Run.{Returns}
use kvm_dmesg.Base.Word.{pos}
use kvm_dmesg.Client.Libvirt.{libvirt_client}
use kvm_dmesg.Client.Life.{World, libvirt_dlsym, guest_client_new}
use kvm_dmesg.Client.Life.Failure.{IsLost, guest_client_new-IsLost}
use kvm_dmesg.Client.Life.Round.{fresh, by_name, IsReleased, guest_client_new-IsReleased}
use kvm_dmesg.Machine.{guest_name}
use kvm_dmesg.Tests.Libvirt.{printer, allocator}
use kvm_dmesg.Tests.Qmp.{connection}
use kvm_dmesg.Text.{codes}
use kvm_dmesg.Text.Search.{is_prefix}

-- Everything succeeds, but there is one domain only.
abbrev pub world : World
world = record {
  libvirt_loads = true;
  libvirt_qemu_loads = true;
  has_symbol = λ name. true;
  connects = true;
  has_domain = λ name. is_prefix (codes "vm") name;
  monitor = printer;
  malloc = allocator;
  fopen = λ path. none;
  qmp = connection;
}

dlsym_lem : libvirt_dlsym world ≡ pos 0
unfolding libvirt_dlsym
dlsym_lem = refl

guest_client_new-IsReleased_example :
    Returns
      (guest_client_new world (codes "vm1") guest_name fresh)
      (IsReleased (libvirt_client printer allocator))
unfolding is_prefix
guest_client_new-IsReleased_example =
    guest_client_new-IsReleased world (codes "vm1") guest_name (libvirt_client printer allocator)
      (by_name refl refl dlsym_lem refl refl)

guest_client_new-IsLost_example :
    Returns (guest_client_new world (codes "other") guest_name fresh) IsLost
unfolding is_prefix
guest_client_new-IsLost_example =
    guest_client_new-IsLost world (codes "other") refl refl dlsym_lem refl refl
