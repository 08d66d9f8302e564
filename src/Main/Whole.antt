-- ===== src/Main/Whole.antt =====
-- main of main.c from its arguments to its end.
use kvm_dmesg.Base.{ap, suc, ◌≡◌, Option, none, some, List, [], ◌∷◌, if◌then◌else◌}
use kvm_dmesg.Base.Bytes.{Bytes}
use kvm_dmesg.Base.Run.{Run, ok, ◌>>=◌}
use kvm_dmesg.Base.Word.{ℤ, pos, minus_one, nonzero}
use kvm_dmesg.Client.Life.{World, Handles, guest_client_new, guest_client_release}
use kvm_dmesg.Client.Life.Round.{fresh, Reaches, IsFramed, guest_client_new-IsFramed}
use kvm_dmesg.Machine.{Machine, GuestAccess, GuestClient}
use kvm_dmesg.Main.{Files, Memory, choose_files, access_type, dump_guest}

-- What main returns, what it dumps, and the handles at its end.
pub record Ending : Type 0 where
  pub status : ℤ
  pub dumped : Option (Bytes × Option Bytes)
  pub handles : Handles

abbrev ends_early : Handles → Ending
ends_early s = record { status = minus_one; dumped = none; handles = s }

-- symname_hash_init opens System.map and does not close it.
unfoldable pub hold_map : Option Bytes → Handles → Handles
hold_map none s = s
hold_map (some file) s = record s { held = record s.held { files = suc s.held.files } }

-- From guest_client_new on, with the two paths and the kind of access.
unfoldable pub run_guest :
    World → Memory → Files → Machine → Bytes → Bytes → GuestAccess → Run Ending
run_guest w mem files m symmap_file guest_ac ac_type = do
  (r, s) ← guest_client_new w guest_ac ac_type fresh
  if nonzero r then ok (ends_early s) else (do
    let map_file = files.contents symmap_file
    out ← dump_guest mem map_file (record m { client = s.guest_client })
    s₁ ← guest_client_release (hold_map map_file s)
    ok (record { status = pos 0; dumped = some out; handles = s₁ }))

-- `pc->debug = 1`
abbrev pub with_debug : Machine → Machine
with_debug m = record m { debug = 1 }

-- main, with the arguments behind argv[0]; there must be two.
unfoldable pub run_main : World → Memory → Files → Machine → List Bytes → Run Ending
run_main w mem files m₀ [] = ok (ends_early fresh)
run_main w mem files m₀ (argv₁ ∷ []) = ok (ends_early fresh)
run_main w mem files m₀ (argv₁ ∷ argv₂ ∷ argv₃ ∷ more) = ok (ends_early fresh)
run_main w mem files m₀ (argv₁ ∷ argv₂ ∷ []) = elim (choose_files files argv₁ argv₂) [
  | none ↦ ok (ends_early fresh)
  | some (symmap_file, guest_ac) ↦ elim (access_type (files.stat guest_ac)) [
    | none ↦ ok (ends_early fresh)
    | some ac_type ↦ run_guest w mem files (with_debug m₀) symmap_file guest_ac ac_type
  ]
]

release_lem :
    (c : GuestClient) (run : ℤ × Handles) (map_file : Option Bytes)
    → IsFramed c run
    → guest_client_release (hold_map map_file run.1) ≡ ok (hold_map map_file fresh)
unfolding hold_map
release_lem c run none framed = framed.released.released
release_lem c run (some file) framed = framed.framed

-- If the arguments name a System.map and a guest, and everything that reaches the guest succeeds,
-- then main comes to what the dump on the client that is reached comes to; where the dump ends,
-- main returns 0 with it, and gives back every handle but the file of System.map.
pub run_main_lem :
    (w : World) (mem : Memory) (files : Files) (m₀ : Machine)
    (argv₁ argv₂ symmap_file guest_ac : Bytes) (ac_type : GuestAccess) (c : GuestClient)
    → choose_files files argv₁ argv₂ ≡ some (symmap_file, guest_ac)
    → access_type (files.stat guest_ac) ≡ some ac_type
    → Reaches w guest_ac ac_type c
    → run_main w mem files m₀ (argv₁ ∷ argv₂ ∷ []) ≡ (
        dump_guest mem (files.contents symmap_file) (record (with_debug m₀) { client = some c })
        >>= λ out. ok (record {
          status = pos 0;
          dumped = some out;
          handles = hold_map (files.contents symmap_file) fresh;
        }))
unfolding run_main run_guest
run_main_lem w mem files m₀ argv₁ argv₂ symmap_file guest_ac ac_type c p q reached =
    let (run, new, e) = guest_client_new-IsFramed w guest_ac ac_type c reached in
    rw (p, run_main, q, new, ◌>>=◌, e.released.result, e.released.client)
      (ap
        (λ (released : Run Handles).
          dump_guest mem (files.contents symmap_file) (record (with_debug m₀) { client = some c })
          >>= λ out.
              released >>= λ s. ok (record { status = pos 0; dumped = some out; handles = s }))
        (release_lem c run (files.contents symmap_file) e))
