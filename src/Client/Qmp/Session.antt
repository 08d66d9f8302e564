-- ===== src/Client/Qmp/Session.antt =====
-- The session of qmp_client.c: qmp_establish_conn, qmp_negotiate and qmp_client_init.
pub mod Accepts
use kvm_dmesg.Base.{
  ℕ, zero, suc, ◌+◌, ◌≤◌, ◌<◌, ◌≡◌, ◌≢◌, refl, Bool, true, false, ◌&&◌, ◌||◌, not, none, some, List,
  [], ◌∷◌, ◌++◌, leb, ◌==◌, if◌then◌else◌, arith, length, drop, replicate, length-replicate, ne→==,
  lt→leb,
}
use kvm_dmesg.Base.Bytes.{Bytes}
use kvm_dmesg.Base.Run.{Run, ok, fault, ◌>>=◌}
use kvm_dmesg.Base.Word.{ℤ, pos, negsuc, minus_one}
use kvm_dmesg.Client.Qmp.{Poll, Socket, qmp_read}
use kvm_dmesg.Client.Qmp.Delivers.{Delivers, qmp_read_whole}
use kvm_dmesg.Text.{codes}
use kvm_dmesg.Text.Search.{NoNul}
use kvm_dmesg.Xutil.Io.{xwrite}

unfoldable pub tolower : ℕ → ℕ
tolower c = if leb b'A' c && leb c b'Z' then c + 32 else c

-- `strncasecmp(s, t, n) == 0`; past the end of an object the comparison is a fault.
unfoldable pub same_case : ℕ → Bytes → Bytes → Run Bool
same_case zero s t = ok true
same_case (suc n) [] t = fault
same_case (suc n) (c ∷ cs) [] = fault
same_case (suc n) (c ∷ cs) (d ∷ ds) =
    if tolower c == tolower d then if c == 0 then ok true else same_case n cs ds else ok false

-- What the calls of socket and connect and the greeting come to, and the socket behind them.
pub record Connection : Type 0 where
  pub created : Bool
  pub connected : Bool
  pub greeting : List Poll
  pub socket : Socket

abbrev qmp_greeting : Bytes
qmp_greeting = codes "{\"QMP\":"

abbrev pub enter_command_mode : Bytes
enter_command_mode = codes "{ \"execute\": \"qmp_capabilities\" }"

abbrev pub command_mode_ok : Bytes
command_mode_ok = codes "{\"return\": {}}\r\n"

-- A function's result, and whether the socket is open behind it.
abbrev pub Outcome : Type 0
Outcome = ℤ × Bool

-- The test of the greeting: `nread == 0 && strncasecmp(buf, QMP_GREETING, …)`.
unfoldable pub check_greeting : ℕ → Bytes → Run Outcome
check_greeting nread buf =
    if nread == 0
    then (do
      same ← same_case (length qmp_greeting) buf (qmp_greeting ++ 0 ∷ [])
      ok (if same then pos 0 else minus_one, true))
    else ok (pos 0, true)

-- qmp_establish_conn. `sun_path` has 108 bytes, which hold the path and its NUL.
unfoldable pub qmp_establish_conn : Connection → Bytes → Run Outcome
qmp_establish_conn c sock_path =
    if length sock_path == 0 || not c.created
    then ok (minus_one, false)
    else if leb 108 (length sock_path)
    then fault
    else if not c.connected
    then ok (minus_one, false)
    else (do
      got ← qmp_read c.greeting 0 (replicate 512 0)
      elim got [ none ↦ ok (minus_one, true) | some (nread, buf) ↦ check_greeting nread buf ])

unfoldable pub qmp_negotiate : Socket → Run ℤ
qmp_negotiate socket = do
  nwrite ← xwrite (socket.writes enter_command_mode) (length enter_command_mode)
  if nwrite == 0 then ok minus_one else (do
    got ← qmp_read (socket.polls enter_command_mode) 0 (replicate 512 0)
    elim got [
      | none ↦ ok minus_one
      | some (nread, buf) ↦ do
        same ← same_case nread buf (command_mode_ok ++ 0 ∷ [])
        ok (if same then pos 0 else minus_one)
    ])

unfoldable pub qmp_client_init : Connection → Bytes → Run Outcome
qmp_client_init c sock_path = do
  (r, is_open) ← qmp_establish_conn c sock_path
  elim r [
    | negsuc n ↦ ok (minus_one, is_open)
    | pos n ↦ do r ← qmp_negotiate c.socket; ok (r, is_open)
  ]
