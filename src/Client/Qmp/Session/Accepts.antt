-- ===== src/Client/Qmp/Session/Accepts.antt =====
-- What a session of QMP takes for its answers.
use kvm_dmesg.Base.{
  ℕ, suc, ◌≤◌, ◌<◌, ◌≡◌, ◌≢◌, refl, Bool, true, false, ◌&&◌, not, [], ◌∷◌, ◌++◌, ◌==◌,
  if◌then◌else◌, arith, length, drop, replicate, length-replicate, ne→==, lt→leb,
}
use kvm_dmesg.Base.Bytes.{Bytes}
use kvm_dmesg.Base.Run.{Run, ok, ◌>>=◌}
use kvm_dmesg.Base.Word.{ℤ, pos, negsuc, minus_one}
use kvm_dmesg.Client.Qmp.{Socket}
use kvm_dmesg.Client.Qmp.Delivers.{Delivers, qmp_read_whole}
use kvm_dmesg.Text.Search.{NoNul}
use kvm_dmesg.Xutil.Io.{xwrite}
use kvm_dmesg.Client.Qmp.Session.{
  tolower, same_case, Connection, Outcome, enter_command_mode, command_mode_ok, check_greeting,
  qmp_establish_conn, qmp_negotiate, qmp_client_init,
}

-- Up to case, the text is the front of the key.
unfoldable pub is_front : Bytes → Bytes → Bool
unfolding tolower
is_front [] key = true
is_front (c ∷ cs) [] = false
is_front (c ∷ cs) (d ∷ ds) = (tolower c == tolower d) && is_front cs ds

tolower_nonzero : (c : ℕ) → c ≢ 0 → (tolower c == 0) ≡ false
unfolding tolower
tolower_nonzero c h = ground arith

compare :
    (same front : Bool) (next : Run Bool) (ends : Bool)
    → ends ≡ false
    → next ≡ ok front
    → (if same then if ends then ok true else next else ok false) ≡ ok (same && front)
compare true front next ends e f = rw (e, f)
compare false front next ends e f = refl

same_case-is_front :
    (s rest key : Bytes)
    → NoNul s
    → same_case (length s) (s ++ rest) (key ++ 0 ∷ []) ≡ ok (is_front s key)
unfolding same_case is_front
same_case-is_front [] rest key h = refl
same_case-is_front (c ∷ cs) rest [] (p, h) = rw (tolower_nonzero c p)
same_case-is_front (c ∷ cs) rest (d ∷ ds) (p, h) =
    compare (tolower c == tolower d) (is_front cs ds)
      (same_case (length cs) (cs ++ rest) (ds ++ 0 ∷ [])) (c == 0) (ne→== c 0 p)
      (same_case-is_front cs rest ds h)

-- What a session takes as its answers: a greeting of some bytes, a command that was written at least
-- in part, and a reply that is a front of the expected one.
abbrev pub accepted : Bytes → ℕ → Bytes → Bool
accepted greeting nwrite reply =
    not (length greeting == 0) && (not (nwrite == 0) && is_front reply command_mode_ok)

abbrev pub result : Bool → ℤ
result b = if b then pos 0 else minus_one

-- The path can be used, and the socket takes it.
pub record IsConnected (c : Connection) (path : Bytes) : Type 0 where
  pub some_path : 0 < length path
  pub short_path : length path < 108
  pub created : c.created ≡ true
  pub connected : c.connected ≡ true

check_greeting_lem :
    (greeting : Bytes)
    → check_greeting (length greeting) (greeting ++ drop (length greeting) (replicate 512 0))
      ≡ ok (result (not (length greeting == 0)), true)
unfolding check_greeting same_case tolower
check_greeting_lem [] = refl
check_greeting_lem (c ∷ cs) = rw (ne→== (suc (length cs)) 0 (λ e. absurd (omega arith)))

answered :
    (silent front : Bool) (rest : Run ℤ)
    → rest ≡ ok (result front)
    → (if silent then ok minus_one else rest) ≡ ok (result (not silent && front))
answered true front rest e = refl
answered false front rest e = e

-- The second half of qmp_client_init.
established :
    (greeted front : Bool) (next : Run ℤ)
    → next ≡ ok (result front)
    → (elim (result greeted) as (λ r. Run Outcome) [
      | negsuc n ↦ ok (minus_one, true)
      | pos n ↦ do r ← next; ok (r, true)
    ])
      ≡ ok (result (greeted && front), true)
established true front next e = rw e
established false front next e = refl

qmp_establish_conn_lem :
    (c : Connection) (path greeting : Bytes)
    → IsConnected c path
    → Delivers c.greeting greeting
    → length greeting ≤ 512
    → qmp_establish_conn c path ≡ ok (result (not (length greeting == 0)), true)
unfolding qmp_establish_conn check_greeting
qmp_establish_conn_lem c path greeting h d small =
    let read =
      qmp_read_whole c.greeting greeting (replicate 512 0) d
        (omega (arith, small, length-replicate {A = ℕ} 512 0)) in
    rw
      (
        ne→== (length path) 0 (λ e. absurd (omega (arith, h.some_path))),
        h.created,
        lt→leb 108 (length path) h.short_path,
        h.connected,
        read,
        ◌>>=◌,
      )
      (check_greeting_lem greeting)

qmp_negotiate_lem :
    (socket : Socket) (nwrite : ℕ) (reply : Bytes)
    → xwrite (socket.writes enter_command_mode) (length enter_command_mode) ≡ ok nwrite
    → Delivers (socket.polls enter_command_mode) reply
    → length reply ≤ 512
    → NoNul reply
    → qmp_negotiate socket ≡ ok (result (not (nwrite == 0) && is_front reply command_mode_ok))
unfolding qmp_negotiate
qmp_negotiate_lem socket nwrite reply w d small text =
    let read =
      qmp_read_whole (socket.polls enter_command_mode) reply (replicate 512 0) d
        (omega (arith, small, length-replicate {A = ℕ} 512 0)) in
    rw (w, ◌>>=◌)
      (answered (nwrite == 0) (is_front reply command_mode_ok) _ (
        rw (
          read,
          ◌>>=◌,
          same_case-is_front reply (drop (length reply) (replicate 512 0)) command_mode_ok text,
        )))

-- If the path can be used and the socket takes it, and both answers are texts that end and fit into
-- 512 bytes, then qmp_client_init returns 0 or -1, and leaves the socket open in both cases. It
-- returns 0 if the greeting has some bytes, whatever they are, something of the command was
-- written, and the reply is, up to case, a front of the expected reply, as an empty one is.
pub qmp_client_init-accepted :
    (c : Connection) (path greeting : Bytes) (nwrite : ℕ) (reply : Bytes)
    → IsConnected c path
    → Delivers c.greeting greeting
    → length greeting ≤ 512
    → xwrite (c.socket.writes enter_command_mode) (length enter_command_mode) ≡ ok nwrite
    → Delivers (c.socket.polls enter_command_mode) reply
    → length reply ≤ 512
    → NoNul reply
    → qmp_client_init c path ≡ ok (result (accepted greeting nwrite reply), true)
unfolding qmp_client_init
qmp_client_init-accepted c path greeting nwrite reply h d small w e short text =
    rw (qmp_establish_conn_lem c path greeting h d small, ◌>>=◌)
      (established (not (length greeting == 0))
        (not (nwrite == 0) && is_front reply command_mode_ok) (qmp_negotiate c.socket)
        (qmp_negotiate_lem c.socket nwrite reply w e short text))
