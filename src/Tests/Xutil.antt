-- ===== src/Tests/Xutil.antt =====
-- Calls of the helpers and of the messages.
use kvm_dmesg.Base.{
  ℕ, suc, ◌≡◌, min, true, inr, [], ◌∷◌, ◌++◌, arith, length, take, drop, replicate,
}
use kvm_dmesg.Base.Run.{ok, fault}
use kvm_dmesg.Client.Qmp.{qmp_read}
use kvm_dmesg.Client.Qmp.Delivers.{qmp_read_overflows}
use kvm_dmesg.Base.Word.{pos}
use kvm_dmesg.Messages.{
  first_loglevel, log_init, put_message, info, large, put_up_to, log_init-levels,
}
use kvm_dmesg.Tests.Qmp.{pieces, pieces-Delivers}
use kvm_dmesg.Text.{codes}
use kvm_dmesg.Text.Decimal.{dec}
use kvm_dmesg.Xutil.Io.{arrived, interrupted, failed, xread, incoming, xread-take}
use kvm_dmesg.Xutil.Numbers.{xstroul, signed, xstroul-dec}
use kvm_dmesg.Xutil.Strings.{xstrlcpy, xstrlcpy-take}

xread-take_example :
    xread (arrived (1 ∷ 2 ∷ []) ∷ interrupted ∷ arrived (3 ∷ []) ∷ failed ∷ []) 1024
    ≡ ok
        (take 1024 (incoming (arrived (1 ∷ 2 ∷ []) ∷ interrupted ∷ arrived (3 ∷ []) ∷ failed ∷ [])))
xread-take_example =
    xread-take (arrived (1 ∷ 2 ∷ []) ∷ interrupted ∷ arrived (3 ∷ []) ∷ failed ∷ []) 1024 (inr tt)

-- A text of 600 bytes, read into the 512 bytes of a session.
qmp_read_overflows_example :
    qmp_read (pieces 1 (replicate 600 7)) (length {A = ℕ} []) ([] ++ replicate 512 0) ≡ fault
qmp_read_overflows_example =
    qmp_read_overflows (pieces 1 (replicate 600 7)) (replicate 600 7) [] (replicate 512 0)
      (pieces-Delivers 1 (replicate 600 7) (omega arith)) (omega arith)

xstroul-dec_example : xstroul true 10 (dec 1234 ++ 0 ∷ []) ≡ ok (signed true 1234, 0 ∷ [])
xstroul-dec_example = xstroul-dec true 1234 [] (omega arith)

xstrlcpy-take_example :
    xstrlcpy (9 ∷ 9 ∷ 9 ∷ 9 ∷ []) (codes "abcd" ++ 0 ∷ []) (suc 2)
    ≡ ok (
      min 2 (length (codes "abcd")),
      take 2 (codes "abcd") ++ 0 ∷ drop (suc (min 2 (length (codes "abcd")))) (9 ∷ 9 ∷ 9 ∷ 9 ∷ []),
    )
xstrlcpy-take_example =
    xstrlcpy-take (9 ∷ 9 ∷ 9 ∷ 9 ∷ []) (codes "abcd") [] 2
      (λ e. cc, (λ e. cc, (λ e. cc, (λ e. cc, tt)))) (omega arith)

log_init-levels_example :
    put_message info (log_init (pos 7) (log_init (pos 2) first_loglevel)) (codes "seen")
    ≡ put_up_to info info (codes "seen")
log_init-levels_example =
    log_init-levels info info (pos 7) first_loglevel (codes "seen") (λ e. cc) (large 3)
