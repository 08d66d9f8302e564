-- ===== src/Messages.antt =====
-- log.c: messages to stderr, by their level. The text that vsnprintf makes of a format and its
-- arguments is a parameter.
use kvm_dmesg.Base.{
  ℕ, ◌+◌, ◌≢◌, leb, ◌≡◌, refl, ◌&&◌, ltb, if◌then◌else◌, [], ◌∷◌, ◌++◌, take, arith,
}
use kvm_dmesg.Base.Bytes.{Bytes}
use kvm_dmesg.Base.Word.{ℤ, pos, negsuc}
use kvm_dmesg.Text.{codes}

-- LOGLEVEL_ERROR to LOGLEVEL_DEBUG, and their numbers.
pub data Level : Type 0 where
  error warning info debug : Level

abbrev pub number : Level → ℕ
number error = 0
number warning = 1
number info = 2
number debug = 3

-- `loglevel` as it starts.
abbrev pub first_loglevel : ℕ
first_loglevel = 1

-- log_init: the level behind it, by the one before it.
unfoldable pub log_init : ℤ → ℕ → ℕ
log_init (negsuc n) loglevel = loglevel
log_init (pos level) loglevel = if ltb 0 level && ltb level 4 then level else loglevel

-- report: `msg` has room for 1023 bytes.
unfoldable pub report : Bytes → Bytes → Bytes
report prefix text = prefix ++ (take 1023 text ++ b'\n' ∷ [])

abbrev pub prefix_of : Level → Bytes
prefix_of error = codes "[Error] "
prefix_of warning = codes "[Warning] "
prefix_of info = codes "[Info] "
prefix_of debug = codes "[Debug] "

-- pr_err, pr_warning, pr_info and __pr_debug: what goes to stderr.
unfoldable pub put_message : Level → ℕ → Bytes → Bytes
put_message level loglevel text =
    if ltb loglevel (number level) then [] else report (prefix_of level) text

-- die_builtin: what goes to stderr, and the status with which the program ends.
abbrev pub die_builtin : Bytes → Bytes × ℕ
die_builtin err = (report (codes "[Fatal] ") err, 128)

abbrev pub die : Bytes → Bytes × ℕ
die err = die_builtin err

-- What is let through at a level.
abbrev pub put_up_to : Level → Level → Bytes → Bytes
put_up_to chosen level text =
    if leb (number level) (number chosen) then report (prefix_of level) text else []

log_init-number :
    (chosen : Level) (loglevel : ℕ)
    → chosen ≢ error
    → log_init (pos (number chosen)) loglevel ≡ number chosen
unfolding log_init
log_init-number error loglevel h = absurd (h refl)
log_init-number warning loglevel h = refl
log_init-number info loglevel h = refl
log_init-number debug loglevel h = refl

put_message-number :
    (chosen level : Level) (text : Bytes)
    → put_message level (number chosen) text ≡ put_up_to chosen level text
unfolding put_message
put_message-number chosen level text = ground arith

-- What log_init does not take: a negative number, the number of LOGLEVEL_ERROR, and more than that of
-- LOGLEVEL_DEBUG.
pub data IsRefused : ℤ → Type 0 where
  negative : (n : ℕ) → IsRefused (negsuc n)
  of_error : IsRefused (pos 0)
  large : (n : ℕ) → IsRefused (pos (4 + n))

log_init-refused :
    (wanted : ℤ) (loglevel : ℕ) → IsRefused wanted → log_init wanted loglevel ≡ loglevel
unfolding log_init
log_init-refused wanted loglevel (negative n) = refl
log_init-refused wanted loglevel of_error = refl
log_init-refused wanted loglevel (large n) = ground arith

-- A call of log_init with the number of warning, info or debug lets through exactly the messages up
-- to that level, whatever the level was before, also behind a later call with a negative number,
-- with that of error, or with more than that of debug.
pub log_init-levels :
    (chosen level : Level) (refused : ℤ) (loglevel : ℕ) (text : Bytes)
    → chosen ≢ error
    → IsRefused refused
    → (put_message level (log_init refused (log_init (pos (number chosen)) loglevel)) text
        ≡ put_up_to chosen level text)
log_init-levels chosen level refused loglevel text h r = rw (
  log_init-refused refused (log_init (pos (number chosen)) loglevel) r,
  log_init-number chosen loglevel h,
  put_message-number chosen level text,
)
