-- ===== src/Log/Endless.antt =====
-- A buffer in which nothing stands, read by a guest's wrong indices: the loop of
-- dump_variable_length_record_log does not end.
use kvm_dmesg.Base.{ℕ, zero, suc, ◌<◌, ◌≡◌, refl, ap, ◌∙◌, ◌++◌, arith}
use kvm_dmesg.Base.Bytes.{Bytes, ushort}
use kvm_dmesg.Base.Run.{Run, ok, diverges, ◌>>=◌}
use kvm_dmesg.Log.Loop.{loop_step}
use kvm_dmesg.Log.{log_len, log_from_idx, log_next, dump_log_entry, log_loop}

-- If the length at the front of the buffer is zero and the front can be printed, the loop of
-- dump_variable_length_record_log that is at the front stays there, and runs out of any fuel unless
-- it has to end there.
pub log_loop_diverges :
    (logbuf out : Bytes) (log_buf_len log_next_idx fuel : ℕ)
    → ushort logbuf log_len ≡ ok 0
    → dump_log_entry logbuf 0 ≡ ok out
    → 0 < log_buf_len
    → 0 < log_next_idx
    → log_loop logbuf log_buf_len log_next_idx fuel 0 ≡ diverges
unfolding log_loop log_from_idx log_next
log_loop_diverges logbuf out log_buf_len log_next_idx zero none front room next = refl
log_loop_diverges logbuf out log_buf_len log_next_idx (suc fuel) none front room next =
    loop_step logbuf log_buf_len log_next_idx fuel 0 0 0 out (λ same. absurd (omega arith))
      (rw none) front (rw none) room
    ∙ ap (λ (r : Run Bytes). r >>= λ rest. ok (out ++ rest))
        (log_loop_diverges logbuf out log_buf_len log_next_idx fuel none front room next)
