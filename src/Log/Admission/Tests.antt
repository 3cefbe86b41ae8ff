-- ===== src/Log/Admission/Tests.antt =====
-- One appender and a close that waits for it.
use xcom_lua.Prelude.{◌≡◌, ◌≢◌, refl, inl, inr, true, false, arith}
use xcom_lua.Log.Admission.{
  leased, drained, waiting, not_closing, System, appender_step, closer_step, append, close, reopen,
  initial, Reach, here, next,
}
use xcom_lua.Log.Admission.Safety.{flying, no_lease_after_close}
use xcom_lua.Log.Admission.Drains.{
  appended, closed, Settled, WillDrain, close_can_drain, close_drains,
}

abbrev opened : System
opened = record initial {
  gate = record (initial.gate) { accepting_log = true };
  closer = not_closing;
}

-- The appender has its lease, and the closer waits.
abbrev contended : System
contended = closed (closed (appended 0 (appended 0 (appended 0 opened))))

contended-Reach : Reach 1 initial contended
contended-Reach =
    next
      (next
        (next
          (next (next (next here (reopen true (inl refl) refl)) (append 0 (omega arith) refl))
            (append 0 (omega arith) refl))
          (append 0 (omega arith) refl))
        (close false refl))
      (close false refl)

contended_lease : (contended.appenders 0 ≡ leased) × (contended.closer ≡ waiting)
unfolding appender_step closer_step
contended_lease = (refl, refl)

abbrev finished : System
finished = closed (closed (appended 0 contended))

finished-Reach : Reach 1 initial finished
finished-Reach =
    next (next (next contended-Reach (append 0 (omega arith) refl)) (close false refl))
      (close false refl)

finished_closer : finished.closer ≡ drained
unfolding appender_step closer_step
finished_closer = refl

no_lease_after_close_example : finished.appenders 0 ≢ leased
no_lease_after_close_example =
    no_lease_after_close 1 (omega arith) finished-Reach finished_closer 0 (omega arith)

close_can_drain_example :
    (t : System) × Settled 1 contended t × (flying 1 t.appenders ≡ 0) × WillDrain t contended.closer
unfolding appender_step closer_step
close_can_drain_example = close_can_drain 1 (omega arith) contended-Reach (inr refl)

-- The appender is out, and the closer has not been woken yet.
abbrev abandoned : System
abandoned = appended 0 contended

abandoned-Reach : Reach 1 initial abandoned
abandoned-Reach = next contended-Reach (append 0 (omega arith) refl)

still_waiting : abandoned.closer ≡ waiting
unfolding appender_step closer_step
still_waiting = refl

nobody_left : flying 1 abandoned.appenders ≡ 0
unfolding appender_step closer_step
nobody_left = refl

close_drains_example : WillDrain abandoned abandoned.closer
close_drains_example = close_drains 1 (omega arith) abandoned-Reach nobody_left

-- Without the signal and before the timeout, the closer stays in its wait.
unwoken : (closed contended).closer ≡ waiting
unfolding appender_step closer_step
unwoken = refl
