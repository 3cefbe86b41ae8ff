-- ===== src/Health/Clock.antt =====
-- The wrap of the 32-bit millisecond clock.
use xcom_lua.Prelude.{ℕ, ◌-◌, ◌%◌, ◌≤◌, ◌<◌, ◌≡◌, ◌≢◌, ◌↔◌, true, false, arith}
use xcom_lua.Prelude.Word.{u32_mod}
use xcom_lua.Health.{LivenessState, fault, liveness_evaluate}
use xcom_lua.Health.Episodes.{observe}

-- Let a running thread that is not parked have beaten at time `beat`, on a clock that does not
-- wrap, and let the check come less than 2 ^ 32 ms later; the stamps are these times cut to 32
-- bits, and the beat's stamp is not 0, the value that means that no beat has come yet. If no
-- episode is open, the check sees the true time between the two, and reports a fault exactly if
-- that exceeds the timeout.
pub true_elapsed_time :
    (s : LivenessState) (beat now timeout_ms : ℕ)
    → beat ≤ now
    → now - beat < u32_mod
    → beat % u32_mod ≢ 0
    → s.faulted ≡ false
    → let r =
        (observe s (record {
          beat_ms = beat % u32_mod;
          now_ms = now % u32_mod;
          timeout_ms = timeout_ms;
          running = true;
          parked = false;
        })).1 in
      (r.elapsed_ms ≡ now - beat) × ((r.edge ≡ fault) ↔ (timeout_ms < now - beat))
unfolding observe liveness_evaluate
true_elapsed_time s beat now timeout_ms le near live calm = ground arith
