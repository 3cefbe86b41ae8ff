-- ===== src/Health/Tests.antt =====
-- Liveness checks at concrete times.
use xcom_lua.Prelude.{◌≡◌, refl, true, false, ℕ, List, [], ◌∷◌}
use xcom_lua.Port.{opened}
use xcom_lua.Health.{LivenessState, fault, recovery, no_edge, liveness_evaluate}
use xcom_lua.Health.Episodes.{Check, observe, observe_all}
use xcom_lua.Health.Observer.{
  Heartbeats, Samples, check_thread_health, stalled, serial_read, report_thread_health,
  report_dispatcher_park,
}

abbrev fresh : LivenessState
fresh = record { last_beat_ms = 0; started = false; faulted = false; episodes = 0 }

abbrev check_at : ℕ → ℕ → Check
check_at beat now = record {
  beat_ms = beat;
  now_ms = now;
  timeout_ms = 1000;
  running = true;
  parked = false;
}

-- A beat, a stall seen twice, and the recovery.
abbrev history : List Check
history = check_at 5000 5050 ∷ check_at 5000 6050 ∷ check_at 5000 6300 ∷ check_at 6400 6550 ∷ []

history_edges : (observe_all fresh history).1 ≡ no_edge ∷ fault ∷ no_edge ∷ recovery ∷ []
unfolding observe_all observe liveness_evaluate
history_edges = refl

abbrev beats : Heartbeats
beats = record {
  port_state = opened;
  virtual_port = false;
  serial_read_ms = 5000;
  dispatcher_ms = 6900;
  log_writer_ms = 0;
  dispatcher_parked = false;
  dispatcher_parked_later = false;
  log_writer_parked = false;
  dispatcher_running = true;
  log_writer_running = false;
  dispatcher_parked_since_ms = 0;
  serial_read_state = fresh;
  dispatcher_state = fresh;
  log_writer_state = fresh;
  dispatcher_park_state = record { reported = false; episodes = 0 };
}

abbrev sampled : Samples
sampled = record { read_ms = 7000; dispatcher_ms = 7000; park_ms = 7000; writer_ms = 7001 }

reports_read_stall : (check_thread_health beats sampled).1 ≡ stalled serial_read 2000 ∷ []
unfolding check_thread_health report_thread_health report_dispatcher_park
reports_read_stall = refl
