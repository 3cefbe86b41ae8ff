-- ===== src/Health/Observer.antt =====
-- report_thread_health, report_dispatcher_park and check_thread_health of
-- xcom_core/src/runtime/xcom_core.cpp. A formatted text is kept as the facts that it prints, and
-- monotonic_ms() is sampled once by each report.
use xcom_lua.Prelude.{ℕ, ◌<◌, ◌≡◌, Bool, true, false, not, ◌&&◌, ◌||◌, List, [], ◌∷◌, ◌++◌}
use xcom_lua.Prelude.Tests.{if◌then◌else◌}
use xcom_lua.Prelude.Word.{sub32}
use xcom_lua.Port.{PortState, opened, is_open, is_transitioning}
use xcom_lua.Health.{
  LivenessState, ParkWatchState, LivenessEdge, no_edge, fault, recovery, liveness_evaluate,
  liveness_evaluate_park,
}

pub data Thread : Type 0 where
  serial_read dispatcher log_writer : Thread

-- One push to the error ring. `stalled` has the code XCOM_ERR_TIMEOUT, the others XCOM_OK.
pub data Report : Type 0 where
  stalled : Thread → ℕ → Report
  recovered : Thread → Report
  long_park : ℕ → Report
  left_park : Report

-- ThreadHeartbeats of xcom_core.hpp, with the two fields of CoreCtx that the observer reads, as they
-- are when they are loaded. dispatcher_parked is loaded twice, and the dispatcher may park or wake in
-- between: `dispatcher_parked_later` is what the second load finds.
pub record Heartbeats : Type 0 where
  pub port_state : PortState
  pub virtual_port : Bool
  pub serial_read_ms : ℕ
  pub dispatcher_ms : ℕ
  pub log_writer_ms : ℕ
  pub dispatcher_parked : Bool
  pub dispatcher_parked_later : Bool
  pub log_writer_parked : Bool
  pub dispatcher_running : Bool
  pub log_writer_running : Bool
  pub dispatcher_parked_since_ms : ℕ
  pub serial_read_state : LivenessState
  pub dispatcher_state : LivenessState
  pub log_writer_state : LivenessState
  pub dispatcher_park_state : ParkWatchState

-- The samples of the clock, in the order in which they are taken.
pub record Samples : Type 0 where
  pub read_ms : ℕ
  pub dispatcher_ms : ℕ
  pub park_ms : ℕ
  pub writer_ms : ℕ

abbrev pub thread_reports : Thread → LivenessEdge → ℕ → List Report
thread_reports name fault elapsed = stalled name elapsed ∷ []
thread_reports name recovery elapsed = recovered name ∷ []
thread_reports name no_edge elapsed = []

abbrev pub park_reports : LivenessEdge → ℕ → List Report
park_reports fault elapsed = long_park elapsed ∷ []
park_reports recovery elapsed = left_park ∷ []
park_reports no_edge elapsed = []

unfoldable pub report_thread_health :
    Thread
    → LivenessState
    → (last_beat_ms now_ms timeout_ms : ℕ) (running parked : Bool) → LivenessState × List Report
unfolding liveness_evaluate
report_thread_health name state last_beat_ms now_ms timeout_ms running parked =
    let (s, r) =
      liveness_evaluate (record state { last_beat_ms = last_beat_ms }) now_ms timeout_ms running
        parked in
    (s, thread_reports name r.edge r.elapsed_ms)

unfoldable pub report_dispatcher_park :
    ParkWatchState → (now_ms parked_since_ms : ℕ) (running : Bool) → ParkWatchState × List Report
unfolding liveness_evaluate_park
report_dispatcher_park state now_ms parked_since_ms running =
    let (s, r) = liveness_evaluate_park state now_ms parked_since_ms 60000 running in
    (s, park_reports r.edge r.elapsed_ms)

unfoldable pub check_thread_health : Heartbeats → Samples → Heartbeats × List Report
check_thread_health h t =
    let read_active = is_open h.port_state && not h.virtual_port in
    let (read_state, read_out) =
      report_thread_health serial_read h.serial_read_state h.serial_read_ms t.read_ms 1000 true
        (not read_active) in
    let dispatcher_exempt =
      h.dispatcher_running && (is_transitioning h.port_state || h.dispatcher_parked) in
    let (dispatcher_state, dispatcher_out) =
      report_thread_health dispatcher h.dispatcher_state h.dispatcher_ms t.dispatcher_ms 1000
        h.dispatcher_running dispatcher_exempt in
    let parked_since_ms = if h.dispatcher_parked_later then h.dispatcher_parked_since_ms else 0 in
    let (park_state, park_out) =
      report_dispatcher_park h.dispatcher_park_state t.park_ms parked_since_ms
        h.dispatcher_running in
    let (writer_state, writer_out) =
      report_thread_health log_writer h.log_writer_state h.log_writer_ms t.writer_ms 2000
        h.log_writer_running h.log_writer_parked in
    (
      record h {
        serial_read_state = read_state;
        dispatcher_state = dispatcher_state;
        log_writer_state = writer_state;
        dispatcher_park_state = park_state;
      },
      read_out ++ (dispatcher_out ++ (park_out ++ writer_out)),
    )

-- When an alarm is justified: the time it prints is that from the thread's own last beat, or from the
-- start of the park, to the sample of the clock, and is beyond the timeout.
abbrev pub IsJustified : Heartbeats → Samples → Report → Type 0
IsJustified h t (stalled serial_read ms) =
    (h.port_state ≡ opened)
    × (h.virtual_port ≡ false)
    × (ms ≡ sub32 t.read_ms h.serial_read_ms)
    × (1000 < ms)
IsJustified h t (stalled dispatcher ms) =
    (h.dispatcher_running ≡ true)
    × (h.dispatcher_parked ≡ false)
    × (is_transitioning h.port_state ≡ false)
    × (ms ≡ sub32 t.dispatcher_ms h.dispatcher_ms)
    × (1000 < ms)
IsJustified h t (stalled log_writer ms) =
    (h.log_writer_running ≡ true)
    × (h.log_writer_parked ≡ false)
    × (ms ≡ sub32 t.writer_ms h.log_writer_ms)
    × (2000 < ms)
IsJustified h t (recovered thread) = Unit
IsJustified h t (long_park ms) =
    (h.dispatcher_running ≡ true)
    × (h.dispatcher_parked_later ≡ true)
    × (ms ≡ sub32 t.park_ms h.dispatcher_parked_since_ms)
    × (60000 < ms)
IsJustified h t left_park = Unit

abbrev pub AllJustified : Heartbeats → Samples → List Report → Type 0
AllJustified h t [] = Unit
AllJustified h t (r ∷ rs) = IsJustified h t r × AllJustified h t rs
