-- ===== src/Health.antt =====
-- Thread liveness: xcom_core/src/runtime/thread_health.hpp, and the observer of
-- xcom_core/src/runtime/xcom_core.cpp that calls it.
pub mod Episodes
pub mod Clock
pub mod Observer
mod Tests
use xcom_lua.Prelude.{ℕ, ◌+◌, Bool, true, false, not, ◌&&◌, ◌||◌}
use xcom_lua.Prelude.Tests.{ltb, ◌==◌, if◌then◌else◌}
use xcom_lua.Prelude.Word.{add32, sub32}

-- Times are uint32_t millisecond stamps.
pub record LivenessState : Type 0 where
  pub last_beat_ms : ℕ
  pub started : Bool
  pub faulted : Bool
  pub episodes : ℕ

pub record ParkWatchState : Type 0 where
  pub reported : Bool
  pub episodes : ℕ

pub data LivenessEdge : Type 0 where
  no_edge fault recovery : LivenessEdge

pub record LivenessResult : Type 0 where
  pub edge : LivenessEdge
  pub elapsed_ms : ℕ
  pub episodes : ℕ

-- The two `if`s on the latched flag that both functions share: the edge.
abbrev pub edge_of : Bool → Bool → LivenessEdge
edge_of true false = fault
edge_of false true = recovery
edge_of true true = no_edge
edge_of false false = no_edge

-- `++episodes` on the fault edge, as a uint32_t.
abbrev pub bump_episodes : LivenessEdge → ℕ → ℕ
bump_episodes fault n = add32 n 1
bump_episodes recovery n = n
bump_episodes no_edge n = n

-- `expired` of liveness_evaluate.
abbrev pub is_expired : Bool → Bool → Bool → ℕ → ℕ → Bool
is_expired running started parked elapsed timeout_ms =
    running && (started && (not parked && ltb timeout_ms elapsed))

unfoldable pub liveness_evaluate :
    LivenessState → (now_ms timeout_ms : ℕ) (running parked : Bool) → LivenessState × LivenessResult
liveness_evaluate state now_ms timeout_ms running parked =
    let started = not (state.last_beat_ms == 0) || state.started in
    let elapsed = sub32 now_ms state.last_beat_ms in
    let expired = is_expired running started parked elapsed timeout_ms in
    let edge = edge_of expired state.faulted in
    let episodes = bump_episodes edge state.episodes in
    (
      record state { started = started; faulted = expired; episodes = episodes },
      record { edge = edge; elapsed_ms = elapsed; episodes = episodes },
    )

unfoldable pub liveness_evaluate_park :
    ParkWatchState
    → (now_ms since_ms threshold_ms : ℕ) (running : Bool) → ParkWatchState × LivenessResult
liveness_evaluate_park state now_ms since_ms threshold_ms running =
    let parked = not (since_ms == 0) in
    let elapsed = if parked then sub32 now_ms since_ms else 0 in
    let long_park = running && (parked && ltb threshold_ms elapsed) in
    let edge = edge_of long_park state.reported in
    let episodes = bump_episodes edge state.episodes in
    (
      record { reported = long_park; episodes = episodes },
      record { edge = edge; elapsed_ms = elapsed; episodes = episodes },
    )
