-- ===== src/Serial/Table.antt =====
-- The published port state against the state that SerialAo keeps.
use xcom_lua.Prelude.{ℕ, ◌≡◌, refl, ◌⊎◌, inl, inr, Bool, true, arith}
use xcom_lua.Prelude.Tests.{Option-cases}
use xcom_lua.Port.{PortState, faulted}
use xcom_lua.Core.{CoreCtx, reset_display_committed}
use xcom_lua.Serial.{
  SerialEvent, SerialAction, SerialEdge, SerialCtx, DispatchSink, Signal, owner_open, owner_close,
  cancel_close, open_commit, open_fail_action, close_commit, no_action, close_signal, call_sink,
  call_submit, serial_run_action, take_edge, serial_transition, serial_find_edge, serial_edges,
  open_succeeded, serial_publish,
}

-- The core `d` publishes what `c` published, or FAULT.
abbrev pub KeepsView : {D : Type 0} → CoreCtx D → CoreCtx D → Type 0
KeepsView c d = (d.port_state ≡ c.port_state) ⊎ (d.port_state ≡ faulted)

-- An owner operation does not publish a state, except that a fault whose signal was rejected while
-- the operation was under way has published FAULT (the fallback of serial_fault_callback and of
-- sink_owner_write).
pub record SinkKeepsView {D : Type 0} (sink : DispatchSink D) : Type 0 where
  pub on_open : (c : CoreCtx D) → KeepsView c (call_sink sink.owner_open c)
  pub on_close : (c : CoreCtx D) → KeepsView c (call_sink sink.owner_close c)
  pub on_submit :
      (c : CoreCtx D) (signal : Signal) (critical : Bool)
      → KeepsView c (call_submit sink.submit_control c signal critical).0

-- What the snapshot shows is the true state, or FAULT.
abbrev pub ViewAgrees : {D : Type 0} → SerialCtx D → Type 0
ViewAgrees s = (s.core.port_state ≡ s.state) ⊎ (s.core.port_state ≡ faulted)

KeepsView-trans : {D : Type 0} (c d e : CoreCtx D) → KeepsView c d → KeepsView d e → KeepsView c e
KeepsView-trans c d e h k = ground arith

module _ {D : Type 0} (reset : D → D × ℕ × ℕ) where
  reset-view : (c : CoreCtx D) → (reset_display_committed reset c).port_state ≡ c.port_state
  unfolding reset_display_committed
  reset-view c = ground arith

  module _ (sink : DispatchSink D) (keeps : SinkKeepsView sink) where
    serial_run_action-KeepsView :
        (c : CoreCtx D) (a : SerialAction) (target : PortState)
        → KeepsView c (serial_run_action reset sink c a target).0
    unfolding serial_run_action reset_display_committed
    serial_run_action-KeepsView c owner_open target = keeps.on_open c
    serial_run_action-KeepsView c owner_close target = keeps.on_close c
    serial_run_action-KeepsView c cancel_close target =
        let submitted = call_submit sink.submit_control c close_signal true in
        ground (
          arith,
          keeps.on_submit c close_signal true,
          keeps.on_close submitted.0,
          KeepsView-trans c submitted.0 (call_sink sink.owner_close submitted.0),
        )
    serial_run_action-KeepsView c open_commit target = inl (ground arith)
    serial_run_action-KeepsView c open_fail_action target = inl refl
    serial_run_action-KeepsView c close_commit target = inl (ground arith)
    serial_run_action-KeepsView c no_action target = inl refl

    take_edge-ViewAgrees :
        (s : SerialCtx D) (e : SerialEdge) → ViewAgrees (take_edge reset sink s e)
    unfolding take_edge
    take_edge-ViewAgrees s e =
        ground (arith, serial_run_action-KeepsView (serial_publish s e.to).core e.action e.to)

    pub serial_transition-ViewAgrees :
        (s : SerialCtx D) (event : SerialEvent)
        → ViewAgrees s
        → ViewAgrees (serial_transition reset sink s event)
    unfolding serial_transition
    serial_transition-ViewAgrees s event v =
        elim (Option-cases (serial_find_edge (open_succeeded s.core) s.state event serial_edges)) [
          | inl e ↦ rw (e, serial_transition) v
          | inr (e, found) ↦ rw (found, serial_transition) (take_edge-ViewAgrees s e)
        ]
