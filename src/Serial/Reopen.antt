-- ===== src/Serial/Reopen.antt =====
-- Opening a port: the outcome of the owner's attempt, and the fault that could not be signalled.
use xcom_lua.Prelude.{ℕ, ◌≡◌, ◌↔◌, true, false, arith}
use xcom_lua.Prelude.Word.{add32}
use xcom_lua.Port.{PortState, closed, opening, opened, closing, faulted}
use xcom_lua.Core.{CoreCtx, beat_dispatcher, reset_display_committed}
use xcom_lua.Serial.{
  DispatchSink, call_sink, serial_transition, serial_find_edge, serial_edges, open_succeeded,
  serial_reconcile_pending_fault, finish_open, serial_do_open,
}

-- The states from which an open is attempted.
abbrev pub CanOpen : PortState → Type 0
CanOpen closed = Unit
CanOpen faulted = Unit
CanOpen _ = ⊥

-- What owner_open leaves when it is run from OPENING.
abbrev pub attempt : {D : Type 0} → DispatchSink D → ℕ → CoreCtx D → CoreCtx D
attempt sink now_ms c =
    call_sink sink.owner_open (record (beat_dispatcher now_ms c) { port_state = opening })

module _ {D : Type 0} (reset : D → D × ℕ × ℕ) (sink : DispatchSink D) where
  open-attempt :
      (now_ms : ℕ) (c : CoreCtx D) (st : PortState)
      → CanOpen st
      → c.fault_pending ≡ false
      → serial_do_open reset sink now_ms (record { core = c; state = st })
        ≡ finish_open reset sink (record { core = attempt sink now_ms c; state = opening })
  unfolding serial_do_open serial_reconcile_pending_fault serial_transition serial_find_edge
      serial_edges
  open-attempt now_ms c closed h p = rw p
  open-attempt now_ms c faulted h p = rw p
  open-attempt now_ms c opening h p = absurd h
  open-attempt now_ms c opened h p = absurd h
  open-attempt now_ms c closing h p = absurd h

  finish_open-outcome :
      (c : CoreCtx D)
      → let s = finish_open reset sink (record { core = c; state = opening }) in
        ((s.state ≡ opened) ↔ ((open_succeeded c ≡ true) × (c.cancel_open ≡ false)))
        × ((s.state ≡ closed) ↔ (open_succeeded c ≡ false))
  unfolding finish_open serial_transition serial_find_edge serial_edges
  finish_open-outcome c = ground arith

  finish_open-success :
      (c : CoreCtx D)
      → open_succeeded c ≡ true
      → c.cancel_open ≡ false
      → let s = finish_open reset sink (record { core = c; state = opening }) in
        (s.state ≡ opened)
        × (s.core.port_state ≡ opened)
        × (s.core.generation ≡ add32 c.open_generation 1)
        × (s.core.fault_pending ≡ c.fault_pending)
  unfolding finish_open serial_transition serial_find_edge serial_edges reset_display_committed
  finish_open-success c ok live = ground arith

  -- From CLOSED or FAULT, with no fault left to be reconciled, an open ends OPEN exactly if the
  -- owner's attempt succeeded and was not cancelled meanwhile, and CLOSED exactly if it failed.
  pub serial_do_open-outcome :
      (now_ms : ℕ) (c : CoreCtx D) (st : PortState)
      → CanOpen st
      → c.fault_pending ≡ false
      → let tried = attempt sink now_ms c in
        let s = serial_do_open reset sink now_ms (record { core = c; state = st }) in
        ((s.state ≡ opened) ↔ ((open_succeeded tried ≡ true) × (tried.cancel_open ≡ false)))
        × ((s.state ≡ closed) ↔ (open_succeeded tried ≡ false))
  serial_do_open-outcome now_ms c st h p =
      rw (open-attempt now_ms c st h p) (finish_open-outcome (attempt sink now_ms c))

  -- An open that succeeds and is not cancelled publishes OPEN whatever was published while the
  -- owner's attempt ran, and leaves the latch of a fault that could not be signalled as the attempt
  -- left it: a FAULT published meanwhile is overwritten. The session has a new generation.
  pub serial_do_open-success :
      (now_ms : ℕ) (c : CoreCtx D) (st : PortState)
      → CanOpen st
      → c.fault_pending ≡ false
      → open_succeeded (attempt sink now_ms c) ≡ true
      → (attempt sink now_ms c).cancel_open ≡ false
      → let tried = attempt sink now_ms c in
        let s = serial_do_open reset sink now_ms (record { core = c; state = st }) in
        (s.state ≡ opened)
        × (s.core.port_state ≡ opened)
        × (s.core.generation ≡ add32 tried.open_generation 1)
        × (s.core.fault_pending ≡ tried.fault_pending)
  serial_do_open-success now_ms c st h p ok live =
      rw (open-attempt now_ms c st h p) (finish_open-success (attempt sink now_ms c) ok live)

  -- A fault that could not be signalled in an open session is made up for by the next open: the
  -- session is released from FAULT, with the latch cleared, before the owner's attempt is made, and
  -- the attempt's outcome is the open's.
  pub serial_do_open-reconciles :
      (now_ms : ℕ) (c : CoreCtx D)
      → c.fault_pending ≡ true
      → let beaten : CoreCtx D = record (beat_dispatcher now_ms c) { fault_pending = false } in
        let released = call_sink sink.owner_close (record beaten { port_state = faulted }) in
        serial_do_open reset sink now_ms (record { core = c; state = opened })
        ≡ finish_open reset sink (record {
          core = call_sink sink.owner_open (record released { port_state = opening });
          state = opening;
        })
  unfolding serial_do_open serial_reconcile_pending_fault serial_transition serial_find_edge
      serial_edges
  serial_do_open-reconciles now_ms c p = rw p
