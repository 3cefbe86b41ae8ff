-- ===== src/Lines.antt =====
-- line_status_ingress of xcom_core/src/runtime/xcom_core.cpp: the counters of the line errors that the
-- driver reports, and the records that they leave in the diagnostic log.
pub mod Storm
mod Tests
use Prim.Native.Nat.{bit_and}
use xcom_lua.Prelude.{ℕ, ◌+◌, ◌-◌, ◌%◌, Bool, true, false, not, ◌&&◌, ◌||◌, List, ◌∷◌}
use xcom_lua.Prelude.Tests.{◌==◌, if◌then◌else◌}
use xcom_lua.Prelude.Word.{add32}
use xcom_lua.Core.{CoreCtx, Metrics, DiagRecord, line_error, emit_diag}

-- The arguments of one call.
pub record LineEvents : Type 0 where
  pub framing_errors : ℕ
  pub parity_errors : ℕ
  pub overrun_errors : ℕ
  pub break_events : ℕ
  pub hold_events : ℕ

-- Zero and the counts that are no power of two are no milestones.
unfoldable pub milestone : ℕ → Bool
milestone count = not (count == 0) && bit_and count (count - 1) == 0

module _ {D : Type 0} where
  -- The counters after the call. A counter whose delta is zero is not written, which is to add zero.
  abbrev pub count_lines : LineEvents → CoreCtx D → CoreCtx D
  count_lines e c = record c {
    metrics = record (c.metrics) {
      framing_errors =
          if e.framing_errors == 0
          then c.framing_errors
          else add32 c.framing_errors e.framing_errors;
      parity_errors =
          if e.parity_errors == 0 then c.parity_errors else add32 c.parity_errors e.parity_errors;
      overrun_errors =
          if e.overrun_errors == 0
          then c.overrun_errors
          else add32 c.overrun_errors e.overrun_errors;
      rx_loss_offset = if e.overrun_errors == 0 then c.rx_loss_offset else c.rx_bytes;
      break_events =
          if e.break_events == 0 then c.break_events else add32 c.break_events e.break_events;
      flow_hold_events =
          if e.hold_events == 0 then c.flow_hold_events else add32 c.flow_hold_events e.hold_events;
    };
  }

  unfoldable pub line_status_ingress : LineEvents → CoreCtx D → CoreCtx D
  unfolding milestone
  line_status_ingress e c =
      let c' = count_lines e c in
      let f = c'.framing_errors in
      let p = c'.parity_errors in
      let o = c'.overrun_errors in
      let b = c'.break_events in
      if milestone f || milestone p || milestone o || milestone b
      then emit_diag line_error (add32 (add32 (add32 f p) o) b) p o b c'
      else c'
