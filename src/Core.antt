-- ===== src/Core.antt =====
-- CoreCtx of xcom_core/src/runtime/xcom_core.hpp: the state that the Active Objects, the serial
-- callbacks and the C interface share, with its loss ledger. The display lane is a parameter: its
-- type `D`, and its `reset`, which returns the lane, the batches drained and the unlogged bytes.
pub mod Sample
use Prim.Native.String.{String}
use xcom_lua.Prelude.{ℕ, ◌+◌, ◌%◌, Bool, true, false, List, [], ◌∷◌, Option, none, some}
use xcom_lua.Prelude.Tests.{◌==◌, leb, if◌then◌else◌}
use xcom_lua.Prelude.Word.{ℤ, u32_mod, add32, sub32}
use xcom_lua.Port.{PortState}
use xcom_lua.Format.{TextState}

-- The counters of Metrics that the modelled operations touch, uint32_t each.
pub record Metrics : Type 0 where
  pub rx_bytes : ℕ
  pub rx_pool_exhausted_bytes : ℕ
  pub rx_backpressure_events : ℕ
  pub rx_file_block_events : ℕ
  pub rx_file_blocked_ms : ℕ
  pub rx_loss_offset : ℕ
  pub callback_count : ℕ
  pub rx_seq : ℕ
  pub display_pending : ℕ
  pub display_paused_bytes : ℕ
  pub tx_bytes : ℕ
  pub tx_rejected : ℕ
  pub tx_rejected_overload : ℕ
  pub auto_tick_coalesced : ℕ
  pub save_rejected_bytes : ℕ
  pub framing_errors : ℕ
  pub parity_errors : ℕ
  pub overrun_errors : ℕ
  pub break_events : ℕ
  pub flow_hold_events : ℕ
  pub modem_lines : ℕ

-- One call of ErrorRing::push, and one of diag_emit with its event and arguments.
pub record ErrorPush : Type 0 where
  pub code : ℤ
  pub source : ℕ
  pub message : String

-- DiagEvent of xcom_core/src/diagnostics/diagnostic.hpp, as far as the modelled code emits it.
pub data DiagEvent : Type 0 where
  open_ok open_fail close_ok fault write_fail rx_drop line_error : DiagEvent

pub record DiagRecord : Type 0 where
  pub event : DiagEvent
  pub a0 : ℕ
  pub a1 : ℕ
  pub a2 : ℕ
  pub a3 : ℕ

-- The serial options snapshot cfg_*, and what port_name holds, without its terminator.
pub record PortOptions : Type 0 where
  pub name : List ℕ
  pub baud : ℕ
  pub data_bits : ℕ
  pub stop_bits : ℕ
  pub parity : ℕ
  pub flow_control : ℕ
  pub dtr_enable : ℕ
  pub rts_enable : ℕ

-- `errors` and `diag` are the calls made, newest first.
pub record CoreCtx (D : Type 0) : Type 0 where
  pub display : D
  pub metrics : Metrics
  pub open metrics use *
  pub errors : List ErrorPush
  pub diag : List DiagRecord
  pub text : TextState
  pub hex_view : Bool
  pub pause_display : Bool
  pub autosend_armed : Bool
  pub port_state : PortState
  pub generation : ℕ
  pub open_generation : ℕ
  pub cancel_open : Bool
  pub fault_pending : Bool
  pub virtual_port : Bool
  pub cfg : PortOptions
  pub callback_admission : Bool
  pub rx_backpressured : Bool
  pub last_open_result : ℤ
  pub kick_armed : Bool
  pub dispatcher_ms : ℕ
  pub tx_fail_streak : ℕ

module _ {D : Type 0} where
  abbrev pub push_error : ℤ → ℕ → String → CoreCtx D → CoreCtx D
  push_error code source message c = record c {
    errors = record { code = code; source = source; message = message } ∷ c.errors;
  }

  abbrev pub emit_diag : DiagEvent → (a0 a1 a2 a3 : ℕ) → CoreCtx D → CoreCtx D
  emit_diag event a0 a1 a2 a3 c = record c {
    diag = record { event = event; a0 = a0; a1 = a1; a2 = a2; a3 = a3 } ∷ c.diag;
  }

  -- `dispatcher_ms.store(static_cast<uint32_t>(monotonic_ms()))` of beat_dispatcher.
  abbrev pub beat_dispatcher : ℕ → CoreCtx D → CoreCtx D
  beat_dispatcher now_ms c = record c { dispatcher_ms = now_ms % u32_mod }

  -- Loss of `n` bytes, located in the accepted stream.
  unfoldable pub count_rejected_rx : ℕ → CoreCtx D → CoreCtx D
  count_rejected_rx n c = if n == 0 then c else record c {
    metrics = record (c.metrics) {
      save_rejected_bytes = add32 c.save_rejected_bytes n;
      rx_loss_offset = c.rx_bytes;
    };
  }

  -- RxKickGate::try_arm and disarm.
  abbrev pub try_arm : CoreCtx D → CoreCtx D × Bool
  try_arm c = if c.kick_armed then (c, false) else (record c { kick_armed = true }, true)

  abbrev pub disarm : CoreCtx D → CoreCtx D
  disarm c = record c { kick_armed = false }

module _ {D : Type 0} (reset : D → D × ℕ × ℕ) where
  unfoldable pub reset_display_committed : CoreCtx D → CoreCtx D
  unfolding count_rejected_rx
  reset_display_committed c =
      let (lane, drained, unlogged) = reset c.display in
      let c' : CoreCtx D = record c { display = lane } in
      let c'' : CoreCtx D = if drained == 0 then c' else record c' {
        metrics = record (c'.metrics) { display_pending = sub32 c'.display_pending drained };
      } in
      count_rejected_rx unlogged c''
