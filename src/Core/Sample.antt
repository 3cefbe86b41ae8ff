-- ===== src/Core/Sample.antt =====
-- A core for the tests of the other modules: port closed, counters at zero.
use xcom_lua.Prelude.{true, false, []}
use xcom_lua.Prelude.Word.{negsuc}
use xcom_lua.Port.{closed}
use xcom_lua.Format.{outside}
use xcom_lua.Core.{CoreCtx, Metrics, PortOptions}

abbrev pub zero_metrics : Metrics
zero_metrics = record {
  rx_bytes = 0;
  rx_pool_exhausted_bytes = 0;
  rx_backpressure_events = 0;
  rx_file_block_events = 0;
  rx_file_blocked_ms = 0;
  rx_loss_offset = 0;
  callback_count = 0;
  rx_seq = 0;
  display_pending = 0;
  display_paused_bytes = 0;
  tx_bytes = 0;
  tx_rejected = 0;
  tx_rejected_overload = 0;
  auto_tick_coalesced = 0;
  save_rejected_bytes = 0;
  framing_errors = 0;
  parity_errors = 0;
  overrun_errors = 0;
  break_events = 0;
  flow_hold_events = 0;
  modem_lines = 0;
}

abbrev pub options : PortOptions
options = record {
  name = [];
  baud = 115200;
  data_bits = 8;
  stop_bits = 0;
  parity = 0;
  flow_control = 0;
  dtr_enable = 2;
  rts_enable = 2;
}

abbrev pub core_with : {D : Type 0} → D → CoreCtx D
core_with lane = record {
  display = lane;
  metrics = zero_metrics;
  errors = [];
  diag = [];
  text = record { at_line_start = true; strip_state = outside; pending_cr = false };
  hex_view = false;
  pause_display = false;
  autosend_armed = false;
  port_state = closed;
  generation = 0;
  open_generation = 0;
  cancel_open = false;
  fault_pending = false;
  virtual_port = false;
  cfg = options;
  callback_admission = true;
  rx_backpressured = false;
  last_open_result = negsuc 5;
  kick_armed = false;
  dispatcher_ms = 0;
  tx_fail_streak = 0;
}
