-- ===== src/Transmit/Actions.antt =====
-- The handlers of SendAo and AutoSendAo, in xcom_core/src/ao/xcom_ao.cpp, with the timer's tick and the
-- sinks they call, in xcom_core/src/runtime/xcom_core.cpp.
use xcom_lua.Prelude.{ℕ, ◌+◌, ◌%◌, Bool, true, false, not, ◌&&◌, ◌||◌, none, some}
use xcom_lua.Prelude.Tests.{leb, ◌==◌, if◌then◌else◌}
use xcom_lua.Prelude.Lists.{take}
use xcom_lua.Prelude.Word.{add32}
use xcom_lua.Status.{xcom_err_param, xcom_err_full, xcom_err_io}
use xcom_lua.Port.{is_open}
use xcom_lua.Core.{beat_dispatcher}
use xcom_lua.Writer.{Job, try_enqueue}
use xcom_lua.Transmit.{
  tx_block_bytes, no_block_id, TxDescriptor, AutoTemplateDescriptor, Transmit, try_alloc_tx,
  write_block, release_tx, count_rejected_tx, report, set_armed,
}

module _ {D : Type 0} where
  -- autosend_set_impl; `created` says whether the timer could start.
  unfoldable pub autosend_set : (created : Bool) → (interval_ms : ℕ) → Transmit D → Transmit D
  autosend_set created interval_ms s =
      if interval_ms == 0
      then record s { timer = none }
      else if created
      then record s { timer = some interval_ms }
      else report xcom_err_io 0 "autosend timer create failed" (record s { timer = none })

  -- sink_enqueue_write
  unfoldable pub enqueue_write : Job → Transmit D → Transmit D × Bool
  enqueue_write job s =
      let (w, ok) = try_enqueue job s.writer in
      if s.active then (record s { writer = w }, ok) else (s, false)

  abbrev pub beat_sender : (now_ms : ℕ) → Transmit D → Transmit D
  beat_sender now_ms s = record s { core = beat_dispatcher now_ms s.core }

  -- The template is dropped, and its block given back.
  abbrev pub drop_template : Transmit D → Transmit D
  drop_template s =
      let s' =
        if s.autosend.autosend_block == no_block_id
        then s
        else release_tx s.autosend.autosend_block s in
      record s' {
        autosend = record {
          autosend_block = no_block_id;
          autosend_length = 0;
          autosend_interval_ms = 0;
        };
      }

  -- autosend_config_action; `created` is for the timer.
  unfoldable pub autosend_config_action :
      (now_ms : ℕ) (created : Bool) → AutoTemplateDescriptor → Transmit D → Transmit D
  unfolding autosend_set
  autosend_config_action now_ms created desc s =
      let enable = not (desc.interval_ms == 0) in
      let valid =
        not enable
        || (not (desc.template_block == no_block_id)
            && not (desc.template_length == 0)
            && leb desc.template_length tx_block_bytes) in
      let t = beat_sender now_ms s in
      let returned =
        if enable && not (desc.template_block == no_block_id)
        then release_tx desc.template_block t
        else t in
      let dropped = set_armed false (drop_template (autosend_set created 0 t)) in
      if not valid
      then report xcom_err_param 0 "invalid auto-send template" returned
      else if not enable
      then dropped
      else autosend_set created desc.interval_ms (record dropped {
        autosend = record {
          autosend_block = desc.template_block;
          autosend_length = desc.template_length;
          autosend_interval_ms = desc.interval_ms;
        };
      })

  -- The end of send_autosend_action, after the copy.
  unfoldable pub finish_autosend : (bid size : ℕ) → Transmit D → Transmit D
  unfolding enqueue_write
  finish_autosend bid size s =
      let job : Job = record {
        block = bid;
        len = size % 65536;
        gen = s.core.generation;
        auto_send = true;
      } in
      let (s', ok) = enqueue_write job s in
      if ok then s' else set_armed false (count_rejected_tx (release_tx bid s'))

  unfoldable pub send_autosend_action : (now_ms : ℕ) → Transmit D → Transmit D
  unfolding try_alloc_tx finish_autosend
  send_autosend_action now_ms s =
      let t = beat_sender now_ms s in
      let size = t.autosend.autosend_length in
      if not (is_open t.core.port_state)
      then set_armed false t
      else if t.autosend.autosend_block == no_block_id || size == 0
      then set_armed false t
      else elim (try_alloc_tx t) [
        | none ↦ set_armed false (count_rejected_tx t)
        | some (bid, t') ↦
            finish_autosend bid size
              (write_block bid (take size (t'.bytes t'.autosend.autosend_block)) t')
      ]

  unfoldable pub send_user_action : (now_ms : ℕ) → TxDescriptor → Transmit D → Transmit D
  unfolding enqueue_write
  send_user_action now_ms desc s =
      let t = beat_sender now_ms s in
      let stale = not (desc.generation == t.core.generation) || not (is_open t.core.port_state) in
      let job : Job = record {
        block = desc.block;
        len = desc.length;
        gen = desc.generation;
        auto_send = false;
      } in
      let (t', ok) = enqueue_write job t in
      if stale
      then release_tx desc.block t
      else if ok
      then t'
      else report xcom_err_full 0 "serial write queue full"
          (count_rejected_tx (release_tx desc.block t'))

  -- autosend_tick; the submission of the signal is an argument.
  unfoldable pub autosend_tick : (accepted : Bool) → Transmit D → Transmit D
  autosend_tick accepted s =
      let armed = set_armed true s in
      let coalesced : Transmit D = record s {
        core = record (s.core) {
          metrics = record (s.core.metrics) {
            auto_tick_coalesced = add32 s.core.auto_tick_coalesced 1;
          };
        };
      } in
      if not (is_open s.core.port_state)
      then s
      else if s.core.autosend_armed
      then coalesced
      else if accepted
      then record armed { ticks = s.ticks + 1 }
      else count_rejected_tx (set_armed false s)
