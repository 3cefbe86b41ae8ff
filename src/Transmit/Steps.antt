-- ===== src/Transmit/Steps.antt =====
-- Every event of the send path keeps each block free or with one owner.
use xcom_lua.Prelude.{ℕ, ◌+◌, ◌-◌, ◌<◌, ◌≡◌, inl, inr, Bool, none, arith}
use xcom_lua.Prelude.Tests.{◌==◌, Bool-cases, Option-cases, List-cases}
use xcom_lua.Prelude.Word.{u32_mod}
use xcom_lua.Transmit.{Transmit}
use xcom_lua.Transmit.Actions.{autosend_config_action, send_autosend_action, send_user_action}
use xcom_lua.Transmit.Traffic.{
  close_writer, SendSystem, Event, sends, configures, ticks, handles_send, handles_config,
  handles_autosend, pops, writes, rejects, starts, closes, changes, step,
}
use xcom_lua.Transmit.Calls.{xcom_send-IsKept, xcom_set_auto_template-IsKept}
use xcom_lua.Transmit.Events.{
  send_user_action-IsKept, autosend_config_action-IsKept, send_autosend_action-IsKept,
  autosend_tick-IsKept,
}
use xcom_lua.Transmit.Worker.{
  current_of, Conserved, Conserved-same, start_writer-IsKept, close_writer-IsKept, pops-Conserved,
  worker_steps,
}

module _ {D : Type 0} where
  -- An event handled leaves its queue, with its block in hand.
  handles_send-Conserved :
      (now_ms : ℕ) (s : SendSystem D)
      → s.path.writer.write + 1 < u32_mod
      → Conserved s
      → Conserved (step (handles_send now_ms) s)
  unfolding step
  handles_send-Conserved now_ms s more (free, stack, size, valid, live, each) =
      let held = λ (b : ℕ). current_of b s.current in
      elim (List-cases s.path.sends) [
        | inl e ↦
            Conserved-same s (step (handles_send now_ms) s) (ground (arith, e))
              (free, stack, size, valid, live, each)
        | inr (desc, later, e) ↦
            let t : Transmit D = record (s.path) { sends = later } in
            let handled : step (handles_send now_ms) s
                ≡ record s { path = send_user_action now_ms desc t } =
              ground (arith, e) in
            Conserved-same (record s { path = send_user_action now_ms desc t })
              (step (handles_send now_ms) s) handled
              (send_user_action-IsKept held now_ms desc t more
                (free, stack, size, valid, live, λ (b : ℕ). ground (arith, e, each b)))
      ]

  handles_config-Conserved :
      (now_ms : ℕ) (created : Bool) (s : SendSystem D)
      → Conserved s
      → Conserved (step (handles_config now_ms created) s)
  unfolding step
  handles_config-Conserved now_ms created s (free, stack, size, valid, live, each) =
      let held = λ (b : ℕ). current_of b s.current in
      elim (List-cases s.path.configs) [
        | inl e ↦
            Conserved-same s (step (handles_config now_ms created) s) (ground (arith, e))
              (free, stack, size, valid, live, each)
        | inr (desc, later, e) ↦
            let t : Transmit D = record (s.path) { configs = later } in
            let handled : step (handles_config now_ms created) s
                ≡ record s { path = autosend_config_action now_ms created desc t } =
              ground (arith, e) in
            Conserved-same (record s { path = autosend_config_action now_ms created desc t })
              (step (handles_config now_ms created) s) handled
              (autosend_config_action-IsKept held now_ms created desc t
                (free, stack, size, valid, live, λ (b : ℕ). ground (arith, e, each b)))
      ]

  -- Every event keeps the conservation, while the writer's counter does not wrap.
  pub step-Conserved :
      (e : Event D) (s : SendSystem D)
      → s.path.writer.write + 1 < u32_mod
      → Conserved s
      → Conserved (step e s)
  unfolding step
  step-Conserved (sends disposition content size) s more kept =
      xcom_send-IsKept (λ b. current_of b s.current) disposition content size s.path kept
  step-Conserved (configures disposition content size interval) s more kept =
      xcom_set_auto_template-IsKept (λ b. current_of b s.current) disposition content size interval
        s.path kept
  step-Conserved (ticks accepted) s more kept =
      autosend_tick-IsKept (λ b. current_of b s.current) accepted s.path kept
  step-Conserved (handles_send now_ms) s more kept = handles_send-Conserved now_ms s more kept
  step-Conserved (handles_config now_ms created) s more kept =
      handles_config-Conserved now_ms created s kept
  step-Conserved (handles_autosend now_ms) s more kept =
      let held = λ (b : ℕ). current_of b s.current in
      let later : Transmit D = record (s.path) { ticks = s.path.ticks - 1 } in
      let sent = send_autosend_action-IsKept held now_ms later more kept in
      elim (Bool-cases (s.path.ticks == 0)) [
        | inl e ↦ Conserved-same s (step (handles_autosend now_ms) s) (ground (arith, e)) kept
        | inr e ↦
            Conserved-same (record s { path = send_autosend_action now_ms later })
              (step (handles_autosend now_ms) s) (ground (arith, e)) sent
      ]
  step-Conserved pops s more kept = pops-Conserved s kept
  step-Conserved (writes owner_write) s more kept = (worker_steps owner_write s kept).0
  step-Conserved rejects s more kept = (worker_steps none s kept).1
  step-Conserved (starts created) s more kept =
      start_writer-IsKept (λ b. current_of b s.current) created s.path kept
  step-Conserved closes s more kept = elim (Option-cases s.current) [
    | inr (j, e) ↦ Conserved-same s (step closes s) (ground (arith, e)) kept
    | inl e ↦
        Conserved-same (record s { path = close_writer s.path }) (step closes s) (ground (arith, e))
          (close_writer-IsKept (λ b. current_of b s.current) s.path kept)
  ]
  step-Conserved (changes core) s more kept = kept
