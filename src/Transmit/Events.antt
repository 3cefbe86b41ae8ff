-- ===== src/Transmit/Events.antt =====
-- The handlers of the send path, and the timer's tick: what each does with the blocks.
use xcom_lua.Prelude.{
  ℕ, ◌+◌, ◌%◌, ◌<◌, ◌≡◌, ◌≢◌, refl, inl, inr, Bool, true, false, not, ◌&&◌, ◌||◌, none, arith,
}
use xcom_lua.Prelude.Tests.{leb, ◌==◌, Bool-cases}
use xcom_lua.Prelude.Lists.{take}
use xcom_lua.Prelude.Word.{u32_mod}
use xcom_lua.Port.{is_open}
use xcom_lua.Writer.{Job}
use xcom_lua.Transmit.{
  tx_block_bytes, no_block_id, TxDescriptor, AutoTemplateDescriptor, SendCtx, Transmit, write_block,
  release_tx, set_armed,
}
use xcom_lua.Transmit.Actions.{
  autosend_set, drop_template, autosend_config_action, finish_autosend, send_autosend_action,
  send_user_action, autosend_tick, beat_sender,
}
use xcom_lua.Transmit.Owners.{one, config_of, stock, IsKept, IsKept-stock, IsKept-same}
use xcom_lua.Transmit.Blocks.{try_alloc_tx-IsKept, release_tx-IsKept, enqueue_write-IsKept}

module _ {D : Type 0} (held : ℕ → ℕ) where
  -- A Send event's block goes to a job, or is given back.
  pub send_user_action-IsKept :
      (now_ms : ℕ) (desc : TxDescriptor) (s : Transmit D)
      → s.writer.write + 1 < u32_mod
      → IsKept (λ b. held b + one b desc.block) s
      → IsKept held (send_user_action now_ms desc s)
  unfolding send_user_action
  send_user_action-IsKept now_ms desc s more kept =
      let t = beat_sender now_ms s in
      let stale = not (desc.generation == t.core.generation) || not (is_open t.core.port_state) in
      let job : Job = record {
        block = desc.block;
        len = desc.length;
        gen = desc.generation;
        auto_send = false;
      } in
      let (u, outcome) = enqueue_write-IsKept held job t more kept in
      elim (Bool-cases stale) [
        | inl e ↦
            IsKept-stock held (release_tx desc.block t) (send_user_action now_ms desc s)
              (ground (arith, e)) (release_tx-IsKept held desc.block t kept)
        | inr e ↦ elim outcome [
          | inl (ok, queued) ↦
              IsKept-stock held u (send_user_action now_ms desc s) (ground (arith, e, ok)) queued
          | inr (refused, left) ↦
              IsKept-stock held (release_tx desc.block u) (send_user_action now_ms desc s)
                (ground (arith, e, refused)) (release_tx-IsKept held desc.block u left)
        ]
      ]

  drop_template-IsKept : (s : Transmit D) → IsKept held s → IsKept held (drop_template s)
  drop_template-IsKept s (free, stack, size, valid, live, each) =
      let none_ctx : SendCtx = record {
        autosend_block = no_block_id;
        autosend_length = 0;
        autosend_interval_ms = 0;
      } in
      let cleared : Transmit D = record s { autosend = none_ctx } in
      elim (Bool-cases (s.autosend.autosend_block == no_block_id)) [
        | inl e ↦
            IsKept-stock held cleared (drop_template s) (ground (arith, e))
              (free, stack, size, valid, live, λ (b : ℕ). ground (arith, e, each b))
        | inr e ↦
            IsKept-stock held (release_tx s.autosend.autosend_block cleared) (drop_template s)
              (ground (arith, e))
              (release_tx-IsKept held s.autosend.autosend_block cleared
                (free, stack, size, valid, live, λ (b : ℕ). ground (arith, e, each b)))
      ]

  -- A block in hand becomes the template, where there was none.
  take_template-IsKept :
      (ctx : SendCtx) (s : Transmit D)
      → s.autosend.autosend_block ≡ no_block_id
      → ctx.autosend_block ≢ no_block_id
      → IsKept (λ b. held b + one b ctx.autosend_block) s
      → IsKept held (record s { autosend = ctx })
  take_template-IsKept ctx s empty real (free, stack, size, valid, live, each) =
      (free, stack, size, valid, live, λ (b : ℕ). ground (arith, each b, empty, real))

module _ {D : Type 0} (held : ℕ → ℕ) where
  autosend_set-stock :
      (created : Bool) (interval_ms : ℕ) (s : Transmit D)
      → (stock (autosend_set created interval_ms s) ≡ stock s)
        × ((autosend_set created interval_ms s).autosend ≡ s.autosend)
  unfolding autosend_set
  autosend_set-stock created interval_ms s = (ground arith, ground arith)

  -- An AutosendConfig event's block becomes the template, or is given back.
  pub autosend_config_action-IsKept :
      (now_ms : ℕ) (created : Bool) (desc : AutoTemplateDescriptor) (s : Transmit D)
      → IsKept (λ b. held b + config_of b desc) s
      → IsKept held (autosend_config_action now_ms created desc s)
  unfolding autosend_config_action
  autosend_config_action-IsKept now_ms created desc s kept =
      let t = beat_sender now_ms s in
      let ctx : SendCtx = record {
        autosend_block = desc.template_block;
        autosend_length = desc.template_length;
        autosend_interval_ms = desc.interval_ms;
      } in
      let dropped : Transmit D = set_armed false (drop_template (autosend_set created 0 t)) in
      let kept' : IsKept (λ b. held b + config_of b desc) dropped =
        drop_template-IsKept (λ b. held b + config_of b desc) (record t { timer = none }) kept in
      let result = autosend_config_action now_ms created desc s in
      elim (Bool-cases (desc.interval_ms == 0)) [
        | inl off ↦ IsKept-stock held dropped result (ground (arith, off)) (
            IsKept-same (λ b. held b + config_of b desc) held dropped
              (λ (b : ℕ). ground (arith, off)) kept')
        | inr on ↦ elim (Bool-cases (desc.template_block == no_block_id)) [
          | inl e ↦ absurd (ground (arith, on, e, kept.5 no_block_id))
          | inr e ↦
              let in_hand : (b : ℕ)
                  → held b + config_of b desc ≡ held b + one b desc.template_block =
                λ (b : ℕ). ground (arith, on) in
              let to_template =
                IsKept-same (λ b. held b + config_of b desc)
                  (λ b. held b + one b desc.template_block) dropped in_hand kept' in
              let to_free =
                IsKept-same (λ b. held b + config_of b desc)
                  (λ b. held b + one b desc.template_block) t in_hand kept in
              let u : Transmit D = record dropped { autosend = ctx } in
              elim (Bool-cases
                (not (desc.template_length == 0) && leb desc.template_length tx_block_bytes)) [
                  | inl f ↦
                      let (same, later) = autosend_set-stock created desc.interval_ms u in
                      IsKept-stock held u result (ground (arith, on, e, f, same))
                        (take_template-IsKept held ctx dropped refl (ground (arith, e)) to_template)
                  | inr f ↦
                      IsKept-stock held (release_tx desc.template_block t) result
                        (ground (arith, on, e, f))
                        (release_tx-IsKept held desc.template_block t to_free)
                ]
        ]
      ]

  finish_autosend-IsKept :
      (bid size : ℕ) (s : Transmit D)
      → s.writer.write + 1 < u32_mod
      → IsKept (λ b. held b + one b bid) s
      → IsKept held (finish_autosend bid size s)
  unfolding finish_autosend
  finish_autosend-IsKept bid size s more kept =
      let job : Job = record {
        block = bid;
        len = size % 65536;
        gen = s.core.generation;
        auto_send = true;
      } in
      let (u, outcome) = enqueue_write-IsKept held job s more kept in
      elim outcome [
        | inl (ok, queued) ↦
            IsKept-stock held u (finish_autosend bid size s) (ground (arith, ok)) queued
        | inr (refused, left) ↦
            IsKept-stock held (release_tx bid u) (finish_autosend bid size s)
              (ground (arith, refused)) (release_tx-IsKept held bid u left)
      ]

  -- A due automatic send copies the template into a block for a new job, or leaves the blocks alone.
  pub send_autosend_action-IsKept :
      (now_ms : ℕ) (s : Transmit D)
      → s.writer.write + 1 < u32_mod
      → IsKept held s
      → IsKept held (send_autosend_action now_ms s)
  unfolding send_autosend_action
  send_autosend_action-IsKept now_ms s more kept =
      let t = beat_sender now_ms s in
      let size = s.autosend.autosend_length in
      let idle =
        not (is_open s.core.port_state)
        || (s.autosend.autosend_block == no_block_id || size == 0) in
      elim (try_alloc_tx-IsKept held t kept) [
        | inl failed ↦
            IsKept-stock held s (send_autosend_action now_ms s) (ground (arith, failed)) kept
        | inr (x, pool, took, taken) ↦
            let u : Transmit D =
              write_block x (take size (s.bytes s.autosend.autosend_block))
                (record t { tx = pool }) in
            elim (Bool-cases idle) [
              | inl e ↦ IsKept-stock held s (send_autosend_action now_ms s) (ground (arith, e)) kept
              | inr e ↦
                  IsKept-stock held (finish_autosend x size u) (send_autosend_action now_ms s)
                    (ground (arith, e, took)) (finish_autosend-IsKept x size u more taken)
            ]
      ]

  -- The timer's tick leaves the blocks alone.
  pub autosend_tick-IsKept :
      (accepted : Bool) (s : Transmit D) → IsKept held s → IsKept held (autosend_tick accepted s)
  unfolding autosend_tick
  autosend_tick-IsKept accepted s kept =
      IsKept-stock held s (autosend_tick accepted s) (ground arith) kept
