-- ===== src/Transmit/Calls.antt =====
-- The calls of the C interface on the send path: what each does with the blocks.
use xcom_lua.Prelude.{
  ℕ, zero, suc, ◌+◌, ◌%◌, ◌≡◌, ◌≢◌, refl, inl, inr, true, false, not, ◌||◌, List, Option, none,
  some, arith,
}
use xcom_lua.Prelude.Tests.{ltb, ◌==◌, Bool-cases}
use xcom_lua.Prelude.Lists.{take}
use xcom_lua.Port.{is_open}
use xcom_lua.Status.{SubmitDisposition}
use xcom_lua.Transmit.{
  tx_block_bytes, no_block_id, TxDescriptor, AutoTemplateDescriptor, Transmit, write_block,
  release_tx, submit_write, submit_autosend_config, finish_send, xcom_send, finish_template,
  xcom_set_auto_template,
}
use xcom_lua.Transmit.Owners.{one, config_of, IsKept, IsKept-stock, IsKept-same}
use xcom_lua.Transmit.Blocks.{
  try_alloc_tx-IsKept, release_tx-IsKept, submit_write-IsKept, submit_autosend_config-IsKept,
}

module _ {D : Type 0} (held : ℕ → ℕ) where
  pub finish_send-IsKept :
      (disposition : Option SubmitDisposition) (bid size : ℕ) (s : Transmit D)
      → IsKept (λ b. held b + one b bid) s
      → IsKept held (finish_send disposition bid size s).0
  unfolding finish_send
  finish_send-IsKept disposition bid size s kept =
      let desc : TxDescriptor = record {
        block = bid;
        length = size % 65536;
        generation = s.core.generation;
      } in
      elim (submit_write-IsKept held disposition desc s kept) [
        | inl (ok, queued) ↦
            IsKept-stock held (submit_write disposition desc s).0
              (finish_send disposition bid size s).0 (ground (arith, ok)) queued
        | inr (failed, same) ↦
            IsKept-stock held (release_tx bid s) (finish_send disposition bid size s).0
              (ground (arith, failed, same)) (release_tx-IsKept held bid s kept)
      ]

  -- A send keeps the blocks whatever its outcome.
  pub xcom_send-IsKept :
      (disposition : Option SubmitDisposition) (content : Option (List ℕ)) (size : ℕ)
      (s : Transmit D)
      → IsKept held s
      → IsKept held (xcom_send disposition content size s).0
  unfolding xcom_send
  xcom_send-IsKept disposition none size s kept = kept
  xcom_send-IsKept disposition (some content) size s kept = elim (try_alloc_tx-IsKept held s kept) [
    | inl failed ↦
        IsKept-stock held s (xcom_send disposition (some content) size s).0 (ground (arith, failed))
          kept
    | inr (x, pool, took, taken) ↦
        let t : Transmit D = write_block x (take size content) (record s { tx = pool }) in
        let sent = finish_send-IsKept disposition x size t taken in
        elim (Bool-cases
          (size == 0 || ltb tx_block_bytes size || not (is_open s.core.port_state))) [
            | inl e ↦
                IsKept-stock held s (xcom_send disposition (some content) size s).0
                  (ground (arith, e)) kept
            | inr e ↦
                IsKept-stock held (finish_send disposition x size t).0
                  (xcom_send disposition (some content) size s).0 (ground (arith, e, took)) sent
          ]
  ]

  finish_template-IsKept :
      (disposition : Option SubmitDisposition) (desc : AutoTemplateDescriptor) (s : Transmit D)
      → IsKept (λ b. held b + one b desc.template_block) s
      → desc.interval_ms ≢ 0
      → IsKept held (finish_template disposition true desc s).0
  unfolding finish_template
  finish_template-IsKept disposition desc s kept on =
      elim (submit_autosend_config-IsKept held disposition desc s (
        IsKept-same (λ b. held b + one b desc.template_block) (λ b. held b + config_of b desc) s
          (λ (b : ℕ). ground (arith, on)) kept)) [
            | inl (ok, queued) ↦
                IsKept-stock held (submit_autosend_config disposition desc s).0
                  (finish_template disposition true desc s).0 (ground (arith, ok)) queued
            | inr (failed, same) ↦
                IsKept-stock held (release_tx desc.template_block s)
                  (finish_template disposition true desc s).0 (ground (arith, failed, same))
                  (release_tx-IsKept held desc.template_block s kept)
          ]

  disabled_template-IsKept :
      (disposition : Option SubmitDisposition) (desc : AutoTemplateDescriptor) (s : Transmit D)
      → IsKept held s
      → desc.interval_ms ≡ 0
      → IsKept held (finish_template disposition false desc s).0
  unfolding finish_template
  disabled_template-IsKept disposition desc s kept off =
      elim (submit_autosend_config-IsKept held disposition desc s (
        IsKept-same held (λ b. held b + config_of b desc) s (λ (b : ℕ). ground (arith, off))
          kept)) [
            | inl (ok, queued) ↦
                IsKept-stock held (submit_autosend_config disposition desc s).0
                  (finish_template disposition false desc s).0 (ground (arith, ok)) queued
            | inr (failed, same) ↦
                IsKept-stock held s (finish_template disposition false desc s).0
                  (ground (arith, failed, same)) kept
          ]

  -- So does the configuration of the automatic send.
  pub xcom_set_auto_template-IsKept :
      (disposition : Option SubmitDisposition) (data_ptr : Option (List ℕ)) (size interval : ℕ)
      (s : Transmit D)
      → IsKept held s
      → IsKept held (xcom_set_auto_template disposition data_ptr size interval s).0
  unfolding xcom_set_auto_template
  xcom_set_auto_template-IsKept disposition data_ptr size zero s kept =
      let off : AutoTemplateDescriptor = record {
        template_block = no_block_id;
        template_length = 0;
        interval_ms = 0;
      } in
      elim (Bool-cases (ltb tx_block_bytes size)) [
        | inl e ↦
            IsKept-stock held s (xcom_set_auto_template disposition data_ptr size zero s).0
              (ground (arith, e)) kept
        | inr e ↦
            IsKept-stock held (finish_template disposition false off s).0
              (xcom_set_auto_template disposition data_ptr size zero s).0 (ground (arith, e))
              (disabled_template-IsKept disposition off s kept refl)
      ]
  xcom_set_auto_template-IsKept disposition none size (suc n) s kept =
      IsKept-stock held s (xcom_set_auto_template disposition none size (suc n) s).0 (ground arith)
        kept
  xcom_set_auto_template-IsKept disposition (some content) size (suc n) s kept =
      elim (try_alloc_tx-IsKept held s kept) [
        | inl failed ↦
            IsKept-stock held s (xcom_set_auto_template disposition (some content) size (suc n) s).0
              (ground (arith, failed)) kept
        | inr (x, pool, took, taken) ↦
            let t : Transmit D = write_block x (take size content) (record s { tx = pool }) in
            let desc : AutoTemplateDescriptor = record {
              template_block = x;
              template_length = size % 65536;
              interval_ms = suc n;
            } in
            elim (Bool-cases (ltb tx_block_bytes size)) [
              | inl e ↦
                  IsKept-stock held s
                    (xcom_set_auto_template disposition (some content) size (suc n) s).0
                    (ground (arith, e)) kept
              | inr e ↦
                  IsKept-stock held (finish_template disposition true desc t).0
                    (xcom_set_auto_template disposition (some content) size (suc n) s).0
                    (ground (arith, e, took))
                    (finish_template-IsKept disposition desc t taken (omega arith))
            ]
      ]
