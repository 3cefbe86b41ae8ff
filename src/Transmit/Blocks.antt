-- ===== src/Transmit/Blocks.antt =====
-- How the operations on TxBlockPool and the queues of the send path move a block between its owners.
use xcom_lua.Prelude.{
  ℕ, ◌+◌, ◌<◌, ◌≡◌, refl, sym, ap, ◌∙◌, ◌⊎◌, inl, inr, true, false, [], ◌∷◌, ◌++◌, Option, none,
  some, arith,
}
use mathlib.Core.Path.{subst}
use xcom_lua.Prelude.Tests.{leb, Bool-cases}
use xcom_lua.Prelude.Lists.{length, length-set}
use xcom_lua.Prelude.Word.{◌==ℤ◌, u32_mod}
use xcom_lua.Pool.{FixedPool, index}
use xcom_lua.Pool.Stack.{allocate_pops, allocate_empty, release_pushes, release-pushed}
use xcom_lua.Status.{xcom_ok, SubmitDisposition, tx_submit_status, submit_accepted}
use xcom_lua.Writer.{Job, SessionWriter, max_jobs, try_enqueue}
use xcom_lua.Writer.Fifo.{IsValid, contents, try_enqueue_refines, enqueue_spec}
use xcom_lua.Transmit.{
  tx_block_count, TxDescriptor, AutoTemplateDescriptor, Transmit, try_alloc_tx, release_tx,
  submit_write, submit_autosend_config,
}
use xcom_lua.Transmit.Actions.{enqueue_write}
use xcom_lua.Transmit.Owners.{
  one, count, config_of, jobs_of, sends_of-append, configs_of-append, jobs_of-append, NotIn-count,
  IsKept,
}

module _ {D : Type 0} where
  -- A claim takes a free block in hand, or finds none.
  pub try_alloc_tx-IsKept :
      (held : ℕ → ℕ) (s : Transmit D)
      → IsKept held s
      → (try_alloc_tx s ≡ none)
        ⊎ (x : ℕ) × (pool : FixedPool) × (try_alloc_tx s ≡ some (x, record s { tx = pool }))
          × IsKept (λ b. held b + one b x) (record s { tx = pool })
  unfolding try_alloc_tx
  try_alloc_tx-IsKept held s ([], stack, size, valid, live, each) =
      inl (ground (arith, allocate_empty s.tx stack))
  try_alloc_tx-IsKept held s (x ∷ free, stack, size, valid, live, each) =
      let (q, took, left, same) = allocate_pops s.tx x free stack in
      let bound : x < 65536 = ground (arith, each x) in
      inr (
        x,
        q,
        ground (arith, took, bound),
        (free, left, ap length same ∙ size, valid, live, λ (b : ℕ). omega (arith, each b)),
      )

  -- A block in hand is given back.
  pub release_tx-IsKept :
      (held : ℕ → ℕ) (x : ℕ) (s : Transmit D)
      → IsKept (λ b. held b + one b x) s
      → IsKept held (release_tx x s)
  release_tx-IsKept held x s (free, stack, size, valid, live, each) =
      let small : x < tx_block_count = ground (arith, each x) in
      let out : count x free ≡ 0 = ground (arith, each x) in
      (
        x ∷ free,
        release_pushes s.tx x free stack (omega (arith, size, small)) (NotIn-count x free out),
        ap (λ (p : FixedPool). length p.storage) (release-pushed s.tx x)
            ∙ length-set s.tx.storage x (index s.tx.head)
            ∙ size,
        valid,
        live,
        λ (b : ℕ). omega (arith, each b),
      )

  -- A block in hand goes to an event that waits, or stays in hand.
  pub submit_write-IsKept :
      (held : ℕ → ℕ) (disposition : Option SubmitDisposition) (desc : TxDescriptor) (s : Transmit D)
      → IsKept (λ b. held b + one b desc.block) s
      → (((submit_write disposition desc s).1 ==ℤ xcom_ok) ≡ true)
          × IsKept held (submit_write disposition desc s).0
        ⊎ (((submit_write disposition desc s).1 ==ℤ xcom_ok) ≡ false)
          × ((submit_write disposition desc s).0 ≡ s)
  unfolding submit_write
  submit_write-IsKept held none desc s kept = inr (refl, refl)
  submit_write-IsKept held (some disposition) desc s (free, stack, size, valid, live, each) =
      elim (Bool-cases (tx_submit_status disposition ==ℤ xcom_ok)) [
        | inr e ↦ inr (e, ground (arith, e))
        | inl e ↦
            let queued : (submit_write (some disposition) desc s).0
                ≡ record s { sends = s.sends ++ (desc ∷ []) } =
              ground (arith, e) in
            inl (
              e,
              subst (IsKept held) (sym queued) (
                free,
                stack,
                size,
                valid,
                live,
                λ (b : ℕ). omega (arith, each b, sends_of-append b s.sends desc),
              ),
            )
      ]

  pub submit_autosend_config-IsKept :
      (held : ℕ → ℕ) (disposition : Option SubmitDisposition) (desc : AutoTemplateDescriptor)
      (s : Transmit D)
      → IsKept (λ b. held b + config_of b desc) s
      → ((submit_autosend_config disposition desc s).1 ≡ true)
          × IsKept held (submit_autosend_config disposition desc s).0
        ⊎ ((submit_autosend_config disposition desc s).1 ≡ false)
          × ((submit_autosend_config disposition desc s).0 ≡ s)
  unfolding submit_autosend_config
  submit_autosend_config-IsKept held none desc s kept = inr (refl, refl)
  submit_autosend_config-IsKept held (some disposition) desc s
        (free, stack, size, valid, live, each) =
      elim (Bool-cases (submit_accepted disposition)) [
        | inr e ↦ inr (e, ground (arith, e))
        | inl e ↦
            let queued : (submit_autosend_config (some disposition) desc s).0
                ≡ record s { configs = s.configs ++ (desc ∷ []) } =
              ground (arith, e) in
            inl (
              e,
              subst (IsKept held) (sym queued) (
                free,
                stack,
                size,
                valid,
                live,
                λ (b : ℕ). omega (arith, each b, configs_of-append b s.configs desc),
              ),
            )
      ]

  -- The writer's queue after an enqueue that was accepted, or refused.
  enqueue_write_queue :
      (job : Job) (s : Transmit D)
      → s.writer.write + 1 < u32_mod
      → IsValid s.writer
      → (w : SessionWriter) × IsValid w
        × (((enqueue_write job s ≡ (record s { writer = w }, true))
              × (contents w ≡ contents s.writer ++ (job ∷ []))
              × (s.active ≡ true))
            ⊎ (enqueue_write job s ≡ (record s { writer = w }, false))
              × (contents w ≡ contents s.writer))
  unfolding enqueue_write enqueue_spec
  enqueue_write_queue job s more valid = elim (Bool-cases s.active) [
    | inr e ↦ (s.writer, valid, inr (ground (arith, e), refl))
    | inl e ↦
        let (same, valid') = try_enqueue_refines job s.writer valid more in
        elim (Bool-cases (leb max_jobs (length (contents s.writer)))) [
          | inl f ↦ (
            (try_enqueue job s.writer).0,
            valid',
            inr (ground (arith, e, f, same), ground (arith, f, same)),
          )
          | inr f ↦ (
            (try_enqueue job s.writer).0,
            valid',
            inl (ground (arith, e, f, same), ground (arith, f, same), e),
          )
        ]
  ]

  -- A block in hand goes to a job of the writer, or stays in hand.
  pub enqueue_write-IsKept :
      (held : ℕ → ℕ) (job : Job) (s : Transmit D)
      → s.writer.write + 1 < u32_mod
      → IsKept (λ b. held b + one b job.block) s
      → (s' : Transmit D) × ((enqueue_write job s ≡ (s', true)) × IsKept held s'
          ⊎ (enqueue_write job s ≡ (s', false)) × IsKept (λ b. held b + one b job.block) s')
  enqueue_write-IsKept held job s more (free, stack, size, valid, live, each) =
      let (w, valid', outcome) = enqueue_write_queue job s more valid in
      (
        record s { writer = w },
        elim outcome [
          | inl (ok, queue, on) ↦ inl (
            ok,
            (
              free,
              stack,
              size,
              valid',
              inl on,
              λ (b : ℕ).
                  omega
                    (arith, each b, ap (jobs_of b) queue, jobs_of-append b (contents s.writer) job),
            ),
          )
          | inr (refused, queue) ↦ inr (
            refused,
            (
              free,
              stack,
              size,
              valid',
              elim live [ inl e ↦ inl e | inr e ↦ inr (queue ∙ e) ],
              λ (b : ℕ). omega (arith, each b, ap (jobs_of b) queue),
            ),
          )
        ],
      )
