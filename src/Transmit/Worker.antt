-- ===== src/Transmit/Worker.antt =====
-- What the writer's start and end, and its worker, do with the blocks.
use xcom_lua.Prelude.{
  ℕ, ◌+◌, ◌-◌, ◌<◌, ◌≡◌, refl, sym, ap, ◌⊎◌, inl, inr, Bool, true, false, List, [], ◌∷◌, Option,
  none, some, arith,
}
use mathlib.Core.Path.{subst}
use xcom_lua.Prelude.Tests.{Bool-cases, Option-cases}
use xcom_lua.Prelude.Lists.{length}
use xcom_lua.Prelude.Word.{ℤ}
use xcom_lua.Core.{CoreCtx}
use xcom_lua.Writer.{Job, SessionWriter, max_jobs, reject_job, run_job}
use xcom_lua.Writer.Fifo.{IsValid, contents, length-window, try_pop_refines}
use xcom_lua.Writer.Jobs.{release_all, release_leftover_jobs_lem, run_job_releases}
use xcom_lua.Transmit.{Transmit, release_stock, release_tx}
use xcom_lua.Transmit.Traffic.{start_writer, close_writer, SendSystem, pops, writes, rejects, step}
use xcom_lua.Transmit.Owners.{one, jobs_of, IsKept, IsKept-stock, IsKept-same}
use xcom_lua.Transmit.Blocks.{release_tx-IsKept}

abbrev pub current_of : ℕ → Option Job → ℕ
current_of b none = 0
current_of b (some j) = one b j.block

module _ {D : Type 0} where
  -- Each block is free or has one owner, the worker's job in hand counted.
  abbrev pub Conserved : SendSystem D → Type 0
  Conserved s = IsKept (λ b. current_of b s.current) s.path

  -- The drain gives back the blocks of the jobs.
  release_all-IsKept :
      (held : ℕ → ℕ) (js : List Job) (s : Transmit D)
      → IsKept (λ b. held b + jobs_of b js) s
      → IsKept held (record s { tx = (release_all release_stock js (s.tx, s.bytes)).0 })
  release_all-IsKept held [] s kept =
      IsKept-same (λ b. held b + jobs_of b []) held s (λ (b : ℕ). omega arith) kept
  release_all-IsKept held (j ∷ js) s kept = release_all-IsKept held js (release_tx j.block s) (
      release_tx-IsKept (λ b. held b + jobs_of b js) j.block s
        (IsKept-same (λ b. held b + jobs_of b (j ∷ js)) (λ b. held b + jobs_of b js + one b j.block)
          s (λ (b : ℕ). omega arith) kept))

  pub start_writer-IsKept :
      (held : ℕ → ℕ) (created : Bool) (s : Transmit D)
      → IsKept held s
      → IsKept held (start_writer created s).0
  unfolding start_writer
  start_writer-IsKept held created s (free, stack, size, valid, live, each) =
      let result = (start_writer created s).0 in
      let fresh : SessionWriter = record (s.writer) { write = 0; read = 0 } in
      elim (Bool-cases s.active) [
        | inl e ↦
            IsKept-stock held s result (ground (arith, e)) (free, stack, size, valid, live, each)
        | inr e ↦
            let idle : contents s.writer ≡ [] = ground (arith, e, live) in
            let valid' : IsValid fresh = ground (arith, valid) in
            IsKept-stock held (record s { writer = fresh; active = created }) result
              (ground (arith, e))
              (
                free,
                stack,
                size,
                valid',
                inr refl,
                λ (b : ℕ). omega (arith, each b, ap (jobs_of b) idle),
              )
      ]

  pub close_writer-IsKept :
      (held : ℕ → ℕ) (s : Transmit D) → IsKept held s → IsKept held (close_writer s)
  unfolding close_writer
  close_writer-IsKept held s (free, stack, size, valid, live, each) =
      let fits : length (contents s.writer) < max_jobs + 1 = omega (
        arith,
        valid.bounded,
        length-window s.writer.jobs s.writer.read (s.writer.write - s.writer.read),
      ) in
      let ((w, core, tx), drained, outcome) =
        release_leftover_jobs_lem release_stock (max_jobs + 1) s.writer s.core (s.tx, s.bytes) valid
          fits in
      let ended : Transmit D = record s { writer = w; core = core; active = false } in
      let given_back = release_all-IsKept held (contents s.writer) ended (
        free,
        stack,
        size,
        outcome.valid,
        inr outcome.emptied,
        λ (b : ℕ). omega (arith, each b, ap (jobs_of b) outcome.emptied),
      ) in
      elim (Bool-cases s.active) [
        | inr e ↦
            IsKept-stock held s (close_writer s) (ground (arith, e))
              (free, stack, size, valid, live, each)
        | inl e ↦
            IsKept-stock held
              (record ended {
                tx = (release_all release_stock (contents s.writer) (s.tx, s.bytes)).0;
              })
              (close_writer s) (ground (arith, e, drained, outcome.released)) given_back
      ]

  pub Conserved-same : (s t : SendSystem D) → t ≡ s → Conserved s → Conserved t
  Conserved-same s t same kept = subst Conserved (sym same) kept

  -- A job that the worker takes is in its hand.
  pub pops-Conserved : (s : SendSystem D) → Conserved s → Conserved (step pops s)
  unfolding step
  pops-Conserved s (free, stack, size, valid, live, each) = elim (Option-cases s.current) [
    | inr (j, e) ↦
        Conserved-same s (step pops s) (ground (arith, e)) (free, stack, size, valid, live, each)
    | inl e ↦ elim (try_pop_refines s.path.writer valid) [
      | inl (idle, empty) ↦
          Conserved-same s (step pops s) (ground (arith, e, empty))
            (free, stack, size, valid, live, each)
      | inr (j, w, popped, queue, valid') ↦
          let taken : step pops s
              ≡ record s { path = record (s.path) { writer = w }; current = some j } =
            ground (arith, e, popped) in
          let on : (s.path.active ≡ true) ⊎ (contents w ≡ []) = ground (arith, live, queue) in
          Conserved-same (record s { path = record (s.path) { writer = w }; current = some j })
            (step pops s) taken
            (
              free,
              stack,
              size,
              valid',
              on,
              λ (b : ℕ). ground (arith, each b, e, ap (jobs_of b) queue),
            )
    ]
  ]

  -- The job in hand is done with.
  job_over :
      (j : Job) (c : CoreCtx D) (s t : SendSystem D)
      → s.current ≡ some j
      → t ≡ record s { path = record (release_tx j.block s.path) { core = c }; current = none }
      → Conserved s
      → Conserved t
  job_over j c s t e same (free, stack, size, valid, live, each) =
      let held : ℕ → ℕ = λ b. 0 in
      Conserved-same
        (record s { path = record (release_tx j.block s.path) { core = c }; current = none }) t same
        (release_tx-IsKept held j.block (record (s.path) { core = c })
          (free, stack, size, valid, live, λ (b : ℕ). ground (arith, e, each b)))

  pub worker_steps :
      (owner_write : Option (CoreCtx D → ℕ → ℕ → CoreCtx D × ℤ)) (s : SendSystem D)
      → Conserved s
      → Conserved (step (writes owner_write) s) × Conserved (step rejects s)
  unfolding step reject_job
  worker_steps owner_write s kept = elim (Option-cases s.current) [
    | inl e ↦ (
      Conserved-same s (step (writes owner_write) s) (ground (arith, e)) kept,
      Conserved-same s (step rejects s) (ground (arith, e)) kept,
    )
    | inr (j, e) ↦
        let (freed, gate) =
          run_job_releases release_stock owner_write j s.path.core (s.path.tx, s.path.bytes) in
        (
          job_over j (run_job release_stock owner_write j s.path.core (s.path.tx, s.path.bytes)).0 s
              (step (writes owner_write) s) e (ground (arith, e, freed)) kept,
          job_over j (reject_job release_stock j s.path.core (s.path.tx, s.path.bytes)).0 s
              (step rejects s) e (ground (arith, e)) kept,
        )
  ]
