-- ===== src/Writer/Jobs.antt =====
-- Every job's block goes back to the pool once, and a stale job never reaches the device.
use xcom_lua.Prelude.{
  ℕ, zero, suc, ◌+◌, ◌%◌, ◌<◌, ◌≡◌, ◌≢◌, refl, ◌∙◌, ap, inl, inr, false, List, [], ◌∷◌, Option,
  some, arith,
}
use xcom_lua.Prelude.Tests.{if◌then◌else◌}
use xcom_lua.Prelude.Lists.{length}
use xcom_lua.Prelude.Word.{ℤ, u32_mod, add32}
use xcom_lua.Core.{CoreCtx}
use xcom_lua.Writer.{Job, SessionWriter, reject_job, release_leftover_jobs, write_job, run_job}
use xcom_lua.Writer.Fifo.{IsValid, contents, try_pop_refines}

module _ {T : Type 0} (release : ℕ → T → T) where
  -- The blocks of the jobs, released in their order.
  abbrev pub release_all : List Job → T → T
  release_all [] tx = tx
  release_all (j ∷ js) tx = release_all js (release j.block tx)

module _ {D : Type 0} {T : Type 0} (release : ℕ → T → T) where
  -- What the drain promises of its result.
  pub record Drained (s : SessionWriter) (c : CoreCtx D) (tx : T)
      (r : SessionWriter × CoreCtx D × T) : Type 0 where
    pub emptied : contents r.0 ≡ []
    pub valid : IsValid r.0
    pub released : r.2 ≡ release_all release (contents s) tx
    pub counted : r.1.tx_rejected % u32_mod ≡ (c.tx_rejected + length (contents s)) % u32_mod
    pub sent : r.1.tx_bytes ≡ c.tx_bytes

  reject_job-counts :
      (j : Job) (c : CoreCtx D) (tx : T)
      → ((reject_job release j c tx).0.tx_rejected ≡ add32 c.tx_rejected 1)
        × ((reject_job release j c tx).0.tx_bytes ≡ c.tx_bytes)
        × ((reject_job release j c tx).1 ≡ release j.block tx)
  unfolding reject_job
  reject_job-counts j c tx = ground arith

  Drained-none :
      (s : SessionWriter) (c : CoreCtx D) (tx : T)
      → IsValid s
      → contents s ≡ []
      → Drained s c tx (s, c, tx)
  Drained-none s c tx v e = record {
    emptied = e;
    valid = v;
    released = rw e;
    counted = rw e (omega arith);
    sent = refl;
  }

  Drained-some :
      (s s' : SessionWriter) (j : Job) (c : CoreCtx D) (tx : T) (r : SessionWriter × CoreCtx D × T)
      → contents s ≡ j ∷ contents s'
      → Drained s' (reject_job release j c tx).0 (reject_job release j c tx).1 r
      → Drained s c tx r
  Drained-some s s' j c tx r e d =
      let (n, b, t) = reject_job-counts j c tx in
      record {
        emptied = d.emptied;
        valid = d.valid;
        released = rw e (d.released ∙ ap (release_all release (contents s')) t);
        counted = rw e (omega (arith, d.counted, n));
        sent = d.sent ∙ b;
      }

  -- The drain ends with any fuel above the number of waiting jobs, which the ring bounds by 256:
  -- it leaves the ring empty and valid, releases the block of each waiting job once, in the order of the
  -- queue, counts each as rejected (as a uint32_t), and counts no byte as sent. The ring's
  -- counters have not wrapped.
  pub release_leftover_jobs_lem :
      (fuel : ℕ) (s : SessionWriter) (c : CoreCtx D) (tx : T)
      → IsValid s
      → length (contents s) < fuel
      → (r : SessionWriter × CoreCtx D × T) × (release_leftover_jobs release fuel s c tx ≡ some r)
        × Drained s c tx r
  unfolding release_leftover_jobs
  release_leftover_jobs_lem zero s c tx v h = absurd (omega arith)
  release_leftover_jobs_lem (suc fuel) s c tx v h = elim (try_pop_refines s v) [
    | inl (e, none_left) ↦
        rw (none_left, release_leftover_jobs) ((s, c, tx), refl, Drained-none s c tx v e)
    | inr (j, s', popped, e, v') ↦
        let (r, ran, d) =
          release_leftover_jobs_lem fuel s' (reject_job release j c tx).0
            (reject_job release j c tx).1 v' (omega (arith, ap length e)) in
        rw (popped, release_leftover_jobs) (r, ran, Drained-some s s' j c tx r e d)
  ]

  module _ (owner_write : Option (CoreCtx D → ℕ → ℕ → CoreCtx D × ℤ)) where
    -- A job of an earlier session, by its generation, is not written: whatever the device would
    -- have done, no byte is counted as sent and no error is reported, and only its block is
    -- released and, for an automatic job, the gate opened.
    pub run_job_stale :
        (j : Job) (c : CoreCtx D) (tx : T)
        → j.gen ≢ c.generation
        → run_job release owner_write j c tx
          ≡ ((if j.auto_send then record c { autosend_armed = false } else c), release j.block tx)
    unfolding run_job
    run_job_stale j c tx h = ground arith

    -- Whatever becomes of a job, its block is released once, after the write; and an automatic
    -- job opens the gate again.
    pub run_job_releases :
        (j : Job) (c : CoreCtx D) (tx : T)
        → ((run_job release owner_write j c tx).1 ≡ release j.block tx)
          × ((run_job release owner_write j c tx).0.autosend_armed
              ≡ (if j.auto_send then false else (write_job owner_write j c).0.autosend_armed))
    unfolding run_job
    run_job_releases j c tx = ground arith
