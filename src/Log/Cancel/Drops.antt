-- ===== src/Log/Cancel/Drops.antt =====
-- A stop answers whoever waits.
use xcom_lua.Prelude.{
  ℕ, suc, ◌+◌, ◌≤◌, ◌≡◌, refl, sym, ap, ◌∙◌, List, [], ◌∷◌, ◌++◌, append_assoc, append-nil, some,
  arith,
}
use xcom_lua.Prelude.Lists.{length, length-append}
use xcom_lua.Prelude.Word.{ℤ}
use xcom_lua.Status.{xcom_err_timeout}
use xcom_lua.Ring.{RingOps, RingLaws, RingCapacity}
use xcom_lua.Pool.{FixedPool}
use xcom_lua.Log.{FileJob, AtomicCompletion, LogWriter}
use xcom_lua.Log.Process.Answers.{
  given_back, answers, completion_of, finish-returns, finish-Answered,
}
use xcom_lua.Log.Cancel.{cancel_pending}

-- The completions and the answers of jobs that time out, and the pool with their blocks given back.
abbrev pub timed_out : List FileJob → List AtomicCompletion
timed_out [] = []
timed_out (job ∷ jobs) = completion_of job xcom_err_timeout ++ timed_out jobs

abbrev pub told : List FileJob → List (ℕ × ℤ) → List (ℕ × ℤ)
told [] done = done
told (job ∷ jobs) done = told jobs (answers job.completion xcom_err_timeout ++ done)

abbrev pub all_given_back : List FileJob → FixedPool → FixedPool
all_given_back [] pool = pool
all_given_back (job ∷ jobs) pool = all_given_back jobs (given_back job.block_id pool)

module _ {D P R J C W : Type 0} {job_ring : RingOps FileJob J}
    {completion_ring : RingOps AtomicCompletion C} (job_laws : RingLaws job_ring)
    (laws : RingLaws completion_ring) where
  -- From `s` to `s'` the queued `jobs` were dropped with a timeout.
  pub record Dropped (jobs : List FileJob) (s s' : LogWriter D P R J C W) : Type 0 where
    pub emptied : job_laws.items s'.jobs ≡ []
    pub published : laws.items s'.completions ≡ laws.items s.completions ++ timed_out jobs
    pub waked : s'.done ≡ told jobs s.done
    pub freed : s'.data_pool ≡ all_given_back jobs s.data_pool

  -- If the completion ring has room for the answers, cancel_pending ends after one turn for each
  -- queued job and one more. The queue is then empty, each asynchronous job has a completion with a
  -- timeout, in the order of the queue, whoever waited has a timeout, and all blocks are given back.
  pub cancel_pending_drops :
      {places : ℕ}
      → RingCapacity laws places
      → (jobs : List FileJob) (s : LogWriter D P R J C W) → job_laws.items s.jobs ≡ jobs
      → length (laws.items s.completions) + length (timed_out jobs) ≤ places
      → (s' : LogWriter D P R J C W) × (cancel_pending job_ring completion_ring
            (suc (length jobs))
            s
          ≡ some s')
        × Dropped jobs s s'
  unfolding cancel_pending
  cancel_pending_drops capacity [] s h room = (
    s,
    ground (arith, job_laws.pop_empty s.jobs h),
    record {
      emptied = h;
      published = sym (append-nil (laws.items s.completions));
      waked = refl;
      freed = refl;
    },
  )
  cancel_pending_drops capacity (job ∷ jobs) s h room =
      let (r, popped, rest) = job_laws.pop_oldest s.jobs job jobs h in
      let taken : LogWriter D P R J C W = record s { jobs = r } in
      let fits = length-append (completion_of job xcom_err_timeout) (timed_out jobs) in
      let (t, finished) =
        finish-returns capacity job xcom_err_timeout taken (omega (arith, room, fits)) in
      let a = finish-Answered laws job xcom_err_timeout taken t finished in
      let longer = length-append (laws.items s.completions) (completion_of job xcom_err_timeout) in
      let (s', ended, d) =
        cancel_pending_drops capacity jobs t (ap (λ (j : J). job_laws.items j) a.jobs_kept ∙ rest)
          (ground (arith, room, fits, longer, ap length a.published)) in
      (
        s',
        ground (arith, popped, finished, ended),
        record {
          emptied = d.emptied;
          published =
              d.published
              ∙ ap (λ (q : List AtomicCompletion). q ++ timed_out jobs) a.published
              ∙ append_assoc (laws.items s.completions) (completion_of job xcom_err_timeout)
                  (timed_out jobs);
          waked = d.waked ∙ ap (told jobs) a.waked;
          freed = d.freed ∙ ap (all_given_back jobs) a.freed;
        },
      )
