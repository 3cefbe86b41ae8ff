-- ===== src/Log/Process/Answers.antt =====
-- What finish leaves of a job, for the whole of process.
use xcom_lua.Prelude.{
  ℕ, ◌+◌, ◌≤◌, ◌≡◌, ap, ◌∙◌, inl, inr, List, [], ◌∷◌, ◌++◌, append-nil, Option, none, some, arith,
}
use xcom_lua.Prelude.Tests.{if◌then◌else◌, Bool-cases, Option-cases}
use xcom_lua.Prelude.Word.{ℤ}
use xcom_lua.Prelude.Lists.{length}
use xcom_lua.Ring.{RingOps, RingLaws, RingCapacity}
use xcom_lua.Lane.{RxBlockRef, PoolOps}
use xcom_lua.Pool.{FixedPool, release}
use xcom_lua.Log.{FileOps, FileJob, AtomicCompletion, LogWriter, is_async}
use xcom_lua.Log.Process.{settle_job, finish, process_kind, process}
use xcom_lua.Log.Process.Books.{Books, books}
use xcom_lua.Log.Process.Once.{process_kind-books}

-- The pool with the block of a job given back.
abbrev pub given_back : Option ℕ → FixedPool → FixedPool
given_back none p = p
given_back (some b) p = release [] b p

-- The answers to those who wait for a job.
abbrev pub answers : Option ℕ → ℤ → List (ℕ × ℤ)
answers none status = []
answers (some c) status = (c, status) ∷ []

abbrev pub completion_of : FileJob → ℤ → List AtomicCompletion
completion_of job status =
    if is_async job.kind then record { request_id = job.request_id; status = status } ∷ [] else []

-- From `s` to `s'` the job was answered with `status`, and its block given back.
pub record Answered {D P R J C W : Type 0} {ring : RingOps AtomicCompletion C}
    (laws : RingLaws ring) (job : FileJob) (status : ℤ) (s s' : LogWriter D P R J C W)
    : Type 0 where
  pub published : laws.items s'.completions ≡ laws.items s.completions ++ completion_of job status
  pub freed : s'.data_pool ≡ given_back job.block_id s.data_pool
  pub waked : s'.done ≡ answers job.completion status ++ s.done
  pub jobs_kept : s'.jobs ≡ s.jobs
  pub pending_kept : s'.pending_completions ≡ s.pending_completions
  pub running_kept : s'.running ≡ s.running

module _ {D P R J C W : Type 0} where
  -- The queues after a job is settled, with `c` for the completions.
  abbrev settled : FileJob → ℤ → C → LogWriter D P R J C W → Books J C
  settled job status c s = (
    c,
    given_back job.block_id s.data_pool,
    answers job.completion status ++ s.done,
    s.jobs,
    s.pending_completions,
    s.running,
  )

  settle_job-books :
      (job : FileJob) (status : ℤ) (s : LogWriter D P R J C W)
      → books (settle_job job status s) ≡ settled job status s.completions s
  settle_job-books job status s = elim (Option-cases job.block_id) [
    | inl e ↦ elim (Option-cases job.completion) [
      | inl f ↦ ground (arith, e, f)
      | inr (c, f) ↦ ground (arith, e, f)
    ]
    | inr (b, e) ↦ elim (Option-cases job.completion) [
      | inl f ↦ ground (arith, e, f)
      | inr (c, f) ↦ ground (arith, e, f)
    ]
  ]

module _ {D P R J C W : Type 0} {ring : RingOps AtomicCompletion C} (laws : RingLaws ring) where
  settled-Answered :
      (job : FileJob) (status : ℤ) (s s' : LogWriter D P R J C W) (c : C)
      → books s' ≡ settled job status c s
      → laws.items c ≡ laws.items s.completions ++ completion_of job status
      → Answered laws job status s s'
  settled-Answered job status s s' c h k = record {
    published = ap (λ (b : Books J C). laws.items b.0) h ∙ k;
    freed = ground arith;
    waked = ground arith;
    jobs_kept = ground arith;
    pending_kept = ground arith;
    running_kept = ground arith;
  }

  pub finish-Answered :
      (job : FileJob) (status : ℤ) (s s' : LogWriter D P R J C W)
      → finish ring job status s ≡ some s'
      → Answered laws job status s s'
  unfolding finish
  finish-Answered job status s s' h =
      let answer : AtomicCompletion = record { request_id = job.request_id; status = status } in
      let pushed = laws.push_items answer s.completions in
      elim (Bool-cases (is_async job.kind)) [
        | inr e ↦
            settled-Answered job status s s' s.completions
              (ground (arith, e, settle_job-books job status s))
              (ground (arith, e, append-nil (laws.items s.completions)))
        | inl e ↦ elim (Bool-cases (ring.try_push answer s.completions).1) [
          | inr f ↦ ground (arith, e, f)
          | inl f ↦
              let t : LogWriter D P R J C W = record s {
                completions = (ring.try_push answer s.completions).0;
              } in
              settled-Answered job status s s' t.completions
                (ground (arith, e, f, settle_job-books job status t)) (ground (arith, e, f, pushed))
        ]
      ]

module _ {D P R J C W : Type 0} {ring : RingOps AtomicCompletion C} {laws : RingLaws ring}
    {places : ℕ} where
  -- A job is finished as long as its completion, if any, has a place.
  pub finish-returns :
      RingCapacity laws places
      → (job : FileJob) (status : ℤ) (s : LogWriter D P R J C W)
      → length (laws.items s.completions) + length (completion_of job status) ≤ places
      → (s' : LogWriter D P R J C W) × (finish ring job status s ≡ some s')
  unfolding finish
  finish-returns capacity job status s room =
      let answer : AtomicCompletion = record { request_id = job.request_id; status = status } in
      elim (Bool-cases (is_async job.kind)) [
        | inr e ↦ (settle_job job status s, ground (arith, e))
        | inl e ↦
            let pushed = capacity.push_room answer s.completions (ground (arith, e, room)) in
            (
              settle_job job status
                  (record s { completions = (ring.try_push answer s.completions).0 }),
              ground (arith, e, pushed),
            )
      ]

module _ {D P R J C W : Type 0} (ops : FileOps W) (pool_ops : PoolOps P) (payload : ℕ → P → List ℕ)
    (raw_ring : RingOps RxBlockRef R) {ring : RingOps AtomicCompletion C}
    (laws : RingLaws ring) where
  -- The switch changes none of the queues, so finish answers for the whole of process.
  pub process_kind-Answered :
      (fuel blocks : ℕ) (job : FileJob) (s s' : LogWriter D P R J C W) (to : ℕ) (status : ℤ)
      (t : LogWriter D P R J C W)
      → process_kind ops pool_ops payload raw_ring fuel blocks job.kind job s ≡ some (to, status, t)
      → finish ring (record job { offset = to }) status t ≡ some s'
      → Answered laws job status s s'
  process_kind-Answered fuel blocks job s s' to status t e ended =
      let kept =
        process_kind-books ops pool_ops payload raw_ring fuel blocks job.kind job s to status t e in
      let done : Answered laws (record job { offset = to }) status t s' =
        finish-Answered laws (record job { offset = to }) status t s' ended in
      record {
        published =
            done.published
            ∙ ap (λ (b : Books J C). laws.items b.0 ++ completion_of job status) kept;
        freed = ground (arith, kept, done.freed);
        waked = ground (arith, kept, done.waked);
        jobs_kept = ground (arith, kept, done.jobs_kept);
        pending_kept = ground (arith, kept, done.pending_kept);
        running_kept = ground (arith, kept, done.running_kept);
      }

  -- What is left when process has ended.
  pub process-Answered :
      (fuel blocks : ℕ) (job : FileJob) (s s' : LogWriter D P R J C W)
      → process ops pool_ops payload raw_ring ring fuel blocks job s ≡ some s'
      → (status : ℤ) × Answered laws job status s s'
  unfolding process
  process-Answered fuel blocks job s s' h =
      elim (Option-cases (process_kind ops pool_ops payload raw_ring fuel blocks job.kind job s)) [
        | inl e ↦ ground (arith, e)
        | inr ((to, status, t), e) ↦
            (status, process_kind-Answered fuel blocks job s s' to status t e (ground (arith, e)))
      ]
