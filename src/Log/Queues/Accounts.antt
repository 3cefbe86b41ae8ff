-- ===== src/Log/Queues/Accounts.antt =====
-- Every completion that is promised has a place in the completion ring.
use xcom_lua.Prelude.{
  ℕ, ◌+◌, ◌%◌, ◌≤◌, ◌≡◌, ap, inl, inr, Bool, true, not, ◌&&◌, ◌||◌, List, [], ◌∷◌, ◌++◌, Option,
  some, arith,
}
use xcom_lua.Prelude.Tests.{ltb, if◌then◌else◌, Bool-cases, Option-cases}
use xcom_lua.Prelude.Lists.{length, take}
use xcom_lua.Prelude.Word.{add32}
use xcom_lua.Ring.{RingOps, RingLaws, try_pop-items}
use xcom_lua.Pool.{allocate}
use xcom_lua.Log.{FileOps, FileJob, AtomicCompletion, LogWriter, is_async, append, atomic_write}
use xcom_lua.Log.Submit.{
  completion_capacity, reserve_completion, release_completion_reservation, enqueue, submit_reserved,
  append_block, submit_atomic_copy, take_completion, file_job,
}
use xcom_lua.Log.Submit.Accepted.{async_count, submit_reserved_whole}

async_count-append :
    (jobs : List FileJob) (job : FileJob)
    → async_count (jobs ++ (job ∷ [])) ≡ async_count jobs + (if is_async job.kind then 1 else 0)
unfolding async_count
async_count-append [] job = omega arith
async_count-append (x ∷ jobs) job = ground (arith, async_count-append jobs job)

-- `n` more jobs are queued, with their reservations.
abbrev pub grown : ℕ → ℕ × ℕ × ℕ → ℕ × ℕ × ℕ
grown n (jobs, answers, reserved) = (jobs + n, answers, reserved + n)

module _ {D P R J C W : Type 0} {job_ring : RingOps FileJob J}
    {completion_ring : RingOps AtomicCompletion C} (job_laws : RingLaws job_ring)
    (completion_laws : RingLaws completion_ring) where
  -- The reservations are those of the queued jobs, of `working` jobs that were taken, and of the
  -- completions that wait.
  pub record Accounted (working : ℕ) (s : LogWriter D P R J C W) : Type 0 where
    pub balance :
        s.pending_completions
        ≡ async_count (job_laws.items s.jobs)
          + working
          + length (completion_laws.items s.completions)
    pub bound : s.pending_completions ≤ completion_capacity

  abbrev pub tally : LogWriter D P R J C W → ℕ × ℕ × ℕ
  tally s = (
    async_count (job_laws.items s.jobs),
    length (completion_laws.items s.completions),
    s.pending_completions,
  )

  pub grown-Accounted :
      (n working : ℕ) (s s' : LogWriter D P R J C W)
      → tally s' ≡ grown n (tally s)
      → s.pending_completions + n ≤ completion_capacity
      → Accounted working s
      → Accounted working s'
  grown-Accounted n working s s' h room acc = record {
    balance = ground (arith, acc.balance);
    bound = ground arith;
  }

  pub kept-Accounted :
      (working : ℕ) (s s' : LogWriter D P R J C W)
      → tally s' ≡ tally s
      → Accounted working s
      → Accounted working s'
  kept-Accounted working s s' h acc = record {
    balance = ground (arith, acc.balance);
    bound = ground (arith, acc.bound);
  }

  module _ (ops : FileOps W) where
    pub submit_reserved-Accounted :
        (job : FileJob) (working : ℕ) (s : LogWriter D P R J C W)
        → is_async job.kind ≡ true
        → Accounted working s
        → Accounted working (submit_reserved ops job_ring job s).1
    submit_reserved-Accounted job working s async acc =
        let s' = (submit_reserved ops job_ring job s).1 in
        elim (submit_reserved_whole ops job_laws job s acc.bound) [
          | inl (ok, sub) ↦
              grown-Accounted 1 working s s'
                (ground (
                  arith,
                  sub.reserved,
                  ap async_count sub.jobs_grew,
                  ap (λ (c : C). length (completion_laws.items c)) sub.completions_kept,
                  async_count-append (job_laws.items s.jobs) job,
                  async,
                ))
                (omega (arith, sub.had_room)) acc
          | inr (full, ref) ↦
              kept-Accounted working s s'
                (ground (
                  arith,
                  ref.pending_kept,
                  ap async_count ref.jobs_kept,
                  ap (λ (c : C). length (completion_laws.items c)) ref.completions_kept,
                ))
                acc
        ]

    -- What enqueue does to the queue of jobs, and to nothing else.
    enqueue-tally :
        (job : FileJob) (s : LogWriter D P R J C W)
        → tally (enqueue ops job_ring job s).1 ≡ (
          async_count (job_laws.items s.jobs)
              + (if (enqueue ops job_ring job s).0 && is_async job.kind then 1 else 0),
          length (completion_laws.items s.completions),
          s.pending_completions,
        )
    unfolding enqueue
    enqueue-tally job s = elim (Bool-cases (not s.running || ops.stopping s.os)) [
      | inl e ↦ ground (arith, e)
      | inr e ↦ elim (Bool-cases (job_ring.try_push job s.jobs).1) [
        | inr f ↦ ground (arith, e, f, ap async_count (job_laws.push_items job s.jobs))
        | inl f ↦ ground (
          arith,
          e,
          f,
          ap async_count (job_laws.push_items job s.jobs),
          async_count-append (job_laws.items s.jobs) job,
        )
      ]
    ]

    pub append_block-tally :
        (leased : Bool) (data_ptr : Option (List ℕ)) (size : ℕ) (s : LogWriter D P R J C W)
        → tally (append_block ops job_ring leased data_ptr size s).1 ≡ tally s
    unfolding append_block
    append_block-tally leased data_ptr size s = elim (Option-cases data_ptr) [
      | inl e ↦ ground (arith, e)
      | inr (bytes, e) ↦ elim (Option-cases (allocate [] s.data_pool)) [
        | inl f ↦ ground (arith, e, f)
        | inr ((block, pool), f) ↦ ground (
          arith,
          e,
          f,
          enqueue-tally
              (record (file_job append) {
                block_id = some (block % 65536);
                size = size;
                bytes = take size bytes;
              })
              (record s { data_pool = pool }),
        )
      ]
    ]

    pub submit_atomic_copy-Accounted :
        (path bytes : List ℕ) (size request_id working : ℕ) (s : LogWriter D P R J C W)
        → Accounted working s
        → Accounted working (submit_atomic_copy ops job_ring path bytes size request_id s).1
    unfolding submit_atomic_copy reserve_completion release_completion_reservation
    submit_atomic_copy-Accounted path bytes size request_id working s acc =
        let s' = (submit_atomic_copy ops job_ring path bytes size request_id s).1 in
        elim (Bool-cases (ltb s.pending_completions completion_capacity)) [
          | inr e ↦ kept-Accounted working s s' (ground (arith, e)) acc
          | inl e ↦ elim (Option-cases (allocate [] s.data_pool)) [
            | inl f ↦ kept-Accounted working s s' (ground (arith, e, f, acc.bound)) acc
            | inr ((block, pool), f) ↦
                let job : FileJob = record (file_job atomic_write) {
                  block_id = some (block % 65536);
                  request_id = request_id;
                  size = size;
                  bytes = take size bytes;
                  path = path;
                } in
                let given : LogWriter D P R J C W = record s {
                  pending_completions = add32 s.pending_completions 1;
                  data_pool = pool;
                } in
                let queue = enqueue-tally job given in
                elim (Bool-cases (enqueue ops job_ring job given).0) [
                  | inl g ↦
                      grown-Accounted 1 working s s' (ground (arith, e, f, g, queue))
                        (ground (arith, e)) acc
                  | inr g ↦ kept-Accounted working s s' (ground (arith, e, f, g, queue)) acc
                ]
          ]
        ]

  pub take_completion-Accounted :
      (working : ℕ) (s : LogWriter D P R J C W)
      → Accounted working s
      → Accounted working (take_completion completion_ring s).1
  unfolding take_completion release_completion_reservation
  take_completion-Accounted working s acc =
      elim (Option-cases (completion_ring.try_pop s.completions)) [
        | inl e ↦ record {
          balance = ground (arith, e, acc.balance);
          bound = ground (arith, e, acc.bound);
        }
        | inr ((x, r), e) ↦
            let popped = try_pop-items completion_laws s.completions x r e in
            let shorter = ap length popped in
            record {
              balance = ground (arith, e, acc.balance, acc.bound, shorter);
              bound = ground (arith, e, acc.balance, acc.bound, shorter);
            }
      ]
