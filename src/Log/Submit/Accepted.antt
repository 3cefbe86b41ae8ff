-- ===== src/Log/Submit/Accepted.antt =====
-- A submission is accepted whole or leaves the queue, the reservations and the free blocks alone.
use xcom_lua.Prelude.{ℕ, ◌+◌, ◌≤◌, ◌<◌, ◌≡◌, ◌⊎◌, inl, inr, not, ◌||◌, List, [], ◌∷◌, ◌++◌, arith}
use xcom_lua.Prelude.Tests.{ltb, if◌then◌else◌, Bool-cases}
use xcom_lua.Status.{xcom_ok, xcom_err_full}
use xcom_lua.Ring.{RingOps, RingLaws}
use xcom_lua.Log.{FileOps, FileJob, LogWriter, is_async}
use xcom_lua.Log.Submit.{
  completion_capacity, reserve_completion, release_completion_reservation, enqueue, submit_reserved,
}

-- How many of the jobs will be answered by a completion.
unfoldable pub async_count : List FileJob → ℕ
async_count [] = 0
async_count (job ∷ jobs) = (if is_async job.kind then 1 else 0) + async_count jobs

module _ {D P R J C W : Type 0} (ops : FileOps W) {job_ring : RingOps FileJob J}
    (laws : RingLaws job_ring) where
  -- From `s` to `s'` the job joined the queue, with a reservation.
  pub record Submitted (job : FileJob) (s s' : LogWriter D P R J C W) : Type 0 where
    pub jobs_grew : laws.items s'.jobs ≡ laws.items s.jobs ++ (job ∷ [])
    pub reserved : s'.pending_completions ≡ s.pending_completions + 1
    pub had_room : s.pending_completions < completion_capacity
    pub completions_kept : s'.completions ≡ s.completions
    pub pool_kept : s'.data_pool ≡ s.data_pool

  pub record Refused (s s' : LogWriter D P R J C W) : Type 0 where
    pub jobs_kept : laws.items s'.jobs ≡ laws.items s.jobs
    pub pending_kept : s'.pending_completions ≡ s.pending_completions
    pub completions_kept : s'.completions ≡ s.completions
    pub pool_kept : s'.data_pool ≡ s.data_pool

  -- With at most 32 reservations before, the job is queued last with one reservation more, and the
  -- result is OK, or the queue and the reservations stay as they were, and the result is FULL. The
  -- completions and the blocks stay as they were either way.
  pub submit_reserved_whole :
      (job : FileJob) (s : LogWriter D P R J C W)
      → s.pending_completions ≤ completion_capacity
      → let (status, s') = submit_reserved ops job_ring job s in
        ((status ≡ xcom_ok) × Submitted job s s') ⊎ ((status ≡ xcom_err_full) × Refused s s')
  unfolding submit_reserved reserve_completion enqueue release_completion_reservation
  submit_reserved_whole job s bound =
      let pushed = laws.push_items job s.jobs in
      elim (Bool-cases (ltb s.pending_completions completion_capacity)) [
        | inr e ↦ inr (
          ground (arith, e),
          record {
            jobs_kept = ground (arith, e);
            pending_kept = ground (arith, e);
            completions_kept = ground (arith, e);
            pool_kept = ground (arith, e);
          },
        )
        | inl e ↦ elim (Bool-cases (not s.running || ops.stopping s.os)) [
          | inl f ↦ inr (
            ground (arith, e, f),
            record {
              jobs_kept = ground (arith, e, f);
              pending_kept = ground (arith, e, f);
              completions_kept = ground (arith, e, f);
              pool_kept = ground (arith, e, f);
            },
          )
          | inr f ↦ elim (Bool-cases (job_ring.try_push job s.jobs).1) [
            | inr g ↦ inr (
              ground (arith, e, f, g, pushed),
              record {
                jobs_kept = ground (arith, e, f, g, pushed);
                pending_kept = ground (arith, e, f, g, pushed);
                completions_kept = ground (arith, e, f, g, pushed);
                pool_kept = ground (arith, e, f, g, pushed);
              },
            )
            | inl g ↦ inl (
              ground (arith, e, f, g),
              record {
                jobs_grew = ground (arith, e, f, g, pushed);
                reserved = ground (arith, e, f, g);
                had_room = ground (arith, e);
                completions_kept = ground (arith, e, f, g);
                pool_kept = ground (arith, e, f, g);
              },
            )
          ]
        ]
      ]
