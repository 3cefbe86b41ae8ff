-- ===== src/Writer.antt =====
-- SessionWriter of xcom_core/src/runtime/xcom_core.cpp: the ring of write jobs between the
-- Dispatcher and the write thread, and what that thread does with a job. The blocks of TxBlockPool
-- are a parameter: a type `T` with its `release`. Each call here is one step of its thread.
pub mod Fifo
pub mod Jobs
pub mod Wrap
mod Tests
use xcom_lua.Prelude.{
  ℕ, zero, suc, ◌+◌, ◌%◌, Bool, true, false, not, ◌&&◌, List, [], ◌∷◌, Option, none, some,
}
use xcom_lua.Prelude.Tests.{leb, ◌==◌, if◌then◌else◌}
use xcom_lua.Prelude.Lists.{get_or, set, length}
use xcom_lua.Prelude.Word.{ℤ, ◌==ℤ◌, add32, sub32, to_u32}
use xcom_lua.Port.{is_open}
use xcom_lua.Status.{xcom_ok, xcom_err_not_open}
use xcom_lua.Core.{CoreCtx, Metrics, write_fail, push_error, emit_diag}

pub record Job : Type 0 where
  pub block : ℕ
  pub len : ℕ
  pub gen : ℕ
  pub auto_send : Bool

abbrev pub no_job : Job
no_job = record { block = 0; len = 0; gen = 0; auto_send = false }

abbrev pub max_jobs : ℕ
max_jobs = 256

-- `write` and `read` are the uint32_t counters; an index `& (kMaxJobs - 1U)` is `% 256`.
pub record SessionWriter : Type 0 where
  pub jobs : List Job
  pub write : ℕ
  pub read : ℕ

unfoldable pub try_enqueue : Job → SessionWriter → SessionWriter × Bool
try_enqueue j s =
    if leb max_jobs (sub32 s.write s.read)
    then (s, false)
    else (record s { jobs = set s.jobs (s.write % max_jobs) j; write = add32 s.write 1 }, true)

unfoldable pub try_pop : SessionWriter → Option (Job × SessionWriter)
try_pop s =
    if leb s.write s.read
    then none
    else some (get_or s.jobs (s.read % max_jobs) no_job, record s { read = add32 s.read 1 })

module _ {D : Type 0} where
  -- The write itself, for a job of the live session.
  unfoldable pub write_job :
      Option (CoreCtx D → ℕ → ℕ → CoreCtx D × ℤ) → Job → CoreCtx D → CoreCtx D × ℤ
  write_job owner_write j c =
      if (j.gen == c.generation) && is_open c.port_state
      then elim owner_write [
        | some f ↦ f c j.block j.len
        | none ↦ (
          record c { metrics = record (c.metrics) { tx_bytes = add32 c.tx_bytes j.len } },
          xcom_ok,
        )
      ]
      else (c, xcom_err_not_open)

module _ {D : Type 0} {T : Type 0} (release : ℕ → T → T) where
  -- The body of the loop of release_leftover_jobs.
  unfoldable pub reject_job : Job → CoreCtx D → T → CoreCtx D × T
  reject_job j c tx =
      let c' : CoreCtx D = if j.auto_send then record c { autosend_armed = false } else c in
      (
        record c' { metrics = record (c'.metrics) { tx_rejected = add32 c'.tx_rejected 1 } },
        release j.block tx,
      )

  -- The loop, on fuel: `none` means that the fuel ran out.
  unfoldable pub release_leftover_jobs :
      ℕ → SessionWriter → CoreCtx D → T → Option (SessionWriter × CoreCtx D × T)
  unfolding reject_job
  release_leftover_jobs zero s c tx = none
  release_leftover_jobs (suc fuel) s c tx = elim (try_pop s) [
    | none ↦ some (s, c, tx)
    | some (j, s') ↦ release_leftover_jobs fuel s' (reject_job j c tx).0 (reject_job j c tx).1
  ]

  module _ (owner_write : Option (CoreCtx D → ℕ → ℕ → CoreCtx D × ℤ)) where
    -- What run does with one popped job, before it looks at the stop flag again.
    unfoldable pub run_job : Job → CoreCtx D → T → CoreCtx D × T
    unfolding write_job
    run_job j c tx =
        let cur = c.generation in
        let (c', result) = write_job owner_write j c in
        let c'' : CoreCtx D = if j.auto_send then record c' { autosend_armed = false } else c' in
        let reported : CoreCtx D =
          if not (result ==ℤ xcom_ok) && (j.gen == cur)
          then emit_diag write_fail (to_u32 result) c''.generation 0 0
              (push_error result 0 "serial write failed" c'')
          else c'' in
        (reported, release j.block tx)
