-- ===== src/Log/Cancel.antt =====
-- What the writer thread does with its queue when it is told to stop: cancel_pending of
-- xcom_core/src/io/log_writer.cpp.
pub mod Drops
use xcom_lua.Prelude.{ℕ, zero, suc, Option, none, some}
use xcom_lua.Status.{xcom_err_timeout}
use xcom_lua.Ring.{RingOps}
use xcom_lua.Log.{FileJob, AtomicCompletion, LogWriter}
use xcom_lua.Log.Process.{finish}

module _ {D P R J C W : Type 0} (job_ring : RingOps FileJob J)
    (completion_ring : RingOps AtomicCompletion C) where
  -- The fuel is for the turns of the loop, the last of which finds no job.
  unfoldable pub cancel_pending :
      (fuel : ℕ) → LogWriter D P R J C W → Option (LogWriter D P R J C W)
  unfolding finish
  cancel_pending zero s = none
  cancel_pending (suc fuel) s = elim (job_ring.try_pop s.jobs) [
    | none ↦ some s
    | some (job, jobs) ↦
        elim (finish completion_ring job xcom_err_timeout (record s { jobs = jobs })) [
          | none ↦ none
          | some s' ↦ cancel_pending fuel s'
        ]
  ]
