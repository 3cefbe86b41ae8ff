-- ===== src/Log/Queues.antt =====
-- The queues of the log writer between its callers and its thread, as the two take turns: the calls
-- of Submit, and the jobs that the loop of LogWriter::start takes and processes, of
-- xcom_core/src/io/log_writer.cpp.
pub mod Accounts
pub mod Calls
pub mod Promises
use xcom_lua.Prelude.{ℕ, ◌≡◌, Bool, true, false, List, [], Option, none, some}
use xcom_lua.Prelude.Word.{ℤ}
use xcom_lua.Ring.{RingOps, RingLaws}
use xcom_lua.Lane.{RxBlockRef, PoolOps}
use xcom_lua.Log.{FileOps, FileJob, AtomicCompletion, LogWriter}
use xcom_lua.Log.Write.{process_rx_ref}
use xcom_lua.Log.Process.{process}
use xcom_lua.Log.Submit.{
  append_block, submit_atomic, submit_atomic_borrowed, submit_stream_begin, stream_append_borrowed,
  submit_stream_commit, submit_stream_abort, take_completion,
}

-- `current` is the job that the thread has taken and not finished.
pub record System (D P R J C W : Type 0) : Type 0 where
  pub writer : LogWriter D P R J C W
  pub current : Option FileJob

module _ {D P R J C W : Type 0} (ops : FileOps W) (pool_ops : PoolOps P) (payload : ℕ → P → List ℕ)
    (raw_ring : RingOps RxBlockRef R) (job_ring : RingOps FileJob J)
    (completion_ring : RingOps AtomicCompletion C) (convert : List ℕ → Option (List ℕ)) where
  abbrev pub called : ℤ × LogWriter D P R J C W → System D P R J C W → System D P R J C W
  called result y = record y { writer = result.1 }

  pub data Step : System D P R J C W → System D P R J C W → Type 0 where
    appends :
        (leased : Bool) (data_ptr : Option (List ℕ)) (size : ℕ) (y : System D P R J C W)
        → Step y (called (append_block ops job_ring leased data_ptr size y.writer) y)
    submits_atomic :
        (path data_ptr : Option (List ℕ)) (size request_id : ℕ) (y : System D P R J C W)
        → Step y
            (called (submit_atomic ops job_ring convert path data_ptr size request_id y.writer) y)
    submits_borrowed :
        (path data_ptr : Option (List ℕ)) (size request_id : ℕ) (y : System D P R J C W)
        → Step y (
            called
              (submit_atomic_borrowed ops job_ring convert path data_ptr size request_id y.writer)
              y)
    begins :
        (path : Option (List ℕ)) (stream_id request_id : ℕ) (y : System D P R J C W)
        → Step y
            (called (submit_stream_begin ops job_ring convert path stream_id request_id y.writer) y)
    continues :
        (stream_id : ℕ) (data_ptr : Option (List ℕ)) (size request_id : ℕ) (y : System D P R J C W)
        → Step y (
            called
              (stream_append_borrowed ops job_ring stream_id data_ptr size request_id y.writer)
              y)
    commits :
        (stream_id request_id : ℕ) (y : System D P R J C W)
        → Step y (called (submit_stream_commit ops job_ring stream_id request_id y.writer) y)
    aborts :
        (stream_id request_id : ℕ) (y : System D P R J C W)
        → Step y (called (submit_stream_abort ops job_ring stream_id request_id y.writer) y)
    takes_completion :
        (y : System D P R J C W)
        → Step y (record y { writer = (take_completion completion_ring y.writer).1 })
    takes_job :
        (y : System D P R J C W) (job : FileJob) (jobs : J)
        → y.current ≡ none
        → job_ring.try_pop y.writer.jobs ≡ some (job, jobs)
        → Step y (record { writer = record (y.writer) { jobs = jobs }; current = some job })
    works :
        (y : System D P R J C W) (job : FileJob) (fuel blocks : ℕ) (s : LogWriter D P R J C W)
        → y.current ≡ some job
        → process ops pool_ops payload raw_ring completion_ring fuel blocks job y.writer ≡ some s
        → Step y (record { writer = s; current = none })
    writes_rx :
        (y : System D P R J C W) (fuel : ℕ) (ref : RxBlockRef) (s : LogWriter D P R J C W)
        → y.current ≡ none
        → process_rx_ref ops pool_ops payload fuel ref y.writer ≡ some s
        → Step y (record y { writer = s })

  module _ (job_laws : RingLaws job_ring) (completion_laws : RingLaws completion_ring) where
    -- The states that follow one whose queues are empty.
    pub data Reach : System D P R J C W → Type 0 where
      started :
          (s : LogWriter D P R J C W)
          → job_laws.items s.jobs ≡ []
          → completion_laws.items s.completions ≡ []
          → s.pending_completions ≡ 0
          → Reach (record { writer = s; current = none })
      steps : (y z : System D P R J C W) → Reach y → Step y z → Reach z
