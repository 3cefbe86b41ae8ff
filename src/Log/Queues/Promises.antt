-- ===== src/Log/Queues/Promises.antt =====
-- The completion ring has room for every answer.
use xcom_lua.Prelude.{ℕ, ◌≡◌, ap, List, Option, none, some, arith}
use xcom_lua.Prelude.Tests.{if◌then◌else◌}
use xcom_lua.Prelude.Lists.{length, length-append}
use xcom_lua.Prelude.Word.{ℤ}
use xcom_lua.Ring.{RingOps, RingLaws, RingCapacity, try_pop-items}
use xcom_lua.Lane.{RxBlockRef, PoolOps}
use xcom_lua.Log.{FileOps, FileJob, AtomicCompletion, LogWriter, is_async}
use xcom_lua.Log.Process.{finish, process_kind}
use xcom_lua.Log.Process.Books.{Books, process_rx_ref-books}
use xcom_lua.Log.Process.Once.{process_kind-books}
use xcom_lua.Log.Process.Answers.{completion_of, finish-returns, process-Answered}
use xcom_lua.Log.Submit.{completion_capacity}
use xcom_lua.Log.Submit.Accepted.{async_count}
use xcom_lua.Log.Queues.{
  System, Step, appends, submits_atomic, submits_borrowed, begins, continues, commits, aborts,
  takes_completion, takes_job, works, writes_rx, Reach, started, steps,
}
use xcom_lua.Log.Queues.Calls.{
  Submits-Accounted, submit_stream_commit-Submits, submit_stream_abort-Submits,
  stream_append_borrowed-Submits, submit_stream_begin-Submits, submit_atomic_borrowed-Submits,
  submit_atomic-Accounted,
}
use xcom_lua.Log.Queues.Accounts.{
  Accounted, kept-Accounted, append_block-tally, take_completion-Accounted,
}

abbrev pub working_of : Option FileJob → ℕ
working_of none = 0
working_of (some job) = if is_async job.kind then 1 else 0

module _ {D P R J C W : Type 0} (ops : FileOps W) (pool_ops : PoolOps P) (payload : ℕ → P → List ℕ)
    (raw_ring : RingOps RxBlockRef R) {job_ring : RingOps FileJob J}
    {completion_ring : RingOps AtomicCompletion C} (convert : List ℕ → Option (List ℕ))
    (job_laws : RingLaws job_ring) (completion_laws : RingLaws completion_ring) where
  abbrev IsAccounted : System D P R J C W → Type 0
  IsAccounted y = Accounted job_laws completion_laws (working_of y.current) y.writer

  Step-IsAccounted :
      (y z : System D P R J C W)
      → Step ops pool_ops payload raw_ring job_ring completion_ring convert y z
      → IsAccounted y
      → IsAccounted z
  unfolding async_count
  Step-IsAccounted y z (appends leased ptr size _) acc =
      kept-Accounted job_laws completion_laws (working_of y.current) y.writer z.writer
        (append_block-tally job_laws completion_laws ops leased ptr size y.writer) acc
  Step-IsAccounted y z (submits_atomic path ptr size request_id _) acc =
      submit_atomic-Accounted ops convert job_laws completion_laws path ptr size request_id
        (working_of y.current) y.writer acc
  Step-IsAccounted y z (submits_borrowed path ptr size request_id _) acc =
      Submits-Accounted ops convert job_laws completion_laws (working_of y.current) y.writer
        z.writer
        (submit_atomic_borrowed-Submits ops convert job_laws completion_laws path ptr size
          request_id y.writer)
        acc
  Step-IsAccounted y z (begins path stream_id request_id _) acc =
      Submits-Accounted ops convert job_laws completion_laws (working_of y.current) y.writer
        z.writer
        (submit_stream_begin-Submits ops convert job_laws completion_laws path stream_id request_id
          y.writer)
        acc
  Step-IsAccounted y z (continues stream_id ptr size request_id _) acc =
      Submits-Accounted ops convert job_laws completion_laws (working_of y.current) y.writer
        z.writer
        (stream_append_borrowed-Submits ops convert job_laws completion_laws stream_id ptr size
          request_id y.writer)
        acc
  Step-IsAccounted y z (commits stream_id request_id _) acc =
      Submits-Accounted ops convert job_laws completion_laws (working_of y.current) y.writer
        z.writer
        (submit_stream_commit-Submits ops convert job_laws completion_laws stream_id request_id
          y.writer)
        acc
  Step-IsAccounted y z (aborts stream_id request_id _) acc =
      Submits-Accounted ops convert job_laws completion_laws (working_of y.current) y.writer
        z.writer
        (submit_stream_abort-Submits ops convert job_laws completion_laws stream_id request_id
          y.writer)
        acc
  Step-IsAccounted y z (takes_completion _) acc =
      take_completion-Accounted job_laws completion_laws (working_of y.current) y.writer acc
  Step-IsAccounted y z (takes_job _ job jobs idle popped) acc =
      let front = ap async_count (try_pop-items job_laws y.writer.jobs job jobs popped) in
      record {
        balance = ground (arith, acc.balance, front, idle);
        bound = ground (arith, acc.bound);
      }
  Step-IsAccounted y z (works _ job fuel blocks s busy done) acc =
      let (status, a) =
        process-Answered ops pool_ops payload raw_ring completion_laws fuel blocks job y.writer s
          done in
      let answers = ap length a.published in
      record {
        balance = ground (
          arith,
          acc.balance,
          busy,
          answers,
          ap (λ (j : J). async_count (job_laws.items j)) a.jobs_kept,
          a.pending_kept,
          length-append (completion_laws.items y.writer.completions) (completion_of job status),
        );
        bound = ground (arith, acc.bound, a.pending_kept);
      }
  Step-IsAccounted y z (writes_rx _ fuel ref s idle done) acc =
      kept-Accounted job_laws completion_laws (working_of y.current) y.writer s
        (ground (arith, process_rx_ref-books ops pool_ops payload fuel ref y.writer s done)) acc

  reach-IsAccounted :
      (y : System D P R J C W)
      → Reach ops pool_ops payload raw_ring job_ring completion_ring convert job_laws
          completion_laws y
      → IsAccounted y
  unfolding async_count
  reach-IsAccounted y (started s jobs answers none_pending) = record {
    balance = ground (arith, none_pending, ap async_count jobs, ap length answers);
    bound = ground (arith, none_pending);
  }
  reach-IsAccounted y (steps x _ r step) = Step-IsAccounted x y step (reach-IsAccounted x r)

  -- In every state that the calls and the thread can reach, the job that the thread has processed can
  -- be finished: the completion ring, which holds 32, takes its completion, whatever its status.
  pub finish_never_full :
      RingCapacity completion_laws completion_capacity
      → (y : System D P R J C W) (job : FileJob) (fuel blocks to : ℕ) (status : ℤ)
        (s : LogWriter D P R J C W)
      → Reach ops pool_ops payload raw_ring job_ring completion_ring convert job_laws
          completion_laws y
      → y.current ≡ some job
      → process_kind ops pool_ops payload raw_ring fuel blocks job.kind job y.writer
        ≡ some (to, status, s)
      → (s' : LogWriter D P R J C W) × (finish completion_ring (record job { offset = to }) status s
          ≡ some s')
  finish_never_full capacity y job fuel blocks to status s r busy ran =
      let acc = reach-IsAccounted y r in
      let kept =
        process_kind-books ops pool_ops payload raw_ring fuel blocks job.kind job y.writer to status
          s ran in
      finish-returns capacity (record job { offset = to }) status s
        (ground (
          arith,
          busy,
          acc.balance,
          acc.bound,
          ap (λ (b : Books J C). length (completion_laws.items b.0)) kept,
        ))
