-- ===== src/Log/Tests.antt =====
-- The log writer at concrete inputs.
use xcom_lua.Prelude.{
  ℕ, ◌+◌, ◌-◌, ◌%◌, ◌≤◌, ◌≡◌, refl, ◌⊎◌, inl, true, false, List, [], ◌∷◌, ◌++◌, Option, none, some,
  arith,
}
use Prim.{Unit, tt}
use xcom_lua.Prelude.Lists.{slice}
use xcom_lua.Prelude.Word.{ℤ, u32_mod}
use xcom_lua.Status.{xcom_ok, xcom_err_full, xcom_err_not_open}
use xcom_lua.Core.Sample.{core_with}
use xcom_lua.Ring.{RingOps}
use xcom_lua.Lane.{RxBlockRef}
use xcom_lua.Lane.Sample.{pool_ops, ring_ops}
use xcom_lua.Log.{atomic_write, stream_commit, flush_log, FileJob, AtomicCompletion, LogWriter}
use xcom_lua.Log.Write.{append_retry, process_rx_ref}
use xcom_lua.Log.Write.Retry.{Retried, append_retry_lem}
use xcom_lua.Log.Write.Rx.{process_rx_ref_ledger}
use xcom_lua.Log.Process.{finish, process_kind, process}
use xcom_lua.Log.Process.Answers.{Answered}
use xcom_lua.Log.Process.Returns.{process_answers_once}
use xcom_lua.Log.Submit.{file_job, submit_reserved, submit_stream_commit}
use xcom_lua.Log.Submit.Accepted.{Submitted, Refused, submit_reserved_whole}
use xcom_lua.Log.Queues.{System, commits, takes_job, Reach, started, steps}
use xcom_lua.Log.Queues.Promises.{finish_never_full}
use xcom_lua.Log.Cancel.{cancel_pending}
use xcom_lua.Log.Cancel.Drops.{Dropped, cancel_pending_drops}
use xcom_lua.Log.Sample.{
  Disk, file_ops, file_laws, patience, bounded, bounded_laws, bounded_capacity,
}

abbrev Writer : Type 0
Writer = LogWriter Unit (List ℕ) (List RxBlockRef) (List FileJob) (List AtomicCompletion) Disk

-- A writer with an open file on a disk that fails twice.
abbrev writer : Writer
writer = record {
  core = core_with tt;
  rx = record { pool = 7 ∷ []; display_ready = []; raw_ready = [] };
  os = record { text = 9 ∷ []; faults = 2 };
  log_file = some 5;
  atomic_stream = none;
  accepting_log = true;
  data_pool = record { storage = 1 ∷ (4294967295 ∷ (77 ∷ [])); head = 0 };
  running = true;
  jobs = [];
  pending_completions = 0;
  completions = [];
  done = [];
  log_writer_ms = 0;
}

abbrev buffer : List ℕ
buffer = 1 ∷ (2 ∷ (3 ∷ (4 ∷ (5 ∷ []))))

append_retry_lem_example :
    (status : ℤ) × (to : ℕ) × (s' : Writer) × (append_retry file_ops 3 5 5 buffer 0 false writer
      ≡ some (status, to, s'))
    × Retried file_ops file_laws patience 5 5 buffer 0 writer status to s'
append_retry_lem_example =
    append_retry_lem file_ops file_laws patience 3 5 5 buffer 0 false writer (omega arith)
      (omega arith) (omega arith) (omega arith)

abbrev raw_ref : RxBlockRef
raw_ref = record { event = 7; len = 5; gen = 1; ingress_ms = 0 }

abbrev payload : ℕ → List ℕ → List ℕ
payload event pool = buffer

process_rx_ref_ledger_example :
    (to : ℕ) × (s' : Writer) × (process_rx_ref file_ops pool_ops payload 8 raw_ref writer ≡ some s')
    × (to ≤ 5)
    × (s'.os.text ≡ (9 ∷ []) ++ slice 0 to buffer)
    × (s'.core.save_rejected_bytes % u32_mod ≡ (0 + (5 - to)) % u32_mod)
    × ((to ≡ 5) ⊎ (false ≡ true))
    × (s'.rx ≡ record (writer.rx) { pool = pool_ops.gc 7 (7 ∷ []) })
process_rx_ref_ledger_example =
    process_rx_ref_ledger file_ops file_laws patience pool_ops payload 8 5 raw_ref writer refl
      (omega arith) (omega arith) (omega arith)

-- A job with a block and a completion, and one with a caller that waits.
abbrev atomic_job : FileJob
atomic_job = record (file_job atomic_write) {
  block_id = some 2;
  request_id = 12;
  size = 5;
  bytes = buffer;
  path = 65 ∷ [];
}

abbrev flush_job : FileJob
flush_job = record (file_job flush_log) { completion = some 3 }

abbrev job_ring : RingOps FileJob (List FileJob)
job_ring = bounded FileJob 16

abbrev completion_ring : RingOps AtomicCompletion (List AtomicCompletion)
completion_ring = bounded AtomicCompletion 32

process-flush_job :
    process file_ops pool_ops payload ring_ops completion_ring 3 1 flush_job writer
    ≡ some (record writer { done = (3, xcom_ok) ∷ [] })
unfolding process
process-flush_job = refl

process_answers_once_example :
    (to : ℕ) × (status : ℤ) × (t : Writer) × (s' : Writer) × (process_kind file_ops pool_ops payload
        ring_ops 3 1 flush_log flush_job writer
      ≡ some (to, status, t))
    × (process file_ops pool_ops payload ring_ops completion_ring 3 1 flush_job writer ≡ some s')
    × Answered (bounded_laws {X = AtomicCompletion} 32) flush_job status writer s'
process_answers_once_example =
    process_answers_once file_ops file_laws patience pool_ops payload ring_ops flush_job
      (omega arith) (omega arith) (omega arith) (bounded_capacity 32) 3 1 writer (omega arith)
      (omega arith) (inl (λ e. ground arith)) (omega arith)

abbrev commit_job : FileJob
commit_job = record (file_job stream_commit) { stream_id = 4; request_id = 13 }

submit_reserved_whole_example :
    let (status, s') = submit_reserved file_ops job_ring commit_job writer in
    ((status ≡ xcom_ok) × Submitted file_ops (bounded_laws {X = FileJob} 16) commit_job writer s')
    ⊎ ((status ≡ xcom_err_full) × Refused file_ops (bounded_laws {X = FileJob} 16) writer s')
submit_reserved_whole_example =
    submit_reserved_whole file_ops (bounded_laws 16) commit_job writer (omega arith)

abbrev asked : Writer
asked = record writer { jobs = commit_job ∷ []; pending_completions = 1 }

abbrev taken : System Unit (List ℕ) (List RxBlockRef) (List FileJob) (List AtomicCompletion) Disk
taken = record { writer = record asked { jobs = [] }; current = some commit_job }

abbrev convert : List ℕ → Option (List ℕ)
convert bytes = some bytes

taken-Reach :
    Reach file_ops pool_ops payload ring_ops job_ring completion_ring convert
      (bounded_laws 16)
      (bounded_laws 32)
      taken
unfolding submit_stream_commit
taken-Reach =
    steps (record { writer = asked; current = none }) taken
      (steps (record { writer = writer; current = none })
        (record { writer = asked; current = none }) (started writer refl refl refl)
        (commits 4 13 (record { writer = writer; current = none })))
      (takes_job (record { writer = asked; current = none }) commit_job [] refl refl)

commit_not_open :
    process_kind file_ops pool_ops payload ring_ops 3 1 stream_commit commit_job taken.writer
    ≡ some (0, xcom_err_not_open, taken.writer)
unfolding process_kind
commit_not_open = refl

finish_never_full_example :
    (s' : Writer) × (finish completion_ring commit_job xcom_err_not_open taken.writer ≡ some s')
finish_never_full_example =
    finish_never_full file_ops pool_ops payload ring_ops convert (bounded_laws 16) (bounded_laws 32)
      (bounded_capacity 32) taken commit_job 3 1 0 xcom_err_not_open taken.writer taken-Reach refl
      commit_not_open

abbrev full_queue : Writer
full_queue = record writer { jobs = atomic_job ∷ (flush_job ∷ []); pending_completions = 1 }

cancel_pending_drops_example :
    (s' : Writer) × (cancel_pending job_ring completion_ring 3 full_queue ≡ some s')
    × Dropped (bounded_laws 16) (bounded_laws 32) (atomic_job ∷ (flush_job ∷ [])) full_queue s'
cancel_pending_drops_example =
    cancel_pending_drops (bounded_laws 16) (bounded_laws 32) (bounded_capacity 32)
      (atomic_job ∷ (flush_job ∷ [])) full_queue refl (omega arith)
