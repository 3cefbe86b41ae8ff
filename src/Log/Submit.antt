-- ===== src/Log/Submit.antt =====
-- What the callers of the log writer do: the submissions that return at once, and take_completion, of
-- xcom_core/src/io/log_writer.cpp. The writer was started, so `impl_` is not null; a pointer that is
-- null is `none`. A string is its bytes
-- without the zero at the end. MultiByteToWideChar is a parameter.
pub mod Accepted
use xcom_lua.Prelude.{
  ℕ, suc, ◌+◌, ◌%◌, Bool, true, false, not, ◌&&◌, ◌||◌, List, [], ◌∷◌, Option, none, some,
}
use xcom_lua.Prelude.Tests.{ltb, leb, ◌==◌, if◌then◌else◌}
use xcom_lua.Prelude.Lists.{take, length}
use xcom_lua.Prelude.Word.{ℤ, add32, sub32}
use xcom_lua.Status.{xcom_ok, xcom_err_param, xcom_err_not_open, xcom_err_full}
use xcom_lua.Ring.{RingOps}
use xcom_lua.Pool.{allocate, release}
use xcom_lua.Log.{
  FileOps, Kind, append, atomic_write, stream_begin, stream_append, stream_commit, stream_abort,
  FileJob, AtomicCompletion, LogWriter,
}

-- kFileBlockBytes and kCompletionCapacity.
abbrev pub file_block_bytes : ℕ
file_block_bytes = 65536

abbrev pub completion_capacity : ℕ
completion_capacity = 32

-- The size of the array for a path.
abbrev pub path_capacity : ℕ
path_capacity = 520

-- `convert` is MultiByteToWideChar; its result counts the zero at the end.
unfoldable pub utf8_to_wide :
    (convert : List ℕ → Option (List ℕ)) (capacity : ℕ) → Option (List ℕ) → Option (List ℕ)
utf8_to_wide convert capacity none = none
utf8_to_wide convert capacity (some []) = none
utf8_to_wide convert capacity (some (c ∷ cs)) = elim (convert (c ∷ cs)) [
  | none ↦ none
  | some wide ↦
      if leb (length wide + 1) 1 || ltb capacity (length wide + 1) then none else some wide
]

-- FileJob{kind}
abbrev pub file_job : Kind → FileJob
file_job kind = record {
  kind = kind;
  block_id = none;
  size = 0;
  offset = 0;
  request_id = 0;
  stream_id = 0;
  bytes = [];
  append_mode = false;
  completion = none;
  path = [];
}

module _ {D P R J C W : Type 0} where
  -- The loop ends at the first CAS that is not disturbed.
  unfoldable pub reserve_completion : LogWriter D P R J C W → Bool × LogWriter D P R J C W
  reserve_completion s =
      if ltb s.pending_completions completion_capacity
      then (true, record s { pending_completions = add32 s.pending_completions 1 })
      else (false, s)

  unfoldable pub release_completion_reservation : LogWriter D P R J C W → LogWriter D P R J C W
  release_completion_reservation s = record s {
    pending_completions = sub32 s.pending_completions 1;
  }

module _ {D P R J C W : Type 0} (ops : FileOps W) (job_ring : RingOps FileJob J) where
  unfoldable pub enqueue : FileJob → LogWriter D P R J C W → Bool × LogWriter D P R J C W
  enqueue job s =
      let (ring, pushed) = job_ring.try_push job s.jobs in
      if not s.running || ops.stopping s.os then (false, s) else (pushed, record s { jobs = ring })

  -- LogWriter::append, where `leased` is what acquire_append_lease returned.
  unfoldable pub append_block :
      (leased : Bool)
      → Option (List ℕ)
      → (size : ℕ) → LogWriter D P R J C W
      → ℤ × LogWriter D P R J C W
  unfolding enqueue
  append_block leased data_ptr size s =
      if ltb file_block_bytes size then (xcom_err_full, s) else elim data_ptr [
        | none ↦ (xcom_err_param, s)
        | some bytes ↦
            if not leased then (xcom_err_not_open, s) else elim (allocate [] s.data_pool) [
              | none ↦ (xcom_err_full, s)
              | some (block, pool) ↦
                  let job : FileJob = record (file_job append) {
                    block_id = some (block % 65536);
                    size = size;
                    bytes = take size bytes;
                  } in
                  let (queued, s') = enqueue job (record s { data_pool = pool }) in
                  if queued
                  then (xcom_ok, s')
                  else (xcom_err_full, record s' { data_pool = release [] block s'.data_pool })
            ]
      ]

  -- The end of the submissions that own no block: reserve a completion, queue the job, or give the
  -- reservation back.
  unfoldable pub submit_reserved : FileJob → LogWriter D P R J C W → ℤ × LogWriter D P R J C W
  unfolding reserve_completion enqueue release_completion_reservation
  submit_reserved job s =
      let (reserved, s') = reserve_completion s in
      let (queued, s'') = enqueue job s' in
      if not reserved
      then (xcom_err_full, s)
      else if queued
      then (xcom_ok, s'')
      else (xcom_err_full, release_completion_reservation s'')

  unfoldable pub stream_append_borrowed :
      (stream_id : ℕ)
      → Option (List ℕ)
      → (size request_id : ℕ) → LogWriter D P R J C W
      → ℤ × LogWriter D P R J C W
  unfolding submit_reserved
  stream_append_borrowed stream_id data_ptr size request_id s =
      let job : List ℕ → FileJob = λ bytes. record (file_job stream_append) {
        stream_id = stream_id;
        request_id = request_id;
        size = size;
        bytes = take size bytes;
      } in
      if stream_id == 0 then (xcom_err_param, s) else elim data_ptr [
        | none ↦ if size == 0 then submit_reserved (job []) s else (xcom_err_param, s)
        | some bytes ↦ submit_reserved (job bytes) s
      ]

  -- LogWriter::stream_commit
  unfoldable pub submit_stream_commit :
      (stream_id request_id : ℕ) → LogWriter D P R J C W → ℤ × LogWriter D P R J C W
  unfolding submit_reserved
  submit_stream_commit stream_id request_id s =
      if stream_id == 0
      then (xcom_err_param, s)
      else submit_reserved
          (record (file_job stream_commit) { stream_id = stream_id; request_id = request_id }) s

  -- LogWriter::stream_abort
  unfoldable pub submit_stream_abort :
      (stream_id request_id : ℕ) → LogWriter D P R J C W → ℤ × LogWriter D P R J C W
  unfolding submit_reserved
  submit_stream_abort stream_id request_id s =
      if stream_id == 0
      then (xcom_err_param, s)
      else submit_reserved
          (record (file_job stream_abort) { stream_id = stream_id; request_id = request_id }) s

  -- The end of submit_atomic, after its arguments were checked.
  unfoldable pub submit_atomic_copy :
      (path bytes : List ℕ) (size request_id : ℕ)
      → LogWriter D P R J C W
      → ℤ × LogWriter D P R J C W
  unfolding reserve_completion enqueue release_completion_reservation
  submit_atomic_copy path bytes size request_id s =
      let (reserved, s') = reserve_completion s in
      if not reserved then (xcom_err_full, s) else elim (allocate [] s'.data_pool) [
        | none ↦ (xcom_err_full, release_completion_reservation s')
        | some (block, pool) ↦
            let job : FileJob = record (file_job atomic_write) {
              block_id = some (block % 65536);
              request_id = request_id;
              size = size;
              bytes = take size bytes;
              path = path;
            } in
            let (queued, s'') = enqueue job (record s' { data_pool = pool }) in
            if queued then (xcom_ok, s'') else (
              xcom_err_full,
              release_completion_reservation
                  (record s'' { data_pool = release [] block s''.data_pool }),
            )
      ]

  module _ (convert : List ℕ → Option (List ℕ)) where
    -- LogWriter::stream_begin
    unfoldable pub submit_stream_begin :
        (utf8_path : Option (List ℕ)) (stream_id request_id : ℕ)
        → LogWriter D P R J C W
        → ℤ × LogWriter D P R J C W
    unfolding utf8_to_wide submit_reserved
    submit_stream_begin utf8_path stream_id request_id s =
        if stream_id == 0
        then (xcom_err_param, s)
        else elim (utf8_to_wide convert path_capacity utf8_path) [
          | none ↦ (xcom_err_param, s)
          | some path ↦
              submit_reserved
                (record (file_job stream_begin) {
                  stream_id = stream_id;
                  request_id = request_id;
                  path = path;
                })
                s
        ]

    unfoldable pub submit_atomic_borrowed :
        (utf8_path data_ptr : Option (List ℕ)) (size request_id : ℕ)
        → LogWriter D P R J C W
        → ℤ × LogWriter D P R J C W
    unfolding utf8_to_wide submit_reserved
    submit_atomic_borrowed utf8_path data_ptr size request_id s =
        let job : List ℕ → List ℕ → FileJob = λ bytes path. record (file_job atomic_write) {
          request_id = request_id;
          size = size;
          bytes = take size bytes;
          path = path;
        } in
        let submit : List ℕ → ℤ × LogWriter D P R J C W = λ bytes.
          elim (utf8_to_wide convert path_capacity utf8_path) [
            | none ↦ (xcom_err_param, s)
            | some path ↦ submit_reserved (job bytes path) s
          ] in
        elim data_ptr [
          | none ↦ if size == 0 then submit [] else (xcom_err_param, s)
          | some bytes ↦ submit bytes
        ]

    unfoldable pub submit_atomic :
        (utf8_path data_ptr : Option (List ℕ)) (size request_id : ℕ)
        → LogWriter D P R J C W
        → ℤ × LogWriter D P R J C W
    unfolding utf8_to_wide submit_atomic_copy
    submit_atomic utf8_path data_ptr size request_id s =
        if ltb file_block_bytes size then (xcom_err_full, s) else elim data_ptr [
          | none ↦ (xcom_err_param, s)
          | some bytes ↦ elim (utf8_to_wide convert path_capacity utf8_path) [
            | none ↦ (xcom_err_param, s)
            | some path ↦ submit_atomic_copy path bytes size request_id s
          ]
        ]

module _ {D P R J C W : Type 0} (completion_ring : RingOps AtomicCompletion C) where
  -- The request and its status; both are 0 if there is no completion.
  unfoldable pub take_completion : LogWriter D P R J C W → (ℕ × ℤ) × LogWriter D P R J C W
  unfolding release_completion_reservation
  take_completion s = elim (completion_ring.try_pop s.completions) [
    | none ↦ ((0, xcom_ok), s)
    | some (completion, ring) ↦ (
      (completion.request_id, completion.status),
      release_completion_reservation (record s { completions = ring }),
    )
  ]
