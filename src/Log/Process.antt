-- ===== src/Log/Process.antt =====
-- What the writer thread does with one job: process and finish of xcom_core/src/io/log_writer.cpp.
pub mod Books
pub mod Once
pub mod Answers
pub mod Returns
use xcom_lua.Prelude.{
  ℕ, zero, suc, ◌+◌, ◌-◌, Bool, true, false, not, ◌&&◌, ◌||◌, List, [], ◌∷◌, Option, none, some,
}
use xcom_lua.Prelude.Tests.{ltb, ◌==◌, if◌then◌else◌}
use xcom_lua.Prelude.Word.{ℤ, ◌==ℤ◌}
use xcom_lua.Status.{xcom_ok, xcom_err_param, xcom_err_not_open, xcom_err_busy, xcom_err_io}
use xcom_lua.Core.{CoreCtx, push_error}
use xcom_lua.Ring.{RingOps}
use xcom_lua.Lane.{RxBlockRef, PoolOps}
use xcom_lua.Pool.{release}
use xcom_lua.Log.{
  FileOps, Kind, open_log, append, flush_log, close_log, atomic_write, stream_begin, stream_append,
  stream_commit, stream_abort, FileJob, AtomicCompletion, AtomicStream, LogWriter, is_async,
  is_append,
}
use xcom_lua.Log.Write.{Written, write_all, append_retry, charge_loss, drain_rx}

module _ {D : Type 0} where
  -- The ledger and the error ring, for a job that failed.
  abbrev pub report_failure : FileJob → ℤ → CoreCtx D → CoreCtx D
  report_failure job status c =
      if status ==ℤ xcom_ok
      then c
      else push_error status 2 "dedicated file writer failed" (
          if is_append job.kind && ltb job.offset job.size
          then charge_loss (job.size - job.offset) c
          else c)

module _ {W : Type 0} (ops : FileOps W) where
  -- ~AtomicStream of a stream that was not committed.
  abbrev pub abort_stream : AtomicStream → W → W
  abort_stream stream os = ops.remove stream.temporary (ops.close stream.file os)

  -- AtomicStream::commit, then the destructor of the stream that was taken out.
  unfoldable pub commit_stream : AtomicStream → W → ℤ × W
  commit_stream stream os =
      let (flushed, os') = ops.flush stream.file os in
      let closed = ops.close stream.file os' in
      let (moved, os'') =
        if flushed then ops.move stream.temporary stream.destination closed else (false, closed) in
      if moved then (xcom_ok, os'') else (xcom_err_io, ops.remove stream.temporary os'')

module _ {D P R J C W : Type 0} where
  abbrev pub release_block : Option ℕ → LogWriter D P R J C W → LogWriter D P R J C W
  release_block none s = s
  release_block (some b) s = record s { data_pool = release [] b s.data_pool }

  abbrev pub complete_sync : Option ℕ → ℤ → LogWriter D P R J C W → LogWriter D P R J C W
  complete_sync none status s = s
  complete_sync (some c) status s = record s { done = (c, status) ∷ s.done }

  -- The end of finish, after the completion was published.
  abbrev pub settle_job : FileJob → ℤ → LogWriter D P R J C W → LogWriter D P R J C W
  settle_job job status s =
      complete_sync job.completion status
        (release_block job.block_id (record s { core = report_failure job status s.core }))

module _ {D P R J C W : Type 0} (completion_ring : RingOps AtomicCompletion C) where
  -- publish_atomic_completion; `none` is its failed assertion.
  unfoldable pub publish_atomic_completion :
      (request_id : ℕ) (status : ℤ) → LogWriter D P R J C W → Option (LogWriter D P R J C W)
  publish_atomic_completion request_id status s =
      let (ring, pushed) =
        completion_ring.try_push (record { request_id = request_id; status = status })
          s.completions in
      if pushed then some (record s { completions = ring }) else none

  unfoldable pub finish : FileJob → ℤ → LogWriter D P R J C W → Option (LogWriter D P R J C W)
  unfolding publish_atomic_completion
  finish job status s =
      elim (if is_async job.kind
        then publish_atomic_completion job.request_id status s
        else some s) [ none ↦ none | some s' ↦ some (settle_job job status s') ]

module _ {D P R J C W : Type 0} (ops : FileOps W) where
  -- `atomic_stream.reset()`: dropping a stream that was not committed closes its file and deletes it.
  abbrev pub reset_stream : LogWriter D P R J C W → LogWriter D P R J C W
  reset_stream s = elim s.atomic_stream [
    | none ↦ s
    | some stream ↦ record s { os = abort_stream ops stream s.os; atomic_stream = none }
  ]

  unfoldable pub process_open :
      (path : List ℕ) (append_mode : Bool) → LogWriter D P R J C W → ℤ × LogWriter D P R J C W
  process_open path append_mode s = elim s.log_file [
    | some file ↦ (xcom_err_busy, s)
    | none ↦
        let (handle, os') = ops.create path append_mode s.os in
        elim handle [
          | none ↦ (xcom_err_io, record s { os = os'; accepting_log = false })
          | some file ↦ (
            xcom_ok,
            record s {
              os = if append_mode then ops.seek_end file os' else os';
              log_file = some file;
              accepting_log = true;
            },
          )
        ]
  ]

  unfoldable pub process_flush : LogWriter D P R J C W → ℤ × LogWriter D P R J C W
  process_flush s = elim s.log_file [
    | none ↦ (xcom_err_io, s)
    | some file ↦
        let (flushed, os') = ops.flush file s.os in
        ((if flushed then xcom_ok else xcom_err_io), record s { os = os' })
  ]

  -- The end of Kind::Close, after the raw ring was drained.
  unfoldable pub close_file : LogWriter D P R J C W → ℤ × LogWriter D P R J C W
  close_file s = elim s.log_file [
    | none ↦ (xcom_ok, s)
    | some file ↦
        let (flushed, os') = ops.flush file s.os in
        (
          (if flushed then xcom_ok else xcom_err_io),
          record s { os = ops.close file os'; log_file = none },
        )
  ]

  -- The end of process_atomic: flush, close, and move over the destination.
  unfoldable pub finish_atomic :
      (temporary path : List ℕ) (file : ℕ) (write_status : ℤ)
      → LogWriter D P R J C W
      → ℤ × LogWriter D P R J C W
  finish_atomic temporary path file write_status s =
      let written = write_status ==ℤ xcom_ok in
      let (flushed, os') = if written then ops.flush file s.os else (false, s.os) in
      let closed = ops.close file os' in
      let (moved, os'') = if flushed then ops.move temporary path closed else (false, closed) in
      if moved
      then (xcom_ok, record s { os = os'' })
      else (xcom_err_io, record s { os = ops.remove temporary os'' })

  unfoldable pub process_atomic :
      FileJob → LogWriter D P R J C W → Option (ℕ × ℤ × LogWriter D P R J C W)
  unfolding finish_atomic
  process_atomic job s = elim (ops.temporary_name job.path job.request_id) [
    | none ↦ some (job.offset, xcom_err_param, s)
    | some temporary ↦
        let (handle, os') = ops.create temporary false s.os in
        let s' : LogWriter D P R J C W = record s { os = os' } in
        elim handle [
          | none ↦ some (job.offset, xcom_err_io, s')
          | some file ↦ elim (write_all ops (suc job.size) file job.size job.bytes job.offset s') [
            | none ↦ none
            | some w ↦
                let (status, done) = finish_atomic temporary job.path file w.status w.state in
                some (w.offset, status, done)
          ]
        ]
  ]

  unfoldable pub process_stream_begin : FileJob → LogWriter D P R J C W → ℤ × LogWriter D P R J C W
  process_stream_begin job s = elim s.atomic_stream [
    | some stream ↦ (xcom_err_busy, s)
    | none ↦ elim (ops.temporary_name job.path job.stream_id) [
      | none ↦ (xcom_err_param, s)
      | some temporary ↦
          let (handle, os') = ops.create temporary false s.os in
          elim handle [
            | none ↦ (xcom_err_io, record s { os = os' })
            | some file ↦ (
              xcom_ok,
              record s {
                os = os';
                atomic_stream = some (record {
                  id = job.stream_id;
                  destination = job.path;
                  temporary = temporary;
                  file = file;
                });
              },
            )
          ]
    ]
  ]

  unfoldable pub process_stream_append :
      FileJob → LogWriter D P R J C W → Option (ℕ × ℤ × LogWriter D P R J C W)
  process_stream_append job s = elim s.atomic_stream [
    | none ↦ some (job.offset, xcom_err_not_open, s)
    | some stream ↦
        if not (stream.id == job.stream_id)
        then some (job.offset, xcom_err_not_open, s)
        else elim (write_all ops (suc job.size) stream.file job.size job.bytes job.offset s) [
          | none ↦ none
          | some w ↦
              some (
                w.offset,
                w.status,
                (if w.status ==ℤ xcom_ok then w.state else reset_stream w.state),
              )
        ]
  ]

  unfoldable pub process_stream_commit : FileJob → LogWriter D P R J C W → ℤ × LogWriter D P R J C W
  unfolding commit_stream
  process_stream_commit job s = elim s.atomic_stream [
    | none ↦ (xcom_err_not_open, s)
    | some stream ↦
        let (status, os') = commit_stream ops stream s.os in
        if not (stream.id == job.stream_id)
        then (xcom_err_not_open, s)
        else (status, record s { os = os'; atomic_stream = none })
  ]

  unfoldable pub process_stream_abort : FileJob → LogWriter D P R J C W → ℤ × LogWriter D P R J C W
  process_stream_abort job s = elim s.atomic_stream [
    | none ↦ (xcom_ok, s)
    | some stream ↦
        if not (stream.id == job.stream_id)
        then (xcom_err_not_open, s)
        else (xcom_ok, reset_stream s)
  ]

module _ {D P R J C W : Type 0} (ops : FileOps W) (pool_ops : PoolOps P) (payload : ℕ → P → List ℕ)
    (raw_ring : RingOps RxBlockRef R) where
  -- Kind::Close: no more raw blocks are admitted, and those that are queued are written first.
  unfoldable pub process_close :
      (fuel blocks : ℕ) → LogWriter D P R J C W → Option (ℤ × LogWriter D P R J C W)
  unfolding close_file
  process_close fuel blocks s =
      let shut : LogWriter D P R J C W = record s { accepting_log = false } in
      elim s.log_file [
        | none ↦ some (close_file ops shut)
        | some file ↦ elim (drain_rx ops pool_ops payload raw_ring blocks fuel shut) [
          | none ↦ none
          | some s' ↦ some (close_file ops s')
        ]
      ]

  -- The switch of process: the offset stored in the job, the status, and the state. The fuels are for
  -- the retries of an Append, and for the blocks and the writes of a Close.
  unfoldable pub process_kind :
      (fuel blocks : ℕ)
      → Kind
      → FileJob
      → LogWriter D P R J C W
      → Option (ℕ × ℤ × LogWriter D P R J C W)
  unfolding process_close process_open process_flush process_atomic process_stream_begin
      process_stream_append process_stream_commit process_stream_abort
  process_kind fuel blocks open_log job s =
      let (status, s') = process_open ops job.path job.append_mode s in
      some (job.offset, status, s')
  process_kind fuel blocks append job s = elim s.log_file [
    | none ↦ some (job.offset, xcom_err_not_open, s)
    | some file ↦ elim (append_retry ops fuel file job.size job.bytes job.offset false s) [
      | none ↦ none
      | some (status, offset, s') ↦ some (offset, status, s')
    ]
  ]
  process_kind fuel blocks flush_log job s =
      let (status, s') = process_flush ops s in some (job.offset, status, s')
  process_kind fuel blocks close_log job s = elim (process_close fuel blocks s) [
    | none ↦ none
    | some (status, s') ↦ some (job.offset, status, s')
  ]
  process_kind fuel blocks atomic_write job s = process_atomic ops job s
  process_kind fuel blocks stream_begin job s =
      let (status, s') = process_stream_begin ops job s in some (job.offset, status, s')
  process_kind fuel blocks stream_append job s = process_stream_append ops job s
  process_kind fuel blocks stream_commit job s =
      let (status, s') = process_stream_commit ops job s in some (job.offset, status, s')
  process_kind fuel blocks stream_abort job s =
      let (status, s') = process_stream_abort ops job s in some (job.offset, status, s')

  -- process: the switch, then finish.
  unfoldable pub process :
      RingOps AtomicCompletion C
      → (fuel blocks : ℕ) → FileJob
      → LogWriter D P R J C W
      → Option (LogWriter D P R J C W)
  unfolding process_kind finish
  process completion_ring fuel blocks job s = elim (process_kind fuel blocks job.kind job s) [
    | none ↦ none
    | some (offset, status, s') ↦ finish completion_ring (record job { offset = offset }) status s'
  ]
