-- ===== src/Log/Process/Once.antt =====
-- Each job is answered once.
use xcom_lua.Prelude.{ℕ, suc, ◌≡◌, inl, inr, Bool, false, List, some, arith}
use xcom_lua.Prelude.Tests.{◌==◌, Bool-cases, Option-cases}
use xcom_lua.Prelude.Word.{ℤ}
use xcom_lua.Ring.{RingOps}
use xcom_lua.Lane.{RxBlockRef, PoolOps}
use xcom_lua.Log.{
  FileOps, Kind, open_log, append, flush_log, close_log, atomic_write, stream_begin, stream_append,
  stream_commit, stream_abort, FileJob, LogWriter,
}
use xcom_lua.Log.Write.{write_all, append_retry, drain_rx}
use xcom_lua.Log.Process.{
  process_open, process_flush, process_close, close_file, process_atomic, finish_atomic,
  process_stream_begin, process_stream_append, process_stream_commit, process_stream_abort,
  process_kind, reset_stream,
}
use xcom_lua.Log.Process.Books.{books, write_all-books, append_retry-books, drain_rx-books}

module _ {D P R J C W : Type 0} (ops : FileOps W) where
  process_open-books :
      (path : List ℕ) (keep : Bool) (s : LogWriter D P R J C W)
      → books (process_open ops path keep s).1 ≡ books s
  unfolding process_open
  process_open-books path keep s = ground arith

  process_flush-books : (s : LogWriter D P R J C W) → books (process_flush ops s).1 ≡ books s
  unfolding process_flush
  process_flush-books s = ground arith

  close_file-books : (s : LogWriter D P R J C W) → books (close_file ops s).1 ≡ books s
  unfolding close_file
  close_file-books s = ground arith

  finish_atomic-books :
      (temporary path : List ℕ) (file : ℕ) (status : ℤ) (s : LogWriter D P R J C W)
      → books (finish_atomic ops temporary path file status s).1 ≡ books s
  unfolding finish_atomic
  finish_atomic-books temporary path file status s = ground arith

  process_stream_begin-books :
      (job : FileJob) (s : LogWriter D P R J C W)
      → books (process_stream_begin ops job s).1 ≡ books s
  unfolding process_stream_begin
  process_stream_begin-books job s = ground arith

  process_stream_commit-books :
      (job : FileJob) (s : LogWriter D P R J C W)
      → books (process_stream_commit ops job s).1 ≡ books s
  unfolding process_stream_commit
  process_stream_commit-books job s = ground arith

  process_stream_abort-books :
      (job : FileJob) (s : LogWriter D P R J C W)
      → books (process_stream_abort ops job s).1 ≡ books s
  unfolding process_stream_abort
  process_stream_abort-books job s = ground arith

  reset_stream-books : (s : LogWriter D P R J C W) → books (reset_stream ops s) ≡ books s
  reset_stream-books s = ground arith

  process_atomic-books :
      (job : FileJob) (s : LogWriter D P R J C W) (to : ℕ) (status : ℤ) (s' : LogWriter D P R J C W)
      → process_atomic ops job s ≡ some (to, status, s')
      → books s' ≡ books s
  unfolding process_atomic
  process_atomic-books job s to status s' h =
      elim (Option-cases (ops.temporary_name job.path job.request_id)) [
        | inl e ↦ ground (arith, e)
        | inr (temporary, e) ↦
            let made = ops.create temporary false s.os in
            let t : LogWriter D P R J C W = record s { os = made.1 } in
            elim (Option-cases made.0) [
              | inl f ↦ ground (arith, e, f)
              | inr (file, f) ↦
                  elim (Option-cases
                    (write_all ops (suc job.size) file job.size job.bytes job.offset t)) [
                      | inl g ↦ ground (arith, e, f, g)
                      | inr (w, g) ↦ ground (
                        arith,
                        e,
                        f,
                        g,
                        write_all-books ops (suc job.size) file job.size job.bytes job.offset t w g,
                        finish_atomic-books temporary job.path file w.status w.state,
                      )
                    ]
            ]
      ]

  process_stream_append-books :
      (job : FileJob) (s : LogWriter D P R J C W) (to : ℕ) (status : ℤ) (s' : LogWriter D P R J C W)
      → process_stream_append ops job s ≡ some (to, status, s')
      → books s' ≡ books s
  unfolding process_stream_append
  process_stream_append-books job s to status s' h = elim (Option-cases s.atomic_stream) [
    | inl e ↦ ground (arith, e)
    | inr (stream, e) ↦ elim (Bool-cases (stream.id == job.stream_id)) [
      | inr f ↦ ground (arith, e, f)
      | inl f ↦
          elim (Option-cases
            (write_all ops (suc job.size) stream.file job.size job.bytes job.offset s)) [
              | inl g ↦ ground (arith, e, f, g)
              | inr (w, g) ↦ ground (
                arith,
                e,
                f,
                g,
                write_all-books ops (suc job.size) stream.file job.size job.bytes job.offset s w g,
                reset_stream-books w.state,
              )
            ]
    ]
  ]

  module _ (pool_ops : PoolOps P) (payload : ℕ → P → List ℕ) (raw_ring : RingOps RxBlockRef R) where
    process_close-books :
        (fuel blocks : ℕ) (s : LogWriter D P R J C W) (status : ℤ) (s' : LogWriter D P R J C W)
        → process_close ops pool_ops payload raw_ring fuel blocks s ≡ some (status, s')
        → books s' ≡ books s
    unfolding process_close
    process_close-books fuel blocks s status s' h =
        let shut : LogWriter D P R J C W = record s { accepting_log = false } in
        elim (Option-cases s.log_file) [
          | inl e ↦ ground (arith, e, close_file-books shut)
          | inr (file, e) ↦
              elim (Option-cases (drain_rx ops pool_ops payload raw_ring blocks fuel shut)) [
                | inl f ↦ ground (arith, e, f)
                | inr (t, f) ↦ ground (
                  arith,
                  e,
                  f,
                  drain_rx-books ops pool_ops payload raw_ring blocks fuel shut t f,
                  close_file-books t,
                )
              ]
        ]

    process_append-books :
        (fuel blocks : ℕ) (job : FileJob) (s : LogWriter D P R J C W) (to : ℕ) (status : ℤ)
        (s' : LogWriter D P R J C W)
        → process_kind ops pool_ops payload raw_ring fuel blocks append job s
          ≡ some (to, status, s')
        → books s' ≡ books s
    unfolding process_kind
    process_append-books fuel blocks job s to status s' h = elim (Option-cases s.log_file) [
      | inl e ↦ ground (arith, e)
      | inr (file, e) ↦
          elim (Option-cases (append_retry ops fuel file job.size job.bytes job.offset false s)) [
            | inl f ↦ ground (arith, e, f)
            | inr ((st, o, t), f) ↦ ground (
              arith,
              e,
              f,
              append_retry-books ops fuel file job.size job.bytes job.offset false s st o t f,
            )
          ]
    ]

    -- The switch changes neither the queues nor the blocks, and answers nobody.
    pub process_kind-books :
        (fuel blocks : ℕ) (kind : Kind) (job : FileJob) (s : LogWriter D P R J C W) (to : ℕ)
        (status : ℤ) (s' : LogWriter D P R J C W)
        → process_kind ops pool_ops payload raw_ring fuel blocks kind job s ≡ some (to, status, s')
        → books s' ≡ books s
    unfolding process_kind
    process_kind-books fuel blocks open_log job s to status s' h =
        ground (arith, process_open-books job.path job.append_mode s)
    process_kind-books fuel blocks append job s to status s' h =
        process_append-books fuel blocks job s to status s' h
    process_kind-books fuel blocks flush_log job s to status s' h =
        ground (arith, process_flush-books s)
    process_kind-books fuel blocks close_log job s to status s' h =
        elim (Option-cases (process_close ops pool_ops payload raw_ring fuel blocks s)) [
          | inl e ↦ ground (arith, e)
          | inr ((st, t), e) ↦ ground (arith, e, process_close-books fuel blocks s st t e)
        ]
    process_kind-books fuel blocks atomic_write job s to status s' h =
        process_atomic-books job s to status s' h
    process_kind-books fuel blocks stream_begin job s to status s' h =
        ground (arith, process_stream_begin-books job s)
    process_kind-books fuel blocks stream_append job s to status s' h =
        process_stream_append-books job s to status s' h
    process_kind-books fuel blocks stream_commit job s to status s' h =
        ground (arith, process_stream_commit-books job s)
    process_kind-books fuel blocks stream_abort job s to status s' h =
        ground (arith, process_stream_abort-books job s)
