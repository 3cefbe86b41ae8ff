-- ===== src/Log/Write.antt =====
-- The loops that write: write_all, the retry loop of an Append job, and process_rx_ref, of
-- xcom_core/src/io/log_writer.cpp. On fuel; `none` means that it ran out.
pub mod Contents
pub mod All
pub mod Retry
pub mod RxLoop
pub mod Rx
use xcom_lua.Prelude.{
  ℕ, zero, suc, ◌+◌, ◌-◌, ◌%◌, Bool, true, false, not, ◌&&◌, List, Option, none, some,
}
use xcom_lua.Prelude.Tests.{ltb, leb, ◌==◌, if◌then◌else◌}
use xcom_lua.Prelude.Lists.{take, drop}
use xcom_lua.Prelude.Word.{ℤ, pos, ◌==ℤ◌, add32}
use xcom_lua.Status.{xcom_ok, xcom_err_io, xcom_err_not_open}
use xcom_lua.Core.{CoreCtx, Metrics, push_error}
use xcom_lua.Ring.{RingOps}
use xcom_lua.Lane.{RxBlockRef, PoolOps, Lane}
use xcom_lua.Log.{FileOps, LogWriter, beat}

-- What write_all returns, with what it stores in the job and in `*win32_error`.
pub record Written (S : Type 0) : Type 0 where
  pub status : ℤ
  pub win32_error : ℤ
  pub offset : ℕ
  pub state : S

-- ERROR_WRITE_FAULT of Windows.
abbrev pub error_write_fault : ℤ
error_write_fault = pos 29

-- The bytes from `offset` to `size`.
abbrev pub pending : (size offset : ℕ) → List ℕ → List ℕ
pending size offset bytes = take (size - offset) (drop offset bytes)

module _ {D : Type 0} where
  -- The error ring's line at the first failure of a run.
  abbrev pub report_stall : (stall_reported : Bool) (error : ℤ) → CoreCtx D → CoreCtx D
  report_stall stall_reported error c =
      if stall_reported
      then c
      else push_error error 2 "storage stalled: log write retrying (disk slow or device gone)" c

  abbrev pub report_recovery : (stall_reported : Bool) → CoreCtx D → CoreCtx D
  report_recovery stall_reported c =
      if stall_reported then push_error xcom_ok 2 "storage recovered: log write resumed" c else c

  -- Bytes charged to the loss ledger, with a line in the error ring.
  abbrev pub charge_loss : (n : ℕ) → CoreCtx D → CoreCtx D
  charge_loss n c = record c {
    metrics = record (c.metrics) { save_rejected_bytes = add32 c.save_rejected_bytes n };
  }

module _ {D P R J C W : Type 0} (pool_ops : PoolOps P) where
  -- `core->rx.release(ref.event)`
  abbrev pub release_rx : RxBlockRef → LogWriter D P R J C W → LogWriter D P R J C W
  release_rx ref s = record s { rx = record (s.rx) { pool = pool_ops.gc ref.event s.rx.pool } }

module _ {D P R J C W : Type 0} (ops : FileOps W) where
  unfoldable pub write_all :
      ℕ
      → (file size : ℕ) (bytes : List ℕ) (offset : ℕ) → LogWriter D P R J C W
      → Option (Written (LogWriter D P R J C W))
  write_all zero file size bytes offset s = none
  write_all (suc fuel) file size bytes offset s =
      let (written, os') = ops.write file (pending size offset bytes) s.os in
      let s' : LogWriter D P R J C W = record (beat ops s) { os = os' } in
      elim (leb size offset) [
        | true ↦
            some (record { status = xcom_ok; win32_error = xcom_ok; offset = offset; state = s })
        | false ↦ elim written [
          | none ↦ some (record {
            status = xcom_err_io;
            win32_error = ops.last_error os';
            offset = offset;
            state = s';
          })
          | some zero ↦ some (record {
            status = xcom_err_io;
            win32_error = error_write_fault;
            offset = offset;
            state = s';
          })
          | some (suc n) ↦ write_all fuel file size bytes (add32 offset (suc n)) s'
        ]
      ]

  -- The do-while loop of Kind::Append: the status, the offset reached, and the state.
  unfoldable pub append_retry :
      ℕ
      → (file size : ℕ) (bytes : List ℕ) (offset : ℕ) (stall_reported : Bool)
      → LogWriter D P R J C W
      → Option (ℤ × ℕ × LogWriter D P R J C W)
  append_retry zero file size bytes offset stall_reported s = none
  append_retry (suc fuel) file size bytes offset stall_reported s =
      elim (write_all (suc size) file size bytes offset (beat ops s)) [
        | none ↦ none
        | some w ↦
            let failed = not (w.status ==ℤ xcom_ok) in
            let os' = if ops.stopping w.state.os then w.state.os else ops.sleep w.state.os in
            let s' : LogWriter D P R J C W = record (w.state) {
              core = report_stall stall_reported w.win32_error w.state.core;
              os = os';
            } in
            let s'' : LogWriter D P R J C W = record (w.state) {
              core = report_recovery stall_reported w.state.core;
            } in
            elim failed [
              | false ↦ some (w.status, w.offset, s'')
              | true ↦ elim (ops.stopping os') [
                | true ↦ some (w.status, w.offset, s')
                | false ↦ append_retry fuel file size bytes w.offset true s'
              ]
            ]
      ]

  -- The loop of process_rx_ref: the offset reached.
  unfoldable pub write_rx :
      ℕ
      → (file len : ℕ) (bytes : List ℕ) (offset : ℕ) → LogWriter D P R J C W
      → Option (ℕ × LogWriter D P R J C W)
  write_rx zero file len bytes offset s = none
  write_rx (suc fuel) file len bytes offset s =
      let (written, os') = ops.write file (pending len offset bytes) s.os in
      let s' : LogWriter D P R J C W = record (beat ops s) { os = os' } in
      let slept : LogWriter D P R J C W = record s' { os = ops.sleep os' } in
      let failed = elim (ops.stopping os') as (λ _. Option (ℕ × LogWriter D P R J C W)) [
        | true ↦ some (offset, s')
        | false ↦ write_rx fuel file len bytes offset slept
      ] in
      elim (ltb offset len && not (ops.stopping s.os)) [
        | false ↦ some (offset, s)
        | true ↦ elim written [
          | none ↦ failed
          | some zero ↦ failed
          | some (suc n) ↦ write_rx fuel file len bytes (add32 offset (suc n)) s'
        ]
      ]

  module _ (pool_ops : PoolOps P) (payload : ℕ → P → List ℕ) where
    -- `payload` is RxBlockLane::payload: the bytes of a block.
    unfoldable pub process_rx_ref :
        ℕ → RxBlockRef → LogWriter D P R J C W → Option (LogWriter D P R J C W)
    unfolding write_rx
    process_rx_ref fuel ref s = elim (ref.len == 0) [
      | true ↦ some (release_rx pool_ops ref s)
      | false ↦ elim s.log_file [
        | none ↦ some (
            release_rx pool_ops ref (record s {
              core =
                  push_error xcom_err_not_open 2 "raw RX with no open file (counted as loss)"
                    (charge_loss ref.len s.core);
            }))
        | some file ↦ elim (write_rx fuel file ref.len (payload ref.event s.rx.pool) 0 s) [
          | none ↦ none
          | some (offset, s') ↦ some (
              release_rx pool_ops ref (
                if ltb offset ref.len
                then record s' {
                  core =
                      push_error xcom_err_io 2 "raw RX log tail unwritten at stop (counted as loss)"
                        (charge_loss (ref.len - offset) s'.core);
                }
                else s'))
        ]
      ]
    ]

    module _ (ring : RingOps RxBlockRef R) where
      -- The loop of flush_rx_before_close and of cancel_pending_rx.
      unfoldable pub drain_rx :
          ℕ → (write_fuel : ℕ) → LogWriter D P R J C W → Option (LogWriter D P R J C W)
      drain_rx zero write_fuel s = none
      drain_rx (suc fuel) write_fuel s = elim (ring.try_pop s.rx.raw_ready) [
        | none ↦ some s
        | some (ref, r) ↦
            elim (process_rx_ref write_fuel ref
              (record s { rx = record (s.rx) { raw_ready = r } })) [
                | none ↦ none
                | some s' ↦ drain_rx fuel write_fuel s'
              ]
      ]
