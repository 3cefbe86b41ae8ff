-- ===== src/Log/Write/Retry.antt =====
-- The retry loop of an Append job.
use mathlib.Core.Path.{subst}
use xcom_lua.Prelude.{
  ℕ, zero, suc, ◌≤◌, ◌<◌, ◌≡◌, refl, sym, ap, ◌∙◌, ◌⊎◌, inl, inr, Bool, true, false, List, ◌++◌,
  append_assoc, some, arith,
}
use xcom_lua.Prelude.Tests.{if◌then◌else◌, Bool-cases}
use xcom_lua.Prelude.Lists.{slice, slice-append, length}
use xcom_lua.Prelude.Word.{ℤ, u32_mod}
use xcom_lua.Status.{xcom_ok, xcom_err_io}
use xcom_lua.Core.{CoreCtx, ErrorPush}
use xcom_lua.Log.{FileOps, LogWriter, beat}
use xcom_lua.Log.Write.{Written, write_all, append_retry, report_stall, report_recovery}
use xcom_lua.Log.Write.Contents.{FileLaws, Patience, Appended}
use xcom_lua.Log.Write.All.{WroteAll, write_all_lem}

module _ {D : Type 0} where
  report_stall_errors :
      (stalled : Bool) (error : ℤ) (c : CoreCtx D)
      → record c { errors = (report_stall stalled error c).errors } ≡ report_stall stalled error c
  report_stall_errors true error c = refl
  report_stall_errors false error c = refl

  report_recovery_errors :
      (stalled : Bool) (c : CoreCtx D)
      → record c { errors = (report_recovery stalled c).errors } ≡ report_recovery stalled c
  report_recovery_errors true c = refl
  report_recovery_errors false c = refl

module _ {W : Type 0} (ops : FileOps W) (laws : FileLaws ops) where
  rest_text :
      (file : ℕ) (w : W)
      → laws.contents file (if ops.stopping w then w else ops.sleep w) ≡ laws.contents file w
  rest_text file w = ground (arith, laws.sleep_keeps file w)

module _ {W : Type 0} (ops : FileOps W) where
  rest_stopping :
      (w : W)
      → ops.stopping (if ops.stopping w then w else ops.sleep w) ≡ false
      → (if ops.stopping w then w else ops.sleep w) ≡ ops.sleep w
  rest_stopping w h = ground arith

module _ {D P R J C W : Type 0} (ops : FileOps W) (laws : FileLaws ops)
    (patience : Patience ops) where
  -- What a step of the loop may change: the operating system, the heartbeat, and the error ring.
  abbrev pub logged : LogWriter D P R J C W → W → ℕ → List ErrorPush → LogWriter D P R J C W
  logged s os ms errors = record s {
    core = record (s.core) { errors = errors };
    os = os;
    log_writer_ms = ms;
  }

  -- From `s` to `s'` the bytes from `from` to `to` were appended to the file.
  pub record Logged (file : ℕ) (bytes : List ℕ) (from to : ℕ) (s s' : LogWriter D P R J C W)
      : Type 0 where
    pub forward : from ≤ to
    pub text : laws.contents file s'.os ≡ laws.contents file s.os ++ slice from to bytes
    pub kept : s' ≡ logged s s'.os s'.log_writer_ms s'.core.errors

  Logged-trans :
      {file a b c : ℕ} {bytes : List ℕ} {s t u : LogWriter D P R J C W}
      → Logged file bytes a b s t
      → Logged file bytes b c t u
      → Logged file bytes a c s u
  Logged-trans {file} {a} {b} {c} {bytes} {s} {t} {u} p q = record {
    forward = omega (arith, p.forward, q.forward);
    text =
        q.text
        ∙ ap (λ xs. xs ++ slice b c bytes) p.text
        ∙ append_assoc (laws.contents file s.os) (slice a b bytes) (slice b c bytes)
        ∙ ap (λ xs. laws.contents file s.os ++ xs) (slice-append a b c bytes p.forward q.forward);
    kept = q.kept ∙ ap (λ r. logged r u.os u.log_writer_ms u.core.errors) p.kept;
  }

  -- One call of write_all, then an error line, then perhaps a sleep.
  round-Logged :
      {file a b : ℕ} {bytes : List ℕ} {s t : LogWriter D P R J C W} (os' : W)
      (errors : List ErrorPush)
      → Appended ops laws patience file bytes a b (beat ops s) t
      → laws.contents file os' ≡ laws.contents file t.os
      → Logged file bytes a b s (record t { core = record (t.core) { errors = errors }; os = os' })
  round-Logged {file} {a} {b} {bytes} {s} {t} os' errors p same = record {
    forward = p.forward;
    text = same ∙ p.text;
    kept = ap (λ r. logged r os' t.log_writer_ms errors) p.kept;
  }

  -- How the loop ends: with all bytes written, or asked to stop.
  pub record Retried (file size : ℕ) (bytes : List ℕ) (offset : ℕ) (s : LogWriter D P R J C W)
      (status : ℤ) (to : ℕ) (s' : LogWriter D P R J C W) : Type 0 where
    pub wrote : Logged file bytes offset to s s'
    pub ended :
        ((status ≡ xcom_ok) × (to ≡ size))
        ⊎ ((status ≡ xcom_err_io) × (to < size) × (ops.stopping s'.os ≡ true))

  -- The state after a failure has been reported, and slept over unless a stop is requested.
  abbrev rested : Bool → Written (LogWriter D P R J C W) → LogWriter D P R J C W
  rested stalled w = record (w.state) {
    core = report_stall stalled w.win32_error w.state.core;
    os = if ops.stopping w.state.os then w.state.os else ops.sleep w.state.os;
  }

  module _ (file size : ℕ) (bytes : List ℕ) (fuel : ℕ) where
    -- The three ways in which a round goes on.
    round_ok :
        (offset : ℕ) (stalled : Bool) (s : LogWriter D P R J C W)
        (w : Written (LogWriter D P R J C W))
        → write_all ops (suc size) file size bytes offset (beat ops s) ≡ some w
        → w.status ≡ xcom_ok
        → append_retry ops (suc fuel) file size bytes offset stalled s
          ≡ some
              (xcom_ok, w.offset, record (w.state) { core = report_recovery stalled w.state.core })
    unfolding append_retry
    round_ok offset stalled s w ran ok = ground (arith, ran, ok)

    round_stop :
        (offset : ℕ) (stalled : Bool) (s : LogWriter D P R J C W)
        (w : Written (LogWriter D P R J C W))
        → write_all ops (suc size) file size bytes offset (beat ops s) ≡ some w
        → w.status ≡ xcom_err_io
        → ops.stopping (rested stalled w).os ≡ true
        → append_retry ops (suc fuel) file size bytes offset stalled s
          ≡ some (xcom_err_io, w.offset, rested stalled w)
    unfolding append_retry
    round_stop offset stalled s w ran io stop = ground (arith, ran, io, stop)

    round_again :
        (offset : ℕ) (stalled : Bool) (s : LogWriter D P R J C W)
        (w : Written (LogWriter D P R J C W))
        → write_all ops (suc size) file size bytes offset (beat ops s) ≡ some w
        → w.status ≡ xcom_err_io
        → ops.stopping (rested stalled w).os ≡ false
        → append_retry ops (suc fuel) file size bytes offset stalled s
          ≡ append_retry ops fuel file size bytes w.offset true (rested stalled w)
    unfolding append_retry
    round_again offset stalled s w ran io stop = ground (arith, ran, io, stop)

  module _ (file size : ℕ) (bytes : List ℕ) (offset : ℕ) (stalled : Bool) where
    rested-Logged :
        (s : LogWriter D P R J C W) (w : Written (LogWriter D P R J C W))
        → WroteAll ops laws patience file size bytes offset (beat ops s) w
        → Logged file bytes offset w.offset s (rested stalled w)
    rested-Logged s w all =
        subst (λ c. Logged file bytes offset w.offset s (record (rested stalled w) { core = c }))
          (report_stall_errors stalled w.win32_error w.state.core)
          (round-Logged (rested stalled w).os (rested stalled w).core.errors all.wrote
            (rest_text ops laws file w.state.os))

    recovered-Logged :
        (s : LogWriter D P R J C W) (w : Written (LogWriter D P R J C W))
        → WroteAll ops laws patience file size bytes offset (beat ops s) w
        → Logged file bytes offset w.offset s
            (record (w.state) { core = report_recovery stalled w.state.core })
    recovered-Logged s w all =
        subst (λ c. Logged file bytes offset w.offset s (record (w.state) { core = c }))
          (report_recovery_errors stalled w.state.core)
          (round-Logged w.state.os (report_recovery stalled w.state.core).errors all.wrote refl)

  retry_round :
      (file size : ℕ) (bytes : List ℕ) (fuel offset : ℕ) (stalled : Bool)
      (s : LogWriter D P R J C W) (w : Written (LogWriter D P R J C W))
      → write_all ops (suc size) file size bytes offset (beat ops s) ≡ some w
      → WroteAll ops laws patience file size bytes offset (beat ops s) w
      → patience.left s.os < suc fuel
      → ((from : ℕ) (t : LogWriter D P R J C W)
          → from ≤ size
          → patience.left t.os < fuel
          → (status : ℤ) × (to : ℕ) × (s' : LogWriter D P R J C W) × (append_retry ops fuel file
                size bytes from true t
              ≡ some (status, to, s'))
            × Retried file size bytes from t status to s')
      → (status : ℤ) × (to : ℕ) × (s' : LogWriter D P R J C W) × (append_retry ops
            (suc fuel)
            file
            size
            bytes
            offset
            stalled
            s
          ≡ some (status, to, s'))
        × Retried file size bytes offset s status to s'
  retry_round file size bytes fuel offset stalled s w ran all enough rest = elim all.ended [
    | inl (ok, full) ↦ (
      xcom_ok,
      w.offset,
      record (w.state) { core = report_recovery stalled w.state.core },
      round_ok file size bytes fuel offset stalled s w ran ok,
      record {
        wrote = recovered-Logged file size bytes offset stalled s w all;
        ended = inl (refl, full);
      },
    )
    | inr (io, less, retry) ↦ elim (Bool-cases (ops.stopping (rested stalled w).os)) [
      | inl stop ↦ (
        xcom_err_io,
        w.offset,
        rested stalled w,
        round_stop file size bytes fuel offset stalled s w ran io stop,
        record {
          wrote = rested-Logged file size bytes offset stalled s w all;
          ended = inr (refl, less, stop);
        },
      )
      | inr going ↦
          let slept = rest_stopping ops w.state.os going in
          let fewer = retry (ap ops.stopping (sym slept) ∙ going) in
          let (status, to, s', again, ended) =
            rest w.offset (rested stalled w) (omega arith)
              (omega (arith, ap patience.left slept)) in
          (
            status,
            to,
            s',
            round_again file size bytes fuel offset stalled s w ran io going ∙ again,
            record {
              wrote =
                  Logged-trans (rested-Logged file size bytes offset stalled s w all) ended.wrote;
              ended = ended.ended;
            },
          )
    ]
  ]

  -- If the buffer has `size` bytes, the loop ends: the fuel that is enough is the bound on the failed
  -- writes before the disk recovers or a stop is requested. Until then it has appended to the file the
  -- bytes of the job from the offset where it began up to the one where it ends, each once and in
  -- order, over all its retries; and that is the end of the job, unless a stop was requested.
  pub append_retry_lem :
      (fuel file size : ℕ) (bytes : List ℕ) (offset : ℕ) (stalled : Bool)
      (s : LogWriter D P R J C W)
      → size < u32_mod
      → size ≤ length bytes
      → offset ≤ size
      → patience.left s.os < fuel
      → (status : ℤ) × (to : ℕ) × (s' : LogWriter D P R J C W) × (append_retry ops fuel file size
            bytes offset stalled s
          ≡ some (status, to, s'))
        × Retried file size bytes offset s status to s'
  unfolding append_retry
  append_retry_lem zero file size bytes offset stalled s small whole le enough =
      absurd (omega arith)
  append_retry_lem (suc fuel) file size bytes offset stalled s small whole le enough =
      let (w, ran, all) =
        write_all_lem ops laws patience (suc size) file size bytes offset (beat ops s) small whole
          le (omega arith) in
      retry_round file size bytes fuel offset stalled s w ran all enough
        (λ (to : ℕ) (t : LogWriter D P R J C W).
          append_retry_lem fuel file size bytes to true t small whole)
