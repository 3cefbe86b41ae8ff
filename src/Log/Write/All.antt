-- ===== src/Log/Write/All.antt =====
-- How write_all ends.
use xcom_lua.Prelude.{
  ℕ, zero, suc, ◌-◌, ◌≤◌, ◌<◌, ◌≡◌, refl, ◌⊎◌, inl, inr, false, List, some, arith,
}
use xcom_lua.Prelude.Tests.{leb, Bool-cases}
use xcom_lua.Prelude.Lists.{length}
use xcom_lua.Prelude.Word.{u32_mod, add32}
use xcom_lua.Status.{xcom_ok, xcom_err_io}
use xcom_lua.Log.{FileOps, LogWriter}
use xcom_lua.Log.Write.{Written, pending, error_write_fault, write_all}
use xcom_lua.Log.Write.Contents.{
  FileLaws, Patience, pending_some, write-cases, Appended, Appended-nothing, Appended-trans,
  attempt_after_failure, write_step, attempted,
}

module _ {D P R J C W : Type 0} (ops : FileOps W) (laws : FileLaws ops)
    (patience : Patience ops) where
  -- How write_all ends: with all bytes written, or at a write that failed.
  pub record WroteAll (file size : ℕ) (bytes : List ℕ) (offset : ℕ) (s : LogWriter D P R J C W)
      (w : Written (LogWriter D P R J C W)) : Type 0 where
    pub wrote : Appended ops laws patience file bytes offset w.offset s w.state
    pub ended :
        ((w.status ≡ xcom_ok) × (w.offset ≡ size))
        ⊎ ((w.status ≡ xcom_err_io)
            × (w.offset < size)
            × (ops.stopping (ops.sleep w.state.os) ≡ false
                → patience.left (ops.sleep w.state.os) < patience.left s.os))

  WroteAll-after :
      {file size a b : ℕ} {bytes : List ℕ} {s t : LogWriter D P R J C W}
      {w : Written (LogWriter D P R J C W)}
      → Appended ops laws patience file bytes a b s t
      → WroteAll file size bytes b t w
      → WroteAll file size bytes a s w
  WroteAll-after p q = record {
    wrote = Appended-trans ops laws patience p q.wrote;
    ended = elim q.ended [
      | inl all ↦ inl all
      | inr (io, less, retry) ↦ inr (io, less, λ h. omega (arith, retry h, p.patient))
    ];
  }

  pub write_all_lem :
      (fuel file size : ℕ) (bytes : List ℕ) (offset : ℕ) (s : LogWriter D P R J C W)
      → size < u32_mod
      → size ≤ length bytes
      → offset ≤ size
      → size - offset < fuel
      → (w : Written (LogWriter D P R J C W)) × (write_all ops fuel file size bytes offset s
          ≡ some w)
        × WroteAll file size bytes offset s w
  unfolding write_all
  write_all_lem zero file size bytes offset s small whole le enough = absurd (omega arith)
  write_all_lem (suc fuel) file size bytes offset s small whole le enough =
      elim (Bool-cases (leb size offset)) [
        | inl e ↦ (
          record { status = xcom_ok; win32_error = xcom_ok; offset = offset; state = s },
          rw (e, write_all) refl,
          record {
            wrote = Appended-nothing ops laws patience file offset bytes s;
            ended = inl (refl, ground arith);
          },
        )
        | inr e ↦ elim (write-cases (ops.write file (pending size offset bytes) s.os).0) [
          | inl f ↦ (
            record {
              status = xcom_err_io;
              win32_error = ops.last_error (ops.write file (pending size offset bytes) s.os).1;
              offset = offset;
              state = attempted ops laws patience file size offset bytes s;
            },
            rw (e, f, write_all) refl,
            record {
              wrote = attempt_after_failure ops laws patience file size offset bytes s (inl f);
              ended = inr (
                refl,
                ground arith,
                patience.sleep_left file (pending size offset bytes) s.os
                    (pending_some size offset bytes (ground arith) whole) (inl f),
              );
            },
          )
          | inr (inl f) ↦ (
            record {
              status = xcom_err_io;
              win32_error = error_write_fault;
              offset = offset;
              state = attempted ops laws patience file size offset bytes s;
            },
            rw (e, f, write_all) refl,
            record {
              wrote = attempt_after_failure ops laws patience file size offset bytes s (inr f);
              ended = inr (
                refl,
                ground arith,
                patience.sleep_left file (pending size offset bytes) s.os
                    (pending_some size offset bytes (ground arith) whole) (inr f),
              );
            },
          )
          | inr (inr (n, f)) ↦
              let (fits, sum, step) =
                write_step ops laws patience file size offset (suc n) bytes s small (ground arith)
                  f in
              let (w, ran, rest) =
                write_all_lem fuel file size bytes (add32 offset (suc n))
                  (attempted ops laws patience file size offset bytes s) small whole (omega arith)
                  (ground arith) in
              (w, rw (e, f, write_all) ran, WroteAll-after step rest)
        ]
      ]
