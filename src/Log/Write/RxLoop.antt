-- ===== src/Log/Write/RxLoop.antt =====
-- The loop that writes a raw block.
use xcom_lua.Prelude.{
  ℕ, zero, suc, ◌+◌, ◌-◌, ◌≤◌, ◌<◌, ◌≡◌, refl, ◌∙◌, ◌⊎◌, inl, inr, Bool, true, false, not, ◌&&◌,
  List, some, arith,
}
use xcom_lua.Prelude.Tests.{ltb, Bool-cases}
use xcom_lua.Prelude.Lists.{length}
use xcom_lua.Prelude.Word.{u32_mod, add32}
use xcom_lua.Log.{FileOps, LogWriter}
use xcom_lua.Log.Write.{pending, write_rx}
use xcom_lua.Log.Write.Contents.{
  FileLaws, Patience, pending_some, Failed, write-cases, Appended, Appended-nothing, Appended-trans,
  attempted, write_step, attempt_after_failure,
}

loop_exit :
    (offset len : ℕ) (stopping : Bool)
    → offset ≤ len
    → (ltb offset len && not stopping) ≡ false
    → (offset ≡ len) ⊎ (stopping ≡ true)
loop_exit offset len true le e = inr refl
loop_exit offset len false le e = inl (ground arith)

module _ {D P R J C W : Type 0} (ops : FileOps W) (laws : FileLaws ops)
    (patience : Patience ops) where
  -- How the loop ends: with all bytes written, or asked to stop.
  pub record Wrote (file len : ℕ) (bytes : List ℕ) (offset to : ℕ) (s s' : LogWriter D P R J C W)
      : Type 0 where
    pub wrote : Appended ops laws patience file bytes offset to s s'
    pub within : to ≤ len
    pub ended : (to ≡ len) ⊎ (ops.stopping s'.os ≡ true)

  abbrev slept : LogWriter D P R J C W → LogWriter D P R J C W
  slept s = record s { os = ops.sleep s.os }

  module _ (fuel file len : ℕ) (bytes : List ℕ) (offset : ℕ) (s : LogWriter D P R J C W)
      (failed : Failed (ops.write file (pending len offset bytes) s.os).0) where
    abbrev tried : LogWriter D P R J C W
    tried = attempted ops laws patience file len offset bytes s

    failed_stop :
        (ltb offset len && not (ops.stopping s.os)) ≡ true
        → ops.stopping tried.os ≡ true
        → write_rx ops (suc fuel) file len bytes offset s ≡ some (offset, tried)
    unfolding write_rx
    failed_stop e stop = elim failed [
      | inl f ↦ rw (e, f, stop, write_rx) refl
      | inr f ↦ rw (e, f, stop, write_rx) refl
    ]

    failed_go :
        (ltb offset len && not (ops.stopping s.os)) ≡ true
        → ops.stopping tried.os ≡ false
        → write_rx ops (suc fuel) file len bytes offset s
          ≡ write_rx ops fuel file len bytes offset (slept tried)
    unfolding write_rx
    failed_go e go = elim failed [
      | inl f ↦ rw (e, f, go, write_rx) refl
      | inr f ↦ rw (e, f, go, write_rx) refl
    ]

  -- A stop that was requested during the sleep ends the loop at its test.
  stops :
      (fuel file len : ℕ) (bytes : List ℕ) (offset : ℕ) (s : LogWriter D P R J C W)
      → 0 < fuel
      → ops.stopping s.os ≡ true
      → write_rx ops fuel file len bytes offset s ≡ some (offset, s)
  unfolding write_rx
  stops zero file len bytes offset s h stop = absurd (omega arith)
  stops (suc fuel) file len bytes offset s h stop = ground arith

  tried_slept :
      (file len offset : ℕ) (bytes : List ℕ) (s : LogWriter D P R J C W)
      → Failed (ops.write file (pending len offset bytes) s.os).0
      → Appended ops laws patience file bytes offset offset s
          (slept (attempted ops laws patience file len offset bytes s))
  tried_slept file len offset bytes s failed =
      let w' = (ops.write file (pending len offset bytes) s.os).1 in
      let tried = attempt_after_failure ops laws patience file len offset bytes s failed in
      record {
        forward = omega arith;
        text = laws.sleep_keeps file w' ∙ tried.text;
        kept = refl;
        patient = omega (arith, patience.sleep_le w', tried.patient);
      }

  round_after_failure :
      (fuel file len : ℕ) (bytes : List ℕ) (offset : ℕ) (s : LogWriter D P R J C W)
      → Failed (ops.write file (pending len offset bytes) s.os).0
      → len ≤ length bytes
      → offset < len
      → (ltb offset len && not (ops.stopping s.os)) ≡ true
      → ((t : LogWriter D P R J C W)
          → patience.left t.os + (len - offset) < fuel
          → (to : ℕ) × (s' : LogWriter D P R J C W) × (write_rx ops fuel file len bytes offset t
              ≡ some (to, s'))
            × Wrote file len bytes offset to t s')
      → patience.left s.os + (len - offset) < suc fuel
      → (to : ℕ) × (s' : LogWriter D P R J C W) × (write_rx ops (suc fuel) file len bytes offset s
          ≡ some (to, s'))
        × Wrote file len bytes offset to s s'
  round_after_failure fuel file len bytes offset s failed whole more e rest enough =
      let t = attempted ops laws patience file len offset bytes s in
      let w' = (ops.write file (pending len offset bytes) s.os).1 in
      elim (Bool-cases (ops.stopping w')) [
        | inl stop ↦ (
          offset,
          t,
          failed_stop fuel file len bytes offset s failed e stop,
          record {
            wrote = attempt_after_failure ops laws patience file len offset bytes s failed;
            within = omega arith;
            ended = inr stop;
          },
        )
        | inr go ↦ elim (Bool-cases (ops.stopping (ops.sleep w'))) [
          | inl stop ↦ (
            offset,
            slept t,
            failed_go fuel file len bytes offset s failed e go
                ∙ stops fuel file len bytes offset (slept t) (omega arith) stop,
            record {
              wrote = tried_slept file len offset bytes s failed;
              within = omega arith;
              ended = inr stop;
            },
          )
          | inr going ↦
              let fewer =
                patience.sleep_left file (pending len offset bytes) s.os
                  (pending_some len offset bytes more whole) failed going in
              let (to, s', ran, wrote) = rest (slept t) (omega (arith, fewer)) in
              (
                to,
                s',
                failed_go fuel file len bytes offset s failed e go ∙ ran,
                record {
                  wrote =
                      Appended-trans ops laws patience (tried_slept file len offset bytes s failed)
                        wrote.wrote;
                  within = wrote.within;
                  ended = wrote.ended;
                },
              )
        ]
      ]

  pub write_rx_lem :
      (fuel file len : ℕ) (bytes : List ℕ) (offset : ℕ) (s : LogWriter D P R J C W)
      → len < u32_mod
      → len ≤ length bytes
      → offset ≤ len
      → patience.left s.os + (len - offset) < fuel
      → (to : ℕ) × (s' : LogWriter D P R J C W) × (write_rx ops fuel file len bytes offset s
          ≡ some (to, s'))
        × Wrote file len bytes offset to s s'
  unfolding write_rx
  write_rx_lem zero file len bytes offset s small whole le enough = absurd (omega arith)
  write_rx_lem (suc fuel) file len bytes offset s small whole le enough =
      elim (Bool-cases (ltb offset len && not (ops.stopping s.os))) [
        | inr e ↦ (
          offset,
          s,
          rw (e, write_rx) refl,
          record {
            wrote = Appended-nothing ops laws patience file offset bytes s;
            within = le;
            ended = loop_exit offset len (ops.stopping s.os) le e;
          },
        )
        | inl e ↦ elim (write-cases (ops.write file (pending len offset bytes) s.os).0) [
          | inl f ↦
              round_after_failure fuel file len bytes offset s (inl f) whole (ground arith) e
                (λ (t : LogWriter D P R J C W).
                  write_rx_lem fuel file len bytes offset t small whole le)
                enough
          | inr (inl f) ↦
              round_after_failure fuel file len bytes offset s (inr f) whole (ground arith) e
                (λ (t : LogWriter D P R J C W).
                  write_rx_lem fuel file len bytes offset t small whole le)
                enough
          | inr (inr (n, f)) ↦
              let (fits, sum, step) =
                write_step ops laws patience file len offset (suc n) bytes s small (ground arith)
                  f in
              let (to, s', ran, rest) =
                write_rx_lem fuel file len bytes (add32 offset (suc n))
                  (attempted ops laws patience file len offset bytes s) small whole (omega arith)
                  (omega (arith, step.patient)) in
              (
                to,
                s',
                rw (e, f, write_rx) ran,
                record {
                  wrote = Appended-trans ops laws patience step rest.wrote;
                  within = rest.within;
                  ended = rest.ended;
                },
              )
        ]
      ]
