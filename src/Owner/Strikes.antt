-- ===== src/Owner/Strikes.antt =====
-- What the writes of a session count and report, and how long the count of failures lives.
use native.Mathlib.Nat.{div-mul-le_self, lt-div-mul-add, mul-le-mul_right}
use Prim.Native.String.{String}
use xcom_lua.Prelude.{
  ℕ, ◌+◌, ◌*◌, ◌/◌, ◌%◌, ◌≤◌, ◌<◌, ◌≡◌, refl, sym, ◌⊎◌, inl, inr, Bool, true, false, not, ◌&&◌,
  ◌||◌, List, Option, none, some, arith,
}
use xcom_lua.Prelude.Tests.{ltb, leb, Bool-cases}
use xcom_lua.Prelude.Word.{◌==ℤ◌, u32_mod}
use mathlib.Core.Path.{subst}
use xcom_lua.Status.{XcomStatus, xcom_ok, xcom_err_io}
use xcom_lua.Core.{CoreCtx}
use xcom_lua.Serial.{Signal, fault_signal, call_submit}
use xcom_lua.Backend.{Attempt, Backend, WriteResult, serial_write}
use xcom_lua.Backend.Wire.{IsSent, begins, serial_write-IsSent}
use xcom_lua.Owner.{
  tx_fail_streak_limit, fatal, compute_write_timeout_ms, raise_fault, record_failure, count_sent,
  sink_owner_write, sink_owner_open, dtr_status, rts_status, set_dtr, set_rts, sink_owner_set_lines,
}

module _ {D : Type 0} where
  -- The result of a write to `b`, when the adapter writes `r`: the count of the sent bytes goes up by what
  -- the adapter reports, as a uint32_t, and XCOM_OK says that the adapter wrote the whole block.
  abbrev pub Counts : ℕ → CoreCtx D → WriteResult → CoreCtx D × XcomStatus × Backend → Type 0
  Counts len c r (c', status, b') =
      (b' ≡ r.backend)
      × (c'.tx_bytes % u32_mod ≡ (c.tx_bytes + r.written) % u32_mod)
      × ((status ≡ xcom_ok) × (r.ok ≡ true) × (r.written ≡ len)
          ⊎ (status ≡ xcom_err_io) × (r.ok ≡ false))

  Counts-same :
      (len : ℕ) (c : CoreCtx D) (w : WriteResult) (r r' : CoreCtx D × XcomStatus × Backend)
      → r' ≡ r
      → Counts len c w r
      → Counts len c w r'
  Counts-same len c w r r' same held = subst (Counts len c w) (sym same) held

module _ {D : Type 0} (submit_control : Option (CoreCtx D → Signal → Bool → CoreCtx D × Bool))
    (truncated : String → ℕ → ℕ → String) where
  record_failure_counts :
      (len : ℕ) (r : WriteResult) (c : CoreCtx D)
      → (record_failure submit_control truncated len r c).tx_bytes % u32_mod
        ≡ (c.tx_bytes + r.written) % u32_mod
  unfolding record_failure
  record_failure_counts len r c = ground arith

  raise_fault_counts :
      (c : CoreCtx D)
      → ((d : CoreCtx D) → (call_submit submit_control d fault_signal true).0.tx_bytes ≡ d.tx_bytes)
      → (raise_fault submit_control truncated c).tx_bytes ≡ c.tx_bytes
  unfolding raise_fault
  raise_fault_counts c keeps = ground (arith, keeps c)

  -- A write of the live session to an open adapter counts as sent exactly what the adapter's write
  -- reports, whether it succeeds or fails, and returns XCOM_OK exactly when that write succeeded, with the
  -- whole block. What the adapter reports is the sum over its attempts, at most eight, and the wire carries
  -- that many bytes of the block, from the first on, and those that moved in a last attempt that failed
  -- while it was pending, which are not counted. Submitting a signal does not change the count.
  pub sink_owner_write-Counts :
      (attempts : ℕ → Attempt) (content : List ℕ) (len : ℕ) (c : CoreCtx D) (b : Backend)
      → ((d : CoreCtx D) → (call_submit submit_control d fault_signal true).0.tx_bytes ≡ d.tx_bytes)
      → c.virtual_port ≡ false
      → b.opened ≡ true
      → b.write_in_flight ≡ false
      → Counts len c
          (serial_write attempts (some content) len b)
          (sink_owner_write submit_control truncated attempts content len c b)
        × IsSent attempts content len
            (begins (some content) len b)
            b.wire
            (serial_write attempts (some content) len b)
  unfolding sink_owner_write
  sink_owner_write-Counts attempts content len c b keeps real open_port idle =
      let r = serial_write attempts (some content) len b in
      let sent = serial_write-IsSent attempts (some content) len b idle in
      let c' = record_failure submit_control truncated len r c in
      let result = sink_owner_write submit_control truncated attempts content len c b in
      let dead = fatal r.error || leb tx_fail_streak_limit c'.tx_fail_streak in
      let counted = record_failure_counts len r c in
      elim (Bool-cases r.ok) [
        | inl e ↦ (
          Counts-same len c r
              (
                count_sent submit_control truncated r.written (record c { tx_fail_streak = 0 }),
                xcom_ok,
                r.backend,
              )
              result (ground (arith, real, open_port, e))
              (refl, omega arith, inl (refl, e, ground (arith, e, sent.whole))),
          sent,
        )
        | inr e ↦ elim (Bool-cases dead) [
          | inl f ↦ (
            Counts-same len c r (raise_fault submit_control truncated c', xcom_err_io, r.backend)
                result (ground (arith, real, open_port, e, f))
                (refl, omega (arith, counted, raise_fault_counts c' keeps), inr (refl, e)),
            sent,
          )
          | inr f ↦ (
            Counts-same len c r (c', xcom_err_io, r.backend) result
                (ground (arith, real, open_port, e, f)) (refl, counted, inr (refl, e)),
            sent,
          )
        ]
      ]

  -- The count of failed writes is not reset by a successful open. After a session in which the last two
  -- writes or more failed, the first write of the next session that fails raises the fault at once,
  -- whatever the error.
  pub reopened_strike :
      (attempts : ℕ → Attempt) (content : List ℕ) (len : ℕ) (c : CoreCtx D) (b : Backend)
      → 2 ≤ c.tx_fail_streak
      → c.tx_fail_streak + 1 < u32_mod
      → c.virtual_port ≡ false
      → (serial_write attempts (some content) len (sink_owner_open none true c b).1).ok ≡ false
      → let (opened, adapter) = sink_owner_open none true c b in
        (sink_owner_write submit_control truncated attempts content len opened adapter).0
        ≡ raise_fault submit_control truncated (
            record_failure submit_control truncated len
              (serial_write attempts (some content) len adapter)
              opened)
  unfolding sink_owner_write sink_owner_open record_failure
  reopened_strike attempts content len c b streak small real failed = ground (arith, real, failed)

-- The timeout is between two seconds and a minute, and from 683 baud on the line moves a whole block of
-- 4096 bytes, at ten bits each, in that time.
pub compute_write_timeout_ms_suffices :
    (baud : ℕ)
    → 683 ≤ baud
    → (2000 ≤ compute_write_timeout_ms baud)
      × (compute_write_timeout_ms baud ≤ 60000)
      × (4096 * 10 * 1000 ≤ compute_write_timeout_ms baud * baud)
unfolding compute_write_timeout_ms
compute_write_timeout_ms_suffices baud fast =
    let low = div-mul-le_self 327680000 baud in
    let high = lt-div-mul-add {a = 327680000} {b = baud} (omega (arith, fast)) in
    let q = 327680000 / baud in
    elim (Bool-cases (ltb q 2000)) [
      | inl e ↦
          let few = mul-le-mul_right {m = q} {n = 1999} baud (ground (arith, e)) in
          ground (arith, e, fast, few, high)
      | inr e ↦
          let many = mul-le-mul_right {m = 2000} {n = q} baud (ground (arith, e)) in
          ground (arith, e, fast, many, low, high)
    ]

-- XCOM_OK is returned exactly when both pins have moved: for a physical port that is open, with RTS
-- not left to the driver, and both calls successful.
pub sink_owner_set_lines_applied :
    (dtr_applies rts_applies rts_handshake virtual_port : Bool) (b : Backend)
    → (sink_owner_set_lines dtr_applies rts_applies rts_handshake virtual_port b ==ℤ xcom_ok) ≡ (
        not virtual_port
        && b.opened
        && b.port_valid
        && dtr_applies
        && not rts_handshake
        && rts_applies)
unfolding sink_owner_set_lines dtr_status rts_status set_dtr set_rts
sink_owner_set_lines_applied dtr_applies rts_applies rts_handshake virtual_port b = ground arith
