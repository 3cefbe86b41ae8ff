-- ===== src/Abi/Wait.antt =====
-- The waiting of xcom_open, and xcom_take_open_result, of xcom_core/src/abi/xcom_abi.cpp. What the other
-- threads do to the core during a sleep is an argument; a handle is valid.
use xcom_lua.Prelude.{
  ℕ, zero, suc, ◌+◌, ◌<◌, ◌≡◌, refl, sym, ◌⊎◌, inl, inr, Bool, true, false, not, Option, arith,
}
use Prim.{Unit, tt}
use mathlib.Core.Path.{subst}
use xcom_lua.Prelude.Tests.{if◌then◌else◌, Bool-cases}
use xcom_lua.Prelude.Word.{◌==ℤ◌}
use xcom_lua.Status.{
  XcomStatus, xcom_ok, xcom_err_busy, xcom_err_timeout, open_failure_status_from_result,
}
use xcom_lua.Port.{is_open, PortState, opening}
use xcom_lua.Core.{CoreCtx}
use xcom_lua.Serial.{Signal}
use xcom_lua.Abi.{PortConfig, queue_open}

-- The 200 rounds of 10 ms.
abbrev pub open_rounds : ℕ
open_rounds = 200

module _ {D : Type 0} (others : ℕ → CoreCtx D → CoreCtx D) where
  -- The loop, with `left` rounds to go.
  unfoldable pub wait_open : (left round : ℕ) → CoreCtx D → CoreCtx D × XcomStatus
  wait_open zero round c = (record c { cancel_open = true }, xcom_err_timeout)
  wait_open (suc left) round c =
      let again = wait_open left (round + 1) (others round c) in
      if c.last_open_result ==ℤ xcom_ok
      then (if is_open c.port_state then (c, xcom_ok) else again)
      else if c.last_open_result ==ℤ xcom_err_busy
      then again
      else (c, open_failure_status_from_result c.last_open_result)

  unfoldable pub xcom_open :
      Option (CoreCtx D → Signal → Bool → CoreCtx D × Bool)
      → (size : ℕ) → PortConfig
      → CoreCtx D
      → CoreCtx D × XcomStatus
  xcom_open submit_control size config c =
      let (c', status) = queue_open submit_control size config c in
      if status ==ℤ xcom_ok then wait_open open_rounds 0 c' else (c', status)

  -- What the poll of a round makes of the core: the attempt is decided, or not yet.
  abbrev pub is_decided : CoreCtx D → Bool
  is_decided c =
      if c.last_open_result ==ℤ xcom_ok
      then is_open c.port_state
      else not (c.last_open_result ==ℤ xcom_err_busy)

  -- The core that the poll of round `k` sees, if the loop gets that far, counting from `round`.
  abbrev pub seen_by : (round k : ℕ) → CoreCtx D → CoreCtx D
  seen_by round zero c = c
  seen_by round (suc k) c = seen_by (round + 1) k (others round c)

  -- The first `k` polls find the attempt undecided.
  abbrev pub AllUndecided : (round k : ℕ) → CoreCtx D → Type 0
  AllUndecided round zero c = Unit
  AllUndecided round (suc k) c =
      (is_decided c ≡ false) × AllUndecided (round + 1) k (others round c)

  -- How a wait of `left` rounds ends. Either the poll of some round `k` below `left` is the first to find
  -- the attempt decided, and that core is returned as it is, with XCOM_OK if the session is open, and the
  -- recorded reason otherwise; or all `left` polls found it undecided, and the open is cancelled in what
  -- the other threads then left.
  abbrev pub IsResolved : (left round : ℕ) → CoreCtx D → CoreCtx D × XcomStatus → Type 0
  IsResolved left round c r =
      ((k : ℕ) × (k < left)
        × AllUndecided round k c
        × (is_decided (seen_by round k c) ≡ true)
        × (r.0 ≡ seen_by round k c)
        × (((r.1 ≡ xcom_ok)
              × (is_open r.0.port_state ≡ true)
              × ((r.0.last_open_result ==ℤ xcom_ok) ≡ true))
            ⊎ ((r.1 ≡ open_failure_status_from_result r.0.last_open_result)
                × ((r.0.last_open_result ==ℤ xcom_ok) ≡ false))))
      ⊎ AllUndecided round left c
        × (r ≡ (record (seen_by round left c) { cancel_open = true }, xcom_err_timeout))

  IsResolved-same :
      (left round : ℕ) (c : CoreCtx D) (r r' : CoreCtx D × XcomStatus)
      → r' ≡ r
      → IsResolved left round c r
      → IsResolved left round c r'
  IsResolved-same left round c r r' same held = subst (IsResolved left round c) (sym same) held

  IsResolved-later :
      (left round : ℕ) (c : CoreCtx D) (r : CoreCtx D × XcomStatus)
      → is_decided c ≡ false
      → IsResolved left (round + 1) (others round c) r
      → IsResolved (suc left) round c r
  IsResolved-later left round c r first (inl (k, lt, before, found, same, told)) =
      inl (suc k, omega (arith, lt), (first, before), found, same, told)
  IsResolved-later left round c r first (inr (before, same)) = inr ((first, before), same)

  wait_open-IsResolved :
      (left round : ℕ) (c : CoreCtx D) → IsResolved left round c (wait_open left round c)
  unfolding wait_open
  wait_open-IsResolved zero round c = inr (tt, refl)
  wait_open-IsResolved (suc left) round c =
      let again = wait_open left (round + 1) (others round c) in
      let result = wait_open (suc left) round c in
      let later : is_decided c ≡ false → IsResolved (suc left) round c again = λ first.
        IsResolved-later left round c again first
          (wait_open-IsResolved left (round + 1) (others round c)) in
      elim (Bool-cases (c.last_open_result ==ℤ xcom_ok)) [
        | inl e ↦ elim (Bool-cases (is_open c.port_state)) [
          | inl f ↦
              IsResolved-same (suc left) round c (c, xcom_ok) result (ground (arith, e, f))
                (inl (0, omega arith, tt, ground (arith, e, f), refl, inl (refl, f, e)))
          | inr f ↦
              IsResolved-same (suc left) round c again result (ground (arith, e, f))
                (later (ground (arith, e, f)))
        ]
        | inr e ↦ elim (Bool-cases (c.last_open_result ==ℤ xcom_err_busy)) [
          | inl f ↦
              IsResolved-same (suc left) round c again result (ground (arith, e, f))
                (later (ground (arith, e, f)))
          | inr f ↦
              IsResolved-same (suc left) round c
                (c, open_failure_status_from_result c.last_open_result) result
                (ground (arith, e, f))
                (inl (0, omega arith, tt, ground (arith, e, f), refl, inr (refl, e)))
        ]
      ]

  -- Whatever the other threads do in the meantime, an open is refused at once, with the status and the
  -- core of queue_open; or it polls at most 200 times. It returns at the first poll that finds the attempt
  -- decided, with the core as that poll saw it: XCOM_OK if the session is open, the recorded reason if the
  -- attempt failed. Only if all 200 polls find it undecided, which is a recorded BUSY, or a recorded
  -- success of a session that is not open yet, it returns XCOM_ERR_TIMEOUT, and cancels the open.
  pub xcom_open-IsResolved :
      (submit_control : Option (CoreCtx D → Signal → Bool → CoreCtx D × Bool)) (size : ℕ)
      (config : PortConfig) (c : CoreCtx D)
      → let (c', status) = queue_open submit_control size config c in
        (((status ==ℤ xcom_ok) ≡ false) × (xcom_open submit_control size config c ≡ (c', status)))
        ⊎ ((status ==ℤ xcom_ok) ≡ true)
          × IsResolved 200 0 c' (xcom_open submit_control size config c)
  unfolding xcom_open
  xcom_open-IsResolved submit_control size config c =
      let (c', status) = queue_open submit_control size config c in
      elim (Bool-cases (status ==ℤ xcom_ok)) [
        | inl e ↦ inr (
          e,
          IsResolved-same 200 0 c' (wait_open open_rounds 0 c')
              (xcom_open submit_control size config c) (ground (arith, e))
              (wait_open-IsResolved open_rounds 0 c'),
        )
        | inr e ↦ inl (e, ground (arith, e))
      ]

abbrev pub is_opening : PortState → Bool
is_opening opening = true
is_opening other = false

module _ {D : Type 0} where
  unfoldable pub xcom_take_open_result : CoreCtx D → XcomStatus
  xcom_take_open_result c =
      if is_open c.port_state
      then xcom_ok
      else if is_opening c.port_state
      then xcom_err_busy
      else if c.last_open_result ==ℤ xcom_err_busy
      then xcom_err_busy
      else open_failure_status_from_result c.last_open_result
