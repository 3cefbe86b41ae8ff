-- ===== src/Timer/Pace.antt =====
-- The callbacks keep to the grid of the interval and never come in bursts.
use native.Mathlib.Nat.{div-mul-le_self, lt-div-mul-add, mul-le-mul_right}
use xcom_lua.Prelude.{ℕ, ◌+◌, ◌-◌, ◌*◌, ◌/◌, ◌≤◌, ◌<◌, ◌≡◌, ◌⊎◌, inl, inr, List, [], ◌∷◌, arith}
use Prim.{Unit, tt}
use xcom_lua.Prelude.Tests.{ltb, leb, Bool-cases}
use xcom_lua.Timer.{u64_mod, next_deadline, Timer, turn, run, start_at}

-- The deadline after a callback is the first point of the grid after its end, and at least one
-- interval after the old one.
pub record IsNext (interval deadline after next : ℕ) : Type 0 where
  pub later : after < next
  pub ahead : (k : ℕ) × (1 ≤ k) × (next ≡ deadline + k * interval)
  pub close : (next ≡ deadline + interval) ⊎ (next ≤ after + interval)

next_deadline-IsNext :
    (interval deadline after : ℕ)
    → 0 < interval
    → after + interval < u64_mod
    → deadline + interval < u64_mod
    → IsNext interval deadline after (next_deadline interval deadline after)
unfolding next_deadline
next_deadline-IsNext interval deadline after positive small small' =
    elim (Bool-cases (leb (deadline + interval) after)) [
      | inr e ↦ record {
        later = ground (arith, e);
        ahead = (1, omega arith, ground (arith, e));
        close = inl (ground (arith, e));
      }
      | inl e ↦
          let q = (after - (deadline + interval)) / interval in
          let low = div-mul-le_self (after - (deadline + interval)) interval in
          let high = lt-div-mul-add {a = after - (deadline + interval)} positive in
          record {
            later = ground (arith, e, low, high);
            ahead = (q + 2, omega arith, ground (arith, e, low, high));
            close = inr (ground (arith, e, low, high));
          }
    ]

-- The clock readings of the turns do not go back, from `begin` on, and stay an interval below the
-- end of the clock, some 584 years.
abbrev pub AreOrdered : (interval begin : ℕ) → List (ℕ × ℕ) → Type 0
AreOrdered interval begin [] = Unit
AreOrdered interval begin ((now, after) ∷ readings) =
    (begin ≤ now)
    × (now ≤ after)
    × (after + interval < u64_mod)
    × AreOrdered interval after readings

abbrev pub last_reading : (begin : ℕ) → List (ℕ × ℕ) → ℕ
last_reading begin [] = begin
last_reading begin ((now, after) ∷ readings) = last_reading after readings

-- At time `at`, so many intervals after `begin` the next callback is due.
pub record IsPaced (interval begin at : ℕ) (t : Timer) : Type 0 where
  pub due : (k : ℕ) × (t.deadline ≡ begin + k * interval) × (t.calls < k)
  pub spent : begin + t.calls * interval ≤ at

-- A turn on `t` with the readings `now` and `after` that does not burst. Before the deadline it only
-- waits. From the deadline on it calls back once, and the next deadline lies behind the end of the
-- callback, by an interval at most, or one interval behind the old one.
abbrev pub IsUnhurried : (interval now after : ℕ) (t t' : Timer) → Type 0
IsUnhurried interval now after t t' =
    (now < t.deadline) × (t'.calls ≡ t.calls) × (t'.deadline ≡ t.deadline)
    ⊎ (t.deadline ≤ now)
      × (t'.calls ≡ t.calls + 1)
      × (after < t'.deadline)
      × ((t'.deadline ≡ t.deadline + interval) ⊎ (t'.deadline ≤ after + interval))

abbrev pub AllUnhurried : (interval : ℕ) → List (ℕ × ℕ) → Timer → Type 0
AllUnhurried interval [] t = Unit
AllUnhurried interval ((now, after) ∷ readings) t =
    IsUnhurried interval now after t (turn interval now after t)
    × AllUnhurried interval readings (turn interval now after t)

turn-IsPaced :
    (interval begin at now after : ℕ) (t : Timer)
    → 0 < interval
    → at ≤ now
    → now ≤ after
    → after + interval < u64_mod
    → IsPaced interval begin at t
    → IsPaced interval begin after (turn interval now after t)
unfolding turn
turn-IsPaced interval begin at now after t positive h h' small paced =
    let (k, due, more) = paced.due in
    elim (Bool-cases (ltb now t.deadline)) [
      | inl e ↦ record {
        due = (k, ground (arith, e, due), ground (arith, e, more));
        spent = ground (arith, e, paced.spent);
      }
      | inr e ↦
          let next =
            next_deadline-IsNext interval t.deadline after positive small (ground (arith, e)) in
          let (s, some_steps, stepped) = next.ahead in
          let spent = mul-le-mul_right {m = t.calls + 1} {n = k} interval (omega arith) in
          record {
            due = (k + s, ground (arith, e, due, stepped), ground (arith, e, more, some_steps));
            spent = ground (arith, e, due, spent);
          }
    ]

turn-IsUnhurried :
    (interval begin at now after : ℕ) (t : Timer)
    → 0 < interval
    → now ≤ after
    → after + interval < u64_mod
    → IsUnhurried interval now after t (turn interval now after t)
unfolding turn
turn-IsUnhurried interval begin at now after t positive h small =
    elim (Bool-cases (ltb now t.deadline)) [
      | inl e ↦ inl (ground (arith, e), ground (arith, e), ground (arith, e))
      | inr e ↦
          let next =
            next_deadline-IsNext interval t.deadline after positive small (ground (arith, e)) in
          inr (
            ground (arith, e),
            ground (arith, e),
            ground (arith, e, next.later),
            elim next.close [
              | inl f ↦ inl (ground (arith, e, f))
              | inr f ↦ inr (ground (arith, e, f))
            ],
          )
    ]

run-IsPaced' :
    (interval begin at : ℕ) (readings : List (ℕ × ℕ)) (t : Timer)
    → 0 < interval
    → AreOrdered interval at readings
    → IsPaced interval begin at t
    → AllUnhurried interval readings t
      × IsPaced interval begin (last_reading at readings) (run interval readings t)
unfolding run
run-IsPaced' interval begin at [] t positive ordered paced = (tt, paced)
run-IsPaced' interval begin at ((now, after) ∷ readings) t positive (h, h', small, ordered) paced =
    let (rest, end) =
      run-IsPaced' interval begin after readings (turn interval now after t) positive ordered
        (turn-IsPaced interval begin at now after t positive h h' small paced) in
    ((turn-IsUnhurried interval begin at now after t positive h' small, rest), end)

-- Whatever the clock reads in the turns of the loop, the next callback is due at a point of the grid
-- that the interval spans from the start, and the callbacks so far, an interval each, fit into the
-- time that has passed. No turn calls back before the deadline, and each one from the deadline on calls
-- back once and moves the deadline beyond the end of that callback, however many intervals it has
-- missed: a late callback is never made up for by a burst.
pub run-IsPaced :
    (interval begin : ℕ) (readings : List (ℕ × ℕ))
    → 0 < interval
    → begin + interval < u64_mod
    → AreOrdered interval begin readings
    → AllUnhurried interval readings (start_at interval begin)
      × IsPaced interval begin
          (last_reading begin readings)
          (run interval readings (start_at interval begin))
run-IsPaced interval begin readings positive small ordered =
    run-IsPaced' interval begin begin readings (start_at interval begin) positive ordered
      (record { due = (1, omega arith, omega arith); spent = omega arith })
