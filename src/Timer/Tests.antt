-- ===== src/Timer/Tests.antt =====
-- The timer at a period of ten milliseconds: a wait, a callback that is in time, and one that takes
-- thirty-five milliseconds.
use xcom_lua.Prelude.{ℕ, ◌≡◌, refl, List, [], ◌∷◌, arith}
use xcom_lua.Timer.{next_deadline, run, start_at, wait_milliseconds}
use xcom_lua.Timer.Pace.{AllUnhurried, IsPaced, last_reading, run-IsPaced}

abbrev readings : List (ℕ × ℕ)
readings =
    (4000000, 4000000) ∷ (11000000, 12000000) ∷ (21000000, 56000000) ∷ (60500000, 61000000) ∷ []

run-IsPaced_example :
    AllUnhurried 10000000 readings (start_at 10000000 1000000)
    × IsPaced 10000000 1000000
        (last_reading 1000000 readings)
        (run 10000000 readings (start_at 10000000 1000000))
run-IsPaced_example =
    run-IsPaced 10000000 1000000 readings (omega arith) (omega arith) (omega arith)

late_callback : next_deadline 10000000 21000000 56000000 ≡ 61000000
unfolding next_deadline
late_callback = refl

rounded_up : wait_milliseconds 1000001 ≡ 2
unfolding wait_milliseconds
rounded_up = refl
