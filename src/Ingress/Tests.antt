-- ===== src/Ingress/Tests.antt =====
-- rx_ingress at concrete inputs.
use Prim.{Unit, tt}
use xcom_lua.Prelude.{
  ℕ, ◌+◌, ◌%◌, ◌≡◌, refl, ◌↔◌, ◌⊎◌, Bool, true, false, List, [], ◌∷◌, none, some, arith,
}
use xcom_lua.Prelude.Word.{u32_mod}
use xcom_lua.Port.{opened}
use xcom_lua.Core.{CoreCtx}
use xcom_lua.Core.Sample.{core_with}
use xcom_lua.Lane.{RxBlockRef, try_alloc, publish}
use xcom_lua.Lane.Sample.{pool_ops, ring_ops}
use xcom_lua.Ingress.{
  RxIngressResult, all_accepted, Ingress, ingress_loop, ingress_round, store_segment, rx_ingress,
  start, enter,
}
use xcom_lua.Ingress.Progress.{stalled, WaitPatience, Overflows, rx_ingress_counts}

abbrev Sample : Type 0
Sample = Ingress Unit (List ℕ) (List RxBlockRef)

abbrev open_session : Sample
open_session = record {
  core = record (core_with tt) { port_state = opened };
  rx = record { pool = []; display_ready = []; raw_ready = [] };
  clock_ms = 40;
  log_wakes = 0;
}

-- The writer releases every block meanwhile.
abbrev wait : Sample → Sample
wait s = record s { rx = record (s.rx) { pool = [] } }

abbrev submit : CoreCtx Unit → CoreCtx Unit × Bool
submit c = (c, true)

abbrev stored : RxIngressResult × Sample
stored =
    elim (rx_ingress pool_ops ring_ops wait submit 7 true 3 (65 ∷ (66 ∷ (67 ∷ []))) open_session) [
      | none ↦ (all_accepted, open_session)
      | some p ↦ p
    ]

three_bytes :
    rx_ingress pool_ops ring_ops wait submit 9 true 3 (65 ∷ (66 ∷ (67 ∷ []))) open_session
    ≡ some stored
unfolding rx_ingress ingress_loop ingress_round store_segment try_alloc publish
three_bytes = refl

stored_bytes : (stored.1.core.rx_bytes ≡ 3) × (stored.0 ≡ all_accepted)
unfolding rx_ingress ingress_loop ingress_round store_segment try_alloc publish
stored_bytes = (refl, refl)

never_stalled : (s : Sample) → stalled pool_ops true (wait s) ≡ false
unfolding try_alloc
never_stalled s = refl

-- The writer gives a block back in every wait, so no wait fails.
abbrev prompt : WaitPatience pool_ops true wait
prompt = record {
  bound = 0;
  left = λ lane clock_ms. 0;
  left_le = λ lane clock_ms. omega arith;
  wait_left = λ s h. absurd (ground (arith, h, never_stalled s));
}

rx_ingress_counts_example :
    ((r : RxIngressResult) × (s' : Sample) × (rx_ingress pool_ops ring_ops wait submit 9 true 3
          (65 ∷ (66 ∷ (67 ∷ [])))
          open_session
        ≡ some (r, s'))
      × ((s'.core.rx_bytes + s'.core.save_rejected_bytes) % u32_mod ≡ 3)
      × ((r ≡ all_accepted) ↔ (s'.core.save_rejected_bytes % u32_mod ≡ 0)))
    ⊎ Overflows pool_ops ring_ops true wait prompt
        (start 3 (65 ∷ (66 ∷ (67 ∷ []))))
        (enter open_session)
rx_ingress_counts_example =
    rx_ingress_counts pool_ops ring_ops true wait prompt submit (λ s. (refl, refl))
      (λ c. (refl, refl)) 9 3 (65 ∷ (66 ∷ (67 ∷ []))) open_session (omega arith) (omega arith)
