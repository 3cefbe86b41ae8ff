-- ===== src/Display/Tests.antt =====
-- The display lane at a concrete input: the consumer is inside a batch, a batch of an earlier session
-- and an unlogged one wait.
use xcom_lua.Prelude.{◌+◌, ◌≡◌, inr, true, List, [], ◌∷◌, some, arith}
use Prim.{tt}
use xcom_lua.Log.Sample.{bounded, bounded_laws}
use xcom_lua.Display.{DisplayDesc, DisplayLane, DrainResult, drain_into}
use xcom_lua.Display.Steps.{AllSmall}
use xcom_lua.Display.Order.{Advanced, drain_into_advances}

abbrev held_desc : DisplayDesc
held_desc = record { buf = 0; rx_meta = 5; len = 3; ingress_ms = 70; gen = 2 }

abbrev waiting : List DisplayDesc
waiting =
    record { buf = 1; rx_meta = 9; len = 2; ingress_ms = 71; gen = 1 }
    ∷ (record { buf = 2; rx_meta = 32775; len = 2; ingress_ms = 72; gen = 2 } ∷ [])

abbrev lane : DisplayLane (List DisplayDesc)
lane = record {
  buffers = record { storage = 4294967295 ∷ (0 ∷ (0 ∷ (4294967295 ∷ []))); head = 3 };
  bytes = λ id. (id + 65) ∷ (98 ∷ (99 ∷ []));
  ready_ring = waiting;
  consumer_desc = held_desc;
  consumer_offset = 1;
  consumer_active = true;
}

waiting-AllSmall : AllSmall waiting
unfolding AllSmall
waiting-AllSmall = (omega arith, (omega arith, tt))

drain_into_advances_example :
    (d : DrainResult (List DisplayDesc)) × (drain_into (bounded DisplayDesc 32) 3 true 8 2 lane
      ≡ some d)
    × Advanced (bounded_laws {X = DisplayDesc} 32) 8 2 lane d
drain_into_advances_example =
    drain_into_advances (bounded_laws 32) 3 8 2 lane
      (inr (omega arith, omega arith), waiting-AllSmall) (omega arith) (omega arith)
