-- ===== src/Transmit/Tests.antt =====
-- The send path at concrete calls.
use xcom_lua.Prelude.{ℕ, ◌+◌, ◌≡◌, refl, true, false, List, [], ◌∷◌, none, some, arith}
use Prim.{Unit, tt}
use xcom_lua.Prelude.Tests.{ltb, if◌then◌else◌}
use xcom_lua.Prelude.Lists.{replicate}
use xcom_lua.Port.{opened}
use xcom_lua.Status.{queued}
use xcom_lua.Core.Sample.{core_with}
use xcom_lua.Pool.{fixed_pool}
use xcom_lua.Pool.Stack.{HasFree}
use xcom_lua.Writer.{no_job}
use xcom_lua.Transmit.{no_block_id, xcom_send}
use xcom_lua.Transmit.Traffic.{SendSystem, sends, starts, changes, step, start_writer}
use xcom_lua.Transmit.Owners.{count, owners, stock}
use xcom_lua.Transmit.Worker.{current_of}
use xcom_lua.Transmit.Conservation.{
  IsInitial, Reach, here, after, Reach-Conserved, blocks_conserved,
}
use xcom_lua.Transmit.Outcome.{HasOutcome, HasFreed, xcom_send_outcome}

abbrev boot : SendSystem Unit
boot = record {
  path = record {
    core = core_with tt;
    tx = fixed_pool 31;
    bytes = λ i. [];
    writer = record { jobs = replicate 256 no_job; write = 0; read = 0 };
    active = false;
    autosend = record {
      autosend_block = no_block_id;
      autosend_length = 0;
      autosend_interval_ms = 0;
    };
    timer = none;
    sends = [];
    configs = [];
    ticks = 0;
  };
  current = none;
}

boot-IsInitial : IsInitial boot
boot-IsInitial = record {
  new_pool = refl;
  slots = refl;
  no_writes = refl;
  no_reads = refl;
  no_template = refl;
  no_sends = refl;
  no_configs = refl;
  idle_worker = refl;
}

-- A session opens, its writer starts, and a client sends two bytes.
abbrev live : SendSystem Unit
live =
    step (starts true)
      (step (changes (record (core_with tt) { port_state = opened; generation = 1 })) boot)

abbrev sent : SendSystem Unit
sent = step (sends (some queued) (some (72 ∷ 105 ∷ [])) 2) live

live_trace : Reach boot live
unfolding step start_writer
live_trace = after (starts true) _ (after (changes _) boot here (omega arith)) (omega arith)

sent_trace : Reach boot sent
unfolding step start_writer
sent_trace = after (sends (some queued) (some (72 ∷ 105 ∷ [])) 2) live live_trace (omega arith)

blocks_conserved_example :
    (free : List ℕ) × HasFree sent.path.tx free
    × ((b : ℕ)
        → count b free + owners b (stock sent.path) + current_of b sent.current
          ≡ (if ltb b 32 then 1 else 0))
blocks_conserved_example = blocks_conserved boot sent boot-IsInitial sent_trace

xcom_send_outcome_example :
    HasOutcome
      (72 ∷ 105 ∷ [])
      2
      live.path
      (xcom_send (some queued) (some (72 ∷ 105 ∷ [])) 2 live.path)
    × HasFreed
        (λ b. current_of b live.current)
        live.path
        (xcom_send (some queued) (some (72 ∷ 105 ∷ [])) 2 live.path).0
xcom_send_outcome_example =
    xcom_send_outcome (some queued) (72 ∷ 105 ∷ []) 2 live.path (λ b. current_of b live.current)
      (omega arith) (Reach-Conserved boot live boot-IsInitial live_trace)
