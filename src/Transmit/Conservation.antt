-- ===== src/Transmit/Conservation.antt =====
-- No block of TxBlockPool is lost or given out twice, whatever the order of the calls, the handlers and
-- the write thread.
use xcom_lua.Prelude.{ℕ, zero, suc, ◌+◌, ◌<◌, ◌≡◌, refl, sym, ap, ◌∙◌, inr, List, [], none, arith}
use mathlib.Core.Path.{subst}
use xcom_lua.Prelude.Tests.{ltb, leb, if◌then◌else◌}
use xcom_lua.Prelude.Lists.{length}
use xcom_lua.Prelude.Word.{u32_mod}
use xcom_lua.Pool.{FixedPool, fixed_pool, links}
use xcom_lua.Pool.Stack.{HasFree}
use xcom_lua.Pool.Init.{blocks_from, fixed_pool-HasFree}
use xcom_lua.Writer.{max_jobs}
use xcom_lua.Writer.Fifo.{IsValid, contents}
use xcom_lua.Transmit.{tx_block_count, no_block_id}
use xcom_lua.Transmit.Traffic.{SendSystem, Event, step}
use xcom_lua.Transmit.Owners.{count, jobs_of, owners, stock}
use xcom_lua.Transmit.Worker.{current_of, Conserved}
use xcom_lua.Transmit.Steps.{step-Conserved}

module _ {D : Type 0} where
  -- A new core, before its first call.
  pub record IsInitial (s : SendSystem D) : Type 0 where
    pub new_pool : s.path.tx ≡ fixed_pool 31
    pub slots : length s.path.writer.jobs ≡ max_jobs
    pub no_writes : s.path.writer.write ≡ 0
    pub no_reads : s.path.writer.read ≡ 0
    pub no_template : s.path.autosend.autosend_block ≡ no_block_id
    pub no_sends : s.path.sends ≡ []
    pub no_configs : s.path.configs ≡ []
    pub idle_worker : s.current ≡ none

  -- The states that events lead to, while the writer's counter does not wrap.
  pub data Reach (s : SendSystem D) : SendSystem D → Type 0 where
    here : Reach s s
    after :
        (e : Event D) (t : SendSystem D)
        → Reach s t
        → t.path.writer.write + 1 < u32_mod
        → Reach s (step e t)

count-blocks_from :
    (b i left : ℕ)
    → count b (blocks_from i left) ≡ (if leb i b then (if leb b (i + left) then 1 else 0) else 0)
count-blocks_from b i zero = ground arith
count-blocks_from b i (suc left) = ground (arith, count-blocks_from b (i + 1) left)

size_of_pool : length (fixed_pool 31).storage ≡ tx_block_count
unfolding fixed_pool links
size_of_pool = refl

count_new : (b left : ℕ) → count b (blocks_from 0 left) ≡ (if ltb b (suc left) then 1 else 0)
count_new b left = ground (arith, count-blocks_from b 0 left)

module _ {D : Type 0} where
  no_owners :
      (b : ℕ) (s : SendSystem D)
      → IsInitial s
      → owners b (stock s.path) + current_of b s.current ≡ 0
  no_owners b s new =
      let idle : jobs_of b (contents s.path.writer) ≡ 0 =
        ground (arith, new.no_writes, new.no_reads) in
      ground (arith, new.no_template, new.idle_worker, new.no_sends, new.no_configs, idle)

  IsInitial-Conserved : (s : SendSystem D) → IsInitial s → Conserved s
  IsInitial-Conserved s new =
      let valid : IsValid s.path.writer = record {
        slots = new.slots;
        ordered = omega (arith, new.no_writes, new.no_reads);
        bounded = omega (arith, new.no_writes, new.no_reads);
        unwrapped = omega (arith, new.no_writes, new.no_reads);
      } in
      let pool : HasFree s.path.tx (blocks_from 0 31) =
        subst (λ p. HasFree p (blocks_from 0 31)) (sym new.new_pool)
          (fixed_pool-HasFree 31 (omega arith)) in
      let idle : contents s.path.writer ≡ [] = ground (arith, new.no_writes, new.no_reads) in
      let size : length s.path.tx.storage ≡ tx_block_count =
        ap (λ (p : FixedPool). length p.storage) new.new_pool ∙ size_of_pool in
      (
        blocks_from 0 31,
        pool,
        size,
        valid,
        inr idle,
        λ (b : ℕ). omega (arith, count_new b 31, no_owners b s new),
      )

  pub Reach-Conserved : (s t : SendSystem D) → IsInitial s → Reach s t → Conserved t
  Reach-Conserved s t new here = IsInitial-Conserved s new
  Reach-Conserved s _ new (after e t trace more) =
      step-Conserved e t more (Reach-Conserved s t new trace)

  -- In every state that calls, handlers, the timer and the write thread lead to from a new core, in any
  -- order and with any outcome of the coordinator, the device and the writer's start, each of the 32
  -- blocks of TxBlockPool is on the free list or has one owner, and only one: a Send or an
  -- AutosendConfig event that waits, the template of AutoSendAo, a job in the ring, or the job that the
  -- worker has in hand. Nothing else is on the free list or owned. The writer's counter has not wrapped.
  pub blocks_conserved :
      (s t : SendSystem D)
      → IsInitial s
      → Reach s t
      → (free : List ℕ) × HasFree t.path.tx free
        × ((b : ℕ)
            → count b free + owners b (stock t.path) + current_of b t.current
              ≡ (if ltb b tx_block_count then 1 else 0))
  blocks_conserved s t new trace =
      let (free, pool, size, valid, live, each) = Reach-Conserved s t new trace in
      (free, pool, each)
