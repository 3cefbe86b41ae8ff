-- ===== src/Transmit/Owners.antt =====
-- Who owns the blocks of TxBlockPool: the events that wait, the template of AutoSendAo, and the jobs of
-- the writer.
use xcom_lua.Prelude.{ℕ, ◌+◌, ◌≡◌, sym, ◌⊎◌, Bool, true, List, [], ◌∷◌, ◌++◌, arith}
use Prim.{tt}
use mathlib.Core.Path.{subst}
use xcom_lua.Prelude.Tests.{ltb, ◌==◌, if◌then◌else◌}
use xcom_lua.Prelude.Lists.{length}
use xcom_lua.Pool.{FixedPool}
use xcom_lua.Pool.Stack.{NotIn, HasFree}
use xcom_lua.Writer.{Job, SessionWriter}
use xcom_lua.Writer.Fifo.{IsValid, contents}
use xcom_lua.Transmit.{
  tx_block_count, no_block_id, TxDescriptor, AutoTemplateDescriptor, SendCtx, Transmit,
}

abbrev pub one : ℕ → ℕ → ℕ
one b x = if b == x then 1 else 0

abbrev pub count : ℕ → List ℕ → ℕ
count b [] = 0
count b (x ∷ xs) = one b x + count b xs

abbrev pub sends_of : ℕ → List TxDescriptor → ℕ
sends_of b [] = 0
sends_of b (d ∷ ds) = one b d.block + sends_of b ds

-- A descriptor that turns the automatic send off has no block.
abbrev pub config_of : ℕ → AutoTemplateDescriptor → ℕ
config_of b d = if d.interval_ms == 0 then 0 else one b d.template_block

abbrev pub configs_of : ℕ → List AutoTemplateDescriptor → ℕ
configs_of b [] = 0
configs_of b (d ∷ ds) = config_of b d + configs_of b ds

abbrev pub jobs_of : ℕ → List Job → ℕ
jobs_of b [] = 0
jobs_of b (j ∷ js) = one b j.block + jobs_of b js

abbrev pub template_of : ℕ → SendCtx → ℕ
template_of b ctx = if ctx.autosend_block == no_block_id then 0 else one b ctx.autosend_block

pub sends_of-append :
    (b : ℕ) (ds : List TxDescriptor) (d : TxDescriptor)
    → sends_of b (ds ++ (d ∷ [])) ≡ sends_of b ds + one b d.block
sends_of-append b [] d = omega arith
sends_of-append b (x ∷ ds) d = omega (arith, sends_of-append b ds d)

pub configs_of-append :
    (b : ℕ) (ds : List AutoTemplateDescriptor) (d : AutoTemplateDescriptor)
    → configs_of b (ds ++ (d ∷ [])) ≡ configs_of b ds + config_of b d
configs_of-append b [] d = omega arith
configs_of-append b (x ∷ ds) d = omega (arith, configs_of-append b ds d)

pub jobs_of-append :
    (b : ℕ) (js : List Job) (j : Job) → jobs_of b (js ++ (j ∷ [])) ≡ jobs_of b js + one b j.block
jobs_of-append b [] j = omega arith
jobs_of-append b (x ∷ js) j = omega (arith, jobs_of-append b js j)

pub NotIn-count : (b : ℕ) (xs : List ℕ) → count b xs ≡ 0 → NotIn b xs
NotIn-count b [] h = tt
NotIn-count b (x ∷ xs) h = (ground arith, NotIn-count b xs (ground arith))

-- What the conservation is about.
abbrev pub Stock : Type 0
Stock = FixedPool × SessionWriter × Bool × List TxDescriptor × List AutoTemplateDescriptor × SendCtx

-- The owners of a block: the events that wait, the template, and the jobs of the writer.
abbrev pub owners : ℕ → Stock → ℕ
owners b (tx, writer, active, sends, configs, autosend) =
    sends_of b sends + configs_of b configs + template_of b autosend + jobs_of b (contents writer)

-- Each of the 32 blocks is on the free list or has one owner, counting those that `held` counts, and
-- nobody owns anything else; a writer that is not active has no job.
abbrev pub KeepsAll : (held : ℕ → ℕ) → Stock → Type 0
KeepsAll held (tx, writer, active, sends, configs, autosend) =
    (free : List ℕ) × HasFree tx free
    × (length tx.storage ≡ tx_block_count)
    × IsValid writer
    × ((active ≡ true) ⊎ (contents writer ≡ []))
    × ((b : ℕ)
        → count b free + owners b (tx, writer, active, sends, configs, autosend) + held b
          ≡ (if ltb b tx_block_count then 1 else 0))

module _ {D : Type 0} where
  abbrev pub stock : Transmit D → Stock
  stock s = (s.tx, s.writer, s.active, s.sends, s.configs, s.autosend)

  abbrev pub IsKept : (held : ℕ → ℕ) → Transmit D → Type 0
  IsKept held s = KeepsAll held (stock s)

  pub IsKept-stock :
      (held : ℕ → ℕ) (s t : Transmit D) → stock t ≡ stock s → IsKept held s → IsKept held t
  IsKept-stock held s t same kept = subst (KeepsAll held) (sym same) kept

  pub IsKept-same :
      (held held' : ℕ → ℕ) (s : Transmit D)
      → ((b : ℕ) → held b ≡ held' b)
      → IsKept held s
      → IsKept held' s
  IsKept-same held held' s same (free, stack, size, valid, live, each) =
      (free, stack, size, valid, live, λ (b : ℕ). omega (arith, each b, same b))
