-- ===== src/Transmit.antt =====
-- The send path: xcom_send and xcom_set_auto_template of xcom_core/src/abi/xcom_abi.cpp, the actions of
-- SendAo and AutoSendAo of xcom_core/src/ao/xcom_ao.cpp, and the tick of the timer of
-- xcom_core/src/runtime/xcom_core.cpp. A handle is valid, and `core` is not null; a pointer that is
-- null is `none`. What the coact coordinator does with an event is an argument; `none` says that the
-- pool of control events is exhausted. The events are not mergeable, so one that is accepted waits.
pub mod Actions
pub mod Traffic
pub mod Owners
pub mod Blocks
pub mod Calls
pub mod Events
pub mod Worker
pub mod Steps
pub mod Conservation
pub mod Outcome
mod Tests
use Prim.Native.String.{String}
use xcom_lua.Prelude.{
  ℕ, zero, suc, ◌+◌, ◌-◌, ◌/◌, ◌%◌, Bool, true, false, not, ◌&&◌, ◌||◌, List, [], ◌∷◌, ◌++◌, Option,
  none, some,
}
use xcom_lua.Prelude.Tests.{ltb, leb, ◌==◌, if◌then◌else◌}
use xcom_lua.Prelude.Lists.{take, drop}
use xcom_lua.Prelude.Word.{ℤ, ◌==ℤ◌, u32_mod, add32}
use xcom_lua.Status.{
  xcom_ok, xcom_err_param, xcom_err_not_open, xcom_err_busy, xcom_err_full, xcom_err_io,
  SubmitDisposition, tx_submit_status, submit_accepted,
}
use xcom_lua.Port.{is_open}
use xcom_lua.Core.{CoreCtx, Metrics, push_error, beat_dispatcher}
use xcom_lua.Pool.{FixedPool, index, allocate, release}
use xcom_lua.Writer.{
  Job, SessionWriter, max_jobs, try_enqueue, try_pop, reject_job, release_leftover_jobs, run_job,
}

-- kTxBlockBytes, kTxBlockCount, and the 0xFFFF that stands for no block.
abbrev pub tx_block_bytes : ℕ
tx_block_bytes = 4096

abbrev pub tx_block_count : ℕ
tx_block_count = 32

abbrev pub no_block_id : ℕ
no_block_id = 65535

pub record TxDescriptor : Type 0 where
  pub block : ℕ
  pub length : ℕ
  pub generation : ℕ

pub record AutoTemplateDescriptor : Type 0 where
  pub template_block : ℕ
  pub template_length : ℕ
  pub interval_ms : ℕ

pub record SendCtx : Type 0 where
  pub autosend_block : ℕ
  pub autosend_length : ℕ
  pub autosend_interval_ms : ℕ

-- The state of the path: the core, TxBlockPool with what its blocks hold, the writer and whether it is
-- active, the template of AutoSendAo, the interval of the timer if it runs, and the events that wait,
-- oldest first: Send and AutosendConfig with their payloads, and the number of Autosend.
pub record Transmit (D : Type 0) : Type 0 where
  pub core : CoreCtx D
  pub tx : FixedPool
  pub bytes : ℕ → List ℕ
  pub writer : SessionWriter
  pub active : Bool
  pub autosend : SendCtx
  pub timer : Option ℕ
  pub sends : List TxDescriptor
  pub configs : List AutoTemplateDescriptor
  pub ticks : ℕ

-- A uint32_t in memory, the low byte first.
abbrev pub u32_bytes : ℕ → List ℕ
u32_bytes n = (n % 256) ∷ (n / 256 % 256) ∷ (n / 65536 % 256) ∷ (n / 16777216 % 256) ∷ []

-- TxBlockPool::release of a block, in the pool with what its blocks hold: the link to the next free block
-- is written over the block's first word.
abbrev pub release_stock : (id : ℕ) → FixedPool × (ℕ → List ℕ) → FixedPool × (ℕ → List ℕ)
release_stock id (tx, bytes) = (
  release [] id tx,
  λ i. if i == id then u32_bytes (index tx.head) ++ drop 4 (bytes i) else bytes i,
)

module _ {D : Type 0} where
  -- TxBlockPool::try_alloc, the copy into the block, and release.
  unfoldable pub try_alloc_tx : Transmit D → Option (ℕ × Transmit D)
  try_alloc_tx s = elim (allocate [] s.tx) [
    | none ↦ none
    | some (block, pool) ↦ some (block % 65536, record s { tx = pool })
  ]

  abbrev pub write_block : (id : ℕ) → List ℕ → Transmit D → Transmit D
  write_block id content s = record s { bytes = λ i. if i == id then content else s.bytes i }

  abbrev pub release_tx : (id : ℕ) → Transmit D → Transmit D
  release_tx id s =
      let (tx, bytes) = release_stock id (s.tx, s.bytes) in record s { tx = tx; bytes = bytes }

  abbrev pub count_rejected_tx : Transmit D → Transmit D
  count_rejected_tx s = record s {
    core = record (s.core) {
      metrics = record (s.core.metrics) { tx_rejected = add32 s.core.tx_rejected 1 };
    };
  }

  abbrev pub count_overload : Transmit D → Transmit D
  count_overload s = record s {
    core = record (s.core) {
      metrics = record (s.core.metrics) {
        tx_rejected_overload = add32 s.core.tx_rejected_overload 1;
      };
    };
  }

  abbrev pub report : ℤ → (source : ℕ) → String → Transmit D → Transmit D
  report code source message s = record s { core = push_error code source message s.core }

  abbrev pub set_armed : Bool → Transmit D → Transmit D
  set_armed armed s = record s { core = record (s.core) { autosend_armed = armed } }

  -- sink_submit_write
  unfoldable pub submit_write :
      Option SubmitDisposition → TxDescriptor → Transmit D → Transmit D × ℤ
  submit_write none desc s = (s, xcom_err_full)
  submit_write (some disposition) desc s =
      let status = tx_submit_status disposition in
      ((if status ==ℤ xcom_ok then record s { sends = s.sends ++ (desc ∷ []) } else s), status)

  -- sink_submit_autosend_config
  unfoldable pub submit_autosend_config :
      Option SubmitDisposition → AutoTemplateDescriptor → Transmit D → Transmit D × Bool
  submit_autosend_config none desc s = (s, false)
  submit_autosend_config (some disposition) desc s =
      let ok = submit_accepted disposition in
      ((if ok then record s { configs = s.configs ++ (desc ∷ []) } else s), ok)

  -- The end of xcom_send, after the copy.
  unfoldable pub finish_send :
      Option SubmitDisposition → (bid size : ℕ) → Transmit D → Transmit D × ℤ
  unfolding submit_write
  finish_send disposition bid size s =
      let desc : TxDescriptor = record {
        block = bid;
        length = size % 65536;
        generation = s.core.generation;
      } in
      let (s', status) = submit_write disposition desc s in
      let refused = count_rejected_tx (release_tx bid s') in
      if status ==ℤ xcom_ok
      then (s', xcom_ok)
      else ((if status ==ℤ xcom_err_busy then count_overload refused else refused), status)

  unfoldable pub xcom_send :
      Option SubmitDisposition → Option (List ℕ) → (size : ℕ) → Transmit D → Transmit D × ℤ
  unfolding try_alloc_tx finish_send
  xcom_send disposition none size s = (s, xcom_err_param)
  xcom_send disposition (some content) size s =
      if size == 0
      then (s, xcom_ok)
      else if ltb tx_block_bytes size
      then (count_rejected_tx s, xcom_err_full)
      else if not (is_open s.core.port_state)
      then (s, xcom_err_not_open)
      else elim (try_alloc_tx s) [
        | none ↦ (count_rejected_tx s, xcom_err_full)
        | some (bid, s') ↦ finish_send disposition bid size (write_block bid (take size content) s')
      ]

  -- The end of xcom_set_auto_template: `owned` says whether the descriptor has a block.
  unfoldable pub finish_template :
      Option SubmitDisposition
      → (owned : Bool) → AutoTemplateDescriptor
      → Transmit D
      → Transmit D × ℤ
  unfolding submit_autosend_config
  finish_template disposition owned desc s =
      let (s', ok) = submit_autosend_config disposition desc s in
      if ok then (s', xcom_ok) else (
        count_rejected_tx (if owned then release_tx desc.template_block s' else s'),
        xcom_err_full,
      )

  unfoldable pub xcom_set_auto_template :
      Option SubmitDisposition → Option (List ℕ) → (size interval : ℕ) → Transmit D → Transmit D × ℤ
  unfolding try_alloc_tx finish_template
  xcom_set_auto_template disposition data_ptr size interval s =
      let disabled : AutoTemplateDescriptor = record {
        template_block = no_block_id;
        template_length = 0;
        interval_ms = interval;
      } in
      let too_long : Transmit D × ℤ = (count_rejected_tx s, xcom_err_full) in
      if interval == 0
      then if ltb tx_block_bytes size
        then too_long
        else finish_template disposition false disabled s
      else elim data_ptr [
        | none ↦ (s, xcom_err_param)
        | some content ↦ if ltb tx_block_bytes size then too_long else elim (try_alloc_tx s) [
          | none ↦ (count_rejected_tx s, xcom_err_full)
          | some (bid, s') ↦
              finish_template disposition true
                (record {
                  template_block = bid;
                  template_length = size % 65536;
                  interval_ms = interval;
                })
                (write_block bid (take size content) s')
        ]
      ]
