-- ===== src/Transmit/Outcome.antt =====
-- What a caller of xcom_send learns from its result.
use xcom_lua.Prelude.{
  ℕ, ◌+◌, ◌%◌, ◌≤◌, ◌≡◌, ◌≢◌, refl, sym, ap, ◌∙◌, ◌⊎◌, inl, inr, true, false, List, [], ◌∷◌, ◌++◌,
  Option, none, some, arith,
}
use mathlib.Core.Path.{subst}
use xcom_lua.Prelude.Tests.{ltb, if◌then◌else◌, Bool-cases}
use xcom_lua.Prelude.Lists.{take}
use xcom_lua.Prelude.Word.{ℤ, ◌==ℤ◌, add32}
use xcom_lua.Status.{
  xcom_ok, xcom_err_not_open, xcom_err_busy, xcom_err_full, SubmitDisposition, tx_submit_status,
  direct, queued, merged, dropped_overload, rejected_state, dropped_policy, dropped_rate_limit,
  rejected_full, unknown,
}
use xcom_lua.Port.{is_open}
use xcom_lua.Transmit.{
  tx_block_bytes, Transmit, write_block, count_rejected_tx, submit_write, finish_send, xcom_send,
}
use xcom_lua.Transmit.Owners.{count, owners, stock, IsKept}
use xcom_lua.Pool.Stack.{HasFree}
use xcom_lua.Transmit.Calls.{xcom_send-IsKept}
use xcom_lua.Transmit.Blocks.{try_alloc_tx-IsKept}

module _ {D : Type 0} where
  -- The event that a send queued, with what its block holds.
  pub record IsQueued (content : List ℕ) (size : ℕ) (s t : Transmit D) : Type 0 where
    pub opened : is_open s.core.port_state ≡ true
    pub fits : size ≤ tx_block_bytes
    pub bid : ℕ
    pub was_free : owners bid (stock s) ≡ 0
    pub event :
        t.sends
        ≡ s.sends
          ++ (record { block = bid; length = size % 65536; generation = s.core.generation } ∷ [])
    pub copied : t.bytes bid ≡ take size content
    pub uncounted : t.core ≡ s.core

  -- A refusal queues nothing, leaves the jobs, the templates and the owners of the blocks as they were,
  -- with every block that was free free again, and one for want of room, with no other, is counted.
  pub record IsRefused (code : ℤ) (s t : Transmit D) : Type 0 where
    pub nothing : t.sends ≡ s.sends
    pub same_jobs : t.writer ≡ s.writer
    pub same_active : t.active ≡ s.active
    pub same_configs : t.configs ≡ s.configs
    pub same_template : t.autosend ≡ s.autosend
    pub counted :
        t.core.tx_rejected
        ≡ (if code ==ℤ xcom_err_not_open then s.core.tx_rejected else add32 s.core.tx_rejected 1)
    pub overload : t.core.tx_rejected_overload ≡ (
        if code ==ℤ xcom_err_busy
        then add32 s.core.tx_rejected_overload 1
        else s.core.tx_rejected_overload)

  abbrev pub HasOutcome : List ℕ → (size : ℕ) → Transmit D → Transmit D × ℤ → Type 0
  HasOutcome content size s (t, code) =
      (code ≡ xcom_ok) × IsQueued content size s t
      ⊎ ((code ==ℤ xcom_ok) ≡ false) × IsRefused code s t

  HasOutcome-same :
      (content : List ℕ) (size : ℕ) (s : Transmit D) (r r' : Transmit D × ℤ)
      → r' ≡ r
      → HasOutcome content size s r
      → HasOutcome content size s r'
  HasOutcome-same content size s r r' same told = subst (HasOutcome content size s) (sym same) told

  finish_send_outcome :
      (disposition : Option SubmitDisposition) (bid size : ℕ) (s : Transmit D)
      → let (t, code) = finish_send disposition bid size s in
        ((code ≡ xcom_ok)
          × (t ≡ record s {
            sends =
                s.sends
                ++ (record { block = bid; length = size % 65536; generation = s.core.generation }
                    ∷ []);
          }))
        ⊎ ((code ==ℤ xcom_ok) ≡ false) × IsRefused code s t
  unfolding finish_send submit_write tx_submit_status
  finish_send_outcome none bid size s = inr (
    refl,
    record {
      nothing = refl;
      same_jobs = refl;
      same_active = refl;
      same_configs = refl;
      same_template = refl;
      counted = refl;
      overload = refl;
    },
  )
  finish_send_outcome (some direct) bid size s = inl (refl, refl)
  finish_send_outcome (some queued) bid size s = inl (refl, refl)
  finish_send_outcome (some merged) bid size s = inl (refl, refl)
  finish_send_outcome (some dropped_overload) bid size s = inr (
    refl,
    record {
      nothing = refl;
      same_jobs = refl;
      same_active = refl;
      same_configs = refl;
      same_template = refl;
      counted = refl;
      overload = refl;
    },
  )
  finish_send_outcome (some rejected_state) bid size s = inr (
    refl,
    record {
      nothing = refl;
      same_jobs = refl;
      same_active = refl;
      same_configs = refl;
      same_template = refl;
      counted = refl;
      overload = refl;
    },
  )
  finish_send_outcome (some dropped_policy) bid size s = inr (
    refl,
    record {
      nothing = refl;
      same_jobs = refl;
      same_active = refl;
      same_configs = refl;
      same_template = refl;
      counted = refl;
      overload = refl;
    },
  )
  finish_send_outcome (some dropped_rate_limit) bid size s = inr (
    refl,
    record {
      nothing = refl;
      same_jobs = refl;
      same_active = refl;
      same_configs = refl;
      same_template = refl;
      counted = refl;
      overload = refl;
    },
  )
  finish_send_outcome (some rejected_full) bid size s = inr (
    refl,
    record {
      nothing = refl;
      same_jobs = refl;
      same_active = refl;
      same_configs = refl;
      same_template = refl;
      counted = refl;
      overload = refl;
    },
  )
  finish_send_outcome (some unknown) bid size s = inr (
    refl,
    record {
      nothing = refl;
      same_jobs = refl;
      same_active = refl;
      same_configs = refl;
      same_template = refl;
      counted = refl;
      overload = refl;
    },
  )

  -- A block that nobody held is free again exactly if it was free.
  abbrev pub HasFreed : (held : ℕ → ℕ) (s t : Transmit D) → Type 0
  HasFreed held s t =
      (free : List ℕ) × (free' : List ℕ) × HasFree s.tx free
      × HasFree t.tx free'
      × ((b : ℕ) → count b free' + owners b (stock t) ≡ count b free + owners b (stock s))

  kept_free : (held : ℕ → ℕ) (s t : Transmit D) → IsKept held s → IsKept held t → HasFreed held s t
  kept_free held s t (free, stack, size, valid, live, each)
        (free', stack', size', valid', live', each') =
      (free, free', stack, stack', λ (b : ℕ). omega (arith, each b, each' b))

  send_outcome :
      (disposition : Option SubmitDisposition) (content : List ℕ) (size : ℕ) (s : Transmit D)
      (held : ℕ → ℕ)
      → size ≢ 0
      → IsKept held s
      → HasOutcome content size s (xcom_send disposition (some content) size s)
  unfolding xcom_send
  send_outcome disposition content size s held some_bytes kept =
      let result = xcom_send disposition (some content) size s in
      let refused : (code : ℤ)
          → ((code ==ℤ xcom_err_not_open) ≡ false)
          → ((code ==ℤ xcom_err_busy) ≡ false)
          → IsRefused code s (count_rejected_tx s) =
        λ code open_fault busy_fault. record {
          nothing = refl;
          same_jobs = refl;
          same_active = refl;
          same_configs = refl;
          same_template = refl;
          counted = ground (arith, open_fault);
          overload = ground (arith, busy_fault);
        } in
      elim (Bool-cases (ltb tx_block_bytes size)) [
        | inl e ↦
            HasOutcome-same content size s (count_rejected_tx s, xcom_err_full) result
              (ground (arith, e, some_bytes)) (inr (refl, refused xcom_err_full refl refl))
        | inr e ↦ elim (Bool-cases (is_open s.core.port_state)) [
          | inr f ↦
              HasOutcome-same content size s (s, xcom_err_not_open) result
                (ground (arith, e, f, some_bytes))
                (inr (
                  refl,
                  record {
                    nothing = refl;
                    same_jobs = refl;
                    same_active = refl;
                    same_configs = refl;
                    same_template = refl;
                    counted = refl;
                    overload = refl;
                  },
                ))
          | inl f ↦ elim (try_alloc_tx-IsKept held s kept) [
            | inl failed ↦
                HasOutcome-same content size s (count_rejected_tx s, xcom_err_full) result
                  (ground (arith, e, f, failed, some_bytes))
                  (inr (refl, refused xcom_err_full refl refl))
            | inr (x, pool, took, (free, stack, fits, valid, live, each)) ↦
                let t : Transmit D = write_block x (take size content) (record s { tx = pool }) in
                let sent : result ≡ finish_send disposition x size t =
                  ground (arith, e, f, took, some_bytes) in
                let mine : t.bytes x ≡ take size content = ground arith in
                let told : HasOutcome content size s (finish_send disposition x size t) =
                  elim (finish_send_outcome disposition x size t) [
                    | inl (ok, same) ↦ inl (
                      ok,
                      record {
                        opened = f;
                        fits = ground (arith, e);
                        bid = x;
                        was_free = ground (arith, each x);
                        event = ap (λ (u : Transmit D). u.sends) same;
                        copied = ap (λ (u : Transmit D). u.bytes x) same ∙ mine;
                        uncounted = ap (λ (u : Transmit D). u.core) same;
                      },
                    )
                    | inr (bad, r) ↦ inr (
                      bad,
                      record {
                        nothing = r.nothing;
                        same_jobs = r.same_jobs;
                        same_active = r.same_active;
                        same_configs = r.same_configs;
                        same_template = r.same_template;
                        counted = r.counted;
                        overload = r.overload;
                      },
                    )
                  ] in
                HasOutcome-same content size s (finish_send disposition x size t) result sent told
          ]
        ]
      ]

  -- A send of a non-empty message from a pool that is kept either returns XCOM_OK, and then the session
  -- was open, the message fits in a block, and one Send event was added, last, with a block that had no
  -- owner, the message's length and the session's generation, and the block holds the message; or returns another status, and then
  -- no event was added, no job, template or configuration changed, tx_rejected went up by one unless the status is
  -- XCOM_ERR_NOT_OPEN, and tx_rejected_overload exactly when it is XCOM_ERR_BUSY. In both cases a block
  -- is as often on the free list or owned as before, so none that was claimed for a refused send is lost.
  pub xcom_send_outcome :
      (disposition : Option SubmitDisposition) (content : List ℕ) (size : ℕ) (s : Transmit D)
      (held : ℕ → ℕ)
      → size ≢ 0
      → IsKept held s
      → HasOutcome content size s (xcom_send disposition (some content) size s)
        × HasFreed held s (xcom_send disposition (some content) size s).0
  xcom_send_outcome disposition content size s held some_bytes kept = (
    send_outcome disposition content size s held some_bytes kept,
    kept_free held s (xcom_send disposition (some content) size s).0 kept
        (xcom_send-IsKept held disposition (some content) size s kept),
  )
