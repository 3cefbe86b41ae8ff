-- ===== src/Display/Order.antt =====
-- The text of a session reaches the caller in order.
use xcom_lua.Prelude.{
  ℕ, ◌≤◌, ◌<◌, ◌≡◌, refl, sym, ap, ◌∙◌, ◌⊎◌, inl, inr, Bool, true, false, List, [], ◌++◌,
  append_assoc, some, arith,
}
use mathlib.Core.Path.{subst}
use xcom_lua.Prelude.Tests.{◌==◌, if◌then◌else◌, Bool-cases}
use xcom_lua.Prelude.Lists.{length}
use xcom_lua.Prelude.Word.{u32_mod}
use xcom_lua.Ring.{RingOps, RingLaws}
use xcom_lua.Display.{
  DisplayDesc, DisplayLane, drop_stale, DrainResult, nothing_drained, copy_out, next_batch,
  drain_into,
}
use xcom_lua.Display.Steps.{
  texts, AllSmall, held, IsInside, copy_out-Copied, Found, next_batch-Found,
}

module _ {Q : Type 0} {ring : RingOps DisplayDesc Q} (laws : RingLaws ring) where
  -- The text of a session that the caller has yet to get.
  abbrev pub pending_text : (gen : ℕ) → DisplayLane Q → List ℕ
  pending_text gen lane = held gen lane ++ texts gen lane.bytes (laws.items lane.ready_ring)

  abbrev pub IsReady : DisplayLane Q → Type 0
  IsReady lane = IsInside lane × AllSmall (laws.items lane.ready_ring)

  -- What a call gives: the next of the text, and nothing only if there is none.
  pub record Advanced (capacity gen : ℕ) (lane : DisplayLane Q) (d : DrainResult Q) : Type 0 where
    pub text : d.output ++ pending_text gen d.lane ≡ pending_text gen lane
    pub ready : IsReady d.lane
    pub fits : length d.output ≤ capacity
    pub ended : (d.ok ≡ true) ⊎ (d.ok ≡ false) × (pending_text gen lane ≡ [])

  -- A copy from a batch that the consumer holds.
  copied_Advanced :
      (capacity gen : ℕ) (lane : DisplayLane Q)
      → lane.consumer_active ≡ true
      → (lane.consumer_desc.gen == gen) ≡ true
      → lane.consumer_offset ≤ lane.consumer_desc.len
      → lane.consumer_desc.len < u32_mod
      → AllSmall (laws.items lane.ready_ring)
      → Advanced capacity gen lane (copy_out capacity lane)
  unfolding copy_out
  copied_Advanced capacity gen lane active same inside small all =
      let d = copy_out capacity lane in
      let c = copy_out-Copied capacity gen lane active same inside small in
      record {
        text =
            sym (
              append_assoc d.output (held gen d.lane)
                (texts gen d.lane.bytes (laws.items d.lane.ready_ring)))
            ∙ ap (λ xs. xs ++ texts gen d.lane.bytes (laws.items d.lane.ready_ring)) c.text
            ∙ ap (λ (b : ℕ → List ℕ). held gen lane ++ texts gen b (laws.items d.lane.ready_ring))
                c.bytes_kept
            ∙ ap (λ (q : Q). held gen lane ++ texts gen lane.bytes (laws.items q)) c.ring_kept;
        ready = (c.inside, subst (λ q. AllSmall (laws.items q)) (sym c.ring_kept) all);
        fits = c.fits;
        ended = inl refl;
      }

  -- The lane without the batch of another session.
  record Freshened (gen : ℕ) (lane fresh : DisplayLane Q) : Type 0 where
    held_kept : held gen fresh ≡ held gen lane
    ring_kept : fresh.ready_ring ≡ lane.ready_ring
    bytes_kept : fresh.bytes ≡ lane.bytes
    state :
        (fresh.consumer_active ≡ false)
        ⊎ (fresh.consumer_active ≡ true)
          × ((fresh.consumer_desc.gen == gen) ≡ true)
          × (fresh.consumer_offset ≤ fresh.consumer_desc.len)
          × (fresh.consumer_desc.len < u32_mod)

  drop_stale-Freshened :
      (gen : ℕ) (lane : DisplayLane Q) → IsInside lane → Freshened gen lane (drop_stale gen lane)
  unfolding drop_stale
  drop_stale-Freshened gen lane inside = elim (Bool-cases lane.consumer_active) [
    | inr e ↦ record {
      held_kept = ground (arith, e);
      ring_kept = ground (arith, e);
      bytes_kept = ground (arith, e);
      state = ground (arith, e);
    }
    | inl e ↦ elim (Bool-cases (lane.consumer_desc.gen == gen)) [
      | inl f ↦ record {
        held_kept = ground (arith, e, f);
        ring_kept = ground (arith, e, f);
        bytes_kept = ground (arith, e, f);
        state = ground (arith, e, f, inside);
      }
      | inr f ↦ record {
        held_kept = ground (arith, e, f);
        ring_kept = ground (arith, e, f);
        bytes_kept = ground (arith, e, f);
        state = ground (arith, e, f);
      }
    ]
  ]

  Advanced-from :
      (capacity gen : ℕ) (lane fresh : DisplayLane Q) (d : DrainResult Q)
      → pending_text gen fresh ≡ pending_text gen lane
      → Advanced capacity gen fresh d
      → Advanced capacity gen lane d
  Advanced-from capacity gen lane fresh d same a = record {
    text = a.text ∙ same;
    ready = a.ready;
    fits = a.fits;
    ended = elim a.ended [
      | inl ok ↦ inl ok
      | inr (done, none_left) ↦ inr (done, sym same ∙ none_left)
    ];
  }

  -- The lane after the loop over the ring has what was pending before.
  pending_text_kept :
      (gen : ℕ) (fresh lane' : DisplayLane Q)
      → fresh.consumer_active ≡ false
      → Found laws gen fresh true lane'
      → lane'.consumer_active ≡ true
      → (lane'.consumer_desc.gen == gen) ≡ true
      → lane'.consumer_offset ≡ 0
      → pending_text gen lane' ≡ pending_text gen fresh
  pending_text_kept gen fresh lane' idle f active same zero_offset = elim f.outcome [
    | inl (absent, stopped, empty, t) ↦ ground arith
    | inr (present, started, same_gen, offset, fits, t) ↦
        ground (arith, idle, active, same, zero_offset, t, f.bytes_kept)
  ]

  idle_Advanced :
      (fuel capacity gen : ℕ) (fresh : DisplayLane Q)
      → fresh.consumer_active ≡ false
      → AllSmall (laws.items fresh.ready_ring)
      → 0 < capacity
      → length (laws.items fresh.ready_ring) < fuel
      → (found : Bool) × (lane' : DisplayLane Q) × (next_batch ring fuel gen fresh
          ≡ some (found, lane'))
        × Advanced capacity gen fresh
            (if found then copy_out capacity lane' else nothing_drained lane')
  unfolding texts
  idle_Advanced fuel capacity gen fresh idle small room enough =
      let (found, lane', ran, f) =
        next_batch-Found laws gen fuel (laws.items fresh.ready_ring) fresh refl small idle enough in
      elim f.outcome [
        | inl (absent, stopped, empty, t) ↦ (
          false,
          lane',
          ground (arith, ran, absent),
          record {
            text = ground (arith, idle, stopped, t, ap (texts gen lane'.bytes) empty);
            ready = (inl stopped, f.small);
            fits = omega arith;
            ended = inr (refl, ground (arith, idle, t));
          },
        )
        | inr (present, active, same, offset, fits, t) ↦ (
          true,
          lane',
          ground (arith, ran, present),
          Advanced-from capacity gen fresh lane' (copy_out capacity lane')
              (pending_text_kept gen fresh lane' idle
                (subst (λ b. Found laws gen fresh b lane') present f) active same offset)
              (copied_Advanced capacity gen lane' active same (omega (arith, offset)) fits f.small),
        )
      ]

  -- With room for a byte, a drain ends after a turn for each ready batch and one more. What it gives
  -- and what is then pending is, put together, what was pending: the bytes of the batches of the
  -- current session, each once and in order, and of no other session. It gives no more than the
  -- capacity, and returns false only if nothing was pending.
  pub drain_into_advances :
      (fuel capacity gen : ℕ) (lane : DisplayLane Q)
      → IsReady lane
      → 0 < capacity
      → length (laws.items lane.ready_ring) < fuel
      → (d : DrainResult Q) × (drain_into ring fuel true capacity gen lane ≡ some d)
        × Advanced capacity gen lane d
  unfolding drain_into
  drain_into_advances fuel capacity gen lane (inside, small) room enough =
      let fresh = drop_stale gen lane in
      let kept = drop_stale-Freshened gen lane inside in
      let small' = subst (λ q. AllSmall (laws.items q)) (sym kept.ring_kept) small in
      let same_text : pending_text gen fresh ≡ pending_text gen lane =
        ap (λ xs. xs ++ texts gen fresh.bytes (laws.items fresh.ready_ring)) kept.held_kept
        ∙ ap (λ (b : ℕ → List ℕ). held gen lane ++ texts gen b (laws.items fresh.ready_ring))
            kept.bytes_kept
        ∙ ap (λ (q : Q). held gen lane ++ texts gen lane.bytes (laws.items q)) kept.ring_kept in
      elim kept.state [
        | inr (active, same, le, fits) ↦ (
          copy_out capacity fresh,
          ground (arith, active, room),
          Advanced-from capacity gen lane fresh (copy_out capacity fresh) same_text
              (copied_Advanced capacity gen fresh active same le fits small'),
        )
        | inl idle ↦
            let (found, lane', ran, a) =
              idle_Advanced fuel capacity gen fresh idle small' room
                (omega (arith, ap (λ (q : Q). length (laws.items q)) kept.ring_kept)) in
            let d = if found then copy_out capacity lane' else nothing_drained lane' in
            (
              d,
              ground (arith, idle, room, ran),
              Advanced-from capacity gen lane fresh d same_text a,
            )
      ]
