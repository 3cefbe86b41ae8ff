-- ===== src/Display/Steps.antt =====
-- The copy and the loop over the ring, of drain_into.
use xcom_lua.Prelude.{
  ℕ, zero, suc, ◌+◌, ◌-◌, ◌≤◌, ◌<◌, ◌≡◌, refl, sym, ap, ◌⊎◌, inl, inr, Bool, true, false, ◌&&◌,
  List, [], ◌∷◌, ◌++◌, append-nil, some, arith,
}
use mathlib.Core.Path.{subst}
use Prim.{Unit, tt}
use xcom_lua.Prelude.Tests.{ltb, ◌==◌, if◌then◌else◌, Bool-cases}
use xcom_lua.Prelude.Lists.{length, drop, slice, slice-append, length-take_le}
use xcom_lua.Prelude.Word.{u32_mod}
use xcom_lua.Ring.{RingOps, RingLaws}
use xcom_lua.Display.{DisplayDesc, DisplayLane, release_buf, DrainResult, copy_out, next_batch}

-- The text of the batches of one session, in the order of the ring.
unfoldable pub texts : (gen : ℕ) → (ℕ → List ℕ) → List DisplayDesc → List ℕ
texts gen bytes [] = []
texts gen bytes (d ∷ ds) =
    (if d.gen == gen then slice 0 d.len (bytes d.buf) else []) ++ texts gen bytes ds

unfoldable pub AllSmall : List DisplayDesc → Type 0
AllSmall [] = Unit
AllSmall (d ∷ ds) = (d.len < u32_mod) × AllSmall ds

module _ {Q : Type 0} where
  -- What the consumer has yet to copy of the batch it holds.
  abbrev pub held : (gen : ℕ) → DisplayLane Q → List ℕ
  held gen lane =
      if lane.consumer_active && (lane.consumer_desc.gen == gen)
      then slice lane.consumer_offset lane.consumer_desc.len (lane.bytes lane.consumer_desc.buf)
      else []

  abbrev pub IsInside : DisplayLane Q → Type 0
  IsInside lane =
      (lane.consumer_active ≡ false)
      ⊎ (lane.consumer_offset ≤ lane.consumer_desc.len) × (lane.consumer_desc.len < u32_mod)

  -- What a copy does for the caller.
  pub record Copied (capacity gen : ℕ) (lane : DisplayLane Q) (d : DrainResult Q) : Type 0 where
    pub text : d.output ++ held gen d.lane ≡ held gen lane
    pub inside : IsInside d.lane
    pub ring_kept : d.lane.ready_ring ≡ lane.ready_ring
    pub bytes_kept : d.lane.bytes ≡ lane.bytes
    pub fits : length d.output ≤ capacity

  pub copy_out-Copied :
      (capacity gen : ℕ) (lane : DisplayLane Q)
      → lane.consumer_active ≡ true
      → (lane.consumer_desc.gen == gen) ≡ true
      → lane.consumer_offset ≤ lane.consumer_desc.len
      → lane.consumer_desc.len < u32_mod
      → Copied capacity gen lane (copy_out capacity lane)
  unfolding copy_out
  copy_out-Copied capacity gen lane active same inside small =
      let off = lane.consumer_offset in
      let len = lane.consumer_desc.len in
      let source = lane.bytes lane.consumer_desc.buf in
      let rest = append-nil (slice off len source) in
      elim (Bool-cases (ltb (len - off) capacity)) [
        | inl e ↦ record {
          text = ground (arith, e, active, same, inside, small, rest);
          inside = ground (arith, e, active, same, inside, small);
          ring_kept = ground (arith, e, inside, small);
          bytes_kept = ground (arith, e, inside, small);
          fits = ground (arith, e, inside, small, length-take_le (len - off) (drop off source));
        }
        | inr e ↦
            let short = length-take_le capacity (drop off source) in
            elim (Bool-cases (off + capacity == len)) [
              | inl f ↦ record {
                text = ground (arith, e, f, active, same, inside, small, rest);
                inside = ground (arith, e, f, active, same, inside, small);
                ring_kept = ground (arith, e, f, inside, small);
                bytes_kept = ground (arith, e, f, inside, small);
                fits = ground (arith, e, f, inside, small, short);
              }
              | inr f ↦
                  let joined =
                    slice-append off (off + capacity) len source (omega arith)
                      (ground (arith, e, inside)) in
                  record {
                    text = ground (arith, e, f, active, same, inside, small, joined);
                    inside = ground (arith, e, f, active, same, inside, small);
                    ring_kept = ground (arith, e, f, inside, small);
                    bytes_kept = ground (arith, e, f, inside, small);
                    fits = ground (arith, e, f, inside, small, short);
                  }
            ]
      ]

module _ {Q : Type 0} {ring : RingOps DisplayDesc Q} (laws : RingLaws ring) where
  -- What the loop over the ring ends with: no batch of the session was left, or the consumer holds
  -- the first one, from its start.
  pub record Found (gen : ℕ) (lane : DisplayLane Q) (found : Bool) (lane' : DisplayLane Q)
      : Type 0 where
    pub bytes_kept : lane'.bytes ≡ lane.bytes
    pub small : AllSmall (laws.items lane'.ready_ring)
    pub outcome :
        ((found ≡ false)
          × (lane'.consumer_active ≡ false)
          × (laws.items lane'.ready_ring ≡ [])
          × (texts gen lane.bytes (laws.items lane.ready_ring) ≡ []))
        ⊎ (found ≡ true)
          × (lane'.consumer_active ≡ true)
          × ((lane'.consumer_desc.gen == gen) ≡ true)
          × (lane'.consumer_offset ≡ 0)
          × (lane'.consumer_desc.len < u32_mod)
          × (slice 0 lane'.consumer_desc.len (lane.bytes lane'.consumer_desc.buf)
                ++ texts gen lane.bytes (laws.items lane'.ready_ring)
              ≡ texts gen lane.bytes (laws.items lane.ready_ring))

  pub next_batch-Found :
      (gen fuel : ℕ) (ds : List DisplayDesc) (lane : DisplayLane Q)
      → laws.items lane.ready_ring ≡ ds
      → AllSmall ds
      → lane.consumer_active ≡ false
      → length ds < fuel
      → (found : Bool) × (lane' : DisplayLane Q) × (next_batch ring fuel gen lane
          ≡ some (found, lane'))
        × Found gen lane found lane'
  unfolding next_batch texts AllSmall
  next_batch-Found gen zero ds lane h small idle enough = absurd (omega arith)
  next_batch-Found gen (suc fuel) [] lane h small idle enough = (
    false,
    lane,
    ground (arith, laws.pop_empty lane.ready_ring h),
    record {
      bytes_kept = refl;
      small = rw h tt;
      outcome = inl (refl, idle, h, ap (texts gen lane.bytes) h);
    },
  )
  next_batch-Found gen (suc fuel) (d ∷ ds) lane h (fits, small) idle enough =
      let (q, popped, rest) = laws.pop_oldest lane.ready_ring d ds h in
      let lane' : DisplayLane Q = record lane { ready_ring = q; consumer_desc = d } in
      elim (Bool-cases (d.gen == gen)) [
        | inl e ↦ (
          true,
          record lane' { consumer_offset = 0; consumer_active = true },
          ground (arith, e, popped),
          record {
            bytes_kept = refl;
            small = subst AllSmall (sym rest) small;
            outcome = inr (
              refl,
              refl,
              e,
              refl,
              fits,
              ground (arith, e, ap (texts gen lane.bytes) rest, ap (texts gen lane.bytes) h),
            );
          },
        )
        | inr e ↦
            let (found, last, ran, f) =
              next_batch-Found gen fuel ds (release_buf d.buf lane') rest small idle
                (omega arith) in
            let later = ap (texts gen lane.bytes) rest in
            let all = ap (texts gen lane.bytes) h in
            (
              found,
              last,
              ground (arith, e, popped, ran),
              record {
                bytes_kept = f.bytes_kept;
                small = f.small;
                outcome = elim f.outcome [
                  | inl (none_left, stopped, empty, t) ↦
                      inl (none_left, stopped, empty, ground (arith, e, later, all, t))
                  | inr (some_left, started, same, zero_offset, fits, t) ↦ inr (
                    some_left,
                    started,
                    same,
                    zero_offset,
                    fits,
                    ground (arith, e, later, all, t),
                  )
                ];
              },
            )
      ]
