-- ===== src/Lane/References.antt =====
-- Each queued descriptor owns one reference to its block.
use xcom_lua.Prelude.{ℕ, ◌+◌, ◌≡◌, Bool, true, ◌&&◌, ◌||◌, List, [], ◌∷◌, ◌++◌, some, arith}
use xcom_lua.Prelude.Tests.{◌==◌, if◌then◌else◌}
use xcom_lua.Ring.{RingOps, RingLaws}
use xcom_lua.Lane.{RxBlockRef, PoolOps, Lane, file_backed_len, display_unlogged_bit, publish}

-- The reference counts of a pool: event_ref_inc adds one to its event's.
pub record RefLaws {P : Type 0} (ops : PoolOps P) : Type 0 where
  pub refs : ℕ → P → ℕ
  pub ref_inc_counts :
      (e event : ℕ) (p : P)
      → refs e (ops.ref_inc event p) ≡ refs e p + (if e == event then 1 else 0)

-- How many of the descriptors are for the event `e`.
abbrev pub count : ℕ → List RxBlockRef → ℕ
count e [] = 0
count e (x ∷ xs) = (if e == x.event then 1 else 0) + count e xs

count-append : (e : ℕ) (xs ys : List RxBlockRef) → count e (xs ++ ys) ≡ count e xs + count e ys
count-append e [] ys = omega arith
count-append e (x ∷ xs) ys = omega (arith, count-append e xs ys)

-- The display's copy of a descriptor.
abbrev pub display_copy : Bool → RxBlockRef → RxBlockRef
display_copy file_lane ref = record ref {
  len = file_backed_len ref.len + (if file_lane then 0 else display_unlogged_bit);
}

-- The references to `e` that the queued descriptors of a lane own.
abbrev pub queued : {P R : Type 0} {ring : RingOps RxBlockRef R} → RingLaws ring → ℕ → Lane P R → ℕ
queued laws e lane = count e (laws.items lane.display_ready) + count e (laws.items lane.raw_ready)

module _ {P R : Type 0} (ops : PoolOps P) (ring : RingOps RxBlockRef R) (laws : RingLaws ring) where
  -- A segment goes to the raw ring as it is, and to the display ring with its length tagged by
  -- bit 15 if there is no file lane.
  pub publish_items :
      (ref : RxBlockRef) (file_lane display_ok shown : Bool) (lane lane' : Lane P R)
      → publish ops ring ref file_lane display_ok lane ≡ some (lane', shown)
      → (laws.items lane'.raw_ready ≡ (
          if file_lane then laws.items lane.raw_ready ++ (ref ∷ []) else laws.items lane.raw_ready))
        × (laws.items lane'.display_ready ≡ (
            if display_ok
            then laws.items lane.display_ready ++ (display_copy file_lane ref ∷ [])
            else laws.items lane.display_ready))
        × (shown ≡ display_ok)
  unfolding publish
  publish_items ref file_lane display_ok shown lane lane' h = ground (
    arith,
    laws.push_items ref lane.raw_ready,
    laws.push_items (display_copy file_lane ref) lane.display_ready,
  )

  module _ (counts : RefLaws ops) where
    publish_refs :
        (e : ℕ) (ref : RxBlockRef) (file_lane display_ok shown : Bool) (lane lane' : Lane P R)
        → publish ops ring ref file_lane display_ok lane ≡ some (lane', shown)
        → counts.refs e lane'.pool
          ≡ counts.refs e lane.pool
            + (if file_lane && display_ok then (if e == ref.event then 1 else 0) else 0)
    unfolding publish
    publish_refs e ref file_lane display_ok shown lane lane' h =
        ground (arith, counts.ref_inc_counts e ref.event lane.pool)

    -- Publishing a segment to at least one lane uses up the caller's one reference to its block,
    -- and takes one more if both lanes hold the block: for each event, the references beyond those
    -- that queued descriptors own fall by the caller's one for the segment's event, and stay the
    -- same for every other event. So no reference is stranded or used twice.
    pub publish_references :
        (e : ℕ) (ref : RxBlockRef) (file_lane display_ok shown : Bool) (lane lane' : Lane P R)
        → publish ops ring ref file_lane display_ok lane ≡ some (lane', shown)
        → (file_lane || display_ok) ≡ true
        → counts.refs e lane'.pool + queued laws e lane + (if e == ref.event then 1 else 0)
          ≡ counts.refs e lane.pool + queued laws e lane'
    publish_references e ref file_lane display_ok shown lane lane' h some_lane =
        let (raw, display, _) = publish_items ref file_lane display_ok shown lane lane' h in
        ground (
          arith,
          raw,
          display,
          publish_refs e ref file_lane display_ok shown lane lane' h,
          count-append e (laws.items lane.raw_ready) (ref ∷ []),
          count-append e (laws.items lane.display_ready) (display_copy file_lane ref ∷ []),
        )
