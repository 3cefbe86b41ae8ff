-- ===== src/Display/Discard.antt =====
-- What a reset throws away, and what of it is charged.
use xcom_lua.Prelude.{ℕ, ◌+◌, ◌%◌, ◌<◌, ◌≡◌, ap, inl, inr, Bool, true, List, [], ◌∷◌, ◌++◌, arith}
use xcom_lua.Prelude.Tests.{if◌then◌else◌, Bool-cases}
use xcom_lua.Ring.{RingOps, RingLaws}
use xcom_lua.Pool.{FixedPool, release}
use xcom_lua.Display.{
  DisplayDesc, DisplayLane, rx_unlogged_flag, is_unlogged, source_len, push_ready,
}

-- The source bytes of the batches that no log holds.
abbrev pub unlogged_bytes : List DisplayDesc → ℕ
unlogged_bytes [] = 0
unlogged_bytes (d ∷ ds) =
    (if is_unlogged d.rx_meta then source_len d.rx_meta else 0) + unlogged_bytes ds

abbrev pub released : List DisplayDesc → FixedPool → FixedPool
released [] pool = pool
released (d ∷ ds) pool = released ds (release [] d.buf pool)

unlogged_bytes-append :
    (ds : List DisplayDesc) (d : DisplayDesc)
    → unlogged_bytes (ds ++ (d ∷ []))
      ≡ unlogged_bytes ds + (if is_unlogged d.rx_meta then source_len d.rx_meta else 0)
unlogged_bytes-append [] d = omega arith
unlogged_bytes-append (x ∷ ds) d = ground (arith, unlogged_bytes-append ds d)

module _ {Q : Type 0} {ring : RingOps DisplayDesc Q} (laws : RingLaws ring) where
  -- From `lane` to `lane'` the batches `ds` were given back, and nothing else was changed.
  pub record Discarded (ds : List DisplayDesc) (lane lane' : DisplayLane Q) : Type 0 where
    pub emptied : laws.items lane'.ready_ring ≡ []
    pub pool : lane'.buffers ≡ released ds lane.buffers
    pub bytes_kept : lane'.bytes ≡ lane.bytes
    pub held_kept :
        (lane'.consumer_desc ≡ lane.consumer_desc)
        × (lane'.consumer_offset ≡ lane.consumer_offset)
        × (lane'.consumer_active ≡ lane.consumer_active)

  -- A batch that is pushed adds its source bytes to what a reset would charge if and only if it is
  -- unlogged: the packing of the flag with the length is faithful below 2^15.
  pub push_ready_unlogged :
      (id len ingress_ms generation source : ℕ) (unlogged : Bool) (lane : DisplayLane Q)
      → source < rx_unlogged_flag
      → (push_ready ring id len ingress_ms generation source unlogged lane).1 ≡ true
      → unlogged_bytes (
          laws.items
            (push_ready ring id len ingress_ms generation source unlogged lane).0.ready_ring)
        ≡ unlogged_bytes (laws.items lane.ready_ring) + (if unlogged then source else 0)
  unfolding push_ready
  push_ready_unlogged id len ingress_ms generation source unlogged lane small pushed =
      let desc : DisplayDesc = record {
        buf = id;
        rx_meta = source % rx_unlogged_flag + (if unlogged then rx_unlogged_flag else 0);
        len = len;
        ingress_ms = ingress_ms;
        gen = generation;
      } in
      let grown = ap unlogged_bytes (laws.push_items desc lane.ready_ring) in
      let added = unlogged_bytes-append (laws.items lane.ready_ring) desc in
      elim (Bool-cases unlogged) [
        | inl e ↦ ground (arith, e, pushed, grown, added)
        | inr e ↦ ground (arith, e, pushed, grown, added)
      ]
