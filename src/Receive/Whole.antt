-- ===== src/Receive/Whole.antt =====
-- A received block is formatted whole and once, or not at all.
use xcom_lua.Prelude.{
  ℕ, ◌+◌, ◌-◌, ◌%◌, ◌<◌, ◌≡◌, ◌≢◌, refl, sym, ap, ◌∙◌, ◌⊎◌, inl, inr, Bool, true, false, List, [],
  ◌∷◌, ◌++◌, append_assoc, append-nil, some, arith,
}
use mathlib.Core.Path.{subst}
use Prim.{Unit}
use xcom_lua.Prelude.Tests.{◌==◌, if◌then◌else◌, Bool-cases, Option-cases}
use xcom_lua.Prelude.Lists.{length, take, slice}
use xcom_lua.Ring.{RingOps, RingLaws, RingCapacity}
use xcom_lua.Core.{CoreCtx}
use xcom_lua.Pool.{index, allocate, release}
use xcom_lua.Display.{DisplayDesc, DisplayLane, try_acquire, push_ready, rx_unlogged_flag}
use xcom_lua.Display.Steps.{texts, held}
use xcom_lua.Display.Order.{pending_text}
use xcom_lua.Receive.{formatted, write_batch, rx_format_block}

take_whole : (xs : List ℕ) → take (length xs) xs ≡ xs
take_whole [] = refl
take_whole (x ∷ xs) = ap (λ ys. x ∷ ys) (take_whole xs)

slice_whole : (xs : List ℕ) → slice 0 (length xs) xs ≡ xs
slice_whole xs =
    let e : length xs - 0 ≡ length xs = omega arith in ap (λ n. take n xs) e ∙ take_whole xs

texts-append :
    (gen : ℕ) (bytes : ℕ → List ℕ) (ds : List DisplayDesc) (d : DisplayDesc)
    → texts gen bytes (ds ++ (d ∷ []))
      ≡ texts gen bytes ds ++ (if d.gen == gen then slice 0 d.len (bytes d.buf) else [])
unfolding texts
texts-append gen bytes [] d = append-nil (if d.gen == gen then slice 0 d.len (bytes d.buf) else [])
texts-append gen bytes (x ∷ ds) d =
    ap (λ xs. (if x.gen == gen then slice 0 x.len (bytes x.buf) else []) ++ xs)
      (texts-append gen bytes ds d)
    ∙ sym (
        append_assoc (if x.gen == gen then slice 0 x.len (bytes x.buf) else []) (texts gen bytes ds)
          (if d.gen == gen then slice 0 d.len (bytes d.buf) else []))

-- No batch of the list is in the buffer.
unfoldable pub AllOther : ℕ → List DisplayDesc → Type 0
AllOther id [] = Unit
AllOther id (d ∷ ds) = (d.buf ≢ id) × AllOther id ds

texts-write_batch :
    {Q : Type 0} (gen id : ℕ) (out : List ℕ) (lane : DisplayLane Q) (ds : List DisplayDesc)
    → AllOther id ds
    → texts gen (write_batch id out lane).bytes ds ≡ texts gen lane.bytes ds
unfolding texts AllOther
texts-write_batch gen id out lane [] other = refl
texts-write_batch gen id out lane (d ∷ ds) (differs, other) =
    ground (arith, texts-write_batch gen id out lane ds other)

length_zero : (xs : List ℕ) → (length xs == 0) ≡ true → xs ≡ []
length_zero [] h = refl
length_zero (x ∷ xs) h = ground (arith, h)

module _ {Q : Type 0} where
  held-write_batch :
      (gen id : ℕ) (out : List ℕ) (lane : DisplayLane Q)
      → (lane.consumer_active ≡ false) ⊎ (lane.consumer_desc.buf ≢ id)
      → held gen (write_batch id out lane) ≡ held gen lane
  held-write_batch gen id out lane other = ground arith

  acquired_id :
      (id : ℕ) (lane acquired : DisplayLane Q)
      → try_acquire lane ≡ some (id, acquired)
      → index lane.buffers.head % 65536 ≡ id
  unfolding try_acquire allocate
  acquired_id id lane acquired h = ground arith

  -- A claim changes nothing but the free buffers.
  acquired_kept :
      (id : ℕ) (lane acquired : DisplayLane Q)
      → try_acquire lane ≡ some (id, acquired)
      → acquired ≡ record lane { buffers = acquired.buffers }
  unfolding try_acquire
  acquired_kept id lane acquired h = elim (Option-cases (allocate [] lane.buffers)) [
    | inl e ↦ ground (arith, e)
    | inr ((block, pool), e) ↦ ground (arith, e)
  ]

module _ {Q : Type 0} {ring : RingOps DisplayDesc Q} (laws : RingLaws ring) where
  -- The buffer that is claimed next is in no batch.
  pub record IsSpare (lane : DisplayLane Q) : Type 0 where
    pub unready : AllOther (index lane.buffers.head % 65536) (laws.items lane.ready_ring)
    pub unheld :
        (lane.consumer_active ≡ false) ⊎ (lane.consumer_desc.buf ≢ index lane.buffers.head % 65536)

  -- A core that only counted paused bytes since `c`.
  abbrev pub paused_since : ℕ → CoreCtx (DisplayLane Q) → CoreCtx (DisplayLane Q)
  paused_since n c = record c { metrics = record (c.metrics) { display_paused_bytes = n } }

  abbrev pub Formatted : List ℕ → CoreCtx (DisplayLane Q) → CoreCtx (DisplayLane Q) × Bool → Type 0
  Formatted bytes c (c', ok) =
      ((ok ≡ false) × (c' ≡ paused_since c'.display_paused_bytes c))
      ⊎ (ok ≡ true)
        × (c'.text ≡ (formatted bytes c).0)
        × (pending_text laws c.generation c'.display
            ≡ pending_text laws c.generation c.display ++ (formatted bytes c).1)

  -- The three ways to end after a buffer was claimed.
  acquired_lem :
      {places : ℕ}
      → RingCapacity laws places
      → (bytes : List ℕ) (len ingress_ms id : ℕ) (unlogged : Bool) (c : CoreCtx (DisplayLane Q))
        (acquired : DisplayLane Q)
      → length (laws.items c.display.ready_ring) < places
      → IsSpare c.display
      → c.pause_display ≡ false
      → try_acquire c.display ≡ some (id, acquired)
      → Formatted bytes c (rx_format_block ring bytes len ingress_ms unlogged c)
  unfolding rx_format_block push_ready texts
  acquired_lem capacity bytes len ingress_ms id unlogged c acquired room spare running e =
      let gen = c.generation in
      let out = (formatted bytes c).1 in
      let items = laws.items c.display.ready_ring in
      let which = acquired_id id c.display acquired e in
      let same = acquired_kept id c.display acquired e in
      let text_kept =
        texts-write_batch gen id out c.display items
          (subst (λ i. AllOther i items) which spare.unready) in
      let held_kept = held-write_batch gen id out c.display (
        subst (λ i. (c.display.consumer_active ≡ false) ⊎ (c.display.consumer_desc.buf ≢ i)) which
          spare.unheld) in
      elim (Bool-cases (length out == 0)) [
        | inl f ↦
            let nothing = length_zero out f in
            let released : (rx_format_block ring bytes len ingress_ms unlogged c).0.display
                ≡ record (write_batch id out c.display) {
                  buffers = release [] id acquired.buffers;
                } =
              ground (arith, running, e, f, same) in
            inr (
              ground (arith, running, e, f),
              ground (arith, running, e, f),
              ap (λ (l : DisplayLane Q). pending_text laws gen l) released
                  ∙ ap (λ xs. xs ++ texts gen (write_batch id out c.display).bytes items) held_kept
                  ∙ ap (λ xs. held gen c.display ++ xs) text_kept
                  ∙ sym (append-nil (pending_text laws gen c.display))
                  ∙ ap (λ xs. pending_text laws gen c.display ++ xs) (sym nothing),
            )
        | inr f ↦
            let desc : DisplayDesc = record {
              buf = id;
              rx_meta = len % rx_unlogged_flag + (if unlogged then rx_unlogged_flag else 0);
              len = length out;
              ingress_ms = ingress_ms;
              gen = gen;
            } in
            let pushed = capacity.push_room desc c.display.ready_ring room in
            let grown = laws.push_items desc c.display.ready_ring in
            let lane : DisplayLane Q = record (write_batch id out c.display) {
              buffers = acquired.buffers;
              ready_ring = (ring.try_push desc c.display.ready_ring).0;
            } in
            let queued : (rx_format_block ring bytes len ingress_ms unlogged c).0.display ≡ lane =
              ground (arith, running, e, f, same, pushed) in
            let whole : texts gen lane.bytes (items ++ (desc ∷ []))
                ≡ texts gen c.display.bytes items ++ out =
              ground (arith, texts-append gen lane.bytes items desc, text_kept, slice_whole out) in
            let added : texts gen lane.bytes (laws.items lane.ready_ring)
                ≡ texts gen c.display.bytes items ++ out =
              ap (texts gen lane.bytes) (ground (arith, grown, pushed)) ∙ whole in
            inr (
              ground (arith, running, e, f, same, pushed),
              ground (arith, running, e, f, same, pushed),
              ap (λ (l : DisplayLane Q). pending_text laws gen l) queued
                  ∙ ap (λ xs. xs ++ texts gen lane.bytes (laws.items lane.ready_ring)) held_kept
                  ∙ ap (λ xs. held gen c.display ++ xs) added
                  ∙ sym (append_assoc (held gen c.display) (texts gen c.display.bytes items) out),
            )
      ]

  -- If the ready ring has a place left and the buffer that is claimed next is in no batch, a block is
  -- refused, and then nothing changes but the count of paused bytes, so that it can be tried again; or
  -- it is formatted, the text state moves on, and what the caller has yet to get of the session is
  -- followed by exactly the formatted bytes.
  pub rx_format_block_whole :
      {places : ℕ}
      → RingCapacity laws places
      → (bytes : List ℕ) (len ingress_ms : ℕ) (unlogged : Bool) (c : CoreCtx (DisplayLane Q))
      → length (laws.items c.display.ready_ring) < places
      → IsSpare c.display
      → Formatted bytes c (rx_format_block ring bytes len ingress_ms unlogged c)
  unfolding rx_format_block
  rx_format_block_whole capacity bytes len ingress_ms unlogged c room spare =
      elim (Bool-cases c.pause_display) [
        | inl e ↦ inl (ground (arith, e), ground (arith, e))
        | inr e ↦ elim (Option-cases (try_acquire c.display)) [
          | inl f ↦ inl (ground (arith, e, f), ground (arith, e, f))
          | inr ((id, acquired), f) ↦
              acquired_lem capacity bytes len ingress_ms id unlogged c acquired room spare e f
        ]
      ]
