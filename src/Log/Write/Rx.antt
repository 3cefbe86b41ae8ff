-- ===== src/Log/Write/Rx.antt =====
-- What becomes of a raw block.
use xcom_lua.Prelude.{
  ℕ, ◌+◌, ◌-◌, ◌%◌, ◌≤◌, ◌<◌, ◌≡◌, refl, sym, ap, ◌∙◌, ◌⊎◌, inl, inr, true, false, List, ◌++◌,
  append-nil, some, arith,
}
use xcom_lua.Prelude.Tests.{ltb, if◌then◌else◌, ◌==◌, Bool-cases}
use xcom_lua.Prelude.Lists.{slice, length}
use xcom_lua.Prelude.Word.{u32_mod}
use xcom_lua.Status.{xcom_err_io}
use xcom_lua.Core.{push_error}
use xcom_lua.Lane.{RxBlockRef, PoolOps, Lane}
use xcom_lua.Log.{FileOps, LogWriter}
use xcom_lua.Log.Write.{write_rx, process_rx_ref, charge_loss, release_rx}
use xcom_lua.Log.Write.RxLoop.{write_rx_lem}
use xcom_lua.Log.Write.Contents.{FileLaws, Patience}

module _ {D P R J C W : Type 0} (pool_ops : PoolOps P) where
  -- The raw block after its write has ended: its tail is charged, and it is released.
  abbrev settled : RxBlockRef → (to : ℕ) → LogWriter D P R J C W → LogWriter D P R J C W
  settled ref to s = release_rx pool_ops ref (
      if ltb to ref.len
      then record s {
        core =
            push_error xcom_err_io 2 "raw RX log tail unwritten at stop (counted as loss)"
              (charge_loss (ref.len - to) s.core);
      }
      else s)

  settled_lem :
      (ref : RxBlockRef) (to : ℕ) (s : LogWriter D P R J C W)
      → to ≤ ref.len
      → ((settled ref to s).core.save_rejected_bytes % u32_mod
          ≡ (s.core.save_rejected_bytes + (ref.len - to)) % u32_mod)
        × ((settled ref to s).rx ≡ record (s.rx) { pool = pool_ops.gc ref.event s.rx.pool })
        × ((settled ref to s).os ≡ s.os)
  settled_lem ref to s h = ground arith

module _ {D P R J C W : Type 0} (ops : FileOps W) (laws : FileLaws ops)
    (patience : Patience ops) where
  module _ (pool_ops : PoolOps P) (payload : ℕ → P → List ℕ) where
    process_settled :
        (fuel file to : ℕ) (ref : RxBlockRef) (s s' : LogWriter D P R J C W)
        → s.log_file ≡ some file
        → (ref.len == 0) ≡ false
        → write_rx ops fuel file ref.len (payload ref.event s.rx.pool) 0 s ≡ some (to, s')
        → process_rx_ref ops pool_ops payload fuel ref s ≡ some (settled pool_ops ref to s')
    unfolding process_rx_ref
    process_settled fuel file to ref s s' opened some_bytes ran =
        rw (some_bytes, opened, ran, process_rx_ref) refl

    process_empty :
        (fuel : ℕ) (ref : RxBlockRef) (s : LogWriter D P R J C W)
        → (ref.len == 0) ≡ true
        → process_rx_ref ops pool_ops payload fuel ref s ≡ some (release_rx pool_ops ref s)
    unfolding process_rx_ref
    process_empty fuel ref s e = rw (e, process_rx_ref) refl

    -- A raw block that the writer takes while a file is open, with fuel for its bytes and for the failed
    -- writes before the disk recovers or a stop is requested: the call returns; the file has got the
    -- first bytes of the block, in order and each once; the bytes that it has not got are charged to
    -- the loss ledger, modulo 2^32; there are such bytes only if a stop was requested; and the block
    -- is released once.
    pub process_rx_ref_ledger :
        (fuel file : ℕ) (ref : RxBlockRef) (s : LogWriter D P R J C W)
        → s.log_file ≡ some file
        → ref.len < u32_mod
        → ref.len ≤ length (payload ref.event s.rx.pool)
        → patience.left s.os + ref.len < fuel
        → (to : ℕ) × (s' : LogWriter D P R J C W) × (process_rx_ref ops pool_ops payload fuel ref s
            ≡ some s')
          × (to ≤ ref.len)
          × (laws.contents file s'.os
              ≡ laws.contents file s.os ++ slice 0 to (payload ref.event s.rx.pool))
          × (s'.core.save_rejected_bytes % u32_mod
              ≡ (s.core.save_rejected_bytes + (ref.len - to)) % u32_mod)
          × ((to ≡ ref.len) ⊎ (ops.stopping s'.os ≡ true))
          × (s'.rx ≡ record (s.rx) { pool = pool_ops.gc ref.event s.rx.pool })
    process_rx_ref_ledger fuel file ref s opened small whole enough =
        elim (Bool-cases (ref.len == 0)) [
          | inl e ↦ (
            0,
            release_rx pool_ops ref s,
            process_empty fuel ref s e,
            omega arith,
            sym (append-nil (laws.contents file s.os)),
            ground arith,
            inl (ground arith),
            refl,
          )
          | inr e ↦
              let (to, t, ran, wrote) =
                write_rx_lem ops laws patience fuel file ref.len (payload ref.event s.rx.pool) 0 s
                  small whole (omega arith) (omega arith) in
              let (charged, lane, os) = settled_lem pool_ops ref to t wrote.within in
              let core =
                ap (λ (r : LogWriter D P R J C W). r.core.save_rejected_bytes) wrote.wrote.kept in
              let rx = ap (λ (r : LogWriter D P R J C W). r.rx) wrote.wrote.kept in
              (
                to,
                settled pool_ops ref to t,
                process_settled fuel file to ref s t opened e ran,
                wrote.within,
                ap (laws.contents file) os ∙ wrote.wrote.text,
                charged ∙ omega (arith, core),
                elim wrote.ended [ inl all ↦ inl all | inr stop ↦ inr (ap ops.stopping os ∙ stop) ],
                lane ∙ ap (λ (l : Lane P R). record l { pool = pool_ops.gc ref.event l.pool }) rx,
              )
        ]
