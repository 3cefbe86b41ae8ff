-- ===== src/Lines/Storm.antt =====
-- What a storm of line errors leaves in the diagnostic log.
use xcom_lua.Prelude.{ℕ, zero, suc, ◌+◌, ◌%◌, ◌≡◌, ap, ◌∙◌, true, arith}
use xcom_lua.Prelude.Lists.{length}
use xcom_lua.Prelude.Word.{u32_mod, add32}
use xcom_lua.Core.{CoreCtx}
use xcom_lua.Lines.{LineEvents, milestone, line_status_ingress}

-- `n` overruns, one for each call.
abbrev pub one_overrun : LineEvents
one_overrun = record {
  framing_errors = 0;
  parity_errors = 0;
  overrun_errors = 1;
  break_events = 0;
  hold_events = 0;
}

module _ {D : Type 0} where
  abbrev pub overruns : ℕ → CoreCtx D → CoreCtx D
  overruns zero c = c
  overruns (suc n) c = overruns n (line_status_ingress one_overrun c)

  one_overrun-records :
      (c : CoreCtx D)
      → milestone c.framing_errors ≡ true
      → (length (line_status_ingress one_overrun c).diag ≡ suc (length c.diag))
        × ((line_status_ingress one_overrun c).framing_errors ≡ c.framing_errors)
        × ((line_status_ingress one_overrun c).overrun_errors ≡ add32 c.overrun_errors 1)
  unfolding line_status_ingress
  one_overrun-records c h = ground (arith, h)

  -- While the count of the framing errors stands at a power of two, every single overrun leaves a
  -- record in the diagnostic log: `n` overruns leave `n` records. All of them are counted, modulo 2^32.
  pub overruns_records :
      (n : ℕ) (c : CoreCtx D)
      → milestone c.framing_errors ≡ true
      → (length (overruns n c).diag ≡ n + length c.diag)
        × ((overruns n c).overrun_errors % u32_mod ≡ (c.overrun_errors + n) % u32_mod)
  overruns_records zero c h = (omega arith, omega arith)
  overruns_records (suc n) c h =
      let (more, same, counted) = one_overrun-records c h in
      let c' = line_status_ingress one_overrun c in
      let (records, total) = overruns_records n c' (ap milestone same ∙ h) in
      (omega (arith, records, more), omega (arith, total, counted))
