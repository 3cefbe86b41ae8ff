-- ===== src/Lines/Tests.antt =====
-- A storm of overruns after one framing error.
use Prim.{Unit, tt}
use xcom_lua.Prelude.{◌+◌, ◌%◌, ◌≡◌, refl, true}
use xcom_lua.Prelude.Lists.{length}
use xcom_lua.Prelude.Word.{u32_mod}
use xcom_lua.Core.{CoreCtx}
use xcom_lua.Core.Sample.{core_with, zero_metrics}
use xcom_lua.Lines.{milestone}
use xcom_lua.Lines.Storm.{overruns, overruns_records}

abbrev one_error : CoreCtx Unit
one_error = record (core_with tt) { metrics = record zero_metrics { framing_errors = 1 } }

one_error_counts : milestone one_error.framing_errors ≡ true
unfolding milestone
one_error_counts = refl

overruns_records_example :
    (length (overruns 100 one_error).diag ≡ 100 + 0)
    × ((overruns 100 one_error).overrun_errors % u32_mod ≡ (0 + 100) % u32_mod)
overruns_records_example = overruns_records 100 one_error one_error_counts
