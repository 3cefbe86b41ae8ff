-- ===== src/Status/Laws.antt =====
-- What a caller may conclude from a translated status.
use xcom_lua.Prelude.{suc, ◌≡◌, ◌≢◌, zero, ◌⊎◌, ◌↔◌, true, arith}
use xcom_lua.Prelude.Word.{ℤ, pos, negsuc}
use xcom_lua.Status.{
  XcomStatus, xcom_ok, xcom_err_busy, xcom_err_full, open_failure_status_from_result,
  SubmitDisposition, tx_submit_status, submit_accepted,
}

-- The negative codes.
abbrev pub IsFailure : XcomStatus → Type 0
IsFailure (pos n) = ⊥
IsFailure (negsuc n) = Unit

-- Whatever the owner recorded, the status of a failed open is negative, and is not the poll-again
-- code XCOM_ERR_BUSY.
pub last_result_resolved :
    (recorded : ℤ)
    → IsFailure (open_failure_status_from_result recorded)
      × (open_failure_status_from_result recorded ≢ xcom_err_busy)
unfolding open_failure_status_from_result
last_result_resolved (pos zero) = ground arith
last_result_resolved (pos (suc n)) = ground arith
last_result_resolved (negsuc n) = ground arith

-- A send is reported as sent exactly for the dispositions that the control path counts as accepted
-- and the merged one; and the capacity code is returned exactly for a full queue and for the
-- dispositions that the source does not know.
pub tx_submit_status_agrees :
    (d : SubmitDisposition)
    → ((tx_submit_status d ≡ xcom_ok)
        ↔ ((submit_accepted d ≡ true) ⊎ (d ≡ SubmitDisposition.merged)))
      × ((tx_submit_status d ≡ xcom_err_full)
          ↔ ((d ≡ SubmitDisposition.rejected_full) ⊎ (d ≡ SubmitDisposition.unknown)))
unfolding tx_submit_status submit_accepted
tx_submit_status_agrees d = ground arith
