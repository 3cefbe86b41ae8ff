-- ===== src/Status.antt =====
-- The result codes of xcom_core/include/xcom/xcom.h, and the two translations into them:
-- xcom_core/src/abi/open_failure_status.hpp and xcom_core/src/runtime/tx_submit_status.hpp.
pub mod Laws
mod Tests
use xcom_lua.Prelude.{ℕ, zero, suc, Bool, true, false, ◌||◌}
use xcom_lua.Prelude.Tests.{◌==◌, if◌then◌else◌}
use xcom_lua.Prelude.Word.{ℤ, pos, negsuc, ◌==ℤ◌}

-- `typedef int32_t XcomStatus`
abbrev pub XcomStatus : Type 0
XcomStatus = ℤ

abbrev pub xcom_ok : XcomStatus
xcom_ok = pos 0

abbrev pub xcom_err_param : XcomStatus
xcom_err_param = negsuc 0

abbrev pub xcom_err_not_open : XcomStatus
xcom_err_not_open = negsuc 1

abbrev pub xcom_err_already_open : XcomStatus
xcom_err_already_open = negsuc 2

abbrev pub xcom_err_busy : XcomStatus
xcom_err_busy = negsuc 3

abbrev pub xcom_err_full : XcomStatus
xcom_err_full = negsuc 4

abbrev pub xcom_err_io : XcomStatus
xcom_err_io = negsuc 5

abbrev pub xcom_err_timeout : XcomStatus
xcom_err_timeout = negsuc 6

abbrev pub xcom_err_unsupported : XcomStatus
xcom_err_unsupported = negsuc 8

-- The `switch` on a raw Win32 code.
pub win32_open_status : ℕ → XcomStatus
win32_open_status code =
    if code == 87
    then xcom_err_param
    else if code == 121 || (code == 258 || code == 1460)
    then xcom_err_timeout
    else xcom_err_io

-- `recorded > 0`, `recorded < 0`, and 0, in the source's order.
unfoldable pub open_failure_status_from_result : ℤ → XcomStatus
unfolding win32_open_status
open_failure_status_from_result (pos (suc n)) = win32_open_status (suc n)
open_failure_status_from_result (negsuc n) =
    if negsuc n ==ℤ xcom_err_busy then xcom_err_io else negsuc n
open_failure_status_from_result (pos zero) = xcom_err_io

-- The submit dispositions that the source tells apart, and `unknown` for its `default:`.
pub data SubmitDisposition : Type 0 where
  direct queued merged : SubmitDisposition
  dropped_overload rejected_state dropped_policy dropped_rate_limit : SubmitDisposition
  rejected_full unknown : SubmitDisposition

unfoldable pub tx_submit_status : SubmitDisposition → XcomStatus
tx_submit_status direct = xcom_ok
tx_submit_status queued = xcom_ok
tx_submit_status merged = xcom_ok
tx_submit_status dropped_overload = xcom_err_busy
tx_submit_status rejected_state = xcom_err_busy
tx_submit_status dropped_policy = xcom_err_busy
tx_submit_status dropped_rate_limit = xcom_err_busy
tx_submit_status rejected_full = xcom_err_full
tx_submit_status unknown = xcom_err_full

-- What sink_submit_rx_kick, sink_submit_control and sink_submit_autosend_config of
-- xcom_core/src/runtime/xcom_core.cpp return for a disposition.
unfoldable pub submit_accepted : SubmitDisposition → Bool
submit_accepted queued = true
submit_accepted direct = true
submit_accepted _ = false
