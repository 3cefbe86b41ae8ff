-- ===== src/Status/Tests.antt =====
-- Status translations at concrete inputs.
use xcom_lua.Prelude.{◌≡◌, refl}
use xcom_lua.Prelude.Word.{pos}
use xcom_lua.Status.{open_failure_status_from_result, xcom_err_io, xcom_err_param}

access_denied_is_io : open_failure_status_from_result (pos 5) ≡ xcom_err_io
unfolding open_failure_status_from_result
access_denied_is_io = refl

invalid_parameter : open_failure_status_from_result (pos 87) ≡ xcom_err_param
unfolding open_failure_status_from_result
invalid_parameter = refl
