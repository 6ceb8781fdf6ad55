-- ===== src/Hls/Errors.antt =====
-- internal/api/hls_errors.go: what the errors of a start are to the client.
use Prim.Native.String.{String}
use cryp.Prelude.{ℕ}
use cryp.Hls.{
  HlsError, canceled, deadline_exceeded, over_capacity, metadata_missing, metadata_unavailable,
  failed,
}

-- `hlsStartHTTPStatus`.
unfoldable pub hls_start_http_status : HlsError → ℕ
hls_start_http_status metadata_missing = 409
hls_start_http_status metadata_unavailable = 409
hls_start_http_status over_capacity = 429
hls_start_http_status canceled = 409
hls_start_http_status deadline_exceeded = 504
hls_start_http_status failed = 500

-- `hlsStartErrorCode`.
unfoldable pub hls_start_error_code : HlsError → String
hls_start_error_code metadata_missing = "file_metadata_missing"
hls_start_error_code metadata_unavailable = "file_metadata_unavailable"
hls_start_error_code over_capacity = "hls_capacity_exceeded"
hls_start_error_code canceled = "hls_start_cancelled"
hls_start_error_code deadline_exceeded = "hls_start_timeout"
hls_start_error_code failed = "hls_start_failed"
