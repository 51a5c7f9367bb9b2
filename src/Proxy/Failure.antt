-- ===== src/Proxy/Failure.antt =====
-- classifyModelFailure of internal/proxy/failure_log.go.
use ainode.Prelude.{
  ℕ, ◌≡◌, arith, Bool, true, false, ◌||◌, Option, none, some, String, str_eq, if◌then◌else◌, leb,
  ◌==◌,
}
use ainode.Proxy.RoundTrip.{response, is_failure}

pub record ProviderError : Type 0 where
  pub status_code : ℕ
  pub message : String
  pub type : String
  pub code : String

-- The error's type, its code, and whether another attempt may help.
unfoldable pub classify_model_failure : ℕ → Option ProviderError → String × String × Bool
classify_model_failure status (some e) =
    let retryable = (status == 429) || leb 500 status in
    (e.type, e.code, (if str_eq e.code "bad_gateway" then true else retryable))
classify_model_failure status none =
    if status == 429
    then ("rate_limit_error", "rate_limit", true)
    else if status == 502
    then ("server_error", "bad_gateway", true)
    else if status == 503
    then ("server_error", "service_unavailable", true)
    else if status == 504
    then ("server_error", "gateway_timeout", true)
    else if leb 500 status
    then ("server_error", "upstream_server_error", true)
    else if status == 401
    then ("authentication_error", "unauthorized", false)
    else if status == 403
    then ("permission_error", "forbidden", false)
    else if status == 402
    then ("billing_error", "insufficient_quota", false)
    else if leb 400 status
    then ("invalid_request_error", "request_failed", false)
    else ("server_error", "request_failed", false)

-- For every status code, a failure that the provider did not translate is logged as retryable
-- exactly if the status is one on which the proxy goes on to another attempt.
pub classify-retries :
    (status : ℕ) → (classify_model_failure status none).2 ≡ is_failure (response status)
unfolding classify_model_failure
classify-retries status = ground arith
