-- ===== src/Proxy/Response/Bills.antt =====
-- What internal/proxy/reverse_proxy.go knows of a request at its end, and the bills and the log
-- rows that it makes of it.
use ainode.Prelude.{
  ℕ, Bool, true, false, ◌||◌, Option, none, some, List, String, str_eq, if◌then◌else◌,
}
use ainode.Prelude.Int.{ℤ, pos, ◌-ℤ◌, int64, int32}
use ainode.Billing.Request.{SettlementRequest, RequestLogRequest}
use ainode.Middleware.Auth.{BillingContext}
use ainode.Proxy.Pricing.{UsageTokens}
use ainode.Proxy.Tally.{Usage, Counts, ReaderCall, is_positive, or_kept, cached_of}

-- What the context of the request holds at the end: that of the middlewares, and the channel that
-- the transport has chosen.
pub record ProxyContext : Type 0 where
  pub billing : BillingContext
  pub channel_id : ℤ
  pub provider : String
  pub public_model_name : String
  pub upstream_model_name : String
  pub input_payload : List ℕ

-- A response of the upstream. The body of one that is no stream: it cannot be read, or its usage
-- is there or not; a stream is the calls of its reader.
pub data UpstreamBody : Type 0 where
  unreadable : UpstreamBody
  whole : Option Usage → UpstreamBody
  stream : List ReaderCall → UpstreamBody

-- The transport fails on every channel, or ends with a response of some status.
pub data Outcome : Type 0 where
  proxy_error : Outcome
  response : ℕ → UpstreamBody → Outcome

-- The request of the ErrorHandler is not the copy in whose context the transport has put the
-- channel.
abbrev pub outside_transport : ProxyContext → ProxyContext
outside_transport c = record c { channel_id = pos 0; provider = "" }

-- PublicModelName, or the name of the model where it is missing.
unfoldable pub model_name_of : ProxyContext → String
model_name_of c =
    if str_eq c.public_model_name "" then c.billing.model_name else c.public_model_name

-- The bill that the handlers hand to Refund.
unfoldable pub refund_bill : ProxyContext → SettlementRequest
refund_bill c = record {
  user_id = c.billing.user_id;
  api_key_id = c.billing.api_key_id;
  channel_id = c.channel_id;
  model_name = model_name_of c;
  prompt_tokens = int32 c.billing.prompt_tokens;
  completion_tokens = pos 0;
  cache_hit_tokens = pos 0;
  cache_miss_tokens = pos 0;
  pre_deducted_cents = pos 0;
  sub_deducted = pos 0;
  grant_deducted = pos 0;
  cash_deducted = pos 0;
  actual_cost_cents = pos 0;
  log_type = "";
  request_id = c.billing.request_id;
}

-- The usage of a body that is no stream: the counts that the settlement gets.
unfoldable pub whole_usage : ℤ → Option Usage → UsageTokens
whole_usage prompt_tokens none = record {
  prompt = prompt_tokens;
  completion = pos 0;
  cache_hit = pos 0;
  cache_miss = pos 0;
}
whole_usage prompt_tokens (some u) =
    let prompt = or_kept u.prompt_tokens prompt_tokens in
    let explicit = is_positive u.cache_hit_tokens || is_positive u.cache_miss_tokens in
    let detailed = is_positive (cached_of u.cached_tokens) in
    record {
      prompt = prompt;
      completion = u.completion_tokens;
      cache_hit =
          if explicit
          then u.cache_hit_tokens
          else if detailed
          then cached_of u.cached_tokens
          else pos 0;
      cache_miss =
          if explicit
          then u.cache_miss_tokens
          else if detailed
          then int64 (prompt -ℤ cached_of u.cached_tokens)
          else pos 0;
    }

-- The counts of a stream, as onComplete gets them.
abbrev pub stream_usage : Counts → UsageTokens
stream_usage c = record {
  prompt = c.prompt;
  completion = c.counted;
  cache_hit = c.cache_hit;
  cache_miss = c.cache_miss;
}

unfoldable pub failure_request_log : ProxyContext → String → ℤ → RequestLogRequest
failure_request_log c upstream_model_name status = record {
  user_id = c.billing.user_id;
  api_key_id = c.billing.api_key_id;
  channel_id = c.channel_id;
  provider = c.provider;
  request_type = c.billing.request_type;
  public_model_name = model_name_of c;
  upstream_model_name = upstream_model_name;
  input_payload = c.input_payload;
  prompt_tokens = int32 c.billing.prompt_tokens;
  completion_tokens = pos 0;
  cache_hit_tokens = pos 0;
  cache_miss_tokens = pos 0;
  amount_cents = pos 0;
  pre_deducted_cents = c.billing.pre_deducted_cents;
  status_code = status;
  request_id = c.billing.request_id;
  is_stream = false;
  is_success = false;
}

unfoldable pub success_request_log : ProxyContext → Bool → UsageTokens → ℤ → RequestLogRequest
unfolding failure_request_log
success_request_log c is_stream u amount =
    record (failure_request_log c c.upstream_model_name (pos 200)) {
      prompt_tokens = int32 u.prompt;
      completion_tokens = int32 u.completion;
      cache_hit_tokens = int32 u.cache_hit;
      cache_miss_tokens = int32 u.cache_miss;
      amount_cents = amount;
      is_stream = is_stream;
      is_success = true;
    }

unfoldable pub settle_bill : ProxyContext → UsageTokens → ℤ → SettlementRequest
unfolding refund_bill
settle_bill c u actual_cost = record (refund_bill c) {
  prompt_tokens = int32 u.prompt;
  completion_tokens = int32 u.completion;
  cache_hit_tokens = int32 u.cache_hit;
  cache_miss_tokens = int32 u.cache_miss;
  pre_deducted_cents = c.billing.pre_deducted_cents;
  sub_deducted = c.billing.deduction.sub;
  grant_deducted = c.billing.deduction.grant;
  cash_deducted = c.billing.deduction.cash;
  actual_cost_cents = actual_cost;
  log_type = "consumption";
}
