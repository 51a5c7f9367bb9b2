-- ===== src/Proxy/Response.antt =====
-- The end of a billed request in internal/proxy/reverse_proxy.go: modifyResponse, its onComplete,
-- and the ErrorHandler. The body is what encoding/json makes of it; metrics, the failure logs and
-- what is written to the client are left out.
pub mod Bills
pub mod Once
pub mod Pools
pub use ainode.Proxy.Response.Bills.{
  outside_transport, ProxyContext, UpstreamBody, Outcome, stream_usage, unreadable, whole, stream,
  proxy_error, response,
}
unfoldable pub use ainode.Proxy.Response.Bills.{
  model_name_of, refund_bill, whole_usage, failure_request_log, success_request_log, settle_bill,
}
use ainode.Prelude.{
  ℕ, Bool, true, false, not, ◌&&◌, ◌||◌, Option, none, some, List, [], ◌∷◌, String, str_eq,
  if◌then◌else◌, ◌==◌, map,
}
use ainode.Prelude.Int.{ℤ, pos, ◌-ℤ◌, ltb_ℤ, int64, int32}
use ainode.Redis.{Redis}
use ainode.Billing.Request.{SettlementRequest, RequestLogRequest}
use ainode.Billing.Settlement.{SettleEnv, World, settle, refund, enqueue_request_log}
use ainode.Models.{Model, ModelManager, get_model}
use ainode.Middleware.Auth.{BillingContext}
use ainode.Proxy.Pricing.{Floats, SettlementPricing, UsageTokens, compute_actual_cost}
use ainode.Proxy.Tally.{
  Usage, Counts, ReaderCall, TallyReader, is_positive, or_kept, cached_of, read_all,
  new_tally_reader,
}

module _ (F : Floats) where
  -- The prices, with the defaults of an unknown model.
  unfoldable pub pricing_of : Option (Model F) → SettlementPricing F
  pricing_of none = record {
    input_price = pos 0;
    output_price = pos 0;
    cache_hit_price = pos 0;
    cache_miss_price = pos 0;
    multiplier = F.one;
    pricing_mode = "token";
    request_price = pos 0;
  }
  pricing_of (some m) = record {
    input_price = m.input_price_cents;
    output_price = m.output_price_cents;
    cache_hit_price = m.cache_hit_price_cents;
    cache_miss_price = m.cache_miss_price_cents;
    multiplier = m.multiplier;
    pricing_mode = m.pricing_mode;
    request_price = m.request_price_cents;
  }

  unfoldable pub actual_cost_of : ProxyContext → Option (Model F) → UsageTokens → ℤ
  actual_cost_of c m u =
      compute_actual_cost F (pricing_of m) u c.billing.request_type c.billing.billing_units

  module _ (R : Redis) where
    -- The answers to the calls: those of a settlement, whether requests are logged and the queue
    -- takes the log, the row of the model, if it is looked up, and the status that the driver
    -- makes of a failed response, if it translates it.
    pub record ResponseEnv : Type 0 where
      pub settle_env : SettleEnv
      pub logs_enabled : Bool
      pub log_client : Bool
      pub log_fails : Bool
      pub model_row : Option (Model F)
      pub translated_status : Option ℕ

    pub record ResponseState : Type 0 where
      pub world : World R
      pub request_logs : List RequestLogRequest
      pub models : ModelManager F

    abbrev pub log_request : ResponseEnv → RequestLogRequest → ResponseState → ResponseState
    log_request env x st =
        if env.logs_enabled
        then record st {
          request_logs = enqueue_request_log env.log_client env.log_fails x st.request_logs;
        }
        else st

    -- if preDeductedCents > 0 { billing.Refund(...) }
    unfoldable pub refund_pre_deduct : ResponseEnv → ProxyContext → ResponseState → ResponseState
    refund_pre_deduct env c st =
        if ltb_ℤ (pos 0) c.billing.pre_deducted_cents
        then record st {
          world =
              refund R env.settle_env c.billing.user_id c.billing.pre_deducted_cents
                c.billing.deduction (refund_bill c) st.world;
        }
        else st

    unfoldable pub on_complete :
        ResponseEnv
        → ProxyContext
        → Option (Model F)
        → Bool
        → UsageTokens
        → ResponseState
        → ResponseState
    on_complete env c m is_stream u st =
        let cost = actual_cost_of c m u in
        log_request env (success_request_log c is_stream u cost)
          (record st { world = (settle R env.settle_env (settle_bill c u cost) st.world).1 })

    -- The calls of onComplete by the reader of a stream.
    unfoldable pub complete_all :
        ResponseEnv → ProxyContext → Option (Model F) → List Counts → ResponseState → ResponseState
    complete_all env c m [] st = st
    complete_all env c m (u ∷ us) st =
        complete_all env c m us (on_complete env c m true (stream_usage u) st)

    -- A response of status 200, from the first byte of its body to the last.
    unfoldable pub deliver_body :
        ResponseEnv → ProxyContext → Option (Model F) → UpstreamBody → ResponseState → ResponseState
    unfolding complete_all
    deliver_body env c m unreadable st = refund_pre_deduct env c st
    deliver_body env c m (whole usage) st =
        on_complete env c m false (whole_usage c.billing.prompt_tokens usage) st
    deliver_body env c m (stream calls) st =
        complete_all env c m (read_all calls (new_tally_reader c.billing.prompt_tokens)).calls st

    abbrev pub status_or : Option ℕ → ℕ → ℕ
    status_or none status = status
    status_or (some translated) status = translated

    unfoldable pub modify_response :
        ResponseEnv → ProxyContext → ℕ → UpstreamBody → ResponseState → ResponseState
    modify_response env c status body st =
        if status == 200
        then (let (m, models) = get_model F env.model_row (model_name_of c) st.models in
            deliver_body env c m body (record st { models = models }))
        else log_request env
            (failure_request_log c c.upstream_model_name
              (pos (status_or env.translated_status status)))
            (refund_pre_deduct env c st)

    unfoldable pub handle_error : ResponseEnv → ProxyContext → ResponseState → ResponseState
    handle_error env c st =
        let c' = outside_transport c in
        log_request env (failure_request_log c' "" (pos 0)) (refund_pre_deduct env c' st)

    unfoldable pub finish_request :
        ResponseEnv → ProxyContext → Outcome → ResponseState → ResponseState
    finish_request env c proxy_error st = handle_error env c st
    finish_request env c (response status body) st = modify_response env c status body st
