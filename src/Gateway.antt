-- ===== src/Gateway.antt =====
-- A billed request on its way through the gateway, as cmd/api/main.go chains the handlers: the
-- authentication with its advance deduction, the rate limits, the limit on the concurrency of the
-- model, and the proxy.
pub mod Ends
pub mod Coherence
use ainode.Prelude.{ℕ, true, Option, some, String, List, [], ◌∷◌}
use ainode.Prelude.Int.{ℤ, pos, int32}
use ainode.Redis.{Redis}
use ainode.Billing.Request.{SettlementRequest, RequestLogRequest}
use ainode.Billing.Settlement.{World}
use ainode.Models.{ModelManager}
use ainode.Middleware.Auth.{
  Refusal, BillingContext, FailureLog, AuthRequest, AuthAnswer, refused, passed_on, billed, Parsers,
  AuthEnv, AuthState, auth_and_pre_deduct,
}
use ainode.Middleware.RateLimit.{
  ServerConfig, LimitEnv, LimitedRequest, Verdict, served, rpm_and_tpm_middleware,
}
use ainode.Middleware.Concurrency.{SlotEnv, model_concurrency_middleware}
use ainode.Proxy.Pricing.{Floats}
use ainode.Proxy.Response.{ProxyContext, Outcome, ResponseEnv, ResponseState, finish_request}

-- What the rate limits read of the context; no channel is chosen yet.
unfoldable pub limited_request : BillingContext → LimitedRequest
limited_request c = record {
  is_billing_route = true;
  user_id = some c.user_id;
  tier_level = c.tier_level;
  estimated_tokens = c.estimated_tokens;
  model_name = c.model_name;
  pre_deducted_cents = c.pre_deducted_cents;
  pre_deducted = c.deduction;
  refund_request = record {
    user_id = c.user_id;
    api_key_id = c.api_key_id;
    channel_id = pos 0;
    model_name = c.model_name;
    prompt_tokens = int32 c.prompt_tokens;
    completion_tokens = pos 0;
    cache_hit_tokens = pos 0;
    cache_miss_tokens = pos 0;
    pre_deducted_cents = pos 0;
    sub_deducted = pos 0;
    grant_deducted = pos 0;
    cash_deducted = pos 0;
    actual_cost_cents = pos 0;
    log_type = "";
    request_id = c.request_id;
  };
}

-- What the transport adds to the context: the channel, its provider and the name of its model.
pub record Chosen : Type 0 where
  pub channel_id : ℤ
  pub provider : String
  pub upstream_model_name : String
  pub input_payload : List ℕ

unfoldable pub proxy_context : Chosen → BillingContext → ProxyContext
proxy_context ch c = record {
  billing = c;
  channel_id = ch.channel_id;
  provider = ch.provider;
  public_model_name = c.model_name;
  upstream_model_name = ch.upstream_model_name;
  input_payload = ch.input_payload;
}

-- How the gateway is done with a request.
pub data GatewayAnswer : Type 0 where
  turned_away : Refusal → GatewayAnswer
  forwarded : GatewayAnswer
  limited : String → GatewayAnswer
  finished : BillingContext → GatewayAnswer

module _ (F : Floats) (R : Redis) where
  pub record GatewayEnv : Type 0 where
    pub auth : AuthEnv F R
    pub config : ServerConfig
    pub limits : LimitEnv
    pub slots : SlotEnv
    pub max_concurrency : Option ℤ
    pub chosen : Chosen
    pub response : ResponseEnv F R

  pub record GatewayState : Type 0 where
    pub failure_logs : List FailureLog
    pub proxy : ResponseState F R

  abbrev pub auth_state : GatewayState → AuthState F R
  auth_state st = record {
    models = st.proxy.models;
    failure_logs = st.failure_logs;
    store = st.proxy.world.store;
  }

  abbrev pub after_auth : GatewayState → AuthState F R → GatewayState
  after_auth st a = record {
    failure_logs = a.failure_logs;
    proxy = record st.proxy {
      models = a.models;
      world = record st.proxy.world { store = a.store };
    };
  }

  abbrev pub with_world : GatewayState → World R → GatewayState
  with_world st w = record st { proxy = record st.proxy { world = w } }

  -- The proxy, from a world on; the world is all that the next handlers of the chain hand back.
  abbrev pub proxied :
      GatewayEnv → BillingContext → Outcome → GatewayState → World R → ResponseState F R
  proxied env c o st w =
      finish_request F R env.response (proxy_context env.chosen c) o (record st.proxy { world = w })

  -- The slot is given back when the proxy is done. Logs and models do not depend on the store.
  abbrev pub after_slots :
      GatewayEnv
      → BillingContext
      → Outcome
      → GatewayState
      → World R
      → Verdict × World R
      → GatewayAnswer × GatewayState
  after_slots env c o st w (served, w') =
      (finished c, record st { proxy = record (proxied env c o st w) { world = w' } })
  after_slots env c o st w (Verdict.refused reason, w') = (limited reason, with_world st w')

  -- The limit on the concurrency, for a request that the rate limits let through.
  abbrev pub after_limits :
      GatewayEnv
      → BillingContext
      → Outcome
      → GatewayState
      → Verdict × World R
      → GatewayAnswer × GatewayState
  after_limits env c o st (served, w) = after_slots env c o st w (
      model_concurrency_middleware R env.limits.refund_env env.slots env.max_concurrency
        (limited_request c) (λ w'. (served, (proxied env c o st w').world)) w)
  after_limits env c o st (Verdict.refused reason, w) = (limited reason, with_world st w)

  abbrev pub after_answer :
      GatewayEnv → Outcome → AuthAnswer → GatewayState → GatewayAnswer × GatewayState
  after_answer env o (refused r) st = (turned_away r, st)
  after_answer env o (passed_on u i t) st = (forwarded, st)
  after_answer env o (billed c) st =
      after_limits env c o st
        (rpm_and_tpm_middleware R env.config env.limits (limited_request c) st.proxy.world)

  unfoldable pub serve_request :
      GatewayEnv → Parsers → AuthRequest → Outcome → GatewayState → GatewayAnswer × GatewayState
  serve_request env P r o st =
      let (answer, a) = auth_and_pre_deduct F R env.auth P r (auth_state st) in
      after_answer env o answer (after_auth st a)
