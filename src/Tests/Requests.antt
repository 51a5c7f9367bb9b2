-- ===== src/Tests/Requests.antt =====
-- A chat request of the user 7 from its key to its bill, and in the ledger.
use ainode.Prelude.{arith, ◌≡◌, refl, true, false, none, some, str_eq, [], ◌∷◌, ok, if◌then◌else◌}
use ainode.Prelude.Int.{pos, ◌≤ℤ◌, int64, ◌+ℤ◌, ◌*ℤ◌}
use ainode.Redis.{sub_balance, grant_balance, cash_balance}
use ainode.Redis.Memory.{memory, MemoryStore, empty_store, put}
use ainode.Billing.Pools.{Deduction, Pools, IsNonneg, debit, credit}
use ainode.Billing.Scripts.Commands.{pools}
use ainode.Billing.Settlement.{SettleEnv}
use ainode.Billing.Settlement.Effects.{ledger_charge}
use ainode.Db.{get_user_balances, check_billing_log_exists}
use ainode.Worker.{valid, handle_record_billing_log}
use ainode.Media.{ChatCompletionRequest, plain}
use ainode.Models.{Model, get_model, cached_model, load_model}
use ainode.Middleware.Auth.{
  KeyRow, AuthRequest, AuthEnv, ParsedRequest, Parsers, BillingContext, bytes, estimated_cost,
  auth_and_pre_deduct,
}
use ainode.Middleware.Auth.Reserve.{Reserved, auth_and_pre_deduct-Reserved}
use ainode.Middleware.Auth.Estimate.{estimated_cost-covers}
use ainode.Proxy.Pricing.{
  compute_actual_cost, apply_multiplier, multiplier_or_one, base_cost, token_cost,
}
use ainode.Proxy.Pricing.Cost.{usage_of}
use ainode.Proxy.Tally.{Usage}
use ainode.Proxy.Response.{
  ProxyContext, Outcome, response, whole, settle_bill, actual_cost_of, whole_usage, model_name_of,
  pricing_of, ResponseEnv, ResponseState, finish_request,
}
use ainode.Proxy.Response.Once.{billed_as, finish_request-once}
use ainode.Proxy.Response.Pools.{finish_request-agrees}
use ainode.Gateway.{Chosen, GatewayEnv, GatewayState, serve_request}
use ainode.Gateway.Ends.{Settles, serve_request-Settles}
use ainode.Gateway.Coherence.{finish_request-coherent}
use ainode.Tests.Rounding.{floats, scales, monotone}
use ainode.Tests.Accounts.{user, db, env as worker_env, calm}

-- 2.50 and 10.00 for a million tokens, in units of 10^-8, and the multiplier 1.10.
abbrev model : Model floats
model = record {
  model_name = "gpt-4o";
  input_price_cents = pos 250;
  output_price_cents = pos 1000;
  cache_hit_price_cents = pos 125;
  cache_miss_price_cents = pos 0;
  multiplier = pos 110;
  billing_policy = "all";
  modality = "text";
  pricing_mode = "token";
  request_price_cents = pos 0;
}

abbrev parsed : ParsedRequest
parsed = record {
  model_name = "gpt-4o";
  prompt_tokens = pos 40000;
  max_output_tokens = pos 60000;
  billing_units = pos 1;
}

estimated_cost-covers_example :
    compute_actual_cost floats
      (pricing_of floats (some model))
      (usage_of floats 30000 50000 0 0)
      "chat"
      (pos 1)
    ≤ℤ estimated_cost floats model parsed
estimated_cost-covers_example =
    estimated_cost-covers floats 250 1000 125 0 (pos 110) "gpt-4o" "all" "text" "token" "chat"
      (pos 1) parsed 40000 60000 30000 50000 (λ h. cc) (λ h. cc) refl refl refl (omega arith)
      (omega arith) (omega arith) (omega arith) monotone

abbrev key : KeyRow
key = record {
  id = pos 7;
  user_tier = pos 1;
  key_id = pos 3;
  quota_limit = none;
  quota_used = none;
}

abbrev balances_before : Pools
balances_before = record { sub = pos 40; grant = pos 30; cash = pos 50 }

abbrev store : MemoryStore
store = put (sub_balance (pos 7)) (some (pos 40)) (
    put (grant_balance (pos 7)) (some (pos 30))
      (put (cash_balance (pos 7)) (some (pos 50)) empty_store))

abbrev auth_env : AuthEnv floats memory
auth_env = record {
  user_by_key = λ k. (if str_eq k "sk-1" then some key else none);
  model_row = λ name. some model;
  log_fails = false;
  deduct_env = record {
    client = true;
    first_run_fails = false;
    balances = none;
    sync_fails = false;
    meanwhile = λ s. s;
    second_run_fails = false;
  };
  new_request_id = "req-7";
}

abbrev chat_request : ChatCompletionRequest
chat_request = record {
  model = "gpt-4o";
  messages = record { role = "user"; content = plain "Hello" } ∷ [];
  max_tokens = pos 60000;
}

abbrev parsers : Parsers
parsers = record {
  chat_request = λ s. some chat_request;
  image_request = λ s. none;
  video_request = λ s. none;
  tokenizer = λ name. some (λ s. pos 4);
}

abbrev incoming : AuthRequest
incoming = record {
  authorization = "Bearer sk-1";
  path = "/v1/chat/completions";
  body = bytes 2 "{}";
}

auth_and_pre_deduct-Reserved_example :
    Reserved floats scales memory auth_env key balances_before store (
      auth_and_pre_deduct floats memory auth_env parsers incoming
        (record { models = []; failure_logs = []; store = store }))
auth_and_pre_deduct-Reserved_example =
    auth_and_pre_deduct-Reserved floats scales memory auth_env key balances_before store refl refl
      parsers incoming (record { models = []; failure_logs = []; store = store }) refl refl

abbrev settle_env : SettleEnv
settle_env = record {
  has_queries = true;
  model_policy = some "all";
  script_fails = false;
  enqueue_fails = false;
  outbox_fails = false;
}

abbrev response_env : ResponseEnv floats memory
response_env = record {
  settle_env = settle_env;
  logs_enabled = true;
  log_client = true;
  log_fails = false;
  model_row = some model;
  translated_status = none;
}

abbrev usage : Usage
usage = record {
  prompt_tokens = pos 30000;
  completion_tokens = pos 50000;
  cached_tokens = none;
  cache_hit_tokens = pos 0;
  cache_miss_tokens = pos 0;
}

abbrev answer : Outcome
answer = response 200 (whole (some usage))

abbrev deduction : Deduction
deduction = record { sub = pos 40; grant = pos 30; cash = pos 7 }

abbrev billing : BillingContext
billing = record {
  user_id = pos 7;
  api_key_id = pos 3;
  tier_level = pos 1;
  model_name = "gpt-4o";
  request_type = "chat";
  prompt_tokens = pos 40000;
  pre_deducted_cents = pos 77;
  deduction = deduction;
  billing_units = pos 1;
  estimated_tokens = pos 100000;
  request_id = "req-7";
}

abbrev chosen : Chosen
chosen = record {
  channel_id = pos 2;
  provider = "openai";
  upstream_model_name = "gpt-4o-2024";
  input_payload = [];
}

abbrev context : ProxyContext
context = record {
  billing = billing;
  channel_id = pos 2;
  provider = "openai";
  public_model_name = "gpt-4o";
  upstream_model_name = "gpt-4o-2024";
  input_payload = [];
}

-- After the advance deduction of 77.
abbrev reserved : MemoryStore
reserved = put (sub_balance (pos 7)) (some (pos 0)) (
    put (grant_balance (pos 7)) (some (pos 0))
      (put (cash_balance (pos 7)) (some (pos 43)) empty_store))

abbrev state : MemoryStore → ResponseState floats memory
state s = record {
  world = record { store = s; sent = []; outbox = record { next_id = 0; rows = [] } };
  request_logs = [];
  models = [];
}

finish_request-once_example :
    ((finish_request floats memory response_env context answer (state reserved)).world.sent
      ≡ billed_as floats memory response_env context (state reserved) answer tt ∷ [])
    × ((finish_request floats memory response_env context answer (state reserved)).world.outbox
        ≡ record { next_id = 0; rows = [] })
finish_request-once_example =
    finish_request-once floats memory response_env context (state reserved) answer tt (omega arith)
      refl

nonneg : IsNonneg deduction
nonneg = record { sub_nonneg = refl; grant_nonneg = refl; cash_nonneg = refl }

finish_request-agrees_example :
    pools memory
      (pos 7)
      (finish_request floats memory response_env context answer (state reserved)).world.store
    ≡ debit
        (credit (pools memory (pos 7) reserved) deduction)
        (ledger_charge (billed_as floats memory response_env context (state reserved) answer tt))
unfolding ◌+ℤ◌ ◌*ℤ◌ int64 settle_bill actual_cost_of pricing_of compute_actual_cost apply_multiplier
    multiplier_or_one base_cost token_cost get_model cached_model load_model whole_usage
    model_name_of
finish_request-agrees_example =
    finish_request-agrees floats memory response_env context (state reserved) refl nonneg refl
      (omega arith) answer tt (omega arith) (omega arith)

finish_request-coherent_example :
    let (booked, db') =
      handle_record_billing_log worker_env
        (valid (billed_as floats memory response_env context (state reserved) answer tt))
        db in
    (booked ≡ ok tt)
    × (get_user_balances (pos 7) db'
        ≡ some (
            pools memory
              (pos 7)
              (finish_request floats memory response_env context answer
                (state reserved)).world.store))
unfolding ◌+ℤ◌ ◌*ℤ◌ int64 settle_bill actual_cost_of pricing_of compute_actual_cost apply_multiplier
    multiplier_or_one base_cost token_cost get_model cached_model load_model whole_usage
    model_name_of check_billing_log_exists
finish_request-coherent_example =
    finish_request-coherent floats memory response_env context (state reserved) refl nonneg refl
      (omega arith) (omega arith) (omega arith) (omega arith) answer tt (omega arith) (omega arith)
      worker_env calm db (user (pos 7)) refl refl refl refl refl

abbrev gateway_env : GatewayEnv floats memory
gateway_env = record {
  auth = auth_env;
  config = record { rpm_limit = pos 20; tpm_limit = pos 1000000; tier_limits = λ level. none };
  limits = record {
    rpm_fails = false;
    tpm_fails = false;
    model_rpm_fails = false;
    refund_env = settle_env;
  };
  slots = record {
    has_client = true;
    incr_fails = false;
    expire_fails = false;
    undo_fails = false;
    release_fails = false;
    del_fails = false;
  };
  max_concurrency = some (pos 5);
  chosen = chosen;
  response = response_env;
}

abbrev gateway_state : GatewayState floats memory
gateway_state = record { failure_logs = []; proxy = state store }

serve_request-Settles_example :
    Settles floats scales memory gateway_env key balances_before answer
      (λ c. tt)
      refl
      refl
      refl
      refl
      (serve_request floats memory gateway_env parsers incoming answer gateway_state)
serve_request-Settles_example =
    serve_request-Settles floats scales memory gateway_env key balances_before answer (λ c. tt) refl
      refl refl refl gateway_state refl parsers incoming refl
