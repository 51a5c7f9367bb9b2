-- ===== src/Tests/Gateway.antt =====
-- The middlewares on the store in memory, and the proxy.
use ainode.Prelude.{
  ◌/◌, ◌≡◌, refl, arith, ℕ, ◌≤◌, ◌==◌, true, false, Option, none, some, [], ◌∷◌, ◌++◌, length,
  if◌then◌else◌,
}
use ainode.Prelude.Int.{pos, ◌+ℤ◌}
use ainode.Redis.{rate_rpm}
use ainode.Redis.Memory.{memory, MemoryStore, empty_store, put}
use ainode.Billing.Pools.{Deduction}
use ainode.Billing.Scripts.Commands.{pools}
use ainode.Billing.Request.{SettlementRequest}
use ainode.Billing.Settlement.{World}
use ainode.Middleware.RateLimit.{
  LimitEnv, LimitedRequest, ServerConfig, rate_limit_script, rpm_and_tpm_middleware,
}
use ainode.Middleware.RateLimit.Window.{admitted, admitted_lem, first_request_overruns}
use ainode.Middleware.RateLimit.Refunds.{Settled, middleware-Settled}
use ainode.Middleware.Concurrency.{SlotEnv, acquire_model_concurrency_slot}
use ainode.Middleware.Concurrency.Slots.{Counted, slots, acquire-Counted}
use ainode.Channel.Manager.{Manager}
use ainode.Proxy.Pricing.{Floats, compute_actual_cost}
use ainode.Proxy.Pricing.Cost.{price_of, usage_of, token_price, compute_actual_cost_lem}
use ainode.Proxy.Tally.{Payload, reads, closes, read_all, process_lines, new_tally_reader}
use ainode.Proxy.Tally.Counting.{stream_calls, flatten, completes_once}
use ainode.Proxy.RoundTrip.{RoundTripEnv, response, round_trip}
use ainode.Proxy.RoundTrip.Attempts.{Logged, round_trip-Logged}

abbrev counting : MemoryStore
counting = put (rate_rpm (pos 7)) (some (pos 2)) empty_store

admitted_lem_example : admitted memory (rate_rpm (pos 7)) 60 (pos 5) 10 counting ≡ 3
admitted_lem_example = admitted_lem memory (rate_rpm (pos 7)) 60 5 10 2 counting refl (omega arith)

-- The limit is 5, and 900 pass.
first_request_overruns_example :
    ((rate_limit_script memory (rate_rpm (pos 7)) 60 (pos 5) (pos 900) empty_store).0 ≡ true)
    × (rate_limit_script memory
          (rate_rpm (pos 7))
          60
          (pos 5)
          (pos 1)
          (rate_limit_script memory (rate_rpm (pos 7)) 60 (pos 5) (pos 900) empty_store).1
        ≡ (false, (rate_limit_script memory (rate_rpm (pos 7)) 60 (pos 5) (pos 900) empty_store).1))
first_request_overruns_example =
    first_request_overruns memory (rate_rpm (pos 7)) 60 (pos 5) (pos 900) (pos 1) empty_store refl
      (omega arith) (omega arith)

abbrev deducted : Deduction
deducted = record { sub = pos 40; grant = pos 20; cash = pos 0 }

abbrev refund_request : SettlementRequest
refund_request = record {
  user_id = pos 7;
  api_key_id = pos 1;
  channel_id = pos 2;
  model_name = "gpt-4o";
  prompt_tokens = pos 10;
  completion_tokens = pos 0;
  cache_hit_tokens = pos 0;
  cache_miss_tokens = pos 0;
  pre_deducted_cents = pos 0;
  sub_deducted = pos 0;
  grant_deducted = pos 0;
  cash_deducted = pos 0;
  actual_cost_cents = pos 0;
  log_type = "";
  request_id = "req-1";
}

abbrev limited : LimitedRequest
limited = record {
  is_billing_route = true;
  user_id = some (pos 7);
  tier_level = pos 0;
  estimated_tokens = pos 100;
  model_name = "gpt-4o";
  pre_deducted_cents = pos 60;
  pre_deducted = deducted;
  refund_request = refund_request;
}

abbrev limit_env : LimitEnv
limit_env = record {
  rpm_fails = false;
  tpm_fails = false;
  model_rpm_fails = false;
  refund_env = record {
    has_queries = true;
    model_policy = none;
    script_fails = false;
    enqueue_fails = false;
    outbox_fails = false;
  };
}

abbrev config : ServerConfig
config = record { rpm_limit = pos 2; tpm_limit = pos 1000; tier_limits = λ level. none }

abbrev world : World memory
world = record { store = counting; sent = []; outbox = record { next_id = 0; rows = [] } }

middleware-Settled_example :
    Settled memory
      (pos 7)
      deducted
      (pools memory (pos 7) counting)
      (rpm_and_tpm_middleware memory config limit_env limited world)
unfolding ◌+ℤ◌
middleware-Settled_example =
    middleware-Settled memory limit_env (pos 7) limited
      (record { sub_nonneg = refl; grant_nonneg = refl; cash_nonneg = refl }) refl refl config world
      refl

abbrev slot_env : SlotEnv
slot_env = record {
  has_client = true;
  incr_fails = false;
  expire_fails = false;
  undo_fails = false;
  release_fails = false;
  del_fails = false;
}

acquire-Counted_example :
    Counted memory slot_env "gpt-4o"
      (pos 2)
      (slots memory slot_env "gpt-4o" (pos 2) empty_store)
      (acquire_model_concurrency_slot memory slot_env "gpt-4o" (pos 2) empty_store)
acquire-Counted_example = acquire-Counted memory slot_env "gpt-4o" (pos 2) empty_store

-- Whole numbers for multipliers.
abbrev whole_floats : Floats
whole_floats = record { Float = ℕ; one = 1; is_at_most_zero = λ m. m == 0; scale = λ a m up. a }

compute_actual_cost_lem_example :
    compute_actual_cost whole_floats
      (price_of whole_floats 250 1000 125 0 0 "token" (pos 0))
      (usage_of whole_floats 100000 20000 40000 10000)
      "chat"
      (pos 0)
    ≡ (if token_price 250 1000 125 0 100000 20000 40000 10000 / 1000000 == 0
        then pos 0
        else pos (token_price 250 1000 125 0 100000 20000 40000 10000 / 1000000))
compute_actual_cost_lem_example =
    compute_actual_cost_lem whole_floats 250 1000 125 0 0 "token" "chat" (pos 0) (pos 0) 100000
      20000 40000 10000 (λ h. cc) (λ h. cc) (omega arith) (omega arith) (omega arith)

abbrev line : Option Payload
line = some (record { usage = none; content_tokens = some (pos 4) })

completes_once_example :
    (read_all
      (stream_calls ((line ∷ none ∷ []) ∷ (line ∷ []) ∷ []) (reads (line ∷ []) true) (closes ∷ []))
      (new_tally_reader (pos 9))).calls
    ≡ process_lines
        (flatten ((line ∷ none ∷ []) ∷ (line ∷ []) ∷ []) ++ (line ∷ []))
        (new_tally_reader (pos 9)).counts
      ∷ []
completes_once_example =
    completes_once (pos 9) ((line ∷ none ∷ []) ∷ (line ∷ []) ∷ []) (reads (line ∷ []) true)
      (closes ∷ []) refl

abbrev manager : Manager
manager = record {
  channels =
      record {
        id = pos 1;
        name = "";
        provider = "openai";
        base_url = "https://api.example.com";
        models = "";
        supports_async = false;
        weight = none;
      }
      ∷ [];
  index = 0;
  breakers = λ id. none;
}

-- The upstream answers 503 twice, then 200.
abbrev round_trip_env : RoundTripEnv
round_trip_env = record {
  registry = [];
  model_name = "gpt-4o";
  request_type = "chat";
  is_cancelled = λ i. false;
  clock = λ i. i;
  rewrites = λ i ch. true;
  base_url_is_valid = λ i ch. true;
  authenticates = λ i ch. true;
  upstream = λ i ch. if i == 2 then response 200 else response 503;
}

round_trip-Logged_example :
    Logged (round_trip round_trip_env 3 manager).0 (round_trip round_trip_env 3 manager).1.log
    × (length (round_trip round_trip_env 3 manager).1.log ≤ 4)
round_trip-Logged_example = round_trip-Logged round_trip_env 3 manager
