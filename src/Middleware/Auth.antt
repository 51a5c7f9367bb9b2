-- ===== src/Middleware/Auth.antt =====
-- AuthAndPreDeductMiddleware of internal/middleware/auth.go, and InternalTokenAuth of
-- internal_token.go. The answers of GetUserByAPIKey and GetModelByName, of encoding/json and of
-- the tokenizer are given; texts of messages and times are left out.
pub mod Requests
pub mod Estimate
pub mod Reserve
pub use ainode.Middleware.Auth.Requests.{
  has_prefix, has_suffix, trim_prefix, KeyRow, Route, RequestBody, AuthRequest, max_body_size,
  request_type, expected_modality, Refusal, FailureLog, Parsers, ParsedRequest, of_chat, of_image,
  of_video, parsed, nothing_parsed, chat, image, video, absent, unreadable, bytes,
}
unfoldable pub use ainode.Middleware.Auth.Requests.{
  internal_token_auth, route_of, is_allowed_modality, estimate_chat_prompt_tokens,
  estimate_plain_text_tokens, parse_route, read_body,
}
use ainode.Prelude.{
  ℕ, ◌-◌, Bool, true, false, not, ◌&&◌, ◌||◌, Option, none, some, String, str_eq, if◌then◌else◌,
  List, [], ◌∷◌, leb, ◌==◌, Result, ok, err, ◌>>=◌, ◌>>◌, fail_if,
}
use ainode.Prelude.Int.{ℤ, pos, ◌+ℤ◌, ◌*ℤ◌, leb_ℤ, ltb_ℤ, eqb_ℤ, int64}
use ainode.Text.Strings.{◌<>◌}
use ainode.Redis.{Redis}
use ainode.Billing.Pools.{Deduction}
use ainode.Billing.Deduct.{DeductEnv, DeductError, pre_deduct}
use ainode.Media.{
  ChatCompletionRequest, ImageGenerationRequest, VideoGenerationRequest, at_least_one_image,
  estimate_prompt_tokens,
}
use ainode.Models.{Model, ModelManager, get_model}
use ainode.Proxy.Pricing.{Floats, apply_multiplier, quot_ℤ}
use Prim.Native.String as Native

-- The context of the request for the handlers that follow.
pub record BillingContext : Type 0 where
  pub user_id : ℤ
  pub api_key_id : ℤ
  pub tier_level : ℤ
  pub model_name : String
  pub request_type : String
  pub prompt_tokens : ℤ
  pub pre_deducted_cents : ℤ
  pub deduction : Deduction
  pub billing_units : ℤ
  pub estimated_tokens : ℤ
  pub request_id : String

-- The next handler is called without billing, or with it, or not at all.
pub data AuthAnswer : Type 0 where
  refused : Refusal → AuthAnswer
  passed_on : ℤ → ℤ → ℤ → AuthAnswer
  billed : BillingContext → AuthAnswer

module _ (F : Floats) where
  -- The cost that is taken in advance: rounded up, and at least 1.
  unfoldable pub base_estimate : Model F → ParsedRequest → ℤ
  base_estimate m q =
      if str_eq m.pricing_mode "request"
      then int64 (m.request_price_cents *ℤ q.billing_units)
      else quot_ℤ
          (int64 (
            int64 (q.prompt_tokens *ℤ m.input_price_cents)
            +ℤ int64 (q.max_output_tokens *ℤ m.output_price_cents)))
          1000000

  unfoldable pub estimated_cost : Model F → ParsedRequest → ℤ
  estimated_cost m q =
      let cost = apply_multiplier F (base_estimate m q) m.multiplier true in
      if eqb_ℤ cost (pos 0) then pos 1 else cost

  abbrev pub or_zero_used : Option ℤ → ℤ
  or_zero_used none = pos 0
  or_zero_used (some used) = used

  -- The quota of the key, if it has one.
  unfoldable pub exceeds_quota : KeyRow → ℤ → Bool
  exceeds_quota k cost = elim (k.quota_limit) [
    | none ↦ false
    | some limit ↦ ltb_ℤ (pos 0) limit && ltb_ℤ limit (int64 (or_zero_used k.quota_used +ℤ cost))
  ]

  module _ (R : Redis) where
    open R use {Store}

    pub record AuthEnv : Type 0 where
      pub user_by_key : String → Option KeyRow
      pub model_row : String → Option (Model F)
      pub log_fails : Bool
      pub deduct_env : DeductEnv R
      pub new_request_id : String

    pub record AuthState : Type 0 where
      pub models : ModelManager F
      pub failure_logs : List FailureLog
      pub store : Store

    -- logMiddlewareFailure, and the answer to the client.
    unfoldable pub refuse :
        AuthEnv → KeyRow → String → String → Refusal → AuthState → AuthAnswer × AuthState
    refuse env k model_name error_code r st =
        if leb_ℤ k.id (pos 0) || env.log_fails then (refused r, st) else (
          refused r,
          record st {
            failure_logs =
                record {
                  user_id = k.id;
                  api_key_id = k.key_id;
                  model_name = model_name;
                  error_code = error_code;
                  status = r.status;
                }
                ∷ st.failure_logs;
          },
        )

    unfoldable pub billing_context :
        AuthEnv → KeyRow → Route → ParsedRequest → ℤ → Deduction → BillingContext
    billing_context env k route q cost d = record {
      user_id = k.id;
      api_key_id = k.key_id;
      tier_level = k.user_tier;
      model_name = q.model_name;
      request_type = request_type route;
      prompt_tokens = q.prompt_tokens;
      pre_deducted_cents = cost;
      deduction = d;
      billing_units = q.billing_units;
      estimated_tokens = int64 (q.prompt_tokens +ℤ q.max_output_tokens);
      request_id = env.new_request_id;
    }

    -- PreDeduct, and the context that its deduction goes to.
    unfoldable pub reserve :
        AuthEnv → KeyRow → Route → ParsedRequest → Model F → ℤ → AuthState → AuthAnswer × AuthState
    reserve env k route q m cost st =
        let (d, s) = pre_deduct R env.deduct_env k.id cost m.billing_policy st.store in
        let st' : AuthState = record st { store = s } in
        elim d [
          | err e ↦
              refuse env k q.model_name "insufficient_quota"
                (record { status = 402; code = "insufficient_quota" }) st'
          | ok taken ↦ (billed (billing_context env k route q cost taken), st')
        ]

    -- The modality, the estimate and the quota.
    unfoldable pub with_model :
        AuthEnv → KeyRow → Route → ParsedRequest → Model F → AuthState → AuthAnswer × AuthState
    with_model env k route q m st =
        if not (is_allowed_modality route m.modality)
        then refuse env k q.model_name "modality_mismatch"
            (record { status = 400; code = "modality_mismatch" }) st
        else if exceeds_quota k (estimated_cost m q)
        then refuse env k q.model_name "key_quota_exceeded"
            (record { status = 402; code = "insufficient_quota" }) st
        else reserve env k route q m (estimated_cost m q) st

    unfoldable pub with_request :
        AuthEnv → KeyRow → Route → ParsedRequest → AuthState → AuthAnswer × AuthState
    with_request env k route q st =
        if str_eq q.model_name ""
        then (refused (record { status = 400; code = "model_required" }), st)
        else (let (found, models) =
              get_model F (env.model_row q.model_name) q.model_name st.models in
            let st' : AuthState = record st { models = models } in
            elim found [
              | none ↦
                  refuse env k q.model_name "unsupported_model"
                    (record { status = 400; code = "unsupported_model" }) st'
              | some m ↦ with_model env k route q m st'
            ])

    abbrev pub with_key :
        AuthEnv → Parsers → AuthRequest → KeyRow → Option Route → AuthState → AuthAnswer × AuthState
    with_key env P r k none st = (passed_on k.id k.key_id k.user_tier, st)
    with_key env P r k (some route) st = elim (read_body P route r.body) [
      | err e ↦ (refused e, st)
      | ok q ↦ with_request env k route q st
    ]

    unfoldable pub auth_and_pre_deduct :
        AuthEnv → Parsers → AuthRequest → AuthState → AuthAnswer × AuthState
    auth_and_pre_deduct env P r st =
        if not (has_prefix r.authorization "Bearer ")
        then (refused (record { status = 401; code = "invalid_api_key" }), st)
        else elim (env.user_by_key (trim_prefix r.authorization "Bearer ")) [
          | none ↦ (refused (record { status = 401; code = "invalid_api_key" }), st)
          | some k ↦ with_key env P r k (route_of r.path) st
        ]
