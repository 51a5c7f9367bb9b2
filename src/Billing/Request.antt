-- ===== src/Billing/Request.antt =====
-- The tasks that the gateway sends to its workers: SettlementRequest of
-- internal/billing/settlement.go and RequestLogRequest of internal/billing/request_log.go.
use ainode.Prelude.{Bool, String, List, ℕ}
use ainode.Prelude.Int.{ℤ}

pub record SettlementRequest : Type 0 where
  pub user_id : ℤ
  pub api_key_id : ℤ
  pub channel_id : ℤ
  pub model_name : String
  pub prompt_tokens : ℤ
  pub completion_tokens : ℤ
  pub cache_hit_tokens : ℤ
  pub cache_miss_tokens : ℤ
  pub pre_deducted_cents : ℤ
  pub sub_deducted : ℤ
  pub grant_deducted : ℤ
  pub cash_deducted : ℤ
  pub actual_cost_cents : ℤ
  pub log_type : String
  pub request_id : String

pub record RequestLogRequest : Type 0 where
  pub user_id : ℤ
  pub api_key_id : ℤ
  pub channel_id : ℤ
  pub provider : String
  pub request_type : String
  pub public_model_name : String
  pub upstream_model_name : String
  pub input_payload : List ℕ
  pub prompt_tokens : ℤ
  pub completion_tokens : ℤ
  pub cache_hit_tokens : ℤ
  pub cache_miss_tokens : ℤ
  pub amount_cents : ℤ
  pub pre_deducted_cents : ℤ
  pub status_code : ℤ
  pub request_id : String
  pub is_stream : Bool
  pub is_success : Bool
