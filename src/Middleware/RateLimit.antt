-- ===== src/Middleware/RateLimit.antt =====
-- RPMAndTPMMiddleware of internal/middleware/rate_limit.go with its script lua/rate_limit.lua, and
-- ResolveTierLimit of internal/config/config.go. Each check is one atomic run of the script; that a
-- window ends, and its key with it, is a change of the store between two requests.
pub mod Window
pub mod Refunds
use ainode.Prelude.{
  ℕ, Bool, true, false, not, ◌&&◌, ◌||◌, Option, none, some, String, str_eq, if◌then◌else◌,
}
use ainode.Prelude.Int.{ℤ, pos, ◌+ℤ◌, ltb_ℤ, leb_ℤ}
use ainode.Redis.{Key, rate_rpm, rate_tpm, rate_model_rpm, Redis}
use ainode.Billing.Pools.{Deduction}
use ainode.Billing.Request.{SettlementRequest}
use ainode.Billing.Settlement.{SettleEnv, World, refund}

pub record TierLimit : Type 0 where
  pub rpm : ℤ
  pub tpm : ℤ
  pub model_rpm : ℤ

-- The keys of TierLimits are the printed levels, so the map is one on the levels.
pub record ServerConfig : Type 0 where
  pub rpm_limit : ℤ
  pub tpm_limit : ℤ
  pub tier_limits : ℤ → Option TierLimit

abbrev pub or_default : ℤ → ℤ → ℤ
or_default v d = if leb_ℤ v (pos 0) then d else v

unfoldable pub resolve_tier_limit : ServerConfig → ℤ → TierLimit
resolve_tier_limit c level = elim (c.tier_limits level) [
  | none ↦ record { rpm = c.rpm_limit; tpm = c.tpm_limit; model_rpm = pos 0 }
  | some tl ↦ record tl { rpm = or_default tl.rpm c.rpm_limit; tpm = or_default tl.tpm c.tpm_limit }
]

-- What the middleware reads from the context of the request; a missing number is 0 and a missing
-- name is empty. `refund_request` is the bill of the refund, and `pre_deducted` its amounts.
pub record LimitedRequest : Type 0 where
  pub is_billing_route : Bool
  pub user_id : Option ℤ
  pub tier_level : ℤ
  pub estimated_tokens : ℤ
  pub model_name : String
  pub pre_deducted_cents : ℤ
  pub pre_deducted : Deduction
  pub refund_request : SettlementRequest

-- Which of the checks Redis fails to run, and what the calls of the refund answer.
pub record LimitEnv : Type 0 where
  pub rpm_fails : Bool
  pub tpm_fails : Bool
  pub model_rpm_fails : Bool
  pub refund_env : SettleEnv

-- The request goes to the next handler, or is answered with an error of this code.
pub data Verdict : Type 0 where
  served : Verdict
  refused : String → Verdict

abbrev pub window_seconds : ℕ
window_seconds = 60

module _ (R : Redis) where
  open R use {Store, get, incr_by, expire}

  -- rate_limit.lua: 1 or 0, and the store.
  unfoldable pub rate_limit_script : Key → ℕ → ℤ → ℤ → Store → Bool × Store
  rate_limit_script key window max_req inc s = elim (get key s) [
    | none ↦ (true, expire key window (incr_by key inc s))
    | some current ↦
        if ltb_ℤ max_req (current +ℤ inc) then (false, s) else (true, incr_by key inc s)
  ]

  -- refundPreDeduction
  unfoldable pub refund_pre_deduction : SettleEnv → ℤ → LimitedRequest → World R → World R
  refund_pre_deduction env uid r w =
      if ltb_ℤ (pos 0) r.pre_deducted_cents
      then refund R env uid r.pre_deducted_cents r.pre_deducted r.refund_request w
      else w

  -- One check: an error of Redis lets the request pass, and a refusal is refunded.
  unfoldable pub check :
      LimitEnv
      → Bool
      → ℤ
      → LimitedRequest
      → Key
      → ℤ
      → ℤ
      → String
      → (World R → Verdict × World R)
      → World R
      → Verdict × World R
  check env fails uid r key max_allowed increment reason next w =
      let (allowed, s) = rate_limit_script key window_seconds max_allowed increment w.store in
      if fails
      then next w
      else if allowed
      then next (record w { store = s })
      else (refused reason, refund_pre_deduction env.refund_env uid r (record w { store = s }))

  abbrev pub at_least_one : ℤ → ℤ
  at_least_one t = if leb_ℤ t (pos 0) then pos 1 else t

  abbrev pub serve : World R → Verdict × World R
  serve w = (served, w)

  -- The third check runs where the tier limits single models and the model is known.
  unfoldable pub check_model :
      LimitEnv → ℤ → LimitedRequest → TierLimit → World R → Verdict × World R
  check_model env uid r tl w =
      if ltb_ℤ (pos 0) tl.model_rpm && not (str_eq r.model_name "")
      then check env env.model_rpm_fails uid r (rate_model_rpm uid r.model_name) tl.model_rpm
          (pos 1) "model_rpm_exceeded" serve w
      else serve w

  unfoldable pub check_user :
      LimitEnv → ℤ → LimitedRequest → TierLimit → World R → Verdict × World R
  check_user env uid r tl =
      check env env.rpm_fails uid r (rate_rpm uid) tl.rpm (pos 1) "rpm_exceeded" (
        check env env.tpm_fails uid r (rate_tpm uid) tl.tpm (at_least_one r.estimated_tokens)
          "tpm_exceeded" (check_model env uid r tl))

  unfoldable pub rpm_and_tpm_middleware :
      ServerConfig → LimitEnv → LimitedRequest → World R → Verdict × World R
  rpm_and_tpm_middleware c env r w = if not r.is_billing_route then serve w else elim (r.user_id) [
    | none ↦ serve w
    | some uid ↦ check_user env uid r (resolve_tier_limit c r.tier_level) w
  ]
