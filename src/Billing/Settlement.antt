-- ===== src/Billing/Settlement.antt =====
-- Settle and Refund of internal/billing/settlement.go, and EnqueueRequestLog of request_log.go. A
-- task that asynq accepts is appended to `sent`; whether a call of Redis, asynq or Postgres fails
-- is an answer of the environment. A script whose run fails leaves the store as it was.
pub mod Effects
pub mod Delivery
pub mod Sent
use ainode.Prelude.{
  Bool, true, false, not, ◌&&◌, Option, none, some, List, [], ◌∷◌, ◌++◌, String, str_eq,
  if◌then◌else◌, Result, ok, err,
}
use ainode.Prelude.Int.{ℤ, pos, ◌-ℤ◌, leb_ℤ, ltb_ℤ, int64}
use ainode.Redis.{Redis}
use ainode.Billing.Pools.{Deduction}
use ainode.Billing.Scripts.{refund_script, compensate_script}
use ainode.Billing.Request.{SettlementRequest, RequestLogRequest}
use ainode.Billing.Outbox.{Outbox, insert_settlement_outbox}

-- The answers to the calls of one settlement. `has_queries` is queries != nil, and `model_policy`
-- the BillingPolicy that GetModelByName finds, if it finds the model.
pub record SettleEnv : Type 0 where
  pub has_queries : Bool
  pub model_policy : Option String
  pub script_fails : Bool
  pub enqueue_fails : Bool
  pub outbox_fails : Bool

pub data SettleError : Type 0 where
  outbox_failed enqueue_failed : SettleError

abbrev pub policy_or_all : Bool → Option String → String
policy_or_all true (some p) = if str_eq p "" then "all" else p
policy_or_all _ _ = "all"

module _ (R : Redis) where
  open R use {Store}

  pub record World : Type 0 where
    pub store : Store
    pub sent : List SettlementRequest
    pub outbox : Outbox

  -- The first half of Settle: the difference goes back to the pools, or is taken from them.
  unfoldable pub settle_store : SettleEnv → SettlementRequest → Store → Store
  settle_store env req s =
      let diff = int64 (req.pre_deducted_cents -ℤ req.actual_cost_cents) in
      let d : Deduction = record {
        sub = req.sub_deducted;
        grant = req.grant_deducted;
        cash = req.cash_deducted;
      } in
      if env.script_fails
      then s
      else if ltb_ℤ (pos 0) diff
      then refund_script R req.user_id diff d s
      else if ltb_ℤ diff (pos 0)
      then (compensate_script R req.user_id (int64 (pos 0 -ℤ diff))
          (policy_or_all env.has_queries env.model_policy) s).1
      else s

  -- The second half: the task goes to asynq, or to the outbox if asynq refuses it.
  unfoldable pub deliver :
      SettleEnv → SettlementRequest → World → Result SettleError (Unit {0}) × World
  deliver env req w =
      if not env.enqueue_fails
      then (ok tt, record w { sent = w.sent ++ req ∷ [] })
      else if env.has_queries && not (str_eq req.request_id "")
      then (if env.outbox_fails
          then (err outbox_failed, w)
          else (ok tt, record w { outbox = insert_settlement_outbox req.request_id req w.outbox }))
      else (err enqueue_failed, w)

  unfoldable pub settle :
      SettleEnv → SettlementRequest → World → Result SettleError (Unit {0}) × World
  settle env req w = deliver env req (record w { store = settle_store env req w.store })

  -- The bill of a refund: nothing is charged.
  unfoldable pub refund_log : SettlementRequest → ℤ → Deduction → SettlementRequest
  refund_log req amount_cents d = record req {
    log_type = "refund";
    actual_cost_cents = pos 0;
    pre_deducted_cents = amount_cents;
    sub_deducted = d.sub;
    grant_deducted = d.grant;
    cash_deducted = d.cash;
  }

  -- The write to the outbox may fail without a trace (`_ = queries.InsertSettlementOutbox`).
  unfoldable pub refund : SettleEnv → ℤ → ℤ → Deduction → SettlementRequest → World → World
  refund env uid amount_cents d log_req w =
      if leb_ℤ amount_cents (pos 0)
      then w
      else (let s =
            if env.script_fails then w.store else refund_script R uid amount_cents d w.store in
          (deliver env (refund_log log_req amount_cents d) (record w { store = s })).1)

-- `client` is AsynqClient != nil. The call never fails for its caller.
unfoldable pub enqueue_request_log :
    Bool → Bool → RequestLogRequest → List RequestLogRequest → List RequestLogRequest
enqueue_request_log client enqueue_fails req sent =
    if not client then sent else if enqueue_fails then sent else sent ++ req ∷ []
