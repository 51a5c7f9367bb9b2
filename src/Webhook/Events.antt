-- ===== src/Webhook/Events.antt =====
-- HandleEvent of internal/api/webhook/events.go with its three events. The HTTP headers are given
-- as texts; the HMAC of a message, hexadecimal decoding, encoding/json and time.Parse are
-- parameters.
pub mod Safe
use ainode.Prelude.{
  ℕ, Bool, true, false, not, ◌&&◌, ◌||◌, Option, none, some, String, str_eq, if◌then◌else◌, Result,
  ok, err,
}
use ainode.Prelude.Int.{ℤ, pos, leb_ℤ}
use ainode.Text.Strings.{trim, ◌<>◌}
use ainode.Redis.{Redis}
use ainode.Billing.Subscription.{SubscriptionApply, ApplyEnv, ApplyError, apply_subscription}
use ainode.Db.{Db}
use ainode.Webhook.{
  Floats, TransactionEnv, TransactionWebhookRequest, TransactionProcessResult, HttpError,
  process_transaction,
}
use ainode.Webhook.OrderPaid.{
  JsonMap, OrderPaidEventData, build_transaction_request_from_order_paid, is_blank,
}

-- crypto/hmac with SHA-256 under the token, and encoding/hex.
pub record Signatures : Type 1 where
  pub Mac : Type 0
  pub sign : String → String → Mac
  pub decode_string : String → Option Mac
  pub equal : Mac → Mac → Bool

pub record EventEnvelope : Type 0 where
  pub event : String
  pub payload : String

pub record EventRequest : Type 0 where
  pub authorization : String
  pub timestamp : String
  pub signature : String
  pub body : Option String

module _ (F : Floats) where
  pub record SubscriptionApplyData : Type 0 where
    pub user_id : ℤ
    pub event_id : String
    pub paid_amount : F.Float
    pub grant_amount : F.Float
    pub expires_at : String
    pub tier : ℤ
    pub source_id : String
    pub remark : String

  pub record SubscriptionCancelData : Type 0 where
    pub user_id : ℤ
    pub event_id : String
    pub source_id : String
    pub remark : String

  -- json.Unmarshal into each of the types, and time.Parse(time.RFC3339, s).
  pub record Decoders : Type 0 where
    pub envelope : String → Option EventEnvelope
    pub json_map : String → Option (JsonMap F)
    pub order_paid : String → Option (OrderPaidEventData F)
    pub subscription_apply : String → Option SubscriptionApplyData
    pub subscription_cancel : String → Option SubscriptionCancelData
    pub parse_time : String → Option ℕ

  -- What is written to the client.
  pub data EventReply : Type 0 where
    failed : HttpError → EventReply
    ignored : String → EventReply
    processed : TransactionProcessResult → EventReply
    applied : Bool → EventReply

  abbrev pub fail : ℕ → String → EventReply
  fail status message = failed (record { status = status; message = message })

  unfoldable pub authorize_event_request : Signatures → EventRequest → String → String → Bool
  authorize_event_request S r raw_body token =
      let timestamp = trim r.timestamp in
      let signature = trim r.signature in
      if str_eq (trim r.authorization) ("Bearer " <> token)
      then true
      else if str_eq timestamp "" || str_eq signature ""
      then false
      else elim (S.decode_string signature) [
        | none ↦ false
        | some actual ↦ S.equal actual (S.sign token (timestamp <> "." <> raw_body))
      ]

  -- The expiry that a text gives; one that cannot be read is none.
  unfoldable pub expires_of : Decoders → String → Option ℕ
  expires_of D s = if str_eq (trim s) "" then none else D.parse_time (trim s)

  unfoldable pub apply_of : Decoders → SubscriptionApplyData → SubscriptionApply
  apply_of D d = record {
    user_id = d.user_id;
    new_paid = F.money_to_scaled_int d.paid_amount;
    new_grant = F.money_to_scaled_int d.grant_amount;
    expires_at = expires_of D d.expires_at;
    tier = d.tier;
    event_id = d.event_id;
    type = "sub_apply";
    source_type = "apayshop";
    source_id = d.source_id;
    remark = d.remark;
  }

  unfoldable pub cancel_of : SubscriptionCancelData → SubscriptionApply
  cancel_of d = record {
    user_id = d.user_id;
    new_paid = pos 0;
    new_grant = pos 0;
    expires_at = none;
    tier = pos 0;
    event_id = d.event_id;
    type = "sub_cancel";
    source_type = "apayshop";
    source_id = d.source_id;
    remark = d.remark;
  }

  module _ (R : Redis) where
    open R use {Store}

    abbrev pub reply_applied : String → Result ApplyError Bool → EventReply
    reply_applied message (ok a) = applied a
    reply_applied message (err e) = fail 500 message

    -- The checks of both events of a subscription, and their call of ApplySubscription.
    unfoldable pub apply_or_fail :
        ApplyEnv → String → SubscriptionApply → Db × Store → EventReply × Db × Store
    apply_or_fail env message p w =
        if leb_ℤ p.user_id (pos 0) || is_blank p.event_id
        then (let (db, s) = w in (fail 400 "Missing userId or eventId", db, s))
        else (let (r, db, s) = apply_subscription R env p w in (reply_applied message r, db, s))

    unfoldable pub handle_subscription_apply :
        Decoders → ApplyEnv → String → Db × Store → EventReply × Db × Store
    handle_subscription_apply D env payload (db, s) = elim (D.subscription_apply payload) [
      | none ↦ (fail 400 "Invalid subscription.apply payload", db, s)
      | some d ↦ apply_or_fail env "Failed to apply subscription" (apply_of D d) (db, s)
    ]

    unfoldable pub handle_subscription_cancel :
        Decoders → ApplyEnv → String → Db × Store → EventReply × Db × Store
    handle_subscription_cancel D env payload (db, s) = elim (D.subscription_cancel payload) [
      | none ↦ (fail 400 "Invalid subscription.cancel payload", db, s)
      | some d ↦ apply_or_fail env "Failed to cancel subscription" (cancel_of d) (db, s)
    ]

    abbrev pub reply_processed : Result HttpError TransactionProcessResult → EventReply
    reply_processed (ok r) = processed r
    reply_processed (err e) = failed e

    abbrev pub process_or_ignore :
        TransactionEnv
        → Result String (TransactionWebhookRequest F)
        → Db × Store
        → EventReply × Db × Store
    process_or_ignore env (err reason) (db, s) = (ignored reason, db, s)
    process_or_ignore env (ok req) w =
        let (r, db, s) = process_transaction F R env req w in (reply_processed r, db, s)

    unfoldable pub handle_order_paid_event :
        Decoders → TransactionEnv → EventEnvelope → Db × Store → EventReply × Db × Store
    handle_order_paid_event D env e (db, s) = elim (D.order_paid e.payload) [
      | none ↦ (fail 400 "Invalid order.paid payload", db, s)
      | some order ↦
          process_or_ignore env
            (build_transaction_request_from_order_paid F D.json_map e.event order) (db, s)
    ]

    unfoldable pub dispatch :
        Decoders → TransactionEnv → ApplyEnv → EventEnvelope → Db × Store → EventReply × Db × Store
    dispatch D env apply_env e (db, s) =
        if str_eq e.event "order.paid"
        then handle_order_paid_event D env e (db, s)
        else if str_eq e.event "subscription.apply"
        then handle_subscription_apply D apply_env e.payload (db, s)
        else if str_eq e.event "subscription.cancel"
        then handle_subscription_cancel D apply_env e.payload (db, s)
        else (ignored "Event ignored", db, s)

    -- The envelope of a body that is authorized.
    unfoldable pub handle_envelope :
        Decoders
        → TransactionEnv
        → ApplyEnv
        → Option EventEnvelope
        → Db × Store
        → EventReply × Db × Store
    handle_envelope D env apply_env none (db, s) = (fail 400 "Invalid event envelope", db, s)
    handle_envelope D env apply_env (some e) (db, s) =
        if str_eq (trim e.event) ""
        then (fail 400 "Missing event name", db, s)
        else dispatch D env apply_env (record e { event = trim e.event }) (db, s)

    unfoldable pub handle_event :
        Signatures
        → Decoders
        → String
        → TransactionEnv
        → ApplyEnv
        → EventRequest
        → Db × Store
        → EventReply × Db × Store
    handle_event S D internal_token env apply_env r (db, s) =
        let token = trim internal_token in
        if str_eq token ""
        then (fail 503 "Internal token not configured", db, s)
        else elim (r.body) [
          | none ↦ (fail 400 "Invalid request body", db, s)
          | some raw_body ↦
              if not (authorize_event_request S r raw_body token)
              then (fail 401 "Unauthorized", db, s)
              else handle_envelope D env apply_env (D.envelope raw_body) (db, s)
        ]
