-- ===== src/Webhook/Events/Safe.antt =====
-- Who may send events, and an order that is reported twice.
use ainode.Prelude.{
  Succeeds, Succeeds-bind, Succeeds-fail_if, arith, ◌≡◌, ◌≢◌, refl, sym, ap, ◌∙◌, Bool, false, ◌||◌,
  Option, none, some, String, str_eq, eq_iff, if◌then◌else◌, if-cases, Result, ok, err,
}
use ainode.Text.Strings.{trim, ◌<>◌}
use ainode.Redis.{Redis}
use ainode.Billing.Subscription.{ApplyEnv}
use ainode.Db.{Db}
use ainode.Webhook.{
  Floats, TransactionEnv, TransactionWebhookRequest, TransactionProcessResult, HttpError,
  process_transaction,
}
use ainode.Webhook.OrderPaid.{OrderPaidEventData, build_transaction_request_from_order_paid}
use ainode.Webhook.Once.{process_transaction-once}
use ainode.Webhook.Events.{
  Signatures, EventEnvelope, EventRequest, Decoders, EventReply, fail, processed,
  authorize_event_request, handle_event, handle_order_paid_event, reply_processed,
  process_or_ignore,
}

-- The transaction id that an order is given.
abbrev pub order_event_id : String → String → String
order_event_id event id = "apayshop:" <> event <> ":" <> id

module _ (F : Floats) (S : Signatures) (r : EventRequest) (raw_body token : String) where
  not_authorized :
      trim r.authorization ≢ "Bearer " <> token
      → ((m : S.Mac)
          → S.decode_string (trim r.signature) ≡ some m
          → S.equal m (S.sign token (trim r.timestamp <> "." <> raw_body)) ≡ false)
      → authorize_event_request F S r raw_body token ≡ false
  unfolding authorize_event_request
  not_authorized bearer signature = rw (bearer_ne) (
      if-cases (λ b. b ≡ false) (str_eq (trim r.timestamp) "" || str_eq (trim r.signature) "") false
        (by_mac (S.decode_string (trim r.signature))) (λ _. refl)
        (λ _. checked (S.decode_string (trim r.signature)) refl))
    where
      bearer_ne : str_eq (trim r.authorization) ("Bearer " <> token) ≡ false
      bearer_ne = ground (arith, eq_iff (trim r.authorization) ("Bearer " <> token))

      by_mac : Option S.Mac → Bool
      by_mac o = elim o [
        | none ↦ false
        | some actual ↦ S.equal actual (S.sign token (trim r.timestamp <> "." <> raw_body))
      ]

      checked : (o : Option S.Mac) → S.decode_string (trim r.signature) ≡ o → by_mac o ≡ false
      checked none e = refl
      checked (some m) e = signature m e

module _ (F : Floats) (R : Redis) where
  module _ (S : Signatures) (D : Decoders F) (internal_token : String) (env : TransactionEnv)
      (apply_env : ApplyEnv) (r : EventRequest) (db : Db) (s : R.Store) where
    -- An event whose body can be read, but which carries neither the internal token nor a
    -- signature that decodes to the MAC of its timestamp and body, is refused with status 401, or
    -- 503 where no token is configured, and changes nothing.
    pub handle_event_refuses :
        (raw_body : String)
        → r.body ≡ some raw_body
        → trim r.authorization ≢ "Bearer " <> trim internal_token
        → ((m : S.Mac)
            → S.decode_string (trim r.signature) ≡ some m
            → S.equal m (S.sign (trim internal_token) (trim r.timestamp <> "." <> raw_body))
              ≡ false)
        → handle_event F R S D internal_token env apply_env r (db, s) ≡ (
          if str_eq (trim internal_token) ""
              then fail F 503 "Internal token not configured"
              else fail F 401 "Unauthorized",
          db,
          s,
        )
    unfolding handle_event
    handle_event_refuses raw_body body bearer signature =
        rw (body, not_authorized F S r raw_body (trim internal_token) bearer signature)
          (ground arith)

  build-event_id :
      (D : Decoders F) (event : String) (order : OrderPaidEventData F)
      → Succeeds
          (λ (req : TransactionWebhookRequest F). req.event_id ≡ order_event_id event order.id)
          (build_transaction_request_from_order_paid F D.json_map event order)
  unfolding build_transaction_request_from_order_paid
  build-event_id D event order = search (Succeeds-bind, Succeeds-fail_if) depth 12

  -- Two requests under one event id, or reasons to ignore.
  once_of :
      (env env' : TransactionEnv) (id : String) (b b' : Result String (TransactionWebhookRequest F))
      (p : TransactionProcessResult) (db : Db) (s : R.Store)
      → Succeeds (λ (req : TransactionWebhookRequest F). req.event_id ≡ id) b
      → Succeeds (λ (req : TransactionWebhookRequest F). req.event_id ≡ id) b'
      → (process_or_ignore F R env b (db, s)).0 ≡ processed p
      → (let (r₁, db₁, s₁) = process_or_ignore F R env b (db, s) in
          let (r₂, db₂, s₂) = process_or_ignore F R env' b' (db₁, s₁) in (db₂ ≡ db₁) × (s₂ ≡ s₁))
  once_of env env' id (err e) b' p db s h h' a = absurd cc
  once_of env env' id (ok req) (err e') p db s h h' a = (refl, refl)
  once_of env env' id (ok req) (ok req') p db s h h' a =
      let twice =
        process_transaction-once F R env env' req req' p db s (ap trim (h' ∙ sym h))
          (answered (process_transaction F R env req (db, s)).0 a) in
      (twice.0, twice.1)
    where
      answered :
          (x : Result HttpError TransactionProcessResult)
          → reply_processed F R x ≡ processed p
          → x ≡ ok p
      answered (ok q) e = cc
      answered (err q) e = absurd cc

  handled :
      (D : Decoders F) (env : TransactionEnv) (e : EventEnvelope) (order : OrderPaidEventData F)
      (w : Db × R.Store)
      → D.order_paid e.payload ≡ some order
      → handle_order_paid_event F R D env e w
        ≡ process_or_ignore F R env
            (build_transaction_request_from_order_paid F D.json_map e.event order)
            w
  unfolding handle_order_paid_event
  handled D env e order w h = rw (handle_order_paid_event, h) refl

  module _ (D : Decoders F) (env env' : TransactionEnv) (e e' : EventEnvelope)
      (order order' : OrderPaidEventData F) (db : Db) (s : R.Store) where
    -- After an order.paid event that was processed, a later event of the same name for the same
    -- order id changes neither tables nor cache, whatever else the two say and whatever fails in
    -- the second.
    pub handle_order_paid_event-once :
        (p : TransactionProcessResult)
        → D.order_paid e.payload ≡ some order
        → D.order_paid e'.payload ≡ some order'
        → e'.event ≡ e.event
        → order'.id ≡ order.id
        → (handle_order_paid_event F R D env e (db, s)).0 ≡ processed p
        → (let (r₁, db₁, s₁) = handle_order_paid_event F R D env e (db, s) in
            let (r₂, db₂, s₂) = handle_order_paid_event F R D env' e' (db₁, s₁) in
            (db₂ ≡ db₁) × (s₂ ≡ s₁))
    handle_order_paid_event-once p first second event id answer =
        let (r₁, db₁, s₁) = handle_order_paid_event F R D env e (db, s) in
        rw (handled D env' e' order' (db₁, s₁) second, handled D env e order (db, s) first)
          (once_of env env' (order_event_id e.event order.id)
            (build_transaction_request_from_order_paid F D.json_map e.event order)
            (build_transaction_request_from_order_paid F D.json_map e'.event order') p db s
            (build-event_id D e.event order) (rw (← event, ← id) (build-event_id D e'.event order'))
            (sym (
                ap (λ (x : EventReply F × Db × R.Store). x.0) (handled D env e order (db, s) first))
              ∙ answer))
