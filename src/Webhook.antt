-- ===== src/Webhook.antt =====
-- processTransaction of internal/api/webhook/processor.go: a credit or a debit of one balance that
-- the shop reports. `meanwhile` is what other clients commit between the look for the event and
-- the transaction; within the transaction the tables change by its own statements only. The raw
-- metadata, the times of the rows and the printed JSON are left out.
pub mod Commits
pub mod Outcomes
pub mod Audit
pub mod Once
pub mod Credits
pub mod OrderPaid
pub mod Events
use ainode.Prelude.{
  ℕ, Bool, true, false, not, ◌&&◌, ◌||◌, Option, none, some, String, str_eq, if◌then◌else◌, Result,
  ok, err, ◌>>=◌, ◌>>◌, fail_if,
}
use ainode.Prelude.Int.{ℤ, pos, ◌+ℤ◌, ◌-ℤ◌, leb_ℤ, ltb_ℤ, int64, IsInt64}
use ainode.Text.Strings.{trim, lower_text, ◌<>◌}
use ainode.Redis.{Redis}
use ainode.Billing.Pools.{Deduction}
use ainode.Billing.Deduct.{credit_balance_cache, CacheError}
use ainode.Billing.Subscription.{event_text}
use ainode.Db.{
  Db, Transaction, BalanceLog, get_user_balances, get_transaction_by_event_id, create_transaction,
  create_balance_log, update_user_grant_balance, update_user_topup_balance,
}

-- float64 as the webhook uses it: the number 0, the test `> 0`, and moneyToScaledInt, which is
-- int64(math.Round(amount * 100000000)).
pub record Floats : Type 1 where
  pub Float : Type 0
  pub zero_amount : Float
  pub is_above_zero : Float → Bool
  pub money_to_scaled_int : Float → ℤ
  pub money-IsInt64 : (x : Float) → IsInt64 (money_to_scaled_int x)

-- The HTTP status of an answer with an error; each status is one line of reasons in the code.
pub record HttpError : Type 0 where
  pub status : ℕ
  pub message : String

-- Which of the calls fails, apart from what the statements themselves answer.
pub record TransactionEnv : Type 0 where
  pub lookup_fails : Bool
  pub meanwhile : Db → Db
  pub begin_fails : Bool
  pub user_fails : Bool
  pub update_fails : Bool
  pub transaction_fails : Bool
  pub second_lookup_fails : Bool
  pub log_fails : Bool
  pub commit_fails : Bool
  pub has_redis : Bool
  pub credit_fails : Bool

pub record TransactionProcessResult : Type 0 where
  pub message : String
  pub already_processed : Bool
  pub transaction_id : ℕ
  pub status : String
  pub cache_synced : Bool

abbrev pub bad_request : String → HttpError
bad_request m = record { status = 400; message = m }

abbrev pub server_error : String → HttpError
server_error m = record { status = 500; message = m }

abbrev pub or_else : String → String → String
or_else s fallback = if str_eq s "" then fallback else s

unfoldable pub already : Transaction → TransactionProcessResult
already x = record {
  message = "Transaction already processed";
  already_processed = true;
  transaction_id = x.id;
  status = x.status;
  cache_synced = false;
}

abbrev pub is_ok {ℓ κ} : {E : Type ℓ} {A : Type κ} → Result E A → Bool
is_ok (ok a) = true
is_ok (err e) = false

module _ (F : Floats) where
  pub record TransactionWebhookRequest : Type 0 where
    pub source : String
    pub event : String
    pub event_id : String
    pub user_id : ℤ
    pub type : String
    pub balance_type : String
    pub direction : String
    pub amount : F.Float
    pub source_id : String
    pub remark : String

  unfoldable pub normalize_transaction_request :
      TransactionWebhookRequest → TransactionWebhookRequest
  normalize_transaction_request req =
      let source = or_else (trim (lower_text req.source)) "apayshop" in
      let event = trim req.event in
      record req {
        source = source;
        event = event;
        event_id = trim req.event_id;
        type = trim (lower_text req.type);
        balance_type = trim (lower_text req.balance_type);
        direction = trim (lower_text req.direction);
        source_id = trim req.source_id;
        remark = or_else (trim req.remark) (source <> ":" <> event);
      }

  -- The checks of the normalized request, in order; the amount at the scale of the balances.
  unfoldable pub validate : TransactionWebhookRequest → Result HttpError ℤ
  validate req = do
    fail_if
        (str_eq req.event ""
          || str_eq req.event_id ""
          || leb_ℤ req.user_id (pos 0)
          || str_eq req.type ""
          || str_eq req.source_id "")
        (bad_request "Missing required transaction fields")
    fail_if (not (F.is_above_zero req.amount)) (bad_request "Amount must be greater than 0")
    fail_if (not (str_eq req.balance_type "cash") && not (str_eq req.balance_type "grant"))
        (bad_request "Unsupported balance type")
    fail_if (not (str_eq req.direction "credit") && not (str_eq req.direction "debit"))
        (bad_request "Unsupported direction")
    fail_if (leb_ℤ (F.money_to_scaled_int req.amount) (pos 0)) (bad_request "Amount is too small")
    ok (F.money_to_scaled_int req.amount)

  -- The balance that the request names, a null as 0, and its change.
  unfoldable pub before_balance : TransactionWebhookRequest → Deduction → ℤ
  before_balance req d = if str_eq req.balance_type "grant" then d.grant else d.cash

  unfoldable pub delta_of : TransactionWebhookRequest → ℤ → ℤ
  delta_of req scaled = if str_eq req.direction "debit" then int64 (pos 0 -ℤ scaled) else scaled

  unfoldable pub update_balance : TransactionWebhookRequest → ℤ → Db → Db
  update_balance req delta db =
      if str_eq req.balance_type "grant"
      then update_user_grant_balance req.user_id delta db
      else update_user_topup_balance req.user_id delta db

  unfoldable pub transaction_of : TransactionWebhookRequest → ℤ → ℤ → ℤ → Transaction
  transaction_of req scaled before after = record {
    id = 0;
    user_id = req.user_id;
    event_id = event_text req.event_id;
    type = req.type;
    balance_type = req.balance_type;
    direction = req.direction;
    amount_cents = scaled;
    before_balance_cents = before;
    after_balance_cents = after;
    source_type = req.source;
    source_id = req.source_id;
    status = "completed";
    remark = req.remark;
  }

  unfoldable pub balance_log_of : TransactionWebhookRequest → ℤ → ℤ → ℤ → ℕ → BalanceLog
  balance_log_of req scaled before after tx = record {
    transaction_id = some tx;
    user_id = req.user_id;
    balance_type = req.balance_type;
    action_type = or_else req.type (if str_eq req.direction "debit" then "deduct" else "recharge");
    amount_cents = scaled;
    before_balance_cents = before;
    after_balance_cents = after;
    operator_name = or_else req.source "system";
    remark = req.remark;
  }

  -- What the transaction of the database ends in: the id of its row with the tables that are
  -- committed, or the row of another run that has taken the event id meanwhile.
  pub data Booking : Type 0 where
    committed : ℕ → Db → Booking
    taken : Transaction → Booking

  -- The unique index refuses the row: the row that is there is answered, if it can be read.
  unfoldable pub write_rows :
      TransactionEnv
      → TransactionWebhookRequest
      → ℤ
      → ℤ
      → ℤ
      → Option Transaction
      → Option (ℕ × Db)
      → Result HttpError Booking
  write_rows env req scaled before after (some old) none = do
    fail_if env.second_lookup_fails (server_error "Failed to create transaction")
    ok (taken old)
  write_rows env req scaled before after none none =
      err (server_error "Failed to create transaction")
  write_rows env req scaled before after old (some (tx, db)) = do
    fail_if env.log_fails (server_error "Failed to create balance log")
    fail_if env.commit_fails (server_error "Failed to commit transaction")
    ok (committed tx (create_balance_log (balance_log_of req scaled before after tx) db))

  abbrev pub or_not_found : Option Deduction → Result HttpError Deduction
  or_not_found none = err (record { status = 404; message = "User not found" })
  or_not_found (some d) = ok d

  unfoldable pub book :
      TransactionEnv → TransactionWebhookRequest → ℤ → Db → Result HttpError Booking
  unfolding write_rows
  book env req scaled db = do
    fail_if env.begin_fails (server_error "Failed to start transaction")
    fail_if env.user_fails (record { status = 404; message = "User not found" })
    d ← or_not_found (get_user_balances req.user_id db)
    let before = before_balance req d
    let delta = delta_of req scaled
    let after = int64 (before +ℤ delta)
    fail_if (ltb_ℤ after (pos 0))
        (record { status = 409; message = "Insufficient balance for debit transaction" })
    fail_if env.update_fails (server_error "Failed to update user balance")
    fail_if env.transaction_fails (server_error "Failed to create transaction")
    write_rows env req scaled before after
        (get_transaction_by_event_id (event_text req.event_id) db)
        (create_transaction (transaction_of req scaled before after) (update_balance req delta db))

  module _ (R : Redis) where
    open R use {Store}

    -- After the commit the cached balance is changed by the same amount.
    unfoldable pub conclude_transaction :
        TransactionEnv
        → TransactionWebhookRequest
        → ℤ
        → Result HttpError Booking
        → Db × Store
        → Result HttpError TransactionProcessResult × Db × Store
    conclude_transaction env req delta (err e) (db, s) = (err e, db, s)
    conclude_transaction env req delta (ok (taken old)) (db, s) = (ok (already old), db, s)
    conclude_transaction env req delta (ok (committed tx db')) (db, s) =
        let (credited, s') =
          credit_balance_cache R env.has_redis env.credit_fails req.user_id req.balance_type delta
            s in
        (
          ok (record {
            message = "Transaction processed successfully";
            already_processed = false;
            transaction_id = tx;
            status = "completed";
            cache_synced = is_ok credited;
          }),
          db',
          s',
        )

    -- The request is normalized and in order.
    unfoldable pub process_valid :
        TransactionEnv
        → TransactionWebhookRequest
        → ℤ
        → Db × Store
        → Result HttpError TransactionProcessResult × Db × Store
    unfolding conclude_transaction
    process_valid env req scaled (db, s) =
        if env.lookup_fails
        then (err (server_error "Failed to check transaction idempotency"), db, s)
        else elim (get_transaction_by_event_id (event_text req.event_id) db) [
          | some old ↦ (ok (already old), db, s)
          | none ↦
              let db' = env.meanwhile db in
              conclude_transaction env req (delta_of req scaled) (book env req scaled db') (db', s)
        ]

    unfoldable pub process_transaction :
        TransactionEnv
        → TransactionWebhookRequest
        → Db × Store
        → Result HttpError TransactionProcessResult × Db × Store
    unfolding process_valid
    process_transaction env request (db, s) =
        let req = normalize_transaction_request request in
        elim (validate req) [
          | err e ↦ (err e, db, s)
          | ok scaled ↦ process_valid env req scaled (db, s)
        ]
