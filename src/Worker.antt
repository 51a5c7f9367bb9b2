-- ===== src/Worker.antt =====
-- The billing worker: HandleRecordBillingLog of internal/worker/billing.go. Everything between
-- Begin and Commit is one database transaction: what it computes replaces the database when it
-- commits, and is dropped otherwise.
pub mod Ledger
pub mod Retries
use ainode.Prelude.{
  ℕ, Bool, true, false, Option, none, some, List, [], ◌∷◌, String, str_eq, if◌then◌else◌, Result,
  ok, err, ◌>>=◌, ◌>>◌, fail_if,
}
use ainode.Prelude.Int.{ℤ, pos, ◌-ℤ◌, ltb_ℤ, int64}
use ainode.Billing.Pools.{split_actual3}
use ainode.Billing.Request.{SettlementRequest}
use ainode.Db.{
  Db, BillingLog, update_user_sub_balance, update_user_topup_balance, update_user_grant_balance,
  check_billing_log_exists, create_billing_log, increment_api_key_quota_used,
}

-- The payload of a task, as json.Unmarshal reads it.
pub data Payload : Type 0 where
  valid : SettlementRequest → Payload
  malformed : Payload

pub data WorkerError : Type 0 where
  skip_retry db_error : WorkerError

-- Which of the calls of one run fail, and the time of the database.
pub record WorkerEnv : Type 0 where
  pub now : ℕ
  pub begin_fails : Bool
  pub check_fails : Bool
  pub sub_fails : Bool
  pub cash_fails : Bool
  pub grant_fails : Bool
  pub log_fails : Bool
  pub commit_fails : Bool
  pub quota_fails : Bool

-- pgtype.Text{String: s, Valid: s != ""}
abbrev pub text : String → Option String
text s = if str_eq s "" then none else some s

-- pgtype.Int4{Int32: id, Valid: id > 0}
abbrev pub positive : ℤ → Option ℤ
positive id = if ltb_ℤ (pos 0) id then some id else none

abbrev pub negate : ℤ → ℤ
negate a = int64 (pos 0 -ℤ a)

-- The check of idempotency, which a request without an id skips.
unfoldable pub already_processed : WorkerEnv → SettlementRequest → Db → Result WorkerError Bool
already_processed env req db =
    if str_eq req.request_id ""
    then ok false
    else if env.check_fails
    then err db_error
    else ok (check_billing_log_exists (text req.request_id) db)

abbrev pub billing_log : SettlementRequest → BillingLog
billing_log req = record {
  user_id = some req.user_id;
  channel_id = positive req.channel_id;
  model_name = req.model_name;
  prompt_tokens = some req.prompt_tokens;
  completion_tokens = some req.completion_tokens;
  cache_hit_tokens = some req.cache_hit_tokens;
  cache_miss_tokens = some req.cache_miss_tokens;
  amount_cents = req.actual_cost_cents;
  log_type = req.log_type;
  pre_deducted_cents = req.pre_deducted_cents;
  request_id = text req.request_id;
}

-- The three balances and the log row, in the order of the statements.
unfoldable pub charge_ledger : WorkerEnv → SettlementRequest → Db → Db
charge_ledger env req db =
    let d =
      split_actual3 req.actual_cost_cents req.sub_deducted req.grant_deducted req.cash_deducted in
    let db1 = update_user_sub_balance env.now req.user_id (negate d.sub) db in
    let db2 = update_user_topup_balance req.user_id (negate d.cash) db1 in
    let db3 = update_user_grant_balance req.user_id (negate d.grant) db2 in
    create_billing_log (billing_log req) db3

-- The rest of the transaction, after the check: `none` if the request was processed before, else
-- what is committed.
unfoldable pub bill : WorkerEnv → SettlementRequest → Db → Bool → Result WorkerError (Option Db)
bill env req db true = ok none
bill env req db false = do
  fail_if env.sub_fails db_error
  fail_if env.cash_fails db_error
  fail_if env.grant_fails db_error
  fail_if env.log_fails db_error
  fail_if env.commit_fails db_error
  ok (some (charge_ledger env req db))

unfoldable pub record_transaction :
    WorkerEnv → SettlementRequest → Db → Result WorkerError (Option Db)
unfolding already_processed bill
record_transaction env req db = do
  fail_if env.begin_fails db_error
  done ← already_processed env req db
  bill env req db done

-- After the commit, outside the transaction, and best effort.
unfoldable pub count_quota : WorkerEnv → SettlementRequest → Db → Db
count_quota env req db =
    if ltb_ℤ (pos 0) req.api_key_id
    then (if env.quota_fails
        then db
        else increment_api_key_quota_used req.api_key_id req.actual_cost_cents db)
    else db

unfoldable pub handle_record_billing_log :
    WorkerEnv → Payload → Db → Result WorkerError (Unit {0}) × Db
handle_record_billing_log env malformed db = (err skip_retry, db)
handle_record_billing_log env (valid req) db = elim (record_transaction env req db) [
  | err e ↦ (err e, db)
  | ok none ↦ (ok tt, db)
  | ok (some db') ↦ (ok tt, count_quota env req db')
]

-- The queue delivers a task again as long as it is there: one run for each environment.
unfoldable pub deliveries : List WorkerEnv → Payload → Db → Db
deliveries [] p db = db
deliveries (env ∷ envs) p db = deliveries envs p (handle_record_billing_log env p db).1
