-- ===== src/Billing/Subscription.antt =====
-- ApplySubscription of internal/billing/subscription.go, and the sweep of expired subscriptions of
-- subscription_expiry.go. A transaction of Postgres that does not commit leaves the tables as they
-- were; a statement that fails is an answer of the environment.
pub mod Calm
pub mod Taken
pub mod Transfer
use ainode.Prelude.{
  ℕ, Bool, true, false, not, ◌&&◌, Option, none, some, String, str_eq, if◌then◌else◌, Result, ok,
  err, ◌>>=◌, ◌>>◌, fail_if, List, [], ◌∷◌,
}
use ainode.Prelude.Int.{ℤ, pos, ◌+ℤ◌, ltb_ℤ, int64}
use ainode.Redis.{sub_balance, grant_balance, cash_balance, Redis}
use ainode.Billing.Pools.{Deduction}
use ainode.Db.{
  Db, Transaction, BalanceLog, get_user_balances, apply_subscription_db,
  get_transaction_by_event_id, create_transaction, create_balance_log,
}

pub record SubscriptionApply : Type 0 where
  pub user_id : ℤ
  pub new_paid : ℤ
  pub new_grant : ℤ
  pub expires_at : Option ℕ
  pub tier : ℤ
  pub event_id : String
  pub type : String
  pub source_type : String
  pub source_id : String
  pub remark : String

pub data ApplyError : Type 0 where
  begin_failed balances_failed apply_failed transaction_failed log_failed commit_failed : ApplyError

-- Which of the calls fails, apart from what the statements themselves answer.
pub record ApplyEnv : Type 0 where
  pub lookup_fails : Bool
  pub begin_fails : Bool
  pub balances_fail : Bool
  pub apply_fails : Bool
  pub transaction_fails : Bool
  pub log_fails : Bool
  pub cash_log_fails : Bool
  pub commit_fails : Bool
  pub has_redis : Bool

unfoldable pub non_empty : String → String → String
non_empty s fallback = if str_eq s "" then fallback else s

-- pgtype.Text{String: id, Valid: id != ""}
abbrev pub event_text : String → Option String
event_text id = if str_eq id "" then none else some id

abbrev pub is_some {ℓ} : {A : Type ℓ} → Option A → Bool
is_some none = false
is_some (some a) = true

abbrev pub or_error {ℓ} : {A : Type ℓ} → Option A → ApplyError → Result ApplyError A
or_error none e = err e
or_error (some a) e = ok a

unfoldable pub transaction_row : SubscriptionApply → Deduction → Transaction
transaction_row p old = record {
  id = 0;
  user_id = p.user_id;
  event_id = event_text p.event_id;
  type = non_empty p.type "sub_apply";
  balance_type = "grant";
  direction = "credit";
  amount_cents = int64 (p.new_paid +ℤ p.new_grant);
  before_balance_cents = int64 (old.sub +ℤ old.grant);
  after_balance_cents = int64 (p.new_paid +ℤ p.new_grant);
  source_type = non_empty p.source_type "system";
  source_id = p.source_id;
  status = "completed";
  remark = p.remark;
}

unfoldable pub subscription_log : SubscriptionApply → Deduction → ℕ → BalanceLog
subscription_log p old tx = record {
  transaction_id = some tx;
  user_id = p.user_id;
  balance_type = "subscription";
  action_type = non_empty p.type "sub_apply";
  amount_cents = int64 (p.new_paid +ℤ p.new_grant);
  before_balance_cents = int64 (old.sub +ℤ old.grant);
  after_balance_cents = int64 (p.new_paid +ℤ p.new_grant);
  operator_name = non_empty p.source_type "system";
  remark = p.remark;
}

unfoldable pub cash_log : SubscriptionApply → Deduction → ℤ → ℕ → BalanceLog
cash_log p old moved tx = record {
  transaction_id = some tx;
  user_id = p.user_id;
  balance_type = "cash";
  action_type = "sub_to_cash";
  amount_cents = moved;
  before_balance_cents = old.cash;
  after_balance_cents = int64 (old.cash +ℤ moved);
  operator_name = non_empty p.source_type "system";
  remark = "订阅实付剩余结转充值余额";
}

-- The rows of the balance log: the new amounts, and what moved to cash, if anything did.
unfoldable pub add_logs : SubscriptionApply → Deduction → ℤ → ℕ → Db → Db
add_logs p old moved tx db =
    let db' = create_balance_log (subscription_log p old tx) db in
    if ltb_ℤ (pos 0) moved then create_balance_log (cash_log p old moved tx) db' else db'

-- The logs and the commit, once the transaction row is there.
unfoldable pub write_logs :
    ApplyEnv → SubscriptionApply → Deduction → ℤ → ℕ → Db → Result ApplyError (Option Db)
write_logs env p old moved tx db = do
  fail_if env.log_fails log_failed
  fail_if (ltb_ℤ (pos 0) moved && env.cash_log_fails) log_failed
  fail_if env.commit_fails commit_failed
  ok (some (add_logs p old moved tx db))

-- `none` is the answer of the unique index: the event was applied by another run.
unfoldable pub write_transaction :
    ApplyEnv → SubscriptionApply → Deduction → ℤ → Option (ℕ × Db) → Result ApplyError (Option Db)
write_transaction env p old moved none = ok none
write_transaction env p old moved (some (tx, db)) = write_logs env p old moved tx db

-- The transaction: what is committed, or `none` if it was applied before.
unfoldable pub transfer : ApplyEnv → SubscriptionApply → Db → Result ApplyError (Option Db)
unfolding write_transaction
transfer env p db = do
  fail_if env.begin_fails begin_failed
  fail_if env.balances_fail balances_failed
  old ← or_error (get_user_balances p.user_id db) balances_failed
  fail_if env.apply_fails apply_failed
  (moved, db') ←
      or_error
        (apply_subscription_db p.user_id p.new_paid p.new_grant p.expires_at (some p.tier) db)
        apply_failed
  fail_if env.transaction_fails transaction_failed
  write_transaction env p old moved (create_transaction (transaction_row p old) db')

module _ (R : Redis) where
  open R use {Store, del}

  -- Del of the three keys, after the commit; its error is ignored.
  unfoldable pub drop_cache : Bool → ℤ → Store → Store
  drop_cache has_redis uid s =
      if has_redis
      then del (cash_balance uid) (del (grant_balance uid) (del (sub_balance uid) s))
      else s

  unfoldable pub conclude_apply :
      ApplyEnv
      → SubscriptionApply
      → Result ApplyError (Option Db)
      → Db × Store
      → Result ApplyError Bool × Db × Store
  unfolding drop_cache
  conclude_apply env p (err e) (db, s) = (err e, db, s)
  conclude_apply env p (ok none) (db, s) = (ok false, db, s)
  conclude_apply env p (ok (some db')) (db, s) =
      (ok true, db', drop_cache env.has_redis p.user_id s)

  -- The look-up in advance answers a row of the event; any error of it passes to the transaction.
  unfoldable pub apply_subscription :
      ApplyEnv → SubscriptionApply → Db × Store → Result ApplyError Bool × Db × Store
  unfolding conclude_apply
  apply_subscription env p (db, s) =
      if not (str_eq p.event_id "")
        && not env.lookup_fails
        && is_some (get_transaction_by_event_id (event_text p.event_id) db)
      then (ok false, db, s)
      else conclude_apply env p (transfer env p db) (db, s)

  -- What sweepExpiredSubscriptions applies to a user; `day` prints today's event of the user.
  unfoldable pub expiry_of : (ℤ → String) → ℤ → SubscriptionApply
  expiry_of day uid = record {
    user_id = uid;
    new_paid = pos 0;
    new_grant = pos 0;
    expires_at = none;
    tier = pos 0;
    event_id = day uid;
    type = "sub_expire";
    source_type = "system";
    source_id = "expiry-sweep";
    remark = "订阅到期自动清理(赠送清零、实付剩余转余额)";
  }

  -- The loop over the users whose subscription is over; an error passes to the next user.
  unfoldable pub sweep_expired_subscriptions :
      (ℤ → String) → List (ℤ × ApplyEnv) → Db × Store → Db × Store
  unfolding apply_subscription expiry_of
  sweep_expired_subscriptions day [] w = w
  sweep_expired_subscriptions day ((uid, env) ∷ users) w =
      let (applied, db, s) = apply_subscription env (expiry_of day uid) w in
      sweep_expired_subscriptions day users (db, s)
