-- ===== src/Tests/Accounts.antt =====
-- The worker and the subscriptions on a database with the users 7 and 8.
use ainode.Prelude.{◌≡◌, ◌⊎◌, refl, arith, true, false, none, some, [], ◌∷◌, ok}
use ainode.Prelude.Int.{ℤ, pos}
use ainode.Redis.{sub_balance, grant_balance, cash_balance}
use ainode.Redis.Memory.{memory, MemoryStore, empty_store, put}
use ainode.Billing.Pools.{debit}
use ainode.Billing.Request.{SettlementRequest}
use ainode.Billing.Settlement.Effects.{ledger_charge}
use ainode.Billing.Subscription.{SubscriptionApply, ApplyEnv, apply_subscription}
use ainode.Billing.Subscription.Calm.{IsCalm as ApplyIsCalm, renewed}
use ainode.Billing.Subscription.Transfer.{
  Unchanged, apply_subscription-moves, apply_subscription-once,
}
use ainode.Db.{Db, User, balances, find_user, get_user_balances, check_billing_log_exists}
use ainode.Worker.{WorkerEnv, valid, billing_log, handle_record_billing_log, deliveries}
use ainode.Worker.Ledger.{IsInRange, IsCalm, handle-charges}
use ainode.Worker.Retries.{IsBilled, deliveries_charge_once}

abbrev pub user : ℤ → User
user id = record {
  id = id;
  cash_balance = some (pos 50);
  grant_balance = some (pos 30);
  tier_level = some (pos 1);
  sub_balance = pos 40;
  sub_expires_at = none;
}

abbrev pub db : Db
db = record {
  users = user (pos 7) ∷ user (pos 8) ∷ [];
  billing_logs = [];
  next_transaction_id = 0;
  transactions = [];
  balance_logs = [];
  api_keys = [];
}

abbrev pub env : WorkerEnv
env = record {
  now = 1000;
  begin_fails = false;
  check_fails = false;
  sub_fails = false;
  cash_fails = false;
  grant_fails = false;
  log_fails = false;
  commit_fails = false;
  quota_fails = false;
}

abbrev broken_env : WorkerEnv
broken_env = record env { commit_fails = true }

abbrev pub request : SettlementRequest
request = record {
  user_id = pos 7;
  api_key_id = pos 0;
  channel_id = pos 2;
  model_name = "gpt-4o";
  prompt_tokens = pos 10;
  completion_tokens = pos 20;
  cache_hit_tokens = pos 0;
  cache_miss_tokens = pos 0;
  pre_deducted_cents = pos 60;
  sub_deducted = pos 40;
  grant_deducted = pos 20;
  cash_deducted = pos 0;
  actual_cost_cents = pos 45;
  log_type = "consume";
  request_id = "req-1";
}

abbrev in_range : IsInRange request
in_range = record { sub_range = omega arith; grant_range = omega arith; cash_range = omega arith }

abbrev pub calm : IsCalm env
calm = record {
  begins = refl;
  checks = refl;
  takes_sub = refl;
  takes_cash = refl;
  takes_grant = refl;
  logs = refl;
  commits = refl;
}

handle-charges_example :
    ((handle_record_billing_log env (valid request) db).0 ≡ ok tt)
    × (get_user_balances (pos 7) (handle_record_billing_log env (valid request) db).1
        ≡ some (debit (balances (user (pos 7))) (ledger_charge request)))
    × ((handle_record_billing_log env (valid request) db).1.billing_logs ≡ billing_log request ∷ [])
unfolding check_billing_log_exists
handle-charges_example =
    handle-charges env request db (user (pos 7)) refl refl refl in_range calm refl

deliveries_charge_once_example :
    (deliveries (broken_env ∷ env ∷ env ∷ []) (valid request) db ≡ db)
    ⊎ ((e : WorkerEnv) × (deliveries (broken_env ∷ env ∷ env ∷ []) (valid request) db
          ≡ (handle_record_billing_log e (valid request) db).1)
        × IsBilled "req-1" (deliveries (broken_env ∷ env ∷ env ∷ []) (valid request) db))
deliveries_charge_once_example =
    deliveries_charge_once (broken_env ∷ env ∷ env ∷ []) request db (λ h. cc)

abbrev apply_env : ApplyEnv
apply_env = record {
  lookup_fails = false;
  begin_fails = false;
  balances_fail = false;
  apply_fails = false;
  transaction_fails = false;
  log_fails = false;
  cash_log_fails = false;
  commit_fails = false;
  has_redis = true;
}

abbrev apply_calm : ApplyIsCalm apply_env
apply_calm = record {
  begins = refl;
  reads_balances = refl;
  applies = refl;
  writes_transaction = refl;
  writes_log = refl;
  writes_cash_log = refl;
  commits = refl;
  cached = refl;
}

abbrev renewal : SubscriptionApply
renewal = record {
  user_id = pos 7;
  new_paid = pos 100;
  new_grant = pos 20;
  expires_at = some 5000;
  tier = pos 2;
  event_id = "evt-1";
  type = "";
  source_type = "apayshop";
  source_id = "order-1";
  remark = "";
}

abbrev store : MemoryStore
store = put (sub_balance (pos 7)) (some (pos 40)) empty_store

apply_subscription-moves_example :
    ((apply_subscription memory apply_env renewal (db, store)).0 ≡ ok true)
    × (find_user (pos 7) (apply_subscription memory apply_env renewal (db, store)).1.users
        ≡ some (renewed renewal (user (pos 7))))
    × ((apply_subscription memory apply_env renewal (db, store)).2 (sub_balance (pos 7)) ≡ none)
    × ((apply_subscription memory apply_env renewal (db, store)).2 (grant_balance (pos 7)) ≡ none)
    × ((apply_subscription memory apply_env renewal (db, store)).2 (cash_balance (pos 7)) ≡ none)
apply_subscription-moves_example =
    apply_subscription-moves memory apply_env renewal db store (user (pos 7)) apply_calm refl refl

abbrev blind_env : ApplyEnv
blind_env = record apply_env { lookup_fails = true }

apply_subscription-once_example :
    let (r, db', s') = apply_subscription memory apply_env renewal (db, store) in
    Unchanged memory blind_env renewal db' s'
      (apply_subscription memory blind_env renewal (db', s'))
apply_subscription-once_example =
    apply_subscription-once memory apply_env renewal db store (user (pos 7)) apply_calm refl refl
      blind_env renewal (λ h. cc) refl
