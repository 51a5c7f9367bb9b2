-- ===== src/Db.antt =====
-- The tables that the billing writes, and the statements of internal/db on them (models.go,
-- billing_queries.go, query.sql.go). A table is the list of its rows; a nullable column is an
-- option, and arithmetic on a null is a null. The columns are those that the modelled statements
-- read or write. A failing statement is an answer of the environment, given by its caller.
pub mod Rows
use ainode.Prelude.{
  ℕ, suc, ◌+◌, Bool, true, false, ◌||◌, Option, none, some, List, [], ◌∷◌, ◌++◌, String, str_eq,
  if◌then◌else◌,
}
use ainode.Prelude.Int.{ℤ, pos, ◌+ℤ◌, eqb_ℤ, ltb_ℤ}
use ainode.Billing.Pools.{Deduction}
use mathlib.Core.Option

pub record User : Type 0 where
  pub id : ℤ
  pub cash_balance : Option ℤ
  pub grant_balance : Option ℤ
  pub tier_level : Option ℤ
  pub sub_balance : ℤ
  pub sub_expires_at : Option ℕ

pub record BillingLog : Type 0 where
  pub user_id : Option ℤ
  pub channel_id : Option ℤ
  pub model_name : String
  pub prompt_tokens : Option ℤ
  pub completion_tokens : Option ℤ
  pub cache_hit_tokens : Option ℤ
  pub cache_miss_tokens : Option ℤ
  pub amount_cents : ℤ
  pub log_type : String
  pub pre_deducted_cents : ℤ
  pub request_id : Option String

pub record Transaction : Type 0 where
  pub id : ℕ
  pub user_id : ℤ
  pub event_id : Option String
  pub type : String
  pub balance_type : String
  pub direction : String
  pub amount_cents : ℤ
  pub before_balance_cents : ℤ
  pub after_balance_cents : ℤ
  pub source_type : String
  pub source_id : String
  pub status : String
  pub remark : String

pub record BalanceLog : Type 0 where
  pub transaction_id : Option ℕ
  pub user_id : ℤ
  pub balance_type : String
  pub action_type : String
  pub amount_cents : ℤ
  pub before_balance_cents : ℤ
  pub after_balance_cents : ℤ
  pub operator_name : String
  pub remark : String

pub record ApiKey : Type 0 where
  pub id : ℤ
  pub quota_limit : Option ℤ
  pub quota_used : Option ℤ

pub record Db : Type 0 where
  pub users : List User
  pub billing_logs : List BillingLog
  pub next_transaction_id : ℕ
  pub transactions : List Transaction
  pub balance_logs : List BalanceLog
  pub api_keys : List ApiKey

-- WHERE id = $1, on a key column that is unique.
abbrev pub find_user : ℤ → List User → Option User
find_user uid [] = none
find_user uid (u ∷ us) = if eqb_ℤ u.id uid then some u else find_user uid us

abbrev pub update_user : ℤ → (User → User) → List User → List User
update_user uid f [] = []
update_user uid f (u ∷ us) = (if eqb_ℤ u.id uid then f u else u) ∷ update_user uid f us

-- COALESCE(column, 0)
abbrev pub coalesce : Option ℤ → ℤ
coalesce none = pos 0
coalesce (some v) = v

abbrev pub balances : User → Deduction
balances u = record {
  sub = u.sub_balance;
  grant = coalesce u.grant_balance;
  cash = coalesce u.cash_balance;
}

unfoldable pub get_user_balances : ℤ → Db → Option Deduction
get_user_balances uid db = Option.map balances (find_user uid db.users)

-- A column to which a statement adds `delta`.
abbrev pub add_to : ℤ → Option ℤ → Option ℤ
add_to delta none = none
add_to delta (some v) = some (v +ℤ delta)

-- The expiry is set to 30 days from `now` by a credit to a user that has none.
abbrev pub sub_expiry : ℕ → ℤ → Option ℕ → Option ℕ
sub_expiry now delta (some t) = some t
sub_expiry now delta none = if ltb_ℤ (pos 0) delta then some (now + 2592000) else none

unfoldable pub update_user_sub_balance : ℕ → ℤ → ℤ → Db → Db
update_user_sub_balance now uid delta db = record db {
  users =
      update_user uid
        (λ u. record u {
          sub_balance = u.sub_balance +ℤ delta;
          sub_expires_at = sub_expiry now delta u.sub_expires_at;
        })
        db.users;
}

unfoldable pub update_user_topup_balance : ℤ → ℤ → Db → Db
update_user_topup_balance uid delta db = record db {
  users = update_user uid (λ u. record u { cash_balance = add_to delta u.cash_balance }) db.users;
}

unfoldable pub update_user_grant_balance : ℤ → ℤ → Db → Db
update_user_grant_balance uid delta db = record db {
  users = update_user uid (λ u. record u { grant_balance = add_to delta u.grant_balance }) db.users;
}

-- WHERE request_id = $1: a null is equal to nothing.
abbrev pub same_text : Option String → Option String → Bool
same_text (some a) (some b) = str_eq a b
same_text _ _ = false

abbrev pub logged : Option String → List BillingLog → Bool
logged r [] = false
logged r (x ∷ xs) = same_text x.request_id r || logged r xs

unfoldable pub check_billing_log_exists : Option String → Db → Bool
check_billing_log_exists r db = logged r db.billing_logs

unfoldable pub create_billing_log : BillingLog → Db → Db
create_billing_log x db = record db { billing_logs = x ∷ db.billing_logs }

abbrev pub find_event : Option String → List Transaction → Option Transaction
find_event e [] = none
find_event e (x ∷ xs) = if same_text x.event_id e then some x else find_event e xs

unfoldable pub get_transaction_by_event_id : Option String → Db → Option Transaction
get_transaction_by_event_id e db = find_event e db.transactions

-- The row gets the next id; a second row with the same event_id breaks the unique index
-- idx_transactions_event_id_unique (error 23505), which is `none`.
unfoldable pub create_transaction : Transaction → Db → Option (ℕ × Db)
create_transaction x db = elim (find_event x.event_id db.transactions) [
  | some old ↦ none
  | none ↦ some (
    db.next_transaction_id,
    record db {
      next_transaction_id = suc db.next_transaction_id;
      transactions = record x { id = db.next_transaction_id } ∷ db.transactions;
    },
  )
]

unfoldable pub create_balance_log : BalanceLog → Db → Db
create_balance_log x db = record db { balance_logs = x ∷ db.balance_logs }

-- UPDATE api_keys SET quota_used = quota_used + $2 WHERE id = $1
abbrev pub add_quota : ℤ → ℤ → List ApiKey → List ApiKey
add_quota id delta [] = []
add_quota id delta (k ∷ ks) =
    (if eqb_ℤ k.id id then record k { quota_used = add_to delta k.quota_used } else k)
    ∷ add_quota id delta ks

unfoldable pub increment_api_key_quota_used : ℤ → ℤ → Db → Db
increment_api_key_quota_used id delta db = record db { api_keys = add_quota id delta db.api_keys }

-- ApplySubscriptionDB: the old sub balance moves to cash, and the subscription is written anew.
unfoldable pub apply_subscription_db : ℤ → ℤ → ℤ → Option ℕ → Option ℤ → Db → Option (ℤ × Db)
apply_subscription_db uid new_sub new_grant expires_at tier db = elim (find_user uid db.users) [
  | none ↦ none
  | some old ↦ some (
    old.sub_balance,
    record db {
      users =
          update_user uid
            (λ u. record u {
              cash_balance = add_to u.sub_balance u.cash_balance;
              sub_balance = new_sub;
              grant_balance = some new_grant;
              sub_expires_at = expires_at;
              tier_level = tier;
            })
            db.users;
    },
  )
]
