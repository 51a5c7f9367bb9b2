-- ===== src/Webhook/Audit.antt =====
-- The transactions explain the balances: what a row of the transactions says that it adds to a
-- balance, and what a balance holds beyond the sum of its rows.
pub mod Change
pub mod Commit
pub mod History
use ainode.Prelude.{
  ℕ, ◌<◌, ◌^◌, arith, ◌≡◌, ◌≢◌, ◌⊎◌, inl, inr, refl, sym, ap, subst, ◌∙◌, Bool, true, false, ◌&&◌,
  Option, none, some, Option-cases, Bool-cases, String, str_eq, eq_iff, if◌then◌else◌, if-cases,
  List, [], ◌∷◌,
}
use ainode.Prelude.Int.{
  ℤ, pos, pos_part, neg_part, ◌+ℤ◌, ◌-ℤ◌, ◌≤ℤ◌, eqb_ℤ, eqb_ℤ-eq, int64, IsInt64, int64_of_IsInt64,
  int64-IsInt64, int_laws,
}
use ainode.Billing.Pools.{Deduction}
use mathlib.Core.Option
use ainode.Db.{
  User, Db, Transaction, find_user, update_user, get_user_balances, balances, coalesce, add_to,
  create_balance_log, update_user_grant_balance, update_user_topup_balance,
}
use ainode.Db.Rows.{find_user-update_user, find_user-update_user_ne, with_transaction}
use ainode.Webhook.{
  Floats, TransactionWebhookRequest, before_balance, delta_of, update_balance, transaction_of,
}
use ainode.Webhook.Commits.{IsValid, IsCommitted, after_of, row_of, booked}

-- The two balances that a transaction may name.
pub data Pool : Type 0 where
  cash grant : Pool

abbrev pub name : Pool → String
name cash = "cash"
name grant = "grant"

abbrev pub balance_in : Pool → Deduction → ℤ
balance_in cash d = d.cash
balance_in grant d = d.grant

abbrev pub balance_or_zero : Pool → Option Deduction → ℤ
balance_or_zero p none = pos 0
balance_or_zero p (some d) = balance_in p d

abbrev pub balance_of : Pool → ℤ → Db → ℤ
balance_of p uid db = balance_or_zero p (get_user_balances uid db)

-- What a row says that it adds to its balance.
abbrev pub signed_amount : Transaction → ℤ
signed_amount x = if str_eq x.direction "debit" then pos 0 -ℤ x.amount_cents else x.amount_cents

abbrev pub concerns : Pool → ℤ → Transaction → Bool
concerns p uid x = eqb_ℤ x.user_id uid && str_eq x.balance_type (name p)

-- The sum of what the rows of a user say about one balance.
unfoldable pub audited : Pool → ℤ → List Transaction → ℤ
audited p uid [] = pos 0
audited p uid (x ∷ xs) =
    let rest = audited p uid xs in if concerns p uid x then rest +ℤ signed_amount x else rest

-- What the balance holds beyond the sum of its rows.
abbrev pub unexplained : Pool → ℤ → Db → ℤ
unexplained p uid db = balance_of p uid db -ℤ audited p uid db.transactions

-- A column that is not null, not negative and in the range of an int64.
pub record IsAmount (v : Option ℤ) : Type 0 where
  pub amount : ℤ
  pub filled : v ≡ some amount
  pub nonneg : neg_part amount ≡ 0
  pub small : pos_part amount < 2 ^ 63

-- The balances of a user, if there is one.
abbrev pub HasAmounts : Option User → Type 0
HasAmounts none = Unit
HasAmounts (some u) = IsAmount u.cash_balance × IsAmount u.grant_balance

abbrev pub IsSound : Db → Type 0
IsSound db = (uid : ℤ) → HasAmounts (find_user uid db.users)
