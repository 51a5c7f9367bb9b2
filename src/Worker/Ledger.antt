-- ===== src/Worker/Ledger.antt =====
-- What one run of the billing worker takes from the database.
use ainode.Prelude.{◌≡◌, ◌≢◌, refl, ap, ◌∙◌, false, some, ◌∷◌, arith, ok, ◌<◌, ◌^◌, ℕ}
use mathlib.Core.Option
use ainode.Prelude.Int.{ℤ, pos, ◌-ℤ◌, ◌+ℤ◌, IsInt64, int64_of_IsInt64, int_laws}
use ainode.Billing.Pools.{debit}
use ainode.Billing.Pools.Split.{split_amounts, Deduction_eq}
use ainode.Billing.Request.{SettlementRequest}
use ainode.Billing.Settlement.Effects.{ledger_charge}
use ainode.Db.{
  Db, User, find_user, balances, add_to, sub_expiry, get_user_balances, update_user_sub_balance,
  update_user_topup_balance, update_user_grant_balance, create_billing_log,
  check_billing_log_exists, increment_api_key_quota_used,
}
use ainode.Db.Rows.{find_user-update_user, find_user-update_user_ne}
use ainode.Worker.{
  valid, WorkerEnv, text, negate, billing_log, charge_ledger, record_transaction, count_quota,
  handle_record_billing_log,
}

-- The amounts that the request says were deducted are in the range of an int64.
pub record IsInRange (req : SettlementRequest) : Type 0 where
  pub sub_range : IsInt64 req.sub_deducted
  pub grant_range : IsInt64 req.grant_deducted
  pub cash_range : IsInt64 req.cash_deducted

-- No call of the run fails.
pub record IsCalm (env : WorkerEnv) : Type 0 where
  pub begins : env.begin_fails ≡ false
  pub checks : env.check_fails ≡ false
  pub takes_sub : env.sub_fails ≡ false
  pub takes_cash : env.cash_fails ≡ false
  pub takes_grant : env.grant_fails ≡ false
  pub logs : env.log_fails ≡ false
  pub commits : env.commit_fails ≡ false

negated : (n : ℕ) → n < 2 ^ 63 → IsInt64 (pos 0 -ℤ pos n)
unfolding ◌-ℤ◌
negated n h = ground arith

negate_add : (x a : ℤ) (n : ℕ) → a ≡ pos n → n < 2 ^ 63 → x +ℤ negate a ≡ x -ℤ a
negate_add x a n e h = rw (e, int64_of_IsInt64 (pos 0 -ℤ pos n) (negated n h)) (omega int_laws)

-- The count of the key's quota touches neither the balances nor the log.
pub count_quota_keeps :
    (env : WorkerEnv) (req : SettlementRequest) (db : Db)
    → ((count_quota env req db).users ≡ db.users)
      × ((count_quota env req db).billing_logs ≡ db.billing_logs)
unfolding count_quota increment_api_key_quota_used
count_quota_keeps env req db = ground arith

users_get :
    (uid : ℤ) (a b : Db)
    → find_user uid a.users ≡ find_user uid b.users
    → get_user_balances uid a ≡ get_user_balances uid b
unfolding get_user_balances
users_get uid a b e = ap (Option.map balances) e

get_of_find :
    (uid : ℤ) (db : Db) {u : User}
    → find_user uid db.users ≡ some u
    → get_user_balances uid db ≡ some (balances u)
unfolding get_user_balances
get_of_find uid db e = ap (Option.map balances) e

module _ (env : WorkerEnv) (req : SettlementRequest) (db : Db) where
  -- The row of the user after the three updates.
  abbrev charged : User → User
  charged u = record u {
    sub_balance = u.sub_balance +ℤ negate (ledger_charge req).sub;
    sub_expires_at = sub_expiry env.now (negate (ledger_charge req).sub) u.sub_expires_at;
    cash_balance = add_to (negate (ledger_charge req).cash) u.cash_balance;
    grant_balance = add_to (negate (ledger_charge req).grant) u.grant_balance;
  }

  find_user-charge_ledger :
      {u : User}
      → find_user req.user_id db.users ≡ some u
      → find_user req.user_id (charge_ledger env req db).users ≡ some (charged u)
  unfolding charge_ledger create_billing_log update_user_sub_balance update_user_topup_balance
      update_user_grant_balance
  find_user-charge_ledger h =
      find_user-update_user req.user_id _ (λ u. refl) _
        (find_user-update_user req.user_id _ (λ u. refl) _
          (find_user-update_user req.user_id _ (λ u. refl) db.users h))

  find_user-charge_ledger_ne :
      (v : ℤ)
      → v ≢ req.user_id
      → find_user v (charge_ledger env req db).users ≡ find_user v db.users
  unfolding charge_ledger create_billing_log update_user_sub_balance update_user_topup_balance
      update_user_grant_balance
  find_user-charge_ledger_ne v h =
      find_user-update_user_ne req.user_id _ (λ u. refl) v _ h
      ∙ find_user-update_user_ne req.user_id _ (λ u. refl) v _ h
      ∙ find_user-update_user_ne req.user_id _ (λ u. refl) v db.users h

  charge_ledger_logs : (charge_ledger env req db).billing_logs ≡ billing_log req ∷ db.billing_logs
  unfolding charge_ledger create_billing_log update_user_sub_balance update_user_topup_balance
      update_user_grant_balance
  charge_ledger_logs = refl

  handle_commits :
      IsCalm env
      → check_billing_log_exists (text req.request_id) db ≡ false
      → handle_record_billing_log env (valid req) db
        ≡ (ok tt, count_quota env req (charge_ledger env req db))
  unfolding handle_record_billing_log record_transaction
  handle_commits calm new = ground arith

  module _ (u : User) (found : find_user req.user_id db.users ≡ some u) where
    -- In range, the three columns fall by the three amounts.
    charged_balances :
        {g c : ℤ}
        → u.grant_balance ≡ some g
        → u.cash_balance ≡ some c
        → IsInRange req
        → balances (charged u) ≡ debit (balances u) (ledger_charge req)
    charged_balances eg ec r =
        let (p, q, k) =
          split_amounts req.actual_cost_cents req.sub_deducted req.grant_deducted
            req.cash_deducted in
        rw (eg, ec)
          (Deduction_eq (negate_add u.sub_balance _ _ p (omega (arith, r.sub_range)))
            (negate_add _ _ _ q (omega (arith, r.grant_range)))
            (negate_add _ _ _ k (omega (arith, r.cash_range))))

    -- A run in which no call fails, for a known user whose columns are not null, on a request
    -- whose three amounts are int64s and that the ledger does not hold, succeeds: it takes from
    -- the three balances of the user what the actual cost splits into, and adds the log row.
    pub handle-charges :
        {g c : ℤ}
        → u.grant_balance ≡ some g
        → u.cash_balance ≡ some c
        → IsInRange req
        → IsCalm env
        → check_billing_log_exists (text req.request_id) db ≡ false
        → let (result, db') = handle_record_billing_log env (valid req) db in
          (result ≡ ok tt)
          × (get_user_balances req.user_id db' ≡ some (debit (balances u) (ledger_charge req)))
          × (db'.billing_logs ≡ billing_log req ∷ db.billing_logs)
    handle-charges eg ec r calm new =
        let (users, logs) = count_quota_keeps env req (charge_ledger env req db) in
        rw (handle_commits calm new) (
          refl,
          get_of_find req.user_id _
                (ap (find_user req.user_id) users ∙ find_user-charge_ledger found)
              ∙ ap some (charged_balances eg ec r),
          logs ∙ charge_ledger_logs,
        )

  -- No run of the worker, failing or not, touches the balances of a user other than that of the
  -- request.
  pub handle_others :
      (v : ℤ)
      → v ≢ req.user_id
      → get_user_balances v (handle_record_billing_log env (valid req) db).1
        ≡ get_user_balances v db
  unfolding handle_record_billing_log record_transaction
  handle_others v h =
      let other =
        ap (find_user v) (count_quota_keeps env req (charge_ledger env req db)).0
        ∙ find_user-charge_ledger_ne v h in
      ground (arith, users_get v (count_quota env req (charge_ledger env req db)) db other)
