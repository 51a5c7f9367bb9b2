-- ===== src/Billing/Subscription/Calm.antt =====
-- The transaction of ApplySubscription where every call succeeds.
use ainode.Prelude.{
  ℕ, suc, arith, ◌≡◌, refl, ◌∙◌, ap, Bool, true, false, ◌&&◌, none, some, if-cases, ok, ◌∷◌,
}
use ainode.Prelude.Int.{ℤ, pos, ltb_ℤ}
use ainode.Billing.Pools.{Deduction}
use ainode.Db.{
  User, Db, find_user, update_user, find_event, balances, add_to, get_user_balances,
  apply_subscription_db, create_balance_log,
}
use ainode.Db.Rows.{create_transaction_fresh}
use ainode.Billing.Subscription.{
  SubscriptionApply, ApplyEnv, event_text, transaction_row, subscription_log, cash_log, add_logs,
  write_logs, write_transaction, transfer,
}

-- Every call succeeds, and Redis is there.
pub record IsCalm (env : ApplyEnv) : Type 0 where
  pub begins : env.begin_fails ≡ false
  pub reads_balances : env.balances_fail ≡ false
  pub applies : env.apply_fails ≡ false
  pub writes_transaction : env.transaction_fails ≡ false
  pub writes_log : env.log_fails ≡ false
  pub writes_cash_log : env.cash_log_fails ≡ false
  pub commits : env.commit_fails ≡ false
  pub cached : env.has_redis ≡ true

-- The user after the transfer: what was left of the paid subscription is cash.
abbrev pub renewed : SubscriptionApply → User → User
renewed p u = record u {
  cash_balance = add_to u.sub_balance u.cash_balance;
  sub_balance = p.new_paid;
  grant_balance = some p.new_grant;
  sub_expires_at = p.expires_at;
  tier_level = some p.tier;
}

pub add_logs_keep :
    (p : SubscriptionApply) (old : Deduction) (moved : ℤ) (tx : ℕ) (db : Db)
    → ((add_logs p old moved tx db).users ≡ db.users)
      × ((add_logs p old moved tx db).transactions ≡ db.transactions)
unfolding add_logs create_balance_log
add_logs_keep p old moved tx db =
    let db' = create_balance_log (subscription_log p old tx) db in
    if-cases (λ (x : Db). (x.users ≡ db.users) × (x.transactions ≡ db.transactions))
      (ltb_ℤ (pos 0) moved) (create_balance_log (cash_log p old moved tx) db') db'
      (λ _. (refl, refl)) (λ _. (refl, refl))

pub both_false : (a b : Bool) → b ≡ false → (a && b) ≡ false
both_false a b h = ground arith

write_logs_calm :
    (env : ApplyEnv) (p : SubscriptionApply) (old : Deduction) (moved : ℤ) (tx : ℕ) (db : Db)
    → IsCalm env
    → write_logs env p old moved tx db ≡ ok (some (add_logs p old moved tx db))
unfolding write_logs
write_logs_calm env p old moved tx db c =
    rw
      (
        write_logs,
        c.writes_log,
        both_false (ltb_ℤ (pos 0) moved) env.cash_log_fails c.writes_cash_log,
        c.commits,
      )
      refl

-- The tables after the statements of a transfer, in order.
abbrev pub transferred : SubscriptionApply → User → Db → Db
transferred p u db = add_logs p (balances u) u.sub_balance db.next_transaction_id (record db {
  users = update_user p.user_id (renewed p) db.users;
  next_transaction_id = suc db.next_transaction_id;
  transactions =
      record (transaction_row p (balances u)) { id = db.next_transaction_id } ∷ db.transactions;
})

balances_of :
    (uid : ℤ) (db : Db) (u : User)
    → find_user uid db.users ≡ some u
    → get_user_balances uid db ≡ some (balances u)
unfolding get_user_balances
balances_of uid db u h = rw h refl

abbrev pub moved_db : SubscriptionApply → Db → Db
moved_db p db = record db { users = update_user p.user_id (renewed p) db.users }

moves :
    (p : SubscriptionApply) (db : Db) (u : User)
    → find_user p.user_id db.users ≡ some u
    → apply_subscription_db p.user_id p.new_paid p.new_grant p.expires_at (some p.tier) db
      ≡ some (u.sub_balance, moved_db p db)
unfolding apply_subscription_db
moves p db u h = rw (apply_subscription_db, h) refl

pub row_event :
    (p : SubscriptionApply) (d : Deduction) → (transaction_row p d).event_id ≡ event_text p.event_id
unfolding transaction_row
row_event p d = refl

pub transfer_calm :
    (env : ApplyEnv) (p : SubscriptionApply) (db : Db) (u : User)
    → IsCalm env
    → find_user p.user_id db.users ≡ some u
    → find_event (event_text p.event_id) db.transactions ≡ none
    → transfer env p db ≡ ok (some (transferred p u db))
unfolding transfer write_transaction
transfer_calm env p db u c h n =
    simp
      (
        transfer,
        c.begins,
        c.reads_balances,
        balances_of p.user_id db u h,
        c.applies,
        moves p db u h,
        c.writes_transaction,
        create_transaction_fresh (transaction_row p (balances u)) (moved_db p db)
            (ap (λ e. find_event e db.transactions) (row_event p (balances u)) ∙ n),
      )
      (write_logs_calm env p (balances u) u.sub_balance db.next_transaction_id
        (record (moved_db p db) {
          next_transaction_id = suc db.next_transaction_id;
          transactions =
              record (transaction_row p (balances u)) { id = db.next_transaction_id }
              ∷ db.transactions;
        })
        c)
