-- ===== src/Webhook/Commits.antt =====
-- What a transaction of the webhook has found and written where it is committed.
use ainode.Prelude.{
  ℕ, arith, ◌≡◌, ◌≢◌, ◌⊎◌, inl, inr, refl, ap, false, not, ◌&&◌, ◌||◌, Option, none, some,
  Option-cases, String, str_eq, eq_iff, ok, Succeeds, Succeeds-fail_if, Succeeds-bind,
}
use ainode.Prelude.Int.{ℤ, pos, ◌+ℤ◌, ◌≤ℤ◌, ◌<ℤ◌, ltb_ℤ, leb_ℤ, int64, IsInt64}
use ainode.Billing.Pools.{Deduction}
use ainode.Billing.Subscription.{event_text}
use ainode.Db.{
  Db, Transaction, find_event, get_user_balances, get_transaction_by_event_id, create_transaction,
  create_balance_log, update_user_grant_balance, update_user_topup_balance,
}
use ainode.Db.Rows.{with_transaction, create_transaction_fresh, create_transaction_taken}
use ainode.Webhook.{
  Floats, TransactionEnv, TransactionWebhookRequest, Booking, committed, taken, book, write_rows,
  before_balance, delta_of, update_balance, transaction_of, balance_log_of, validate, or_not_found,
}

module _ (F : Floats) where
  -- The request is in order, and `scaled` its amount.
  pub record IsValid (req : TransactionWebhookRequest F) (scaled : ℤ) : Type 0 where
    pub identified : req.event_id ≢ ""
    pub known_balance : (req.balance_type ≡ "cash") ⊎ (req.balance_type ≡ "grant")
    pub known_direction : (req.direction ≡ "credit") ⊎ (req.direction ≡ "debit")
    pub positive : pos 0 <ℤ scaled
    pub in_range : IsInt64 scaled
    pub scaled_amount : scaled ≡ F.money_to_scaled_int req.amount

  module _ (req : TransactionWebhookRequest F) where
    named_event :
        (str_eq req.event ""
            || str_eq req.event_id ""
            || leb_ℤ req.user_id (pos 0)
            || str_eq req.type ""
            || str_eq req.source_id "")
          ≡ false
        → req.event_id ≢ ""
    named_event h = ground (arith, eq_iff req.event_id "")

    checks-IsValid :
        (str_eq req.event ""
            || str_eq req.event_id ""
            || leb_ℤ req.user_id (pos 0)
            || str_eq req.type ""
            || str_eq req.source_id "")
          ≡ false
        → (not (str_eq req.balance_type "cash") && not (str_eq req.balance_type "grant")) ≡ false
        → (not (str_eq req.direction "credit") && not (str_eq req.direction "debit")) ≡ false
        → leb_ℤ (F.money_to_scaled_int req.amount) (pos 0) ≡ false
        → IsValid req (F.money_to_scaled_int req.amount)
    checks-IsValid fields type direction small = record {
      identified = named_event fields;
      known_balance =
          ground (arith, eq_iff req.balance_type "cash", eq_iff req.balance_type "grant");
      known_direction = ground (arith, eq_iff req.direction "credit", eq_iff req.direction "debit");
      positive = ground arith;
      in_range = F.money-IsInt64 req.amount;
      scaled_amount = refl;
    }

    pub validate-IsValid : Succeeds (IsValid req) (validate F req)
    unfolding validate
    validate-IsValid = search (Succeeds-fail_if, checks-IsValid) depth 12

  abbrev pub event_of : TransactionWebhookRequest F → Option String
  event_of req = event_text req.event_id

  -- The balance after the change, and the row of the transaction.
  abbrev pub after_of : TransactionWebhookRequest F → ℤ → Deduction → ℤ
  after_of req scaled d = int64 (before_balance F req d +ℤ delta_of F req scaled)

  abbrev pub row_of : TransactionWebhookRequest F → ℤ → Deduction → Transaction
  row_of req scaled d = transaction_of F req scaled (before_balance F req d) (after_of req scaled d)

  -- The tables after a commit.
  abbrev pub booked : TransactionWebhookRequest F → ℤ → Deduction → Db → Db
  booked req scaled d db =
      create_balance_log
        (balance_log_of F req scaled (before_balance F req d) (after_of req scaled d)
          db.next_transaction_id)
        (with_transaction (row_of req scaled d) (update_balance F req (delta_of F req scaled) db))

  -- A commit has found the user with balances that bear the change and no row of the event, and
  -- has written the balance and the two rows.
  pub record IsCommitted (req : TransactionWebhookRequest F) (scaled : ℤ) (db : Db) (tx : ℕ)
      (db' : Db) : Type 0 where
    pub old : Deduction
    pub found : get_user_balances req.user_id db ≡ some old
    pub covered : pos 0 ≤ℤ after_of req scaled old
    pub fresh : find_event (event_of req) db.transactions ≡ none
    pub id : tx ≡ db.next_transaction_id
    pub written : db' ≡ booked req scaled old db

  abbrev pub IsBooked : TransactionWebhookRequest F → ℤ → Db → Booking F → Type 0
  IsBooked req scaled db (taken old) = find_event (event_of req) db.transactions ≡ some old
  IsBooked req scaled db (committed tx db') = IsCommitted req scaled db tx db'

  module _ (env : TransactionEnv) (req : TransactionWebhookRequest F) (scaled : ℤ) (db : Db) where
    -- The update of the balance leaves the transactions alone.
    update_keeps :
        (delta : ℤ)
        → ((update_balance F req delta db).transactions ≡ db.transactions)
          × ((update_balance F req delta db).next_transaction_id ≡ db.next_transaction_id)
    unfolding update_balance update_user_grant_balance update_user_topup_balance
    update_keeps delta = ground arith

    row-event_id : (d : Deduction) → (row_of req scaled d).event_id ≡ event_of req
    unfolding transaction_of
    row-event_id d = refl

    found_of : (o : Option Deduction) (d : Deduction) → or_not_found F o ≡ ok d → o ≡ some d
    found_of none d h = cc
    found_of (some d') d h = cc

    module _ (d : Deduction) (found : or_not_found F (get_user_balances req.user_id db) ≡ ok d)
        (covered : ltb_ℤ (after_of req scaled d) (pos 0) ≡ false) where
      abbrev updated : Db
      updated = update_balance F req (delta_of F req scaled) db

      row_search :
          (o : Option Transaction)
          → find_event (event_of req) db.transactions ≡ o
          → find_event (row_of req scaled d).event_id updated.transactions ≡ o
      row_search o h = rw (row-event_id d, (update_keeps (delta_of F req scaled)).0) h

      rows-IsBooked : Succeeds (IsBooked req scaled db) (
          write_rows F env req scaled
            (before_balance F req d)
            (after_of req scaled d)
            (get_transaction_by_event_id (event_of req) db)
            (create_transaction (row_of req scaled d) updated))
      unfolding write_rows get_transaction_by_event_id
      rows-IsBooked = elim (Option-cases (find_event (event_of req) db.transactions)) [
        | inl e ↦
            rw (e, create_transaction_fresh (row_of req scaled d) updated (row_search none e))
              (search (Succeeds-bind, Succeeds-fail_if, fresh_rows e))
        | inr (old, e) ↦
            rw
              (
                e,
                create_transaction_taken (row_of req scaled d) old updated
                    (row_search (some old) e),
              )
              (search (Succeeds-bind, e))
      ]
        where
          fresh_rows :
              find_event (event_of req) db.transactions ≡ none
              → IsCommitted req scaled db updated.next_transaction_id (
                  create_balance_log
                    (balance_log_of F req scaled
                      (before_balance F req d)
                      (after_of req scaled d)
                      updated.next_transaction_id)
                    (with_transaction (row_of req scaled d) updated))
          fresh_rows e = record {
            old = d;
            found = found_of (get_user_balances req.user_id db) d found;
            covered = ground arith;
            fresh = e;
            id = (update_keeps (delta_of F req scaled)).1;
            written =
                ap
                  (λ n.
                    create_balance_log
                      (balance_log_of F req scaled (before_balance F req d) (after_of req scaled d)
                        n)
                      (with_transaction (row_of req scaled d) updated))
                  (update_keeps (delta_of F req scaled)).1;
          }

    pub book-IsBooked : Succeeds (IsBooked req scaled db) (book F env req scaled db)
    unfolding book
    book-IsBooked = search (Succeeds-bind, Succeeds-fail_if, rows-IsBooked) depth 12
