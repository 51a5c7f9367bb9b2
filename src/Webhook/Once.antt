-- ===== src/Webhook/Once.antt =====
-- An event is processed once, and what a call leaves in the tables and in the cache.
use ainode.Prelude.{
  Succeeds, ℕ, arith, ◌≡◌, ◌≢◌, refl, sym, ap, subst, ◌∙◌, true, Option, some, String, eq_iff,
  if-cases, Result, ok, err,
}
use ainode.Prelude.Int.{ℤ}
use ainode.Text.Strings.{trim}
use ainode.Redis.{Key, cash_balance, grant_balance, Redis}
use ainode.Billing.Pools.{Deduction}
use ainode.Billing.Subscription.{event_text}
use ainode.Db.{
  Db, Transaction, find_event, get_transaction_by_event_id, create_balance_log, same_text,
  update_user_grant_balance, update_user_topup_balance,
}
use ainode.Webhook.{
  Floats, TransactionEnv, TransactionWebhookRequest, TransactionProcessResult, HttpError, already,
  delta_of, update_balance, validate, process_transaction, process_valid,
  normalize_transaction_request, transaction_of, server_error,
}
use ainode.Webhook.Commits.{booked, event_of, row_of}
use ainode.Webhook.Outcomes.{Ending, IsKept, process_transaction-cases}
use ainode.Webhook.Audit.{Pool, cash, grant}

abbrev pub pool_key : Pool → ℤ → Key
pool_key cash uid = cash_balance uid
pool_key grant uid = grant_balance uid

module _ (F : Floats) (R : Redis) where
  open R use {Store}

  -- The rows hold the event, in a row of this id.
  abbrev Holds : Option String → Db → ℕ → Type 0
  Holds e db id = (x : Transaction) × (find_event e db.transactions ≡ some x) × (x.id ≡ id)

  same_event :
      (req : TransactionWebhookRequest F)
      → req.event_id ≢ ""
      → same_text (event_of F req) (event_of F req) ≡ true
  same_event req h = ground (arith, eq_iff req.event_id "", eq_iff req.event_id req.event_id)

  next_id :
      (req : TransactionWebhookRequest F) (delta : ℤ) (db : Db)
      → (update_balance F req delta db).next_transaction_id ≡ db.next_transaction_id
  unfolding update_balance update_user_grant_balance update_user_topup_balance
  next_id req delta db = ground arith

  row_found :
      (req : TransactionWebhookRequest F) (scaled : ℤ) (d : Deduction) (db : Db)
      → req.event_id ≢ ""
      → Holds (event_of F req) (booked F req scaled d db) db.next_transaction_id
  unfolding create_balance_log transaction_of
  row_found req scaled d db h = (
    record (row_of F req scaled d) {
      id = (update_balance F req (delta_of F req scaled) db).next_transaction_id;
    },
    rw (same_event req h) refl,
    next_id req (delta_of F req scaled) db,
  )

  abbrev transaction_id_of : TransactionProcessResult → ℕ
  transaction_id_of r = r.transaction_id

  already_id : (old : Transaction) → (already old).transaction_id ≡ old.id
  unfolding already
  already_id old = refl

  -- What an answer says of the tables.
  abbrev Recorded : TransactionWebhookRequest F → Ending F R → Type 0
  Recorded req e =
      Succeeds (λ (r : TransactionProcessResult). Holds (event_of F req) e.1 r.transaction_id) e.0

  module _ (env : TransactionEnv) (request : TransactionWebhookRequest F) (db : Db)
      (s : Store) where
    abbrev normal : TransactionWebhookRequest F
    normal = normalize_transaction_request F request

    answer-Recorded : Recorded normal (process_transaction F R env request (db, s))
    answer-Recorded =
        process_transaction-cases F R env request db s (Recorded normal) (λ d r which k. kept d r k)
          (λ scaled tx db' v c.
            rw (c.written, c.id) (row_found normal scaled c.old (env.meanwhile db) v.identified))
      where
        kept :
            (d : Db) (r : Result HttpError TransactionProcessResult)
            → IsKept F R (event_of F normal) d r
            → Recorded normal (r, d, s)
        kept d (err e) k = tt
        kept d (ok r) (old, found, same) =
            (old, found, sym (ap transaction_id_of same ∙ already_id old))

    -- A call whose event the rows hold leaves everything as it is.
    module _ (id : ℕ) (held : Holds (event_of F normal) db id) where
      abbrev IsRepeat : Ending F R → Type 0
      IsRepeat (r, db', s') =
          (db' ≡ db)
          × (s' ≡ s)
          × Succeeds
              (λ (a : TransactionProcessResult).
                (a.already_processed ≡ true) × (a.transaction_id ≡ id))
              r

      abbrev ending : Result HttpError ℤ → Ending F R
      ending (err e) = (err e, db, s)
      ending (ok scaled) = process_valid F R env normal scaled (db, s)

      unchanged : (v : Result HttpError ℤ) → IsRepeat (ending v)
      unfolding process_valid get_transaction_by_event_id already
      unchanged (err e) = (refl, refl, tt)
      unchanged (ok scaled) = rw (held.1) (
          if-cases IsRepeat env.lookup_fails
            (err (server_error "Failed to check transaction idempotency"), db, s)
            (ok (already held.0), db, s) (λ _. (refl, refl, tt))
            (λ _. (refl, refl, (refl, held.2))))

      repeats : IsRepeat (process_transaction F R env request (db, s))
      unfolding process_transaction
      repeats = unchanged (validate F normal)

  -- After a call of processTransaction that succeeded, a later call with the same event id, up to
  -- the spaces around it, changes neither tables nor cache, whatever else it asks for and
  -- whatever fails in it; if it succeeds it answers that the event is already processed, under
  -- the transaction of the first call.
  pub process_transaction-once :
      (env env' : TransactionEnv) (request request' : TransactionWebhookRequest F)
      (r : TransactionProcessResult) (db : Db) (s : Store)
      → trim request'.event_id ≡ trim request.event_id
      → (process_transaction F R env request (db, s)).0 ≡ ok r
      → (let (r₁, db₁, s₁) = process_transaction F R env request (db, s) in
          let (r₂, db₂, s₂) = process_transaction F R env' request' (db₁, s₁) in
          (db₂ ≡ db₁)
          × (s₂ ≡ s₁)
          × Succeeds
              (λ (a : TransactionProcessResult).
                (a.already_processed ≡ true) × (a.transaction_id ≡ r.transaction_id))
              r₂)
  unfolding normalize_transaction_request
  process_transaction-once env env' request request' r db s same h =
      let (r₁, db₁, s₁) = process_transaction F R env request (db, s) in
      let held : Holds (event_text (trim request.event_id)) db₁ r.transaction_id =
        subst
          (λ (a : Result HttpError TransactionProcessResult).
            Recorded (normalize_transaction_request F request) (a, db₁, s₁))
          h (answer-Recorded env request db s) in
      repeats env' request' db₁ s₁ r.transaction_id (rw same held)
