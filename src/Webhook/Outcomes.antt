-- ===== src/Webhook/Outcomes.antt =====
-- How a call of processTransaction ends: it leaves the tables and the cache to the other clients,
-- or it commits one change of a balance.
use ainode.Prelude.{
  Succeeds, ℕ, ◌≡◌, ◌⊎◌, inl, inr, refl, Bool, false, Option, none, some, String, if-cases, Result,
  ok, err,
}
use ainode.Prelude.Int.{ℤ}
use ainode.Redis.{Redis}
use ainode.Billing.Deduct.{CacheError, credit_balance_cache}
use ainode.Db.{Db, Transaction, find_event, get_transaction_by_event_id}
use ainode.Webhook.{
  Floats, TransactionEnv, HttpError, TransactionWebhookRequest, TransactionProcessResult, Booking,
  committed, taken, book, already, delta_of, validate, is_ok, conclude_transaction, process_valid,
  process_transaction, normalize_transaction_request, server_error,
}
use ainode.Webhook.Commits.{
  IsValid, validate-IsValid, event_of, IsCommitted, IsBooked, book-IsBooked,
}

-- The answer of a commit.
abbrev pub processed : ℕ → Bool → TransactionProcessResult
processed tx synced = record {
  message = "Transaction processed successfully";
  already_processed = false;
  transaction_id = tx;
  status = "completed";
  cache_synced = synced;
}

module _ (F : Floats) (R : Redis) where
  open R use {Store}

  abbrev pub Ending : Type 0
  Ending = Result HttpError TransactionProcessResult × Db × Store

  -- The cache after a commit.
  abbrev pub credited :
      TransactionEnv
      → TransactionWebhookRequest F
      → ℤ
      → Store
      → Result CacheError (Unit {0}) × Store
  credited env req scaled s =
      credit_balance_cache R env.has_redis env.credit_fails req.user_id req.balance_type
        (delta_of F req scaled) s

  -- The answer of a call that changes nothing: an error, or the row that holds the event.
  abbrev pub IsKept : Option String → Db → Result HttpError TransactionProcessResult → Type 0
  IsKept event db (err e) = Unit
  IsKept event db (ok r) =
      (old : Transaction) × (find_event event db.transactions ≡ some old) × (r ≡ already old)

  module _ (env : TransactionEnv) (request : TransactionWebhookRequest F) (db : Db)
      (s : Store) where
    abbrev normal : TransactionWebhookRequest F
    normal = normalize_transaction_request F request

    module _ (P : Ending → Type 0)
        (kept : (d : Db) (r : Result HttpError TransactionProcessResult)
          → (d ≡ db) ⊎ (d ≡ env.meanwhile db)
          → IsKept (event_of F normal) d r
          → P (r, d, s))
        (commits : (scaled : ℤ) (tx : ℕ) (db' : Db)
          → IsValid F normal scaled
          → IsCommitted F normal scaled (env.meanwhile db) tx db'
          → (let (c, s') = credited env normal scaled s in
              P (ok (processed tx (is_ok c)), db', s'))) where
      concludes :
          (scaled : ℤ) (b : Result HttpError (Booking F))
          → IsValid F normal scaled
          → Succeeds (IsBooked F normal scaled (env.meanwhile db)) b
          → P (
              conclude_transaction F R env normal
                (delta_of F normal scaled)
                b
                (env.meanwhile db, s))
      unfolding conclude_transaction
      concludes scaled (err e) v h = kept (env.meanwhile db) (err e) (inr refl) tt
      concludes scaled (ok (taken old)) v h =
          kept (env.meanwhile db) (ok (already old)) (inr refl) (old, h, refl)
      concludes scaled (ok (committed tx db')) v h = commits scaled tx db' v h

      processes :
          (v : Result HttpError ℤ)
          → Succeeds (IsValid F normal) v
          → P (elim v [
            | err e ↦ (err e, db, s)
            | ok scaled ↦ process_valid F R env normal scaled (db, s)
          ])
      unfolding process_valid get_transaction_by_event_id
      processes (err e) h = kept db (err e) (inl refl) tt
      processes (ok scaled) h =
          if-cases P env.lookup_fails
            (err (server_error "Failed to check transaction idempotency"), db, s) searched
            (λ _.
              kept db (err (server_error "Failed to check transaction idempotency")) (inl refl) tt)
            (λ _. found (find_event (event_of F normal) db.transactions) refl)
        where
          answer : Option Transaction → Ending
          answer o = elim o [
            | some old ↦ (ok (already old), db, s)
            | none ↦
                conclude_transaction F R env normal (delta_of F normal scaled)
                  (book F env normal scaled (env.meanwhile db)) (env.meanwhile db, s)
          ]

          searched : Ending
          searched = answer (find_event (event_of F normal) db.transactions)

          found :
              (o : Option Transaction)
              → find_event (event_of F normal) db.transactions ≡ o
              → P (answer o)
          found (some old) e = kept db (ok (already old)) (inl refl) (old, e, refl)
          found none e =
              concludes scaled (book F env normal scaled (env.meanwhile db)) h
                (book-IsBooked F env normal scaled (env.meanwhile db))

      pub process_transaction-cases : P (process_transaction F R env request (db, s))
      unfolding process_transaction
      process_transaction-cases = processes (validate F normal) (validate-IsValid F normal)
