-- ===== src/Webhook/Audit/History.antt =====
-- Any history of calls of processTransaction, with failures and other clients.
use ainode.Prelude.{◌≡◌, inl, inr, refl, ◌∙◌, List, [], ◌∷◌, All}
use ainode.Prelude.Int.{ℤ}
use ainode.Redis.{Redis}
use ainode.Db.{Db, find_user}
use ainode.Webhook.{
  Floats, TransactionEnv, TransactionWebhookRequest, process_transaction,
  normalize_transaction_request,
}
use ainode.Webhook.Outcomes.{Ending, process_transaction-cases}
use ainode.Webhook.Audit.{Pool, unexplained, HasAmounts, IsSound}
use ainode.Webhook.Audit.Commit.{commit_explained}

-- The tables keep to the rule, and no balance has come loose from its rows.
abbrev pub IsExplained : Db → Db → Type 0
IsExplained db db' =
    IsSound db' × ((q : Pool) (uid : ℤ) → unexplained q uid db' ≡ unexplained q uid db)

-- What the other clients commit meanwhile keeps to the rule as well.
abbrev pub IsFair : TransactionEnv → Type 0
IsFair env = (d : Db) → IsSound d → IsExplained d (env.meanwhile d)

IsExplained-trans : (a b c : Db) → IsExplained a b → IsExplained b c → IsExplained a c
IsExplained-trans a b c (x, f) (y, g) = (y, λ q uid. g q uid ∙ f q uid)

module _ (F : Floats) (R : Redis) where
  one_call :
      (env : TransactionEnv) (request : TransactionWebhookRequest F) (db : Db) (s : R.Store)
      → IsFair env
      → IsSound db
      → IsExplained db (process_transaction F R env request (db, s)).1
  one_call env request db s fair sound =
      process_transaction-cases F R env request db s (λ (e : Ending F R). IsExplained db e.1)
        (λ d r which k. elim which [
          | inl e ↦ rw e (sound, λ q uid. refl)
          | inr e ↦ rw e (fair db sound)
        ])
        (λ scaled tx db' v c. rw c.written (
          IsExplained-trans db (env.meanwhile db) _ (fair db sound) (
            commit_explained F (normalize_transaction_request F request) scaled v (env.meanwhile db)
              (fair db sound).0 c.old c.found c.covered)))

  -- The calls of a history, one after the other.
  abbrev pub process_all :
      List (TransactionEnv × TransactionWebhookRequest F) → Db × R.Store → Db × R.Store
  process_all [] w = w
  process_all ((env, request) ∷ calls) w =
      let (r, db, s) = process_transaction F R env request w in process_all calls (db, s)

  process_all-IsExplained :
      (calls : List (TransactionEnv × TransactionWebhookRequest F)) (db : Db) (s : R.Store)
      → All (λ c. IsFair c.0) calls
      → IsSound db
      → IsExplained db (process_all calls (db, s)).0
  process_all-IsExplained [] db s fair sound = (sound, λ q uid. refl)
  process_all-IsExplained ((env, request) ∷ calls) db s (fair, later) sound =
      let (r, db', s') = process_transaction F R env request (db, s) in
      let here = one_call env request db s fair sound in
      IsExplained-trans db db' _ here (process_all-IsExplained calls db' s' later here.0)

  -- Where every balance of cash and grant is a number between 0 and the largest int64, and what
  -- other clients commit keeps that and the difference below: after any history of transactions
  -- of the webhook, whatever fails in them, each balance still is such a number, and differs from
  -- the sum of the user's rows in the table of transactions by as much as before.
  pub process_transaction-IsSound :
      (calls : List (TransactionEnv × TransactionWebhookRequest F)) (db : Db) (s : R.Store)
      → All (λ c. IsFair c.0) calls
      → IsSound db
      → (q : Pool) (uid : ℤ)
      → HasAmounts (find_user uid (process_all calls (db, s)).0.users)
        × (unexplained q uid (process_all calls (db, s)).0 ≡ unexplained q uid db)
  process_transaction-IsSound calls db s fair sound q uid =
      let (end, same) = process_all-IsExplained calls db s fair sound in (end uid, same q uid)
