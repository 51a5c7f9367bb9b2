-- ===== src/Worker/Retries.antt =====
-- However often a task is delivered, the ledger is charged once.
use ainode.Prelude.{
  ◌≡◌, ◌≢◌, refl, ap, ◌⊎◌, inl, inr, true, Option, List, [], ◌∷◌, String, eq_iff, arith, err,
}
use ainode.Billing.Request.{SettlementRequest}
use ainode.Db.{Db, logged, check_billing_log_exists, create_billing_log}
use ainode.Worker.Ledger.{count_quota_keeps}
use ainode.Worker.{
  Payload, valid, malformed, WorkerError, WorkerEnv, text, charge_ledger, record_transaction,
  count_quota, handle_record_billing_log, deliveries,
}

-- A run of the worker that reports an error has changed nothing in the database.
pub handle_error_unchanged :
    (env : WorkerEnv) (p : Payload) (db : Db) {e : WorkerError}
    → (handle_record_billing_log env p db).0 ≡ err e
    → (handle_record_billing_log env p db).1 ≡ db
unfolding handle_record_billing_log
handle_error_unchanged env malformed db h = refl
handle_error_unchanged env (valid req) db h = ground arith

-- The ledger holds a row for the request.
abbrev pub IsBilled : String → Db → Type 0
IsBilled r db = check_billing_log_exists (text r) db ≡ true

charge_ledger-IsBilled :
    (env : WorkerEnv) (req : SettlementRequest) (db : Db)
    → req.request_id ≢ ""
    → IsBilled req.request_id (charge_ledger env req db)
unfolding charge_ledger create_billing_log check_billing_log_exists
charge_ledger-IsBilled env req db h =
    ground (arith, eq_iff req.request_id "", eq_iff req.request_id req.request_id)

check_of_logs :
    (r : Option String) (a b : Db)
    → a.billing_logs ≡ b.billing_logs
    → check_billing_log_exists r a ≡ check_billing_log_exists r b
unfolding check_billing_log_exists
check_of_logs r a b e = ap (logged r) e

-- A run on a billed request changes nothing, whatever fails in it.
handle_billed :
    (env : WorkerEnv) (req : SettlementRequest) (db : Db)
    → req.request_id ≢ ""
    → IsBilled req.request_id db
    → (handle_record_billing_log env (valid req) db).1 ≡ db
unfolding handle_record_billing_log record_transaction
handle_billed env req db h b = ground (arith, eq_iff req.request_id "")

-- A run leaves the database alone, or it is the one that bills the request.
handle_cases :
    (env : WorkerEnv) (req : SettlementRequest) (db : Db)
    → req.request_id ≢ ""
    → ((handle_record_billing_log env (valid req) db).1 ≡ db)
      ⊎ IsBilled req.request_id (handle_record_billing_log env (valid req) db).1
unfolding handle_record_billing_log record_transaction
handle_cases env req db h = ground (
  arith,
  eq_iff req.request_id "",
  charge_ledger-IsBilled env req db h,
  check_of_logs (text req.request_id) (count_quota env req (charge_ledger env req db))
      (charge_ledger env req db) (count_quota_keeps env req (charge_ledger env req db)).1,
)

deliveries_billed :
    (envs : List WorkerEnv) (req : SettlementRequest) (db : Db)
    → req.request_id ≢ ""
    → IsBilled req.request_id db
    → deliveries envs (valid req) db ≡ db
unfolding deliveries
deliveries_billed [] req db h b = refl
deliveries_billed (env ∷ envs) req db h b =
    rw (handle_billed env req db h b) (deliveries_billed envs req db h b)

-- However often a task with a request id is delivered, one delivery after the other, and whatever
-- fails in each run, the database ends as it was, or as a single run of the worker would have
-- left it, with the request in the log.
pub deliveries_charge_once :
    (envs : List WorkerEnv) (req : SettlementRequest) (db : Db)
    → req.request_id ≢ ""
    → (deliveries envs (valid req) db ≡ db)
      ⊎ ((env : WorkerEnv) × (deliveries envs (valid req) db
            ≡ (handle_record_billing_log env (valid req) db).1)
          × IsBilled req.request_id (deliveries envs (valid req) db))
unfolding deliveries
deliveries_charge_once [] req db h = inl refl
deliveries_charge_once (env ∷ envs) req db h = elim (handle_cases env req db h) [
  | inl same ↦ rw same (deliveries_charge_once envs req db h)
  | inr billed ↦
      let rest =
        deliveries_billed envs req (handle_record_billing_log env (valid req) db).1 h billed in
      inr (env, rest, rw rest billed)
]
