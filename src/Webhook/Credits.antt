-- ===== src/Webhook/Credits.antt =====
-- What a call of processTransaction leaves in the tables and in the cache, on every branch.
use ainode.Prelude.{
  ℕ, suc, arith, ◌≡◌, ◌⊎◌, inl, inr, refl, subst, ap, ◌∙◌, Bool, true, false, not, ◌&&◌, Option,
  none, some, String, str_eq, eq_iff, if◌then◌else◌, ok, ◌∷◌,
}
use ainode.Prelude.Int.{ℤ, pos, ◌+ℤ◌, ◌-ℤ◌, ◌≤ℤ◌, int64}
use ainode.Redis.{Key, cash_balance, grant_balance, Redis}
use ainode.Billing.Pools.{Deduction}
use ainode.Billing.Scripts.{credit_cache_script}
use ainode.Billing.Subscription.{event_text}
use ainode.Billing.Deduct.{credit_balance_cache}
use ainode.Db.{Db, User, balances, find_user, update_user, create_balance_log}
use ainode.Webhook.{
  Floats, TransactionEnv, TransactionWebhookRequest, delta_of, is_ok, process_transaction,
  normalize_transaction_request, or_else, transaction_of, balance_log_of,
}
use ainode.Webhook.Commits.{IsValid, IsCommitted, booked, event_of, after_of}
use ainode.Webhook.Outcomes.{Ending, IsKept, processed, credited, process_transaction-cases}
use ainode.Webhook.Audit.{Pool, cash, grant, name, balance_in}
use ainode.Webhook.Audit.Change.{change}
use ainode.Webhook.Audit.Commit.{updates, before_lem, negation, known_pool, user_found}
use mathlib.Core.Option

-- What a request in order does to the balance `p` of a user and to the tables, written out.
module _ (F : Floats) (req : TransactionWebhookRequest F) where
  -- The amount at the scale of the balances, added for a credit and taken away for a debit.
  abbrev pub amount : ℤ
  amount = F.money_to_scaled_int req.amount

  abbrev pub difference : ℤ
  difference = if str_eq req.direction "credit" then amount else pos 0 -ℤ amount

  abbrev pub after : Pool → User → ℤ
  after p u = int64 (balance_in p (balances u) +ℤ difference)

  abbrev pub credited_db : Pool → User → Db → Db
  credited_db p u db = record db {
    users = update_user req.user_id (change p difference) db.users;
    next_transaction_id = suc db.next_transaction_id;
    transactions =
        record {
          id = db.next_transaction_id;
          user_id = req.user_id;
          event_id = some req.event_id;
          type = req.type;
          balance_type = name p;
          direction = req.direction;
          amount_cents = amount;
          before_balance_cents = balance_in p (balances u);
          after_balance_cents = after p u;
          source_type = req.source;
          source_id = req.source_id;
          status = "completed";
          remark = req.remark;
        }
        ∷ db.transactions;
    balance_logs =
        record {
          transaction_id = some db.next_transaction_id;
          user_id = req.user_id;
          balance_type = name p;
          action_type =
              or_else req.type (if str_eq req.direction "credit" then "recharge" else "deduct");
          amount_cents = amount;
          before_balance_cents = balance_in p (balances u);
          after_balance_cents = after p u;
          operator_name = or_else req.source "system";
          remark = req.remark;
        }
        ∷ db.balance_logs;
  }

  module _ (scaled : ℤ) (v : IsValid F req scaled) where
    delta_of-difference : delta_of F req scaled ≡ difference
    unfolding delta_of
    delta_of-difference = elim v.known_direction [
      | inl e ↦ rw e v.scaled_amount
      | inr e ↦ rw (e) (negation F req scaled v ∙ ap (λ a. pos 0 -ℤ a) v.scaled_amount)
    ]

    action_lem :
        ◌≡◌ {A = String}
          (if str_eq req.direction "debit" then "deduct" else "recharge")
          (if str_eq req.direction "credit" then "recharge" else "deduct")
    action_lem = elim v.known_direction [ inl e ↦ rw e refl | inr e ↦ rw e refl ]

    named_event : event_text req.event_id ≡ some req.event_id
    named_event = ground (arith, eq_iff req.event_id "", v.identified)

    after_lem :
        (p : Pool) (u : User) (old : Deduction)
        → req.balance_type ≡ name p
        → old ≡ balances u
        → after_of F req scaled old ≡ after p u
    after_lem p u old named e =
        rw (before_lem F req scaled p old named, delta_of-difference, e) refl

    booked_lem :
        (p : Pool) (u : User) (old : Deduction) (db : Db)
        → req.balance_type ≡ name p
        → old ≡ balances u
        → booked F req scaled old db ≡ credited_db p u db
    unfolding create_balance_log balance_log_of transaction_of
    booked_lem p u old db named e =
        rw
          (
            updates F req scaled p (delta_of F req scaled) db named,
            before_lem F req scaled p old named,
            delta_of-difference,
            e,
            action_lem,
            named_event,
            named,
            v.scaled_amount,
          )
          refl

module _ (F : Floats) (R : Redis) where
  open R use {Store}

  abbrev pub key_of : Pool → ℤ → Key
  key_of cash uid = cash_balance uid
  key_of grant uid = grant_balance uid

  -- A cached balance after a relative change.
  abbrev pub raised : Bool → ℤ → Option ℤ → Option ℤ
  raised runs delta v = if runs then Option.map (λ a. a +ℤ delta) v else v

  get-credit_cache_script :
      (key : Key) (delta : ℤ) (s : Store)
      → R.get key (credit_cache_script R key delta s).1 ≡ Option.map (λ a. a +ℤ delta) (R.get key s)
  unfolding credit_cache_script
  get-credit_cache_script key delta s = by_value (R.get key s) refl
    where
      by_value :
          (o : Option ℤ)
          → R.get key s ≡ o
          → R.get key (credit_cache_script R key delta s).1
            ≡ Option.map (λ a. a +ℤ delta) (R.get key s)
      by_value none e = rw (credit_cache_script, e) (rw e refl)
      by_value (some v) e = rw (credit_cache_script, e) (R.get-incr_by key delta s ∙ rw e refl)

  -- The script changes the named balance, if the call reaches it.
  get-credit_balance_cache :
      (client down : Bool) (uid : ℤ) (p : Pool) (delta : ℤ) (s : Store)
      → (R.get (key_of p uid) (credit_balance_cache R client down uid (name p) delta s).1
          ≡ raised (client && not down) delta (R.get (key_of p uid) s))
        × (is_ok (credit_balance_cache R client down uid (name p) delta s).0 ≡ (client && not down))
  unfolding credit_balance_cache
  get-credit_balance_cache false down uid p delta s = (refl, refl)
  get-credit_balance_cache true true uid cash delta s = (refl, refl)
  get-credit_balance_cache true true uid grant delta s = (refl, refl)
  get-credit_balance_cache true false uid cash delta s =
      (get-credit_cache_script (cash_balance uid) delta s, refl)
  get-credit_balance_cache true false uid grant delta s =
      (get-credit_cache_script (grant_balance uid) delta s, refl)

  named_cache :
      (client down : Bool) (uid : ℤ) (p : Pool) (type : String) (delta : ℤ) (s : Store)
      → type ≡ name p
      → (R.get (key_of p uid) (credit_balance_cache R client down uid type delta s).1
          ≡ raised (client && not down) delta (R.get (key_of p uid) s))
        × (is_ok (credit_balance_cache R client down uid type delta s).0 ≡ (client && not down))
  named_cache client down uid p type delta s named =
      rw named (get-credit_balance_cache client down uid p delta s)

  module _ (env : TransactionEnv) (request : TransactionWebhookRequest F) (db : Db)
      (s : Store) where
    abbrev pub normal : TransactionWebhookRequest F
    normal = normalize_transaction_request F request

    -- Nothing is written.
    abbrev pub Kept : Ending F R → Type 0
    Kept (r, db', s') =
        IsKept F R (event_of F normal) db' r × (s' ≡ s) × ((db' ≡ db) ⊎ (db' ≡ env.meanwhile db))

    -- One balance changes, in the tables and, if Redis is there, in the cache.
    abbrev pub Credited : Ending F R → Type 0
    Credited (r, db', s') =
        (p : Pool) × (u : User) × (normal.balance_type ≡ name p)
        × (find_user normal.user_id (env.meanwhile db).users ≡ some u)
        × (pos 0 ≤ℤ after F normal p u)
        × (r
            ≡ ok (
                processed (env.meanwhile db).next_transaction_id
                  (env.has_redis && not env.credit_fails)))
        × (db' ≡ credited_db F normal p u (env.meanwhile db))
        × (R.get (key_of p normal.user_id) s'
            ≡ raised (env.has_redis && not env.credit_fails) (difference F normal)
                (R.get (key_of p normal.user_id) s))

    commit-Credited :
        (scaled : ℤ) (tx : ℕ) (db' : Db)
        → IsValid F normal scaled
        → IsCommitted F normal scaled (env.meanwhile db) tx db'
        → (let (c, s') = credited F R env normal scaled s in
            Credited (ok (processed tx (is_ok c)), db', s'))
    commit-Credited scaled tx db' v c =
        let (p, named) = known_pool F normal scaled v in
        let (u, known, e) = user_found normal.user_id (env.meanwhile db) c.old c.found in
        let delta_lem = delta_of-difference F normal scaled v in
        let (cache, synced) =
          named_cache env.has_redis env.credit_fails normal.user_id p normal.balance_type
            (delta_of F normal scaled) s named in
        (
          p,
          u,
          named,
          known,
          subst (λ a. pos 0 ≤ℤ a) (after_lem F normal scaled v p u c.old named e) c.covered,
          rw (c.id, synced) refl,
          c.written ∙ booked_lem F normal scaled v p u c.old (env.meanwhile db) named e,
          subst
              (λ a.
                R.get (key_of p normal.user_id) (credited F R env normal scaled s).1
                ≡ raised (env.has_redis && not env.credit_fails) a
                    (R.get (key_of p normal.user_id) s))
              delta_lem cache,
        )

    -- A call of processTransaction either leaves the cache as it was and the tables as they were,
    -- or as others have made them meanwhile, and answers an error or a row that holds its event.
    -- Or it answers success: the user is known, the named balance of that user alone has risen by
    -- the scaled amount for a credit and fallen by it for a debit and is not negative after it,
    -- one transaction and one balance log row of that user, balance, direction and amount, with
    -- the balance before and after, are added, and the cached balance, if it is there, has
    -- changed by the same amount, or is as it was where Redis is missing or fails, which the
    -- answer tells.
    pub process_transaction-Credited :
        Kept (process_transaction F R env request (db, s))
        ⊎ Credited (process_transaction F R env request (db, s))
    process_transaction-Credited =
        process_transaction-cases F R env request db s (λ (e : Ending F R). Kept e ⊎ Credited e)
          (λ d r which k. inl (k, refl, which))
          (λ scaled tx db' v c. inr (commit-Credited scaled tx db' v c))
