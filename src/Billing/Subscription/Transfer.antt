-- ===== src/Billing/Subscription/Transfer.antt =====
-- What a subscription that is applied does to the user's balances and to the cache.
use ainode.Prelude.{
  suc, arith, ◌≡◌, ◌≢◌, ◌⊎◌, inl, inr, refl, sym, subst, ◌∙◌, ap, Bool, Bool-cases, true, false,
  not, ◌&&◌, Option, none, some, String, str_eq, eq_iff, Result, ok, err, List, ◌∷◌,
}
use ainode.Redis.{sub_balance, grant_balance, cash_balance, Redis}
use ainode.Db.{
  User, Db, Transaction, find_user, update_user, find_event, balances, get_transaction_by_event_id,
}
use ainode.Db.Rows.{find_user-update_user}
use ainode.Billing.Subscription.{
  SubscriptionApply, ApplyEnv, event_text, transaction_row, drop_cache, conclude_apply,
  apply_subscription, is_some, ApplyError, transfer,
}
use ainode.Billing.Subscription.Calm.{
  IsCalm, renewed, add_logs_keep, transferred, moved_db, row_event, transfer_calm,
}
use ainode.Billing.Subscription.Taken.{IsFault, Answers, transfer_taken}

str_eq_ne : (a b : String) → a ≢ b → str_eq a b ≡ false
str_eq_ne a b h = ground (arith, eq_iff a b)

event_of : (id : String) → id ≢ "" → event_text id ≡ some id
event_of id h = rw (str_eq_ne id "" h) refl

str_eq_refl : (a : String) → str_eq a a ≡ true
str_eq_refl a = (eq_iff a a).1 refl

head_event :
    (x : Transaction) (xs : List Transaction) (id : String)
    → x.event_id ≡ some id
    → is_some (find_event (some id) (x ∷ xs)) ≡ true
head_event x xs id h = simp (h, str_eq_refl) refl

short : (a : Bool) → (a && false) ≡ false
short a = ground arith

never : (a b : Bool) → (a && b && false) ≡ false
never a b = ground arith

is_some-some : (o : Option Transaction) → is_some o ≡ true → (old : Transaction) × (o ≡ some old)
is_some-some none h = cc
is_some-some (some old) h = (old, refl)

module _ (R : Redis) where
  -- The tables and the cache are as they were, and the answer is that the event was applied
  -- before, or an error of a call that failed, the look-up in advance having failed too.
  abbrev pub Unchanged :
      ApplyEnv → SubscriptionApply → Db → R.Store → Result ApplyError Bool × Db × R.Store → Type 0
  Unchanged env' p' db' s' (r, db'', s'') =
      ((r ≡ ok false)
        ⊎ ((env'.lookup_fails ≡ true) × (e : ApplyError) × IsFault env' p' db' e × (r ≡ err e)))
      × (db'' ≡ db')
      × (s'' ≡ s')

  module _ (env : ApplyEnv) (p : SubscriptionApply) (db : Db) (s : R.Store) (u : User)
      (calm : IsCalm env) (known : find_user p.user_id db.users ≡ some u)
      (fresh : find_event (event_text p.event_id) db.transactions ≡ none) where
    applies_once :
        apply_subscription R env p (db, s)
        ≡ (ok true, transferred p u db, drop_cache R true p.user_id s)
    unfolding apply_subscription conclude_apply get_transaction_by_event_id
    applies_once =
        simp
          (
            apply_subscription,
            fresh,
            transfer_calm env p db u calm known fresh,
            calm.cached,
            never (not (str_eq p.event_id "")) (not env.lookup_fails),
          )
          refl

    transferred_users : (transferred p u db).users ≡ update_user p.user_id (renewed p) db.users
    transferred_users =
        (add_logs_keep p (balances u) u.sub_balance db.next_transaction_id (record (moved_db p db) {
          next_transaction_id = suc db.next_transaction_id;
          transactions =
              record (transaction_row p (balances u)) { id = db.next_transaction_id }
              ∷ db.transactions;
        })).0

    transferred_transactions :
        (transferred p u db).transactions
        ≡ record (transaction_row p (balances u)) { id = db.next_transaction_id } ∷ db.transactions
    transferred_transactions =
        (add_logs_keep p (balances u) u.sub_balance db.next_transaction_id (record (moved_db p db) {
          next_transaction_id = suc db.next_transaction_id;
          transactions =
              record (transaction_row p (balances u)) { id = db.next_transaction_id }
              ∷ db.transactions;
        })).1

    dropped_sub : R.get (sub_balance p.user_id) (drop_cache R true p.user_id s) ≡ none
    unfolding drop_cache
    dropped_sub =
        R.get-del_ne (sub_balance p.user_id) (cash_balance p.user_id)
          (R.del (grant_balance p.user_id) (R.del (sub_balance p.user_id) s)) (λ h. cc)
        ∙ R.get-del_ne (sub_balance p.user_id) (grant_balance p.user_id)
            (R.del (sub_balance p.user_id) s) (λ h. cc)
        ∙ R.get-del (sub_balance p.user_id) s

    dropped_grant : R.get (grant_balance p.user_id) (drop_cache R true p.user_id s) ≡ none
    unfolding drop_cache
    dropped_grant =
        R.get-del_ne (grant_balance p.user_id) (cash_balance p.user_id)
          (R.del (grant_balance p.user_id) (R.del (sub_balance p.user_id) s)) (λ h. cc)
        ∙ R.get-del (grant_balance p.user_id) (R.del (sub_balance p.user_id) s)

    dropped_cash : R.get (cash_balance p.user_id) (drop_cache R true p.user_id s) ≡ none
    unfolding drop_cache
    dropped_cash =
        R.get-del (cash_balance p.user_id)
          (R.del (grant_balance p.user_id) (R.del (sub_balance p.user_id) s))

    found :
        p.event_id ≢ ""
        → is_some (find_event (some p.event_id) (transferred p u db).transactions) ≡ true
    found h = rw (transferred_transactions) (
        head_event (record (transaction_row p (balances u)) { id = db.next_transaction_id })
          db.transactions p.event_id (row_event p (balances u) ∙ event_of p.event_id h))

    unchanged :
        (env' : ApplyEnv) (p' : SubscriptionApply) (db' : Db) (s' : R.Store)
        (x : Result ApplyError (Option Db))
        → env'.lookup_fails ≡ true
        → Answers (IsFault env' p' db') (λ (o : Option Db). o ≡ none) x
        → Unchanged env' p' db' s' (conclude_apply R env' p' x (db', s'))
    unfolding conclude_apply
    unchanged env' p' db' s' (err e) down h = (inr (down, e, h, refl), refl, refl)
    unchanged env' p' db' s' (ok o) down h = rw h (inl refl, refl, refl)

    seen_again :
        (env' : ApplyEnv) (p' : SubscriptionApply) (db' : Db) (s' : R.Store)
        → is_some (find_event (some p.event_id) db'.transactions) ≡ true
        → p'.event_id ≡ p.event_id
        → p.event_id ≢ ""
        → Unchanged env' p' db' s' (apply_subscription R env' p' (db', s'))
    unfolding apply_subscription get_transaction_by_event_id
    seen_again env' p' db' s' f e h =
        let named : event_text p'.event_id ≡ some p.event_id = rw e (event_of p.event_id h) in
        let (row, there) = is_some-some (find_event (some p.event_id) db'.transactions) f in
        elim (Bool-cases env'.lookup_fails) [
          | inr up ↦
              simp (apply_subscription, up, e, str_eq_ne p.event_id "" h, there)
                (inl refl, refl, refl)
          | inl down ↦ subst (Unchanged env' p' db' s') (sym (falls_through down)) (
              unchanged env' p' db' s' (transfer env' p' db') down (
                transfer_taken env' p' row db'
                  (ap (λ i. find_event i db'.transactions) named ∙ there)))
        ]
      where
        falls_through :
            env'.lookup_fails ≡ true
            → apply_subscription R env' p' (db', s')
              ≡ conclude_apply R env' p' (transfer env' p' db') (db', s')
        falls_through down =
            simp (apply_subscription, down, short (not (str_eq p'.event_id ""))) refl

    -- Where every call succeeds, the user is known and the event is new, the subscription is
    -- applied: what the column sub_balance of the database held of the old paid amount, whatever
    -- the cache held, is added to cash, the paid and the granted amount, the expiry and the tier
    -- are the new ones, and none of the user's pools is cached any more.
    pub apply_subscription-moves :
        ((apply_subscription R env p (db, s)).0 ≡ ok true)
        × (find_user p.user_id (apply_subscription R env p (db, s)).1.users ≡ some (renewed p u))
        × (R.get (sub_balance p.user_id) (apply_subscription R env p (db, s)).2 ≡ none)
        × (R.get (grant_balance p.user_id) (apply_subscription R env p (db, s)).2 ≡ none)
        × (R.get (cash_balance p.user_id) (apply_subscription R env p (db, s)).2 ≡ none)
    apply_subscription-moves =
        let db' = transferred p u db in
        let s₁ = R.del (sub_balance p.user_id) s in
        let s₂ = R.del (grant_balance p.user_id) s₁ in
        rw (applies_once) (
          refl,
          ap (find_user p.user_id) (transferred_users)
              ∙ find_user-update_user p.user_id (renewed p) (λ v. refl) db.users known,
          dropped_sub,
          dropped_grant,
          dropped_cash,
        )

    -- After a call that applied a subscription (every call of it succeeded, the user was known
    -- and its event was new), a later call with the same event id, which is not empty, changes
    -- neither the tables nor the cache, whatever else it asks for and whatever fails in it, the
    -- look-up of the event in advance included. It answers that the event was applied before, or,
    -- where that look-up failed, the error of another call that failed or of a user who is
    -- unknown.
    pub apply_subscription-once :
        (env' : ApplyEnv) (p' : SubscriptionApply)
        → p.event_id ≢ ""
        → p'.event_id ≡ p.event_id
        → (let (r, db', s') = apply_subscription R env p (db, s) in
            Unchanged env' p' db' s' (apply_subscription R env' p' (db', s')))
    apply_subscription-once env' p' h e =
        rw (applies_once)
          (seen_again env' p' (transferred p u db) (drop_cache R true p.user_id s) (found h) e h)
