-- ===== src/Billing/Subscription/Taken.antt =====
-- The transaction of ApplySubscription for an event that has a row, which the unique index refuses.
use ainode.Prelude.{
  arith, ◌⊎◌, inl, inr, ◌≡◌, refl, sym, subst, ◌∙◌, ap, Bool, true, false, Option, Option-cases,
  none, some, Result, ok, err, Succeeds, ◌>>=◌, ◌>>◌, fail_if,
}
use ainode.Prelude.Int.{ℤ}
use ainode.Billing.Pools.{Deduction}
use ainode.Db.{
  Db, Transaction, find_user, find_event, get_user_balances, apply_subscription_db,
  create_transaction,
}
use ainode.Db.Rows.{create_transaction_taken}
use ainode.Billing.Subscription.{
  SubscriptionApply, ApplyEnv, event_text, transaction_row, ApplyError, begin_failed,
  balances_failed, transaction_failed, log_failed, commit_failed, apply_failed, or_error,
  write_transaction, transfer,
}
use ainode.Billing.Subscription.Calm.{row_event}

-- An error that a repeated event may end in, with the call that failed, or the user that is unknown.
abbrev pub IsFault : ApplyEnv → SubscriptionApply → Db → ApplyError → Type 0
IsFault env p db begin_failed = env.begin_fails ≡ true
IsFault env p db balances_failed =
    (env.balances_fail ≡ true) ⊎ (find_user p.user_id db.users ≡ none)
IsFault env p db apply_failed = (env.apply_fails ≡ true) ⊎ (find_user p.user_id db.users ≡ none)
IsFault env p db transaction_failed = env.transaction_fails ≡ true
IsFault env p db log_failed = ⊥
IsFault env p db commit_failed = ⊥

-- The unique index refuses the row of an event that has one.
taken :
    (env : ApplyEnv) (p : SubscriptionApply) (old : Deduction) (moved : ℤ) (row : Transaction)
    (db : Db)
    → find_event (event_text p.event_id) db.transactions ≡ some row
    → write_transaction env p old moved (create_transaction (transaction_row p old) db) ≡ ok none
unfolding write_transaction
taken env p old moved row db h =
    rw
      (create_transaction_taken (transaction_row p old) row db
        (ap (λ e. find_event e db.transactions) (row_event p old) ∙ h))
      refl

abbrev moved_in : SubscriptionApply → Db → Result ApplyError (ℤ × Db)
moved_in p db =
    or_error (apply_subscription_db p.user_id p.new_paid p.new_grant p.expires_at (some p.tier) db)
      apply_failed

moved_keeps :
    (p : SubscriptionApply) (db : Db)
    → Succeeds (λ (x : ℤ × Db). x.1.transactions ≡ db.transactions) (moved_in p db)
unfolding apply_subscription_db
moved_keeps p db = elim (Option-cases (find_user p.user_id db.users)) [
  | inl e ↦ rw (Succeeds, apply_subscription_db, e) tt
  | inr (u, e) ↦ rw (Succeeds, apply_subscription_db, e) refl
]

of_success :
    {A : Type 0} (P : A → Type 0) (m : Result ApplyError A) (a : A) → Succeeds P m → m ≡ ok a → P a
of_success P m a h e = subst (Succeeds P) e h

-- What holds of the value of a call, or of its error.
abbrev pub Answers :
    {A : Type 0} → (ApplyError → Type 0) → (A → Type 0) → Result ApplyError A → Type 0
Answers Q P (ok a) = P a
Answers Q P (err e) = Q e

Answers-fail_if :
    {A : Type 0} (Q : ApplyError → Type 0) (P : A → Type 0) (c : Bool) (e : ApplyError)
    (k : Result ApplyError A)
    → (c ≡ true → Q e)
    → Answers Q P k
    → Answers Q P (fail_if c e >> k)
Answers-fail_if Q P true e k fails h = fails refl
Answers-fail_if Q P false e k fails h = h

Answers-bind :
    {A B : Type 0} (Q : ApplyError → Type 0) (P : B → Type 0) (m : Result ApplyError A)
    (f : A → Result ApplyError B)
    → ((e : ApplyError) → m ≡ err e → Q e)
    → ((a : A) → m ≡ ok a → Answers Q P (f a))
    → Answers Q P (m >>= f)
Answers-bind Q P (ok a) f fails h = h a refl
Answers-bind Q P (err e) f fails h = fails e refl

or_error_is :
    {A : Type 0} (Q : ApplyError → Type 0) (o : Option A) (e x : ApplyError)
    → (o ≡ none → Q e)
    → or_error o e ≡ err x
    → Q x
or_error_is Q none e x q h = let same : e ≡ x = cc in subst Q same (q refl)
or_error_is Q (some a) e x q h = cc

no_balances :
    (p : SubscriptionApply) (db : Db)
    → get_user_balances p.user_id db ≡ none
    → find_user p.user_id db.users ≡ none
unfolding get_user_balances
no_balances p db h = ground (arith, h)

no_transfer :
    (p : SubscriptionApply) (db : Db)
    → apply_subscription_db p.user_id p.new_paid p.new_grant p.expires_at (some p.tier) db ≡ none
    → find_user p.user_id db.users ≡ none
unfolding apply_subscription_db
no_transfer p db h = ground (arith, h)

-- A transaction for an event that has a row commits nothing, and an error of it is that of a call
-- which failed, or the user is unknown.
pub transfer_taken :
    (env : ApplyEnv) (p : SubscriptionApply) (row : Transaction) (db : Db)
    → find_event (event_text p.event_id) db.transactions ≡ some row
    → Answers (IsFault env p db) (λ (o : Option Db). o ≡ none) (transfer env p db)
unfolding transfer
transfer_taken env p row db h =
    let Q = IsFault env p db in
    let P : Option Db → Type 0 = λ o. o ≡ none in
    Answers-fail_if Q P env.begin_fails begin_failed _ (λ e. e)
      (Answers-fail_if Q P env.balances_fail balances_failed _ (λ h'. inl h')
        (Answers-bind Q P (or_error (get_user_balances p.user_id db) balances_failed) _
          (λ x.
            or_error_is Q (get_user_balances p.user_id db) balances_failed x
              (λ h'. inr (no_balances p db h')))
          (λ old _.
            Answers-fail_if Q P env.apply_fails apply_failed _ (λ h'. inl h')
              (Answers-bind Q P (moved_in p db) _
                (λ x.
                  or_error_is Q
                    (apply_subscription_db p.user_id p.new_paid p.new_grant p.expires_at
                      (some p.tier) db)
                    apply_failed x (λ h'. inr (no_transfer p db h')))
                (λ x e.
                  Answers-fail_if Q P env.transaction_fails transaction_failed _ (λ t. t)
                    (written old x e))))))
  where
    written :
        (old : Deduction) (x : ℤ × Db)
        → moved_in p db ≡ ok x
        → Answers
            (IsFault env p db)
            (λ (o : Option Db). o ≡ none)
            (write_transaction env p old x.0 (create_transaction (transaction_row p old) x.1))
    written old x e =
        let kept =
          of_success (λ (y : ℤ × Db). y.1.transactions ≡ db.transactions) (moved_in p db) x
            (moved_keeps p db) e in
        subst (Answers (IsFault env p db) (λ (o : Option Db). o ≡ none))
          (sym (taken env p old x.0 row x.1 (ap (find_event (event_text p.event_id)) kept ∙ h)))
          refl
