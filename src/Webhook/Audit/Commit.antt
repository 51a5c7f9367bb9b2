-- ===== src/Webhook/Audit/Commit.antt =====
-- A commit of processTransaction adds to the balance what its row says.
use ainode.Prelude.{
  arith, ◌≡◌, inl, inr, refl, sym, ap, subst, ◌∙◌, Bool, true, false, ◌&&◌, Option, none, some,
  str_eq, if◌then◌else◌, if-cases,
}
use ainode.Prelude.Int.{
  ℤ, pos, ◌+ℤ◌, ◌-ℤ◌, ◌≤ℤ◌, eqb_ℤ, int64, IsInt64, int64_of_IsInt64, int64-IsInt64, int_laws,
}
use ainode.Billing.Pools.{Deduction}
use mathlib.Core.Option
use ainode.Db.{
  User, Db, find_user, update_user, get_user_balances, balances, create_balance_log,
  update_user_grant_balance, update_user_topup_balance,
}
use ainode.Webhook.{
  Floats, TransactionWebhookRequest, before_balance, delta_of, update_balance, transaction_of,
}
use ainode.Webhook.Commits.{IsValid, after_of, row_of, booked}
use ainode.Webhook.Audit.{
  Pool, cash, grant, name, balance_in, balance_or_zero, balance_of, signed_amount, concerns,
  audited, unexplained, HasAmounts, IsSound,
}
use ainode.Webhook.Audit.Change.{
  change, changed, balance_of-changed, IsSound-changed, neg_range, balances_same,
}

regroup : (b a r m : ℤ) → m ≡ r → (b +ℤ m) -ℤ (a +ℤ r) ≡ b -ℤ a
regroup b a r m e = rw e (omega int_laws)

keep : (b a : ℤ) → (b +ℤ pos 0) -ℤ a ≡ b -ℤ a
keep b a = omega int_laws

-- Balance and rows grow by the same amount, or neither does.
same_gap :
    (hit : Bool) (b a m r : ℤ)
    → r ≡ m
    → (b +ℤ (if hit then m else pos 0)) -ℤ (if hit then a +ℤ r else a) ≡ b -ℤ a
same_gap true b a m r e = regroup b a r m (sym e)
same_gap false b a m r e = keep b a

found_in :
    (o : Option User) (d : Deduction)
    → Option.map balances o ≡ some d
    → (u : User) × (o ≡ some u) × (d ≡ balances u)
found_in none d h = cc
found_in (some u) d h = (u, refl, cc)

pub user_found :
    (uid : ℤ) (db : Db) (d : Deduction)
    → get_user_balances uid db ≡ some d
    → (u : User) × (find_user uid db.users ≡ some u) × (d ≡ balances u)
unfolding get_user_balances
user_found uid db d h = found_in (find_user uid db.users) d h

module _ (F : Floats) (req : TransactionWebhookRequest F) (scaled : ℤ) where
  pub updates :
      (p : Pool) (delta : ℤ) (db : Db)
      → req.balance_type ≡ name p
      → update_balance F req delta db
        ≡ record db { users = update_user req.user_id (change p delta) db.users }
  unfolding update_balance update_user_grant_balance update_user_topup_balance
  updates cash delta db named = rw named refl
  updates grant delta db named = rw named refl

  pub before_lem :
      (p : Pool) (d : Deduction)
      → req.balance_type ≡ name p
      → before_balance F req d ≡ balance_in p d
  unfolding before_balance
  before_lem cash d named = rw named refl
  before_lem grant d named = rw named refl

  module _ (v : IsValid F req scaled) where
    pub negation : int64 (pos 0 -ℤ scaled) ≡ pos 0 -ℤ scaled
    negation =
        int64_of_IsInt64 (pos 0 -ℤ scaled) (neg_range scaled (omega (arith, v.positive)) v.in_range)

    delta_range : IsInt64 (delta_of F req scaled)
    unfolding delta_of
    delta_range =
        if-cases IsInt64 (str_eq req.direction "debit") (int64 (pos 0 -ℤ scaled)) scaled
          (λ _. int64-IsInt64 (pos 0 -ℤ scaled)) (λ _. v.in_range)

    row_amount : (d : Deduction) → signed_amount (row_of F req scaled d) ≡ delta_of F req scaled
    unfolding delta_of transaction_of
    row_amount d = rw negation refl

    pub known_pool : (p : Pool) × (req.balance_type ≡ name p)
    known_pool = elim v.known_balance [ inl e ↦ (cash, e) | inr e ↦ (grant, e) ]

  module _ (v : IsValid F req scaled) (db : Db) (sound : IsSound db) (d : Deduction)
      (found : get_user_balances req.user_id db ≡ some d)
      (covered : pos 0 ≤ℤ after_of F req scaled d) where
    abbrev paid : Db
    paid = update_balance F req (delta_of F req scaled) db

    concerns_row :
        (p q : Pool) (uid : ℤ)
        → req.balance_type ≡ name p
        → concerns q uid (row_of F req scaled d)
          ≡ (eqb_ℤ req.user_id uid && str_eq (name p) (name q))
    unfolding transaction_of
    concerns_row p q uid named = rw named refl

    booked_users : (booked F req scaled d db).users ≡ paid.users
    unfolding create_balance_log
    booked_users = refl

    booked_transactions :
        (q : Pool) (uid : ℤ)
        → audited q uid (booked F req scaled d db).transactions ≡ (
            if concerns q uid (row_of F req scaled d)
            then audited q uid paid.transactions +ℤ signed_amount (row_of F req scaled d)
            else audited q uid paid.transactions)
    unfolding create_balance_log audited
    booked_transactions q uid = refl

    module _ (p : Pool) (named : req.balance_type ≡ name p) (u : User)
        (known : find_user req.user_id db.users ≡ some u) where
      abbrev delta : ℤ
      delta = delta_of F req scaled

      users_changed :
          (booked F req scaled d db).users ≡ (changed p req.user_id delta db sound u known).users
      users_changed = booked_users ∙ ap (λ (x : Db). x.users) (updates p delta db named)

      balance_of-booked :
          (q : Pool) (uid : ℤ)
          → balance_of q uid (booked F req scaled d db) ≡ (
              balance_of q uid db
              +ℤ (if eqb_ℤ req.user_id uid && str_eq (name p) (name q) then delta else pos 0))
      balance_of-booked q uid =
          ap (balance_or_zero q) (
            balances_same uid (changed p req.user_id delta db sound u known)
              (booked F req scaled d db) (ap (find_user uid) users_changed))
          ∙ balance_of-changed p req.user_id delta db sound u known q uid

      audited-booked :
          (q : Pool) (uid : ℤ)
          → audited q uid (booked F req scaled d db).transactions ≡ (
              if eqb_ℤ req.user_id uid && str_eq (name p) (name q)
              then audited q uid db.transactions +ℤ signed_amount (row_of F req scaled d)
              else audited q uid db.transactions)
      audited-booked q uid =
          rw
            (
              booked_transactions q uid,
              concerns_row p q uid named,
              ap (λ (x : Db). x.transactions) (updates p delta db named),
            )
            refl

      explained :
          (q : Pool) (uid : ℤ) → unexplained q uid (booked F req scaled d db) ≡ unexplained q uid db
      explained q uid =
          rw (balance_of-booked q uid, audited-booked q uid)
            (same_gap (eqb_ℤ req.user_id uid && str_eq (name p) (name q)) _ _ delta _
              (row_amount v d))

      booked-IsSound : d ≡ balances u → IsSound (booked F req scaled d db)
      booked-IsSound e =
          subst (λ us. (uid : ℤ) → HasAmounts (find_user uid us)) (sym users_changed)
            (IsSound-changed p req.user_id delta db sound u known (delta_range v) (
              subst (λ b. pos 0 ≤ℤ int64 (b +ℤ delta)) (before_lem p d named ∙ ap (balance_in p) e)
                covered))

    -- A commit leaves the balances sound, and adds to them what its row says.
    pub commit_explained :
        IsSound (booked F req scaled d db)
        × ((q : Pool) (uid : ℤ)
            → unexplained q uid (booked F req scaled d db) ≡ unexplained q uid db)
    commit_explained =
        let (p, named) = known_pool v in
        let (u, known, e) = user_found req.user_id db d found in
        (booked-IsSound p named u known e, explained p named u known)
