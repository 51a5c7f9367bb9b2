-- ===== src/Db/Rows.antt =====
-- Reading a user back after an update.
use ainode.Prelude.{
  ◌≡◌, ◌≢◌, refl, ap, inl, inr, Bool-cases, true, false, if◌then◌else◌, none, some, suc, List, [],
  ◌∷◌, arith,
}
use ainode.Prelude.Int.{ℤ, eqb_ℤ}
use ainode.Db.{User, Db, Transaction, find_user, update_user, find_event, create_transaction}

module _ (uid : ℤ) (f : User → User) (keep : (u : User) → (f u).id ≡ u.id) where
  pub find_user-update_user :
      (us : List User) {u : User}
      → find_user uid us ≡ some u
      → find_user uid (update_user uid f us) ≡ some (f u)
  find_user-update_user [] h = cc
  find_user-update_user (x ∷ us) {u} h = elim (Bool-cases (eqb_ℤ x.id uid)) [
    | inl here ↦ rw here (simp (keep x, here) (ap some (ap f (head here h))))
    | inr there ↦ rw there (rw there (find_user-update_user us (tail there h)))
  ]
    where
      head : eqb_ℤ x.id uid ≡ true → find_user uid (x ∷ us) ≡ some u → x ≡ u
      head e k = ground arith

      tail : eqb_ℤ x.id uid ≡ false → find_user uid (x ∷ us) ≡ some u → find_user uid us ≡ some u
      tail e k = ground arith

  pub find_user-update_user_ne :
      (v : ℤ) (us : List User) → v ≢ uid → find_user v (update_user uid f us) ≡ find_user v us
  find_user-update_user_ne v [] h = refl
  find_user-update_user_ne v (x ∷ us) h = elim (Bool-cases (eqb_ℤ x.id uid)) [
    | inl here ↦ rw here (rw (keep x, other here) (find_user-update_user_ne v us h))
    | inr there ↦
        rw there (ap (λ r. if eqb_ℤ x.id v then some x else r) (find_user-update_user_ne v us h))
  ]
    where
      other : eqb_ℤ x.id uid ≡ true → eqb_ℤ x.id v ≡ false
      other e = ground arith

-- The tables with a new row of the transactions.
abbrev pub with_transaction : Transaction → Db → Db
with_transaction x db = record db {
  next_transaction_id = suc db.next_transaction_id;
  transactions = record x { id = db.next_transaction_id } ∷ db.transactions;
}

pub create_transaction_fresh :
    (x : Transaction) (db : Db)
    → find_event x.event_id db.transactions ≡ none
    → create_transaction x db ≡ some (db.next_transaction_id, with_transaction x db)
unfolding create_transaction
create_transaction_fresh x db h = rw (create_transaction, h) refl

pub create_transaction_taken :
    (x old : Transaction) (db : Db)
    → find_event x.event_id db.transactions ≡ some old
    → create_transaction x db ≡ none
unfolding create_transaction
create_transaction_taken x old db h = rw (create_transaction, h) refl
