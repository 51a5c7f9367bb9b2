-- ===== src/Webhook/Audit/Change.antt =====
-- One user's balance changes: the other balances stay, and a change that is covered keeps them in
-- range.
use ainode.Prelude.{
  ◌<◌, ◌^◌, arith, ◌≡◌, ◌≢◌, inl, inr, refl, sym, ap, subst, ◌∙◌, ◌&&◌, Option, some, Bool-cases,
  str_eq, if◌then◌else◌,
}
use ainode.Prelude.Int.{
  ℤ, pos, pos_part, neg_part, ◌+ℤ◌, ◌-ℤ◌, ◌≤ℤ◌, eqb_ℤ, eqb_ℤ-eq, int64, IsInt64, int_laws,
}
use mathlib.Core.Option
use ainode.Db.{User, Db, find_user, update_user, get_user_balances, balances, coalesce, add_to}
use ainode.Db.Rows.{find_user-update_user, find_user-update_user_ne}
use ainode.Webhook.Audit.{
  Pool, cash, grant, name, balance_in, balance_or_zero, balance_of, IsAmount, HasAmounts, IsSound,
}

sum_in_range :
    (c delta : ℤ)
    → neg_part c ≡ 0
    → pos_part c < 2 ^ 63
    → IsInt64 delta
    → pos 0 ≤ℤ int64 (c +ℤ delta)
    → (neg_part (c +ℤ delta) ≡ 0) × (pos_part (c +ℤ delta) < 2 ^ 63)
unfolding int64 ◌+ℤ◌
sum_in_range c delta nonneg small range covered = ground arith

pub neg_range : (a : ℤ) → pos 0 ≤ℤ a → IsInt64 a → IsInt64 (pos 0 -ℤ a)
unfolding ◌-ℤ◌
neg_range a h r = ground arith

-- The user after a change of one balance.
abbrev pub change : Pool → ℤ → User → User
change cash delta u = record u { cash_balance = add_to delta u.cash_balance }
change grant delta u = record u { grant_balance = add_to delta u.grant_balance }

change_id : (p : Pool) (delta : ℤ) (u : User) → (change p delta u).id ≡ u.id
change_id cash delta u = refl
change_id grant delta u = refl

IsAmount-add_to :
    (delta : ℤ) (v : Option ℤ)
    → IsAmount v
    → IsInt64 delta
    → pos 0 ≤ℤ int64 (coalesce v +ℤ delta)
    → IsAmount (add_to delta v)
IsAmount-add_to delta v a range covered =
    let (n, s) =
      sum_in_range a.amount delta a.nonneg a.small range
        (subst (λ w. pos 0 ≤ℤ int64 (coalesce w +ℤ delta)) a.filled covered) in
    record {
      amount = a.amount +ℤ delta;
      filled = ap (add_to delta) a.filled;
      nonneg = n;
      small = s;
    }

balances_found :
    (uid : ℤ) (db : Db) (u : User)
    → find_user uid db.users ≡ some u
    → get_user_balances uid db ≡ some (balances u)
unfolding get_user_balances
balances_found uid db u h = rw h refl

pub balances_same :
    (uid : ℤ) (db db' : Db)
    → find_user uid db'.users ≡ find_user uid db.users
    → get_user_balances uid db' ≡ get_user_balances uid db
unfolding get_user_balances
balances_same uid db db' h = ap (Option.map balances) h

add_zero : (a : ℤ) → a ≡ (a +ℤ pos 0)
add_zero a = omega int_laws

-- A change of a column that is not null is a change of what it counts for.
coalesce-add_to :
    (delta : ℤ) (v : Option ℤ) → IsAmount v → coalesce (add_to delta v) ≡ (coalesce v +ℤ delta)
coalesce-add_to delta v a = rw (a.filled) refl

IsAmount-change :
    (p : Pool) (delta : ℤ) (u : User)
    → IsAmount u.cash_balance × IsAmount u.grant_balance
    → IsInt64 delta
    → pos 0 ≤ℤ int64 (balance_in p (balances u) +ℤ delta)
    → IsAmount (change p delta u).cash_balance × IsAmount (change p delta u).grant_balance
IsAmount-change cash delta u (c, g) range covered =
    (IsAmount-add_to delta u.cash_balance c range covered, g)
IsAmount-change grant delta u (c, g) range covered =
    (c, IsAmount-add_to delta u.grant_balance g range covered)

balance_in-change :
    (p q : Pool) (delta : ℤ) (u : User)
    → IsAmount u.cash_balance × IsAmount u.grant_balance
    → balance_in q (balances (change p delta u))
      ≡ (balance_in q (balances u) +ℤ (if str_eq (name p) (name q) then delta else pos 0))
balance_in-change cash cash delta u (c, g) = coalesce-add_to delta u.cash_balance c
balance_in-change cash grant delta u (c, g) = add_zero (coalesce u.grant_balance)
balance_in-change grant cash delta u (c, g) = add_zero (coalesce u.cash_balance)
balance_in-change grant grant delta u (c, g) = coalesce-add_to delta u.grant_balance g

module _ (p : Pool) (uid : ℤ) (delta : ℤ) (db : Db) (sound : IsSound db) (u : User)
    (known : find_user uid db.users ≡ some u) where
  abbrev pub changed : Db
  changed = record db { users = update_user uid (change p delta) db.users }

  changed_other : (v : ℤ) → v ≢ uid → find_user v changed.users ≡ find_user v db.users
  changed_other v h = find_user-update_user_ne uid (change p delta) (change_id p delta) v db.users h

  changed_user : find_user uid changed.users ≡ some (change p delta u)
  changed_user = find_user-update_user uid (change p delta) (change_id p delta) db.users known

  amounts : IsAmount u.cash_balance × IsAmount u.grant_balance
  amounts = subst HasAmounts known (sound uid)

  pub IsSound-changed :
      IsInt64 delta → pos 0 ≤ℤ int64 (balance_in p (balances u) +ℤ delta) → IsSound changed
  IsSound-changed range covered v = elim (Bool-cases (eqb_ℤ uid v)) [
    | inl e ↦
        subst (λ w. HasAmounts (find_user w changed.users)) (eqb_ℤ-eq uid v e)
          (subst HasAmounts (sym changed_user) (IsAmount-change p delta u amounts range covered))
    | inr e ↦ subst HasAmounts (sym (changed_other v (λ eq. ground arith))) (sound v)
  ]

  -- The balances of a user after the change.
  pub balance_of-changed :
      (q : Pool) (v : ℤ)
      → balance_of q v changed
        ≡ (balance_of q v db +ℤ (if eqb_ℤ uid v && str_eq (name p) (name q) then delta else pos 0))
  balance_of-changed q v = elim (Bool-cases (eqb_ℤ uid v)) [
    | inl e ↦
        rw
          (
            e,
            ← eqb_ℤ-eq uid v e,
            balances_found uid db u known,
            balances_found uid changed (change p delta u) changed_user,
          )
          (balance_in-change p q delta u amounts)
    | inr e ↦ rw e (same_balance (λ eq. ground arith) ∙ add_zero (balance_of q v db))
  ]
    where
      same_balance : v ≢ uid → balance_of q v changed ≡ balance_of q v db
      same_balance h = ap (balance_or_zero q) (balances_same v db changed (changed_other v h))
