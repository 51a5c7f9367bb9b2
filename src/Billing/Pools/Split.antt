-- ===== src/Billing/Pools/Split.antt =====
-- How an amount is split over the pools, as natural numbers: consumption from the front
-- (splitActual3 and the scripts), a refund from the back (refund.lua).
use Prim.Native.Nat.{min}
use ainode.Prelude.{ℕ, ◌-◌, ◌+◌, ◌≤◌, ◌≡◌, arith, ap, ◌∙◌}
use ainode.Prelude.Int.{
  ℤ, pos, pos_part, neg_part, ◌-ℤ◌, ◌+ℤ◌, ◌≤ℤ◌, int_laws, neg_part_of_nonneg, parts_exclusive,
}
use ainode.Billing.Pools.{
  Deduction, take, take_lem, split_actual3, give_back, debit, credit, IsNonneg,
}

rem_part : (a : ℤ) (n : ℕ) → n ≤ pos_part a → pos_part (a -ℤ pos n) ≡ pos_part a - n
unfolding ◌-ℤ◌
rem_part a n h = ground arith

module _ (a s g c : ℤ) where
  -- The three amounts of a split: each pool gives what is left to pay, or all that it has.
  pub split_amounts :
      let d = split_actual3 a s g c in
      (d.sub ≡ pos (min (pos_part a) (pos_part s)))
      × (d.grant ≡ pos (min (pos_part a - pos_part s) (pos_part g)))
      × (d.cash ≡ pos (min (pos_part a - pos_part s - pos_part g) (pos_part c)))
  unfolding split_actual3
  split_amounts = (
    take_lem a s,
    ground (
      arith,
      take_lem a s,
      rem_part a (min (pos_part a) (pos_part s)),
      take_lem (a -ℤ take a s) g,
    ),
    ground (
      arith,
      take_lem a s,
      rem_part a (min (pos_part a) (pos_part s)),
      take_lem (a -ℤ take a s) g,
      rem_part (a -ℤ take a s) (min (pos_part (a -ℤ take a s)) (pos_part g)),
      take_lem (a -ℤ take a s -ℤ take (a -ℤ take a s) g) c,
    ),
  )

-- The three amounts of a refund, which goes the other way round.
pub give_back_amounts :
    (a : ℤ) (d : Deduction)
    → let r = give_back a d in
      (r.cash ≡ pos (min (pos_part a) (pos_part d.cash)))
      × (r.grant ≡ pos (min (pos_part a - pos_part d.cash) (pos_part d.grant)))
      × (r.sub ≡ pos (min (pos_part a - pos_part d.cash - pos_part d.grant) (pos_part d.sub)))
unfolding give_back split_actual3
give_back_amounts a d = split_amounts a d.cash d.grant d.sub

-- The amounts of a deduction, with no wrap-around.
abbrev pub sum : Deduction → ℤ
sum d = d.sub +ℤ d.grant +ℤ d.cash

sum_parts :
    (actual refund : ℤ) (d : Deduction)
    → IsNonneg d
    → pos 0 ≤ℤ actual
    → pos 0 ≤ℤ refund
    → actual +ℤ refund ≡ sum d
    → pos_part actual + pos_part refund ≡ pos_part d.sub + pos_part d.grant + pos_part d.cash
sum_parts actual refund d v ha hr e = omega (
  int_laws,
  ap pos_part e,
  ap neg_part e,
  neg_part_of_nonneg actual ha,
  neg_part_of_nonneg refund hr,
  parts_exclusive (actual +ℤ refund),
  parts_exclusive (sum d),
)

-- What is left of one amount after a part of it was given back.
left :
    (x r k : ℤ) (n m : ℕ) → r ≡ pos n → k ≡ pos m → neg_part x ≡ 0 → pos_part x ≡ n + m → x -ℤ r ≡ k
left x r k n m er ek h e = rw (er, ek) (omega int_laws)

-- Two deductions with the same three amounts are the same.
pub Deduction_eq : {d e : Deduction} → d.sub ≡ e.sub → d.grant ≡ e.grant → d.cash ≡ e.cash → d ≡ e
Deduction_eq p q r = λ i. record { sub = p i; grant = q i; cash = r i }

-- Where no part of a deduction is negative, and an actual cost and a refund are not negative and
-- add up to it, the refund given back from the end of the order (cash, grant, sub) leaves what
-- the split of the cost takes from its start (sub, grant, cash).
pub give_back-split :
    (actual refund : ℤ) (d : Deduction)
    → IsNonneg d
    → pos 0 ≤ℤ actual
    → pos 0 ≤ℤ refund
    → actual +ℤ refund ≡ sum d
    → debit d (give_back refund d) ≡ split_actual3 actual d.sub d.grant d.cash
give_back-split actual refund d v ha hr e =
    let whole = sum_parts actual refund d v ha hr e in
    let (c, g, p) = give_back_amounts refund d in
    let (p', g', c') = split_amounts actual d.sub d.grant d.cash in
    Deduction_eq (left d.sub _ _ _ _ p p' v.sub_nonneg (omega arith))
      (left d.grant _ _ _ _ g g' v.grant_nonneg (omega arith))
      (left d.cash _ _ _ _ c c' v.cash_nonneg (omega arith))

-- A split of what the pools can pay pays all of it.
pub sum-split :
    (a s g c : ℤ)
    → pos 0 ≤ℤ a
    → pos_part a ≤ pos_part s + pos_part g + pos_part c
    → sum (split_actual3 a s g c) ≡ a
sum-split a s g c h k =
    let (p, q, r) = split_amounts a s g c in rw (p, q, r) (omega (int_laws, neg_part_of_nonneg a h))

-- A split of more than the pools can pay takes all that they have, and no more.
pub sum-split_short :
    (a s g c : ℤ)
    → pos_part s + pos_part g + pos_part c ≤ pos_part a
    → sum (split_actual3 a s g c) ≡ pos (pos_part s + pos_part g + pos_part c)
sum-split_short a s g c k = let (p, q, r) = split_amounts a s g c in rw (p, q, r) (omega int_laws)

-- A split of more than a deduction pays the deduction.
pub sum-split_over :
    (a : ℤ) (d : Deduction)
    → IsNonneg d
    → sum d ≤ℤ a
    → sum (split_actual3 a d.sub d.grant d.cash) ≡ sum d
sum-split_over a d v k =
    sum-split_short a d.sub d.grant d.cash
      (omega (int_laws, v, k, parts_exclusive (sum d), parts_exclusive a))
    ∙ (omega (int_laws, v))

-- The amounts of a split are not negative.
pub split-IsNonneg : (a s g c : ℤ) → IsNonneg (split_actual3 a s g c)
split-IsNonneg a s g c =
    let (p, q, r) = split_amounts a s g c in
    record { sub_nonneg = rw p; grant_nonneg = rw q; cash_nonneg = rw r }

-- A refund of the whole deduction gives every part of it back.
pub give_back_all : (d : Deduction) → IsNonneg d → give_back (sum d) d ≡ d
give_back_all d v =
    let whole : pos_part (sum d) ≡ pos_part d.sub + pos_part d.grant + pos_part d.cash =
      omega (int_laws, v, parts_exclusive (sum d)) in
    let (c, g, p) = give_back_amounts (sum d) d in
    Deduction_eq (p ∙ amount d.sub _ v.sub_nonneg (omega arith))
      (g ∙ amount d.grant _ v.grant_nonneg (omega arith))
      (c ∙ amount d.cash _ v.cash_nonneg (omega arith))
  where
    amount : (x : ℤ) (n : ℕ) → neg_part x ≡ 0 → n ≡ pos_part x → pos n ≡ x
    amount x n h e = omega int_laws

pub credit-debit : (p : Deduction) (d : Deduction) → credit (debit p d) d ≡ p
credit-debit p d = Deduction_eq (cancel p.sub d.sub) (cancel p.grant d.grant) (cancel p.cash d.cash)
  where
    cancel : (a b : ℤ) → a -ℤ b +ℤ b ≡ a
    cancel a b = omega int_laws

pub sum_nonneg : (d : Deduction) → IsNonneg d → pos 0 ≤ℤ sum d
sum_nonneg d v = omega (int_laws, v)
