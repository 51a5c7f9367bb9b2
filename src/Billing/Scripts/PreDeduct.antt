-- ===== src/Billing/Scripts/PreDeduct.antt =====
-- What pre_deduct.lua and compensate.lua do, branch by branch.
use ainode.Prelude.{
  ◌≤◌, ◌≡◌, refl, sym, ap, ◌∙◌, inl, inr, Bool, Option-cases, ℕ, Option, none, some, String, arith,
}
use ainode.Prelude.Int.{
  ℤ, pos, negsuc, pos_part, neg_part, ◌-ℤ◌, ◌≤ℤ◌, ◌<ℤ◌, int_laws, neg_part_of_nonneg, leb_ℤ-cases,
}
use ainode.Redis.{or_zero, Redis}
use ainode.Billing.Pools.{Pools, split_actual3, debit, IsNonneg}
use ainode.Billing.Pools.Split.{sum, split_amounts, sum-split}
use ainode.Billing.Scripts.{
  counted, use_sub, use_grant, use_cash, nothing, all_cached, cached, available, pre_deduct_script,
  compensate_script, take_in_order, take_pool,
}
use ainode.Billing.Scripts.Commands.{pools}
use ainode.Billing.Scripts.Order.{eligible, take_in_order_taken, pools-take_in_order}

all_cached-pools :
    (a b c : Option ℤ) {p : Pools}
    → all_cached a b c ≡ some p
    → p ≡ record { sub = or_zero a; grant = or_zero b; cash = or_zero c }
all_cached-pools (some a) (some b) (some c) h = cc
all_cached-pools none b c h = cc
all_cached-pools (some a) none c h = cc
all_cached-pools (some a) (some b) none h = cc

pub cached-pools :
    (R : Redis) (uid : ℤ) (s : R.Store) (bal : Pools)
    → cached R uid s ≡ some bal
    → pools R uid s ≡ bal
cached-pools R uid s bal h = sym (all_cached-pools _ _ _ h)

left_nonneg :
    (x : ℤ) (enabled : Bool) (n : ℕ)
    → neg_part x ≡ 0
    → n ≤ pos_part (counted enabled x)
    → neg_part (x -ℤ pos n) ≡ 0
unfolding ◌-ℤ◌
left_nonneg x enabled n h k = ground arith

module _ (R : Redis) (uid cost : ℤ) (policy : String) (s : R.Store) where
  pub pre_deduct_script_miss :
      cached R uid s ≡ none
      → pre_deduct_script R uid cost policy s ≡ (record { status = negsuc 1; taken = nothing }, s)
  unfolding pre_deduct_script
  pre_deduct_script_miss h = ground arith

  module _ (bal : Pools) (h : cached R uid s ≡ some bal) where
    pub pre_deduct_script_short :
        available R policy bal <ℤ cost
        → pre_deduct_script R uid cost policy s ≡ (record { status = negsuc 0; taken = nothing }, s)
    unfolding pre_deduct_script
    pre_deduct_script_short k = ground arith

    pub pre_deduct_script_enough :
        cost ≤ℤ available R policy bal
        → pre_deduct_script R uid cost policy s ≡ (
            let (d, s') = take_in_order R uid policy cost bal s in
            (record { status = pos 1; taken = d }, s'))
    unfolding pre_deduct_script
    pre_deduct_script_enough k = rw (h, pre_deduct_script) (ground arith)

    -- A negative cost that the eligible pools cover takes nothing.
    pub pre_deduct_script_free :
        cost <ℤ pos 0
        → cost ≤ℤ available R policy bal
        → pre_deduct_script R uid cost policy s ≡ (record { status = pos 1; taken = nothing }, s)
    unfolding take_in_order take_pool
    pre_deduct_script_free negative k = pre_deduct_script_enough k ∙ ground arith

    -- With enough in the eligible pools, the script takes exactly the cost, from sub, grant and
    -- cash in this order, and the cached balances fall by what each pool gave.
    pub pre_deduct_script-charges :
        pos 0 ≤ℤ cost
        → cost ≤ℤ available R policy bal
        → let (r, s') = pre_deduct_script R uid cost policy s in
          let e = eligible policy bal in
          (r.status ≡ pos 1)
          × (r.taken ≡ split_actual3 cost e.sub e.grant e.cash)
          × (sum r.taken ≡ cost)
          × (pools R uid s' ≡ debit bal r.taken)
    pre_deduct_script-charges nonneg k =
        let e = eligible policy bal in
        let taken = take_in_order_taken R uid policy cost bal s in
        rw (pre_deduct_script_enough k) (
          refl,
          taken,
          ap sum taken
              ∙ sum-split cost e.sub e.grant e.cash nonneg
                  (omega (int_laws, neg_part_of_nonneg cost nonneg)),
          pools-take_in_order R uid policy cost bal s
              ∙ ap (λ p. debit p (take_in_order R uid policy cost bal s).0)
                  (sym (all_cached-pools _ _ _ h)),
        )

-- The amounts of a split of the eligible pools leave no pool below zero.
debit_split-IsNonneg :
    (policy : String) (cost : ℤ) (bal : Pools)
    → IsNonneg bal
    → (let e = eligible policy bal in
        IsNonneg (debit bal (split_actual3 cost e.sub e.grant e.cash)))
debit_split-IsNonneg policy cost bal v =
    let e = eligible policy bal in
    let (p, q, r) = split_amounts cost e.sub e.grant e.cash in
    record {
      sub_nonneg = rw p (left_nonneg bal.sub (use_sub policy) _ v.sub_nonneg (omega arith));
      grant_nonneg = rw q (left_nonneg bal.grant (use_grant policy) _ v.grant_nonneg (omega arith));
      cash_nonneg = rw r (left_nonneg bal.cash (use_cash policy) _ v.cash_nonneg (omega arith));
    }

take_in_order-IsNonneg :
    (R : Redis) (uid cost : ℤ) (policy : String) (s : R.Store)
    → IsNonneg (pools R uid s)
    → IsNonneg (pools R uid (take_in_order R uid policy cost (pools R uid s) s).1)
take_in_order-IsNonneg R uid cost policy s v =
    rw
      (
        pools-take_in_order R uid policy cost (pools R uid s) s,
        take_in_order_taken R uid policy cost (pools R uid s) s,
      )
      (debit_split-IsNonneg policy cost (pools R uid s) v)

-- Where no cached pool of the user is negative, none is after a run of pre_deduct.lua, whatever
-- the cost and the policy.
pub pre_deduct_script-IsNonneg :
    (R : Redis) (uid cost : ℤ) (policy : String) (s : R.Store)
    → IsNonneg (pools R uid s)
    → IsNonneg (pools R uid (pre_deduct_script R uid cost policy s).1)
pre_deduct_script-IsNonneg R uid cost policy s v = elim (Option-cases (cached R uid s)) [
  | inl e ↦ rw (pre_deduct_script_miss R uid cost policy s e) v
  | inr (bal, e) ↦ elim (leb_ℤ-cases cost (available R policy bal)) [
    | inr (_, k) ↦ rw (pre_deduct_script_short R uid cost policy s bal e k) v
    | inl (_, k) ↦
        rw (pre_deduct_script_enough R uid cost policy s bal e k, all_cached-pools _ _ _ e)
          (take_in_order-IsNonneg R uid cost policy s v)
  ]
]

-- compensate.lua takes what the pools still hold, at most the amount, in the order of a charge.
pub compensate_script_amounts :
    (R : Redis) (uid amount : ℤ) (policy : String) (s : R.Store)
    → pos 0 <ℤ amount
    → let (d, s') = compensate_script R uid amount policy s in
      let e = eligible policy (pools R uid s) in
      (d ≡ split_actual3 amount e.sub e.grant e.cash) × (pools R uid s' ≡ debit (pools R uid s) d)
unfolding compensate_script
compensate_script_amounts R uid amount policy s h = ground (
  arith,
  take_in_order_taken R uid policy amount (pools R uid s) s,
  pools-take_in_order R uid policy amount (pools R uid s) s,
)

-- Where no cached pool of the user is negative, none is after a run of compensate.lua, whatever
-- the amount and the policy.
pub compensate_script-IsNonneg :
    (R : Redis) (uid amount : ℤ) (policy : String) (s : R.Store)
    → IsNonneg (pools R uid s)
    → IsNonneg (pools R uid (compensate_script R uid amount policy s).1)
unfolding compensate_script
compensate_script-IsNonneg R uid amount policy s v = elim (leb_ℤ-cases amount (pos 0)) [
  | inl (e, _) ↦ rw e v
  | inr (e, _) ↦ rw e (take_in_order-IsNonneg R uid amount policy s v)
]
