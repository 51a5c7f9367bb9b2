-- ===== src/Billing/Settlement/Effects.antt =====
-- What a settlement and a refund do to the cached pools, and where their bills end.
use ainode.Prelude.{◌≡◌, sym, ap, ◌∙◌, false, arith}
use ainode.Prelude.Int.{
  ℤ, pos, ◌+ℤ◌, ◌-ℤ◌, ◌≤ℤ◌, ◌<ℤ◌, int64, IsInt64, int64_of_IsInt64, int_laws, sub-IsInt64,
  sub_nonneg, add_sub_self, diff_IsInt64, sub_pos, sub_neg,
}
use ainode.Redis.{Redis}
use ainode.Billing.Pools.{Deduction, Pools, split_actual3, debit, credit, IsNonneg}
use ainode.Billing.Pools.Split.{
  sum, give_back-split, give_back_all, sum_nonneg, sum-split_over, Deduction_eq,
}
use ainode.Billing.Scripts.{refund_script, compensate_script}
use ainode.Billing.Scripts.Commands.{pools}
use ainode.Billing.Scripts.Order.{eligible, pools-refund_script, refund_none}
use ainode.Billing.Scripts.PreDeduct.{compensate_script_amounts}
use ainode.Billing.Request.{SettlementRequest}
use ainode.Billing.Settlement.{
  SettleEnv, policy_or_all, World, settle_store, deliver, refund, refund_log,
}

-- The amounts that the request says were deducted, and the split of its actual cost over them,
-- which is what the billing worker takes from the database.
abbrev pub deducted : SettlementRequest → Deduction
deducted req = record {
  sub = req.sub_deducted;
  grant = req.grant_deducted;
  cash = req.cash_deducted;
}

abbrev pub ledger_charge : SettlementRequest → Deduction
ledger_charge req =
    split_actual3 req.actual_cost_cents req.sub_deducted req.grant_deducted req.cash_deducted

regroup : (p d r k : ℤ) → d -ℤ r ≡ k → p +ℤ r ≡ p +ℤ d -ℤ k
regroup p d r k e = rw (← e) (omega int_laws)

credit_regroup : (p : Pools) (d r k : Deduction) → debit d r ≡ k → credit p r ≡ debit (credit p d) k
credit_regroup p d r k e =
    Deduction_eq (regroup p.sub d.sub r.sub k.sub (ap (λ (x : Deduction). x.sub) e))
      (regroup p.grant d.grant r.grant k.grant (ap (λ (x : Deduction). x.grant) e))
      (regroup p.cash d.cash r.cash k.cash (ap (λ (x : Deduction). x.cash) e))

module _ (R : Redis) where
  module _ (env : SettleEnv) (req : SettlementRequest) (s : R.Store) where
    settle_store_gives :
        env.script_fails ≡ false
        → pos 0 ≤ℤ int64 (req.pre_deducted_cents -ℤ req.actual_cost_cents)
        → settle_store R env req s
          ≡ refund_script R req.user_id
              (int64 (req.pre_deducted_cents -ℤ req.actual_cost_cents))
              (deducted req)
              s
    unfolding settle_store
    settle_store_gives up nonneg = ground (
      arith,
      refund_none R req.user_id (int64 (req.pre_deducted_cents -ℤ req.actual_cost_cents))
          (deducted req) s,
    )

    settle_store_takes :
        env.script_fails ≡ false
        → int64 (req.pre_deducted_cents -ℤ req.actual_cost_cents) <ℤ pos 0
        → settle_store R env req s
          ≡ (compensate_script R req.user_id
              (int64 (pos 0 -ℤ int64 (req.pre_deducted_cents -ℤ req.actual_cost_cents)))
              (policy_or_all env.has_queries env.model_policy)
              s).1
    unfolding settle_store
    settle_store_takes up neg = ground arith

    -- The request carries a consistent deduction: amounts that are not negative, whose sum is the
    -- amount deducted in advance, in the range of an int64.
    module _ (v : IsNonneg (deducted req)) (whole : req.pre_deducted_cents ≡ sum (deducted req))
        (range : IsInt64 req.pre_deducted_cents) where
      -- Where the three parts of the advance deduction are not negative and add up to it, the
      -- deduction is an int64, the refund script runs, and the actual cost is not negative and is
      -- covered by the deduction: a settlement leaves the cached pools where they were, plus the
      -- deduction, less the amounts that the worker takes from the database for this request. So
      -- cache and ledger agree, pool by pool.
      pub settle_store-agrees :
          env.script_fails ≡ false
          → pos 0 ≤ℤ req.actual_cost_cents
          → req.actual_cost_cents ≤ℤ req.pre_deducted_cents
          → pools R req.user_id (settle_store R env req s)
            ≡ debit (credit (pools R req.user_id s) (deducted req)) (ledger_charge req)
      settle_store-agrees up nonneg covered =
          let diff = req.pre_deducted_cents -ℤ req.actual_cost_cents in
          let pos_diff : pos 0 ≤ℤ diff =
            sub_nonneg req.pre_deducted_cents req.actual_cost_cents covered in
          let small : int64 diff ≡ diff =
            int64_of_IsInt64 diff (sub-IsInt64 req.pre_deducted_cents _ range nonneg covered) in
          rw
            (
              settle_store_gives up (rw small pos_diff),
              pools-refund_script R req.user_id (int64 diff) (deducted req) s,
            )
            (credit_regroup (pools R req.user_id s) (deducted req) _ (ledger_charge req) (
              rw small (
                give_back-split req.actual_cost_cents diff (deducted req) v nonneg pos_diff
                  (add_sub_self req.pre_deducted_cents req.actual_cost_cents ∙ whole))))

    -- Where the parts of the advance deduction are not negative and add up to it, the script
    -- runs, and the actual cost is an int64 above the deduction: a settlement takes the rest from
    -- the eligible cached pools, as far as they reach, while the amounts that the worker takes
    -- from the database for this request add up to the advance deduction only.
    pub settle_store_overrun :
        IsNonneg (deducted req)
        → req.pre_deducted_cents ≡ sum (deducted req)
        → IsInt64 req.actual_cost_cents
        → env.script_fails ≡ false
        → req.pre_deducted_cents <ℤ req.actual_cost_cents
        → let owed = req.actual_cost_cents -ℤ req.pre_deducted_cents in
          let e =
            eligible (policy_or_all env.has_queries env.model_policy) (pools R req.user_id s) in
          (pools R req.user_id (settle_store R env req s)
            ≡ debit (pools R req.user_id s) (split_actual3 owed e.sub e.grant e.cash))
          × (sum (ledger_charge req) ≡ req.pre_deducted_cents)
    settle_store_overrun v whole range up over =
        let pre = req.pre_deducted_cents in
        let nonneg : pos 0 ≤ℤ pre = rw whole (sum_nonneg (deducted req) v) in
        let (small, owed) = diff_IsInt64 pre req.actual_cost_cents range nonneg over in
        let policy = policy_or_all env.has_queries env.model_policy in
        let taken =
          compensate_script_amounts R req.user_id (req.actual_cost_cents -ℤ pre) policy s
            (sub_pos req.actual_cost_cents pre over) in
        (
          rw (settle_store_takes up (rw small (sub_neg pre req.actual_cost_cents over)), owed)
              (taken.1 ∙ ap (debit (pools R req.user_id s)) taken.0),
          sum-split_over req.actual_cost_cents (deducted req) v (rw (← whole) (omega arith))
              ∙ sym whole,
        )

  pub deliver_store :
      (env : SettleEnv) (req : SettlementRequest) (w : World R)
      → (deliver R env req w).1.store ≡ w.store
  unfolding deliver
  deliver_store env req w = ground arith

  module _ (env : SettleEnv) (uid : ℤ) (d : Deduction) (log_req : SettlementRequest)
      (w : World R) where
    refund_store :
        (amount : ℤ)
        → env.script_fails ≡ false
        → (refund R env uid amount d log_req w).store ≡ refund_script R uid amount d w.store
    unfolding refund
    refund_store amount up = ground (
      arith,
      refund_none R uid amount d w.store,
      deliver_store env (refund_log R log_req amount d)
          (record w { store = refund_script R uid amount d w.store }),
    )

    -- Where no part of a deduction is negative and the script runs, the cached pools hold after a
    -- refund of the whole deduction what they did, plus the deduction.
    pub refund_restores :
        IsNonneg d
        → env.script_fails ≡ false
        → pools R uid (refund R env uid (sum d) d log_req w).store ≡ credit (pools R uid w.store) d
    refund_restores v up =
        ap (pools R uid) (refund_store (sum d) up)
        ∙ pools-refund_script R uid (sum d) d w.store
        ∙ ap (credit (pools R uid w.store)) (give_back_all d v)
