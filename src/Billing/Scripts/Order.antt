-- ===== src/Billing/Scripts/Order.antt =====
-- The effect of the scripts on a user's three pools, and on every other key.
use ainode.Prelude.{◌≡◌, ◌≢◌, String, arith, sym, inl, inr}
use ainode.Prelude.Int.{ℤ, pos, leb_ℤ-cases, ◌≤ℤ◌, ◌<ℤ◌}
use ainode.Redis.{Key, sub_balance, grant_balance, cash_balance, Redis}
use ainode.Billing.Pools.{Deduction, Pools, take, split_actual3, debit, credit, give_back}
use ainode.Billing.Scripts.{
  nothing, counted, use_sub, use_grant, use_cash, take_pool, take_in_order, give_pool,
  refund_script,
}
use ainode.Billing.Scripts.Commands.{
  pools, -ℤ_zero, +ℤ_zero, take_pool_amounts, balance-take_pool, take_pool_frame, give_pool_rem,
  balance-give_pool, give_pool_frame,
}

-- The pools that a policy lets a charge draw on; the others count as empty.
abbrev pub eligible : String → Pools → Pools
eligible policy bal = record {
  sub = counted (use_sub policy) bal.sub;
  grant = counted (use_grant policy) bal.grant;
  cash = counted (use_cash policy) bal.cash;
}

take_nonpos : (rem cap : ℤ) → rem ≤ℤ pos 0 → take rem cap ≡ pos 0
unfolding take
take_nonpos rem cap h = ground arith

pub give_back_of_nonpos : (amt : ℤ) (d : Deduction) → amt ≤ℤ pos 0 → give_back amt d ≡ nothing
unfolding give_back
give_back_of_nonpos amt d h = rw (
  take_nonpos amt d.cash h,
  -ℤ_zero amt,
  take_nonpos amt d.grant h,
  -ℤ_zero amt,
  take_nonpos amt d.sub h,
)

pub credit-nothing : (p : Pools) → credit p nothing ≡ p
credit-nothing p = cc (+ℤ_zero p.sub, +ℤ_zero p.grant, +ℤ_zero p.cash)

-- The key belongs to none of the three pools of the user.
abbrev pub IsForeign : ℤ → Key → Type 0
IsForeign uid j = (j ≢ sub_balance uid) × (j ≢ grant_balance uid) × (j ≢ cash_balance uid)

module _ (R : Redis) (uid : ℤ) where
  open R use {Store, get}

  module _ (policy : String) (cost : ℤ) (bal : Pools) (s : Store) where
    abbrev sub_step : ℤ × ℤ × Store
    sub_step = take_pool R (sub_balance uid) bal.sub (use_sub policy) cost s

    abbrev grant_step : ℤ × ℤ × Store
    grant_step = take_pool R (grant_balance uid) bal.grant (use_grant policy) sub_step.1 sub_step.2

    abbrev cash_step : ℤ × ℤ × Store
    cash_step = take_pool R (cash_balance uid) bal.cash (use_cash policy) grant_step.1 grant_step.2

    sub_frame : (j : Key) → j ≢ sub_balance uid → get j sub_step.2 ≡ get j s
    sub_frame = take_pool_frame R (sub_balance uid) bal.sub (use_sub policy) cost s

    grant_frame : (j : Key) → j ≢ grant_balance uid → get j grant_step.2 ≡ get j sub_step.2
    grant_frame =
        take_pool_frame R (grant_balance uid) bal.grant (use_grant policy) sub_step.1 sub_step.2

    cash_frame : (j : Key) → j ≢ cash_balance uid → get j cash_step.2 ≡ get j grant_step.2
    cash_frame =
        take_pool_frame R (cash_balance uid) bal.cash (use_cash policy) grant_step.1 grant_step.2

    pub take_in_order_taken :
        (take_in_order R uid policy cost bal s).0
        ≡ (let e = eligible policy bal in split_actual3 cost e.sub e.grant e.cash)
    unfolding take_in_order split_actual3
    take_in_order_taken = ground (
      arith,
      take_pool_amounts R (sub_balance uid) bal.sub (use_sub policy) cost s,
      take_pool_amounts R (grant_balance uid) bal.grant (use_grant policy) sub_step.1 sub_step.2,
      take_pool_amounts R (cash_balance uid) bal.cash (use_cash policy) grant_step.1 grant_step.2,
    )

    -- Each balance falls by what was taken of it, and by nothing else.
    pub pools-take_in_order :
        pools R uid (take_in_order R uid policy cost bal s).1
        ≡ debit (pools R uid s) (take_in_order R uid policy cost bal s).0
    unfolding take_in_order
    pools-take_in_order = ground (
      arith,
      take_pool_amounts R (sub_balance uid) bal.sub (use_sub policy) cost s,
      take_pool_amounts R (grant_balance uid) bal.grant (use_grant policy) sub_step.1 sub_step.2,
      take_pool_amounts R (cash_balance uid) bal.cash (use_cash policy) grant_step.1 grant_step.2,
      balance-take_pool R (sub_balance uid) bal.sub (use_sub policy) cost s,
      balance-take_pool R (grant_balance uid) bal.grant (use_grant policy) sub_step.1 sub_step.2,
      balance-take_pool R (cash_balance uid) bal.cash (use_cash policy) grant_step.1 grant_step.2,
      sub_frame (grant_balance uid) (λ e. cc),
      sub_frame (cash_balance uid) (λ e. cc),
      grant_frame (sub_balance uid) (λ e. cc),
      grant_frame (cash_balance uid) (λ e. cc),
      cash_frame (sub_balance uid) (λ e. cc),
      cash_frame (grant_balance uid) (λ e. cc),
    )

    pub take_in_order_frame :
        (j : Key) → IsForeign uid j → get j (take_in_order R uid policy cost bal s).1 ≡ get j s
    unfolding take_in_order
    take_in_order_frame j h = cc (sub_frame j h.0, grant_frame j h.1, cash_frame j h.2)

  module _ (amt : ℤ) (d : Deduction) (s : Store) where
    abbrev give_cash : ℤ × Store
    give_cash = give_pool R (cash_balance uid) d.cash amt s

    abbrev give_grant : ℤ × Store
    give_grant = give_pool R (grant_balance uid) d.grant give_cash.0 give_cash.1

    pub refund_none : amt ≤ℤ pos 0 → refund_script R uid amt d s ≡ s
    unfolding refund_script
    refund_none h = ground arith

    refund_some :
        pos 0 <ℤ amt
        → pools R uid (refund_script R uid amt d s) ≡ credit (pools R uid s) (give_back amt d)
    unfolding refund_script give_back
    refund_some h = ground (
      arith,
      give_pool_rem R (cash_balance uid) d.cash amt s,
      give_pool_rem R (grant_balance uid) d.grant give_cash.0 give_cash.1,
      balance-give_pool R (cash_balance uid) d.cash amt s,
      balance-give_pool R (grant_balance uid) d.grant give_cash.0 give_cash.1,
      balance-give_pool R (sub_balance uid) d.sub give_grant.0 give_grant.1,
      give_pool_frame R (cash_balance uid) d.cash amt s (sub_balance uid) (λ e. cc),
      give_pool_frame R (cash_balance uid) d.cash amt s (grant_balance uid) (λ e. cc),
      give_pool_frame R (grant_balance uid) d.grant give_cash.0 give_cash.1 (sub_balance uid)
          (λ e. cc),
      give_pool_frame R (grant_balance uid) d.grant give_cash.0 give_cash.1 (cash_balance uid)
          (λ e. cc),
      give_pool_frame R (sub_balance uid) d.sub give_grant.0 give_grant.1 (grant_balance uid)
          (λ e. cc),
      give_pool_frame R (sub_balance uid) d.sub give_grant.0 give_grant.1 (cash_balance uid)
          (λ e. cc),
    )

    -- Each balance rises by what the refund gives back of it, and by nothing else.
    pub pools-refund_script :
        pools R uid (refund_script R uid amt d s) ≡ credit (pools R uid s) (give_back amt d)
    pools-refund_script = elim (leb_ℤ-cases amt (pos 0)) [
      | inl (_, h) ↦
          rw (refund_none h, give_back_of_nonpos amt d h) (sym (credit-nothing (pools R uid s)))
      | inr (_, h) ↦ refund_some h
    ]

    pub refund_script_frame :
        (j : Key) → IsForeign uid j → get j (refund_script R uid amt d s) ≡ get j s
    unfolding refund_script
    refund_script_frame j h = ground (
      arith,
      give_pool_frame R (cash_balance uid) d.cash amt s j h.2,
      give_pool_frame R (grant_balance uid) d.grant give_cash.0 give_cash.1 j h.1,
      give_pool_frame R (sub_balance uid) d.sub give_grant.0 give_grant.1 j h.0,
    )
