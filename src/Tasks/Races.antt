-- ===== src/Tasks/Races.antt =====
-- Two requests that cancel the same task at the same time.
use ainode.Prelude.{arith, ◌≡◌, sym, ap, subst, ◌∙◌, true, false}
use ainode.Prelude.Int.{pos, ◌<ℤ◌, ltb_ℤ}
use ainode.Redis.{Redis}
use ainode.Billing.Pools.{Deduction, IsNonneg, credit}
use ainode.Billing.Pools.Split.{sum}
use ainode.Billing.Scripts.Commands.{pools}
use ainode.Billing.Settlement.{refund}
use ainode.Billing.Settlement.Effects.{refund_restores}
use ainode.Tasks.{
  AsyncTask, is_terminal_task_status, TaskEnv, TaskState, cancels_upstream, cancel_read_task,
  finalize_failure, task_bill, task_deduction, sub_of,
}

-- The three parts that the row holds.
abbrev pub parts : AsyncTask → Deduction
parts t = record { sub = t.sub_deducted; grant = t.grant_deducted; cash = t.cash_deducted }

module _ (R : Redis) (t : AsyncTask) (opened : is_terminal_task_status t.status ≡ false)
    (unbilled : t.actual_cost_cents ≡ pos 0) (owed : pos 0 <ℤ t.pre_deducted_cents) where
  module _ (whole : t.pre_deducted_cents ≡ sum (parts t)) (v : IsNonneg (parts t)) where
    canceled_refund :
        (env : TaskEnv) (st : TaskState R)
        → cancels_upstream R env t ≡ true
        → env.mark_fails ≡ false
        → env.read_sub_fails ≡ false
        → env.settle_env.script_fails ≡ false
        → pools R t.user_id (cancel_read_task R env t st).1.world.store
          ≡ credit (pools R t.user_id st.world.store) (parts t)
    unfolding cancel_read_task finalize_failure task_deduction sub_of task_bill
    canceled_refund env st cancels marks reads up =
        simp (opened, cancels, marks, reads, unbilled, owes)
          (subst
            (λ a.
              pools R t.user_id
                (refund R env.settle_env t.user_id a (parts t)
                  (task_bill (record t { status = "canceled" })) st.world).store
              ≡ credit (pools R t.user_id st.world.store) (parts t))
            (sym whole)
            (refund_restores R env.settle_env t.user_id (parts t)
              (task_bill (record t { status = "canceled" })) st.world v up))
      where
        owes : ltb_ℤ (pos 0) t.pre_deducted_cents ≡ true
        owes = ground arith

    -- Two cancellations that have both read the same task, which is in no final state and has no
    -- cost, and whose positive deduction is the sum of three parts that are not negative, where
    -- the upstream agrees and the update of the row, the read of its sub part and the refund
    -- script work: both refund the deduction, so the cached pools hold what they did plus twice
    -- the deduction.
    pub cancel_twice_refunds_twice :
        (env env' : TaskEnv) (st : TaskState R)
        → cancels_upstream R env t ≡ true
        → cancels_upstream R env' t ≡ true
        → env.mark_fails ≡ false
        → env'.mark_fails ≡ false
        → env.read_sub_fails ≡ false
        → env'.read_sub_fails ≡ false
        → env.settle_env.script_fails ≡ false
        → env'.settle_env.script_fails ≡ false
        → (let (first, st₁) = cancel_read_task R env t st in
            let (second, st₂) = cancel_read_task R env' t st₁ in
            pools R t.user_id st₂.world.store
            ≡ credit (credit (pools R t.user_id st.world.store) (parts t)) (parts t))
    cancel_twice_refunds_twice env env' st c c' m m' r r' up up' =
        canceled_refund env' (cancel_read_task R env t st).1 c' m' r' up'
        ∙ ap (λ p. credit p (parts t)) (canceled_refund env st c m r up)
