-- ===== src/Gateway/Coherence.antt =====
-- Cache and database after the worker has booked the bill of a request.
use ainode.Prelude.{◌≡◌, refl, sym, ap, subst, ◌∙◌, false, some, ok}
use ainode.Prelude.Int.{ℤ, pos, ◌≤ℤ◌, IsInt64}
use ainode.Redis.{Redis}
use ainode.Billing.Pools.{IsNonneg, credit, debit}
use ainode.Billing.Pools.Split.{sum}
use ainode.Billing.Scripts.Commands.{pools}
use ainode.Billing.Request.{SettlementRequest}
use ainode.Billing.Settlement.{World, refund_log}
use ainode.Billing.Settlement.Effects.{ledger_charge}
use ainode.Db.{User, Db, find_user, balances, get_user_balances, check_billing_log_exists}
use ainode.Worker.{WorkerEnv, valid, text, handle_record_billing_log}
use ainode.Worker.Ledger.{IsCalm, handle-charges}
use ainode.Proxy.Pricing.{Floats}
use ainode.Proxy.Response.{
  ProxyContext, Outcome, refund_bill, settle_bill, ResponseEnv, ResponseState, finish_request,
}
use ainode.Proxy.Response.Once.{Ends, billed_as, finish-cases}
use ainode.Proxy.Response.Pools.{finish_request-agrees}

module _ (F : Floats) (R : Redis) (env : ResponseEnv F R) (c : ProxyContext)
    (st : ResponseState F R) where
  -- What every bill of the request carries.
  abbrev pub Carries : SettlementRequest → World R → Type 0
  Carries bill w =
      (bill.user_id ≡ c.billing.user_id)
      × (bill.request_id ≡ c.billing.request_id)
      × (bill.sub_deducted ≡ c.billing.deduction.sub)
      × (bill.grant_deducted ≡ c.billing.deduction.grant)
      × (bill.cash_deducted ≡ c.billing.deduction.cash)

  pub bill-Carries :
      (o : Outcome) (e : Ends c o)
      → Carries (billed_as F R env c st o e) (finish_request F R env c o st).world
  unfolding refund_bill settle_bill refund_log
  bill-Carries o e =
      finish-cases F R env c st Carries (refl, refl, refl, refl, refl)
        (refl, refl, refl, refl, refl) (λ u. (refl, refl, refl, refl, refl)) o e

  abbrev uid : ℤ
  uid = c.billing.user_id

  module _ (up : env.settle_env.script_fails ≡ false) (v : IsNonneg c.billing.deduction)
      (whole : c.billing.pre_deducted_cents ≡ sum c.billing.deduction)
      (range : IsInt64 c.billing.pre_deducted_cents) (sub_range : IsInt64 c.billing.deduction.sub)
      (grant_range : IsInt64 c.billing.deduction.grant)
      (cash_range : IsInt64 c.billing.deduction.cash) (o : Outcome) (e : Ends c o)
      (nonneg : pos 0 ≤ℤ (billed_as F R env c st o e).actual_cost_cents)
      (covered : (billed_as F R env c st o e).actual_cost_cents ≤ℤ c.billing.pre_deducted_cents)
      (worker : WorkerEnv) (calm : IsCalm worker) (db : Db) (u : User)
      (known : find_user c.billing.user_id db.users ≡ some u) {g k : ℤ}
      (granted : u.grant_balance ≡ some g) (paid : u.cash_balance ≡ some k)
      (new : check_billing_log_exists (text c.billing.request_id) db ≡ false) where
    abbrev bill : SettlementRequest
    bill = billed_as F R env c st o e

    -- Where the balances of the user in the database are the cached pools plus the advance
    -- deduction of the request, whose parts are non-negative int64s that add up to it (an int64),
    -- the actual cost is between 0 and the deduction, the refund script runs, the user is known
    -- with columns that are not null, the request is not in the log and no call of the worker
    -- fails: after the request is finished and the worker has booked its bill, the balances in
    -- the database are the cached pools.
    pub finish_request-coherent :
        balances u ≡ credit (pools R c.billing.user_id st.world.store) c.billing.deduction
        → (let (booked, db') =
              handle_record_billing_log worker (valid (billed_as F R env c st o e)) db in
            (booked ≡ ok tt)
            × (get_user_balances c.billing.user_id db'
                ≡ some (pools R c.billing.user_id (finish_request F R env c o st).world.store)))
    finish_request-coherent coherent =
        let (user, request, sub, grant, cash) = bill-Carries o e in
        let run =
          handle-charges worker bill db u
            (subst (λ w. find_user w db.users ≡ some u) (sym user) known) granted paid
            (record {
              sub_range = subst IsInt64 (sym sub) sub_range;
              grant_range = subst IsInt64 (sym grant) grant_range;
              cash_range = subst IsInt64 (sym cash) cash_range;
            })
            calm (subst (λ r. check_billing_log_exists (text r) db ≡ false) (sym request) new) in
        (
          run.0,
          subst
                (λ w.
                  get_user_balances w (handle_record_billing_log worker (valid bill) db).1
                  ≡ some (debit (balances u) (ledger_charge bill)))
                user run.1
              ∙ ap some (
                  ap (λ b. debit b (ledger_charge bill)) coherent
                  ∙ sym (finish_request-agrees F R env c st up v whole range o e nonneg covered)),
        )
