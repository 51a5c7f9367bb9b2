-- ===== src/Proxy/Response/Pools.antt =====
-- The cached pools at the end of a billed request.
use ainode.Prelude.{◌≡◌, sym, ap, subst, ◌∙◌, false, Option}
use ainode.Prelude.Int.{ℤ, pos, ◌≤ℤ◌, IsInt64, int_laws}
use ainode.Redis.{Redis}
use ainode.Billing.Pools.{Deduction, Pools, IsNonneg, split_actual3, credit, debit}
use ainode.Billing.Pools.Split.{sum, Deduction_eq, split_amounts}
use ainode.Billing.Scripts.Commands.{pools}
use ainode.Billing.Request.{SettlementRequest}
use ainode.Billing.Settlement.{World, refund, refund_log, settle, settle_store}
use ainode.Billing.Settlement.Effects.{
  ledger_charge, deliver_store, settle_store-agrees, refund_restores,
}
use ainode.Models.{Model, get_model}
use ainode.Proxy.Pricing.{Floats, UsageTokens}
use ainode.Proxy.Response.{
  ProxyContext, Outcome, model_name_of, outside_transport, refund_bill, settle_bill, actual_cost_of,
  ResponseEnv, ResponseState, finish_request,
}
use ainode.Proxy.Response.Once.{Ends, consumed, billed_as, finish-cases}

debit_nothing : (p d : Deduction) → debit p (split_actual3 (pos 0) d.sub d.grant d.cash) ≡ p
debit_nothing p d =
    let (s, g, c) = split_amounts (pos 0) d.sub d.grant d.cash in
    Deduction_eq (rw s (omega int_laws)) (rw g (omega int_laws)) (rw c (omega int_laws))

module _ (F : Floats) (R : Redis) where
  module _ (env : ResponseEnv F R) (c : ProxyContext) (st : ResponseState F R)
      (up : env.settle_env.script_fails ≡ false) (v : IsNonneg c.billing.deduction)
      (whole : c.billing.pre_deducted_cents ≡ sum c.billing.deduction)
      (range : IsInt64 c.billing.pre_deducted_cents) where
    abbrev uid : ℤ
    uid = c.billing.user_id

    abbrev before : Pools
    before = pools R uid st.world.store

    -- The pools hold what they did, plus the deduction, less what the ledger takes for the bill.
    abbrev Agrees : SettlementRequest → World R → Type 0
    Agrees bill w' =
        pools R uid w'.store ≡ debit (credit before c.billing.deduction) (ledger_charge bill)

    refund-Agrees :
        (x : SettlementRequest)
        → Agrees (refund_log R x c.billing.pre_deducted_cents c.billing.deduction) (
            refund R env.settle_env c.billing.user_id c.billing.pre_deducted_cents
              c.billing.deduction x st.world)
    unfolding refund_log
    refund-Agrees x =
        subst
          (λ a.
            pools R uid (refund R env.settle_env uid a c.billing.deduction x st.world).store
            ≡ credit before c.billing.deduction)
          (sym whole) (refund_restores R env.settle_env uid c.billing.deduction x st.world v up)
        ∙ sym (debit_nothing (credit before c.billing.deduction) c.billing.deduction)

    settle-Agrees :
        (m : Option (Model F)) (u : UsageTokens)
        → pos 0 ≤ℤ actual_cost_of F c m u
        → actual_cost_of F c m u ≤ℤ c.billing.pre_deducted_cents
        → Agrees (consumed F R c m u) (settle R env.settle_env (consumed F R c m u) st.world).1
    unfolding settle settle_bill
    settle-Agrees m u nonneg covered =
        ap (pools R uid) (
          deliver_store R env.settle_env (consumed F R c m u) (record st.world {
            store = settle_store R env.settle_env (consumed F R c m u) st.world.store;
          }))
        ∙ settle_store-agrees R env.settle_env (consumed F R c m u) st.world.store v whole range up
            nonneg covered

    abbrev Covered : SettlementRequest → World R → Type 0
    Covered bill w' =
        pos 0 ≤ℤ bill.actual_cost_cents
        → bill.actual_cost_cents ≤ℤ c.billing.pre_deducted_cents
        → Agrees bill w'

    -- Where the parts of the advance deduction are not negative and add up to it, it is an int64,
    -- the scripts run, a stream is read to its one end, and the cost on the bill is between 0 and
    -- the deduction: a finished request leaves the cached pools where they were, plus the
    -- deduction, less what the ledger takes for its bill.
    pub finish_request-agrees :
        (o : Outcome) (e : Ends c o)
        → pos 0 ≤ℤ (billed_as F R env c st o e).actual_cost_cents
        → (billed_as F R env c st o e).actual_cost_cents ≤ℤ c.billing.pre_deducted_cents
        → pools R c.billing.user_id (finish_request F R env c o st).world.store
          ≡ debit
              (credit (pools R c.billing.user_id st.world.store) c.billing.deduction)
              (ledger_charge (billed_as F R env c st o e))
    unfolding settle_bill
    finish_request-agrees o e =
        finish-cases F R env c st Covered (λ _ _. refund-Agrees (refund_bill (outside_transport c)))
          (λ _ _. refund-Agrees (refund_bill c))
          (λ u. settle-Agrees (get_model F env.model_row (model_name_of c) st.models).0 u) o e
