-- ===== src/Gateway/Ends.antt =====
-- The cached pools when the gateway is done with a request.
use ainode.Prelude.{List, ◌≡◌, ◌⊎◌, inl, inr, refl, ap, subst, ◌∙◌, false, some, ◌++◌, [], ◌∷◌}
use ainode.Prelude.Int.{pos, ◌<ℤ◌, leb_ℤ-cases, ltb_ℤ-cases, IsInt64}
use ainode.Redis.{Redis}
use ainode.Billing.Pools.{Pools, IsNonneg, credit, debit}
use ainode.Billing.Pools.Split.{sum, credit-debit}
use ainode.Billing.Scripts.{cached}
use ainode.Billing.Scripts.Commands.{pools}
use ainode.Billing.Scripts.PreDeduct.{cached-pools}
use ainode.Billing.Request.{SettlementRequest}
use ainode.Billing.Settlement.{World}
use ainode.Billing.Settlement.Effects.{ledger_charge}
use ainode.Middleware.Auth.{
  KeyRow, BillingContext, AuthRequest, AuthAnswer, refused, passed_on, billed, Parsers, trim_prefix,
  AuthState, auth_and_pre_deduct,
}
use ainode.Middleware.Auth.Reserve.{ScalesInt64, Covers, Reserved, auth_and_pre_deduct-Reserved}
use ainode.Middleware.RateLimit.{Verdict, served, rpm_and_tpm_middleware}
use ainode.Middleware.RateLimit.Refunds.{
  Refunds, refund-Refunds, free-Refunds, Settled, checks-Settled,
}
use ainode.Middleware.Concurrency.{model_concurrency_middleware}
use ainode.Middleware.Concurrency.Frame.{AfterLimit, concurrency-After}
use ainode.Proxy.Pricing.{Floats}
use ainode.Proxy.Response.{Outcome, finish_request}
use ainode.Proxy.Response.Once.{Ends, billed_as, finish_request-once}
use ainode.Proxy.Response.Pools.{finish_request-agrees}
use ainode.Gateway.Coherence.{bill-Carries}
use ainode.Gateway.{
  GatewayAnswer, turned_away, forwarded, limited, finished, GatewayEnv, GatewayState, auth_state,
  after_auth, proxied, after_slots, after_limits, after_answer, limited_request, proxy_context,
  serve_request,
}

module _ (F : Floats) (scales : ScalesInt64 F) (R : Redis) (env : GatewayEnv F R) (k : KeyRow)
    (bal : Pools) (o : Outcome) (ends : (c : BillingContext) → Ends (proxy_context env.chosen c) o)
    (script_runs : env.auth.deduct_env.first_run_fails ≡ false)
    (limit_refunds : env.limits.refund_env.script_fails ≡ false)
    (proxy_refunds : env.response.settle_env.script_fails ≡ false)
    (queue_takes : env.response.settle_env.enqueue_fails ≡ false) where
  -- The last bill that was sent is the request's, and the pools have fallen by what the ledger
  -- takes for it, or it is of a cost that the deduction does not cover.
  abbrev pub Billed : BillingContext → World R → Type 0
  Billed c w =
      (bill : SettlementRequest) × (earlier : List SettlementRequest) × (w.sent
        ≡ earlier ++ bill ∷ [])
      × (bill.request_id ≡ c.request_id)
      × ((pools R k.id w.store ≡ debit bal (ledger_charge bill))
          ⊎ (bill.actual_cost_cents <ℤ pos 0)
          ⊎ (c.pre_deducted_cents <ℤ bill.actual_cost_cents))

  -- A request with an estimate that is not negative is billed.
  abbrev pub Finished : BillingContext → World R → Type 0
  Finished c w = Billed c w ⊎ (c.pre_deducted_cents <ℤ pos 0)

  Finished-stable :
      (c : BillingContext) (w : World R) (s : R.Store)
      → pools R k.id s ≡ pools R k.id w.store
      → Finished c w
      → Finished c (record w { store = s })
  Finished-stable c w s same (inl (bill, earlier, sent, own, inl fell)) =
      inl (bill, earlier, sent, own, inl (same ∙ fell))
  Finished-stable c w s same (inl (bill, earlier, sent, own, inr above)) =
      inl (bill, earlier, sent, own, inr above)
  Finished-stable c w s same (inr negative) = inr negative

  -- A request that is not finished leaves the pools as they were.
  abbrev pub Settles : GatewayAnswer × GatewayState F R → Type 0
  Settles (finished c, st) = Finished c st.proxy.world
  Settles (turned_away r, st) = pools R k.id st.proxy.world.store ≡ bal
  Settles (forwarded, st) = pools R k.id st.proxy.world.store ≡ bal
  Settles (limited reason, st) = pools R k.id st.proxy.world.store ≡ bal

  module _ (c : BillingContext) (same : c.user_id ≡ k.id) (range : IsInt64 c.pre_deducted_cents)
      (v : IsNonneg c.deduction) where
    finished-Billed :
        (st : GatewayState F R) (w : World R)
        → pos 0 <ℤ c.pre_deducted_cents
        → c.pre_deducted_cents ≡ sum c.deduction
        → pools R k.id w.store ≡ debit bal c.deduction
        → Billed c (proxied F R env c o st w).world
    unfolding proxy_context
    finished-Billed st w positive whole h =
        let p = proxy_context env.chosen c in
        let start = record st.proxy { world = w } in
        let bill = billed_as F R env.response p start o (ends c) in
        let sent = finish_request-once F R env.response p start o (ends c) positive queue_takes in
        (
          bill,
          w.sent,
          sent.0,
          (bill-Carries F R env.response p start o (ends c)).1,
          elim (ltb_ℤ-cases bill.actual_cost_cents (pos 0)) [
            | inl (b, less) ↦ inr (inl less)
            | inr (b, nonneg) ↦ elim (leb_ℤ-cases bill.actual_cost_cents c.pre_deducted_cents) [
              | inr (b', more) ↦ inr (inr more)
              | inl (b', covered) ↦ inl (
                  subst
                    (λ u.
                      pools R u (finish_request F R env.response p o start).world.store
                      ≡ debit (credit (pools R u w.store) c.deduction) (ledger_charge bill))
                    same
                    (finish_request-agrees F R env.response p start proxy_refunds v whole range o
                      (ends c) nonneg covered)
                  ∙ ap (λ x. debit x (ledger_charge bill))
                      (ap (λ x. credit x c.deduction) h ∙ credit-debit bal c.deduction))
            ]
          ],
        )

    proxied-Finished :
        (st : GatewayState F R) (w : World R)
        → Covers c.pre_deducted_cents c.deduction
        → pools R k.id w.store ≡ debit bal c.deduction
        → Finished c (proxied F R env c o st w).world
    proxied-Finished st w (inl (positive, whole)) h = inl (finished-Billed st w positive whole h)
    proxied-Finished st w (inr (negative, none_taken)) h = inr negative

    limited-Refunds :
        Covers c.pre_deducted_cents c.deduction
        → Refunds R env.limits.refund_env k.id (limited_request c)
    unfolding limited_request
    limited-Refunds (inl (positive, whole)) =
        refund-Refunds R env.limits.refund_env k.id (limited_request c) v whole limit_refunds
    limited-Refunds (inr (negative, none_taken)) =
        free-Refunds R env.limits.refund_env k.id (limited_request c) negative none_taken

    -- The next handlers of the rate limits.
    abbrev next : GatewayState F R → World R → Verdict × World R
    next st w = (served, (proxied F R env c o st w).world)

    slots-Settles :
        (st : GatewayState F R) (w : World R) (answer : Verdict × World R)
        → AfterLimit R k.id c.deduction (debit bal c.deduction) (Finished c) answer
        → Settles (after_slots F R env c o st w answer)
    slots-Settles st w (served, w') h = h
    slots-Settles st w (Verdict.refused reason, w') h = h ∙ credit-debit bal c.deduction

    after_limits-Settles :
        (st : GatewayState F R) (answer : Verdict × World R)
        → Covers c.pre_deducted_cents c.deduction
        → Settled R k.id c.deduction (debit bal c.deduction) answer
        → Settles (after_limits F R env c o st answer)
    unfolding limited_request
    after_limits-Settles st (served, w) covers h =
        slots-Settles st w
          (model_concurrency_middleware R env.limits.refund_env env.slots env.max_concurrency
            (limited_request c) (next st) w)
          (concurrency-After R env.limits k.id (limited_request c) (limited-Refunds covers)
            (debit bal c.deduction) (Finished c) (Finished-stable c) (next st)
            (λ w'. proxied-Finished st w' covers) env.slots env.max_concurrency w (ap some same) h)
    after_limits-Settles st (Verdict.refused reason, w) covers h = h ∙ credit-debit bal c.deduction

    limits-Settled :
        (w : World R)
        → Covers c.pre_deducted_cents c.deduction
        → pools R k.id w.store ≡ debit bal c.deduction
        → Settled R k.id c.deduction
            (debit bal c.deduction)
            (rpm_and_tpm_middleware R env.config env.limits (limited_request c) w)
    unfolding limited_request
    limits-Settled w covers h =
        subst
          (λ p.
            Settled R k.id c.deduction p
              (rpm_and_tpm_middleware R env.config env.limits (limited_request c) w))
          h
          (checks-Settled R env.limits k.id (limited_request c) (limited-Refunds covers) env.config
            w (ap some same))

  module _ (st : GatewayState F R) (hit : cached R k.id st.proxy.world.store ≡ some bal) where
    after_answer-Settles :
        (answer : AuthAnswer) (a : AuthState F R)
        → Reserved F scales R env.auth k bal st.proxy.world.store (answer, a)
        → Settles (after_answer F R env o answer (after_auth F R st a))
    after_answer-Settles (refused r) a h =
        ap (pools R k.id) h ∙ cached-pools R k.id st.proxy.world.store bal hit
    after_answer-Settles (passed_on u i t) a h =
        ap (pools R k.id) h ∙ cached-pools R k.id st.proxy.world.store bal hit
    after_answer-Settles (billed c) a (same, range, covers, v, after) =
        after_limits-Settles c same range v (after_auth F R st a)
          (rpm_and_tpm_middleware R env.config env.limits (limited_request c)
            (after_auth F R st a).proxy.world)
          covers (limits-Settled c same range v (after_auth F R st a).proxy.world covers after)

    -- For a request with a known key whose user has the three balances cached, where the script
    -- of the advance deduction, those of the refunds and the queue work, every rounded product is
    -- an int64, and a stream is read to its one end: if the request is refused, passed on without
    -- billing or stopped by a limit on the rate or on the concurrency, the cached pools are as
    -- they were; if it is finished and its estimate is not negative, the last bill that was sent
    -- carries its request id, and the pools have fallen by what the ledger takes for that bill,
    -- unless its cost is negative or above the deduction.
    pub serve_request-Settles :
        (P : Parsers) (r : AuthRequest)
        → env.auth.user_by_key (trim_prefix r.authorization "Bearer ") ≡ some k
        → Settles (serve_request F R env P r o st)
    unfolding serve_request
    serve_request-Settles P r known =
        let (answer, a) = auth_and_pre_deduct F R env.auth P r (auth_state F R st) in
        after_answer-Settles answer a (
          auth_and_pre_deduct-Reserved F scales R env.auth k bal st.proxy.world.store script_runs
            hit P r (auth_state F R st) known refl)
