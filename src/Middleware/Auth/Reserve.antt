-- ===== src/Middleware/Auth/Reserve.antt =====
-- What the authentication leaves of the cached pools.
use ainode.Prelude.{
  arith, ◌≡◌, ◌⊎◌, ◌∙◌, Bool, inl, inr, refl, sym, subst, true, false, not, ◌||◌, Option, none,
  some, String, str_eq, if◌then◌else◌, if-cases, Result, ok, err, ◌∷◌,
}
use ainode.Prelude.Int.{ℤ, pos, ◌≤ℤ◌, ◌<ℤ◌, leb_ℤ, leb_ℤ-cases, IsInt64}
use ainode.Redis.{Redis}
use ainode.Billing.Pools.{Deduction, Pools, IsNonneg, debit}
use ainode.Billing.Pools.Split.{sum, split-IsNonneg}
use ainode.Billing.Scripts.{cached, available, nothing}
use ainode.Billing.Scripts.PreDeduct.{cached-pools}
use ainode.Billing.Scripts.Commands.{pools, -ℤ_zero}
use ainode.Billing.Scripts.Order.{eligible}
use ainode.Billing.Deduct.{DeductError, default_policy, pre_deduct}
use ainode.Billing.Deduct.Outcomes.{pre_deduct-charges, pre_deduct_short, pre_deduct_free}
use ainode.Models.{Model, get_model}
use ainode.Proxy.Pricing.{Floats, apply_multiplier}
use ainode.Middleware.Auth.{
  Route, KeyRow, Refusal, ParsedRequest, AuthRequest, AuthAnswer, refused, passed_on, billed,
  Parsers, AuthEnv, AuthState, trim_prefix, has_prefix, refuse, reserve, with_model, with_request,
  with_key, route_of, read_body, estimated_cost, base_estimate, exceeds_quota, is_allowed_modality,
  auth_and_pre_deduct, billing_context,
}

-- The rounded product is an int64 of Go, whatever the amount and the multiplier.
abbrev pub ScalesInt64 : Floats → Type 0
ScalesInt64 F = (a : ℤ) (m : F.Float) (up : Bool) → IsInt64 (F.scale a m up)

-- An estimate and its deduction: the deduction adds up to a positive estimate, and nothing is
-- deducted for a negative one.
abbrev pub Covers : ℤ → Deduction → Type 0
Covers cost d = ((pos 0 <ℤ cost) × (cost ≡ sum d)) ⊎ ((cost <ℤ pos 0) × (d ≡ nothing))

module _ (F : Floats) (scales : ScalesInt64 F) where
  -- The estimate is not 0.
  estimated_cost_signed :
      (m : Model F) (q : ParsedRequest)
      → (pos 0 <ℤ estimated_cost F m q) ⊎ (estimated_cost F m q <ℤ pos 0)
  unfolding estimated_cost
  estimated_cost_signed m q = ground arith

  estimated_cost_range : (m : Model F) (q : ParsedRequest) → IsInt64 (estimated_cost F m q)
  unfolding estimated_cost apply_multiplier
  estimated_cost_range m q =
      let range = scales (base_estimate F m q) m.multiplier true in ground arith

  module _ (R : Redis) where
    module _ (env : AuthEnv F R) (k : KeyRow) (bal : Pools) (s : R.Store) where
      -- A request that is not billed finds the store as it was, and one that is billed carries a
      -- deduction of exactly its estimate, and the pools have fallen by it.
      abbrev pub Reserved : AuthAnswer × AuthState F R → Type 0
      Reserved (refused r, st) = st.store ≡ s
      Reserved (passed_on u i t, st) = st.store ≡ s
      Reserved (billed c, st) =
          (c.user_id ≡ k.id)
          × IsInt64 c.pre_deducted_cents
          × Covers c.pre_deducted_cents c.deduction
          × IsNonneg c.deduction
          × (pools R k.id st.store ≡ debit bal c.deduction)

      refuse-Reserved :
          (name code : String) (r : Refusal) (st : AuthState F R)
          → st.store ≡ s
          → Reserved (refuse F R env k name code r st)
      unfolding refuse
      refuse-Reserved name code r st h =
          if-cases Reserved (leb_ℤ k.id (pos 0) || env.log_fails) (refused r, st)
            (
              refused r,
              record st {
                failure_logs =
                    record {
                      user_id = k.id;
                      api_key_id = k.key_id;
                      model_name = name;
                      error_code = code;
                      status = r.status;
                    }
                    ∷ st.failure_logs;
              },
            )
            (λ _. h) (λ _. h)

      module _ (up : env.deduct_env.first_run_fails ≡ false)
          (hit : cached R k.id s ≡ some bal) where
        -- What PreDeduct answers, and the store that it leaves.
        abbrev Charged : ℤ → Result DeductError Deduction × R.Store → Type 0
        Charged cost (err e, s') = s' ≡ s
        Charged cost (ok d, s') = Covers cost d × IsNonneg d × (pools R k.id s' ≡ debit bal d)

        -- The sign of an estimate, which is not 0.
        abbrev IsSigned : ℤ → Type 0
        IsSigned cost = (pos 0 <ℤ cost) ⊎ (cost <ℤ pos 0)

        nothing_taken : pools R k.id s ≡ debit bal nothing
        nothing_taken =
            cached-pools R k.id s bal hit
            ∙ cc (-ℤ_zero bal.sub, -ℤ_zero bal.grant, -ℤ_zero bal.cash)

        deducts-Charged :
            (cost : ℤ) (policy : String)
            → cost ≤ℤ available R (default_policy policy) bal
            → IsSigned cost
            → Charged cost (pre_deduct R env.deduct_env k.id cost policy s)
        deducts-Charged cost policy enough (inl positive) =
            let e = eligible (default_policy policy) bal in
            let (taken, whole, after) =
              pre_deduct-charges R k.id cost policy env.deduct_env s bal up hit
                (omega (arith, positive)) enough in
            subst (Charged cost)
              (λ i. (sym taken i, (pre_deduct R env.deduct_env k.id cost policy s).1))
              (inl (positive, sym whole), split-IsNonneg cost e.sub e.grant e.cash, after)
        deducts-Charged cost policy enough (inr negative) =
            subst (Charged cost)
              (sym (pre_deduct_free R k.id cost policy env.deduct_env s bal up hit negative enough))
              (
                inr (negative, refl),
                record { sub_nonneg = refl; grant_nonneg = refl; cash_nonneg = refl },
                nothing_taken,
              )

        pre_deduct-Charged :
            (cost : ℤ) (policy : String)
            → IsSigned cost
            → Charged cost (pre_deduct R env.deduct_env k.id cost policy s)
        pre_deduct-Charged cost policy signed =
            elim (leb_ℤ-cases cost (available R (default_policy policy) bal)) [
              | inl (b, enough) ↦ deducts-Charged cost policy enough signed
              | inr (b, short) ↦
                  subst (Charged cost)
                    (sym (pre_deduct_short R k.id cost policy env.deduct_env s bal up hit short))
                    refl
            ]

        abbrev after_deduct :
            Route
            → ParsedRequest
            → ℤ
            → AuthState F R
            → Result DeductError Deduction × R.Store
            → AuthAnswer × AuthState F R
        after_deduct route q cost st (d, s') = elim d [
          | err e ↦
              refuse F R env k q.model_name "insufficient_quota"
                (record { status = 402; code = "insufficient_quota" }) (record st { store = s' })
          | ok taken ↦
              (billed (billing_context F R env k route q cost taken), record st { store = s' })
        ]

        after_deduct-Reserved :
            (route : Route) (q : ParsedRequest) (cost : ℤ) (st : AuthState F R)
            (reply : Result DeductError Deduction × R.Store)
            → IsInt64 cost
            → Charged cost reply
            → Reserved (after_deduct route q cost st reply)
        unfolding billing_context
        after_deduct-Reserved route q cost st (ok d, s') range (whole, nonneg, after) =
            (refl, range, whole, nonneg, after)
        after_deduct-Reserved route q cost st (err e, s') range h =
            refuse-Reserved q.model_name "insufficient_quota"
              (record { status = 402; code = "insufficient_quota" }) (record st { store = s' }) h

        reserve-Reserved :
            (route : Route) (q : ParsedRequest) (m : Model F) (cost : ℤ) (st : AuthState F R)
            → IsSigned cost
            → IsInt64 cost
            → st.store ≡ s
            → Reserved (reserve F R env k route q m cost st)
        unfolding reserve
        reserve-Reserved route q m cost st signed range h =
            after_deduct-Reserved route q cost st
              (pre_deduct R env.deduct_env k.id cost m.billing_policy st.store) range
              (subst (λ t. Charged cost (pre_deduct R env.deduct_env k.id cost m.billing_policy t))
                (sym h) (pre_deduct-Charged cost m.billing_policy signed))

        with_model-Reserved :
            (route : Route) (q : ParsedRequest) (m : Model F) (st : AuthState F R)
            → st.store ≡ s
            → Reserved (with_model F R env k route q m st)
        unfolding with_model
        with_model-Reserved route q m st h =
            let quota =
              if exceeds_quota F k (estimated_cost F m q)
              then refuse F R env k q.model_name "key_quota_exceeded"
                  (record { status = 402; code = "insufficient_quota" }) st
              else reserve F R env k route q m (estimated_cost F m q) st in
            if-cases Reserved (not (is_allowed_modality route m.modality))
              (refuse F R env k q.model_name "modality_mismatch"
                (record { status = 400; code = "modality_mismatch" }) st)
              quota
              (λ _.
                refuse-Reserved q.model_name "modality_mismatch"
                  (record { status = 400; code = "modality_mismatch" }) st h)
              (λ _.
                if-cases Reserved (exceeds_quota F k (estimated_cost F m q))
                  (refuse F R env k q.model_name "key_quota_exceeded"
                    (record { status = 402; code = "insufficient_quota" }) st)
                  (reserve F R env k route q m (estimated_cost F m q) st)
                  (λ _.
                    refuse-Reserved q.model_name "key_quota_exceeded"
                      (record { status = 402; code = "insufficient_quota" }) st h)
                  (λ _.
                    reserve-Reserved route q m (estimated_cost F m q) st (estimated_cost_signed m q)
                      (estimated_cost_range m q) h))

        abbrev after_lookup :
            Route → ParsedRequest → Option (Model F) → AuthState F R → AuthAnswer × AuthState F R
        after_lookup route q found st = elim found [
          | none ↦
              refuse F R env k q.model_name "unsupported_model"
                (record { status = 400; code = "unsupported_model" }) st
          | some m ↦ with_model F R env k route q m st
        ]

        after_lookup-Reserved :
            (route : Route) (q : ParsedRequest) (found : Option (Model F)) (st : AuthState F R)
            → st.store ≡ s
            → Reserved (after_lookup route q found st)
        after_lookup-Reserved route q none st h =
            refuse-Reserved q.model_name "unsupported_model"
              (record { status = 400; code = "unsupported_model" }) st h
        after_lookup-Reserved route q (some m) st h = with_model-Reserved route q m st h

        with_request-Reserved :
            (route : Route) (q : ParsedRequest) (st : AuthState F R)
            → st.store ≡ s
            → Reserved (with_request F R env k route q st)
        unfolding with_request
        with_request-Reserved route q st h =
            let (found, models) = get_model F (env.model_row q.model_name) q.model_name st.models in
            if-cases Reserved (str_eq q.model_name "")
              (refused (record { status = 400; code = "model_required" }), st)
              (after_lookup route q found (record st { models = models })) (λ _. h)
              (λ _. after_lookup-Reserved route q found (record st { models = models }) h)

        with_body-Reserved :
            (route : Route) (b : Result Refusal ParsedRequest) (st : AuthState F R)
            → st.store ≡ s
            → Reserved
                (elim b [ err e ↦ (refused e, st) | ok q ↦ with_request F R env k route q st ])
        with_body-Reserved route (err e) st h = h
        with_body-Reserved route (ok q) st h = with_request-Reserved route q st h

        with_key-Reserved :
            (P : Parsers) (r : AuthRequest) (route : Option Route) (st : AuthState F R)
            → st.store ≡ s
            → Reserved (with_key F R env P r k route st)
        with_key-Reserved P r none st h = h
        with_key-Reserved P r (some route) st h =
            with_body-Reserved route (read_body P route r.body) st h

        -- For a request with a known key whose user has the three balances cached, where the
        -- script runs and every rounded product is an int64: if it is refused or not billed, the
        -- store is as it was; if it is billed, its context carries the user of the key, an int64
        -- estimate that is not 0, and a deduction with no negative part, which adds up to a
        -- positive estimate and is nothing for a negative one, and the cached pools have fallen
        -- by that deduction.
        pub auth_and_pre_deduct-Reserved :
            (P : Parsers) (r : AuthRequest) (st : AuthState F R)
            → env.user_by_key (trim_prefix r.authorization "Bearer ") ≡ some k
            → st.store ≡ s
            → Reserved (auth_and_pre_deduct F R env P r st)
        unfolding auth_and_pre_deduct
        auth_and_pre_deduct-Reserved P r st known h = rw (known) (
            if-cases Reserved (not (has_prefix r.authorization "Bearer "))
              (refused (record { status = 401; code = "invalid_api_key" }), st)
              (with_key F R env P r k (route_of r.path) st) (λ _. h)
              (λ _. with_key-Reserved P r (route_of r.path) st h))
