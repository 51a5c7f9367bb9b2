-- ===== src/Middleware/Concurrency/Frame.antt =====
-- What the limit on the concurrency of a model does to the cached pools.
use ainode.Prelude.{
  arith, ◌≡◌, refl, ap, ◌∙◌, not, Option, none, some, String, str_eq, if◌then◌else◌, if-cases,
  Result, ok, err,
}
use ainode.Prelude.Int.{ℤ, pos}
use ainode.Redis.{Key, Redis, sub_balance, grant_balance, cash_balance, concurrency_model, or_zero}
use ainode.Billing.Pools.{Deduction, Pools, credit}
use ainode.Billing.Pools.Split.{Deduction_eq}
use ainode.Billing.Scripts.Commands.{pools}
use ainode.Billing.Settlement.{World}
use ainode.Middleware.RateLimit.{
  LimitEnv, LimitedRequest, Verdict, served, refused, refund_pre_deduction,
}
use ainode.Middleware.RateLimit.Refunds.{IsPoolKey, pool_ne_rate, Refunds}
use ainode.Middleware.Concurrency.{
  SlotError, redis_failed, model_concurrency_exceeded, Slot, no_slot, held, SlotEnv,
  model_concurrency_key_ttl, acquire_model_concurrency_slot, release, after_release,
  serve_with_slot, with_model, model_concurrency_middleware,
}

module _ (R : Redis) where
  same_pools :
      (uid : ℤ) (s s' : R.Store)
      → ((j : Key) → IsPoolKey j → R.get j s' ≡ R.get j s)
      → pools R uid s' ≡ pools R uid s
  unfolding IsPoolKey
  same_pools uid s s' same =
      Deduction_eq (ap or_zero (same (sub_balance uid) tt))
        (ap or_zero (same (grant_balance uid) tt)) (ap or_zero (same (cash_balance uid) tt))

  pools-acquire :
      (slots : SlotEnv) (model : String) (limit uid : ℤ) (s : R.Store)
      → pools R uid (acquire_model_concurrency_slot R slots model limit s).1 ≡ pools R uid s
  unfolding acquire_model_concurrency_slot
  pools-acquire slots model limit uid s =
      let key = concurrency_model model in
      let s₁ = R.incr_by key (pos 1) s in
      let s₂ = R.expire key model_concurrency_key_ttl s₁ in
      same_pools uid s (acquire_model_concurrency_slot R slots model limit s).1 (λ j p.
        let other = pool_ne_rate j key p tt in
        ground (
          arith,
          R.get-incr_by_ne j key (pos 1) s other,
          R.get-expire j key model_concurrency_key_ttl s₁,
          R.get-decr_by_ne j key (pos 1) s₁ other,
          R.get-decr_by_ne j key (pos 1) s₂ other,
        ))

  pools-release :
      (slots : SlotEnv) (slot : Slot) (uid : ℤ) (s : R.Store)
      → pools R uid (release R slots slot s) ≡ pools R uid s
  unfolding release
  pools-release slots no_slot uid s = refl
  pools-release slots (held model) uid s =
      let key = concurrency_model model in
      let s' = R.decr_by key (pos 1) s in
      same_pools uid s (release R slots (held model) s) (λ j p.
        let other = pool_ne_rate j key p tt in
        ground (arith, R.get-decr_by_ne j key (pos 1) s other, R.get-del_ne j key s' other))

  -- A request that is served ends well, and one that is refused is refunded.
  abbrev pub AfterLimit : ℤ → Deduction → Pools → (World R → Type 0) → Verdict × World R → Type 0
  AfterLimit uid d p Good (served, w) = Good w
  AfterLimit uid d p Good (refused c, w) = pools R uid w.store ≡ credit p d

  module _ (limits : LimitEnv) (uid : ℤ) (r : LimitedRequest)
      (refunds : Refunds R limits.refund_env uid r) (p : Pools) (Good : World R → Type 0)
      (stable : (w : World R) (s : R.Store)
        → pools R uid s ≡ pools R uid w.store
        → Good w
        → Good (record w { store = s })) where
    abbrev After : Verdict × World R → Type 0
    After = AfterLimit uid r.pre_deducted p Good

    release-After :
        (slots : SlotEnv) (slot : Slot) (x : Verdict × World R)
        → After x
        → After (after_release R slots slot x)
    release-After slots slot (served, w) h =
        stable w (release R slots slot w.store) (pools-release slots slot uid w.store) h
    release-After slots slot (refused c, w) h = pools-release slots slot uid w.store ∙ h

    refund-After :
        (reason : String) (w : World R)
        → pools R uid w.store ≡ p
        → After (refused reason, refund_pre_deduction R limits.refund_env uid r w)
    refund-After reason w h = refunds w ∙ ap (λ q. credit q r.pre_deducted) h

    module _ (next : World R → Verdict × World R)
        (serves : (w : World R) → pools R uid w.store ≡ p → After (next w)) (slots : SlotEnv) where
      slot-After :
          (slot : Result SlotError Slot) (w : World R)
          → pools R uid w.store ≡ p
          → After (serve_with_slot R limits.refund_env slots uid r next slot w)
      unfolding serve_with_slot
      slot-After (ok slot) w h = release-After slots slot (next w) (serves w h)
      slot-After (err redis_failed) w h = serves w h
      slot-After (err model_concurrency_exceeded) w h =
          refund-After "model_concurrency_exceeded" w h

      with_model-After :
          (found : Option ℤ) (w : World R)
          → pools R uid w.store ≡ p
          → After (with_model R limits.refund_env slots uid r next found w)
      unfolding with_model
      with_model-After none w h = refund-After "unsupported_model" w h
      with_model-After (some limit) w h =
          let (slot, s) = acquire_model_concurrency_slot R slots r.model_name limit w.store in
          slot-After slot (record w { store = s })
            (pools-acquire slots r.model_name limit uid w.store ∙ h)

      -- A request that is refused is refunded, and one that is served finds the pools as they were
      -- and leaves them as the next handler does.
      pub concurrency-After :
          (found : Option ℤ) (w : World R)
          → r.user_id ≡ some uid
          → pools R uid w.store ≡ p
          → AfterLimit uid r.pre_deducted p Good
              (model_concurrency_middleware R limits.refund_env slots found r next w)
      unfolding model_concurrency_middleware
      concurrency-After found w known h = rw known (
          if-cases After (not r.is_billing_route) (next w)
            (if str_eq r.model_name ""
              then next w
              else with_model R limits.refund_env slots uid r next found w)
            (λ _. serves w h)
            (λ _.
              if-cases After (str_eq r.model_name "") (next w)
                (with_model R limits.refund_env slots uid r next found w) (λ _. serves w h)
                (λ _. with_model-After found w h)))
