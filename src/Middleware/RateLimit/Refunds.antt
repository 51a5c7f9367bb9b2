-- ===== src/Middleware/RateLimit/Refunds.antt =====
-- What the middleware does to the cached pools.
use ainode.Prelude.{
  arith, ◌≡◌, ◌≢◌, refl, subst, ◌∙◌, ap, Bool, false, not, ◌&&◌, some, if◌then◌else◌, if-cases,
  String, str_eq,
}
use ainode.Prelude.Int.{ℤ, pos, ltb_ℤ, ◌<ℤ◌}
use ainode.Redis.{
  Key, Redis, sub_balance, grant_balance, cash_balance, concurrency_model, rate_rpm, rate_tpm,
  rate_model_rpm, or_zero,
}
use ainode.Billing.Pools.{Deduction, Pools, IsNonneg, credit}
use ainode.Billing.Pools.Split.{sum, Deduction_eq}
use ainode.Billing.Scripts.{nothing}
use ainode.Billing.Scripts.Commands.{pools}
use ainode.Billing.Scripts.Order.{credit-nothing}
use ainode.Billing.Settlement.{World, SettleEnv, refund}
use ainode.Billing.Settlement.Effects.{refund_restores}
use ainode.Middleware.RateLimit.{
  LimitEnv, LimitedRequest, ServerConfig, Verdict, served, refused, rate_limit_script, check,
  check_model, check_user, serve, refund_pre_deduction, rpm_and_tpm_middleware, resolve_tier_limit,
  window_seconds, at_least_one, TierLimit,
}

-- A key of a rate limit, and so none of the pools'.
abbrev pub IsRateKey : Key → Type 0
IsRateKey (sub_balance u) = ⊥
IsRateKey (grant_balance u) = ⊥
IsRateKey (cash_balance u) = ⊥
IsRateKey _ = Unit

unfoldable pub IsPoolKey : Key → Type 0
IsPoolKey (sub_balance u) = Unit
IsPoolKey (grant_balance u) = Unit
IsPoolKey (cash_balance u) = Unit
IsPoolKey _ = ⊥

pub pool_ne_rate : (j k : Key) → IsPoolKey j → IsRateKey k → j ≢ k
unfolding IsPoolKey
pool_ne_rate j (sub_balance u) p v h = v
pool_ne_rate j (grant_balance u) p v h = v
pool_ne_rate j (cash_balance u) p v h = v
pool_ne_rate j (rate_rpm u) p v h = subst IsPoolKey h p
pool_ne_rate j (rate_tpm u) p v h = subst IsPoolKey h p
pool_ne_rate j (rate_model_rpm u m) p v h = subst IsPoolKey h p
pool_ne_rate j (concurrency_model m) p v h = subst IsPoolKey h p

module _ (R : Redis) where
  script_frame :
      (j key : Key) (max_req inc : ℤ) (s : R.Store)
      → j ≢ key
      → R.get j (rate_limit_script R key window_seconds max_req inc s).1 ≡ R.get j s
  unfolding rate_limit_script
  script_frame j key max_req inc s h = ground (
    arith,
    R.get-incr_by_ne j key inc s h,
    R.get-expire j key window_seconds (R.incr_by key inc s),
  )

  script_pools :
      (key : Key) (max_req inc uid : ℤ) (s : R.Store)
      → IsRateKey key
      → pools R uid (rate_limit_script R key window_seconds max_req inc s).1 ≡ pools R uid s
  unfolding IsPoolKey
  script_pools key max_req inc uid s v =
      Deduction_eq (same (sub_balance uid) tt) (same (grant_balance uid) tt)
        (same (cash_balance uid) tt)
    where
      same :
          (j : Key)
          → IsPoolKey j
          → or_zero (R.get j (rate_limit_script R key window_seconds max_req inc s).1)
            ≡ or_zero (R.get j s)
      same j p = ap or_zero (script_frame j key max_req inc s (pool_ne_rate j key p v))

  refund_pre_deduction_lem :
      (env : SettleEnv) (uid : ℤ) (r : LimitedRequest) (w : World R)
      → refund_pre_deduction R env uid r w
        ≡ refund R env uid r.pre_deducted_cents r.pre_deducted r.refund_request w
  unfolding refund_pre_deduction refund
  refund_pre_deduction_lem env uid r w = ground arith

  -- A request that is served finds the pools as they were, and one that is refused finds its
  -- deduction given back.
  abbrev pub Settled : ℤ → Deduction → Pools → Verdict × World R → Type 0
  Settled uid d p (served, w) = pools R uid w.store ≡ p
  Settled uid d p (refused c, w) = pools R uid w.store ≡ credit p d

  -- The refund of the request gives back its whole deduction.
  abbrev pub Refunds : SettleEnv → ℤ → LimitedRequest → Type 0
  Refunds env uid r =
      (w : World R)
      → pools R uid (refund_pre_deduction R env uid r w).store
        ≡ credit (pools R uid w.store) r.pre_deducted

  pub refund-Refunds :
      (env : SettleEnv) (uid : ℤ) (r : LimitedRequest)
      → IsNonneg r.pre_deducted
      → r.pre_deducted_cents ≡ sum r.pre_deducted
      → env.script_fails ≡ false
      → Refunds env uid r
  refund-Refunds env uid r v e up w =
      ap (λ (x : World R). pools R uid x.store)
        (refund_pre_deduction_lem env uid r w
          ∙ ap (λ a. refund R env uid a r.pre_deducted r.refund_request w) e)
      ∙ refund_restores R env uid r.pre_deducted r.refund_request w v up

  -- A negative estimate took nothing, and nothing is given back for it.
  pub free-Refunds :
      (env : SettleEnv) (uid : ℤ) (r : LimitedRequest)
      → r.pre_deducted_cents <ℤ pos 0
      → r.pre_deducted ≡ nothing
      → Refunds env uid r
  unfolding refund_pre_deduction
  free-Refunds env uid r negative none_taken w =
      ground (arith, none_taken, negative, credit-nothing (pools R uid w.store))

  module _ (env : LimitEnv) (uid : ℤ) (r : LimitedRequest)
      (refunds : Refunds env.refund_env uid r) where
    check-Settled :
        (fails : Bool) (key : Key) (max_req inc : ℤ) (reason : String)
        (next : World R → Verdict × World R) (p : Pools) (w : World R)
        → IsRateKey key
        → pools R uid w.store ≡ p
        → ((w' : World R) → pools R uid w'.store ≡ p → Settled uid r.pre_deducted p (next w'))
        → Settled uid r.pre_deducted p (check R env fails uid r key max_req inc reason next w)
    unfolding check
    check-Settled fails key max_req inc reason next p w k h n =
        let ran = rate_limit_script R key window_seconds max_req inc w.store in
        let w' : World R = record w { store = ran.1 } in
        let h' = script_pools key max_req inc uid w.store k ∙ h in
        if-cases (Settled uid r.pre_deducted p) fails (next w)
          (if ran.0
            then next w'
            else (refused reason, refund_pre_deduction R env.refund_env uid r w'))
          (λ _. n w h)
          (λ _.
            if-cases (Settled uid r.pre_deducted p) ran.0 (next w')
              (refused reason, refund_pre_deduction R env.refund_env uid r w') (λ _. n w' h')
              (λ _. refunds w' ∙ ap (λ q. credit q r.pre_deducted) h'))

    check_user-Settled :
        (tl : TierLimit) (w : World R)
        → Settled uid r.pre_deducted (pools R uid w.store) (check_user R env uid r tl w)
    unfolding check_user check_model
    check_user-Settled tl w =
        let p = pools R uid w.store in
        check-Settled env.rpm_fails (rate_rpm uid) tl.rpm (pos 1) "rpm_exceeded"
          (check R env env.tpm_fails uid r (rate_tpm uid) tl.tpm (at_least_one R r.estimated_tokens)
            "tpm_exceeded" (check_model R env uid r tl))
          p w tt refl
          (λ w₁ h₁.
            check-Settled env.tpm_fails (rate_tpm uid) tl.tpm (at_least_one R r.estimated_tokens)
              "tpm_exceeded" (check_model R env uid r tl) p w₁ tt h₁
              (λ w₂ h₂.
                if-cases (Settled uid r.pre_deducted p)
                  (ltb_ℤ (pos 0) tl.model_rpm && not (str_eq r.model_name ""))
                  (check R env env.model_rpm_fails uid r (rate_model_rpm uid r.model_name)
                    tl.model_rpm (pos 1) "model_rpm_exceeded" (serve R) w₂)
                  (serve R w₂)
                  (λ _.
                    check-Settled env.model_rpm_fails (rate_model_rpm uid r.model_name) tl.model_rpm
                      (pos 1) "model_rpm_exceeded" (serve R) p w₂ tt h₂ (λ w₃ h₃. h₃))
                  (λ _. h₂)))

    pub checks-Settled :
        (c : ServerConfig) (w : World R)
        → r.user_id ≡ some uid
        → Settled uid r.pre_deducted (pools R uid w.store) (rpm_and_tpm_middleware R c env r w)
    unfolding rpm_and_tpm_middleware
    checks-Settled c w h =
        rw (rpm_and_tpm_middleware, h)
          (if-cases (Settled uid r.pre_deducted (pools R uid w.store)) (not r.is_billing_route)
            (serve R w) (check_user R env uid r (resolve_tier_limit c r.tier_level) w) (λ _. refl)
            (λ _. check_user-Settled (resolve_tier_limit c r.tier_level) w))

  module _ (env : LimitEnv) (uid : ℤ) (r : LimitedRequest) (v : IsNonneg r.pre_deducted)
      (e : r.pre_deducted_cents ≡ sum r.pre_deducted)
      (up : env.refund_env.script_fails ≡ false) where
    -- For the request of a known user whose advance deduction is the sum of three parts that are
    -- not negative, where the refund script runs: if the request is served, the cached pools are
    -- as they were, and if it is refused, by whichever check, they hold what they did plus the
    -- whole of the deduction.
    pub middleware-Settled :
        (c : ServerConfig) (w : World R)
        → r.user_id ≡ some uid
        → Settled uid r.pre_deducted (pools R uid w.store) (rpm_and_tpm_middleware R c env r w)
    middleware-Settled = checks-Settled env uid r (refund-Refunds env.refund_env uid r v e up)
