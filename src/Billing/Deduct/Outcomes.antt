-- ===== src/Billing/Deduct/Outcomes.antt =====
-- How PreDeduct ends, and what the reload of the cache makes of the store.
use ainode.Prelude.{
  ◌≡◌, ◌⊎◌, inl, inr, refl, sym, ap, subst, Bool-cases, true, false, Option, none, some, String,
  str_eq, eq_iff, arith, Result, ok, err, if◌then◌else◌,
}
use ainode.Prelude.Int.{ℤ, pos, negsuc, ◌+ℤ◌, leb_ℤ-cases, int_laws, ◌≤ℤ◌, ◌<ℤ◌, eqb_ℤ}
use ainode.Redis.{sub_balance, grant_balance, cash_balance, Redis}
use ainode.Billing.Pools.{Deduction, Pools, split_actual3, debit}
use ainode.Billing.Pools.Split.{sum}
use ainode.Billing.Scripts.{nothing, cached, available, pre_deduct_script}
use ainode.Billing.Scripts.Commands.{pools}
use ainode.Billing.Scripts.Order.{eligible}
use ainode.Billing.Scripts.PreDeduct.{
  pre_deduct_script_miss, pre_deduct_script_short, pre_deduct_script_free,
  pre_deduct_script-charges,
}
use ainode.Billing.Deduct.{
  DeductEnv, DeductError, insufficient, conclude, default_policy, pre_deduct, get_user_balance,
}

-- What a user can pay under a policy of models.billing_policy; the empty one stands for all pools.
abbrev pub budget : String → Pools → ℤ
budget policy bal =
    if str_eq policy "cash_only"
    then bal.cash
    else if str_eq policy "grant_only"
    then bal.sub +ℤ bal.grant
    else bal.sub +ℤ bal.grant +ℤ bal.cash

cash_alone : (c : ℤ) → pos 0 +ℤ pos 0 +ℤ c ≡ c
cash_alone c = omega int_laws

no_cash : (s g : ℤ) → s +ℤ g +ℤ pos 0 ≡ s +ℤ g
no_cash s g = omega int_laws

available-budget :
    (R : Redis) (policy : String) (bal : Pools)
    → available R (default_policy policy) bal ≡ budget policy bal
available-budget R policy bal = elim (Bool-cases (str_eq policy "")) [
  | inl e ↦
      subst (λ p. available R (default_policy p) bal ≡ budget p bal) (sym ((eq_iff policy "").0 e))
        refl
  | inr e ↦ elim (Bool-cases (str_eq policy "cash_only")) [
    | inl c ↦
        subst (λ p. available R (default_policy p) bal ≡ budget p bal)
          (sym ((eq_iff policy "cash_only").0 c)) (cash_alone bal.cash)
    | inr c ↦ elim (Bool-cases (str_eq policy "grant_only")) [
      | inl g ↦
          subst (λ p. available R (default_policy p) bal ≡ budget p bal)
            (sym ((eq_iff policy "grant_only").0 g)) (no_cash bal.sub bal.grant)
      | inr g ↦ rw (e, c, g) refl
    ]
  ]
]

module _ (R : Redis) where
  open R use {Store, get, set, get-set, get-set_ne}

  -- The store that SyncUserBalanceCache leaves.
  abbrev pub synced : ℤ → Pools → Store → Store
  synced uid p s =
      set (cash_balance uid) p.cash
        (set (grant_balance uid) p.grant (set (sub_balance uid) p.sub s))

  pub cached-synced : (uid : ℤ) (p : Pools) (s : Store) → cached R uid (synced uid p s) ≡ some p
  cached-synced uid p s =
      let s1 = set (sub_balance uid) p.sub s in
      let s2 = set (grant_balance uid) p.grant s1 in
      ground (
        arith,
        get-set (cash_balance uid) p.cash s2,
        get-set_ne (grant_balance uid) (cash_balance uid) p.cash s2 (λ e. cc),
        get-set_ne (sub_balance uid) (cash_balance uid) p.cash s2 (λ e. cc),
        get-set (grant_balance uid) p.grant s1,
        get-set_ne (sub_balance uid) (grant_balance uid) p.grant s1 (λ e. cc),
        get-set (sub_balance uid) p.sub s,
      )

  -- Where the balances are not cached and the calls succeed, GetUserBalance answers those of the
  -- database and refills the cache with them: the next call finds them there, whatever the
  -- database then holds.
  pub get_user_balance_refills :
      (uid : ℤ) (p : Pools) (later : Option Pools) (s : Store)
      → cached R uid s ≡ none
      → (let (found, s') = get_user_balance R true false false (some p) uid s in
          (found ≡ some p) × (get_user_balance R true false false later uid s' ≡ (some p, s')))
  unfolding get_user_balance
  get_user_balance_refills uid p later s h = ground (arith, cached-synced uid p s)

  status_of_hit :
      (uid cost : ℤ) (policy : String) (s : Store) (bal : Pools)
      → cached R uid s ≡ some bal
      → eqb_ℤ (pre_deduct_script R uid cost policy s).0.status (negsuc 1) ≡ false
  unfolding pre_deduct_script
  status_of_hit uid cost policy s bal h = rw (h, pre_deduct_script) (ground arith)

  module _ (uid cost : ℤ) (policy : String) where
    -- One run of the script, as PreDeduct reads its reply.
    abbrev pub attempt : Store → Result DeductError Deduction × Store
    attempt t = conclude R (pre_deduct_script R uid cost (default_policy policy) t)

    -- What a charge of the cost takes of each pool.
    abbrev pub charge : Pools → Deduction
    charge bal =
        let e = eligible (default_policy policy) bal in split_actual3 cost e.sub e.grant e.cash

    module _ (bal : Pools) (s : Store) (hit : cached R uid s ≡ some bal) where
      attempt-charges :
          pos 0 ≤ℤ cost
          → cost ≤ℤ available R (default_policy policy) bal
          → ((attempt s).0 ≡ ok (charge bal))
            × (sum (charge bal) ≡ cost)
            × (pools R uid (attempt s).1 ≡ debit bal (charge bal))
      attempt-charges nonneg enough =
          let (status, taken, whole, after) =
            pre_deduct_script-charges R uid cost (default_policy policy) s bal hit nonneg enough in
          (
            rw (status, taken) refl,
            subst (λ d. sum d ≡ cost) taken whole,
            rw status (
                subst
                  (λ d.
                    pools R uid (pre_deduct_script R uid cost (default_policy policy) s).1
                    ≡ debit bal d)
                  taken after),
          )

      attempt_free :
          cost <ℤ pos 0
          → cost ≤ℤ available R (default_policy policy) bal
          → attempt s ≡ (ok nothing, s)
      attempt_free negative enough =
          rw (pre_deduct_script_free R uid cost (default_policy policy) s bal hit negative enough)
            refl

      attempt_refuses :
          available R (default_policy policy) bal <ℤ cost → attempt s ≡ (err insufficient, s)
      attempt_refuses short =
          rw (pre_deduct_script_short R uid cost (default_policy policy) s bal hit short) refl

    module _ (env : DeductEnv R) (s : Store) (bal : Pools) where
      -- All three balances are cached: the script alone decides.
      pre_deduct_hit :
          env.first_run_fails ≡ false
          → cached R uid s ≡ some bal
          → pre_deduct R env uid cost policy s ≡ attempt s
      unfolding pre_deduct
      pre_deduct_hit up hit =
          rw (up, status_of_hit uid cost (default_policy policy) s bal hit, if◌then◌else◌) refl

      -- A balance is missing: the three are loaded from the database, and the script runs again.
      pre_deduct_reload :
          env.first_run_fails ≡ false
          → cached R uid s ≡ none
          → env.balances ≡ some bal
          → env.client ≡ true
          → env.sync_fails ≡ false
          → env.second_run_fails ≡ false
          → pre_deduct R env uid cost policy s ≡ attempt (env.meanwhile (synced uid bal s))
      unfolding pre_deduct
      pre_deduct_reload up miss row client sync up' =
          ground (arith, pre_deduct_script_miss R uid cost (default_policy policy) s miss)

      -- Where the script runs, the cache holds the three balances and the eligible pools cover a
      -- cost that is not negative, PreDeduct succeeds: it takes exactly the cost, from sub, grant
      -- and cash in this order, and each cached balance falls by what its pool gave.
      pub pre_deduct-charges :
          env.first_run_fails ≡ false
          → cached R uid s ≡ some bal
          → pos 0 ≤ℤ cost
          → cost ≤ℤ available R (default_policy policy) bal
          → let (result, s') = pre_deduct R env uid cost policy s in
            (result ≡ ok (charge bal))
            × (sum (charge bal) ≡ cost)
            × (pools R uid s' ≡ debit bal (charge bal))
      pre_deduct-charges up hit nonneg enough =
          rw (pre_deduct_hit up hit) (attempt-charges bal s hit nonneg enough)

      -- A negative cost is a success that takes nothing.
      pub pre_deduct_free :
          env.first_run_fails ≡ false
          → cached R uid s ≡ some bal
          → cost <ℤ pos 0
          → cost ≤ℤ available R (default_policy policy) bal
          → pre_deduct R env uid cost policy s ≡ (ok nothing, s)
      pre_deduct_free up hit negative enough =
          rw (pre_deduct_hit up hit) (attempt_free bal s hit negative enough)

      charges_or_free :
          env.first_run_fails ≡ false
          → cached R uid s ≡ some bal
          → cost ≤ℤ available R (default_policy policy) bal
          → (d : Deduction) × ((pre_deduct R env uid cost policy s).0 ≡ ok d)
      charges_or_free up hit enough = elim (leb_ℤ-cases (pos 0) cost) [
        | inl (b, nonneg) ↦ (charge bal, (pre_deduct-charges up hit nonneg enough).0)
        | inr (b, negative) ↦ (
          nothing,
          ap (λ (x : Result DeductError Deduction × Store). x.0)
              (pre_deduct_free up hit negative enough),
        )
      ]

      pub pre_deduct_short :
          env.first_run_fails ≡ false
          → cached R uid s ≡ some bal
          → available R (default_policy policy) bal <ℤ cost
          → pre_deduct R env uid cost policy s ≡ (err insufficient, s)
      pre_deduct_short up hit short = rw (pre_deduct_hit up hit) (attempt_refuses bal s hit short)

      -- Where the script runs and the cache holds the three balances: if the cost is above what
      -- the policy lets a charge draw on (the cash alone for cash_only, the paid and the granted
      -- balance for grant_only, all three otherwise), PreDeduct reports insufficient balance and
      -- leaves the store as it was; if it is not above it, PreDeduct succeeds.
      pub pre_deduct_refuses :
          env.first_run_fails ≡ false
          → cached R uid s ≡ some bal
          → ((budget policy bal <ℤ cost)
              × (pre_deduct R env uid cost policy s ≡ (err insufficient, s)))
            ⊎ ((cost ≤ℤ budget policy bal)
                × (d : Deduction) × ((pre_deduct R env uid cost policy s).0 ≡ ok d))
      pre_deduct_refuses up hit =
          let same = available-budget R policy bal in
          elim (leb_ℤ-cases cost (available R (default_policy policy) bal)) [
            | inr (b, short) ↦
                inl (subst (λ a. a <ℤ cost) same short, pre_deduct_short up hit short)
            | inl (b, enough) ↦
                let (d, e) = charges_or_free up hit enough in
                inr (subst (λ a. cost ≤ℤ a) same enough, d, e)
          ]

      -- Where a balance is missing from the cache, all calls succeed and nobody interferes,
      -- PreDeduct charges the balances of the database: it takes exactly a cost that is not
      -- negative and that they cover, and leaves the cache at those balances less the charge.
      pub pre_deduct_reload-charges :
          env.first_run_fails ≡ false
          → cached R uid s ≡ none
          → env.balances ≡ some bal
          → env.client ≡ true
          → env.sync_fails ≡ false
          → env.second_run_fails ≡ false
          → ((t : Store) → env.meanwhile t ≡ t)
          → pos 0 ≤ℤ cost
          → cost ≤ℤ available R (default_policy policy) bal
          → let (result, s') = pre_deduct R env uid cost policy s in
            (result ≡ ok (charge bal))
            × (sum (charge bal) ≡ cost)
            × (pools R uid s' ≡ debit bal (charge bal))
      pre_deduct_reload-charges up miss row client sync up' alone nonneg enough =
          rw (pre_deduct_reload up miss row client sync up', alone (synced uid bal s))
            (attempt-charges bal (synced uid bal s) (cached-synced uid bal s) nonneg enough)

      -- Where the cache misses, the reload succeeds, and a balance is missing a second time
      -- because another client deleted it meanwhile, PreDeduct reports success, whatever the
      -- cost, and has deducted nothing.
      pub pre_deduct_second_miss :
          env.first_run_fails ≡ false
          → cached R uid s ≡ none
          → env.balances ≡ some bal
          → env.client ≡ true
          → env.sync_fails ≡ false
          → env.second_run_fails ≡ false
          → cached R uid (env.meanwhile (synced uid bal s)) ≡ none
          → pre_deduct R env uid cost policy s ≡ (ok nothing, env.meanwhile (synced uid bal s))
      pre_deduct_second_miss up miss row client sync up' gone = rw (
        pre_deduct_reload up miss row client sync up',
        pre_deduct_script_miss R uid cost (default_policy policy) (env.meanwhile (synced uid bal s))
            gone,
      )
