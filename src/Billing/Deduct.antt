-- ===== src/Billing/Deduct.antt =====
-- The three-pool cache in front of the database: internal/billing/deduct.go, balance.go,
-- credit_cache.go and SyncUserBalanceCache of redis.go. What Redis and Postgres answer is an
-- argument: a call of Redis that fails leaves the store as it was, and the database's row is the
-- answer of GetUserBalances.
pub mod Outcomes
use ainode.Prelude.{
  Bool, not, Option, none, some, String, str_eq, if◌then◌else◌, Result, ok, err, ◌>>◌, fail_if,
}
use ainode.Prelude.Int.{ℤ, negsuc, eqb_ℤ}
use ainode.Redis.{Key, sub_balance, grant_balance, cash_balance, Redis}
use ainode.Billing.Pools.{Deduction, Pools}
use ainode.Billing.Scripts.{Reply, pre_deduct_script, credit_cache_script, cached}

pub data DeductError : Type 0 where
  script_failed user_not_found sync_failed retry_failed insufficient : DeductError

pub data CacheError : Type 0 where
  no_client unsupported_type command_failed : CacheError

abbrev pub default_policy : String → String
default_policy policy = if str_eq policy "" then "all" else policy

module _ (R : Redis) where
  open R use {Store, get, set}

  -- `client` is RedisClient != nil, and `down` that pipe.Exec returns an error.
  unfoldable pub sync_user_balance_cache : Bool → Bool → ℤ → Pools → Store → Result CacheError Store
  sync_user_balance_cache client down uid p s = do
    fail_if (not client) no_client
    fail_if down command_failed
    ok (
        set (cash_balance uid) p.cash
          (set (grant_balance uid) p.grant (set (sub_balance uid) p.sub s)))

  -- `balances` is the answer of GetUserBalances.
  unfoldable pub load_balance_to_cache :
      Bool → Bool → Option Pools → ℤ → Store → Result DeductError Store
  unfolding sync_user_balance_cache
  load_balance_to_cache client down balances uid s = elim balances [
    | none ↦ err user_not_found
    | some p ↦ elim (sync_user_balance_cache client down uid p s) [
      | err e ↦ err sync_failed
      | ok s' ↦ ok s'
    ]
  ]

  -- The answers to one call of PreDeduct. `meanwhile` is what other clients do to the store
  -- between the reload and the second run of the script.
  pub record DeductEnv : Type 0 where
    pub client : Bool
    pub first_run_fails : Bool
    pub balances : Option Pools
    pub sync_fails : Bool
    pub meanwhile : Store → Store
    pub second_run_fails : Bool

  -- After the last run: -1 is an error, and any other status gives the amounts of the reply.
  abbrev pub conclude : Reply × Store → Result DeductError Deduction × Store
  conclude (r, s) = if eqb_ℤ r.status (negsuc 0) then (err insufficient, s) else (ok r.taken, s)

  -- Status -2: reload the balances from the database, and run the script once more.
  unfoldable pub reload_and_retry :
      DeductEnv → ℤ → ℤ → String → Store → Result DeductError Deduction × Store
  unfolding load_balance_to_cache
  reload_and_retry env uid cost policy s =
      elim (load_balance_to_cache env.client env.sync_fails env.balances uid s) [
        | err e ↦ (err e, s)
        | ok s' ↦
            let s'' = env.meanwhile s' in
            if env.second_run_fails
            then (err retry_failed, s'')
            else conclude (pre_deduct_script R uid cost policy s'')
      ]

  unfoldable pub pre_deduct :
      DeductEnv → ℤ → ℤ → String → Store → Result DeductError Deduction × Store
  unfolding reload_and_retry
  pre_deduct env uid estimated_cost billing_policy s =
      let policy = default_policy billing_policy in
      if env.first_run_fails
      then (err script_failed, s)
      else (let (r, s') = pre_deduct_script R uid estimated_cost policy s in
          if eqb_ℤ r.status (negsuc 1)
          then reload_and_retry env uid estimated_cost policy s'
          else conclude (r, s'))

  -- GetUserBalance: `down` is that MGet fails, `balances` the answer of GetUserBalances, and
  -- `sync_down` that the refill fails, which does not matter to the result.
  unfoldable pub get_user_balance :
      Bool → Bool → Bool → Option Pools → ℤ → Store → Option Pools × Store
  unfolding sync_user_balance_cache
  get_user_balance client down sync_down balances uid s =
      elim (if client then (if down then none else cached R uid s) else none) [
        | some p ↦ (some p, s)
        | none ↦ elim balances [
          | none ↦ (none, s)
          | some p ↦ elim (sync_user_balance_cache client sync_down uid p s) [
            | ok s' ↦ (some p, s')
            | err e ↦ (some p, s)
          ]
        ]
      ]

  abbrev run_credit_cache : Bool → Key → ℤ → Store → Result CacheError (Unit {0}) × Store
  run_credit_cache down key delta s =
      if down then (err command_failed, s) else (ok tt, (credit_cache_script R key delta s).1)

  -- CreditBalanceCache. `down` is that the script's run returns an error.
  unfoldable pub credit_balance_cache :
      Bool → Bool → ℤ → String → ℤ → Store → Result CacheError (Unit {0}) × Store
  credit_balance_cache client down uid balance_type delta s =
      if not client
      then (err no_client, s)
      else if str_eq balance_type "grant"
      then run_credit_cache down (grant_balance uid) delta s
      else if str_eq balance_type "cash"
      then run_credit_cache down (cash_balance uid) delta s
      else (err unsupported_type, s)
