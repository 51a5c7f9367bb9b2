-- ===== src/Billing/Scripts.antt =====
-- The Lua scripts of internal/billing/lua, each one atomic, over the Redis interface. A number of
-- Lua is an integer here: it is exact below 2^53, which at the scale of 10^8 is some 90 million
-- units of money.
pub mod Commands
pub mod Order
pub mod PreDeduct
use ainode.Prelude.{Bool, ◌||◌, not, Option, none, some, String, str_eq, if◌then◌else◌}
use ainode.Prelude.Int.{ℤ, pos, negsuc, ◌+ℤ◌, ◌-ℤ◌, leb_ℤ, ltb_ℤ}
use ainode.Redis.{Key, sub_balance, grant_balance, cash_balance, or_zero, Redis}
use ainode.Billing.Pools.{Deduction, Pools}

-- The array that pre_deduct.lua returns: {status, sub, grant, cash}.
pub record Reply : Type 0 where
  pub status : ℤ
  pub taken : Deduction

abbrev pub nothing : Deduction
nothing = record { sub = pos 0; grant = pos 0; cash = pos 0 }

-- `if not sp_str or not gr_str or not ca_str`: the pools, if every one is cached.
abbrev pub all_cached : Option ℤ → Option ℤ → Option ℤ → Option Pools
all_cached (some sp) (some gr) (some ca) = some (record { sub = sp; grant = gr; cash = ca })
all_cached _ _ _ = none

-- Which pools a billing policy lets take part.
abbrev pub use_sub : String → Bool
use_sub policy = not (str_eq policy "cash_only")

abbrev pub use_grant : String → Bool
use_grant policy = not (str_eq policy "cash_only")

abbrev pub use_cash : String → Bool
use_cash policy = not (str_eq policy "grant_only")

-- `if use_x then avail = avail + x end`
abbrev pub counted : Bool → ℤ → ℤ
counted enabled bal = if enabled then bal else pos 0

module _ (R : Redis) where
  open R use {Store, get, incr_by, decr_by}

  -- The closure `take` at its `rem`: what it takes, the `rem` that it leaves, and the store.
  unfoldable pub take_pool : Key → ℤ → Bool → ℤ → Store → ℤ × ℤ × Store
  take_pool key bal enabled rem s =
      if not enabled || leb_ℤ bal (pos 0) || leb_ℤ rem (pos 0)
      then (pos 0, rem, s)
      else let t = if ltb_ℤ rem bal then rem else bal in (t, rem -ℤ t, decr_by key t s)

  -- sub, then grant, then cash.
  unfoldable pub take_in_order : ℤ → String → ℤ → Pools → Store → Deduction × Store
  take_in_order uid policy cost bal s =
      let (p, rem, s1) = take_pool (sub_balance uid) bal.sub (use_sub policy) cost s in
      let (g, rem', s2) = take_pool (grant_balance uid) bal.grant (use_grant policy) rem s1 in
      let (c, _, s3) = take_pool (cash_balance uid) bal.cash (use_cash policy) rem' s2 in
      (record { sub = p; grant = g; cash = c }, s3)

  -- The three cached balances of a user, if all are there.
  abbrev pub cached : ℤ → Store → Option Pools
  cached uid s =
      all_cached (get (sub_balance uid) s) (get (grant_balance uid) s) (get (cash_balance uid) s)

  abbrev pub available : String → Pools → ℤ
  available policy bal =
      counted (use_sub policy) bal.sub
      +ℤ counted (use_grant policy) bal.grant
      +ℤ counted (use_cash policy) bal.cash

  -- pre_deduct.lua
  unfoldable pub pre_deduct_script : ℤ → ℤ → String → Store → Reply × Store
  pre_deduct_script uid cost policy s = elim (cached uid s) [
    | none ↦ (record { status = negsuc 1; taken = nothing }, s)
    | some bal ↦
        if ltb_ℤ (available policy bal) cost
        then (record { status = negsuc 0; taken = nothing }, s)
        else let (d, s') = take_in_order uid policy cost bal s in
          (record { status = pos 1; taken = d }, s')
  ]

  -- compensate.lua
  unfoldable pub compensate_script : ℤ → ℤ → String → Store → Deduction × Store
  compensate_script uid amount policy s =
      if leb_ℤ amount (pos 0)
      then (nothing, s)
      else take_in_order uid policy amount
          (record {
            sub = or_zero (get (sub_balance uid) s);
            grant = or_zero (get (grant_balance uid) s);
            cash = or_zero (get (cash_balance uid) s);
          })
          s

  -- The closure `give` of refund.lua: the `rem` that it leaves, and the store.
  unfoldable pub give_pool : Key → ℤ → ℤ → Store → ℤ × Store
  give_pool key cap rem s =
      if leb_ℤ cap (pos 0) || leb_ℤ rem (pos 0)
      then (rem, s)
      else let t = if ltb_ℤ rem cap then rem else cap in (rem -ℤ t, incr_by key t s)

  -- refund.lua: cash, then grant, then sub.
  unfoldable pub refund_script : ℤ → ℤ → Deduction → Store → Store
  refund_script uid amt d s =
      if leb_ℤ amt (pos 0)
      then s
      else (let (rem, s1) = give_pool (cash_balance uid) d.cash amt s in
          let (rem', s2) = give_pool (grant_balance uid) d.grant rem s1 in
          (give_pool (sub_balance uid) d.sub rem' s2).1)

  -- credit_cache.lua
  unfoldable pub credit_cache_script : Key → ℤ → Store → ℤ × Store
  credit_cache_script key delta s = elim (get key s) [
    | none ↦ (negsuc 0, s)
    | some v ↦ (v +ℤ delta, incr_by key delta s)
  ]
