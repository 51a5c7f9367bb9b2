-- ===== src/Billing/Scripts/Commands.antt =====
-- What the closures `take` and `give` of the Lua scripts do to the store, key by key.
use ainode.Prelude.{◌≡◌, ◌≢◌, Bool, arith}
use ainode.Prelude.Int.{ℤ, pos, ◌+ℤ◌, ◌-ℤ◌, int_laws}
use ainode.Redis.{Key, sub_balance, grant_balance, cash_balance, or_zero, Redis}
use ainode.Billing.Pools.{Pools, take}
use ainode.Billing.Scripts.{counted, take_pool, give_pool}

pub -ℤ_zero : (a : ℤ) → a -ℤ pos 0 ≡ a
-ℤ_zero a = omega int_laws

pub +ℤ_zero : (a : ℤ) → a +ℤ pos 0 ≡ a
+ℤ_zero a = omega int_laws

module _ (R : Redis) where
  open R use {
    Store, get, incr_by, decr_by, get-decr_by, get-decr_by_ne, get-incr_by, get-incr_by_ne,
  }

  -- The balance under a key, where a missing key counts as 0.
  abbrev pub balance : Key → Store → ℤ
  balance k s = or_zero (get k s)

  abbrev pub pools : ℤ → Store → Pools
  pools uid s = record {
    sub = balance (sub_balance uid) s;
    grant = balance (grant_balance uid) s;
    cash = balance (cash_balance uid) s;
  }

  module _ (key : Key) (bal : ℤ) (enabled : Bool) (rem : ℤ) (s : Store) where
    pub take_pool_amounts :
        ((take_pool R key bal enabled rem s).0 ≡ take rem (counted enabled bal))
        × ((take_pool R key bal enabled rem s).1 ≡ rem -ℤ take rem (counted enabled bal))
    unfolding take_pool take
    take_pool_amounts = ground (arith, -ℤ_zero rem)

    pub balance-take_pool :
        balance key (take_pool R key bal enabled rem s).2
        ≡ balance key s -ℤ take rem (counted enabled bal)
    unfolding take_pool take
    balance-take_pool =
        ground (arith, -ℤ_zero (balance key s), get-decr_by key rem s, get-decr_by key bal s)

    pub take_pool_frame :
        (j : Key) → j ≢ key → get j (take_pool R key bal enabled rem s).2 ≡ get j s
    unfolding take_pool
    take_pool_frame j h = ground (arith, get-decr_by_ne j key rem s h, get-decr_by_ne j key bal s h)

  module _ (key : Key) (cap : ℤ) (rem : ℤ) (s : Store) where
    pub give_pool_rem : (give_pool R key cap rem s).0 ≡ rem -ℤ take rem cap
    unfolding give_pool take
    give_pool_rem = ground (arith, -ℤ_zero rem)

    pub balance-give_pool :
        balance key (give_pool R key cap rem s).1 ≡ balance key s +ℤ take rem cap
    unfolding give_pool take
    balance-give_pool =
        ground (arith, +ℤ_zero (balance key s), get-incr_by key rem s, get-incr_by key cap s)

    pub give_pool_frame : (j : Key) → j ≢ key → get j (give_pool R key cap rem s).1 ≡ get j s
    unfolding give_pool
    give_pool_frame j h = ground (arith, get-incr_by_ne j key rem s h, get-incr_by_ne j key cap s h)
