-- ===== src/Redis.antt =====
-- The Redis server as the gateway uses it (go-redis in internal/billing and internal/middleware,
-- redis.call in the Lua scripts). The server is not part of the repository: it is the interface
-- below, whose laws are the documented behaviour of the commands on keys that hold integers. A key
-- is a constructor for each of the source's fmt.Sprintf formats.
pub mod Memory
use ainode.Prelude.{ℕ, ◌≡◌, ◌≢◌, Option, none, some, String}
use ainode.Prelude.Int.{ℤ, pos, ◌+ℤ◌, ◌-ℤ◌}

pub data Key : Type 0 where
  sub_balance grant_balance cash_balance rate_rpm rate_tpm : ℤ → Key
  rate_model_rpm : ℤ → String → Key
  concurrency_model : String → Key

-- A missing key counts as 0 for INCRBY and DECRBY, and for `GET(k) or "0"`.
abbrev pub or_zero : Option ℤ → ℤ
or_zero none = pos 0
or_zero (some v) = v

pub record Redis : Type 1 where
  pub Store : Type 0
  pub get : Key → Store → Option ℤ
  pub set : Key → ℤ → Store → Store
  pub incr_by : Key → ℤ → Store → Store
  pub decr_by : Key → ℤ → Store → Store
  pub del : Key → Store → Store
  pub expire : Key → ℕ → Store → Store
  pub get-set : (k : Key) (v : ℤ) (s : Store) → get k (set k v s) ≡ some v
  pub get-set_ne : (j k : Key) (v : ℤ) (s : Store) → j ≢ k → get j (set k v s) ≡ get j s
  pub get-incr_by :
      (k : Key) (d : ℤ) (s : Store) → get k (incr_by k d s) ≡ some (or_zero (get k s) +ℤ d)
  pub get-incr_by_ne : (j k : Key) (d : ℤ) (s : Store) → j ≢ k → get j (incr_by k d s) ≡ get j s
  pub get-decr_by :
      (k : Key) (d : ℤ) (s : Store) → get k (decr_by k d s) ≡ some (or_zero (get k s) -ℤ d)
  pub get-decr_by_ne : (j k : Key) (d : ℤ) (s : Store) → j ≢ k → get j (decr_by k d s) ≡ get j s
  pub get-del : (k : Key) (s : Store) → get k (del k s) ≡ none
  pub get-del_ne : (j k : Key) (s : Store) → j ≢ k → get j (del k s) ≡ get j s
  pub get-expire : (j k : Key) (n : ℕ) (s : Store) → get j (expire k n s) ≡ get j s
