-- ===== src/Redis/Memory.antt =====
-- A store in memory that meets the laws of the interface. The tests run the scripts on it.
use ainode.Prelude.{
  ◌≡◌, ◌≢◌, refl, Bool, true, false, ◌&&◌, Option, none, some, arith, str_eq, eq_iff, if◌then◌else◌,
}
use ainode.Prelude.Int.{ℤ, ◌+ℤ◌, ◌-ℤ◌, eqb_ℤ}
use ainode.Redis.{
  Key, sub_balance, grant_balance, cash_balance, rate_rpm, rate_tpm, rate_model_rpm,
  concurrency_model, or_zero, Redis,
}

abbrev pub key_eq : Key → Key → Bool
key_eq (sub_balance u) (sub_balance v) = eqb_ℤ u v
key_eq (grant_balance u) (grant_balance v) = eqb_ℤ u v
key_eq (cash_balance u) (cash_balance v) = eqb_ℤ u v
key_eq (rate_rpm u) (rate_rpm v) = eqb_ℤ u v
key_eq (rate_tpm u) (rate_tpm v) = eqb_ℤ u v
key_eq (rate_model_rpm u m) (rate_model_rpm v n) = eqb_ℤ u v && str_eq m n
key_eq (concurrency_model m) (concurrency_model n) = str_eq m n
key_eq _ _ = false

key_eq_refl : (k : Key) → key_eq k k ≡ true
key_eq_refl (sub_balance u) = ground arith
key_eq_refl (grant_balance u) = ground arith
key_eq_refl (cash_balance u) = ground arith
key_eq_refl (rate_rpm u) = ground arith
key_eq_refl (rate_tpm u) = ground arith
key_eq_refl (rate_model_rpm u m) = ground (arith, eq_iff m m)
key_eq_refl (concurrency_model m) = ground (arith, eq_iff m m)

key_eq_ne : (j k : Key) → j ≢ k → key_eq k j ≡ false
key_eq_ne (sub_balance u) (sub_balance v) h = ground arith
key_eq_ne (grant_balance u) (grant_balance v) h = ground arith
key_eq_ne (cash_balance u) (cash_balance v) h = ground arith
key_eq_ne (rate_rpm u) (rate_rpm v) h = ground arith
key_eq_ne (rate_tpm u) (rate_tpm v) h = ground arith
key_eq_ne (rate_model_rpm u m) (rate_model_rpm v n) h = ground (arith, eq_iff n m)
key_eq_ne (concurrency_model m) (concurrency_model n) h = ground (arith, eq_iff n m)
key_eq_ne _ _ h = refl

abbrev pub MemoryStore : Type 0
MemoryStore = Key → Option ℤ

abbrev pub empty_store : MemoryStore
empty_store _ = none

abbrev pub put : Key → Option ℤ → MemoryStore → MemoryStore
put k v s j = if key_eq k j then v else s j

pub put_self : (k : Key) (v : Option ℤ) (s : MemoryStore) → put k v s k ≡ v
put_self k v s = ground (arith, key_eq_refl k)

pub put_ne : (j k : Key) (v : Option ℤ) (s : MemoryStore) → j ≢ k → put k v s j ≡ s j
put_ne j k v s h = ground (arith, key_eq_ne j k h)

abbrev pub memory : Redis
memory = record {
  Store = MemoryStore;
  get = λ k s. s k;
  set = λ k v s. put k (some v) s;
  incr_by = λ k d s. put k (some (or_zero (s k) +ℤ d)) s;
  decr_by = λ k d s. put k (some (or_zero (s k) -ℤ d)) s;
  del = λ k s. put k none s;
  expire = λ k n s. s;
  get-set = λ k v s. put_self k (some v) s;
  get-set_ne = λ j k v s h. put_ne j k (some v) s h;
  get-incr_by = λ k d s. put_self k (some (or_zero (s k) +ℤ d)) s;
  get-incr_by_ne = λ j k d s h. put_ne j k (some (or_zero (s k) +ℤ d)) s h;
  get-decr_by = λ k d s. put_self k (some (or_zero (s k) -ℤ d)) s;
  get-decr_by_ne = λ j k d s h. put_ne j k (some (or_zero (s k) -ℤ d)) s h;
  get-del = λ k s. put_self k none s;
  get-del_ne = λ j k s h. put_ne j k none s h;
  get-expire = λ j k n s. refl;
}
