-- ===== src/Middleware/Concurrency.antt =====
-- The slots of internal/middleware/model_concurrency.go. A refused acquisition, and one whose EXPIRE
-- failed, undo their own INCR by a DECR whose error is ignored; the calls of one acquisition run
-- without another between them. The TTL of the key is a change of the store from outside.
pub mod Slots
pub mod Frame
use ainode.Prelude.{
  ℕ, Bool, true, false, not, ◌||◌, ◌&&◌, Option, none, some, String, str_eq, if◌then◌else◌, Result,
  ok, err,
}
use ainode.Prelude.Int.{ℤ, pos, ltb_ℤ, leb_ℤ}
use ainode.Redis.{Key, concurrency_model, or_zero, Redis}
use ainode.Middleware.RateLimit.{Verdict, served, refused, LimitedRequest, refund_pre_deduction}
use ainode.Billing.Settlement.{SettleEnv, World}

-- 15 * time.Minute, in seconds.
abbrev pub model_concurrency_key_ttl : ℕ
model_concurrency_key_ttl = 900

pub data SlotError : Type 0 where
  redis_failed model_concurrency_exceeded : SlotError

-- What acquireModelConcurrencySlot returns: the empty release function, or one of a slot.
pub data Slot : Type 0 where
  no_slot : Slot
  held : String → Slot

-- Which command fails: of an acquisition INCR, EXPIRE and the DECR that undoes the INCR, of a
-- release DECR and DEL. has_client is billing.RedisClient != nil.
pub record SlotEnv : Type 0 where
  pub has_client : Bool
  pub incr_fails : Bool
  pub expire_fails : Bool
  pub undo_fails : Bool
  pub release_fails : Bool
  pub del_fails : Bool

module _ (R : Redis) where
  open R use {Store, get, incr_by, decr_by, expire, del}

  -- The DECR after a refusal or a failure, whose error is ignored.
  abbrev pub undo_incr : SlotEnv → Key → Store → Store
  undo_incr env key s = if env.undo_fails then s else decr_by key (pos 1) s

  unfoldable pub acquire_model_concurrency_slot :
      SlotEnv → String → ℤ → Store → Result SlotError Slot × Store
  acquire_model_concurrency_slot env model limit s =
      let key = concurrency_model model in
      let s₁ = incr_by key (pos 1) s in
      let s₂ = expire key model_concurrency_key_ttl s₁ in
      if leb_ℤ limit (pos 0) || not env.has_client
      then (ok no_slot, s)
      else if env.incr_fails
      then (err redis_failed, s)
      else if env.expire_fails
      then (err redis_failed, undo_incr env key s₁)
      else if ltb_ℤ limit (or_zero (get key s₁))
      then (err model_concurrency_exceeded, undo_incr env key s₂)
      else (ok (held model), s₂)

  -- The release function: DECR, and, unless it fails, DEL once the counter is down to 0; the error
  -- of DEL is ignored. A second call of it does nothing, which the middleware's single
  -- `defer release()` never makes.
  unfoldable pub release : SlotEnv → Slot → Store → Store
  release env no_slot s = s
  release env (held model) s =
      let s' = decr_by (concurrency_model model) (pos 1) s in
      if env.release_fails
      then s
      else if leb_ℤ (or_zero (get (concurrency_model model) s')) (pos 0) && not env.del_fails
      then del (concurrency_model model) s'
      else s'

  abbrev pub after_release : SlotEnv → Slot → Verdict × World R → Verdict × World R
  after_release slots slot (v, w) = (v, record w { store = release slots slot w.store })

  -- The verdict of a request whose acquisition answered this; an error of Redis lets it pass.
  unfoldable pub serve_with_slot :
      SettleEnv
      → SlotEnv
      → ℤ
      → LimitedRequest
      → (World R → Verdict × World R)
      → Result SlotError Slot
      → World R
      → Verdict × World R
  serve_with_slot env slots uid r next (ok slot) w = after_release slots slot (next w)
  serve_with_slot env slots uid r next (err redis_failed) w = next w
  serve_with_slot env slots uid r next (err model_concurrency_exceeded) w =
      (refused "model_concurrency_exceeded", refund_pre_deduction R env uid r w)

  -- The model is known with its MaxConcurrency, or the request is refused.
  unfoldable pub with_model :
      SettleEnv
      → SlotEnv
      → ℤ
      → LimitedRequest
      → (World R → Verdict × World R)
      → Option ℤ
      → World R
      → Verdict × World R
  unfolding acquire_model_concurrency_slot serve_with_slot
  with_model env slots uid r next none w =
      (refused "unsupported_model", refund_pre_deduction R env uid r w)
  with_model env slots uid r next (some limit) w =
      let (slot, s) = acquire_model_concurrency_slot slots r.model_name limit w.store in
      serve_with_slot env slots uid r next slot (record w { store = s })

  unfoldable pub model_concurrency_middleware :
      SettleEnv
      → SlotEnv
      → Option ℤ
      → LimitedRequest
      → (World R → Verdict × World R)
      → World R
      → Verdict × World R
  model_concurrency_middleware env slots max_concurrency r next w =
      if not r.is_billing_route then next w else elim (r.user_id) [
        | none ↦ next w
        | some uid ↦
            if str_eq r.model_name ""
            then next w
            else with_model env slots uid r next max_concurrency w
      ]
