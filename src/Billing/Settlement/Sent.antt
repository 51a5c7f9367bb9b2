-- ===== src/Billing/Settlement/Sent.antt =====
-- The bill that a settlement or a refund sends where the queue takes it.
use ainode.Prelude.{arith, ◌≡◌, refl, false, [], ◌∷◌, ◌++◌, if◌then◌else◌, ok}
use ainode.Prelude.Int.{ℤ, pos, ◌<ℤ◌, leb_ℤ}
use ainode.Redis.{Redis}
use ainode.Billing.Pools.{Deduction}
use ainode.Billing.Scripts.{refund_script}
use ainode.Billing.Request.{SettlementRequest}
use ainode.Billing.Settlement.{SettleEnv, World, deliver, settle, settle_store, refund, refund_log}

module _ (R : Redis) where
  -- One bill is sent, and the outbox stays as it is.
  abbrev pub Sends : SettlementRequest → World R → World R → Type 0
  Sends bill w w' = (w'.sent ≡ w.sent ++ bill ∷ []) × (w'.outbox ≡ w.outbox)

  module _ (env : SettleEnv) (up : env.enqueue_fails ≡ false) where
    deliver_sent :
        (req : SettlementRequest) (w : World R)
        → deliver R env req w ≡ (ok tt, record w { sent = w.sent ++ req ∷ [] })
    unfolding deliver
    deliver_sent req w = rw up refl

    pub settle_sent : (req : SettlementRequest) (w : World R) → Sends req w (settle R env req w).1
    unfolding settle
    settle_sent req w =
        rw (deliver_sent req (record w { store = settle_store R env req w.store })) (refl, refl)

    pub settle_ok : (req : SettlementRequest) (w : World R) → (settle R env req w).0 ≡ ok tt
    unfolding settle
    settle_ok req w =
        rw (deliver_sent req (record w { store = settle_store R env req w.store })) refl

    pub refund_sent :
        (uid amount : ℤ) (d : Deduction) (log_req : SettlementRequest) (w : World R)
        → pos 0 <ℤ amount
        → Sends (refund_log R log_req amount d) w (refund R env uid amount d log_req w)
    unfolding refund
    refund_sent uid amount d log_req w positive = rw not_zero (
        rw (deliver_sent (refund_log R log_req amount d) (record w { store = store })) (refl, refl))
      where
        not_zero : leb_ℤ amount (pos 0) ≡ false
        not_zero = ground arith

        store : R.Store
        store = if env.script_fails then w.store else refund_script R uid amount d w.store
