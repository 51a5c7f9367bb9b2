-- ===== src/Billing/Settlement/Delivery.antt =====
-- Where the bill of a settlement ends: with asynq, in the outbox, or nowhere and the caller knows.
use ainode.Prelude.{
  ◌≡◌, refl, ◌⊎◌, true, List, [], ◌∷◌, ◌++◌, String, eq_iff, arith, Result, ok, err,
}
use ainode.Redis.{Redis}
use ainode.Billing.Request.{SettlementRequest}
use ainode.Billing.Outbox.{Outbox, SettlementOutbox, holds, new_row, insert_settlement_outbox}
use ainode.Billing.Settlement.{SettleEnv, SettleError, World, settle_store, deliver, settle}

holds-append_self :
    (r : String) (x : SettlementOutbox) (xs : List SettlementOutbox)
    → x.request_id ≡ r
    → holds r (xs ++ x ∷ []) ≡ true
holds-append_self r x [] e = ground (arith, eq_iff x.request_id r)
holds-append_self r x (y ∷ ys) e = ground (arith, holds-append_self r x ys e)

-- After the insertion the outbox holds the request, whether or not it did before.
pub holds-insert :
    (r : String) (req : SettlementRequest) (t : Outbox)
    → holds r (insert_settlement_outbox r req t).rows ≡ true
unfolding insert_settlement_outbox
holds-insert r req t = ground (arith, holds-append_self r (new_row t.next_id r req) t.rows refl)

module _ (R : Redis) where
  -- What a call that began at `w` has done with the bill, by how it ended.
  abbrev pub Billed : SettlementRequest → World R → Result SettleError (Unit {0}) × World R → Type 0
  Billed req w (ok _, w') =
      ((w'.sent ≡ w.sent ++ req ∷ []) × (w'.outbox ≡ w.outbox))
      ⊎ ((w'.sent ≡ w.sent) × (holds req.request_id w'.outbox.rows ≡ true))
  Billed req w (err _, w') = (w'.sent ≡ w.sent) × (w'.outbox ≡ w.outbox)

  deliver-Billed :
      (env : SettleEnv) (req : SettlementRequest) (w : World R) → Billed req w (deliver R env req w)
  unfolding deliver
  deliver-Billed env req w = ground (arith, holds-insert req.request_id req w.outbox)

  Billed-any_store :
      (req : SettlementRequest) (w : World R) (s : R.Store)
      (x : Result SettleError (Unit {0}) × World R)
      → Billed req (record w { store = s }) x
      → Billed req w x
  Billed-any_store req w s (ok _, w') h = h
  Billed-any_store req w s (err _, w') h = h

  -- A settlement that reports success has handed its bill to asynq, and left the outbox as it
  -- was, or the outbox holds a bill under its request id; one that reports an error has done
  -- neither: the queue and the outbox are as they were.
  pub settle-Billed :
      (env : SettleEnv) (req : SettlementRequest) (w : World R) → Billed req w (settle R env req w)
  unfolding settle
  settle-Billed env req w =
      Billed-any_store req w (settle_store R env req w.store) _
        (deliver-Billed env req (record w { store = settle_store R env req w.store }))
