-- ===== src/Billing/Outbox/Relay.antt =====
-- drainSettlementOutbox of internal/billing/outbox_relay.go. Which calls fail is an answer of the
-- environment, per row.
use ainode.Prelude.{
  ℕ, ◌≡◌, refl, sym, ◌∙◌, ap, Bool, true, false, List, [], ◌∷◌, ◌++◌, if◌then◌else◌,
}
use ainode.Billing.Request.{SettlementRequest}
use ainode.Billing.Outbox.{
  SettlementOutbox, Outbox, pending_rows, mark_processed, increment_attempts,
}

pub record RelayEnv : Type 0 where
  pub list_fails : Bool
  pub enqueue_fails : ℕ → Bool
  pub increment_fails : ℕ → Bool
  pub mark_fails : ℕ → Bool

abbrev pub outbox_relay_batch : ℕ
outbox_relay_batch = 100

-- The tasks that asynq accepted, and the table.
pub record Relayed : Type 0 where
  pub sent : List SettlementRequest
  pub outbox : Outbox

-- The body of the loop: a row that is not accepted counts an attempt, one that is accepted is
-- marked; the errors of both statements are ignored.
unfoldable pub relay_row : RelayEnv → SettlementOutbox → Relayed → Relayed
relay_row env row w =
    if env.enqueue_fails row.id
    then record w {
      outbox = if env.increment_fails row.id then w.outbox else increment_attempts row.id w.outbox;
    }
    else record {
      sent = w.sent ++ row.payload ∷ [];
      outbox = if env.mark_fails row.id then w.outbox else mark_processed row.id w.outbox;
    }

unfoldable pub relay_rows : RelayEnv → List SettlementOutbox → Relayed → Relayed
relay_rows env [] w = w
relay_rows env (row ∷ rows) w = relay_rows env rows (relay_row env row w)

unfoldable pub drain_settlement_outbox : RelayEnv → Relayed → Relayed
unfolding relay_rows relay_row
drain_settlement_outbox env w =
    if env.list_fails then w else relay_rows env (pending_rows outbox_relay_batch w.outbox.rows) w

-- The requests of the rows that asynq accepts.
abbrev pub accepted : RelayEnv → List SettlementOutbox → List SettlementRequest
accepted env [] = []
accepted env (row ∷ rows) =
    let rest = accepted env rows in if env.enqueue_fails row.id then rest else row.payload ∷ rest

append_nil : (xs : List SettlementRequest) → xs ++ [] ≡ xs
append_nil [] = refl
append_nil (x ∷ xs) = ap (λ l. x ∷ l) (append_nil xs)

append_one :
    (xs ys : List SettlementRequest) (y : SettlementRequest) → (xs ++ y ∷ []) ++ ys ≡ xs ++ y ∷ ys
append_one [] ys y = refl
append_one (x ∷ xs) ys y = ap (λ l. x ∷ l) (append_one xs ys y)

relay_rows_sent :
    (env : RelayEnv) (rows : List SettlementOutbox) (w : Relayed)
    → (relay_rows env rows w).sent ≡ w.sent ++ accepted env rows
unfolding relay_rows relay_row
relay_rows_sent env [] w = sym (append_nil w.sent)
relay_rows_sent env (row ∷ rows) w =
    relay_rows_sent env rows (relay_row env row w)
    ∙ one_row (env.enqueue_fails row.id) (accepted env rows)
  where
    one_row :
        (b : Bool) (rest : List SettlementRequest)
        → (if b
              then record w {
                outbox =
                    if env.increment_fails row.id
                    then w.outbox
                    else increment_attempts row.id w.outbox;
              }
              else record {
                sent = w.sent ++ row.payload ∷ [];
                outbox = if env.mark_fails row.id then w.outbox else mark_processed row.id w.outbox;
              }).sent
            ++ rest
          ≡ w.sent ++ (if b then rest else row.payload ∷ rest)
    one_row true rest = refl
    one_row false rest = append_one w.sent rest row.payload

-- Where the pending rows are read, a run of the relay sends the bills of the oldest 100 of them
-- to the queue, in order, except those that the queue refuses.
pub drain-sends :
    (env : RelayEnv) (w : Relayed)
    → env.list_fails ≡ false
    → (drain_settlement_outbox env w).sent
      ≡ w.sent ++ accepted env (pending_rows outbox_relay_batch w.outbox.rows)
unfolding drain_settlement_outbox
drain-sends env w h =
    ap (λ (x : Relayed). x.sent) (drained env w h)
    ∙ relay_rows_sent env (pending_rows outbox_relay_batch w.outbox.rows) w
  where
    drained :
        (env : RelayEnv) (w : Relayed)
        → env.list_fails ≡ false
        → drain_settlement_outbox env w
          ≡ relay_rows env (pending_rows outbox_relay_batch w.outbox.rows) w
    drained env w h = rw (drain_settlement_outbox, h) refl
