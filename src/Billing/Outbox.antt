-- ===== src/Billing/Outbox.antt =====
-- The table settlement_outbox: the statements of internal/db/outbox_queries.go and the relay
-- drainSettlementOutbox of internal/billing/outbox_relay.go. A payload is the request that it
-- encodes. The rows stand in the order of created_at.
pub mod Relay
use ainode.Prelude.{
  ℕ, zero, suc, ◌+◌, ◌==◌, Bool, true, false, ◌||◌, List, [], ◌∷◌, ◌++◌, map, String, str_eq,
  if◌then◌else◌,
}
use ainode.Billing.Request.{SettlementRequest}

pub record SettlementOutbox : Type 0 where
  pub id : ℕ
  pub request_id : String
  pub payload : SettlementRequest
  pub attempts : ℕ
  pub processed : Bool

pub record Outbox : Type 0 where
  pub next_id : ℕ
  pub rows : List SettlementOutbox

abbrev pub holds : String → List SettlementOutbox → Bool
holds r [] = false
holds r (x ∷ xs) = str_eq x.request_id r || holds r xs

abbrev pub new_row : ℕ → String → SettlementRequest → SettlementOutbox
new_row id request_id payload = record {
  id = id;
  request_id = request_id;
  payload = payload;
  attempts = 0;
  processed = false;
}

-- ON CONFLICT (request_id) DO NOTHING; the serial id advances even then.
unfoldable pub insert_settlement_outbox : String → SettlementRequest → Outbox → Outbox
insert_settlement_outbox request_id payload t = record {
  next_id = suc t.next_id;
  rows =
      if holds request_id t.rows
      then t.rows
      else t.rows ++ new_row t.next_id request_id payload ∷ [];
}

-- WHERE processed_at IS NULL ORDER BY created_at LIMIT n
unfoldable pub pending_rows : ℕ → List SettlementOutbox → List SettlementOutbox
pending_rows zero xs = []
pending_rows (suc n) [] = []
pending_rows (suc n) (x ∷ xs) =
    let later = pending_rows (suc n) xs in
    let rest = pending_rows n xs in if x.processed then later else x ∷ rest

unfoldable pub mark_processed : ℕ → Outbox → Outbox
mark_processed id t = record t {
  rows = map (λ x. if x.id == id then record x { processed = true } else x) t.rows;
}

unfoldable pub increment_attempts : ℕ → Outbox → Outbox
increment_attempts id t = record t {
  rows = map (λ x. if x.id == id then record x { attempts = x.attempts + 1 } else x) t.rows;
}
