-- ===== src/Tests/Billing.antt =====
-- The billing on the store in memory: user 7 has 40 in sub, 30 in grant and 50 in cash.
use ainode.Prelude.{◌≡◌, ◌⊎◌, refl, arith, true, false, some, [], ◌∷◌, ok, err}
use ainode.Prelude.Int.{ℤ, pos, ◌<ℤ◌, ◌≤ℤ◌, ◌+ℤ◌, ◌-ℤ◌}
use ainode.Redis.{sub_balance, grant_balance, cash_balance}
use ainode.Redis.Memory.{memory, MemoryStore, empty_store, put}
use ainode.Billing.Pools.{Deduction, Pools, IsNonneg, debit, credit, split_actual3}
use ainode.Billing.Pools.Split.{sum}
use ainode.Billing.Scripts.{nothing}
use ainode.Billing.Scripts.Commands.{pools}
use ainode.Billing.Deduct.{DeductEnv, pre_deduct, insufficient}
use ainode.Billing.Deduct.Outcomes.{
  budget, charge, pre_deduct-charges, pre_deduct_reload-charges, pre_deduct_refuses,
  pre_deduct_second_miss,
}
use ainode.Billing.Request.{SettlementRequest}
use ainode.Billing.Outbox.{new_row}
use ainode.Billing.Outbox.Relay.{RelayEnv, Relayed}
use ainode.Billing.Settlement.{SettleEnv, World, settle_store, settle, refund}
use ainode.Billing.Settlement.Effects.{
  deducted, ledger_charge, settle_store-agrees, settle_store_overrun, refund_restores,
}
use ainode.Billing.Settlement.Delivery.{Billed, settle-Billed}

abbrev bal : Pools
bal = record { sub = pos 40; grant = pos 30; cash = pos 50 }

abbrev store : MemoryStore
store = put (cash_balance (pos 7)) (some (pos 50)) (
    put (grant_balance (pos 7)) (some (pos 30))
      (put (sub_balance (pos 7)) (some (pos 40)) empty_store))

abbrev nonneg : IsNonneg bal
nonneg = record { sub_nonneg = refl; grant_nonneg = refl; cash_nonneg = refl }

abbrev deduct_env : DeductEnv memory
deduct_env = record {
  client = true;
  first_run_fails = false;
  balances = some bal;
  sync_fails = false;
  meanwhile = λ t. t;
  second_run_fails = false;
}

-- Another client drops the cached pools between the reload and the second run.
abbrev raced_env : DeductEnv memory
raced_env = record deduct_env { meanwhile = λ t. empty_store }

pre_deduct-charges_example :
    (pre_deduct memory deduct_env (pos 7) (pos 60) "all" store).0
      ≡ ok (charge memory (pos 7) (pos 60) "all" bal)
    × (sum (charge memory (pos 7) (pos 60) "all" bal) ≡ pos 60)
    × (pools memory (pos 7) (pre_deduct memory deduct_env (pos 7) (pos 60) "all" store).1
        ≡ debit bal (charge memory (pos 7) (pos 60) "all" bal))
unfolding ◌+ℤ◌
pre_deduct-charges_example =
    pre_deduct-charges memory (pos 7) (pos 60) "all" deduct_env store bal refl refl (omega arith)
      (omega arith)

pre_deduct_reload-charges_example :
    (pre_deduct memory deduct_env (pos 7) (pos 60) "all" empty_store).0
      ≡ ok (charge memory (pos 7) (pos 60) "all" bal)
    × (sum (charge memory (pos 7) (pos 60) "all" bal) ≡ pos 60)
    × (pools memory (pos 7) (pre_deduct memory deduct_env (pos 7) (pos 60) "all" empty_store).1
        ≡ debit bal (charge memory (pos 7) (pos 60) "all" bal))
unfolding ◌+ℤ◌
pre_deduct_reload-charges_example =
    pre_deduct_reload-charges memory (pos 7) (pos 60) "all" deduct_env empty_store bal refl refl
      refl refl refl refl (λ t. refl) (omega arith) (omega arith)

pre_deduct_refuses_example :
    ((budget "all" bal <ℤ pos 200)
      × (pre_deduct memory deduct_env (pos 7) (pos 200) "all" store ≡ (err insufficient, store)))
    ⊎ ((pos 200 ≤ℤ budget "all" bal)
        × (d : Deduction) × ((pre_deduct memory deduct_env (pos 7) (pos 200) "all" store).0 ≡ ok d))
pre_deduct_refuses_example =
    pre_deduct_refuses memory (pos 7) (pos 200) "all" deduct_env store bal refl refl

pre_deduct_second_miss_example :
    pre_deduct memory raced_env (pos 7) (pos 60) "all" empty_store ≡ (ok nothing, empty_store)
pre_deduct_second_miss_example =
    pre_deduct_second_miss memory (pos 7) (pos 60) "all" raced_env empty_store bal refl refl refl
      refl refl refl refl

abbrev settle_env : SettleEnv
settle_env = record {
  has_queries = true;
  model_policy = some "all";
  script_fails = false;
  enqueue_fails = true;
  outbox_fails = false;
}

-- 60 were deducted in advance, as 40 of sub and 20 of grant.
abbrev request : ℤ → SettlementRequest
request actual = record {
  user_id = pos 7;
  api_key_id = pos 1;
  channel_id = pos 2;
  model_name = "gpt-4o";
  prompt_tokens = pos 10;
  completion_tokens = pos 20;
  cache_hit_tokens = pos 0;
  cache_miss_tokens = pos 0;
  pre_deducted_cents = pos 60;
  sub_deducted = pos 40;
  grant_deducted = pos 20;
  cash_deducted = pos 0;
  actual_cost_cents = actual;
  log_type = "consume";
  request_id = "req-1";
}

request_nonneg : (a : ℤ) → IsNonneg (deducted (request a))
request_nonneg a = record { sub_nonneg = refl; grant_nonneg = refl; cash_nonneg = refl }

settle_store-agrees_example :
    pools memory (pos 7) (settle_store memory settle_env (request (pos 45)) store)
    ≡ debit
        (credit (pools memory (pos 7) store) (deducted (request (pos 45))))
        (ledger_charge (request (pos 45)))
unfolding ◌+ℤ◌
settle_store-agrees_example =
    settle_store-agrees memory settle_env (request (pos 45)) store (request_nonneg (pos 45)) refl
      (omega arith) refl (omega arith) (omega arith)

settle_store_overrun_example :
    (pools memory (pos 7) (settle_store memory settle_env (request (pos 75)) store)
      ≡ debit bal (split_actual3 (pos 15) (pos 40) (pos 30) (pos 50)))
    × (sum (ledger_charge (request (pos 75))) ≡ pos 60)
unfolding ◌+ℤ◌ ◌-ℤ◌
settle_store_overrun_example =
    settle_store_overrun memory settle_env (request (pos 75)) store (request_nonneg (pos 75)) refl
      (omega arith) refl (omega arith)

abbrev world : World memory
world = record { store = store; sent = []; outbox = record { next_id = 0; rows = [] } }

refund_restores_example :
    pools memory
      (pos 7)
      (refund memory settle_env (pos 7) (sum bal) bal (request (pos 0)) world).store
    ≡ credit bal bal
refund_restores_example =
    refund_restores memory settle_env (pos 7) bal (request (pos 0)) world nonneg refl

settle-Billed_example :
    Billed memory (request (pos 45)) world (settle memory settle_env (request (pos 45)) world)
settle-Billed_example = settle-Billed memory settle_env (request (pos 45)) world

abbrev relay_env : RelayEnv
relay_env = record {
  list_fails = false;
  enqueue_fails = λ id. false;
  increment_fails = λ id. false;
  mark_fails = λ id. false;
}

abbrev relayed : Relayed
relayed = record {
  sent = [];
  outbox = record { next_id = 1; rows = new_row 0 "req-1" (request (pos 45)) ∷ [] };
}
