-- ===== src/Tests/Webhooks.antt =====
-- The webhooks on a database with the users 7 and 8, with amounts that are integers.
use ainode.Prelude.{
  Succeeds, arith, ◌≡◌, ◌⊎◌, refl, true, false, none, some, String, str_eq, eq_iff, [], ◌∷◌,
  if◌then◌else◌, if-cases,
}
use ainode.Prelude.Int.{ℤ, pos, ◌+ℤ◌, ltb_ℤ, eqb_ℤ, int64, int64-IsInt64}
use ainode.Text.Strings.{◌<>◌, trim, lower_text}
use ainode.Redis.{cash_balance}
use ainode.Redis.Memory.{memory, MemoryStore, empty_store, put}
use ainode.Db.{
  find_user, get_transaction_by_event_id, get_user_balances, create_transaction,
  update_user_topup_balance,
}
use ainode.Billing.Deduct.{credit_balance_cache}
use ainode.Billing.Subscription.{ApplyEnv}
use ainode.Webhook.{
  Floats, TransactionEnv, TransactionWebhookRequest, TransactionProcessResult, process_transaction,
  validate, normalize_transaction_request, book, before_balance, delta_of, update_balance,
}
use ainode.Webhook.Audit.{cash, unexplained, HasAmounts, IsAmount, IsSound}
use ainode.Webhook.Audit.History.{process_all, process_transaction-IsSound}
use ainode.Webhook.Once.{process_transaction-once}
use ainode.Webhook.Credits.{Kept, Credited, process_transaction-Credited}
use ainode.Webhook.Outcomes.{processed as done}
use ainode.Webhook.OrderPaid.{
  OrderPaidEventData, text, build_transaction_request_from_order_paid, configure, default_mapping,
  complete_type, has_plan_ids, lookup, raw_json_to_map, first_non_empty, value_from_map,
  complete_amount, first_positive, number_from_map, complete_balance_type,
}
use ainode.Webhook.Events.{
  Signatures, EventRequest, EventEnvelope, Decoders, fail, handle_event, handle_order_paid_event,
}
use ainode.Webhook.Events.Safe.{handle_event_refuses, handle_order_paid_event-once}
use ainode.Tests.Accounts.{user, db}

abbrev amounts : Floats
amounts = record {
  Float = ℤ;
  zero_amount = pos 0;
  is_above_zero = λ x. ltb_ℤ (pos 0) x;
  money_to_scaled_int = int64;
  money-IsInt64 = int64-IsInt64;
}

abbrev env : TransactionEnv
env = record {
  lookup_fails = false;
  meanwhile = λ d. d;
  begin_fails = false;
  user_fails = false;
  update_fails = false;
  transaction_fails = false;
  second_lookup_fails = false;
  log_fails = false;
  commit_fails = false;
  has_redis = true;
  credit_fails = false;
}

abbrev top_up : TransactionWebhookRequest amounts
top_up = record {
  source = "";
  event = "topup.paid";
  event_id = " ev-1 ";
  user_id = pos 7;
  type = "Topup";
  balance_type = "cash";
  direction = "credit";
  amount = pos 25;
  source_id = "o-1";
  remark = "";
}

abbrev withdrawal : TransactionWebhookRequest amounts
withdrawal = record top_up { event_id = "ev-2"; direction = "debit"; amount = pos 60 }

abbrev store : MemoryStore
store = put (cash_balance (pos 7)) (some (pos 45)) empty_store

sound : IsSound db
sound uid =
    if-cases HasAmounts (eqb_ℤ (pos 7) uid) (some (user (pos 7)))
      (if eqb_ℤ (pos 8) uid then some (user (pos 8)) else none) (λ _. amounts_of (pos 7))
      (λ _.
        if-cases HasAmounts (eqb_ℤ (pos 8) uid) (some (user (pos 8))) none (λ _. amounts_of (pos 8))
          (λ _. tt))
  where
    amounts_of : (id : ℤ) → IsAmount (some (pos 50)) × IsAmount (some (pos 30))
    amounts_of id = (
      record { amount = pos 50; filled = refl; nonneg = refl; small = omega arith },
      record { amount = pos 30; filled = refl; nonneg = refl; small = omega arith },
    )

process_transaction-IsSound_example :
    HasAmounts (
      find_user
        (pos 7)
        (process_all amounts memory ((env, top_up) ∷ (env, withdrawal) ∷ []) (db, store)).0.users)
    × (unexplained cash
          (pos 7)
          (process_all amounts memory ((env, top_up) ∷ (env, withdrawal) ∷ []) (db, store)).0
        ≡ unexplained cash (pos 7) db)
process_transaction-IsSound_example =
    process_transaction-IsSound amounts memory ((env, top_up) ∷ (env, withdrawal) ∷ []) db store
      ((λ d h. (h, λ q uid. refl)), ((λ d h. (h, λ q uid. refl)), tt)) sound cash (pos 7)

process_transaction-Credited_example :
    Kept amounts memory env top_up db store
      (process_transaction amounts memory env top_up (db, store))
    ⊎ Credited amounts memory env top_up db store
        (process_transaction amounts memory env top_up (db, store))
process_transaction-Credited_example =
    process_transaction-Credited amounts memory env top_up db store

process_transaction-once_example :
    let (r₁, db₁, s₁) = process_transaction amounts memory env top_up (db, store) in
    let (r₂, db₂, s₂) =
      process_transaction amounts memory env (record withdrawal { event_id = "ev-1" }) (db₁, s₁) in
    (db₂ ≡ db₁)
    × (s₂ ≡ s₁)
    × Succeeds
        (λ (a : TransactionProcessResult). (a.already_processed ≡ true) × (a.transaction_id ≡ 0))
        r₂
unfolding trim process_transaction validate normalize_transaction_request lower_text int64
    get_transaction_by_event_id book get_user_balances ◌+ℤ◌ before_balance delta_of
    create_transaction update_balance update_user_topup_balance credit_balance_cache
process_transaction-once_example =
    process_transaction-once amounts memory env env top_up (record withdrawal { event_id = "ev-1" })
      (done 0 true) db store refl refl

abbrev signatures : Signatures
signatures = record {
  Mac = String;
  sign = λ token message. token <> message;
  decode_string = λ s. some s;
  equal = str_eq;
}

abbrev order : OrderPaidEventData amounts
order = record {
  id = "o-1";
  amount = pos 25;
  user_id = pos 7;
  meta_data = "m";
  product = record { type = "credit"; meta_data = "" };
  transaction = none;
}

abbrev decoders : Decoders amounts
decoders = record {
  envelope = λ s. some (record { event = "order.paid"; payload = s });
  json_map = λ s. some (("balance_type", text "cash") ∷ []);
  order_paid = λ s. some order;
  subscription_apply = λ s. none;
  subscription_cancel = λ s. none;
  parse_time = λ s. none;
}

abbrev envelope : EventEnvelope
envelope = record { event = "order.paid"; payload = "p" }

handle_order_paid_event-once_example :
    let (r₁, db₁, s₁) = handle_order_paid_event amounts memory decoders env envelope (db, store) in
    let (r₂, db₂, s₂) = handle_order_paid_event amounts memory decoders env envelope (db₁, s₁) in
    (db₂ ≡ db₁) × (s₂ ≡ s₁)
unfolding handle_order_paid_event build_transaction_request_from_order_paid configure
    default_mapping complete_type has_plan_ids lookup raw_json_to_map first_non_empty value_from_map
    complete_amount first_positive number_from_map complete_balance_type trim process_transaction
    validate normalize_transaction_request lower_text int64 get_transaction_by_event_id book
    get_user_balances ◌+ℤ◌ before_balance delta_of create_transaction update_balance
    update_user_topup_balance credit_balance_cache
handle_order_paid_event-once_example =
    handle_order_paid_event-once amounts memory decoders env env envelope envelope order order db
      store (done 0 true) refl refl refl refl refl

abbrev forged : EventRequest
forged = record {
  authorization = "Bearer guess";
  timestamp = "1";
  signature = "00";
  body = some "p";
}

abbrev apply_env : ApplyEnv
apply_env = record {
  lookup_fails = false;
  begin_fails = false;
  balances_fail = false;
  apply_fails = false;
  transaction_fails = false;
  log_fails = false;
  cash_log_fails = false;
  commit_fails = false;
  has_redis = true;
}

handle_event_refuses_example :
    handle_event amounts memory signatures decoders "secret" env apply_env forged (db, store)
    ≡ (fail amounts 401 "Unauthorized", db, store)
unfolding trim
handle_event_refuses_example =
    handle_event_refuses amounts memory signatures decoders "secret" env apply_env forged db store
      "p" refl (ground (arith, eq_iff "Bearer guess" "Bearer secret"))
      (λ m h. let same : "00" ≡ m = cc in rw (← same) refl)
