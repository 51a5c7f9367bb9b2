-- ===== src/Webhook/OrderPaid.antt =====
-- buildTransactionRequestFromOrderPaid of internal/api/webhook/events.go: the request of a
-- transaction that a paid order asks for. What encoding/json makes of a raw message is a parameter.
-- The metadata of the request, which processTransaction does not read, is left out.
use ainode.Prelude.{
  ℕ, Bool, false, not, ◌&&◌, ◌||◌, Option, none, some, String, str_eq, if◌then◌else◌, List, [], ◌∷◌,
  Result, ok, ltb, fail_if, ◌>>◌,
}
use ainode.Prelude.Int.{ℤ, pos, leb_ℤ}
use ainode.Text.Strings.{trim, lower_text, ◌<>◌}
use ainode.Webhook.{Floats, TransactionWebhookRequest}

-- strings.TrimSpace(value) == ""
abbrev pub is_blank : String → Bool
is_blank s = str_eq (trim s) ""

-- firstNonEmpty, of two values.
unfoldable pub first_non_empty : String → String → String
first_non_empty a b = if not (is_blank a) then a else if not (is_blank b) then b else ""

module _ (F : Floats) where
  -- A value of map[string]any; of a list only the length is read.
  pub data JsonValue : Type 0 where
    text : String → JsonValue
    number : F.Float → JsonValue
    items : ℕ → JsonValue
    other : JsonValue

  abbrev pub JsonMap : Type 0
  JsonMap = List (String × JsonValue)

  unfoldable pub lookup : String → JsonMap → Option JsonValue
  lookup key [] = none
  lookup key ((k, v) ∷ m) = if str_eq k key then some v else lookup key m

  abbrev pub text_of : Option JsonValue → String
  text_of (some (text s)) = trim s
  text_of _ = ""

  unfoldable pub value_from_map : JsonMap → String → String
  value_from_map m key = text_of (lookup key m)

  abbrev pub number_of : Option JsonValue → F.Float
  number_of (some (number x)) = x
  number_of _ = F.zero_amount

  unfoldable pub number_from_map : JsonMap → String → F.Float
  number_from_map m key = number_of (lookup key m)

  abbrev pub has_items : Option JsonValue → Bool
  has_items (some (items n)) = ltb 0 n
  has_items _ = false

  unfoldable pub has_plan_ids : JsonMap → Bool
  has_plan_ids m = has_items (lookup "plan_ids" m)

  unfoldable pub first_positive : List F.Float → F.Float
  first_positive [] = F.zero_amount
  first_positive (x ∷ xs) = if F.is_above_zero x then x else first_positive xs

  pub record OrderIntegrationTransaction : Type 0 where
    pub enabled : Option Bool
    pub type : String
    pub balance_type : String
    pub direction : String
    pub amount : F.Float
    pub source_id : String
    pub remark : String

  pub record OrderPaidEventProduct : Type 0 where
    pub type : String
    pub meta_data : String

  pub record OrderPaidEventData : Type 0 where
    pub id : String
    pub amount : F.Float
    pub user_id : ℤ
    pub meta_data : String
    pub product : OrderPaidEventProduct
    pub transaction : Option OrderIntegrationTransaction

  -- `decode` is json.Unmarshal into a map.
  module _ (decode : String → Option JsonMap) where
    abbrev or_empty : Option JsonMap → JsonMap
    or_empty none = []
    or_empty (some m) = m

    unfoldable pub raw_json_to_map : String → JsonMap
    raw_json_to_map raw = if str_eq raw "" || str_eq raw "null" then [] else or_empty (decode raw)

    -- txConfig.Enabled != nil && !*txConfig.Enabled
    abbrev pub is_disabled : Option OrderIntegrationTransaction → Bool
    is_disabled none = false
    is_disabled (some c) = elim (c.enabled) [ some on ↦ not on | none ↦ false ]

    -- What the order and its product say, before the configuration.
    pub record Mapping : Type 0 where
      pub type : String
      pub balance_type : String
      pub direction : String
      pub source_id : String
      pub remark : String
      pub amount : F.Float
      pub explicit : Bool

    unfoldable pub default_mapping : OrderPaidEventData → Mapping
    default_mapping order = record {
      type = "";
      balance_type = trim (
          lower_text (
            first_non_empty (value_from_map (raw_json_to_map order.meta_data) "balance_type")
              (value_from_map (raw_json_to_map order.product.meta_data) "balance_type")));
      direction = "credit";
      source_id = order.id;
      remark = "APayShop order paid: " <> order.id;
      amount = F.zero_amount;
      explicit = false;
    }

    -- if txConfig != nil { ... }
    unfoldable pub configure : Option OrderIntegrationTransaction → Mapping → Mapping
    configure none m = m
    configure (some c) m = record {
      type = trim (lower_text c.type);
      balance_type = trim (lower_text (first_non_empty c.balance_type m.balance_type));
      direction = trim (lower_text (first_non_empty c.direction m.direction));
      source_id = first_non_empty c.source_id m.source_id;
      remark = first_non_empty (trim c.remark) m.remark;
      amount = if F.is_above_zero c.amount then c.amount else m.amount;
      explicit = not (is_disabled (some c));
    }

    abbrev is_plan : OrderPaidEventData → Bool
    is_plan order =
        has_plan_ids (raw_json_to_map order.meta_data)
        || has_plan_ids (raw_json_to_map order.product.meta_data)
        || str_eq order.product.type "subscription"

    -- The amount, the type and the balance that are still open, from what is known by now.
    unfoldable pub complete_amount : OrderPaidEventData → Mapping → F.Float
    complete_amount order m =
        if F.is_above_zero m.amount
        then m.amount
        else first_positive (
            number_from_map (raw_json_to_map order.meta_data) "recharge_amount"
            ∷ number_from_map (raw_json_to_map order.product.meta_data) "recharge_amount"
            ∷ order.amount
            ∷ [])

    unfoldable pub complete_type : OrderPaidEventData → Mapping → String
    complete_type order m =
        if not (str_eq m.type "")
        then m.type
        else if is_plan order
        then "grant_issue"
        else if not (str_eq m.balance_type "")
        then "topup"
        else ""

    unfoldable pub complete_balance_type : OrderPaidEventData → String → Mapping → String
    complete_balance_type order type m =
        if not (str_eq m.balance_type "")
        then m.balance_type
        else if str_eq type "grant_issue" || is_plan order
        then "grant"
        else if str_eq type "topup"
        then "cash"
        else ""

    -- The request, or the reason for which the event is ignored.
    unfoldable pub build_transaction_request_from_order_paid :
        String → OrderPaidEventData → Result String (TransactionWebhookRequest F)
    build_transaction_request_from_order_paid event order = do
      fail_if (str_eq order.id "") "Missing order ID"
      fail_if (leb_ℤ order.user_id (pos 0)) "Order has no linked user, event ignored"
      fail_if (is_disabled order.transaction) "Transaction integration disabled"
      let m = configure order.transaction (default_mapping order)
      let amount = complete_amount order m
      let type = complete_type order m
      let balance_type = complete_balance_type order type m
      fail_if (not m.explicit && str_eq type "" && str_eq balance_type "")
          "No transaction mapping found in event payload"
      fail_if (not (F.is_above_zero amount)) "Transaction amount is missing or invalid"
      ok (record {
        source = "apayshop";
        event = event;
        event_id = "apayshop:" <> event <> ":" <> order.id;
        user_id = order.user_id;
        type = type;
        balance_type = balance_type;
        direction = first_non_empty m.direction "credit";
        amount = amount;
        source_id = m.source_id;
        remark = m.remark;
      })
