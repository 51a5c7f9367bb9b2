-- ===== src/Tasks/Rows.antt =====
-- The rows of internal/api/gateway/async_tasks.go: the table async_tasks with its statements in
-- internal/db/query.sql.go and billing_queries.go, the answers of the calls, and the bills of a task.
use ainode.Prelude.{
  ℕ, Bool, ◌&&◌, ◌||◌, Option, none, some, List, [], ◌∷◌, String, str_eq, if◌then◌else◌, leb,
}
use ainode.Prelude.Int.{ℤ, pos, eqb_ℤ}
use ainode.Billing.Pools.{Deduction}
use ainode.Billing.Request.{SettlementRequest}
use ainode.Billing.Settlement.{SettleEnv}

-- The status is the text of the column, which an adapter may also set to any other.
pub record AsyncTask : Type 0 where
  pub id : String
  pub user_id : ℤ
  pub channel_id : Option ℤ
  pub request_id : String
  pub provider : String
  pub model_name : String
  pub status : String
  pub upstream_task_id : Option String
  pub pre_deducted_cents : ℤ
  pub sub_deducted : ℤ
  pub grant_deducted : ℤ
  pub cash_deducted : ℤ
  pub actual_cost_cents : ℤ

unfoldable pub is_terminal_task_status : String → Bool
is_terminal_task_status status =
    str_eq status "succeeded" || str_eq status "failed" || str_eq status "canceled"

-- WHERE id = $1 AND user_id = $2
unfoldable pub get_async_task_by_id_and_user : String → ℤ → List AsyncTask → Option AsyncTask
get_async_task_by_id_and_user id uid [] = none
get_async_task_by_id_and_user id uid (t ∷ ts) =
    if str_eq t.id id && eqb_ℤ t.user_id uid
    then some t
    else get_async_task_by_id_and_user id uid ts

-- UPDATE async_tasks SET ... WHERE id = $1
unfoldable pub update_task : String → (AsyncTask → AsyncTask) → List AsyncTask → List AsyncTask
update_task id f [] = []
update_task id f (t ∷ ts) = (if str_eq t.id id then f t else t) ∷ update_task id f ts

unfoldable pub mark_async_task_status : String → String → ℤ → List AsyncTask → List AsyncTask
mark_async_task_status id status actual_cost =
    update_task id (λ t. record t { status = status; actual_cost_cents = actual_cost })

unfoldable pub mark_async_task_submitted :
    String → ℤ → String → String → Option String → List AsyncTask → List AsyncTask
mark_async_task_submitted id channel_id provider status upstream_task_id = update_task id (λ t.
    record t {
      channel_id = some channel_id;
      provider = provider;
      status = status;
      upstream_task_id = upstream_task_id;
    })

unfoldable pub set_async_task_sub_deducted : String → ℤ → List AsyncTask → List AsyncTask
set_async_task_sub_deducted id sub = update_task id (λ t. record t { sub_deducted = sub })

-- What the upstream answers to a submission or a query: its HTTP status and the task's state.
pub record TaskResponse : Type 0 where
  pub status_code : ℕ
  pub task_id : String
  pub status : String

-- The answers to the calls of one request. `channel` is what the channel manager or the table of
-- the channels gives: the id and the name of the provider; an adapter may be missing.
pub record TaskEnv : Type 0 where
  pub fetch_fails : Bool
  pub create_fails : Bool
  pub set_sub_fails : Bool
  pub read_sub_fails : Bool
  pub mark_fails : Bool
  pub submitted_fails : Bool
  pub cost_mark_fails : Bool
  pub channel : Option (ℤ × String)
  pub supports_async : Bool
  pub has_adapter : Bool
  pub answer : Option TaskResponse
  pub settle_env : SettleEnv

-- What the middlewares hand to the handler that creates a task.
pub record TaskRequest : Type 0 where
  pub user_id : ℤ
  pub task_id : String
  pub request_id : String
  pub model_name : String
  pub is_valid : Bool
  pub pre_deducted_cents : ℤ
  pub deduction : Deduction

pub data TaskReply : Type 0 where
  failed : ℕ → TaskReply
  answered : AsyncTask → TaskReply

-- The response is there, and its status is below 400.
abbrev pub accepted : Option TaskResponse → Option TaskResponse
accepted none = none
accepted (some r) = if leb 400 r.status_code then none else some r

abbrev or_zero_channel : Option ℤ → ℤ
or_zero_channel none = pos 0
or_zero_channel (some c) = c

abbrev pub text_or_null : String → Option String
text_or_null s = if str_eq s "" then none else some s

-- The bill of a refund.
unfoldable pub task_bill : AsyncTask → SettlementRequest
task_bill t = record {
  user_id = t.user_id;
  api_key_id = pos 0;
  channel_id = or_zero_channel t.channel_id;
  model_name = t.model_name;
  prompt_tokens = pos 0;
  completion_tokens = pos 0;
  cache_hit_tokens = pos 0;
  cache_miss_tokens = pos 0;
  pre_deducted_cents = pos 0;
  sub_deducted = pos 0;
  grant_deducted = pos 0;
  cash_deducted = pos 0;
  actual_cost_cents = pos 0;
  log_type = "";
  request_id = t.request_id;
}

-- subOf: a read that fails counts as 0.
unfoldable pub sub_of : TaskEnv → AsyncTask → ℤ
sub_of env t = if env.read_sub_fails then pos 0 else t.sub_deducted

unfoldable pub task_deduction : TaskEnv → AsyncTask → Deduction
task_deduction env t = record {
  sub = sub_of env t;
  grant = t.grant_deducted;
  cash = t.cash_deducted;
}

-- A task that succeeds costs what was deducted for it.
unfoldable pub success_bill : TaskEnv → AsyncTask → SettlementRequest
unfolding task_bill
success_bill env t = record (task_bill t) {
  pre_deducted_cents = t.pre_deducted_cents;
  sub_deducted = sub_of env t;
  grant_deducted = t.grant_deducted;
  cash_deducted = t.cash_deducted;
  actual_cost_cents = t.pre_deducted_cents;
}

unfoldable pub new_task : TaskRequest → AsyncTask
new_task req = record {
  id = req.task_id;
  user_id = req.user_id;
  channel_id = none;
  request_id = req.request_id;
  provider = "";
  model_name = req.model_name;
  status = "queued";
  upstream_task_id = none;
  pre_deducted_cents = req.pre_deducted_cents;
  sub_deducted = pos 0;
  grant_deducted = req.deduction.grant;
  cash_deducted = req.deduction.cash;
  actual_cost_cents = pos 0;
}
