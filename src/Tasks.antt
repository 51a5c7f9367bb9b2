-- ===== src/Tasks.antt =====
-- Asynchronous tasks: internal/api/gateway/async_tasks.go, with the statements on async_tasks of
-- internal/db/query.sql.go and billing_queries.go. The payloads of a task, the times and the JSON
-- of the answers are left out; the adapter of the provider is its answers. A call that fails has
-- changed nothing.
pub mod Rows
pub mod Lookup
pub mod Once
pub mod Life
pub mod Races
pub use ainode.Tasks.Rows.{
  AsyncTask, TaskResponse, TaskEnv, TaskRequest, TaskReply, accepted, text_or_null, failed,
  answered,
}
unfoldable pub use ainode.Tasks.Rows.{
  is_terminal_task_status, get_async_task_by_id_and_user, update_task, mark_async_task_status,
  mark_async_task_submitted, set_async_task_sub_deducted, task_bill, sub_of, task_deduction,
  success_bill, new_task,
}
use ainode.Prelude.{
  ℕ, Bool, true, false, not, ◌&&◌, ◌||◌, Option, none, some, List, [], ◌∷◌, String, str_eq,
  if◌then◌else◌, leb, ok, err,
}
use ainode.Prelude.Int.{ℤ, pos, ltb_ℤ, eqb_ℤ}
use ainode.Redis.{Redis}
use ainode.Billing.Pools.{Deduction}
use ainode.Billing.Request.{SettlementRequest}
use ainode.Billing.Settlement.{SettleEnv, World, settle, refund}

module _ (R : Redis) where
  pub record TaskState : Type 0 where
    pub tasks : List AsyncTask
    pub world : World R

  abbrev pub refund_task : TaskEnv → AsyncTask → TaskState → TaskState
  refund_task env t st = record st {
    world =
        refund R env.settle_env t.user_id t.pre_deducted_cents (task_deduction env t) (task_bill t)
          st.world;
  }

  -- MarkAsyncTaskStatus with its row, which is the task of the caller if it fails.
  abbrev pub mark : Bool → AsyncTask → String → ℤ → TaskState → Bool × AsyncTask × TaskState
  mark fails t status cost st = if fails then (false, t, st) else (
    true,
    record t { status = status; actual_cost_cents = cost },
    record st { tasks = mark_async_task_status t.id status cost st.tasks },
  )

  -- The bill of a task that has succeeded, and its cost, once the bill is out.
  unfoldable pub finalize_success : TaskEnv → AsyncTask → TaskState → AsyncTask × TaskState
  finalize_success env t st =
      if ltb_ℤ (pos 0) t.actual_cost_cents
      then (t, st)
      else (let (r, w) = settle R env.settle_env (success_bill env t) st.world in
          let st' : TaskState = record st { world = w } in
          let (marked, t', st'') = mark env.cost_mark_fails t t.status t.pre_deducted_cents st' in
          elim r [ ok u ↦ (t', st'') | err e ↦ (t, st') ])

  -- A task that has failed or is canceled, and has cost nothing, is refunded.
  unfoldable pub finalize_failure : TaskEnv → AsyncTask → TaskState → AsyncTask × TaskState
  finalize_failure env t st =
      if ltb_ℤ (pos 0) t.pre_deducted_cents && eqb_ℤ t.actual_cost_cents (pos 0)
      then (t, refund_task env t st)
      else (t, st)

  unfoldable pub finalize_terminal_task : TaskEnv → AsyncTask → TaskState → AsyncTask × TaskState
  finalize_terminal_task env t st =
      if str_eq t.status "succeeded"
      then finalize_success env t st
      else if str_eq t.status "failed" || str_eq t.status "canceled"
      then finalize_failure env t st
      else (t, st)

  abbrev pub finalize_if_terminal : TaskEnv → AsyncTask → TaskState → AsyncTask × TaskState
  finalize_if_terminal env t st =
      if is_terminal_task_status t.status then finalize_terminal_task env t st else (t, st)

  unfoldable pub fail_task_and_refund : TaskEnv → AsyncTask → TaskState → AsyncTask × TaskState
  fail_task_and_refund env t st =
      let (marked, t', st') = mark env.mark_fails t "failed" (pos 0) st in
      if ltb_ℤ (pos 0) t'.pre_deducted_cents then (t', refund_task env t' st') else (t', st')

  -- Once the upstream has accepted the task.
  unfoldable pub record_submission :
      TaskEnv → AsyncTask → ℤ × String → TaskResponse → TaskState → TaskReply × TaskState
  record_submission env t (channel_id, provider) r st =
      let t' : AsyncTask = record t {
        channel_id = some channel_id;
        provider = provider;
        status = r.status;
        upstream_task_id = text_or_null r.task_id;
      } in
      let st' : TaskState = record st {
        tasks =
            mark_async_task_submitted t.id channel_id provider r.status (text_or_null r.task_id)
              st.tasks;
      } in
      if env.submitted_fails
      then (failed 500, st)
      else (let (t'', st'') = finalize_if_terminal env t' st' in (answered t'', st''))

  abbrev pub submit_answer :
      TaskEnv → AsyncTask → ℤ × String → Option TaskResponse → TaskState → TaskReply × TaskState
  submit_answer env t ch none st = (failed 502, (fail_task_and_refund env t st).1)
  submit_answer env t ch (some r) st = record_submission env t ch r st

  abbrev pub submit_on :
      TaskEnv → AsyncTask → Option (ℤ × String) → TaskState → TaskReply × TaskState
  submit_on env t none st = (failed 502, (fail_task_and_refund env t st).1)
  submit_on env t (some ch) st =
      if not env.has_adapter
      then (failed 502, (fail_task_and_refund env t st).1)
      else submit_answer env t ch (accepted env.answer) st

  -- The task is in the table: look for a channel, and submit the task there.
  unfoldable pub submit_task : TaskEnv → AsyncTask → TaskState → TaskReply × TaskState
  submit_task env t st = submit_on env t env.channel st

  -- The part of the sub pool is written by a second statement, which may fail.
  abbrev pub with_sub : TaskEnv → TaskRequest → AsyncTask → TaskState → AsyncTask × TaskState
  with_sub env req t st =
      if ltb_ℤ (pos 0) req.deduction.sub && not env.set_sub_fails
      then (
        record t { sub_deducted = req.deduction.sub },
        record st { tasks = set_async_task_sub_deducted t.id req.deduction.sub st.tasks },
      )
      else (t, st)

  unfoldable pub create_video_generation_task :
      TaskEnv → TaskRequest → TaskState → TaskReply × TaskState
  create_video_generation_task env req st =
      if not req.is_valid || str_eq req.model_name ""
      then (failed 400, st)
      else if env.create_fails
      then (failed 500, st)
      else (let (t, st') =
            with_sub env req (new_task req) (record st { tasks = new_task req ∷ st.tasks }) in
          submit_task env t st')

  -- What the upstream says of the task, if it says something.
  abbrev pub refresh_answer :
      TaskEnv → AsyncTask → Option TaskResponse → TaskState → AsyncTask × TaskState
  refresh_answer env t none st = (t, st)
  refresh_answer env t (some r) st =
      if env.mark_fails
      then (t, st)
      else finalize_if_terminal env (record t { status = r.status })
          (record st { tasks = mark_async_task_status t.id r.status t.actual_cost_cents st.tasks })

  -- The channel, the upstream's id of the task, and the channel's row are there.
  abbrev pub refresh_on :
      TaskEnv
      → AsyncTask
      → Option ℤ
      → Option String
      → Option (ℤ × String)
      → TaskState
      → AsyncTask × TaskState
  refresh_on env t (some id) (some upstream) (some ch) st =
      if not env.supports_async || not env.has_adapter
      then (t, st)
      else refresh_answer env t (accepted env.answer) st
  refresh_on env t _ _ _ st = (t, st)

  -- refreshTaskStatus; what fails leaves the task as it is.
  unfoldable pub refresh_task_status : TaskEnv → AsyncTask → TaskState → AsyncTask × TaskState
  refresh_task_status env t st = refresh_on env t t.channel_id t.upstream_task_id env.channel st

  -- What GetTask does with the task that it has read.
  unfoldable pub answer_task : TaskEnv → AsyncTask → TaskState → TaskReply × TaskState
  answer_task env t st =
      if is_terminal_task_status t.status
      then (answered t, st)
      else (let (t', st') = refresh_task_status env t st in (answered t', st'))

  -- pgx.ErrNoRows is the status 404.
  abbrev pub on_task :
      (AsyncTask → TaskState → TaskReply × TaskState)
      → Option AsyncTask
      → TaskState
      → TaskReply × TaskState
  on_task f none st = (failed 404, st)
  on_task f (some t) st = f t st

  unfoldable pub get_task : TaskEnv → String → ℤ → TaskState → TaskReply × TaskState
  get_task env id uid st =
      if env.fetch_fails
      then (failed 500, st)
      else on_task (answer_task env) (get_async_task_by_id_and_user id uid st.tasks) st

  -- The upstream is told, if the task is there; whether it may be canceled here.
  unfoldable pub cancels_upstream : TaskEnv → AsyncTask → Bool
  cancels_upstream env t = elim (t.channel_id) [
    | none ↦ true
    | some ch ↦ elim (t.upstream_task_id) [
      | none ↦ true
      | some upstream ↦ elim (env.channel) [
        | none ↦ true
        | some found ↦
            if not env.has_adapter
            then false
            else elim (accepted env.answer) [ none ↦ false | some r ↦ true ]
      ]
    ]
  ]

  -- What CancelTask does with the task that it has read.
  unfoldable pub cancel_read_task : TaskEnv → AsyncTask → TaskState → TaskReply × TaskState
  cancel_read_task env t st =
      if is_terminal_task_status t.status
      then (answered t, st)
      else if not (cancels_upstream env t)
      then (failed 502, st)
      else if env.mark_fails
      then (failed 500, st)
      else (let t' : AsyncTask = record t { status = "canceled" } in
          let st' : TaskState = record st {
            tasks = mark_async_task_status t.id "canceled" t.actual_cost_cents st.tasks;
          } in
          let (t'', st'') = finalize_failure env t' st' in (answered t'', st''))

  unfoldable pub cancel_task : TaskEnv → String → ℤ → TaskState → TaskReply × TaskState
  cancel_task env id uid st =
      if env.fetch_fails
      then (failed 500, st)
      else on_task (cancel_read_task env) (get_async_task_by_id_and_user id uid st.tasks) st
