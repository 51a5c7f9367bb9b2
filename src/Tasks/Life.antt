-- ===== src/Tasks/Life.antt =====
-- A task from its creation on.
use ainode.Prelude.{
  arith, ◌≡◌, ◌≢◌, refl, sym, subst, true, false, not, ◌&&◌, Option, none, some, List, ◌∷◌, String,
  str_eq, eq_iff, if-cases, All,
}
use ainode.Prelude.Int.{ℤ, pos, ◌<ℤ◌, ltb_ℤ}
use ainode.Redis.{Redis}
use ainode.Billing.Request.{SettlementRequest}
use ainode.Tasks.{
  AsyncTask, is_terminal_task_status, get_async_task_by_id_and_user, set_async_task_sub_deducted,
  mark_async_task_submitted, TaskEnv, TaskRequest, TaskResponse, TaskState, TaskReply, failed,
  accepted, text_or_null, fail_task_and_refund, update_task, mark_async_task_status, submit_answer,
  submit_on, record_submission, submit_task, new_task, with_sub, create_video_generation_task,
}
use ainode.Tasks.Lookup.{get_task-update, get_task-id}
use ainode.Tasks.Once.{
  Tracked, TaskCall, env_of, call_all, all_tracked, finalized_if_terminal, marked_row, refunded,
}

failed_is_terminal : is_terminal_task_status "failed" ≡ true
unfolding is_terminal_task_status
failed_is_terminal = refl

module _ (R : Redis) (req : TaskRequest) (env : TaskEnv) (up : env.settle_env.enqueue_fails ≡ false)
    (marks : env.mark_fails ≡ false) (records : env.submitted_fails ≡ false)
    (positive : pos 0 <ℤ req.pre_deducted_cents) (base : List SettlementRequest) where
  -- The row of a queued task, and nothing sent for it.
  module _ (t : AsyncTask) (st : TaskState R)
      (found : get_async_task_by_id_and_user req.task_id req.user_id st.tasks ≡ some t)
      (owed : pos 0 <ℤ t.pre_deducted_cents) (free : t.actual_cost_cents ≡ pos 0)
      (unsent : st.world.sent ≡ base) where
    abbrev IsTracked : TaskState R → Type 0
    IsTracked = Tracked R req.task_id req.user_id base

    failed-IsTracked : IsTracked (fail_task_and_refund R env t st).1
    unfolding fail_task_and_refund
    failed-IsTracked =
        simp (marks, owes)
          (refunded R req.task_id req.user_id base env up
            (record t { status = "failed"; actual_cost_cents = pos 0 })
            (record st { tasks = mark_async_task_status t.id "failed" (pos 0) st.tasks })
            (marked_row R req.task_id req.user_id base t "failed" (pos 0) st.tasks found) owed refl
            failed_is_terminal unsent)
      where
        owes : ltb_ℤ (pos 0) t.pre_deducted_cents ≡ true
        owes = ground arith

    submitted_row :
        (ch : ℤ) (provider status : String) (upstream : Option String)
        → get_async_task_by_id_and_user req.task_id req.user_id
            (mark_async_task_submitted t.id ch provider status upstream st.tasks)
          ≡ some (record t {
            channel_id = some ch;
            provider = provider;
            status = status;
            upstream_task_id = upstream;
          })
    unfolding mark_async_task_submitted
    submitted_row ch provider status upstream =
        let f : AsyncTask → AsyncTask = λ x. record x {
          channel_id = some ch;
          provider = provider;
          status = status;
          upstream_task_id = upstream;
        } in
        subst
          (λ i.
            get_async_task_by_id_and_user req.task_id req.user_id (update_task i f st.tasks)
            ≡ some (f t))
          (sym (get_task-id req.task_id req.user_id st.tasks t found))
          (get_task-update req.task_id req.user_id f (λ x. (refl, refl)) st.tasks t found)

    recorded-IsTracked :
        (ch : ℤ × String) (r : TaskResponse) → IsTracked (record_submission R env t ch r st).1
    unfolding record_submission
    recorded-IsTracked (ch, provider) r = simp records (
        finalized_if_terminal R req.task_id req.user_id base env up
          (record t {
            channel_id = some ch;
            provider = provider;
            status = r.status;
            upstream_task_id = text_or_null r.task_id;
          })
          (record st {
            tasks =
                mark_async_task_submitted t.id ch provider r.status (text_or_null r.task_id)
                  st.tasks;
          })
          (submitted_row ch provider r.status (text_or_null r.task_id)) owed free unsent)

    accepted-IsTracked :
        (ch : ℤ × String) (r : Option TaskResponse) → IsTracked (submit_answer R env t ch r st).1
    accepted-IsTracked ch none = failed-IsTracked
    accepted-IsTracked ch (some r) = recorded-IsTracked ch r

    channel-IsTracked : (ch : Option (ℤ × String)) → IsTracked (submit_on R env t ch st).1
    channel-IsTracked none = failed-IsTracked
    channel-IsTracked (some ch) =
        if-cases (λ (x : TaskReply × TaskState R). IsTracked x.1) (not env.has_adapter)
          (failed 502, (fail_task_and_refund R env t st).1)
          (submit_answer R env t ch (accepted env.answer) st) (λ _. failed-IsTracked)
          (λ _. accepted-IsTracked ch (accepted env.answer))

  created_row :
      (ts : List AsyncTask)
      → get_async_task_by_id_and_user req.task_id req.user_id (new_task req ∷ ts)
        ≡ some (new_task req)
  unfolding get_async_task_by_id_and_user new_task
  created_row ts = ground (arith, eq_iff req.task_id req.task_id)

  -- The row with the part of the sub pool, if that is written.
  created_tracked :
      (st : TaskState R)
      → st.world.sent ≡ base
      → Tracked R req.task_id req.user_id base
          (let (t, st') =
              with_sub R env req (new_task req) (record st { tasks = new_task req ∷ st.tasks }) in
            submit_task R env t st').1
  unfolding submit_task new_task set_async_task_sub_deducted
  created_tracked st unsent =
      if-cases
        (λ (x : AsyncTask × TaskState R).
          Tracked R req.task_id req.user_id base (submit_on R env x.0 env.channel x.1).1)
        (ltb_ℤ (pos 0) req.deduction.sub && not env.set_sub_fails)
        (
          taken (new_task req),
          record st {
            tasks =
                set_async_task_sub_deducted req.task_id req.deduction.sub (new_task req ∷ st.tasks);
          },
        )
        (new_task req, record st { tasks = new_task req ∷ st.tasks })
        (λ _.
          channel-IsTracked (taken (new_task req))
            (record st {
              tasks =
                  set_async_task_sub_deducted req.task_id req.deduction.sub
                    (new_task req ∷ st.tasks);
            })
            (get_task-update req.task_id req.user_id taken (λ x. (refl, refl))
              (new_task req ∷ st.tasks) (new_task req) (created_row st.tasks))
            positive refl unsent env.channel)
        (λ _.
          channel-IsTracked (new_task req) (record st { tasks = new_task req ∷ st.tasks })
            (created_row st.tasks) positive refl unsent env.channel)
    where
      taken : AsyncTask → AsyncTask
      taken x = record x { sub_deducted = req.deduction.sub }

  -- Where the request is valid, its advance deduction is positive, the inserts and updates of the
  -- creation work and the queue takes every bill: after a task is created and any sequence of
  -- queries and cancellations of it has run, one after the other, whatever fails in them
  -- otherwise, the task is in the table with a positive deduction, and either it is not in a
  -- final state, has no cost and nothing was sent for it, or it is in a final state and exactly
  -- one bill was sent, with its request id.
  pub create-tracked :
      (cs : List TaskCall) (st : TaskState R)
      → All (λ c. (env_of c).settle_env.enqueue_fails ≡ false) cs
      → env.create_fails ≡ false
      → req.is_valid ≡ true
      → req.model_name ≢ ""
      → st.world.sent ≡ base
      → Tracked R req.task_id req.user_id base
          (call_all R req.task_id req.user_id base cs (create_video_generation_task R env req st).1)
  unfolding create_video_generation_task
  create-tracked cs st queues creates valid named unsent =
      all_tracked R req.task_id req.user_id base cs (create_video_generation_task R env req st).1
        queues (simp (valid, unnamed, creates) (created_tracked st unsent))
    where
      unnamed : str_eq req.model_name "" ≡ false
      unnamed = ground (arith, eq_iff req.model_name "")
