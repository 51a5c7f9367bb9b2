-- ===== src/Tasks/Once.antt =====
-- A task is billed once, however often it is read and canceled.
use ainode.Prelude.{
  arith, ◌≡◌, ◌⊎◌, inl, inr, refl, sym, ap, subst, ◌∙◌, Bool, true, false, not, ◌&&◌, ◌||◌,
  Bool-cases, Option, none, some, List, [], ◌∷◌, ◌++◌, String, str_eq, if◌then◌else◌, if-cases, All,
}
use ainode.Prelude.Int.{ℤ, pos, ◌<ℤ◌, ltb_ℤ, eqb_ℤ}
use ainode.Redis.{Redis}
use ainode.Billing.Request.{SettlementRequest}
use ainode.Billing.Settlement.{World, settle, refund_log}
use ainode.Billing.Settlement.Sent.{settle_sent, settle_ok, refund_sent}
use ainode.Tasks.Lookup.{get_task-update, get_task-id}
use ainode.Tasks.{
  AsyncTask, is_terminal_task_status, get_async_task_by_id_and_user, update_task,
  mark_async_task_status, TaskEnv, TaskResponse, TaskState, TaskReply, failed, answered, accepted,
  task_bill, success_bill, task_deduction, refund_task, finalize_success, finalize_failure,
  finalize_terminal_task, finalize_if_terminal, on_task, refresh_answer, refresh_on,
  refresh_task_status, answer_task, get_task, cancels_upstream, cancel_read_task, cancel_task,
}

canceled_is_terminal : is_terminal_task_status "canceled" ≡ true
unfolding is_terminal_task_status
canceled_is_terminal = refl

not_succeeded :
    (status : String)
    → is_terminal_task_status status ≡ true
    → str_eq status "succeeded" ≡ false
    → (str_eq status "failed" || str_eq status "canceled") ≡ true
unfolding is_terminal_task_status
not_succeeded status ended differs = ground arith

-- GetTask and CancelTask, with the answers to their calls.
pub data TaskCall : Type 0 where
  fetches cancels : TaskEnv → TaskCall

abbrev pub env_of : TaskCall → TaskEnv
env_of (fetches env) = env
env_of (cancels env) = env

module _ (R : Redis) (id : String) (uid : ℤ) (base : List SettlementRequest) where
  -- Open tasks have sent no bill, and those that have ended have sent one.
  abbrev pub Progress : AsyncTask → World R → Type 0
  Progress t w =
      ((is_terminal_task_status t.status ≡ false) × (t.actual_cost_cents ≡ pos 0) × (w.sent ≡ base))
      ⊎ ((is_terminal_task_status t.status ≡ true)
          × (bill : SettlementRequest) × (bill.request_id ≡ t.request_id)
          × (w.sent ≡ base ++ bill ∷ []))

  abbrev pub Tracked : TaskState R → Type 0
  Tracked st =
      (t : AsyncTask) × (get_async_task_by_id_and_user id uid st.tasks ≡ some t)
      × (pos 0 <ℤ t.pre_deducted_cents)
      × Progress t st.world

  -- The row after MarkAsyncTaskStatus.
  pub marked_row :
      (t : AsyncTask) (status : String) (cost : ℤ) (ts : List AsyncTask)
      → get_async_task_by_id_and_user id uid ts ≡ some t
      → get_async_task_by_id_and_user id uid (mark_async_task_status t.id status cost ts)
        ≡ some (record t { status = status; actual_cost_cents = cost })
  unfolding mark_async_task_status
  marked_row t status cost ts found =
      let f : AsyncTask → AsyncTask = λ x. record x { status = status; actual_cost_cents = cost } in
      subst (λ i. get_async_task_by_id_and_user id uid (update_task i f ts) ≡ some (f t))
        (sym (get_task-id id uid ts t found))
        (get_task-update id uid f (λ x. (refl, refl)) ts t found)

  request_of : (env : TaskEnv) (t : AsyncTask) → (success_bill env t).request_id ≡ t.request_id
  unfolding success_bill
  request_of env t = refl

  module _ (env : TaskEnv) (up : env.settle_env.enqueue_fails ≡ false) where
    -- The task that has just ended, with nothing sent for it so far.
    module _ (t : AsyncTask) (st : TaskState R)
        (found : get_async_task_by_id_and_user id uid st.tasks ≡ some t)
        (positive : pos 0 <ℤ t.pre_deducted_cents) (free : t.actual_cost_cents ≡ pos 0)
        (ended : is_terminal_task_status t.status ≡ true) (unsent : st.world.sent ≡ base) where
      pub refunded : Tracked (refund_task R env t st)
      unfolding task_bill refund_log
      refunded = (
        t,
        found,
        positive,
        inr (
          ended,
          (refund_log R (task_bill t) t.pre_deducted_cents (task_deduction env t)),
          refl,
          (refund_sent R env.settle_env up t.user_id t.pre_deducted_cents (task_deduction env t)
                (task_bill t) st.world positive).0
              ∙ ap
                  (λ l.
                    l
                    ++ refund_log R (task_bill t) t.pre_deducted_cents (task_deduction env t) ∷ [])
                  unsent,
        ),
      )

      failure : Tracked (finalize_failure R env t st).1
      unfolding finalize_failure
      failure = rw (to_refund) refunded
        where
          to_refund :
              (ltb_ℤ (pos 0) t.pre_deducted_cents && eqb_ℤ t.actual_cost_cents (pos 0)) ≡ true
          to_refund = rw free (ground arith)

      success : Tracked (finalize_success R env t st).1
      unfolding finalize_success
      success = rw (no_cost) (
          rw (settle_ok R env.settle_env up (success_bill env t) st.world) (
            if-cases (λ (x : Bool × AsyncTask × TaskState R). Tracked x.2) env.cost_mark_fails
              (false, t, settled) marked
              (λ _. (t, found, positive, inr (ended, sent_bill.0, sent_bill.1, sent_bill.2)))
              (λ _. (
                record t { actual_cost_cents = t.pre_deducted_cents },
                marked_row t t.status t.pre_deducted_cents st.tasks found,
                positive,
                inr (ended, sent_bill.0, sent_bill.1, sent_bill.2),
              ))))
        where
          no_cost : ltb_ℤ (pos 0) t.actual_cost_cents ≡ false
          no_cost = rw free refl

          settled : TaskState R
          settled = record st { world = (settle R env.settle_env (success_bill env t) st.world).1 }

          marked : Bool × AsyncTask × TaskState R
          marked = (
            true,
            record t { actual_cost_cents = t.pre_deducted_cents },
            record settled {
              tasks = mark_async_task_status t.id t.status t.pre_deducted_cents st.tasks;
            },
          )

          sent_bill :
              (bill : SettlementRequest) × (bill.request_id ≡ t.request_id)
              × (settled.world.sent ≡ base ++ bill ∷ [])
          sent_bill = (
            success_bill env t,
            request_kept,
            (settle_sent R env.settle_env up (success_bill env t) st.world).0
                ∙ ap (λ l. l ++ success_bill env t ∷ []) unsent,
          )
            where
              request_kept : (success_bill env t).request_id ≡ t.request_id
              request_kept = request_of env t

      finalized : Tracked (finalize_terminal_task R env t st).1
      unfolding finalize_terminal_task is_terminal_task_status
      finalized = elim (Bool-cases (str_eq t.status "succeeded")) [
        | inl succeeded ↦ rw succeeded success
        | inr differs ↦ rw (differs, not_succeeded t.status ended differs) failure
      ]

    -- An open task that takes a status, with the row that holds it.
    module _ (t : AsyncTask) (st : TaskState R)
        (found : get_async_task_by_id_and_user id uid st.tasks ≡ some t)
        (positive : pos 0 <ℤ t.pre_deducted_cents) (free : t.actual_cost_cents ≡ pos 0)
        (unsent : st.world.sent ≡ base) where
      pub finalized_if_terminal : Tracked (finalize_if_terminal R env t st).1
      finalized_if_terminal =
          if-cases (λ (x : AsyncTask × TaskState R). Tracked x.1) (is_terminal_task_status t.status)
            (finalize_terminal_task R env t st) (t, st)
            (λ ended. finalized t st found positive free ended unsent)
            (λ runs. (t, found, positive, inl (runs, free, unsent)))

    module _ (t : AsyncTask) (st : TaskState R)
        (found : get_async_task_by_id_and_user id uid st.tasks ≡ some t)
        (positive : pos 0 <ℤ t.pre_deducted_cents) (free : t.actual_cost_cents ≡ pos 0)
        (unsent : st.world.sent ≡ base) (runs : is_terminal_task_status t.status ≡ false) where
      as_it_is : Tracked st
      as_it_is = (t, found, positive, inl (runs, free, unsent))

      abbrev marked_as : String → TaskState R
      marked_as status = record st {
        tasks = mark_async_task_status t.id status t.actual_cost_cents st.tasks;
      }

      refresh_answered : (r : Option TaskResponse) → Tracked (refresh_answer R env t r st).1
      refresh_answered none = as_it_is
      refresh_answered (some r) =
          if-cases (λ (x : AsyncTask × TaskState R). Tracked x.1) env.mark_fails (t, st)
            (finalize_if_terminal R env (record t { status = r.status }) (marked_as r.status))
            (λ _. as_it_is)
            (λ _.
              finalized_if_terminal (record t { status = r.status }) (marked_as r.status)
                (marked_row t r.status t.actual_cost_cents st.tasks found) positive free unsent)

      refresh_found :
          (c : Option ℤ) (u : Option String) (ch : Option (ℤ × String))
          → Tracked (refresh_on R env t c u ch st).1
      refresh_found (some c) (some u) (some ch) =
          if-cases (λ (x : AsyncTask × TaskState R). Tracked x.1)
            (not env.supports_async || not env.has_adapter) (t, st)
            (refresh_answer R env t (accepted env.answer) st) (λ _. as_it_is)
            (λ _. refresh_answered (accepted env.answer))
      refresh_found _ _ _ = as_it_is

      answer_tracked : Tracked (answer_task R env t st).1
      unfolding answer_task refresh_task_status
      answer_tracked = rw runs (refresh_found t.channel_id t.upstream_task_id env.channel)

      cancel_tracked : Tracked (cancel_read_task R env t st).1
      unfolding cancel_read_task
      cancel_tracked = rw runs (
          if-cases (λ (x : TaskReply × TaskState R). Tracked x.1) (not (cancels_upstream R env t))
            (failed 502, st) allowed (λ _. as_it_is)
            (λ _.
              if-cases (λ (x : TaskReply × TaskState R). Tracked x.1) env.mark_fails
                (failed 500, st) canceled (λ _. as_it_is)
                (λ _.
                  failure (record t { status = "canceled" }) (marked_as "canceled")
                    (marked_row t "canceled" t.actual_cost_cents st.tasks found) positive free
                    canceled_ends unsent)))
        where
          canceled_ends : is_terminal_task_status "canceled" ≡ true
          canceled_ends = canceled_is_terminal

          canceled : TaskReply × TaskState R
          canceled =
              let (t'', st'') =
                finalize_failure R env (record t { status = "canceled" }) (marked_as "canceled") in
              (answered t'', st'')

          allowed : TaskReply × TaskState R
          allowed = if env.mark_fails then (failed 500, st) else canceled

    -- Both handlers, on the row that they have read.
    row_answered :
        (st : TaskState R) (t : AsyncTask)
        → get_async_task_by_id_and_user id uid st.tasks ≡ some t
        → pos 0 <ℤ t.pre_deducted_cents
        → Progress t st.world
        → Tracked (answer_task R env t st).1 × Tracked (cancel_read_task R env t st).1
    unfolding answer_task cancel_read_task
    row_answered st t found positive (inl (runs, free, unsent)) = (
      answer_tracked t st found positive free unsent runs,
      cancel_tracked t st found positive free unsent runs,
    )
    row_answered st t found positive (inr ended) =
        rw (ended.0) ((t, found, positive, inr ended), (t, found, positive, inr ended))

    call_tracked :
        (f : AsyncTask → TaskState R → TaskReply × TaskState R) (st : TaskState R)
        (tracked : Tracked st)
        → Tracked (f tracked.0 st).1
        → Tracked
            (if env.fetch_fails
              then (failed 500, st)
              else on_task R f (get_async_task_by_id_and_user id uid st.tasks) st).1
    call_tracked f st tracked h =
        if-cases (λ (x : TaskReply × TaskState R). Tracked x.1) env.fetch_fails (failed 500, st)
          (on_task R f (get_async_task_by_id_and_user id uid st.tasks) st) (λ _. tracked)
          (λ _. rw (tracked.1) h)

  abbrev pub call_task : TaskCall → TaskState R → TaskState R
  call_task (fetches env) st = (get_task R env id uid st).1
  call_task (cancels env) st = (cancel_task R env id uid st).1

  abbrev pub call_all : List TaskCall → TaskState R → TaskState R
  call_all [] st = st
  call_all (c ∷ cs) st = call_all cs (call_task c st)

  one_call :
      (c : TaskCall) (st : TaskState R)
      → (env_of c).settle_env.enqueue_fails ≡ false
      → Tracked st
      → Tracked (call_task c st)
  unfolding get_task cancel_task
  one_call (fetches env) st up tracked =
      call_tracked env up (answer_task R env) st tracked
        (row_answered env up st tracked.0 tracked.1 tracked.2 tracked.3).0
  one_call (cancels env) st up tracked =
      call_tracked env up (cancel_read_task R env) st tracked
        (row_answered env up st tracked.0 tracked.1 tracked.2 tracked.3).1

  pub all_tracked :
      (cs : List TaskCall) (st : TaskState R)
      → All (λ c. (env_of c).settle_env.enqueue_fails ≡ false) cs
      → Tracked st
      → Tracked (call_all cs st)
  all_tracked [] st up tracked = tracked
  all_tracked (c ∷ cs) st (up, later) tracked =
      all_tracked cs (call_task c st) later (one_call c st up tracked)

  -- A task in the table that runs, and that has no bill yet, stays tracked through every call.
  pub call_all-tracked :
      (cs : List TaskCall) (st : TaskState R) (t : AsyncTask)
      → All (λ c. (env_of c).settle_env.enqueue_fails ≡ false) cs
      → get_async_task_by_id_and_user id uid st.tasks ≡ some t
      → pos 0 <ℤ t.pre_deducted_cents
      → is_terminal_task_status t.status ≡ false
      → t.actual_cost_cents ≡ pos 0
      → st.world.sent ≡ base
      → Tracked (call_all cs st)
  call_all-tracked cs st t up found positive runs free unsent =
      all_tracked cs st up (t, found, positive, inl (runs, free, unsent))
