-- ===== src/Tests/Tasks.antt =====
-- A video task of the user 7, from its creation to its bill.
use ainode.Prelude.{arith, ◌≡◌, refl, true, false, some, [], ◌∷◌}
use ainode.Prelude.Int.{pos, ◌+ℤ◌}
use ainode.Redis.Memory.{memory, empty_store}
use ainode.Billing.Pools.{IsNonneg, credit}
use ainode.Billing.Scripts.Commands.{pools}
use ainode.Tasks.{
  AsyncTask, is_terminal_task_status, TaskEnv, TaskRequest, TaskResponse, TaskState,
  create_video_generation_task, cancel_read_task, cancels_upstream,
}
use ainode.Tasks.Once.{Tracked, fetches, cancels, call_all}
use ainode.Tasks.Life.{create-tracked}
use ainode.Tasks.Races.{parts, cancel_twice_refunds_twice}

abbrev submission : TaskResponse
submission = record { status_code = 200; task_id = "up-1"; status = "running" }

abbrev env : TaskEnv
env = record {
  fetch_fails = false;
  create_fails = false;
  set_sub_fails = false;
  read_sub_fails = false;
  mark_fails = false;
  submitted_fails = false;
  cost_mark_fails = false;
  channel = some (pos 2, "openai");
  supports_async = true;
  has_adapter = true;
  answer = some submission;
  settle_env = record {
    has_queries = true;
    model_policy = some "all";
    script_fails = false;
    enqueue_fails = false;
    outbox_fails = false;
  };
}

-- The upstream says that the task is done.
abbrev done_env : TaskEnv
done_env = record env { answer = some (record submission { status = "succeeded" }) }

abbrev request : TaskRequest
request = record {
  user_id = pos 7;
  task_id = "task-1";
  request_id = "req-8";
  model_name = "video-1";
  is_valid = true;
  pre_deducted_cents = pos 60;
  deduction = record { sub = pos 40; grant = pos 20; cash = pos 0 };
}

abbrev state : TaskState memory
state = record {
  tasks = [];
  world = record { store = empty_store; sent = []; outbox = record { next_id = 0; rows = [] } };
}

create-tracked_example : Tracked memory "task-1" (pos 7) [] (
    call_all memory "task-1"
      (pos 7)
      []
      (fetches env ∷ fetches done_env ∷ cancels env ∷ [])
      (create_video_generation_task memory env request state).1)
create-tracked_example =
    create-tracked memory request env refl refl refl (omega arith) []
      (fetches env ∷ fetches done_env ∷ cancels env ∷ []) state (refl, (refl, (refl, tt))) refl refl
      (λ h. cc) refl

abbrev running : AsyncTask
running = record {
  id = "task-1";
  user_id = pos 7;
  channel_id = some (pos 2);
  request_id = "req-8";
  provider = "openai";
  model_name = "video-1";
  status = "running";
  upstream_task_id = some "up-1";
  pre_deducted_cents = pos 60;
  sub_deducted = pos 40;
  grant_deducted = pos 20;
  cash_deducted = pos 0;
  actual_cost_cents = pos 0;
}

nonneg : IsNonneg (parts running)
nonneg = record { sub_nonneg = refl; grant_nonneg = refl; cash_nonneg = refl }

cancel_twice_refunds_twice_example :
    let (first, st₁) =
      cancel_read_task memory env running (record state { tasks = running ∷ [] }) in
    let (second, st₂) = cancel_read_task memory env running st₁ in
    pools memory (pos 7) st₂.world.store
    ≡ credit
        (credit
          (pools memory (pos 7) empty_store)
          (record { sub = pos 40; grant = pos 20; cash = pos 0 }))
        (record { sub = pos 40; grant = pos 20; cash = pos 0 })
unfolding is_terminal_task_status cancels_upstream ◌+ℤ◌
cancel_twice_refunds_twice_example =
    cancel_twice_refunds_twice memory running refl refl (omega arith) refl nonneg env env
      (record state { tasks = running ∷ [] }) refl refl refl refl refl refl refl refl
