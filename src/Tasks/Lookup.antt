-- ===== src/Tasks/Lookup.antt =====
-- The row of a task after a statement on it.
use ainode.Prelude.{
  arith, ◌≡◌, inl, inr, ap, true, false, Bool-cases, some, List, [], ◌∷◌, String, str_eq, eq_iff,
}
use ainode.Prelude.Int.{ℤ, eqb_ℤ}
use ainode.Tasks.{AsyncTask, get_async_task_by_id_and_user, update_task}

module _ (id : String) (uid : ℤ) (f : AsyncTask → AsyncTask)
    (keep : (t : AsyncTask) → ((f t).id ≡ t.id) × ((f t).user_id ≡ t.user_id)) where
  pub get_task-update :
      (ts : List AsyncTask) (t : AsyncTask)
      → get_async_task_by_id_and_user id uid ts ≡ some t
      → get_async_task_by_id_and_user id uid (update_task id f ts) ≡ some (f t)
  unfolding get_async_task_by_id_and_user update_task
  get_task-update [] t h = cc
  get_task-update (x ∷ ts) t h = elim (Bool-cases (str_eq x.id id)) [
    | inr other ↦ simp (other) (get_task-update ts t (tail other h))
    | inl same ↦ elim (Bool-cases (eqb_ℤ x.user_id uid)) [
      | inl mine ↦
          rw same (simp ((keep x).0, (keep x).1, same, mine) (ap some (ap f (head same mine h))))
      | inr theirs ↦
          rw same (
            simp ((keep x).0, (keep x).1, same, theirs) (get_task-update ts t (skip same theirs h)))
    ]
  ]
    where
      tail :
          str_eq x.id id ≡ false
          → get_async_task_by_id_and_user id uid (x ∷ ts) ≡ some t
          → get_async_task_by_id_and_user id uid ts ≡ some t
      tail e k = ground arith

      head :
          str_eq x.id id ≡ true
          → eqb_ℤ x.user_id uid ≡ true
          → get_async_task_by_id_and_user id uid (x ∷ ts) ≡ some t
          → x ≡ t
      head e u k = ground arith

      skip :
          str_eq x.id id ≡ true
          → eqb_ℤ x.user_id uid ≡ false
          → get_async_task_by_id_and_user id uid (x ∷ ts) ≡ some t
          → get_async_task_by_id_and_user id uid ts ≡ some t
      skip e u k = ground arith

pub get_task-id :
    (id : String) (uid : ℤ) (ts : List AsyncTask) (t : AsyncTask)
    → get_async_task_by_id_and_user id uid ts ≡ some t
    → t.id ≡ id
unfolding get_async_task_by_id_and_user
get_task-id id uid [] t h = cc
get_task-id id uid (x ∷ ts) t h = ground (arith, eq_iff x.id id, get_task-id id uid ts t)
