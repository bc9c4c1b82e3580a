-- ===== src/Tracker/Status/Closed.antt =====
-- `apply_status` after the shutdown of the tracker.
use slurm_manager.Base.{◌≡◌, refl, ◌≢◌, ◌⊎◌, inl, inr, false, some, List, [], ◌∷◌, map, arith}
use slurm_manager.Base.Text.{Text}
use slurm_manager.Base.Dict.{values}
use slurm_manager.Base.Result.{ok, err}
use slurm_manager.Message.{SlurmMessage, msg_type}
use slurm_manager.Future.{JobFuture, RegisteredCallback, done, update_status}
use slurm_manager.Tracker.Topics.{status_key}
use slurm_manager.Tracker.State.{Tracker, Task, Ref, Env, Dispatch, SubscriptionInfo, update}
use slurm_manager.Tracker.Dispatch.{
  closed, submit_all, dispatch_global, notify, call_dispatch, matching, global_task, global_event,
}
use slurm_manager.Tracker.Status.{
  StatusMessage, parse_status, apply_status, accept_status, deliver_status, update_future,
  to_message,
}
use slurm_manager.Tracker.Status.Tasks.{dispatches}
use slurm_manager.Tracker.Status.Ending.{own_callbacks}

submit_all-closed :
    (tasks : List Task) (t : Tracker)
    → t.executor_open ≡ false
    → tasks ≢ []
    → submit_all tasks t ≡ (err closed, t)
unfolding submit_all
submit_all-closed [] t shut some_task = absurd (some_task refl)
submit_all-closed (task ∷ tasks) t shut some_task = ground (arith, shut)

map_global :
    (event : SlurmMessage) (items : List RegisteredCallback)
    → items ≢ []
    → map (global_task event) items ≢ []
map_global event [] h e = h refl
map_global event (item ∷ items) h e = ground arith

dispatch_global-closed :
    (env : Env) (m : SlurmMessage) (job_id slurm_job_id : Text) (t : Tracker)
    → t.executor_open ≡ false
    → matching (msg_type m) (values t.global_callbacks) ≢ []
    → dispatch_global env m job_id (some slurm_job_id) t ≡ (err closed, t)
unfolding dispatch_global
dispatch_global-closed env m job_id slurm_job_id t shut some_item =
    submit_all-closed _ t shut
      (map_global (global_event env m job_id (some slurm_job_id)) _ some_item)

notify_idle :
    (env : Env) (infos : List SubscriptionInfo) (m : SlurmMessage) (t : Tracker)
    → dispatches infos ≡ []
    → notify env infos (m, t) ≡ (ok tt, (m, t))
unfolding notify
notify_idle env [] m t h = refl
notify_idle env (info ∷ infos) m t h = ground (arith, notify_idle env infos m t)

notify-closed :
    (env : Env) (infos : List SubscriptionInfo) (m : SlurmMessage) (t : Tracker)
    → t.executor_open ≡ false
    → dispatches infos ≢ []
    → let (result, (left, u)) = notify env infos (m, t) in (result ≡ err closed) × (u ≡ t)
unfolding notify call_dispatch
notify-closed env [] m t shut h = absurd (h refl)
notify-closed env (info ∷ infos) m t shut h =
    ground (arith, shut, h, notify-closed env infos m t shut)

list_cases : (tasks : List Dispatch) → (tasks ≡ []) ⊎ (tasks ≢ [])
list_cases [] = inl refl
list_cases (d ∷ ds) = inr (λ e. ground arith)

own_closed :
    (env : Env) (m : StatusMessage) (r : Ref) (t : Tracker)
    → done (t.futures r) ≡ false
    → t.executor_open ≡ false
    → dispatches (own_callbacks r t) ≢ []
    → let p = parse_status env m in
      apply_status env m r t ≡ (
        err closed,
        record t {
          futures = update r (update_status p.job_status p.detail (t.futures r)) t.futures;
        },
      )
unfolding apply_status accept_status deliver_status update_future
own_closed env m r t live shut own =
    let p = parse_status env m in
    let u : Tracker = update_future r p.job_status p.detail t in
    let n = notify-closed env (own_callbacks r t) (to_message p.message) u shut own in
    ground (arith, live, n)

global_closed :
    (env : Env) (m : StatusMessage) (r : Ref) (t : Tracker)
    → done (t.futures r) ≡ false
    → t.executor_open ≡ false
    → dispatches (own_callbacks r t) ≡ []
    → matching status_key (values t.global_callbacks) ≢ []
    → let p = parse_status env m in
      apply_status env m r t ≡ (
        err closed,
        record t {
          futures = update r (update_status p.job_status p.detail (t.futures r)) t.futures;
        },
      )
unfolding apply_status accept_status deliver_status update_future
global_closed env m r t live shut idle listened =
    let p = parse_status env m in
    let f : JobFuture = t.futures r in
    let u : Tracker = update_future r p.job_status p.detail t in
    ground (
      arith,
      live,
      notify_idle env (own_callbacks r t) (to_message p.message) u idle,
      dispatch_global-closed env (to_message p.message) f.job_id f.slurm_job_id u shut listened,
    )

-- A status for a job whose future is not done, once the executor is shut down, and where the job
-- has a closure of its own on its statuses or there is a manager-wide status callback, raises the
-- error of the executor after it has updated the future, and changes nothing else: whatever the
-- status, the job keeps its registry entry and its topics, in the tracker and in the Redis client.
pub apply_status-closed :
    (env : Env) (m : StatusMessage) (r : Ref) (t : Tracker)
    → done (t.futures r) ≡ false
    → t.executor_open ≡ false
    → (dispatches (own_callbacks r t) ≢ []) ⊎ (matching status_key (values t.global_callbacks) ≢ [])
    → let p = parse_status env m in
      apply_status env m r t ≡ (
        err closed,
        record t {
          futures = update r (update_status p.job_status p.detail (t.futures r)) t.futures;
        },
      )
apply_status-closed env m r t live shut h = elim (list_cases (dispatches (own_callbacks r t))) [
  | inr own ↦ own_closed env m r t live shut own
  | inl idle ↦ elim h [
    | inl own ↦ absurd (own idle)
    | inr listened ↦ global_closed env m r t live shut idle listened
  ]
]
