-- ===== src/Tracker/Status/Ending.antt =====
-- `apply_status` on the state: what a status changes, and that the first terminal one is final.
use slurm_manager.Base.{
  Bool, Bool-cases, inl, inr, ◌≡◌, refl, ap, ◌∙◌, true, false, Option, some, List, ◌++◌, map, arith,
  if◌then◌else◌,
}
use mathlib.Core.List.{append_assoc}
use slurm_manager.Base.Text.{Text}
use slurm_manager.Base.Dict.{lookup, values, entries}
use slurm_manager.Base.Result.{Result, ok, err}
use slurm_manager.Message.{SlurmMessage, msg_type, body_type}
use slurm_manager.Future.{JobStatus, JobFuture, done, update_status}
use slurm_manager.Tracker.Topics.{job_topic, status_key}
use slurm_manager.Tracker.State.{Tracker, Task, Ref, Env, SubscriptionInfo, update}
use slurm_manager.Tracker.Dispatch.{
  dispatch_global, notify, enrich, global_event, global_task, task_of, matching,
}
use slurm_manager.Tracker.Status.{
  StatusMessage, Parsed, parse_status, apply_status, accept_status, deliver_status, cleaned,
  told_all, update_future, ends, drop_monitoring, to_message,
}
use slurm_manager.Tracker.Status.Tasks.{
  OfJob, dispatches, told, told_lem, left_by, left_by-body, notify_lem, submit_all-open,
  submit_all-state, notify-state, enrich-left_by,
}
use slurm_manager.Tracker.Status.Drop.{Dropped, drop_monitoring-Dropped}

-- The callbacks that a job has on its own statuses.
abbrev pub own_callbacks : Ref → Tracker → List SubscriptionInfo
own_callbacks r t =
    values (entries (lookup (job_topic (t.futures r).job_id status_key) t.subscriptions_by_topic))

-- The tasks of a delivered status: the job's own callbacks, then the manager-wide ones.
abbrev pub status_tasks : SlurmMessage → List SubscriptionInfo → Tracker → List Task
status_tasks e infos t =
    map (λ d. task_of d e) (dispatches infos)
    ++ map (global_task e) (matching status_key (values t.global_callbacks))

global_event_lem :
    (env : Env) (job_id slurm_job_id : Text) (m : SlurmMessage)
    → global_event env m job_id (some slurm_job_id) ≡ enrich env job_id slurm_job_id m
unfolding global_event enrich
global_event_lem env job_id slurm_job_id m = refl

dispatch_settled :
    (env : Env) (job_id slurm_job_id : Text) (infos : List SubscriptionInfo) (m : SlurmMessage)
    (t : Tracker)
    → OfJob job_id slurm_job_id infos
    → t.executor_open ≡ true
    → dispatch_global env (left_by env infos m) job_id (some slurm_job_id) t ≡ (
      ok tt,
      record t {
        executor =
            t.executor
            ++ map
                (global_task (enrich env job_id slurm_job_id m))
                (matching (msg_type m) (values t.global_callbacks));
      },
    )
unfolding dispatch_global
dispatch_settled env j s infos m t h opened = submit_all-open _ t opened ∙ (λ i. (
  ok tt,
  record t {
    executor =
        t.executor
        ++ map (global_task (event i)) (matching (body_type (body i)) (values t.global_callbacks));
  },
))
  where
    event : global_event env (left_by env infos m) j (some s) ≡ enrich env j s m
    event = global_event_lem env j s (left_by env infos m) ∙ enrich-left_by env j s infos m h

    body : (left_by env infos m).body ≡ m.body
    body = left_by-body env infos m

-- The tracker after a status that was read as `p`: the future is updated, and the callbacks have
-- their tasks, each with the message enriched by the job's ids.
abbrev pub delivered : Env → Parsed → Ref → Tracker → Tracker
delivered env p r t = record t {
  futures = update r (update_status p.job_status p.detail (t.futures r)) t.futures;
  executor =
      t.executor
      ++ status_tasks
          (enrich env (t.futures r).job_id (t.futures r).slurm_job_id (to_message p.message))
          (own_callbacks r t) t;
}

-- Delivery changes the future and the executor's tasks, and nothing else.
deliver_lem :
    (env : Env) (p : Parsed) (r : Ref) (t : Tracker)
    → OfJob (t.futures r).job_id (t.futures r).slurm_job_id (own_callbacks r t)
    → t.executor_open ≡ true
    → deliver_status env p r t ≡ (ok tt, delivered env p r t)
unfolding deliver_status update_future
deliver_lem env p r t h opened =
    ap (told_all env f.job_id f.slurm_job_id) (notify_lem env infos m t' opened)
    ∙ dispatch_settled env f.job_id f.slurm_job_id infos m
        (record t' { executor = t'.executor ++ told env infos m }) h opened
    ∙ ground (
      arith,
      told_lem env f.job_id f.slurm_job_id infos m h,
      append_assoc t.executor (told env infos m) (
          map (global_task (enrich env f.job_id f.slurm_job_id m))
            (matching status_key (values t.global_callbacks))),
    )
  where
    f : JobFuture
    f = t.futures r

    infos : List SubscriptionInfo
    infos = own_callbacks r t

    m : SlurmMessage
    m = to_message p.message

    t' : Tracker
    t' = update_future r p.job_status p.detail t

pub ends-done :
    (s : JobStatus) (detail : Option Text) (f : JobFuture)
    → ends s ≡ true
    → done (update_status s detail f) ≡ true
unfolding update_status
ends-done s detail f h = ground arith

pub update_self : (r : Ref) (f : JobFuture) (futures : Ref → JobFuture) → update r f futures r ≡ f
update_self r f futures = ground arith

accepted_lem :
    (env : Env) (m : StatusMessage) (r : Ref) (t : Tracker)
    → done (t.futures r) ≡ false
    → OfJob (t.futures r).job_id (t.futures r).slurm_job_id (own_callbacks r t)
    → t.executor_open ≡ true
    → let p = parse_status env m in
      apply_status env m r t ≡ (
        ok tt,
        if ends p.job_status
            then drop_monitoring (t.futures r).job_id (delivered env p r t)
            else delivered env p r t,
      )
unfolding apply_status accept_status
accepted_lem env m r t live own opened =
    ground (arith, deliver_lem env (parse_status env m) r t own opened)

-- A status for a job whose future is not done, and whose own status callbacks hold its ids, on a
-- tracker whose executor is open, is applied without an error: it updates the future and hands one
-- task to the executor for each of those callbacks, then for each manager-wide status callback, all
-- with the message enriched by the ids and the time of receipt. A terminal status moreover leaves
-- the future done and drops the job's registry entry and its topics from the tracker and from the
-- Redis client; any other status changes nothing else.
pub apply_status_lem :
    (env : Env) (m : StatusMessage) (r : Ref) (t : Tracker)
    → done (t.futures r) ≡ false
    → OfJob (t.futures r).job_id (t.futures r).slurm_job_id (own_callbacks r t)
    → t.executor_open ≡ true
    → let p = parse_status env m in
      let (result, u) = apply_status env m r t in
      (result ≡ ok tt)
      × (ends p.job_status ≡ true
          → (done (u.futures r) ≡ true) × Dropped (t.futures r).job_id (delivered env p r t) u)
      × (ends p.job_status ≡ false → u ≡ delivered env p r t)
apply_status_lem env m r t live own opened = (
  ap (λ (x : Result Unit × Tracker). x.0) (accepted_lem env m r t live own opened),
  λ h. rw (accepted_lem env m r t live own opened, h) (ended h),
  λ h. rw (accepted_lem env m r t live own opened, h) refl,
)
  where
    p : Parsed
    p = parse_status env m

    ended :
        ends p.job_status ≡ true
        → (done ((drop_monitoring (t.futures r).job_id (delivered env p r t)).futures r) ≡ true)
          × Dropped
              (t.futures r).job_id
              (delivered env p r t)
              (drop_monitoring (t.futures r).job_id (delivered env p r t))
    ended h =
        let d = drop_monitoring-Dropped (t.futures r).job_id (delivered env p r t) in
        (
          ap (λ (fs : Ref → JobFuture). done (fs r)) d.futures_kept
              ∙ ap (λ (f : JobFuture). done f)
                  (update_self r (update_status p.job_status p.detail (t.futures r)) t.futures)
              ∙ ends-done p.job_status p.detail (t.futures r) h,
          d,
        )

pub apply_status-done :
    (env : Env) (m : StatusMessage) (r : Ref) (t : Tracker)
    → done (t.futures r) ≡ true
    → apply_status env m r t ≡ (ok tt, t)
unfolding apply_status
apply_status-done env m r t h = rw h

-- Delivery changes one future and the executor's tasks, also where a task is refused.
pub deliver_status-state :
    (env : Env) (p : Parsed) (r : Ref) (t : Tracker)
    → (deliver_status env p r t).1 ≡ record t {
      futures = update r (update_status p.job_status p.detail (t.futures r)) t.futures;
      executor = (deliver_status env p r t).1.executor;
    }
unfolding deliver_status update_future dispatch_global
deliver_status-state env p r t = ground (
  arith,
  notify-state env (own_callbacks r t) (to_message p.message)
      (update_future r p.job_status p.detail t),
  submit_all-state
      (map
        (global_task (
          global_event env
            (notify env (own_callbacks r t)
              (to_message p.message, update_future r p.job_status p.detail t)).1.0
            (t.futures r).job_id (some (t.futures r).slurm_job_id)))
        (matching
          (msg_type
            (notify env (own_callbacks r t)
              (to_message p.message, update_future r p.job_status p.detail t)).1.0)
          (values
            (notify env (own_callbacks r t) (
              to_message p.message,
              update_future r p.job_status p.detail t,
            )).1.1.global_callbacks)))
      (notify env (own_callbacks r t)
        (to_message p.message, update_future r p.job_status p.detail t)).1.1,
)

pub cleaned-futures :
    (b : Bool) (job_id : Text) (x : Result (Unit {0}) × Tracker)
    → (cleaned b job_id x).1.futures ≡ x.1.futures
cleaned-futures true job_id (ok u, t) = (drop_monitoring-Dropped job_id t).futures_kept
cleaned-futures false job_id (ok u, t) = refl
cleaned-futures b job_id (err e, t) = refl

pub deliver_status-ok :
    (env : Env) (p : Parsed) (r : Ref) (t : Tracker)
    → t.executor_open ≡ true
    → (deliver_status env p r t).0 ≡ ok tt
unfolding deliver_status update_future dispatch_global
deliver_status-ok env p r t opened =
    rw
      (notify_lem env (own_callbacks r t) (to_message p.message)
        (update_future r p.job_status p.detail t) opened)
      (ap (λ (x : Result Unit × Tracker). x.0) (submit_all-open _ _ opened))

pub apply_status-futures :
    (env : Env) (m : StatusMessage) (r : Ref) (t : Tracker)
    → done (t.futures r) ≡ false
    → let p = parse_status env m in
      (apply_status env m r t).1.futures
      ≡ update r (update_status p.job_status p.detail (t.futures r)) t.futures
unfolding apply_status accept_status
apply_status-futures env m r t live =
    let p = parse_status env m in
    let told = ap (λ (u : Tracker). u.futures) (deliver_status-state env p r t) in
    rw live
      (cleaned-futures (ends p.job_status) (t.futures r).job_id (deliver_status env p r t) ∙ told)

pub apply_status-ended :
    (env : Env) (m : StatusMessage) (r : Ref) (t : Tracker)
    → ends (parse_status env m).job_status ≡ true
    → done ((apply_status env m r t).1.futures r) ≡ true
apply_status-ended env m r t h = elim (Bool-cases (done (t.futures r))) [
  | inl over ↦ rw (apply_status-done env m r t over) over
  | inr live ↦
      let p = parse_status env m in
      ap (λ (fs : Ref → JobFuture). done (fs r)) (apply_status-futures env m r t live)
      ∙ (ap (λ (f : JobFuture). done f)
            (update_self r (update_status p.job_status p.detail (t.futures r)) t.futures)
          ∙ ends-done p.job_status p.detail (t.futures r) h)
]

-- After a terminal status for a future, also where the executor refused a task of it, every later
-- status for the same future is applied without an error and leaves the whole tracker as it is.
pub apply_status_final :
    (env later : Env) (m n : StatusMessage) (r : Ref) (t : Tracker)
    → ends (parse_status env m).job_status ≡ true
    → apply_status later n r (apply_status env m r t).1 ≡ (ok tt, (apply_status env m r t).1)
apply_status_final env later m n r t h =
    apply_status-done later n r (apply_status env m r t).1 (apply_status-ended env m r t h)
