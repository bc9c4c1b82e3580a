-- ===== src/Tracker/Tracked/Delivering.antt =====
-- Delivered messages keep the tracker's invariant.
use slurm_manager.Base.{
  ℕ, ◌≡◌, refl, sym, ap, subst, ◌∙◌, Option, none, some, List, [], ◌∷◌, arith, inl, inr,
}
use slurm_manager.Base.Text.{Text}
use slurm_manager.Base.Dict.{lookup, insert, find, entries, lookup-entries}
use slurm_manager.Message.{SlurmMessage, Body, heartbeat, status, log}
use slurm_manager.RedisSub.{Subscription}
use slurm_manager.Tracker.State.{
  Tracker, Ref, Env, Handler, ignore_status, user_dispatch, global_dispatch, heartbeat_monitor,
  status_monitor, SubscriptionInfo, Task,
}
use slurm_manager.Tracker.Dispatch.{enrich, task_of, submit, call_dispatch, dispatch_global}
use slurm_manager.Tracker.Status.Tasks.{submit_all-state}
use slurm_manager.Tracker.Monitor.{
  beat, change_entry, heartbeat_callback, apply_body, call_handler, deliver,
}
use slurm_manager.Tracker.Tracked.{IsTracked}
use slurm_manager.Tracker.Tracked.Synced.{changed-IsSynced}
use slurm_manager.Tracker.Tracked.Owned.{SameInfo, restrict, find-added}
use slurm_manager.Tracker.Tracked.Ending.{
  same_future, same_info, apply_status-IsTracked, executor-IsTracked,
}

-- An assignment to the heartbeat fields of a registered object.
changed-IsTracked :
    (topic id : Text) (info new : SubscriptionInfo) (t : Tracker)
    → IsTracked t
    → find topic id t.subscriptions_by_topic ≡ some info
    → SameInfo info new
    → IsTracked (record t {
      subscriptions_by_topic =
          insert topic
            (insert id new (entries (lookup topic t.subscriptions_by_topic)))
            t.subscriptions_by_topic;
    })
changed-IsTracked topic id info new t inv there same = record {
  opened = inv.opened;
  synced =
      changed-IsSynced t.client t.subscriptions_by_topic t.topic_by_subscription_id inv.synced topic
        id info new there;
  owned =
      restrict t.futures t.future_registry t.subscriptions_by_topic t.active_subscriptions
        t.client.subscriptions_by_topic inv.owned t.futures t.future_registry
        (insert topic (insert id new (entries (lookup topic t.subscriptions_by_topic)))
          t.subscriptions_by_topic)
        t.active_subscriptions t.client.subscriptions_by_topic (λ s i h e. e)
        (λ j r e. (e, same_future (t.futures r)))
        (λ s i b e. elim (find-added topic id s i new b t.subscriptions_by_topic e) [
          | inl (st, ii, bi) ↦
              let p = inv.owned.placed topic id info there in
              (
                info,
                rw (st, ii) there,
                subst (SameInfo info) (sym bi) same,
                λ missing. p.2 (
                    ap (λ x. lookup x t.future_registry)
                      (sym same.job_id ∙ ap (λ (x : SubscriptionInfo). x.job_id) (sym bi))
                    ∙ missing),
                ground (arith, p.3, same.job_id),
              )
          | inr old ↦ let p = inv.owned.placed s i b old.1 in (b, old.1, same_info b, p.2, p.3)
        ]);
}

beaten-IsTracked :
    (now : ℕ) (topic id : Text) (o : Option SubscriptionInfo) (t : Tracker)
    → IsTracked t
    → lookup id (entries (lookup topic t.subscriptions_by_topic)) ≡ o
    → IsTracked (change_entry (beat now) topic id o t)
beaten-IsTracked now topic id none t inv e = inv
beaten-IsTracked now topic id (some info) t inv e =
    changed-IsTracked topic id info (beat now info) t inv
      (sym (lookup-entries id topic t.subscriptions_by_topic) ∙ e)
      (record { topic = refl; job_id = refl; callback = refl; callback_id = refl })

-- Tasks for the executor, whether it takes them or not.
submit-IsTracked : (task : Task) (t : Tracker) → IsTracked t → IsTracked (submit task t).1
submit-IsTracked task t inv =
    subst IsTracked (ground arith) (executor-IsTracked t (submit task t).1.executor inv)

dispatch_global-IsTracked :
    (env : Env) (m : SlurmMessage) (job_id : Text) (slurm_job_id : Option Text) (t : Tracker)
    → IsTracked t
    → IsTracked (dispatch_global env m job_id slurm_job_id t).1
unfolding dispatch_global
dispatch_global-IsTracked env m job_id slurm_job_id t inv =
    subst IsTracked (sym (submit_all-state _ t)) (executor-IsTracked t _ inv)

heartbeat_callback-IsTracked :
    (env : Env) (m : SlurmMessage) (topic id job_id slurm_job_id : Text) (t : Tracker)
    → IsTracked t
    → IsTracked (heartbeat_callback env m topic id job_id slurm_job_id t).1
unfolding heartbeat_callback
heartbeat_callback-IsTracked env m topic id job_id slurm_job_id t inv =
    dispatch_global-IsTracked env m job_id (some slurm_job_id)
      (change_entry (beat env.now) topic id
        (lookup id (entries (lookup topic t.subscriptions_by_topic))) t)
      (beaten-IsTracked env.now topic id
        (lookup id (entries (lookup topic t.subscriptions_by_topic))) t inv refl)

apply_body-IsTracked :
    (env : Env) (m : SlurmMessage) (b : Body) (r : Ref) (t : Tracker)
    → IsTracked t
    → IsTracked (apply_body env m b r t).1
apply_body-IsTracked env m (heartbeat timestamp) r t inv = inv
apply_body-IsTracked env m (status s) r t inv = apply_status-IsTracked env _ r t inv
apply_body-IsTracked env m (log line) r t inv = inv

pub call_handler-IsTracked :
    (env : Env) (h : Handler) (m : SlurmMessage) (t : Tracker)
    → IsTracked t
    → IsTracked (call_handler env h (m, t)).1
unfolding call_handler call_dispatch
call_handler-IsTracked env ignore_status m t inv = inv
call_handler-IsTracked env (user_dispatch d) m t inv =
    submit-IsTracked (task_of d (enrich env d.job_id d.slurm_job_id m)) t inv
call_handler-IsTracked env (global_dispatch job_id slurm_job_id) m t inv =
    dispatch_global-IsTracked env m job_id (some slurm_job_id) t inv
call_handler-IsTracked env (heartbeat_monitor topic id job_id slurm_job_id) m t inv =
    heartbeat_callback-IsTracked env (enrich env job_id slurm_job_id m) topic id job_id slurm_job_id
      t inv
call_handler-IsTracked env (status_monitor r) m t inv =
    apply_body-IsTracked env (enrich env (t.futures r).job_id (t.futures r).slurm_job_id m)
      (enrich env (t.futures r).job_id (t.futures r).slurm_job_id m).body r t inv

-- A message that is handed to any callbacks, in any order.
pub deliver-IsTracked :
    (env : Env) (ss : List (Subscription Handler)) (m : SlurmMessage) (t : Tracker)
    → IsTracked t
    → IsTracked (deliver env ss (m, t)).1
unfolding deliver
deliver-IsTracked env [] m t inv = inv
deliver-IsTracked env (s ∷ ss) m t inv =
    deliver-IsTracked env ss (call_handler env s.callback (m, t)).0
      (call_handler env s.callback (m, t)).1 (call_handler-IsTracked env s.callback m t inv)
