-- ===== src/Tracker/Monitor/Checks.antt =====
-- Heartbeats and scheduler checks keep a job from being selected for ten seconds.
use slurm_manager.Base.{ℕ, ap, ◌+◌, ◌≤◌, ◌≡◌, ◌≢◌, refl, false, Option, some, [], ◌∷◌, arith}
use slurm_manager.Base.Text.{Text}
use slurm_manager.Base.Dict.{Dict, lookup, find, entries, values, lookup-insert, lookup-entries}
use slurm_manager.Message.{SlurmMessage}
use slurm_manager.Tracker.Topics.{job_topic, heartbeat_key}
use slurm_manager.Tracker.State.{Tracker, Ref, Env, SubscriptionInfo}
use slurm_manager.Tracker.Dispatch.{dispatch_global}
use slurm_manager.Tracker.Status.Tasks.{submit_all-state}
use slurm_manager.Tracker.Monitor.{
  heartbeat_timeout, is_missing, missing_in, check_all, begin_scheduler_check, heartbeat_callback,
  change_entry, beat,
}

check_all-missing_in :
    (now later : ℕ) (infos : Dict SubscriptionInfo)
    → later ≤ now + heartbeat_timeout
    → missing_in later (values (check_all now infos)) ≡ []
unfolding missing_in check_all
check_all-missing_in now later [] h = refl
check_all-missing_in now later ((id, info) ∷ infos) h =
    ground (arith, check_all-missing_in now later infos h)

-- Where `begin_scheduler_check` returns a future, no subscription on the job's heartbeat topic
-- counts as missing again before ten seconds have passed.
pub begin_scheduler_check-missing :
    (now later : ℕ) (job_id : Text) (t : Tracker) (r : Ref)
    → (begin_scheduler_check now job_id t).0 ≡ some r
    → later ≤ now + heartbeat_timeout
    → missing_in later (
        values (
          entries (
            lookup
              (job_topic job_id heartbeat_key)
              (begin_scheduler_check now job_id t).1.subscriptions_by_topic)))
      ≡ []
unfolding begin_scheduler_check missing_in
begin_scheduler_check-missing now later job_id t r e h =
    grind (arith, lookup-insert, check_all-missing_in now later)

-- The manager-wide tasks leave the subscriptions.
dispatch_global-subs :
    (env : Env) (m : SlurmMessage) (job_id : Text) (slurm_job_id : Option Text) (t : Tracker)
    → (dispatch_global env m job_id slurm_job_id t).1.subscriptions_by_topic
      ≡ t.subscriptions_by_topic
unfolding dispatch_global
dispatch_global-subs env m job_id slurm_job_id t =
    ap (λ (u : Tracker). u.subscriptions_by_topic) (submit_all-state _ t)

heartbeat_callback-subs :
    (env : Env) (m : SlurmMessage) (topic id job_id slurm_job_id : Text) (t : Tracker)
    → (heartbeat_callback env m topic id job_id slurm_job_id t).1.subscriptions_by_topic
      ≡ (change_entry
          (beat env.now)
          topic
          id
          (lookup id (entries (lookup topic t.subscriptions_by_topic)))
          t).subscriptions_by_topic
unfolding heartbeat_callback
heartbeat_callback-subs env m topic id job_id slurm_job_id t =
    dispatch_global-subs env m job_id (some slurm_job_id) (
      change_entry (beat env.now) topic id
        (lookup id (entries (lookup topic t.subscriptions_by_topic))) t)

-- After `_heartbeat_callback`, also where the executor refuses a task of it, the subscription of
-- its topic and id does not count as missing for ten seconds, and every other registered
-- subscription is as before.
pub heartbeat_callback-find :
    (env : Env) (m : SlurmMessage) (topic id job_id slurm_job_id : Text) (t : Tracker)
    → let u = (heartbeat_callback env m topic id job_id slurm_job_id t).1 in
      ((later : ℕ) (info : SubscriptionInfo)
        → find topic id u.subscriptions_by_topic ≡ some info
        → later ≤ env.now + heartbeat_timeout
        → is_missing later info ≡ false)
      × ((s i : Text)
          → ◌≢◌ {A = Text × Text} (s, i) (topic, id)
          → find s i u.subscriptions_by_topic ≡ find s i t.subscriptions_by_topic)
heartbeat_callback-find env m topic id job_id slurm_job_id t =
    rw (heartbeat_callback-subs env m topic id job_id slurm_job_id t) (
      (λ later info e h. grind (arith, lookup-insert, lookup-entries)),
      λ s i ne. grind (arith, lookup-insert, lookup-entries),
    )
