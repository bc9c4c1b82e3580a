-- ===== src/Tracker/Status.antt =====
-- `apply_status` and `remove_subscriptions_for_job`, which call one another.
pub mod Drop
pub mod Format
pub mod Tasks
pub mod Ending
pub mod Removal
pub mod Closed
use slurm_manager.Base.{
  Bool, true, false, ◌||◌, not, Option, none, some, List, [], ◌∷◌, ◌++◌, if◌then◌else◌,
}
use slurm_manager.Base.Text.{Text, codes, split_once}
use slurm_manager.Base.Dict.{Dict, lookup, insert, erase, erase_all, entries, values, keys}
use slurm_manager.Base.Result.{Result, ok, err}
use slurm_manager.Message.{SlurmMessage, status}
use slurm_manager.Future.{
  JobStatus, pending, running, finished, error, cancelled, value, job_status, JobFuture, done,
  update_status,
}
use slurm_manager.RedisSub.{unsubscribe_topic}
use slurm_manager.Tracker.Topics.{job_topic, status_key}
use slurm_manager.Tracker.State.{Tracker, Ref, Env, SubscriptionInfo, Exec, update}
use slurm_manager.Tracker.Dispatch.{Handled, dispatch_global, notify}

-- `StatusMessage`
pub record StatusMessage : Type 0 where
  pub metadata : Dict Text
  pub status_text : Text

abbrev pub to_message : StatusMessage → SlurmMessage
to_message m = record { metadata = m.metadata; body = status m.status_text }

-- What the first part of `apply_status` finds: the status, its detail and the message to deliver.
pub record Parsed : Type 0 where
  pub job_status : JobStatus
  pub detail : Option Text
  pub message : StatusMessage

unfoldable pub unknown_detail : Env → Text → StatusMessage → Text
unknown_detail env head m =
    codes "Received unknown job status '"
    ++ head
    ++ codes "' from message: "
    ++ env.dump (to_message m)

abbrev parsed_as : Env → StatusMessage → Text × Option Text → Option JobStatus → Parsed
parsed_as env m (head, detail) (some s) = record { job_status = s; detail = detail; message = m }
parsed_as env m (head, detail) none =
    let d : Text = unknown_detail env head m in
    record {
      job_status = error;
      detail = some d;
      message = record { metadata = m.metadata; status_text = codes "error:" ++ d };
    }

-- The part of `apply_status` before it takes the lock.
unfoldable pub parse_status : Env → StatusMessage → Parsed
unfolding unknown_detail
parse_status env m =
    parsed_as env m (split_once b':' m.status_text) (job_status (split_once b':' m.status_text).0)

abbrev pub topics_of : Option (List Text) → List Text
topics_of none = []
topics_of (some topics) = topics

-- One round of the loop over the topics of a job that is dropped.
unfoldable pub drop_topic : Text → Tracker → Tracker
drop_topic topic t = record t {
  subscriptions_by_topic = erase topic t.subscriptions_by_topic;
  topic_by_subscription_id =
      erase_all (keys (entries (lookup topic t.subscriptions_by_topic))) t.topic_by_subscription_id;
  client = (unsubscribe_topic topic t.client).1;
}

unfoldable pub drop_topics : List Text → Tracker → Tracker
unfolding drop_topic
drop_topics [] t = t
drop_topics (topic ∷ topics) t = drop_topics topics (drop_topic topic t)

-- `_remove_job_future`
unfoldable pub remove_job_future : Text → Tracker → Tracker
remove_job_future job_id t = record t { future_registry = erase job_id t.future_registry }

-- `remove_subscriptions_for_job` from the pop of the job's topics on.
unfoldable pub drop_monitoring : Text → Tracker → Tracker
unfolding drop_topics remove_job_future
drop_monitoring job_id t = remove_job_future job_id (
    drop_topics (topics_of (lookup job_id t.active_subscriptions))
      (record t { active_subscriptions = erase job_id t.active_subscriptions }))

abbrev pub ends : JobStatus → Bool
ends pending = false
ends running = false
ends finished = true
ends error = true
ends cancelled = true

-- The part of `apply_status` under the lock, for a future that is not done. The job's callbacks
-- are those of before the update; its clean-up is `remove_subscriptions_for_job` with
-- `skip_event_callback`, so the two functions call one another at most once.
unfoldable pub update_future : Ref → JobStatus → Option Text → Tracker → Tracker
update_future r s detail t = record t {
  futures = update r (update_status s detail (t.futures r)) t.futures;
}

abbrev pub told_all : Env → Text → Text → Handled → Result (Unit {0}) × Tracker
told_all env job_id slurm_job_id (ok u, (m, t)) = dispatch_global env m job_id (some slurm_job_id) t
told_all env job_id slurm_job_id (err e, (m, t)) = (err e, t)

unfoldable pub deliver_status : Env → Parsed → Ref → Exec (Unit {0})
unfolding update_future
deliver_status env p r t =
    let f : JobFuture = t.futures r in
    let callbacks : List SubscriptionInfo =
      values (entries (lookup (job_topic f.job_id status_key) t.subscriptions_by_topic)) in
    told_all env f.job_id f.slurm_job_id
      (notify env callbacks (to_message p.message, update_future r p.job_status p.detail t))

abbrev drop_if : Bool → Text → Tracker → Tracker
drop_if b job_id t = if b then drop_monitoring job_id t else t

-- The clean-up comes after the tasks, so that a refused one leaves the job monitored.
abbrev pub cleaned : Bool → Text → Result (Unit {0}) × Tracker → Result (Unit {0}) × Tracker
cleaned b job_id (ok u, t) = (ok tt, drop_if b job_id t)
cleaned b job_id (err e, t) = (err e, t)

unfoldable pub accept_status : Env → Parsed → Ref → Exec (Unit {0})
unfolding deliver_status
accept_status env p r t =
    cleaned (ends p.job_status) (t.futures r).job_id (deliver_status env p r t)

-- `apply_status`
unfoldable pub apply_status : Env → StatusMessage → Ref → Exec (Unit {0})
unfolding accept_status
apply_status env m r t =
    if done (t.futures r) then (ok tt, t) else accept_status env (parse_status env m) r t

pub removal_message : Env → JobFuture → StatusMessage
removal_message env f = record {
  metadata =
      (codes "msg_received", env.stamp)
      ∷ (codes "job_id", f.job_id)
      ∷ (codes "slurm_job_id", f.slurm_job_id)
      ∷ [];
  status_text = codes "error:Removal requested by user; timestamp " ++ env.stamp;
}

abbrev pub remove_found : Env → Text → Bool → Option Ref → Exec (Unit {0})
remove_found env job_id skip none t = (ok tt, drop_monitoring job_id t)
remove_found env job_id skip (some r) t =
    if done (t.futures r) || skip
    then (ok tt, drop_monitoring job_id t)
    else apply_status env (removal_message env (t.futures r)) r t

-- `remove_subscriptions_for_job`
unfoldable pub remove_subscriptions_for_job : Env → Text → Bool → Exec (Unit {0})
unfolding removal_message
remove_subscriptions_for_job env job_id skip_event_callback t =
    remove_found env job_id skip_event_callback (lookup job_id t.future_registry) t
