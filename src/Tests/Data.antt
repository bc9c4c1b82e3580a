-- ===== src/Tests/Data.antt =====
-- A job, a client and a tracker for the examples.
use slurm_manager.Base.{true, false, none, some, [], ◌∷◌}
use slurm_manager.Base.Text.{Text, codes}
use slurm_manager.Message.{SlurmMessage, status, heartbeat}
use slurm_manager.Future.{JobFuture, RegisteredCallback, unset, pending}
use slurm_manager.RedisSub.{Client, new_client, subscribe}
use slurm_manager.Tracker.Topics.{job_topic, status_key, heartbeat_key}
use slurm_manager.Tracker.State.{Tracker, Env, Dispatch, Handler, ignore_status, SubscriptionInfo}
use slurm_manager.Tracker.Status.{StatusMessage}

abbrev pub env : Env
env = record { now = 20000000; stamp = codes "t"; dump = λ m. codes "{}" }

abbrev pub listener : RegisteredCallback
listener = record { id = codes "i"; event = codes "log"; callback = 5 }

abbrev pub job : JobFuture
job = record {
  job_id = codes "a";
  slurm_job_id = codes "7";
  name = codes "Job-7";
  future = unset;
  status = pending;
  callback_registry = [];
}

abbrev pub dispatch : Dispatch
dispatch = record {
  callback = 3;
  callback_kwargs = none;
  job_id = codes "a";
  slurm_job_id = codes "7";
}

abbrev pub status_topic : Text
status_topic = job_topic (codes "a") status_key

abbrev pub heartbeat_topic : Text
heartbeat_topic = job_topic (codes "a") heartbeat_key

abbrev pub status_info : SubscriptionInfo
status_info = record {
  topic = status_topic;
  job_id = codes "a";
  slurm_job_id = some (codes "7");
  callback = some dispatch;
  callback_id = some (codes "s");
  last_heartbeat = none;
  heartbeat_received = false;
  last_scheduler_check = none;
}

abbrev pub heartbeat_info : SubscriptionInfo
heartbeat_info = record {
  topic = heartbeat_topic;
  job_id = codes "a";
  slurm_job_id = some (codes "7");
  callback = none;
  callback_id = some (codes "h");
  last_heartbeat = some 1;
  heartbeat_received = false;
  last_scheduler_check = none;
}

abbrev pub client : Client Handler
client = (subscribe true (codes "s") status_topic ignore_status new_client).1

-- One live job with a callback of its own on its statuses, and its heartbeat monitor.
abbrev pub tracker : Tracker
tracker = record {
  client = client;
  futures = λ r. job;
  future_registry = (codes "a", 0) ∷ [];
  global_callbacks =
      (codes "g", record { id = codes "g"; event = codes "status"; callback = 9 }) ∷ [];
  subscriptions_by_topic =
      (status_topic, (codes "s", status_info) ∷ [])
      ∷ (heartbeat_topic, (codes "h", heartbeat_info) ∷ [])
      ∷ [];
  topic_by_subscription_id = (codes "s", status_topic) ∷ (codes "h", heartbeat_topic) ∷ [];
  active_subscriptions = (codes "a", status_topic ∷ heartbeat_topic ∷ []) ∷ [];
  executor = [];
  executor_open = true;
}

abbrev pub finished_message : StatusMessage
finished_message = record { metadata = []; status_text = codes "finished" }

abbrev pub running_message : StatusMessage
running_message = record { metadata = []; status_text = codes "running:late" }

abbrev pub event : SlurmMessage
event = record { metadata = []; body = status (codes "running") }

abbrev pub pulse : SlurmMessage
pulse = record { metadata = []; body = heartbeat 5 }
