-- ===== src/Tests/Submission.antt =====
-- A submission that succeeds, and the status that ends its job.
use slurm_manager.Base.{◌≡◌, ◌≢◌, refl, ℕ, true, none, some, [], ◌∷◌}
use slurm_manager.Base.Text.{Text, codes, dec_text, split_once}
use slurm_manager.Base.Dict.{lookup, insert}
use slurm_manager.Base.Result.{Result, ok}
use slurm_manager.Base.Json.{get, str, end, field}
use slurm_manager.Message.{SlurmMessage, status}
use slurm_manager.Future.{done, job_status, job_future}
use slurm_manager.RedisSub.{new_client, subscribe}
use slurm_manager.RedisSub.Waiting.{wait_until_subscribed}
use slurm_manager.RedisSub.Listener.{
  RawMessage, received, message, channel_str, raw_str, normalize_message,
}
use slurm_manager.Tracker.State.{new_tracker}
use slurm_manager.Tracker.Topics.{topic, job_topic, status_key}
use slurm_manager.Tracker.Status.{parse_status, ends}
use slurm_manager.Tracker.Register.{Draw, track, future_listen}
use slurm_manager.Tracker.Monitor.{poll}
use slurm_manager.Tracker.Reachable.{Reachable, start}
use slurm_manager.Options.{default_options, validate}
use slurm_manager.Manager.Scheduler.{Scheduler, Manager}
use slurm_manager.Manager.Script.{Host, Config, build_job_script}
use slurm_manager.Manager.Submit.{Draws, Texts, Callbacks, submit_job, listen_all}
use slurm_manager.Manager.Submit.Reached.{NewIds, submission_ids}
use slurm_manager.Manager.Submit.Ends.{submit_job-ends}
use slurm_manager.Tests.Data.{env, job}

abbrev decode : Text → Result Text
decode s = ok s

abbrev loads : Text → Result ℕ
loads s = ok 5

abbrev event : SlurmMessage
event = record { metadata = []; body = status (codes "finished") }

abbrev validated : ℕ → Result SlurmMessage
validated n = ok event

abbrev pub draw : Text → Draw
draw id = record { id = id; accepted = true }

abbrev pub host : Host
host = record {
  read_text = λ p. ok (codes "x");
  json_dumps = λ f. codes "{}";
  shlex_join = λ a. codes "w";
}

abbrev config : Config
config = record { worker_path = codes "/w"; redis_address = codes "h"; redis_tls = true }

abbrev pub texts : Texts
texts = record { error_text = λ e. []; to_str = λ v. codes "7"; trim = λ s. s }

abbrev pub sched : Scheduler
sched = record {
  submit = λ script description. ok (field (codes "job_id") (str (codes "7")) end);
  release = λ id. ok tt;
  cancel = λ id. ok tt;
  get_job = λ id accounting. ok none;
}

abbrev pub draws : Draws
draws = record {
  job_id = codes "b";
  hex = codes "f";
  ref = 1;
  heartbeat = draw (codes "x");
  event = draw (codes "xy");
  log = draw (codes "xyz");
  acknowledged = λ t. some 20000001;
}

abbrev callbacks : Callbacks
callbacks = (codes "log", 5, draw (codes "xyzw")) ∷ []

abbrev manager : Manager
manager = record { tracker = new_tracker (λ r. job) new_client; calls = [] }

abbrev raw : RawMessage ℕ
raw = record {
  kind = message;
  channel = channel_str (job_topic (codes "b") status_key);
  content = raw_str (codes "{}");
}

abbrev submitted : Result ℕ × Manager
submitted =
    submit_job env host texts sched config draws (codes "s") none (codes "/d") none callbacks
      manager

went : submitted.0 ≡ ok 1
unfolding submit_job default_options job_future lookup dec_text insert topic new_tracker new_client
    build_job_script validate get track subscribe listen_all future_listen wait_until_subscribed
went = refl

new_ids : NewIds (submission_ids draws callbacks) manager.tracker.topic_by_subscription_id
unfolding new_tracker lookup dec_text
new_ids = (refl, refl, (refl, refl, (refl, refl, (refl, refl, tt))))

unused : (j : Text) → lookup j manager.tracker.future_registry ≢ some 1
unfolding new_tracker lookup
unused j e = cc

untracked : lookup (codes "b") manager.tracker.future_registry ≡ none
unfolding new_tracker lookup
untracked = refl

last :
    ends (parse_status env (record { metadata = []; status_text = codes "finished" })).job_status
    ≡ true
unfolding parse_status dec_text job_status split_once
last = refl

read : normalize_message decode loads validated raw ≡ ok (job_topic (codes "b") status_key, event)
unfolding normalize_message
read = refl

submit_job-ends_example :
    let t = submitted.1.tracker in
    let u = poll decode loads validated env (received raw) t in
    Reachable decode loads validated t
    × (lookup (codes "b") t.future_registry ≡ some 1)
    × (done (u.futures 1) ≡ true)
    × (lookup (codes "b") u.future_registry ≢ some 1)
submit_job-ends_example =
    submit_job-ends decode loads validated env env host texts sched config draws (codes "s") none
      (codes "/d") none callbacks manager raw (codes "finished") event (start (λ r. job)) unused
      untracked (refl, tt) new_ids went refl read refl last
