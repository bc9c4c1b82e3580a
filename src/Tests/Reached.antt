-- ===== src/Tests/Reached.antt =====
-- A tracker that steps lead to, with one job and a message for it.
use slurm_manager.Tracker.Routing.Reached.{Routed, Reachable_poll-Routed}
use slurm_manager.Tracker.Routing.Monitored.{Reachable_poll-ends}
use slurm_manager.Manager.Scheduler.{Manager, cancels, cancelled_message, cancel}
use slurm_manager.Manager.Scheduler.Cancel.{cancel-ends}
use slurm_manager.Tests.Submission.{sched}
use slurm_manager.Base.{◌++◌, ◌∷◌, ◌≡◌, ◌≢◌, none, refl, ℕ, true, some, []}
use slurm_manager.Base.Text.{Text, codes, dec_text, split_once}
use slurm_manager.Base.Dict.{lookup, find, insert}
use slurm_manager.Base.Result.{Result, ok, err, Error}
use slurm_manager.Message.{SlurmMessage, status}
use slurm_manager.Future.{done, job_status, cancelled}
use slurm_manager.RedisSub.{new_client, subscribe}
use slurm_manager.RedisSub.Listener.{
  RawMessage, normalize_message, Poll, received, message, channel_str, raw_str,
}
use slurm_manager.Tracker.State.{Tracker, Ref, SubscriptionInfo, new_tracker}
use slurm_manager.Tracker.Topics.{topic, job_topic, log_key}
use slurm_manager.Tracker.Status.Drop.{Dropped}
use slurm_manager.Tracker.Status.Ending.{delivered}
use slurm_manager.Tracker.Status.{parse_status, apply_status, ends}
use slurm_manager.Tracker.Register.{Draw, track, future_listen, info_for}
use slurm_manager.Tracker.Monitor.{poll}
use slurm_manager.Tracker.Tracked.{IsTracked}
use slurm_manager.Tracker.Reachable.{
  Reachable, start, next, tracks, polls, future_listens, Reachable-IsTracked, Reachable_status_ends,
}
use slurm_manager.Tests.Data.{env, job, status_topic, finished_message}

abbrev decode : Text → Result Text
decode s = ok s

abbrev loads : Text → Result ℕ
loads s = ok 5

abbrev validate : ℕ → Result SlurmMessage
validate n = ok (record { metadata = []; body = status (codes "running") })

abbrev draw : Text → Draw
draw id = record { id = id; accepted = true }

abbrev empty : Tracker
empty = new_tracker (λ r. job) new_client

abbrev tracked : Tracker
tracked = (track env (draw (codes "x")) (draw (codes "xy")) (draw (codes "xyz")) 0 empty).1

abbrev round : Poll ℕ
round =
    received (record {
      kind = message;
      channel = channel_str status_topic;
      content = raw_str (codes "{}");
    })

tracked-Reachable : Reachable decode loads validate tracked
unfolding new_tracker new_client lookup
tracked-Reachable = next empty tracked (start (λ r. job)) (
    tracks env (draw (codes "x")) (draw (codes "xy")) (draw (codes "xyz")) 0 refl refl (refl, tt)
      refl refl refl (λ e. cc) (λ e. cc) (λ e. cc))

Reachable-IsTracked_example : IsTracked (poll decode loads validate env round tracked)
Reachable-IsTracked_example =
    Reachable-IsTracked decode loads validate (poll decode loads validate env round tracked) (
      next tracked (poll decode loads validate env round tracked) tracked-Reachable
        (polls env round))

found : lookup (codes "a") tracked.future_registry ≡ some 0
unfolding lookup dec_text track subscribe new_tracker new_client insert topic
found = refl

ended : ends (parse_status env finished_message).job_status ≡ true
unfolding parse_status dec_text job_status split_once
ended = refl

Reachable_status_ends_example :
    let (result, u) = apply_status env finished_message 0 tracked in
    (result ≡ ok tt)
    × (done (u.futures 0) ≡ true)
    × Dropped (codes "a") (delivered env (parse_status env finished_message) 0 tracked) u
    × ((later : _) (n : _) → apply_status later n 0 u ≡ (ok tt, u))
Reachable_status_ends_example =
    Reachable_status_ends decode loads validate tracked env finished_message (codes "a") 0
      tracked-Reachable found ended

abbrev listening : Tracker
listening = (future_listen (draw (codes "xyzw")) 0 (codes "log") 5 tracked).1

abbrev log_topic : Text
log_topic = job_topic (codes "a") log_key

abbrev line : RawMessage ℕ
line = record { kind = message; channel = channel_str log_topic; content = raw_str (codes "{}") }

abbrev parsed : SlurmMessage
parsed = record { metadata = []; body = status (codes "running") }

listening-Reachable : Reachable decode loads validate listening
unfolding lookup dec_text track subscribe new_tracker new_client insert topic
listening-Reachable =
    next tracked listening tracked-Reachable
      (future_listens (draw (codes "xyzw")) 0 (codes "log") 5 refl)

read : normalize_message decode loads validate line ≡ ok (log_topic, parsed)
unfolding normalize_message
read = refl

Reachable_poll-Routed_example :
    Routed log_topic parsed.body listening
      (poll decode loads validate env (received line) listening)
unfolding topic
Reachable_poll-Routed_example =
    Reachable_poll-Routed decode loads validate env line log_topic parsed listening
      listening-Reachable refl read

abbrev last_line : RawMessage ℕ
last_line = record {
  kind = message;
  channel = channel_str status_topic;
  content = raw_str (codes "{}");
}

abbrev ended_event : SlurmMessage
ended_event = record { metadata = []; body = status (codes "finished") }

abbrev validate_last : ℕ → Result SlurmMessage
validate_last n = ok ended_event

tracked-Reachable_last : Reachable decode loads validate_last tracked
unfolding new_tracker new_client lookup
tracked-Reachable_last = next empty tracked (start (λ r. job)) (
    tracks env (draw (codes "x")) (draw (codes "xy")) (draw (codes "xyz")) 0 refl refl (refl, tt)
      refl refl refl (λ e. cc) (λ e. cc) (λ e. cc))

last_read : normalize_message decode loads validate_last last_line ≡ ok (status_topic, ended_event)
unfolding normalize_message
last_read = refl

monitor_info : SubscriptionInfo
monitor_info = info_for status_topic (codes "a") (some (codes "7")) none (codes "xy")

monitored : find status_topic (codes "xy") tracked.subscriptions_by_topic ≡ some monitor_info
unfolding lookup dec_text track subscribe new_tracker new_client insert topic monitor_info
monitored = refl

Reachable_poll-ends_example :
    let u = poll decode loads validate_last env (received last_line) tracked in
    (r : Ref) × (lookup (codes "a") tracked.future_registry ≡ some r)
    × (done (u.futures r) ≡ true)
    × (lookup (codes "a") u.future_registry ≢ some r)
unfolding monitor_info
Reachable_poll-ends_example =
    Reachable_poll-ends decode loads validate_last env last_line (codes "xy") (codes "finished")
      ended_event monitor_info tracked tracked-Reachable_last monitored refl refl last_read refl
      ended

abbrev manager : Manager
manager = record { tracker = tracked; calls = [] }

registered : lookup (tracked.futures 0).job_id tracked.future_registry ≡ some 0
unfolding lookup dec_text track subscribe new_tracker new_client insert topic
registered = refl

cancel-ends_example :
    let f = tracked.futures 0 in
    let (result, u) = cancel env sched 0 manager in
    (sched.cancel f.slurm_job_id ≡ ok tt
      → (result ≡ ok tt)
        × ((u.tracker.futures 0).status ≡ cancelled)
        × (done (u.tracker.futures 0) ≡ true)
        × Dropped f.job_id
            (delivered env (parse_status env (cancelled_message env f)) 0 tracked)
            u.tracker)
    × ((e : Error) → sched.cancel f.slurm_job_id ≡ err e → (result ≡ err e) × (u.tracker ≡ tracked))
    × (u.calls ≡ [] ++ cancels f.slurm_job_id ∷ [])
cancel-ends_example =
    cancel-ends decode loads validate env sched 0 manager tracked-Reachable registered
