-- ===== src/Tests/Tracker.antt =====
-- Examples on the tracker.
use slurm_manager.Base.{
  ◌≡◌, refl, ◌≢◌, ℕ, ◌+◌, ◌≤◌, true, false, none, some, [], ◌∷◌, ite, ◌↔◌, if◌then◌else◌, arith, In,
}
use slurm_manager.Base.Text.{Text, codes, dec_text, split_once}
use slurm_manager.Base.Dict.{lookup, find, has, values, entries}
use slurm_manager.Base.Result.{ok, err}
use slurm_manager.Future.{error, done, job_status}
use slurm_manager.Tracker.Topics.{topic, job_topic, log_key}
use slurm_manager.Tracker.Topics.Distinct.{job_topic-injective}
use slurm_manager.Tracker.State.{SubscriptionInfo}
use slurm_manager.Tracker.Status.{parse_status, apply_status, ends, remove_subscriptions_for_job}
use slurm_manager.Base.{◌++◌, map}
use slurm_manager.Tracker.Dispatch.{notify, enrich, task_of}
use slurm_manager.Tracker.Status.Tasks.{dispatches, notify_tasks}
use slurm_manager.Base.{inr}
use slurm_manager.Future.{update_status}
use slurm_manager.Tracker.Topics.{status_key}
use slurm_manager.Tracker.State.{Tracker, update}
use slurm_manager.Tracker.Dispatch.{closed, matching}
use slurm_manager.Tracker.Status.Closed.{apply_status-closed}
use slurm_manager.Tracker.Status.Drop.{Dropped}
use slurm_manager.Tracker.Status.Format.{status_message, parse_status-format}
use slurm_manager.Tracker.Status.Tasks.{OfJob}
use slurm_manager.Tracker.Status.Ending.{
  own_callbacks, delivered, apply_status_lem, apply_status_final,
}
use slurm_manager.Tracker.Status.Removal.{OwnEntry, Removed, remove_subscriptions_for_job-Removed}
use slurm_manager.Tracker.Register.{
  Draw, info_for, dispatch_of, finished_meanwhile, finish_subscription, place_subscription,
}
use slurm_manager.Tracker.Register.Subscription.{
  is_live, finish_subscription-gone, finish_subscription-live, finish_subscription_lost,
}
use slurm_manager.Tracker.Remove.{remove_subscription_by_id, remove_subscription_by_topic}
use slurm_manager.Tracker.Remove.ById.{IdsKnown, find-remove_subscription_by_id}
use slurm_manager.Tracker.Monitor.{
  get_missing_heartbeats, heartbeat_callback, begin_scheduler_check, missing_in, is_missing,
  heartbeat_timeout,
}
use slurm_manager.Tracker.Monitor.Missing.{IsWatched, IsDue, get_missing_heartbeats_iff}
use slurm_manager.Tracker.Monitor.Checks.{begin_scheduler_check-missing, heartbeat_callback-find}
use slurm_manager.Tests.Data.{
  env, job, status_topic, heartbeat_topic, status_info, heartbeat_info, tracker, finished_message,
  running_message, pulse, event,
}
use slurm_manager.Tests.Redis.{client-IsIndexed}

own : OfJob (codes "a") (codes "7") (own_callbacks 0 tracker)
unfolding lookup dec_text topic
own = ((refl, refl), tt)

done-finished : ends (parse_status env finished_message).job_status ≡ true
unfolding parse_status split_once job_status dec_text
done-finished = refl

apply_status_lem_example :
    let (result, u) = apply_status env finished_message 0 tracker in
    let p = parse_status env finished_message in
    (result ≡ ok tt)
    × (ends p.job_status ≡ true
        → (done (u.futures 0) ≡ true) × Dropped (codes "a") (delivered env p 0 tracker) u)
    × (ends p.job_status ≡ false → u ≡ delivered env p 0 tracker)
apply_status_lem_example = apply_status_lem env finished_message 0 tracker refl own refl

apply_status_final_example :
    apply_status env running_message 0 (apply_status env finished_message 0 tracker).1
    ≡ (ok tt, (apply_status env finished_message 0 tracker).1)
apply_status_final_example =
    apply_status_final env env finished_message running_message 0 tracker done-finished

own_entry : OwnEntry (codes "a") tracker
own_entry r e = (refl, own)

remove_subscriptions_for_job-Removed_example :
    Removed (codes "a") false tracker (remove_subscriptions_for_job env (codes "a") false tracker).1
remove_subscriptions_for_job-Removed_example =
    remove_subscriptions_for_job-Removed env (codes "a") false tracker own_entry refl

notify_tasks_example :
    let (result, (left, u)) = notify env (status_info ∷ status_info ∷ []) (event, tracker) in
    (result ≡ ok tt)
    × (u ≡ record tracker {
      executor =
          tracker.executor
          ++ map
              (λ d. task_of d (enrich env (codes "a") (codes "7") event))
              (dispatches (status_info ∷ status_info ∷ []));
    })
notify_tasks_example =
    notify_tasks env (codes "a") (codes "7") (status_info ∷ status_info ∷ []) event tracker
      ((refl, refl), ((refl, refl), tt)) refl

-- After the shutdown, with a manager-wide callback and none of the job's own.
abbrev shut_down : Tracker
shut_down = record tracker { executor_open = false; subscriptions_by_topic = [] }

listened : matching status_key (values shut_down.global_callbacks) ≢ []
unfolding dec_text
listened e = ground arith

apply_status-closed_example : apply_status env finished_message 0 shut_down ≡ (
  err closed,
  record shut_down {
    futures =
        update 0
          (update_status
            (parse_status env finished_message).job_status
            (parse_status env finished_message).detail
            job)
          (λ r. job);
  },
)
apply_status-closed_example =
    apply_status-closed env finished_message 0 shut_down refl refl (inr listened)

parse_status-format_example :
    parse_status env (status_message [] error (some (codes "exit: 1"))) ≡ record {
      job_status = error;
      detail = some (codes "exit: 1");
      message = status_message [] error (some (codes "exit: 1"));
    }
parse_status-format_example = parse_status-format env [] error (some (codes "exit: 1"))

job_topic-injective_example : (codes "a" ≡ codes "a") × (log_key ≡ log_key)
job_topic-injective_example =
    job_topic-injective (codes "a") (codes "a") log_key log_key (refl, tt) (refl, tt) refl

finish_subscription-gone_example :
    let (result, u) = finish_subscription (codes "b") log_key 4 none 0 (codes "s") tracker in
    (result ≡ err (finished_meanwhile (codes "b")))
    × ((s i : Text)
        → find s i u.client.subscriptions_by_topic
          ≡ ite (dec_text i (codes "s")) none (find s i tracker.client.subscriptions_by_topic))
    × (u ≡ record tracker { client = u.client })
unfolding lookup dec_text
finish_subscription-gone_example =
    finish_subscription-gone (codes "b") log_key 4 none 0 (codes "s") tracker client-IsIndexed refl

live : is_live (codes "a") 0 tracker ≡ true
unfolding lookup dec_text
live = refl

finish_subscription-live_example :
    let (result, u) = finish_subscription (codes "a") log_key 4 none 0 (codes "n") tracker in
    (result ≡ ok (codes "n"))
    × ((s i : Text)
        → find s i u.subscriptions_by_topic
          ≡ ite
              (dec_text s (job_topic (codes "a") log_key))
              (ite
                (dec_text i (codes "n"))
                (some (
                  info_for
                    (job_topic (codes "a") log_key)
                    (codes "a")
                    (some (codes "7"))
                    (some (dispatch_of 4 none job (codes "a")))
                    (codes "n")))
                (find s i tracker.subscriptions_by_topic))
              (find s i tracker.subscriptions_by_topic))
    × (u.client ≡ tracker.client)
finish_subscription-live_example =
    finish_subscription-live (codes "a") log_key 4 none 0 (codes "n") tracker live

abbrev draw : Draw
draw = record { id = codes "n"; accepted = true }

finish_subscription_lost_example :
    let placed = (place_subscription draw (codes "a") log_key 4 none 0 tracker).1 in
    let (result, u) =
      finish_subscription
        (codes "a")
        log_key
        4
        none
        0
        (codes "n")
        (remove_subscription_by_topic (job_topic (codes "a") log_key) placed) in
    (result ≡ ok (codes "n"))
    × (find (job_topic (codes "a") log_key) (codes "n") u.subscriptions_by_topic ≢ none)
    × (find (job_topic (codes "a") log_key) (codes "n") u.client.subscriptions_by_topic ≡ none)
finish_subscription_lost_example =
    finish_subscription_lost draw (codes "a") log_key 4 none 0 tracker live

ids : IdsKnown tracker
unfolding lookup
ids topic i h = ground arith

find-remove_subscription_by_id_example :
    (find status_topic
        (codes "s")
        (remove_subscription_by_id (codes "s" ∷ []) tracker).subscriptions_by_topic
      ≡ (if has (codes "s") (codes "s" ∷ [])
          then none
          else find status_topic (codes "s") tracker.subscriptions_by_topic))
    × ((remove_subscription_by_id (codes "s" ∷ []) tracker).global_callbacks
        ≡ tracker.global_callbacks)
unfolding lookup dec_text
find-remove_subscription_by_id_example =
    find-remove_subscription_by_id (codes "s" ∷ []) tracker ids (refl, tt) status_topic (codes "s")

get_missing_heartbeats_iff_example : In heartbeat_info (get_missing_heartbeats 20000000 tracker) ↔ (
    IsWatched tracker tracker.active_subscriptions heartbeat_info × IsDue 20000000 heartbeat_info)
get_missing_heartbeats_iff_example = get_missing_heartbeats_iff 20000000 tracker heartbeat_info

begin_scheduler_check-missing_example :
    missing_in 25000000 (
      values (
        entries (
          lookup heartbeat_topic
            (begin_scheduler_check 20000000 (codes "a") tracker).1.subscriptions_by_topic)))
    ≡ []
unfolding begin_scheduler_check lookup dec_text
begin_scheduler_check-missing_example =
    begin_scheduler_check-missing 20000000 25000000 (codes "a") tracker 0 refl (omega arith)

heartbeat_callback-find_example :
    let u =
      (heartbeat_callback env pulse heartbeat_topic
        (codes "h")
        (codes "a")
        (codes "7")
        tracker).1 in
    ((later : ℕ) (info : SubscriptionInfo)
      → find heartbeat_topic (codes "h") u.subscriptions_by_topic ≡ some info
      → later ≤ 20000000 + heartbeat_timeout
      → is_missing later info ≡ false)
    × ((s i : Text)
        → ◌≢◌ {A = Text × Text} (s, i) (heartbeat_topic, codes "h")
        → find s i u.subscriptions_by_topic ≡ find s i tracker.subscriptions_by_topic)
heartbeat_callback-find_example =
    heartbeat_callback-find env pulse heartbeat_topic (codes "h") (codes "a") (codes "7") tracker
