-- ===== src/Tracker/Status/Drop.antt =====
-- What `remove_subscriptions_for_job` leaves of the tracker.
use slurm_manager.Base.{◌≡◌, refl, none, List, [], ◌∷◌, arith, ite, if◌then◌else◌}
use slurm_manager.Base.Text.{Text, dec_text}
use slurm_manager.Base.Dict.{lookup, erase, has, lookup-erase}
use slurm_manager.RedisSub.Indexed.{lookup-unsubscribe_topic}
use slurm_manager.Tracker.State.{Tracker}
use slurm_manager.Tracker.Status.{drop_topic, drop_topics, drop_monitoring, topics_of}

lookup-drop_topics :
    (s : Text) (topics : List Text) (t : Tracker)
    → lookup s (drop_topics topics t).subscriptions_by_topic
      ≡ (if has s topics then none else lookup s t.subscriptions_by_topic)
unfolding drop_topics
lookup-drop_topics s [] t = refl
lookup-drop_topics s (topic ∷ topics) t = ground (
  arith,
  lookup-drop_topics s topics (drop_topic topic t),
  lookup-erase s topic t.subscriptions_by_topic,
)

client-drop_topics :
    (s : Text) (topics : List Text) (t : Tracker)
    → lookup s (drop_topics topics t).client.subscriptions_by_topic
      ≡ (if has s topics then none else lookup s t.client.subscriptions_by_topic)
unfolding drop_topics
client-drop_topics s [] t = refl
client-drop_topics s (topic ∷ topics) t = ground (
  arith,
  client-drop_topics s topics (drop_topic topic t),
  lookup-unsubscribe_topic s topic t.client,
)

-- The fields that the loop over the topics leaves alone.
record Same (t u : Tracker) : Type 0 where
  same_futures : u.futures ≡ t.futures
  same_registry : u.future_registry ≡ t.future_registry
  same_globals : u.global_callbacks ≡ t.global_callbacks
  same_active : u.active_subscriptions ≡ t.active_subscriptions
  same_executor : u.executor ≡ t.executor
  same_open : u.executor_open ≡ t.executor_open

drop_topics-Same : (topics : List Text) (t : Tracker) → Same t (drop_topics topics t)
unfolding drop_topics
drop_topics-Same [] t = ground arith
drop_topics-Same (topic ∷ topics) t = ground (arith, drop_topics-Same topics (drop_topic topic t))

-- What a job's clean-up does: the job is tracked no more, its topics are gone from the tracker and
-- from the client, and everything else is as before.
pub record Dropped (job_id : Text) (t u : Tracker) : Type 0 where
  pub untracked : lookup job_id u.future_registry ≡ none
  pub inactive : lookup job_id u.active_subscriptions ≡ none
  pub topics_gone :
      (s : Text)
      → lookup s u.subscriptions_by_topic ≡ (
          if has s (topics_of (lookup job_id t.active_subscriptions))
          then none
          else lookup s t.subscriptions_by_topic)
  pub client_gone :
      (s : Text)
      → lookup s u.client.subscriptions_by_topic ≡ (
          if has s (topics_of (lookup job_id t.active_subscriptions))
          then none
          else lookup s t.client.subscriptions_by_topic)
  pub other_jobs :
      (j : Text)
      → lookup j u.future_registry ≡ ite (dec_text j job_id) none (lookup j t.future_registry)
  pub other_active :
      (j : Text)
      → lookup j u.active_subscriptions
        ≡ ite (dec_text j job_id) none (lookup j t.active_subscriptions)
  pub futures_kept : u.futures ≡ t.futures
  pub globals_kept : u.global_callbacks ≡ t.global_callbacks
  pub tasks_kept : u.executor ≡ t.executor
  pub open_kept : u.executor_open ≡ t.executor_open

pub drop_monitoring-Dropped :
    (job_id : Text) (t : Tracker) → Dropped job_id t (drop_monitoring job_id t)
unfolding drop_monitoring
drop_monitoring-Dropped job_id t = record {
  untracked = ground (arith, same, lookup-erase job_id job_id t.future_registry);
  inactive = ground (arith, same, lookup-erase job_id job_id t.active_subscriptions);
  topics_gone = λ s. lookup-drop_topics s topics popped;
  client_gone = λ s. client-drop_topics s topics popped;
  other_jobs = λ j. ground (arith, same, lookup-erase j job_id t.future_registry);
  other_active = λ j. ground (arith, same, lookup-erase j job_id t.active_subscriptions);
  futures_kept = ground (arith, same);
  globals_kept = ground (arith, same);
  tasks_kept = ground (arith, same);
  open_kept = ground (arith, same);
}
  where
    topics : List Text
    topics = topics_of (lookup job_id t.active_subscriptions)

    popped : Tracker
    popped = record t { active_subscriptions = erase job_id t.active_subscriptions }

    same : Same popped (drop_topics topics popped)
    same = drop_topics-Same topics popped
