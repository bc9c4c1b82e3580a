-- ===== src/Tracker/Tracked.antt =====
-- The invariant of a `JobTracker` and of the Redis client that it uses.
pub mod Synced
pub mod Owned
pub mod Ending
pub mod Removing
pub mod Leaving
pub mod Adding
pub mod Tracking
pub mod Listening
pub mod Delivering
pub mod Checking
use slurm_manager.Base.{
  ◌⊎◌, ◌≡◌, refl, sym, ap, ◌∙◌, ◌≢◌, Bool, true, false, Option, none, some, List, [], ◌∷◌, arith,
  is_some,
}
use slurm_manager.Base.Text.{Text, Free}
use slurm_manager.Base.Dict.{Dict, lookup, find, entries, values, has, lookup-nil, lookup-entries}
use slurm_manager.Base.Unique.{Unique, lookup-tail, lookup-head}
use slurm_manager.Future.{JobFuture, done}
use slurm_manager.RedisSub.{Client, Subscription, new_client}
use slurm_manager.RedisSub.Indexed.{IsIndexed, new_client-IsIndexed}
use slurm_manager.Tracker.Topics.{job_topic, status_key}
use slurm_manager.Tracker.Topics.Distinct.{job_topic-injective}
use slurm_manager.Tracker.State.{
  Tracker, Ref, Dispatch, Handler, user_dispatch, ignore_status, status_monitor, SubscriptionInfo,
  new_tracker,
}
use slurm_manager.Tracker.Status.{topics_of}
use slurm_manager.Tracker.Status.Tasks.{OfJob, SameJob}
use slurm_manager.Tracker.Status.Ending.{own_callbacks}

-- The tracker's callbacks are those of the client, and both find each by its id.
pub record IsSynced (c : Client Handler) (subs : Dict (Dict SubscriptionInfo)) (ids : Dict Text)
    : Type 0 where
  pub client : IsIndexed c
  pub unique : (s : Text) → Unique (entries (lookup s subs))
  pub known : (s i : Text) → find s i subs ≢ none → lookup i ids ≡ some s
  pub indexed : (i s : Text) → lookup i ids ≡ some s → find s i subs ≢ none
  pub same : (s i : Text) → is_some (find s i c.subscriptions_by_topic) ≡ is_some (find s i subs)

-- The topic is one of the job's.
abbrev pub IsTopic : Text → Text → Type 0
IsTopic s job_id = Free b'/' job_id × ((key : Text) × (s ≡ job_topic job_id key))

-- What the client calls for the closure: the closure, or nothing on the topic of the statuses,
-- which `apply_status` hands to it.
abbrev pub Calls : Handler → Dispatch → Text → Text → Type 0
Calls h d s job_id =
    (h ≡ user_dispatch d) ⊎ ((h ≡ ignore_status) × (s ≡ job_topic job_id status_key))

-- The jobs that are tracked are live, and each callback belongs to one of them: it is registered
-- under an active topic of the job, its closure holds the job's ids, and the client calls it. A callback
-- without a closure on the topic of the job's statuses is the monitor of the job's future.
pub record IsOwned (futures : Ref → JobFuture) (registry : Dict Ref)
    (subs : Dict (Dict SubscriptionInfo)) (active : Dict (List Text))
    (callbacks : Dict (Dict (Subscription Handler))) : Type 0 where
  pub live :
      (j : Text) (r : Ref)
      → lookup j registry ≡ some r
      → ((futures r).job_id ≡ j) × (done (futures r) ≡ false) × Free b'/' j
  pub placed :
      (s i : Text) (info : SubscriptionInfo)
      → find s i subs ≡ some info
      → (info.topic ≡ s)
        × (info.callback_id ≡ some i)
        × (lookup info.job_id registry ≢ none)
        × (has s (topics_of (lookup info.job_id active)) ≡ true)
        × IsTopic s info.job_id
  pub own :
      (s i : Text) (info : SubscriptionInfo) (d : Dispatch) (r : Ref)
      → find s i subs ≡ some info
      → info.callback ≡ some d
      → lookup info.job_id registry ≡ some r
      → (d.job_id ≡ info.job_id) × (d.slurm_job_id ≡ (futures r).slurm_job_id)
  pub wired :
      (s i : Text) (info : SubscriptionInfo) (d : Dispatch) (sub : Subscription Handler)
      → find s i subs ≡ some info
      → info.callback ≡ some d
      → find s i callbacks ≡ some sub
      → Calls sub.callback d s info.job_id
  pub monitored :
      (s i : Text) (info : SubscriptionInfo) (sub : Subscription Handler)
      → find s i subs ≡ some info
      → info.callback ≡ none
      → s ≡ job_topic info.job_id status_key
      → find s i callbacks ≡ some sub
      → (r : Ref) × (lookup info.job_id registry ≡ some r) × (sub.callback ≡ status_monitor r)

pub record IsTracked (t : Tracker) : Type 0 where
  pub opened : t.executor_open ≡ true
  pub synced : IsSynced t.client t.subscriptions_by_topic t.topic_by_subscription_id
  pub owned :
      IsOwned t.futures t.future_registry t.subscriptions_by_topic t.active_subscriptions
        t.client.subscriptions_by_topic

pub new_tracker-IsTracked : (futures : Ref → JobFuture) → IsTracked (new_tracker futures new_client)
unfolding new_tracker new_client lookup
new_tracker-IsTracked futures = record {
  opened = refl;
  synced = record {
    client = new_client-IsIndexed;
    unique = λ s. tt;
    known = λ s i h. absurd (h refl);
    indexed = λ i s e. cc;
    same = λ s i. refl;
  };
  owned = record {
    live = λ j r e. cc;
    placed = λ s i info e. cc;
    own = λ s i info d r e. cc;
    wired = λ s i info d sub e. absurd (ground arith);
    monitored = λ s i info sub e. absurd (ground arith);
  };
}

OfJob-values :
    (job_id slurm_job_id : Text) (d : Dict SubscriptionInfo)
    → Unique d
    → ((i : Text) (info : SubscriptionInfo) (x : Dispatch)
        → lookup i d ≡ some info
        → info.callback ≡ some x
        → (x.job_id ≡ job_id) × (x.slurm_job_id ≡ slurm_job_id))
    → OfJob job_id slurm_job_id (values d)
OfJob-values job_id slurm_job_id [] u h = tt
OfJob-values job_id slurm_job_id ((k, info) ∷ d) u h = (
  of_callback info.callback refl,
  OfJob-values job_id slurm_job_id d u.1
      (λ i info' x e. h i info' x (lookup-tail i k info info' d u.0 e)),
)
  where
    of_callback : (o : Option Dispatch) → info.callback ≡ o → SameJob job_id slurm_job_id o
    of_callback none e = tt
    of_callback (some x) e = h k info x (lookup-head k info d) e

-- In a tracker that satisfies the invariant, the status callbacks of a tracked job are its own.
pub own_callbacks-OfJob :
    (t : Tracker) (r : Ref)
    → IsTracked t
    → lookup (t.futures r).job_id t.future_registry ≡ some r
    → OfJob (t.futures r).job_id (t.futures r).slurm_job_id (own_callbacks r t)
own_callbacks-OfJob t r inv e =
    OfJob-values j (t.futures r).slurm_job_id (entries (lookup s t.subscriptions_by_topic))
      (inv.synced.unique s) of_entry
  where
    j : Text
    j = (t.futures r).job_id

    s : Text
    s = job_topic j status_key

    of_entry :
        (i : Text) (info : SubscriptionInfo) (x : Dispatch)
        → lookup i (entries (lookup s t.subscriptions_by_topic)) ≡ some info
        → info.callback ≡ some x
        → (x.job_id ≡ j) × (x.slurm_job_id ≡ (t.futures r).slurm_job_id)
    of_entry i info x found c =
        let here = sym (lookup-entries i s t.subscriptions_by_topic) ∙ found in
        let p = inv.owned.placed s i info here in
        let same_job =
          (job_topic-injective info.job_id j p.4.1.0 status_key p.4.0 (inv.owned.live j r e).2
            (sym p.4.1.1)).0 in
        let o =
          inv.owned.own s i info x r here c (ap (λ k. lookup k t.future_registry) same_job ∙ e) in
        (o.0 ∙ same_job, o.1)
