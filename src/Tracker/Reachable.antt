-- ===== src/Tracker/Reachable.antt =====
-- The trackers that calls and messages, in any order, lead to before the shutdown.
use slurm_manager.Base.{
  ◌≡◌, sym, refl, ap, subst, ◌∙◌, ◌≢◌, Bool, true, false, ℕ, Option, none, some, List, arith,
  is_some,
}
use slurm_manager.Base.Text.{Text, Free}
use slurm_manager.Base.Dict.{lookup, find}
use slurm_manager.Base.Result.{Result, ok}
use slurm_manager.Message.{SlurmMessage}
use slurm_manager.Future.{UserCallback, JobFuture, done}
use slurm_manager.RedisSub.{Client, Subscription, new_client}
use slurm_manager.RedisSub.Listener.{Poll, failed, nothing, received, listener_round}
use slurm_manager.RedisSub.Reachable.{listener_round-IsIndexed}
use slurm_manager.Tracker.State.{Tracker, Ref, Env, Kwargs, Handler, new_tracker, update}
use slurm_manager.Tracker.Status.Drop.{Dropped}
use slurm_manager.Tracker.Status.Ending.{delivered, apply_status_lem, apply_status_final}
use slurm_manager.Tracker.Status.{
  StatusMessage, parse_status, ends, apply_status, remove_subscriptions_for_job,
}
use slurm_manager.Tracker.Register.{Draw, track, add_subscription, future_listen, listen}
use slurm_manager.Tracker.Remove.{remove_subscription_by_id, remove_subscription_by_topic, unlisten}
use slurm_manager.Tracker.Monitor.{begin_scheduler_check, delivered_to, poll}
use slurm_manager.Tracker.Tracked.{IsOwned, IsTracked, new_tracker-IsTracked, own_callbacks-OfJob}
use slurm_manager.Tracker.Tracked.Ending.{
  apply_status-IsTracked, remove_subscriptions_for_job-IsTracked, futures-IsTracked, update-other,
}
use slurm_manager.Tracker.Tracked.Removing.{remove_subscription_by_id-IsTracked, unlisten-IsTracked}
use slurm_manager.Tracker.Tracked.Leaving.{remove_subscription_by_topic-IsTracked}
use slurm_manager.Tracker.Tracked.Tracking.{track-IsTracked}
use slurm_manager.Tracker.Tracked.Listening.{
  add_subscription-Installed, future_listen-IsTracked, listen-IsTracked,
}
use slurm_manager.Tracker.Tracked.Delivering.{deliver-IsTracked}
use slurm_manager.Tracker.Tracked.Checking.{begin_scheduler_check-IsTracked}

-- A future at an address that no tracked job has.
create-IsTracked :
    (r : Ref) (f : JobFuture) (t : Tracker)
    → IsTracked t
    → ((j : Text) → lookup j t.future_registry ≢ some r)
    → IsTracked (record t { futures = update r f t.futures })
create-IsTracked r f t inv new =
    futures-IsTracked t (update r f t.futures) inv
      (λ j q e. update-other r q f t.futures (λ same. new j (e ∙ ap some same)))

module _ {Value : Type 0} (decode : Text → Result Text) (json_loads : Text → Result Value)
    (validate : Value → Result SlurmMessage) where
  listener_round-callbacks :
      (p : Poll Value) (c : Client Handler)
      → (listener_round decode json_loads validate p c).0.subscriptions_by_topic
        ≡ c.subscriptions_by_topic
  unfolding listener_round
  listener_round-callbacks failed c = refl
  listener_round-callbacks nothing c = refl
  listener_round-callbacks (received m) c = grind arith

  heard-IsTracked :
      (p : Poll Value) (t : Tracker)
      → IsTracked t
      → IsTracked (record t { client = (listener_round decode json_loads validate p t.client).0 })
  heard-IsTracked p t inv = record {
    opened = inv.opened;
    synced = record {
      client = listener_round-IsIndexed decode json_loads validate p t.client inv.synced.client;
      unique = inv.synced.unique;
      known = inv.synced.known;
      indexed = inv.synced.indexed;
      same = λ s i.
          ap (λ m. is_some (find s i m)) (listener_round-callbacks p t.client)
          ∙ inv.synced.same s i;
    };
    owned =
        subst (IsOwned t.futures t.future_registry t.subscriptions_by_topic t.active_subscriptions)
          (sym (listener_round-callbacks p t.client)) inv.owned;
  }

  delivered_to-IsTracked :
      (env : Env) (o : Option (SlurmMessage × List (Subscription Handler))) (t : Tracker)
      → IsTracked t
      → IsTracked (delivered_to env o t)
  delivered_to-IsTracked env none t inv = inv
  delivered_to-IsTracked env (some (m, ss)) t inv = deliver-IsTracked env ss m t inv

  poll-IsTracked :
      (env : Env) (p : Poll Value) (t : Tracker)
      → IsTracked t
      → IsTracked (poll decode json_loads validate env p t)
  unfolding poll
  poll-IsTracked env p t inv =
      delivered_to-IsTracked env (listener_round decode json_loads validate p t.client).1 _
        (heard-IsTracked p t inv)

  -- A call of the tracker before its shutdown, or a round of its client's listener. Job ids have no
  -- slash, as UUIDs have none, and new ids are not in use. A registration is one step here: what
  -- another thread can do between its parts is in Tracker/Register/Subscription.
  pub data Step (t : Tracker) : Tracker → Type 0 where
    creates :
        (r : Ref) (f : JobFuture)
        → ((j : Text) → lookup j t.future_registry ≢ some r)
        → Step t (record t { futures = update r f t.futures })
    tracks :
        (env : Env) (d e l : Draw) (r : Ref)
        → lookup (t.futures r).job_id t.future_registry ≡ none
        → done (t.futures r) ≡ false
        → Free b'/' (t.futures r).job_id
        → lookup d.id t.topic_by_subscription_id ≡ none
        → lookup e.id t.topic_by_subscription_id ≡ none
        → lookup l.id t.topic_by_subscription_id ≡ none
        → e.id ≢ d.id
        → l.id ≢ d.id
        → l.id ≢ e.id
        → Step t (track env d e l r t).1
    adds :
        (d : Draw) (job_id key : Text) (callback : UserCallback) (kwargs : Option Kwargs)
        → lookup d.id t.topic_by_subscription_id ≡ none
        → Step t (add_subscription d job_id key callback kwargs t).1
    future_listens :
        (d : Draw) (r : Ref) (event : Text) (callback : UserCallback)
        → lookup d.id t.topic_by_subscription_id ≡ none
        → Step t (future_listen d r event callback t).1
    listens :
        (d : Draw) (event : Text) (callback : UserCallback) (job_id : Option Text)
        → lookup d.id t.topic_by_subscription_id ≡ none
        → Step t (listen d event callback job_id t).1
    applies : (env : Env) (m : StatusMessage) (r : Ref) → Step t (apply_status env m r t).1
    polls : (env : Env) (p : Poll Value) → Step t (poll decode json_loads validate env p t)
    checks : (now : ℕ) (job_id : Text) → Step t (begin_scheduler_check now job_id t).1
    removes : (ids : List Text) → Step t (remove_subscription_by_id ids t)
    leaves : (topic : Text) → Step t (remove_subscription_by_topic topic t)
    drops :
        (env : Env) (job_id : Text) (skip_event_callback : Bool)
        → Step t (remove_subscriptions_for_job env job_id skip_event_callback t).1
    unlistens : (r : Ref) (id : Text) → Step t (unlisten r id t)

  pub data Reachable : Tracker → Type 0 where
    start : (futures : Ref → JobFuture) → Reachable (new_tracker futures new_client)
    next : (t u : Tracker) → Reachable t → Step t u → Reachable u

  Step-IsTracked : (t u : Tracker) → IsTracked t → Step t u → IsTracked u
  Step-IsTracked t _ inv (creates r f new) = create-IsTracked r f t inv new
  Step-IsTracked t _ inv (tracks env d e l r new live free n1 n2 n3 d1 d2 d3) =
      track-IsTracked env d e l r t inv new live free n1 n2 n3 d1 d2 d3
  Step-IsTracked t _ inv (adds d job_id key callback kwargs new) =
      (add_subscription-Installed d job_id key callback kwargs t inv new).tracked
  Step-IsTracked t _ inv (future_listens d r event callback new) =
      future_listen-IsTracked d r event callback t inv new
  Step-IsTracked t _ inv (listens d event callback job_id new) =
      listen-IsTracked d event callback job_id t inv new
  Step-IsTracked t _ inv (applies env m r) = apply_status-IsTracked env m r t inv
  Step-IsTracked t _ inv (polls env p) = poll-IsTracked env p t inv
  Step-IsTracked t _ inv (checks now job_id) = begin_scheduler_check-IsTracked now job_id t inv
  Step-IsTracked t _ inv (removes ids) = remove_subscription_by_id-IsTracked ids t inv
  Step-IsTracked t _ inv (leaves topic) = remove_subscription_by_topic-IsTracked topic t inv
  Step-IsTracked t _ inv (drops env job_id skip) =
      remove_subscriptions_for_job-IsTracked env job_id skip t inv
  Step-IsTracked t _ inv (unlistens r id) = unlisten-IsTracked r id t inv

  -- Every tracker that a new one leads to before its shutdown, by the tracking of jobs,
  -- registrations, statuses, rounds of the listener, scheduler checks and removals of every kind,
  -- one at a time in any order, with new ids not in use and job ids without a slash, satisfies one
  -- invariant with its Redis client: the executor is open, both have the callbacks of the same
  -- topics and ids, every tracked job is live, and every callback belongs to a tracked job, is
  -- registered under an active topic of that job, its closure holds the ids of that job, and the
  -- client calls that closure, or nothing on the topic of the statuses.
  pub Reachable-IsTracked : (t : Tracker) → Reachable t → IsTracked t
  Reachable-IsTracked _ (start futures) = new_tracker-IsTracked futures
  Reachable-IsTracked _ (next t u r s) = Step-IsTracked t u (Reachable-IsTracked t r) s

  -- On every tracker that a new one leads to before its shutdown, a terminal status for a tracked
  -- job is applied without an error, leaves its future done, drops the job from the registry, its
  -- topics from the tracker and from the Redis client, and every later status for that future
  -- leaves the whole tracker as it is.
  pub Reachable_status_ends :
      (t : Tracker) (env : Env) (m : StatusMessage) (j : Text) (r : Ref)
      → Reachable t
      → lookup j t.future_registry ≡ some r
      → ends (parse_status env m).job_status ≡ true
      → let (result, u) = apply_status env m r t in
        (result ≡ ok tt)
        × (done (u.futures r) ≡ true)
        × Dropped j (delivered env (parse_status env m) r t) u
        × ((later : Env) (n : StatusMessage) → apply_status later n r u ≡ (ok tt, u))
  Reachable_status_ends t env m j r reached e h =
      let inv = Reachable-IsTracked t reached in
      let l = inv.owned.live j r e in
      let own = own_callbacks-OfJob t r inv (ap (λ x. lookup x t.future_registry) l.0 ∙ e) in
      let told = apply_status_lem env m r t l.1 own inv.opened in
      let over = told.1 h in
      (
        told.0,
        over.0,
        subst (λ x. Dropped x (delivered env (parse_status env m) r t) (apply_status env m r t).1)
            l.0 over.1,
        λ later n. apply_status_final env later m n r t h,
      )
