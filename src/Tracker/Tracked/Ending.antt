-- ===== src/Tracker/Tracked/Ending.antt =====
-- A status, and the clean-up of a job, keep the tracker's invariant.
use slurm_manager.Base.{
  ◌≡◌, refl, sym, ap, subst, ◌∙◌, ◌≢◌, Bool, true, false, Option, none, some, List, [], ◌∷◌, arith,
  Bool-cases, inl, inr, ◌⊎◌, ◌||◌,
}
use slurm_manager.Base.Text.{Text}
use slurm_manager.Base.Dict.{lookup, find, has}
use slurm_manager.Future.{JobStatus, JobFuture, done, update_status}
use slurm_manager.Base.Result.{Result, ok}
use slurm_manager.Tracker.State.{Tracker, Ref, Env, Handler, SubscriptionInfo, Task, update}
use slurm_manager.Tracker.Status.{
  StatusMessage, Parsed, parse_status, topics_of, drop_topic, drop_topics, drop_monitoring, ends,
  deliver_status, cleaned, accept_status, apply_status, remove_found, removal_message,
  remove_subscriptions_for_job,
}
use slurm_manager.Tracker.Status.Drop.{Dropped, drop_monitoring-Dropped}
use slurm_manager.RedisSub.{Subscription}
use slurm_manager.Tracker.Status.Ending.{deliver_status-state, deliver_status-ok}
use slurm_manager.Tracker.Tracked.{IsSynced, IsOwned, IsTracked}
use slurm_manager.Tracker.Tracked.Synced.{dropped-IsSynced}
use slurm_manager.Tracker.Tracked.Owned.{SameFuture, SameInfo, restrict}

pub same_future : (f : JobFuture) → SameFuture f f
same_future f = record { job_id = refl; slurm_job_id = refl; still = refl }

pub same_info : (a : SubscriptionInfo) → SameInfo a a
same_info a = record { topic = refl; job_id = refl; callback = refl; callback_id = refl }

abbrev Synced : Tracker → Type 0
Synced t = IsSynced t.client t.subscriptions_by_topic t.topic_by_subscription_id

drop_topics-Synced : (topics : List Text) (t : Tracker) → Synced t → Synced (drop_topics topics t)
unfolding drop_topics drop_topic
drop_topics-Synced [] t h = h
drop_topics-Synced (topic ∷ topics) t h =
    drop_topics-Synced topics (drop_topic topic t)
      (dropped-IsSynced t.client t.subscriptions_by_topic t.topic_by_subscription_id h topic)

drop_monitoring-Synced :
    (job_id : Text) (t : Tracker) → Synced t → Synced (drop_monitoring job_id t)
unfolding drop_monitoring
drop_monitoring-Synced job_id t h =
    drop_topics-Synced (topics_of (lookup job_id t.active_subscriptions)) _ h

module _ (job_id : Text) (t u : Tracker) (d : Dropped job_id t u) where
  job_left :
      (j : Text) (r : Ref)
      → lookup j u.future_registry ≡ some r
      → (j ≢ job_id) × (lookup j t.future_registry ≡ some r)
  job_left j r e = (λ k. ground (arith, d.other_jobs j), ground (arith, d.other_jobs j))

  callback_left :
      (s i : Text) (b : SubscriptionInfo)
      → find s i u.subscriptions_by_topic ≡ some b
      → (has s (topics_of (lookup job_id t.active_subscriptions)) ≡ false)
        × (find s i t.subscriptions_by_topic ≡ some b)
  callback_left s i b e = (ground (arith, d.topics_gone s), ground (arith, d.topics_gone s))

  handler_left :
      (s i : Text) (h : Subscription Handler)
      → find s i u.client.subscriptions_by_topic ≡ some h
      → find s i t.client.subscriptions_by_topic ≡ some h
  handler_left s i h e = ground (arith, d.client_gone s)

  -- A callback on a topic that is not dropped belongs to another job.
  other_job :
      (s j : Text)
      → has s (topics_of (lookup job_id t.active_subscriptions)) ≡ false
      → has s (topics_of (lookup j t.active_subscriptions)) ≡ true
      → j ≢ job_id
  other_job s j off on e =
      let k = ap (λ x. has s (topics_of (lookup x t.active_subscriptions))) (sym e) ∙ on in
      ground arith

  job_kept :
      (j : Text)
      → j ≢ job_id
      → lookup j t.future_registry ≢ none
      → lookup j u.future_registry ≢ none
  job_kept j other there = ground (arith, d.other_jobs j)

  topic_kept :
      (s j : Text)
      → j ≢ job_id
      → has s (topics_of (lookup j t.active_subscriptions)) ≡ true
      → has s (topics_of (lookup j u.active_subscriptions)) ≡ true
  topic_kept s j other on = ground (arith, d.other_active j)

-- The clean-up of a job, also where the futures of that job have changed before.
pub drop_monitoring-IsTracked :
    (job_id : Text) (t : Tracker) (old : Ref → JobFuture)
    → t.executor_open ≡ true
    → Synced t
    → IsOwned old t.future_registry t.subscriptions_by_topic t.active_subscriptions
        t.client.subscriptions_by_topic
    → ((j : Text) (r : Ref)
        → j ≢ job_id
        → lookup j t.future_registry ≡ some r
        → SameFuture (old r) (t.futures r))
    → IsTracked (drop_monitoring job_id t)
drop_monitoring-IsTracked job_id t old opened synced owned same =
    let u : Tracker = drop_monitoring job_id t in
    let d = drop_monitoring-Dropped job_id t in
    record {
      opened = d.open_kept ∙ opened;
      synced = drop_monitoring-Synced job_id t synced;
      owned =
          restrict old t.future_registry t.subscriptions_by_topic t.active_subscriptions
            t.client.subscriptions_by_topic owned u.futures u.future_registry
            u.subscriptions_by_topic u.active_subscriptions u.client.subscriptions_by_topic
            (handler_left job_id t u d)
            (λ j r e.
              let k = job_left job_id t u d j r e in
              (
                k.1,
                subst (λ (fs : Ref → JobFuture). SameFuture (old r) (fs r)) (sym d.futures_kept)
                    (same j r k.0 k.1),
              ))
            (λ s i b e.
              let k = callback_left job_id t u d s i b e in
              let p = owned.placed s i b k.1 in
              let other = other_job job_id t u d s b.job_id k.0 p.3 in
              (
                b,
                k.1,
                same_info b,
                job_kept job_id t u d b.job_id other p.2,
                topic_kept job_id t u d s b.job_id other p.3,
              ));
    }

-- What a change of one future's status leaves of it.
update_status-SameFuture :
    (s : JobStatus) (detail : Option Text) (f : JobFuture)
    → (done f ≡ true) ⊎ (ends s ≡ false)
    → SameFuture f (update_status s detail f)
unfolding update_status
update_status-SameFuture s detail f h = record {
  job_id = ground arith;
  slurm_job_id = ground arith;
  still = ground arith;
}

pub update-other :
    (r q : Ref) (f : JobFuture) (futures : Ref → JobFuture)
    → q ≢ r
    → SameFuture (futures q) (update r f futures q)
update-other r q f futures other = record {
  job_id = ground arith;
  slurm_job_id = ground arith;
  still = ground arith;
}

pub update-same :
    (r q : Ref) (f : JobFuture) (futures : Ref → JobFuture)
    → SameFuture (futures r) f
    → SameFuture (futures q) (update r f futures q)
update-same r q f futures h = record {
  job_id = ground (arith, h.job_id);
  slurm_job_id = ground (arith, h.slurm_job_id);
  still = ground (arith, h.still);
}

-- An edit of the futures that leaves their jobs, their ids and whether they are done.
pub futures-IsTracked :
    (t : Tracker) (futures : Ref → JobFuture)
    → IsTracked t
    → ((j : Text) (r : Ref)
        → lookup j t.future_registry ≡ some r
        → SameFuture (t.futures r) (futures r))
    → IsTracked (record t { futures = futures })
futures-IsTracked t futures inv same = record {
  opened = inv.opened;
  synced = inv.synced;
  owned =
      restrict t.futures t.future_registry t.subscriptions_by_topic t.active_subscriptions
        t.client.subscriptions_by_topic inv.owned futures t.future_registry t.subscriptions_by_topic
        t.active_subscriptions t.client.subscriptions_by_topic (λ s i h e. e)
        (λ j r e. (e, same j r e))
        (λ s i b e. let p = inv.owned.placed s i b e in (b, e, same_info b, p.2, p.3));
}

-- The executor's tasks play no part.
pub executor-IsTracked :
    (t : Tracker) (tasks : List Task) → IsTracked t → IsTracked (record t { executor = tasks })
executor-IsTracked t tasks inv = record {
  opened = inv.opened;
  synced = inv.synced;
  owned = inv.owned;
}

accepted-IsTracked :
    (env : Env) (p : Parsed) (r : Ref) (t : Tracker)
    → IsTracked t
    → (b : Bool) → ends p.job_status ≡ b
    → IsTracked (cleaned b (t.futures r).job_id (deliver_status env p r t)).1
accepted-IsTracked env p r t inv b e =
    subst (λ (x : Result Unit × Tracker). IsTracked (cleaned b (t.futures r).job_id x).1)
      (λ i.
        (sym (deliver_status-ok env p r t inv.opened) i, sym (deliver_status-state env p r t) i))
      (cleaned_up b e)
  where
    f : JobFuture
    f = update_status p.job_status p.detail (t.futures r)

    u : Tracker
    u = record t {
      futures = update r f t.futures;
      executor = (deliver_status env p r t).1.executor;
    }

    cleaned_up :
        (b : Bool) → ends p.job_status ≡ b → IsTracked (cleaned b (t.futures r).job_id (ok tt, u)).1
    cleaned_up true e =
        drop_monitoring-IsTracked (t.futures r).job_id u t.futures inv.opened inv.synced inv.owned
          (λ j q other k.
            update-other r q f t.futures
              (λ same. other (sym (inv.owned.live j q k).0 ∙ ap (λ x. (t.futures x).job_id) same)))
    cleaned_up false e = executor-IsTracked _ (deliver_status env p r t).1.executor (
        futures-IsTracked t (update r f t.futures) inv (λ j q k.
          update-same r q f t.futures
            (update_status-SameFuture p.job_status p.detail (t.futures r) (inr e))))

pub apply_status-IsTracked :
    (env : Env) (m : StatusMessage) (r : Ref) (t : Tracker)
    → IsTracked t
    → IsTracked (apply_status env m r t).1
unfolding apply_status accept_status
apply_status-IsTracked env m r t inv = elim (Bool-cases (done (t.futures r))) [
  | inl over ↦ rw over inv
  | inr live ↦ rw live (
      accepted-IsTracked env (parse_status env m) r t inv (ends (parse_status env m).job_status)
        refl)
]

found-IsTracked :
    (env : Env) (job_id : Text) (skip : Bool) (o : Option Ref) (t : Tracker)
    → IsTracked t
    → IsTracked (remove_found env job_id skip o t).1
found-IsTracked env job_id skip none t inv =
    drop_monitoring-IsTracked job_id t t.futures inv.opened inv.synced inv.owned
      (λ j r other e. same_future (t.futures r))
found-IsTracked env job_id skip (some r) t inv = elim (Bool-cases (done (t.futures r) || skip)) [
  | inl over ↦ rw over (
      drop_monitoring-IsTracked job_id t t.futures inv.opened inv.synced inv.owned
        (λ j q other e. same_future (t.futures q)))
  | inr live ↦ rw live (apply_status-IsTracked env (removal_message env (t.futures r)) r t inv)
]

pub remove_subscriptions_for_job-IsTracked :
    (env : Env) (job_id : Text) (skip : Bool) (t : Tracker)
    → IsTracked t
    → IsTracked (remove_subscriptions_for_job env job_id skip t).1
unfolding remove_subscriptions_for_job
remove_subscriptions_for_job-IsTracked env job_id skip t inv =
    found-IsTracked env job_id skip (lookup job_id t.future_registry) t inv
