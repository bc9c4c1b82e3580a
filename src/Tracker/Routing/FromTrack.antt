-- ===== src/Tracker/Routing/FromTrack.antt =====
-- A job that `track` has taken on, up to the status that ends it.
use slurm_manager.Base.{
  ◌≡◌, refl, sym, ap, subst, ◌∙◌, ◌≢◌, Bool, true, none, some, arith, inl, inr,
}
use slurm_manager.Base.Text.{Text, Free}
use slurm_manager.Base.Dict.{lookup, insert, find, entries, lookup-insert}
use slurm_manager.Base.Result.{Result, ok, Result-cases}
use slurm_manager.Message.{SlurmMessage, status}
use slurm_manager.Future.{JobFuture, done}
use slurm_manager.RedisSub.{subscribe}
use slurm_manager.RedisSub.Listener.{RawMessage, received, message, normalize_message}
use slurm_manager.Tracker.Topics.{job_topic, status_key, heartbeat_key, log_key}
use slurm_manager.Tracker.Topics.Distinct.{job_topic-injective}
use slurm_manager.Tracker.State.{Tracker, Ref, Env, Handler, SubscriptionInfo, Exec, ◌>>=◌, ◌>>◌}
use slurm_manager.Tracker.Status.{parse_status, ends}
use slurm_manager.Tracker.Register.{
  info_for, Draw, subscribe_client, register_subscription_for_job, subscribe_to_heartbeat,
  subscribe_to_event, subscribe_to_log, track,
}
use slurm_manager.Tracker.Monitor.{poll}
use slurm_manager.Tracker.Tracked.Synced.{subscribe-ok}
use slurm_manager.Tracker.Tracked.Tracking.{log_key-distinct}
use slurm_manager.Tracker.Reachable.{Reachable}
use slurm_manager.Tracker.Routing.Monitored.{Reachable_poll-ends}

-- A chain that returns has run both of its parts.
pub both_ran {ℓ} :
    {A B : Type ℓ} (m : Exec A) (k : A → Exec B) (t : Tracker) (b : B)
    → ((m >>= k) t).0 ≡ ok b
    → (a : A) × ((m t).0 ≡ ok a) × ((m >>= k) t ≡ k a (m t).1)
both_ran m k t b e = elim (Result-cases (m t).0) [
  | inl (a, went) ↦ (a, went, rw went refl)
  | inr (x, stopped) ↦ absurd (ground (arith, stopped))
]

-- What a subscription with its registration leaves where it succeeds.
record IsAdded (topic id : Text) (info : SubscriptionInfo) (t u : Tracker) : Type 0 where
  registry : u.future_registry ≡ t.future_registry
  subs :
      u.subscriptions_by_topic
      ≡ insert topic
          (insert id info (entries (lookup topic t.subscriptions_by_topic)))
          t.subscriptions_by_topic

subscribed-IsAdded :
    (accepted : Bool) (id topic : Text) (h : Handler) (accept : Text → SubscriptionInfo)
    (t : Tracker)
    → (accept id).topic ≡ topic
    → (accept id).callback_id ≡ some id
    → ((subscribe_client accepted id topic h >>= λ x. register_subscription_for_job (accept x)) t).0
      ≡ ok tt
    → IsAdded topic id
        (accept id)
        t
        ((subscribe_client accepted id topic h >>= λ x. register_subscription_for_job (accept x))
          t).1
unfolding subscribe_client register_subscription_for_job
subscribed-IsAdded accepted id topic h accept t on with_id e =
    elim (Result-cases (subscribe accepted id topic h t.client).0) [
      | inl (x, went) ↦
          rw (went, (subscribe-ok accepted id x topic h t.client went).0, with_id, on)
            (record { registry = refl; subs = refl })
      | inr (x, stopped) ↦ absurd (ground (arith, stopped))
    ]

module _ (t : Tracker) (f : JobFuture) where
  heartbeat-IsAdded :
      (env : Env) (d : Draw)
      → (subscribe_to_heartbeat env d f t).0 ≡ ok tt
      → (subscribe_to_heartbeat env d f t).1.future_registry ≡ t.future_registry
  unfolding subscribe_to_heartbeat
  heartbeat-IsAdded env d e =
      (subscribed-IsAdded d.accepted d.id (job_topic f.job_id heartbeat_key) _
        (λ id.
          record (info_for (job_topic f.job_id heartbeat_key) f.job_id (some f.slurm_job_id) none
            id) { last_heartbeat = some env.now })
        t refl refl e).registry

  event-IsAdded :
      (d : Draw) (r : Ref)
      → (subscribe_to_event d r f t).0 ≡ ok tt
      → IsAdded
          (job_topic f.job_id status_key)
          d.id
          (info_for (job_topic f.job_id status_key) f.job_id (some f.slurm_job_id) none d.id)
          t
          (subscribe_to_event d r f t).1
  unfolding subscribe_to_event
  event-IsAdded d r e =
      subscribed-IsAdded d.accepted d.id (job_topic f.job_id status_key) _
        (λ id. info_for (job_topic f.job_id status_key) f.job_id (some f.slurm_job_id) none id) t
        refl refl e

  log-IsAdded :
      (d : Draw)
      → (subscribe_to_log d f t).0 ≡ ok tt
      → IsAdded
          (job_topic f.job_id log_key)
          d.id
          (info_for (job_topic f.job_id log_key) f.job_id none none d.id)
          t
          (subscribe_to_log d f t).1
  unfolding subscribe_to_log
  log-IsAdded d e =
      subscribed-IsAdded d.accepted d.id (job_topic f.job_id log_key) _
        (λ id. info_for (job_topic f.job_id log_key) f.job_id none none id) t refl refl e

find-new :
    (topic id : Text) (info : SubscriptionInfo) (t u : Tracker)
    → IsAdded topic id info t u
    → find topic id u.subscriptions_by_topic ≡ some info
find-new topic id info t u h = rw h.subs (grind (arith, lookup-insert))

find-old :
    (topic id s i : Text) (info : SubscriptionInfo) (t u : Tracker)
    → IsAdded topic id info t u
    → s ≢ topic
    → find s i u.subscriptions_by_topic ≡ find s i t.subscriptions_by_topic
find-old topic id s i info t u h other = rw h.subs (grind (arith, lookup-insert))

module _ (env : Env) (d e l : Draw) (r : Ref) (t : Tracker) (free : Free b'/' (t.futures r).job_id)
    (went : (track env d e l r t).0 ≡ ok tt) where
  pub track_monitors :
      let f = t.futures r in
      let u = (track env d e l r t).1 in
      let s = job_topic f.job_id status_key in
      (find s e.id u.subscriptions_by_topic
        ≡ some (info_for s f.job_id (some f.slurm_job_id) none e.id))
      × (lookup f.job_id u.future_registry ≡ some r)
  unfolding track
  track_monitors =
      let f = t.futures r in
      let s = job_topic f.job_id status_key in
      let t0 : Tracker = record t { future_registry = insert f.job_id r t.future_registry } in
      let (a1, w1, e1) =
        both_ran (subscribe_to_heartbeat env d f)
          (λ _. subscribe_to_event e r f >> subscribe_to_log l f) t0 tt went in
      let t1 : Tracker = (subscribe_to_heartbeat env d f t0).1 in
      let (a2, w2, e2) =
        both_ran (subscribe_to_event e r f) (λ _. subscribe_to_log l f) t1 tt
          (ap (λ (x : Result Unit × Tracker). x.0) (sym e1) ∙ went) in
      let t2 : Tracker = (subscribe_to_event e r f t1).1 in
      let w3 : (subscribe_to_log l f t2).0 ≡ ok tt =
        ap (λ (x : Result Unit × Tracker). x.0) (sym (e1 ∙ e2)) ∙ went in
      let last = log-IsAdded t2 f l w3 in
      let event = event-IsAdded t1 f e r w2 in
      let far : s ≢ job_topic f.job_id log_key = λ k.
        log_key-distinct
          (job_topic-injective f.job_id f.job_id log_key status_key free free (sym k)).1 in
      rw (e1 ∙ e2) (
        find-old (job_topic f.job_id log_key) l.id s e.id _ t2 _ last far
            ∙ find-new s e.id _ t1 t2 event,
        ap (lookup f.job_id) (last.registry ∙ (event.registry ∙ heartbeat-IsAdded t0 f env d w1))
            ∙ ground (arith, lookup-insert f.job_id f.job_id r t.future_registry),
      )

module _ {Value : Type 0} (decode : Text → Result Text) (json_loads : Text → Result Value)
    (validate : Value → Result SlurmMessage) where
  -- The first status that is terminal ends a job that was just tracked.
  pub track-poll-ends :
      (env later : Env) (d e l : Draw) (r : Ref) (raw : RawMessage Value) (text : Text)
      (m : SlurmMessage) (t : Tracker)
      → Free b'/' (t.futures r).job_id
      → (track env d e l r t).0 ≡ ok tt
      → Reachable decode json_loads validate (track env d e l r t).1
      → raw.kind ≡ message
      → normalize_message decode json_loads validate raw
        ≡ ok (job_topic (t.futures r).job_id status_key, m)
      → m.body ≡ status text
      → ends (parse_status later (record { metadata = m.metadata; status_text = text })).job_status
        ≡ true
      → let u = poll decode json_loads validate later (received raw) (track env d e l r t).1 in
        (done (u.futures r) ≡ true) × (lookup (t.futures r).job_id u.future_registry ≢ some r)
  track-poll-ends env later d e l r raw text m t free went reached kind parsed body last =
      let (there, registered) = track_monitors env d e l r t free went in
      let s = job_topic (t.futures r).job_id status_key in
      let (q, found, over, gone) =
        Reachable_poll-ends decode json_loads validate later raw e.id text m
          (info_for s (t.futures r).job_id (some (t.futures r).slurm_job_id) none e.id)
          (track env d e l r t).1 reached there refl kind parsed body last in
      let same : q ≡ r = ground (arith, found, registered) in
      let u : Tracker =
        poll decode json_loads validate later (received raw) (track env d e l r t).1 in
      (
        subst (λ x. done (u.futures x) ≡ true) same over,
        subst (λ x. lookup (t.futures r).job_id u.future_registry ≢ some x) same gone,
      )
