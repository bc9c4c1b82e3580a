-- ===== src/Tracker/Tracked/Tracking.antt =====
-- `track` keeps the tracker's invariant.
use slurm_manager.Base.{◌≡◌, refl, sym, ap, subst, ◌∙◌, ◌≢◌, false, none, some, arith}
use slurm_manager.Base.Text.{Text, dec_text, Free}
use slurm_manager.Base.Dict.{lookup, insert, lookup-insert}
use slurm_manager.Future.{JobFuture, done}
use slurm_manager.Tracker.Topics.{job_topic, log_key, status_key, heartbeat_key}
use slurm_manager.Tracker.Topics.Distinct.{job_topic-injective}
use slurm_manager.Tracker.State.{
  Tracker, Ref, Env, ◌>>◌, heartbeat_monitor, status_monitor, global_dispatch,
}
use slurm_manager.Tracker.Register.{
  info_for, Draw, subscribe_to_heartbeat, subscribe_to_event, subscribe_to_log, track,
}
use slurm_manager.Tracker.Tracked.{IsTracked}
use slurm_manager.Tracker.Tracked.Adding.{bind-state, Installed, install}

heartbeat_key-distinct : heartbeat_key ≢ status_key
heartbeat_key-distinct e = absurd (ground (arith, e))

pub log_key-distinct : log_key ≢ status_key
log_key-distinct e = absurd (ground (arith, e))

module _ (t : Tracker) (r : Ref) (f : JobFuture) (inv : IsTracked t)
    (of_tracked : lookup f.job_id t.future_registry ≡ some r) where
  subscribe_to_heartbeat-Installed :
      (env : Env) (d : Draw)
      → lookup d.id t.topic_by_subscription_id ≡ none
      → Installed d.id t (subscribe_to_heartbeat env d f t).1
  unfolding subscribe_to_heartbeat
  subscribe_to_heartbeat-Installed env d new =
      install d.accepted d.id
        (heartbeat_monitor (job_topic f.job_id heartbeat_key) d.id f.job_id f.slurm_job_id)
        (record (info_for (job_topic f.job_id heartbeat_key) f.job_id (some f.slurm_job_id) none
          d.id) { last_heartbeat = some env.now })
        t r inv new refl of_tracked
        ((inv.owned.live f.job_id r of_tracked).2, (heartbeat_key, refl))
        (λ x e. absurd (ground arith))
        (λ c k. absurd (
          heartbeat_key-distinct
            (job_topic-injective f.job_id f.job_id heartbeat_key status_key
              (inv.owned.live f.job_id r of_tracked).2 (inv.owned.live f.job_id r of_tracked).2
              k).1))
        (λ id.
          record (info_for (job_topic f.job_id heartbeat_key) f.job_id (some f.slurm_job_id) none
            id) { last_heartbeat = some env.now })
        refl

  subscribe_to_event-Installed :
      (d : Draw)
      → lookup d.id t.topic_by_subscription_id ≡ none
      → Installed d.id t (subscribe_to_event d r f t).1
  unfolding subscribe_to_event
  subscribe_to_event-Installed d new =
      install d.accepted d.id (status_monitor r)
        (info_for (job_topic f.job_id status_key) f.job_id (some f.slurm_job_id) none d.id) t r inv
        new refl of_tracked ((inv.owned.live f.job_id r of_tracked).2, (status_key, refl))
        (λ x e. absurd (ground arith)) (λ c k. refl)
        (λ id. info_for (job_topic f.job_id status_key) f.job_id (some f.slurm_job_id) none id) refl

  subscribe_to_log-Installed :
      (d : Draw)
      → lookup d.id t.topic_by_subscription_id ≡ none
      → Installed d.id t (subscribe_to_log d f t).1
  unfolding subscribe_to_log
  subscribe_to_log-Installed d new =
      install d.accepted d.id (global_dispatch f.job_id f.slurm_job_id)
        (info_for (job_topic f.job_id log_key) f.job_id none none d.id) t r inv new refl of_tracked
        ((inv.owned.live f.job_id r of_tracked).2, (log_key, refl)) (λ x e. absurd (ground arith))
        (λ c k. absurd (
          log_key-distinct
            (job_topic-injective f.job_id f.job_id log_key status_key
              (inv.owned.live f.job_id r of_tracked).2 (inv.owned.live f.job_id r of_tracked).2
              k).1))
        (λ id. info_for (job_topic f.job_id log_key) f.job_id none none id) refl

-- A new job in the registry.
registered-IsTracked :
    (t : Tracker) (r : Ref)
    → IsTracked t
    → lookup (t.futures r).job_id t.future_registry ≡ none
    → done (t.futures r) ≡ false
    → Free b'/' (t.futures r).job_id
    → IsTracked (record t { future_registry = insert (t.futures r).job_id r t.future_registry })
registered-IsTracked t r inv new live free = record {
  opened = inv.opened;
  synced = inv.synced;
  owned = record {
    live = λ j q e. elim (dec_text j (t.futures r).job_id) [
      | yes p ↦
          subst (λ x. ((t.futures x).job_id ≡ j) × (done (t.futures x) ≡ false) × Free b'/' j)
            (new_ref j q p e) (sym p, live, subst (Free b'/') (sym p) free)
      | no p ↦ inv.owned.live j q (old_ref j q p e)
    ];
    placed = λ s i info e.
        let p = inv.owned.placed s i info e in
        (
          p.0,
          p.1,
          ground (arith, p.2, lookup-insert info.job_id (t.futures r).job_id r t.future_registry),
          p.3,
          p.4,
        );
    own = λ s i info d q e c k. inv.owned.own s i info d q e c (
        ground (
          arith,
          (inv.owned.placed s i info e).2,
          lookup-insert info.job_id (t.futures r).job_id r t.future_registry,
        ));
    wired = inv.owned.wired;
    monitored = λ s i info h e c on k.
        let (q, reg, call) = inv.owned.monitored s i info h e c on k in
        (
          q,
          ground (arith, lookup-insert info.job_id (t.futures r).job_id r t.future_registry),
          call,
        );
  };
}
  where
    new_ref :
        (j : Text) (q : Ref)
        → j ≡ (t.futures r).job_id
        → lookup j (insert (t.futures r).job_id r t.future_registry) ≡ some q
        → r ≡ q
    new_ref j q p e = ground (arith, lookup-insert j (t.futures r).job_id r t.future_registry)

    old_ref :
        (j : Text) (q : Ref)
        → j ≢ (t.futures r).job_id
        → lookup j (insert (t.futures r).job_id r t.future_registry) ≡ some q
        → lookup j t.future_registry ≡ some q
    old_ref j q p e = ground (arith, lookup-insert j (t.futures r).job_id r t.future_registry)

-- `track` of a live future of a new job, under three ids that are new and distinct, whether Redis
-- accepts its subscriptions or refuses one.
pub track-IsTracked :
    (env : Env) (d e l : Draw) (r : Ref) (t : Tracker)
    → IsTracked t
    → lookup (t.futures r).job_id t.future_registry ≡ none
    → done (t.futures r) ≡ false
    → Free b'/' (t.futures r).job_id
    → lookup d.id t.topic_by_subscription_id ≡ none
    → lookup e.id t.topic_by_subscription_id ≡ none
    → lookup l.id t.topic_by_subscription_id ≡ none
    → e.id ≢ d.id
    → l.id ≢ d.id
    → l.id ≢ e.id
    → IsTracked (track env d e l r t).1
unfolding track
track-IsTracked env d e l r t inv new live free new_d new_e new_l e_d l_d l_e =
    let f = t.futures r in
    let t0 : Tracker = record t { future_registry = insert f.job_id r t.future_registry } in
    let reg0 : lookup f.job_id t0.future_registry ≡ some r =
      ground (arith, lookup-insert f.job_id f.job_id r t.future_registry) in
    let i1 =
      subscribe_to_heartbeat-Installed t0 r f (registered-IsTracked t r inv new live free) reg0 env
        d new_d in
    let t1 : Tracker = (subscribe_to_heartbeat env d f t0).1 in
    let reg1 = ap (lookup f.job_id) i1.registry ∙ reg0 in
    let i2 = subscribe_to_event-Installed t1 r f i1.tracked reg1 e (i1.fresh e.id e_d new_e) in
    let t2 : Tracker = (subscribe_to_event e r f t1).1 in
    let reg2 = ap (lookup f.job_id) i2.registry ∙ reg1 in
    let i3 =
      subscribe_to_log-Installed t2 r f i2.tracked reg2 l
        (i2.fresh l.id l_e (i1.fresh l.id l_d new_l)) in
    bind-state IsTracked (subscribe_to_heartbeat env d f)
      (λ _. subscribe_to_event e r f >> subscribe_to_log l f) t0 i1.tracked
      (λ _ _.
        bind-state IsTracked (subscribe_to_event e r f) (λ _. subscribe_to_log l f) t1 i2.tracked
          (λ _ _. i3.tracked))
