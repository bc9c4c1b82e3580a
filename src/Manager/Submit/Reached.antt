-- ===== src/Manager/Submit/Reached.antt =====
-- The set-up of a submission, as steps of the tracker.
use slurm_manager.Base.{◌≡◌, refl, sym, ap, ◌∙◌, ◌≢◌, true, false, none, some, List, [], ◌∷◌, arith}
use slurm_manager.Base.Text.{Text, Free}
use slurm_manager.Base.Dict.{Dict, lookup, insert, find, has}
use slurm_manager.Base.Result.{Result, ok}
use slurm_manager.Message.{SlurmMessage}
use slurm_manager.Future.{done}
use slurm_manager.Tracker.Topics.{job_topic, status_key}
use slurm_manager.Tracker.State.{Tracker, Ref, Env, ◌>>◌}
use slurm_manager.Tracker.Register.{
  info_for, Draw, subscribe_to_heartbeat, subscribe_to_event, subscribe_to_log, track,
  future_listen,
}
use slurm_manager.Tracker.Tracked.Adding.{bind-state}
use slurm_manager.Tracker.Reachable.{Reachable, next, tracks, future_listens}
use slurm_manager.Tracker.Routing.FromTrack.{both_ran, track_monitors}
use slurm_manager.Tracker.Routing.Kept.{
  subscribe_to_heartbeat-Kept, subscribe_to_event-Kept, subscribe_to_log-Kept, future_listen-Kept,
}
use slurm_manager.Manager.Submit.{Draws, Callbacks, wait_until_ready, listen_all, set_up}

-- The ids that the callbacks draw.
abbrev pub ids_of : Callbacks → List Text
ids_of [] = []
ids_of ((event, callback, d) ∷ cbs) = d.id ∷ ids_of cbs

-- The ids are distinct, and none is in use.
abbrev pub NewIds : List Text → Dict Text → Type 0
NewIds [] ids = Unit
NewIds (id ∷ rest) ids = (lookup id ids ≡ none) × (has id rest ≡ false) × NewIds rest ids

NewIds-same :
    (rest : List Text) (old new : Dict Text)
    → ((i : Text) → has i rest ≡ true → lookup i new ≡ lookup i old)
    → NewIds rest old
    → NewIds rest new
NewIds-same [] old new same h = tt
NewIds-same (id ∷ rest) old new same h = (
  same id (ground arith) ∙ h.0,
  h.1,
  NewIds-same rest old new (λ i there. same i (ground (arith, there))) h.2,
)

other_id : (i id : Text) (rest : List Text) → has i rest ≡ true → has id rest ≡ false → i ≢ id
other_id i id rest there apart e =
    let k = sym there ∙ (ap (λ x. has x rest) e ∙ apart) in ground (arith, k)

-- The registrations of a submission's callbacks leave those made before.
listen_all-kept :
    (r : Ref) (cbs : Callbacks) (s i : Text) (t : Tracker)
    → has i (ids_of cbs) ≡ false
    → let u = (listen_all r cbs t).1 in
      (find s i u.subscriptions_by_topic ≡ find s i t.subscriptions_by_topic)
      × (u.future_registry ≡ t.future_registry)
unfolding listen_all
listen_all-kept r [] s i t apart = (refl, refl)
listen_all-kept r ((event, callback, d) ∷ cbs) s i t apart =
    let k = future_listen-Kept d r event callback t in
    let here : i ≢ d.id = λ e. ground arith in
    bind-state
      (λ u.
        (find s i u.subscriptions_by_topic ≡ find s i t.subscriptions_by_topic)
        × (u.future_registry ≡ t.future_registry))
      (future_listen d r event callback) (λ _. listen_all r cbs) t (k.subs s i here, k.registry)
      (λ _ _.
        let rest =
          listen_all-kept r cbs s i (future_listen d r event callback t).1 (ground arith) in
        (rest.0 ∙ k.subs s i here, rest.1 ∙ k.registry))

track_ids :
    (env : Env) (d e l : Draw) (r : Ref) (i : Text) (t : Tracker)
    → i ≢ d.id
    → i ≢ e.id
    → i ≢ l.id
    → lookup i (track env d e l r t).1.topic_by_subscription_id
      ≡ lookup i t.topic_by_subscription_id
unfolding track
track_ids env d e l r i t i_d i_e i_l =
    let f = t.futures r in
    let t0 : Tracker = record t { future_registry = insert f.job_id r t.future_registry } in
    let t1 : Tracker = (subscribe_to_heartbeat env d f t0).1 in
    let t2 : Tracker = (subscribe_to_event e r f t1).1 in
    let k1 = (subscribe_to_heartbeat-Kept d f t0 env).ids i i_d in
    let k2 = (subscribe_to_event-Kept e f t1 r).ids i i_e ∙ k1 in
    let k3 = (subscribe_to_log-Kept l f t2).ids i i_l ∙ k2 in
    bind-state (λ u. lookup i u.topic_by_subscription_id ≡ lookup i t.topic_by_subscription_id)
      (subscribe_to_heartbeat env d f) (λ _. subscribe_to_event e r f >> subscribe_to_log l f) t0 k1
      (λ _ _.
        bind-state (λ u. lookup i u.topic_by_subscription_id ≡ lookup i t.topic_by_subscription_id)
          (subscribe_to_event e r f) (λ _. subscribe_to_log l f) t1 k2 (λ _ _. k3))

-- The ids that a submission draws for subscriptions.
abbrev pub submission_ids : Draws → Callbacks → List Text
submission_ids d cbs = d.heartbeat.id ∷ d.event.id ∷ d.log.id ∷ ids_of cbs

-- A set-up that succeeds leaves the monitor of the job's statuses in place.
pub set_up_monitors :
    (env : Env) (d : Draws) (cbs : Callbacks) (t : Tracker)
    → Free b'/' (t.futures d.ref).job_id
    → has d.event.id (ids_of cbs) ≡ false
    → (set_up env d cbs t).0 ≡ ok tt
    → let f = t.futures d.ref in
      let u = (set_up env d cbs t).1 in
      let s = job_topic f.job_id status_key in
      (find s d.event.id u.subscriptions_by_topic
        ≡ some (info_for s f.job_id (some f.slurm_job_id) none d.event.id))
      × (lookup f.job_id u.future_registry ≡ some d.ref)
unfolding set_up wait_until_ready
set_up_monitors env d cbs t free apart went =
    let f = t.futures d.ref in
    let tracking = track env d.heartbeat d.event d.log d.ref in
    let (a1, w1, e1) =
      both_ran tracking (λ _. listen_all d.ref cbs >> wait_until_ready d.acknowledged env d.job_id)
        t tt went in
    let t1 : Tracker = (tracking t).1 in
    let (a2, w2, e2) =
      both_ran (listen_all d.ref cbs) (λ _. wait_until_ready d.acknowledged env d.job_id) t1 tt
        (ap (λ (x : Result Unit × Tracker). x.0) (sym e1) ∙ went) in
    let k = listen_all-kept d.ref cbs (job_topic f.job_id status_key) d.event.id t1 apart in
    let (there, registered) = track_monitors env d.heartbeat d.event d.log d.ref t free w1 in
    rw (e1 ∙ e2) (k.0 ∙ there, ap (lookup f.job_id) k.1 ∙ registered)

module _ {Value : Type 0} (decode : Text → Result Text) (json_loads : Text → Result Value)
    (validate : Value → Result SlurmMessage) where
  listen_all-Reachable :
      (r : Ref) (cbs : Callbacks) (t : Tracker)
      → Reachable decode json_loads validate t
      → NewIds (ids_of cbs) t.topic_by_subscription_id
      → Reachable decode json_loads validate (listen_all r cbs t).1
  unfolding listen_all
  listen_all-Reachable r [] t reached new = reached
  listen_all-Reachable r ((event, callback, d) ∷ cbs) t reached new =
      let u : Tracker = (future_listen d r event callback t).1 in
      let on = next t u reached (future_listens d r event callback new.0) in
      bind-state (Reachable decode json_loads validate) (future_listen d r event callback)
        (λ _. listen_all r cbs) t on
        (λ _ _. listen_all-Reachable r cbs u on (
          NewIds-same (ids_of cbs) t.topic_by_subscription_id u.topic_by_subscription_id
            (λ i there.
              (future_listen-Kept d r event callback t).ids i
                (other_id i d.id (ids_of cbs) there new.1))
            new.2))

  pub set_up-Reachable :
      (env : Env) (d : Draws) (cbs : Callbacks) (t : Tracker)
      → Reachable decode json_loads validate t
      → lookup (t.futures d.ref).job_id t.future_registry ≡ none
      → done (t.futures d.ref) ≡ false
      → Free b'/' (t.futures d.ref).job_id
      → NewIds (submission_ids d cbs) t.topic_by_subscription_id
      → Reachable decode json_loads validate (set_up env d cbs t).1
  unfolding set_up wait_until_ready
  set_up-Reachable env d cbs t reached untracked live free new =
      let tracking = track env d.heartbeat d.event d.log d.ref in
      let u : Tracker = (tracking t).1 in
      let on = next t u reached (
        tracks env d.heartbeat d.event d.log d.ref untracked live free new.0 new.2.0 new.2.2.0
          (λ e. ground (arith, new.1)) (λ e. ground (arith, new.1))
          (λ e. ground (arith, new.2.1))) in
      let new_after =
        NewIds-same (ids_of cbs) t.topic_by_subscription_id u.topic_by_subscription_id
          (λ i there.
            track_ids env d.heartbeat d.event d.log d.ref i t
              (other_id i d.heartbeat.id (ids_of cbs) there (ground (arith, new.1)))
              (other_id i d.event.id (ids_of cbs) there (ground (arith, new.2.1)))
              (other_id i d.log.id (ids_of cbs) there new.2.2.1))
          new.2.2.2 in
      let listened = listen_all-Reachable d.ref cbs u on new_after in
      bind-state (Reachable decode json_loads validate) tracking
        (λ _. listen_all d.ref cbs >> wait_until_ready d.acknowledged env d.job_id) t on
        (λ _ _.
          bind-state (Reachable decode json_loads validate) (listen_all d.ref cbs)
            (λ _. wait_until_ready d.acknowledged env d.job_id) u listened (λ _ _. listened))
