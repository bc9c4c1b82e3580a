-- ===== src/Tracker/Tracked/Listening.antt =====
-- The user's subscriptions keep the tracker's invariant.
use slurm_manager.Base.{
  if_pos, if_neg, ap, ◌≡◌, refl, sym, subst, false, Option, none, some, [], ◌∷◌, arith, inl, inr,
  Bool-cases,
}
use slurm_manager.Base.Text.{Text, dec_text}
use slurm_manager.Base.Dict.{lookup}
use slurm_manager.Base.Result.{Result-cases}
use slurm_manager.Future.{UserCallback, RegisteredCallback, JobFuture, done, register}
use slurm_manager.RedisSub.{subscribe}
use slurm_manager.Tracker.Topics.{job_topic, status_key}
use slurm_manager.Tracker.State.{
  Tracker, Ref, Dispatch, Kwargs, SubscriptionInfo, update, ◌>>=◌, pure,
}
use slurm_manager.Tracker.Register.{
  info_for, Draw, register_subscription_for_job, subscribe_client, redis_callback,
  begin_subscription, place_subscription, finish_subscription, add_subscription, future_listen,
  listen, dispatch_of, is_event, listen_to, listen_on,
}
use slurm_manager.Tracker.Tracked.{IsTracked, Calls}
use slurm_manager.Tracker.Tracked.Synced.{subscribe-ok}
use slurm_manager.Tracker.Tracked.Owned.{SameFuture}
use slurm_manager.Tracker.Tracked.Ending.{update-same, futures-IsTracked}
use slurm_manager.Tracker.Tracked.Removing.{globals-IsTracked}
use slurm_manager.Tracker.Tracked.Adding.{bind-state, Installed, asked, refused, accepted_one}

pub unchanged-Installed : (id : Text) (t : Tracker) → IsTracked t → Installed id t t
unchanged-Installed id t inv = record {
  tracked = inv;
  futures = refl;
  registry = refl;
  fresh = λ i other missing. missing;
}

-- The second part of `add_subscription` for a live job registers the callback.
finish-state :
    (job_id key id : Text) (callback : UserCallback) (kwargs : Option Kwargs) (r : Ref)
    (t : Tracker)
    → lookup job_id t.future_registry ≡ some r
    → done (t.futures r) ≡ false
    → (finish_subscription job_id key callback kwargs r id t).1
      ≡ (register_subscription_for_job
          (info_for
            (job_topic job_id key)
            job_id
            (some (t.futures r).slurm_job_id)
            (some (dispatch_of callback kwargs (t.futures r) job_id))
            id)
          t).1
unfolding finish_subscription register_subscription_for_job
finish-state job_id key id callback kwargs r t e live = ground arith

module _ (d : Draw) (job_id key : Text) (callback : UserCallback) (kwargs : Option Kwargs)
    (t : Tracker) (inv : IsTracked t) (new : lookup d.id t.topic_by_subscription_id ≡ none) where
  abbrev new_info : Ref → SubscriptionInfo
  new_info r =
      info_for (job_topic job_id key) job_id (some (t.futures r).slurm_job_id)
        (some (dispatch_of callback kwargs (t.futures r) job_id)) d.id

  -- The client calls the closure, or nothing where the event is a status.
  redis_callback-Calls :
      (r : Ref) (x : Dispatch)
      → some (dispatch_of callback kwargs (t.futures r) job_id) ≡ some x
      → Calls
          (redis_callback key (dispatch_of callback kwargs (t.futures r) job_id))
          x
          (job_topic job_id key)
          job_id
  redis_callback-Calls r x c = elim (dec_text key status_key) [
    | yes is_status ↦ rw (if_pos _ is_status) (inr (refl, ap (job_topic job_id) is_status))
    | no other ↦ rw (if_neg _ other) (inl (ground arith))
  ]

  placed-Installed :
      (r : Ref)
      → lookup job_id t.future_registry ≡ some r
      → Installed d.id t
          ((place_subscription d job_id key callback kwargs r >>= λ id.
              finish_subscription job_id key callback kwargs r id)
            t).1
  unfolding place_subscription subscribe_client
  placed-Installed r e =
      let h = redis_callback key (dispatch_of callback kwargs (t.futures r) job_id) in
      let l = inv.owned.live job_id r e in
      elim (Result-cases (subscribe d.accepted d.id (job_topic job_id key) h t.client).0) [
        | inl (x, success) ↦
            rw
              (
                success,
                (subscribe-ok d.accepted d.id x (job_topic job_id key) h t.client success).0,
              )
              (subst (Installed d.id t)
                (sym (
                  finish-state job_id key d.id callback kwargs r
                    (asked d.accepted d.id h (new_info r) t) e l.1))
                (accepted_one d.accepted d.id h (new_info r) t r inv new refl e (l.2, (key, refl))
                  (λ x' c. (ground (arith, l), ground (arith, l), redis_callback-Calls r x' c))
                  (λ n k. absurd (ground (arith, n))) x success))
        | inr (y, refusal) ↦ rw refusal (
            refused d.accepted d.id h (new_info r) t r inv new refl e (l.2, (key, refl))
              (λ x' c. (ground (arith, l), ground (arith, l), redis_callback-Calls r x' c))
              (λ n k. absurd (ground (arith, n))) y refusal)
      ]

  begun-Installed :
      (o : Option Ref)
      → lookup job_id t.future_registry ≡ o
      → Installed d.id t (add_subscription d job_id key callback kwargs t).1
  unfolding add_subscription begin_subscription
  begun-Installed none e = rw e (unchanged-Installed d.id t inv)
  begun-Installed (some r) e = rw (e, (inv.owned.live job_id r e).1) (placed-Installed r e)

  pub add_subscription-Installed :
      Installed d.id t (add_subscription d job_id key callback kwargs t).1
  add_subscription-Installed = begun-Installed (lookup job_id t.future_registry) refl

register-SameFuture : (cb : RegisteredCallback) (f : JobFuture) → SameFuture f (register cb f)
unfolding register
register-SameFuture cb f = record { job_id = refl; slurm_job_id = refl; still = refl }

pub future_listen-IsTracked :
    (d : Draw) (r : Ref) (event : Text) (callback : UserCallback) (t : Tracker)
    → IsTracked t
    → lookup d.id t.topic_by_subscription_id ≡ none
    → IsTracked (future_listen d r event callback t).1
unfolding future_listen
future_listen-IsTracked d r event callback t inv new =
    let job_id = (t.futures r).job_id in
    let i = add_subscription-Installed d job_id event callback none t inv new in
    let u : Tracker = (add_subscription d job_id event callback none t).1 in
    bind-state IsTracked (add_subscription d job_id event callback none) _ t i.tracked (λ id _.
      futures-IsTracked u
        (update r (register (record { id = id; event = event; callback = callback }) (u.futures r))
          u.futures)
        i.tracked
        (λ j q e. update-same r q _ u.futures (
          register-SameFuture (record { id = id; event = event; callback = callback })
            (u.futures r))))

listen_to-IsTracked :
    (d : Draw) (event : Text) (callback : UserCallback) (o : Option Ref) (job_id : Text)
    (t : Tracker)
    → IsTracked t
    → lookup d.id t.topic_by_subscription_id ≡ none
    → IsTracked (listen_to d event callback o job_id t).1
listen_to-IsTracked d event callback none job_id t inv new = inv
listen_to-IsTracked d event callback (some r) job_id t inv new =
    let listened = future_listen-IsTracked d r event callback t inv new in
    bind-state IsTracked (future_listen d r event callback) (λ id. pure (id ∷ [])) t listened
      (λ id _. listened)

listen_on-IsTracked :
    (d : Draw) (event : Text) (callback : UserCallback) (o : Option Text) (t : Tracker)
    → IsTracked t
    → lookup d.id t.topic_by_subscription_id ≡ none
    → IsTracked (listen_on d event callback o t).1
listen_on-IsTracked d event callback none t inv new = globals-IsTracked t _ inv
listen_on-IsTracked d event callback (some job_id) t inv new =
    listen_to-IsTracked d event callback (lookup job_id t.future_registry) job_id t inv new

pub listen-IsTracked :
    (d : Draw) (event : Text) (callback : UserCallback) (o : Option Text) (t : Tracker)
    → IsTracked t
    → lookup d.id t.topic_by_subscription_id ≡ none
    → IsTracked (listen d event callback o t).1
unfolding listen
listen-IsTracked d event callback o t inv new = elim (Bool-cases (is_event event)) [
  | inl known ↦ rw known (listen_on-IsTracked d event callback o t inv new)
  | inr unknown ↦ rw unknown inv
]
