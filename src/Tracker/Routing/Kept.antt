-- ===== src/Tracker/Routing/Kept.antt =====
-- What a subscription leaves of the others, whether it succeeds or not.
use slurm_manager.Base.{◌≡◌, refl, ◌≢◌, Bool, Option, none, some, arith, inl, inr}
use slurm_manager.Base.Text.{Text}
use slurm_manager.Base.Dict.{lookup, find, lookup-insert, lookup-entries}
use slurm_manager.Base.Result.{Result-cases}
use slurm_manager.Future.{UserCallback, JobFuture}
use slurm_manager.RedisSub.{subscribe}
use slurm_manager.Tracker.State.{Tracker, Ref, Env, Kwargs, Handler, SubscriptionInfo, ◌>>=◌}
use slurm_manager.Tracker.Register.{
  Draw, subscribe_client, register_subscription_for_job, subscribe_to_heartbeat, subscribe_to_event,
  subscribe_to_log, begin_subscription, place_subscription, finish_subscription, add_subscription,
  future_listen,
}
use slurm_manager.Tracker.Tracked.Adding.{bind-state}
use slurm_manager.Tracker.Tracked.Synced.{subscribe-ok}

-- Every other id is registered as before, and so is every job.
pub record Kept (id : Text) (t u : Tracker) : Type 0 where
  pub subs :
      (s i : Text) → i ≢ id → find s i u.subscriptions_by_topic ≡ find s i t.subscriptions_by_topic
  pub ids :
      (i : Text)
      → i ≢ id
      → lookup i u.topic_by_subscription_id ≡ lookup i t.topic_by_subscription_id
  pub registry : u.future_registry ≡ t.future_registry

pub same-Kept : (id : Text) (t : Tracker) → Kept id t t
same-Kept id t = record { subs = λ s i other. refl; ids = λ i other. refl; registry = refl }

subscribed-Kept :
    (accepted : Bool) (id topic : Text) (h : Handler) (accept : Text → SubscriptionInfo)
    (t : Tracker)
    → ((x : Text) → (accept x).callback_id ≡ some x)
    → Kept id t
        ((subscribe_client accepted id topic h >>= λ x. register_subscription_for_job (accept x))
          t).1
unfolding subscribe_client register_subscription_for_job
subscribed-Kept accepted id topic h accept t with_id =
    elim (Result-cases (subscribe accepted id topic h t.client).0) [
      | inl (x, went) ↦
          rw (went, (subscribe-ok accepted id x topic h t.client went).0, with_id id)
            (record {
              subs = λ s i other. grind (arith, lookup-insert, lookup-entries);
              ids = λ i other. grind (arith, lookup-insert);
              registry = refl;
            })
      | inr (x, stopped) ↦
          rw stopped (record { subs = λ s i other. refl; ids = λ i other. refl; registry = refl })
    ]

module _ (d : Draw) (f : JobFuture) (t : Tracker) where
  pub subscribe_to_heartbeat-Kept : (env : Env) → Kept d.id t (subscribe_to_heartbeat env d f t).1
  unfolding subscribe_to_heartbeat
  subscribe_to_heartbeat-Kept env = subscribed-Kept d.accepted d.id _ _ _ t (λ x. refl)

  pub subscribe_to_event-Kept : (r : Ref) → Kept d.id t (subscribe_to_event d r f t).1
  unfolding subscribe_to_event
  subscribe_to_event-Kept r = subscribed-Kept d.accepted d.id _ _ _ t (λ x. refl)

  pub subscribe_to_log-Kept : Kept d.id t (subscribe_to_log d f t).1
  unfolding subscribe_to_log
  subscribe_to_log-Kept = subscribed-Kept d.accepted d.id _ _ _ t (λ x. refl)

finish_subscription-Kept :
    (job_id key id : Text) (callback : UserCallback) (kwargs : Option Kwargs) (r : Ref)
    (t : Tracker)
    → Kept id t (finish_subscription job_id key callback kwargs r id t).1
unfolding finish_subscription register_subscription_for_job
finish_subscription-Kept job_id key id callback kwargs r t = record {
  subs = λ s i other. grind (arith, lookup-insert, lookup-entries);
  ids = λ i other. grind (arith, lookup-insert);
  registry = ground arith;
}

begin_subscription-same : (job_id : Text) (t : Tracker) → (begin_subscription job_id t).1 ≡ t
unfolding begin_subscription
begin_subscription-same job_id t = ground arith

placed-Kept :
    (d : Draw) (job_id key : Text) (callback : UserCallback) (kwargs : Option Kwargs) (r : Ref)
    (t : Tracker)
    → Kept d.id t
        ((place_subscription d job_id key callback kwargs r >>= λ id.
            finish_subscription job_id key callback kwargs r id)
          t).1
unfolding place_subscription subscribe_client
placed-Kept d job_id key callback kwargs r t =
    elim (Result-cases (place_subscription d job_id key callback kwargs r t).0) [
      | inl (x, went) ↦
          rw (went, (subscribe-ok d.accepted d.id x _ _ t.client went).0)
            (let k =
                finish_subscription-Kept job_id key d.id callback kwargs r
                  (place_subscription d job_id key callback kwargs r t).1 in
              record { subs = k.subs; ids = k.ids; registry = k.registry })
      | inr (x, stopped) ↦
          rw stopped (record { subs = λ s i other. refl; ids = λ i other. refl; registry = refl })
    ]

add_subscription-Kept :
    (d : Draw) (job_id key : Text) (callback : UserCallback) (kwargs : Option Kwargs) (t : Tracker)
    → Kept d.id t (add_subscription d job_id key callback kwargs t).1
unfolding add_subscription
add_subscription-Kept d job_id key callback kwargs t =
    bind-state (Kept d.id t) (begin_subscription job_id) _ t
      (rw (begin_subscription-same job_id t) (same-Kept d.id t))
      (λ r _. rw (begin_subscription-same job_id t) (placed-Kept d job_id key callback kwargs r t))

pub future_listen-Kept :
    (d : Draw) (r : Ref) (event : Text) (callback : UserCallback) (t : Tracker)
    → Kept d.id t (future_listen d r event callback t).1
unfolding future_listen
future_listen-Kept d r event callback t =
    let k = add_subscription-Kept d (t.futures r).job_id event callback none t in
    bind-state (Kept d.id t) (add_subscription d (t.futures r).job_id event callback none) _ t k
      (λ id _. record { subs = k.subs; ids = k.ids; registry = k.registry })
