-- ===== src/Tracker/Tracked/Adding.antt =====
-- Subscriptions, of the tracker itself and of the user, keep the tracker's invariant.
use slurm_manager.Base.{◌≡◌, refl, sym, subst, ◌≢◌, Bool, none, some, arith, inl, inr}
use slurm_manager.Base.Text.{Text}
use slurm_manager.Base.Dict.{lookup, lookup-insert}
use slurm_manager.Base.Result.{ok, err, Error, Result-cases}
use slurm_manager.RedisSub.{subscribe}
use slurm_manager.Tracker.Topics.{job_topic, status_key}
use slurm_manager.Tracker.State.{
  Tracker, Ref, Dispatch, Handler, status_monitor, SubscriptionInfo, Exec, ◌>>=◌,
}
use slurm_manager.Tracker.Register.{registered_as, register_subscription_for_job, subscribe_client}
use slurm_manager.Tracker.Tracked.{IsOwned, Calls, IsTracked, IsTopic}
use slurm_manager.Tracker.Tracked.Synced.{
  subscribe-err, find-subscribe, refused-IsSynced, added-IsSynced, subscribe-ok,
}
use slurm_manager.Tracker.Tracked.Owned.{added}

-- What holds of the state where a chain stops holds of the state that it leaves.
pub bind-state {ℓ} :
    {A B : Type ℓ} (P : Tracker → Type 0) (m : Exec A) (k : A → Exec B) (t : Tracker)
    → P (m t).1
    → ((a : A) → (m t).0 ≡ ok a → P (k a (m t).1).1)
    → P ((m >>= k) t).1
bind-state P m k t stopped went = elim (Result-cases (m t).0) [
  | inl (a, e) ↦ rw e (went a e)
  | inr (x, e) ↦ rw e stopped
]

-- A tracker after subscriptions under the given id.
pub record Installed (id : Text) (t u : Tracker) : Type 0 where
  pub tracked : IsTracked u
  pub futures : u.futures ≡ t.futures
  pub registry : u.future_registry ≡ t.future_registry
  pub fresh :
      (i : Text)
      → i ≢ id
      → lookup i t.topic_by_subscription_id ≡ none
      → lookup i u.topic_by_subscription_id ≡ none

-- The state after the client's `subscribe`.
abbrev pub asked : Bool → Text → Handler → SubscriptionInfo → Tracker → Tracker
asked accepted id h info t = record t { client = (subscribe accepted id info.topic h t.client).1 }

module _ (accepted : Bool) (id : Text) (h : Handler) (info : SubscriptionInfo) (t : Tracker)
    (r : Ref) (inv : IsTracked t) (new : lookup id t.topic_by_subscription_id ≡ none)
    (with_id : info.callback_id ≡ some id)
    (of_tracked : lookup info.job_id t.future_registry ≡ some r)
    (on_topic : IsTopic info.topic info.job_id)
    (closure : (d : Dispatch)
      → info.callback ≡ some d
      → (d.job_id ≡ info.job_id)
        × (d.slurm_job_id ≡ (t.futures r).slurm_job_id)
        × Calls h d info.topic info.job_id)
    (monitor : info.callback ≡ none
      → info.topic ≡ job_topic info.job_id status_key
      → h ≡ status_monitor r) where
  pub refused :
      (e : Error)
      → (subscribe accepted id info.topic h t.client).0 ≡ err e
      → Installed id t (asked accepted id h info t)
  refused e refusal = record {
    tracked = record {
      opened = inv.opened;
      synced =
          refused-IsSynced t.client t.subscriptions_by_topic t.topic_by_subscription_id inv.synced
            accepted id info.topic h e new refusal;
      owned =
          subst
            (IsOwned t.futures t.future_registry t.subscriptions_by_topic t.active_subscriptions)
            (sym (subscribe-err accepted id info.topic h t.client e refusal)) inv.owned;
    };
    futures = refl;
    registry = refl;
    fresh = λ i other missing. missing;
  }

  pub accepted_one :
      (x : Text)
      → (subscribe accepted id info.topic h t.client).0 ≡ ok x
      → Installed id t (register_subscription_for_job info (asked accepted id h info t)).1
  unfolding register_subscription_for_job
  accepted_one x success =
      subst (λ o. Installed id t (registered_as o info (asked accepted id h info t)).1)
        (sym with_id)
        (record {
          tracked = record {
            opened = inv.opened;
            synced =
                added-IsSynced t.client t.subscriptions_by_topic t.topic_by_subscription_id
                  inv.synced accepted id x info.topic h info new success;
            owned =
                added t.futures t.future_registry t.subscriptions_by_topic t.active_subscriptions
                  t.client.subscriptions_by_topic inv.owned info.topic id info r
                  (subscribe accepted id info.topic h t.client).1.subscriptions_by_topic h
                  (λ s i k there.
                    find-subscribe accepted id x info.topic s i h k t.client success there)
                  refl with_id of_tracked on_topic closure monitor;
          };
          futures = refl;
          registry = refl;
          fresh = λ i other missing.
              ground (arith, lookup-insert i id info.topic t.topic_by_subscription_id);
        })

  -- A subscription with the registration of its result.
  pub install :
      (accept : Text → SubscriptionInfo)
      → accept id ≡ info
      → Installed id t
          ((subscribe_client accepted id info.topic h >>= λ x.
              register_subscription_for_job (accept x))
            t).1
  unfolding subscribe_client
  install accept same = elim (Result-cases (subscribe accepted id info.topic h t.client).0) [
    | inl (x, success) ↦
        rw (success, (subscribe-ok accepted id x info.topic h t.client success).0, same)
          (accepted_one x success)
    | inr (e, refusal) ↦ rw refusal (refused e refusal)
  ]
