-- ===== src/Tracker/Tracked/Removing.antt =====
-- Removals by id and by topic keep the tracker's invariant.
use slurm_manager.Base.{
  ◌≡◌, ◌∙◌, refl, sym, subst, true, false, Option, none, some, List, [], ◌∷◌, arith, ite,
  Option-cases, Bool-cases, inl, inr, is_some,
}
use slurm_manager.Base.Text.{Text, dec_text}
use slurm_manager.Base.Dict.{Dict, lookup, erase, find, entries, has, lookup-insert, lookup-erase}
use slurm_manager.Base.Unique.{Unique, erase-Unique}
use slurm_manager.Future.{JobFuture, RegisteredCallback, remove_callback}
use slurm_manager.RedisSub.{Client, unsubscribe}
use slurm_manager.RedisSub.Indexed.{unsubscribe-IsIndexed, find-unsubscribe}
use slurm_manager.Tracker.State.{Tracker, Ref, Handler, SubscriptionInfo, update}
use slurm_manager.Tracker.Status.{topics_of}
use slurm_manager.Tracker.Remove.{
  discard, keep_or_drop, remove_from, remove_one, remove_subscription_by_id, unlisten,
}
use slurm_manager.Tracker.Remove.ById.{find-remove_from, ids-remove_from}
use slurm_manager.Tracker.Tracked.{IsSynced, IsOwned, IsTracked}
use slurm_manager.Tracker.Tracked.Owned.{SameFuture, restrict}
use slurm_manager.Tracker.Tracked.Ending.{same_future, same_info, update-same, futures-IsTracked}

pub has-discard :
    (s topic : Text) (topics : List Text)
    → has s (discard topic topics) ≡ ite (dec_text s topic) false (has s topics)
has-discard s topic [] = ground arith
has-discard s topic (x ∷ topics) = ground (arith, has-discard s topic topics)

-- A topic that still has a callback stays active.
active-kept :
    (topic : Text) (o : Option SubscriptionInfo) (callbacks : Dict SubscriptionInfo) (t : Tracker)
    (s i j : Text) (b : SubscriptionInfo)
    → find s i (keep_or_drop topic o callbacks t).subscriptions_by_topic ≡ some b
    → has s (topics_of (lookup j t.active_subscriptions)) ≡ true
    → has s (topics_of (lookup j (keep_or_drop topic o callbacks t).active_subscriptions)) ≡ true
active-kept topic o (e ∷ callbacks) t s i j b there on = on
active-kept topic none [] t s i j b there on = on
active-kept topic (some info) [] t s i j b there on =
    elim (Option-cases (lookup info.job_id t.active_subscriptions)) [
      | inl missing ↦ grind (arith, missing)
      | inr (topics, e) ↦ grind (arith, e, lookup-insert, lookup-erase, has-discard s topic topics)
    ]

keep_or_drop-Unique :
    (topic : Text) (o : Option SubscriptionInfo) (callbacks : Dict SubscriptionInfo) (t : Tracker)
    (s : Text)
    → Unique callbacks
    → Unique (entries (lookup s t.subscriptions_by_topic))
    → Unique (entries (lookup s (keep_or_drop topic o callbacks t).subscriptions_by_topic))
keep_or_drop-Unique topic o (e ∷ callbacks) t s u v =
    ground (arith, lookup-insert s topic (e ∷ callbacks) t.subscriptions_by_topic)
keep_or_drop-Unique topic none [] t s u v =
    ground (arith, lookup-erase s topic t.subscriptions_by_topic)
keep_or_drop-Unique topic (some info) [] t s u v =
    ground (arith, lookup-erase s topic t.subscriptions_by_topic)

-- The fields that the removal of one callback leaves.
kept-fields :
    (id topic : Text) (t : Tracker)
    → let u = remove_from id (some topic) t in
      (u.client ≡ (unsubscribe id t.client).1)
      × (u.futures ≡ t.futures)
      × (u.future_registry ≡ t.future_registry)
      × (u.executor_open ≡ t.executor_open)
kept-fields id topic t = (grind arith, grind arith, grind arith, grind arith)

module _ (id topic : Text) (t : Tracker) (inv : IsTracked t)
    (here : lookup id t.topic_by_subscription_id ≡ some topic) where
  removed-IsSynced :
      let u = remove_from id (some topic) t in
      IsSynced (unsubscribe id t.client).1 u.subscriptions_by_topic u.topic_by_subscription_id
  removed-IsSynced = record {
    client = unsubscribe-IsIndexed id t.client inv.synced.client;
    unique = λ s.
        keep_or_drop-Unique topic (lookup id (entries (lookup topic t.subscriptions_by_topic)))
          (erase id (entries (lookup topic t.subscriptions_by_topic))) _ s
          (erase-Unique id (entries (lookup topic t.subscriptions_by_topic))
            (inv.synced.unique topic))
          (inv.synced.unique s);
    known = λ s i k. ground (
      arith,
      find-remove_from id topic t s i,
      ids-remove_from id topic t i,
      inv.synced.known s i,
    );
    indexed = λ i s k. ground (
      arith,
      find-remove_from id topic t s i,
      ids-remove_from id topic t i,
      inv.synced.indexed i s,
    );
    same = λ s i. ground (
      arith,
      find-unsubscribe id t.client inv.synced.client s i,
      find-remove_from id topic t s i,
      inv.synced.same s i,
      inv.synced.known s i,
    );
  }

  removed-IsOwned :
      let u = remove_from id (some topic) t in
      IsOwned t.futures t.future_registry u.subscriptions_by_topic u.active_subscriptions
        (unsubscribe id t.client).1.subscriptions_by_topic
  removed-IsOwned =
      let u : Tracker = remove_from id (some topic) t in
      restrict t.futures t.future_registry t.subscriptions_by_topic t.active_subscriptions
        t.client.subscriptions_by_topic inv.owned t.futures t.future_registry
        u.subscriptions_by_topic u.active_subscriptions
        (unsubscribe id t.client).1.subscriptions_by_topic
        (λ s i h e. ground (arith, find-unsubscribe id t.client inv.synced.client s i))
        (λ j r e. (e, same_future (t.futures r)))
        (λ s i b e.
          let old = old_callback s i b e in
          let p = inv.owned.placed s i b old in
          (
            b,
            old,
            same_info b,
            p.2,
            active-kept topic (lookup id (entries (lookup topic t.subscriptions_by_topic)))
                (erase id (entries (lookup topic t.subscriptions_by_topic))) _ s i b.job_id b e p.3,
          ))
    where
      old_callback :
          (s i : Text) (b : SubscriptionInfo)
          → find s i (remove_from id (some topic) t).subscriptions_by_topic ≡ some b
          → find s i t.subscriptions_by_topic ≡ some b
      old_callback s i b e = ground (arith, find-remove_from id topic t s i)

  removed-IsTracked : IsTracked (remove_from id (some topic) t)
  removed-IsTracked =
      let k = kept-fields id topic t in
      record {
        opened = k.3 ∙ inv.opened;
        synced =
            subst
              (λ c.
                IsSynced c (remove_from id (some topic) t).subscriptions_by_topic
                  (remove_from id (some topic) t).topic_by_subscription_id)
              (sym k.0) removed-IsSynced;
        owned =
            subst
              (λ (fr : (Ref → JobFuture) × Dict Ref × Client Handler).
                IsOwned fr.0 fr.1 (remove_from id (some topic) t).subscriptions_by_topic
                  (remove_from id (some topic) t).active_subscriptions fr.2.subscriptions_by_topic)
              (λ i. (sym k.1 i, sym k.2 i, sym k.0 i)) removed-IsOwned;
      }

-- The manager-wide callbacks play no part.
pub globals-IsTracked :
    (t : Tracker) (globals : Dict RegisteredCallback)
    → IsTracked t
    → IsTracked (record t { global_callbacks = globals })
globals-IsTracked t globals inv = record {
  opened = inv.opened;
  synced = inv.synced;
  owned = inv.owned;
}

of_id :
    (id : Text) (o : Option Text) (t : Tracker)
    → IsTracked t
    → lookup id t.topic_by_subscription_id ≡ o
    → IsTracked (remove_from id o t)
of_id id none t inv e = inv
of_id id (some topic) t inv e = removed-IsTracked id topic t inv e

remove_one-IsTracked : (id : Text) (t : Tracker) → IsTracked t → IsTracked (remove_one id t)
unfolding remove_one
remove_one-IsTracked id t inv = elim (Bool-cases (is_some (lookup id t.global_callbacks))) [
  | inl global ↦ rw global (globals-IsTracked t (erase id t.global_callbacks) inv)
  | inr local ↦ rw local (of_id id (lookup id t.topic_by_subscription_id) t inv refl)
]

pub remove_subscription_by_id-IsTracked :
    (ids : List Text) (t : Tracker) → IsTracked t → IsTracked (remove_subscription_by_id ids t)
unfolding remove_subscription_by_id
remove_subscription_by_id-IsTracked [] t inv = inv
remove_subscription_by_id-IsTracked (id ∷ ids) t inv =
    remove_subscription_by_id-IsTracked ids (remove_one id t) (remove_one-IsTracked id t inv)

remove_callback-SameFuture : (id : Text) (f : JobFuture) → SameFuture f (remove_callback id f).1
unfolding remove_callback
remove_callback-SameFuture id f = record {
  job_id = ground arith;
  slurm_job_id = ground arith;
  still = ground arith;
}

pub unlisten-IsTracked :
    (r : Ref) (id : Text) (t : Tracker) → IsTracked t → IsTracked (unlisten r id t)
unfolding unlisten
unlisten-IsTracked r id t inv = elim (Bool-cases (remove_callback id (t.futures r)).0) [
  | inl there ↦ rw there (
      remove_subscription_by_id-IsTracked (id ∷ []) _ (
        futures-IsTracked t (update r (remove_callback id (t.futures r)).1 t.futures) inv (λ j q e.
          update-same r q (remove_callback id (t.futures r)).1 t.futures
            (remove_callback-SameFuture id (t.futures r)))))
  | inr missing ↦ rw missing inv
]
