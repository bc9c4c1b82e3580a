-- ===== src/Tracker/Tracked/Synced.antt =====
-- The edits of the tracker's two indexes, with those of the Redis client that go along.
use slurm_manager.Base.{
  ◌≡◌, ◌≢◌, Bool, true, none, some, arith, is_some, ite, Option-cases, inl, inr,
}
use slurm_manager.Base.Text.{Text, dec_text}
use slurm_manager.Base.Dict.{
  Dict, lookup, insert, erase, erase_all, find, entries, keys, lookup-nil, lookup-entries,
  lookup-insert, lookup-erase, lookup-erase_all, has-keys,
}
use slurm_manager.Base.Unique.{insert-Unique}
use slurm_manager.Base.Result.{ok, err, Error}
use slurm_manager.RedisSub.{
  ensure_threads_started, Client, Subscription, subscribe, unsubscribe_topic,
}
use slurm_manager.RedisSub.Indexed.{
  subscribe-IsIndexed, unsubscribe_topic-IsIndexed, lookup-unsubscribe_topic,
}
use slurm_manager.Tracker.State.{Handler, SubscriptionInfo}
use slurm_manager.Tracker.Tracked.{IsSynced}

-- A subscription that succeeds adds its callback; one that is refused leaves every callback.
pub subscribe-ok :
    (accepted : Bool) (id x topic : Text) (h : Handler) (c : Client Handler)
    → (subscribe accepted id topic h c).0 ≡ ok x
    → (x ≡ id)
      × ((s i : Text)
          → is_some (find s i (subscribe accepted id topic h c).1.subscriptions_by_topic)
            ≡ ite
                (dec_text s topic)
                (ite (dec_text i id) true (is_some (find s i c.subscriptions_by_topic)))
                (is_some (find s i c.subscriptions_by_topic)))
unfolding subscribe ensure_threads_started
subscribe-ok accepted id x topic h c e =
    (grind arith, λ s i. grind (arith, lookup-insert, lookup-nil))

-- A handler that is found after a subscription is the new one or an old one.
pub find-subscribe :
    (accepted : Bool) (id x topic s i : Text) (h : Handler) (k : Subscription Handler)
    (c : Client Handler)
    → (subscribe accepted id topic h c).0 ≡ ok x
    → find s i (subscribe accepted id topic h c).1.subscriptions_by_topic ≡ some k
    → (s ≡ topic → i ≡ id → k.callback ≡ h)
      × ((s ≡ topic → i ≢ id) → find s i c.subscriptions_by_topic ≡ some k)
unfolding subscribe ensure_threads_started
find-subscribe accepted id x topic s i h k c e there = (
  λ p q. grind (arith, lookup-insert, lookup-nil),
  λ other. grind (arith, lookup-insert, lookup-nil, other),
)

pub subscribe-err :
    (accepted : Bool) (id topic : Text) (h : Handler) (c : Client Handler) (e : Error)
    → (subscribe accepted id topic h c).0 ≡ err e
    → (subscribe accepted id topic h c).1.subscriptions_by_topic ≡ c.subscriptions_by_topic
unfolding subscribe ensure_threads_started
subscribe-err accepted id topic h c e r = grind arith

module _ (c : Client Handler) (subs : Dict (Dict SubscriptionInfo)) (ids : Dict Text)
    (inv : IsSynced c subs ids) where
  -- An id that the tracker does not know is free in the client too.
  pub client_fresh :
      (id : Text) → lookup id ids ≡ none → lookup id c.topic_by_subscription_id ≡ none
  client_fresh id fresh = elim (Option-cases (lookup id c.topic_by_subscription_id)) [
    | inl missing ↦ missing
    | inr (s, there) ↦ grind (arith, inv.client.indexed id s there, inv.same s id, inv.known s id)
  ]

  pub refused-IsSynced :
      (accepted : Bool) (id topic : Text) (h : Handler) (e : Error)
      → lookup id ids ≡ none
      → (subscribe accepted id topic h c).0 ≡ err e
      → IsSynced (subscribe accepted id topic h c).1 subs ids
  refused-IsSynced accepted id topic h e fresh r = record {
    client = subscribe-IsIndexed accepted id topic h c inv.client (client_fresh id fresh);
    unique = inv.unique;
    known = inv.known;
    indexed = inv.indexed;
    same = λ s i. rw (subscribe-err accepted id topic h c e r) (inv.same s i);
  }

  pub added-IsSynced :
      (accepted : Bool) (id x topic : Text) (h : Handler) (info : SubscriptionInfo)
      → lookup id ids ≡ none
      → (subscribe accepted id topic h c).0 ≡ ok x
      → IsSynced
          (subscribe accepted id topic h c).1
          (insert topic (insert id info (entries (lookup topic subs))) subs)
          (insert id topic ids)
  added-IsSynced accepted id x topic h info fresh r = record {
    client = subscribe-IsIndexed accepted id topic h c inv.client (client_fresh id fresh);
    unique = λ s. ground (
      arith,
      lookup-insert s topic (insert id info (entries (lookup topic subs))) subs,
      insert-Unique id info (entries (lookup topic subs)) (inv.unique topic),
      inv.unique s,
    );
    known = λ s i k. grind (arith, lookup-insert, lookup-entries, inv.known s i);
    indexed = λ i s k. grind (arith, lookup-insert, lookup-entries, inv.indexed i s, fresh);
    same = λ s i. grind (
      arith,
      lookup-insert,
      lookup-entries,
      (subscribe-ok accepted id x topic h c r).1 s i,
      inv.same s i,
    );
  }

  -- Dropping a topic in the tracker and in the client.
  pub dropped-IsSynced :
      (topic : Text)
      → IsSynced
          (unsubscribe_topic topic c).1
          (erase topic subs)
          (erase_all (keys (entries (lookup topic subs))) ids)
  dropped-IsSynced topic = record {
    client = unsubscribe_topic-IsIndexed topic c inv.client;
    unique = λ s. ground (arith, lookup-erase s topic subs, inv.unique s);
    known = λ s i k. grind (
      arith,
      lookup-erase,
      lookup-erase_all,
      has-keys,
      lookup-entries,
      inv.known s i,
      inv.known topic i,
    );
    indexed = λ i s k.
        grind (arith, lookup-erase, lookup-erase_all, has-keys, lookup-entries, inv.indexed i s);
    same = λ s i. grind (arith, lookup-erase, lookup-unsubscribe_topic s topic c, inv.same s i);
  }

  -- An assignment to the fields of a registered object.
  pub changed-IsSynced :
      (topic id : Text) (info new : SubscriptionInfo)
      → find topic id subs ≡ some info
      → IsSynced c (insert topic (insert id new (entries (lookup topic subs))) subs) ids
  changed-IsSynced topic id info new there = record {
    client = inv.client;
    unique = λ s. ground (
      arith,
      lookup-insert s topic (insert id new (entries (lookup topic subs))) subs,
      insert-Unique id new (entries (lookup topic subs)) (inv.unique topic),
      inv.unique s,
    );
    known = λ s i k. grind (arith, lookup-insert, lookup-entries, inv.known s i);
    indexed = λ i s k. grind (arith, lookup-insert, lookup-entries, inv.indexed i s);
    same = λ s i. grind (arith, lookup-insert, lookup-entries, inv.same s i);
  }
