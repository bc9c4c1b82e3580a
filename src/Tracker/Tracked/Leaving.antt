-- ===== src/Tracker/Tracked/Leaving.antt =====
-- A removal by topic keeps the tracker's invariant.
use slurm_manager.Base.{◌≡◌, refl, sym, subst, ◌≢◌, true, some, [], ◌∷◌, arith}
use slurm_manager.Base.Text.{Text}
use slurm_manager.Base.Dict.{
  Dict, lookup, erase, erase_all, find, entries, has, keys, lookup-insert, lookup-erase,
}
use slurm_manager.RedisSub.{unsubscribe_topic}
use slurm_manager.RedisSub.Indexed.{lookup-unsubscribe_topic}
use slurm_manager.Tracker.State.{Tracker, SubscriptionInfo}
use slurm_manager.Tracker.Status.{topics_of}
use slurm_manager.Tracker.Remove.{discard, forget_all, leave, remove_subscription_by_topic}
use slurm_manager.Tracker.Tracked.{IsOwned, IsTracked}
use slurm_manager.Tracker.Tracked.Synced.{dropped-IsSynced}
use slurm_manager.Tracker.Tracked.Owned.{restrict}
use slurm_manager.Tracker.Tracked.Ending.{same_future, same_info}
use slurm_manager.Tracker.Tracked.Removing.{has-discard}

forget_all-state :
    (topic : Text) (callbacks : Dict SubscriptionInfo) (t : Tracker)
    → forget_all topic callbacks t ≡ record t {
      topic_by_subscription_id = erase_all (keys callbacks) t.topic_by_subscription_id;
      active_subscriptions = (forget_all topic callbacks t).active_subscriptions;
    }
unfolding forget_all erase_all
forget_all-state topic [] t = refl
forget_all-state topic ((id, info) ∷ callbacks) t = forget_all-state topic callbacks _

forget_all-active :
    (topic : Text) (callbacks : Dict SubscriptionInfo) (t : Tracker) (s j : Text)
    → s ≢ topic
    → has s (topics_of (lookup j t.active_subscriptions)) ≡ true
    → has s (topics_of (lookup j (forget_all topic callbacks t).active_subscriptions)) ≡ true
unfolding forget_all
forget_all-active topic [] t s j other on = on
forget_all-active topic ((id, info) ∷ callbacks) t s j other on =
    forget_all-active topic callbacks _ s j other (
      ground (
        arith,
        lookup-insert j info.job_id
            (discard topic (topics_of (lookup info.job_id t.active_subscriptions)))
            t.active_subscriptions,
        has-discard s topic (topics_of (lookup info.job_id t.active_subscriptions)),
      ))

module _ (topic : Text) (t : Tracker) (inv : IsTracked t) where
  popped : Tracker
  popped = record t { subscriptions_by_topic = erase topic t.subscriptions_by_topic }

  forgotten : Tracker
  unfolding popped
  forgotten = forget_all topic (entries (lookup topic t.subscriptions_by_topic)) popped

  left-IsOwned :
      IsOwned t.futures t.future_registry
        (erase topic t.subscriptions_by_topic)
        forgotten.active_subscriptions
        (unsubscribe_topic topic t.client).1.subscriptions_by_topic
  unfolding forgotten popped
  left-IsOwned =
      restrict t.futures t.future_registry t.subscriptions_by_topic t.active_subscriptions
        t.client.subscriptions_by_topic inv.owned t.futures t.future_registry
        (erase topic t.subscriptions_by_topic) forgotten.active_subscriptions
        (unsubscribe_topic topic t.client).1.subscriptions_by_topic
        (λ s i h e. ground (arith, lookup-unsubscribe_topic s topic t.client))
        (λ j r e. (e, same_future (t.futures r)))
        (λ s i b e.
          let old = old_callback s i b e in
          let p = inv.owned.placed s i b old.1 in
          (
            b,
            old.1,
            same_info b,
            p.2,
            forget_all-active topic (entries (lookup topic t.subscriptions_by_topic)) popped s
                b.job_id old.0 p.3,
          ))
    where
      old_callback :
          (s i : Text) (b : SubscriptionInfo)
          → find s i (erase topic t.subscriptions_by_topic) ≡ some b
          → (s ≢ topic) × (find s i t.subscriptions_by_topic ≡ some b)
      old_callback s i b e = (
        λ k. ground (arith, lookup-erase s topic t.subscriptions_by_topic),
        ground (arith, lookup-erase s topic t.subscriptions_by_topic),
      )

  pub remove_subscription_by_topic-IsTracked : IsTracked (remove_subscription_by_topic topic t)
  unfolding remove_subscription_by_topic forgotten popped
  remove_subscription_by_topic-IsTracked =
      subst (λ u. IsTracked (leave topic u))
        (sym (forget_all-state topic (entries (lookup topic t.subscriptions_by_topic)) popped))
        (record {
          opened = inv.opened;
          synced =
              dropped-IsSynced t.client t.subscriptions_by_topic t.topic_by_subscription_id
                inv.synced topic;
          owned = left-IsOwned;
        })
