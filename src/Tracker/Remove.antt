-- ===== src/Tracker/Remove.antt =====
-- Removal of subscriptions by id and by topic, and the tracker's shutdown.
pub mod ById
use slurm_manager.Base.{
  Bool, true, false, Option, none, some, List, [], ◌∷◌, if◌then◌else◌, ite, is_some,
}
use slurm_manager.Base.Text.{Text, dec_text}
use slurm_manager.Base.Dict.{Dict, lookup, insert, erase, erase_all, entries, keys}
use slurm_manager.Future.{remove_callback}
use slurm_manager.RedisSub.{unsubscribe, unsubscribe_topic}
use slurm_manager.RedisSub
use slurm_manager.Tracker.State.{Tracker, Ref, SubscriptionInfo, update}
use slurm_manager.Tracker.Status.{topics_of}

-- `set.discard`
abbrev pub discard : Text → List Text → List Text
discard k [] = []
discard k (j ∷ ks) = ite (dec_text k j) (discard k ks) (j ∷ discard k ks)

abbrev discard_in : Text → Text → Option (List Text) → Dict (List Text) → Dict (List Text)
discard_in topic job_id none active = active
discard_in topic job_id (some topics) active = insert job_id (discard topic topics) active

abbrev pub left : Text → Option SubscriptionInfo → Tracker → Tracker
left topic none t = t
left topic (some info) t = record t {
  active_subscriptions =
      discard_in topic info.job_id (lookup info.job_id t.active_subscriptions)
        t.active_subscriptions;
}

-- What is left of a topic: other callbacks keep it, or it goes.
abbrev pub keep_or_drop : Text → Option SubscriptionInfo → Dict SubscriptionInfo → Tracker → Tracker
keep_or_drop topic info (e ∷ callbacks) t = record t {
  subscriptions_by_topic = insert topic (e ∷ callbacks) t.subscriptions_by_topic;
}
keep_or_drop topic info [] t =
    left topic info (record t { subscriptions_by_topic = erase topic t.subscriptions_by_topic })

abbrev pub remove_from : Text → Option Text → Tracker → Tracker
remove_from id none t = t
remove_from id (some topic) t =
    let callbacks : Dict SubscriptionInfo = entries (lookup topic t.subscriptions_by_topic) in
    keep_or_drop topic (lookup id callbacks) (erase id callbacks) (record t {
      topic_by_subscription_id = erase id t.topic_by_subscription_id;
      client = (unsubscribe id t.client).1;
    })

-- One round of `remove_subscription_by_id`.
unfoldable pub remove_one : Text → Tracker → Tracker
remove_one id t =
    if is_some (lookup id t.global_callbacks)
    then record t { global_callbacks = erase id t.global_callbacks }
    else remove_from id (lookup id t.topic_by_subscription_id) t

-- `remove_subscription_by_id`; a single id is a list of one.
unfoldable pub remove_subscription_by_id : List Text → Tracker → Tracker
remove_subscription_by_id [] t = t
remove_subscription_by_id (id ∷ ids) t = remove_subscription_by_id ids (remove_one id t)

-- The loop of `remove_subscription_by_topic`; `_active_subscriptions` makes an entry for a job
-- that has none.
unfoldable pub forget_all : Text → Dict SubscriptionInfo → Tracker → Tracker
forget_all topic [] t = t
forget_all topic ((id, info) ∷ callbacks) t = forget_all topic callbacks (record t {
  topic_by_subscription_id = erase id t.topic_by_subscription_id;
  active_subscriptions =
      insert info.job_id (discard topic (topics_of (lookup info.job_id t.active_subscriptions)))
        t.active_subscriptions;
})

abbrev pub leave : Text → Tracker → Tracker
leave topic t = record t { client = (unsubscribe_topic topic t.client).1 }

-- `remove_subscription_by_topic`
unfoldable pub remove_subscription_by_topic : Text → Tracker → Tracker
unfolding forget_all
remove_subscription_by_topic topic t = leave topic (
    forget_all topic (entries (lookup topic t.subscriptions_by_topic))
      (record t { subscriptions_by_topic = erase topic t.subscriptions_by_topic }))

-- `JobFuture.unlisten`: the future's own record goes first.
unfoldable pub unlisten : Ref → Text → Tracker → Tracker
unfolding remove_subscription_by_id
unlisten r id t =
    let (removed, f) = remove_callback id (t.futures r) in
    if removed
    then remove_subscription_by_id (id ∷ []) (record t { futures = update r f t.futures })
    else t

-- `shutdown`; `stopped` says whether the listener ends within the timeout. The executor runs what
-- it has accepted and takes no more.
unfoldable pub shutdown : Bool → Tracker → Tracker
shutdown stopped t = record t {
  global_callbacks = [];
  subscriptions_by_topic = [];
  topic_by_subscription_id = [];
  client = RedisSub.shutdown stopped t.client;
  executor_open = false;
}
