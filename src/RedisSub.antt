-- ===== src/RedisSub.antt =====
-- slurm_manager/redis_sub_client.py: `RedisSubClient`, generic in the type of its callbacks.
pub mod Indexed
pub mod Waiting
pub mod Listener
pub mod Reachable
pub mod Connect
use slurm_manager.Base.{
  ◌&&◌, not, ℕ, Bool, true, false, Option, none, some, List, [], ◌∷◌, ◌++◌, if◌then◌else◌, length,
}
use slurm_manager.Base.Text.{Text}
use slurm_manager.Base.Dict.{Dict, lookup, insert, erase, erase_all, keys}
use slurm_manager.Base.Result.{Result, ok, err, redis_error}

-- A command that the client sends over its pub/sub connection.
pub data Command : Type 0 where
  subscribe_to unsubscribe_from : Text → Command
  close : Command

pub record Subscription {ℓ} (H : Type ℓ) : Type ℓ where
  pub id : Text
  pub topic : Text
  pub callback : H

-- `wire` holds the commands sent so far, `listener_alive` is none before the first listener
-- thread, and a ready flag is a `threading.Event`.
pub record Client {ℓ} (H : Type ℓ) : Type ℓ where
  pub wire : List Command
  pub subscriptions_by_topic : Dict (Dict (Subscription H))
  pub topic_by_subscription_id : Dict Text
  pub subscription_ready : Dict Bool
  pub stop_listener : Bool
  pub listener_alive : Option Bool

abbrev alive : Option Bool → Bool
alive none = false
alive (some b) = b

module _ {ℓ} {H : Type ℓ} where
  unfoldable pub new_client : Client H
  new_client = record {
    wire = [];
    subscriptions_by_topic = [];
    topic_by_subscription_id = [];
    subscription_ready = [];
    stop_listener = false;
    listener_alive = none;
  }

  -- `registered_topics`
  pub registered_topics : Client H → List Text
  registered_topics c = keys c.subscriptions_by_topic

  -- `_ensure_threads_started`
  unfoldable pub ensure_threads_started : Client H → Client H
  ensure_threads_started c =
      if alive c.listener_alive
      then c
      else record c { stop_listener = false; listener_alive = some true }

  -- The end of `subscribe`: the id is indexed and the listener runs.
  index_id : Text → Text → Client H → Client H
  unfolding ensure_threads_started
  index_id sub_id topic c =
      ensure_threads_started
        (record c { topic_by_subscription_id = insert sub_id topic c.topic_by_subscription_id })

  abbrev subscribed_in :
      Bool → Text → Text → H → Option (Dict (Subscription H)) → Client H → Result Text × Client H
  subscribed_in accepted sub_id topic callback none c =
      let subscription : Subscription H = record {
        id = sub_id;
        topic = topic;
        callback = callback;
      } in
      let waiting : Client H = record c {
        subscription_ready = insert topic false c.subscription_ready;
      } in
      if accepted
      then (
        ok sub_id,
        index_id sub_id topic (record waiting {
          wire = c.wire ++ subscribe_to topic ∷ [];
          subscriptions_by_topic =
              insert topic (insert sub_id subscription []) c.subscriptions_by_topic;
        }),
      )
      else (err (redis_error []), waiting)
  subscribed_in accepted sub_id topic callback (some callbacks) c =
      let subscription : Subscription H = record {
        id = sub_id;
        topic = topic;
        callback = callback;
      } in
      (
        ok sub_id,
        index_id sub_id topic (record c {
          subscriptions_by_topic =
              insert topic (insert sub_id subscription callbacks) c.subscriptions_by_topic;
        }),
      )

  -- `subscribe`, given the new id and whether the Redis library accepts a SUBSCRIBE command.
  unfoldable pub subscribe : Bool → Text → Text → H → Client H → Result Text × Client H
  unfolding index_id
  subscribe accepted sub_id topic callback c =
      subscribed_in accepted sub_id topic callback (lookup topic c.subscriptions_by_topic) c

  -- `unsubscribe` of the last callback of a topic.
  leave_topic : Text → Client H → Client H
  leave_topic topic c = record c {
    subscriptions_by_topic = erase topic c.subscriptions_by_topic;
    subscription_ready = erase topic c.subscription_ready;
    wire = c.wire ++ unsubscribe_from topic ∷ [];
  }

  abbrev keep_or_leave : Text → Dict (Subscription H) → Client H → Client H
  keep_or_leave topic [] c = leave_topic topic c
  keep_or_leave topic (e ∷ callbacks) c = record c {
    subscriptions_by_topic = insert topic (e ∷ callbacks) c.subscriptions_by_topic;
  }

  abbrev unsubscribed_in : Text → Text → Option (Dict (Subscription H)) → Client H → Bool × Client H
  unsubscribed_in sub_id topic none c = (false, c)
  unsubscribed_in sub_id topic (some callbacks) c =
      (true, keep_or_leave topic (erase sub_id callbacks) c)

  abbrev unsubscribed_from : Text → Option Text → Client H → Bool × Client H
  unsubscribed_from sub_id none c = (false, c)
  unsubscribed_from sub_id (some topic) c =
      unsubscribed_in sub_id topic (lookup topic c.subscriptions_by_topic)
        (record c { topic_by_subscription_id = erase sub_id c.topic_by_subscription_id })

  -- `unsubscribe`
  unfoldable pub unsubscribe : Text → Client H → Bool × Client H
  unfolding leave_topic
  unsubscribe sub_id c = unsubscribed_from sub_id (lookup sub_id c.topic_by_subscription_id) c

  abbrev left_topic : Text → Option (Dict (Subscription H)) → Client H → ℕ × Client H
  left_topic topic none c = (0, c)
  left_topic topic (some []) c =
      (0, record c { subscriptions_by_topic = erase topic c.subscriptions_by_topic })
  left_topic topic (some (e ∷ callbacks)) c = (
    length (e ∷ callbacks),
    record c {
      subscriptions_by_topic = erase topic c.subscriptions_by_topic;
      subscription_ready = erase topic c.subscription_ready;
      topic_by_subscription_id = erase_all (keys (e ∷ callbacks)) c.topic_by_subscription_id;
      wire = c.wire ++ unsubscribe_from topic ∷ [];
    },
  )

  -- `unsubscribe_topic`
  unfoldable pub unsubscribe_topic : Text → Client H → ℕ × Client H
  unsubscribe_topic topic c = left_topic topic (lookup topic c.subscriptions_by_topic) c

  -- `shutdown`: the join of the listener ends in time or not; its resources are closed anyway.
  unfoldable pub shutdown : Bool → Client H → Client H
  shutdown stopped c = record c {
    stop_listener = true;
    listener_alive = elim c.listener_alive [ none ↦ none | some b ↦ some (b && not stopped) ];
    subscriptions_by_topic = [];
    topic_by_subscription_id = [];
    subscription_ready = [];
    wire = c.wire ++ close ∷ [];
  }
