-- ===== src/RedisSub/Listener.antt =====
-- One round of `_listener_loop`, and `_normalize_message`.
use slurm_manager.Base.{Bool, true, false, Option, none, some, List}
use slurm_manager.Base.Text.{Text}
use slurm_manager.Base.Dict.{lookup, insert, entries, values}
use slurm_manager.Base.Result.{Result, ok, err, type_error, ◌>>=◌}
use slurm_manager.Message.{SlurmMessage, Payload, text, object, parse_slurm_message}
use slurm_manager.RedisSub.{Client, Subscription}

-- The field `channel` of a message of the Redis library.
pub data Channel : Type 0 where
  channel_bytes : Text → Channel
  channel_str : Text → Channel

-- Its field `data`: `other` has the name of any further type.
pub data RawData (Value : Type 0) : Type 0 where
  raw_bytes : Text → RawData Value
  raw_str : Text → RawData Value
  raw_dict : Value → RawData Value
  other : Text → RawData Value

-- Its field `type`: `message` stands for every type but the two acknowledgements.
pub data Kind : Type 0 where
  subscribe_ack unsubscribe_ack message : Kind

pub record RawMessage (Value : Type 0) : Type 0 where
  pub kind : Kind
  pub channel : Channel
  pub content : RawData Value

-- What `get_message` does: raise a `RedisError`, time out, or return a message.
pub data Poll (Value : Type 0) : Type 0 where
  failed : Poll Value
  nothing : Poll Value
  received : RawMessage Value → Poll Value

-- `decode` is `bytes.decode`, whose error is a `ValueError`.
module _ {Value : Type 0} (decode : Text → Result Text) (json_loads : Text → Result Value)
    (validate : Value → Result SlurmMessage) where
  abbrev pub topic_of : Channel → Result Text
  topic_of (channel_bytes b) = decode b
  topic_of (channel_str s) = ok s

  abbrev payload_of : RawData Value → Result (Payload Value)
  payload_of (raw_bytes b) = do s ← decode b; ok (text s)
  payload_of (raw_str s) = ok (text s)
  payload_of (raw_dict v) = ok (object v)
  payload_of (other name) = err (type_error name)

  -- `_normalize_message`
  unfoldable pub normalize_message : RawMessage Value → Result (Text × SlurmMessage)
  unfolding parse_slurm_message
  normalize_message m = do
    topic ← topic_of m.channel
    payload ← payload_of m.content
    parsed ← parse_slurm_message json_loads validate payload
    ok (topic, parsed)

  module _ {ℓ} {H : Type ℓ} where
    abbrev pub set_flag : Text → Option Bool → Client H → Client H
    set_flag topic none c = c
    set_flag topic (some flag) c = record c {
      subscription_ready = insert topic true c.subscription_ready;
    }

    -- An acknowledgement sets the topic's flag, if the topic still has one. A channel that does
    -- not decode raises outside the handlers of `_listener_loop` and ends the thread.
    abbrev pub acknowledge : Result Text → Client H → Client H
    acknowledge (err e) c = record c { listener_alive = some false }
    acknowledge (ok topic) c = set_flag topic (lookup topic c.subscription_ready) c

    abbrev callbacks_for :
        Result (Text × SlurmMessage) → Client H → Option (SlurmMessage × List (Subscription H))
    callbacks_for (err e) c = none
    callbacks_for (ok (topic, m)) c =
        some (m, values (entries (lookup topic c.subscriptions_by_topic)))

    abbrev pub handle :
        Kind
        → RawMessage Value
        → Client H
        → Client H × Option (SlurmMessage × List (Subscription H))
    handle subscribe_ack m c = (acknowledge (topic_of m.channel) c, none)
    handle unsubscribe_ack m c = (c, none)
    handle message m c = (c, callbacks_for (normalize_message m) c)

    -- One round: the client afterwards, and the message with the callbacks that get it, in order.
    unfoldable pub listener_round :
        Poll Value → Client H → Client H × Option (SlurmMessage × List (Subscription H))
    unfolding normalize_message
    listener_round failed c = (c, none)
    listener_round nothing c = (c, none)
    listener_round (received m) c = handle m.kind m c
