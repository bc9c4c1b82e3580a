-- ===== src/Tests/Redis.antt =====
-- Examples on the Redis client.
use slurm_manager.Message.{SlurmMessage, heartbeat}
use slurm_manager.RedisSub.Listener.{received, subscribe_ack, channel_str, raw_dict, listener_round}
use slurm_manager.RedisSub.Reachable.{start, next, subscribes, listens, leaves, Reachable-IsIndexed}
use slurm_manager.Base.{◌≡◌, refl, ℕ, true, none, some, Option, [], ◌∷◌, ite, ◌↔◌}
use slurm_manager.Base.Text.{Text, codes, dec_text}
use slurm_manager.Base.Dict.{lookup, find}
use slurm_manager.Base.Result.{Result, ok}
use slurm_manager.RedisSub.{Client, new_client, unsubscribe, unsubscribe_topic}
use slurm_manager.RedisSub.Indexed.{
  IsIndexed, new_client-IsIndexed, subscribe-IsIndexed, find-unsubscribe,
}
use slurm_manager.RedisSub.Waiting.{
  wait_until_subscribed, AllRegistered, AllAcknowledged, wait_until_subscribed-ok_iff,
}
use slurm_manager.Tracker.State.{Handler, ignore_status}
use slurm_manager.Tests.Data.{client, status_topic}

pub client-IsIndexed : IsIndexed client
unfolding new_client lookup
client-IsIndexed =
    subscribe-IsIndexed true (codes "s") status_topic ignore_status new_client new_client-IsIndexed
      refl

find-unsubscribe_example :
    find status_topic (codes "s") (unsubscribe (codes "s") client).1.subscriptions_by_topic
    ≡ ite
        (dec_text (codes "s") (codes "s"))
        none
        (find status_topic (codes "s") client.subscriptions_by_topic)
find-unsubscribe_example =
    find-unsubscribe (codes "s") client client-IsIndexed status_topic (codes "s")

abbrev soon : Text → Option ℕ
soon t = some 9

wait_until_subscribed-ok_iff_example :
    (wait_until_subscribed soon 5 6 (status_topic ∷ []) client ≡ ok tt) ↔ (
      AllRegistered client.subscription_ready (status_topic ∷ [])
      × AllAcknowledged soon 11 (status_topic ∷ []))
wait_until_subscribed-ok_iff_example =
    wait_until_subscribed-ok_iff soon 5 6 (status_topic ∷ []) client

abbrev decode : Text → Result Text
decode s = ok s

abbrev loads : Text → Result ℕ
loads s = ok 5

abbrev validate : ℕ → Result SlurmMessage
validate n = ok (record { metadata = []; body = heartbeat n })

abbrev acknowledged : Client Handler
acknowledged =
    (listener_round decode loads validate
      (received
        (record { kind = subscribe_ack; channel = channel_str status_topic; content = raw_dict 1 }))
      client).0

Reachable-IsIndexed_example : IsIndexed (unsubscribe_topic status_topic acknowledged).1
unfolding new_client lookup
Reachable-IsIndexed_example =
    Reachable-IsIndexed decode loads validate (unsubscribe_topic status_topic acknowledged).1 (
      next acknowledged (unsubscribe_topic status_topic acknowledged).1
        (next client acknowledged
          (next new_client client start
            (subscribes true (codes "s") status_topic ignore_status refl))
          (listens _))
        (leaves status_topic))
