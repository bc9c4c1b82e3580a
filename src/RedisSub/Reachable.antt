-- ===== src/RedisSub/Reachable.antt =====
-- The clients that calls and listener rounds, in any order, lead to.
use slurm_manager.Base.{◌≡◌, refl, Bool, true, false, Option, none, some, arith}
use slurm_manager.Base.Text.{Text}
use slurm_manager.Base.Dict.{lookup, lookup-insert}
use slurm_manager.Base.Result.{Result, ok, err}
use slurm_manager.Message.{SlurmMessage}
use slurm_manager.RedisSub.{Client, new_client, subscribe, unsubscribe, unsubscribe_topic, shutdown}
use slurm_manager.RedisSub.Listener.{
  Poll, failed, nothing, received, Kind, subscribe_ack, unsubscribe_ack, message, RawMessage,
  set_flag, acknowledge, topic_of, handle, listener_round,
}
use slurm_manager.RedisSub.Indexed.{
  IsIndexed, on_wire-snoc, new_client-IsIndexed, subscribe-IsIndexed, unsubscribe-IsIndexed,
  unsubscribe_topic-IsIndexed,
}

module _ {ℓ} {H : Type ℓ} where
  pub shutdown-IsIndexed : (stopped : Bool) (c : Client H) → IsIndexed (shutdown stopped c)
  unfolding shutdown lookup
  shutdown-IsIndexed stopped c = record {
    indexed = λ i t e. cc;
    found = λ t i s e. cc;
    full = λ t e. cc;
    waited = λ t h. absurd (h refl);
    wired = λ t. on_wire-snoc t c.wire _ false;
  }

  module _ {Value : Type 0} (decode : Text → Result Text) (json_loads : Text → Result Value)
      (validate : Value → Result SlurmMessage) where
    set_flag-IsIndexed :
        (topic : Text) (o : Option Bool) (c : Client H)
        → IsIndexed c
        → IsIndexed (set_flag decode json_loads validate topic o c)
    set_flag-IsIndexed topic none c h = h
    set_flag-IsIndexed topic (some flag) c h = record {
      indexed = h.indexed;
      found = h.found;
      full = h.full;
      waited = λ t k. ground (arith, lookup-insert t topic true c.subscription_ready, h.waited t k);
      wired = h.wired;
    }

    acknowledge-IsIndexed :
        (r : Result Text) (c : Client H)
        → IsIndexed c
        → IsIndexed (acknowledge decode json_loads validate r c)
    acknowledge-IsIndexed (ok topic) c h =
        set_flag-IsIndexed topic (lookup topic c.subscription_ready) c h
    acknowledge-IsIndexed (err e) c h = record {
      indexed = h.indexed;
      found = h.found;
      full = h.full;
      waited = h.waited;
      wired = h.wired;
    }

    handle-IsIndexed :
        (k : Kind) (m : RawMessage Value) (c : Client H)
        → IsIndexed c
        → IsIndexed (handle decode json_loads validate k m c).0
    handle-IsIndexed subscribe_ack m c h =
        acknowledge-IsIndexed (topic_of decode json_loads validate m.channel) c h
    handle-IsIndexed unsubscribe_ack m c h = h
    handle-IsIndexed message m c h = h

    pub listener_round-IsIndexed :
        (p : Poll Value) (c : Client H)
        → IsIndexed c
        → IsIndexed (listener_round decode json_loads validate p c).0
    unfolding listener_round
    listener_round-IsIndexed failed c h = h
    listener_round-IsIndexed nothing c h = h
    listener_round-IsIndexed (received m) c h = handle-IsIndexed m.kind m c h

    -- One call of a method, or one round of the listener.
    pub data Step (c : Client H) : Client H → Type ℓ where
      subscribes :
          (accepted : Bool) (sub_id topic : Text) (callback : H)
          → lookup sub_id c.topic_by_subscription_id ≡ none
          → Step c (subscribe accepted sub_id topic callback c).1
      unsubscribes : (sub_id : Text) → Step c (unsubscribe sub_id c).1
      leaves : (topic : Text) → Step c (unsubscribe_topic topic c).1
      listens : (p : Poll Value) → Step c (listener_round decode json_loads validate p c).0
      stops : (stopped : Bool) → Step c (shutdown stopped c)

    pub data Reachable : Client H → Type ℓ where
      start : Reachable new_client
      next : (c d : Client H) → Reachable c → Step c d → Reachable d

    pub Step-IsIndexed : (c d : Client H) → IsIndexed c → Step c d → IsIndexed d
    Step-IsIndexed c _ h (subscribes accepted sub_id topic callback fresh) =
        subscribe-IsIndexed accepted sub_id topic callback c h fresh
    Step-IsIndexed c _ h (unsubscribes sub_id) = unsubscribe-IsIndexed sub_id c h
    Step-IsIndexed c _ h (leaves topic) = unsubscribe_topic-IsIndexed topic c h
    Step-IsIndexed c _ h (listens p) = listener_round-IsIndexed p c h
    Step-IsIndexed c _ h (stops stopped) = shutdown-IsIndexed stopped c

    -- Every client that a new one leads to, by subscriptions under ids not in use, accepted or
    -- refused, by unsubscriptions by id or topic, by rounds of the listener and by shutdowns, in
    -- any order, satisfies the invariant: the two indexes agree, no topic is kept without a
    -- callback, each topic has its flag, and the Redis server has exactly the kept topics
    -- subscribed.
    pub Reachable-IsIndexed : (c : Client H) → Reachable c → IsIndexed c
    Reachable-IsIndexed _ start = new_client-IsIndexed
    Reachable-IsIndexed _ (next c d r s) = Step-IsIndexed c d (Reachable-IsIndexed c r) s
