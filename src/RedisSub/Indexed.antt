-- ===== src/RedisSub/Indexed.antt =====
-- The client's three dictionaries and its wire agree.
use slurm_manager.Base.{
  ◌≡◌, refl, ◌≢◌, Bool, true, false, none, some, List, [], ◌∷◌, ◌++◌, arith, ite, is_some,
  Option-cases, inl, inr,
}
use slurm_manager.Base.Text.{Text, dec_text}
use slurm_manager.Base.Dict.{
  lookup, find, has-keys, lookup-insert, lookup-erase, lookup-nil, insert-ne-nil, lookup-erase_all,
}
use slurm_manager.RedisSub.{
  Command, subscribe_to, unsubscribe_from, close, Subscription, Client, new_client, subscribe,
  unsubscribe, unsubscribe_topic, ensure_threads_started,
}

-- Whether the Redis server has this connection subscribed to the topic, after these commands.
abbrev heard : Text → Command → Bool → Bool
heard t (subscribe_to s) b = ite (dec_text t s) true b
heard t (unsubscribe_from s) b = ite (dec_text t s) false b
heard t close b = false

pub on_wire : Text → List Command → Bool → Bool
on_wire t [] b = b
on_wire t (c ∷ cs) b = on_wire t cs (heard t c b)

pub on_wire-snoc :
    (t : Text) (cs : List Command) (c : Command) (b : Bool)
    → on_wire t (cs ++ c ∷ []) b ≡ heard t c (on_wire t cs b)
unfolding on_wire
on_wire-snoc t [] c b = refl
on_wire-snoc t (x ∷ cs) c b = on_wire-snoc t cs c (heard t x b)

module _ {ℓ} {H : Type ℓ} where
  -- Every callback is indexed by its id, every indexed id has its callback, no topic is kept
  -- without a callback, each topic has its acknowledgement flag, and the topics are those that
  -- the Redis server was told of.
  pub record IsIndexed (c : Client H) : Type ℓ where
    pub indexed :
        (i t : Text)
        → lookup i c.topic_by_subscription_id ≡ some t
        → find t i c.subscriptions_by_topic ≢ none
    pub found :
        (t i : Text) (s : Subscription H)
        → find t i c.subscriptions_by_topic ≡ some s
        → (lookup i c.topic_by_subscription_id ≡ some t) × (s.id ≡ i) × (s.topic ≡ t)
    pub full : (t : Text) → lookup t c.subscriptions_by_topic ≢ some []
    pub waited :
        (t : Text) → lookup t c.subscriptions_by_topic ≢ none → lookup t c.subscription_ready ≢ none
    pub wired : (t : Text) → on_wire t c.wire false ≡ is_some (lookup t c.subscriptions_by_topic)

  pub new_client-IsIndexed : IsIndexed (new_client {H = H})
  unfolding new_client lookup on_wire
  new_client-IsIndexed = record {
    indexed = λ i t e. cc;
    found = λ t i s e. cc;
    full = λ t e. cc;
    waited = λ t h. absurd (h refl);
    wired = λ t. refl;
  }

  pub owner :
      (c : Client H)
      → IsIndexed c
      → (t i : Text) → find t i c.subscriptions_by_topic ≢ none
      → lookup i c.topic_by_subscription_id ≡ some t
  owner c inv t i h = elim (Option-cases (find t i c.subscriptions_by_topic)) [
    | inl missing ↦ absurd (h missing)
    | inr (s, e) ↦ (inv.found t i s e).0
  ]

  subscribe-full :
      (accepted : Bool) (sub_id topic : Text) (callback : H) (c : Client H)
      → IsIndexed c
      → (t : Text)
      → lookup t (subscribe accepted sub_id topic callback c).1.subscriptions_by_topic ≢ some []
  unfolding subscribe ensure_threads_started
  subscribe-full accepted sub_id topic callback c inv t e =
      grind (arith, lookup-insert, insert-ne-nil, inv.full t)

  -- Subscribing under an id that is not in use preserves the client's invariant, also when Redis
  -- refuses the subscription.
  pub subscribe-IsIndexed :
      (accepted : Bool) (sub_id topic : Text) (callback : H) (c : Client H)
      → IsIndexed c
      → lookup sub_id c.topic_by_subscription_id ≡ none
      → IsIndexed (subscribe accepted sub_id topic callback c).1
  unfolding subscribe ensure_threads_started
  subscribe-IsIndexed accepted sub_id topic callback c inv fresh = record {
    indexed = λ i t e. grind (arith, lookup-insert, inv.indexed i t, fresh);
    found = λ t i s e. grind (arith, lookup-insert, lookup-nil, inv.found t i s, fresh);
    full = subscribe-full accepted sub_id topic callback c inv;
    waited = λ t h. grind (arith, lookup-insert, inv.waited t);
    wired = λ t. grind (arith, lookup-insert, on_wire-snoc, inv.wired t);
  }

  -- `unsubscribe` takes its id out of the index of ids, and leaves every other id.
  pub topic-unsubscribe :
      (sub_id : Text) (c : Client H) (i : Text)
      → lookup i (unsubscribe sub_id c).1.topic_by_subscription_id
        ≡ ite (dec_text i sub_id) none (lookup i c.topic_by_subscription_id)
  unfolding unsubscribe
  topic-unsubscribe sub_id c i = grind (arith, lookup-erase)

  -- On a client that satisfies its invariant, `unsubscribe` takes the callback of its id away, on
  -- whatever topic it is registered, and no other.
  pub find-unsubscribe :
      (sub_id : Text) (c : Client H)
      → IsIndexed c
      → (t i : Text)
      → find t i (unsubscribe sub_id c).1.subscriptions_by_topic
        ≡ ite (dec_text i sub_id) none (find t i c.subscriptions_by_topic)
  unfolding unsubscribe
  find-unsubscribe sub_id c inv t i =
      grind (arith, lookup-insert, lookup-erase, lookup-nil, owner c inv t i)

  -- `unsubscribe` of any id, known or not, preserves the client's invariant: the two indexes agree,
  -- no topic is kept without a callback, each topic has its flag, and the Redis server has exactly
  -- the kept topics subscribed.
  pub unsubscribe-IsIndexed :
      (sub_id : Text) (c : Client H) → IsIndexed c → IsIndexed (unsubscribe sub_id c).1
  unfolding unsubscribe
  unsubscribe-IsIndexed sub_id c inv = record {
    indexed = λ i t e.
        ground
          (arith, topic-unsubscribe sub_id c i, find-unsubscribe sub_id c inv t i, inv.indexed i t);
    found = λ t i s e.
        ground
          (arith, topic-unsubscribe sub_id c i, find-unsubscribe sub_id c inv t i, inv.found t i s);
    full = λ t e. grind (arith, lookup-insert, lookup-erase, inv.full t);
    waited = λ t h. grind (arith, lookup-insert, lookup-erase, inv.waited t);
    wired = λ t. grind (arith, lookup-insert, lookup-erase, on_wire-snoc, inv.wired t);
  }

  -- `unsubscribe_topic` of any topic, known or not, preserves the client's invariant.
  pub unsubscribe_topic-IsIndexed :
      (topic : Text) (c : Client H) → IsIndexed c → IsIndexed (unsubscribe_topic topic c).1
  unfolding unsubscribe_topic
  unsubscribe_topic-IsIndexed topic c inv = record {
    indexed = λ i t e. grind (arith, lookup-erase, lookup-erase_all, has-keys, inv.indexed i t);
    found = λ t i s e.
        grind
          (arith, lookup-erase, lookup-erase_all, has-keys, inv.found t i s, owner c inv topic i);
    full = λ t e. grind (arith, lookup-erase, inv.full t);
    waited = λ t h. grind (arith, lookup-erase, inv.waited t);
    wired = λ t. grind (arith, lookup-erase, on_wire-snoc, inv.wired t);
  }

  -- `unsubscribe_topic` takes its topic away and leaves every other one.
  pub lookup-unsubscribe_topic :
      (t topic : Text) (c : Client H)
      → lookup t (unsubscribe_topic topic c).1.subscriptions_by_topic
        ≡ ite (dec_text t topic) none (lookup t c.subscriptions_by_topic)
  unfolding unsubscribe_topic
  lookup-unsubscribe_topic t topic c = grind (arith, lookup-erase)
