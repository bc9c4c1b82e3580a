-- ===== src/Tracker/Register/Subscription.antt =====
-- `add_subscription` and the threads that may come between its two locked parts.
use slurm_manager.Base.{
  ◌≡◌, refl, ◌≢◌, Bool, true, false, not, ◌&&◌, Option, none, some, [], ◌∷◌, arith, ite,
}
use slurm_manager.Base.Text.{Text, dec_text}
use slurm_manager.Base.Dict.{Dict, lookup, erase, entries, find, lookup-insert, lookup-entries}
use slurm_manager.Base.Result.{ok, err}
use slurm_manager.Future.{UserCallback, done}
use slurm_manager.RedisSub.Indexed.{IsIndexed, find-unsubscribe, lookup-unsubscribe_topic}
use slurm_manager.Tracker.Topics.{job_topic}
use slurm_manager.Tracker.State.{Tracker, Ref, Kwargs, SubscriptionInfo}
use slurm_manager.Tracker.Remove.{remove_subscription_by_topic, forget_all}
use slurm_manager.Tracker.Register.{
  Draw, is_ref, finished_meanwhile, dispatch_of, info_for, place_subscription, finish_subscription,
}

-- The job of a subscription under way: its registry entry is still the same live future.
abbrev pub is_live : Text → Ref → Tracker → Bool
is_live job_id r t = is_ref r (lookup job_id t.future_registry) && not (done (t.futures r))

-- The second part of `add_subscription`, on a tracker whose Redis client satisfies its invariant
-- and where the job is no longer the same live one, raises, takes the callback of the new id back
-- from the client and no other, and leaves the rest of the tracker.
pub finish_subscription-gone :
    (job_id key : Text) (callback : UserCallback) (kwargs : Option Kwargs) (r : Ref) (id : Text)
    (t : Tracker)
    → IsIndexed t.client
    → is_live job_id r t ≡ false
    → let (result, u) = finish_subscription job_id key callback kwargs r id t in
      (result ≡ err (finished_meanwhile job_id))
      × ((s i : Text)
          → find s i u.client.subscriptions_by_topic
            ≡ ite (dec_text i id) none (find s i t.client.subscriptions_by_topic))
      × (u ≡ record t { client = u.client })
unfolding finish_subscription
finish_subscription-gone job_id key callback kwargs r id t inv gone =
    (ground arith, λ s i. ground (arith, find-unsubscribe id t.client inv s i), ground arith)

-- The second part of `add_subscription`, where the registry still has the same future and it is not
-- done, returns the id, registers under it and the topic a subscription with the job's closure,
-- keeps every other registered callback, and does not touch the Redis client.
pub finish_subscription-live :
    (job_id key : Text) (callback : UserCallback) (kwargs : Option Kwargs) (r : Ref) (id : Text)
    (t : Tracker)
    → is_live job_id r t ≡ true
    → let (result, u) = finish_subscription job_id key callback kwargs r id t in
      (result ≡ ok id)
      × ((s i : Text)
          → find s i u.subscriptions_by_topic
            ≡ ite
                (dec_text s (job_topic job_id key))
                (ite
                  (dec_text i id)
                  (some (
                    info_for
                      (job_topic job_id key)
                      job_id
                      (some (t.futures r).slurm_job_id)
                      (some (dispatch_of callback kwargs (t.futures r) job_id))
                      id))
                  (find s i t.subscriptions_by_topic))
                (find s i t.subscriptions_by_topic))
      × (u.client ≡ t.client)
unfolding finish_subscription
finish_subscription-live job_id key callback kwargs r id t live =
    (ground arith, λ s i. grind (arith, lookup-insert, lookup-entries), ground arith)

-- What `forget_all` leaves alone.
forget_all-kept :
    (topic : Text) (callbacks : Dict SubscriptionInfo) (t : Tracker)
    → ((forget_all topic callbacks t).future_registry ≡ t.future_registry)
      × ((forget_all topic callbacks t).futures ≡ t.futures)
      × ((forget_all topic callbacks t).client ≡ t.client)
unfolding forget_all
forget_all-kept topic [] t = (refl, refl, refl)
forget_all-kept topic ((id, info) ∷ callbacks) t = forget_all-kept topic callbacks _

removed_topic :
    (topic : Text) (t : Tracker)
    → let u = remove_subscription_by_topic topic t in
      (u.future_registry ≡ t.future_registry)
      × (u.futures ≡ t.futures)
      × (lookup topic u.client.subscriptions_by_topic ≡ none)
unfolding remove_subscription_by_topic
removed_topic topic t =
    let kept = forget_all-kept topic callbacks popped in
    (
      kept.0,
      kept.1,
      ground
          (arith, lookup-unsubscribe_topic topic topic (forget_all topic callbacks popped).client),
    )
  where
    callbacks : Dict SubscriptionInfo
    callbacks = entries (lookup topic t.subscriptions_by_topic)

    popped : Tracker
    popped = record t { subscriptions_by_topic = erase topic t.subscriptions_by_topic }

-- Where a removal by topic comes between the call of the Redis client and the second locked part of
-- `add_subscription`, for a job that stays live, the registration succeeds and the tracker has the
-- callback, while the client has it no more.
pub finish_subscription_lost :
    (d : Draw) (job_id key : Text) (callback : UserCallback) (kwargs : Option Kwargs) (r : Ref)
    (t : Tracker)
    → is_live job_id r t ≡ true
    → let placed = (place_subscription d job_id key callback kwargs r t).1 in
      let (result, u) =
        finish_subscription job_id key callback kwargs r d.id
          (remove_subscription_by_topic (job_topic job_id key) placed) in
      (result ≡ ok d.id)
      × (find (job_topic job_id key) d.id u.subscriptions_by_topic ≢ none)
      × (find (job_topic job_id key) d.id u.client.subscriptions_by_topic ≡ none)
unfolding place_subscription
finish_subscription_lost d job_id key callback kwargs r t live =
    let placed : Tracker = (place_subscription d job_id key callback kwargs r t).1 in
    let between : Tracker = remove_subscription_by_topic (job_topic job_id key) placed in
    let gone = removed_topic (job_topic job_id key) placed in
    let done_right =
      finish_subscription-live job_id key callback kwargs r d.id between (ground (arith, gone)) in
    (
      done_right.0,
      ground (arith, done_right.1 (job_topic job_id key) d.id),
      ground (arith, done_right.2, gone),
    )
