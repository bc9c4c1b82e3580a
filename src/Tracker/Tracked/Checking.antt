-- ===== src/Tracker/Tracked/Checking.antt =====
-- Scheduler checks keep the tracker's invariant.
use slurm_manager.Base.{
  ℕ, ◌≡◌, refl, sym, ap, subst, ◌∙◌, Option, none, some, [], ◌∷◌, arith, inl, inr, Bool-cases,
  is_some, if_pos, if_neg,
}
use slurm_manager.Base.Text.{Text, dec_text}
use slurm_manager.Tracker.Status.{topics_of}
use slurm_manager.Base.Dict.{has, Dict, lookup, insert, find, entries, lookup-insert}
use slurm_manager.Base.Unique.{Unique}
use slurm_manager.Future.{done}
use slurm_manager.Tracker.Topics.{job_topic, heartbeat_key}
use slurm_manager.Tracker.State.{Tracker, Ref, SubscriptionInfo}
use slurm_manager.Tracker.Monitor.{
  checked, check_all, check_topic, begin_check, begin_scheduler_check,
}
use slurm_manager.Tracker.Tracked.{IsTracked}
use slurm_manager.Tracker.Tracked.Owned.{SameInfo, restrict}
use slurm_manager.Tracker.Tracked.Ending.{same_future, same_info}

-- The objects of a topic after a check has been noted in each.
check_all-some :
    (now : ℕ) (i : Text) (d : Dict SubscriptionInfo)
    → is_some (lookup i (check_all now d)) ≡ is_some (lookup i d)
unfolding check_all lookup
check_all-some now i [] = refl
check_all-some now i ((k, info) ∷ d) = ground (arith, check_all-some now i d)

checked-SameInfo :
    (now : ℕ) (o : Option ℕ) (info : SubscriptionInfo) → SameInfo info (checked now o info)
checked-SameInfo now none info = same_info info
checked-SameInfo now (some last) info = record {
  topic = refl;
  job_id = refl;
  callback = refl;
  callback_id = refl;
}

check_all-SameInfo :
    (now : ℕ) (i : Text) (b : SubscriptionInfo) (d : Dict SubscriptionInfo)
    → lookup i (check_all now d) ≡ some b
    → (a : SubscriptionInfo) × (lookup i d ≡ some a) × SameInfo a b
unfolding check_all lookup
check_all-SameInfo now i b [] e = absurd (ground arith)
check_all-SameInfo now i b ((k, info) ∷ d) e = elim (dec_text i k) [
  | yes here ↦ (
    info,
    rw (if_pos _ here) refl,
    subst (SameInfo info) (ground arith) (checked-SameInfo now info.last_heartbeat info),
  )
  | no other ↦
      let r = check_all-SameInfo now i b d (ground arith) in (r.0, rw (if_neg _ other) r.1, r.2)
]

check_all-Unique : (now : ℕ) (d : Dict SubscriptionInfo) → Unique d → Unique (check_all now d)
unfolding check_all
check_all-Unique now [] u = tt
check_all-Unique now ((k, info) ∷ d) u =
    (ground (arith, u.0, check_all-some now k d), check_all-Unique now d u.1)

module _ (now : ℕ) (topic : Text) (infos : Dict SubscriptionInfo) (t : Tracker) (inv : IsTracked t)
    (there : lookup topic t.subscriptions_by_topic ≡ some infos) where
  after : Dict (Dict SubscriptionInfo)
  after = insert topic (check_all now infos) t.subscriptions_by_topic

  -- The callbacks are found where they were found before.
  found_as : (s i : Text) → is_some (find s i after) ≡ is_some (find s i t.subscriptions_by_topic)
  unfolding after
  found_as s i = ground (
    arith,
    lookup-insert s topic (check_all now infos) t.subscriptions_by_topic,
    check_all-some now i infos,
  )

  found_before :
      (s i : Text) (b : SubscriptionInfo)
      → find s i after ≡ some b
      → (a : SubscriptionInfo) × (find s i t.subscriptions_by_topic ≡ some a) × SameInfo a b
  unfolding after
  found_before s i b e = elim (dec_text s topic) [
    | yes here ↦
        let r =
          check_all-SameInfo now i b infos (
            ground (arith, lookup-insert s topic (check_all now infos) t.subscriptions_by_topic)) in
        (r.0, rw (here, there) r.1, r.2)
    | no other ↦ (
      b,
      ground (arith, lookup-insert s topic (check_all now infos) t.subscriptions_by_topic),
      same_info b,
    )
  ]

  after-Unique : (s : Text) → Unique (entries (lookup s after))
  unfolding after
  after-Unique s = ground (
    arith,
    lookup-insert s topic (check_all now infos) t.subscriptions_by_topic,
    check_all-Unique now infos (subst (λ o. Unique (entries o)) there (inv.synced.unique topic)),
    inv.synced.unique s,
  )

  checked-IsTracked : IsTracked (record t { subscriptions_by_topic = after })
  checked-IsTracked = record {
    opened = inv.opened;
    synced = record {
      client = inv.synced.client;
      unique = after-Unique;
      known = λ s i k. ground (arith, found_as s i, inv.synced.known s i);
      indexed = λ i s k. ground (arith, found_as s i, inv.synced.indexed i s);
      same = λ s i. inv.synced.same s i ∙ sym (found_as s i);
    };
    owned =
        restrict t.futures t.future_registry t.subscriptions_by_topic t.active_subscriptions
          t.client.subscriptions_by_topic inv.owned t.futures t.future_registry after
          t.active_subscriptions t.client.subscriptions_by_topic (λ s i h e. e)
          (λ j r e. (e, same_future (t.futures r)))
          (λ s i b e.
            let (a, old, same) = found_before s i b e in
            let p = inv.owned.placed s i a old in
            (
              a,
              old,
              same,
              λ missing. p.2 (ap (λ x. lookup x t.future_registry) (sym same.job_id) ∙ missing),
              ap (λ x. has s (topics_of (lookup x t.active_subscriptions))) same.job_id ∙ p.3,
            ));
  }

topic-IsTracked :
    (now : ℕ) (topic : Text) (o : Option (Dict SubscriptionInfo)) (t : Tracker)
    → IsTracked t
    → lookup topic t.subscriptions_by_topic ≡ o
    → IsTracked (check_topic now topic o t)
unfolding after
topic-IsTracked now topic none t inv e = inv
topic-IsTracked now topic (some infos) t inv e = checked-IsTracked now topic infos t inv e

check-IsTracked :
    (now : ℕ) (job_id : Text) (o : Option Ref) (t : Tracker)
    → IsTracked t
    → IsTracked (begin_check now job_id o t).1
check-IsTracked now job_id none t inv = inv
check-IsTracked now job_id (some r) t inv = elim (Bool-cases (done (t.futures r))) [
  | inl over ↦ rw over inv
  | inr live ↦ rw live (
      topic-IsTracked now (job_topic job_id heartbeat_key)
        (lookup (job_topic job_id heartbeat_key) t.subscriptions_by_topic) t inv refl)
]

pub begin_scheduler_check-IsTracked :
    (now : ℕ) (job_id : Text) (t : Tracker)
    → IsTracked t
    → IsTracked (begin_scheduler_check now job_id t).1
unfolding begin_scheduler_check
begin_scheduler_check-IsTracked now job_id t inv =
    check-IsTracked now job_id (lookup job_id t.future_registry) t inv
