-- ===== src/Tracker/Tracked/Owned.antt =====
-- Which jobs and callbacks an edit of the tracker leaves, and what it adds.
use slurm_manager.Base.{
  Option-cases, ◌≡◌, refl, sym, ap, subst, ◌∙◌, ◌≢◌, true, none, some, List, [], ◌∷◌, ◌++◌, arith,
  ite, ◌⊎◌, inl, inr,
}
use slurm_manager.Base.Text.{Text, dec_text}
use slurm_manager.Base.Dict.{
  Dict, lookup, insert, find, entries, has, lookup-nil, lookup-entries, lookup-insert,
}
use slurm_manager.RedisSub.{Subscription}
use slurm_manager.Future.{JobFuture, done}
use slurm_manager.Tracker.Topics.{job_topic, status_key}
use slurm_manager.Tracker.State.{Ref, Dispatch, Handler, status_monitor, SubscriptionInfo}
use slurm_manager.Tracker.Status.{topics_of}
use slurm_manager.Tracker.Register.{add}
use slurm_manager.Tracker.Tracked.{IsOwned, Calls, IsTopic}

-- A future after a change that leaves its job, its ids and whether it is done.
pub record SameFuture (f g : JobFuture) : Type 0 where
  pub job_id : g.job_id ≡ f.job_id
  pub slurm_job_id : g.slurm_job_id ≡ f.slurm_job_id
  pub still : done g ≡ done f

-- A registered object after an assignment to its heartbeat fields.
pub record SameInfo (a b : SubscriptionInfo) : Type 0 where
  pub topic : b.topic ≡ a.topic
  pub job_id : b.job_id ≡ a.job_id
  pub callback : b.callback ≡ a.callback
  pub callback_id : b.callback_id ≡ a.callback_id

has-snoc :
    (s topic : Text) (topics : List Text)
    → has s (topics ++ topic ∷ []) ≡ ite (dec_text s topic) true (has s topics)
has-snoc s topic [] = refl
has-snoc s topic (x ∷ topics) = ground (arith, has-snoc s topic topics)

has-add :
    (s topic : Text) (topics : List Text)
    → has s (add topic topics) ≡ ite (dec_text s topic) true (has s topics)
has-add s topic topics = ground (arith, has-snoc s topic topics)

-- A callback that is found after an addition is the new one or an old one.
pub find-added :
    (topic id s i : Text) (info b : SubscriptionInfo) (subs : Dict (Dict SubscriptionInfo))
    → find s i (insert topic (insert id info (entries (lookup topic subs))) subs) ≡ some b
    → ((s ≡ topic) × (i ≡ id) × (b ≡ info)) ⊎ ((s ≡ topic → i ≢ id) × (find s i subs ≡ some b))
find-added topic id s i info b subs e = elim (dec_text s topic) [
  | yes here ↦ elim (dec_text i id) [
    | yes same ↦ inl (here, same, grind (arith, lookup-insert))
    | no other ↦ inr (λ k. other, grind (arith, lookup-insert, lookup-entries, lookup-nil))
  ]
  | no there ↦ inr (λ k. absurd (there k), grind (arith, lookup-insert))
]

-- A topic that was active stays so, and the new one is.
pub active-added :
    (topic job_id s j : Text) (active : Dict (List Text))
    → has s (topics_of (lookup j active)) ≡ true
    → has s
        (topics_of (lookup j (insert job_id (add topic (topics_of (lookup job_id active))) active)))
      ≡ true
active-added topic job_id s j active h =
    grind (arith, lookup-insert, has-add s topic (topics_of (lookup job_id active)))

pub active-new :
    (topic job_id : Text) (active : Dict (List Text))
    → has topic (
        topics_of
          (lookup job_id (insert job_id (add topic (topics_of (lookup job_id active))) active)))
      ≡ true
active-new topic job_id active =
    grind (arith, lookup-insert, has-add topic topic (topics_of (lookup job_id active)))

module _ (futures : Ref → JobFuture) (registry : Dict Ref) (subs : Dict (Dict SubscriptionInfo))
    (active : Dict (List Text)) (callbacks : Dict (Dict (Subscription Handler)))
    (inv : IsOwned futures registry subs active callbacks) where
  -- An edit that adds neither jobs nor callbacks, and leaves what a callback that stays relies on.
  pub restrict :
      (futures' : Ref → JobFuture) (registry' : Dict Ref) (subs' : Dict (Dict SubscriptionInfo))
      (active' : Dict (List Text)) (callbacks' : Dict (Dict (Subscription Handler)))
      → ((s i : Text) (h : Subscription Handler)
          → find s i callbacks' ≡ some h
          → find s i callbacks ≡ some h)
      → ((j : Text) (r : Ref)
          → lookup j registry' ≡ some r
          → (lookup j registry ≡ some r) × SameFuture (futures r) (futures' r))
      → ((s i : Text) (b : SubscriptionInfo)
          → find s i subs' ≡ some b
          → (a : SubscriptionInfo) × (find s i subs ≡ some a)
            × SameInfo a b
            × (lookup b.job_id registry' ≢ none)
            × (has s (topics_of (lookup b.job_id active')) ≡ true))
      → IsOwned futures' registry' subs' active' callbacks'
  restrict futures' registry' subs' active' callbacks' heard jobs kept = record {
    live = λ j r e.
        let (there, same) = jobs j r e in
        let l = inv.live j r there in (same.job_id ∙ l.0, same.still ∙ l.1, l.2);
    placed = λ s i b e.
        let (a, there, same, tracked, on) = kept s i b e in
        let p = inv.placed s i a there in
        (
          same.topic ∙ p.0,
          same.callback_id ∙ p.1,
          tracked,
          on,
          subst (IsTopic s) (sym same.job_id) p.4,
        );
    own = λ s i b d r e c k.
        let (a, there, same, tracked, on) = kept s i b e in
        let (reg, fut) = jobs b.job_id r k in
        let o =
          inv.own s i a d r there (sym same.callback ∙ c)
            (ap (λ x. lookup x registry) (sym same.job_id) ∙ reg) in
        (o.0 ∙ sym same.job_id, o.1 ∙ sym fut.slurm_job_id);
    wired = λ s i b d h e c k.
        let (a, there, same, tracked, on) = kept s i b e in
        subst (Calls h.callback d s) (sym same.job_id)
          (inv.wired s i a d h there (sym same.callback ∙ c) (heard s i h k));
    monitored = λ s i b h e c on k.
        let (a, there, same, tracked, act) = kept s i b e in
        let (r, reg, call) =
          inv.monitored s i a h there (sym same.callback ∙ c)
            (on ∙ ap (λ x. job_topic x status_key) same.job_id) (heard s i h k) in
        let reg' = ap (λ x. lookup x registry) same.job_id ∙ reg in
        elim (Option-cases (lookup b.job_id registry')) [
          | inl missing ↦ absurd (tracked missing)
          | inr (q, now) ↦ (r, now ∙ (sym (jobs b.job_id q now).0 ∙ reg'), call)
        ];
  }

  -- A new callback of a tracked job, on one of its topics.
  pub added :
      (topic id : Text) (info : SubscriptionInfo) (r : Ref)
      (callbacks' : Dict (Dict (Subscription Handler))) (new : Handler)
      → ((s i : Text) (h : Subscription Handler)
          → find s i callbacks' ≡ some h
          → (s ≡ topic → i ≡ id → h.callback ≡ new)
            × ((s ≡ topic → i ≢ id) → find s i callbacks ≡ some h))
      → info.topic ≡ topic
      → info.callback_id ≡ some id
      → lookup info.job_id registry ≡ some r
      → IsTopic topic info.job_id
      → ((d : Dispatch)
          → info.callback ≡ some d
          → (d.job_id ≡ info.job_id)
            × (d.slurm_job_id ≡ (futures r).slurm_job_id)
            × Calls new d topic info.job_id)
      → (info.callback ≡ none → topic ≡ job_topic info.job_id status_key → new ≡ status_monitor r)
      → IsOwned futures registry
          (insert topic (insert id info (entries (lookup topic subs))) subs)
          (insert info.job_id (add topic (topics_of (lookup info.job_id active))) active)
          callbacks'
  added topic id info r callbacks' new heard t c reg on closure monitor = record {
    live = inv.live;
    placed = λ s i b e. elim (find-added topic id s i info b subs e) [
      | inl (st, ii, bi) ↦
          rw (st, ii, bi)
            (t, c, λ m. absurd (ground (arith, m)), active-new topic info.job_id active, on)
      | inr old ↦
          let p = inv.placed s i b old.1 in
          (p.0, p.1, p.2, active-added topic info.job_id s b.job_id active p.3, p.4)
    ];
    own = λ s i b d k e cb jr. elim (find-added topic id s i info b subs e) [
      | inl (st, ii, bi) ↦
          let o = closure d (ap (λ (x : SubscriptionInfo). x.callback) (sym bi) ∙ cb) in
          ground (arith, o)
      | inr old ↦ inv.own s i b d k old.1 cb jr
    ];
    wired = λ s i b d h e cb k. elim (find-added topic id s i info b subs e) [
      | inl (st, ii, bi) ↦
          let o = closure d (ap (λ (x : SubscriptionInfo). x.callback) (sym bi) ∙ cb) in
          rw (st, bi, (heard s i h k).0 st ii) o.2
      | inr old ↦ inv.wired s i b d h old.1 cb ((heard s i h k).1 old.0)
    ];
    monitored = λ s i b h e cb at k. elim (find-added topic id s i info b subs e) [
      | inl (st, ii, bi) ↦ (
        r,
        ap (λ (x : SubscriptionInfo). lookup x.job_id registry) bi ∙ reg,
        (heard s i h k).0 st ii
            ∙ monitor (ap (λ (x : SubscriptionInfo). x.callback) (sym bi) ∙ cb)
                (sym st ∙ (at ∙ ap (λ (x : SubscriptionInfo). job_topic x.job_id status_key) bi)),
      )
      | inr old ↦ inv.monitored s i b h old.1 cb at ((heard s i h k).1 old.0)
    ];
  }
