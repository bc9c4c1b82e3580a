-- ===== src/Tracker/Monitor/Missing.antt =====
-- `get_missing_heartbeats` selects exactly the stale subscriptions whose check is due.
use slurm_manager.Base.{
  ℕ, ◌+◌, ◌<◌, ◌≡◌, refl, ◌↔◌, inl, inr, true, Option, none, some, List, [], ◌∷◌, arith, Bool-cases,
  In, In-append_split, In-append_left, In-append_right, subst,
}
use mathlib.Core.Path.{subst⁻¹}
use slurm_manager.Base.Text.{Text}
use slurm_manager.Base.Dict.{Dict, lookup, entries, values, has}
use slurm_manager.Tracker.Topics.{job_topic, heartbeat_key}
use slurm_manager.Tracker.State.{Tracker, SubscriptionInfo}
use slurm_manager.Tracker.Monitor.{
  heartbeat_timeout, is_missing, missing_in, missing_over, missing_of, get_missing_heartbeats,
}

-- The heartbeat came more than the timeout ago, at a time that is not 0, and no scheduler check
-- was made since the same time ago.
abbrev pub IsDue : ℕ → SubscriptionInfo → Type 0
IsDue now info =
    ((last : ℕ) × (info.last_heartbeat ≡ some last) × (0 < last) × (last + heartbeat_timeout < now))
    × ((check : ℕ) → info.last_scheduler_check ≡ some check → check + heartbeat_timeout < now)

is_missing→IsDue : (now : ℕ) (info : SubscriptionInfo) → is_missing now info ≡ true → IsDue now info
is_missing→IsDue now info h = by_fields info.last_heartbeat info.last_scheduler_check refl refl
  where
    by_fields :
        (beat check : Option ℕ)
        → info.last_heartbeat ≡ beat
        → info.last_scheduler_check ≡ check
        → IsDue now info
    by_fields none check p q = ground arith
    by_fields (some last) none p q =
        ((last, p, ground arith, ground arith), λ check e. ground arith)
    by_fields (some last) (some at) p q =
        ((last, p, ground arith, ground arith), λ check e. ground arith)

IsDue→is_missing : (now : ℕ) (info : SubscriptionInfo) → IsDue now info → is_missing now info ≡ true
IsDue→is_missing now info ((last, e, pos, late), checks) = by_check info.last_scheduler_check refl
  where
    by_check : (check : Option ℕ) → info.last_scheduler_check ≡ check → is_missing now info ≡ true
    by_check none q = ground arith
    by_check (some at) q = ground (arith, checks at q)

missing_in_sound :
    (now : ℕ) (info : SubscriptionInfo) (infos : List SubscriptionInfo)
    → In info (missing_in now infos)
    → In info infos × (is_missing now info ≡ true)
unfolding missing_in
missing_in_sound now info [] h = absurd h
missing_in_sound now info (x ∷ infos) h = elim (Bool-cases (is_missing now x)) [
  | inl hit ↦ elim (rw hit at h) [
    | inl same ↦ (inl same, subst⁻¹ (λ y. is_missing now y ≡ true) same hit)
    | inr k ↦ (inr (missing_in_sound now info infos k).0, (missing_in_sound now info infos k).1)
  ]
  | inr miss ↦ (
    inr (missing_in_sound now info infos (rw miss at h)).0,
    (missing_in_sound now info infos (rw miss at h)).1,
  )
]

missing_in_complete :
    (now : ℕ) (info : SubscriptionInfo) (infos : List SubscriptionInfo)
    → In info infos
    → is_missing now info ≡ true
    → In info (missing_in now infos)
unfolding missing_in
missing_in_complete now info [] h e = absurd h
missing_in_complete now info (x ∷ infos) (inl same) e =
    let hit : is_missing now x ≡ true = subst (λ y. is_missing now y ≡ true) same e in
    rw hit (inl same)
missing_in_complete now info (x ∷ infos) (inr h) e = elim (Bool-cases (is_missing now x)) [
  | inl hit ↦ rw hit (inr (missing_in_complete now info infos h e))
  | inr miss ↦ rw miss (missing_in_complete now info infos h e)
]

-- The subscription belongs to a job with an active heartbeat topic, and is registered on it.
abbrev pub IsWatched : Tracker → Dict (List Text) → SubscriptionInfo → Type 0
IsWatched t active info =
    (job_id : Text) × (topics : List Text) × In (job_id, topics) active
    × (has (job_topic job_id heartbeat_key) topics ≡ true)
    × In info (values (entries (lookup (job_topic job_id heartbeat_key) t.subscriptions_by_topic)))

missing_over_sound :
    (now : ℕ) (active : Dict (List Text)) (t : Tracker) (info : SubscriptionInfo)
    → In info (missing_over now active t)
    → IsWatched t active info × IsDue now info
unfolding missing_over
missing_over_sound now [] t info h = absurd h
missing_over_sound now ((job_id, topics) ∷ active) t info h =
    elim (In-append_split info (missing_of now job_id topics t) (missing_over now active t) h) [
      | inl k ↦ elim (Bool-cases (has (job_topic job_id heartbeat_key) topics)) [
        | inl on ↦
            let m = missing_in_sound now info _ (rw on at k) in
            ((job_id, topics, inl refl, on, m.0), is_missing→IsDue now info m.1)
        | inr off ↦ absurd (rw off at k)
      ]
      | inr k ↦
          let m = missing_over_sound now active t info k in
          ((m.0.0, m.0.1, inr m.0.2, m.0.3, m.0.4), m.1)
    ]

missing_over_complete :
    (now : ℕ) (active : Dict (List Text)) (t : Tracker) (info : SubscriptionInfo)
    → IsWatched t active info
    → IsDue now info
    → In info (missing_over now active t)
unfolding missing_over
missing_over_complete now [] t info (j, ts, at, on, there) due = absurd at
missing_over_complete now ((job_id, topics) ∷ active) t info (j, ts, inr at, on, there) due =
    In-append_right info (missing_of now job_id topics t) (missing_over now active t)
      (missing_over_complete now active t info (j, ts, at, on, there) due)
missing_over_complete now ((job_id, topics) ∷ active) t info (j, ts, inl same, on, there) due =
    In-append_left info (missing_of now job_id topics t) (missing_over now active t) (
      subst (λ (e : Text × List Text). In info (missing_of now e.0 e.1 t)) same
        (rw on (missing_in_complete now info _ there (IsDue→is_missing now info due))))

-- `get_missing_heartbeats` reports a subscription exactly when it is registered on the active
-- heartbeat topic of a job, its last heartbeat is known, not at time 0 and more than ten seconds
-- ago, and no scheduler check of it was made within ten seconds.
pub get_missing_heartbeats_iff :
    (now : ℕ) (t : Tracker) (info : SubscriptionInfo)
    → In info (get_missing_heartbeats now t)
      ↔ (IsWatched t t.active_subscriptions info × IsDue now info)
unfolding get_missing_heartbeats
get_missing_heartbeats_iff now t info = (
  missing_over_sound now t.active_subscriptions t info,
  λ h. missing_over_complete now t.active_subscriptions t info h.0 h.1,
)
