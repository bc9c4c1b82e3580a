-- ===== src/Tracker/Remove/ById.antt =====
-- `remove_subscription_by_id` takes one callback away and preserves the others.
use slurm_manager.Base.{
  ◌≡◌, refl, ap, ◌∙◌, if◌then◌else◌, ◌≢◌, Option, none, some, List, [], ◌∷◌, arith, ite,
  Option-cases, inl, inr,
}
use slurm_manager.Base.Text.{Text, dec_text}
use slurm_manager.Base.Dict.{
  lookup, find, lookup-insert, lookup-erase, lookup-nil, lookup-entries, has,
}
use slurm_manager.Tracker.State.{Tracker}
use slurm_manager.Tracker.Remove.{remove_one, remove_from, remove_subscription_by_id}

-- The tracker's index of ids has every registered callback.
abbrev pub IdsKnown : Tracker → Type 0
IdsKnown t =
    (topic i : Text)
    → find topic i t.subscriptions_by_topic ≢ none
    → lookup i t.topic_by_subscription_id ≡ some topic

pub find-remove_from :
    (id topic : Text) (t : Tracker)
    → (s i : Text)
    → find s i (remove_from id (some topic) t).subscriptions_by_topic ≡ (
        ite
          (dec_text s topic)
          (ite (dec_text i id) none (find s i t.subscriptions_by_topic))
          (find s i t.subscriptions_by_topic))
find-remove_from id topic t s i =
    grind (arith, lookup-insert, lookup-erase, lookup-nil, lookup-entries)

pub ids-remove_from :
    (id topic : Text) (t : Tracker) (i : Text)
    → lookup i (remove_from id (some topic) t).topic_by_subscription_id
      ≡ ite (dec_text i id) none (lookup i t.topic_by_subscription_id)
ids-remove_from id topic t i = grind (arith, lookup-erase)

globals-remove_from :
    (id topic : Text) (t : Tracker)
    → (remove_from id (some topic) t).global_callbacks ≡ t.global_callbacks
globals-remove_from id topic t = grind arith

pub find-removed :
    (id : Text) (o : Option Text) (t : Tracker)
    → IdsKnown t
    → lookup id t.topic_by_subscription_id ≡ o
    → (s i : Text)
    → find s i (remove_from id o t).subscriptions_by_topic
      ≡ ite (dec_text i id) none (find s i t.subscriptions_by_topic)
find-removed id none t known e s i = elim (Option-cases (find s i t.subscriptions_by_topic)) [
  | inl missing ↦ ground (arith, missing)
  | inr (info, there) ↦ ground (arith, known s i (λ h. cc))
]
find-removed id (some topic) t known e s i =
    elim (Option-cases (find s i t.subscriptions_by_topic)) [
      | inl missing ↦ rw (find-remove_from id topic t s i) (ground (arith, missing))
      | inr (info, there) ↦
          rw (find-remove_from id topic t s i) (ground (arith, known s i (λ h. cc)))
    ]

-- An id that no manager-wide callback has takes its own callback away, on whatever topic, and
-- every other callback stays.
pub find-remove_one :
    (id : Text) (t : Tracker)
    → IdsKnown t
    → lookup id t.global_callbacks ≡ none
    → (s i : Text)
    → find s i (remove_one id t).subscriptions_by_topic
      ≡ ite (dec_text i id) none (find s i t.subscriptions_by_topic)
unfolding remove_one
find-remove_one id t known local s i =
    rw local (find-removed id (lookup id t.topic_by_subscription_id) t known refl s i)

pub ids-removed :
    (id : Text) (o : Option Text) (t : Tracker)
    → lookup id t.topic_by_subscription_id ≡ o
    → (i : Text)
    → lookup i (remove_from id o t).topic_by_subscription_id
      ≡ ite (dec_text i id) none (lookup i t.topic_by_subscription_id)
ids-removed id none t e i = ground arith
ids-removed id (some topic) t e i = ids-remove_from id topic t i

globals-removed :
    (id : Text) (o : Option Text) (t : Tracker)
    → (remove_from id o t).global_callbacks ≡ t.global_callbacks
globals-removed id none t = refl
globals-removed id (some topic) t = globals-remove_from id topic t

pub ids-remove_one :
    (id : Text) (t : Tracker)
    → lookup id t.global_callbacks ≡ none
    → (i : Text)
    → lookup i (remove_one id t).topic_by_subscription_id
      ≡ ite (dec_text i id) none (lookup i t.topic_by_subscription_id)
unfolding remove_one
ids-remove_one id t local i =
    rw local (ids-removed id (lookup id t.topic_by_subscription_id) t refl i)

globals-remove_one :
    (id : Text) (t : Tracker)
    → lookup id t.global_callbacks ≡ none
    → (remove_one id t).global_callbacks ≡ t.global_callbacks
unfolding remove_one
globals-remove_one id t local =
    rw local (globals-removed id (lookup id t.topic_by_subscription_id) t)

remove_one-IdsKnown :
    (id : Text) (t : Tracker)
    → IdsKnown t
    → lookup id t.global_callbacks ≡ none
    → IdsKnown (remove_one id t)
remove_one-IdsKnown id t known local s i h =
    ground (arith, find-remove_one id t known local s i, ids-remove_one id t local i, known s i)

-- No id of the list is a manager-wide callback's.
abbrev pub AllLocal : Tracker → List Text → Type 0
AllLocal t [] = Unit
AllLocal t (id ∷ ids) = (lookup id t.global_callbacks ≡ none) × AllLocal t ids

AllLocal-globals :
    (t u : Tracker) (ids : List Text)
    → u.global_callbacks ≡ t.global_callbacks
    → AllLocal t ids
    → AllLocal u ids
AllLocal-globals t u [] e h = tt
AllLocal-globals t u (id ∷ ids) e h = (ap (lookup id) e ∙ h.0, AllLocal-globals t u ids e h.1)

-- Where the tracker's index has every registered callback and no id of the list is a manager-wide
-- callback's, `remove_subscription_by_id` takes exactly the callbacks of those ids away: the others
-- stay registered, also on the same topic, and so do the manager-wide ones.
pub find-remove_subscription_by_id :
    (ids : List Text) (t : Tracker)
    → IdsKnown t
    → AllLocal t ids
    → (s i : Text)
    → (find s i (remove_subscription_by_id ids t).subscriptions_by_topic
        ≡ (if has i ids then none else find s i t.subscriptions_by_topic))
      × ((remove_subscription_by_id ids t).global_callbacks ≡ t.global_callbacks)
unfolding remove_subscription_by_id
find-remove_subscription_by_id [] t known local s i = (refl, refl)
find-remove_subscription_by_id (id ∷ ids) t known local s i = ground (
  arith,
  find-remove_subscription_by_id ids (remove_one id t) (remove_one-IdsKnown id t known local.0)
      (AllLocal-globals t (remove_one id t) ids (globals-remove_one id t local.0) local.1) s i,
  find-remove_one id t known local.0 s i,
  globals-remove_one id t local.0,
)
