-- ===== src/Tracker/Topics/Distinct.antt =====
-- Different jobs and events have different channels.
use mathlib.Core.Path.{◌≡◌}
use slurm_manager.Base.{ℕ, [], ◌∷◌, ◌++◌, arith}
use slurm_manager.Base.Text.{Text, Free}
use slurm_manager.Tracker.Topics.{topic, job_topic}

not-Free : (sep : ℕ) (a b : Text) → Free sep (a ++ sep ∷ b) → ⊥
not-Free sep [] b h = ground arith
not-Free sep (c ∷ a) b h = not-Free sep a b h.1

-- The text before the first separator, and what follows it, are determined.
split_unique :
    (sep : ℕ) (a b c d : Text)
    → Free sep a
    → Free sep c
    → a ++ sep ∷ b ≡ c ++ sep ∷ d
    → (a ≡ c) × (b ≡ d)
split_unique sep [] b [] d f g e = ground arith
split_unique sep [] b (y ∷ c) d f g e = ground arith
split_unique sep (x ∷ a) b [] d f g e = ground arith
split_unique sep (x ∷ a) b (y ∷ c) d f g e = ground (arith, split_unique sep a b c d f.1 g.1)

-- For job ids without a slash, equal topics have the same job and the same event, whatever the
-- events.
pub job_topic-injective :
    (j k v w : Text) → Free b'/' j → Free b'/' k → job_topic j v ≡ job_topic k w → (j ≡ k) × (v ≡ w)
unfolding topic
job_topic-injective j k v w f g e = split_unique b'/' j v k w f g (cc)
