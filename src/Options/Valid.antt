-- ===== src/Options/Valid.antt =====
-- What validated options have in common.
use slurm_manager.Base.{
  ◌≡◌, refl, ℕ, ◌<◌, true, false, ◌⊎◌, inl, inr, Option, none, some, [], ◌∷◌, arith, subst,
  is_empty, Bool,
}
use slurm_manager.Base.Text.{Text, codes, dec_text}
use slurm_manager.Base.Result.{ok, bind-ok, ok-injective}
use slurm_manager.Options.{
  JobOptions, non_empty, is_partition, known_partition, positive, positive_or_none, validate,
}

-- What is known of `strip_whitespace`: a stripped text does not begin with white space.
abbrev pub Strips : (ℕ → Bool) → (Text → Text) → Type 0
Strips is_space trim = (s : Text) (c : ℕ) (t : Text) → trim s ≡ c ∷ t → is_space c ≡ false

-- A text that was given is kept, stripped, and has a character that is not white space.
abbrev pub Stripped : (ℕ → Bool) → (Text → Text) → Option Text → Option Text → Type 0
Stripped is_space trim given kept =
    (given ≡ none → kept ≡ none)
    × ((s : Text)
        → given ≡ some s
        → (kept ≡ some (trim s)) × (c : ℕ) × (t : Text) × (trim s ≡ c ∷ t) × (is_space c ≡ false))

-- One of the four partitions.
abbrev pub IsKnown : Text → Type 0
IsKnown p = (p ≡ codes "hour") ⊎ ((p ≡ codes "day") ⊎ ((p ≡ codes "week") ⊎ (p ≡ codes "gpu")))

-- The options `p` that validation makes of `o`.
pub record IsValid (is_space : ℕ → Bool) (trim : Text → Text) (o p : JobOptions) : Type 0 where
  pub name : Stripped is_space trim o.name p.name
  pub account : Stripped is_space trim o.account p.account
  pub qos : Stripped is_space trim o.qos p.qos
  pub out : Stripped is_space trim o.standard_output p.standard_output
  pub error : Stripped is_space trim o.standard_error p.standard_error
  pub partition : (p.partition ≡ o.partition) × ((s : Text) → o.partition ≡ some s → IsKnown s)
  pub tasks : (p.tasks ≡ o.tasks) × (0 < o.tasks)
  pub limit :
      (p.time_limit_minutes ≡ o.time_limit_minutes)
      × ((n : ℕ) → o.time_limit_minutes ≡ some n → 0 < n)

stripped_text :
    (is_space : ℕ → Bool) (u : Text)
    → ((c : ℕ) (t : Text) → u ≡ c ∷ t → is_space c ≡ false)
    → is_empty u ≡ false
    → (c : ℕ) × (t : Text) × (u ≡ c ∷ t) × (is_space c ≡ false)
stripped_text is_space [] strips h = absurd (ground arith)
stripped_text is_space (c ∷ t) strips h = (c, t, refl, strips c t refl)

non_empty-Stripped :
    (is_space : ℕ → Bool) (trim : Text → Text) (o p : Option Text)
    → Strips is_space trim
    → non_empty trim o ≡ ok p
    → Stripped is_space trim o p
unfolding non_empty
non_empty-Stripped is_space trim none p strips h = (λ e. ground arith, λ s e. absurd (ground arith))
non_empty-Stripped is_space trim (some s) p strips h = (
  λ e. absurd (ground arith),
  λ u e.
      let same : s ≡ u = ground arith in
      let (c, t, k, l) = stripped_text is_space (trim u) (strips u) (ground (arith, same)) in
      (ground (arith, same), c, t, k, l),
)

is_partition-IsKnown : (p : Text) → is_partition p ≡ true → IsKnown p
is_partition-IsKnown p h = elim (dec_text p (codes "hour")) [
  | yes e ↦ inl e
  | no a ↦ elim (dec_text p (codes "day")) [
    | yes e ↦ inr (inl e)
    | no b ↦ elim (dec_text p (codes "week")) [
      | yes e ↦ inr (inr (inl e))
      | no c ↦ elim (dec_text p (codes "gpu")) [
        | yes e ↦ inr (inr (inr e))
        | no d ↦ absurd (ground arith)
      ]
    ]
  ]
]

known_partition-IsKnown :
    (o p : Option Text) → known_partition o ≡ ok p → (p ≡ o) × ((s : Text) → o ≡ some s → IsKnown s)
unfolding known_partition
known_partition-IsKnown none p h = (ground arith, λ s e. absurd (ground arith))
known_partition-IsKnown (some q) p h = (ground arith, λ s e. is_partition-IsKnown s (ground arith))

positive_lem : (n m : ℕ) → positive n ≡ ok m → (m ≡ n) × (0 < n)
unfolding positive
positive_lem n m h = (ground arith, ground arith)

positive_or_none_lem :
    (o p : Option ℕ) → positive_or_none o ≡ ok p → (p ≡ o) × ((n : ℕ) → o ≡ some n → 0 < n)
unfolding positive_or_none positive
positive_or_none_lem none p h = (ground arith, λ n e. absurd (ground arith))
positive_or_none_lem (some m) p h = (ground arith, λ n e. ground arith)

-- Where stripping leaves no white space at the beginning, options that validation accepts keep each
-- text that is given, stripped and with a character that is not white space, and keep the
-- partition, the tasks and the time limit as given: one of the partitions hour, day, week and gpu
-- if any, at least one task, and at least one minute if any limit.
pub validate-IsValid :
    (is_space : ℕ → Bool) (trim : Text → Text) (o p : JobOptions)
    → Strips is_space trim
    → validate trim o ≡ ok p
    → IsValid is_space trim o p
unfolding validate
validate-IsValid is_space trim o p strips h =
    let (name, e1, h1) = bind-ok (non_empty trim o.name) _ p h in
    let (partition, e2, h2) = bind-ok (known_partition o.partition) _ p h1 in
    let (account, e3, h3) = bind-ok (non_empty trim o.account) _ p h2 in
    let (qos, e4, h4) = bind-ok (non_empty trim o.qos) _ p h3 in
    let (tasks, e5, h5) = bind-ok (positive o.tasks) _ p h4 in
    let (limit, e6, h6) = bind-ok (positive_or_none o.time_limit_minutes) _ p h5 in
    let (out, e7, h7) = bind-ok (non_empty trim o.standard_output) _ p h6 in
    let (error, e8, h8) = bind-ok (non_empty trim o.standard_error) _ p h7 in
    subst (IsValid is_space trim o) (ok-injective _ _ h8) (record {
      name = non_empty-Stripped is_space trim o.name name strips e1;
      partition = known_partition-IsKnown o.partition partition e2;
      account = non_empty-Stripped is_space trim o.account account strips e3;
      qos = non_empty-Stripped is_space trim o.qos qos strips e4;
      tasks = positive_lem o.tasks tasks e5;
      limit = positive_or_none_lem o.time_limit_minutes limit e6;
      out = non_empty-Stripped is_space trim o.standard_output out strips e7;
      error = non_empty-Stripped is_space trim o.standard_error error strips e8;
    })
