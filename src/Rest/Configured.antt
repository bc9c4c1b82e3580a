-- ===== src/Rest/Configured.antt =====
-- What a constructed REST client has been checked for.
use slurm_manager.Base.{
  ◌≡◌, ◌≢◌, ℕ, ◌<◌, Bool, true, false, Option, none, some, [], ◌∷◌, ◌++◌, arith, subst, ap, sym,
  ◌∙◌, ◌⊎◌, inl, inr, Bool-cases, is_empty, refl,
}
use mathlib.Core.List.{reverse, reverse-reverse, reverse-append, append-nil}
use slurm_manager.Base.Text.{Text, codes, dec_text}
use slurm_manager.Base.Dict.{Dict}
use slurm_manager.Base.Result.{ok, bind-ok, ok-injective}
use slurm_manager.Rest.{Settings, RestClient, headers}
use slurm_manager.Rest.Connect.{
  Parts, Libraries, is_given, is_web, is_version, strip_slashes, rstrip_slash, split_url,
  skip_digits, after_digits, after_stop, then_digits, is_end, check_parts, check_version,
  check_timeout, version_of, rest_client,
}

strip_slashes-head : (s t : Text) → strip_slashes s ≢ b'/' ∷ t
unfolding strip_slashes
strip_slashes-head [] t e = ground arith
strip_slashes-head (c ∷ s) t e = ground (arith, strip_slashes-head s t)

-- No slash is left at the end.
rstrip_slash-end : (s t : Text) → rstrip_slash s ≢ t ++ b'/' ∷ []
unfolding rstrip_slash
rstrip_slash-end s t e = strip_slashes-head (reverse s) (reverse t) (
    sym (reverse-reverse (strip_slashes (reverse s)))
    ∙ (ap reverse e ∙ reverse-append t (b'/' ∷ [])))

-- An absent text, or one of no characters.
abbrev pub Absent : Option Text → Type 0
Absent o = (o ≡ none) ⊎ (o ≡ some [])

abbrev pub AllDecimal : (ℕ → Bool) → Text → Type 0
AllDecimal is_decimal [] = Unit
AllDecimal is_decimal (c ∷ s) = (is_decimal c ≡ true) × AllDecimal is_decimal s

abbrev pub IsNumber : (ℕ → Bool) → Text → Type 0
IsNumber is_decimal s = (s ≢ []) × AllDecimal is_decimal s

-- A `v` and three numbers with full stops between them.
abbrev pub HasForm : (ℕ → Bool) → Text → Type 0
HasForm is_decimal s =
    (x : Text) × (y : Text) × (z : Text) × IsNumber is_decimal x
    × IsNumber is_decimal y
    × IsNumber is_decimal z
    × (s ≡ b'v' ∷ (x ++ (b'.' ∷ (y ++ (b'.' ∷ z)))))

-- What the fields of a constructed client have been checked for, and its timeout.
pub record IsConfigured (l : Libraries) (timeout : ℕ) (c : RestClient) : Type 0 where
  pub timed : 0 < timeout
  pub no_slash : (t : Text) → c.url ≢ t ++ b'/' ∷ []
  pub web :
      (p : Parts) × (l.urlsplit c.url ≡ some p)
      × ((p.scheme ≡ codes "http") ⊎ (p.scheme ≡ codes "https"))
      × ((host : Text) × (p.hostname ≡ some host) × (host ≢ []))
      × Absent p.username
      × Absent p.password
      × (p.query ≡ [])
      × (p.fragment ≡ [])
  pub version : HasForm l.is_decimal c.api_version
  pub token : c.current.jwt ≢ []

is_web-scheme : (s : Text) → is_web s ≡ true → (s ≡ codes "http") ⊎ (s ≡ codes "https")
is_web-scheme s h = elim (dec_text s (codes "http")) [
  | yes e ↦ inl e
  | no a ↦ elim (dec_text s (codes "https")) [ yes e ↦ inr e | no b ↦ absurd (ground arith) ]
]

given_text : (o : Option Text) → is_given o ≡ true → (s : Text) × (o ≡ some s) × (s ≢ [])
given_text none h = absurd (ground arith)
given_text (some s) h = (s, refl, λ e. ground arith)

not_given : (o : Option Text) → is_given o ≡ false → Absent o
not_given none h = inl refl
not_given (some []) h = inr refl
not_given (some (c ∷ s)) h = absurd (ground arith)

empty_text : (s : Text) → is_empty s ≡ true → s ≡ []
empty_text [] h = refl
empty_text (c ∷ s) h = absurd (ground arith)

check_parts-ok :
    (p : Parts)
    → check_parts p ≡ ok tt
    → ((p.scheme ≡ codes "http") ⊎ (p.scheme ≡ codes "https"))
      × ((host : Text) × (p.hostname ≡ some host) × (host ≢ []))
      × Absent p.username
      × Absent p.password
      × (p.query ≡ [])
      × (p.fragment ≡ [])
unfolding check_parts
check_parts-ok p h = (
  is_web-scheme p.scheme (ground arith),
  given_text p.hostname (ground arith),
  not_given p.username (ground arith),
  not_given p.password (ground arith),
  empty_text p.query (ground arith),
  empty_text p.fragment (ground arith),
)

module _ (is_decimal : ℕ → Bool) where
  skip_digits-split :
      (s : Text) → (x : Text) × AllDecimal is_decimal x × (s ≡ x ++ skip_digits is_decimal s)
  unfolding skip_digits
  skip_digits-split [] = ([], tt, refl)
  skip_digits-split (c ∷ s) = elim (Bool-cases (is_decimal c)) [
    | inl d ↦
        let (x, all, e) = skip_digits-split s in rw d (c ∷ x, (d, all), ap (λ (t : Text). c ∷ t) e)
    | inr d ↦ rw d ([], tt, refl)
  ]

  after_digits-split :
      (s t : Text)
      → after_digits is_decimal s ≡ some t
      → (x : Text) × IsNumber is_decimal x × (s ≡ x ++ t)
  unfolding after_digits
  after_digits-split [] t h = absurd (ground arith)
  after_digits-split (c ∷ s) t h =
      let (x, all, e) = skip_digits-split s in
      let same : skip_digits is_decimal s ≡ t = ground arith in
      (
        c ∷ x,
        ((λ k. ground arith), (ground arith, all)),
        ap (λ (u : Text). c ∷ u) (e ∙ ap (λ (u : Text). x ++ u) same),
      )

  after_stop-split : (o : Option Text) (t : Text) → after_stop o ≡ some t → o ≡ some (b'.' ∷ t)
  after_stop-split none t h = absurd (ground arith)
  after_stop-split (some []) t h = absurd (ground arith)
  after_stop-split (some (c ∷ s)) t h = ground arith

  then_digits-split :
      (o : Option Text) (t : Text)
      → then_digits is_decimal o ≡ some t
      → (s : Text) × (o ≡ some s) × (x : Text) × IsNumber is_decimal x × (s ≡ x ++ t)
  then_digits-split none t h = absurd (ground arith)
  then_digits-split (some s) t h =
      let (x, num, k) = after_digits-split s t h in (s, refl, x, num, k)

  is_end-empty : (o : Option Text) → is_end o ≡ true → o ≡ some []
  is_end-empty none h = absurd (ground arith)
  is_end-empty (some []) h = refl
  is_end-empty (some (c ∷ s)) h = absurd (ground arith)

  is_version-HasForm : (s : Text) → is_version is_decimal s ≡ true → HasForm is_decimal s
  unfolding is_version
  is_version-HasForm [] h = absurd (ground arith)
  is_version-HasForm (c ∷ s) h =
      let first : c ≡ b'v' = ground arith in
      let over = is_end-empty _ (ground arith) in
      let (s1, e1, z, num_z, k1) = then_digits-split _ [] over in
      let e2 = after_stop-split _ s1 e1 in
      let (s2, e3, y, num_y, k2) = then_digits-split _ (b'.' ∷ s1) e2 in
      let e4 = after_stop-split _ s2 e3 in
      let (x, num_x, k3) = after_digits-split s (b'.' ∷ s2) e4 in
      (x, y, z, num_x, num_y, num_z, cc (first, k1, k2, k3, append-nil z))

  check_version-ok : (s : Text) → check_version is_decimal s ≡ ok tt → HasForm is_decimal s
  unfolding check_version
  check_version-ok s h = is_version-HasForm s (ground arith)

check_timeout-ok : (timeout : ℕ) → check_timeout timeout ≡ ok tt → 0 < timeout
unfolding check_timeout
check_timeout-ok timeout h = ground arith

split_url-ok : (o : Option Parts) (p : Parts) → split_url o ≡ ok p → o ≡ some p
split_url-ok none p h = absurd (ground arith)
split_url-ok (some q) p h = ap some (ok-injective q p h)

headers-token : (s : Settings) (h : Dict Text) → headers s ≡ ok h → s.jwt ≢ []
unfolding headers
headers-token s h e = λ k. ground arith

-- A REST client that is constructed has a timeout above zero, a URL with scheme http or https and a
-- host, with neither user name nor password nor query nor fragment and with no slash at its end, an
-- API version of a v and three decimal numbers with full stops between them, and a token that is
-- not empty.
pub rest_client-IsConfigured :
    (l : Libraries) (timeout : ℕ) (s : Settings) (c : RestClient)
    → rest_client l timeout s ≡ ok c
    → IsConfigured l timeout c
unfolding rest_client
rest_client-IsConfigured l timeout s c h =
    let (u, e1, h1) = bind-ok (check_timeout timeout) _ c h in
    let (parts, e2, h2) = bind-ok (split_url (l.urlsplit (rstrip_slash s.rest_url))) _ c h1 in
    let (v, e3, h3) = bind-ok (check_parts parts) _ c h2 in
    let (w, e4, h4) = bind-ok (check_version l.is_decimal (version_of s.rest_api_version)) _ c h3 in
    let (hs, e5, h5) = bind-ok (headers s) _ c h4 in
    subst (IsConfigured l timeout) (ok-injective _ _ h5) (record {
      timed = check_timeout-ok timeout e1;
      no_slash = rstrip_slash-end s.rest_url;
      web =
          let k = check_parts-ok parts e3 in
          (
            parts,
            split_url-ok (l.urlsplit (rstrip_slash s.rest_url)) parts e2,
            k.0,
            k.1,
            k.2,
            k.3,
            k.4,
            k.5,
          );
      version = check_version-ok l.is_decimal (version_of s.rest_api_version) e4;
      token = headers-token s hs e5;
    })
