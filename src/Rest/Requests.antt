-- ===== src/Rest/Requests.antt =====
-- What reaches the network, and what comes back as a missing job.
use slurm_manager.Base.{
  ◌≡◌, refl, sym, subst, ap, ◌∙◌, inl, inr, ◌≢◌, Bool, true, Option, none, some, [], ◌∷◌, ◌++◌,
  arith, Option-cases, false, ℕ, ◌↔◌, ◌⊎◌,
}
use slurm_manager.Base.Text.{Text, codes, dec_text}
use slurm_manager.Base.Dict.{Dict, lookup, insert, lookup-insert}
use slurm_manager.Base.Result.{Result, Result-cases, ok, err, value_error}
use slurm_manager.Base.Json.{
  Value, null, boolean, num, negsuc, str, array, object, Items, nil, cons, Fields, end, get,
  is_number,
}
use slurm_manager.Rest.{
  is_invalid_id, all_invalid, errors_missing, missing_job, is_missing_object, error_body,
  RestClient, Request, Response, body, http_error, transport_error, headers, request,
  handle_response, token_headers, build_request,
}

-- Without a token no request is made whatever the method: the error is that of the settings, and
-- the opener's answer plays no part.
pub request_no_token :
    (c : RestClient) (method path : Text) (payload : Option Value) (missing_ok : Bool)
    → c.current.jwt ≡ []
    → request c method path payload missing_ok
      ≡ err (value_error (codes "Set SLURM_JWT in the local .env file or environment"))
unfolding request headers
request_no_token c method path payload missing_ok h = ground arith

-- The value is an object whose error number is 2017, that of an unknown job.
abbrev pub IsUnknown : Value → Type 0
IsUnknown v = (d : Fields) × (v ≡ object d) × (get (codes "error_number") d ≡ some (num 2017))

abbrev pub AllUnknown : Items → Type 0
AllUnknown nil = Unit
AllUnknown (cons v vs) = IsUnknown v × AllUnknown vs

-- The body is an object with a list of errors that is not empty, and all name an unknown job.
abbrev pub NamesUnknown : Option Value → Type 0
NamesUnknown o =
    (d : Fields) × (v : Value) × (vs : Items) × (o ≡ some (object d))
    × (get (codes "errors") d ≡ some (array (cons v vs)))
    × AllUnknown (cons v vs)

is_number-num : (v : Value) → is_number 2017 v ≡ true → v ≡ num 2017
unfolding is_number
is_number-num (num n) h = ground arith
is_number-num null h = absurd (ground arith)
is_number-num (boolean true) h = absurd (ground arith)
is_number-num (boolean false) h = absurd (ground arith)
is_number-num (negsuc n) h = absurd (ground arith)
is_number-num (str s) h = absurd (ground arith)
is_number-num (array vs) h = absurd (ground arith)
is_number-num (object d) h = absurd (ground arith)

is_invalid_id-IsUnknown : (v : Value) → is_invalid_id v ≡ true → IsUnknown v
is_invalid_id-IsUnknown (object d) h = elim (Option-cases (get (codes "error_number") d)) [
  | inl absent ↦ absurd (ground (arith, absent))
  | inr (n, there) ↦
      (d, refl, there ∙ ap (λ (x : Value). some x) (is_number-num n (ground (arith, there))))
]
is_invalid_id-IsUnknown null h = absurd (ground arith)
is_invalid_id-IsUnknown (boolean b) h = absurd (ground arith)
is_invalid_id-IsUnknown (num n) h = absurd (ground arith)
is_invalid_id-IsUnknown (negsuc n) h = absurd (ground arith)
is_invalid_id-IsUnknown (str s) h = absurd (ground arith)
is_invalid_id-IsUnknown (array vs) h = absurd (ground arith)

unknown_id : (v : Value) → IsUnknown v → is_invalid_id v ≡ true
unfolding is_number
unknown_id v (d, e, n) = subst (λ x. is_invalid_id x ≡ true) (sym e) (ground (arith, n))

all_invalid-AllUnknown : (vs : Items) → all_invalid vs ≡ true → AllUnknown vs
unfolding all_invalid
all_invalid-AllUnknown nil h = tt
all_invalid-AllUnknown (cons v vs) h =
    (is_invalid_id-IsUnknown v (ground arith), all_invalid-AllUnknown vs (ground arith))

unknown_ids : (vs : Items) → AllUnknown vs → all_invalid vs ≡ true
unfolding all_invalid
unknown_ids nil h = refl
unknown_ids (cons v vs) h = ground (arith, unknown_id v h.0, unknown_ids vs h.1)

errors_missing-AllUnknown :
    (o : Option Value)
    → errors_missing o ≡ true
    → (v : Value) × (vs : Items) × (o ≡ some (array (cons v vs))) × AllUnknown (cons v vs)
errors_missing-AllUnknown (some (array (cons v vs))) h =
    (v, vs, refl, all_invalid-AllUnknown (cons v vs) h)
errors_missing-AllUnknown (some (array nil)) h = absurd (ground arith)
errors_missing-AllUnknown none h = absurd (ground arith)
errors_missing-AllUnknown (some null) h = absurd (ground arith)
errors_missing-AllUnknown (some (boolean b)) h = absurd (ground arith)
errors_missing-AllUnknown (some (num n)) h = absurd (ground arith)
errors_missing-AllUnknown (some (negsuc n)) h = absurd (ground arith)
errors_missing-AllUnknown (some (str s)) h = absurd (ground arith)
errors_missing-AllUnknown (some (object d)) h = absurd (ground arith)

is_missing_object-NamesUnknown : (o : Option Value) → is_missing_object o ≡ true → NamesUnknown o
unfolding missing_job
is_missing_object-NamesUnknown (some (object d)) h =
    let (v, vs, e, all) = errors_missing-AllUnknown (get (codes "errors") d) h in
    (d, v, vs, refl, e, all)
is_missing_object-NamesUnknown none h = absurd (ground arith)
is_missing_object-NamesUnknown (some null) h = absurd (ground arith)
is_missing_object-NamesUnknown (some (boolean b)) h = absurd (ground arith)
is_missing_object-NamesUnknown (some (num n)) h = absurd (ground arith)
is_missing_object-NamesUnknown (some (negsuc n)) h = absurd (ground arith)
is_missing_object-NamesUnknown (some (str s)) h = absurd (ground arith)
is_missing_object-NamesUnknown (some (array vs)) h = absurd (ground arith)

unknown_object : (o : Option Value) → NamesUnknown o → is_missing_object o ≡ true
unfolding missing_job
unknown_object o (d, v, vs, e, k, all) = rw (e, k) (unknown_ids (cons v vs) all)

-- An HTTP error gives an object exactly when the caller allows a missing job and the status is 404,
-- or it is 400 or 500 and the body is an object whose errors are a list that is not empty, of
-- objects that all have the error number 2017; the object that is given is then empty.
pub http_error_missing :
    (c : RestClient) (method : Text) (missing_ok : Bool) (code : ℕ) (raw : Option Text) (d : Fields)
    → (handle_response c method missing_ok (http_error code raw) ≡ ok d) ↔ (
        (missing_ok ≡ true)
        × (d ≡ end)
        × ((code ≡ 404) ⊎ (((code ≡ 400) ⊎ (code ≡ 500)) × NamesUnknown (error_body c raw))))
unfolding handle_response
http_error_missing c method missing_ok code raw d = (
  λ h. let named = is_missing_object-NamesUnknown (error_body c raw) in ground (arith, named),
  λ h. let counts = unknown_object (error_body c raw) in ground (arith, counts),
)

-- A request as the server must see it: with the caller's token, which is not empty, and below the
-- configured service.
pub record IsAuthorized (c : RestClient) (q : Request) : Type 0 where
  pub token : lookup (codes "X-SLURM-USER-TOKEN") q.headers ≡ some c.current.jwt
  pub token_set : c.current.jwt ≢ []
  pub below : (path : Text) × (q.url ≡ c.url ++ (codes "/" ++ path))

abbrev header_of : Result (Dict Text) → Option Text
header_of (err e) = none
header_of (ok h) = lookup (codes "X-SLURM-USER-TOKEN") h

token_header :
    (token user : Text) (h : Dict Text)
    → token_headers token user ≡ ok h
    → (lookup (codes "X-SLURM-USER-TOKEN") h ≡ some token) × (token ≢ [])
unfolding lookup insert dec_text
token_header [] user h e = absurd (ground arith)
token_header (c ∷ token) [] h e = (subst (λ r. header_of r ≡ some (c ∷ token)) e refl, λ k. cc)
token_header (c ∷ token) (x ∷ user) h e =
    (subst (λ r. header_of r ≡ some (c ∷ token)) e refl, λ k. cc)

handle_response-open :
    (c : RestClient) (other : Request → Response) (method : Text) (missing_ok : Bool) (r : Response)
    → handle_response (record c { open_request = other }) method missing_ok r
      ≡ handle_response c method missing_ok r
unfolding handle_response
handle_response-open c other method missing_ok (body []) = refl
handle_response-open c other method missing_ok (body (b ∷ raw)) = refl
handle_response-open c other method missing_ok (http_error code none) = refl
handle_response-open c other method missing_ok (http_error code (some raw)) = refl
handle_response-open c other method missing_ok transport_error = refl

built :
    (c : RestClient) (method path : Text) (payload : Option Value) (h : Dict Text)
    → headers c.current ≡ ok h
    → IsAuthorized c (build_request c method path payload h)
unfolding build_request headers dec_text
built c method path none h e =
    let k = token_header c.current.jwt c.current.user h e in
    record { token = k.0; token_set = k.1; below = (path, refl) }
built c method path (some v) h e =
    let k = token_header c.current.jwt c.current.user h e in
    record { token = simp lookup-insert k.0; token_set = k.1; below = (path, refl) }

-- What `request` returns depends only on the opener's answers to authorized requests: those that
-- carry the configured token, which is not empty, and whose URL is below the configured service.
pub request_authorized :
    (c : RestClient) (other : Request → Response) (method path : Text) (payload : Option Value)
    (missing_ok : Bool)
    → ((q : Request) → IsAuthorized c q → other q ≡ c.open_request q)
    → request (record c { open_request = other }) method path payload missing_ok
      ≡ request c method path payload missing_ok
unfolding request build_request
request_authorized c other method path payload missing_ok agree =
    elim (Result-cases (headers c.current)) [
      | inl (h, e) ↦ rw e (
          handle_response-open c other method missing_ok
            (other (build_request c method path payload h))
          ∙ ap (handle_response c method missing_ok)
              (agree (build_request c method path payload h) (built c method path payload h e)))
      | inr (x, e) ↦ rw e refl
    ]
