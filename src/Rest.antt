-- ===== src/Rest.antt =====
-- slurm_manager/slurm_rest_client.py: `SlurmRestClient`.
pub mod Requests
pub mod Jobs
pub mod Connect
pub mod Configured
use slurm_manager.Base.{
  ℕ, Bool, true, false, ◌&&◌, ◌||◌, not, Option, none, some, List, [], ◌∷◌, ◌++◌, if◌then◌else◌,
  ◌==◌, is_empty,
}
use slurm_manager.Base.Text.{Text, codes}
use slurm_manager.Base.Dict.{Dict, insert}
use slurm_manager.Base.Result.{Result, ok, err, value_error, slurm_rest_error, ◌>>=◌}
use slurm_manager.Base.Json.{
  Value, null, boolean, num, negsuc, str, array, object, Items, nil, cons, Fields, end, field, get,
  truthy, is_number,
}

-- `INVALID_JOB_ID`
abbrev pub invalid_job_id : ℕ
invalid_job_id = 2017

-- The test of one entry in `_missing_job`.
abbrev pub is_invalid_id : Value → Bool
is_invalid_id null = false
is_invalid_id (boolean b) = false
is_invalid_id (num n) = false
is_invalid_id (negsuc n) = false
is_invalid_id (str s) = false
is_invalid_id (array vs) = false
is_invalid_id (object d) = elim (get (codes "error_number") d) [
  | none ↦ false
  | some v ↦ is_number invalid_job_id v
]

unfoldable pub all_invalid : Items → Bool
unfolding get is_number
all_invalid nil = true
all_invalid (cons v vs) = is_invalid_id v && all_invalid vs

abbrev pub errors_missing : Option Value → Bool
errors_missing (some (array (cons v vs))) = all_invalid (cons v vs)
errors_missing _ = false

-- `_missing_job`
unfoldable pub missing_job : Fields → Bool
unfolding all_invalid
missing_job result = errors_missing (get (codes "errors") result)

-- The settings that `_settings` reads.
pub record Settings : Type 0 where
  pub rest_url : Text
  pub rest_api_version : Text
  pub jwt : Text
  pub user : Text

abbrev or_blank : Option Text → Text
or_blank none = []
or_blank (some s) = s

abbrev override : Option Text → Option Text → Text
override (some s) file = s
override none file = or_blank file

-- `_settings`, from `os.environ` and what `dotenv_values` reads from the file; an entry without a
-- value is absent.
unfoldable pub settings : (Text → Option Text) → (Text → Option Text) → Settings
settings environ dotenv = record {
  rest_url = override (environ (codes "SLURM_REST_URL")) (dotenv (codes "SLURM_REST_URL"));
  rest_api_version =
      override (environ (codes "SLURM_REST_API_VERSION")) (dotenv (codes "SLURM_REST_API_VERSION"));
  jwt = override (environ (codes "SLURM_JWT")) (dotenv (codes "SLURM_JWT"));
  user = override (environ (codes "SLURM_USER")) (dotenv (codes "SLURM_USER"));
}

abbrev user_headers : Text → Dict Text → Dict Text
user_headers [] headers = headers
user_headers (c ∷ name) headers = insert (codes "X-SLURM-USER-NAME") (c ∷ name) headers

abbrev pub token_headers : Text → Text → Result (Dict Text)
token_headers [] user =
    err (value_error (codes "Set SLURM_JWT in the local .env file or environment"))
token_headers (c ∷ token) user = ok (
    user_headers user
      ((codes "X-SLURM-USER-TOKEN", c ∷ token) ∷ (codes "Accept", codes "application/json") ∷ []))

-- `_headers`
unfoldable pub headers : Settings → Result (Dict Text)
headers s = token_headers s.jwt s.user

pub record Request : Type 0 where
  pub method : Text
  pub url : Text
  pub content : Option Text
  pub headers : Dict Text

-- What the opener does with a request: return a body, raise an `HTTPError` whose body can be read
-- or not, or raise one of the transport errors. `_NoRedirect` makes a redirect an `HTTPError`.
pub data Response : Type 0 where
  body : Text → Response
  http_error : ℕ → Option Text → Response
  transport_error : Response

-- The client, and what it uses of other libraries: the opener, `json.loads` with its error, and
-- `json.dumps`. `current` are the settings as they are read for this request.
pub record RestClient : Type 0 where
  pub url : Text
  pub api_version : Text
  pub current : Settings
  pub open_request : Request → Response
  pub json_loads : Text → Option Value
  pub json_dumps : Value → Text
  -- `str.isdigit` of one character.
  pub is_digit : ℕ → Bool
  -- `str(v)`
  pub to_str : Value → Text
  -- The decimal notation of a status code.
  pub decimal : ℕ → Text

abbrev pub rest_failure {ℓ} : {A : Type ℓ} → Text → Result A
rest_failure s = err (slurm_rest_error s)

abbrev pub content_headers : Option Text → Dict Text → Dict Text
content_headers none h = h
content_headers (some content) h = insert (codes "Content-Type") (codes "application/json") h

abbrev pub is_missing_object : Option Value → Bool
is_missing_object (some (object d)) = missing_job d
is_missing_object _ = false

-- `error_body`: what does not parse, or cannot be read, counts as empty.
abbrev pub error_body : RestClient → Option Text → Option Value
error_body c none = some (object end)
error_body c (some raw) = elim (c.json_loads raw) [ none ↦ some (object end) | some v ↦ some v ]

-- The handler of `HTTPError`.
unfoldable pub http_failure : RestClient → Text → Bool → ℕ → Option Text → Result Fields
unfolding missing_job
http_failure c method missing_ok code raw =
    if missing_ok
      && (code == 404 || ((code == 400 || code == 500) && is_missing_object (error_body c raw)))
    then ok end
    else rest_failure
        (codes "Slurm REST " ++ method ++ codes " failed (HTTP " ++ c.decimal code ++ codes ")")

abbrev has_errors : Option Value → Bool
has_errors none = false
has_errors (some v) = truthy v

-- The checks of a decoded response.
unfoldable pub check_object : Bool → Fields → Result Fields
unfolding truthy missing_job
check_object missing_ok d =
    if has_errors (get (codes "errors") d)
    then if missing_ok && missing_job d
      then ok end
      else rest_failure (codes "Slurm REST reported an application error")
    else ok d

abbrev check_value : Bool → Option Value → Result Fields
check_value missing_ok none = rest_failure (codes "Slurm REST returned invalid JSON")
check_value missing_ok (some (object d)) = check_object missing_ok d
check_value missing_ok (some _) = rest_failure (codes "Slurm REST returned an invalid response")

abbrev decode_body : RestClient → Text → Option Value
decode_body c [] = some (object end)
decode_body c (b ∷ raw) = c.json_loads (b ∷ raw)

unfoldable pub handle_response : RestClient → Text → Bool → Response → Result Fields
unfolding http_failure check_object
handle_response c method missing_ok (body raw) = check_value missing_ok (decode_body c raw)
handle_response c method missing_ok (http_error code raw) =
    http_failure c method missing_ok code raw
handle_response c method missing_ok transport_error =
    rest_failure (codes "Slurm REST " ++ method ++ codes " failed (connection or timeout)")

abbrev pub dumped : RestClient → Option Value → Option Text
dumped c none = none
dumped c (some v) = some (c.json_dumps v)

-- The request that `request` sends.
unfoldable pub build_request : RestClient → Text → Text → Option Value → Dict Text → Request
build_request c method path payload h = record {
  method = method;
  url = c.url ++ (codes "/" ++ path);
  content = dumped c payload;
  headers = content_headers (dumped c payload) h;
}

-- `request`
unfoldable pub request : RestClient → Text → Text → Option Value → Bool → Result Fields
request c method path payload missing_ok = do
  h ← headers c.current
  handle_response c method missing_ok (c.open_request (build_request c method path payload h))
