-- ===== src/Rest/Connect.antt =====
-- The constructor of `SlurmRestClient`, which validates its settings.
use slurm_manager.Base.{
  ℕ, Bool, true, false, ◌||◌, not, Option, none, some, [], ◌∷◌, ◌==◌, if◌then◌else◌, is_empty,
}
use mathlib.Core.List.{reverse}
use slurm_manager.Base.Text.{Text, codes}
use slurm_manager.Base.Dict.{has}
use slurm_manager.Base.Result.{Result, ok, err, value_error, ◌>>=◌}
use slurm_manager.Base.Json.{Value}
use slurm_manager.Rest.{Settings, Request, Response, RestClient, headers}

unfoldable pub strip_slashes : Text → Text
strip_slashes [] = []
strip_slashes (c ∷ s) = let rest = strip_slashes s in if c == b'/' then rest else c ∷ s

-- `s.rstrip("/")`
unfoldable pub rstrip_slash : Text → Text
unfolding strip_slashes
rstrip_slash s = reverse (strip_slashes (reverse s))

-- The parts of `urlsplit` that are read; an absent one is none.
pub record Parts : Type 0 where
  pub scheme : Text
  pub hostname : Option Text
  pub username : Option Text
  pub password : Option Text
  pub query : Text
  pub fragment : Text

-- The truth value of a text or None.
abbrev pub is_given : Option Text → Bool
is_given none = false
is_given (some s) = not (is_empty s)

-- Where a match of `\d+` ends: the part after the longest run of digits, if there is a digit. A
-- full stop, which follows in the pattern, is no digit.
unfoldable pub skip_digits : (ℕ → Bool) → Text → Text
skip_digits is_decimal [] = []
skip_digits is_decimal (c ∷ s) =
    let rest = skip_digits is_decimal s in if is_decimal c then rest else c ∷ s

unfoldable pub after_digits : (ℕ → Bool) → Text → Option Text
unfolding skip_digits
after_digits is_decimal [] = none
after_digits is_decimal (c ∷ s) = if is_decimal c then some (skip_digits is_decimal s) else none

abbrev pub after_stop : Option Text → Option Text
after_stop none = none
after_stop (some []) = none
after_stop (some (c ∷ s)) = if c == b'.' then some s else none

abbrev pub then_digits : (ℕ → Bool) → Option Text → Option Text
then_digits is_decimal none = none
then_digits is_decimal (some s) = after_digits is_decimal s

abbrev pub is_end : Option Text → Bool
is_end (some []) = true
is_end _ = false

-- `re.fullmatch(r"v\d+\.\d+\.\d+", s)`
unfoldable pub is_version : (ℕ → Bool) → Text → Bool
unfolding after_digits
is_version is_decimal [] = false
is_version is_decimal (c ∷ s) =
    if c == b'v'
    then is_end (
        then_digits is_decimal
          (after_stop (then_digits is_decimal (after_stop (after_digits is_decimal s)))))
    else false

-- `settings.get("SLURM_REST_API_VERSION") or "v0.0.44"`
abbrev pub version_of : Text → Text
version_of [] = codes "v0.0.44"
version_of (c ∷ s) = c ∷ s

-- What the constructor uses of other libraries: `urlsplit`, which may raise, and the rest of
-- `RestClient`'s fields. Times are in microseconds; a timeout below zero is refused like zero.
pub record Libraries : Type 0 where
  pub urlsplit : Text → Option Parts
  pub open_request : ℕ → Request → Response
  pub json_loads : Text → Option Value
  pub json_dumps : Value → Text
  -- `str.isdigit` of one character, and what `\d` of `re` matches.
  pub is_digit : ℕ → Bool
  pub is_decimal : ℕ → Bool
  pub to_str : Value → Text
  pub decimal : ℕ → Text

abbrev pub split_url : Option Parts → Result Parts
split_url none = err (value_error (codes "Invalid URL"))
split_url (some p) = ok p

abbrev pub is_web : Text → Bool
is_web s = has s (codes "http" ∷ codes "https" ∷ [])

abbrev pub is_extra : Parts → Bool
is_extra p =
    is_given p.username
    || is_given p.password
    || not (is_empty p.query)
    || not (is_empty p.fragment)

unfoldable pub check_parts : Parts → Result (Unit {0})
check_parts p =
    if not (is_web p.scheme) || not (is_given p.hostname)
    then err (value_error (codes "Set SLURM_REST_URL to the slurmrestd HTTP(S) URL"))
    else if is_extra p
    then err (value_error (codes "SLURM_REST_URL must not contain credentials, query, or fragment"))
    else ok tt

unfoldable pub check_version : (ℕ → Bool) → Text → Result (Unit {0})
unfolding is_version
check_version is_decimal s =
    if is_version is_decimal s
    then ok tt
    else err (value_error (codes "SLURM_REST_API_VERSION must look like v0.0.44"))

unfoldable pub check_timeout : ℕ → Result (Unit {0})
check_timeout timeout =
    if timeout == 0 then err (value_error (codes "REST timeout must be positive")) else ok tt

-- `__init__`, with the settings as `_settings` reads them now.
unfoldable pub rest_client : Libraries → ℕ → Settings → Result RestClient
unfolding check_timeout rstrip_slash check_parts check_version headers
rest_client l timeout s = do
  positive ← check_timeout timeout
  parts ← split_url (l.urlsplit (rstrip_slash s.rest_url))
  web ← check_parts parts
  known ← check_version l.is_decimal (version_of s.rest_api_version)
  h ← headers s
  ok (record {
    url = rstrip_slash s.rest_url;
    api_version = version_of s.rest_api_version;
    current = s;
    open_request = l.open_request timeout;
    json_loads = l.json_loads;
    json_dumps = l.json_dumps;
    is_digit = l.is_digit;
    to_str = l.to_str;
    decimal = l.decimal;
  })
