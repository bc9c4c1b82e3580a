-- ===== src/Rest/Jobs.antt =====
-- The job operations of `SlurmRestClient`: `submit`, `release`, `cancel` and `get_job`.
use slurm_manager.Base.{
  ℕ, Bool, true, false, ◌&&◌, not, Option, none, some, List, [], ◌∷◌, ◌++◌, if◌then◌else◌, is_empty,
}
use slurm_manager.Base.Text.{Text, codes}
use slurm_manager.Base.Result.{Result, ok, err, value_error, ◌>>=◌}
use slurm_manager.Base.Json.{
  Value, boolean, str, array, object, Items, nil, cons, Fields, end, field, get, truthy,
}
use slurm_manager.Rest.{RestClient, rest_failure, request, headers, build_request, handle_response}

abbrev all_digits : (ℕ → Bool) → Text → Bool
all_digits is_digit [] = true
all_digits is_digit (x ∷ s) = is_digit x && all_digits is_digit s

-- `s.isdigit()`
abbrev pub isdigit : (ℕ → Bool) → Text → Bool
isdigit is_digit s = not (is_empty s) && all_digits is_digit s

-- `_job_path`
unfoldable pub job_path : RestClient → Text → Bool → Result Text
job_path c job_id accounting =
    if isdigit c.is_digit job_id
    then ok (
        (if accounting then codes "slurmdb" else codes "slurm")
        ++ (codes "/" ++ (c.api_version ++ (codes "/job/" ++ job_id))))
    else err (value_error (codes "Slurm job ID must be numeric"))

abbrev id_text : RestClient → Option Value → Text
id_text c none = []
id_text c (some v) = c.to_str v

abbrev check_submitted : RestClient → Fields → Result Fields
check_submitted c result =
    if isdigit c.is_digit (id_text c (get (codes "job_id") result))
    then ok result
    else rest_failure (codes "Slurm REST submission did not return a job ID")

-- `submit`
unfoldable pub submit : RestClient → Text → Fields → Result Fields
unfolding request headers build_request handle_response
submit c script job = do
  result ←
      request c (codes "POST") (codes "slurm/" ++ (c.api_version ++ codes "/job/submit"))
        (some (object (field (codes "script") (str script) (field (codes "job") (object job) end))))
        false
  check_submitted c result

-- `release`
unfoldable pub release : RestClient → Text → Result (Unit {0})
unfolding job_path request headers build_request handle_response
release c job_id = do
  path ← job_path c job_id false
  result ←
      request c (codes "POST") path (some (object (field (codes "hold") (boolean false) end))) false
  ok tt

-- `cancel`
unfoldable pub cancel : RestClient → Text → Result (Unit {0})
unfolding job_path request headers build_request handle_response
cancel c job_id = do
  path ← job_path c job_id false
  result ← request c (codes "DELETE") path none false
  ok tt

abbrev also : Fields → Result (List Fields) → Result (List Fields)
also d (ok ds) = ok (d ∷ ds)
also d (err e) = err e

-- The records, if every one is an object.
unfoldable pub records_of : Items → Result (List Fields)
records_of nil = ok []
records_of (cons (object d) vs) = also d (records_of vs)
records_of (cons v vs) = rest_failure (codes "Slurm REST returned invalid job records")

abbrev jobs_of : Option Value → Result (List Fields)
jobs_of none = ok []
jobs_of (some (array vs)) = records_of vs
jobs_of (some v) =
    if truthy v then rest_failure (codes "Slurm REST returned invalid job records") else ok []

abbrev first : List Fields → Option Fields
first [] = none
first (d ∷ ds) = some d

-- `get_job`
unfoldable pub get_job : RestClient → Text → Bool → Result (Option Fields)
unfolding job_path request headers build_request handle_response records_of
get_job c job_id accounting = do
  path ← job_path c job_id accounting
  result ← request c (codes "GET") path none true
  jobs ← jobs_of (get (codes "jobs") result)
  ok (first jobs)
