-- ===== src/Manager/Script.antt =====
-- `_build_job_script`.
use slurm_manager.Base.{
  Bool, true, false, Option, none, some, List, [], ◌∷◌, ◌++◌, ◌==◌, if◌then◌else◌,
}
use slurm_manager.Base.Text.{Text, codes}
use slurm_manager.Base.Result.{Result, ok, err, value_error, ◌>>=◌}
use slurm_manager.Base.Json.{str, Fields, end, field}

-- What the script takes from the file system and the standard library: `Path.read_text`,
-- `json.dumps` of an object, and `shlex.join`.
pub record Host : Type 0 where
  pub read_text : Text → Result Text
  pub json_dumps : Fields → Text
  pub shlex_join : List Text → Text

-- `s.startswith("/")`
abbrev pub is_absolute : Text → Bool
is_absolute [] = false
is_absolute (c ∷ s) = c == b'/'

abbrev read_optional : Host → Option Text → Result Text
read_optional h none = ok []
read_optional h (some path) = h.read_text path

abbrev tls_text : Bool → Text
tls_text true = codes "true"
tls_text false = codes "false"

-- The payload object.
abbrev pub payload : Text → Text → Text → Fields
payload job_id script activation =
    field (codes "job_id") (str job_id)
      (field (codes "script") (str script) (field (codes "activation") (str activation) end))

abbrev pub worker_args : Text → Text → Bool → List Text
worker_args worker_path redis_address redis_tls =
    worker_path
    ∷ codes "--redis-address"
    ∷ redis_address
    ∷ (codes "--redis-tls=" ++ tls_text redis_tls)
    ∷ []

abbrev pub newline : Text
newline = 10 ∷ []

-- The batch script around a command, a delimiter and a payload.
unfoldable pub here_document : Text → Text → Text → Text
here_document command delimiter text =
    codes "#!/bin/bash"
    ++ (newline
        ++ (codes "exec "
            ++ (command
                ++ (codes " <<'"
                    ++ (delimiter
                        ++ (codes "'"
                            ++ (newline ++ (text ++ (newline ++ (delimiter ++ newline))))))))))

-- The manager's settings for the worker.
pub record Config : Type 0 where
  pub worker_path : Text
  pub redis_address : Text
  pub redis_tls : Bool

abbrev not_absolute : Result Text
not_absolute = err (value_error (codes "Worker path must be an absolute compute-node path"))

-- `hex` is the text of the new UUID in the delimiter.
unfoldable pub build_job_script : Host → Config → Text → Option Text → Text → Text → Result Text
unfolding here_document
build_job_script h c script_path env_path job_id hex =
    let script : Result Text = (do
      script ← h.read_text script_path
      activation ← read_optional h env_path
      ok (
          here_document (h.shlex_join (worker_args c.worker_path c.redis_address c.redis_tls))
            (codes "SLURM_PAYLOAD_" ++ hex) (h.json_dumps (payload job_id script activation)))) in
    if is_absolute c.worker_path then script else not_absolute
