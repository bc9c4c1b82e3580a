-- ===== src/Tracker/Status/Format.antt =====
-- The format `status[:detail]` of a status message.
use slurm_manager.Base.{◌≡◌, refl, ap, Option, none, some, ◌++◌, arith, Option-cases, inl, inr}
use slurm_manager.Base.Text.{Text, codes, dec_text, split_once}
use slurm_manager.Base.Dict.{Dict}
use slurm_manager.Future.{
  JobStatus, pending, running, finished, error, cancelled, value, job_status,
}
use slurm_manager.Tracker.State.{Env}
use slurm_manager.Tracker.Status.{StatusMessage, Parsed, parse_status, unknown_detail}

-- The texts that a worker sends for a status and a detail.
abbrev pub format_status : JobStatus → Option Text → Text
format_status s none = value s
format_status s (some detail) = value s ++ codes ":" ++ detail

abbrev pub status_message : Dict Text → JobStatus → Option Text → StatusMessage
status_message metadata s detail = record {
  metadata = metadata;
  status_text = format_status s detail;
}

-- A message that is a status alone, or a status, a colon and any detail, is read back as that
-- status and detail, and is delivered unchanged.
pub parse_status-format :
    (env : Env) (metadata : Dict Text) (s : JobStatus) (detail : Option Text)
    → parse_status env (status_message metadata s detail)
      ≡ record { job_status = s; detail = detail; message = status_message metadata s detail }
unfolding parse_status split_once job_status dec_text
parse_status-format env metadata pending none = refl
parse_status-format env metadata running none = refl
parse_status-format env metadata finished none = refl
parse_status-format env metadata error none = refl
parse_status-format env metadata cancelled none = refl
parse_status-format env metadata pending (some d) = refl
parse_status-format env metadata running (some d) = refl
parse_status-format env metadata finished (some d) = refl
parse_status-format env metadata error (some d) = refl
parse_status-format env metadata cancelled (some d) = refl

unknown_lem :
    (env : Env) (m : StatusMessage)
    → job_status (split_once b':' m.status_text).0 ≡ none
    → let d = unknown_detail env (split_once b':' m.status_text).0 m in
      parse_status env m ≡ record {
        job_status = error;
        detail = some d;
        message = status_message m.metadata error (some d);
      }
unfolding parse_status
unknown_lem env m h = rw (h, parse_status) refl

known_lem :
    (env : Env) (m : StatusMessage) (s : JobStatus)
    → job_status (split_once b':' m.status_text).0 ≡ some s
    → (parse_status env m).message ≡ m
unfolding parse_status
known_lem env m s h = ground arith

-- A message whose status is unknown is read as an error, and reading the message to deliver again
-- gives what reading any message first gave.
pub parse_status_idem :
    (env : Env) (m : StatusMessage)
    → (job_status (split_once b':' m.status_text).0 ≡ none
        → (parse_status env m).job_status ≡ error)
      × (parse_status env (parse_status env m).message ≡ parse_status env m)
parse_status_idem env m = elim (Option-cases (job_status (split_once b':' m.status_text).0)) [
  | inl h ↦ (
    λ h'. ap (λ (p : Parsed). p.job_status) (unknown_lem env m h),
    rw (unknown_lem env m h) (
        parse_status-format env m.metadata error
          (some (unknown_detail env (split_once b':' m.status_text).0 m))),
  )
  | inr (s, h) ↦ (λ h'. absurd (ground arith), ap (parse_status env) (known_lem env m s h))
]
