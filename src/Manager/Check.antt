-- ===== src/Manager/Check.antt =====
-- `_check_slurm_job`.
pub mod Answers
use slurm_manager.Base.{true, false, Option, none, some, List, [], ◌∷◌, if◌then◌else◌}
use slurm_manager.Base.Text.{Text}
use slurm_manager.Base.Result.{Result, ok, err}
use slurm_manager.Base.Json.{Value, Fields, end, field}
use slurm_manager.Future.{done}
use slurm_manager.Tracker.State.{Ref, Env, SubscriptionInfo}
use slurm_manager.Tracker.Status.{StatusMessage, apply_status}
use slurm_manager.Tracker.Monitor.{begin_scheduler_check, get_missing_heartbeats}
use slurm_manager.Manager.Scheduler.{
  Scheduler, queries, Manager, called, is_rest_failure, on_tracker,
}
use slurm_manager.Manager.ExitCode.{resolve}

-- The two queries of the `try` block: accounting is asked where the controller knows nothing.
abbrev or_accounting :
    Scheduler → Text → Result (Option Fields) → Manager → Result (Option Fields) × Manager
or_accounting s slurm_job_id (ok none) m =
    (s.get_job slurm_job_id true, called (queries slurm_job_id true) m)
or_accounting s slurm_job_id (ok (some d)) m = (ok (some d), m)
or_accounting s slurm_job_id (err e) m = (err e, m)

unfoldable pub query : Scheduler → Text → Manager → Result (Option Fields) × Manager
query s slurm_job_id m =
    or_accounting s slurm_job_id (s.get_job slurm_job_id false)
      (called (queries slurm_job_id false) m)

abbrev status_only : Text → StatusMessage
status_only text = record { metadata = []; status_text = text }

abbrev applied : Env → Ref → Result (Option Text) → Manager → Result (Unit {0}) × Manager
applied env r (err e) m = (err e, m)
applied env r (ok none) m = (ok tt, m)
applied env r (ok (some text)) m = on_tracker (apply_status env (status_only text) r) m

-- An absent and an empty record leave the job unresolved.
abbrev pub judge :
    Env → (Value → Text) → Ref → Result (Option Fields) → Manager → Result (Unit {0}) × Manager
judge env to_str r (err e) m = if is_rest_failure e then (ok tt, m) else (err e, m)
judge env to_str r (ok none) m = (ok tt, m)
judge env to_str r (ok (some end)) m = (ok tt, m)
judge env to_str r (ok (some (field k v d))) m = applied env r (resolve to_str (field k v d)) m

abbrev pub checked :
    Env → Scheduler → (Value → Text) → Option Ref → Manager → Result (Unit {0}) × Manager
checked env s to_str none m = (ok tt, m)
checked env s to_str (some r) m =
    if done (m.tracker.futures r)
    then (ok tt, m)
    else let (answer, m') = query s (m.tracker.futures r).slurm_job_id m in
      judge env to_str r answer m'

-- `_check_slurm_job`
unfoldable pub check_slurm_job :
    Env → Scheduler → (Value → Text) → SubscriptionInfo → Manager → Result (Unit {0}) × Manager
unfolding query
check_slurm_job env s to_str info m =
    let (r, t) = begin_scheduler_check env.now info.job_id m.tracker in
    checked env s to_str r (record m { tracker = t })
