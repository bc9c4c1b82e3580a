-- ===== src/Manager/Scheduler.antt =====
-- The manager's state, and the REST client as the manager sees it.
pub mod Cancel
use slurm_manager.Base.{Bool, true, false, Option, none, some, List, [], ◌∷◌, ◌++◌}
use slurm_manager.Base.Text.{Text, codes}
use slurm_manager.Base.Dict.{lookup}
use slurm_manager.Base.Result.{Result, ok, err, Error, value_error, slurm_rest_error}
use slurm_manager.Base.Json.{Fields}
use slurm_manager.Rest.{RestClient}
use slurm_manager.Rest.Jobs
use slurm_manager.Tracker.State.{Tracker, Env, Ref, Exec}
use slurm_manager.Tracker.Status.{StatusMessage, apply_status}
use slurm_manager.Future.{JobFuture}

-- What the four methods of the REST client answer.
pub record Scheduler : Type 0 where
  pub submit : Text → Fields → Result Fields
  pub release : Text → Result (Unit {0})
  pub cancel : Text → Result (Unit {0})
  pub get_job : Text → Bool → Result (Option Fields)

-- The repository's own client.
unfoldable pub of_client : RestClient → Scheduler
of_client c = record {
  submit = Jobs.submit c;
  release = Jobs.release c;
  cancel = Jobs.cancel c;
  get_job = Jobs.get_job c;
}

-- The calls that the manager has made of the client, in order.
pub data Call : Type 0 where
  submits : Fields → Call
  releases cancels : Text → Call
  queries : Text → Bool → Call

pub record Manager : Type 0 where
  pub tracker : Tracker
  pub calls : List Call

abbrev pub called : Call → Manager → Manager
called c m = record m { calls = m.calls ++ c ∷ [] }

-- The errors that `except (SlurmRestError, ValueError)` catches.
abbrev pub is_rest_failure : Error → Bool
is_rest_failure (value_error s) = true
is_rest_failure (slurm_rest_error s) = true
is_rest_failure _ = false

unfoldable pub cancelled_message : Env → JobFuture → StatusMessage
cancelled_message env f = record {
  metadata =
      (codes "msg_received", env.stamp)
      ∷ (codes "job_id", f.job_id)
      ∷ (codes "slurm_job_id", f.slurm_job_id)
      ∷ [];
  status_text = codes "cancelled";
}

-- A step of the tracker, with what it raises.
abbrev pub on_tracker : Exec (Unit {0}) → Manager → Result (Unit {0}) × Manager
on_tracker step m = let (result, t) = step m.tracker in (result, record m { tracker = t })

abbrev mark_cancelled : Env → Option Ref → Manager → Result (Unit {0}) × Manager
mark_cancelled env none m = (ok tt, m)
mark_cancelled env (some r) m =
    on_tracker (apply_status env (cancelled_message env (m.tracker.futures r)) r) m

abbrev after_cancel : Env → Option Ref → Result (Unit {0}) → Manager → Result (Unit {0}) × Manager
after_cancel env o (err e) m = (err e, m)
after_cancel env o (ok u) m = mark_cancelled env o m

-- `cancel_job`
unfoldable pub cancel_job : Env → Scheduler → Text → Text → Manager → Result (Unit {0}) × Manager
unfolding cancelled_message
cancel_job env s slurm_job_id job_id m =
    after_cancel env (lookup job_id m.tracker.future_registry) (s.cancel slurm_job_id)
      (called (cancels slurm_job_id) m)

-- `JobFuture.cancel`
unfoldable pub cancel : Env → Scheduler → Ref → Manager → Result (Unit {0}) × Manager
unfolding cancel_job
cancel env s r m =
    let f : JobFuture = m.tracker.futures r in cancel_job env s f.slurm_job_id f.job_id m
