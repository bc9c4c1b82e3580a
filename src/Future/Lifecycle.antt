-- ===== src/Future/Lifecycle.antt =====
-- The lifecycle of a `JobFuture`: its status and its underlying future agree, and the first
-- terminal status is final.
use slurm_manager.Base.{
  ◌≡◌, refl, ap, ◌↔◌, Bool, true, false, Option, none, some, List, [], ◌∷◌, ◌++◌, arith,
}
use slurm_manager.Base.Text.{Text}
use slurm_manager.Base.Result.{ok}
use slurm_manager.Future.{
  JobStatus, pending, running, finished, error, cancelled, Outcome, unset, result, exception,
  JobFuture, job_future, done, is_set, success, wait, failure_info, update_status,
}

abbrev pub is_terminal : JobStatus → Bool
is_terminal pending = false
is_terminal running = false
is_terminal finished = true
is_terminal error = true
is_terminal cancelled = true

-- What the underlying future holds at each status.
abbrev pub Agrees : JobStatus → Outcome → Type 0
Agrees pending o = o ≡ unset
Agrees running o = o ≡ unset
Agrees finished o = o ≡ result
Agrees error o = (info : Text) × (o ≡ exception info)
Agrees cancelled o = (info : Text) × (o ≡ exception info)

abbrev pub IsConsistent : JobFuture → Type 0
IsConsistent f = Agrees f.status f.future

pub job_future-IsConsistent :
    (job_id slurm_job_id : Text) (name : Option Text)
    → IsConsistent (job_future job_id slurm_job_id name)
unfolding job_future
job_future-IsConsistent job_id slurm_job_id name = refl

-- `_update_status` keeps the status of a future and its outcome in agreement.
pub update_status-IsConsistent :
    (s : JobStatus) (exc_info : Option Text) (f : JobFuture)
    → IsConsistent f
    → IsConsistent (update_status s exc_info f)
unfolding update_status
update_status-IsConsistent pending exc_info f h = ground arith
update_status-IsConsistent running exc_info f h = ground arith
update_status-IsConsistent finished exc_info f h = ground arith
update_status-IsConsistent error exc_info f h = ground arith
update_status-IsConsistent cancelled exc_info f h = ground arith

-- A future that is done ignores every later update.
pub update_status-done :
    (s : JobStatus) (exc_info : Option Text) (f : JobFuture)
    → done f ≡ true
    → update_status s exc_info f ≡ f
unfolding update_status
update_status-done s exc_info f h = ground arith

-- What a terminal status leaves in the underlying future.
abbrev pub outcome : JobFuture → JobStatus → Option Text → Outcome
outcome f pending exc_info = unset
outcome f running exc_info = unset
outcome f finished exc_info = result
outcome f error exc_info = exception (failure_info f error exc_info)
outcome f cancelled exc_info = exception (failure_info f cancelled exc_info)

pub failure_info-status :
    (f : JobFuture) (s t : JobStatus) (exc_info : Option Text)
    → failure_info (record f { status = t }) s exc_info ≡ failure_info f s exc_info
unfolding failure_info
failure_info-status f s t exc_info = ground arith

pub update_status_lem :
    (s : JobStatus) (exc_info : Option Text) (f : JobFuture)
    → f.future ≡ unset
    → update_status s exc_info f ≡ record f { status = s; future = outcome f s exc_info }
unfolding update_status
update_status_lem pending exc_info f h = ground arith
update_status_lem running exc_info f h = ground arith
update_status_lem finished exc_info f h = ground arith
update_status_lem error exc_info f h = ground (arith, failure_info-status f error error exc_info)
update_status_lem cancelled exc_info f h =
    ground (arith, failure_info-status f cancelled cancelled exc_info)

-- A history of updates, as the manager's threads make them under the lock.
pub run : List (JobStatus × Option Text) → JobFuture → JobFuture
run [] f = f
run ((s, exc_info) ∷ us) f = run us (update_status s exc_info f)

pub run-IsConsistent :
    (us : List (JobStatus × Option Text)) (f : JobFuture) → IsConsistent f → IsConsistent (run us f)
unfolding run
run-IsConsistent [] f h = h
run-IsConsistent ((s, exc_info) ∷ us) f h =
    run-IsConsistent us (update_status s exc_info f) (update_status-IsConsistent s exc_info f h)

pub run-done : (us : List (JobStatus × Option Text)) (f : JobFuture) → done f ≡ true → run us f ≡ f
unfolding run
run-done [] f h = refl
run-done ((s, exc_info) ∷ us) f h = rw (update_status-done s exc_info f h) (run-done us f h)

abbrev pub AllActive : List (JobStatus × Option Text) → Type 0
AllActive [] = Unit
AllActive ((s, exc_info) ∷ us) = (is_terminal s ≡ false) × AllActive us

outcome-terminal :
    (f : JobFuture) (t : JobStatus) (exc_info : Option Text)
    → is_terminal t ≡ true
    → is_set (outcome f t exc_info) ≡ true
outcome-terminal f t exc_info h = ground arith

outcome-active :
    (f : JobFuture) (t : JobStatus) (exc_info : Option Text)
    → is_terminal t ≡ false
    → outcome f t exc_info ≡ unset
outcome-active f t exc_info h = ground arith

outcome-status :
    (f : JobFuture) (s t : JobStatus) (o : Outcome) (exc_info : Option Text)
    → outcome (record f { status = s; future = o }) t exc_info ≡ outcome f t exc_info
unfolding failure_info
outcome-status f s t o none = ground arith
outcome-status f s t o (some []) = ground arith
outcome-status f s t o (some (c ∷ detail)) = ground arith

run-cons_unset :
    (s : JobStatus) (x : Option Text) (us : List (JobStatus × Option Text)) (f : JobFuture)
    → f.future ≡ unset
    → run ((s, x) ∷ us) f ≡ run us (record f { status = s; future = outcome f s x })
unfolding run
run-cons_unset s x us f h = ap (run us) (update_status_lem s x f h)

-- For a future whose outcome is not set, after any updates that are not terminal the first terminal
-- one decides: its status stays, and the underlying future holds its outcome, whatever updates
-- follow.
pub run_first_terminal :
    (ps us : List (JobStatus × Option Text)) (t : JobStatus) (exc_info : Option Text)
    (f : JobFuture)
    → f.future ≡ unset
    → AllActive ps
    → is_terminal t ≡ true
    → let g = run (ps ++ (t, exc_info) ∷ us) f in (g.status ≡ t) × (g.future ≡ outcome f t exc_info)
run_first_terminal [] us t exc_info f h active terminal = rw (run-cons_unset t exc_info us f h) (
    rw
      (run-done us (record f { status = t; future = outcome f t exc_info })
        (outcome-terminal f t exc_info terminal))
      (refl, refl))
run_first_terminal ((s, x) ∷ ps) us t exc_info f h active terminal =
    rw
      (
        run-cons_unset s x (ps ++ (t, exc_info) ∷ us) f h,
        ← outcome-status f s t (outcome f s x) exc_info,
      )
      (run_first_terminal ps us t exc_info (record f { status = s; future = outcome f s x })
        (outcome-active f s x active.0) active.1 terminal)

-- For a future whose status and outcome agree, `success` holds exactly when the status is finished,
-- and `wait` returns exactly then.
pub success_iff_finished :
    (f : JobFuture)
    → IsConsistent f
    → ((success f ≡ true) ↔ (f.status ≡ finished)) × ((wait f ≡ ok tt) ↔ (f.status ≡ finished))
unfolding success wait
success_iff_finished f h = by_status f f.status refl h
  where
    by_status :
        (f : JobFuture) (s : JobStatus)
        → f.status ≡ s
        → IsConsistent f
        → ((success f ≡ true) ↔ (f.status ≡ finished)) × ((wait f ≡ ok tt) ↔ (f.status ≡ finished))
    by_status f pending e h = ground arith
    by_status f running e h = ground arith
    by_status f finished e h = ground arith
    by_status f error e h = ground arith
    by_status f cancelled e h = ground arith
