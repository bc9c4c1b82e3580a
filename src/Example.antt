-- ===== src/Example.antt =====
-- examples/submit_job.py: `main` submits one job, waits for it and shuts its manager down.
use slurm_manager.Base.{
  ℕ, Bool, true, false, Option, none, some, List, [], ◌∷◌, ◌++◌, ◌==◌, leb, if◌then◌else◌,
}
use slurm_manager.Base.Text.{Text, codes, dec_text}
use slurm_manager.Base.Result.{Result, ok, err, Error, timeout_error, assertion_error}
use slurm_manager.Message.{Body, heartbeat, status, log}
use slurm_manager.Future.{UserCallback, JobFuture, wait}
use slurm_manager.Options.{JobOptions}
use slurm_manager.Rest.{RestClient}
use slurm_manager.Tracker.State.{Ref, Env, Task}
use slurm_manager.Tracker.Register.{Draw}
use slurm_manager.Manager.Script.{Host}
use slurm_manager.Manager.Scheduler.{Manager, Scheduler as Slurm, of_client}
use slurm_manager.Manager.Scheduler
use slurm_manager.Manager.Submit.{Draws, Texts}
use slurm_manager.Manager.Service.{Service}
use slurm_manager.Manager.Service

-- The closure `log`: a line of the job's log is kept; of another message `log` raises, and the
-- executor goes on.
abbrev with_line : Body → List Text → List Text
with_line (heartbeat timestamp) lines = lines
with_line (status s) lines = lines
with_line (log line) lines = line ∷ lines

-- `lines`, after the executor has run its tasks; `callback` is the closure `log`.
unfoldable pub collected : UserCallback → List Task → List Text
collected callback [] = []
collected callback (task ∷ tasks) =
    let rest = collected callback tasks in
    if task.callback == callback then with_line task.message.body rest else rest

-- Texts in the order of their code points.
unfoldable pub before : Text → Text → Bool
before [] t = true
before (c ∷ s) [] = false
before (c ∷ s) (x ∷ t) = let rest = before s t in if c == x then rest else leb c x

unfoldable pub insert_sorted : Text → List Text → List Text
unfolding before
insert_sorted s [] = s ∷ []
insert_sorted s (t ∷ ts) =
    let rest = insert_sorted s ts in if before s t then s ∷ t ∷ ts else t ∷ rest

unfoldable pub sorted : List Text → List Text
unfolding insert_sorted
sorted [] = []
sorted (s ∷ ss) = insert_sorted s (sorted ss)

-- [f"stdout-test {second:02d}/10" for second in range(1, 11)]
abbrev pub expected_lines : List Text
expected_lines =
    codes "stdout-test 01/10"
    ∷ codes "stdout-test 02/10"
    ∷ codes "stdout-test 03/10"
    ∷ codes "stdout-test 04/10"
    ∷ codes "stdout-test 05/10"
    ∷ codes "stdout-test 06/10"
    ∷ codes "stdout-test 07/10"
    ∷ codes "stdout-test 08/10"
    ∷ codes "stdout-test 09/10"
    ∷ codes "stdout-test 10/10"
    ∷ []

unfoldable pub same_texts : List Text → List Text → Bool
unfolding dec_text
same_texts [] [] = true
same_texts [] (t ∷ ts) = false
same_texts (s ∷ ss) [] = false
same_texts (s ∷ ss) (t ∷ ts) =
    let rest = same_texts ss ts in elim (dec_text s t) [ yes e ↦ rest | no e ↦ false ]

-- The arguments of `main`, but the worker's path, which the manager is constructed with.
pub record Arguments : Type 0 where
  pub script_path : Text
  pub working_directory : Text
  pub log_directory : Text

-- What a run meets outside: what the clock, Redis and the file system answer, the closure `log` and
-- the draw for it, what the threads of the manager do until `wait` returns and until `cancel` is
-- through, the steps of the monitor thread while `shutdown` joins it, and whether the listener ends
-- within the timeout.
pub record World : Type 0 where
  pub env : Env
  pub host : Host
  pub texts : Texts
  pub draws : Draws
  pub log_callback : UserCallback
  pub log_draw : Draw
  pub meanwhile : Service → Service
  pub after : Service → Service
  pub cancel_env : Env
  pub steps : List (Env × Slurm)
  pub stopped : Bool

abbrev pub job_options : Arguments → JobOptions
job_options a = record {
  name = some (codes "slurm-manager-redis-stdout-smoke");
  partition = none;
  account = none;
  qos = none;
  tasks = 1;
  time_limit_minutes = some 1;
  standard_output = some (a.log_directory ++ codes "/redis-stdout-%j.out");
  standard_error = some (a.log_directory ++ codes "/redis-stdout-%j.err");
}

abbrev pub submission : World → Arguments → Service → Result Ref × Service
submission w a s =
    Service.submit_job w.env w.host w.texts w.draws a.script_path none a.working_directory
      (some (job_options a)) ((codes "log", w.log_callback, w.log_draw) ∷ []) s

-- `except TimeoutError`
abbrev pub is_timeout : Error → Bool
is_timeout (timeout_error info) = true
is_timeout _ = false

abbrev raised_after : Error → Result (Unit {0}) → Result (Unit {0})
raised_after e (ok u) = err e
raised_after e (err x) = err x

abbrev pub cancelled : World → Ref → Error → Service → Result (Unit {0}) × Service
cancelled w r e s =
    let (result, m) = Scheduler.cancel w.cancel_env (of_client s.rest_client) r s.manager in
    (raised_after e result, record s { manager = m })

abbrev after_wait : World → Ref → Result (Unit {0}) → Service → Result (Unit {0}) × Service
after_wait w r (ok u) s = (ok tt, s)
after_wait w r (err e) s = if is_timeout e then cancelled w r e s else (err e, s)

abbrev after_submission : World → Result Ref → Service → Result (Unit {0}) × Service
after_submission w (err e) s = (err e, s)
after_submission w (ok r) s =
    let s' : Service = w.meanwhile s in after_wait w r (wait (s'.manager.tracker.futures r)) s'

-- The outer `try` block.
unfoldable pub run_job : World → Arguments → Service → Result (Unit {0}) × Service
run_job w a s = let (r, s') = submission w a s in after_submission w r s'

abbrev check_lines : World → Service → Result (Unit {0})
check_lines w s =
    if same_texts (sorted (collected w.log_callback s.manager.tracker.executor)) expected_lines
    then ok tt
    else err (assertion_error [])

-- An error of `shutdown` takes the place of the one under way.
abbrev after_shutdown :
    World → Result (Unit {0}) → Result (Unit {0}) × Service → Result (Unit {0}) × Service
after_shutdown w r (err e, s) = (err e, s)
after_shutdown w (err e) (ok u, s) = (err e, s)
after_shutdown w (ok v) (ok u, s) = (check_lines w s, s)

-- `main`, from the construction of the manager on.
unfoldable pub main_from : World → Arguments → Service → Result (Unit {0}) × Service
unfolding run_job
main_from w a s =
    let (r, s') = run_job w a s in
    after_shutdown w r (Service.shutdown w.texts.to_str w.steps w.stopped (w.after s'))

abbrev run : World → Arguments → Result Service → Result (Unit {0}) × Option Service
run w a (err e) = (err e, none)
run w a (ok s) = let (r, u) = main_from w a s in (r, some u)

-- `main`: the manager has the defaults but for the Redis host and the worker's path. `to_int`,
-- `decimal`, `futures` and `made` are those of the manager's constructor.
unfoldable pub main :
    (Text → Option ℕ)
    → (ℕ → Text)
    → (Ref → JobFuture)
    → Result RestClient
    → World
    → Arguments
    → Text
    → Result (Unit {0}) × Option Service
unfolding main_from Service.start
main to_int decimal futures made w a worker_path = run w a (
    Service.start to_int decimal futures made (codes "bec-slurm.psi.ch") 6379 true none worker_path)
