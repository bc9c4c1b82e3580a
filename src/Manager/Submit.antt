-- ===== src/Manager/Submit.antt =====
-- `submit_job`.
pub mod Outcome
pub mod Reached
pub mod Ends
use slurm_manager.Base.{
  ℕ, Bool, true, false, not, Option, none, some, List, [], ◌∷◌, ◌++◌, if◌then◌else◌,
}
use slurm_manager.Base.Text.{Text, codes}
use slurm_manager.Base.Dict.{lookup}
use slurm_manager.Base.Result.{Result, ok, err, Error, value_error, key_error}
use slurm_manager.Base.Json.{Value, boolean, str, array, object, nil, cons, Fields, end, field, get}
use slurm_manager.Future.{UserCallback, JobFuture, job_future}
use slurm_manager.Options.{JobOptions, default_options, validate, to_rest}
use slurm_manager.RedisSub.Waiting.{wait_until_subscribed}
use slurm_manager.Tracker.State.{Tracker, Ref, Env, Exec, ◌>>=◌, ◌>>◌, pure, raise, update}
use slurm_manager.Tracker.Status.{StatusMessage, apply_status, topics_of}
use slurm_manager.Tracker.Register.{Draw, track, future_listen, is_event}
use slurm_manager.Manager.Scheduler.{
  Scheduler, Call, submits, releases, cancels, Manager, called, is_rest_failure, on_tracker,
}
use slurm_manager.Manager.Script.{Host, Config, is_absolute, build_job_script}

-- What one submission draws from outside: the job's id and the delimiter's, the address of the new
-- future, the ids of its subscriptions, and when Redis acknowledges each topic.
pub record Draws : Type 0 where
  pub job_id : Text
  pub hex : Text
  pub ref : Ref
  pub heartbeat : Draw
  pub event : Draw
  pub log : Draw
  pub acknowledged : Text → Option ℕ

-- The user's callbacks, with the draw for each.
abbrev pub Callbacks : Type 0
Callbacks = List (Text × UserCallback × Draw)

-- The default timeout of `wait_until_subscribed`, five seconds in microseconds.
abbrev pub ready_timeout : ℕ
ready_timeout = 5000000

-- `wait_until_ready`
unfoldable pub wait_until_ready : (Text → Option ℕ) → Env → Text → Exec (Unit {0})
wait_until_ready acknowledged env job_id t = (
  wait_until_subscribed acknowledged ready_timeout env.now
      (topics_of (lookup job_id t.active_subscriptions)) t.client,
  t,
)

unfoldable pub listen_all : Ref → Callbacks → Exec (Unit {0})
listen_all r [] = pure tt
listen_all r ((event, callback, d) ∷ cbs) = do
  id ← future_listen d r event callback
  listen_all r cbs

-- The part of the `try` block before the release.
unfoldable pub set_up : Env → Draws → Callbacks → Exec (Unit {0})
unfolding wait_until_ready
set_up env d callbacks = do
  track env d.heartbeat d.event d.log d.ref
  listen_all d.ref callbacks
  wait_until_ready d.acknowledged env d.job_id

-- `str(exc)`
pub record Texts : Type 0 where
  pub error_text : Error → Text
  pub to_str : Value → Text
  pub trim : Text → Text

failed_message : Texts → Error → StatusMessage
failed_message s e = record {
  metadata = [];
  status_text = codes "error:" ++ (codes "Submission setup failed: " ++ s.error_text e);
}

-- `raise` after `apply_status`: an error of that call takes the place of the one under way.
abbrev raise_after : Error → Result (Unit {0}) × Manager → Result Ref × Manager
raise_after e (ok u, m) = (err e, m)
raise_after e (err x, m) = (err x, m)

abbrev fail_job : Env → Texts → Ref → Error → Manager → Result Ref × Manager
fail_job env s r e m = raise_after e (on_tracker (apply_status env (failed_message s e) r) m)

abbrev after_cancel : Env → Texts → Ref → Error → Result (Unit {0}) → Manager → Result Ref × Manager
after_cancel env s r e (ok u) m = fail_job env s r e m
after_cancel env s r e (err x) m = if is_rest_failure x then fail_job env s r e m else (err x, m)

-- The handler of the `try` block: the held allocation is cancelled, and the job is failed.
unfoldable pub give_up :
    Env → Texts → Scheduler → Ref → Text → Error → Manager → Result Ref × Manager
unfolding failed_message
give_up env s sched r slurm_job_id e m =
    after_cancel env s r e (sched.cancel slurm_job_id) (called (cancels slurm_job_id) m)

abbrev after_release :
    Env → Texts → Scheduler → Ref → Text → Result (Unit {0}) → Manager → Result Ref × Manager
after_release env s sched r slurm_job_id (ok u) m = (ok r, m)
after_release env s sched r slurm_job_id (err e) m = give_up env s sched r slurm_job_id e m

abbrev pub after_set_up :
    Env → Texts → Scheduler → Ref → Text → Result (Unit {0}) → Manager → Result Ref × Manager
after_set_up env s sched r slurm_job_id (ok u) m =
    after_release env s sched r slurm_job_id (sched.release slurm_job_id)
      (called (releases slurm_job_id) m)
after_set_up env s sched r slurm_job_id (err e) m = give_up env s sched r slurm_job_id e m

-- `submit_job` from the construction of the future on.
unfoldable pub finish_submission :
    Env → Texts → Scheduler → Draws → Callbacks → Text → Manager → Result Ref × Manager
unfolding set_up give_up
finish_submission env s sched d callbacks slurm_text m =
    let f : JobFuture = job_future d.job_id slurm_text none in
    let t : Tracker = record m.tracker { futures = update d.ref f m.tracker.futures } in
    let (r, t') = set_up env d callbacks t in
    after_set_up env s sched d.ref f.slurm_job_id r (record m { tracker = t' })

-- `set(callbacks) - {"log", "status", "heartbeat"}` is empty.
unfoldable pub known_events : Callbacks → Bool
known_events [] = true
known_events ((event, callback, d) ∷ cbs) =
    let rest = known_events cbs in if is_event event then rest else false

abbrev or_default : Option JobOptions → JobOptions
or_default none = default_options
or_default (some o) = o

abbrev path_text : Text
path_text =
    codes
      "PATH=/usr/share/Modules/bin:/usr/local/bin:/usr/bin:/usr/local/sbin:/usr/sbin:/usr/lpp/mmfs/bin:"

unfoldable pub append_fields : Fields → Fields → Fields
append_fields end e = e
append_fields (field k v d) e = field k v (append_fields d e)

-- `job.update({...})`: the options have none of these keys.
abbrev held : Text → Fields → Fields
held working_directory job = append_fields job (
    field (codes "current_working_directory") (str working_directory) (
      field (codes "environment") (array (cons (str path_text) nil))
        (field (codes "hold") (boolean true) end)))

-- The part of `submit_job` before anything is sent: the script and the job description.
unfoldable pub prepare :
    Host
    → Texts
    → Config
    → Draws
    → Text
    → Option Text
    → Text
    → Option JobOptions
    → Callbacks
    → Result (Text × Fields)
unfolding known_events append_fields
prepare h s c d script_path env_path working_directory options callbacks =
    if not (is_absolute working_directory)
    then err (value_error (codes "Working directory must be an absolute compute-node path"))
    else if not (known_events callbacks)
    then err (value_error (codes "Callbacks must use log, status, or heartbeat keys"))
    else prepared
  where
    described : Text → Result JobOptions → Result (Text × Fields)
    described script (err e) = err e
    described script (ok o) = ok (script, held working_directory (to_rest o))

    scripted : Result Text → Result (Text × Fields)
    scripted (err e) = err e
    scripted (ok script) = described script (validate s.trim (or_default options))

    prepared : Result (Text × Fields)
    prepared = scripted (build_job_script h c script_path env_path d.job_id d.hex)

abbrev after_id :
    Env → Texts → Scheduler → Draws → Callbacks → Option Value → Manager → Result Ref × Manager
after_id env s sched d callbacks none m = (err (key_error (codes "job_id")), m)
after_id env s sched d callbacks (some v) m =
    finish_submission env s sched d callbacks (s.to_str v) m

abbrev after_submit :
    Env → Texts → Scheduler → Draws → Callbacks → Result Fields → Manager → Result Ref × Manager
after_submit env s sched d callbacks (err e) m = (err e, m)
after_submit env s sched d callbacks (ok result) m =
    after_id env s sched d callbacks (get (codes "job_id") result) m

abbrev after_prepare :
    Env
    → Texts
    → Scheduler
    → Draws
    → Callbacks
    → Result (Text × Fields)
    → Manager
    → Result Ref × Manager
after_prepare env s sched d callbacks (err e) m = (err e, m)
after_prepare env s sched d callbacks (ok (script, job)) m =
    after_submit env s sched d callbacks (sched.submit script job) (called (submits job) m)

-- `submit_job`
unfoldable pub submit_job :
    Env
    → Host
    → Texts
    → Scheduler
    → Config
    → Draws
    → Text
    → Option Text
    → Text
    → Option JobOptions
    → Callbacks
    → Manager
    → Result Ref × Manager
unfolding prepare finish_submission
submit_job env h s sched c d script_path env_path working_directory options callbacks m =
    after_prepare env s sched d callbacks
      (prepare h s c d script_path env_path working_directory options callbacks) m
