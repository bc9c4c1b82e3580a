-- ===== src/Tests/Manager.antt =====
-- Examples on submission and on scheduler records.
use slurm_manager.Base.Dict.{lookup, insert}
use slurm_manager.Future.{done}
use slurm_manager.Tracker.Topics.{topic}
use slurm_manager.Tracker.Monitor.{begin_scheduler_check}
use slurm_manager.Manager.Check.{query, check_slurm_job}
use slurm_manager.Manager.Check.Answers.{started, check_slurm_job_resolved}
use slurm_manager.Options.{JobOptions, validate}
use slurm_manager.Options.Valid.{Strips, IsValid, validate-IsValid}
use slurm_manager.Base.{
  ℕ, Bool, ◌==◌, if◌then◌else◌, arith, ◌≡◌, refl, ◌≢◌, true, none, some, [], ◌∷◌, ◌++◌,
}
use slurm_manager.Base.Text.{Text, codes, dec_text}
use slurm_manager.Base.Result.{ok, Error}
use slurm_manager.Base.Json.{Value, str, Fields, end, field}
use slurm_manager.Tracker.Register.{Draw}
use slurm_manager.Manager.Scheduler.{Scheduler, releases, cancels, Manager}
use slurm_manager.Manager.ExitCode.{resolve}
use slurm_manager.Manager.Submit.{Draws, Texts, finish_submission}
use slurm_manager.Manager.Submit.Outcome.{
  new_future, attempt, failure, release_calls, finish_submission-calls,
}
use slurm_manager.Tests.Data.{env, tracker, heartbeat_info}

-- The white space of the example is the blank.
abbrev is_blank : ℕ → Bool
is_blank c = c == b' '

abbrev strip_left : Text → Text
strip_left [] = []
strip_left (c ∷ s) = let rest = strip_left s in if is_blank c then rest else c ∷ s

strip_left-Strips : Strips is_blank strip_left
strip_left-Strips [] c t e = absurd (ground arith)
strip_left-Strips (x ∷ s) c t e = ground (arith, strip_left-Strips s c t)

abbrev wanted : JobOptions
wanted = record {
  name = some (codes " n");
  partition = some (codes "day");
  account = some (codes "a");
  qos = some (codes "  q");
  tasks = 2;
  time_limit_minutes = some 3;
  standard_output = some (codes "/o");
  standard_error = some (codes " /e");
}

abbrev allowed : JobOptions
allowed = record wanted {
  name = some (codes "n");
  qos = some (codes "q");
  standard_error = some (codes "/e");
}

validate-IsValid_example : IsValid is_blank strip_left wanted allowed
unfolding validate dec_text
validate-IsValid_example =
    validate-IsValid is_blank strip_left wanted allowed strip_left-Strips refl

to_str : Value → Text
to_str v = codes "0"

abbrev record_of : Fields
record_of = field (codes "job_state") (str (codes "CANCELLED")) end

abbrev sched : Scheduler
sched = record {
  submit = λ script job. ok end;
  release = λ id. ok tt;
  cancel = λ id. ok tt;
  get_job = λ id accounting. ok none;
}

abbrev taken : Text → Draw
taken id = record { id = id; accepted = true }

abbrev draws : Draws
draws = record {
  job_id = codes "b";
  hex = codes "f";
  ref = 1;
  heartbeat = taken (codes "x");
  event = taken (codes "y");
  log = taken (codes "z");
  acknowledged = λ t. some 20000001;
}

abbrev texts : Texts
texts = record { error_text = λ e. codes "e"; to_str = to_str; trim = λ s. s }

abbrev manager : Manager
manager = record { tracker = tracker; calls = [] }

finish_submission-calls_example :
    let id = (new_future draws (codes "8")).slurm_job_id in
    let (r, t) = attempt env draws [] (codes "8") manager in
    let (result, u) = finish_submission env texts sched draws [] (codes "8") manager in
    (failure sched id r ≡ none
      → (result ≡ ok 1) × (u.tracker ≡ t) × (u.calls ≡ [] ++ releases id ∷ []))
    × ((e : Error)
        → failure sched id r ≡ some e
        → (result ≢ ok 1) × (u.calls ≡ ([] ++ release_calls id r) ++ cancels id ∷ []))
finish_submission-calls_example =
    finish_submission-calls env texts sched draws [] (codes "8") manager

abbrev informed : Scheduler
informed = record sched { get_job = λ id accounting. ok (some record_of) }

check_slurm_job_resolved_example :
    let (result, u) = check_slurm_job env informed to_str heartbeat_info manager in
    (done (u.tracker.futures 0) ≡ true)
    × ((started env heartbeat_info manager).tracker.executor_open ≡ true → result ≡ ok tt)
unfolding begin_scheduler_check lookup insert dec_text query resolve topic
check_slurm_job_resolved_example =
    check_slurm_job_resolved env informed to_str heartbeat_info manager 0 (codes "job_state")
      (str (codes "CANCELLED")) end (codes "cancelled") refl refl refl
