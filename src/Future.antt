-- ===== src/Future.antt =====
-- slurm_manager/job_future.py: `JobFuture`, its lifecycle status and its registered callbacks.
pub mod Lifecycle
pub mod Callbacks
use slurm_manager.Base.{
  ℕ, Bool, true, false, ◌&&◌, Option, none, some, List, [], ◌∷◌, ◌++◌, if◌then◌else◌, is_empty, ite,
}
use slurm_manager.Base.Text.{Text, codes, dec_text, strip}
use slurm_manager.Base.Dict.{Dict, lookup, insert}
use slurm_manager.Base.Result.{Result, ok, err, timeout_error, job_failed}

pub data JobStatus : Type 0 where
  pending running finished error cancelled : JobStatus

-- `status.value`
abbrev pub value : JobStatus → Text
value pending = codes "pending"
value running = codes "running"
value finished = codes "finished"
value error = codes "error"
value cancelled = codes "cancelled"

-- `JobStatus(text)`; `none` is its `ValueError`.
unfoldable pub job_status : Text → Option JobStatus
job_status s = ite (dec_text s (value pending)) (some pending) (
    ite (dec_text s (value running)) (some running) (
      ite (dec_text s (value finished)) (some finished) (
        ite (dec_text s (value error)) (some error)
          (ite (dec_text s (value cancelled)) (some cancelled) none))))

-- The state of the underlying `concurrent.futures.Future`.
pub data Outcome : Type 0 where
  unset : Outcome
  result : Outcome
  exception : Text → Outcome

-- A user's callable, known by its identity.
abbrev pub UserCallback : Type 0
UserCallback = ℕ

pub record RegisteredCallback : Type 0 where
  pub id : Text
  pub event : Text
  pub callback : UserCallback

pub record JobFuture : Type 0 where
  pub job_id : Text
  pub slurm_job_id : Text
  pub name : Text
  pub future : Outcome
  pub status : JobStatus
  pub callback_registry : Dict (List RegisteredCallback)

abbrev display_name : Option Text → Text
display_name none = codes "Job"
display_name (some name) = name

-- `JobFuture.__init__`
unfoldable pub job_future : Text → Text → Option Text → JobFuture
job_future job_id slurm_job_id name = record {
  job_id = job_id;
  slurm_job_id = strip slurm_job_id;
  name = display_name name ++ codes "-" ++ strip slurm_job_id;
  future = unset;
  status = pending;
  callback_registry = [];
}

abbrev pub is_set : Outcome → Bool
is_set unset = false
is_set result = true
is_set (exception info) = true

abbrev pub is_result : Outcome → Bool
is_result unset = false
is_result result = true
is_result (exception info) = false

-- `done()`
abbrev pub done : JobFuture → Bool
done f = is_set f.future

-- `success()`
pub success : JobFuture → Bool
success f = is_set f.future && is_result f.future

abbrev info_of : Outcome → Option Text
info_of unset = none
info_of result = none
info_of (exception info) = some info

-- `exception()`
pub get_exception : JobFuture → Option Text
get_exception f = if is_set f.future then info_of f.future else none

abbrev awaited : Outcome → Result (Unit {0})
awaited unset = err (timeout_error [])
awaited result = ok tt
awaited (exception info) = err (job_failed info)

-- `wait`, at the moment when its timeout has passed or the future is done.
unfoldable pub wait : JobFuture → Result (Unit {0})
wait f = awaited f.future

-- `_set_finished`
unfoldable pub set_finished : JobFuture → JobFuture
set_finished f = if done f then f else record f { future = result }

-- The message of the recorded exception; an absent and an empty detail read alike.
unfoldable pub failure_info : JobFuture → JobStatus → Option Text → Text
failure_info f s none = f.name ++ codes " failed with status " ++ value s ++ codes "."
failure_info f s (some []) = f.name ++ codes " failed with status " ++ value s ++ codes "."
failure_info f s (some (c ∷ detail)) =
    f.name ++ codes " failed with status " ++ value s ++ codes ". Exception info: " ++ c ∷ detail

-- `_set_exception`
unfoldable pub set_exception : JobFuture → JobStatus → Option Text → JobFuture
set_exception f s exc_info =
    if done f then f else record f { future = exception (failure_info f s exc_info) }

-- The tests of `_update_status` on the new status.
unfoldable pub complete : JobStatus → Option Text → JobFuture → JobFuture
unfolding set_finished set_exception
complete pending exc_info f = f
complete running exc_info f = f
complete finished exc_info f = set_finished f
complete error exc_info f = set_exception f error exc_info
complete cancelled exc_info f = set_exception f cancelled exc_info

-- `_update_status`
unfoldable pub update_status : JobStatus → Option Text → JobFuture → JobFuture
unfolding complete
update_status s exc_info f = if done f then f else complete s exc_info (record f { status = s })

abbrev pub registered : Option (List RegisteredCallback) → List RegisteredCallback
registered none = []
registered (some cbs) = cbs

-- The part of `listen` under the future's lock.
unfoldable pub register : RegisteredCallback → JobFuture → JobFuture
register cb f = record f {
  callback_registry =
      insert cb.event (registered (lookup cb.event f.callback_registry) ++ cb ∷ [])
        f.callback_registry;
}

abbrev keep_first :
    RegisteredCallback → Option (List RegisteredCallback) → Option (List RegisteredCallback)
keep_first cb none = none
keep_first cb (some cbs) = some (cb ∷ cbs)

-- The inner loop of `_remove_callback`: the list without its first entry of that id, if any.
pub remove_first : Text → List RegisteredCallback → Option (List RegisteredCallback)
remove_first id [] = none
remove_first id (cb ∷ cbs) =
    let rest = keep_first cb (remove_first id cbs) in ite (dec_text cb.id id) (some cbs) rest

abbrev keep_event :
    Text
    → List RegisteredCallback
    → Option (Dict (List RegisteredCallback))
    → Option (Dict (List RegisteredCallback))
keep_event event cbs none = none
keep_event event cbs (some d) = some ((event, cbs) ∷ d)

abbrev shrink :
    Text → List RegisteredCallback → Dict (List RegisteredCallback) → Dict (List RegisteredCallback)
shrink event [] d = d
shrink event (cb ∷ cbs) d = (event, cb ∷ cbs) ∷ d

abbrev pub drop_or :
    Text
    → Option (List RegisteredCallback)
    → Dict (List RegisteredCallback)
    → Option (Dict (List RegisteredCallback))
    → Option (Dict (List RegisteredCallback))
drop_or event none d later = later
drop_or event (some cbs) d later = some (shrink event cbs d)

-- The outer loop; an event whose last callback goes is dropped.
pub remove_entry : Text → Dict (List RegisteredCallback) → Option (Dict (List RegisteredCallback))
remove_entry id [] = none
remove_entry id ((event, cbs) ∷ d) =
    drop_or event (remove_first id cbs) d (keep_event event cbs (remove_entry id d))

abbrev removal : JobFuture → Option (Dict (List RegisteredCallback)) → Bool × JobFuture
removal f none = (false, f)
removal f (some d) = (true, record f { callback_registry = d })

-- `_remove_callback`
unfoldable pub remove_callback : Text → JobFuture → Bool × JobFuture
unfolding remove_entry remove_first
remove_callback id f = removal f (remove_entry id f.callback_registry)
