-- ===== src/Tracker/Dispatch.antt =====
-- Dispatch of events to the user's callbacks: nothing runs here, the executor gets a task each.
use slurm_manager.Base.{Option, none, some, List, [], ◌∷◌, ◌++◌, map, ite, if◌then◌else◌}
use slurm_manager.Base.Text.{Text, codes, dec_text}
use slurm_manager.Base.Dict.{Dict, insert, values}
use slurm_manager.Base.Result.{Result, ok, err, Error, runtime_error}
use slurm_manager.Message.{SlurmMessage, msg_type}
use slurm_manager.Future.{RegisteredCallback}
use slurm_manager.Tracker.State.{Tracker, Task, Dispatch, Kwargs, Env, SubscriptionInfo, Exec}

-- `message.metadata.update(...)` of the three `wrapped_callback`s.
unfoldable pub enrich : Env → Text → Text → SlurmMessage → SlurmMessage
enrich env job_id slurm_job_id m = record m {
  metadata =
      insert (codes "slurm_job_id") slurm_job_id
        (insert (codes "job_id") job_id (insert (codes "msg_received") env.stamp m.metadata));
}

abbrev pub closed : Error
closed = runtime_error (codes "cannot schedule new futures after shutdown")

-- `executor.submit(self._run_callback, callback, message, kwargs)`, which raises once the executor
-- is shut down.
abbrev pub submit : Task → Exec (Unit {0})
submit task t =
    if t.executor_open
    then (ok tt, record t { executor = t.executor ++ task ∷ [] })
    else (err closed, t)

-- `callback_kwargs or {}`
abbrev pub or_empty : Option Kwargs → Kwargs
or_empty none = []
or_empty (some kwargs) = kwargs

abbrev pub task_of : Dispatch → SlurmMessage → Task
task_of d m = record {
  callback = d.callback;
  message = m;
  callback_kwargs = or_empty d.callback_kwargs;
}

-- A message object and the tracker, as a call of a handler leaves them, and what it raises.
abbrev pub Handled : Type 0
Handled = Result (Unit {0}) × (SlurmMessage × Tracker)

abbrev pub with_message : SlurmMessage → Result (Unit {0}) × Tracker → Handled
with_message m (result, t) = (result, (m, t))

-- A call of the closure of `add_subscription`: the message object is changed too, also where the
-- executor refuses the task.
unfoldable pub call_dispatch : Env → Dispatch → SlurmMessage → Tracker → Handled
unfolding enrich
call_dispatch env d m t =
    let m' : SlurmMessage = enrich env d.job_id d.slurm_job_id m in
    with_message m' (submit (task_of d m') t)

-- The manager-wide callbacks of an event type, in the order of their registration.
abbrev pub matching : Text → List RegisteredCallback → List RegisteredCallback
matching event [] = []
matching event (item ∷ items) =
    ite (dec_text item.event event) (item ∷ matching event items) (matching event items)

abbrev with_slurm_id : Option Text → Dict Text → Dict Text
with_slurm_id none metadata = metadata
with_slurm_id (some slurm_job_id) metadata = insert (codes "slurm_job_id") slurm_job_id metadata

-- The copy of the message that `_dispatch_global` makes.
unfoldable pub global_event : Env → SlurmMessage → Text → Option Text → SlurmMessage
global_event env m job_id slurm_job_id = record m {
  metadata =
      with_slurm_id slurm_job_id
        (insert (codes "job_id") job_id (insert (codes "msg_received") env.stamp m.metadata));
}

abbrev pub global_task : SlurmMessage → RegisteredCallback → Task
global_task event item = record { callback = item.callback; message = event; callback_kwargs = [] }

-- The loop over the tasks: the first that is refused ends it.
unfoldable pub submit_all : List Task → Exec (Unit {0})
submit_all [] t = (ok tt, t)
submit_all (task ∷ tasks) t =
    let next = λ (t' : Tracker). submit_all tasks t' in
    let (result, t') = submit task t in elim result [ ok u ↦ next t' | err e ↦ (err e, t') ]

-- `_dispatch_global`
unfoldable pub dispatch_global : Env → SlurmMessage → Text → Option Text → Exec (Unit {0})
unfolding submit_all
dispatch_global env m job_id slurm_job_id t =
    submit_all
      (map (global_task (global_event env m job_id slurm_job_id))
        (matching (msg_type m) (values t.global_callbacks)))
      t

abbrev pub notify_one : Env → Option Dispatch → SlurmMessage × Tracker → Handled
notify_one env none (m, t) = (ok tt, (m, t))
notify_one env (some d) (m, t) = call_dispatch env d m t

-- The loop of `apply_status` over the job's own status callbacks.
unfoldable pub notify : Env → List SubscriptionInfo → SlurmMessage × Tracker → Handled
unfolding call_dispatch
notify env [] mt = (ok tt, mt)
notify env (info ∷ infos) mt =
    let next = λ (mt' : SlurmMessage × Tracker). notify env infos mt' in
    let (result, mt') = notify_one env info.callback mt in
    elim result [ ok u ↦ next mt' | err e ↦ (err e, mt') ]
