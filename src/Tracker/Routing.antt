-- ===== src/Tracker/Routing.antt =====
-- Which tasks a message of the Redis client leads to.
pub mod Reached
pub mod Monitored
pub mod FromTrack
pub mod Kept
use slurm_manager.Base.{
  ◌≡◌, refl, sym, ap, subst, ◌∙◌, ◌≢◌, Bool, true, false, Option, none, some, List, [], ◌∷◌, ◌++◌,
  arith, In, In-append_left, In-append_right, inl, inr, Option-cases, Bool-cases, is_some, map,
  if◌then◌else◌,
}
use slurm_manager.Base.Text.{Text, codes, dec_text}
use slurm_manager.Base.Dict.{
  Dict, lookup, insert, find, entries, values, lookup-entries, lookup-insert,
}
use slurm_manager.Base.Result.{Result, ok, err}
use slurm_manager.Message.{SlurmMessage, Body, heartbeat, status, log}
use slurm_manager.Future.{done}
use slurm_manager.RedisSub.{Client, Subscription}
use slurm_manager.RedisSub.Listener.{
  RawMessage, received, message, normalize_message, listener_round,
}
use slurm_manager.Tracker.Topics.{job_topic, status_key}
use slurm_manager.Tracker.State.{
  Tracker, Task, Ref, Env, Handler, ignore_status, user_dispatch, global_dispatch,
  heartbeat_monitor, status_monitor, Dispatch, SubscriptionInfo,
}
use slurm_manager.Tracker.Dispatch.{
  Handled, enrich, task_of, submit, submit_all, notify, notify_one, call_dispatch, dispatch_global,
}
use slurm_manager.Tracker.Status.{
  StatusMessage, Parsed, parse_status, to_message, apply_status, accept_status, deliver_status,
  update_future, told_all, cleaned, ends, drop_monitoring,
}
use slurm_manager.Tracker.Status.Tasks.{notify_lem}
use slurm_manager.Tracker.Status.Ending.{own_callbacks}
use slurm_manager.Tracker.Status.Drop.{drop_monitoring-Dropped}
use slurm_manager.Tracker.Monitor.{
  beat, change_entry, heartbeat_callback, apply_body, call_handler, deliver, poll,
}
use slurm_manager.Tracker.Tracked.{IsTracked, Calls}
use slurm_manager.Tracker.Tracked.Delivering.{call_handler-IsTracked}
use mathlib.Core.List.{append-nil, append_assoc}

-- The tasks that were accepted stay, and others come after them.
abbrev Grows : Tracker → Tracker → Type 0
Grows t u = (fresh : List Task) × (u.executor ≡ t.executor ++ fresh)

Grows-same : (t u : Tracker) → u.executor ≡ t.executor → Grows t u
Grows-same t u e = ([], e ∙ sym (append-nil t.executor))

Grows-more : (t u v : Tracker) → Grows t u → Grows u v → Grows t v
Grows-more t u v (f, e) (g, k) =
    (f ++ g, k ∙ (ap (λ (x : List Task). x ++ g) e ∙ append_assoc t.executor f g))

submit-Grows : (task : Task) (t : Tracker) → Grows t (submit task t).1
submit-Grows task t = elim (Bool-cases t.executor_open) [
  | inl opened ↦ (task ∷ [], ground arith)
  | inr shut ↦ Grows-same t (submit task t).1 (ground arith)
]

-- What follows a step that may raise.
abbrev following {ℓ} :
    {S : Type ℓ} → (S → Result (Unit {0}) × S) → Result (Unit {0}) × S → Result (Unit {0}) × S
following next (result, t) = elim result [ ok u ↦ next t | err e ↦ (err e, t) ]

following-Grows :
    (next : Tracker → Result (Unit {0}) × Tracker) (t : Tracker) (x : Result (Unit {0}) × Tracker)
    → Grows t x.1
    → ((u : Tracker) → Grows u (next u).1)
    → Grows t (following next x).1
following-Grows next t (ok u, v) g more = Grows-more t v (next v).1 g (more v)
following-Grows next t (err e, v) g more = g

submit_all-Grows : (tasks : List Task) (t : Tracker) → Grows t (submit_all tasks t).1
unfolding submit_all
submit_all-Grows [] t = Grows-same t t refl
submit_all-Grows (task ∷ tasks) t =
    following-Grows (submit_all tasks) t (submit task t) (submit-Grows task t)
      (λ u. submit_all-Grows tasks u)

dispatch_global-Grows :
    (env : Env) (m : SlurmMessage) (job_id : Text) (slurm_job_id : Option Text) (t : Tracker)
    → Grows t (dispatch_global env m job_id slurm_job_id t).1
unfolding dispatch_global
dispatch_global-Grows env m job_id slurm_job_id t = submit_all-Grows _ t

notify_one-Grows :
    (env : Env) (o : Option Dispatch) (m : SlurmMessage) (t : Tracker)
    → Grows t (notify_one env o (m, t)).1.1
unfolding call_dispatch
notify_one-Grows env none m t = Grows-same t t refl
notify_one-Grows env (some d) m t =
    submit-Grows (task_of d (enrich env d.job_id d.slurm_job_id m)) t

notified-Grows :
    (next : SlurmMessage × Tracker → Handled) (t : Tracker) (x : Handled)
    → Grows t x.1.1
    → ((m : SlurmMessage) (u : Tracker) → Grows u (next (m, u)).1.1)
    → Grows t (following next x).1.1
notified-Grows next t (ok u, (m, v)) g more = Grows-more t v (next (m, v)).1.1 g (more m v)
notified-Grows next t (err e, (m, v)) g more = g

notify-Grows :
    (env : Env) (infos : List SubscriptionInfo) (m : SlurmMessage) (t : Tracker)
    → Grows t (notify env infos (m, t)).1.1
unfolding notify
notify-Grows env [] m t = Grows-same t t refl
notify-Grows env (info ∷ infos) m t =
    notified-Grows (notify env infos) t (notify_one env info.callback (m, t))
      (notify_one-Grows env info.callback m t) (λ m' u. notify-Grows env infos m' u)

told_all-Grows :
    (env : Env) (job_id slurm_job_id : Text) (x : Handled)
    → Grows x.1.1 (told_all env job_id slurm_job_id x).1
told_all-Grows env job_id slurm_job_id (ok u, (m, t)) =
    dispatch_global-Grows env m job_id (some slurm_job_id) t
told_all-Grows env job_id slurm_job_id (err e, (m, t)) = Grows-same t t refl

deliver_status-Grows :
    (env : Env) (p : Parsed) (r : Ref) (t : Tracker) → Grows t (deliver_status env p r t).1
unfolding deliver_status update_future
deliver_status-Grows env p r t =
    let t' : Tracker = update_future r p.job_status p.detail t in
    let x = notify env (own_callbacks r t) (to_message p.message, t') in
    let g = notify-Grows env (own_callbacks r t) (to_message p.message) t' in
    Grows-more t x.1.1 (deliver_status env p r t).1 g
      (told_all-Grows env (t.futures r).job_id (t.futures r).slurm_job_id x)

cleaned-Grows :
    (b : Bool) (job_id : Text) (x : Result (Unit {0}) × Tracker) → Grows x.1 (cleaned b job_id x).1
cleaned-Grows true job_id (ok u, t) =
    Grows-same t (drop_monitoring job_id t) (drop_monitoring-Dropped job_id t).tasks_kept
cleaned-Grows false job_id (ok u, t) = Grows-same t t refl
cleaned-Grows b job_id (err e, t) = Grows-same t t refl

apply_status-Grows :
    (env : Env) (m : StatusMessage) (r : Ref) (t : Tracker) → Grows t (apply_status env m r t).1
unfolding apply_status accept_status
apply_status-Grows env m r t = elim (Bool-cases (done (t.futures r))) [
  | inl over ↦ rw over (Grows-same t t refl)
  | inr live ↦
      let p = parse_status env m in
      rw live (
        Grows-more t (deliver_status env p r t).1
          (cleaned (ends p.job_status) (t.futures r).job_id (deliver_status env p r t)).1
          (deliver_status-Grows env p r t)
          (cleaned-Grows (ends p.job_status) (t.futures r).job_id (deliver_status env p r t)))
]

change_entry-Grows :
    (g : SubscriptionInfo → SubscriptionInfo) (topic id : Text) (o : Option SubscriptionInfo)
    (t : Tracker)
    → Grows t (change_entry g topic id o t)
change_entry-Grows g topic id none t = Grows-same t t refl
change_entry-Grows g topic id (some info) t =
    Grows-same t (change_entry g topic id (some info) t) refl

apply_body-Grows :
    (env : Env) (m : SlurmMessage) (b : Body) (r : Ref) (t : Tracker)
    → Grows t (apply_body env m b r t).1
apply_body-Grows env m (heartbeat timestamp) r t = Grows-same t t refl
apply_body-Grows env m (status s) r t =
    apply_status-Grows env (record { metadata = m.metadata; status_text = s }) r t
apply_body-Grows env m (log line) r t = Grows-same t t refl

call_handler-Grows :
    (env : Env) (k : Handler) (m : SlurmMessage) (t : Tracker)
    → Grows t (call_handler env k (m, t)).1
unfolding call_handler call_dispatch heartbeat_callback enrich
call_handler-Grows env ignore_status m t = Grows-same t t refl
call_handler-Grows env (user_dispatch d) m t =
    submit-Grows (task_of d (enrich env d.job_id d.slurm_job_id m)) t
call_handler-Grows env (global_dispatch job_id slurm_job_id) m t =
    dispatch_global-Grows env m job_id (some slurm_job_id) t
call_handler-Grows env (heartbeat_monitor topic id job_id slurm_job_id) m t =
    let u : Tracker =
      change_entry (beat env.now) topic id
        (lookup id (entries (lookup topic t.subscriptions_by_topic))) t in
    Grows-more t u
      (dispatch_global env (enrich env job_id slurm_job_id m) job_id (some slurm_job_id) u).1
      (change_entry-Grows (beat env.now) topic id
        (lookup id (entries (lookup topic t.subscriptions_by_topic))) t)
      (dispatch_global-Grows env (enrich env job_id slurm_job_id m) job_id (some slurm_job_id) u)
call_handler-Grows env (status_monitor r) m t =
    apply_body-Grows env (enrich env (t.futures r).job_id (t.futures r).slurm_job_id m) m.body r t

-- A handler may enrich the message, and leaves its body.
pub call_handler-body :
    (env : Env) (k : Handler) (m : SlurmMessage) (t : Tracker)
    → (call_handler env k (m, t)).0.body ≡ m.body
unfolding call_handler call_dispatch enrich
call_handler-body env ignore_status m t = refl
call_handler-body env (user_dispatch d) m t = refl
call_handler-body env (global_dispatch job_id slurm_job_id) m t = refl
call_handler-body env (heartbeat_monitor topic id job_id slurm_job_id) m t = refl
call_handler-body env (status_monitor r) m t = refl

enrich-ids :
    (env : Env) (job_id slurm_job_id : Text) (m : SlurmMessage)
    → let e = enrich env job_id slurm_job_id m in
      (e.body ≡ m.body)
      × (lookup (codes "job_id") e.metadata ≡ some job_id)
      × (lookup (codes "slurm_job_id") e.metadata ≡ some slurm_job_id)
unfolding enrich dec_text
enrich-ids env job_id slurm_job_id m = simp lookup-insert (refl, refl, refl)

-- The closures among the callbacks of a topic.
abbrev closure_of : Handler → List Dispatch → List Dispatch
closure_of ignore_status ds = ds
closure_of (user_dispatch d) ds = d ∷ ds
closure_of (global_dispatch job_id slurm_job_id) ds = ds
closure_of (heartbeat_monitor topic id job_id slurm_job_id) ds = ds
closure_of (status_monitor r) ds = ds

unfoldable pub closures : List (Subscription Handler) → List Dispatch
closures [] = []
closures (s ∷ ss) = closure_of s.callback (closures ss)

-- Each closure has a task of its own among the tasks, in order, with a message of the given body
-- whose metadata has the ids that the closure holds.
abbrev pub Serves : Body → List Dispatch → List Task → Type 0
Serves b [] tasks = Unit
Serves b (d ∷ ds) tasks =
    (before : List Task) × (m : SlurmMessage) × (after : List Task) × (m.body ≡ b)
    × (lookup (codes "job_id") m.metadata ≡ some d.job_id)
    × (lookup (codes "slurm_job_id") m.metadata ≡ some d.slurm_job_id)
    × (tasks ≡ before ++ task_of d m ∷ after)
    × Serves b ds after

Serves-prepend :
    (b : Body) (ds : List Dispatch) (f tasks : List Task)
    → Serves b ds tasks
    → Serves b ds (f ++ tasks)
Serves-prepend b [] f tasks h = tt
Serves-prepend b (d ∷ ds) f tasks (before, m, after, e, j, n, k, rest) = (
  f ++ before,
  m,
  after,
  e,
  j,
  n,
  ap (λ (x : List Task). f ++ x) k ∙ sym (append_assoc f before (task_of d m ∷ after)),
  rest,
)

-- A handler and those after it.
handled-Serves :
    (env : Env) (b : Body) (h : Handler) (ds : List Dispatch) (m : SlurmMessage) (t : Tracker)
    → t.executor_open ≡ true
    → m.body ≡ b
    → (fresh : List Task) × ((call_handler env h (m, t)).1.executor ≡ t.executor ++ fresh)
      × ((more : List Task) → Serves b ds more → Serves b (closure_of h ds) (fresh ++ more))
unfolding call_handler call_dispatch
handled-Serves env b ignore_status ds m t opened e = ([], sym (append-nil t.executor), λ more s. s)
handled-Serves env b (user_dispatch d) ds m t opened e = (
  task_of d (enrich env d.job_id d.slurm_job_id m) ∷ [],
  ground (arith, opened),
  λ more s.
      let ids = enrich-ids env d.job_id d.slurm_job_id m in
      ([], enrich env d.job_id d.slurm_job_id m, more, ids.0 ∙ e, ids.1, ids.2, refl, s),
)
handled-Serves env b (global_dispatch job_id slurm_job_id) ds m t opened e =
    let (f, g) = call_handler-Grows env (global_dispatch job_id slurm_job_id) m t in
    (f, g, λ more s. Serves-prepend b ds f more s)
handled-Serves env b (heartbeat_monitor topic id job_id slurm_job_id) ds m t opened e =
    let (f, g) = call_handler-Grows env (heartbeat_monitor topic id job_id slurm_job_id) m t in
    (f, g, λ more s. Serves-prepend b ds f more s)
handled-Serves env b (status_monitor r) ds m t opened e =
    let (f, g) = call_handler-Grows env (status_monitor r) m t in
    (f, g, λ more s. Serves-prepend b ds f more s)

pub deliver-Serves :
    (env : Env) (b : Body) (ss : List (Subscription Handler)) (m : SlurmMessage) (t : Tracker)
    → IsTracked t
    → m.body ≡ b
    → (fresh : List Task) × ((deliver env ss (m, t)).1.executor ≡ t.executor ++ fresh)
      × Serves b (closures ss) fresh
unfolding deliver closures
deliver-Serves env b [] m t inv e = ([], sym (append-nil t.executor), tt)
deliver-Serves env b (s ∷ ss) m t inv e =
    let (f, g, served) = handled-Serves env b s.callback (closures ss) m t inv.opened e in
    let (m', t') = call_handler env s.callback (m, t) in
    let (more, k, rest) =
      deliver-Serves env b ss m' t' (call_handler-IsTracked env s.callback m t inv)
        (call_handler-body env s.callback m t ∙ e) in
    (
      f ++ more,
      k ∙ (ap (λ (x : List Task). x ++ more) g ∙ append_assoc t.executor f more),
      served more rest,
    )
