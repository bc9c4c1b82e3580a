-- ===== src/Tracker/Status/Tasks.antt =====
-- The tasks that a status hands to the executor.
use slurm_manager.Base.{
  true, ◌≡◌, refl, ap, ◌∙◌, Option, none, some, List, [], ◌∷◌, ◌++◌, map, arith,
}
use mathlib.Core.List.{append-nil, append_assoc}
use slurm_manager.Base.Text.{Text, codes, dec_text}
use slurm_manager.Base.Dict.{Dict, insert, lookup, lookup-insert, insert-lookup}
use slurm_manager.Base.Result.{ok}
use slurm_manager.Message.{SlurmMessage}
use slurm_manager.Tracker.State.{Tracker, Task, Dispatch, Env, SubscriptionInfo}
use slurm_manager.Tracker.Dispatch.{enrich, task_of, notify, notify_one, call_dispatch, submit_all}

-- The tasks of the callbacks, with the message as it stands when each is called.
abbrev told_by : Env → Option Dispatch → SlurmMessage → List Task
told_by env none m = []
told_by env (some d) m = task_of d (enrich env d.job_id d.slurm_job_id m) ∷ []

abbrev after : Env → Option Dispatch → SlurmMessage → SlurmMessage
after env none m = m
after env (some d) m = enrich env d.job_id d.slurm_job_id m

pub told : Env → List SubscriptionInfo → SlurmMessage → List Task
told env [] m = []
told env (info ∷ infos) m =
    told_by env info.callback m ++ told env infos (after env info.callback m)

pub left_by : Env → List SubscriptionInfo → SlurmMessage → SlurmMessage
left_by env [] m = m
left_by env (info ∷ infos) m = left_by env infos (after env info.callback m)

notify_one_lem :
    (env : Env) (o : Option Dispatch) (m : SlurmMessage) (t : Tracker)
    → t.executor_open ≡ true
    → notify_one env o (m, t)
      ≡ (ok tt, (after env o m, record t { executor = t.executor ++ told_by env o m }))
unfolding call_dispatch
notify_one_lem env none m t opened = ground (arith, append-nil t.executor)
notify_one_lem env (some d) m t opened = ground (arith, opened)

-- On an open executor, the callbacks of a job's statuses are told in order, and nothing else of the tracker changes.
pub notify_lem :
    (env : Env) (infos : List SubscriptionInfo) (m : SlurmMessage) (t : Tracker)
    → t.executor_open ≡ true
    → notify env infos (m, t)
      ≡ (ok tt, (left_by env infos m, record t { executor = t.executor ++ told env infos m }))
unfolding notify told left_by
notify_lem env [] m t opened = ground (arith, append-nil t.executor)
notify_lem env (info ∷ infos) m t opened = ground (
  arith,
  notify_one_lem env info.callback m t opened,
  notify_lem env infos (after env info.callback m)
      (record t { executor = t.executor ++ told_by env info.callback m }) opened,
  append_assoc t.executor (told_by env info.callback m)
      (told env infos (after env info.callback m)),
)

-- Tasks that an open executor is given.
pub submit_all-open :
    (tasks : List Task) (t : Tracker)
    → t.executor_open ≡ true
    → submit_all tasks t ≡ (ok tt, record t { executor = t.executor ++ tasks })
unfolding submit_all
submit_all-open [] t opened = ground (arith, append-nil t.executor)
submit_all-open (task ∷ tasks) t opened = ground (
  arith,
  submit_all-open tasks (record t { executor = t.executor ++ task ∷ [] }) opened,
  append_assoc t.executor (task ∷ []) tasks,
)

-- Whatever the executor answers, only its tasks change.
pub submit_all-state :
    (tasks : List Task) (t : Tracker)
    → (submit_all tasks t).1 ≡ record t { executor = (submit_all tasks t).1.executor }
unfolding submit_all
submit_all-state [] t = refl
submit_all-state (task ∷ tasks) t =
    ground (arith, submit_all-state tasks (record t { executor = t.executor ++ task ∷ [] }))

pub notify-state :
    (env : Env) (infos : List SubscriptionInfo) (m : SlurmMessage) (t : Tracker)
    → (notify env infos (m, t)).1.1 ≡ record t { executor = (notify env infos (m, t)).1.1.executor }
unfolding notify call_dispatch
notify-state env [] m t = refl
notify-state env (info ∷ infos) m t =
    notified_one info.callback (λ m' t'. notify-state env infos m' t')
  where
    notified_one :
        (o : Option Dispatch)
        → ((m' : SlurmMessage) (t' : Tracker)
            → (notify env infos (m', t')).1.1
              ≡ record t' { executor = (notify env infos (m', t')).1.1.executor })
        → (notify env (record info { callback = o } ∷ infos) (m, t)).1.1 ≡ record t {
          executor = (notify env (record info { callback = o } ∷ infos) (m, t)).1.1.executor;
        }
    notified_one none rest = rest m t
    notified_one (some d) rest = ground (
      arith,
      rest (enrich env d.job_id d.slurm_job_id m) (record t {
        executor = t.executor ++ task_of d (enrich env d.job_id d.slurm_job_id m) ∷ [];
      }),
    )

three_keys :
    (a b c : Text) (d : Dict Text)
    → let e =
        insert
          (codes "slurm_job_id")
          a
          (insert (codes "job_id") b (insert (codes "msg_received") c d)) in
      (lookup (codes "slurm_job_id") e ≡ some a)
      × (lookup (codes "job_id") e ≡ some b)
      × (lookup (codes "msg_received") e ≡ some c)
unfolding dec_text
three_keys a b c d = simp lookup-insert (refl, refl, refl)

again :
    (a b c : Text) (e : Dict Text)
    → (lookup (codes "slurm_job_id") e ≡ some a)
      × (lookup (codes "job_id") e ≡ some b)
      × (lookup (codes "msg_received") e ≡ some c)
    → insert
        (codes "slurm_job_id")
        a
        (insert (codes "job_id") b (insert (codes "msg_received") c e))
      ≡ e
again a b c e h =
    rw (insert-lookup (codes "msg_received") c e h.2, insert-lookup (codes "job_id") b e h.1)
      (insert-lookup (codes "slurm_job_id") a e h.0)

-- Enriching a message twice with the same ids at the same time is enriching it once.
pub enrich_idem :
    (env : Env) (job_id slurm_job_id : Text) (m : SlurmMessage)
    → enrich env job_id slurm_job_id (enrich env job_id slurm_job_id m)
      ≡ enrich env job_id slurm_job_id m
unfolding enrich
enrich_idem env job_id slurm_job_id m =
    ap (λ (d : Dict Text). record m { metadata = d })
      (again slurm_job_id job_id env.stamp _ (three_keys slurm_job_id job_id env.stamp m.metadata))

abbrev pub SameJob : Text → Text → Option Dispatch → Type 0
SameJob job_id slurm_job_id none = Unit
SameJob job_id slurm_job_id (some d) = (d.job_id ≡ job_id) × (d.slurm_job_id ≡ slurm_job_id)

-- The closures among the callbacks belong to one job.
abbrev pub OfJob : Text → Text → List SubscriptionInfo → Type 0
OfJob job_id slurm_job_id [] = Unit
OfJob job_id slurm_job_id (info ∷ infos) =
    SameJob job_id slurm_job_id info.callback × OfJob job_id slurm_job_id infos

abbrev pub dispatches : List SubscriptionInfo → List Dispatch
dispatches [] = []
dispatches (info ∷ infos) = elim info.callback [
  | none ↦ dispatches infos
  | some d ↦ d ∷ dispatches infos
]

-- Once the message is enriched for the job, it stays as it is.
told_settled :
    (env : Env) (job_id slurm_job_id : Text) (infos : List SubscriptionInfo) (m : SlurmMessage)
    → OfJob job_id slurm_job_id infos
    → told env infos (enrich env job_id slurm_job_id m)
      ≡ map (λ d. task_of d (enrich env job_id slurm_job_id m)) (dispatches infos)
unfolding told
told_settled env j s [] m h = refl
told_settled env j s (info ∷ infos) m h =
    ground (arith, enrich_idem env j s m, told_settled env j s infos m h.1)

-- The tasks all have the message enriched by the same ids.
pub told_lem :
    (env : Env) (job_id slurm_job_id : Text) (infos : List SubscriptionInfo) (m : SlurmMessage)
    → OfJob job_id slurm_job_id infos
    → told env infos m ≡ map (λ d. task_of d (enrich env job_id slurm_job_id m)) (dispatches infos)
unfolding told
told_lem env j s [] m h = refl
told_lem env j s (info ∷ infos) m h =
    ground (arith, told_lem env j s infos m h.1, told_settled env j s infos m h.1)

pub enrich-left_by :
    (env : Env) (job_id slurm_job_id : Text) (infos : List SubscriptionInfo) (m : SlurmMessage)
    → OfJob job_id slurm_job_id infos
    → enrich env job_id slurm_job_id (left_by env infos m) ≡ enrich env job_id slurm_job_id m
unfolding left_by
enrich-left_by env j s [] m h = refl
enrich-left_by env j s (info ∷ infos) m h = ground (
  arith,
  enrich_idem env j s m,
  enrich-left_by env j s infos m h.1,
  enrich-left_by env j s infos (enrich env j s m) h.1,
)

after-body : (env : Env) (o : Option Dispatch) (m : SlurmMessage) → (after env o m).body ≡ m.body
unfolding enrich
after-body env none m = refl
after-body env (some d) m = refl

-- The message keeps its class.
pub left_by-body :
    (env : Env) (infos : List SubscriptionInfo) (m : SlurmMessage)
    → (left_by env infos m).body ≡ m.body
unfolding left_by enrich
left_by-body env [] m = refl
left_by-body env (info ∷ infos) m =
    left_by-body env infos (after env info.callback m) ∙ after-body env info.callback m

-- Where the executor is open and the closures among the callbacks belong to one job, the loop over
-- the callbacks, on one shared message, ends without an error, and adds to the executor one task
-- for each closure, in order, each with the message enriched once, and changes nothing else of the
-- tracker.
pub notify_tasks :
    (env : Env) (job_id slurm_job_id : Text) (infos : List SubscriptionInfo) (m : SlurmMessage)
    (t : Tracker)
    → OfJob job_id slurm_job_id infos
    → t.executor_open ≡ true
    → let (result, (left, u)) = notify env infos (m, t) in
      (result ≡ ok tt)
      × (u ≡ record t {
        executor =
            t.executor
            ++ map (λ d. task_of d (enrich env job_id slurm_job_id m)) (dispatches infos);
      })
notify_tasks env j s infos m t h opened =
    rw (notify_lem env infos m t opened, told_lem env j s infos m h) (refl, refl)
