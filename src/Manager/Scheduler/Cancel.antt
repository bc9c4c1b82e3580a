-- ===== src/Manager/Scheduler/Cancel.antt =====
-- What a cancellation leaves.
use slurm_manager.Base.{◌≡◌, refl, ap, ◌∙◌, true, false, some, [], ◌∷◌, ◌++◌, arith}
use slurm_manager.Base.Text.{Text, dec_text, split_once}
use slurm_manager.Base.Dict.{lookup}
use slurm_manager.Base.Result.{Result, ok, err, Error}
use slurm_manager.Message.{SlurmMessage}
use slurm_manager.Future.{JobStatus, JobFuture, done, job_status, update_status}
use slurm_manager.Future
use slurm_manager.Tracker.State.{Ref, Env}
use slurm_manager.Tracker.Status.{parse_status, apply_status}
use slurm_manager.Tracker.Status
use slurm_manager.Tracker.Status.Drop.{Dropped}
use slurm_manager.Tracker.Status.Ending.{delivered, update_self, apply_status-futures}
use slurm_manager.Tracker.Reachable.{Reachable, Reachable-IsTracked, Reachable_status_ends}
use slurm_manager.Manager.Scheduler.{Scheduler, Manager, cancels, cancelled_message, cancel}

cancelled_status :
    (env : Env) (f : JobFuture)
    → (parse_status env (cancelled_message env f)).job_status ≡ Future.cancelled
unfolding parse_status cancelled_message job_status split_once dec_text
cancelled_status env f = refl

update_status-status :
    (s : JobStatus) (f : JobFuture)
    → done f ≡ false
    → (detail : _) → (update_status s detail f).status ≡ s
unfolding update_status
update_status-status s f live detail = ground arith

module _ {Value : Type 0} (decode : Text → Result Text) (json_loads : Text → Result Value)
    (validate : Value → Result SlurmMessage) where
  -- On a tracker that a new one leads to before its shutdown, `cancel` of a future under which its
  -- job is tracked makes one REST call, the cancellation. Where Slurm accepts it, `cancel`
  -- succeeds, the future is done with the status cancelled, the status callbacks have their tasks,
  -- and the job is dropped from the registry and its topics from the tracker and from the Redis
  -- client. Where Slurm refuses, `cancel` raises that error and leaves the tracker as it was.
  pub cancel-ends :
      (env : Env) (sched : Scheduler) (r : Ref) (m : Manager)
      → Reachable decode json_loads validate m.tracker
      → lookup (m.tracker.futures r).job_id m.tracker.future_registry ≡ some r
      → let f = m.tracker.futures r in
        let (result, u) = cancel env sched r m in
        (sched.cancel f.slurm_job_id ≡ ok tt
          → (result ≡ ok tt)
            × ((u.tracker.futures r).status ≡ Future.cancelled)
            × (done (u.tracker.futures r) ≡ true)
            × Dropped f.job_id
                (delivered env (parse_status env (cancelled_message env f)) r m.tracker)
                u.tracker)
        × ((e : Error)
            → sched.cancel f.slurm_job_id ≡ err e
            → (result ≡ err e) × (u.tracker ≡ m.tracker))
        × (u.calls ≡ m.calls ++ cancels f.slurm_job_id ∷ [])
  unfolding cancel
  cancel-ends env sched r m reached registered = (
    λ accepted. rw (accepted, registered) (over.0, marked, over.1, over.2),
    λ e refused. rw refused (refl, refl),
    ground arith,
  )
    where
      f : JobFuture
      f = m.tracker.futures r

      inv_live : done f ≡ false
      inv_live =
          ((Reachable-IsTracked decode json_loads validate m.tracker reached).owned.live f.job_id r
            registered).1

      over :
          ((apply_status env (cancelled_message env f) r m.tracker).0 ≡ ok tt)
          × (done ((apply_status env (cancelled_message env f) r m.tracker).1.futures r) ≡ true)
          × Dropped f.job_id
              (delivered env (parse_status env (cancelled_message env f)) r m.tracker)
              (apply_status env (cancelled_message env f) r m.tracker).1
      over =
          let k =
            Reachable_status_ends decode json_loads validate m.tracker env (cancelled_message env f)
              f.job_id r reached registered (ap (λ s. Status.ends s) (cancelled_status env f)) in
          (k.0, k.1, k.2)

      marked :
          ((apply_status env (cancelled_message env f) r m.tracker).1.futures r).status
          ≡ Future.cancelled
      marked =
          let p = parse_status env (cancelled_message env f) in
          ap (λ (fs : Ref → JobFuture). (fs r).status)
            (apply_status-futures env (cancelled_message env f) r m.tracker inv_live)
          ∙ (ap (λ (g : JobFuture). g.status)
                (update_self r (update_status p.job_status p.detail f) m.tracker.futures)
              ∙ (update_status-status p.job_status f inv_live p.detail ∙ cancelled_status env f))
