-- ===== src/Tracker/Status/Removal.antt =====
-- `remove_subscriptions_for_job`, with and without its error status.
use slurm_manager.Base.{
  subst, ◌≡◌, refl, ap, ◌∙◌, Bool, true, false, Option, none, some, ◌++◌, arith, Bool-cases, inl,
  inr,
}
use slurm_manager.Base.Text.{Text, codes}
use slurm_manager.Base.Dict.{lookup}
use slurm_manager.Base.Result.{ok}
use slurm_manager.Future.{JobFuture, done, error}
use slurm_manager.Tracker.State.{Tracker, Ref, Env}
use slurm_manager.Tracker.Status.{
  Parsed, parse_status, apply_status, ends, drop_monitoring, removal_message,
  remove_subscriptions_for_job, remove_found,
}
use slurm_manager.Tracker.Status.Format.{parse_status-format}
use slurm_manager.Tracker.Status.Tasks.{OfJob}
use slurm_manager.Tracker.Status.Ending.{own_callbacks, apply_status_lem}
use slurm_manager.Tracker.Status.Drop.{drop_monitoring-Dropped}

-- The entry of a job in the registry, if any, is the job's, and so are its status callbacks.
abbrev pub OwnEntry : Text → Tracker → Type 0
OwnEntry job_id t =
    (r : Ref)
    → lookup job_id t.future_registry ≡ some r
    → ((t.futures r).job_id ≡ job_id)
      × OfJob (t.futures r).job_id (t.futures r).slurm_job_id (own_callbacks r t)

removal_error :
    (env : Env) (f : JobFuture) → ends (parse_status env (removal_message env f)).job_status ≡ true
unfolding removal_message
removal_error env f =
    ap (λ (p : Parsed). ends p.job_status)
      (parse_status-format env (removal_message env f).metadata error
        (some (codes "Removal requested by user; timestamp " ++ env.stamp)))

-- What is left of a job that was removed: nothing tracks it, and its future is done unless the
-- removal was asked to skip the event.
abbrev pub Removed : Text → Bool → Tracker → Tracker → Type 0
Removed job_id skip t u =
    (lookup job_id u.future_registry ≡ none)
    × (lookup job_id u.active_subscriptions ≡ none)
    × ((r : Ref)
        → lookup job_id t.future_registry ≡ some r
        → skip ≡ false
        → done (u.futures r) ≡ true)

dropped-Removed :
    (job_id : Text) (skip : Bool) (t : Tracker)
    → ((r : Ref)
        → lookup job_id t.future_registry ≡ some r
        → skip ≡ false
        → done (t.futures r) ≡ true)
    → Removed job_id skip t (drop_monitoring job_id t)
dropped-Removed job_id skip t h =
    let d = drop_monitoring-Dropped job_id t in
    (
      d.untracked,
      d.inactive,
      λ r e s. ap (λ (fs : Ref → JobFuture). done (fs r)) d.futures_kept ∙ h r e s,
    )

failed-Removed :
    (env : Env) (job_id : Text) (t : Tracker) (r : Ref)
    → OwnEntry job_id t
    → lookup job_id t.future_registry ≡ some r
    → done (t.futures r) ≡ false
    → t.executor_open ≡ true
    → Removed job_id false t (apply_status env (removal_message env (t.futures r)) r t).1
failed-Removed env job_id t r own e live opened =
    let own_r = own r e in
    let u : Tracker = (apply_status env (removal_message env (t.futures r)) r t).1 in
    let over =
      (apply_status_lem env (removal_message env (t.futures r)) r t live own_r.1 opened).1
        (removal_error env (t.futures r)) in
    (
      subst (λ j. lookup j u.future_registry ≡ none) own_r.0 over.1.untracked,
      subst (λ j. lookup j u.active_subscriptions ≡ none) own_r.0 over.1.inactive,
      λ s e' k. subst (λ x. done (u.futures x) ≡ true) (same_ref r s e e') over.0,
    )
  where
    same_ref :
        (r s : Ref)
        → lookup job_id t.future_registry ≡ some r
        → lookup job_id t.future_registry ≡ some s
        → r ≡ s
    same_ref r s e e' = cc

found-Removed :
    (env : Env) (job_id : Text) (skip : Bool) (t : Tracker) (o : Option Ref)
    → OwnEntry job_id t
    → lookup job_id t.future_registry ≡ o
    → t.executor_open ≡ true
    → Removed job_id skip t (remove_found env job_id skip o t).1
found-Removed env job_id skip t none own e opened = dropped-Removed job_id skip t (λ r e' k. cc)
found-Removed env job_id true t (some r) own e opened = elim (Bool-cases (done (t.futures r))) [
  | inl over ↦ rw over (dropped-Removed job_id true t (λ s e' k. cc))
  | inr live ↦ rw live (dropped-Removed job_id true t (λ s e' k. cc))
]
found-Removed env job_id false t (some r) own e opened = elim (Bool-cases (done (t.futures r))) [
  | inl over ↦ rw over (dropped-Removed job_id false t (λ s e' k. ground arith))
  | inr live ↦ rw live (failed-Removed env job_id t r own e live opened)
]

-- Where the executor is open, and the registry's entry for a job, if any, is a future of that job
-- whose own status callbacks hold its ids, `remove_subscriptions_for_job` leaves the job neither in
-- the registry nor among the active subscriptions, and its future is done unless the removal skips
-- the event.
pub remove_subscriptions_for_job-Removed :
    (env : Env) (job_id : Text) (skip : Bool) (t : Tracker)
    → OwnEntry job_id t
    → t.executor_open ≡ true
    → Removed job_id skip t (remove_subscriptions_for_job env job_id skip t).1
unfolding remove_subscriptions_for_job
remove_subscriptions_for_job-Removed env job_id skip t own opened =
    found-Removed env job_id skip t (lookup job_id t.future_registry) own refl opened

-- The clean-up that `apply_status` makes is the removal that skips the event.
pub remove_subscriptions_for_job-skip :
    (env : Env) (job_id : Text) (t : Tracker)
    → remove_subscriptions_for_job env job_id true t ≡ (ok tt, drop_monitoring job_id t)
unfolding remove_subscriptions_for_job
remove_subscriptions_for_job-skip env job_id t = ground arith
