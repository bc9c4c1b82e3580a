-- ===== src/Manager/Check/Answers.antt =====
-- What a scheduler check makes of the answers of the REST client.
use slurm_manager.Base.{ℕ, ◌≡◌, refl, true, false, some, [], arith, ◌∙◌, subst, ap}
use slurm_manager.Base.Text.{Text}
use slurm_manager.Base.Result.{Result, ok}
use slurm_manager.Base.Json.{Value, Fields, field}
use slurm_manager.Future.{done}
use slurm_manager.Tracker.State.{Tracker, Ref, Env, SubscriptionInfo}
use slurm_manager.Tracker.Status.{StatusMessage, parse_status, apply_status, accept_status, ends}
use slurm_manager.Tracker.Status.Ending.{apply_status-ended, deliver_status-ok}
use slurm_manager.Tracker.Monitor.{begin_scheduler_check}
use slurm_manager.Manager.Scheduler.{Scheduler, Manager, on_tracker}
use slurm_manager.Manager.ExitCode.{resolve}
use slurm_manager.Manager.ExitCode.Verdict.{resolve-ends}
use slurm_manager.Manager.Check.{query, judge, checked, check_slurm_job}

-- The manager once `begin_scheduler_check` has noted the check.
abbrev pub started : Env → SubscriptionInfo → Manager → Manager
started env info m = record m { tracker = (begin_scheduler_check env.now info.job_id m.tracker).1 }

query-tracker : (s : Scheduler) (id : Text) (m : Manager) → (query s id m).1.tracker ≡ m.tracker
unfolding query
query-tracker s id m = ground arith

judge_resolved :
    (env : Env) (to_str : Value → Text) (r : Ref) (k : Text) (v : Value) (d : Fields) (text : Text)
    (m : Manager)
    → resolve to_str (field k v d) ≡ ok (some text)
    → judge env to_str r (ok (some (field k v d))) m
      ≡ on_tracker (apply_status env (record { metadata = []; status_text = text }) r) m
judge_resolved env to_str r k v d text m h = rw h refl

-- What is applied, ends the job, also where the executor refuses a task.
abbrev Ended : Ref → Tracker → Result (Unit {0}) × Manager → Type 0
Ended r t (result, u) =
    (done (u.tracker.futures r) ≡ true) × (t.executor_open ≡ true → result ≡ ok tt)

applied-Ended :
    (env : Env) (text : Text) (r : Ref) (m : Manager)
    → let n : StatusMessage = record { metadata = []; status_text = text } in
      ends (parse_status env n).job_status ≡ true
      → done (m.tracker.futures r) ≡ false
      → Ended r m.tracker (on_tracker (apply_status env n r) m)
unfolding apply_status accept_status
applied-Ended env text r m h live =
    let n : StatusMessage = record { metadata = []; status_text = text } in
    (
      apply_status-ended env n r m.tracker h,
      λ opened. ground (arith, live, deliver_status-ok env (parse_status env n) r m.tracker opened),
    )

checked_resolved :
    (env : Env) (s : Scheduler) (to_str : Value → Text) (r : Ref) (m : Manager) (k : Text)
    (v : Value) (d : Fields) (text : Text)
    → done (m.tracker.futures r) ≡ false
    → (query s (m.tracker.futures r).slurm_job_id m).0 ≡ ok (some (field k v d))
    → resolve to_str (field k v d) ≡ ok (some text)
    → Ended r m.tracker (checked env s to_str (some r) m)
checked_resolved env s to_str r m k v d text live answer h =
    let m' = (query s (m.tracker.futures r).slurm_job_id m).1 in
    let n : StatusMessage = record { metadata = []; status_text = text } in
    let same = query-tracker s (m.tracker.futures r).slurm_job_id m in
    rw (live, answer, judge_resolved env to_str r k v d text m' h)
      (subst (λ t. Ended r t (on_tracker (apply_status env n r) m')) same
        (applied-Ended env text r m' (resolve-ends to_str env [] (field k v d) text h)
          (ap (λ (t : Tracker). done (t.futures r)) same ∙ live)))

started_live :
    (now : ℕ) (job_id : Text) (t : Tracker) (r : Ref)
    → (begin_scheduler_check now job_id t).0 ≡ some r
    → done ((begin_scheduler_check now job_id t).1.futures r) ≡ false
unfolding begin_scheduler_check
started_live now job_id t r e = ground arith

-- Where `begin_scheduler_check` returns a future, and the scheduler answers with a record that
-- resolves to a status, `_check_slurm_job` leaves that future done, and it raises no error if the
-- executor is open.
pub check_slurm_job_resolved :
    (env : Env) (s : Scheduler) (to_str : Value → Text) (info : SubscriptionInfo) (m : Manager)
    (r : Ref) (k : Text) (v : Value) (d : Fields) (text : Text)
    → (begin_scheduler_check env.now info.job_id m.tracker).0 ≡ some r
    → (query s ((started env info m).tracker.futures r).slurm_job_id (started env info m)).0
      ≡ ok (some (field k v d))
    → resolve to_str (field k v d) ≡ ok (some text)
    → let (result, u) = check_slurm_job env s to_str info m in
      (done (u.tracker.futures r) ≡ true)
      × ((started env info m).tracker.executor_open ≡ true → result ≡ ok tt)
unfolding check_slurm_job
check_slurm_job_resolved env s to_str info m r k v d text e answer h = rw e (
    checked_resolved env s to_str r (started env info m) k v d text
      (started_live env.now info.job_id m.tracker r e) answer h)
