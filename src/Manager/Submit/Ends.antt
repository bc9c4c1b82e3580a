-- ===== src/Manager/Submit/Ends.antt =====
-- A submission that succeeds, up to the status that ends its job.
use slurm_manager.Base.{
  ◌≡◌, refl, sym, ap, subst, ◌∙◌, ◌≢◌, true, false, Option, none, some, arith, inl, inr,
  Option-cases,
}
use slurm_manager.Base.Text.{Text, Free, codes}
use slurm_manager.Base.Dict.{lookup}
use slurm_manager.Base.Result.{Result, ok, Result-cases}
use slurm_manager.Base.Json.{get}
use slurm_manager.Message.{SlurmMessage, status}
use slurm_manager.Future.{JobFuture, job_future, done}
use slurm_manager.RedisSub.Listener.{RawMessage, received, message, normalize_message}
use slurm_manager.Tracker.Topics.{job_topic, status_key}
use slurm_manager.Tracker.State.{Tracker, Ref, Env, update}
use slurm_manager.Tracker.Status.{parse_status, ends}
use slurm_manager.Tracker.Status.Ending.{update_self}
use slurm_manager.Tracker.Register.{info_for}
use slurm_manager.Tracker.Monitor.{poll}
use slurm_manager.Tracker.Reachable.{Reachable, next, creates}
use slurm_manager.Tracker.Routing.Monitored.{Reachable_poll-ends}
use slurm_manager.Manager.Scheduler.{Scheduler, Manager, called, submits}
use slurm_manager.Manager.Script.{Host, Config}
use slurm_manager.Options.{JobOptions}
use slurm_manager.Manager.Submit.{
  Draws, Callbacks, Texts, set_up, finish_submission, prepare, submit_job,
}
use slurm_manager.Manager.Submit.Outcome.{new_future, attempt, failure, finish_submission-calls}
use slurm_manager.Manager.Submit.Reached.{NewIds, submission_ids, set_up_monitors, set_up-Reachable}

-- A submission that returns its future has set the job up, and changes nothing after that.
returned :
    (env : Env) (s : Texts) (sched : Scheduler) (d : Draws) (cbs : Callbacks) (slurm_text : Text)
    (m : Manager)
    → (finish_submission env s sched d cbs slurm_text m).0 ≡ ok d.ref
    → ((attempt env d cbs slurm_text m).0 ≡ ok tt)
      × ((finish_submission env s sched d cbs slurm_text m).1.tracker
          ≡ (attempt env d cbs slurm_text m).1)
returned env s sched d cbs slurm_text m h =
    let c = finish_submission-calls env s sched d cbs slurm_text m in
    let id = (new_future d slurm_text).slurm_job_id in
    elim (Result-cases (attempt env d cbs slurm_text m).0) [
      | inl (u, went) ↦ elim (Option-cases (failure sched id (attempt env d cbs slurm_text m).0)) [
        | inl fine ↦ (went, (c.0 fine).1)
        | inr (e, bad) ↦ absurd ((c.1 e bad).0 h)
      ]
      | inr (e, stopped) ↦ absurd ((c.1 e (ap (failure sched id) stopped)).0 h)
    ]

-- A submission that returns a future has been accepted by Slurm, with an id for the job.
accepted :
    (env : Env) (h : Host) (s : Texts) (sched : Scheduler) (c : Config) (d : Draws)
    (script_path : Text) (env_path : Option Text) (working_directory : Text)
    (options : Option JobOptions) (cbs : Callbacks) (m : Manager) (r : Ref)
    → let done_right =
        submit_job env h s sched c d script_path env_path working_directory options cbs m in
      done_right.0 ≡ ok r
      → (slurm_text : Text) × (sent : Manager) × (sent.tracker ≡ m.tracker)
        × (done_right ≡ finish_submission env s sched d cbs slurm_text sent)
unfolding submit_job
accepted env h s sched c d script_path env_path working_directory options cbs m r e =
    elim (Result-cases (prepare h s c d script_path env_path working_directory options cbs)) [
      | inr (x, refused) ↦ absurd (ground (arith, refused))
      | inl (job, prepared) ↦ elim (Result-cases (sched.submit job.0 job.1)) [
        | inr (x, refused) ↦ absurd (ground (arith, prepared, refused))
        | inl (result, sent) ↦ elim (Option-cases (get (codes "job_id") result)) [
          | inl missing ↦ absurd (ground (arith, prepared, sent, missing))
          | inr (v, found) ↦
              (s.to_str v, called (submits job.1) m, refl, rw (prepared, sent, found) refl)
        ]
      ]
    ]

module _ (d : Draws) (slurm_text : Text) (t : Tracker) where
  -- The tracker with the new future.
  abbrev begun : Tracker
  begun = record t { futures = update d.ref (new_future d slurm_text) t.futures }

  begun_job : (begun.futures d.ref).job_id ≡ d.job_id
  unfolding job_future
  begun_job =
      ap (λ (f : JobFuture). f.job_id) (update_self d.ref (new_future d slurm_text) t.futures)

  begun_live : done (begun.futures d.ref) ≡ false
  unfolding job_future
  begun_live =
      ap (λ (f : JobFuture). done f) (update_self d.ref (new_future d slurm_text) t.futures)

module _ {Value : Type 0} (decode : Text → Result Text) (json_loads : Text → Result Value)
    (validate : Value → Result SlurmMessage) where
  finish_submission-ends :
      (env later : Env) (s : Texts) (sched : Scheduler) (d : Draws) (cbs : Callbacks)
      (slurm_text : Text) (m : Manager) (raw : RawMessage Value) (text : Text)
      (event : SlurmMessage)
      → Reachable decode json_loads validate m.tracker
      → ((j : Text) → lookup j m.tracker.future_registry ≢ some d.ref)
      → lookup d.job_id m.tracker.future_registry ≡ none
      → Free b'/' d.job_id
      → NewIds (submission_ids d cbs) m.tracker.topic_by_subscription_id
      → (finish_submission env s sched d cbs slurm_text m).0 ≡ ok d.ref
      → raw.kind ≡ message
      → normalize_message decode json_loads validate raw ≡ ok (job_topic d.job_id status_key, event)
      → event.body ≡ status text
      → ends
          (parse_status later (record { metadata = event.metadata; status_text = text })).job_status
        ≡ true
      → let t = (finish_submission env s sched d cbs slurm_text m).1.tracker in
        let u = poll decode json_loads validate later (received raw) t in
        Reachable decode json_loads validate t
        × (lookup d.job_id t.future_registry ≡ some d.ref)
        × (done (u.futures d.ref) ≡ true)
        × (lookup d.job_id u.future_registry ≢ some d.ref)
  finish_submission-ends env later s sched d cbs slurm_text m raw text event reached unused
        untracked free new h kind parsed body last =
      subst Ended (sym (returned env s sched d cbs slurm_text m h).1) ended
    where
      Ended : Tracker → Type 0
      Ended t =
          let u = poll decode json_loads validate later (received raw) t in
          Reachable decode json_loads validate t
          × (lookup d.job_id t.future_registry ≡ some d.ref)
          × (done (u.futures d.ref) ≡ true)
          × (lookup d.job_id u.future_registry ≢ some d.ref)

      t0 : Tracker
      t0 = begun d slurm_text m.tracker

      t1 : Tracker
      t1 = (set_up env d cbs t0).1

      job : (t0.futures d.ref).job_id ≡ d.job_id
      job = begun_job d slurm_text m.tracker

      free0 : Free b'/' (t0.futures d.ref).job_id
      free0 = subst (Free b'/') (sym job) free

      reached1 : Reachable decode json_loads validate t1
      reached1 =
          set_up-Reachable decode json_loads validate env d cbs t0
            (next m.tracker t0 reached (creates d.ref (new_future d slurm_text) unused))
            (ap (λ j. lookup j m.tracker.future_registry) job ∙ untracked)
            (begun_live d slurm_text m.tracker) free0 new

      ended : Ended t1
      ended =
          let f = t0.futures d.ref in
          let (there, registered) =
            set_up_monitors env d cbs t0 free0 (ground (arith, new.2.1))
              (returned env s sched d cbs slurm_text m h).0 in
          let (q, found, over, gone) =
            Reachable_poll-ends decode json_loads validate later raw d.event.id text event
              (info_for (job_topic f.job_id status_key) f.job_id (some f.slurm_job_id) none
                d.event.id)
              t1 reached1 there refl kind
              (parsed ∙ ap (λ j. ok (job_topic j status_key, event)) (sym job)) body last in
          let same : q ≡ d.ref = ground (arith, found, registered) in
          let u : Tracker = poll decode json_loads validate later (received raw) t1 in
          (
            reached1,
            ap (λ j. lookup j t1.future_registry) (sym job) ∙ registered,
            subst (λ x. done (u.futures x) ≡ true) same over,
            subst (λ j. lookup j u.future_registry ≢ some d.ref) job
                (subst (λ x. lookup f.job_id u.future_registry ≢ some x) same gone),
          )

  -- Where `submit_job` on a tracker that a new one leads to before its shutdown, with a job id, an
  -- address and subscription ids that are new, and no slash in the job id, returns its future, its
  -- tracker is again one that a new one leads to, and has the job registered under that future. The
  -- next round of the listener, where it gets a terminal status for the topic of the job's
  -- statuses, leaves the future done, and the job registered under it no more.
  pub submit_job-ends :
      (env later : Env) (h : Host) (s : Texts) (sched : Scheduler) (c : Config) (d : Draws)
      (script_path : Text) (env_path : Option Text) (working_directory : Text)
      (options : Option JobOptions) (cbs : Callbacks) (m : Manager) (raw : RawMessage Value)
      (text : Text) (event : SlurmMessage)
      → Reachable decode json_loads validate m.tracker
      → ((j : Text) → lookup j m.tracker.future_registry ≢ some d.ref)
      → lookup d.job_id m.tracker.future_registry ≡ none
      → Free b'/' d.job_id
      → NewIds (submission_ids d cbs) m.tracker.topic_by_subscription_id
      → (submit_job env h s sched c d script_path env_path working_directory options cbs m).0
        ≡ ok d.ref
      → raw.kind ≡ message
      → normalize_message decode json_loads validate raw ≡ ok (job_topic d.job_id status_key, event)
      → event.body ≡ status text
      → ends
          (parse_status later (record { metadata = event.metadata; status_text = text })).job_status
        ≡ true
      → let t =
          (submit_job env h s sched c d script_path env_path working_directory options cbs
            m).1.tracker in
        let u = poll decode json_loads validate later (received raw) t in
        Reachable decode json_loads validate t
        × (lookup d.job_id t.future_registry ≡ some d.ref)
        × (done (u.futures d.ref) ≡ true)
        × (lookup d.job_id u.future_registry ≢ some d.ref)
  submit_job-ends env later h s sched c d script_path env_path working_directory options cbs m raw
        text event reached unused untracked free new went kind parsed body last =
      let (slurm_text, sent, same, whole) =
        accepted env h s sched c d script_path env_path working_directory options cbs m d.ref
          went in
      rw whole (
        finish_submission-ends env later s sched d cbs slurm_text sent raw text event
          (subst (Reachable decode json_loads validate) (sym same) reached)
          (λ j e. unused j (sym (registry j same) ∙ e)) (registry d.job_id same ∙ untracked) free
          (subst (λ (t : Tracker). NewIds (submission_ids d cbs) t.topic_by_subscription_id)
            (sym same) new)
          (ap (λ (x : Result Ref × Manager). x.0) (sym whole) ∙ went) kind parsed body last)
    where
      registry :
          (j : Text) {t u : Tracker} (e : t ≡ u)
          → lookup j t.future_registry ≡ lookup j u.future_registry
      registry j e = ap (λ (t : Tracker). lookup j t.future_registry) e
