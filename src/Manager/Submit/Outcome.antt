-- ===== src/Manager/Submit/Outcome.antt =====
-- What `submit_job` leaves behind: a released allocation with its future, or a cancelled one.
use slurm_manager.Base.{◌≡◌, refl, ◌≢◌, Option, none, some, List, [], ◌∷◌, ◌++◌, arith, inl, inr}
use mathlib.Core.List.{append-nil}
use slurm_manager.Base.Text.{Text}
use slurm_manager.Base.Result.{Result, ok, err, Error, Result-cases}
use slurm_manager.Future.{JobFuture, job_future}
use slurm_manager.Tracker.State.{Tracker, Ref, Env, update}
use slurm_manager.Manager.Scheduler.{Scheduler, Call, releases, cancels, Manager, called}
use slurm_manager.Manager.Submit.{
  Draws, Callbacks, Texts, set_up, give_up, after_set_up, finish_submission,
}

-- The tracker with the new future, and what the set-up makes of it.
abbrev pub new_future : Draws → Text → JobFuture
new_future d slurm_text = job_future d.job_id slurm_text none

abbrev pub attempt : Env → Draws → Callbacks → Text → Manager → Result (Unit {0}) × Tracker
attempt env d callbacks slurm_text m =
    set_up env d callbacks
      (record m.tracker { futures = update d.ref (new_future d slurm_text) m.tracker.futures })

-- The set-up as far as it failed, or the refusal of the release after it.
abbrev pub failure : Scheduler → Text → Result (Unit {0}) → Option Error
failure sched id (err e) = some e
failure sched id (ok u) = elim (sched.release id) [ ok v ↦ none | err e ↦ some e ]

-- A failed release counts among the calls.
abbrev pub release_calls : Text → Result (Unit {0}) → List Call
release_calls id (err e) = []
release_calls id (ok u) = releases id ∷ []

give_up_lem :
    (env : Env) (s : Texts) (sched : Scheduler) (r : Ref) (id : Text) (e : Error) (m : Manager)
    → let (result, u) = give_up env s sched r id e m in
      (result ≢ ok r) × (u.calls ≡ m.calls ++ cancels id ∷ [])
unfolding give_up
give_up_lem env s sched r id e m = (λ h. ground arith, ground arith)

after_set_up_lem :
    (env : Env) (s : Texts) (sched : Scheduler) (r : Ref) (id : Text) (x : Result (Unit {0}))
    (m : Manager)
    → let (result, u) = after_set_up env s sched r id x m in
      (failure sched id x ≡ none
        → (result ≡ ok r) × (u.tracker ≡ m.tracker) × (u.calls ≡ m.calls ++ releases id ∷ []))
      × ((e : Error)
          → failure sched id x ≡ some e
          → (result ≢ ok r) × (u.calls ≡ (m.calls ++ release_calls id x) ++ cancels id ∷ []))
after_set_up_lem env s sched r id (err e) m = (
  λ h. absurd (ground arith),
  λ e' h. ground (arith, append-nil m.calls, give_up_lem env s sched r id e m),
)
after_set_up_lem env s sched r id (ok u) m = elim (Result-cases (sched.release id)) [
  | inl (v, released) ↦ rw released ((λ h. (refl, refl, refl)), λ e h. absurd (ground arith))
  | inr (e, refused) ↦ rw refused (
    (λ h. absurd (ground arith)),
    λ e' h. give_up_lem env s sched r id e (called (releases id) m),
  )
]

-- Where the set-up of a submitted job and its release succeed, `submit_job` returns the future,
-- leaves the tracker as the set-up made it, and the release is the only further REST call. Where
-- either fails, the future is not returned and the last REST call is the cancellation of the
-- allocation, after no other call than a release that failed.
pub finish_submission-calls :
    (env : Env) (s : Texts) (sched : Scheduler) (d : Draws) (callbacks : Callbacks)
    (slurm_text : Text) (m : Manager)
    → let id = (new_future d slurm_text).slurm_job_id in
      let (r, t) = attempt env d callbacks slurm_text m in
      let (result, u) = finish_submission env s sched d callbacks slurm_text m in
      (failure sched id r ≡ none
        → (result ≡ ok d.ref) × (u.tracker ≡ t) × (u.calls ≡ m.calls ++ releases id ∷ []))
      × ((e : Error)
          → failure sched id r ≡ some e
          → (result ≢ ok d.ref) × (u.calls ≡ (m.calls ++ release_calls id r) ++ cancels id ∷ []))
unfolding finish_submission
finish_submission-calls env s sched d callbacks slurm_text m =
    let (r, t) = attempt env d callbacks slurm_text m in
    after_set_up_lem env s sched d.ref (new_future d slurm_text).slurm_job_id r
      (record m { tracker = t })
