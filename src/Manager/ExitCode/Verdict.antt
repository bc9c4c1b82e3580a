-- ===== src/Manager/ExitCode/Verdict.antt =====
-- What a scheduler record means for its job.
use slurm_manager.Base.{◌≡◌, refl, true, Option, none, some, ◌++◌, arith, ◌⊎◌, subst, inl, inr}
use slurm_manager.Base.Text.{Text, codes}
use slurm_manager.Base.Dict.{Dict}
use slurm_manager.Base.Result.{ok, bind-ok, ok-injective}
use slurm_manager.Base.Json.{Value, Fields, get, get_or_null}
use slurm_manager.Future.{JobStatus, finished, error, cancelled}
use slurm_manager.Tracker.State.{Env}
use slurm_manager.Tracker.Status.{parse_status, ends}
use slurm_manager.Tracker.Status.Format.{format_status, parse_status-format}
use slurm_manager.Manager.ExitCode.{
  ExitCode, job_exit_code, exit_text, verdict, resolve, first_terminal, judged, states_of, current,
  state_of,
}

-- The text is a terminal status with its detail.
abbrev IsFinal : Text → Type 0
IsFinal text =
    (s : JobStatus) × (detail : Option Text) × (text ≡ format_status s detail) × (ends s ≡ true)

abbrev AllFinal : Option Text → Type 0
AllFinal none = Unit
AllFinal (some text) = IsFinal text

abbrev detail_of : (Value → Text) → Text → ExitCode → Text
detail_of to_str state e =
    codes "Slurm state " ++ (state ++ (codes ", exit code " ++ exit_text to_str e))

verdict_forms :
    (to_str : Value → Text) (state : Text) (e : ExitCode)
    → let v = verdict to_str state e in
      (v ≡ none)
      ⊎ ((v ≡ some (codes "finished"))
          ⊎ ((v ≡ some (codes "cancelled"))
              ⊎ (v ≡ some (codes "error:" ++ detail_of to_str state e))))
unfolding verdict
verdict_forms to_str state e = ground arith

verdict-AllFinal :
    (to_str : Value → Text) (state : Text) (e : ExitCode) → AllFinal (verdict to_str state e)
verdict-AllFinal to_str state e = elim (verdict_forms to_str state e) [
  | inl h ↦ rw h tt
  | inr (inl h) ↦ rw h (finished, none, refl, refl)
  | inr (inr (inl h)) ↦ rw h (cancelled, none, refl, refl)
  | inr (inr (inr h)) ↦ rw h (error, some (detail_of to_str state e), refl, refl)
]

judged-AllFinal :
    (to_str : Value → Text) (d : Fields) (o : Option Text) (v : Option Text)
    → judged to_str d o ≡ ok v
    → AllFinal v
judged-AllFinal to_str d none v h = subst AllFinal (ok-injective _ _ h) tt
judged-AllFinal to_str d (some state) v h =
    let (e, h1, h2) = bind-ok (job_exit_code (get_or_null (get (codes "exit_code") d))) _ v h in
    subst AllFinal (ok-injective _ _ h2) (verdict-AllFinal to_str state e)

pub resolve-ends :
    (to_str : Value → Text) (env : Env) (metadata : Dict Text) (d : Fields) (text : Text)
    → resolve to_str d ≡ ok (some text)
    → ends (parse_status env (record { metadata = metadata; status_text = text })).job_status ≡ true
unfolding resolve
resolve-ends to_str env metadata d text h =
    let (states, e1, h1) = bind-ok (states_of (current (state_of d))) _ (some text) h in
    let (state, e2, h2) = bind-ok (first_terminal states) _ (some text) h1 in
    let (s, detail, e, f) = judged-AllFinal to_str d state (some text) h2 in
    rw (e, parse_status-format env metadata s detail) f
