-- ===== src/Manager/ExitCode.antt =====
-- `_job_exit_code`, and the job states of a scheduler record.
pub mod Verdict
use slurm_manager.Base.{
  ℕ, zero, suc, Bool, true, false, Option, none, some, List, [], ◌∷◌, ◌++◌, if◌then◌else◌, ite,
}
use slurm_manager.Base.Text.{Text, codes, dec_text}
use slurm_manager.Base.Dict.{has}
use slurm_manager.Base.Result.{Result, ok, err, type_error, attribute_error, ◌>>=◌}
use slurm_manager.Base.Json.{
  Value, null, boolean, num, negsuc, str, array, object, Items, nil, cons, Fields, end, field, get,
  get_or_null, truthy, is_number,
}

-- A code as the record gives it, or the description of a signal.
pub data ExitCode : Type 0 where
  code : Value → ExitCode
  signal : Value → ExitCode

abbrev set_number : Fields → Value → Value
set_number d absent =
    if truthy (get_or_null (get (codes "set") d))
    then (elim (get (codes "number") d) [ none ↦ absent | some v ↦ v ])
    else absent

abbrev return_code : Value → Value
return_code (object d) = set_number d null
return_code v = v

abbrev signal_id : Option Value → Value
signal_id none = num 0
signal_id (some (object d)) = set_number d (num 0)
signal_id (some v) = v

-- `exit_code.get("signal", {}).get("id", {})`
abbrev signal_number : Option Value → Result Value
signal_number none = ok (num 0)
signal_number (some (object d)) = ok (signal_id (get (codes "id") d))
signal_number (some v) = err (attribute_error (codes "get"))

abbrev described : Value → Value → ExitCode
described c s = if truthy s then signal s else code c

-- `_job_exit_code`
unfoldable pub job_exit_code : Value → Result ExitCode
unfolding get truthy
job_exit_code (object d) = do
  s ← signal_number (get (codes "signal") d)
  ok (described (return_code (get_or_null (get (codes "return_code") d))) s)
job_exit_code v = ok (code v)

abbrev pub terminal_states : List Text
terminal_states =
    codes "COMPLETED"
    ∷ codes "CANCELLED"
    ∷ codes "FAILED"
    ∷ codes "TIMEOUT"
    ∷ codes "OUT_OF_MEMORY"
    ∷ codes "NODE_FAIL"
    ∷ codes "BOOT_FAIL"
    ∷ codes "DEADLINE"
    ∷ codes "PREEMPTED"
    ∷ codes "REVOKED"
    ∷ []

-- The first terminal state; a value that cannot be hashed raises before it is looked up.
unfoldable pub first_terminal : Items → Result (Option Text)
first_terminal nil = ok none
first_terminal (cons (str s) vs) =
    let rest : Result (Option Text) = first_terminal vs in
    if has s terminal_states then ok (some s) else rest
first_terminal (cons (array ws) vs) = err (type_error (codes "unhashable"))
first_terminal (cons (object d) vs) = err (type_error (codes "unhashable"))
first_terminal (cons _ vs) = first_terminal vs

unfoldable pub keys_of : Fields → Items
keys_of end = nil
keys_of (field k v d) = cons (str k) (keys_of d)

-- `[state] if isinstance(state, str) else (state or [])`, as it is iterated over.
abbrev pub states_of : Value → Result Items
states_of null = ok nil
states_of (boolean true) = err (type_error (codes "not iterable"))
states_of (boolean false) = ok nil
states_of (num zero) = ok nil
states_of (num (suc n)) = err (type_error (codes "not iterable"))
states_of (negsuc n) = err (type_error (codes "not iterable"))
states_of (str s) = ok (cons (str s) nil)
states_of (array vs) = ok vs
states_of (object d) = ok (keys_of d)

abbrev or_empty : Option Value → Value
or_empty none = array nil
or_empty (some v) = v

abbrev pub current : Value → Value
current (object d) = or_empty (get (codes "current") d)
current v = v

-- `record.get("job_state", record.get("state", []))`
abbrev pub state_of : Fields → Value
state_of d = elim (get (codes "job_state") d) [
  | none ↦ or_empty (get (codes "state") d)
  | some v ↦ v
]

abbrev pub is_success : ExitCode → Bool
is_success (code v) = is_number 0 v
is_success (signal v) = false

abbrev is_unknown : ExitCode → Bool
is_unknown (code null) = true
is_unknown _ = false

-- The message's text of an exit code; `to_str` is `str`.
abbrev pub exit_text : (Value → Text) → ExitCode → Text
exit_text to_str (code v) = to_str v
exit_text to_str (signal v) = codes "signal " ++ to_str v

-- The status that the end of `_check_slurm_job` chooses for a terminal state, if it resolves it.
unfoldable pub verdict : (Value → Text) → Text → ExitCode → Option Text
unfolding is_number
verdict to_str state e =
    ite (dec_text state (codes "COMPLETED"))
      (if is_success e
        then some (codes "finished")
        else if is_unknown e
        then none
        else some
            (codes "error:Slurm state " ++ (state ++ (codes ", exit code " ++ exit_text to_str e))))
      (ite (dec_text state (codes "CANCELLED")) (some (codes "cancelled")) (
        some
          (codes "error:Slurm state " ++ (state ++ (codes ", exit code " ++ exit_text to_str e)))))

abbrev pub judged : (Value → Text) → Fields → Option Text → Result (Option Text)
judged to_str d none = ok none
judged to_str d (some state) = do
  e ← job_exit_code (get_or_null (get (codes "exit_code") d))
  ok (verdict to_str state e)

-- `_check_slurm_job` from the record on: the status to apply, if any.
unfoldable pub resolve : (Value → Text) → Fields → Result (Option Text)
unfolding get first_terminal keys_of job_exit_code verdict
resolve to_str d = do
  states ← states_of (current (state_of d))
  state ← first_terminal states
  judged to_str d state
