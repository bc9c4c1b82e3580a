-- ===== src/Options.antt =====
-- slurm_manager/job_options.py: `JobOptions`, its validation and its REST form.
pub mod Valid
use slurm_manager.Base.{
  ℕ, Bool, true, false, Option, none, some, List, [], ◌∷◌, if◌then◌else◌, ite, ltb, is_empty,
}
use slurm_manager.Base.Text.{Text, codes, dec_text}
use slurm_manager.Base.Result.{Result, ok, err, value_error, ◌>>=◌}
use slurm_manager.Base.Json.{Value, boolean, num, str, object, Fields, end, field}

-- Before and after validation; an integer below zero is refused like zero and has no value here.
pub record JobOptions : Type 0 where
  pub name : Option Text
  pub partition : Option Text
  pub account : Option Text
  pub qos : Option Text
  pub tasks : ℕ
  pub time_limit_minutes : Option ℕ
  pub standard_output : Option Text
  pub standard_error : Option Text

unfoldable pub default_options : JobOptions
default_options = record {
  name = none;
  partition = none;
  account = none;
  qos = none;
  tasks = 1;
  time_limit_minutes = none;
  standard_output = none;
  standard_error = none;
}

-- pydantic's message is not read by the program.
abbrev invalid {ℓ} : {A : Type ℓ} → Result A
invalid = err (value_error (codes "validation error"))

-- `NonEmptyString | None`; `trim` is pydantic's `strip_whitespace`.
unfoldable pub non_empty : (Text → Text) → Option Text → Result (Option Text)
non_empty trim none = ok none
non_empty trim (some s) = if is_empty (trim s) then invalid else ok (some (trim s))

abbrev pub is_partition : Text → Bool
is_partition p = ite (dec_text p (codes "hour")) true (
    ite (dec_text p (codes "day")) true
      (ite (dec_text p (codes "week")) true (ite (dec_text p (codes "gpu")) true false)))

-- `Literal[...] | None`
unfoldable pub known_partition : Option Text → Result (Option Text)
known_partition none = ok none
known_partition (some p) = if is_partition p then ok (some p) else invalid

-- `ge=1`
unfoldable pub positive : ℕ → Result ℕ
positive n = if ltb n 1 then invalid else ok n

unfoldable pub positive_or_none : Option ℕ → Result (Option ℕ)
unfolding positive
positive_or_none none = ok none
positive_or_none (some n) = do m ← positive n; ok (some m)

-- `JobOptions.model_validate`
unfoldable pub validate : (Text → Text) → JobOptions → Result JobOptions
unfolding non_empty known_partition positive_or_none
validate trim o = do
  name ← non_empty trim o.name
  partition ← known_partition o.partition
  account ← non_empty trim o.account
  qos ← non_empty trim o.qos
  tasks ← positive o.tasks
  limit ← positive_or_none o.time_limit_minutes
  out ← non_empty trim o.standard_output
  error ← non_empty trim o.standard_error
  ok (record {
    name = name;
    partition = partition;
    account = account;
    qos = qos;
    tasks = tasks;
    time_limit_minutes = limit;
    standard_output = out;
    standard_error = error;
  })

abbrev field_if : Text → Option Text → Fields → Fields
field_if k none d = d
field_if k (some s) d = field k (str s) d

abbrev time_limit : Option ℕ → Fields
time_limit none = end
time_limit (some n) =
    field (codes "time_limit")
      (object (field (codes "set") (boolean true) (field (codes "number") (num n) end))) end

-- `to_rest`
unfoldable pub to_rest : JobOptions → Fields
to_rest o = field_if (codes "name") o.name (
    field_if (codes "partition") o.partition (
      field_if (codes "account") o.account (
        field_if (codes "qos") o.qos (
          field (codes "tasks") (num o.tasks) (
            field_if (codes "standard_output") o.standard_output (
              field_if (codes "standard_error") o.standard_error
                (time_limit o.time_limit_minutes)))))))
