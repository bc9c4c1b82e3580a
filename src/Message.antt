-- ===== src/Message.antt =====
-- slurm_manager/event_messages.py: the messages that a job's worker publishes.
use slurm_manager.Base.{ℕ}
use slurm_manager.Base.Text.{Text, codes}
use slurm_manager.Base.Dict.{Dict}
use slurm_manager.Base.Result.{Result, ◌>>=◌}

-- What tells the three message classes apart. A timestamp is only carried along.
pub data Body : Type 0 where
  heartbeat : ℕ → Body
  status : Text → Body
  log : Text → Body

-- `SlurmBaseMessage` with the fields of its subclass.
pub record SlurmMessage : Type 0 where
  pub metadata : Dict Text
  pub body : Body

abbrev pub body_type : Body → Text
body_type (heartbeat timestamp) = codes "heartbeat"
body_type (status s) = codes "status"
body_type (log line) = codes "log"

-- `message.msg_type`
abbrev pub msg_type : SlurmMessage → Text
msg_type m = body_type m.body

-- A payload as `parse_slurm_message` is given it: JSON text, or an object already decoded.
pub data Payload (Value : Type 0) : Type 0 where
  text : Text → Payload Value
  object : Value → Payload Value

-- `json.loads` and pydantic's `validate_python` are not part of the repository.
module _ {Value : Type 0} (json_loads : Text → Result Value)
    (validate : Value → Result SlurmMessage) where
  unfoldable pub parse_slurm_message : Payload Value → Result SlurmMessage
  parse_slurm_message (text s) = do value ← json_loads s; validate value
  parse_slurm_message (object value) = validate value
