-- ===== src/Tracker/State.antt =====
-- The state of a `JobTracker`, with the futures that it shares with its callers.
use slurm_manager.Base.{ℕ, Bool, true, Option, List, [], if◌then◌else◌, ◌==◌}
use slurm_manager.Base.Text.{Text}
use slurm_manager.Base.Dict.{Dict}
use slurm_manager.Base.Result.{Result, ok, err, Error}
use slurm_manager.Message.{SlurmMessage}
use slurm_manager.Future.{UserCallback, RegisteredCallback, JobFuture}
use slurm_manager.RedisSub.{Client}

-- The address of a `JobFuture` object: `is` compares these.
abbrev pub Ref : Type 0
Ref = ℕ

-- Keyword arguments for a user callback; their values are only passed on.
abbrev pub Kwargs : Type 0
Kwargs = Dict ℕ

-- The closure `dispatch` of `add_subscription`: what its `partial` binds.
pub record Dispatch : Type 0 where
  pub callback : UserCallback
  pub callback_kwargs : Option Kwargs
  pub job_id : Text
  pub slurm_job_id : Text

-- The callables that the tracker registers with the Redis client: `_ignore_status_message`, the
-- closure of `add_subscription`, the `partial` of `_dispatch_global`, and the two
-- `wrapped_callback`s that monitor heartbeats and statuses. The third and fourth hold the job's
-- two ids; the fourth also the topic and the id under which its `SubscriptionInfo` is registered.
pub data Handler : Type 0 where
  ignore_status : Handler
  user_dispatch : Dispatch → Handler
  global_dispatch : Text → Text → Handler
  heartbeat_monitor : Text → Text → Text → Text → Handler
  status_monitor : Ref → Handler

-- Times are in microseconds.
pub record SubscriptionInfo : Type 0 where
  pub topic : Text
  pub job_id : Text
  pub slurm_job_id : Option Text
  pub callback : Option Dispatch
  pub callback_id : Option Text
  pub last_heartbeat : Option ℕ
  pub heartbeat_received : Bool
  pub last_scheduler_check : Option ℕ

-- A call that the executor has accepted: `_run_callback` with these arguments.
pub record Task : Type 0 where
  pub callback : UserCallback
  pub message : SlurmMessage
  pub callback_kwargs : Kwargs

-- `futures` is the heap of `JobFuture` objects, and `executor` the tasks accepted so far.
pub record Tracker : Type 0 where
  pub client : Client Handler
  pub futures : Ref → JobFuture
  pub future_registry : Dict Ref
  pub global_callbacks : Dict RegisteredCallback
  pub subscriptions_by_topic : Dict (Dict SubscriptionInfo)
  pub topic_by_subscription_id : Dict Text
  pub active_subscriptions : Dict (List Text)
  pub executor : List Task
  pub executor_open : Bool

-- `JobTracker.__init__`, beside the objects that exist already.
unfoldable pub new_tracker : (Ref → JobFuture) → Client Handler → Tracker
new_tracker futures client = record {
  client = client;
  futures = futures;
  future_registry = [];
  global_callbacks = [];
  subscriptions_by_topic = [];
  topic_by_subscription_id = [];
  active_subscriptions = [];
  executor = [];
  executor_open = true;
}

-- An assignment to the object at an address.
abbrev pub update : Ref → JobFuture → (Ref → JobFuture) → Ref → JobFuture
update r f futures s = if r == s then f else futures s

-- What the clock and pydantic answer during a call: `time.time()`, `datetime.now().isoformat()`
-- and the text of `message.model_dump()`.
pub record Env : Type 0 where
  pub now : ℕ
  pub stamp : Text
  pub dump : SlurmMessage → Text

-- A method that may raise: the state comes back also then.
abbrev pub Exec {ℓ} : Type ℓ → Type ℓ
Exec A = Tracker → Result A × Tracker

abbrev continue {ℓ κ} :
    {A : Type ℓ} {B : Type κ}
    → Result A
    → (A → Tracker → Result B × Tracker)
    → Tracker
    → Result B × Tracker
continue (ok a) f t = f a t
continue (err e) f t = (err e, t)

infixl 5 ◌>>=◌ ◌>>◌
abbrev pub ◌>>=◌ {ℓ} : {A B : Type ℓ} → Exec A → (A → Exec B) → Exec B
◌>>=◌ m f t = let (r, t') = m t in continue r f t'

abbrev pub ◌>>◌ {ℓ} : {A B : Type ℓ} → Exec A → Exec B → Exec B
m >> k = m >>= λ _. k

abbrev pub pure {ℓ} : {A : Type ℓ} → A → Exec A
pure a t = (ok a, t)

abbrev pub raise {ℓ} : {A : Type ℓ} → Error → Exec A
raise e t = (err e, t)
