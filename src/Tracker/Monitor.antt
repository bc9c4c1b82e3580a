-- ===== src/Tracker/Monitor.antt =====
-- Delivery of Redis messages to the tracker's handlers, and the check for missing heartbeats.
pub mod Missing
pub mod Checks
use slurm_manager.Base.{
  ℕ, ◌-◌, Bool, true, false, ◌&&◌, ◌||◌, not, Option, none, some, List, [], ◌∷◌, ◌++◌, leb, ◌==◌,
  if◌then◌else◌,
}
use slurm_manager.Base.Text.{Text, codes}
use slurm_manager.Base.Dict.{Dict, lookup, insert, entries, values, has}
use slurm_manager.Message.{SlurmMessage, Body, heartbeat, status, log}
use slurm_manager.Future.{done}
use slurm_manager.Base.Result.{Result, ok, err, attribute_error}
use slurm_manager.RedisSub.{Subscription}
use slurm_manager.RedisSub.Listener.{Poll, listener_round}
use slurm_manager.Tracker.Topics.{job_topic, heartbeat_key}
use slurm_manager.Tracker.State.{
  Tracker, Ref, Env, Handler, ignore_status, user_dispatch, global_dispatch, heartbeat_monitor,
  status_monitor, SubscriptionInfo, Exec,
}
use slurm_manager.Tracker.Dispatch.{enrich, call_dispatch, dispatch_global}
use slurm_manager.Tracker.Status.{StatusMessage, apply_status}

-- `HEARTBEAT_TIMEOUT`, ten seconds in microseconds.
abbrev pub heartbeat_timeout : ℕ
heartbeat_timeout = 10000000

abbrev pub beat : ℕ → SubscriptionInfo → SubscriptionInfo
beat now info = record info { heartbeat_received = true; last_heartbeat = some now }

-- An assignment to the registered object of that topic and id. An object that is registered no
-- more is out of the tracker's reach.
abbrev pub change_entry :
    (SubscriptionInfo → SubscriptionInfo)
    → Text
    → Text
    → Option SubscriptionInfo
    → Tracker
    → Tracker
change_entry g topic id none t = t
change_entry g topic id (some info) t = record t {
  subscriptions_by_topic =
      insert topic (insert id (g info) (entries (lookup topic t.subscriptions_by_topic)))
        t.subscriptions_by_topic;
}

-- `_heartbeat_callback`
unfoldable pub heartbeat_callback : Env → SlurmMessage → Text → Text → Text → Text → Exec (Unit {0})
heartbeat_callback env m topic id job_id slurm_job_id t =
    dispatch_global env m job_id (some slurm_job_id) (
      change_entry (beat env.now) topic id
        (lookup id (entries (lookup topic t.subscriptions_by_topic))) t)

-- A status handler that is given a message of another class raises before it changes anything.
abbrev pub apply_body : Env → SlurmMessage → Body → Ref → Exec (Unit {0})
apply_body env m (heartbeat timestamp) r t = (err (attribute_error (codes "status")), t)
apply_body env m (status s) r t =
    apply_status env (record { metadata = m.metadata; status_text = s }) r t
apply_body env m (log line) r t = (err (attribute_error (codes "status")), t)

-- A call of a registered handler, with the message as it leaves it. What the handler raises is
-- caught and logged, by itself or by the listener.
unfoldable pub call_handler : Env → Handler → SlurmMessage × Tracker → SlurmMessage × Tracker
unfolding heartbeat_callback enrich
call_handler env ignore_status (m, t) = (m, t)
call_handler env (user_dispatch d) (m, t) = (call_dispatch env d m t).1
call_handler env (global_dispatch job_id slurm_job_id) (m, t) =
    (m, (dispatch_global env m job_id (some slurm_job_id) t).1)
call_handler env (heartbeat_monitor topic id job_id slurm_job_id) (m, t) =
    let m' : SlurmMessage = enrich env job_id slurm_job_id m in
    (m', (heartbeat_callback env m' topic id job_id slurm_job_id t).1)
call_handler env (status_monitor r) (m, t) =
    let m' : SlurmMessage = enrich env (t.futures r).job_id (t.futures r).slurm_job_id m in
    (m', (apply_body env m' m'.body r t).1)

-- The listener's loop over the callbacks of a message, on a snapshot of them.
unfoldable pub deliver :
    Env → List (Subscription Handler) → SlurmMessage × Tracker → SlurmMessage × Tracker
unfolding call_handler
deliver env [] mt = mt
deliver env (s ∷ ss) mt = deliver env ss (call_handler env s.callback mt)

-- Whether more than the timeout has passed; a clock that was set back counts as no time.
abbrev pub is_over : ℕ → ℕ → Bool
is_over now last = not (leb (now - last) heartbeat_timeout)

-- `not sub_info.last_heartbeat` holds of None and of 0.
abbrev is_stale : ℕ → Option ℕ → Bool
is_stale now none = false
is_stale now (some last) = not (last == 0) && is_over now last

abbrev is_checkable : ℕ → Option ℕ → Bool
is_checkable now none = true
is_checkable now (some last) = is_over now last

-- The tests of the inner loop of `get_missing_heartbeats`.
abbrev pub is_missing : ℕ → SubscriptionInfo → Bool
is_missing now info = is_stale now info.last_heartbeat && is_checkable now info.last_scheduler_check

unfoldable pub missing_in : ℕ → List SubscriptionInfo → List SubscriptionInfo
missing_in now [] = []
missing_in now (info ∷ infos) =
    let rest : List SubscriptionInfo = missing_in now infos in
    if is_missing now info then info ∷ rest else rest

abbrev pub missing_of : ℕ → Text → List Text → Tracker → List SubscriptionInfo
missing_of now job_id topics t =
    if has (job_topic job_id heartbeat_key) topics
    then missing_in now
        (values (entries (lookup (job_topic job_id heartbeat_key) t.subscriptions_by_topic)))
    else []

unfoldable pub missing_over : ℕ → Dict (List Text) → Tracker → List SubscriptionInfo
missing_over now [] t = []
missing_over now ((job_id, topics) ∷ active) t =
    missing_of now job_id topics t ++ missing_over now active t

-- `get_missing_heartbeats`
unfoldable pub get_missing_heartbeats : ℕ → Tracker → List SubscriptionInfo
unfolding missing_over
get_missing_heartbeats now t = missing_over now t.active_subscriptions t

abbrev pub checked : ℕ → Option ℕ → SubscriptionInfo → SubscriptionInfo
checked now none info = info
checked now (some last) info = record info { last_scheduler_check = some now }

unfoldable pub check_all : ℕ → Dict SubscriptionInfo → Dict SubscriptionInfo
check_all now [] = []
check_all now ((id, info) ∷ infos) =
    (id, checked now info.last_heartbeat info) ∷ check_all now infos

abbrev pub check_topic : ℕ → Text → Option (Dict SubscriptionInfo) → Tracker → Tracker
check_topic now topic none t = t
check_topic now topic (some infos) t = record t {
  subscriptions_by_topic = insert topic (check_all now infos) t.subscriptions_by_topic;
}

abbrev pub begin_check : ℕ → Text → Option Ref → Tracker → Option Ref × Tracker
begin_check now job_id none t = (none, t)
begin_check now job_id (some r) t = if done (t.futures r) then (none, t) else (
  some r,
  check_topic now (job_topic job_id heartbeat_key)
      (lookup (job_topic job_id heartbeat_key) t.subscriptions_by_topic) t,
)

-- `begin_scheduler_check`
unfoldable pub begin_scheduler_check : ℕ → Text → Tracker → Option Ref × Tracker
unfolding check_all
begin_scheduler_check now job_id t = begin_check now job_id (lookup job_id t.future_registry) t

-- What the listener makes of the message of a round.
abbrev pub delivered_to :
    Env → Option (SlurmMessage × List (Subscription Handler)) → Tracker → Tracker
delivered_to env none t = t
delivered_to env (some (m, ss)) t = (deliver env ss (m, t)).1

-- A round of `_listener_loop` of the tracker's client, with the handlers that it calls.
module _ {Value : Type 0} (decode : Text → Result Text) (json_loads : Text → Result Value)
    (validate : Value → Result SlurmMessage) where
  unfoldable pub poll : Env → Poll Value → Tracker → Tracker
  unfolding listener_round deliver
  poll env p t =
      let (c, o) = listener_round decode json_loads validate p t.client in
      delivered_to env o (record t { client = c })
