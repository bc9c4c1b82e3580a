-- ===== src/Tracker/Register.antt =====
-- How subscriptions come into being: `track`, `listen`, `add_subscription`, `JobFuture.listen`.
pub mod Subscription
use slurm_manager.Base.{
  Bool, true, false, ◌||◌, not, Option, none, some, List, [], ◌∷◌, ◌++◌, if◌then◌else◌, ite, ◌==◌,
}
use slurm_manager.Base.Text.{Text, codes, dec_text}
use slurm_manager.Base.Dict.{Dict, lookup, insert, entries, has}
use slurm_manager.Base.Result.{Result, ok, err, Error, value_error, key_error, runtime_error}
use slurm_manager.Future.{UserCallback, RegisteredCallback, JobFuture, done, register}
use slurm_manager.RedisSub.{subscribe, unsubscribe}
use slurm_manager.Tracker.Topics.{job_topic, log_key, status_key, heartbeat_key}
use slurm_manager.Tracker.State.{
  Tracker, Ref, Env, Kwargs, Dispatch, Handler, ignore_status, user_dispatch, global_dispatch,
  heartbeat_monitor, status_monitor, SubscriptionInfo, Exec, ◌>>=◌, ◌>>◌, pure, raise, update,
}
use slurm_manager.Tracker.Status.{topics_of}

-- `set.add`
abbrev pub add : Text → List Text → List Text
add k ks = if has k ks then ks else ks ++ k ∷ []

abbrev pub registered_as : Option Text → SubscriptionInfo → Exec (Unit {0})
registered_as none info t =
    (err (value_error (codes "SubscriptionInfo.callback_id must be set before registration")), t)
registered_as (some id) info t = (
  ok tt,
  record t {
    subscriptions_by_topic =
        insert info.topic (insert id info (entries (lookup info.topic t.subscriptions_by_topic)))
          t.subscriptions_by_topic;
    topic_by_subscription_id = insert id info.topic t.topic_by_subscription_id;
    active_subscriptions =
        insert info.job_id (add info.topic (topics_of (lookup info.job_id t.active_subscriptions)))
          t.active_subscriptions;
  },
)

-- `_register_subscription_for_job`
unfoldable pub register_subscription_for_job : SubscriptionInfo → Exec (Unit {0})
register_subscription_for_job info = registered_as info.callback_id info

-- A call of the client's `subscribe`, with the id that it draws.
unfoldable pub subscribe_client : Bool → Text → Text → Handler → Exec Text
subscribe_client accepted sub_id topic h t =
    let (r, c) = subscribe accepted sub_id topic h t.client in (r, record t { client = c })

-- A new `SubscriptionInfo`, before its heartbeat fields are set.
abbrev pub info_for : Text → Text → Option Text → Option Dispatch → Text → SubscriptionInfo
info_for topic job_id slurm_job_id callback id = record {
  topic = topic;
  job_id = job_id;
  slurm_job_id = slurm_job_id;
  callback = callback;
  callback_id = some id;
  last_heartbeat = none;
  heartbeat_received = false;
  last_scheduler_check = none;
}

-- What one subscription draws from outside: its new id, and whether Redis accepts the command.
pub record Draw : Type 0 where
  pub id : Text
  pub accepted : Bool

-- `_subscribe_to_heartbeat`
unfoldable pub subscribe_to_heartbeat : Env → Draw → JobFuture → Exec (Unit {0})
unfolding subscribe_client register_subscription_for_job
subscribe_to_heartbeat env d f =
    let topic : Text = job_topic f.job_id heartbeat_key in
    do
      id ←
          subscribe_client d.accepted d.id topic
            (heartbeat_monitor topic d.id f.job_id f.slurm_job_id)
      register_subscription_for_job
          (record (info_for topic f.job_id (some f.slurm_job_id) none id) {
            last_heartbeat = some env.now;
          })

-- `_subscribe_to_event`
unfoldable pub subscribe_to_event : Draw → Ref → JobFuture → Exec (Unit {0})
unfolding subscribe_client register_subscription_for_job
subscribe_to_event d r f =
    let topic : Text = job_topic f.job_id status_key in
    do
      id ← subscribe_client d.accepted d.id topic (status_monitor r)
      register_subscription_for_job (info_for topic f.job_id (some f.slurm_job_id) none id)

-- `_subscribe_to_log`
unfoldable pub subscribe_to_log : Draw → JobFuture → Exec (Unit {0})
unfolding subscribe_client register_subscription_for_job
subscribe_to_log d f =
    let topic : Text = job_topic f.job_id log_key in
    do
      id ← subscribe_client d.accepted d.id topic (global_dispatch f.job_id f.slurm_job_id)
      register_subscription_for_job (info_for topic f.job_id none none id)

-- `_subscribe_to_internal_topics`
abbrev pub subscribe_to_internal_topics :
    Env → Draw → Draw → Draw → Ref → JobFuture → Exec (Unit {0})
subscribe_to_internal_topics env d e l r f = do
  subscribe_to_heartbeat env d f
  subscribe_to_event e r f
  subscribe_to_log l f

-- `track`; it raises where Redis refuses a subscription.
unfoldable pub track : Env → Draw → Draw → Draw → Ref → Exec (Unit {0})
unfolding subscribe_to_heartbeat subscribe_to_event subscribe_to_log
track env d e l r t =
    let f : JobFuture = t.futures r in
    subscribe_to_internal_topics env d e l r f
      (record t { future_registry = insert f.job_id r t.future_registry })

-- `get_future`
abbrev pub get_future : Text → Tracker → Option Ref
get_future job_id t = lookup job_id t.future_registry

abbrev pub inactive : Text → Error
inactive job_id = runtime_error (codes "Job " ++ job_id ++ codes " is no longer active")

abbrev pub finished_meanwhile : Text → Error
finished_meanwhile job_id =
    runtime_error (codes "Job " ++ job_id ++ codes " finished during subscription registration")

abbrev active_ref : Text → Option Ref → Exec Ref
active_ref job_id none t = (err (inactive job_id), t)
active_ref job_id (some r) t = if done (t.futures r) then (err (inactive job_id), t) else (ok r, t)

-- The first locked part of `add_subscription`.
unfoldable pub begin_subscription : Text → Exec Ref
begin_subscription job_id t = active_ref job_id (lookup job_id t.future_registry) t

-- `self._future_registry.get(job_id) is future`
abbrev pub is_ref : Ref → Option Ref → Bool
is_ref r none = false
is_ref r (some s) = s == r

abbrev pub dispatch_of : UserCallback → Option Kwargs → JobFuture → Text → Dispatch
dispatch_of callback kwargs f job_id = record {
  callback = callback;
  callback_kwargs = kwargs;
  job_id = job_id;
  slurm_job_id = f.slurm_job_id;
}

abbrev pub redis_callback : Text → Dispatch → Handler
redis_callback key d = ite (dec_text key status_key) ignore_status (user_dispatch d)

undo_subscription : Text → Text → Exec Text
undo_subscription job_id id t =
    (err (finished_meanwhile job_id), record t { client = (unsubscribe id t.client).1 })

keep_subscription : Text → Text → UserCallback → Option Kwargs → Ref → Text → Exec Text
unfolding register_subscription_for_job
keep_subscription job_id key callback kwargs r id t =
    (register_subscription_for_job (
          info_for (job_topic job_id key) job_id (some (t.futures r).slurm_job_id)
            (some (dispatch_of callback kwargs (t.futures r) job_id)) id)
        >> pure id)
      t

-- The second locked part, which undoes the Redis subscription if the job is gone meanwhile.
unfoldable pub finish_subscription :
    Text → Text → UserCallback → Option Kwargs → Ref → Text → Exec Text
unfolding undo_subscription keep_subscription
finish_subscription job_id key callback kwargs r id t =
    if not (is_ref r (lookup job_id t.future_registry)) || done (t.futures r)
    then undo_subscription job_id id t
    else keep_subscription job_id key callback kwargs r id t

-- The call of the client between the two locked parts.
unfoldable pub place_subscription :
    Draw → Text → Text → UserCallback → Option Kwargs → Ref → Exec Text
unfolding subscribe_client
place_subscription d job_id key callback kwargs r t =
    subscribe_client d.accepted d.id (job_topic job_id key)
      (redis_callback key (dispatch_of callback kwargs (t.futures r) job_id)) t

-- `add_subscription` where no other thread comes between its parts.
unfoldable pub add_subscription : Draw → Text → Text → UserCallback → Option Kwargs → Exec Text
unfolding begin_subscription place_subscription finish_subscription
add_subscription d job_id key callback kwargs = do
  r ← begin_subscription job_id
  id ← place_subscription d job_id key callback kwargs r
  finish_subscription job_id key callback kwargs r id

-- `JobFuture.listen`
unfoldable pub future_listen : Draw → Ref → Text → UserCallback → Exec Text
unfolding add_subscription
future_listen d r event callback t =
    (do
      id ← add_subscription d (t.futures r).job_id event callback none
      λ u. (
        ok id,
        record u {
          futures =
              update r
                (register (record { id = id; event = event; callback = callback }) (u.futures r))
                u.futures;
        },
      ))
      t

abbrev pub is_event : Text → Bool
is_event e =
    ite (dec_text e heartbeat_key) true
      (ite (dec_text e log_key) true (ite (dec_text e status_key) true false))

abbrev pub listen_to : Draw → Text → UserCallback → Option Ref → Text → Exec (List Text)
listen_to d event callback none job_id = raise (key_error job_id)
listen_to d event callback (some r) job_id = do
  id ← future_listen d r event callback
  pure (id ∷ [])

abbrev pub listen_on : Draw → Text → UserCallback → Option Text → Exec (List Text)
listen_on d event callback none t = (
  ok (d.id ∷ []),
  record t {
    global_callbacks =
        insert d.id (record { id = d.id; event = event; callback = callback }) t.global_callbacks;
  },
)
listen_on d event callback (some job_id) t =
    listen_to d event callback (lookup job_id t.future_registry) job_id t

-- `listen`; a registration for all jobs draws an id and needs nothing of Redis.
unfoldable pub listen : Draw → Text → UserCallback → Option Text → Exec (List Text)
unfolding future_listen
listen d event callback job_id t =
    if is_event event
    then listen_on d event callback job_id t
    else (err (value_error (codes "Event type must be log, status, or heartbeat")), t)
