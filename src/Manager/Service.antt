-- ===== src/Manager/Service.antt =====
-- `SlurmManager.__init__`, the calls that it passes on, its monitor thread and `shutdown`.
pub mod Life
use slurm_manager.Base.{
  ℕ, Bool, true, false, not, Option, none, some, List, [], ◌∷◌, ◌++◌, if◌then◌else◌,
}
use slurm_manager.Base.Text.{Text, codes}
use slurm_manager.Base.Dict.{Dict}
use slurm_manager.Base.Result.{Result, ok, err, value_error, timeout_error, ◌>>=◌}
use slurm_manager.Base.Json.{Value, boolean, str}
use slurm_manager.Future.{UserCallback, JobFuture}
use slurm_manager.RedisSub.{Client}
use slurm_manager.RedisSub.Connect.{Connection, address, connect}
use slurm_manager.Rest.{RestClient}
use slurm_manager.Tracker.State.{
  Tracker, SubscriptionInfo, Kwargs, Ref, Env, Handler, Exec, new_tracker,
}
use slurm_manager.Tracker.Register.{Draw}
use slurm_manager.Tracker.Register
use slurm_manager.Tracker.Remove
use slurm_manager.Tracker.Status
use slurm_manager.Manager.Scheduler.{Scheduler, Manager, of_client, cancel_job as cancel_at}
use slurm_manager.Manager.Script.{Host, Config, is_absolute}
use slurm_manager.Manager.Submit
use slurm_manager.Manager.Submit.{Draws, Texts, Callbacks}
use slurm_manager.Options.{JobOptions}
use slurm_manager.Manager.Check.{check_slurm_job}
use slurm_manager.Tracker.Monitor.{get_missing_heartbeats}

-- A running `SlurmManager`: its settings for the worker, its clients, the flag that ends the
-- monitor thread, whether that thread is alive, and the subscriptions that its round under way has
-- yet to check.
pub record Service : Type 0 where
  pub manager : Manager
  pub config : Config
  pub rest_client : RestClient
  pub connection : Connection
  pub stop_heartbeat_thread : Bool
  pub monitoring : Bool
  pub round : List SubscriptionInfo

abbrev pub redis_options : Bool → Dict Value
redis_options false = []
redis_options true =
    (codes "ssl", boolean true)
    ∷ (codes "ssl_cert_reqs", str (codes "required"))
    ∷ (codes "ssl_check_hostname", boolean true)
    ∷ []

-- f"{redis_host}:{redis_port}", where `decimal` is `str` of a number.
abbrev pub redis_address : (ℕ → Text) → Text → ℕ → Text
redis_address decimal host port = host ++ (codes ":" ++ decimal port)

abbrev given_or : Option RestClient → Result RestClient → Result RestClient
given_or none made = made
given_or (some c) made = ok c

-- `__init__`: `made` is what the constructor of `SlurmRestClient` gives, `to_int` is `int` of a
-- text, and `futures` the objects that exist already.
unfoldable pub start :
    (Text → Option ℕ)
    → (ℕ → Text)
    → (Ref → JobFuture)
    → Result RestClient
    → Text
    → ℕ
    → Bool
    → Option RestClient
    → Text
    → Result Service
unfolding connect
start to_int decimal futures made redis_host redis_port redis_tls rest_client worker_path =
    if not (is_absolute worker_path)
    then err (value_error (codes "Worker path must be an absolute compute-node path"))
    else connected
  where
    service : RestClient → Connection × Client Handler → Service
    service c (connection, client) = record {
      manager = record { tracker = new_tracker futures client; calls = [] };
      config = record {
        worker_path = worker_path;
        redis_address = redis_address decimal redis_host redis_port;
        redis_tls = redis_tls;
      };
      rest_client = c;
      connection = connection;
      stop_heartbeat_thread = false;
      monitoring = true;
      round = [];
    }

    connected : Result Service
    connected = do
      c ← given_or rest_client made
      r ←
          connect to_int (address (redis_address decimal redis_host redis_port))
            (redis_options redis_tls)
      ok (service c r)

abbrev on_tracker : (Tracker → Tracker) → Service → Service
on_tracker g s = record s { manager = record s.manager { tracker = g s.manager.tracker } }

abbrev with_result {ℓ} : {A : Type ℓ} → Exec A → Service → Result A × Service
with_result m s =
    let (r, t) = m s.manager.tracker in (r, record s { manager = record s.manager { tracker = t } })

-- `listen`
unfoldable pub listen :
    Draw → Text → UserCallback → Option Text → Service → Result (List Text) × Service
listen d event callback job_id = with_result (Register.listen d event callback job_id)

-- `_add_subscription`
unfoldable pub add_subscription :
    Draw → Text → Text → UserCallback → Option Kwargs → Service → Result Text × Service
add_subscription d job_id key callback callback_kwargs =
    with_result (Register.add_subscription d job_id key callback callback_kwargs)

-- `remove_subscription_by_id`, and `unlisten`, which calls it
unfoldable pub remove_subscription_by_id : List Text → Service → Service
remove_subscription_by_id ids = on_tracker (Remove.remove_subscription_by_id ids)

unfoldable pub unlisten : List Text → Service → Service
unfolding remove_subscription_by_id
unlisten ids = remove_subscription_by_id ids

-- `remove_subscription_by_topic`
unfoldable pub remove_subscription_by_topic : Text → Service → Service
remove_subscription_by_topic topic = on_tracker (Remove.remove_subscription_by_topic topic)

-- `remove_subscriptions_for_job`
unfoldable pub remove_subscriptions_for_job :
    Env → Text → Bool → Service → Result (Unit {0}) × Service
remove_subscriptions_for_job env job_id skip =
    with_result (Status.remove_subscriptions_for_job env job_id skip)

abbrev with_manager {ℓ} :
    {A : Type ℓ} → (Manager → Result A × Manager) → Service → Result A × Service
with_manager g s = let (r, m) = g s.manager in (r, record s { manager = m })

-- `submit_job`, with the manager's own REST client and settings
unfoldable pub submit_job :
    Env
    → Host
    → Texts
    → Draws
    → Text
    → Option Text
    → Text
    → Option JobOptions
    → Callbacks
    → Service
    → Result Ref × Service
submit_job env h texts d script_path env_path working_directory options callbacks s =
    with_manager
      (Submit.submit_job env h texts (of_client s.rest_client) s.config d script_path env_path
        working_directory options callbacks)
      s

-- `cancel_job`
unfoldable pub cancel_job : Env → Text → Text → Service → Result (Unit {0}) × Service
cancel_job env slurm_job_id job_id s =
    with_manager (cancel_at env (of_client s.rest_client) slurm_job_id job_id) s

-- A check of the round: an error that it lets through ends the thread.
abbrev pub check_result : List SubscriptionInfo → Result (Unit {0}) × Manager → Service → Service
check_result infos (ok u, m) s = record s { manager = m; round = infos }
check_result infos (err e, m) s = record s { manager = m; monitoring = false; round = [] }

-- The thread goes on with its round whatever the flag says. Between rounds the flag ends the loop,
-- or, when the `wait` on it times out, the next round begins.
abbrev pub go_on : Env → Scheduler → (Value → Text) → List SubscriptionInfo → Service → Service
go_on env sched to_str [] s =
    if s.stop_heartbeat_thread
    then record s { monitoring = false }
    else record s { round = get_missing_heartbeats env.now s.manager.tracker }
go_on env sched to_str (info ∷ infos) s =
    check_result infos (check_slurm_job env sched to_str info s.manager) s

-- A step of the monitor thread.
unfoldable pub monitor_step : (Value → Text) → Env × Scheduler → Service → Service
unfolding check_slurm_job
monitor_step to_str (env, sched) s = if s.monitoring then go_on env sched to_str s.round s else s

-- `_heartbeat_monitoring_loop`, as far as it gets in the given steps: each element is what the
-- clock answers in a step, and the scheduler then.
unfoldable pub heartbeat_monitoring_loop :
    (Value → Text) → List (Env × Scheduler) → Service → Service
unfolding monitor_step
heartbeat_monitoring_loop to_str [] s = s
heartbeat_monitoring_loop to_str (x ∷ steps) s =
    heartbeat_monitoring_loop to_str steps (monitor_step to_str x s)

abbrev pub after_join : Bool → Service → Result (Unit {0}) × Service
after_join stopped s =
    if s.monitoring
    then (
      err (
          timeout_error
            (codes "Heartbeat monitor did not stop; retry after its Slurm query finishes")),
      s,
    )
    else (ok tt, on_tracker (Remove.shutdown stopped) s)

-- `shutdown`: `steps` are those that the monitor thread takes while it is joined, and `stopped`
-- says whether the listener ends within the timeout.
unfoldable pub shutdown :
    (Value → Text) → List (Env × Scheduler) → Bool → Service → Result (Unit {0}) × Service
unfolding heartbeat_monitoring_loop
shutdown to_str steps stopped s =
    after_join stopped
      (heartbeat_monitoring_loop to_str steps (record s { stop_heartbeat_thread = true }))
