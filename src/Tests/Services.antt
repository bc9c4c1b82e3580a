-- ===== src/Tests/Services.antt =====
-- Examples on the constructors and on a manager's life.
use slurm_manager.Base.{◌||◌, ◌≡◌, refl, ℕ, true, false, none, some, Option, [], ◌==◌}
use slurm_manager.Base.Text.{Text, codes, split_once}
use slurm_manager.Base.Json.{object, field, str, end}
use slurm_manager.Base.Result.{ok, err, Error}
use slurm_manager.Rest.{RestClient, Settings, body}
use slurm_manager.Rest.Connect.{Libraries}
use slurm_manager.Rest.Connect.{rest_client}
use slurm_manager.Rest.Configured.{IsConfigured, rest_client-IsConfigured}
use slurm_manager.Base.Text.{dec_text}
use slurm_manager.Tracker.Remove
use slurm_manager.Tracker.State.{new_tracker}
use slurm_manager.RedisSub.{new_client}
use slurm_manager.Manager.Script.{is_absolute}
use slurm_manager.Manager.Service.{
  Service, start, shutdown, heartbeat_monitoring_loop, redis_address,
}
use slurm_manager.Manager.Service.Life.{start-connection, shutdown_ends}
use slurm_manager.Tests.Data.{env, job, tracker, heartbeat_info}
use slurm_manager.Tracker.State.{Env}
use slurm_manager.Manager.Scheduler.{Scheduler, of_client}
use slurm_manager.Base.{length, ◌<◌, ◌∷◌}

abbrev settings : Settings
settings = record {
  rest_url = codes "http://s/";
  rest_api_version = [];
  jwt = codes "k";
  user = [];
}

abbrev libraries : Libraries
libraries = record {
  urlsplit = λ s. some (record {
    scheme = codes "http";
    hostname = some (codes "s");
    username = none;
    password = none;
    query = [];
    fragment = [];
  });
  open_request = λ n q. body (codes "{}");
  json_loads = λ s. some (object (field (codes "job_id") (str (codes "7")) end));
  json_dumps = λ v. codes "{}";
  is_digit = λ c. c == b'0' || c == b'4';
  is_decimal = λ c. c == b'0' || c == b'4';
  to_str = λ v. codes "1";
  decimal = λ n. codes "404";
}

abbrev rest : RestClient
rest = record {
  url = codes "http://s";
  api_version = codes "v0.0.44";
  current = settings;
  open_request = libraries.open_request 30;
  json_loads = libraries.json_loads;
  json_dumps = libraries.json_dumps;
  is_digit = libraries.is_digit;
  to_str = libraries.to_str;
  decimal = libraries.decimal;
}

rest_client-IsConfigured_example : IsConfigured libraries 30 rest
unfolding rest_client dec_text
rest_client-IsConfigured_example = rest_client-IsConfigured libraries 30 settings rest refl

abbrev to_int : Text → Option ℕ
to_int s = some 6379

abbrev decimal : ℕ → Text
decimal n = codes "6379"

abbrev pub service : Service
service = record {
  manager = record { tracker = new_tracker (λ r. job) new_client; calls = [] };
  config = record { worker_path = codes "/w"; redis_address = codes "h:6379"; redis_tls = false };
  rest_client = rest;
  connection = record { host = codes "h"; port = 6379; options = [] };
  stop_heartbeat_thread = false;
  monitoring = true;
  round = [];
}

start-connection_example :
    (is_absolute (codes "/w") ≡ true)
    × (service.connection.host ≡ codes "h")
    × (service.connection.port ≡ 6379)
    × (service.config.redis_address ≡ redis_address decimal (codes "h") 6379)
    × (service.config.worker_path ≡ codes "/w")
unfolding start split_once
start-connection_example =
    start-connection to_int decimal (λ r. job) (ok rest) (codes "h") 6379 false none (codes "/w")
      service refl (refl, tt) refl

-- A manager whose monitor has one check left when it is shut down, and a step during the join.
abbrev busy : Service
busy = record service {
  manager = record { tracker = tracker; calls = [] };
  round = heartbeat_info ∷ [];
}

abbrev answers : Env × Scheduler
answers = (env, of_client rest)

shutdown_ends_example :
    let v =
      heartbeat_monitoring_loop rest.to_str
        (answers ∷ [])
        (record busy { stop_heartbeat_thread = true }) in
    let (r, u) = shutdown rest.to_str (answers ∷ []) true busy in
    (length (heartbeat_info ∷ []) < length (answers ∷ []) → r ≡ ok tt)
    × (r ≡ ok tt
        → (u.manager ≡ record v.manager { tracker = Remove.shutdown true v.manager.tracker })
          × (heartbeat_monitoring_loop rest.to_str (answers ∷ []) u ≡ u))
    × ((e : Error)
        → r ≡ err e
        → (u.manager ≡ v.manager)
          × (length u.round < length (answers ∷ [])
              → (shutdown rest.to_str (answers ∷ []) true u).0 ≡ ok tt))
shutdown_ends_example = shutdown_ends rest.to_str (answers ∷ []) (answers ∷ []) true true busy
