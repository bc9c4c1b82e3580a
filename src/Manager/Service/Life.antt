-- ===== src/Manager/Service/Life.antt =====
-- How a manager starts and how it ends.
use slurm_manager.Base.{
  ◌≡◌, refl, ◌↔◌, ℕ, Bool, true, false, Option, some, List, [], ◌∷◌, arith, if◌then◌else◌, length,
  subst, sym, ap, ◌∙◌, ◌<◌, Bool-cases, suc, inl, inr,
}
use slurm_manager.Base.Text.{Text, Free}
use slurm_manager.Base.Result.{Result, ok, err, Error}
use slurm_manager.Base.Json.{Value}
use slurm_manager.Future.{JobFuture}
use slurm_manager.RedisSub.Connect.{parse_address-format, connect, parse_bootstrap}
use slurm_manager.Rest.{RestClient}
use slurm_manager.Tracker.State.{Ref, Env, SubscriptionInfo}
use slurm_manager.Tracker.Remove
use slurm_manager.Tracker.Monitor.{get_missing_heartbeats}
use slurm_manager.Manager.Script.{is_absolute}
use slurm_manager.Manager.Scheduler.{Scheduler, Manager}
use slurm_manager.Manager.Service.{
  Service, start, shutdown, heartbeat_monitoring_loop, redis_address, monitor_step, go_on,
  check_result, after_join,
}
use slurm_manager.Manager.Check.{check_slurm_job}

-- Where `int` reads a port back from its text and the host has no colon, a manager that is
-- constructed has an absolute worker path, connects its Redis client to the given host and port,
-- and hands the worker that same address.
pub start-connection :
    (to_int : Text → Option ℕ) (decimal : ℕ → Text) (futures : Ref → JobFuture)
    (made : Result RestClient) (host : Text) (port : ℕ) (tls : Bool) (given : Option RestClient)
    (worker_path : Text) (s : Service)
    → to_int (decimal port) ≡ some port
    → Free b':' host
    → start to_int decimal futures made host port tls given worker_path ≡ ok s
    → (is_absolute worker_path ≡ true)
      × (s.connection.host ≡ host)
      × (s.connection.port ≡ port)
      × (s.config.redis_address ≡ redis_address decimal host port)
      × (s.config.worker_path ≡ worker_path)
unfolding start connect parse_bootstrap
start-connection to_int decimal futures made host port tls given worker_path s h free e =
    let p = parse_address-format to_int decimal host port h free in
    (ground (arith, p), ground (arith, p), ground (arith, p), ground (arith, p), ground (arith, p))

-- A thread that has ended does nothing.
loop_dead :
    (to_str : Value → Text) (steps : List (Env × Scheduler)) (s : Service)
    → s.monitoring ≡ false
    → heartbeat_monitoring_loop to_str steps s ≡ s
unfolding heartbeat_monitoring_loop monitor_step
loop_dead to_str [] s e = refl
loop_dead to_str ((env, sched) ∷ steps) s e =
    subst
      (λ b.
        heartbeat_monitoring_loop to_str steps (if b then go_on env sched to_str s.round s else s)
        ≡ s)
      (sym e) (loop_dead to_str steps s e)

-- What the loop does in the steps after a check of its round.
loop_checked :
    (to_str : Value → Text) (steps : List (Env × Scheduler)) (infos : List SubscriptionInfo)
    (x : Result (Unit {0}) × Manager) (s : Service)
    → ((u : Service)
        → u.stop_heartbeat_thread ≡ s.stop_heartbeat_thread
        → u.round ≡ infos
        → (heartbeat_monitoring_loop to_str steps u).monitoring ≡ false)
    → (heartbeat_monitoring_loop to_str steps (check_result infos x s)).monitoring ≡ false
loop_checked to_str steps infos (ok v, m) s h =
    h (record s { manager = m; round = infos }) refl refl
loop_checked to_str steps infos (err e, m) s h =
    ap (λ (u : Service). u.monitoring)
      (loop_dead to_str steps (record s { manager = m; monitoring = false; round = [] }) refl)

-- A step between rounds ends the thread once the flag is set, and one in a round goes on with it.
loop_goes_on :
    (env : Env) (sched : Scheduler) (to_str : Value → Text) (steps : List (Env × Scheduler))
    (infos : List SubscriptionInfo) (s : Service)
    → s.stop_heartbeat_thread ≡ true
    → length infos < suc (length steps)
    → ((rest : List SubscriptionInfo) (u : Service)
        → u.stop_heartbeat_thread ≡ true
        → u.round ≡ rest
        → length rest < length steps
        → (heartbeat_monitoring_loop to_str steps u).monitoring ≡ false)
    → (heartbeat_monitoring_loop to_str steps (go_on env sched to_str infos s)).monitoring ≡ false
loop_goes_on env sched to_str steps [] s flag h more =
    subst
      (λ b.
        (heartbeat_monitoring_loop to_str steps (
          if b
          then record s { monitoring = false }
          else record s { round = get_missing_heartbeats env.now s.manager.tracker })).monitoring
        ≡ false)
      (sym flag)
      (ap (λ (u : Service). u.monitoring)
        (loop_dead to_str steps (record s { monitoring = false }) refl))
loop_goes_on env sched to_str steps (info ∷ infos) s flag h more =
    loop_checked to_str steps infos (check_slurm_job env sched to_str info s.manager) s
      (λ u kept next. more infos u (kept ∙ flag) next (omega arith))

-- Once the flag is set, a step for each check that is left and one more end the thread.
loop_ends :
    (to_str : Value → Text) (steps : List (Env × Scheduler)) (infos : List SubscriptionInfo)
    (s : Service)
    → s.stop_heartbeat_thread ≡ true
    → s.round ≡ infos
    → length infos < length steps
    → (heartbeat_monitoring_loop to_str steps s).monitoring ≡ false
unfolding heartbeat_monitoring_loop monitor_step
loop_ends to_str [] infos s flag left h = absurd (omega arith)
loop_ends to_str ((env, sched) ∷ steps) infos s flag left h = elim (Bool-cases s.monitoring) [
  | inr dead ↦
      ap (λ (u : Service). u.monitoring) (loop_dead to_str ((env, sched) ∷ steps) s dead) ∙ dead
  | inl alive ↦
      subst
        (λ b.
          (heartbeat_monitoring_loop to_str steps
            (if b then go_on env sched to_str s.round s else s)).monitoring
          ≡ false)
        (sym alive)
        (loop_goes_on env sched to_str steps s.round s flag
          (subst (λ x. length x < suc (length steps)) (sym left) h)
          (λ rest u. loop_ends to_str steps rest u))
]

after_join_lem :
    (to_str : Value → Text) (later : List (Env × Scheduler)) (stopped : Bool) (s : Service)
    → let (r, u) = after_join stopped s in
      ((r ≡ ok tt) ↔ (s.monitoring ≡ false))
      × (r ≡ ok tt
          → (u.manager ≡ record s.manager { tracker = Remove.shutdown stopped s.manager.tracker })
            × (heartbeat_monitoring_loop to_str later u ≡ u))
      × ((e : Error) → r ≡ err e → u ≡ s)
after_join_lem to_str later stopped s = (
  (λ h. ground arith, λ h. ground arith),
  λ h. (ground arith, loop_dead to_str later (after_join stopped s).1 (ground arith)),
  λ e h. ground arith,
)

retried :
    (to_str : Value → Text) (steps : List (Env × Scheduler)) (stopped : Bool) (s : Service)
    → length s.round < length steps
    → (shutdown to_str steps stopped s).0 ≡ ok tt
unfolding shutdown
retried to_str steps stopped s h =
    let v = heartbeat_monitoring_loop to_str steps (record s { stop_heartbeat_thread = true }) in
    (after_join_lem to_str [] stopped v).0.1
      (loop_ends to_str steps s.round (record s { stop_heartbeat_thread = true }) refl refl h)

-- The manager's `shutdown` succeeds where the monitor thread takes, while it is joined, a step for
-- each check that its round under way has left, and one more. Where it succeeds, it shuts the
-- tracker down as the monitor thread left it, and no later step of that thread changes anything.
-- Where it raises, it leaves the tracker as the monitor thread left it, and a second `shutdown`
-- succeeds where the thread then takes a step for each check left and one more.
pub shutdown_ends :
    (to_str : Value → Text) (steps later : List (Env × Scheduler)) (stopped again : Bool)
    (s : Service)
    → let v = heartbeat_monitoring_loop to_str steps (record s { stop_heartbeat_thread = true }) in
      let (r, u) = shutdown to_str steps stopped s in
      (length s.round < length steps → r ≡ ok tt)
      × (r ≡ ok tt
          → (u.manager ≡ record v.manager { tracker = Remove.shutdown stopped v.manager.tracker })
            × (heartbeat_monitoring_loop to_str later u ≡ u))
      × ((e : Error)
          → r ≡ err e
          → (u.manager ≡ v.manager)
            × (length u.round < length later → (shutdown to_str later again u).0 ≡ ok tt))
unfolding shutdown
shutdown_ends to_str steps later stopped again s =
    let v = heartbeat_monitoring_loop to_str steps (record s { stop_heartbeat_thread = true }) in
    let a = after_join_lem to_str later stopped v in
    (
      λ h. retried to_str steps stopped s h,
      a.1,
      λ e h. (
        ap (λ (x : Service). x.manager) (a.2 e h),
        λ k. retried to_str later again (after_join stopped v).1 k,
      ),
    )
