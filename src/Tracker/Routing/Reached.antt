-- ===== src/Tracker/Routing/Reached.antt =====
-- What a message leads to on a tracker that steps lead to.
use slurm_manager.Base.{
  ◌≡◌, refl, ap, ◌∙◌, ◌≢◌, some, List, ◌++◌, [], ◌∷◌, arith, In, inl, inr, Option-cases,
}
use slurm_manager.Base.Text.{Text, dec_text}
use slurm_manager.Base.Dict.{Dict, lookup, find, entries, values}
use slurm_manager.Base.Result.{Result, ok}
use slurm_manager.Message.{SlurmMessage, Body}
use slurm_manager.RedisSub.{Subscription}
use slurm_manager.RedisSub.Listener.{
  RawMessage, received, message, normalize_message, listener_round,
}
use slurm_manager.Tracker.Topics.{job_topic, status_key}
use slurm_manager.Tracker.State.{
  Tracker, Ref, Env, Task, Handler, user_dispatch, Dispatch, SubscriptionInfo,
}
use slurm_manager.Tracker.Monitor.{deliver, poll}
use slurm_manager.Tracker.Tracked.{IsTracked}
use slurm_manager.Tracker.Routing.{Serves, closures, deliver-Serves}
use slurm_manager.Tracker.Reachable.{Reachable, Reachable-IsTracked}

pub In-values :
    (i : Text) (sub : Subscription Handler) (d : Dict (Subscription Handler))
    → lookup i d ≡ some sub
    → In sub (values d)
unfolding lookup
In-values i sub [] e = absurd (ground arith)
In-values i sub ((k, v) ∷ d) e = elim (dec_text i k) [
  | yes here ↦ inl (ground arith)
  | no other ↦ inr (In-values i sub d (ground arith))
]

-- What the tracker has registered for the closure: the client calls it, and it holds the ids of its
-- job and of the job's future.
pub record Answers (s i : Text) (info : SubscriptionInfo) (d : Dispatch) (t : Tracker)
    : Type 0 where
  pub sub : Subscription Handler
  pub called : find s i t.client.subscriptions_by_topic ≡ some sub
  pub closure : sub.callback ≡ user_dispatch d
  pub ref : Ref
  pub tracked : lookup info.job_id t.future_registry ≡ some ref
  pub job : d.job_id ≡ info.job_id
  pub slurm_job : d.slurm_job_id ≡ (t.futures ref).slurm_job_id

-- The executor has its tasks of before and then a task for each closure that the client calls on
-- the topic; every closure that the tracker has there is such a one, but for statuses.
pub record Routed (s : Text) (b : Body) (t u : Tracker) : Type 0 where
  pub fresh : List Task
  pub added : u.executor ≡ t.executor ++ fresh
  pub served :
      Serves b (closures (values (entries (lookup s t.client.subscriptions_by_topic)))) fresh
  pub registered :
      (i : Text) (info : SubscriptionInfo) (d : Dispatch)
      → find s i t.subscriptions_by_topic ≡ some info
      → info.callback ≡ some d
      → s ≢ job_topic info.job_id status_key
      → Answers s i info d t

registered-Answers :
    (s i : Text) (info : SubscriptionInfo) (d : Dispatch) (t : Tracker)
    → IsTracked t
    → find s i t.subscriptions_by_topic ≡ some info
    → info.callback ≡ some d
    → s ≢ job_topic info.job_id status_key
    → Answers s i info d t
registered-Answers s i info d t inv there closure not_status =
    elim (Option-cases (lookup info.job_id t.future_registry)) [
      | inl missing ↦ absurd ((inv.owned.placed s i info there).2 missing)
      | inr (r, e) ↦ elim (Option-cases (find s i t.client.subscriptions_by_topic)) [
        | inl gone ↦ absurd (ground (arith, inv.synced.same s i))
        | inr (sub, found) ↦ elim (inv.owned.wired s i info d sub there closure found) [
          | inr ignored ↦ absurd (not_status ignored.1)
          | inl calls ↦
              let own = inv.owned.own s i info d r there closure e in
              record {
                sub = sub;
                called = found;
                closure = calls;
                ref = r;
                tracked = e;
                job = own.0;
                slurm_job = own.1;
              }
        ]
      ]
    ]

module _ {Value : Type 0} (decode : Text → Result Text) (json_loads : Text → Result Value)
    (validate : Value → Result SlurmMessage) where
  pub poll-deliver :
      (env : Env) (raw : RawMessage Value) (s : Text) (m : SlurmMessage) (t : Tracker)
      → raw.kind ≡ message
      → normalize_message decode json_loads validate raw ≡ ok (s, m)
      → poll decode json_loads validate env (received raw) t
        ≡ (deliver env (values (entries (lookup s t.client.subscriptions_by_topic))) (m, t)).1
  unfolding poll listener_round
  poll-deliver env raw s m t k e = rw (k, e) refl

  -- On every tracker that a new one leads to before its shutdown, a round of the listener that gets
  -- a message for a topic adds tasks to those of the executor, among them one for each closure that
  -- the Redis client has on the topic, in the order of the callbacks, each with a message that has
  -- the body unchanged and, in its metadata, the ids that the closure holds. The closure of each
  -- callback that the tracker has on the topic, unless it is the topic of the job's statuses, is
  -- one that the client has there, under the same id, and the job is tracked under a future with
  -- the ids that the closure holds.
  pub Reachable_poll-Routed :
      (env : Env) (raw : RawMessage Value) (s : Text) (m : SlurmMessage) (t : Tracker)
      → Reachable decode json_loads validate t
      → raw.kind ≡ message
      → normalize_message decode json_loads validate raw ≡ ok (s, m)
      → Routed s m.body t (poll decode json_loads validate env (received raw) t)
  Reachable_poll-Routed env raw s m t reached kind parsed =
      let inv = Reachable-IsTracked decode json_loads validate t reached in
      let (fresh, added, served) =
        deliver-Serves env m.body (values (entries (lookup s t.client.subscriptions_by_topic))) m t
          inv refl in
      record {
        fresh = fresh;
        added = ap (λ (u : Tracker). u.executor) (poll-deliver env raw s m t kind parsed) ∙ added;
        served = served;
        registered = λ i info d. registered-Answers s i info d t inv;
      }
