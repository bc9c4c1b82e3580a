-- ===== src/Tracker/Routing/Monitored.antt =====
-- What a status that Redis delivers does to the job's future.
use slurm_manager.Base.{
  ◌≡◌, refl, sym, ap, subst, ◌∙◌, ◌≢◌, true, Option, none, some, List, [], ◌∷◌, arith, In, inl, inr,
  Option-cases, Bool-cases,
}
use slurm_manager.Base.Text.{Text}
use slurm_manager.Base.Dict.{Dict, lookup, find, entries, values, lookup-entries}
use slurm_manager.Base.Result.{Result, ok}
use slurm_manager.Message.{SlurmMessage, Body, heartbeat, status, log}
use slurm_manager.Future.{JobFuture, done}
use slurm_manager.RedisSub.{Subscription}
use slurm_manager.RedisSub.Listener.{RawMessage, received, message, normalize_message}
use slurm_manager.Tracker.Topics.{job_topic, status_key}
use slurm_manager.Tracker.State.{
  Tracker, Ref, Env, Handler, ignore_status, user_dispatch, global_dispatch, heartbeat_monitor,
  status_monitor, SubscriptionInfo,
}
use slurm_manager.Tracker.Dispatch.{enrich, call_dispatch, dispatch_global}
use slurm_manager.Tracker.Status.{StatusMessage, parse_status, apply_status, ends}
use slurm_manager.Tracker.Status.Ending.{
  apply_status-futures, apply_status-ended, apply_status-done,
}
use slurm_manager.Tracker.Status.Tasks.{submit_all-state}
use slurm_manager.Tracker.Monitor.{
  beat, change_entry, heartbeat_callback, apply_body, call_handler, deliver, poll,
}
use slurm_manager.Tracker.Tracked.{IsTracked}
use slurm_manager.Tracker.Reachable.{Reachable, next, polls, Reachable-IsTracked}
use slurm_manager.Tracker.Routing.{call_handler-body}
use slurm_manager.Tracker.Routing.Reached.{In-values, poll-deliver}

-- A future that is done stays done.
abbrev StaysDone : Ref → Tracker → Tracker → Type 0
StaysDone q t u = done (t.futures q) ≡ true → done (u.futures q) ≡ true

apply_status-StaysDone :
    (env : Env) (m : StatusMessage) (r q : Ref) (t : Tracker)
    → StaysDone q t (apply_status env m r t).1
apply_status-StaysDone env m r q t h = elim (Bool-cases (done (t.futures r))) [
  | inl over ↦ rw (apply_status-done env m r t over) h
  | inr live ↦ rw (apply_status-futures env m r t live) (ground arith)
]

dispatch_global-futures :
    (env : Env) (m : SlurmMessage) (job_id : Text) (slurm_job_id : Option Text) (t : Tracker)
    → (dispatch_global env m job_id slurm_job_id t).1.futures ≡ t.futures
unfolding dispatch_global
dispatch_global-futures env m job_id slurm_job_id t =
    ap (λ (u : Tracker). u.futures) (submit_all-state _ t)

change_entry-futures :
    (g : SubscriptionInfo → SubscriptionInfo) (topic id : Text) (o : Option SubscriptionInfo)
    (t : Tracker)
    → (change_entry g topic id o t).futures ≡ t.futures
change_entry-futures g topic id none t = refl
change_entry-futures g topic id (some info) t = refl

apply_body-StaysDone :
    (env : Env) (m : SlurmMessage) (b : Body) (r q : Ref) (t : Tracker)
    → StaysDone q t (apply_body env m b r t).1
apply_body-StaysDone env m (heartbeat timestamp) r q t h = h
apply_body-StaysDone env m (status s) r q t h = apply_status-StaysDone env _ r q t h
apply_body-StaysDone env m (log line) r q t h = h

call_handler-StaysDone :
    (env : Env) (k : Handler) (q : Ref) (m : SlurmMessage) (t : Tracker)
    → StaysDone q t (call_handler env k (m, t)).1
unfolding call_handler call_dispatch heartbeat_callback enrich
call_handler-StaysDone env ignore_status q m t h = h
call_handler-StaysDone env (user_dispatch d) q m t h = ground (arith, h)
call_handler-StaysDone env (global_dispatch job_id slurm_job_id) q m t h =
    ap (λ (fs : Ref → JobFuture). done (fs q))
      (dispatch_global-futures env m job_id (some slurm_job_id) t)
    ∙ h
call_handler-StaysDone env (heartbeat_monitor topic id job_id slurm_job_id) q m t h =
    let o = lookup id (entries (lookup topic t.subscriptions_by_topic)) in
    ap (λ (fs : Ref → JobFuture). done (fs q))
      (dispatch_global-futures env (enrich env job_id slurm_job_id m) job_id (some slurm_job_id)
          (change_entry (beat env.now) topic id o t)
        ∙ change_entry-futures (beat env.now) topic id o t)
    ∙ h
call_handler-StaysDone env (status_monitor r) q m t h =
    apply_body-StaysDone env (enrich env (t.futures r).job_id (t.futures r).slurm_job_id m) m.body r
      q t h

deliver-StaysDone :
    (env : Env) (ss : List (Subscription Handler)) (q : Ref) (m : SlurmMessage) (t : Tracker)
    → StaysDone q t (deliver env ss (m, t)).1
unfolding deliver
deliver-StaysDone env [] q m t h = h
deliver-StaysDone env (s ∷ ss) q m t h =
    deliver-StaysDone env ss q _ _ (call_handler-StaysDone env s.callback q m t h)

-- Which status a text names does not depend on the metadata.
Terminal : Env → Text → Type 0
Terminal env s =
    (metadata : Dict Text)
    → ends (parse_status env (record { metadata = metadata; status_text = s })).job_status ≡ true

parse_status-Terminal :
    (env : Env) (metadata : Dict Text) (s : Text)
    → ends (parse_status env (record { metadata = metadata; status_text = s })).job_status ≡ true
    → Terminal env s
unfolding Terminal parse_status
parse_status-Terminal env metadata s h other = ground arith

call_handler-ended :
    (env : Env) (k : Handler) (r : Ref) (m : SlurmMessage) (s : Text) (t : Tracker)
    → k ≡ status_monitor r
    → m.body ≡ status s
    → Terminal env s
    → done ((call_handler env k (m, t)).1.futures r) ≡ true
unfolding call_handler enrich Terminal
call_handler-ended env k r m s t e b h = rw (e, b) (apply_status-ended env _ r t (h _))

deliver-ended :
    (env : Env) (r : Ref) (s : Text) (sub : Subscription Handler) (ss : List (Subscription Handler))
    (m : SlurmMessage) (t : Tracker)
    → In sub ss
    → sub.callback ≡ status_monitor r
    → m.body ≡ status s
    → Terminal env s
    → done ((deliver env ss (m, t)).1.futures r) ≡ true
unfolding deliver
deliver-ended env r s sub [] m t i e b h = absurd i
deliver-ended env r s sub (x ∷ ss) m t (inl same) e b h = deliver-StaysDone env ss r _ _ (
    call_handler-ended env x.callback r m s t
      (ap (λ (y : Subscription Handler). y.callback) (sym same) ∙ e) b h)
deliver-ended env r s sub (x ∷ ss) m t (inr there) e b h =
    deliver-ended env r s sub ss _ _ there e (call_handler-body env x.callback m t ∙ b) h

module _ {Value : Type 0} (decode : Text → Result Text) (json_loads : Text → Result Value)
    (validate : Value → Result SlurmMessage) where
  -- On every tracker that a new one leads to before its shutdown, and that has a callback without a
  -- closure on the topic of a job's statuses, a round of the listener that gets a terminal status
  -- for that topic leaves the future done under which the job was tracked, and the job tracked
  -- under that future no more.
  pub Reachable_poll-ends :
      (env : Env) (raw : RawMessage Value) (i text : Text) (m : SlurmMessage)
      (info : SubscriptionInfo) (t : Tracker)
      → Reachable decode json_loads validate t
      → find (job_topic info.job_id status_key) i t.subscriptions_by_topic ≡ some info
      → info.callback ≡ none
      → raw.kind ≡ message
      → normalize_message decode json_loads validate raw ≡ ok (job_topic info.job_id status_key, m)
      → m.body ≡ status text
      → ends (parse_status env (record { metadata = m.metadata; status_text = text })).job_status
        ≡ true
      → let u = poll decode json_loads validate env (received raw) t in
        (r : Ref) × (lookup info.job_id t.future_registry ≡ some r)
        × (done (u.futures r) ≡ true)
        × (lookup info.job_id u.future_registry ≢ some r)
  Reachable_poll-ends env raw i text m info t reached there internal kind parsed body last =
      elim (Option-cases (find s i t.client.subscriptions_by_topic)) [
        | inl gone ↦ absurd (ground (arith, inv.synced.same s i))
        | inr (sub, found) ↦
            let (r, registered, monitor) =
              inv.owned.monitored s i info sub there internal refl found in
            let over : done (u.futures r) ≡ true =
              subst (λ (x : Tracker). done (x.futures r) ≡ true)
                (sym (poll-deliver decode json_loads validate env raw s m t kind parsed))
                (deliver-ended env r text sub
                  (values (entries (lookup s t.client.subscriptions_by_topic))) m t
                  (In-values i sub (entries (lookup s t.client.subscriptions_by_topic))
                    (lookup-entries i s t.client.subscriptions_by_topic ∙ found))
                  monitor body (parse_status-Terminal env m.metadata text last)) in
            (r, registered, over, λ still. gone_after r over still)
      ]
    where
      s : Text
      s = job_topic info.job_id status_key

      inv : IsTracked t
      inv = Reachable-IsTracked decode json_loads validate t reached

      u : Tracker
      u = poll decode json_loads validate env (received raw) t

      gone_after :
          (r : Ref) → done (u.futures r) ≡ true → lookup info.job_id u.future_registry ≢ some r
      gone_after r over still =
          let later =
            Reachable-IsTracked decode json_loads validate u
              (next t u reached (polls env (received raw))) in
          absurd (ground (arith, (later.owned.live info.job_id r still).1))
