-- ===== src/RedisSub/Waiting.antt =====
-- `wait_until_subscribed`: one deadline for the acknowledgements of several topics.
use Prim.Native.Nat.{max}
use slurm_manager.Base.{
  ℕ, ◌+◌, ◌≤◌, ◌≡◌, refl, ◌≢◌, ◌↔◌, Bool, true, false, Option, none, some, List, [], ◌∷◌, arith,
  leb, Option-cases, inl, inr,
}
use slurm_manager.Base.Text.{Text}
use slurm_manager.Base.Dict.{Dict, lookup}
use slurm_manager.Base.Result.{Result, Result-cases, ok, err, key_error, timeout_error, ◌>>=◌}
use slurm_manager.RedisSub.{Client}

-- The list comprehension that looks the topics' events up.
look_up_events : Dict Bool → List Text → Result (List Text)
look_up_events ready [] = ok []
look_up_events ready (t ∷ ts) =
    let rest : Result (List Text) = look_up_events ready ts >>= λ us. ok (t ∷ us) in
    elim (lookup t ready) [ none ↦ err (key_error t) | some flag ↦ rest ]

-- When the flag of a topic is set, if ever; a flag that is set already has a past instant.
-- `event.wait(max(0, deadline - now))` returns at that instant, or after the deadline.
wait_for_events : (Text → Option ℕ) → ℕ → ℕ → List Text → Result (Unit {0})
wait_for_events acknowledged deadline now [] = ok tt
wait_for_events acknowledged deadline now (t ∷ ts) = elim (acknowledged t) [
  | none ↦ err (timeout_error t)
  | some at ↦ elim (leb at (max now deadline)) [
    | true ↦ wait_for_events acknowledged deadline (max now at) ts
    | false ↦ err (timeout_error t)
  ]
]

-- `wait_until_subscribed`
unfoldable pub wait_until_subscribed {ℓ} :
    {H : Type ℓ} → (Text → Option ℕ) → ℕ → ℕ → List Text → Client H → Result (Unit {0})
unfolding look_up_events wait_for_events
wait_until_subscribed acknowledged timeout now topics c = do
  ready ← look_up_events c.subscription_ready topics
  wait_for_events acknowledged (now + timeout) now ready

abbrev pub AllRegistered : Dict Bool → List Text → Type 0
AllRegistered ready [] = Unit
AllRegistered ready (t ∷ ts) = (lookup t ready ≢ none) × AllRegistered ready ts

abbrev pub AllAcknowledged : (Text → Option ℕ) → ℕ → List Text → Type 0
AllAcknowledged acknowledged deadline [] = Unit
AllAcknowledged acknowledged deadline (t ∷ ts) =
    ((at : ℕ) × (acknowledged t ≡ some at) × (at ≤ deadline))
    × AllAcknowledged acknowledged deadline ts

look_up_events-ok :
    (ready : Dict Bool) (ts : List Text) → AllRegistered ready ts → look_up_events ready ts ≡ ok ts
unfolding look_up_events
look_up_events-ok ready [] h = refl
look_up_events-ok ready (t ∷ ts) h = ground (arith, look_up_events-ok ready ts h.1)

look_up_events-AllRegistered :
    (ready : Dict Bool) (ts us : List Text)
    → look_up_events ready ts ≡ ok us
    → AllRegistered ready ts × (us ≡ ts)
unfolding look_up_events
look_up_events-AllRegistered ready [] us e = ground arith
look_up_events-AllRegistered ready (t ∷ ts) us e = elim (Result-cases (look_up_events ready ts)) [
  | inl (vs, found) ↦ ground (arith, look_up_events-AllRegistered ready ts vs found)
  | inr (x, failed) ↦ ground arith
]

wait_for_events-ok :
    (acknowledged : Text → Option ℕ) (deadline now : ℕ) (ts : List Text)
    → now ≤ deadline
    → AllAcknowledged acknowledged deadline ts
    → wait_for_events acknowledged deadline now ts ≡ ok tt
unfolding wait_for_events
wait_for_events-ok acknowledged deadline now [] le h = refl
wait_for_events-ok acknowledged deadline now (t ∷ ts) le ((at, e, on_time), h) =
    ground (arith, wait_for_events-ok acknowledged deadline (max now at) ts)

wait_for_events-AllAcknowledged :
    (acknowledged : Text → Option ℕ) (deadline now : ℕ) (ts : List Text)
    → now ≤ deadline
    → wait_for_events acknowledged deadline now ts ≡ ok tt
    → AllAcknowledged acknowledged deadline ts
unfolding wait_for_events
wait_for_events-AllAcknowledged acknowledged deadline now [] le e = tt
wait_for_events-AllAcknowledged acknowledged deadline now (t ∷ ts) le e =
    elim (Option-cases (acknowledged t)) [
      | inl never ↦ ground arith
      | inr (at, set) ↦ (
        (at, set, ground arith),
        ground (arith, wait_for_events-AllAcknowledged acknowledged deadline (max now at) ts),
      )
    ]

-- `wait_until_subscribed` returns exactly when every topic is registered and each is acknowledged
-- by the one deadline that they share.
pub wait_until_subscribed-ok_iff {ℓ} :
    {H : Type ℓ} (acknowledged : Text → Option ℕ) (timeout now : ℕ) (topics : List Text)
    (c : Client H)
    → (wait_until_subscribed acknowledged timeout now topics c ≡ ok tt) ↔ (
        AllRegistered c.subscription_ready topics
        × AllAcknowledged acknowledged (now + timeout) topics)
unfolding wait_until_subscribed
wait_until_subscribed-ok_iff acknowledged timeout now topics c = (
  returns,
  λ h.
      rw (look_up_events-ok c.subscription_ready topics h.0)
        (wait_for_events-ok acknowledged (now + timeout) now topics (omega arith) h.1),
)
  where
    returns :
        wait_until_subscribed acknowledged timeout now topics c ≡ ok tt
        → AllRegistered c.subscription_ready topics
          × AllAcknowledged acknowledged (now + timeout) topics
    returns e = elim (Result-cases (look_up_events c.subscription_ready topics)) [
      | inl (us, found) ↦ (
        (look_up_events-AllRegistered c.subscription_ready topics us found).0,
        wait_for_events-AllAcknowledged acknowledged (now + timeout) now topics (omega arith)
            (ground (arith, look_up_events-AllRegistered c.subscription_ready topics us found)),
      )
      | inr (x, failed) ↦ ground arith
    ]
