-- ===== src/Helm/Flight/Later.antt =====
-- What a flight keeps for as long as its generation stands in the registry: an order to stop, and a
-- published outcome.
use formae_plugin_kubernetes.Prelude.{
  ℕ, String, ◌≡◌, ◌≢◌, true, Option, none, some, List, [], ◌∷◌, lookup, eq_iff, arith,
  lookup-insert, lookup-erase, All,
}
use mathlib.Core.Path.{subst}
use formae_plugin_kubernetes.Helm.Flight.{Flight, Registry, Timer}
use formae_plugin_kubernetes.Helm.Flight.Owned.{fire, remove_owned_flight}
use formae_plugin_kubernetes.Helm.Flight.Readers.{lookup-stop_all}
use formae_plugin_kubernetes.Helm.Flight.Step.{
  Target, OwnedCall, Call, reserve, poll, owned, fire_timers, begin_drain, end_drain, remove,
  owned_step, step, run, slot_cases,
}

-- `g` is a later state of `f`.
pub record IsLater (f g : Flight) : Type 0 where
  pub stopping : f.stopping ≡ true → g.stopping ≡ true
  pub finished : f.finished ≡ true → g.finished ≡ true
  pub outcome : f.finished ≡ true → g.outcome ≡ f.outcome
  pub finished_at : f.finished ≡ true → g.finished_at ≡ f.finished_at

-- If the slot holds the generation of `f`, it holds a later state of it.
abbrev pub Later : Flight → Option Flight → Type 0
Later f none = Unit
Later f (some g) = g.generation ≡ f.generation → IsLater f g

-- A call that brings a new flight brings it under another generation than `gen`.
abbrev pub IsFresh : String → Call → Type 0
IsFresh gen (reserve t wanted now) = wanted.generation ≢ gen
IsFresh gen (poll t generation candidate) = candidate.generation ≢ gen
IsFresh gen _ = Unit

ruleset slots = (arith, lookup-insert, lookup-erase, eq_iff)

module _ (r : Registry) (key : String) (f : Flight) (since : Later f (lookup key r.flights)) where
  owned_step-Later :
      (t : Target) (generation : String) (call : OwnedCall)
      → Later f (lookup key (owned_step t generation call r).flights)
  unfolding owned_step
  owned_step-Later t generation remove =
      slot_cases _ t r (λ e. ground arith) (λ slot e missing. ground arith)
        (λ slot g e found. grind slots)
  owned_step-Later t generation call =
      slot_cases _ t r (λ e. ground arith) (λ slot e missing. ground arith)
        (λ slot g e found. grind slots)

  reserve-Later :
      (t : Target) (wanted : Flight) (now : ℕ)
      → wanted.generation ≢ f.generation
      → Later f (lookup key (step (reserve t wanted now) r).flights)
  unfolding step
  reserve-Later t wanted now fresh =
      slot_cases _ t r (λ e. ground arith) (λ slot e missing. grind slots)
        (λ slot g e found. grind slots)

  poll-Later :
      (t : Target) (generation : String) (candidate : Flight)
      → candidate.generation ≢ f.generation
      → Later f (lookup key (step (poll t generation candidate) r).flights)
  unfolding step
  poll-Later t generation candidate fresh =
      slot_cases _ t r (λ e. ground arith) (λ slot e missing. grind slots)
        (λ slot g e found. grind slots)

fire-Later :
    (now : ℕ) (ts : List Timer) (r : Registry) (key : String) (f : Flight)
    → Later f (lookup key r.flights)
    → Later f (lookup key (fire now ts r).flights)
unfolding fire owned_step
fire-Later now [] r key f since = since
fire-Later now (t ∷ ts) r key f since = ground (
  arith,
  fire-Later now ts (remove_owned_flight t.scope t.namespace t.name t.generation r) key f (
      owned_step-Later r key f since
        (record { scope = t.scope; namespace = t.namespace; name = t.name }) t.generation remove),
  fire-Later now ts (record r { timers = t ∷ r.timers }) key f since,
)

step-Later :
    (c : Call) (r : Registry) (key : String) (f : Flight)
    → Later f (lookup key r.flights)
    → IsFresh f.generation c
    → Later f (lookup key (step c r).flights)
unfolding step
step-Later (reserve t wanted now) r key f since fresh =
    reserve-Later r key f since t wanted now fresh
step-Later (poll t generation candidate) r key f since fresh =
    poll-Later r key f since t generation candidate fresh
step-Later (owned t generation call) r key f since fresh =
    owned_step-Later r key f since t generation call
step-Later (fire_timers now) r key f since fresh = fire-Later now r.timers _ key f since
step-Later begin_drain r key f since fresh = ground (arith, lookup-stop_all key r.flights)
step-Later end_drain r key f since fresh = ground arith

pub run-Later :
    (cs : List Call) (r : Registry) (key : String) (f : Flight)
    → Later f (lookup key r.flights)
    → All (IsFresh f.generation) cs
    → Later f (lookup key (run cs r).flights)
unfolding run
run-Later [] r key f since fresh = since
run-Later (c ∷ cs) r key f since fresh =
    run-Later cs (step c r) key f (step-Later c r key f since fresh.0) fresh.1

pub Later-self : (f : Flight) (o : Option Flight) → o ≡ some f → Later f o
Later-self f none e = tt
Later-self f (some g) e = ground arith

-- Once a flight has finished, its outcome and its time of completion never change: for as long as
-- its generation stands in the registry, whatever calls come, the flight there is finished with the
-- same outcome, provided that no new flight is given the same generation.
pub run-keeps_outcome :
    (cs : List Call) (r : Registry) (key : String) (f g : Flight)
    → lookup key r.flights ≡ some f
    → f.finished ≡ true
    → All (IsFresh f.generation) cs
    → lookup key (run cs r).flights ≡ some g
    → g.generation ≡ f.generation
    → (g.finished ≡ true) × (g.outcome ≡ f.outcome) × (g.finished_at ≡ f.finished_at)
run-keeps_outcome cs r key f g held done fresh stays same =
    let later : IsLater f g =
      subst (Later f) stays (run-Later cs r key f (Later-self f (lookup key r.flights) held) fresh)
        same in
    (later.finished done, later.outcome done, later.finished_at done)
