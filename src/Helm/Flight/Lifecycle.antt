-- ===== src/Helm/Flight/Lifecycle.antt =====
-- flight_lifecycle.go: the registry seen from one release. What the lock guards is, for each
-- release by itself, a small state machine: its slot is vacant, or a generation prepares, runs or
-- has finished there.
pub mod Runs
use formae_plugin_kubernetes.Prelude.{
  ℕ, ◌+◌, ◌-◌, ◌≤◌, leb, String, Bool, Map, ◌≡◌, refl, ◌⊎◌, inl, inr, true, Option, none, some,
  List, [], ◌∷◌, lookup, eq_iff, arith, lookup-insert, lookup-erase, if◌then◌else◌,
}
use formae_plugin_kubernetes.Prelude.Errors.{GoError}
use formae_plugin_kubernetes.Helm.Flight.{Flight, Registry, Timer, flight_key}
use formae_plugin_kubernetes.Helm.Flight.Reserve.{stop_all, reserve_at, stamp, matches_rejoin}
use formae_plugin_kubernetes.Helm.Flight.Owned.{fire, remove_owned_flight}
use formae_plugin_kubernetes.Helm.Flight.Readers.{lookup-stop_all}
use formae_plugin_kubernetes.Helm.Flight.Step.{
  Target, OwnedCall, Call, reserve, poll, owned, fire_timers, begin_drain, end_drain, activate,
  remove, finished_with, reconcile, consume, release, owned_step, step, run, slot_cases,
}

pub data Phase : Type 0 where
  vacant : Phase
  prepares runs : String → Phase
  completed : String → Option GoError → Phase

abbrev pub phase_of : Flight → Phase
phase_of f =
    if f.finished
    then completed f.generation f.outcome
    else if f.preparing
    then prepares f.generation
    else runs f.generation

unfoldable pub phase : Option Flight → Phase
phase none = vacant
phase (some f) = phase_of f

-- A generation that stands in the slot, in whatever phase, and one that has finished there.
abbrev pub Holds : String → Phase → Type 0
Holds gen vacant = ⊥
Holds gen (prepares g) = g ≡ gen
Holds gen (runs g) = g ≡ gen
Holds gen (completed g e) = g ≡ gen

abbrev pub HasEnded : String → Phase → Type 0
HasEnded gen (completed g e) = g ≡ gen
HasEnded gen _ = ⊥

abbrev pub IsUnfinished : String → Phase → Type 0
IsUnfinished gen (prepares g) = g ≡ gen
IsUnfinished gen (runs g) = g ≡ gen
IsUnfinished gen _ = ⊥

-- What the owner of a generation may do to its release's phase, with so many drains active.
abbrev pub OwnerMoves : String → OwnedCall → ℕ → Phase → Phase → Type 0
OwnerMoves gen (activate cancel op revision bridge) drains p q =
    (drains ≡ 0) × (p ≡ prepares gen) × (q ≡ runs gen)
OwnerMoves gen remove drains p q = Holds gen p × (q ≡ vacant)
OwnerMoves gen (finished_with error now) drains p q = IsUnfinished gen p × (q ≡ completed gen error)
OwnerMoves gen (reconcile request result) drains p q = HasEnded gen p × (q ≡ vacant)
OwnerMoves gen (consume error) drains p q = HasEnded gen p × (q ≡ vacant)
OwnerMoves gen release drains p q = Holds gen p × (q ≡ vacant)

-- Whether one of these timers is due, and is for the generation that the release at `key` holds.
unfoldable pub IsDue : String → ℕ → Phase → List Timer → Type 0
IsDue key now p [] = ⊥
IsDue key now p (t ∷ ts) =
    ((flight_key t.scope t.namespace t.name ≡ some key) × (t.due ≤ now) × Holds t.generation p)
    ⊎ IsDue key now p ts

-- What a call may do to the phase of the release at `key`, with so many drains active and these
-- timers pending.
abbrev pub Moves : String → Call → ℕ → List Timer → Phase → Phase → Type 0
Moves key (reserve t wanted now) drains timers p q =
    (flight_key t.scope t.namespace t.name ≡ some key)
    × (drains ≡ 0)
    × (p ≡ vacant)
    × (q ≡ phase_of wanted)
Moves key (poll t generation candidate) drains timers p q =
    (flight_key t.scope t.namespace t.name ≡ some key)
    × (drains ≡ 0)
    × (p ≡ vacant)
    × (q ≡ phase_of candidate)
Moves key (owned t generation call) drains timers p q =
    (flight_key t.scope t.namespace t.name ≡ some key) × OwnerMoves generation call drains p q
Moves key (fire_timers now) drains timers p q = IsDue key now p timers × (q ≡ vacant)
Moves key _ drains timers p q = ⊥

ruleset slots = (arith, lookup-insert, lookup-erase, eq_iff)

module _ (r : Registry) (key : String) where
  reserve_at-full :
      (slot : String) (wanted g : Flight) (retain : Flight → Bool)
      → lookup slot r.flights ≡ some g
      → phase (lookup key (reserve_at slot wanted retain (some g) r).0.flights)
        ≡ phase (lookup key r.flights)
  unfolding reserve_at phase
  reserve_at-full slot wanted g retain found = grind slots

  reserve-Moves :
      (t : Target) (wanted : Flight) (now : ℕ)
      → let after = step (reserve t wanted now) r in
        (phase (lookup key after.flights) ≡ phase (lookup key r.flights))
        ⊎ Moves key
            (reserve t wanted now)
            r.active_drains
            r.timers
            (phase (lookup key r.flights))
            (phase (lookup key after.flights))
  unfolding step phase
  reserve-Moves t wanted now =
      slot_cases _ t r (λ e. ground arith) (λ slot e missing. grind slots)
        (λ slot g e found. ground (
          arith,
          reserve_at-full slot (stamp now wanted) g
              (λ existing. matches_rejoin (some existing) wanted) found,
        ))

  poll-Moves :
      (t : Target) (generation : String) (candidate : Flight)
      → let after = step (poll t generation candidate) r in
        (phase (lookup key after.flights) ≡ phase (lookup key r.flights))
        ⊎ Moves key
            (poll t generation candidate)
            r.active_drains
            r.timers
            (phase (lookup key r.flights))
            (phase (lookup key after.flights))
  unfolding step phase
  poll-Moves t generation candidate =
      slot_cases _ t r (λ e. ground arith) (λ slot e missing. grind slots)
        (λ slot g e found. grind slots)

  owned-Moves :
      (t : Target) (generation : String) (call : OwnedCall)
      → let after = owned_step t generation call r in
        (phase (lookup key after.flights) ≡ phase (lookup key r.flights))
        ⊎ Moves key
            (owned t generation call)
            r.active_drains
            r.timers
            (phase (lookup key r.flights))
            (phase (lookup key after.flights))
  unfolding owned_step phase
  owned-Moves t generation (activate cancel op revision bridge) =
      slot_cases _ t r (λ e. ground arith) (λ slot e missing. ground arith)
        (λ slot g e found. grind slots)
  owned-Moves t generation remove =
      slot_cases _ t r (λ e. ground arith) (λ slot e missing. ground arith)
        (λ slot g e found. grind slots)
  owned-Moves t generation (finished_with error now) =
      slot_cases _ t r (λ e. ground arith) (λ slot e missing. ground arith)
        (λ slot g e found. grind slots)
  owned-Moves t generation (reconcile request result) =
      slot_cases _ t r (λ e. ground arith) (λ slot e missing. ground arith)
        (λ slot g e found. grind slots)
  owned-Moves t generation (consume error) =
      slot_cases _ t r (λ e. ground arith) (λ slot e missing. ground arith)
        (λ slot g e found. grind slots)
  owned-Moves t generation release =
      slot_cases _ t r (λ e. ground arith) (λ slot e missing. ground arith)
        (λ slot g e found. grind slots)

fire-Moves :
    (now : ℕ) (ts : List Timer) (r : Registry) (key : String)
    → let after = fire now ts r in
      (phase (lookup key after.flights) ≡ phase (lookup key r.flights))
      ⊎ (IsDue key now (phase (lookup key r.flights)) ts
          × (phase (lookup key after.flights) ≡ vacant))
unfolding fire IsDue owned_step
fire-Moves now [] r key = inl refl
fire-Moves now (t ∷ ts) r key = ground (
  arith,
  fire-Moves now ts (remove_owned_flight t.scope t.namespace t.name t.generation r) key,
  owned-Moves r key (record { scope = t.scope; namespace = t.namespace; name = t.name })
      t.generation remove,
  fire-Moves now ts (record r { timers = t ∷ r.timers }) key,
)

phase-stop_all :
    (key : String) (m : Map Flight) → phase (lookup key (stop_all m)) ≡ phase (lookup key m)
unfolding lookup phase
phase-stop_all key [] = refl
phase-stop_all key ((k, f) ∷ m) = ground (arith, phase-stop_all key m)

-- One call as one release sees it.
pub step-Moves :
    (c : Call) (r : Registry) (key : String)
    → (phase (lookup key (step c r).flights) ≡ phase (lookup key r.flights))
      ⊎ Moves key c r.active_drains r.timers
          (phase (lookup key r.flights))
          (phase (lookup key (step c r).flights))
unfolding step
step-Moves (reserve t wanted now) r key = reserve-Moves r key t wanted now
step-Moves (poll t generation candidate) r key = poll-Moves r key t generation candidate
step-Moves (owned t generation call) r key = owned-Moves r key t generation call
step-Moves (fire_timers now) r key = fire-Moves now r.timers (record r { timers = [] }) key
step-Moves begin_drain r key = inl (phase-stop_all key r.flights)
step-Moves end_drain r key = inl refl
