-- ===== src/Helm/Flight/Readers.antt =====
-- Callbacks that read a flight keep it in the registry.
use formae_plugin_kubernetes.Prelude.{
  ℕ, ◌+◌, ◌≤◌, ◌<◌, String, ◌≡◌, refl, inl, inr, Option, none, some, List, [], ◌∷◌, Map, lookup,
  eq_iff, arith, lookup-insert, lookup-erase, str_eq, if◌then◌else◌, Option-cases,
}
use mathlib.Core.Option
use mathlib.Core.Path.{subst}
use formae_plugin_kubernetes.Helm.Flight.{Flight, Registry, Timer}
use formae_plugin_kubernetes.Helm.Flight.Reserve.{stop, stop_all}
use formae_plugin_kubernetes.Helm.Flight.Owned.{fire, remove_owned_flight}
use formae_plugin_kubernetes.Helm.Flight.Step.{
  Target, OwnedCall, Call, reserve, poll, owned, fire_timers, begin_drain, end_drain, remove,
  release, owned_step, step, run, slot_cases,
}

-- A flight of generation `gen` with at least `n` readers.
abbrev pub Kept : ℕ → String → Option Flight → Type 0
Kept n gen none = ⊥
Kept n gen (some g) = (g.generation ≡ gen) × (n ≤ g.status_readers)

Kept-of_le : (m n : ℕ) (gen : String) (o : Option Flight) → Kept m gen o → n ≤ m → Kept n gen o
Kept-of_le m n gen none k h = k
Kept-of_le m n gen (some g) k h = (k.0, omega arith)

-- How many readers of the generation a call may release.
abbrev pub release_count : String → Call → ℕ
release_count gen (owned t g release) = if str_eq g gen then 1 else 0
release_count gen _ = 0

abbrev pub releases : String → List Call → ℕ
releases gen [] = 0
releases gen (c ∷ cs) = release_count gen c + releases gen cs

pub lookup-stop_all :
    (k : String) (m : Map Flight) → lookup k (stop_all m) ≡ Option.map stop (lookup k m)
unfolding lookup
lookup-stop_all k [] = refl
lookup-stop_all k ((j, f) ∷ m) = ground (arith, lookup-stop_all k m)

module _ (r : Registry) (key : String) (f : Flight) (n : ℕ) (held : lookup key r.flights ≡ some f)
    (read : 0 < n) where
  owned_step-Kept :
      (t : Target) (generation : String) (call : OwnedCall)
      → n + release_count f.generation (owned t generation call) ≤ f.status_readers
      → Kept n f.generation (lookup key (owned_step t generation call r).flights)
  unfolding owned_step
  owned_step-Kept t generation release h =
      slot_cases _ t r (λ e. ground arith) (λ slot e missing. ground arith)
        (λ slot g e found. grind (arith, lookup-insert, lookup-erase, eq_iff))
  owned_step-Kept t generation call h =
      slot_cases _ t r (λ e. ground arith) (λ slot e missing. ground arith)
        (λ slot g e found. grind (arith, lookup-insert, lookup-erase, eq_iff))

  reserve-Kept :
      (t : Target) (wanted : Flight) (now : ℕ)
      → n ≤ f.status_readers
      → Kept n f.generation (lookup key (step (reserve t wanted now) r).flights)
  unfolding step
  reserve-Kept t wanted now h =
      slot_cases _ t r (λ e. ground arith)
        (λ slot e missing. grind (arith, lookup-insert, lookup-erase, eq_iff))
        (λ slot g e found. grind (arith, lookup-insert, lookup-erase, eq_iff))

  poll-Kept :
      (t : Target) (generation : String) (candidate : Flight)
      → n ≤ f.status_readers
      → Kept n f.generation (lookup key (step (poll t generation candidate) r).flights)
  unfolding step
  poll-Kept t generation candidate h =
      slot_cases _ t r (λ e. ground arith)
        (λ slot e missing. grind (arith, lookup-insert, lookup-erase, eq_iff))
        (λ slot g e found. grind (arith, lookup-insert, lookup-erase, eq_iff))

remove_owned-Kept :
    (t : Timer) (r : Registry) (key gen : String) (n : ℕ)
    → Kept n gen (lookup key r.flights)
    → 0 < n
    → Kept n gen
        (lookup key (remove_owned_flight t.scope t.namespace t.name t.generation r).flights)
unfolding owned_step
remove_owned-Kept t r key gen n h read = elim (Option-cases (lookup key r.flights)) [
  | inl e ↦ ground arith
  | inr (f, e) ↦ ground (
    arith,
    owned_step-Kept r key f n e read
        (record { scope = t.scope; namespace = t.namespace; name = t.name }) t.generation remove,
  )
]

fire-Kept :
    (now : ℕ) (ts : List Timer) (r : Registry) (key gen : String) (n : ℕ)
    → Kept n gen (lookup key r.flights)
    → 0 < n
    → Kept n gen (lookup key (fire now ts r).flights)
unfolding fire
fire-Kept now [] r key gen n h read = h
fire-Kept now (t ∷ ts) r key gen n h read = ground (
  arith,
  fire-Kept now ts (remove_owned_flight t.scope t.namespace t.name t.generation r) key gen n
      (remove_owned-Kept t r key gen n h read) read,
  fire-Kept now ts (record r { timers = t ∷ r.timers }) key gen n h read,
)

step_held-Kept :
    (c : Call) (r : Registry) (key : String) (f : Flight) (n : ℕ)
    → lookup key r.flights ≡ some f
    → n + release_count f.generation c ≤ f.status_readers
    → 0 < n
    → Kept n f.generation (lookup key (step c r).flights)
unfolding step
step_held-Kept (reserve t wanted now) r key f n held h read =
    reserve-Kept r key f n held read t wanted now (omega arith)
step_held-Kept (poll t generation candidate) r key f n held h read =
    poll-Kept r key f n held read t generation candidate (omega arith)
step_held-Kept (owned t generation call) r key f n held h read =
    owned_step-Kept r key f n held read t generation call h
step_held-Kept (fire_timers now) r key f n held h read =
    fire-Kept now r.timers (record r { timers = [] }) key f.generation n
      (rw held (refl, omega arith)) read
step_held-Kept begin_drain r key f n held h read = ground (arith, lookup-stop_all key r.flights)
step_held-Kept end_drain r key f n held h read = ground arith

-- What `Kept` says of a slot, as an equation.
Kept-holds :
    (n : ℕ) (gen : String) (o : Option Flight)
    → Kept n gen o
    → (g : Flight) × (o ≡ some g) × (g.generation ≡ gen) × (n ≤ g.status_readers)
Kept-holds n gen none k = absurd k
Kept-holds n gen (some g) k = (g, refl, k.0, k.1)

run-Kept :
    (cs : List Call) (r : Registry) (key gen : String) (n : ℕ)
    → Kept (n + releases gen cs) gen (lookup key r.flights)
    → 0 < n
    → Kept n gen (lookup key (run cs r).flights)
unfolding run
run-Kept [] r key gen n k read = Kept-of_le (n + 0) n gen (lookup key r.flights) k (omega arith)
run-Kept (c ∷ cs) r key gen n k read =
    let (f, held, same, enough) =
      Kept-holds (n + releases gen (c ∷ cs)) gen (lookup key r.flights) k in
    run-Kept cs (step c r) key gen n
      (subst (λ g. Kept (n + releases gen cs) g (lookup key (step c r).flights)) same
        (step_held-Kept c r key f (n + releases gen cs) held (rw same (omega arith)) (omega arith)))
      read

-- A flight with more readers than its generation is released stays in the registry, under its
-- generation, whatever the calls in between are: outcomes reported, timers fired, drains,
-- activations and other callbacks' calls.
pub run-keeps_read_flight :
    (cs : List Call) (r : Registry) (key : String) (f : Flight)
    → lookup key r.flights ≡ some f
    → releases f.generation cs < f.status_readers
    → (g : Flight) × (lookup key (run cs r).flights ≡ some g) × (g.generation ≡ f.generation)
run-keeps_read_flight cs r key f held h =
    let (g, stays, same, _) =
      Kept-holds 1 f.generation (lookup key (run cs r).flights)
        (run-Kept cs r key f.generation 1 (rw held (refl, omega arith)) (omega arith)) in
    (g, stays, same)
