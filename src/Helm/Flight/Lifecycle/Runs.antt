-- ===== src/Helm/Flight/Lifecycle/Runs.antt =====
-- flight_lifecycle.go: runs of the registry against what each release may go through.
use formae_plugin_kubernetes.Prelude.{
  ℕ, ◌+◌, ◌-◌, String, ◌≡◌, refl, List, [], ◌∷◌, leb, lookup, arith, if◌then◌else◌, inl, inr,
}
use mathlib.Core.Path.{subst}
use formae_plugin_kubernetes.Helm.Flight.{Registry, Timer}
use formae_plugin_kubernetes.Helm.Flight.Owned.{fire, remove_owned_flight, retention}
use formae_plugin_kubernetes.Helm.Flight.Step.{
  Target, OwnedCall, Call, reserve, poll, owned, fire_timers, begin_drain, end_drain, activate,
  remove, finished_with, reconcile, consume, release, owned_step, step, run, slot_cases,
}
use formae_plugin_kubernetes.Helm.Flight.Lifecycle.{Phase, phase, Moves, step-Moves}

-- What all releases share: the active drains, and the pending timers.
pub record Shared : Type 0 where
  pub drains : ℕ
  pub timers : List Timer

-- The timers that are not due, put back in the order in which they are met.
unfoldable pub put_back : ℕ → List Timer → List Timer → List Timer
put_back now [] kept = kept
put_back now (t ∷ ts) kept =
    let early = put_back now ts (t ∷ kept) in
    let due = put_back now ts kept in if leb t.due now then due else early

-- Every completion starts a timer, whichever flight its release has by then.
unfoldable pub then_shared : Call → Shared → Shared
unfolding put_back
then_shared (owned t generation (finished_with error now)) s = record s {
  timers =
      record {
        due = now + retention;
        scope = t.scope;
        namespace = t.namespace;
        name = t.name;
        generation = generation;
      }
      ∷ s.timers;
}
then_shared (fire_timers now) s = record s { timers = put_back now s.timers [] }
then_shared begin_drain s = record s { drains = s.drains + 1 }
then_shared end_drain s = record s { drains = s.drains - 1 }
then_shared _ s = s

abbrev pub shared : Registry → Shared
shared r = record { drains = r.active_drains; timers = r.timers }

-- The runs that the state machine of the release at `key` allows, from one phase to another: with
-- each call the release stays in its phase, or goes where the call may move it.
pub data Lives (key : String) : List Call → Shared → Phase → Phase → Type 0 where
  over : {s : Shared} → {p : Phase} → Lives key [] s p p
  stays :
      {c : Call}
      → {cs : List Call} → {s : Shared} → {p q : Phase} → Lives key cs (then_shared c s) p q
      → Lives key (c ∷ cs) s p q
  moves :
      {c : Call}
      → {cs : List Call} → {s : Shared} → {p m q : Phase} → Moves key c s.drains s.timers p m
      → Lives key cs (then_shared c s) m q
      → Lives key (c ∷ cs) s p q

module _ (r : Registry) where
  owned-shared :
      (t : Target) (generation : String) (call : OwnedCall)
      → shared (owned_step t generation call r) ≡ then_shared (owned t generation call) (shared r)
  unfolding owned_step then_shared
  owned-shared t generation (activate cancel op revision bridge) =
      slot_cases _ t r (λ e. ground arith) (λ slot e missing. ground arith)
        (λ slot g e found. ground arith)
  owned-shared t generation remove =
      slot_cases _ t r (λ e. ground arith) (λ slot e missing. ground arith)
        (λ slot g e found. ground arith)
  owned-shared t generation (finished_with error now) =
      slot_cases _ t r (λ e. ground arith) (λ slot e missing. ground arith)
        (λ slot g e found. ground arith)
  owned-shared t generation (reconcile request result) =
      slot_cases _ t r (λ e. ground arith) (λ slot e missing. ground arith)
        (λ slot g e found. ground arith)
  owned-shared t generation (consume error) =
      slot_cases _ t r (λ e. ground arith) (λ slot e missing. ground arith)
        (λ slot g e found. ground arith)
  owned-shared t generation release =
      slot_cases _ t r (λ e. ground arith) (λ slot e missing. ground arith)
        (λ slot g e found. ground arith)

fire-shared :
    (now : ℕ) (ts : List Timer) (r : Registry)
    → shared (fire now ts r)
      ≡ record { drains = r.active_drains; timers = put_back now ts r.timers }
unfolding fire put_back then_shared owned_step
fire-shared now [] r = refl
fire-shared now (t ∷ ts) r = ground (
  arith,
  fire-shared now ts (remove_owned_flight t.scope t.namespace t.name t.generation r),
  owned-shared r (record { scope = t.scope; namespace = t.namespace; name = t.name }) t.generation
      remove,
  fire-shared now ts (record r { timers = t ∷ r.timers }),
)

step-shared : (c : Call) (r : Registry) → shared (step c r) ≡ then_shared c (shared r)
unfolding step then_shared
step-shared (reserve t wanted now) r =
    slot_cases _ t r (λ e. ground arith) (λ slot e missing. ground arith)
      (λ slot g e found. ground arith)
step-shared (poll t generation candidate) r =
    slot_cases _ t r (λ e. ground arith) (λ slot e missing. ground arith)
      (λ slot g e found. ground arith)
step-shared (owned t generation call) r = owned-shared r t generation call
step-shared (fire_timers now) r = fire-shared now r.timers (record r { timers = [] })
step-shared begin_drain r = refl
step-shared end_drain r = refl

-- The registry keeps to the life cycle of every release: whatever calls come, in whatever order and
-- from whatever registry, what they do at a key is a run of that key's state machine, from the
-- phase the release was in to the one it is in after them. A vacant slot is filled by a reserve or
-- a poll of that release with no drain active; a generation that prepares starts to run only by its
-- own activation with no drain active; one that has not finished finishes only by its own
-- completion, with the error that this brings; and a slot is emptied only by a removal, a release,
-- a report or a due timer of the generation it holds.
pub run-Lives :
    (cs : List Call) (r : Registry) (key : String)
    → Lives key cs (shared r) (phase (lookup key r.flights)) (phase (lookup key (run cs r).flights))
unfolding run
run-Lives [] r key = over
run-Lives (c ∷ cs) r key =
    let end = phase (lookup key (run cs (step c r)).flights) in
    let rest =
      subst (λ s. Lives key cs s (phase (lookup key (step c r).flights)) end) (step-shared c r)
        (run-Lives cs (step c r) key) in
    elim (step-Moves c r key) [
      | inl same ↦ stays (subst (λ p. Lives key cs (then_shared c (shared r)) p end) same rest)
      | inr moved ↦ moves moved rest
    ]
