-- ===== src/Helm/Flight/Fence.antt =====
-- A generation fences its flight: callers of another generation cannot touch it.
use formae_plugin_kubernetes.Prelude.{String, ◌≡◌, ◌≢◌, Option, some, eq_iff, arith}
use mathlib.Core.Option
use formae_plugin_kubernetes.Helm.Flight.{Registry, lookup_flight}
use formae_plugin_kubernetes.Helm.Flight.Step.{Target, OwnedCall, remove, owned_step, slot_cases}

-- The generation in a release's slot.
abbrev pub slot_generation : Target → Registry → Option String
slot_generation t r = Option.map (λ f. f.generation) (lookup_flight t.scope t.namespace t.name r)

-- A call that names a generation other than the one in its release's slot, or whose slot is empty,
-- leaves every flight of the registry as it is.
pub owned_step-fence :
    (t : Target) (generation : String) (call : OwnedCall) (r : Registry)
    → slot_generation t r ≢ some generation
    → (owned_step t generation call r).flights ≡ r.flights
unfolding owned_step lookup_flight
owned_step-fence t generation remove r h =
    slot_cases _ t r (λ e. ground arith) (λ key e missing. ground arith)
      (λ key f e found. ground (arith, eq_iff f.generation generation, h))
owned_step-fence t generation call r h =
    slot_cases _ t r (λ e. ground arith) (λ key e missing. ground arith)
      (λ key f e found. ground (arith, eq_iff f.generation generation, h))
