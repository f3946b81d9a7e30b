-- ===== src/Helm/Flight/Step.antt =====
-- The registry as a state machine: every critical section that changes it is one call, in the order
-- in which the calls take the lock.
use formae_plugin_kubernetes.Prelude.{
  ◌≡◌, inl, inr, none, some, lookup, Option-cases, ℕ, String, Option, List, [], ◌∷◌,
}
use formae_plugin_kubernetes.Prelude.Errors.{GoError}
use formae_plugin_kubernetes.Resource.{Wrapped}
use formae_plugin_kubernetes.Helm.RequestId.{OpKind}
use formae_plugin_kubernetes.Helm.Bridge.{Bridge}
use formae_plugin_kubernetes.Helm.Flight.{Flight, Registry, flight_key}
use formae_plugin_kubernetes.Helm.Flight.Reserve.{
  reserve_rejoin_flight, activate_flight, acquire_status_flight, drain_begin, drain_end,
}
use formae_plugin_kubernetes.Helm.Flight.Owned.{
  remove_owned_flight, finish_flight, release_status_flight, consume_synchronous_failure, fire_due,
}
use formae_plugin_kubernetes.Helm.Flight.Outcome.{reconcile_flight_result}

-- The release that a call names.
pub record Target : Type 0 where
  pub scope : String
  pub namespace : String
  pub name : String

-- The closure that `submit` and `Delete` activate a flight with.
unfoldable pub launch : OpKind → ℕ → Option Bridge → Flight → Flight
launch op revision bridge f = record f { op = op; revision = revision; bridge = bridge }

-- A call of the owner of a generation.
pub data OwnedCall : Type 0 where
  activate : ℕ → OpKind → ℕ → Option Bridge → OwnedCall
  remove : OwnedCall
  finished_with : Option GoError → ℕ → OwnedCall
  reconcile : String → Option Wrapped → OwnedCall
  consume : Option GoError → OwnedCall
  release : OwnedCall

pub data Call : Type 0 where
  reserve : Target → Flight → ℕ → Call
  poll : Target → String → Flight → Call
  owned : Target → String → OwnedCall → Call
  fire_timers : ℕ → Call
  begin_drain end_drain : Call

unfoldable pub owned_step : Target → String → OwnedCall → Registry → Registry
unfolding activate_flight remove_owned_flight finish_flight reconcile_flight_result
    consume_synchronous_failure release_status_flight launch
owned_step t generation (activate cancel op revision bridge) r =
    (activate_flight t.scope t.namespace t.name generation cancel (launch op revision bridge) r).0
owned_step t generation remove r = remove_owned_flight t.scope t.namespace t.name generation r
owned_step t generation (finished_with error now) r =
    finish_flight t.scope t.namespace t.name generation error now r
owned_step t generation (reconcile request result) r =
    (reconcile_flight_result t.scope t.namespace t.name generation request result r).0
owned_step t generation (consume error) r =
    consume_synchronous_failure t.scope t.namespace t.name generation error r
owned_step t generation release r = release_status_flight t.scope t.namespace t.name generation r

unfoldable pub step : Call → Registry → Registry
unfolding owned_step reserve_rejoin_flight acquire_status_flight fire_due drain_begin drain_end
step (reserve t f now) r = (reserve_rejoin_flight t.scope t.namespace t.name f now r).0
step (poll t generation candidate) r =
    (acquire_status_flight t.scope t.namespace t.name generation candidate r).0
step (owned t generation call) r = owned_step t generation call r
step (fire_timers now) r = fire_due now r
step begin_drain r = (drain_begin r).0
step end_drain r = drain_end r

unfoldable pub run : List Call → Registry → Registry
unfolding step
run [] r = r
run (c ∷ cs) r = run cs (step c r)

-- To split on what a target's slot holds, keeping the equations.
pub slot_cases :
    (P : Type 0) (t : Target) (r : Registry)
    → (flight_key t.scope t.namespace t.name ≡ none → P)
    → ((key : String)
        → flight_key t.scope t.namespace t.name ≡ some key
        → lookup key r.flights ≡ none
        → P)
    → ((key : String) (f : Flight)
        → flight_key t.scope t.namespace t.name ≡ some key
        → lookup key r.flights ≡ some f
        → P)
    → P
slot_cases P t r unscoped empty full = elim (Option-cases (flight_key t.scope t.namespace t.name)) [
  | inl e ↦ unscoped e
  | inr (key, e) ↦ elim (Option-cases (lookup key r.flights)) [
    | inl missing ↦ empty key e missing
    | inr (f, found) ↦ full key f e found
  ]
]
