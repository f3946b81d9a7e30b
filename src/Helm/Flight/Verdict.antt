-- ===== src/Helm/Flight/Verdict.antt =====
-- What callers are told about a flight: reservations are exclusive, and a worker's outcome decides.
use formae_plugin_kubernetes.Prelude.{
  ℕ, ◌+◌, String, ◌<>◌, ◌≡◌, ◌↔◌, Bool, true, false, not, ◌&&◌, ◌||◌, str_eq, Option, none, some,
  lookup, eq_iff, arith, lookup-insert, lookup-erase, if◌then◌else◌, ◌==◌,
}
use formae_plugin_kubernetes.Prelude.Errors.{error_text}
use formae_plugin_kubernetes.Resource.{
  in_progress, is_in_progress, Wrapped, failure, check_status, general_service_exception,
}
use formae_plugin_kubernetes.Helm.RequestId.{op_install, op_delete, op_eq}
use formae_plugin_kubernetes.Helm.Flight.{Flight, Registry, flight_key}
use formae_plugin_kubernetes.Helm.Flight.Reserve.{reserve_rejoin_flight, matches_rejoin}
use formae_plugin_kubernetes.Helm.Flight.Step.{Target, slot_cases}

ruleset slots = (arith, lookup-insert, lookup-erase, eq_iff)

-- Whether a flight is one that a caller with the wanted operation may rejoin: it is prepared, has the
-- same credentials and binding, and is a delete too, or the same request on the same chart and values.
abbrev pub may_rejoin : Flight → Flight → Bool
may_rejoin f wanted =
    not f.preparing
    && (str_eq f.auth_fingerprint wanted.auth_fingerprint
        && (str_eq f.binding_id wanted.binding_id
            && ((op_eq wanted.op op_delete && op_eq f.op op_delete)
                || (not (op_eq wanted.op op_delete)
                    && (op_eq f.request_op wanted.request_op
                        && str_eq f.fingerprint wanted.fingerprint)))))

-- The flight that a reservation returns, given what stands in the slot.
abbrev pub answer : Option Flight → Flight → ℕ → Flight
answer none wanted now = if wanted.started == 0 then record wanted { started = now } else wanted
answer (some f) wanted now =
    if may_rejoin f wanted then record f { status_readers = f.status_readers + 1 } else f

matches-may_rejoin : (f wanted : Flight) → matches_rejoin (some f) wanted ≡ may_rejoin f wanted
unfolding matches_rejoin
matches-may_rejoin f wanted = ground arith

-- With no drain active, a release is reserved exactly when its slot is empty, and the slot then holds
-- the wanted flight, started now unless it has a start. Otherwise the flight that stands there is
-- returned, with one more reader exactly when it is prepared, has the wanted credentials and binding,
-- and is a delete as the wanted one is, or neither is wanted to be and the request's operation and
-- fingerprint agree. Either way the slot holds what is returned.
pub reserve-exclusive :
    (t : Target) (key : String) (wanted : Flight) (now : ℕ) (r : Registry)
    → flight_key t.scope t.namespace t.name ≡ some key
    → r.active_drains ≡ 0
    → let out = reserve_rejoin_flight t.scope t.namespace t.name wanted now r in
      ((out.2 ≡ true) ↔ (lookup key r.flights ≡ none))
      × (lookup key out.0.flights ≡ out.1)
      × (out.1 ≡ some (answer (lookup key r.flights) wanted now))
unfolding reserve_rejoin_flight
reserve-exclusive t key wanted now r at idle =
    slot_cases _ t r (λ e. ground arith) (λ slot e missing. grind slots)
      (λ slot f e found. grind (slots, matches-may_rejoin f wanted))

-- Whether the result that storage suggests ends the operation.
abbrev pub ends : Option Wrapped → Bool
ends none = false
ends (some w) = elim w.progress_result [ none ↦ false | some p ↦ not (is_in_progress p.status) ]

-- What the owner of a flight is told: a failure with the worker's error, that the worker is not done
-- where the result would end the operation before it, and else the result.
abbrev pub told : Target → Flight → String → Option Wrapped → Option Wrapped
told t f request result =
    if f.finished
    then (elim f.outcome [
      | none ↦ result
      | some e ↦ some record {
        progress_result = some record {
          operation = some check_status;
          status = failure;
          native_id = if op_eq f.op op_install then "" else t.namespace <> ("/" <> t.name);
          request_id = "";
          properties = "";
          error_code = some general_service_exception;
          status_message = "Helm operation failed: " <> error_text e;
        };
      }
    ])
    else if ends result
    then some record {
      progress_result = some record {
        operation = some check_status;
        status = in_progress;
        native_id = if op_eq f.op op_install then "" else t.namespace <> ("/" <> t.name);
        request_id = request;
        properties = "";
        error_code = none;
        status_message = "waiting for Helm worker completion";
      };
    }
    else result

-- What the slot holds then: a finished flight whose failure or final result was told is gone if
-- nobody reads it, and marked as reported otherwise.
abbrev pub left : Flight → Option Wrapped → Option Flight
left f result =
    if f.finished && (elim f.outcome [ none ↦ ends result | some e ↦ true ])
    then (if f.status_readers == 0 then none else some (record f { reported = true }))
    else some f
