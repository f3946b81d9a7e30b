-- ===== src/Helm/Flight/Outcome.antt =====
-- flight_lifecycle.go: how a worker's outcome reaches the caller.
use formae_plugin_kubernetes.Prelude.{
  ℕ, String, ◌<>◌, Bool, true, not, ◌&&◌, Option, none, some, lookup, ltb, ◌==◌, if◌then◌else◌,
}
use formae_plugin_kubernetes.Prelude.Errors.{GoError, error_text}
use formae_plugin_kubernetes.Resource.{
  ProgressResult, Wrapped, general_service_exception, is_in_progress,
}
use formae_plugin_kubernetes.Helm.RequestId.{OpKind, op_install, op_eq}
use formae_plugin_kubernetes.Helm.Flight.{Flight, Registry, flight_key, report, lookup_flight}
use formae_plugin_kubernetes.Helm.Flight.Owned.{owns, consume_synchronous_failure}
use formae_plugin_kubernetes.Helm.Flight.Results.{
  native_id_unless, failure_result, in_progress_result, flight_conflict, flight_progress,
}

-- The native id that a flight's results carry.
abbrev pub withheld : OpKind → String → String → String
withheld op ns name = native_id_unless (op_eq op op_install) ns name

abbrev pub failed_text : GoError → String
failed_text e = "Helm operation failed: " <> error_text e

-- `result == nil || result.ProgressResult == nil || … == InProgress`
unfoldable pub still_running : Option Wrapped → Bool
still_running none = true
still_running (some w) = elim w.progress_result [ none ↦ true | some p ↦ is_in_progress p.status ]

-- A missing result becomes a conflict where the flight is gone or is not the caller's.
unfoldable pub or_conflict : String → String → Option Wrapped → Option Wrapped
or_conflict ns name none = some (record { progress_result = some (flight_conflict ns name) })
or_conflict ns name (some w) = some w

-- What the owner's poll gets when no failed outcome is published.
unfoldable pub settle :
    String
    → String
    → String
    → String
    → Option Wrapped
    → Flight
    → Registry
    → Registry × Option Wrapped
unfolding still_running
settle key ns name request result f r =
    if still_running result
    then (r, result)
    else if not f.finished
    then (
      r,
      some (
          in_progress_result (withheld f.op ns name) request ""
            "waiting for Helm worker completion"),
    )
    else (report key f r, result)

unfoldable pub reconcile_owned :
    String
    → String
    → String
    → String
    → Option Wrapped
    → Flight
    → Registry
    → Registry × Option Wrapped
unfolding settle
reconcile_owned key ns name request result f r = elim f.outcome [
  | none ↦ settle key ns name request result f r
  | some e ↦
      if f.finished
      then (
        report key f r,
        some (failure_result (withheld f.op ns name) general_service_exception (failed_text e)),
      )
      else settle key ns name request result f r
]

unfoldable pub reconcile_at :
    String
    → String
    → String
    → String
    → String
    → Option Wrapped
    → Option Flight
    → Registry
    → Registry × Option Wrapped
unfolding reconcile_owned or_conflict
reconcile_at key ns name generation request result found r = elim found [
  | none ↦ (r, or_conflict ns name result)
  | some f ↦
      if owns f generation
      then reconcile_owned key ns name request result f r
      else (r, or_conflict ns name result)
]

unfoldable pub reconcile_flight_result :
    String
    → String
    → String
    → String
    → String
    → Option Wrapped
    → Registry
    → Registry × Option Wrapped
unfolding reconcile_at
reconcile_flight_result scope ns name generation request result r =
    elim (flight_key scope ns name) [
      | none ↦ (r, result)
      | some key ↦ reconcile_at key ns name generation request result (lookup key r.flights) r
    ]

-- The deadline has come: `!deadline.IsZero() && !now.Before(deadline)`.
abbrev overdue : ℕ → Flight → Bool
overdue now f = not (f.deadline == 0) && not (ltb now f.deadline)

-- The answers of `progressAfterFlightError`: a progress result, or an error.
pub data Progress : Type 0 where
  progress_of : Option ProgressResult → Progress
  error_of : GoError → Progress

-- `transient` is `isFlightServiceError`, which asks packages outside of this repository. The last
-- part of the answer is the cancel function that is called.
unfoldable pub progress_after_flight_error :
    (GoError → Bool)
    → String
    → String
    → String
    → Flight
    → Bool
    → GoError
    → ℕ
    → Registry
    → Registry × Progress × Option ℕ
unfolding lookup_flight
progress_after_flight_error transient scope ns name owned is_create error now r =
    elim (lookup_flight scope ns name r) [
      | none ↦ (r, progress_of (some (flight_conflict ns name)), none)
      | some f ↦
          if not (owns f owned.generation)
          then (r, progress_of (some (flight_conflict ns name)), none)
          else after_owned f
    ]
  where
    pending : Flight → Registry × Progress × Option ℕ
    pending f =
        if not f.finished && overdue now f
        then (
          r,
          progress_of
              (failure_result (native_id_unless is_create ns name) general_service_exception
                "Helm action deadline exhausted").progress_result,
          f.cancel,
        )
        else if transient error
        then (r, progress_of (some (flight_progress ns name f is_create)), none)
        else (r, error_of error, none)

    after_owned : Flight → Registry × Progress × Option ℕ
    after_owned f = elim f.outcome [
      | none ↦ pending f
      | some e ↦
          if f.finished
          then (consume_synchronous_failure scope ns name f.generation (some e) r, error_of e, none)
          else pending f
    ]
