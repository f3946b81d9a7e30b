-- ===== src/Helm/Flight.antt =====
-- pkg/resources/helm/inflight.go and flight_lifecycle.go: the registry of the Helm operations that
-- this process runs. The registry is the state `flightMu` guards; each operation below is one
-- critical section and returns the registry with its result. Times are nanoseconds since Go's zero
-- time, so `IsZero` is `0`; a cancel function is the number of the worker that it stops. A bridge
-- is reached through its flight alone, so the flight holds it by value.
pub mod Reserve
pub mod Results
pub mod Owned
pub mod Outcome
pub mod Step
pub mod Fence
pub mod Readers
pub mod Later
pub mod Drain
pub mod Retire
pub mod Verdict
pub mod Lifecycle
use formae_plugin_kubernetes.Prelude.{
  ℕ, ◌+◌, ◌*◌, String, ◌<>◌, Bool, true, false, not, ◌&&◌, ◌||◌, Option, none, some, List, [], ◌∷◌,
  Map, lookup, insert, erase, ltb, leb, ◌==◌, str_eq, if◌then◌else◌,
}
use formae_plugin_kubernetes.Prelude.Errors.{GoError}
use formae_plugin_kubernetes.Prov.NativeId.{native_id}
use formae_plugin_kubernetes.Helm.RequestId.{OpKind, op_delete, op_eq}
use formae_plugin_kubernetes.Helm.Bridge.{Bridge}

pub record Flight : Type 0 where
  pub op : OpKind
  pub request_op : OpKind
  pub revision : ℕ
  pub fingerprint : String
  pub auth_fingerprint : String
  pub binding_id : String
  pub generation : String
  pub bridge : Option Bridge
  pub preparing : Bool
  pub stopping : Bool
  pub finished : Bool
  pub status_readers : ℕ
  pub reported : Bool
  pub outcome : Option GoError
  pub finished_at : ℕ
  pub started : ℕ
  pub deadline : ℕ
  pub cancel : Option ℕ

-- A pending `time.AfterFunc` that will call `removeOwnedFlight` at `due`.
pub record Timer : Type 0 where
  pub due : ℕ
  pub scope : String
  pub namespace : String
  pub name : String
  pub generation : String

pub record Registry : Type 0 where
  pub flights : Map Flight
  pub active_drains : ℕ
  pub timers : List Timer

unfoldable pub flight_key : String → String → String → Option String
unfolding native_id
flight_key scope ns name =
    if str_eq scope "" then none else some (scope <> "|" <> native_id ns name)

-- flights[key] = f, and delete(flights, key)
abbrev pub put : String → Flight → Registry → Registry
put key f r = record r { flights = insert key f r.flights }

abbrev pub drop : String → Registry → Registry
drop key r = record r { flights = erase key r.flights }

-- `f.reported = true; if f.statusReaders == 0 { delete(flights, key) }`
abbrev pub report : String → Flight → Registry → Registry
report key f r =
    if f.status_readers == 0 then drop key r else put key (record f { reported = true }) r

unfoldable pub lookup_flight : String → String → String → Registry → Option Flight
lookup_flight scope ns name r = elim (flight_key scope ns name) [
  | none ↦ none
  | some key ↦ lookup key r.flights
]
