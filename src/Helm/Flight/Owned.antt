-- ===== src/Helm/Flight/Owned.antt =====
-- inflight.go and flight_lifecycle.go: the critical sections of the callers that own a generation,
-- which act only on the flight of that generation.
use formae_plugin_kubernetes.Prelude.{
  ℕ, ◌+◌, ◌-◌, ◌*◌, String, Bool, true, false, ◌&&◌, Option, none, some, List, [], ◌∷◌, lookup, leb,
  ◌==◌, str_eq, if◌then◌else◌,
}
use formae_plugin_kubernetes.Prelude.Errors.{GoError, error_is}
use formae_plugin_kubernetes.Helm.Bridge.{close, second}
use formae_plugin_kubernetes.Helm.Flight.{Flight, Timer, Registry, flight_key, put, drop, report}

-- Whether a found flight is of the given generation.
abbrev pub owns : Flight → String → Bool
owns f generation = str_eq f.generation generation

unfoldable pub remove_owned_at : String → String → Option Flight → Registry → Registry
remove_owned_at key generation found r = elim found [
  | none ↦ r
  | some f ↦ if owns f generation then report key f r else r
]

unfoldable pub remove_owned_flight : String → String → String → String → Registry → Registry
unfolding remove_owned_at
remove_owned_flight scope ns name generation r = elim (flight_key scope ns name) [
  | none ↦ r
  | some key ↦ remove_owned_at key generation (lookup key r.flights) r
]

unfoldable pub update_owned_at :
    String → String → (Flight → Flight) → Option Flight → Registry → Registry
update_owned_at key generation update found r = elim found [
  | none ↦ r
  | some f ↦ if owns f generation then put key (update f) r else r
]

unfoldable pub update_owned_flight :
    String → String → String → String → (Flight → Flight) → Registry → Registry
unfolding update_owned_at
update_owned_flight scope ns name generation update r = elim (flight_key scope ns name) [
  | none ↦ r
  | some key ↦ update_owned_at key generation update (lookup key r.flights) r
]

-- The closure of `finishFlight`: the first outcome stays.
unfoldable pub finish : ℕ → Option GoError → Flight → Flight
unfolding close
finish now error f = if f.finished then f else record f {
  finished = true;
  finished_at = now;
  outcome = error;
  cancel = none;
  bridge = elim f.bridge [ none ↦ none | some b ↦ some (close error b) ];
}

-- How long an outcome nobody asked for is kept: five minutes.
abbrev pub retention : ℕ
retention = 300 * second

unfoldable pub finish_flight :
    String → String → String → String → Option GoError → ℕ → Registry → Registry
unfolding update_owned_flight finish
finish_flight scope ns name generation error now r =
    let done = update_owned_flight scope ns name generation (finish now error) r in
    record done {
      timers =
          record {
            due = now + retention;
            scope = scope;
            namespace = ns;
            name = name;
            generation = generation;
          }
          ∷ done.timers;
    }

-- The cleanup timers that are due at `now` fire, each as a call of `removeOwnedFlight`.
unfoldable pub fire : ℕ → List Timer → Registry → Registry
unfolding remove_owned_flight
fire now [] r = r
fire now (t ∷ ts) r =
    let later = record r { timers = t ∷ r.timers } in
    let removed = remove_owned_flight t.scope t.namespace t.name t.generation r in
    fire now ts (if leb t.due now then removed else later)

unfoldable pub fire_due : ℕ → Registry → Registry
unfolding fire
fire_due now r = fire now r.timers (record r { timers = [] })

unfoldable pub release_status_at : String → String → Option Flight → Registry → Registry
release_status_at key generation found r = elim found [
  | none ↦ r
  | some f ↦
      if owns f generation
      then (let left = record f { status_readers = f.status_readers - 1 } in
          if left.status_readers == 0 && left.reported then drop key r else put key left r)
      else r
]

unfoldable pub release_status_flight : String → String → String → String → Registry → Registry
unfolding release_status_at
release_status_flight scope ns name generation r = elim (flight_key scope ns name) [
  | none ↦ r
  | some key ↦ release_status_at key generation (lookup key r.flights) r
]

-- `f.outcome != nil && errors.Is(reported, f.outcome)`
unfoldable pub delivers : Option GoError → Option GoError → Bool
unfolding error_is
delivers reported none = false
delivers none (some outcome) = false
delivers (some error) (some outcome) = error_is error outcome

-- An outcome that `submit` delivers itself is consumed only if it is the one being reported.
unfoldable pub consume_at : String → String → Option GoError → Option Flight → Registry → Registry
unfolding delivers
consume_at key generation reported found r = elim found [
  | none ↦ r
  | some f ↦
      if owns f generation && f.finished && delivers reported f.outcome then report key f r else r
]

unfoldable pub consume_synchronous_failure :
    String → String → String → String → Option GoError → Registry → Registry
unfolding consume_at
consume_synchronous_failure scope ns name generation reported r = elim (flight_key scope ns name) [
  | none ↦ r
  | some key ↦ consume_at key generation reported (lookup key r.flights) r
]
