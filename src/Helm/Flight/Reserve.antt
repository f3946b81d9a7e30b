-- ===== src/Helm/Flight/Reserve.antt =====
-- inflight.go and flight_lifecycle.go: the critical sections that take up a flight (reserving,
-- rejoining, activating, and polling its status), and the drain.
use formae_plugin_kubernetes.Prelude.{
  ℕ, suc, ◌+◌, ◌-◌, String, Bool, true, false, not, ◌&&◌, ◌||◌, Option, none, some, List, [], ◌∷◌,
  Map, lookup, ltb, ◌==◌, str_eq, if◌then◌else◌,
}
use formae_plugin_kubernetes.Helm.RequestId.{op_delete, op_eq}
use formae_plugin_kubernetes.Helm.Flight.{Flight, Registry, flight_key, put}

unfoldable pub matches_rejoin : Option Flight → Flight → Bool
matches_rejoin none wanted = false
matches_rejoin (some existing) wanted =
    if existing.preparing
      || not (str_eq existing.auth_fingerprint wanted.auth_fingerprint)
      || not (str_eq existing.binding_id wanted.binding_id)
    then false
    else if op_eq wanted.op op_delete
    then op_eq existing.op op_delete
    else op_eq existing.request_op wanted.request_op
      && str_eq existing.fingerprint wanted.fingerprint

-- One more reader: `existing.statusReaders++`.
abbrev pub with_reader : Flight → Flight
with_reader f = record f { status_readers = f.status_readers + 1 }

-- The body of `reserveFlightMatching` once the lock is held; `found` is `flights[key]`.
unfoldable pub reserve_at :
    String → Flight → (Flight → Bool) → Option Flight → Registry → Registry × Option Flight × Bool
reserve_at key f retain found r = if ltb 0 r.active_drains then (r, none, false) else elim found [
  | some existing ↦
      if retain existing
      then (put key (with_reader existing) r, some (with_reader existing), false)
      else (r, some existing, false)
  | none ↦ (put key f r, some f, true)
]

-- A flight with no start time gets the clock's.
abbrev pub stamp : ℕ → Flight → Flight
stamp now f = if f.started == 0 then record f { started = now } else f

unfoldable pub reserve_flight_matching :
    String
    → String
    → String
    → Flight
    → (Flight → Bool)
    → ℕ
    → Registry
    → Registry × Option Flight × Bool
unfolding reserve_at
reserve_flight_matching scope ns name f retain now r = elim (flight_key scope ns name) [
  | none ↦ (r, none, false)
  | some key ↦ reserve_at key (stamp now f) retain (lookup key r.flights) r
]

unfoldable pub reserve_rejoin_flight :
    String → String → String → Flight → ℕ → Registry → Registry × Option Flight × Bool
unfolding reserve_flight_matching matches_rejoin
reserve_rejoin_flight scope ns name f now r =
    reserve_flight_matching scope ns name f (λ existing. matches_rejoin (some existing) f) now r

unfoldable pub activate_at :
    String
    → String
    → ℕ
    → (Flight → Flight)
    → Option Flight
    → Registry
    → Registry × Option Flight × Bool
activate_at key generation cancel update found r = elim found [
  | none ↦ (r, none, false)
  | some f ↦
      if not (str_eq f.generation generation) || f.stopping || ltb 0 r.active_drains
      then (r, none, false)
      else let live = record (update f) { cancel = some cancel; preparing = false } in
        (put key live r, some live, true)
]

-- `update` is the closure that fills in what preparation found out.
unfoldable pub activate_flight :
    String
    → String
    → String
    → String
    → ℕ
    → (Flight → Flight)
    → Registry
    → Registry × Option Flight × Bool
unfolding activate_at
activate_flight scope ns name generation cancel update r = elim (flight_key scope ns name) [
  | none ↦ (r, none, false)
  | some key ↦ activate_at key generation cancel update (lookup key r.flights) r
]

-- Whether a status poll names the flight that it found.
unfoldable pub matches_status : Flight → String → Flight → Bool
matches_status f generation candidate =
    not f.preparing
    && str_eq f.generation generation
    && op_eq f.op candidate.op
    && f.revision == candidate.revision
    && str_eq f.auth_fingerprint candidate.auth_fingerprint
    && str_eq f.binding_id candidate.binding_id

unfoldable pub acquire_at :
    String → String → Flight → Option Flight → Registry → Registry × Option Flight × Bool
acquire_at key generation candidate found r =
    if ltb 0 r.active_drains then (r, none, false) else elim found [
      | none ↦ (put key candidate r, some candidate, true)
      | some f ↦
          if matches_status f generation candidate
          then (put key (with_reader f) r, some (with_reader f), false)
          else (r, some f, false)
    ]

unfoldable pub acquire_status_flight :
    String → String → String → String → Flight → Registry → Registry × Option Flight × Bool
unfolding acquire_at
acquire_status_flight scope ns name generation candidate r = elim (flight_key scope ns name) [
  | none ↦ (r, none, false)
  | some key ↦ acquire_at key generation candidate (lookup key r.flights) r
]

-- The first loop of `DrainInFlight` on one flight, and the cancel functions that it collects.
abbrev pub stop : Flight → Flight
stop f = record f { stopping = not f.finished || f.stopping; cancel = none }

abbrev pub stop_all : Map Flight → Map Flight
stop_all [] = []
stop_all ((k, f) ∷ m) = (k, stop f) ∷ stop_all m

abbrev pub cancels : Map Flight → List ℕ
cancels [] = []
cancels ((k, f) ∷ m) = elim f.cancel [ none ↦ cancels m | some c ↦ c ∷ cancels m ]

-- `DrainInFlight` up to the polling loop, with the cancel functions that it calls.
unfoldable pub drain_begin : Registry → Registry × List ℕ
drain_begin r = (
  record r { active_drains = r.active_drains + 1; flights = stop_all r.flights },
  cancels r.flights,
)

-- The count of one poll.
unfoldable pub remaining : Map Flight → ℕ
remaining [] = 0
remaining ((k, f) ∷ m) = let rest = remaining m in if f.finished then rest else suc rest

-- One round of the polling loop: the answer, or none to sleep and poll again.
unfoldable pub drain_poll : ℕ → ℕ → Registry → Option Bool
unfolding remaining
drain_poll deadline now r =
    if remaining r.flights == 0 then some true else if ltb deadline now then some false else none

-- The deferred `activeDrains--`.
unfoldable pub drain_end : Registry → Registry
drain_end r = record r { active_drains = r.active_drains - 1 }
