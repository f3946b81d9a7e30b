-- ===== src/Helm/Flight/Retire.antt =====
-- Every finished flight leaves the registry: its timer reports it, and its last reader takes it out.
use formae_plugin_kubernetes.Prelude.{
  ℕ, zero, suc, ◌+◌, ◌≤◌, ◌<◌, String, ◌≡◌, true, Option, none, some, List, [], ◌∷◌, lookup, eq_iff,
  arith, lookup-insert, lookup-erase,
}
use formae_plugin_kubernetes.Prelude.Errors.{GoError}
use formae_plugin_kubernetes.Helm.Flight.{Flight, Registry, Timer, flight_key}
use formae_plugin_kubernetes.Helm.Flight.Owned.{
  finish, update_owned_flight, fire, fire_due, remove_owned_flight, finish_flight,
  release_status_flight, retention,
}
use formae_plugin_kubernetes.Helm.Flight.Step.{Target, slot_cases}

-- The slot is empty, or holds a reported flight of `gen` that at most `n` readers keep.
abbrev Ending : ℕ → String → Option Flight → Type 0
Ending n gen none = Unit
Ending n gen (some g) =
    (g.generation ≡ gen) × (g.reported ≡ true) × (0 < g.status_readers) × (g.status_readers ≤ n)

-- `n` readers of a generation let go, one after another.
abbrev pub release_times : ℕ → Target → String → Registry → Registry
release_times zero t gen r = r
release_times (suc n) t gen r =
    release_times n t gen (release_status_flight t.scope t.namespace t.name gen r)

ruleset slots = (arith, lookup-insert, lookup-erase, eq_iff)

remove_owned-Ending :
    (t : Target) (generation : String) (r : Registry) (key gen : String) (n : ℕ)
    → Ending n gen (lookup key r.flights)
    → Ending n gen
        (lookup key (remove_owned_flight t.scope t.namespace t.name generation r).flights)
unfolding remove_owned_flight
remove_owned-Ending t generation r key gen n h =
    slot_cases _ t r (λ e. ground arith) (λ slot e missing. ground arith)
      (λ slot g e found. grind slots)

fire-Ending :
    (now : ℕ) (ts : List Timer) (r : Registry) (key gen : String) (n : ℕ)
    → Ending n gen (lookup key r.flights)
    → Ending n gen (lookup key (fire now ts r).flights)
unfolding fire
fire-Ending now [] r key gen n h = h
fire-Ending now (t ∷ ts) r key gen n h = ground (
  arith,
  fire-Ending now ts (remove_owned_flight t.scope t.namespace t.name t.generation r) key gen n (
      remove_owned-Ending (record { scope = t.scope; namespace = t.namespace; name = t.name })
        t.generation r key gen n h),
  fire-Ending now ts (record r { timers = t ∷ r.timers }) key gen n h,
)

release-Ending :
    (t : Target) (r : Registry) (key gen : String) (n : ℕ)
    → flight_key t.scope t.namespace t.name ≡ some key
    → Ending (suc n) gen (lookup key r.flights)
    → Ending n gen (lookup key (release_status_flight t.scope t.namespace t.name gen r).flights)
unfolding release_status_flight
release-Ending t r key gen n at h =
    slot_cases _ t r (λ e. ground arith) (λ slot e missing. ground arith)
      (λ slot g e found. grind slots)

release_times-Ending :
    (n : ℕ) (t : Target) (r : Registry) (key gen : String)
    → flight_key t.scope t.namespace t.name ≡ some key
    → Ending n gen (lookup key r.flights)
    → lookup key (release_times n t gen r).flights ≡ none
release_times-Ending zero t r key gen at h = ground arith
release_times-Ending (suc n) t r key gen at h =
    release_times-Ending n t _ key gen at (release-Ending t r key gen n at h)

reported-Ending :
    (t : Target) (r : Registry) (key : String) (f : Flight)
    → flight_key t.scope t.namespace t.name ≡ some key
    → lookup key r.flights ≡ some f
    → Ending f.status_readers f.generation
        (lookup key (remove_owned_flight t.scope t.namespace t.name f.generation r).flights)
unfolding remove_owned_flight
reported-Ending t r key f at held = grind slots

finish_keeps :
    (now : ℕ) (error : Option GoError) (f : Flight)
    → ((finish now error f).generation ≡ f.generation)
      × ((finish now error f).status_readers ≡ f.status_readers)
unfolding finish
finish_keeps now error f = ground arith

update_owned_lookup :
    (t : Target) (r : Registry) (key : String) (f : Flight) (update : Flight → Flight)
    → flight_key t.scope t.namespace t.name ≡ some key
    → lookup key r.flights ≡ some f
    → lookup key (update_owned_flight t.scope t.namespace t.name f.generation update r).flights
      ≡ some (update f)
unfolding update_owned_flight
update_owned_lookup t r key f update at held = ground (
  arith,
  lookup-insert key key (update f) r.flights,
  eq_iff f.generation f.generation,
  eq_iff key key,
)

fire_first-Ending :
    (t : Target) (r : Registry) (key : String) (f : Flight) (due later : ℕ) (ts : List Timer)
    → flight_key t.scope t.namespace t.name ≡ some key
    → lookup key r.flights ≡ some f
    → due ≤ later
    → let timer : Timer = record {
      due = due;
      scope = t.scope;
      namespace = t.namespace;
      name = t.name;
      generation = f.generation;
    } in
      Ending f.status_readers f.generation (lookup key (fire later (timer ∷ ts) r).flights)
unfolding fire
fire_first-Ending t r key f due later ts at held h = ground (
  arith,
  fire-Ending later ts (remove_owned_flight t.scope t.namespace t.name f.generation r) key
      f.generation f.status_readers (reported-Ending t r key f at held),
)

-- No finished flight stays for ever: once its worker has finished and the cleanup timer that this
-- started is due, as many releases as the flight has readers leave its slot empty, also when other
-- timers fire with it.
pub finish-retires :
    (t : Target) (r : Registry) (key : String) (f : Flight) (error : Option GoError) (now later : ℕ)
    → flight_key t.scope t.namespace t.name ≡ some key
    → lookup key r.flights ≡ some f
    → now + retention ≤ later
    → let done = finish_flight t.scope t.namespace t.name f.generation error now r in
      lookup key (release_times f.status_readers t f.generation (fire_due later done)).flights
      ≡ none
unfolding fire_due finish_flight
finish-retires t r key f error now later at held due =
    let (same, readers) = finish_keeps now error f in
    let swept =
      fire_first-Ending t (record done { timers = [] }) key (finish now error f) (now + retention)
        later done.timers at (update_owned_lookup t r key f (finish now error) at held) due in
    release_times-Ending f.status_readers t _ key f.generation at (rw (same, readers) at swept)
  where
    done : Registry
    done = update_owned_flight t.scope t.namespace t.name f.generation (finish now error) r
