-- ===== src/Helm/Flight/Drain.antt =====
-- A graceful stop: while a drain is active nothing starts, and what it caught never starts later.
use formae_plugin_kubernetes.Prelude.{
  ℕ, ◌<◌, String, ◌≡◌, refl, ◌↔◌, inl, inr, true, false, none, some, List, [], ◌∷◌, Map, lookup,
  eq_iff, arith, All, Option-cases,
}
use formae_plugin_kubernetes.Helm.Flight.{Flight, Registry, flight_key}
use formae_plugin_kubernetes.Helm.Flight.Reserve.{
  reserve_rejoin_flight, activate_flight, acquire_status_flight, drain_begin, drain_poll, remaining,
  stop, stop_all, cancels,
}
use formae_plugin_kubernetes.Helm.Flight.Readers.{lookup-stop_all}
use formae_plugin_kubernetes.Helm.Flight.Later.{Later, IsFresh, Later-self, run-Later}
use formae_plugin_kubernetes.Helm.Flight.Step.{Target, Call, run}

-- While a drain is active, no flight is reserved, rejoined, polled or activated: each of the three
-- entry points fails and changes nothing.
pub drain-blocks :
    (t : Target) (generation : String) (f : Flight) (now cancel : ℕ) (update : Flight → Flight)
    (r : Registry)
    → 0 < r.active_drains
    → (reserve_rejoin_flight t.scope t.namespace t.name f now r ≡ (r, none, false))
      × (acquire_status_flight t.scope t.namespace t.name generation f r ≡ (r, none, false))
      × (activate_flight t.scope t.namespace t.name generation cancel update r ≡ (r, none, false))
unfolding reserve_rejoin_flight acquire_status_flight activate_flight
drain-blocks t generation f now cancel update r active = (ground arith, ground arith, ground arith)

activate_stopped :
    (t : Target) (key generation : String) (cancel : ℕ) (update : Flight → Flight) (f : Flight)
    (r : Registry)
    → flight_key t.scope t.namespace t.name ≡ some key
    → f.generation ≡ generation
    → f.stopping ≡ true
    → Later f (lookup key r.flights)
    → activate_flight t.scope t.namespace t.name generation cancel update r ≡ (r, none, false)
unfolding activate_flight
activate_stopped t key generation cancel update f r at same stopping since =
    elim (Option-cases (lookup key r.flights)) [
      | inl missing ↦ ground arith
      | inr (g, found) ↦ ground (arith, eq_iff g.generation generation)
    ]

-- A flight that was unfinished when a drain began can never be activated afterwards, also when the
-- drain is long over: whatever calls come in between, activating its generation fails and changes
-- nothing, provided that no new flight is given the same generation.
pub drained-never_activates :
    (cs : List Call) (r : Registry) (t : Target) (key : String) (f : Flight) (cancel : ℕ)
    (update : Flight → Flight)
    → flight_key t.scope t.namespace t.name ≡ some key
    → lookup key r.flights ≡ some f
    → f.finished ≡ false
    → All (IsFresh f.generation) cs
    → let after = run cs (drain_begin r).0 in
      activate_flight t.scope t.namespace t.name f.generation cancel update after
      ≡ (after, none, false)
unfolding drain_begin
drained-never_activates cs r t key f cancel update at held unfinished fresh =
    activate_stopped t key f.generation cancel update (stop f) (run cs (drain_begin r).0) at refl
      (ground arith)
      (run-Later cs (drain_begin r).0 key (stop f)
        (Later-self (stop f) _ (ground (arith, lookup-stop_all key r.flights))) fresh)

abbrev pub AllFinished : Map Flight → Type 0
AllFinished [] = Unit
AllFinished ((k, f) ∷ m) = (f.finished ≡ true) × AllFinished m

remaining-zero_iff : (m : Map Flight) → (remaining m ≡ 0) ↔ AllFinished m
unfolding remaining
remaining-zero_iff [] = ground arith
remaining-zero_iff ((k, f) ∷ m) = ground (arith, remaining-zero_iff m)

cancels-stop_all : (m : Map Flight) → cancels (stop_all m) ≡ []
cancels-stop_all [] = refl
cancels-stop_all ((k, f) ∷ m) = cancels-stop_all m

-- A round of the drain's polling answers yes exactly when every flight in the registry has
-- finished, and the cancel functions that a drain called are not called by a drain after it.
pub drain_complete :
    (deadline now : ℕ) (r : Registry)
    → ((drain_poll deadline now r ≡ some true) ↔ AllFinished r.flights)
      × ((drain_begin (drain_begin r).0).1 ≡ [])
unfolding drain_poll drain_begin
drain_complete deadline now r =
    (ground (arith, remaining-zero_iff r.flights), cancels-stop_all r.flights)
