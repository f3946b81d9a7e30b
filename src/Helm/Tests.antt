-- ===== src/Helm/Tests.antt =====
-- pkg/resources/helm: the theorems applied to a registry with one release, and runs of the model.
use formae_plugin_kubernetes.Prelude.{
  ◌+◌, ◌*◌, String, ◌<>◌, ◌≡◌, ◌≢◌, refl, ◌↔◌, Bool, true, false, Option, none, some, List, [], ◌∷◌,
  lookup, insert, arith, str_eq→ne,
}
use formae_plugin_kubernetes.Prelude.Errors.{GoError, leaf, error_text}
use formae_plugin_kubernetes.Prelude.Text.{contains}
use formae_plugin_kubernetes.Resource.{check_status, failure, general_service_exception}
use formae_plugin_kubernetes.Helm.RequestId.{
  op_install, op_upgrade, request_id, parse_request_id, request_generation,
}
use formae_plugin_kubernetes.Helm.RequestId.RoundTrip.{parse-flight_request_id}
use formae_plugin_kubernetes.Helm.Bridge.{
  Bridge, shut, token_of, token_turn, failed, second, service_begin, service_end,
}
use formae_plugin_kubernetes.Helm.Bridge.Laws.{
  BridgeCall, turn, begin_service, closing, invalidation, bridge_invalidations, bridge_run,
  closed-for_good, invalidate-fences,
}
use formae_plugin_kubernetes.Helm.Inventory.{new_inventory}
use formae_plugin_kubernetes.Helm.Inventory.Cache.{
  InventoryCache, cached_end, invalidated, play, invalidations, stale_build-dropped,
}
use formae_plugin_kubernetes.Helm.Flight.{Flight, Registry, flight_key, lookup_flight}
use formae_plugin_kubernetes.Helm.Flight.Reserve.{
  reserve_rejoin_flight, activate_flight, drain_begin,
}
use formae_plugin_kubernetes.Helm.Flight.Owned.{finish_flight, fire_due, retention}
use formae_plugin_kubernetes.Helm.Flight.Step.{
  Target, Call, owned, reserve, fire_timers, begin_drain, end_drain, release, finished_with, remove,
  owned_step, run,
}
use formae_plugin_kubernetes.Helm.Flight.Lifecycle.{phase, runs, completed}
use formae_plugin_kubernetes.Helm.Flight.Lifecycle.Runs.{Lives, shared, run-Lives}
use formae_plugin_kubernetes.Helm.Flight.Fence.{owned_step-fence}
use formae_plugin_kubernetes.Helm.Flight.Readers.{run-keeps_read_flight}
use formae_plugin_kubernetes.Helm.Flight.Later.{run-keeps_outcome}
use formae_plugin_kubernetes.Helm.Flight.Drain.{drained-never_activates}
use formae_plugin_kubernetes.Helm.Flight.Retire.{finish-retires, release_times}
use formae_plugin_kubernetes.Helm.Flight.Verdict.{reserve-exclusive, answer, told, left}

abbrev target : Target
target = record { scope = "c1"; namespace = "ns"; name = "web" }

abbrev running : Flight
running = record {
  op = op_install;
  request_op = op_install;
  revision = 1;
  fingerprint = "f";
  auth_fingerprint = "a";
  binding_id = "b";
  generation = "g1";
  bridge = none;
  preparing = false;
  stopping = false;
  finished = false;
  status_readers = 2;
  reported = false;
  outcome = none;
  finished_at = 0;
  started = 5;
  deadline = 900;
  cancel = some 7;
}

abbrev broken : GoError
broken = leaf 30 "no such chart"

-- The same flight after its worker failed.
abbrev ended : Flight
ended = record running { finished = true; outcome = some broken; finished_at = 40; cancel = none }

abbrev other_flight : Flight
other_flight = record running { generation = "g2"; status_readers = 1 }

abbrev holding : Flight → Registry
holding f = record { flights = ("c1|ns/web", f) ∷ []; active_drains = 0; timers = [] }

abbrev draining : Registry
draining = record (holding running) { active_drains = 1 }

-- A worker that fails, its outcome told to one of two readers, a drain, and a stale owner.
abbrev calls : List Call
calls =
    owned target "g1" (finished_with (some broken) 40)
    ∷ owned target "g1" release
    ∷ begin_drain
    ∷ end_drain
    ∷ reserve target other_flight 50
    ∷ owned target "g2" remove
    ∷ fire_timers 5000
    ∷ []

run-keeps_read_flight_example :
    (g : Flight) × (lookup "c1|ns/web" (run calls (holding running)).flights ≡ some g)
    × (g.generation ≡ "g1")
unfolding lookup
run-keeps_read_flight_example =
    run-keeps_read_flight calls (holding running) "c1|ns/web" running refl (omega arith)

run-Lives_example :
    Lives "c1|ns/web" calls (shared (holding running)) (runs "g1") (completed "g1" (some broken))
unfolding lookup run phase flight_key insert
run-Lives_example = run-Lives calls (holding running) "c1|ns/web"

drained-never_activates_example :
    let after = run calls (drain_begin (holding running)).0 in
    activate_flight "c1" "ns" "web" "g1" 9 (λ f. f) after ≡ (after, none, false)
unfolding lookup flight_key
drained-never_activates_example =
    drained-never_activates calls (holding running) target "c1|ns/web" running 9 (λ f. f) refl refl
      refl (tt, (tt, (tt, (tt, (str_eq→ne "g2" "g1" refl, (tt, (tt, tt)))))))

run-keeps_outcome_example :
    (ended.finished ≡ true) × (ended.outcome ≡ some broken) × (ended.finished_at ≡ 40)
unfolding lookup run
run-keeps_outcome_example =
    run-keeps_outcome (begin_drain ∷ fire_timers 50 ∷ []) (holding ended) "c1|ns/web" ended ended
      refl refl (tt, (tt, tt)) refl refl

two_generations : ◌≢◌ {A = Option String} (some "g1") (some "g2")
two_generations = λ h. ground (arith, str_eq→ne "g1" "g2" refl)

owned_step-fence_example :
    (owned_step target "g2" remove (holding running)).flights ≡ (holding running).flights
unfolding lookup_flight lookup flight_key
owned_step-fence_example =
    owned_step-fence target "g2" remove (holding running) (λ h. two_generations h)

finish-retires_example :
    let done = finish_flight "c1" "ns" "web" "g1" (some broken) 40 (holding running) in
    lookup "c1|ns/web" (release_times 2 target "g1" (fire_due (40 + retention) done)).flights ≡ none
unfolding lookup flight_key
finish-retires_example =
    finish-retires target (holding running) "c1|ns/web" running (some broken) 40 (40 + retention)
      refl refl (omega arith)

reserve-exclusive_example :
    let out = reserve_rejoin_flight "c1" "ns" "web" other_flight 50 (holding running) in
    ((out.2 ≡ true) ↔ (lookup "c1|ns/web" (holding running).flights ≡ none))
    × (lookup "c1|ns/web" out.0.flights ≡ out.1)
    × (out.1 ≡ some (answer (lookup "c1|ns/web" (holding running).flights) other_flight 50))
unfolding flight_key
reserve-exclusive_example =
    reserve-exclusive target "c1|ns/web" other_flight 50 (holding running) refl refl

-- The failure is told and the flight, which has readers, is marked.
delivered :
    (told target ended "r" none
      ≡ some record {
        progress_result = some record {
          operation = some check_status;
          status = failure;
          native_id = "";
          request_id = "";
          properties = "";
          error_code = some general_service_exception;
          status_message = "Helm operation failed: no such chart";
        };
      })
    × (left ended none ≡ some (record ended { reported = true }))
unfolding error_text
delivered = (refl, refl)

abbrev is_g1 : String → Bool
is_g1 s = text.Mathlib.Text.◌==◌ s "g1"

parse-flight_request_id_example :
    let id = request_id "ns" "web" 3 op_upgrade <> ("#" <> "g1") in
    (parse_request_id is_g1 id ≡ some ("ns", "web", 3, op_upgrade))
    × (request_generation is_g1 id ≡ some "g1")
unfolding contains
parse-flight_request_id_example =
    parse-flight_request_id is_g1 "ns" "web" "g1" 3 op_upgrade
      record {
        has_namespace = str_eq→ne "ns" "" refl;
        has_name = str_eq→ne "web" "" refl;
        plain_namespace = refl;
        plain_name = refl;
      }
      refl refl (omega arith) (omega arith) refl

abbrev bridge : Bridge
bridge = record {
  window = 60 * second;
  deadline = 500 * second;
  serviced = 100 * second;
  token = "t";
  expiry = 300 * second;
  closed = none;
  changed = 0;
  requested = false;
  generation = 4;
  source_generation = 4;
}

abbrev closed_bridge : Bridge
closed_bridge = record bridge { closed = some broken; token = "" }

closed-for_good_example :
    let after =
      bridge_run 9999
        (invalidation ∷ begin_service ∷ closing none ∷ turn none 3 ∷ [])
        closed_bridge in
    (token_turn after none 7 ≡ (after, failed broken))
    × (service_begin after ≡ (after, shut broken))
closed-for_good_example =
    closed-for_good 9999 (invalidation ∷ begin_service ∷ closing none ∷ turn none 3 ∷ [])
      closed_bridge broken none 7 refl

-- Between the halves of a service the worker reports the token twice, and asks again.
abbrev rejections : List BridgeCall
rejections = invalidation ∷ turn none (105 * second) ∷ invalidation ∷ []

invalidate-fences_example :
    let before = bridge_run (9000 * second) rejections (service_begin bridge).0 in
    (token_turn
      (service_end (9000 * second) before 4 (110 * second) "new" (400 * second) none).0
      none
      (111 * second)).1
    ≡ (token_turn before none (111 * second)).1
unfolding service_begin bridge_invalidations
invalidate-fences_example =
    invalidate-fences (9000 * second) (110 * second) (111 * second) 4 false rejections bridge "new"
      (400 * second) none none (omega arith) refl (omega arith) (omega arith)

-- Without an invalidation the new token is handed out.
refreshed :
    (token_turn
      (service_end
        (9000 * second)
        (service_begin bridge).0
        4
        (110 * second)
        "new"
        (400 * second)
        none).0
      none
      (111 * second)).1
    ≡ token_of "new" (400 * second)
unfolding service_begin service_end token_turn
refreshed = refl

abbrev inventories : InventoryCache
inventories = record { entries = []; generation = 3 }

stale_build-dropped_example :
    cached_end 9 "c1" 3 new_inventory (play (invalidated ∷ []) inventories)
    ≡ play (invalidated ∷ []) inventories
unfolding invalidations
stale_build-dropped_example =
    stale_build-dropped 9 "c1" new_inventory (invalidated ∷ []) inventories (omega arith)
      (omega arith) (omega arith)
