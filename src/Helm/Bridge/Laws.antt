-- ===== src/Helm/Bridge/Laws.antt =====
-- auth_bridge.go: which credentials the bridge hands to its worker, whatever the calls are.
use Prim.Native.Nat.{◌^◌, ◌%◌}
use formae_plugin_kubernetes.Prelude.{
  ℕ, ◌+◌, ◌*◌, ◌<◌, String, ◌≡◌, ◌≢◌, refl, ◌∙◌, ap, ◌⊎◌, inl, inr, Bool, true, Option, some, none,
  List, [], ◌∷◌, Option-cases, eq_iff, arith,
}
use formae_plugin_kubernetes.Prelude.Errors.{GoError}
use formae_plugin_kubernetes.Helm.Bridge.{
  Bridge, shut, fetches, token_of, failed, second, limit, token_turn, service_begin, service_end,
  invalidate, close,
}

-- The calls on a bridge: a worker's turn, the two halves of a service, an invalidation, a close.
pub data BridgeCall : Type 0 where
  turn : Option GoError → ℕ → BridgeCall
  begin_service : BridgeCall
  end_service : ℕ → ℕ → String → ℕ → Option GoError → BridgeCall
  invalidation : BridgeCall
  closing : Option GoError → BridgeCall

unfoldable pub bridge_step : ℕ → BridgeCall → Bridge → Bridge
unfolding token_turn service_begin service_end invalidate close
bridge_step far (turn context now) b = (token_turn b context now).0
bridge_step far begin_service b = (service_begin b).0
bridge_step far (end_service asked now token expiry error) b =
    (service_end far b asked now token expiry error).0
bridge_step far invalidation b = invalidate b
bridge_step far (closing error) b = close error b

unfoldable pub bridge_run : ℕ → List BridgeCall → Bridge → Bridge
unfolding bridge_step
bridge_run far [] b = b
bridge_run far (c ∷ cs) b = bridge_run far cs (bridge_step far c b)

bridge_step-closed :
    (far : ℕ) (c : BridgeCall) (b : Bridge) (e : GoError)
    → b.closed ≡ some e
    → (bridge_step far c b).closed ≡ some e
unfolding bridge_step
bridge_step-closed far (turn none now) b e h = ground arith
bridge_step-closed far (turn (some c) now) b e h = ground arith
bridge_step-closed far begin_service b e h = ground arith
bridge_step-closed far (end_service asked now token expiry error) b e h = ground arith
bridge_step-closed far invalidation b e h = ground arith
bridge_step-closed far (closing error) b e h = ground arith

bridge_run-closed :
    (far : ℕ) (cs : List BridgeCall) (b : Bridge) (e : GoError)
    → b.closed ≡ some e
    → (bridge_run far cs b).closed ≡ some e
unfolding bridge_run
bridge_run-closed far [] b e h = h
bridge_run-closed far (c ∷ cs) b e h =
    bridge_run-closed far cs (bridge_step far c b) e (bridge_step-closed far c b e h)

-- What a worker is told by a bridge that was closed for `e`.
abbrev pub closing_error : Option GoError → GoError → GoError
closing_error none e = e
closing_error (some ended) e = ended

-- A closed bridge stays closed for the reason it was first closed for: whatever calls follow, every
-- turn of a worker whose context is live fails with that reason, and one whose context has ended
-- fails with the context's error; a service that begins fails with the reason. None changes the
-- bridge, and no token is given.
pub closed-for_good :
    (far : ℕ) (cs : List BridgeCall) (b : Bridge) (e : GoError) (context : Option GoError) (now : ℕ)
    → b.closed ≡ some e
    → let after = bridge_run far cs b in
      (token_turn after context now ≡ (after, failed (closing_error context e)))
      × (service_begin after ≡ (after, shut e))
unfolding token_turn service_begin
closed-for_good far cs b e none now h =
    (ground (arith, bridge_run-closed far cs b e h), ground (arith, bridge_run-closed far cs b e h))
closed-for_good far cs b e (some ended) now h =
    (refl, ground (arith, bridge_run-closed far cs b e h))

unfoldable pub bridge_invalidations : List BridgeCall → ℕ
bridge_invalidations [] = 0
bridge_invalidations (invalidation ∷ cs) = bridge_invalidations cs + 1
bridge_invalidations (turn context now ∷ cs) = bridge_invalidations cs
bridge_invalidations (begin_service ∷ cs) = bridge_invalidations cs
bridge_invalidations (end_service asked now token expiry error ∷ cs) = bridge_invalidations cs
bridge_invalidations (closing error ∷ cs) = bridge_invalidations cs

-- Whether a call is an invalidation, as a number.
abbrev invalidates : BridgeCall → ℕ
invalidates invalidation = 1
invalidates _ = 0

bridge_step-generation :
    (far : ℕ) (c : BridgeCall) (b : Bridge)
    → b.generation < 2 ^ 64
    → (bridge_step far c b).generation ≡ (b.generation + invalidates c) % 2 ^ 64
unfolding bridge_step
bridge_step-generation far (turn none now) b h = ground arith
bridge_step-generation far (turn (some c) now) b h = ground arith
bridge_step-generation far begin_service b h = ground arith
bridge_step-generation far (end_service asked now token expiry error) b h = ground arith
bridge_step-generation far invalidation b h = ground arith
bridge_step-generation far (closing error) b h = ground arith

bridge_invalidations-cons :
    (c : BridgeCall) (cs : List BridgeCall)
    → bridge_invalidations (c ∷ cs) ≡ bridge_invalidations cs + invalidates c
unfolding bridge_invalidations
bridge_invalidations-cons (turn context now) cs = omega arith
bridge_invalidations-cons begin_service cs = omega arith
bridge_invalidations-cons (end_service asked now token expiry error) cs = omega arith
bridge_invalidations-cons invalidation cs = refl
bridge_invalidations-cons (closing error) cs = omega arith

bridge_run-generation :
    (far : ℕ) (cs : List BridgeCall) (b : Bridge)
    → b.generation < 2 ^ 64
    → (bridge_run far cs b).generation ≡ (b.generation + bridge_invalidations cs) % 2 ^ 64
unfolding bridge_run bridge_invalidations
bridge_run-generation far [] b h = omega arith
bridge_run-generation far (c ∷ cs) b h =
    let e = bridge_step-generation far c b h in
    let next = bridge_run-generation far cs (bridge_step far c b) (omega (arith, e)) in
    let count = bridge_invalidations-cons c cs in omega (arith, next, e, count)

-- The fence by itself: an answer for another generation than the bridge's changes nothing but the
-- wakeup.
service_end-stale :
    (far asked now : ℕ) (b : Bridge) (token : String) (expiry : ℕ) (error : Option GoError)
    → asked ≢ b.generation
    → let after = (service_end far b asked now token expiry error).0 in
      (after ≡ b) ⊎ (after ≡ record b { requested = true })
unfolding service_end
service_end-stale far asked now b token expiry error differs =
    ground (arith, Option-cases b.closed, Option-cases error)

turn_requested :
    (b : Bridge) (context : Option GoError) (now : ℕ)
    → (token_turn (record b { requested = true }) context now).1 ≡ (token_turn b context now).1
unfolding token_turn limit
turn_requested b none now = ground (arith, Option-cases b.closed)
turn_requested b (some e) now = refl

service_begin-generation :
    (b : Bridge) (asked : ℕ) (drops : Bool)
    → (service_begin b).1 ≡ fetches asked drops
    → (asked ≡ b.generation) × ((service_begin b).0.generation ≡ b.generation)
unfolding service_begin
service_begin-generation b asked drops h =
    (ground (arith, Option-cases b.closed), ground (arith, Option-cases b.closed))

-- An invalidation fences off a fetch that is under way: where between the two halves of a service
-- the bridge is invalidated, at least once and fewer than 2^64 times, among whatever other calls,
-- the answer of the source changes no turn of the worker, then and at any later time, whatever the
-- source answers. Generations are those of a uint64.
pub invalidate-fences :
    (far now later asked : ℕ) (drops : Bool) (cs : List BridgeCall) (b : Bridge) (token : String)
    (expiry : ℕ) (error context : Option GoError)
    → b.generation < 2 ^ 64
    → (service_begin b).1 ≡ fetches asked drops
    → 0 < bridge_invalidations cs
    → bridge_invalidations cs < 2 ^ 64
    → let before = bridge_run far cs (service_begin b).0 in
      (token_turn (service_end far before asked now token expiry error).0 context later).1
      ≡ (token_turn before context later).1
invalidate-fences far now later asked drops cs b token expiry error context bounded begins came
      few =
    let before = bridge_run far cs (service_begin b).0 in
    let (same, kept) = service_begin-generation b asked drops begins in
    let moved = bridge_run-generation far cs (service_begin b).0 (omega (arith, kept)) in
    let differs : asked ≢ before.generation = λ e. omega (arith, e, same, kept, moved) in
    elim (service_end-stale far asked now before token expiry error differs) [
      | inl e ↦ ap (λ x. (token_turn x context later).1) e
      | inr e ↦ ap (λ x. (token_turn x context later).1) e ∙ turn_requested before context later
    ]

-- A token that is handed out is the bridge's own and not empty, it is valid for ten seconds more,
-- and the polling budget and the action's deadline are not over.
token-fresh :
    (b : Bridge) (now : ℕ) (token : String) (expiry : ℕ)
    → (token_turn b none now).1 ≡ token_of token expiry
    → (token ≡ b.token)
      × (token ≢ "")
      × (now + 10 * second < expiry)
      × (now < b.serviced + b.window)
      × (now < b.deadline)
unfolding token_turn limit
token-fresh b now token expiry h = grind (arith, eq_iff, Option-cases b.closed)
