-- ===== src/Typed/Guarding.antt =====
-- A namespaced kind sends nothing to the API server for a payload that names no namespace.
use formae_plugin_kubernetes.Prelude.{
  String, ◌<>◌, ◌≡◌, ◌∙◌, ap, ◌≢◌, ◌⊎◌, inl, inr, refl, Bool, false, true, Option, none, some,
  Option-cases, Bool-cases, str_eq→ne, List, [], ◌∷◌, arith, str_eq,
}
use formae_plugin_kubernetes.Prelude.Errors.{GoError}
use formae_plugin_kubernetes.Resource.{Wrapped, create}
use formae_plugin_kubernetes.K8sVersion.Gates.{paths_for_resource}
use formae_plugin_kubernetes.Prov.Namespace.{
  Attempt, done, stopped, crashed, resolve_create_namespace,
}
use formae_plugin_kubernetes.Prov.Lifecycle.{Request}
use formae_plugin_kubernetes.Typed.{
  Step, lift, ◌>>=◌, go_on, explain_attempt, ApplyConfig, Live, Client, Codec, namespaced, Kind,
}
use formae_plugin_kubernetes.Typed.Handlers.{
  unmarshal_apply_config, namespace_in, check_gates, placed, checked, read_payload, answer_about,
  apply_then,
}
use formae_plugin_kubernetes.Typed.Methods.{create_step, update_step, reconcile_then}

abbrev pub is_done : {A : Type 0} → Attempt A → Bool
is_done (done a) = true
is_done _ = false

Attempt-cases : {A : Type 0} (a : Attempt A) → ((x : A) × (a ≡ done x)) ⊎ (is_done a ≡ false)
Attempt-cases (done x) = inl (x, refl)
Attempt-cases (stopped e) = inr refl
Attempt-cases (crashed r) = inr refl

go_on-stops :
    {W A B : Type 0} (f : A → Step W B) (w : W) (a : Attempt A)
    → is_done a ≡ false
    → ((go_on f w a).0 ≡ w) × (is_done (go_on f w a).1 ≡ false)
go_on-stops f w (done x) h = ground arith
go_on-stops f w (stopped e) h = (refl, refl)
go_on-stops f w (crashed r) h = (refl, refl)

unmarshal-cases :
    {A : Type 0} (a : Attempt A)
    → ((x : A) × (a ≡ done x))
      ⊎ (((e : GoError) × (a ≡ stopped e)) ⊎ ((r : String) × (a ≡ crashed r)))
unmarshal-cases (done x) = inl (x, refl)
unmarshal-cases (stopped e) = inr (inl (e, refl))
unmarshal-cases (crashed r) = inr (inr (r, refl))

List-cases : {A : Type 0} (xs : List A) → (xs ≡ []) ⊎ ((x : A) × (rest : List A) × (xs ≡ x ∷ rest))
List-cases [] = inl refl
List-cases (x ∷ rest) = inr (x, rest, refl)

-- A configuration that is there and names the namespace that it is placed in.
abbrev pub IsPlaced : Option ApplyConfig × String → Type 0
IsPlaced (config, ns) =
    (given : ApplyConfig) × (config ≡ some given) × (given.namespace ≡ some ns) × (ns ≢ "")

module _ {W S : Type 0} (codec : Codec) (client : Client W S) (kind : Kind S) where
  -- A world that the API server was asked nothing in, but perhaps its version.
  abbrev pub IsUntouched : W → W → Type 0
  IsUntouched w after = (after ≡ w) ⊎ (after ≡ (client.cluster_version w).0)

  check_gates-IsUntouched :
      (gates : Bool) (raw : String) (w : W)
      → IsUntouched w (check_gates codec client kind gates raw w).0
  unfolding check_gates
  check_gates-IsUntouched false raw w = inl refl
  check_gates-IsUntouched true raw w = elim (List-cases (paths_for_resource kind.resource_type)) [
    | inl e ↦ inl (rw (check_gates, e) refl)
    | inr (path, paths, e) ↦ inr (rw (check_gates, e) refl)
  ]

  placed-named :
      (config : Option ApplyConfig) (w : W) (x : Option ApplyConfig × String)
      → kind.scope ≡ namespaced
      → (placed codec client kind config w).1 ≡ done x
      → IsPlaced x
  unfolding namespace_in resolve_create_namespace
  placed-named none w x e h = ground arith
  placed-named (some config) w x e h = elim (Option-cases config.namespace) [
    | inl n ↦ ground arith
    | inr (ns, n) ↦ elim (Bool-cases (str_eq ns "")) [
      | inl d ↦ ground arith
      | inr d ↦ (config, ground arith, ground arith, ground (arith, str_eq→ne ns "" d))
    ]
  ]

  placed-world : (config : Option ApplyConfig) (w : W) → (placed codec client kind config w).0 ≡ w
  placed-world config w = elim (Attempt-cases (namespace_in codec client kind kind.scope config)) [
    | inl (ns, e) ↦ rw e refl
    | inr e ↦
        (go_on-stops (λ ns. lift (done (config, ns))) w
          (namespace_in codec client kind kind.scope config) e).0
  ]

  checked-cases :
      (gates : Bool) (raw : String) (config : Option ApplyConfig) (w : W)
      → kind.scope ≡ namespaced
      → IsUntouched w (checked codec client kind gates raw config w).0
        × (((x : Option ApplyConfig × String) × ((checked codec client kind gates raw config w).1
                ≡ done x)
              × IsPlaced x)
            ⊎ (is_done (checked codec client kind gates raw config w).1 ≡ false))
  checked-cases gates raw config w namespaced_kind =
      let gate = check_gates codec client kind gates raw w in
      let untouched = check_gates-IsUntouched gates raw w in
      elim (Attempt-cases gate.1) [
        | inl (passed, e) ↦ elim (Attempt-cases (placed codec client kind config gate.0).1) [
          | inl (x, d) ↦ rw e (
            rw (placed-world config gate.0) untouched,
            inl (x, d, placed-named config gate.0 x namespaced_kind d),
          )
          | inr d ↦ rw e (rw (placed-world config gate.0) untouched, inr d)
        ]
        | inr e ↦
            let stops =
              go_on-stops (λ (passed : Unit {0}). placed codec client kind config) gate.0 gate.1
                e in
            (rw stops.0 untouched, inr stops.1)
      ]

  read_payload-cases :
      (gates : Bool) (raw : String) (w : W)
      → kind.scope ≡ namespaced
      → IsUntouched w (read_payload codec client kind gates raw w).0
        × (((x : Option ApplyConfig × String) × ((read_payload codec client kind gates raw w).1
                ≡ done x)
              × IsPlaced x)
            ⊎ (is_done (read_payload codec client kind gates raw w).1 ≡ false))
  unfolding read_payload
  read_payload-cases gates raw w namespaced_kind =
      elim (unmarshal-cases (unmarshal_apply_config codec client kind raw)) [
        | inl (config, e) ↦ rw e (checked-cases gates raw config w namespaced_kind)
        | inr (inl (err, e)) ↦ rw e (inl refl, inr refl)
        | inr (inr (r, e)) ↦ rw e (inl refl, inr refl)
      ]

  -- That a handler's payload is read as a configuration that names a namespace, and that what the
  -- handler then does is one apply of this configuration in this namespace, before all that follows.
  abbrev pub AppliesNamed :
      Bool
      → String
      → W
      → (Option ApplyConfig → String → Live S → Step W Wrapped)
      → W × Attempt Wrapped
      → Type 0
  AppliesNamed gates raw w follow step =
      (given : ApplyConfig) × (ns : String) × (given.namespace ≡ some ns)
      × (ns ≢ "")
      × ((read_payload codec client kind gates raw w).1 ≡ done (some given, ns))
      × (let sent = client.apply ns (some given) (read_payload codec client kind gates raw w).0 in
          step
          ≡ go_on (follow (some given) ns) sent.0
              (explain_attempt ("failed to apply " <> (kind.noun <> ": ")) sent.1))

  -- What a handler comes to that reads a payload, applies it and goes on.
  abbrev pub HasNamedApply :
      Bool
      → String
      → W
      → (Option ApplyConfig → String → Live S → Step W Wrapped)
      → W × Attempt Wrapped
      → Type 0
  HasNamedApply gates raw w follow step =
      (IsUntouched w (read_payload codec client kind gates raw w).0
        × AppliesNamed gates raw w follow step)
      ⊎ (IsUntouched w step.0 × (is_done step.1 ≡ false))

  applied-named :
      (gates : Bool) (raw : String) (w : W)
      (follow : Option ApplyConfig → String → Live S → Step W Wrapped)
      (x : Option ApplyConfig × String)
      → (read_payload codec client kind gates raw w).1 ≡ done x
      → IsPlaced x
      → AppliesNamed gates raw w follow
          ((read_payload codec client kind gates raw >>= apply_then codec client kind follow) w)
  applied-named gates raw w follow (config, ns) e (given, there, named, nonempty) =
      let payload = read_payload codec client kind gates raw w in
      let read : payload.1 ≡ done (some given, ns) = e ∙ ap (λ c. done (c, ns)) there in
      (
        given,
        ns,
        named,
        nonempty,
        read,
        ap (go_on (apply_then codec client kind follow) payload.0) read,
      )

  then-named :
      (gates : Bool) (raw : String) (w : W)
      (follow : Option ApplyConfig → String → Live S → Step W Wrapped)
      → kind.scope ≡ namespaced
      → HasNamedApply gates raw w follow
          ((read_payload codec client kind gates raw >>= apply_then codec client kind follow) w)
  then-named gates raw w follow namespaced_kind =
      let payload = read_payload codec client kind gates raw w in
      let cases = read_payload-cases gates raw w namespaced_kind in
      elim cases.1 [
        | inl (x, e, placed) ↦ inl (cases.0, applied-named gates raw w follow x e placed)
        | inr e ↦
            let stops = go_on-stops (apply_then codec client kind follow) payload.0 payload.1 e in
            inr (rw stops.0 cases.0, stops.1)
      ]

  -- For a namespaced kind, whatever the payload: either a create reads it as a configuration that
  -- names a namespace, having asked the API server for nothing but perhaps its version, and what it
  -- does next is to apply that configuration in that namespace, and the same for an update; or the
  -- handler fails, and asked the API server for nothing but perhaps its version.
  pub create-guarded :
      (req : Request) (w : W)
      → kind.scope ≡ namespaced
      → HasNamedApply kind.gates_create req.properties w
          (λ config ns live. answer_about codec client kind create live.resource_version live)
          (create_step codec client kind req w)
        × HasNamedApply kind.gates_update req.desired_properties w
            (reconcile_then codec client kind)
            (update_step codec client kind req w)
  unfolding create_step update_step
  create-guarded req w namespaced_kind = (
    then-named kind.gates_create req.properties w
        (λ config ns live. answer_about codec client kind create live.resource_version live)
        namespaced_kind,
    then-named kind.gates_update req.desired_properties w (reconcile_then codec client kind)
        namespaced_kind,
  )
