-- ===== src/Typed/Addressing.antt =====
-- The identifier that a typed kind's answer carries leads its other methods back to the object.
use mathlib.Core.Option
use formae_plugin_kubernetes.Prelude.{
  String, ◌≡◌, ◌≢◌, ◌⊎◌, inl, inr, refl, false, Option, some, arith, eq_iff,
}
use formae_plugin_kubernetes.Prelude.Text.{contains}
use formae_plugin_kubernetes.Resource.{Operation, create, update, Wrapped}
use formae_plugin_kubernetes.Prov.Namespace.{done}
use formae_plugin_kubernetes.Prov.Lifecycle.{Request}
use formae_plugin_kubernetes.Prov.NativeId.{native_id, parse_cluster_native_id}
use formae_plugin_kubernetes.Prov.NativeId.RoundTrip.{IsNamespaced, parse-native_id_iff}
use formae_plugin_kubernetes.Typed.{
  Step, lift, go_on-done, explain-done, ApplyConfig, Live, Client, Codec, Scope, namespaced,
  cluster, Kind,
}
use formae_plugin_kubernetes.Typed.Handlers.{
  id_in, parse_in, parse_id, read_payload, applied, reconciled, properties_of, result_of,
  answer_about, apply_then,
}
use formae_plugin_kubernetes.Typed.Methods.{create_step, update_step, reconcile_then}

-- What the API server guarantees of an object's name, and of the namespace of a namespaced one.
abbrev pub IsNamed : {S : Type 0} → Scope → Live S → Type 0
IsNamed namespaced live = IsNamespaced live.namespace live.name
IsNamed cluster live = (live.name ≢ "") × (contains b'/' live.name ≡ false)

-- The namespace and name that the typed interface takes.
abbrev pub address_in : {S : Type 0} → Scope → Live S → String × String
address_in namespaced live = (live.namespace, live.name)
address_in cluster live = ("", live.name)

module _ {W S : Type 0} (codec : Codec) (client : Client W S) (kind : Kind S) where
  pub parse-id_in :
      (scope : Scope) (live : Live S)
      → IsNamed scope live
      → parse_in codec client kind scope (id_in scope live) ≡ done (address_in scope live)
  unfolding id_in parse_in parse_cluster_native_id
  parse-id_in namespaced live named =
      rw
        ((parse-native_id_iff (native_id live.namespace live.name) live.namespace live.name).1
          (refl, named))
        refl
  parse-id_in cluster live named = ground (arith, eq_iff live.name "")

  -- The parsed identifier of a request for an object.
  pub parse_id-id_in :
      (live : Live S) (later : Request) (w : W)
      → IsNamed kind.scope live
      → later.native_id ≡ id_in kind.scope live
      → parse_id codec client kind later w ≡ (w, done (address_in kind.scope live))
  parse_id-id_in live later w named e = rw (e, parse-id_in kind.scope live named) refl

  -- An answer about an object that was applied, in the world before that.
  abbrev pub Answers : Operation → Wrapped → Type 0
  Answers op answer =
      (live : Live S) × (config : Option ApplyConfig) × (ns : String) × (before : W)
      × (text : String) × ((client.apply ns config before).1 ≡ done live)
      × (answer ≡ result_of codec client kind op live.resource_version live text)

  answer_about-done :
      (op : Operation) (request_id : String) (live : Live S) (w : W) (answer : Wrapped)
      → (answer_about codec client kind op request_id live w).1 ≡ done answer
      → (text : String) × (answer ≡ result_of codec client kind op request_id live text)
  answer_about-done op request_id live w answer h =
      let (text, read, told) =
        go_on-done (λ text. lift (done (result_of codec client kind op request_id live text)))
          (properties_of codec client kind live w).0 (properties_of codec client kind live w).1 h in
      (text, ground arith)

  apply_then-done :
      (follow : Option ApplyConfig → String → Live S → Step W Wrapped) (config : Option ApplyConfig)
      (ns : String) (w : W) (answer : Wrapped)
      → (apply_then codec client kind follow (config, ns) w).1 ≡ done answer
      → (live : Live S) × ((client.apply ns config w).1 ≡ done live)
        × ((follow config ns live (client.apply ns config w).0).1 ≡ done answer)
  apply_then-done follow config ns w answer h =
      let (live, e, told) =
        go_on-done (follow config ns) (client.apply ns config w).0
          (applied codec client kind config ns w).1 h in
      (live, explain-done _ (client.apply ns config w).1 e, told)

  create-Answers :
      (req : Request) (w : W) (answer : Wrapped)
      → (create_step codec client kind req w).1 ≡ done answer
      → Answers create answer
  unfolding create_step
  create-Answers req w answer h =
      let payload = read_payload codec client kind kind.gates_create req.properties w in
      let follow : Option ApplyConfig → String → Live S → Step W Wrapped =
        λ config ns live. answer_about codec client kind create live.resource_version live in
      let ((config, ns), e, k) =
        go_on-done (apply_then codec client kind follow) payload.0 payload.1 h in
      let (live, from, told) = apply_then-done follow config ns payload.0 answer k in
      let (text, is) =
        answer_about-done create live.resource_version live (client.apply ns config payload.0).0
          answer told in
      (live, config, ns, payload.0, text, from, is)

  update-Answers :
      (req : Request) (w : W) (answer : Wrapped)
      → (update_step codec client kind req w).1 ≡ done answer
      → Answers update answer
  unfolding update_step
  update-Answers req w answer h =
      let payload = read_payload codec client kind kind.gates_update req.desired_properties w in
      let ((config, ns), e, k) =
        go_on-done (apply_then codec client kind (reconcile_then codec client kind)) payload.0
          payload.1 h in
      let (live, from, told) =
        apply_then-done (reconcile_then codec client kind) config ns payload.0 answer k in
      let after = (client.apply ns config payload.0).0 in
      let (sent, patched, shown) =
        go_on-done (λ sent. answer_about codec client kind update live.resource_version live)
          (reconciled codec client kind config ns live after).0
          (reconciled codec client kind config ns live after).1 told in
      let (text, is) =
        answer_about-done update live.resource_version live
          (reconciled codec client kind config ns live after).0 answer shown in
      (live, config, ns, payload.0, text, from, is)

  leads :
      (op : Operation) (live : Live S) (request_id text : String) (answer : Wrapped)
      (later : Request) (v : W)
      → answer ≡ result_of codec client kind op request_id live text
      → IsNamed kind.scope live
      → Option.map (λ p. p.native_id) answer.progress_result ≡ some later.native_id
      → parse_id codec client kind later v ≡ (v, done (address_in kind.scope live))
  leads op live request_id text answer later v is named e =
      parse_id-id_in live later v named (ground (arith, is))

  -- An applied object that a request leads to.
  abbrev pub LeadsTo : Request → W → Type 0
  LeadsTo later v =
      (live : Live S) × (config : Option ApplyConfig) × (ns : String) × (before : W)
      × ((client.apply ns config before).1 ≡ done live)
      × (parse_id codec client kind later v ≡ (v, done (address_in kind.scope live)))

  -- Where the objects that the API server answers an apply with have names, and for a namespaced
  -- kind namespaces, that are not empty and hold no slash: if a create or an update answers with a
  -- result, any later request that carries the result's identifier is read, whatever the world is
  -- then, as one for the namespace and name of an object that an apply returned.
  pub create-addressed :
      (req later : Request) (w v : W) (answer : Wrapped)
      → ((ns : String) (config : Option ApplyConfig) (before : W) (live : Live S)
          → (client.apply ns config before).1 ≡ done live
          → IsNamed kind.scope live)
      → ((create_step codec client kind req w).1 ≡ done answer)
        ⊎ ((update_step codec client kind req w).1 ≡ done answer)
      → Option.map (λ p. p.native_id) answer.progress_result ≡ some later.native_id
      → LeadsTo later v
  create-addressed req later w v answer named (inl h) e =
      let (live, config, ns, before, text, from, is) = create-Answers req w answer h in
      (
        live,
        config,
        ns,
        before,
        from,
        leads create live live.resource_version text answer later v is
            (named ns config before live from) e,
      )
  create-addressed req later w v answer named (inr h) e =
      let (live, config, ns, before, text, from, is) = update-Answers req w answer h in
      (
        live,
        config,
        ns,
        before,
        from,
        leads update live live.resource_version text answer later v is
            (named ns config before live from) e,
      )
