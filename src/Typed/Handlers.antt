-- ===== src/Typed/Handlers.antt =====
-- The six handlers of a typed kind. A handler's request may be nil, which panics where it is read.
use formae_plugin_kubernetes.Prelude.{String, ◌<>◌, Bool, true, false, Option, none, some, [], ◌∷◌}
use formae_plugin_kubernetes.Prelude.Errors.{GoError}
use formae_plugin_kubernetes.Json.{Fields, end, obj, field}
use formae_plugin_kubernetes.Resource.{Operation, Wrapped}
use formae_plugin_kubernetes.K8sVersion.Gates.{Refusal, paths_for_resource, check_payload_gates}
use formae_plugin_kubernetes.Prov.NativeId.{
  Parsed, ok, err, native_id, parse_namespaced_native_id, parse_cluster_native_id,
}
use formae_plugin_kubernetes.Prov.Namespace.{
  Attempt, done, stopped, crashed, resolve_create_namespace,
}
use formae_plugin_kubernetes.Prov.Normalize.{normalize_metadata}
use formae_plugin_kubernetes.Prov.Ownership.{
  Reconciled, refused, nothing, patched, reconcile_metadata,
}
use formae_plugin_kubernetes.Prov.LiveState.Build.{live_state}
use formae_plugin_kubernetes.Prov.Lifecycle.{Request, Outcome, panicked, returned}
use formae_plugin_kubernetes.Typed.{
  Step, lift, ◌>>=◌, explain, ApplyConfig, Live, Client, Codec, Scope, namespaced, cluster, Kind,
  id_error, gate_error,
}

-- What a handler returns: a value, an error with a nil result, or a panic.
abbrev pub outcome : {A : Type 0} → Attempt A → Outcome A
outcome (done a) = returned (some a) none
outcome (stopped e) = returned none (some e)
outcome (crashed r) = panicked r

abbrev pub run : {W A : Type 0} → Step W A → W → W × Outcome A
run m w = let step = m w in (step.0, outcome step.1)

abbrev pub required : {A : Type 0} → GoError → Option A → Attempt A
required e none = stopped e
required e (some a) = done a

-- The identifier of an object.
unfoldable pub id_in : {S : Type 0} → Scope → Live S → String
unfolding native_id
id_in namespaced live = native_id live.namespace live.name
id_in cluster live = live.name

module _ {W S : Type 0} (codec : Codec) (client : Client W S) (kind : Kind S) where
  -- `UnmarshalApplyConfig` into a pointer.
  unfoldable pub unmarshal_apply_config : String → Attempt (Option ApplyConfig)
  unfolding normalize_metadata
  unmarshal_apply_config raw =
      elim (normalize_metadata codec.sprint codec.decode codec.encode raw) [
        | none ↦ stopped codec.decode_failed
        | some text ↦ required codec.decode_failed (codec.read_config text)
      ]

  -- The namespace to apply in: a namespaced kind reads the configuration's, which panics when that
  -- is nil.
  unfoldable pub namespace_in : Scope → Option ApplyConfig → Attempt String
  unfolding resolve_create_namespace
  namespace_in cluster config = done ""
  namespace_in namespaced none = crashed codec.nil_dereference
  namespace_in namespaced (some config) =
      resolve_create_namespace config.namespace kind.resource_type

  -- The namespace and name that an identifier stands for.
  abbrev pub parsed_namespaced : Parsed (String × String) → Attempt (String × String)
  parsed_namespaced (ok id) = done id
  parsed_namespaced (err e) = stopped (id_error e)

  abbrev pub parsed_cluster : Parsed String → Attempt (String × String)
  parsed_cluster (ok name) = done ("", name)
  parsed_cluster (err e) = stopped (id_error e)

  unfoldable pub parse_in : Scope → String → Attempt (String × String)
  unfolding parse_namespaced_native_id parse_cluster_native_id
  parse_in namespaced id = parsed_namespaced (parse_namespaced_native_id id)
  parse_in cluster id = parsed_cluster (parse_cluster_native_id id)

  abbrev pub parse_id : Request → Step W (String × String)
  parse_id req =
      explain
        ("invalid native id "
          <> (codec.quote req.native_id <> (" for " <> (req.resource_type <> ": "))))
        (lift (parse_in kind.scope req.native_id))

  -- `CheckPayloadGates`
  abbrev pub refuse : Option Refusal → Attempt (Unit {0})
  unfolding gate_error
  refuse none = done tt
  refuse (some r) = stopped (gate_error r)

  unfoldable pub check_gates : Bool → String → Step W (Unit {0})
  unfolding check_payload_gates paths_for_resource gate_error
  check_gates false raw w = (w, done tt)
  check_gates true raw w = elim (paths_for_resource kind.resource_type) [
    | [] ↦ (w, done tt)
    | path ∷ paths ↦
        let step = client.cluster_version w in
        (step.0, refuse (check_payload_gates kind.resource_type (codec.found raw) step.1))
  ]

  -- LiveState and what the kind does to its bytes.
  unfoldable pub properties_of : Live S → Step W String
  unfolding live_state
  properties_of live = do
    text ← explain kind.state_failure (
        lift (
          required codec.encode_failed
            (live_state codec.project codec.encode live.json kind.kind kind.api_version)))
    lift (kind.finish codec live text)

  abbrev pub applied : Option ApplyConfig → String → Step W (Live S)
  applied config ns = explain ("failed to apply " <> (kind.noun <> ": ")) (client.apply ns config)

  -- The patch that `ReconcileMetadata` sends, if it sends one.
  abbrev pub send_patch : String → Reconciled → Step W (Unit {0})
  send_patch ns refused = lift (stopped codec.encode_failed)
  send_patch ns nothing = lift (done tt)
  send_patch ns (patched name meta) = client.patch ns name (field "metadata" (obj meta) end)

  abbrev pub generic_config : Option ApplyConfig → Option Fields
  generic_config none = some end
  generic_config (some config) = config.generic

  unfoldable pub reconciled : Option ApplyConfig → String → Live S → Step W (Unit {0})
  unfolding reconcile_metadata
  reconciled config ns live =
      explain ("failed to reconcile " <> (kind.noun <> " metadata: "))
        (send_patch ns (reconcile_metadata live.generic (generic_config config)))

  abbrev pub result_of : Operation → String → Live S → String → Wrapped
  result_of op request_id live properties = record {
    progress_result = some record {
      operation = some op;
      status = kind.status live.state;
      error_code = kind.error_code live.state;
      status_message = kind.message live.state;
      native_id = id_in kind.scope live;
      request_id = request_id;
      properties = properties;
    };
  }

  -- What a handler answers about an object.
  abbrev pub answer_about : Operation → String → Live S → Step W Wrapped
  answer_about op request_id live = do
    text ← properties_of live
    lift (done (result_of op request_id live text))

  -- A configuration is applied in its namespace, before what follows.
  abbrev pub apply_then :
      (Option ApplyConfig → String → Live S → Step W Wrapped)
      → Option ApplyConfig × String
      → Step W Wrapped
  apply_then follow (config, ns) = do live ← applied config ns; follow config ns live

  -- A configuration with the namespace that it goes to.
  abbrev pub placed : Option ApplyConfig → Step W (Option ApplyConfig × String)
  placed config = do ns ← lift (namespace_in kind.scope config); lift (done (config, ns))

  abbrev pub checked : Bool → String → Option ApplyConfig → Step W (Option ApplyConfig × String)
  checked gates raw config = do passed ← check_gates gates raw; placed config

  -- What a payload is read as.
  unfoldable pub read_payload : Bool → String → Step W (Option ApplyConfig × String)
  unfolding unmarshal_apply_config check_gates namespace_in
  read_payload gates raw = do
    config ←
        explain ("failed to unmarshal " <> (kind.noun <> " properties: "))
          (lift (unmarshal_apply_config raw))
    checked gates raw config
