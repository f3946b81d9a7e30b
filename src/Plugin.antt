-- ===== src/Plugin.antt =====
-- k8s.go and pkg/resources/registry/registry.go: how a request reaches the provisioner of its type.
-- `Platform` stands for the parts that the routing calls: the target configuration with its policy,
-- the budget of a Helm callback, the client cache, the cluster's version and the inventory of
-- releases. A request is not nil here.
pub mod Unsupported
pub mod Listed
mod Tests
use formae_plugin_kubernetes.Prelude.{
  String, ◌<>◌, Bool, true, false, not, Option, none, some, List, [], ◌∷◌, Map, lookup, insert,
  str_eq, if◌then◌else◌,
}
use formae_plugin_kubernetes.Prelude.Errors.{GoError, leaf, wrap}
use formae_plugin_kubernetes.Resource.{
  Operation, delete, check_status, success, failure, not_found, progress, Wrapped,
}
use formae_plugin_kubernetes.Prov.Namespace.{Attempt, done, stopped, crashed}
use formae_plugin_kubernetes.Prov.Lifecycle.{
  Request, ReadResult, Outcome, panicked, returned, Method, Provisioner, Host,
}
use formae_plugin_kubernetes.Prov.Lifecycle.Wrap.{wrap as decorate}
use formae_plugin_kubernetes.K8sVersion.Gates.{Refusal, requires, removed, type_supported}
use formae_plugin_kubernetes.Helm.Inventory.{Inventory, filter_helm_owned}
use formae_plugin_kubernetes.Helm.Inventory.Owners.{OwnerLookup, filter_controller_owned}
use formae_plugin_kubernetes.Typed.Methods.{gone, deleted, absent}
use formae_plugin_kubernetes.Typed.{Step, lift, ◌>>=◌, go_on, explain, explain_attempt}

-- What a list comes to: its identifiers, or none where a listing ran out of fuel.
abbrev pub Names : Type 0
Names = Option (List String)

pub record Registration (W C : Type 0) : Type 0 where
  pub factory : C → Provisioner W Names
  pub operations : List Operation

abbrev pub Registrations : Type 0 → Type 0 → Type 0
Registrations W C = Map (Registration W C)

pub record Platform (W C : Type 0) : Type 0 where
  pub parse_target_config : String → Attempt C
  pub callback_context : C → String → Attempt (Unit {0})
  pub client_for : C → Step W (Unit {0})
  pub version_of : C → W → W × Option String
  pub inventory_of : C → W → W × Option Inventory
  pub owners_of : C → W → OwnerLookup

-- `Register`, which decorates the factory; none for the panic on a duplicate.
unfoldable pub register :
    {W C : Type 0}
    → Host
    → String
    → List Operation
    → (C → Provisioner W Names)
    → Registrations W C
    → Option (Registrations W C)
unfolding decorate
register host resource_type operations factory r = elim (lookup resource_type r) [
  | some there ↦ none
  | none ↦ some (
      insert resource_type
        (record { factory = λ c. decorate host (factory c); operations = operations }) r)
]

abbrev pub helm_release : String
helm_release = "K8S::Helm::Release"

abbrev pub unsupported_type : String → GoError
unsupported_type resource_type = leaf 40 ("unsupported resource type: " <> resource_type)

-- The error of a mutation; its text is cut to the version.
abbrev pub refusal_text : Refusal → String
refusal_text (requires version) = "requires Kubernetes " <> version
refusal_text (removed version) = "was removed in Kubernetes " <> version

abbrev pub not_supported : String → Refusal → GoError
not_supported resource_type r =
    leaf 41 (resource_type <> (" is not supported on the target: " <> refusal_text r))

-- `collapseHelmOwned` of identifiers: without an inventory they stay.
abbrev pub without_owned : String → OwnerLookup → List String → Option Inventory → List String
without_owned resource_type refs ids none = ids
without_owned resource_type refs ids (some inv) =
    filter_controller_owned inv refs resource_type (filter_helm_owned inv resource_type ids)

module _ {W C : Type 0} (platform : Platform W C) where
  unfoldable pub collapse_helm_owned : C → String → List String → W → W × List String
  collapse_helm_owned cfg resource_type [] w = (w, [])
  collapse_helm_owned cfg resource_type (id ∷ ids) w =
      if str_eq resource_type helm_release
      then (w, id ∷ ids)
      else (let step = platform.inventory_of cfg w in
          (step.0, without_owned resource_type (platform.owners_of cfg step.0) (id ∷ ids) step.1))

  -- What a list does behind the provisioner's.
  abbrev pub collapse_result : C → String → W → Outcome Names → W × Outcome Names
  collapse_result cfg resource_type w (panicked r) = (w, panicked r)
  collapse_result cfg resource_type w (returned result (some e)) = (w, returned none (some e))
  collapse_result cfg resource_type w (returned none none) = (w, returned none none)
  collapse_result cfg resource_type w (returned (some none) none) = (w, returned (some none) none)
  collapse_result cfg resource_type w (returned (some (some ids)) none) =
      let step = collapse_helm_owned cfg resource_type ids w in
      (step.0, returned (some (some step.1)) none)

module _ {W C : Type 0} (platform : Platform W C) (registry : Registrations W C) where
  -- `operationContext`: only a Helm release has its payload looked at.
  unfoldable pub operation_context : String → String → String → Attempt (Unit {0})
  operation_context resource_type target_config payload =
      if str_eq resource_type helm_release
      then elim (platform.parse_target_config target_config) [
        | stopped e ↦ stopped e
        | crashed r ↦ crashed r
        | done cfg ↦ platform.callback_context cfg payload
      ]
      else done tt

  abbrev pub with_client : Registration W C → C → Step W (Provisioner W Names × C)
  with_client reg cfg = do
    ready ← explain "failed to create K8S client: " (platform.client_for cfg)
    lift (done (reg.factory cfg, cfg))

  -- `getProvisioner`, with the configuration that its client carries.
  unfoldable pub get_provisioner : String → String → Step W (Provisioner W Names × C)
  get_provisioner resource_type target_config w = elim (lookup resource_type registry) [
    | none ↦ (w, stopped (unsupported_type resource_type))
    | some reg ↦
        go_on (with_client reg) w (
          explain_attempt "failed to extract config: " (platform.parse_target_config target_config))
  ]

  unfoldable pub prepare : String → Request → Step W (Provisioner W Names × C)
  unfolding operation_context get_provisioner
  prepare payload req = do
    bounded ← lift (operation_context req.resource_type req.target_config payload)
    get_provisioner req.resource_type req.target_config

  -- `typeUnsupported`: a version that cannot be found out refuses nothing.
  abbrev pub refusal_of : String → Option String → Option Refusal
  refusal_of resource_type none = none
  refusal_of resource_type (some version) = type_supported resource_type version

  -- The part of a call behind its preparation: an answer to an unsupported type, or the provisioner.
  abbrev pub decided :
      {A : Type 0}
      → (Refusal → Outcome A)
      → (W → W × Outcome A)
      → Option Refusal
      → W
      → W × Outcome A
  decided refuse call (some r) w = (w, refuse r)
  decided refuse call none w = call w

  abbrev pub routed :
      {A : Type 0}
      → Request
      → (Refusal → Outcome A)
      → (Provisioner W Names → C → W → W × Outcome A)
      → Provisioner W Names × C
      → W
      → W × Outcome A
  routed req refuse call (provisioner, cfg) w =
      let step = platform.version_of cfg w in
      decided refuse (call provisioner cfg) (refusal_of req.resource_type step.1) step.0

  abbrev pub continued : {A B : Type 0} → (A → W → W × Outcome B) → W → Attempt A → W × Outcome B
  continued f w (done a) = f a w
  continued f w (stopped e) = (w, returned none (some e))
  continued f w (crashed r) = (w, panicked r)

  abbrev pub dispatch :
      {A : Type 0}
      → String
      → (Refusal → Outcome A)
      → (Provisioner W Names → C → W → W × Outcome A)
      → Request
      → W
      → W × Outcome A
  dispatch payload refuse call req w =
      let step = prepare payload req w in continued (routed req refuse call) step.0 step.1

  unfoldable pub create_resource : Request → W → W × Outcome Wrapped
  unfolding prepare
  create_resource req =
      dispatch req.properties (λ r. returned none (some (not_supported req.resource_type r)))
        (λ p cfg. p.on_create (some req)) req

  unfoldable pub read_resource : Request → W → W × Outcome ReadResult
  unfolding prepare
  read_resource req =
      dispatch "" (λ r. returned (some (gone req.resource_type)) none)
        (λ p cfg. p.on_read (some req)) req

  unfoldable pub update_resource : Request → W → W × Outcome Wrapped
  unfolding prepare
  update_resource req =
      dispatch req.desired_properties
        (λ r. returned none (some (not_supported req.resource_type r)))
        (λ p cfg. p.on_update (some req)) req

  unfoldable pub delete_resource : Request → W → W × Outcome Wrapped
  unfolding prepare
  delete_resource req =
      dispatch "" (λ r. returned (some deleted) none) (λ p cfg. p.on_delete (some req)) req

  unfoldable pub resource_status : Request → W → W × Outcome Wrapped
  unfolding prepare
  resource_status req =
      dispatch "" (λ r. returned (some absent) none) (λ p cfg. p.on_status (some req)) req

  unfoldable pub list_resources : Request → W → W × Outcome Names
  unfolding prepare collapse_helm_owned
  list_resources req =
      dispatch "" (λ r. returned (some (some [])) none)
        (λ p cfg w.
          let step = p.on_list (some req) w in
          collapse_result platform cfg req.resource_type step.0 step.1)
        req
