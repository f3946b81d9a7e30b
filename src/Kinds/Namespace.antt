-- ===== src/Kinds/Namespace.antt =====
-- core/namespace.go: the kind whose update reads the object again, and whose status clears the
-- finalizers of a namespace that hangs in its deletion. `terminating_for` is the time since the
-- deletion timestamp in nanoseconds when the status is asked for, none without that timestamp.
pub mod Finalizers
use formae_plugin_kubernetes.Prelude.{
  ℕ, ◌*◌, String, ◌<>◌, Bool, true, false, not, ◌&&◌, Option, none, some, List, [], ◌∷◌, leb, ◌==◌,
  str_eq, if◌then◌else◌,
}
use formae_plugin_kubernetes.Prelude.Errors.{GoError, error_text}
use formae_plugin_kubernetes.Resource.{
  update, check_status, OperationStatus, success, in_progress, ProgressResult, progress, Wrapped,
}
use formae_plugin_kubernetes.Prov.Namespace.{Attempt, done, stopped, crashed}
use formae_plugin_kubernetes.Prov.Lifecycle.{Request, Provisioner}
use formae_plugin_kubernetes.Typed.{
  Step, lift, ◌>>=◌, go_on, explain, ApplyConfig, Client, Codec, Kind, Live, cluster,
}
use formae_plugin_kubernetes.Typed.Handlers.{
  read_payload, applied, reconciled, properties_of, result_of, parse_id, run, outcome, answer_about,
  apply_then,
}
use formae_plugin_kubernetes.Typed.Methods.{needed, sought, told, absent, provisioner}
use formae_plugin_kubernetes.Kinds.Base.{kind_of}
use formae_plugin_kubernetes.Kinds.Rollout.{Condition, any_condition}
use formae_plugin_kubernetes.Kinds.Phases.{namespace_status}

pub record NamespaceState : Type 0 where
  pub phase : String
  pub conditions : List Condition
  pub terminating_for : Option ℕ
  pub finalizers : ℕ

abbrev pub namespace : Kind NamespaceState
namespace =
    record (kind_of cluster "K8S::Core::Namespace" "Namespace" "v1" "namespace" "namespaces"
      (λ s. namespace_status s.phase)) { state_failure = "failed to extract namespace state: " }

-- Two minutes.
abbrev pub terminating_grace_period : ℕ
terminating_grace_period = 120000000000

abbrev pub content_failure : Condition → Bool
content_failure c = str_eq c.type "NamespaceDeletionContentFailure" && str_eq c.status "True"

unfoldable pub is_content_deletion_failed : NamespaceState → Bool
unfolding any_condition
is_content_deletion_failed s = any_condition content_failure s.conditions

unfoldable pub terminating_long_enough : NamespaceState → Bool
terminating_long_enough s = elim s.terminating_for [
  | none ↦ false
  | some passed ↦ leb terminating_grace_period passed
]

-- The three tests of `Status` before it clears the finalizers.
unfoldable pub is_stuck : NamespaceState → Bool
unfolding is_content_deletion_failed terminating_long_enough
is_stuck s =
    str_eq s.phase "Terminating" && (is_content_deletion_failed s && terminating_long_enough s)

module _ {W : Type 0} (codec : Codec) (client : Client W NamespaceState) where
  -- What an update does to the namespace that it applied.
  abbrev pub read_again : Option ApplyConfig → String → Live NamespaceState → Step W Wrapped
  read_again config ns live = do
    sent ← reconciled codec client namespace config ns live
    again ← explain "failed to re-read namespace after reconcile: " (client.fetch "" live.name)
    answer_about codec client namespace update again.resource_version again

  unfoldable pub namespace_update : Request → Step W Wrapped
  unfolding read_payload reconciled properties_of
  namespace_update req = do
    payload ← read_payload codec client namespace false req.desired_properties
    apply_then codec client namespace read_again payload

  unfoldable pub force_remove_finalizers : Live NamespaceState → Step W (Unit {0})
  force_remove_finalizers live =
      if live.state.finalizers == 0 then lift (done tt) else client.finalize live

  -- The answer of a status that tried to clear the finalizers.
  abbrev pub escalated : Request → Live NamespaceState → String → Wrapped
  escalated req live message = record {
    progress_result = some (record (progress in_progress) {
      operation = some check_status;
      request_id = req.request_id;
      native_id = live.name;
      status_message = message;
    });
  }

  abbrev pub escalation : Request → Live NamespaceState → Attempt (Unit {0}) → Attempt Wrapped
  escalation req live (done tt) =
      done (escalated req live "cleared stuck finalizer; namespace deletion should complete")
  escalation req live (stopped e) = done (
      escalated req live
        ("namespace stuck terminating; finalizer-clear attempt failed: " <> error_text e))
  escalation req live (crashed r) = crashed r

  abbrev pub namespace_told : Request → Option (Live NamespaceState) → Step W Wrapped
  namespace_told req none w = (w, done absent)
  namespace_told req (some live) w =
      if is_stuck live.state
      then (let step = force_remove_finalizers live w in (step.0, escalation req live step.1))
      else told codec client namespace req (some live) w

  unfoldable pub namespace_step : Request → Step W Wrapped
  unfolding sought
  namespace_step req = do
    (ns, name) ← parse_id codec client namespace req
    live ← sought codec client namespace "failed to get namespace status: " ns name
    namespace_told req live

  abbrev pub namespace_provisioner : Provisioner W (Option (List String))
  namespace_provisioner = record (provisioner codec client namespace) {
    on_update = needed codec client namespace namespace_update;
    on_status = needed codec client namespace namespace_step;
  }
