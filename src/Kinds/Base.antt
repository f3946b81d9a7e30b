-- ===== src/Kinds/Base.antt =====
-- What the typed kinds have in common.
use formae_plugin_kubernetes.Prelude.{String, ◌<>◌, Bool, true, false, not, none}
use formae_plugin_kubernetes.Resource.{OperationStatus}
use formae_plugin_kubernetes.Typed.{Kind, Live, Scope, default}
use formae_plugin_kubernetes.Kinds.Finish.{unchanged}

-- `len(item.OwnerReferences) == 0`: an object that no controller made.
abbrev pub is_unowned : {S : Type 0} → Live S → Bool
is_unowned live = not live.has_owners

-- A kind without a message, gates or error codes of its own, from its scope, resource type, kind,
-- API version, noun, plural and status.
abbrev pub kind_of :
    {S : Type 0}
    → Scope
    → String
    → String
    → String
    → String
    → String
    → (S → OperationStatus)
    → Kind S
kind_of scope resource_type kind api_version noun plural status = record {
  scope = scope;
  resource_type = resource_type;
  kind = kind;
  api_version = api_version;
  noun = noun;
  plural = plural;
  state_failure = "failed to get " <> (noun <> " live state: ");
  propagation = default;
  gates_create = false;
  gates_update = false;
  finish = unchanged;
  status = status;
  message = λ s. "";
  error_code = λ s. none;
  is_lost = λ s. false;
  lists = λ live. true;
}
