-- ===== src/Kinds/Tests.antt =====
-- pkg/resources: the theorems on the typed kinds, at config maps, pods and namespaces of a small API
-- server. The world counts the changes.
use formae_plugin_kubernetes.Prelude.{
  ℕ, ◌+◌, ◌≡◌, inl, refl, true, false, ◌&&◌, none, some, [], ◌∷◌, arith, eq_iff, str_eq, leb,
  if◌then◌else◌,
}
use formae_plugin_kubernetes.Prelude.Errors.{leaf}
use formae_plugin_kubernetes.Prelude.Decimal.{pos}
use formae_plugin_kubernetes.Json.{end, field, obj}
use formae_plugin_kubernetes.Resource.{create, is_success, Wrapped}
use formae_plugin_kubernetes.K8sVersion.Gates.{missing}
use formae_plugin_kubernetes.Prov.Namespace.{done, stopped}
use formae_plugin_kubernetes.Prelude.Text.{contains}
use formae_plugin_kubernetes.Prov.NativeId.{parse_namespaced_native_id, parse_cluster_native_id}
use formae_plugin_kubernetes.Prov.NativeId.RoundTrip.{IsNamespaced}
use formae_plugin_kubernetes.Prov.Pagination.{page}
use formae_plugin_kubernetes.Prov.Lifecycle.{Request, Host}
use formae_plugin_kubernetes.Prov.Lifecycle.Wrap.{wrap as decorate}
use formae_plugin_kubernetes.Prov.Lifecycle.Terminating.{succeeds}
use formae_plugin_kubernetes.Typed.{ApplyConfig, Live, Client, Codec}
use formae_plugin_kubernetes.Typed.Handlers.{answer_about, id_in, parse_in, result_of}
use formae_plugin_kubernetes.Typed.Methods.{create_step, reconcile_then, update_step, provisioner}
use formae_plugin_kubernetes.Typed.Addressing.{LeadsTo, create-addressed}
use formae_plugin_kubernetes.Typed.Guarding.{HasNamedApply, create-guarded}
use formae_plugin_kubernetes.Typed.Deleting.{is_taken, is_away, delete-gone}
use formae_plugin_kubernetes.Kinds.Config.{config_map}
use formae_plugin_kubernetes.Kinds.Rollout.{
  StatefulSetState, stateful_set_status, observed_generation_ready,
}
use formae_plugin_kubernetes.Kinds.Rollout.Reached.{stateful_set-reached}
use formae_plugin_kubernetes.Kinds.Namespace.{NamespaceState, namespace_step}
use formae_plugin_kubernetes.Kinds.Namespace.Finalizers.{finalized_world, namespace-finalizes}

abbrev config : ApplyConfig
config = record { namespace = some "ns"; generic = some end }

abbrev codec : Codec
codec = record {
  sprint = λ v. "v";
  decode = λ s. if str_eq s "payload" then some (obj end) else none;
  encode = λ v. some "text";
  read_config = λ s. some (some config);
  project = λ v. some end;
  quote = λ s. s;
  is_not_found = λ e. true;
  found = λ s path. missing;
  nil_dereference = "nil pointer dereference";
  decode_failed = leaf 50 "invalid character";
  encode_failed = leaf 51 "unsupported type";
  pages = 5;
}

abbrev live : {S : Type 0} → S → Live S
live s = record {
  namespace = "ns";
  name = "x";
  resource_version = "7";
  json = obj end;
  generic = some (field "metadata" (obj end) end);
  managed_fields = [];
  has_owners = false;
  state = s;
}

abbrev client : {S : Type 0} → S → Client ℕ S
client s = record {
  apply = λ ns c w. (w + 1, done (live s));
  fetch = λ ns name w. (w, if leb 8 w then stopped (leaf 52 "not found") else done (live s));
  delete = λ ns name how w. (w + 8, done tt);
  patch = λ ns name meta w. (w + 1, done tt);
  page = λ ns token w. (w, page (live s ∷ []) "");
  finalize = λ l w. (w + 100, done tt);
  cluster_version = λ w. (w, some "1.30");
}

abbrev request : Request
request = record {
  native_id = "ns/x";
  resource_type = "K8S::Core::ConfigMap";
  target_config = "";
  request_id = "r";
  properties = "payload";
  desired_properties = "payload";
  additional_properties = [];
}

abbrev maps : Client ℕ (Unit {0})
maps = client tt

abbrev answer : Wrapped
answer = result_of codec maps config_map create "7" (live tt) "text"

create-answers : (create_step codec maps config_map request 0).1 ≡ done answer
unfolding create_step
create-answers = refl

named_map : (l : Live (Unit {0})) → done (live tt) ≡ done l → IsNamespaced l.namespace l.name
unfolding contains
named_map l e =
    let ns : l.namespace ≡ "ns" = ground arith in
    let name : l.name ≡ "x" = ground arith in
    rw (ns, name)
      record {
        has_namespace = ground (arith, eq_iff "ns" "");
        has_name = ground (arith, eq_iff "x" "");
        plain_namespace = refl;
        plain_name = refl;
      }

create-addressed_example : LeadsTo codec maps config_map request 3
unfolding id_in
create-addressed_example =
    create-addressed codec maps config_map request request 0 3 answer
      (λ ns c before l e. named_map l e) (inl create-answers) refl

create-guarded_example :
    HasNamedApply codec maps config_map false "payload" 0
      (λ config ns l. answer_about codec maps config_map create l.resource_version l)
      (create_step codec maps config_map request 0)
    × HasNamedApply codec maps config_map false "payload" 0
        (reconcile_then codec maps config_map)
        (update_step codec maps config_map request 0)
create-guarded_example = create-guarded codec maps config_map request 0 refl

abbrev host : Host
host = record {
  op_name = λ op. "op";
  stack = "goroutine 1";
  nil_dereference = "nil pointer dereference";
  finished_successfully = λ p. is_success p.status;
  decode = codec.decode;
  encode = λ fs. some "text";
}

delete-gone_example :
    succeeds ((decorate host (provisioner codec maps config_map)).on_delete (some request) 0).1 ≡ (
      is_taken codec maps config_map (done tt)
      && is_away codec maps config_map host 8 (stopped (leaf 52 "not found")))
unfolding parse_in parse_namespaced_native_id
delete-gone_example = delete-gone codec maps config_map request "ns" "x" host 0 refl (λ p. refl)

abbrev rolling : StatefulSetState
rolling = record {
  generation = pos 2;
  observed_generation = pos 2;
  on_delete = false;
  partition = some (pos 5);
  replicas = some (pos 3);
  total_replicas = pos 3;
  updated_replicas = pos 0;
  ready_replicas = pos 3;
}

stateful_set-reached_example :
    is_success (stateful_set_status rolling)
    ≡ (observed_generation_ready (pos 2) (pos 2) && (leb 3 3 && leb 3 (0 + 5)))
stateful_set-reached_example =
    stateful_set-reached rolling 3 5 3 0 (omega arith) (omega arith) refl refl refl refl refl

-- A namespace that has hung in its deletion for three minutes.
abbrev stuck : NamespaceState
stuck = record {
  phase = "Terminating";
  conditions =
      record {
        type = "NamespaceDeletionContentFailure";
        status = "True";
        reason = "ContentDeletionFailed";
      }
      ∷ [];
  terminating_for = some 180000000000;
  finalizers = 1;
}

abbrev namespace_request : Request
namespace_request = record request { native_id = "x"; resource_type = "K8S::Core::Namespace" }

namespace-finalizes_example :
    (namespace_step codec (client stuck) namespace_request 0).0
    ≡ finalized_world codec (client stuck) 0 (done (live stuck))
unfolding parse_in parse_cluster_native_id
namespace-finalizes_example =
    namespace-finalizes codec (client stuck) namespace_request 0 "" "x" refl

cleared : finalized_world codec (client stuck) 0 (done (live stuck)) ≡ 100
cleared = refl
