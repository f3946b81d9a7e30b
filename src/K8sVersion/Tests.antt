-- ===== src/K8sVersion/Tests.antt =====
-- pkg/k8sversion: the theorem on gated types, at a type that the version lacks, and a run of the
-- field gates.
use formae_plugin_kubernetes.Prelude.{
  String, ◌≡◌, refl, Bool, true, false, not, ◌&&◌, some, none, arith, str_eq, ◌==◌, if◌then◌else◌,
}
use formae_plugin_kubernetes.Config.Version.{compare_k8s_versions}
use formae_plugin_kubernetes.Config.Version.Order.{version}
use formae_plugin_kubernetes.K8sVersion.Gates.{
  Found, missing, array, requires, type_supported, check_payload_gates,
}
use formae_plugin_kubernetes.K8sVersion.Types.{first_minor, before_minor, type_supported-version}

type_supported-version_example : type_supported "K8S::Flowcontrol::FlowSchema" (version 1 28) ≡ (
    if not (first_minor "K8S::Flowcontrol::FlowSchema" == 0) && before_minor 1 28 29
    then some (requires (version 1 29))
    else none)
type_supported-version_example =
    type_supported-version "K8S::Flowcontrol::FlowSchema" 1 28 (omega arith) (omega arith)

-- A resize policy that no container sets is no use of the field.
abbrev found : Bool → String → Found
found any path = if str_eq path "spec.containers.#.resizePolicy" then array any else missing

fields :
    (check_payload_gates "K8S::Core::Pod" (found false) (some "1.26") ≡ none)
    × (check_payload_gates "K8S::Core::Pod" (found true) (some "1.26") ≡ some (requires "1.27"))
    × (check_payload_gates "K8S::Core::Pod" (found true) none ≡ none)
unfolding check_payload_gates compare_k8s_versions
fields = (refl, refl, refl)
