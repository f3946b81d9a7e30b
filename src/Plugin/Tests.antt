-- ===== src/Plugin/Tests.antt =====
-- k8s.go: the theorems on routing and on lists, at a cluster of version 1.28 with one release. The
-- world counts what a provisioner does.
use formae_plugin_kubernetes.Prelude.{
  ℕ, ◌+◌, String, ◌≡◌, ◌⊎◌, refl, true, none, some, [], ◌∷◌, lookup, insert, str_eq, if◌then◌else◌,
}
use formae_plugin_kubernetes.Prov.Namespace.{done}
use formae_plugin_kubernetes.Prov.Lifecycle.{Request, Provisioner, returned}
use formae_plugin_kubernetes.Typed.Methods.{deleted}
use formae_plugin_kubernetes.Helm.Inventory.{
  Inventory, Head, index_manifest, new_inventory, filter_helm_owned,
}
use formae_plugin_kubernetes.Helm.Inventory.Owners.{OwnerLookup, visited, filter_controller_owned}
use formae_plugin_kubernetes.Plugin.{Platform, Registrations, Names, collapse_helm_owned}
use formae_plugin_kubernetes.Plugin.Listed.{IsChartOwned, list-hides_owned}

abbrev provisioner : Provisioner ℕ Names
provisioner = record {
  on_create = λ req w. (w + 1, returned none none);
  on_read = λ req w. (w, returned none none);
  on_update = λ req w. (w + 1, returned none none);
  on_delete = λ req w. (w + 1, returned (some deleted) none);
  on_status = λ req w. (w, returned none none);
  on_list = λ req w. (w, returned (some (some ("ns/a" ∷ ("ns/b" ∷ [])))) none);
}

-- A release that renders a Deployment.
abbrev head : Head
head = record { api_version = "apps/v1"; kind = "Deployment"; name = "web"; namespace = "" }

abbrev inventory : Inventory
inventory = index_manifest (some head ∷ []) "ns" "ns/site" new_inventory

-- ns/a is a Pod of the release's Deployment, by way of a ReplicaSet.
abbrev owners : OwnerLookup
owners kind ns name =
    if str_eq name "a"
    then some (record { kind = "ReplicaSet"; name = "web-1" } ∷ [])
    else if str_eq name "web-1"
    then some (record { kind = "Deployment"; name = "web" } ∷ [])
    else some []

abbrev platform : Platform ℕ String
platform = record {
  parse_target_config = λ s. done s;
  callback_context = λ cfg payload. done tt;
  client_for = λ cfg w. (w, done tt);
  version_of = λ cfg w. (w, some "1.28");
  inventory_of = λ cfg w. (w, some inventory);
  owners_of = λ cfg w. owners;
}

abbrev registry : Registrations ℕ String
registry =
    ("K8S::Flowcontrol::FlowSchema", record { factory = λ cfg. provisioner; operations = [] }) ∷ []

abbrev request : Request
request = record {
  native_id = "x";
  resource_type = "K8S::Flowcontrol::FlowSchema";
  target_config = "";
  request_id = "";
  properties = "";
  desired_properties = "";
  additional_properties = [];
}

list-hides_owned_example :
    (visited "ns/a" (collapse_helm_owned platform "" "K8S::Core::Pod" ("ns/a" ∷ ("ns/b" ∷ [])) 0).1
      ≡ true)
    ⊎ IsChartOwned platform "" "K8S::Core::Pod" 0 "ns/a"
unfolding visited
list-hides_owned_example =
    list-hides_owned platform "" "K8S::Core::Pod" ("ns/a" ∷ ("ns/b" ∷ [])) "ns/a" 0 refl

hidden :
    (collapse_helm_owned platform "" "K8S::Core::Pod" ("ns/a" ∷ ("ns/b" ∷ [])) 0).1 ≡ "ns/b" ∷ []
unfolding collapse_helm_owned filter_controller_owned filter_helm_owned index_manifest lookup insert
hidden = refl

-- Owners five deep: p, a, b, c, d and then the Deployment. From b the release is in reach, but not
-- once a walk from p has run out of its four rounds and left its answer for b in the memo.
abbrev deep : OwnerLookup
deep kind ns name =
    if str_eq name "p"
    then some (record { kind = "K"; name = "a" } ∷ [])
    else if str_eq name "a"
    then some (record { kind = "K"; name = "b" } ∷ [])
    else if str_eq name "b"
    then some (record { kind = "K"; name = "c" } ∷ [])
    else if str_eq name "c"
    then some (record { kind = "K"; name = "d" } ∷ [])
    else if str_eq name "d"
    then some (record { kind = "Deployment"; name = "web" } ∷ [])
    else some []

order :
    (filter_controller_owned inventory deep "K8S::G::K" ("ns/b" ∷ []) ≡ [])
    × (filter_controller_owned inventory deep "K8S::G::K" ("ns/p" ∷ ("ns/b" ∷ []))
        ≡ "ns/p" ∷ ("ns/b" ∷ []))
unfolding filter_controller_owned index_manifest lookup insert
order = (refl, refl)

-- The release is in ns, yet hides a Pod in user whose Deployment there has the same name: the index
-- holds the release's Deployment under no namespace too.
namesake : filter_controller_owned inventory owners "K8S::Core::Pod" ("user/web-1" ∷ []) ≡ []
unfolding filter_controller_owned index_manifest lookup insert
namesake = refl
