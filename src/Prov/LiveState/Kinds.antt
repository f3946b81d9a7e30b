-- ===== src/Prov/LiveState/Kinds.antt =====
-- livestate.go: what controllers inject, by kind of resource, and the status kept of a Service.
use formae_plugin_kubernetes.Prelude.{
  ◌==◌, String, ◌<>◌, Bool, false, ◌||◌, Option, none, some, str_eq, if◌then◌else◌,
}
use formae_plugin_kubernetes.Prelude.Decimal.{ℤ, pos, negsuc, print_nat, print_int}
use formae_plugin_kubernetes.Json.{
  Json, Items, Fields, num, str, arr, obj, nil, cons, end, field, get, set, remove, object_at,
  array_at, text_at, within, is_empty,
}
use formae_plugin_kubernetes.Prov.LiveState.Strip.{
  strip_server_managed_labels, strip_service_account_volumes,
}

abbrev first_port : Option Json → ℤ
first_port (some (num text n)) = n
first_port _ = pos 0

abbrev port_of_item : Items → ℤ
port_of_item (cons (obj first) rest) = first_port (get "port" first)
port_of_item _ = pos 0

unfoldable pub first_service_port : Fields → ℤ
first_service_port result = elim (object_at "spec" result) [
  | none ↦ pos 0
  | some spec ↦ elim (array_at "ports" spec) [ none ↦ pos 0 | some ports ↦ port_of_item ports ]
]

abbrev is_default_port : ℤ → Bool
is_default_port (pos n) = n == 0 || n == 80
is_default_port (negsuc n) = false

abbrev url_of : String → ℤ → String
url_of host port =
    if str_eq host ""
    then ""
    else if is_default_port port
    then "http://" <> host
    else "http://" <> (host <> (":" <> print_int port))

unfoldable pub first_ingress_url : Items → ℤ → String
unfolding print_nat
first_ingress_url (cons (obj m) rest) port =
    url_of (if str_eq (text_at "ip" m) "" then text_at "hostname" m else text_at "ip" m) port
first_ingress_url _ port = ""

-- The load balancer's ingress with its flat URL, the one part of a status that is kept.
abbrev preserved_load_balancer : Items → String → Fields
preserved_load_balancer ingress url =
    let kept = field "ingress" (arr ingress) end in
    if str_eq url "" then kept else set "url" (str url) kept

abbrev preserved_ingress : Fields → Items → Option Fields
preserved_ingress result nil = none
preserved_ingress result (cons first rest) = some (
    field "loadBalancer"
      (obj (
        preserved_load_balancer (cons first rest)
          (first_ingress_url (cons first rest) (first_service_port result))))
      end)

unfoldable pub preserved_status : String → Fields → Option Fields
unfolding first_ingress_url first_service_port
preserved_status kind result =
    if str_eq kind "Service"
    then elim (object_at "status" result) [
      | none ↦ none
      | some status ↦ elim (object_at "loadBalancer" status) [
        | none ↦ none
        | some lb ↦ elim (array_at "ingress" lb) [
          | none ↦ none
          | some ingress ↦ preserved_ingress result ingress
        ]
      ]
    ]
    else none

unfoldable pub strip_status : String → Fields → Fields
unfolding preserved_status
strip_status kind result = elim (preserved_status kind result) [
  | none ↦ remove "status" result
  | some kept ↦ set "status" (obj kept) (remove "status" result)
]

-- A Namespace's spec holds only the server's finalizers.
unfoldable pub strip_namespace_spec : String → Fields → Fields
strip_namespace_spec kind result =
    if str_eq kind "Namespace"
    then elim (object_at "spec" result) [
      | none ↦ result
      | some spec ↦
          let left = remove "finalizers" spec in
          if is_empty left then remove "spec" result else set "spec" (obj left) result
    ]
    else result

unfoldable pub strip_pod_spec : Fields → Fields
unfolding strip_service_account_volumes
strip_pod_spec spec = strip_service_account_volumes (
    remove "serviceAccountName" (
      remove "enableServiceLinks" (
        remove "preemptionPolicy" (
          remove "priority"
            (remove "tolerations" (remove "nodeName" (remove "serviceAccount" spec)))))))

unfoldable pub strip_job_spec : Fields → Fields
unfolding strip_server_managed_labels
strip_job_spec spec =
    within "template" (within "metadata" strip_server_managed_labels) (remove "selector" spec)

unfoldable pub strip_service_spec : Fields → Fields
strip_service_spec spec = remove "ipFamilies" (remove "clusterIPs" (remove "clusterIP" spec))

unfoldable pub strip_volume_spec : Fields → Fields
strip_volume_spec spec =
    let bare = remove "storageClassName" spec in
    elim (object_at "hostPath" bare) [
      | none ↦ bare
      | some path ↦
          let left = remove "type" path in
          if is_empty left then remove "hostPath" bare else set "hostPath" (obj left) bare
    ]

unfoldable pub strip_controller_injected_fields : String → Fields → Fields
unfolding strip_pod_spec strip_job_spec strip_service_spec strip_volume_spec
    strip_server_managed_labels
strip_controller_injected_fields kind result =
    if str_eq kind "Pod"
    then within "spec" strip_pod_spec result
    else if str_eq kind "Job"
    then within "metadata" strip_server_managed_labels (within "spec" strip_job_spec result)
    else if str_eq kind "Service"
    then within "spec" strip_service_spec result
    else if str_eq kind "Secret"
    then remove "data" result
    else if str_eq kind "PersistentVolume"
    then within "spec" strip_volume_spec result
    else result
