-- ===== src/Helm/Inventory.antt =====
-- pkg/resources/helm/inventory.go: the objects that Helm releases render, and which identifiers of a
-- list they hide. Manifests come as what YAML decoding makes of their documents.
pub mod Owners
pub mod Hidden
pub mod Cache
use Prim.Native.Char.{code}
use Prim.Native.String
use formae_plugin_kubernetes.Prelude.{
  ℕ, suc, String, ◌<>◌, ◌≡◌, refl, ◌==◌, Bool, true, false, not, ◌&&◌, Option, none, some, List, [],
  ◌∷◌, str_eq, if◌then◌else◌,
}
use formae_plugin_kubernetes.Prelude.Text.{split, join_first}

pub record ObjectId : Type 0 where
  pub api_version : String
  pub kind : String
  pub namespace : String
  pub name : String

pub record KindRef : Type 0 where
  pub kind : String
  pub namespace : String
  pub name : String

pub record Inventory : Type 0 where
  pub objects : List (ObjectId × String)
  pub by_kind : List (KindRef × String)

abbrev pub new_inventory : Inventory
new_inventory = record { objects = []; by_kind = [] }

unfoldable pub same_ref : KindRef → KindRef → Bool
same_ref a b = str_eq a.kind b.kind && (str_eq a.namespace b.namespace && str_eq a.name b.name)

unfoldable pub find_ref : KindRef → List (KindRef × String) → Option String
unfolding same_ref
find_ref r [] = none
find_ref r ((at, owner) ∷ rest) = if same_ref at r then some owner else find_ref r rest

abbrev pub ref_of : String → String → String → KindRef
ref_of kind namespace name = record { kind = kind; namespace = namespace; name = name }

-- `OwnedBy`, of an inventory that is not nil.
unfoldable pub owned_by : Inventory → String → String → String → Option String
unfolding find_ref
owned_by inv kind namespace name = find_ref (ref_of kind namespace name) inv.by_kind

abbrev pub is_owned : Inventory → String → String → String → Bool
is_owned inv kind namespace name = elim (owned_by inv kind namespace name) [
  | none ↦ false
  | some owner ↦ true
]

abbrev pub no_objects : Inventory → Bool
no_objects inv = elim inv.objects [ [] ↦ true | o ∷ os ↦ false ]

-- The head of a document; a missing field is an empty text.
pub record Head : Type 0 where
  pub api_version : String
  pub kind : String
  pub name : String
  pub namespace : String

-- A later entry stands in front, so that it is found first, as an assignment is.
abbrev pub index_in : String → Head → String → Inventory → Inventory
index_in ns head owner inv = record {
  objects =
      (
        record {
          api_version = head.api_version;
          kind = head.kind;
          namespace = ns;
          name = head.name;
        },
        owner,
      )
      ∷ inv.objects;
  by_kind =
      if str_eq ns ""
      then (ref_of head.kind ns head.name, owner) ∷ inv.by_kind
      else (ref_of head.kind "" head.name, owner)
        ∷ ((ref_of head.kind ns head.name, owner) ∷ inv.by_kind);
}

-- `indexManifest`: a document that does not decode is none.
unfoldable pub index_manifest : List (Option Head) → String → String → Inventory → Inventory
index_manifest [] default_namespace owner inv = inv
index_manifest (none ∷ docs) default_namespace owner inv =
    index_manifest docs default_namespace owner inv
index_manifest (some head ∷ docs) default_namespace owner inv =
    let ns = if str_eq head.namespace "" then default_namespace else head.namespace in
    let indexed =
      if str_eq head.kind ""
      then inv
      else if str_eq head.name ""
      then inv
      else index_in ns head owner inv in
    index_manifest docs default_namespace owner indexed

-- strings.Split with "::".
unfoldable pub split_colons : String → List String
split_colons String.[] = "" ∷ []
split_colons (String.◌∷◌ c String.[]) = String.◌∷◌ c "" ∷ []
split_colons (String.◌∷◌ c (String.◌∷◌ d s)) = elim (code c == b':' && code d == b':') [
  | true ↦ "" ∷ split_colons s
  | false ↦ join_first c (split_colons (String.◌∷◌ d s))
]

abbrev pub kind_of_parts : List String → String
kind_of_parts (group ∷ (name ∷ (kind ∷ []))) = kind
kind_of_parts _ = ""

-- `KindFromResourceType`
unfoldable pub kind_from_resource_type : String → String
unfolding split_colons
kind_from_resource_type resource_type = kind_of_parts (split_colons resource_type)

-- `splitNativeID`
abbrev pub split_parts : List String → Option (String × String)
split_parts (name ∷ []) = some ("", name)
split_parts (ns ∷ (name ∷ [])) = some (ns, name)
split_parts _ = none

unfoldable pub split_native_id : String → Option (String × String)
unfolding split
split_native_id id = split_parts (split b'/' id)

abbrev pub kind_namespace : String
kind_namespace = "Namespace"

-- An identifier that does not split is kept.
abbrev pub is_hidden : Inventory → String → Option (String × String) → Bool
is_hidden inv kind none = false
is_hidden inv kind (some (ns, name)) = is_owned inv kind ns name

unfoldable pub drop_owned : Inventory → String → List String → List String
unfolding split_native_id owned_by
drop_owned inv kind [] = []
drop_owned inv kind (id ∷ ids) =
    let kept = drop_owned inv kind ids in
    if is_hidden inv kind (split_native_id id) then kept else id ∷ kept

-- `FilterHelmOwned`
unfoldable pub filter_helm_owned : Inventory → String → List String → List String
unfolding kind_from_resource_type drop_owned
filter_helm_owned inv resource_type ids =
    let kind = kind_from_resource_type resource_type in
    if str_eq kind ""
    then ids
    else if str_eq kind kind_namespace
    then ids
    else drop_owned inv kind ids

runs :
    (kind_from_resource_type "K8S::Core::ConfigMap" ≡ "ConfigMap")
    × (kind_from_resource_type "K8S::ConfigMap" ≡ "")
    × (split_native_id "a/b/c" ≡ none)
unfolding kind_from_resource_type split_native_id
runs = (refl, refl, refl)
