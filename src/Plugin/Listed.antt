-- ===== src/Plugin/Listed.antt =====
-- k8s.go: which identifiers a list leaves out.
use formae_plugin_kubernetes.Prelude.{
  String, ◌≡◌, ◌⊎◌, inl, inr, refl, true, some, Option-cases, Bool-cases, List, [], ◌∷◌, str_eq,
  eq_iff, arith,
}
use formae_plugin_kubernetes.Helm.Inventory.{
  Inventory, is_owned, is_hidden, split_native_id, kind_from_resource_type, kind_namespace,
  drop_owned, filter_helm_owned,
}
use formae_plugin_kubernetes.Helm.Inventory.Owners.{node_key, visited}
use formae_plugin_kubernetes.Helm.Inventory.Hidden.{Reaches, controller-hides_owned}
use formae_plugin_kubernetes.Plugin.{Platform, helm_release, collapse_helm_owned}

-- An object that the index of what releases rendered holds, under the identifier's own namespace.
abbrev pub IsRendered : Inventory → String → String → Type 0
IsRendered inv kind id =
    (ns : String) × (name : String) × (split_native_id id ≡ some (ns, name))
    × (is_owned inv kind ns name ≡ true)

is_hidden-IsRendered :
    (inv : Inventory) (kind id : String)
    → is_hidden inv kind (split_native_id id) ≡ true
    → IsRendered inv kind id
is_hidden-IsRendered inv kind id h = elim (Option-cases (split_native_id id)) [
  | inl e ↦ ground arith
  | inr ((ns, name), e) ↦ (ns, name, e, ground arith)
]

drop_owned-accounts :
    (inv : Inventory) (kind : String) (ids : List String) (id : String)
    → visited id ids ≡ true
    → (visited id (drop_owned inv kind ids) ≡ true) ⊎ IsRendered inv kind id
unfolding drop_owned visited
drop_owned-accounts inv kind [] id h = ground arith
drop_owned-accounts inv kind (x ∷ ids) id h =
    elim (Bool-cases (is_hidden inv kind (split_native_id x))) [
      | inl hidden ↦ elim (Bool-cases (str_eq x id)) [
        | inl same ↦
            let equal : x ≡ id = ground (arith, eq_iff x id) in
            inr (rw (← equal) (is_hidden-IsRendered inv kind x hidden))
        | inr other ↦ rw (drop_owned, hidden) (drop_owned-accounts inv kind ids id (ground arith))
      ]
      | inr shown ↦ elim (Bool-cases (str_eq x id)) [
        | inl same ↦ inl (rw (drop_owned, shown, visited, same) refl)
        | inr other ↦ elim (drop_owned-accounts inv kind ids id (ground arith)) [
          | inl kept ↦ inl (rw (drop_owned, shown, visited, other) kept)
          | inr rendered ↦ inr rendered
        ]
      ]
    ]

filter_helm_owned-accounts :
    (inv : Inventory) (resource_type : String) (ids : List String) (id : String)
    → visited id ids ≡ true
    → (visited id (filter_helm_owned inv resource_type ids) ≡ true)
      ⊎ IsRendered inv (kind_from_resource_type resource_type) id
unfolding filter_helm_owned
filter_helm_owned-accounts inv resource_type ids id h =
    let kind = kind_from_resource_type resource_type in
    elim (Bool-cases (str_eq kind "")) [
      | inl b ↦ inl (rw b h)
      | inr b ↦ elim (Bool-cases (str_eq kind kind_namespace)) [
        | inl c ↦ inl (rw (b, c) h)
        | inr c ↦ rw (b, c) (drop_owned-accounts inv kind ids id h)
      ]
    ]

module _ {W C : Type 0} (platform : Platform W C) (cfg : C) (resource_type : String) where
  -- Why a list may leave an identifier out: the inventory of releases was there, and its index holds
  -- the object, or one of the kind and name of an owner that the object leads to.
  abbrev pub IsChartOwned : W → String → Type 0
  IsChartOwned w id =
      let step = platform.inventory_of cfg w in
      let kind = kind_from_resource_type resource_type in
      (inv : Inventory) × (step.1 ≡ some inv)
      × (IsRendered inv kind id
          ⊎ ((ns : String) × (name : String) × (split_native_id id ≡ some (ns, name))
              × Reaches inv (platform.owners_of cfg step.0) (node_key kind ns name)))

  -- An identifier that the provisioner lists is left out only where the inventory of releases could
  -- be read and its index has an entry for it: for the object's kind, namespace and name, or for the
  -- kind and name of an owner in the chain of first owners, in the object's namespace or in none. An
  -- entry with no namespace stands for every object of its kind and name that some release rendered,
  -- so it can be that of another namespace's object. This holds whatever owner references the cluster
  -- has, cycles and failed lookups included.
  pub list-hides_owned :
      (ids : List String) (id : String) (w : W)
      → visited id ids ≡ true
      → (visited id (collapse_helm_owned platform cfg resource_type ids w).1 ≡ true)
        ⊎ IsChartOwned w id
  unfolding collapse_helm_owned
  list-hides_owned [] id w h = inl h
  list-hides_owned (x ∷ ids) id w h =
      let step = platform.inventory_of cfg w in
      elim (Bool-cases (str_eq resource_type helm_release)) [
        | inl release ↦ inl (rw release h)
        | inr other ↦ elim (Option-cases step.1) [
          | inl e ↦ inl (rw (other, e) h)
          | inr (inv, e) ↦ elim (filter_helm_owned-accounts inv resource_type (x ∷ ids) id h) [
            | inr rendered ↦ inr (inv, e, inl rendered)
            | inl kept ↦
                elim (controller-hides_owned inv (platform.owners_of cfg step.0) resource_type
                  (filter_helm_owned inv resource_type (x ∷ ids)) id kept) [
                    | inl still ↦ inl (rw (other, e) still)
                    | inr reached ↦ inr (inv, e, inr reached)
                  ]
          ]
        ]
      ]
