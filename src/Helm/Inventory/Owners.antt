-- ===== src/Helm/Inventory/Owners.antt =====
-- pkg/resources/helm/owners.go: the objects that a controller made for something that a release
-- rendered. The owner references are read from one state of the cluster: `refs` answers none for a
-- failed lookup.
use formae_plugin_kubernetes.Prelude.{
  ℕ, zero, suc, String, ◌<>◌, Bool, true, false, ◌||◌, Option, none, some, List, [], ◌∷◌, Map,
  lookup, insert, str_eq, if◌then◌else◌,
}
use formae_plugin_kubernetes.Helm.Inventory.{
  Inventory, is_owned, no_objects, kind_from_resource_type, split_native_id, kind_namespace,
  owned_by,
}

pub record OwnerRef : Type 0 where
  pub kind : String
  pub name : String

abbrev pub OwnerLookup : Type 0
OwnerLookup = String → String → String → Option (List OwnerRef)

abbrev pub max_owner_depth : ℕ
max_owner_depth = 4

unfoldable pub node_key : String → String → String → String
node_key kind ns name = kind <> ("/" <> (ns <> ("/" <> name)))

-- `remember`: the answer for every node of a chain.
unfoldable pub remember : List String → Bool → Map Bool → Map Bool
remember [] result memo = memo
remember (k ∷ chain) result memo = remember chain result (insert k result memo)

unfoldable pub visited : String → List String → Bool
visited k [] = false
visited k (j ∷ chain) = let rest = visited k chain in if str_eq j k then true else rest

-- What a walk knows: its answer, none for a failed lookup, and the memo. `chain` holds the keys of
-- the walk, which are also those that `visiting` holds.
abbrev pub answered : List String → Bool → Map Bool → Map Bool × Option Bool
answered chain result memo = (remember chain result memo, some result)

abbrev pub is_rendered : Inventory → String → OwnerRef → Bool
is_rendered inv ns r = is_owned inv r.kind ns r.name || is_owned inv r.kind "" r.name

abbrev pub is_nameless : OwnerRef → Bool
is_nameless r = str_eq r.kind "" || str_eq r.name ""

module _ (inv : Inventory) (refs : OwnerLookup) (ns : String) where
  -- What a walk finds at the first owner of a node, where `onward` walks on.
  abbrev pub at_owner :
      List String → Map Bool → Map Bool × Option Bool → OwnerRef → Map Bool × Option Bool
  at_owner chain memo onward r =
      if is_nameless r
      then answered chain false memo
      else if is_rendered inv ns r
      then answered chain true memo
      else onward

  -- The rounds of the walk that are left are its fuel.
  unfoldable pub walk_owners : ℕ → String → String → List String → Map Bool → Map Bool × Option Bool
  unfolding node_key remember visited owned_by
  walk_owners zero kind name chain memo = answered chain false memo
  walk_owners (suc rounds) kind name chain memo =
      let key = node_key kind ns name in
      elim (lookup key memo) [
        | some answer ↦ answered chain answer memo
        | none ↦ elim (visited key chain) [
          | true ↦ answered chain false memo
          | false ↦ elim (refs kind ns name) [
            | none ↦ (memo, none)
            | some [] ↦ answered (key ∷ chain) false memo
            | some (r ∷ rs) ↦
                at_owner (key ∷ chain) memo (walk_owners rounds r.kind r.name (key ∷ chain) memo) r
          ]
        ]
      ]

-- `reachesRelease`
unfoldable pub reaches_release :
    Inventory → OwnerLookup → Map Bool → String → String → String → Map Bool × Option Bool
unfolding walk_owners
reaches_release inv refs memo kind ns name =
    walk_owners inv refs ns max_owner_depth kind name [] memo

-- A node is hidden only where the walk found that it reaches a release.
abbrev pub is_reached : Option Bool → Bool
is_reached (some answer) = answer
is_reached none = false

-- The loop over the identifiers, with the memo that they share.
unfoldable pub drop_reached :
    Inventory → OwnerLookup → String → Map Bool → List String → List String
unfolding reaches_release split_native_id
drop_reached inv refs kind memo [] = []
drop_reached inv refs kind memo (id ∷ ids) = elim (split_native_id id) [
  | none ↦ id ∷ drop_reached inv refs kind memo ids
  | some (ns, name) ↦
      let walked = reaches_release inv refs memo kind ns name in
      let kept = drop_reached inv refs kind walked.0 ids in
      if is_reached walked.1 then kept else id ∷ kept
]

-- `FilterControllerOwned`
unfoldable pub filter_controller_owned :
    Inventory → OwnerLookup → String → List String → List String
unfolding kind_from_resource_type drop_reached
filter_controller_owned inv refs resource_type ids =
    let kind = kind_from_resource_type resource_type in
    if no_objects inv
    then ids
    else if str_eq kind ""
    then ids
    else if str_eq kind kind_namespace
    then ids
    else drop_reached inv refs kind [] ids
