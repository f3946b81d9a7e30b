-- ===== src/Prov/Ownership.antt =====
-- pkg/resources/prov/ownership.go: which labels and annotations a merge patch takes away from a live
-- object. The two objects are given as the generic maps that encoding and decoding make of them,
-- none where that fails; the patch that is sent is its JSON value, and sending it is the caller's.
use formae_plugin_kubernetes.Prelude.{
  String, ◌≡◌, ◌∙◌, refl, inl, inr, Bool, true, false, not, ◌&&◌, Option, none, some, str_eq,
  Bool-cases, arith, eq_iff, if◌then◌else◌,
}
use formae_plugin_kubernetes.Json.{
  Json, Fields, null, obj, end, field, get, set, has, is_empty, object_at, text_at,
}
use formae_plugin_kubernetes.Json.Laws.{get-set}

-- The object at a key; a nil map reads as an empty one.
abbrev or_empty : Option Fields → Fields
or_empty none = end
or_empty (some fs) = fs

-- The loop over the live keys: a null for each that is not desired.
unfoldable pub missing_keys : Fields → Fields → Fields
missing_keys end desired = end
missing_keys (field k v live) desired =
    let rest = missing_keys live desired in if has k desired then rest else field k null rest

-- `desired` is none for nil metadata. An empty object stands for a nil result.
unfoldable pub extra_map_keys : Fields → Option Fields → String → Fields
unfolding missing_keys
extra_map_keys live none name = end
extra_map_keys live (some desired) name =
    if has name desired
    then missing_keys (or_empty (object_at name live)) (or_empty (object_at name desired))
    else end

-- An error, nothing to do, or a patch for the object of a name.
pub data Reconciled : Type 0 where
  refused : Reconciled
  nothing : Reconciled
  patched : String → Fields → Reconciled

abbrev pub add_removals : String → Fields → Fields → Fields
add_removals name removals patch =
    if is_empty removals then patch else set name (obj removals) patch

unfoldable pub meta_patch : Fields → Option Fields → Fields
unfolding extra_map_keys
meta_patch live desired =
    add_removals "annotations" (extra_map_keys live desired "annotations")
      (add_removals "labels" (extra_map_keys live desired "labels") end)

-- What follows the reading of the metadata of both objects.
unfoldable pub reconcile_at : Option Fields → Option Fields → Reconciled
unfolding meta_patch
reconcile_at none desired = nothing
reconcile_at (some meta) desired =
    let patch = meta_patch meta desired in
    if is_empty patch then nothing else patched (text_at "name" meta) patch

-- `patched name p` stands for a patch with `p` at `metadata`.
unfoldable pub reconcile_metadata : Option Fields → Option Fields → Reconciled
unfolding reconcile_at
reconcile_metadata none desired = refused
reconcile_metadata (some live) none = refused
reconcile_metadata (some live) (some desired) =
    reconcile_at (object_at "metadata" live) (object_at "metadata" desired)

-- A null takes the key that it stands at away where it is merged.
abbrev is_null : Json → Bool
is_null null = true
is_null _ = false

abbrev pub is_null_at : String → Fields → Bool
is_null_at k fs = elim (get k fs) [ none ↦ false | some v ↦ is_null v ]

-- Whether a patch takes a key away from the map at a name.
abbrev pub removes : String → String → Reconciled → Bool
removes name k (patched target patch) = is_null_at k (or_empty (object_at name patch))
removes name k _ = false

-- The keys of a map in the metadata of an object, and whether the metadata declares that map.
abbrev pub carries : String → String → Fields → Bool
carries name k whole = has k (or_empty (object_at name (or_empty (object_at "metadata" whole))))

abbrev pub declares : String → Fields → Bool
declares name whole = has name (or_empty (object_at "metadata" whole))

has-missing_keys :
    (k : String) (live desired : Fields)
    → is_null_at k (missing_keys live desired) ≡ (has k live && not (has k desired))
unfolding missing_keys get
has-missing_keys k end desired = refl
has-missing_keys k (field j v live) desired =
    ground (arith, eq_iff j k, has-missing_keys k live desired)

has-extra_map_keys :
    (name k : String) (live : Fields) (desired : Option Fields)
    → is_null_at k (extra_map_keys live desired name) ≡ (
        has k (or_empty (object_at name live))
        && (has name (or_empty desired)
            && not (has k (or_empty (object_at name (or_empty desired))))))
unfolding extra_map_keys get
has-extra_map_keys name k live none = ground arith
has-extra_map_keys name k live (some desired) =
    ground (
      arith,
      has-missing_keys k (or_empty (object_at name live)) (or_empty (object_at name desired)),
    )

-- The map at a name of a patch that was given removals there.
has-add_removals :
    (name other k : String) (removals patch : Fields)
    → is_null_at k (or_empty (object_at other (add_removals name removals patch))) ≡ (
        if str_eq name other && not (is_empty removals)
        then is_null_at k removals
        else is_null_at k (or_empty (object_at other patch)))
has-add_removals name other k removals patch = elim (Bool-cases (is_empty removals)) [
  | inl e ↦ ground arith
  | inr e ↦ ground (arith, eq_iff name other, get-set name other (obj removals) patch)
]

has-is_empty : (k : String) (fs : Fields) → is_empty fs ≡ true → has k fs ≡ false
unfolding get
has-is_empty k end e = refl
has-is_empty k (field j v fs) e = ground arith

-- The maps of a patch that was given both kinds of removals.
has-both_removals :
    (k : String) (labels annotations : Fields)
    → let patch = add_removals "annotations" annotations (add_removals "labels" labels end) in
      (is_null_at k (or_empty (object_at "labels" patch)) ≡ is_null_at k labels)
      × (is_null_at k (or_empty (object_at "annotations" patch)) ≡ is_null_at k annotations)
unfolding get
has-both_removals k labels annotations = (
  ground (
    arith,
    has-add_removals "annotations" "labels" k annotations (add_removals "labels" labels end),
    has-add_removals "labels" "labels" k labels end,
    has-is_empty k labels,
  ),
  ground (
    arith,
    has-add_removals "annotations" "annotations" k annotations (add_removals "labels" labels end),
    has-add_removals "labels" "annotations" k labels end,
    has-is_empty k annotations,
  ),
)

-- What is sent has the maps of the whole patch: nothing is sent only where they are empty.
removes-meta_patch :
    (name target k : String) (patch : Fields)
    → removes name k (if is_empty patch then nothing else patched target patch)
      ≡ is_null_at k (or_empty (object_at name patch))
unfolding get
removes-meta_patch name target k end = refl
removes-meta_patch name target k (field j v fs) = refl

removes-reconcile_at :
    (k : String) (live desired : Option Fields)
    → (removes "labels" k (reconcile_at live desired) ≡ (
        has k (or_empty (object_at "labels" (or_empty live)))
        && (has "labels" (or_empty desired)
            && not (has k (or_empty (object_at "labels" (or_empty desired)))))))
      × (removes "annotations" k (reconcile_at live desired) ≡ (
          has k (or_empty (object_at "annotations" (or_empty live)))
          && (has "annotations" (or_empty desired)
              && not (has k (or_empty (object_at "annotations" (or_empty desired)))))))
unfolding reconcile_at meta_patch get
removes-reconcile_at k none desired = (refl, refl)
removes-reconcile_at k (some meta) desired =
    let labels = extra_map_keys meta desired "labels" in
    let annotations = extra_map_keys meta desired "annotations" in
    let both = has-both_removals k labels annotations in
    (
      removes-meta_patch "labels" (text_at "name" meta) k (meta_patch meta desired)
          ∙ (both.0 ∙ has-extra_map_keys "labels" k meta desired),
      removes-meta_patch "annotations" (text_at "name" meta) k (meta_patch meta desired)
          ∙ (both.1 ∙ has-extra_map_keys "annotations" k meta desired),
    )

-- For two objects that could be read: a label is taken away, by a null at its key,
-- exactly when the live object carries it,
-- the desired metadata declares labels, and the desired labels lack it; and so for annotations.
pub reconcile-removes_iff :
    (k : String) (live desired : Fields)
    → let sent = reconcile_metadata (some live) (some desired) in
      (removes "labels" k sent ≡ (
        carries "labels" k live && (declares "labels" desired && not (carries "labels" k desired))))
      × (removes "annotations" k sent ≡ (
          carries "annotations" k live
          && (declares "annotations" desired && not (carries "annotations" k desired))))
unfolding reconcile_metadata
reconcile-removes_iff k live desired =
    removes-reconcile_at k (object_at "metadata" live) (object_at "metadata" desired)
