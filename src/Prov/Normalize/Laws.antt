-- ===== src/Prov/Normalize/Laws.antt =====
-- normalize.go: what walking and flattening leaves, and that it settles.
use formae_plugin_kubernetes.Prelude.{
  String, ◌≡◌, ◌∙◌, ap, refl, inl, inr, Bool, true, false, ◌&&◌, ◌||◌, Bool-cases, arith,
  if◌then◌else◌,
}
use formae_plugin_kubernetes.Json.{
  Json, Items, Fields, null, bool, num, str, arr, obj, nil, cons, end, field, get, set, has,
}
use formae_plugin_kubernetes.Prov.Normalize.{
  is_object, has_nested_object_value, full_key, merge, collapse_onto, collapse_value,
  collapse_string_map, collapses, collapsed, walk_and_flatten, flatten_fields, flatten_items,
}

abbrev is_text : Json → Bool
is_text (str s) = true
is_text _ = false

-- Whether every value of a map is a text.
unfoldable pub is_flat : Fields → Bool
is_flat end = true
is_flat (field k v m) = is_text v && is_flat m

is_flat-set : (k s : String) (m : Fields) → is_flat m ≡ true → is_flat (set k (str s) m) ≡ true
unfolding is_flat set
is_flat-set k s end h = refl
is_flat-set k s (field j v m) h = ground (arith, is_flat-set k s m)

is_flat-set_text :
    (k : String) (v : Json) (m : Fields)
    → is_text v ≡ true
    → is_flat m ≡ true
    → is_flat (set k v m) ≡ true
is_flat-set_text k (str s) m t h = is_flat-set k s m h
is_flat-set_text k null m t h = ground arith
is_flat-set_text k (bool b) m t h = ground arith
is_flat-set_text k (num s n) m t h = ground arith
is_flat-set_text k (arr xs) m t h = ground arith
is_flat-set_text k (obj fs) m t h = ground arith

is_flat-merge :
    (found out : Fields)
    → is_flat found ≡ true
    → is_flat out ≡ true
    → is_flat (merge found out) ≡ true
unfolding is_flat merge
is_flat-merge end out f o = o
is_flat-merge (field k v found) out f o =
    ground (arith, is_flat-set_text k v out, is_flat-merge found (set k v out))

module _ (sprint : Json → String) where
  mutual
    unfolding collapse_onto is_flat

    is_flat-collapse_onto :
        (m : Fields) (prefix : String) (out : Fields)
        → is_flat out ≡ true
        → is_flat (collapse_onto sprint m prefix out) ≡ true
    is_flat-collapse_onto end prefix out h = h
    is_flat-collapse_onto (field k v m) prefix out h =
        is_flat-collapse_onto m prefix (collapse_value sprint v (full_key prefix k) out)
          (is_flat-collapse_value v (full_key prefix k) out h)

    is_flat-collapse_value :
        (v : Json) (full : String) (out : Fields)
        → is_flat out ≡ true
        → is_flat (collapse_value sprint v full out) ≡ true
    is_flat-collapse_value (obj m) full out h =
        is_flat-merge (collapse_onto sprint m full end) out (is_flat-collapse_onto m full end refl)
          h
    is_flat-collapse_value (str s) full out h = is_flat-set full s out h
    is_flat-collapse_value null full out h = is_flat-set full "" out h
    is_flat-collapse_value (bool b) full out h = is_flat-set full (sprint (bool b)) out h
    is_flat-collapse_value (num s n) full out h = is_flat-set full (sprint (num s n)) out h
    is_flat-collapse_value (arr xs) full out h = is_flat-set full (sprint (arr xs)) out h

  -- A map of texts is left as it is.
  flatten-is_flat : (m : Fields) → is_flat m ≡ true → flatten_fields sprint m ≡ m
  unfolding is_flat walk_and_flatten
  flatten-is_flat end h = refl
  flatten-is_flat (field k (str s) m) h = ap (field k (str s)) (flatten-is_flat m h)
  flatten-is_flat (field k null m) h = ground arith
  flatten-is_flat (field k (bool b) m) h = ground arith
  flatten-is_flat (field k (num s n) m) h = ground arith
  flatten-is_flat (field k (arr xs) m) h = ground arith
  flatten-is_flat (field k (obj fs) m) h = ground arith

  -- Flattening keeps the keys of a map, and which of its values are objects.
  is_object-walk :
      (k : String) (v : Json)
      → is_object (if collapses sprint k v then collapsed sprint v else walk_and_flatten sprint v)
        ≡ is_object v
  unfolding walk_and_flatten
  is_object-walk k null = refl
  is_object-walk k (bool b) = refl
  is_object-walk k (num s n) = refl
  is_object-walk k (str s) = refl
  is_object-walk k (arr xs) = refl
  is_object-walk k (obj m) = ground arith

  has_nested-flatten :
      (m : Fields) → has_nested_object_value (flatten_fields sprint m) ≡ has_nested_object_value m
  unfolding has_nested_object_value walk_and_flatten
  has_nested-flatten end = refl
  has_nested-flatten (field k v m) =
      ap (λ b. b || has_nested_object_value (flatten_fields sprint m)) (is_object-walk k v)
      ∙ ap (λ b. is_object v || b) (has_nested-flatten m)

  has-flatten : (j : String) (m : Fields) → has j (flatten_fields sprint m) ≡ has j m
  unfolding get walk_and_flatten
  has-flatten j end = refl
  has-flatten j (field k v m) = ground (arith, has-flatten j m)

  has_nested-is_flat : (m : Fields) → is_flat m ≡ true → has_nested_object_value m ≡ false
  unfolding is_flat has_nested_object_value
  has_nested-is_flat end h = refl
  has_nested-is_flat (field k (str s) m) h = has_nested-is_flat m h
  has_nested-is_flat (field k null m) h = ground arith
  has_nested-is_flat (field k (bool b) m) h = ground arith
  has_nested-is_flat (field k (num s n) m) h = ground arith
  has_nested-is_flat (field k (arr xs) m) h = ground arith
  has_nested-is_flat (field k (obj fs) m) h = ground arith

  is_flat-collapse : (m : Fields) → is_flat (collapse_string_map sprint m "") ≡ true
  unfolding collapse_string_map is_flat
  is_flat-collapse m = is_flat-collapse_onto m "" end refl

  -- What a field's value becomes.
  abbrev flat_value : String → Json → Json
  flat_value k v = if collapses sprint k v then collapsed sprint v else walk_and_flatten sprint v

  flat_value-collapsed :
      (k : String) (m : Fields)
      → flat_value k (obj (collapse_string_map sprint m "")) ≡ obj (collapse_string_map sprint m "")
  unfolding walk_and_flatten
  flat_value-collapsed k m =
      let flat = is_flat-collapse m in
      rw (has_nested-is_flat (collapse_string_map sprint m "") flat)
        (ground (arith, flatten-is_flat (collapse_string_map sprint m "") flat))

  collapses-walked :
      (k : String) (m : Fields)
      → collapses sprint k (obj (flatten_fields sprint m)) ≡ collapses sprint k (obj m)
  collapses-walked k m =
      rw (has_nested-flatten m, has-flatten "matchLabels" m, has-flatten "matchExpressions" m) refl

  flat_value-settled :
      (k : String) (v : Json)
      → walk_and_flatten sprint (walk_and_flatten sprint v) ≡ walk_and_flatten sprint v
      → flat_value k (flat_value k v) ≡ flat_value k v
  unfolding walk_and_flatten
  flat_value-settled k null ih = refl
  flat_value-settled k (bool b) ih = refl
  flat_value-settled k (num s n) ih = refl
  flat_value-settled k (str s) ih = refl
  flat_value-settled k (arr xs) ih = ih
  flat_value-settled k (obj m) ih = elim (Bool-cases (collapses sprint k (obj m))) [
    | inl e ↦ rw e (flat_value-collapsed k m)
    | inr e ↦ rw (e, collapses-walked k m, e) ih
  ]

  mutual
    unfolding walk_and_flatten

    value-settled :
        (v : Json) → walk_and_flatten sprint (walk_and_flatten sprint v) ≡ walk_and_flatten sprint v
    value-settled null = refl
    value-settled (bool b) = refl
    value-settled (num s n) = refl
    value-settled (str s) = refl
    value-settled (arr xs) = ap arr (items-settled xs)
    value-settled (obj m) = ap obj (fields-settled m)

    fields-settled :
        (m : Fields) → flatten_fields sprint (flatten_fields sprint m) ≡ flatten_fields sprint m
    fields-settled end = refl
    fields-settled (field k v m) =
        ap (λ w. field k w (flatten_fields sprint (flatten_fields sprint m)))
          (flat_value-settled k v (value-settled v))
        ∙ ap (field k (flat_value k v)) (fields-settled m)

    items-settled :
        (xs : Items) → flatten_items sprint (flatten_items sprint xs) ≡ flatten_items sprint xs
    items-settled nil = refl
    items-settled (cons v xs) =
        ap (λ w. cons w (flatten_items sprint (flatten_items sprint xs))) (value-settled v)
        ∙ ap (cons (walk_and_flatten sprint v)) (items-settled xs)

  -- Normalizing a payload again changes nothing.
  pub walk-walk :
      (v : Json) → walk_and_flatten sprint (walk_and_flatten sprint v) ≡ walk_and_flatten sprint v
  walk-walk v = value-settled v
