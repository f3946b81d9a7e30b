-- ===== src/Json/Laws.antt =====
-- Reading a field behind each way to change an object.
use mathlib.Core.Option
use formae_plugin_kubernetes.Prelude.{
  String, ◌≡◌, refl, ◌≢◌, inl, inr, Option-cases, Bool, none, some, str_eq, eq_iff, arith,
  if◌then◌else◌,
}
use formae_plugin_kubernetes.Json.{
  Json, Fields, end, field, obj, get, set, remove, within, map_fields, filter_keys, object_at,
}

pub get-set :
    (k j : String) (v : Json) (fs : Fields)
    → get j (set k v fs) ≡ (if str_eq k j then some v else get j fs)
unfolding get set
get-set k j v end = refl
get-set k j v (field i w fs) = ground (arith, eq_iff k j, eq_iff i k, eq_iff i j, get-set k j v fs)

pub get-remove :
    (k j : String) (fs : Fields) → get j (remove k fs) ≡ (if str_eq k j then none else get j fs)
unfolding get remove
get-remove k j end = ground arith
get-remove k j (field i w fs) =
    ground (arith, eq_iff k j, eq_iff i k, eq_iff i j, get-remove k j fs)

pub get-map_fields :
    (f : String → Json → Json) (k : String) (fs : Fields)
    → get k (map_fields f fs) ≡ Option.map (f k) (get k fs)
unfolding get map_fields
get-map_fields f k end = refl
get-map_fields f k (field j v fs) = ground (arith, eq_iff j k, get-map_fields f k fs)

pub get-filter_keys :
    (keep : String → Bool) (k : String) (fs : Fields)
    → get k (filter_keys keep fs) ≡ (if keep k then get k fs else none)
unfolding get filter_keys
get-filter_keys keep k end = ground arith
get-filter_keys keep k (field j v fs) = ground (arith, eq_iff j k, get-filter_keys keep k fs)

-- Nothing but that key changes.
pub get-within_ne :
    (k j : String) (change : Fields → Fields) (fs : Fields)
    → k ≢ j
    → get j (within k change fs) ≡ get j fs
unfolding within
get-within_ne k j change fs ne = elim (Option-cases (object_at k fs)) [
  | inl e ↦ ground arith
  | inr (inner, e) ↦ ground (arith, eq_iff k j, get-set k j (obj (change inner)) fs)
]

pub ruleset json_laws = (get-set, get-remove, get-map_fields, get-filter_keys)
