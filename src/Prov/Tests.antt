-- ===== src/Prov/Tests.antt =====
-- pkg/resources/prov: the theorems applied to concrete identifiers, objects and provisioners.
use formae_plugin_kubernetes.Prelude.{
  ℕ, ◌+◌, String, ◌≡◌, ◌↔◌, refl, inl, true, ◌&&◌, not, [], ◌∷◌, Option, none, some, str_eq, List,
  str_eq→ne, arith, eq_iff, if◌then◌else◌,
}
use formae_plugin_kubernetes.Prelude.Errors.{wrap, canceled}
use formae_plugin_kubernetes.Json.{get, set, remove, Json, Fields, null, str, obj, end, field}
use formae_plugin_kubernetes.Resource.{success, progress, is_success, Wrapped}
use formae_plugin_kubernetes.Prov.NativeId.{ok, native_id, parse_namespaced_native_id}
use formae_plugin_kubernetes.Prov.NativeId.RoundTrip.{IsNamespaced, parse-native_id_iff}
use formae_plugin_kubernetes.Prov.Normalize.{
  walk_and_flatten, is_string_map_key, has_nested_object_value, collapse_string_map, merge,
}
use formae_plugin_kubernetes.Prov.Normalize.Laws.{walk-walk}
use formae_plugin_kubernetes.Prov.Pagination.Each.{
  each_page, gathering, gathered, each_page-list_all,
}
use formae_plugin_kubernetes.Prov.Pagination.{
  Page, page, broken, list_all, Serves, fails, more, list_all_complete,
}
use formae_plugin_kubernetes.Prov.Ownership.{
  reconcile_metadata, removes, carries, declares, reconcile-removes_iff,
}
use formae_plugin_kubernetes.Prov.LiveState.Build.{live_fields}
use formae_plugin_kubernetes.Prov.LiveState.Keeps.{field_of, below}
use formae_plugin_kubernetes.Prov.LiveState.Clean.{live-metadata_absent, live-secret_data}
use formae_plugin_kubernetes.Prov.Lifecycle.{
  Request, ReadResult, Outcome, panicked, returned, Provisioner, Host, strip_deletion_timestamp,
}
use formae_plugin_kubernetes.Prov.Lifecycle.Wrap.{wrap as decorate}
use formae_plugin_kubernetes.Prov.Lifecycle.Safe.{has_returned, each_progress, wrap-returns}
use formae_plugin_kubernetes.Prov.Lifecycle.Terminating.{
  succeeds, is_claimed, is_gone, delete-confirmed,
}
use formae_plugin_kubernetes.Prov.Lifecycle.Alive.{
  RoundTrips, shows_alive, shows_alive_progress, read-alive, status-alive,
}

parse-native_id_iff_example :
    (parse_namespaced_native_id "default/web" ≡ ok ("default", "web"))
    ↔ (("default/web" ≡ native_id "default" "web") × IsNamespaced "default" "web")
parse-native_id_iff_example = parse-native_id_iff "default/web" "default" "web"

-- A secret with server-managed metadata.
abbrev sample_secret : Fields
sample_secret =
    field "metadata"
      (obj (
        field "name" (str "s") (
          field "uid" (str "u") (
            field "finalizers" (str "f")
              (field "labels" (obj (field "kubernetes.io/x" (str "y") end)) end)))))
      (field "data" (str "hidden") end)

live-metadata_absent_example :
    below "uid" (field_of "metadata" (live_fields "Secret" "v1" sample_secret)) ≡ none
live-metadata_absent_example = live-metadata_absent "Secret" "v1" "uid" sample_secret (inl refl)

live-secret_data_example : field_of "data" (live_fields "Secret" "v1" sample_secret) ≡ none
live-secret_data_example = live-secret_data "v1" sample_secret

-- The object of a provisioner that deletes it only in name: a finalizer holds it back.
abbrev dying : Fields
dying =
    field "metadata"
      (obj (field "name" (str "x") (field "deletionTimestamp" (str "2025-01-01") end))) end

-- The object that is not being deleted, with the timestamp that is null, and without it.
abbrev named : Fields
named = field "metadata" (obj (field "name" (str "x") end)) end

abbrev stamped : Fields
stamped = field "metadata" (obj (field "deletionTimestamp" null (field "name" (str "x") end))) end

-- An encoder and a decoder for a few objects.
abbrev encode_sample : Fields → Option String
encode_sample end = some "{}"
encode_sample (field k (obj (field j (str s) end)) end) =
    if str_eq k "metadata" && (str_eq j "name" && str_eq s "x") then some "named" else none
encode_sample _ = none

abbrev decode_sample : String → Option Json
decode_sample text =
    if str_eq text "{}"
    then some (obj end)
    else if str_eq text "named"
    then some (obj named)
    else if str_eq text "stamped"
    then some (obj stamped)
    else if str_eq text "dying"
    then some (obj dying)
    else none

decode-encode_sample :
    (fs : Fields) (text : String)
    → encode_sample fs ≡ some text
    → decode_sample text ≡ some (obj fs)
decode-encode_sample end text e = grind (arith, eq_iff)
decode-encode_sample (field k (obj (field j (str s) end)) end) text e =
    grind (arith, eq_iff, eq_iff text "{}", str_eq→ne "{}" "named" refl)
decode-encode_sample (field k v fs) text e = ground arith

abbrev host : Host
host = record {
  op_name = λ op. "op";
  stack = "goroutine 1";
  nil_dereference = "nil pointer dereference";
  finished_successfully = λ p. is_success p.status;
  decode = decode_sample;
  encode = encode_sample;
}

abbrev request : Request
request = record {
  native_id = "ns/x";
  resource_type = "K8S::Core::Pod";
  target_config = "";
  request_id = "r1";
  properties = "";
  desired_properties = "";
  additional_properties = [];
}

abbrev done : Wrapped
done = record {
  progress_result =
      some (record (progress success) { status_message = "deleted"; native_id = "ns/x" });
}

abbrev held : Outcome ReadResult
held =
    returned
      (some record { resource_type = "K8S::Core::Pod"; error_code = none; properties = "dying" })
      none

-- The world counts the deletes.
abbrev finalized : Provisioner ℕ String
finalized = record {
  on_create = λ req w. (w, panicked "nil map");
  on_read = λ req w. (w, held);
  on_update = λ req w. (w, returned none (some canceled));
  on_delete = λ req w. (w + 1, returned (some done) none);
  on_status = λ req w. (w, returned (some done) none);
  on_list = λ req w. (w, returned (some "ns/x") none);
}

delete-confirmed_example :
    succeeds ((decorate host finalized).on_delete (some request) 0).1
    ≡ (is_claimed (returned (some done) none) && is_gone host held)
delete-confirmed_example = delete-confirmed host finalized request 0 (λ p. refl)

wrap-returns_example :
    (has_returned ((decorate host finalized).on_create none 0).1 ≡ true)
    × (has_returned ((decorate host finalized).on_read none 0).1 ≡ true)
    × (has_returned ((decorate host finalized).on_update none 0).1 ≡ true)
    × (has_returned ((decorate host finalized).on_delete none 0).1 ≡ true)
    × (has_returned ((decorate host finalized).on_status none 0).1 ≡ true)
    × (has_returned ((decorate host finalized).on_list none 0).1 ≡ true)
wrap-returns_example = wrap-returns host finalized none 0

host-RoundTrips : RoundTrips host
host-RoundTrips fs text e = (fs, decode-encode_sample fs text e, λ path. refl)

-- A provisioner of an object whose timestamp is there and null.
abbrev living : Provisioner ℕ String
living = record finalized {
  on_read = λ req w. (
    w,
    returned
        (some
          record { resource_type = "K8S::Core::Pod"; error_code = none; properties = "stamped" })
        none,
  );
  on_status = λ req w. (
    w,
    returned
        (some
          record { progress_result = some (record (progress success) { properties = "stamped" }) })
        none,
  );
}

read-alive_example : shows_alive host ((decorate host living).on_read (some request) 0).1 ≡ true
read-alive_example = read-alive host living (some request) 0 host-RoundTrips

status-alive_example :
    each_progress (shows_alive_progress host) ((decorate host living).on_status (some request) 0).1
    ≡ true
status-alive_example = status-alive host living (some request) 0 host-RoundTrips

-- The null timestamp is cut out of what is shown.
cut_out : strip_deletion_timestamp host "stamped" ≡ "named"
unfolding strip_deletion_timestamp get set remove
cut_out = refl

-- A server of two pages, of which the second fails; the world counts the calls.
abbrev two_pages : String → ℕ → ℕ × Page String
two_pages token w = (w + 1, if str_eq token "" then page ("a" ∷ "b" ∷ []) "t" else broken canceled)

two_pages-Serves : Serves two_pages "" 0 ("a" ∷ "b" ∷ []) 2 (some canceled) 2
two_pages-Serves = more ("a" ∷ "b" ∷ []) [] "t" refl (str_eq→ne "t" "" refl) (fails canceled refl)

list_all_complete_example : list_all two_pages 5 "" [] 0 ≡ some (2, "a" ∷ "b" ∷ [], some canceled)
list_all_complete_example =
    list_all_complete two_pages 5 0 2 ("a" ∷ "b" ∷ []) (some canceled) 2 two_pages-Serves
      (omega arith)

-- A live object with a label that the desired one, the secret above, lacks.
abbrev labelled : Fields
labelled =
    field "metadata"
      (obj (field "name" (str "x") (field "labels" (obj (field "team" (str "a") end)) end))) end

reconcile-removes_iff_example :
    let sent = reconcile_metadata (some labelled) (some sample_secret) in
    (removes "labels" "team" sent ≡ (
      carries "labels" "team" labelled
      && (declares "labels" sample_secret && not (carries "labels" "team" sample_secret))))
    × (removes "annotations" "team" sent ≡ (
        carries "annotations" "team" labelled
        && (declares "annotations" sample_secret
            && not (carries "annotations" "team" sample_secret))))
reconcile-removes_iff_example = reconcile-removes_iff "team" labelled sample_secret

abbrev expanded : Json
expanded = obj (field "labels" (obj (field "app" (obj (field "io/name" (str "web") end)) end)) end)

walk-walk_example :
    walk_and_flatten (λ v. "") (walk_and_flatten (λ v. "") expanded)
    ≡ walk_and_flatten (λ v. "") expanded
walk-walk_example = walk-walk (λ v. "") expanded

flattened :
    walk_and_flatten (λ v. "") expanded
    ≡ obj (field "labels" (obj (field "app.io/name" (str "web") end)) end)
unfolding walk_and_flatten is_string_map_key has_nested_object_value collapse_string_map merge set
flattened = refl

abbrev texts : List String → List String
texts xs = xs

each_page-list_all_example :
    each_page (gathering two_pages texts) 5 "" (0, [])
    ≡ gathered texts (list_all two_pages 5 "" [] 0)
each_page-list_all_example = each_page-list_all two_pages texts (λ xs ys. refl) 5 "" [] 0
