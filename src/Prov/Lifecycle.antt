-- ===== src/Prov/Lifecycle.antt =====
-- pkg/resources/prov/lifecycle.go: the decorator around every provisioner. A call of the inner
-- provisioner takes a state of the world and returns the next one, with what it returned or the
-- value it panicked with. What the host's SDK, the JSON decoder and the runtime decide is a `Host`.
-- A decoded object holds each key once, and its keys are spelled as the API server spells them.
pub mod Wrap
pub mod Safe
pub mod Terminating
pub mod Alive
use mathlib.Core.Option
use formae_plugin_kubernetes.Prelude.{
  String, ◌<>◌, Bool, true, false, not, ◌||◌, Option, none, some, str_eq, if◌then◌else◌, Map,
}
use formae_plugin_kubernetes.Prelude.Errors.{
  GoError, leaf, error_is, error_text, canceled, deadline_exceeded,
}
use formae_plugin_kubernetes.Json.{Json, Fields, null, str, obj, get, set, remove, object_at, has}
use formae_plugin_kubernetes.Resource.{
  Operation, create, read, update, delete, check_status, list, OperationStatus, failure,
  in_progress, ErrorCode, unforeseen_error, not_found, ProgressResult, progress, is_success,
  Wrapped,
}
use formae_plugin_kubernetes.Prov.ReadErrors.{classify_read_error}

-- A request's fields that the decorator reads or writes; each kind of request leaves some empty.
pub record Request : Type 0 where
  pub native_id : String
  pub resource_type : String
  pub target_config : String
  pub request_id : String
  pub properties : String
  pub desired_properties : String
  pub additional_properties : Map String

pub record ReadResult : Type 0 where
  pub resource_type : String
  pub error_code : Option ErrorCode
  pub properties : String

-- What a Go call with results `(*A, error)` comes to.
pub data Outcome (A : Type 0) : Type 0 where
  panicked : String → Outcome A
  returned : Option A → Option GoError → Outcome A

-- A method of a provisioner: a nil request is `none`.
abbrev pub Method : Type 0 → Type 0 → Type 0
Method W A = Option Request → W → W × Outcome A

pub record Provisioner (W L : Type 0) : Type 0 where
  pub on_create : Method W Wrapped
  pub on_read : Method W ReadResult
  pub on_update : Method W Wrapped
  pub on_delete : Method W Wrapped
  pub on_status : Method W Wrapped
  pub on_list : Method W L

-- `op_name` is the text of an operation, `stack` the text of `debug.Stack`, `nil_dereference` the
-- text of the runtime's panic on a nil pointer.
pub record Host : Type 0 where
  pub op_name : Operation → String
  pub stack : String
  pub nil_dereference : String
  pub finished_successfully : ProgressResult → Bool
  pub decode : String → Option Json
  pub encode : Fields → Option String

unfoldable pub recover_panic : Host → Operation → String → GoError
recover_panic h op r = leaf 20 ("panic in " <> (h.op_name op <> (": " <> (r <> ("\n" <> h.stack)))))

unfoldable pub clear_status_message_unless_failure : ProgressResult → ProgressResult
clear_status_message_unless_failure p =
    if is_success p.status then record p { status_message = "" } else p

-- The sanitizing defer, where the result is not nil.
abbrev pub sanitize : Wrapped → Wrapped
sanitize w = record {
  progress_result = Option.map clear_status_message_unless_failure w.progress_result;
}

abbrev pub panic_result : Host → Operation → String → Wrapped
panic_result h op r = record {
  progress_result = some (record (progress failure) {
    operation = some op;
    error_code = some unforeseen_error;
    status_message = error_text (recover_panic h op r);
  });
}

-- Both defers of `Create`, `Update`, `Delete` and `Status`: the one that recovers runs first.
unfoldable pub guarded : Host → Operation → Outcome Wrapped → Outcome Wrapped
unfolding recover_panic clear_status_message_unless_failure
guarded h op (panicked r) = returned (some (sanitize (panic_result h op r))) none
guarded h op (returned result error) = returned (Option.map sanitize result) error

-- What `json.Unmarshal` makes of the pointer `Metadata.DeletionTimestamp`: `none` for an error,
-- `some false` for nil.
unfoldable pub timestamp_field : Option Json → Option Bool
timestamp_field none = some false
timestamp_field (some null) = some false
timestamp_field (some (str s)) = some true
timestamp_field (some _) = none

unfoldable pub timestamp_of_metadata : Option Json → Option Bool
unfolding timestamp_field
timestamp_of_metadata none = some false
timestamp_of_metadata (some null) = some false
timestamp_of_metadata (some (obj meta)) = timestamp_field (get "deletionTimestamp" meta)
timestamp_of_metadata (some _) = none

unfoldable pub timestamp_of : Json → Option Bool
unfolding timestamp_of_metadata
timestamp_of null = some false
timestamp_of (obj fs) = timestamp_of_metadata (get "metadata" fs)
timestamp_of _ = none

abbrev pub is_set : Option Bool → Bool
is_set (some b) = b
is_set none = false

unfoldable pub is_terminating : Host → String → Bool
unfolding timestamp_of
is_terminating h properties =
    if str_eq properties ""
    then false
    else elim (h.decode properties) [ none ↦ false | some v ↦ is_set (timestamp_of v) ]

-- The bytes without `metadata.deletionTimestamp`, or the given ones where there is none to remove.
abbrev pub without_timestamp : Host → String → Fields → Fields → String
without_timestamp h properties fs meta =
    elim (h.encode (set "metadata" (obj (remove "deletionTimestamp" meta)) fs)) [
      | none ↦ properties
      | some text ↦ text
    ]

abbrev pub strip_fields : Host → String → Fields → String
strip_fields h properties fs = elim (object_at "metadata" fs) [
  | none ↦ properties
  | some meta ↦
      if has "deletionTimestamp" meta then without_timestamp h properties fs meta else properties
]

abbrev pub strip_json : Host → String → Option Json → String
strip_json h properties (some (obj fs)) = strip_fields h properties fs
strip_json h properties _ = properties

unfoldable pub strip_deletion_timestamp : Host → String → String
strip_deletion_timestamp h properties =
    if str_eq properties "" then properties else strip_json h properties (h.decode properties)
