-- ===== src/Typed.antt =====
-- pkg/resources: the provisioners of the typed kinds (apps, batch, core and the other API groups).
-- Their files repeat the same six handlers; what differs from kind to kind is a `Kind`, and the
-- files are the values of `Kind` in Kinds. client-go is a parameter: a `Client` holds the calls of
-- one kind's interface, from one state of the world to the next, and `Codec` what encoding/json,
-- strconv and gjson answer.
pub mod Handlers
pub mod Methods
pub mod Addressing
pub mod Deleting
pub mod Guarding
use formae_plugin_kubernetes.Prelude.{
  ℕ, String, ◌<>◌, ◌≡◌, refl, Bool, true, false, Option, none, some, List, arith, if◌then◌else◌,
}
use formae_plugin_kubernetes.Prelude.Errors.{GoError, leaf, wrap}
use formae_plugin_kubernetes.Json.{Json, Fields}
use formae_plugin_kubernetes.Resource.{OperationStatus, ErrorCode}
use formae_plugin_kubernetes.K8sVersion.Gates.{Found, Refusal, requires, removed}
use formae_plugin_kubernetes.Prov.NativeId.{
  IdError, empty_id, separator_count, empty_namespace, empty_name, has_separator, empty_part,
}
use formae_plugin_kubernetes.Prov.Namespace.{Attempt, done, stopped, crashed}
use formae_plugin_kubernetes.Prov.Pagination.{Page}
use formae_plugin_kubernetes.Prov.Replicas.{ManagedFields}

-- A step of a handler: it takes the state of the world, and the next one comes with what it made.
abbrev pub Step : Type 0 → Type 0 → Type 0
Step W A = W → W × Attempt A

abbrev pub lift : {W A : Type 0} → Attempt A → Step W A
lift a w = (w, a)

abbrev pub go_on : {W A B : Type 0} → (A → Step W B) → W → Attempt A → W × Attempt B
go_on f w (done a) = f a w
go_on f w (stopped e) = (w, stopped e)
go_on f w (crashed r) = (w, crashed r)

infixl 5 ◌>>=◌
abbrev pub ◌>>=◌ : {W A B : Type 0} → Step W A → (A → Step W B) → Step W B
◌>>=◌ m f w = let step = m w in go_on f step.0 step.1

-- `fmt.Errorf("…: %w", err)` around the error of a step.
abbrev pub explain_attempt : {A : Type 0} → String → Attempt A → Attempt A
explain_attempt text (done a) = done a
explain_attempt text (stopped e) = stopped (wrap text e)
explain_attempt text (crashed r) = crashed r

abbrev pub explain : {W A : Type 0} → String → Step W A → Step W A
explain text m w = let step = m w in (step.0, explain_attempt text step.1)

-- An apply configuration: its namespace, nil or not, and the generic map that encoding and decoding
-- make of it, none where they fail.
pub record ApplyConfig : Type 0 where
  pub namespace : Option String
  pub generic : Option Fields

-- An object that the API server returned: its metadata, its JSON, the generic map of it, and what
-- the status of the kind is told by.
pub record Live (S : Type 0) : Type 0 where
  pub namespace : String
  pub name : String
  pub resource_version : String
  pub json : Json
  pub generic : Option Fields
  pub managed_fields : List ManagedFields
  pub has_owners : Bool
  pub state : S

pub data Propagation : Type 0 where
  default foreground background : Propagation

-- The typed interface of a kind at a namespace, which is empty for a cluster-scoped kind. A nil
-- configuration is none. `finalize` is the namespaces' own call, of an object without finalizers;
-- `cluster_version` is `ResolveK8sVersion`, none for an error.
pub record Client (W S : Type 0) : Type 0 where
  pub apply : String → Option ApplyConfig → Step W (Live S)
  pub fetch : String → String → Step W (Live S)
  pub delete : String → String → Propagation → Step W (Unit {0})
  pub patch : String → String → Fields → Step W (Unit {0})
  pub page : String → String → W → W × Page (Live S)
  pub finalize : Live S → Step W (Unit {0})
  pub cluster_version : W → W × Option String

-- `read_config` is json.Unmarshal into a pointer to an apply configuration, which null leaves nil;
-- `project` is the round trip of LiveState; `found` is gjson's answer in a payload at a path.
-- `pages` is the fuel of a listing.
pub record Codec : Type 0 where
  pub sprint : Json → String
  pub decode : String → Option Json
  pub encode : Json → Option String
  pub read_config : String → Option (Option ApplyConfig)
  pub project : Json → Option Fields
  pub quote : String → String
  pub is_not_found : GoError → Bool
  pub found : String → String → Found
  pub nil_dereference : String
  pub decode_failed : GoError
  pub encode_failed : GoError
  pub pages : ℕ

pub data Scope : Type 0 where
  namespaced cluster : Scope

-- What a typed kind does its own way. `plural` is the noun in the error of a list, `state_failure`
-- the error's text where LiveState fails. `finish` is what is done to the bytes of LiveState.
pub record Kind (S : Type 0) : Type 0 where
  pub scope : Scope
  pub resource_type : String
  pub kind : String
  pub api_version : String
  pub noun : String
  pub plural : String
  pub state_failure : String
  pub propagation : Propagation
  pub gates_create : Bool
  pub gates_update : Bool
  pub finish : Codec → Live S → String → Attempt String
  pub status : S → OperationStatus
  pub message : S → String
  pub error_code : S → Option ErrorCode
  pub is_lost : S → Bool
  pub lists : Live S → Bool

-- ErrInvalidNativeID with the check that refused; a count of segments is left out.
unfoldable pub id_error : IdError → GoError
id_error empty_id = leaf 30 "invalid native id: empty"
id_error separator_count = leaf 30 "invalid native id: expected exactly one '/' separator"
id_error empty_namespace = leaf 30 "invalid native id: empty namespace"
id_error empty_name = leaf 30 "invalid native id: empty name"
id_error has_separator = leaf 30 "invalid native id: cluster-scoped native id must not contain '/'"
id_error empty_part = leaf 30 "invalid native id"

-- The error of a gate; its text is cut to the version.
unfoldable pub gate_error : Refusal → GoError
gate_error (requires version) = leaf 33 ("requires Kubernetes " <> version)
gate_error (removed version) = leaf 33 ("was removed in Kubernetes " <> version)

-- A step that comes to a value went through one of the step before it.
pub go_on-done :
    {W A B : Type 0} (f : A → Step W B) (w : W) (a : Attempt A) {b : B}
    → (go_on f w a).1 ≡ done b
    → (x : A) × (a ≡ done x) × ((f x w).1 ≡ done b)
go_on-done f w (done x) h = (x, refl, h)
go_on-done f w (stopped e) h = ground arith
go_on-done f w (crashed r) h = ground arith

pub explain-done :
    {A : Type 0} (text : String) (a : Attempt A) {x : A}
    → explain_attempt text a ≡ done x
    → a ≡ done x
explain-done text (done a) h = h
explain-done text (stopped e) h = ground arith
explain-done text (crashed r) h = ground arith
