-- ===== src/Helm/RequestId.antt =====
-- pkg/resources/helm/release.go and flight_lifecycle.go: the operation kinds and the request
-- identifiers, `<namespace>/<name>@<revision>:<op>` with the generation of a flight behind `#`.
pub mod RoundTrip
use formae_plugin_kubernetes.Prelude.{
  ℕ, zero, suc, String, ◌<>◌, Bool, true, false, Option, none, some, str_eq, if◌then◌else◌,
}
use formae_plugin_kubernetes.Prelude.Decimal.{ℤ, pos, negsuc, print_nat, atoi}
use formae_plugin_kubernetes.Prelude.Text.{cut, cut_last}
use formae_plugin_kubernetes.Prov.NativeId.{native_id, ok, err, parse_namespaced_native_id}

pub data OpKind : Type 0 where
  op_install op_upgrade op_delete : OpKind

abbrev pub op_text : OpKind → String
op_text op_install = "install"
op_text op_upgrade = "upgrade"
op_text op_delete = "delete"

-- The operation kind that a text spells, if there is one.
abbrev pub op_of : String → Option OpKind
op_of s =
    if str_eq s "install"
    then some op_install
    else if str_eq s "upgrade"
    then some op_upgrade
    else if str_eq s "delete"
    then some op_delete
    else none

-- Go's `==` on operation kinds.
abbrev pub op_eq : OpKind → OpKind → Bool
op_eq op_install op_install = true
op_eq op_upgrade op_upgrade = true
op_eq op_delete op_delete = true
op_eq _ _ = false

unfoldable pub request_id : String → String → ℕ → OpKind → String
unfolding native_id print_nat
request_id ns name revision op =
    native_id ns name <> ("@" <> (print_nat revision <> (":" <> op_text op)))

-- The generation behind `#`: none is an error, and the empty text says that there is no `#`.
-- `is_uuid` is `uuid.Parse`.
unfoldable pub request_generation : (String → Bool) → String → Option String
unfolding cut
request_generation is_uuid id = elim (cut b'#' id) [
  | none ↦ some ""
  | some (before, generation) ↦ if is_uuid generation then some generation else none
]

-- A number from 1 on.
abbrev pub positive : ℤ → Option ℕ
positive (pos (suc n)) = some (suc n)
positive _ = none

abbrev pub target_of : String → ℕ → OpKind → Option (String × String × ℕ × OpKind)
target_of target revision op = elim (parse_namespaced_native_id target) [
  | err e ↦ none
  | ok (ns, name) ↦ some (ns, name, revision, op)
]

-- `id[at+1:]` is `rest`: the revision and the operation around its last colon.
abbrev pub revision_of : String → String → Option (String × String × ℕ × OpKind)
revision_of target rest = elim (cut_last b':' rest) [
  | none ↦ none
  | some (digits, op) ↦ elim (atoi digits) [
    | none ↦ none
    | some n ↦ elim (positive n) [
      | none ↦ none
      | some revision ↦ elim (op_of op) [ none ↦ none | some kind ↦ target_of target revision kind ]
    ]
  ]
]

abbrev pub body_of : String → String
body_of id = elim (cut b'#' id) [ none ↦ id | some (before, generation) ↦ before ]

-- The error texts of the source are left out: every refusal is none.
unfoldable pub parse_request_id : (String → Bool) → String → Option (String × String × ℕ × OpKind)
unfolding request_generation cut_last atoi parse_namespaced_native_id
parse_request_id is_uuid id = elim (request_generation is_uuid id) [
  | none ↦ none
  | some generation ↦ elim (cut_last b'@' (body_of id)) [
    | none ↦ none
    | some (target, rest) ↦ revision_of target rest
  ]
]
