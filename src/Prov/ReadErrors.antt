-- ===== src/Prov/ReadErrors.antt =====
-- pkg/resources/prov/errors.go: which errors of a read mean that the API server cannot be reached.
use text.Mathlib.TextLemmas.{cons-append, nil-append}
use formae_plugin_kubernetes.Prelude.{
  String, ◌<>◌, ◌≡◌, refl, true, false, ◌||◌, Option, none, some, List, [], ◌∷◌, arith,
  if◌then◌else◌,
}
use formae_plugin_kubernetes.Prelude.Text.{has_prefix, contains_text}
use formae_plugin_kubernetes.Prelude.Errors.{
  GoError, wrap, error_is, error_text, as_op_error, as_dns_error, deadline_exceeded,
  os_deadline_exceeded, connection_refused,
}
use formae_plugin_kubernetes.Resource.{ErrorCode, service_timeout, network_failure}

-- The text with which the token transport marks a failure to get a token.
abbrev pub auth_token_error_marker : String
auth_token_error_marker = "auth: failed to obtain token"

-- `none` stands for `"", false`.
unfoldable pub classify_read_error : Option GoError → Option ErrorCode
unfolding error_is error_text as_op_error as_dns_error contains_text
classify_read_error none = none
classify_read_error (some e) =
    if contains_text (error_text e) auth_token_error_marker
    then none
    else if error_is e deadline_exceeded || error_is e os_deadline_exceeded
    then some service_timeout
    else elim (as_op_error e) [
      | some true ↦ some service_timeout
      | some false ↦ some network_failure
      | none ↦
          if as_dns_error e
          then some network_failure
          else if error_is e connection_refused
          then some network_failure
          else none
    ]

has_prefix-append : (s t p : String) → has_prefix s p ≡ true → has_prefix (s <> t) p ≡ true
unfolding has_prefix
has_prefix-append s t String.[] h = refl
has_prefix-append String.[] t (String.◌∷◌ d p) h = ground arith
has_prefix-append (String.◌∷◌ c s) t (String.◌∷◌ d p) h =
    rw cons-append (ground (arith, has_prefix-append s t p))

contains_text-prefix : (s p : String) → has_prefix s p ≡ true → contains_text s p ≡ true
unfolding contains_text
contains_text-prefix String.[] p h = h
contains_text-prefix (String.◌∷◌ c s) p h = ground arith

-- What stands in a text stands in every text that ends in it, or that begins with it.
pub contains_text-append_right :
    (s t p : String) → contains_text t p ≡ true → contains_text (s <> t) p ≡ true
unfolding contains_text
contains_text-append_right String.[] t p h = rw nil-append h
contains_text-append_right (String.◌∷◌ c s) t p h =
    rw cons-append (ground (arith, contains_text-append_right s t p))

pub contains_text-append_left :
    (s t p : String) → contains_text s p ≡ true → contains_text (s <> t) p ≡ true
unfolding contains_text has_prefix
contains_text-append_left String.[] t String.[] h = rw nil-append (contains_text-prefix t "" refl)
contains_text-append_left String.[] t (String.◌∷◌ d p) h = ground arith
contains_text-append_left (String.◌∷◌ c s) t p h = rw cons-append (
    ground (
      arith,
      contains_text-append_left s t p,
      has_prefix-append (String.◌∷◌ c s) t p,
      cons-append c s t,
    ))

-- An error under texts that are wrapped around it, the outermost first.
unfoldable pub wrapped : List String → GoError → GoError
wrapped [] e = e
wrapped (text ∷ texts) e = wrap text (wrapped texts e)
