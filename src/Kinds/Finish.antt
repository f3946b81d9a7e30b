-- ===== src/Kinds/Finish.antt =====
-- What some kinds do to the bytes of LiveState: apps/statefulset.go, core/secret.go and
-- core/serviceaccount.go.
use formae_plugin_kubernetes.Prelude.{
  String, ◌<>◌, Bool, true, false, not, Option, none, some, Map, [], ◌∷◌, str_eq, if◌then◌else◌,
}
use formae_plugin_kubernetes.Prelude.Errors.{wrap}
use formae_plugin_kubernetes.Prelude.Text.{has_prefix}
use formae_plugin_kubernetes.Json.{
  Json, Items, Fields, null, bool, num, str, arr, obj, nil, cons, end, field, get, set, remove,
  array_at, text_at, filter_items, no_items,
}
use formae_plugin_kubernetes.Prov.Namespace.{Attempt, done, stopped, crashed}
use formae_plugin_kubernetes.Prov.Replicas.{as_map, strip_unowned_replicas}
use formae_plugin_kubernetes.Typed.{Codec, Live, explain_attempt}

abbrev pub encode_fields : Codec → Fields → Option String
encode_fields codec fs = codec.encode (obj fs)

-- Most kinds leave the bytes as they are.
abbrev pub unchanged : {S : Type 0} → Codec → Live S → String → Attempt String
unchanged codec live text = done text

abbrev pub strip_replicas_of : {S : Type 0} → Codec → Live S → String → Attempt String
strip_replicas_of codec live text =
    done (strip_unowned_replicas codec.decode (encode_fields codec) text live.managed_fields)

-- json.Unmarshal into a slice of maps, with `status` deleted from each: none for an error.
unfoldable pub without_statuses : Items → Option Items
without_statuses nil = some nil
without_statuses (cons (obj fs) xs) = elim (without_statuses xs) [
  | none ↦ none
  | some rest ↦ some (cons (obj (remove "status" fs)) rest)
]
without_statuses (cons null xs) = elim (without_statuses xs) [
  | none ↦ none
  | some rest ↦ some (cons null rest)
]
without_statuses (cons (bool b) xs) = none
without_statuses (cons (num s n) xs) = none
without_statuses (cons (str s) xs) = none
without_statuses (cons (arr ys) xs) = none

-- A null is a nil slice, which is written as null again.
abbrev pub claims_stripped : Json → Option Json
claims_stripped null = some null
claims_stripped (arr xs) = elim (without_statuses xs) [ none ↦ none | some ys ↦ some (arr ys) ]
claims_stripped _ = none

-- The claim templates of an object's `spec` with their statuses deleted; none where there is
-- nothing of that shape.
abbrev pub spec_stripped : Fields → Option Fields
spec_stripped spec = elim (get "volumeClaimTemplates" spec) [
  | none ↦ none
  | some raw ↦ elim (claims_stripped raw) [
    | none ↦ none
    | some claims ↦ some (set "volumeClaimTemplates" claims spec)
  ]
]

abbrev pub whole_stripped : Fields → Option Fields
whole_stripped whole = elim (get "spec" whole) [
  | none ↦ none
  | some raw ↦ elim (as_map raw) [
    | none ↦ none
    | some spec ↦ elim (spec_stripped spec) [
      | none ↦ none
      | some stripped ↦ some (set "spec" (obj stripped) whole)
    ]
  ]
]

abbrev pub encoded : Codec → Option String → Attempt String
encoded codec none = stopped codec.encode_failed
encoded codec (some text) = done text

-- `stripVCTStatus`
unfoldable pub strip_vct_status : Codec → String → Attempt String
unfolding without_statuses
strip_vct_status codec text = elim (codec.decode text) [
  | none ↦ done text
  | some raw ↦ elim (as_map raw) [
    | none ↦ done text
    | some whole ↦ elim (whole_stripped whole) [
      | none ↦ done text
      | some stripped ↦ encoded codec (encode_fields codec stripped)
    ]
  ]
]

-- What follows LiveState in `extractStatefulSetState`, and the replicas behind it.
abbrev pub then_replicas : {S : Type 0} → Codec → Live S → Attempt String → Attempt String
then_replicas codec live (done text) = strip_replicas_of codec live text
then_replicas codec live (stopped e) = stopped e
then_replicas codec live (crashed r) = crashed r

unfoldable pub finish_stateful_set : {S : Type 0} → Codec → Live S → String → Attempt String
unfolding strip_vct_status
finish_stateful_set codec live text =
    then_replicas codec live
      (explain_attempt "failed to get statefulset live state: " (strip_vct_status codec text))

-- The decoded data of a secret, as an object of texts.
unfoldable pub decoded_data : Map String → Fields
decoded_data [] = end
decoded_data ((k, v) ∷ rest) = field k (str v) (decoded_data rest)

abbrev pub is_no_data : Map String → Bool
is_no_data [] = true
is_no_data _ = false

abbrev pub decode_failure : String
decode_failure = "failed to unmarshal secret properties for decode enrichment: "

-- The object gets the field; a null is a nil map, which cannot be written to.
abbrev pub enriched : Codec → Map String → Json → Attempt String
enriched codec values (obj props) =
    encoded codec (encode_fields codec (set "decodedData" (obj (decoded_data values)) props))
enriched codec values null = crashed "assignment to entry in nil map"
enriched codec values _ = stopped (wrap decode_failure codec.decode_failed)

-- `enrichDecodedData`
unfoldable pub enrich_decoded_data : Codec → String → Map String → Attempt String
unfolding decoded_data
enrich_decoded_data codec text values =
    if is_no_data values then done text else elim (codec.decode text) [
      | none ↦ stopped (wrap decode_failure codec.decode_failed)
      | some props ↦ enriched codec values props
    ]

-- An element of `secrets` that the token controller put there.
abbrev pub is_legacy_token : String → Json → Bool
is_legacy_token prefix (obj entry) = has_prefix prefix (text_at "name" entry)
is_legacy_token prefix _ = false

abbrev pub keep_secrets : Items → Fields → Fields
keep_secrets kept doc = if no_items kept then remove "secrets" doc else set "secrets" (arr kept) doc

abbrev pub secrets_stripped : Codec → String → String → Fields → Attempt String
secrets_stripped codec text name doc = elim (array_at "secrets" doc) [
  | none ↦ done text
  | some raw ↦
      if no_items raw
      then done text
      else encoded codec (
          encode_fields codec (
            keep_secrets (filter_items (λ e. not (is_legacy_token (name <> "-token-") e)) raw) doc))
]

-- `stripLegacyTokenSecrets`
unfoldable pub strip_legacy_token_secrets : Codec → String → String → Attempt String
unfolding has_prefix
strip_legacy_token_secrets codec text name =
    if str_eq text "" then done text else elim (codec.decode text) [
      | none ↦ done text
      | some raw ↦ elim (as_map raw) [
        | none ↦ done text
        | some doc ↦ secrets_stripped codec text name doc
      ]
    ]

abbrev pub finish_service_account : {S : Type 0} → Codec → Live S → String → Attempt String
finish_service_account codec live text =
    explain_attempt "failed to strip legacy token secrets: "
      (strip_legacy_token_secrets codec text live.name)
