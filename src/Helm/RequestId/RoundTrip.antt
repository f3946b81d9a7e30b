-- ===== src/Helm/RequestId/RoundTrip.antt =====
-- Request identifiers read back, with and without the generation of a flight.
use Prim.Native.Char.{Char}
use Prim.Native.Nat.{◌^◌}
use formae_plugin_kubernetes.Prelude.{
  ℕ, ◌<◌, String, ◌<>◌, ◌≡◌, refl, ap, ◌∙◌, Bool, true, false, some, arith,
}
use formae_plugin_kubernetes.Prelude.Decimal.{print_nat, is_digit, atoi-print_nat}
use formae_plugin_kubernetes.Prelude.Decimal.Contains.{contains-append, contains-print_nat}
use formae_plugin_kubernetes.Prelude.Text.{cut, cut_last, contains}
use formae_plugin_kubernetes.Prov.NativeId.{native_id}
use formae_plugin_kubernetes.Prov.NativeId.RoundTrip.{
  IsNamespaced, parse-native_id_iff, sep-append, cut-append, cut_last-append,
}
use formae_plugin_kubernetes.Helm.RequestId.{
  OpKind, op_install, op_upgrade, op_delete, op_text, op_of, request_id, request_generation,
  parse_request_id, revision_of,
}

abbrev at_sign : Char
at_sign = "@"

abbrev colon : Char
colon = ":"

abbrev hash : Char
hash = "#"

-- An operation's text holds none of the separators, and names the operation.
op_text_plain :
    (op : OpKind)
    → (contains b'@' (op_text op) ≡ false)
      × (contains b':' (op_text op) ≡ false)
      × (contains b'#' (op_text op) ≡ false)
      × (op_of (op_text op) ≡ some op)
unfolding contains
op_text_plain op_install = (refl, refl, refl, refl)
op_text_plain op_upgrade = (refl, refl, refl, refl)
op_text_plain op_delete = (refl, refl, refl, refl)

module _ (ns name : String) (revision : ℕ) (op : OpKind) where
  -- What stands behind the last `@`.
  abbrev tail : String
  tail = print_nat revision <> (":" <> op_text op)

  tail_cons : tail ≡ print_nat revision <> String.◌∷◌ colon (op_text op)
  tail_cons = ap (◌<>◌ (print_nat revision)) (sep-append colon (op_text op))

  tail_plain : (contains b'@' tail ≡ false) × (contains b'#' tail ≡ false)
  unfolding contains is_digit
  tail_plain = (
    ground (
      arith,
      contains-append b'@' (print_nat revision) (":" <> op_text op),
      contains-append b'@' ":" (op_text op),
      contains-print_nat b'@' revision refl,
      (op_text_plain op).0,
    ),
    ground (
      arith,
      contains-append b'#' (print_nat revision) (":" <> op_text op),
      contains-append b'#' ":" (op_text op),
      contains-print_nat b'#' revision refl,
      (op_text_plain op).2,
    ),
  )

  request_id-cons : request_id ns name revision op ≡ native_id ns name <> String.◌∷◌ at_sign tail
  unfolding request_id
  request_id-cons = ap (◌<>◌ (native_id ns name)) (sep-append at_sign tail)

  -- The part of an identifier before the generation has no `#`.
  request_id_plain :
      contains b'#' ns ≡ false
      → contains b'#' name ≡ false
      → contains b'#' (request_id ns name revision op) ≡ false
  unfolding request_id native_id contains
  request_id_plain h k = ground (
    arith,
    contains-append b'#' (ns <> ("/" <> name)) ("@" <> tail),
    contains-append b'#' ns ("/" <> name),
    contains-append b'#' "/" name,
    contains-append b'#' "@" tail,
    tail_plain.1,
  )

  revision_of-tail :
      (target : String)
      → IsNamespaced ns name
      → target ≡ native_id ns name
      → 0 < revision
      → revision < 2 ^ 63
      → revision_of target tail ≡ some (ns, name, revision, op)
  revision_of-tail target v e low high = ground (
    arith,
    ap (cut_last b':') tail_cons,
    cut_last-append colon (print_nat revision) (op_text op) (op_text_plain op).1,
    atoi-print_nat revision high,
    (op_text_plain op).3,
    (parse-native_id_iff target ns name).1 (e, v),
  )

-- A request identifier with the generation of a flight reads back as the namespace, the name, the
-- revision and the operation that it was made from, and its generation as the flight's: for a
-- namespace and a name that are not empty and hold neither a slash nor `#`, a revision from 1 on
-- within int64, and a generation that is a UUID.
pub parse-flight_request_id :
    (is_uuid : String → Bool) (ns name generation : String) (revision : ℕ) (op : OpKind)
    → IsNamespaced ns name
    → contains b'#' ns ≡ false
    → contains b'#' name ≡ false
    → 0 < revision
    → revision < 2 ^ 63
    → is_uuid generation ≡ true
    → let id = request_id ns name revision op <> ("#" <> generation) in
      (parse_request_id is_uuid id ≡ some (ns, name, revision, op))
      × (request_generation is_uuid id ≡ some generation)
unfolding parse_request_id
parse-flight_request_id is_uuid ns name generation revision op v h k low high uuid =
    (ground (arith, first, last, parsed), ground (arith, first))
  where
    first :
        cut b'#' (request_id ns name revision op <> ("#" <> generation))
        ≡ some (request_id ns name revision op, generation)
    first =
        ap (λ t. cut b'#' (request_id ns name revision op <> t)) (sep-append hash generation)
        ∙ cut-append hash (request_id ns name revision op) generation
            (request_id_plain ns name revision op h k)

    last :
        cut_last b'@' (request_id ns name revision op)
        ≡ some (native_id ns name, tail ns name revision op)
    last =
        ap (cut_last b'@') (request_id-cons ns name revision op)
        ∙ cut_last-append at_sign (native_id ns name) (tail ns name revision op)
            (tail_plain ns name revision op).0

    parsed :
        revision_of (native_id ns name) (tail ns name revision op) ≡ some (ns, name, revision, op)
    parsed = revision_of-tail ns name revision op (native_id ns name) v refl low high
