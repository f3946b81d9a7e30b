-- ===== src/Prov/NativeId/Custom.antt =====
-- customid.go and the `name:uid` form of nativeid.go: round trips.
use Prim.Native.Char.{Char}
use formae_plugin_kubernetes.Prelude.{String, ◌<>◌, ◌≡◌, ◌≢◌, ap, false, some, eq_iff, arith}
use formae_plugin_kubernetes.Prelude.Text.{cut, cut_last, contains}
use formae_plugin_kubernetes.Prov.NativeId.{
  ok, custom_resource_id, parse_custom_resource_id, native_id_with_uid, parse_native_id_with_uid,
}
use formae_plugin_kubernetes.Prov.NativeId.RoundTrip.{
  sep-append, cut-append, cut_last-append, slash,
}

-- What the parts of a custom resource's identifier have to be. The API version may hold slashes,
-- and the namespace may be empty.
pub record IsCustom (api_version kind ns name : String) : Type 0 where
  pub has_version : api_version ≢ ""
  pub has_kind : kind ≢ ""
  pub has_name : name ≢ ""
  pub plain_kind : contains b'/' kind ≡ false
  pub plain_namespace : contains b'/' ns ≡ false
  pub plain_name : contains b'/' name ≡ false

cut_last_slash :
    (s t : String) → contains b'/' t ≡ false → cut_last b'/' (s <> ("/" <> t)) ≡ some (s, t)
cut_last_slash s t h = rw (sep-append slash t) (cut_last-append slash s t h)

-- A custom resource's identifier reads back as the API version, kind, namespace and name that it
-- was made from, where the last three hold no slash and only the namespace may be empty.
parse-custom_resource_id :
    (api_version kind ns name : String)
    → IsCustom api_version kind ns name
    → parse_custom_resource_id (custom_resource_id api_version kind ns name)
      ≡ ok (api_version, kind, ns, name)
unfolding parse_custom_resource_id custom_resource_id
parse-custom_resource_id api_version kind ns name v = ground (
  arith,
  cut_last_slash ((api_version <> ("/" <> kind)) <> ("/" <> ns)) name v.plain_name,
  cut_last_slash (api_version <> ("/" <> kind)) ns v.plain_namespace,
  cut_last_slash api_version kind v.plain_kind,
  eq_iff api_version "",
  eq_iff kind "",
  eq_iff name "",
)

abbrev colon : Char
colon = ":"

-- An identifier with a UID reads back as the name and the UID, where the name holds no colon.
pub parse-native_id_with_uid :
    (name uid : String)
    → contains b':' name ≡ false
    → parse_native_id_with_uid (native_id_with_uid name uid) ≡ (name, uid)
unfolding parse_native_id_with_uid native_id_with_uid
parse-native_id_with_uid name uid plain =
    ground (
      arith,
      ap (λ t. cut b':' (name <> t)) (sep-append colon uid),
      cut-append colon name uid plain,
    )
