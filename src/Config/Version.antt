-- ===== src/Config/Version.antt =====
-- pkg/config/version.go: versions of Kubernetes as texts. The environment variable and the discovery
-- call are arguments of `ResolveK8sVersion`.
pub mod Order
pub mod Normal
use Prim.Native.Char.{code}
use Prim.Native.String
use formae_plugin_kubernetes.Prelude.{
  ℕ, String, ◌<>◌, ◌≡◌, refl, Bool, true, false, ◌&&◌, ◌||◌, Option, none, some, ltb, leb, ◌==◌,
  str_eq, if◌then◌else◌,
}
use formae_plugin_kubernetes.Prelude.Decimal.{
  ℤ, pos, negsuc, atoi, atoi_value, print_int, print_nat,
}
use formae_plugin_kubernetes.Prelude.Text.{cut, trim_suffix}

-- unicode.IsSpace
unfoldable pub is_space : ℕ → Bool
is_space c =
    (leb 9 c && leb c 13)
    || c == 32
    || c == 0x85
    || c == 0xA0
    || c == 0x1680
    || (leb 0x2000 c && leb c 0x200A)
    || c == 0x2028
    || c == 0x2029
    || c == 0x202F
    || c == 0x205F
    || c == 0x3000

-- strings.TrimSpace, from the left and then from the right.
unfoldable pub trim_left : String → String
unfolding is_space
trim_left String.[] = ""
trim_left (String.◌∷◌ c s) =
    let rest = trim_left s in if is_space (code c) then rest else String.◌∷◌ c s

unfoldable pub trim_right : String → String
unfolding is_space
trim_right String.[] = ""
trim_right (String.◌∷◌ c s) =
    let rest = trim_right s in if str_eq rest "" && is_space (code c) then "" else String.◌∷◌ c rest

-- strings.TrimPrefix with "v".
abbrev pub trim_v : String → String
trim_v String.[] = ""
trim_v (String.◌∷◌ c s) = if code c == b'v' then s else String.◌∷◌ c s

-- What stands before the first dot.
abbrev pub before_dot : String → String
before_dot s = elim (cut b'.' s) [ none ↦ s | some (before, after) ↦ before ]

-- `fmt.Sprintf("%d.%d", major, minor)`
abbrev pub print_version : Option ℤ → Option ℤ → Option String
print_version (some major) (some minor) = some (print_int major <> ("." <> print_int minor))
print_version _ _ = none

-- The parts of a text without space, prefix and suffix. The error texts are left out.
unfoldable pub normalize_parts : String → Option String
unfolding cut atoi trim_suffix
normalize_parts v = elim (cut b'.' v) [
  | none ↦ none
  | some (major, rest) ↦ print_version (atoi major) (atoi (trim_suffix b'+' (before_dot rest)))
]

unfoldable pub normalize_k8s_version : String → Option String
unfolding normalize_parts trim_left trim_right
normalize_k8s_version v = normalize_parts (trim_suffix b'+' (trim_v (trim_right (trim_left v))))

unfoldable pub split_minor : String → ℤ × ℤ
unfolding cut atoi_value
split_minor v = elim (cut b'.' v) [
  | none ↦ (pos 0, pos 0)
  | some (major, minor) ↦ (atoi_value major, atoi_value minor)
]

-- Go's `<` on ints.
abbrev pub int_lt : ℤ → ℤ → Bool
int_lt (pos a) (pos b) = ltb a b
int_lt (pos a) (negsuc b) = false
int_lt (negsuc a) (pos b) = true
int_lt (negsuc a) (negsuc b) = ltb b a

unfoldable pub compare_k8s_versions : String → String → ℤ
unfolding split_minor
compare_k8s_versions a b =
    let (am, an) = split_minor a in
    let (bm, bn) = split_minor b in
    if int_lt am bm
    then negsuc 0
    else if int_lt bm am
    then pos 1
    else if int_lt an bn
    then negsuc 0
    else if int_lt bn an
    then pos 1
    else pos 0

-- `configured` is the target's version, empty if it has none; `discovered` is none without a
-- discovery client, and holds what that answers with major and minor joined.
unfoldable pub resolve_k8s_version : String → String → Option (Option String) → Option String
unfolding normalize_k8s_version
resolve_k8s_version configured environment discovered =
    if str_eq configured ""
    then if str_eq environment ""
      then elim discovered [
        | none ↦ none
        | some none ↦ none
        | some (some version) ↦ normalize_k8s_version version
      ]
      else normalize_k8s_version environment
    else normalize_k8s_version configured

runs :
    (normalize_k8s_version " v1.32.5 " ≡ some "1.32")
    × (normalize_k8s_version "1.30+" ≡ some "1.30")
    × (normalize_k8s_version "1" ≡ none)
    × (compare_k8s_versions "1.9" "1.31" ≡ negsuc 0)
unfolding normalize_k8s_version compare_k8s_versions print_nat
runs = (refl, refl, refl, refl)
