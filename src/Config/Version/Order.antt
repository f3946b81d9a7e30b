-- ===== src/Config/Version/Order.antt =====
-- version.go: versions read back as what they were printed from, and are compared as pairs.
use Prim.Native.Char.{Char}
use Prim.Native.Nat.{◌^◌}
use formae_plugin_kubernetes.Prelude.{
  ℕ, ◌<◌, String, ◌<>◌, ◌≡◌, refl, ◌&&◌, ◌||◌, some, ltb, ◌==◌, arith, if◌then◌else◌,
}
use formae_plugin_kubernetes.Prelude.Decimal.{
  ℤ, pos, negsuc, print_nat, is_digit, atoi_value-print_nat,
}
use formae_plugin_kubernetes.Prelude.Decimal.Contains.{contains-print_nat}
use formae_plugin_kubernetes.Prelude.Text.{cut}
use formae_plugin_kubernetes.Prov.NativeId.RoundTrip.{cut-append, sep-append}
use formae_plugin_kubernetes.Config.Version.{split_minor, compare_k8s_versions}

-- A version as it is printed.
abbrev pub version : ℕ → ℕ → String
version major minor = print_nat major <> ("." <> print_nat minor)

-- The order of versions: by the major number, then by the minor one.
abbrev pub lexicographic : ℕ → ℕ → ℕ → ℕ → ℤ
lexicographic a b c d =
    if a == c && b == d then pos 0 else if ltb a c || (a == c && ltb b d) then negsuc 0 else pos 1

abbrev dot : Char
dot = "."

pub cut-version :
    (major : ℕ) (rest : String)
    → cut b'.' (print_nat major <> ("." <> rest)) ≡ some (print_nat major, rest)
unfolding is_digit
cut-version major rest =
    rw (sep-append dot rest)
      (cut-append dot (print_nat major) rest (contains-print_nat b'.' major refl))

split-version : (a b : ℕ) → a < 2 ^ 63 → b < 2 ^ 63 → split_minor (version a b) ≡ (pos a, pos b)
unfolding split_minor
split-version a b p q =
    ground (arith, cut-version a (print_nat b), atoi_value-print_nat a, atoi_value-print_nat b)

-- On printed versions within int64, the comparison is that of pairs of numbers, the major one first.
pub compare-version :
    (a b c d : ℕ)
    → a < 2 ^ 63
    → b < 2 ^ 63
    → c < 2 ^ 63
    → d < 2 ^ 63
    → compare_k8s_versions (version a b) (version c d) ≡ lexicographic a b c d
unfolding compare_k8s_versions
compare-version a b c d pa pb pc pd =
    rw (split-version a b pa pb, split-version c d pc pd) (ground arith)
