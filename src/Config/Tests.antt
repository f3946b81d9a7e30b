-- ===== src/Config/Tests.antt =====
-- pkg/config: the theorems on versions, at versions whose minor numbers have different lengths.
use formae_plugin_kubernetes.Prelude.{◌<>◌, ◌≡◌, refl, some, arith}
use formae_plugin_kubernetes.Prelude.Decimal.{negsuc, print_nat}
use formae_plugin_kubernetes.Config.Version.{normalize_k8s_version, compare_k8s_versions}
use formae_plugin_kubernetes.Config.Version.Order.{version, lexicographic, compare-version}
use formae_plugin_kubernetes.Config.Version.Normal.{normalize-version}

compare-version_example : compare_k8s_versions (version 1 9) (version 1 31) ≡ lexicographic 1 9 1 31
compare-version_example =
    compare-version 1 9 1 31 (omega arith) (omega arith) (omega arith) (omega arith)

before : lexicographic 1 9 1 31 ≡ negsuc 0
before = refl

normalize-version_example :
    (normalize_k8s_version (version 1 32) ≡ some (version 1 32))
    × (normalize_k8s_version ("v" <> version 1 32) ≡ some (version 1 32))
    × (normalize_k8s_version (version 1 32 <> "+") ≡ some (version 1 32))
    × (normalize_k8s_version
          ("v" <> (print_nat 1 <> ("." <> (print_nat 32 <> ("." <> print_nat 5)))))
        ≡ some (version 1 32))
normalize-version_example = normalize-version 1 32 5 (omega arith) (omega arith)
