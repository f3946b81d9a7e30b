-- ===== src/Helm/Plan/Tests.antt =====
-- release.go: the theorems on plans, at concrete releases.
use formae_plugin_kubernetes.Prelude.{◌*◌, ◌≡◌, refl, false, none, some, [], ◌∷◌, lookup}
use formae_plugin_kubernetes.Helm.Bridge.{second}
use formae_plugin_kubernetes.Helm.RequestId.{op_install}
use formae_plugin_kubernetes.Helm.Plan.{
  deployed, pending_upgrade, Chart, Values, Release, Wanted, Env, formae_owns, release_is_pending,
  stalled,
}
use formae_plugin_kubernetes.Helm.Plan.Submit.{start, decide}
use formae_plugin_kubernetes.Helm.Plan.Laws.{blocked-starts_install}

abbrev nothing : Values
nothing = record { size = 0; encoded = none }

abbrev chart : Chart
chart = record { name = "web"; version = "1.0.0"; dependencies = 0; loaded = 0 }

-- A release of another owner, whose upgrade began at second 100 and never ended.
abbrev stuck : Release
stuck = record {
  version = 4;
  info = some (record {
    status = pending_upgrade;
    first_deployed = 50 * second;
    last_deployed = 100 * second;
  });
  labels = ("owner", "helm") ∷ [];
  chart = some chart;
  config = nothing;
}

abbrev owned_stuck : Release
owned_stuck = record stuck { labels = ("formae.dev/managed", "true") ∷ [] }

abbrev healthy : Release
healthy = record owned_stuck {
  version = 6;
  info =
      some
        (record { status = deployed; first_deployed = 50 * second; last_deployed = 100 * second });
}

abbrev wanted : Wanted
wanted = record { chart = "oci://r/web"; version = "2.0.0"; values = nothing }

abbrev env : Env
env = record { now = 5000 * second; fingerprint = λ w. w.version }

blocked-starts_install_example :
    decide env (some stuck) false none wanted ≡ some (start op_install 4)
unfolding formae_owns release_is_pending stalled lookup
blocked-starts_install_example = blocked-starts_install env stuck false none wanted refl refl refl
