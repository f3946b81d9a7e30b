-- ===== src/Helm/Plan/Submit.antt =====
-- release.go: how `submit` acts on a plan, from the recovery of an abandoned lock to the operation
-- that the worker is started with.
use formae_plugin_kubernetes.Prelude.{ℕ, Bool, Option, none, some}
use formae_plugin_kubernetes.Helm.RequestId.{OpKind, op_install, op_upgrade}
use formae_plugin_kubernetes.Helm.Plan.{
  Action, upgrade, retry, recover, foreign, rejoin, settled, Env, Release, Wanted, plan_submit,
}

-- What the caller sees, or the Helm operation that is started at a revision.
pub data Verdict : Type 0 where
  check_readiness : ℕ → Verdict
  conflict : Verdict
  already_exists unexpected_rejoin stalled_lock : Verdict
  start : OpKind → ℕ → Verdict

-- `op := opInstall; if action == actionUpgrade { op = opUpgrade }`
unfoldable pub operation_for : Action → OpKind
operation_for upgrade = op_upgrade
operation_for _ = op_install

-- The `switch` on the action, and the operation that follows it.
unfoldable pub act : Action → ℕ → Verdict
unfolding operation_for
act rejoin target = unexpected_rejoin
act settled target = check_readiness target
act retry target = conflict
act foreign target = already_exists
act recover target = stalled_lock
act action target = start (operation_for action) target

-- What follows a first plan. `recovered` is what storage gives back once the abandoned lock is
-- cleared; none of it is an error that ends the call.
unfoldable pub follow : Env → Bool → Option Release → Wanted → Action × ℕ → Option Verdict
unfolding plan_submit act
follow env is_create none want (recover, target) = none
follow env is_create (some rel) want (recover, target) =
    let (again, revision) = plan_submit env (some rel) is_create none (some want) in
    some (act again revision)
follow env is_create recovered want (action, target) = some (act action target)

-- `submit` from the release that it found on; it has no flight of its own to plan with.
unfoldable pub decide : Env → Option Release → Bool → Option Release → Wanted → Option Verdict
unfolding plan_submit follow
decide env current is_create recovered want =
    follow env is_create recovered want (plan_submit env current is_create none (some want))
