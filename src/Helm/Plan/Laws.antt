-- ===== src/Helm/Plan/Laws.antt =====
-- What a plan may do to a release, by whom it belongs to and what runs for it.
use formae_plugin_kubernetes.Prelude.{
  ℕ, ◌+◌, ◌≡◌, ◌⊎◌, Bool, true, false, Option, none, some, arith,
}
use formae_plugin_kubernetes.Helm.RequestId.{op_install, op_upgrade}
use formae_plugin_kubernetes.Helm.Flight.{Flight}
use formae_plugin_kubernetes.Helm.Plan.{
  retry, recover, blocked, foreign, Env, Release, Wanted, plan_submit, formae_owns,
  release_is_pending, stalled, abandoned, is_settled, rejoinable,
}
use formae_plugin_kubernetes.Helm.Plan.Submit.{start, decide}

-- `planSubmit` plans a recovery only where this plugin installed the release, the record is pending,
-- and this process runs nothing for it.
plan-recover :
    (env : Env) (rel : Release) (is_create : Bool) (flight : Option Flight) (want : Option Wanted)
    → (plan_submit env (some rel) is_create flight want).0 ≡ recover
    → (formae_owns rel ≡ true) × (release_is_pending rel ≡ true) × (flight ≡ none)
unfolding plan_submit abandoned
plan-recover env rel is_create none want h = ground arith
plan-recover env rel is_create (some f) want h = ground arith

-- A release that this plugin did not install is never taken over by a create: what comes of it is a
-- retryable conflict, a refusal, or, where its lock is stale, the stalled case.
pub plan-create_foreign :
    (env : Env) (rel : Release) (want : Wanted)
    → formae_owns rel ≡ false
    → let plan = plan_submit env (some rel) true none (some want) in
      ((plan.0 ≡ retry) ⊎ (plan.0 ≡ foreign) ⊎ (plan.0 ≡ blocked)) × (plan.1 ≡ rel.version)
unfolding plan_submit abandoned is_settled rejoinable
plan-create_foreign env rel want h = ground arith

-- A stalled lock on a release that this plugin did not install is not reported: `submit` goes on to
-- start an install over it, at the revision of the record that holds the lock.
pub blocked-starts_install :
    (env : Env) (rel : Release) (is_create : Bool) (recovered : Option Release) (want : Wanted)
    → formae_owns rel ≡ false
    → release_is_pending rel ≡ true
    → stalled env.now rel none ≡ true
    → decide env (some rel) is_create recovered want ≡ some (start op_install rel.version)
unfolding decide plan_submit abandoned rejoinable
blocked-starts_install env rel is_create recovered want h pending dead = ground arith

-- An upgrade that `submit` starts makes the revision after the one that it replaces: the current
-- one, or the one that recovery gave back.
decide-upgrade :
    (env : Env) (rel : Release) (is_create : Bool) (recovered : Release) (want : Wanted) (n : ℕ)
    → decide env (some rel) is_create (some recovered) want ≡ some (start op_upgrade n)
    → (n ≡ rel.version + 1) ⊎ (n ≡ recovered.version + 1)
unfolding decide plan_submit
decide-upgrade env rel is_create recovered want n h = ground arith
