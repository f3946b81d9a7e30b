-- ===== src/Kinds/Rollout/Reached.antt =====
-- apps/statefulset.go: which counts end the rollout of a StatefulSet with a partition.
use formae_plugin_kubernetes.Prelude.{ℕ, ◌+◌, ◌-◌, ◌<◌, ◌≡◌, false, ◌&&◌, some, leb, arith}
use formae_plugin_kubernetes.Prelude.Decimal.{pos}
use formae_plugin_kubernetes.Resource.{is_success}
use formae_plugin_kubernetes.Kinds.Rollout.{
  StatefulSetState, stateful_set_status, target_updated, minus, wrap32, observed_generation_ready,
}

-- Within int32 the count to reach is the difference, cut off at zero.
target_updated-floor :
    (d p : ℕ)
    → d < 0x80000000
    → p < 0x80000000
    → target_updated (pos d) (some (pos p)) ≡ pos (d - p)
unfolding target_updated minus wrap32
target_updated-floor d p hd hp = ground arith

-- For a StatefulSet that is not updated by hand, with a desired count and a partition that an int32
-- holds and with counts of ready and updated pods from zero on: its status is a success exactly when
-- the controller has observed the latest generation, the ready pods are as many as are desired, and
-- so are the updated ones together with those below the partition.
pub stateful_set-reached :
    (s : StatefulSetState) (d p ready updated : ℕ)
    → d < 0x80000000
    → p < 0x80000000
    → s.on_delete ≡ false
    → s.replicas ≡ some (pos d)
    → s.partition ≡ some (pos p)
    → s.ready_replicas ≡ pos ready
    → s.updated_replicas ≡ pos updated
    → is_success (stateful_set_status s) ≡ (
        observed_generation_ready s.generation s.observed_generation
        && (leb d ready && leb d (updated + p)))
unfolding stateful_set_status
stateful_set-reached s d p ready updated hd hp e1 e2 e3 e4 e5 =
    ground (arith, target_updated-floor d p hd hp)
