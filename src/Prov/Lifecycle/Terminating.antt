-- ===== src/Prov/Lifecycle/Terminating.antt =====
-- lifecycle.go: an object that is being deleted is never shown as alive, and a delete is a success
-- only when the object is gone.
use formae_plugin_kubernetes.Prelude.{
  ◌≡◌, refl, inl, inr, Bool, true, false, not, ◌&&◌, ◌||◌, Option, none, some, Option-cases, arith,
}
use formae_plugin_kubernetes.Resource.{ProgressResult, is_success, Wrapped, Operation, delete}
use formae_plugin_kubernetes.Prov.Lifecycle.{
  Request, ReadResult, Outcome, panicked, returned, Provisioner, Host, guarded,
  clear_status_message_unless_failure, is_terminating,
}
use formae_plugin_kubernetes.Prov.Lifecycle.Wrap.{
  wrap, wrap_delete, after_delete, verify_gone, after_read_back, read_back, is_not_found,
}

abbrev pub reports_success : Option ProgressResult → Bool
reports_success none = false
reports_success (some p) = is_success p.status

-- Whether a call answers with a success.
abbrev pub succeeds : Outcome Wrapped → Bool
succeeds (returned (some w) error) = reports_success w.progress_result
succeeds _ = false

-- Whether the read behind a delete is taken for the object being gone: it returned without an error,
-- and has no result, the code for not found, or properties, empty ones included, that do not show a
-- deletion under way.
abbrev pub is_gone : Host → Outcome ReadResult → Bool
is_gone h (panicked r) = false
is_gone h (returned result (some e)) = false
is_gone h (returned none none) = true
is_gone h (returned (some result) none) =
    is_not_found result.error_code || not (is_terminating h result.properties)

-- Whether the inner delete claims success and has no error beside it.
abbrev pub is_claimed : Outcome Wrapped → Bool
is_claimed (returned (some w) none) = reports_success w.progress_result
is_claimed _ = false

succeeds-guarded :
    (h : Host) (op : Operation) (o : Outcome Wrapped) → succeeds (guarded h op o) ≡ succeeds o
unfolding guarded clear_status_message_unless_failure
succeeds-guarded h op (panicked r) = refl
succeeds-guarded h op (returned none error) = refl
succeeds-guarded h op (returned (some w) error) = ground (arith, Option-cases w.progress_result)

succeeds-after_read_back :
    {W L : Type 0} (h : Host) (inner : Provisioner W L) (req : Request) (p : ProgressResult)
    (result : Wrapped) (o : Outcome ReadResult)
    → result.progress_result ≡ some p
    → succeeds (after_read_back h inner req p result o) ≡ (is_success p.status && is_gone h o)
unfolding after_read_back
succeeds-after_read_back h inner req p result (panicked r) e1 = ground arith
succeeds-after_read_back h inner req p result (returned answer (some e)) e1 = ground arith
succeeds-after_read_back h inner req p result (returned none none) e1 = ground arith
succeeds-after_read_back h inner req p result (returned (some answer) none) e1 = ground arith

succeeds-after_delete :
    {W L : Type 0} (h : Host) (inner : Provisioner W L) (req : Request) (o : Outcome Wrapped)
    (w : W)
    → ((p : ProgressResult) → h.finished_successfully p ≡ is_success p.status)
    → succeeds (after_delete h inner (some req) o w).1
      ≡ (is_claimed o && is_gone h (inner.on_read (some (read_back req)) w).1)
unfolding after_delete verify_gone
succeeds-after_delete h inner req (panicked r) w finished = refl
succeeds-after_delete h inner req (returned result (some e)) w finished = ground arith
succeeds-after_delete h inner req (returned none none) w finished = refl
succeeds-after_delete h inner req (returned (some result) none) w finished =
    elim (Option-cases result.progress_result) [
      | inl e ↦ ground arith
      | inr (p, e) ↦ ground (
        arith,
        finished p,
        succeeds-after_read_back h inner req p result (inner.on_read (some (read_back req)) w).1,
      )
    ]

-- Where the host's `FinishedSuccessfully` tests for the status success: a delete answers with a
-- success exactly when the inner delete claims one without an error, and the read made after it, in
-- the world that the delete left, returns without an error or a panic and either has no result, has
-- the error code for not found, or has properties that show no deletion under way. Empty properties
-- show none, whatever other error code stands beside them.
pub delete-confirmed :
    {W L : Type 0} (h : Host) (inner : Provisioner W L) (req : Request) (w : W)
    → ((p : ProgressResult) → h.finished_successfully p ≡ is_success p.status)
    → let deleted = inner.on_delete (some req) w in
      succeeds ((wrap h inner).on_delete (some req) w).1
      ≡ (is_claimed deleted.1 && is_gone h (inner.on_read (some (read_back req)) deleted.0).1)
unfolding wrap wrap_delete
delete-confirmed h inner req w finished = rw (
  succeeds-guarded h delete _,
  succeeds-after_delete h inner req (inner.on_delete (some req) w).1
      (inner.on_delete (some req) w).0 finished,
)
