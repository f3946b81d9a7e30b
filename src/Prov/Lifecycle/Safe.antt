-- ===== src/Prov/Lifecycle/Safe.antt =====
-- lifecycle.go: nothing escapes the decorator but a result, and a success carries no message.
use formae_plugin_kubernetes.Prelude.{
  ◌≡◌, refl, inl, inr, Bool, true, false, not, ◌||◌, Option, none, some, str_eq, Option-cases,
  Bool-cases, arith,
}
use formae_plugin_kubernetes.Resource.{
  ProgressResult, is_success, Wrapped, Operation, create, update, delete, check_status,
}
use formae_plugin_kubernetes.Prov.Lifecycle.{
  Request, ReadResult, Outcome, panicked, returned, Provisioner, Host, guarded,
  clear_status_message_unless_failure,
}
use formae_plugin_kubernetes.Prov.Lifecycle.Wrap.{
  wrap, wrap_create, wrap_read, wrap_update, wrap_delete, wrap_status, wrap_list, after_list,
  after_read, after_delete, after_status,
}

abbrev pub has_returned : {A : Type 0} → Outcome A → Bool
has_returned (panicked r) = false
has_returned (returned result error) = true

-- The progress result that a call answers with, if any.
abbrev pub progress_of : Outcome Wrapped → Option ProgressResult
progress_of (returned (some w) error) = w.progress_result
progress_of _ = none

-- A test on that result; a call without one passes.
abbrev pub each_progress : (ProgressResult → Bool) → Outcome Wrapped → Bool
each_progress test o = elim (progress_of o) [ none ↦ true | some p ↦ test p ]

-- A message on a success.
abbrev pub is_quiet : ProgressResult → Bool
is_quiet p = not (is_success p.status) || str_eq p.status_message ""

pub guarded-returns :
    (h : Host) (op : Operation) (o : Outcome Wrapped) → has_returned (guarded h op o) ≡ true
unfolding guarded
guarded-returns h op (panicked r) = refl
guarded-returns h op (returned result error) = refl

pub clear-is_quiet : (p : ProgressResult) → is_quiet (clear_status_message_unless_failure p) ≡ true
unfolding clear_status_message_unless_failure
clear-is_quiet p = elim (Bool-cases (is_success p.status)) [
  | inl e ↦ rw e (ground arith)
  | inr e ↦ rw e (ground arith)
]

pub guarded-is_quiet :
    (h : Host) (op : Operation) (o : Outcome Wrapped)
    → each_progress is_quiet (guarded h op o) ≡ true
unfolding guarded clear_status_message_unless_failure
guarded-is_quiet h op (panicked r) = refl
guarded-is_quiet h op (returned none error) = refl
guarded-is_quiet h op (returned (some w) error) = elim (Option-cases w.progress_result) [
  | inl e ↦ rw e refl
  | inr (p, e) ↦ rw e (clear-is_quiet p)
]

after_read-returns :
    {W L : Type 0} (h : Host) (inner : Provisioner W L) (req : Option Request)
    (o : Outcome ReadResult)
    → has_returned (after_read h inner req o) ≡ true
unfolding after_read
after_read-returns h inner req (panicked r) = refl
after_read-returns h inner req (returned result (some e)) = ground arith
after_read-returns h inner req (returned none none) = refl
after_read-returns h inner req (returned (some result) none) = ground arith

after_list-returns :
    {W L : Type 0} (h : Host) (inner : Provisioner W L) (o : Outcome L)
    → has_returned (after_list h inner o) ≡ true
unfolding after_list
after_list-returns h inner (panicked r) = refl
after_list-returns h inner (returned result error) = refl

-- What a delete comes to before its defers.
abbrev deleted : {W L : Type 0} → Host → Provisioner W L → Option Request → W → Outcome Wrapped
deleted h inner req w =
    let step = inner.on_delete req w in (after_delete h inner req step.1 step.0).1

-- Whatever the inner provisioner does, panics included, and whatever the request, a nil one
-- included, each of the six methods returns.
pub wrap-returns :
    {W L : Type 0} (h : Host) (inner : Provisioner W L) (req : Option Request) (w : W)
    → (has_returned ((wrap h inner).on_create req w).1 ≡ true)
      × (has_returned ((wrap h inner).on_read req w).1 ≡ true)
      × (has_returned ((wrap h inner).on_update req w).1 ≡ true)
      × (has_returned ((wrap h inner).on_delete req w).1 ≡ true)
      × (has_returned ((wrap h inner).on_status req w).1 ≡ true)
      × (has_returned ((wrap h inner).on_list req w).1 ≡ true)
unfolding wrap wrap_create wrap_read wrap_update wrap_delete wrap_status wrap_list
wrap-returns h inner req w = (
  guarded-returns h create (inner.on_create req w).1,
  after_read-returns h inner req (inner.on_read req w).1,
  guarded-returns h update (inner.on_update req w).1,
  guarded-returns h delete (deleted h inner req w),
  guarded-returns h check_status (after_status h inner req (inner.on_status req w).1),
  after_list-returns h inner (inner.on_list req w).1,
)

-- Where a create, an update, a delete or a status answers with a success, its message is empty.
pub wrap-is_quiet :
    {W L : Type 0} (h : Host) (inner : Provisioner W L) (req : Option Request) (w : W)
    → (each_progress is_quiet ((wrap h inner).on_create req w).1 ≡ true)
      × (each_progress is_quiet ((wrap h inner).on_update req w).1 ≡ true)
      × (each_progress is_quiet ((wrap h inner).on_delete req w).1 ≡ true)
      × (each_progress is_quiet ((wrap h inner).on_status req w).1 ≡ true)
unfolding wrap wrap_create wrap_update wrap_delete wrap_status
wrap-is_quiet h inner req w = (
  guarded-is_quiet h create (inner.on_create req w).1,
  guarded-is_quiet h update (inner.on_update req w).1,
  guarded-is_quiet h delete (deleted h inner req w),
  guarded-is_quiet h check_status (after_status h inner req (inner.on_status req w).1),
)
