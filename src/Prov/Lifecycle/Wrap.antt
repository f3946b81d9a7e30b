-- ===== src/Prov/Lifecycle/Wrap.antt =====
-- lifecycle.go: the methods of `LifecycleAware`.
use formae_plugin_kubernetes.Prelude.{
  String, Bool, true, false, not, ◌||◌, Option, none, some, [], str_eq, if◌then◌else◌,
}
use formae_plugin_kubernetes.Prelude.Errors.{error_is, canceled, deadline_exceeded}
use formae_plugin_kubernetes.Resource.{
  create, read, update, delete, check_status, list, failure, in_progress, ErrorCode,
  unforeseen_error, not_found, ProgressResult, progress, Wrapped,
}
use formae_plugin_kubernetes.Prov.ReadErrors.{classify_read_error}
use formae_plugin_kubernetes.Prov.Lifecycle.{
  Request, ReadResult, Outcome, panicked, returned, Method, Provisioner, Host, recover_panic,
  guarded, is_terminating, strip_deletion_timestamp,
}

abbrev pub is_not_found : Option ErrorCode → Bool
is_not_found (some not_found) = true
is_not_found _ = false

-- The request of the read that follows a delete.
abbrev pub read_back : Request → Request
read_back req = record req {
  request_id = "";
  properties = "";
  desired_properties = "";
  additional_properties = [];
}

-- `rt` of `Read`: empty for a nil request.
abbrev pub type_of_request : Option Request → String
type_of_request none = ""
type_of_request (some req) = req.resource_type

abbrev pub id_of_request : Option Request → String
id_of_request none = ""
id_of_request (some req) = req.request_id

module _ {W L : Type 0} (h : Host) (inner : Provisioner W L) where
  unfoldable pub wrap_create : Method W Wrapped
  unfolding guarded
  wrap_create req w = let step = inner.on_create req w in (step.0, guarded h create step.1)

  unfoldable pub wrap_update : Method W Wrapped
  unfolding guarded
  wrap_update req w = let step = inner.on_update req w in (step.0, guarded h update step.1)

  abbrev pub read_failure : Option Request → ErrorCode → ReadResult
  read_failure req code = record {
    resource_type = type_of_request req;
    error_code = some code;
    properties = "";
  }

  -- A result without an error code: the object is dying, or its properties are cleaned.
  abbrev pub read_object : ReadResult → ReadResult
  read_object result =
      if is_terminating h result.properties
      then record {
        resource_type = result.resource_type;
        error_code = some not_found;
        properties = "";
      }
      else record result { properties = strip_deletion_timestamp h result.properties }

  -- `Read` behind the inner read, with the recovering defer.
  unfoldable pub after_read : Option Request → Outcome ReadResult → Outcome ReadResult
  unfolding recover_panic is_terminating strip_deletion_timestamp classify_read_error
  after_read req (panicked r) =
      returned (some (read_failure req unforeseen_error)) (some (recover_panic h read r))
  after_read req (returned result (some e)) = elim (classify_read_error (some e)) [
    | some code ↦ returned (some (read_failure req code)) none
    | none ↦ returned none (some e)
  ]
  after_read req (returned none none) = returned none none
  after_read req (returned (some result) none) = elim result.error_code [
    | some code ↦ returned (some result) none
    | none ↦ returned (some (read_object result)) none
  ]

  unfoldable pub wrap_read : Method W ReadResult
  unfolding after_read
  wrap_read req w = let step = inner.on_read req w in (step.0, after_read req step.1)

  -- The in-progress result of a delete whose object is still there, or may be.
  abbrev pub still_deleting : Request → ProgressResult → Outcome Wrapped
  still_deleting req done =
      returned
        (some record {
          progress_result = some (record (progress in_progress) {
            operation = some delete;
            native_id = req.native_id;
            request_id = done.request_id;
          });
        })
        none

  -- `Delete` behind the read that checks whether the object is gone. `done` is the progress result
  -- of the inner delete, `result` what the inner delete returned.
  unfoldable pub after_read_back :
      Request → ProgressResult → Wrapped → Outcome ReadResult → Outcome Wrapped
  unfolding is_terminating error_is
  after_read_back req done result (panicked r) = panicked r
  after_read_back req done result (returned answer (some e)) =
      if error_is e canceled || error_is e deadline_exceeded
      then returned none (some e)
      else still_deleting req done
  after_read_back req done result (returned none none) = returned (some result) none
  after_read_back req done result (returned (some answer) none) =
      if is_not_found answer.error_code
      then returned (some result) none
      else if not (is_terminating h answer.properties)
      then returned (some result) none
      else still_deleting req done

  -- The body of `Delete` behind a successful inner delete: a nil request panics here.
  unfoldable pub verify_gone : Option Request → ProgressResult → Wrapped → W → W × Outcome Wrapped
  unfolding after_read_back
  verify_gone none done result w = (w, panicked h.nil_dereference)
  verify_gone (some req) done result w =
      let step = inner.on_read (some (read_back req)) w in
      (step.0, after_read_back req done result step.1)

  -- The body of `Delete` behind the inner delete.
  abbrev pub after_result :
      Option Request → Wrapped → Option ProgressResult → W → W × Outcome Wrapped
  after_result req result none w = (w, returned (some result) none)
  after_result req result (some done) w =
      if not (h.finished_successfully done)
      then (w, returned (some result) none)
      else verify_gone req done result w

  unfoldable pub after_delete : Option Request → Outcome Wrapped → W → W × Outcome Wrapped
  unfolding verify_gone
  after_delete req (panicked r) w = (w, panicked r)
  after_delete req (returned result (some e)) w = (w, returned none (some e))
  after_delete req (returned none none) w = (w, returned none none)
  after_delete req (returned (some result) none) w =
      after_result req result result.progress_result w

  unfoldable pub wrap_delete : Method W Wrapped
  unfolding after_delete guarded
  wrap_delete req w =
      let step = inner.on_delete req w in
      let checked = after_delete req step.1 step.0 in (checked.0, guarded h delete checked.1)

  -- `Status` for a progress result without an error code.
  abbrev pub status_object : Option Request → ProgressResult → ProgressResult
  status_object req p =
      if is_terminating h p.properties
      then record (progress failure) {
        operation = some check_status;
        error_code = some not_found;
        native_id = p.native_id;
        request_id = id_of_request req;
      }
      else if str_eq p.properties ""
      then p
      else record p { properties = strip_deletion_timestamp h p.properties }

  abbrev pub status_result : Option Request → ProgressResult → ProgressResult
  status_result req p = elim p.error_code [ some code ↦ p | none ↦ status_object req p ]

  -- The body of `Status` behind the inner status.
  unfoldable pub after_status : Option Request → Outcome Wrapped → Outcome Wrapped
  unfolding is_terminating strip_deletion_timestamp
  after_status req (panicked r) = panicked r
  after_status req (returned result (some e)) = returned none (some e)
  after_status req (returned none none) = returned none none
  after_status req (returned (some result) none) = elim result.progress_result [
    | none ↦ returned (some result) none
    | some p ↦ returned (some (record { progress_result = some (status_result req p) })) none
  ]

  unfoldable pub wrap_status : Method W Wrapped
  unfolding after_status guarded
  wrap_status req w =
      let step = inner.on_status req w in (step.0, guarded h check_status (after_status req step.1))

  unfoldable pub after_list : Outcome L → Outcome L
  unfolding recover_panic
  after_list (panicked r) = returned none (some (recover_panic h list r))
  after_list (returned result error) = returned result error

  unfoldable pub wrap_list : Method W L
  unfolding after_list
  wrap_list req w = let step = inner.on_list req w in (step.0, after_list step.1)

  -- `Wrap`
  unfoldable pub wrap : Provisioner W L
  unfolding wrap_create wrap_read wrap_update wrap_delete wrap_status wrap_list
  wrap = record {
    on_create = wrap_create;
    on_read = wrap_read;
    on_update = wrap_update;
    on_delete = wrap_delete;
    on_status = wrap_status;
    on_list = wrap_list;
  }
