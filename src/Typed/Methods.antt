-- ===== src/Typed/Methods.antt =====
-- The methods Create, Read, Update, Delete, Status and List of a typed kind. A nil request panics
-- where it is first read.
use formae_plugin_kubernetes.Prelude.{
  String, ◌<>◌, Bool, Option, none, some, List, [], ◌∷◌, if◌then◌else◌,
}
use formae_plugin_kubernetes.Prelude.Errors.{GoError, wrap}
use formae_plugin_kubernetes.Resource.{
  create, update, delete, check_status, success, failure, not_found, progress, Wrapped,
}
use formae_plugin_kubernetes.Prov.Namespace.{
  Attempt, done, stopped, crashed, resolve_list_namespace,
}
use formae_plugin_kubernetes.Prov.Lifecycle.{Request, ReadResult, Outcome, panicked, Provisioner}
use formae_plugin_kubernetes.Prov.Pagination.Each.{each_page, gathering}
use formae_plugin_kubernetes.Typed.{
  Step, lift, ◌>>=◌, ApplyConfig, Live, Client, Codec, Scope, namespaced, cluster, Kind,
}
use formae_plugin_kubernetes.Typed.Handlers.{
  run, parse_id, id_in, properties_of, reconciled, read_payload, answer_about, apply_then,
}

abbrev pub gone : String → ReadResult
gone resource_type = record {
  resource_type = resource_type;
  error_code = some not_found;
  properties = "";
}

abbrev pub deleted : Wrapped
deleted = record { progress_result = some (record (progress success) { operation = some delete }) }

abbrev pub absent : Wrapped
absent = record {
  progress_result =
      some
        (record (progress failure) { operation = some check_status; error_code = some not_found });
}

-- The identifiers that a page adds to a list, but for the objects that the kind passes over.
unfoldable pub names_of : {S : Type 0} → Scope → (Live S → Bool) → List (Live S) → List String
unfolding id_in
names_of scope lists [] = []
names_of scope lists (live ∷ rest) =
    let names = names_of scope lists rest in if lists live then id_in scope live ∷ names else names

module _ {W S : Type 0} (codec : Codec) (client : Client W S) (kind : Kind S) where
  abbrev pub needed : {A : Type 0} → (Request → Step W A) → Option Request → W → W × Outcome A
  needed f none w = (w, panicked codec.nil_dereference)
  needed f (some req) w = run (f req) w

  unfoldable pub create_step : Request → Step W Wrapped
  unfolding read_payload properties_of
  create_step req = do
    payload ← read_payload codec client kind kind.gates_create req.properties
    apply_then codec client kind
        (λ config ns live. answer_about codec client kind create live.resource_version live) payload

  -- What an update does to the object that it applied.
  abbrev pub reconcile_then : Option ApplyConfig → String → Live S → Step W Wrapped
  reconcile_then config ns live = do
    sent ← reconciled codec client kind config ns live
    answer_about codec client kind update live.resource_version live

  unfoldable pub update_step : Request → Step W Wrapped
  unfolding read_payload reconciled properties_of
  update_step req = do
    payload ← read_payload codec client kind kind.gates_update req.desired_properties
    apply_then codec client kind reconcile_then payload

  -- A fetch that takes the server's NotFound as an answer, none.
  abbrev pub found_or : String → Attempt (Live S) → Attempt (Option (Live S))
  found_or text (done live) = done (some live)
  found_or text (stopped e) = if codec.is_not_found e then done none else stopped (wrap text e)
  found_or text (crashed r) = crashed r

  unfoldable pub sought : String → String → String → Step W (Option (Live S))
  sought text ns name w = let step = client.fetch ns name w in (step.0, found_or text step.1)

  abbrev pub shown : Request → Option (Live S) → Step W ReadResult
  shown req none = lift (done (gone req.resource_type))
  shown req (some live) =
      if kind.is_lost live.state then lift (done (gone req.resource_type)) else do
        text ← properties_of codec client kind live
        lift (
            done record { resource_type = req.resource_type; error_code = none; properties = text })

  unfoldable pub read_step : Request → Step W ReadResult
  unfolding sought properties_of
  read_step req = do
    (ns, name) ← parse_id codec client kind req
    live ← sought ("failed to get " <> (kind.noun <> ": ")) ns name
    shown req live

  abbrev pub deleted_or : String → Attempt (Unit {0}) → Attempt Wrapped
  deleted_or text (done tt) = done deleted
  deleted_or text (stopped e) = if codec.is_not_found e then done deleted else stopped (wrap text e)
  deleted_or text (crashed r) = crashed r

  unfoldable pub delete_step : Request → Step W Wrapped
  delete_step req = do
    (ns, name) ← parse_id codec client kind req
    λ w.
        let step = client.delete ns name kind.propagation w in
        (step.0, deleted_or ("failed to delete " <> (kind.noun <> ": ")) step.1)

  abbrev pub told : Request → Option (Live S) → Step W Wrapped
  told req none = lift (done absent)
  told req (some live) = answer_about codec client kind check_status req.request_id live

  unfoldable pub status_step : Request → Step W Wrapped
  unfolding sought properties_of
  status_step req = do
    (ns, name) ← parse_id codec client kind req
    live ← sought ("failed to get " <> (kind.noun <> " status: ")) ns name
    told req live

  abbrev pub list_namespace : Scope → Request → Attempt String
  unfolding resolve_list_namespace
  list_namespace namespaced req =
      resolve_list_namespace req.additional_properties kind.resource_type
  list_namespace cluster req = done ""

  -- None where the fuel of the loop over the pages runs out.
  abbrev pub listed :
      Option ((W × List String) × Option GoError) → W → W × Attempt (Option (List String))
  listed none w = (w, done none)
  listed (some ((after, names), none)) w = (after, done (some names))
  listed (some ((after, names), some e)) w =
      (after, stopped (wrap ("failed to list " <> (kind.plural <> ": ")) e))

  unfoldable pub list_step : Request → Step W (Option (List String))
  unfolding each_page names_of
  list_step req = do
    ns ← lift (list_namespace kind.scope req)
    λ w.
        listed
          (each_page (gathering (client.page ns) (names_of kind.scope kind.lists)) codec.pages ""
            (w, []))
          w

  unfoldable pub provisioner : Provisioner W (Option (List String))
  unfolding create_step read_step update_step delete_step status_step list_step
  provisioner = record {
    on_create = needed create_step;
    on_read = needed read_step;
    on_update = needed update_step;
    on_delete = needed delete_step;
    on_status = needed status_step;
    on_list = needed list_step;
  }
