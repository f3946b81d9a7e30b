-- ===== src/Typed/Deleting.antt =====
-- The delete of a typed kind behind the decorator: what the API server must have answered for it to
-- be a success.
use formae_plugin_kubernetes.Prelude.{
  String, ◌≡◌, ◌∙◌, ap, refl, Bool, false, true, not, ◌&&◌, ◌||◌, none, some, arith, Bool-cases,
  inl, inr,
}
use formae_plugin_kubernetes.Resource.{ProgressResult, is_success}
use formae_plugin_kubernetes.Prov.Namespace.{Attempt, done, stopped, crashed}
use formae_plugin_kubernetes.Prov.Lifecycle.{Request, Host, is_terminating}
use formae_plugin_kubernetes.Prov.Lifecycle.Wrap.{wrap, read_back}
use formae_plugin_kubernetes.Prov.Lifecycle.Terminating.{
  succeeds, is_claimed, is_gone, delete-confirmed,
}
use formae_plugin_kubernetes.Typed.{lift, go_on, Live, Client, Codec, Kind}
use formae_plugin_kubernetes.Typed.Handlers.{parse_in, properties_of, outcome}
use formae_plugin_kubernetes.Typed.Methods.{
  provisioner, delete_step, deleted_or, read_step, sought, found_or, shown,
}

module _ {W S : Type 0} (codec : Codec) (client : Client W S) (kind : Kind S) where
  -- Whether the API server took a delete, or had no such object.
  abbrev pub is_taken : Attempt (Unit {0}) → Bool
  is_taken (done tt) = true
  is_taken (stopped e) = codec.is_not_found e
  is_taken (crashed r) = false

  -- Whether a fetch counts as showing that an object is gone.
  abbrev pub shows_alive : Host → Attempt String → Bool
  shows_alive host (done text) = not (is_terminating host text)
  shows_alive host _ = false

  abbrev pub is_away : Host → W → Attempt (Live S) → Bool
  is_away host w (done live) =
      kind.is_lost live.state || shows_alive host (properties_of codec client kind live w).1
  is_away host w (stopped e) = codec.is_not_found e
  is_away host w (crashed r) = false

  claimed-deleted_or :
      (text : String) (a : Attempt (Unit {0}))
      → is_claimed (outcome (deleted_or codec client kind text a)) ≡ is_taken a
  claimed-deleted_or text (done tt) = refl
  claimed-deleted_or text (stopped e) = ground arith
  claimed-deleted_or text (crashed r) = refl

  gone-answer :
      (host : Host) (resource_type : String) (v : W) (a : Attempt String)
      → is_gone host (
          outcome
            (go_on
              (λ text. lift (
                done
                  record { resource_type = resource_type; error_code = none; properties = text }))
              v
              a).1)
        ≡ shows_alive host a
  gone-answer host resource_type v (done text) = refl
  gone-answer host resource_type v (stopped e) = refl
  gone-answer host resource_type v (crashed r) = refl

  gone-shown :
      (host : Host) (req : Request) (live : Live S) (v : W)
      → is_gone host (outcome (shown codec client kind req (some live) v).1)
        ≡ is_away host v (done live)
  gone-shown host req live v = elim (Bool-cases (kind.is_lost live.state)) [
    | inl e ↦ rw e refl
    | inr e ↦ rw e (
        gone-answer host req.resource_type (properties_of codec client kind live v).0
          (properties_of codec client kind live v).1)
  ]

  gone-found_or :
      (host : Host) (req : Request) (text : String) (v : W) (a : Attempt (Live S))
      → is_gone host
          (outcome (go_on (shown codec client kind req) v (found_or codec client kind text a)).1)
        ≡ is_away host v a
  gone-found_or host req text v (done live) = gone-shown host req live v
  gone-found_or host req text v (stopped e) = elim (Bool-cases (codec.is_not_found e)) [
    | inl h ↦ rw h refl
    | inr h ↦ rw h refl
  ]
  gone-found_or host req text v (crashed r) = refl

  module _ (req : Request) (ns name : String) where
    claimed-delete :
        (w : W)
        → parse_in codec client kind kind.scope req.native_id ≡ done (ns, name)
        → let step = client.delete ns name kind.propagation w in
          (((provisioner codec client kind).on_delete (some req) w).0 ≡ step.0)
          × (is_claimed ((provisioner codec client kind).on_delete (some req) w).1
              ≡ is_taken step.1)
    unfolding provisioner delete_step
    claimed-delete w e =
        rw e (refl, claimed-deleted_or _ (client.delete ns name kind.propagation w).1)

    gone-read :
        (host : Host) (w : W)
        → parse_in codec client kind kind.scope req.native_id ≡ done (ns, name)
        → let step = client.fetch ns name w in
          is_gone host ((provisioner codec client kind).on_read (some (read_back req)) w).1
          ≡ is_away host step.0 step.1
    unfolding provisioner read_step sought
    gone-read host w e =
        rw e (
          gone-found_or host (read_back req) _ (client.fetch ns name w).0
            (client.fetch ns name w).1)

    -- For a request whose identifier stands for a namespace and a name, where the host's
    -- `FinishedSuccessfully` tests for the status success: the delete of a typed kind behind the
    -- decorator is a success exactly when the API server took the delete or had no such object, and
    -- the fetch after it finds none, or one that the kind counts as lost, or one whose properties
    -- carry no deletion timestamp.
    pub delete-gone :
        (host : Host) (w : W)
        → parse_in codec client kind kind.scope req.native_id ≡ done (ns, name)
        → ((p : ProgressResult) → host.finished_successfully p ≡ is_success p.status)
        → let taken = client.delete ns name kind.propagation w in
          let found = client.fetch ns name taken.0 in
          succeeds ((wrap host (provisioner codec client kind)).on_delete (some req) w).1
          ≡ (is_taken taken.1 && is_away host found.0 found.1)
    delete-gone host w e finished =
        let claim = claimed-delete w e in
        delete-confirmed host (provisioner codec client kind) req w finished
        ∙ (ap
              (λ b.
                b
                && is_gone host
                    ((provisioner codec client kind).on_read (some (read_back req))
                      ((provisioner codec client kind).on_delete (some req) w).0).1)
              claim.1
            ∙ ap (λ b. is_taken (client.delete ns name kind.propagation w).1 && b)
                (ap
                    (λ v.
                      is_gone host
                        ((provisioner codec client kind).on_read (some (read_back req)) v).1)
                    claim.0
                  ∙ gone-read host (client.delete ns name kind.propagation w).0 e))
