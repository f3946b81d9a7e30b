-- ===== src/Kinds/Namespace/Finalizers.antt =====
-- core/namespace.go: when a status clears the finalizers of a namespace.
use formae_plugin_kubernetes.Prelude.{
  ℕ, ◌*◌, Bool, false, ◌||◌, Option, none, List, [], ◌∷◌, leb, str_eq, Option-cases, arith, String,
  ◌≡◌, ◌∙◌, refl, inl, inr, not, ◌&&◌, some, Bool-cases, ◌==◌, if◌then◌else◌,
}
use formae_plugin_kubernetes.Resource.{check_status}
use formae_plugin_kubernetes.Prov.Namespace.{Attempt, done, stopped, crashed}
use formae_plugin_kubernetes.Prov.Lifecycle.{Request}
use formae_plugin_kubernetes.Typed.{lift, go_on, Client, Codec, Live, cluster}
use formae_plugin_kubernetes.Typed.Handlers.{parse_in, answer_about, properties_of, result_of}
use formae_plugin_kubernetes.Typed.Methods.{sought, found_or}
use formae_plugin_kubernetes.Kinds.Rollout.{Condition, any_condition}
use formae_plugin_kubernetes.Kinds.Namespace.{
  NamespaceState, namespace, is_stuck, namespace_step, namespace_told, force_remove_finalizers,
  content_failure, is_content_deletion_failed, terminating_long_enough,
}

-- Whether a condition says that the deletion of the content has failed.
abbrev pub tells_failure : List Condition → Bool
tells_failure [] = false
tells_failure (c ∷ cs) =
    (str_eq c.type "NamespaceDeletionContentFailure" && str_eq c.status "True") || tells_failure cs

-- Whether a deletion has been asked for two minutes ago or earlier.
abbrev pub is_overdue : Option ℕ → Bool
is_overdue none = false
is_overdue (some passed) = leb (120 * 1000000000) passed

-- A namespace that is terminating, with a content failure, for the grace period, with finalizers.
abbrev pub hangs : NamespaceState → Bool
hangs s =
    str_eq s.phase "Terminating"
    && (tells_failure s.conditions && (is_overdue s.terminating_for && not (s.finalizers == 0)))

any-tells_failure : (cs : List Condition) → any_condition content_failure cs ≡ tells_failure cs
unfolding any_condition
any-tells_failure [] = refl
any-tells_failure (c ∷ cs) = ground (arith, any-tells_failure cs)

is_stuck-hangs : (s : NamespaceState) → hangs s ≡ (is_stuck s && not (s.finalizers == 0))
unfolding is_stuck is_content_deletion_failed terminating_long_enough
is_stuck-hangs s = ground (arith, any-tells_failure s.conditions, Option-cases s.terminating_for)

module _ {W : Type 0} (codec : Codec) (client : Client W NamespaceState) where
  lift-world :
      {A B : Type 0} (f : A → Attempt B) (w : W) (a : Attempt A)
      → (go_on (λ x. lift (f x)) w a).0 ≡ w
  lift-world f w (done x) = refl
  lift-world f w (stopped e) = refl
  lift-world f w (crashed r) = refl

  properties_of-world :
      (live : Live NamespaceState) (w : W) → (properties_of codec client namespace live w).0 ≡ w
  unfolding properties_of
  properties_of-world live w = lift-world (λ text. namespace.finish codec live text) w _

  answer-world :
      (req : Request) (live : Live NamespaceState) (w : W)
      → (answer_about codec client namespace check_status req.request_id live w).0 ≡ w
  answer-world req live w =
      lift-world
        (λ text. done (result_of codec client namespace check_status req.request_id live text))
        (properties_of codec client namespace live w).0
        (properties_of codec client namespace live w).1
      ∙ properties_of-world live w

  -- The world that a status leaves behind the fetch.
  abbrev pub finalized_world : W → Attempt (Live NamespaceState) → W
  finalized_world w (done live) = if hangs live.state then (client.finalize live w).0 else w
  finalized_world w (stopped e) = w
  finalized_world w (crashed r) = w

  told-world :
      (req : Request) (live : Live NamespaceState) (w : W)
      → (namespace_told codec client req (some live) w).0 ≡ finalized_world w (done live)
  unfolding force_remove_finalizers
  told-world req live w = rw (is_stuck-hangs live.state) (elim (Bool-cases (is_stuck live.state)) [
    | inl e ↦ elim (Bool-cases (live.state.finalizers == 0)) [
      | inl z ↦ rw (e, z) refl
      | inr z ↦ rw (e, z) refl
    ]
    | inr e ↦ rw e (answer-world req live w)
  ])

  found-world :
      (req : Request) (text : String) (w : W) (a : Attempt (Live NamespaceState))
      → (go_on (namespace_told codec client req) w (found_or codec client namespace text a)).0
        ≡ finalized_world w a
  found-world req text w (done live) = told-world req live w
  found-world req text w (stopped e) = elim (Bool-cases (codec.is_not_found e)) [
    | inl h ↦ rw h refl
    | inr h ↦ rw h refl
  ]
  found-world req text w (crashed r) = refl

  -- For a request whose identifier names a namespace: what a status does behind its fetch is to
  -- clear finalizers once, exactly when the namespace was found in the phase Terminating, with a
  -- condition NamespaceDeletionContentFailure that is True, with its deletion asked for two minutes
  -- ago or earlier, and with finalizers to clear; else it does nothing.
  pub namespace-finalizes :
      (req : Request) (w : W) (ns name : String)
      → parse_in codec client namespace cluster req.native_id ≡ done (ns, name)
      → let found = client.fetch ns name w in
        (namespace_step codec client req w).0 ≡ finalized_world found.0 found.1
  unfolding namespace_step sought
  namespace-finalizes req w ns name e =
      rw e (found-world req _ (client.fetch ns name w).0 (client.fetch ns name w).1)
