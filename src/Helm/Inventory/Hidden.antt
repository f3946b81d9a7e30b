-- ===== src/Helm/Inventory/Hidden.antt =====
-- owners.go: an object is hidden only where its owners lead to an entry of the inventory's index.
use formae_plugin_kubernetes.Prelude.{
  ℕ, zero, suc, String, ◌≡◌, ◌⊎◌, inl, inr, refl, Bool, true, false, Option, none, some,
  Option-cases, Bool-cases, List, [], ◌∷◌, Map, lookup, insert, lookup-insert, All, str_eq, eq_iff,
  arith,
}
use formae_plugin_kubernetes.Helm.Inventory.{
  Inventory, no_objects, kind_from_resource_type, split_native_id, kind_namespace,
}
use formae_plugin_kubernetes.Helm.Inventory.Owners.{
  OwnerRef, OwnerLookup, max_owner_depth, node_key, remember, visited, answered, is_rendered,
  is_nameless, at_owner, walk_owners, reaches_release, is_reached, drop_reached,
  filter_controller_owned,
}

reached_some : (answer : Option Bool) → is_reached answer ≡ true → answer ≡ some true
reached_some none h = ground arith
reached_some (some b) h = ground arith

module _ (inv : Inventory) (refs : OwnerLookup) where
  -- A node whose first owner is in the index, under the namespace of the walk or under none, or leads
  -- to such a node.
  pub data Reaches : String → Type 0 where
    found :
        {key : String} (kind ns name : String) (r : OwnerRef) (rs : List OwnerRef)
        → key ≡ node_key kind ns name
        → refs kind ns name ≡ some (r ∷ rs)
        → is_rendered inv ns r ≡ true
        → Reaches key
    further :
        {key : String} (kind ns name : String) (r : OwnerRef) (rs : List OwnerRef)
        → key ≡ node_key kind ns name
        → refs kind ns name ≡ some (r ∷ rs)
        → Reaches (node_key r.kind ns r.name)
        → Reaches key

  -- A memo that is right where it says yes.
  abbrev IsSound : Map Bool → Type 0
  IsSound memo = (key : String) → lookup key memo ≡ some true → Reaches key

  empty-IsSound : IsSound []
  unfolding lookup
  empty-IsSound key h = ground arith

  insert-IsSound :
      (k : String) (result : Bool) (memo : Map Bool)
      → (result ≡ true → Reaches k)
      → IsSound memo
      → IsSound (insert k result memo)
  insert-IsSound k result memo claim sound key h = elim (Bool-cases (str_eq k key)) [
    | inl e ↦
        let same : k ≡ key = ground (arith, eq_iff k key) in
        rw (← same) (claim (ground (arith, lookup-insert k key result memo)))
    | inr e ↦ sound key (ground (arith, lookup-insert k key result memo))
  ]

  remember-IsSound :
      (chain : List String) (result : Bool) (memo : Map Bool)
      → All (λ k. result ≡ true → Reaches k) chain
      → IsSound memo
      → IsSound (remember chain result memo)
  unfolding remember
  remember-IsSound [] result memo claim sound = sound
  remember-IsSound (k ∷ chain) result memo claim sound =
      remember-IsSound chain result (insert k result memo) claim.1
        (insert-IsSound k result memo claim.0 sound)

  -- The keys of a chain lead to its end.
  abbrev Leads : String → List String → Type 0
  Leads key chain = Reaches key → All Reaches chain

  no_claims : (chain : List String) → All (λ k. false ≡ true → Reaches k) chain
  no_claims [] = tt
  no_claims (k ∷ chain) = (λ h. ground arith, no_claims chain)

  claims :
      (result : Bool) (chain : List String)
      → All Reaches chain
      → All (λ k. result ≡ true → Reaches k) chain
  claims result [] all = tt
  claims result (k ∷ chain) all = (λ h. all.0, claims result chain all.1)

  -- What a walk from a key may come to.
  abbrev IsRight : String → Map Bool × Option Bool → Type 0
  IsRight key walked = IsSound walked.0 × (walked.1 ≡ some true → Reaches key)

  says_no :
      (key : String) (chain : List String) (memo : Map Bool)
      → IsSound memo
      → IsRight key (answered chain false memo)
  says_no key chain memo sound =
      (remember-IsSound chain false memo (no_claims chain) sound, λ h. ground arith)

  says_yes :
      (key : String) (chain : List String) (memo : Map Bool)
      → IsSound memo
      → Reaches key
      → Leads key chain
      → IsRight key (answered chain true memo)
  says_yes key chain memo sound reaches leads =
      (remember-IsSound chain true memo (claims true chain (leads reaches)) sound, λ h. reaches)

  says :
      (answer : Bool) (key : String) (chain : List String) (memo : Map Bool)
      → IsSound memo
      → (answer ≡ true → Reaches key)
      → Leads key chain
      → IsRight key (answered chain answer memo)
  says true key chain memo sound reaches leads = says_yes key chain memo sound (reaches refl) leads
  says false key chain memo sound reaches leads = says_no key chain memo sound

  refs_cases :
      (kind ns name : String)
      → (refs kind ns name ≡ none)
        ⊎ ((refs kind ns name ≡ some [])
            ⊎ ((r : OwnerRef) × (rs : List OwnerRef) × (refs kind ns name ≡ some (r ∷ rs))))
  refs_cases kind ns name = elim (Option-cases (refs kind ns name)) [
    | inl e ↦ inl e
    | inr ([], e) ↦ inr (inl e)
    | inr (r ∷ rs, e) ↦ inr (inr (r, rs, e))
  ]

  -- The step from a node to its first owner.
  at_owner-IsRight :
      (kind ns name : String) (r : OwnerRef) (rs : List OwnerRef) (chain : List String)
      (memo : Map Bool) (onward : Map Bool × Option Bool)
      → refs kind ns name ≡ some (r ∷ rs)
      → IsSound memo
      → Leads (node_key kind ns name) chain
      → IsRight (node_key r.kind ns r.name) onward
      → IsRight
          (node_key kind ns name)
          (at_owner inv refs ns (node_key kind ns name ∷ chain) memo onward r)
  at_owner-IsRight kind ns name r rs chain memo onward e sound leads right =
      elim (Bool-cases (is_nameless r)) [
        | inl n ↦ rw n (says_no _ (node_key kind ns name ∷ chain) memo sound)
        | inr n ↦ elim (Bool-cases (is_rendered inv ns r)) [
          | inl o ↦
              rw (n, o)
                (says_yes (node_key kind ns name) (node_key kind ns name ∷ chain) memo sound
                  (found kind ns name r rs refl e o) (λ reaches. (reaches, leads reaches)))
          | inr o ↦ rw (n, o) (right.0, λ h. further kind ns name r rs refl e (right.1 h))
        ]
      ]

  walk-IsRight :
      (rounds : ℕ) (ns kind name : String) (chain : List String) (memo : Map Bool)
      → IsSound memo
      → Leads (node_key kind ns name) chain
      → IsRight (node_key kind ns name) (walk_owners inv refs ns rounds kind name chain memo)
  unfolding walk_owners
  walk-IsRight zero ns kind name chain memo sound leads = says_no _ chain memo sound
  walk-IsRight (suc rounds) ns kind name chain memo sound leads =
      let key = node_key kind ns name in
      elim (Option-cases (lookup key memo)) [
        | inr (answer, e) ↦
            rw (walk_owners, e)
              (says answer key chain memo sound (λ h. sound key (ground (arith, h))) leads)
        | inl e ↦ elim (Bool-cases (visited key chain)) [
          | inl v ↦ rw (walk_owners, e, v) (says_no key chain memo sound)
          | inr v ↦ elim (refs_cases kind ns name) [
            | inl f ↦ rw (walk_owners, e, v, f) (sound, λ h. ground arith)
            | inr (inl f) ↦ rw (walk_owners, e, v, f) (says_no key (key ∷ chain) memo sound)
            | inr (inr (r, rs, f)) ↦
                rw (walk_owners, e, v, f)
                  (at_owner-IsRight kind ns name r rs chain memo _ f sound leads (
                    walk-IsRight rounds ns r.kind r.name (key ∷ chain) memo sound (λ reaches.
                      let here = further kind ns name r rs refl f reaches in (here, leads here))))
          ]
        ]
      ]

  -- An identifier that a list keeps, or whose owners lead to an entry of the index.
  abbrev pub IsAccounted : String → List String → String → Type 0
  IsAccounted kind kept id =
      (visited id kept ≡ true)
      ⊎ ((ns : String) × (name : String) × (split_native_id id ≡ some (ns, name))
          × Reaches (node_key kind ns name))

  kept-head :
      (kind id x : String) (kept : List String)
      → IsAccounted kind kept id
      → IsAccounted kind (x ∷ kept) id
  unfolding visited
  kept-head kind id x kept (inl h) = inl (ground arith)
  kept-head kind id x kept (inr h) = inr h

  drop_reached-IsAccounted :
      (kind : String) (memo : Map Bool) (ids : List String) (id : String)
      → IsSound memo
      → visited id ids ≡ true
      → IsAccounted kind (drop_reached inv refs kind memo ids) id
  unfolding drop_reached reaches_release visited
  drop_reached-IsAccounted kind memo [] id sound h = ground arith
  drop_reached-IsAccounted kind memo (x ∷ ids) id sound h =
      elim (Option-cases (split_native_id x)) [
        | inl e ↦ elim (Bool-cases (str_eq x id)) [
          | inl same ↦ inl (rw (drop_reached, e, same) refl)
          | inr other ↦
              rw (drop_reached, e)
                (kept-head kind id x (drop_reached inv refs kind memo ids)
                  (drop_reached-IsAccounted kind memo ids id sound (ground arith)))
        ]
        | inr ((ns, name), e) ↦
            let walked = reaches_release inv refs memo kind ns name in
            let right = walk-IsRight max_owner_depth ns kind name [] memo sound (λ reaches. tt) in
            elim (Bool-cases (is_reached walked.1)) [
              | inl reached ↦ elim (Bool-cases (str_eq x id)) [
                | inl same ↦
                    let equal : x ≡ id = ground (arith, eq_iff x id) in
                    inr (ns, name, rw (← equal) e, right.1 (reached_some walked.1 reached))
                | inr other ↦
                    rw (drop_reached, e, reached)
                      (drop_reached-IsAccounted kind walked.0 ids id right.0 (ground arith))
              ]
              | inr kept ↦ elim (Bool-cases (str_eq x id)) [
                | inl same ↦ inl (rw (drop_reached, e, kept, visited, same) refl)
                | inr other ↦
                    rw (drop_reached, e, kept)
                      (kept-head kind id x (drop_reached inv refs kind walked.0 ids)
                        (drop_reached-IsAccounted kind walked.0 ids id right.0 (ground arith)))
              ]
            ]
      ]

  -- Whatever owner references the cluster answers: an identifier of a list is kept, or it splits into
  -- a namespace and a name whose owners, each first one followed, lead to an entry of the
  -- index, in that namespace or in none, also where lookups fail, where owners form a cycle, and with
  -- the memo that the identifiers share.
  pub controller-hides_owned :
      (resource_type : String) (ids : List String) (id : String)
      → visited id ids ≡ true
      → IsAccounted
          (kind_from_resource_type resource_type)
          (filter_controller_owned inv refs resource_type ids)
          id
  unfolding filter_controller_owned
  controller-hides_owned resource_type ids id h =
      let kind = kind_from_resource_type resource_type in
      elim (Bool-cases (no_objects inv)) [
        | inl a ↦ inl (rw a h)
        | inr a ↦ elim (Bool-cases (str_eq kind "")) [
          | inl b ↦ inl (rw (a, b) h)
          | inr b ↦ elim (Bool-cases (str_eq kind kind_namespace)) [
            | inl c ↦ inl (rw (a, b, c) h)
            | inr c ↦ rw (a, b, c) (drop_reached-IsAccounted kind [] ids id empty-IsSound h)
          ]
        ]
      ]
