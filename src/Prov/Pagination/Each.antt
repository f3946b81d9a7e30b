-- ===== src/Prov/Pagination/Each.antt =====
-- pagination.go: `EachPage`, whose callers keep what they gather from the pages in a variable of
-- their own, and how it compares with `ListAll`.
use formae_plugin_kubernetes.Prelude.{
  ℕ, zero, suc, String, ◌≡◌, ◌⊎◌, ◌∙◌, ap, sym, refl, inl, inr, Option, none, some, List, ◌++◌,
  str_eq, Bool-cases, if◌then◌else◌,
}
use formae_plugin_kubernetes.Prelude.Errors.{GoError}
use formae_plugin_kubernetes.Prov.Pagination.{Page, page, broken, list_all}

-- What a pager returns: the next token, or an error.
pub data Turn : Type 0 where
  next : String → Turn
  stopped : GoError → Turn

module _ {S : Type 0} (pager : String → S → S × Turn) where
  -- `none` when the fuel, the number of pages, runs out.
  unfoldable pub each_page : ℕ → String → S → Option (S × Option GoError)
  each_page zero token s = none
  each_page (suc fuel) token s =
      let (after, answer) = pager token s in
      elim answer [
        | stopped e ↦ some (after, some e)
        | next onward ↦
            let rest = each_page fuel onward after in
            if str_eq onward "" then some (after, none) else rest
      ]

-- The pager of a caller that appends what `gather` makes of each page.
abbrev pub gather_turn : {A B : Type 0} → (List A → List B) → List B → Page A → List B × Turn
gather_turn gather found (broken e) = (found, stopped e)
gather_turn gather found (page items onward) = (found ++ gather items, next onward)

abbrev pub gathering :
    {A B W : Type 0}
    → (String → W → W × Page A)
    → (List A → List B)
    → String
    → W × List B
    → (W × List B) × Turn
gathering list gather token s =
    let step = list token s.0 in
    let turn = gather_turn gather s.1 step.1 in ((step.0, turn.0), turn.1)

-- What a listing has gathered, in the terms of `ListAll`.
abbrev pub gathered :
    {A B W : Type 0}
    → (List A → List B)
    → Option (W × List A × Option GoError)
    → Option ((W × List B) × Option GoError)
gathered gather none = none
gathered gather (some (w, all, error)) = some ((w, gather all), error)

page_cases :
    {A : Type 0} (answer : Page A)
    → ((e : GoError) × (answer ≡ broken e))
      ⊎ ((items : List A) × (onward : String) × (answer ≡ page items onward))
page_cases (broken e) = inl (e, refl)
page_cases (page items onward) = inr (items, onward, refl)

turned :
    {A B W : Type 0} (list : String → W → W × Page A) (gather : List A → List B) (token : String)
    (before : List A) (w : W) {answer : Page A}
    → (list token w).1 ≡ answer
    → gathering list gather token (w, gather before) ≡ (
      ((list token w).0, (gather_turn gather (gather before) answer).0),
      (gather_turn gather (gather before) answer).1,
    )
turned list gather token before w h =
    ap
      (λ a. (
        ((list token w).0, (gather_turn gather (gather before) a).0),
        (gather_turn gather (gather before) a).1,
      ))
      h

-- For a `gather` that works item by item, the two loops agree, page by page: on the same fuel both
-- end or neither does, in the same world and with the same error, and what `EachPage` gathered is
-- what `gather` makes of the items of `ListAll`.
pub each_page-list_all :
    {A B W : Type 0} (list : String → W → W × Page A) (gather : List A → List B)
    (additive : (xs ys : List A) → gather (xs ++ ys) ≡ gather xs ++ gather ys) (fuel : ℕ)
    (token : String) (before : List A) (w : W)
    → each_page (gathering list gather) fuel token (w, gather before)
      ≡ gathered gather (list_all list fuel token before w)
unfolding each_page list_all
each_page-list_all list gather additive zero token before w = refl
each_page-list_all list gather additive (suc fuel) token before w =
    let step = list token w in
    elim (page_cases step.1) [
      | inl (e, h) ↦
          let t = turned list gather token before w h in
          rw (each_page, list_all, ap (λ p. p.1) t, ap (λ p. p.0) t, h) refl
      | inr (items, onward, h) ↦
          let t = turned list gather token before w h in
          elim (Bool-cases (str_eq onward "")) [
            | inl d ↦
                rw (each_page, list_all, ap (λ p. p.1) t, ap (λ p. p.0) t, h, d)
                  (ap (λ found. some ((step.0, found), none)) (sym (additive before items)))
            | inr d ↦
                rw (each_page, list_all, ap (λ p. p.1) t, ap (λ p. p.0) t, h, d)
                  (ap (λ found. each_page (gathering list gather) fuel onward (step.0, found))
                      (sym (additive before items))
                    ∙ each_page-list_all list gather additive fuel onward (before ++ items) step.0)
          ]
    ]
