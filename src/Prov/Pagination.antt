-- ===== src/Prov/Pagination.antt =====
-- pkg/resources/prov/pagination.go: the loops over the pages of a list. `list` is the typed client's
-- call, from a state of the world to the next; the page limit is part of it. The loops run on fuel,
-- the number of pages.
pub mod Each
use mathlib.Core.List.{append_assoc, append-nil}
use formae_plugin_kubernetes.Prelude.{
  ℕ, zero, suc, ◌≤◌, String, ◌≡◌, ◌≢◌, ◌∙◌, ap, refl, false, Option, none, some, List, [], ◌++◌,
  str_eq, eq_iff, arith, if◌then◌else◌,
}
use formae_plugin_kubernetes.Prelude.Errors.{GoError}

-- The items of a page with the continue token, empty after the last one, or an error.
pub data Page (A : Type 0) : Type 0 where
  page : List A → String → Page A
  broken : GoError → Page A

module _ {A W : Type 0} (list : String → W → W × Page A) where
  -- `none` when the fuel runs out; else the items with the error, if there was one.
  unfoldable pub list_all : ℕ → String → List A → W → Option (W × List A × Option GoError)
  list_all zero token all w = none
  list_all (suc fuel) token all w =
      let (after, answer) = list token w in
      elim answer [
        | broken e ↦ some (after, all, some e)
        | page items next ↦
            let rest = list_all fuel next (all ++ items) after in
            if str_eq next "" then some (after, all ++ items, none) else rest
      ]

  -- What a server serves behind a token, from one world to another, in so many pages: a last page,
  -- a failure, or a page with a token to go on with.
  pub data Serves : String → W → List A → W → Option GoError → ℕ → Type 0 where
    last :
        {token : String} {w done : W} {all : List A}
        → list token w ≡ (done, page all "")
        → Serves token w all done none 1
    fails :
        {token : String} {w done : W} (e : GoError)
        → list token w ≡ (done, broken e)
        → Serves token w [] done (some e) 1
    more :
        {token : String} {w between done : W} {error : Option GoError} {n : ℕ} (items rest : List A)
        (next : String)
        → list token w ≡ (between, page items next)
        → next ≢ ""
        → Serves next between rest done error n
        → Serves token w (items ++ rest) done error (suc n)

  pub list_all-Serves :
      (fuel : ℕ) {token : String} {w done : W} {all : List A} {error : Option GoError} {n : ℕ}
      (before : List A)
      → Serves token w all done error n
      → n ≤ fuel
      → list_all fuel token before w ≡ some (done, before ++ all, error)
  unfolding list_all
  list_all-Serves zero before (last e) h = ground arith
  list_all-Serves zero before (fails e he) h = ground arith
  list_all-Serves zero before (more items rest next e ne s) h = ground arith
  list_all-Serves (suc fuel) before (last e) h =
      rw (list_all, ap (λ p. p.1) e, ap (λ p. p.0) e) refl
  list_all-Serves (suc fuel) before (fails e he) h =
      rw (list_all, ap (λ p. p.1) he, ap (λ p. p.0) he, append-nil) refl
  list_all-Serves (suc fuel) {done = done} {error = error} before (more items rest next e ne s) h =
      let goes_on : str_eq next "" ≡ false = grind (arith, eq_iff) in
      rw (list_all, ap (λ p. p.1) e, ap (λ p. p.0) e, goes_on)
        (list_all-Serves fuel (before ++ items) s (omega arith)
          ∙ ap (λ xs. some (done, xs, error)) (append_assoc before items rest))

  -- Where a server serves items in so many pages, a failure after the first ones included: with fuel
  -- for as many pages, listing ends, in the server's last world, with all these items in order, and
  -- with the error if there was one.
  pub list_all_complete :
      (fuel : ℕ) (w done : W) (all : List A) (error : Option GoError) (n : ℕ)
      → Serves "" w all done error n
      → n ≤ fuel
      → list_all fuel "" [] w ≡ some (done, all, error)
  list_all_complete fuel w done all error n s h = list_all-Serves fuel [] s h
