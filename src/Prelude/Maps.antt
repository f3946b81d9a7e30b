-- ===== src/Prelude/Maps.antt =====
-- Go's `map[string]V` as an association list. The order of the entries stands for the order in
-- which one `range` loop meets them.
use Prim.Native.String.{String}
use mathlib.Core.Path.{◌≡◌, refl}
use mathlib.Core.Option.{Option, none, some}
use mathlib.Core.List.{List, [], ◌∷◌}
use native.Mathlib.Omega.{arith}
use text.Mathlib.TextEquality.{eq_iff}
use formae_plugin_kubernetes.Prelude.Tests.{str_eq, if◌then◌else◌}

abbrev pub Map {ℓ} : Type ℓ → Type ℓ
Map V = List (String × V)

module _ {ℓ} {V : Type ℓ} where
  -- m[key]
  unfoldable pub lookup : String → Map V → Option V
  lookup key [] = none
  lookup key ((at, value) ∷ rest) = if str_eq at key then some value else lookup key rest

  -- m[key] = value
  unfoldable pub insert : String → V → Map V → Map V
  insert key value [] = (key, value) ∷ []
  insert key value ((at, old) ∷ rest) =
      if str_eq at key then (key, value) ∷ rest else (at, old) ∷ insert key value rest

  -- delete(m, key)
  unfoldable pub erase : String → Map V → Map V
  erase key [] = []
  erase key ((at, value) ∷ rest) =
      let kept = erase key rest in if str_eq at key then kept else (at, value) ∷ kept

  -- What a map holds once a key was set, and once it was deleted.
  pub lookup-insert :
      (set asked : String) (value : V) (entries : Map V)
      → lookup asked (insert set value entries)
        ≡ (if str_eq set asked then some value else lookup asked entries)
  unfolding lookup insert
  lookup-insert set asked value [] = refl
  lookup-insert set asked value ((at, old) ∷ rest) =
      ground (
        arith,
        eq_iff set asked,
        eq_iff at set,
        eq_iff at asked,
        lookup-insert set asked value rest,
      )

  pub lookup-erase :
      (gone asked : String) (entries : Map V)
      → lookup asked (erase gone entries)
        ≡ (if str_eq gone asked then none else lookup asked entries)
  unfolding lookup erase
  lookup-erase gone asked [] = ground arith
  lookup-erase gone asked ((at, value) ∷ rest) =
      ground
        (arith, eq_iff gone asked, eq_iff at gone, eq_iff at asked, lookup-erase gone asked rest)

pub ruleset map_laws = (lookup-insert, lookup-erase)
