-- ===== src/Prelude/Text.antt =====
-- The functions of Go's `strings` that the program calls with a one-character separator, which is
-- given by its code point.
use Prim.Native.Char.{Char, code}
use Prim.Native.Nat.{ℕ}
use Prim.Native.String.{String}
use mathlib.Core.Path.{◌≡◌, refl}
use mathlib.Core.Bool.{Bool, true, false, ◌||◌}
use mathlib.Core.List.{List, [], ◌∷◌}
use mathlib.Core.Option.{Option, none, some}
use formae_plugin_kubernetes.Prelude.Tests.{◌==◌, if◌then◌else◌}

-- Puts a character before the first of some pieces.
abbrev pub join_first : Char → List String → List String
join_first c [] = String.◌∷◌ c "" ∷ []
join_first c (p ∷ ps) = String.◌∷◌ c p ∷ ps

-- strings.Split
unfoldable pub split : ℕ → String → List String
split sep String.[] = "" ∷ []
split sep (String.◌∷◌ c s) =
    let rest = split sep s in if code c == sep then "" ∷ rest else join_first c rest

-- strings.Contains
unfoldable pub contains : ℕ → String → Bool
contains sep String.[] = false
contains sep (String.◌∷◌ c s) = code c == sep || contains sep s

-- strings.Cut: what stands before and after the first separator, if there is one.
unfoldable pub cut : ℕ → String → Option (String × String)
cut sep String.[] = none
cut sep (String.◌∷◌ c s) =
    let rest = cut sep s in
    if code c == sep
    then some ("", s)
    else elim rest [ none ↦ none | some (before, after) ↦ some (String.◌∷◌ c before, after) ]

-- The cut at the last separator, as `strings.LastIndex` and two slices make it.
unfoldable pub cut_last : ℕ → String → Option (String × String)
cut_last sep String.[] = none
cut_last sep (String.◌∷◌ c s) = elim (cut_last sep s) [
  | some (before, after) ↦ some (String.◌∷◌ c before, after)
  | none ↦ if code c == sep then some ("", s) else none
]

-- strings.TrimSuffix with one character.
unfoldable pub trim_suffix : ℕ → String → String
trim_suffix sep String.[] = ""
trim_suffix sep (String.◌∷◌ c String.[]) = if code c == sep then "" else String.◌∷◌ c ""
trim_suffix sep (String.◌∷◌ c (String.◌∷◌ d s)) = String.◌∷◌ c (trim_suffix sep (String.◌∷◌ d s))

-- strings.HasPrefix, and what is left behind the prefix.
unfoldable pub has_prefix : String → String → Bool
has_prefix s String.[] = true
has_prefix String.[] (String.◌∷◌ d p) = false
has_prefix (String.◌∷◌ c s) (String.◌∷◌ d p) = elim (code c == code d) [
  | true ↦ has_prefix s p
  | false ↦ false
]

-- strings.Contains with a text.
unfoldable pub contains_text : String → String → Bool
unfolding has_prefix
contains_text String.[] p = has_prefix String.[] p
contains_text (String.◌∷◌ c s) p = has_prefix (String.◌∷◌ c s) p || contains_text s p

runs :
    (split b'/' "a/b//c" ≡ "a" ∷ "b" ∷ "" ∷ "c" ∷ [])
    × (cut_last b'@' "x@y@z" ≡ some ("x@y", "z"))
    × (cut b'#' "x#y#z" ≡ some ("x", "y#z"))
    × (has_prefix "batch.kubernetes.io/x" "batch.kubernetes.io/" ≡ true)
    × (trim_suffix b'/' "a/b/" ≡ "a/b")
unfolding split cut cut_last has_prefix trim_suffix
runs = (refl, refl, refl, refl, refl)
