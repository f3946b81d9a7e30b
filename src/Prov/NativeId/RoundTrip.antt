-- ===== src/Prov/NativeId/RoundTrip.antt =====
-- Identifiers read back as what they were made from, and malformed ones are refused.
use Prim.Native.Char.{Char, code}
use mathlib.Core.Path.{ap₂, subst}
use text.Mathlib.TextEquality.{Char-path}
use text.Mathlib.TextLemmas.{cons-append, nil-append}
use formae_plugin_kubernetes.Prelude.{
  ap, sym, ◌∙◌, inl, inr, Bool-cases, All, String, ◌<>◌, ◌≡◌, ◌≢◌, ◌↔◌, refl, false, none, some,
  List, [], ◌∷◌, eq_iff, arith, ◌==◌,
}
use formae_plugin_kubernetes.Prelude.Text.{split, cut, cut_last, contains, join_first}
use formae_plugin_kubernetes.Prov.NativeId.{two_parts, ok, native_id, parse_namespaced_native_id}

module _ (c : Char) where
  pub cut-append :
      (s t : String)
      → contains (code c) s ≡ false
      → cut (code c) (s <> String.◌∷◌ c t) ≡ some (s, t)
  unfolding cut contains
  cut-append String.[] t h = rw nil-append (ground arith)
  cut-append (String.◌∷◌ d s) t h = rw cons-append (ground (arith, cut-append s t))

  cut_last_whole : (s : String) → contains (code c) s ≡ false → cut_last (code c) s ≡ none
  unfolding cut_last contains
  cut_last_whole String.[] h = refl
  cut_last_whole (String.◌∷◌ d s) h = ground (arith, cut_last_whole s)

  pub cut_last-append :
      (s t : String)
      → contains (code c) t ≡ false
      → cut_last (code c) (s <> String.◌∷◌ c t) ≡ some (s, t)
  unfolding cut_last contains
  cut_last-append String.[] t h = rw nil-append (ground (arith, cut_last_whole t h))
  cut_last-append (String.◌∷◌ d s) t h = rw cons-append (ground (arith, cut_last-append s t h))

  split_whole : (s : String) → contains (code c) s ≡ false → split (code c) s ≡ s ∷ []
  unfolding split contains
  split_whole String.[] h = refl
  split_whole (String.◌∷◌ d s) h = ground (arith, split_whole s)

  split-append :
      (s t : String)
      → contains (code c) s ≡ false
      → split (code c) (s <> String.◌∷◌ c t) ≡ s ∷ split (code c) t
  unfolding split contains
  split-append String.[] t h = rw nil-append (ground arith)
  split-append (String.◌∷◌ d s) t h = rw cons-append (ground (arith, split-append s t))

  -- strings.Join
  abbrev join : List String → String
  join [] = ""
  join (p ∷ []) = p
  join (p ∷ q ∷ ps) = p <> String.◌∷◌ c (join (q ∷ ps))

  abbrev NoSeparator : String → Type 0
  NoSeparator s = contains (code c) s ≡ false

  join-join_first : (d : Char) (ps : List String) → join (join_first d ps) ≡ String.◌∷◌ d (join ps)
  join-join_first d [] = refl
  join-join_first d (p ∷ []) = refl
  join-join_first d (p ∷ q ∷ ps) = rw cons-append

  NoSeparator-join_first :
      (d : Char) (ps : List String)
      → (code d == code c) ≡ false
      → All NoSeparator ps
      → All NoSeparator (join_first d ps)
  unfolding contains
  NoSeparator-join_first d [] h a = ground arith
  NoSeparator-join_first d (p ∷ ps) h a = ground arith

  join-empty_cons : (ps : List String) → ps ≢ [] → join ("" ∷ ps) ≡ String.◌∷◌ c (join ps)
  join-empty_cons [] h = absurd (h refl)
  join-empty_cons (p ∷ ps) h = rw nil-append

  join_first-ne-nil : (d : Char) (ps : List String) → join_first d ps ≢ []
  join_first-ne-nil d [] e = cc
  join_first-ne-nil d (p ∷ ps) e = cc

  split-ne-nil : (s : String) → split (code c) s ≢ []
  unfolding split
  split-ne-nil String.[] e = cc
  split-ne-nil (String.◌∷◌ d s) e = ground (arith, join_first-ne-nil d (split (code c) s))

  -- The pieces of a text, joined again, are the text.
  join-split : (s : String) → join (split (code c) s) ≡ s
  unfolding split
  join-split String.[] = refl
  join-split (String.◌∷◌ d s) = elim (Bool-cases (code d == code c)) [
    | inl e ↦ rw e (
        join-empty_cons (split (code c) s) (split-ne-nil s)
        ∙ ap₂ String.◌∷◌ (Char-path c d (ground arith)) (join-split s))
    | inr e ↦ rw e (join-join_first d (split (code c) s) ∙ ap (String.◌∷◌ d) (join-split s))
  ]

  NoSeparator-split : (s : String) → All NoSeparator (split (code c) s)
  unfolding split contains
  NoSeparator-split String.[] = (refl, tt)
  NoSeparator-split (String.◌∷◌ d s) = elim (Bool-cases (code d == code c)) [
    | inl e ↦ rw e (refl, NoSeparator-split s)
    | inr e ↦ rw e (NoSeparator-join_first d (split (code c) s) e (NoSeparator-split s))
  ]

abbrev pub slash : Char
slash = "/"

-- What a namespaced identifier has to be made of.
pub record IsNamespaced (ns name : String) : Type 0 where
  pub has_namespace : ns ≢ ""
  pub has_name : name ≢ ""
  pub plain_namespace : contains b'/' ns ≡ false
  pub plain_name : contains b'/' name ≡ false

two_parts_sound :
    (ps : List String) (ns name : String)
    → two_parts ps ≡ ok (ns, name)
    → (ps ≡ ns ∷ name ∷ []) × (ns ≢ "") × (name ≢ "")
two_parts_sound (a ∷ b ∷ []) ns name h = ground (arith, eq_iff a "", eq_iff b "")
two_parts_sound _ ns name h = ground arith

-- A separator and a text, as `%s` writes them.
pub sep-append : (c : Char) (s : String) → String.◌∷◌ c "" <> s ≡ String.◌∷◌ c s
sep-append c s = rw cons-append (rw nil-append)

pub native_id-cons : (ns name : String) → native_id ns name ≡ ns <> String.◌∷◌ slash name
unfolding native_id
native_id-cons ns name = ap (◌<>◌ ns) (sep-append slash name)

module _ (id ns name : String) where
  parse_sound :
      parse_namespaced_native_id id ≡ ok (ns, name)
      → (id ≡ native_id ns name) × IsNamespaced ns name
  unfolding parse_namespaced_native_id
  parse_sound h =
      let (parts, has_ns, has_name) =
        two_parts_sound (split b'/' id) ns name (ground (arith, eq_iff id "")) in
      let plain = subst (All (NoSeparator slash)) parts (NoSeparator-split slash id) in
      (
        sym (join-split slash id) ∙ ap (join slash) parts ∙ sym (native_id-cons ns name),
        record {
          has_namespace = has_ns;
          has_name = has_name;
          plain_namespace = plain.0;
          plain_name = plain.1.0;
        },
      )

  split-native_id : IsNamespaced ns name → split b'/' (native_id ns name) ≡ ns ∷ name ∷ []
  split-native_id v = rw native_id-cons (
      split-append slash ns name v.plain_namespace
      ∙ ap (◌∷◌ ns) (split_whole slash name v.plain_name))

  not_empty : IsNamespaced ns name → native_id ns name ≢ ""
  unfolding split
  not_empty v e = ground (arith, sym (split-native_id v) ∙ ap (split b'/') e)

  parse_complete :
      id ≡ native_id ns name → IsNamespaced ns name → parse_namespaced_native_id id ≡ ok (ns, name)
  unfolding parse_namespaced_native_id
  parse_complete e v =
      let parts = ap (split b'/') e ∙ split-native_id v in
      ground (
        arith,
        ap two_parts parts,
        eq_iff id "",
        eq_iff ns "",
        eq_iff name "",
        not_empty v,
        v.has_namespace,
        v.has_name,
      )

-- The parser of namespaced identifiers accepts exactly the texts that `NativeID` makes from a
-- namespace and a name that are not empty and hold no slash, and gives these two back.
pub parse-native_id_iff :
    (id ns name : String)
    → (parse_namespaced_native_id id ≡ ok (ns, name))
      ↔ ((id ≡ native_id ns name) × IsNamespaced ns name)
parse-native_id_iff id ns name = (parse_sound id ns name, λ h. parse_complete id ns name h.0 h.1)
