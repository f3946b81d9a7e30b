-- ===== src/Config/Version/Normal.antt =====
-- version.go: what normalization makes of printed versions.
use Prim.Native.Char.{Char, code}
use Prim.Native.Nat.{◌^◌, ◌/◌, ◌%◌}
use text.Mathlib.TextLemmas.{cons-append, nil-append}
use formae_plugin_kubernetes.Prelude.{
  ℕ, zero, suc, ◌<◌, String, ◌<>◌, ◌≡◌, ◌∙◌, ap, sym, refl, Bool, true, false, ◌&&◌, ◌||◌, none,
  some, ◌==◌, arith,
}
use formae_plugin_kubernetes.Prelude.Decimal.{
  print_nat, print_digits, digit, is_digit, atoi-print_nat,
}
use formae_plugin_kubernetes.Prelude.Decimal.Contains.{contains-print_nat, contains-append}
use formae_plugin_kubernetes.Prelude.Text.{cut, contains, trim_suffix}
use formae_plugin_kubernetes.Prov.NativeId.RoundTrip.{sep-append}
use formae_plugin_kubernetes.Config.Version.{
  is_space, trim_left, trim_right, trim_v, normalize_parts, normalize_k8s_version,
}
use formae_plugin_kubernetes.Config.Version.Order.{version, cut-version}

-- The characters of printed versions, with the suffix that some distributions add.
abbrev is_plain_char : ℕ → Bool
is_plain_char c = is_digit c || c == b'.' || c == b'+'

is_plain : String → Bool
is_plain String.[] = true
is_plain (String.◌∷◌ c s) = is_plain_char (code c) && is_plain s

is_plain-append : (s t : String) → is_plain (s <> t) ≡ (is_plain s && is_plain t)
unfolding is_plain
is_plain-append String.[] t = rw nil-append refl
is_plain-append (String.◌∷◌ c s) t = rw cons-append (ground (arith, is_plain-append s t))

is_plain-digit : (d : ℕ) → is_plain (digit d) ≡ true
unfolding is_plain is_digit
is_plain-digit zero = refl
is_plain-digit (suc zero) = refl
is_plain-digit (suc (suc zero)) = refl
is_plain-digit (suc (suc (suc zero))) = refl
is_plain-digit (suc (suc (suc (suc zero)))) = refl
is_plain-digit (suc (suc (suc (suc (suc zero))))) = refl
is_plain-digit (suc (suc (suc (suc (suc (suc zero)))))) = refl
is_plain-digit (suc (suc (suc (suc (suc (suc (suc zero))))))) = refl
is_plain-digit (suc (suc (suc (suc (suc (suc (suc (suc zero)))))))) = refl
is_plain-digit (suc (suc (suc (suc (suc (suc (suc (suc (suc d))))))))) = refl

is_plain-print_digits : (fuel n : ℕ) → is_plain (print_digits fuel n) ≡ true
unfolding print_digits is_plain
is_plain-print_digits zero n = refl
is_plain-print_digits (suc fuel) n = ground (
  arith,
  is_plain-digit n,
  is_plain-digit (n % 10),
  is_plain-append (print_digits fuel (n / 10)) (digit (n % 10)),
  is_plain-print_digits fuel (n / 10),
)

is_plain-print_nat : (n : ℕ) → is_plain (print_nat n) ≡ true
unfolding print_nat
is_plain-print_nat n = is_plain-print_digits (suc n) n

-- Nothing is trimmed off a plain text but the suffix.
trim_left-plain : (s : String) → is_plain s ≡ true → trim_left s ≡ s
unfolding trim_left is_plain is_space is_digit
trim_left-plain String.[] h = refl
trim_left-plain (String.◌∷◌ c s) h = ground arith

trim_right-plain : (s : String) → is_plain s ≡ true → trim_right s ≡ s
unfolding trim_right is_plain is_space is_digit
trim_right-plain String.[] h = refl
trim_right-plain (String.◌∷◌ c s) h = ground (arith, trim_right-plain s)

trim_v-plain : (s : String) → is_plain s ≡ true → trim_v s ≡ s
unfolding is_plain is_digit
trim_v-plain String.[] h = refl
trim_v-plain (String.◌∷◌ c s) h = ground arith

normalize-plain :
    (s : String)
    → is_plain s ≡ true
    → normalize_k8s_version s ≡ normalize_parts (trim_suffix b'+' s)
unfolding normalize_k8s_version
normalize-plain s h = rw (trim_left-plain s h, trim_right-plain s h, trim_v-plain s h) refl

abbrev vee : Char
vee = "v"

normalize-v :
    (s : String)
    → is_plain s ≡ true
    → normalize_k8s_version ("v" <> s) ≡ normalize_parts (trim_suffix b'+' s)
unfolding normalize_k8s_version trim_left trim_right is_space
normalize-v s h = rw (sep-append vee s) (ground (arith, trim_right-plain s h))

trim_suffix-append : (s : String) → trim_suffix b'+' (s <> "+") ≡ s
unfolding trim_suffix
trim_suffix-append String.[] = refl
trim_suffix-append (String.◌∷◌ c String.[]) = rw cons-append refl
trim_suffix-append (String.◌∷◌ c (String.◌∷◌ d s)) = rw cons-append (
    ap (λ (t : String). trim_suffix b'+' (String.◌∷◌ c t)) (cons-append d s "+")
    ∙ ap (String.◌∷◌ c)
        (ap (trim_suffix b'+') (sym (cons-append d s "+")) ∙ trim_suffix-append (String.◌∷◌ d s)))

trim_suffix-whole : (s : String) → contains b'+' s ≡ false → trim_suffix b'+' s ≡ s
unfolding trim_suffix contains
trim_suffix-whole String.[] h = refl
trim_suffix-whole (String.◌∷◌ c String.[]) h = ground arith
trim_suffix-whole (String.◌∷◌ c (String.◌∷◌ d s)) h =
    ap (String.◌∷◌ c) (trim_suffix-whole (String.◌∷◌ d s) (ground arith))

cut-whole : (s : String) → contains b'.' s ≡ false → cut b'.' s ≡ none
unfolding cut contains
cut-whole String.[] h = refl
cut-whole (String.◌∷◌ c s) h = ground (arith, cut-whole s)

-- The parts of a printed version, alone and with a patch behind it.
parts-version :
    (a b : ℕ) → a < 2 ^ 63 → b < 2 ^ 63 → normalize_parts (version a b) ≡ some (version a b)
unfolding normalize_parts is_digit
parts-version a b p q = ground (
  arith,
  cut-version a (print_nat b),
  cut-whole (print_nat b) (contains-print_nat b'.' b refl),
  trim_suffix-whole (print_nat b) (contains-print_nat b'+' b refl),
  atoi-print_nat a,
  atoi-print_nat b,
)

parts-patched :
    (a b : ℕ) (patch : String)
    → a < 2 ^ 63
    → b < 2 ^ 63
    → normalize_parts (print_nat a <> ("." <> (print_nat b <> ("." <> patch)))) ≡ some (version a b)
unfolding normalize_parts is_digit
parts-patched a b patch p q = ground (
  arith,
  cut-version a (print_nat b <> ("." <> patch)),
  cut-version b patch,
  trim_suffix-whole (print_nat b) (contains-print_nat b'+' b refl),
  atoi-print_nat a,
  atoi-print_nat b,
)

is_plain-version : (a b : ℕ) → is_plain (version a b) ≡ true
unfolding is_plain is_digit
is_plain-version a b = ground (
  arith,
  is_plain-append (print_nat a) ("." <> print_nat b),
  is_plain-append "." (print_nat b),
  is_plain-print_nat a,
  is_plain-print_nat b,
)

is_plain-patched :
    (a b p : ℕ) → is_plain (print_nat a <> ("." <> (print_nat b <> ("." <> print_nat p)))) ≡ true
unfolding is_plain is_digit
is_plain-patched a b p = ground (
  arith,
  is_plain-append (print_nat a) ("." <> (print_nat b <> ("." <> print_nat p))),
  is_plain-append "." (print_nat b <> ("." <> print_nat p)),
  is_plain-append (print_nat b) ("." <> print_nat p),
  is_plain-append "." (print_nat p),
  is_plain-print_nat a,
  is_plain-print_nat b,
  is_plain-print_nat p,
)

is_plain-plus : (s : String) → is_plain s ≡ true → is_plain (s <> "+") ≡ true
unfolding is_plain is_digit
is_plain-plus s h = ground (arith, is_plain-append s "+")

contains-version : (a b : ℕ) → contains b'+' (version a b) ≡ false
unfolding contains is_digit
contains-version a b = ground (
  arith,
  contains-append b'+' (print_nat a) ("." <> print_nat b),
  contains-append b'+' "." (print_nat b),
  contains-print_nat b'+' a refl,
  contains-print_nat b'+' b refl,
)

contains-patched :
    (a b p : ℕ)
    → contains b'+' (print_nat a <> ("." <> (print_nat b <> ("." <> print_nat p)))) ≡ false
unfolding contains is_digit
contains-patched a b p = ground (
  arith,
  contains-append b'+' (print_nat a) ("." <> (print_nat b <> ("." <> print_nat p))),
  contains-append b'+' "." (print_nat b <> ("." <> print_nat p)),
  contains-append b'+' (print_nat b) ("." <> print_nat p),
  contains-append b'+' "." (print_nat p),
  contains-print_nat b'+' a refl,
  contains-print_nat b'+' b refl,
  contains-print_nat b'+' p refl,
)

-- For a major and a minor number within int64: a printed version is its own normal form, and so are
-- those with a leading "v", with the suffix "+" of some distributions, and with a "v" and a patch
-- number all brought to it.
pub normalize-version :
    (a b p : ℕ)
    → a < 2 ^ 63
    → b < 2 ^ 63
    → (normalize_k8s_version (version a b) ≡ some (version a b))
      × (normalize_k8s_version ("v" <> version a b) ≡ some (version a b))
      × (normalize_k8s_version (version a b <> "+") ≡ some (version a b))
      × (normalize_k8s_version
            ("v" <> (print_nat a <> ("." <> (print_nat b <> ("." <> print_nat p)))))
          ≡ some (version a b))
normalize-version a b p ha hb =
    let plain = is_plain-version a b in
    let bare : normalize_parts (trim_suffix b'+' (version a b)) ≡ some (version a b) =
      ap normalize_parts (trim_suffix-whole (version a b) (contains-version a b))
      ∙ parts-version a b ha hb in
    (
      normalize-plain (version a b) plain ∙ bare,
      normalize-v (version a b) plain ∙ bare,
      normalize-plain (version a b <> "+") (is_plain-plus (version a b) plain)
          ∙ (ap normalize_parts (trim_suffix-append (version a b)) ∙ parts-version a b ha hb),
      normalize-v _ (is_plain-patched a b p)
          ∙ (ap normalize_parts (trim_suffix-whole _ (contains-patched a b p))
              ∙ parts-patched a b (print_nat p) ha hb),
    )
