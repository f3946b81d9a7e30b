-- ===== src/Prelude/Decimal.antt =====
-- `%d` on numbers that are not negative, and `strconv.Atoi` on a 64-bit platform.
pub mod Contains
use Prim.Native.Char.{code}
use Prim.Native.Nat.{ℕ, zero, suc, ◌+◌, ◌-◌, ◌*◌, ◌/◌, ◌%◌, ◌^◌, ◌≤◌, ◌<◌}
use Prim.Native.String
use Prim.Native.String.{String, ◌++◌}
use mathlib.Core.Path.{◌≡◌, refl}
use mathlib.Core.Logic.{inl, inr}
use mathlib.Core.Bool.{◌&&◌, Bool, true, false}
use mathlib.Core.Option.{Option, none, some}
use native.Mathlib.Omega.{arith}
use text.Mathlib.TextLemmas.{cons-append, nil-append}
use formae_plugin_kubernetes.Prelude.Tests.{Bool-cases, ltb, leb, ◌==◌, if◌then◌else◌}

-- `negsuc n` is -(n + 1).
pub data ℤ : Type 0 where
  pos : ℕ → ℤ
  negsuc : ℕ → ℤ

abbrev pub digit : ℕ → String
digit zero = "0"
digit (suc zero) = "1"
digit (suc (suc zero)) = "2"
digit (suc (suc (suc zero))) = "3"
digit (suc (suc (suc (suc zero)))) = "4"
digit (suc (suc (suc (suc (suc zero))))) = "5"
digit (suc (suc (suc (suc (suc (suc zero)))))) = "6"
digit (suc (suc (suc (suc (suc (suc (suc zero))))))) = "7"
digit (suc (suc (suc (suc (suc (suc (suc (suc zero)))))))) = "8"
digit _ = "9"

-- Fuel falls once for each digit.
unfoldable pub print_digits : ℕ → ℕ → String
print_digits zero n = ""
print_digits (suc fuel) n =
    let front = print_digits fuel (n / 10) in if ltb n 10 then digit n else front ++ digit (n % 10)

unfoldable pub print_nat : ℕ → String
unfolding print_digits
print_nat n = print_digits (suc n) n

unfoldable pub is_digit : ℕ → Bool
is_digit c = leb b'0' c && leb c b'9'

-- The number whose digits follow those of `n`.
unfoldable pub read_digits : ℕ → String → Option ℕ
unfolding is_digit
read_digits n String.[] = some n
read_digits n (String.◌∷◌ c s) =
    let rest = read_digits (n * 10 + (code c - 48)) s in if is_digit (code c) then rest else none

abbrev read_signed : Bool → String → Option ℤ
read_signed minus String.[] = none
read_signed minus (String.◌∷◌ c s) = elim (read_digits 0 (String.◌∷◌ c s)) [
  | none ↦ none
  | some zero ↦ some (pos 0)
  | some (suc n) ↦
      if minus
      then (if ltb n (2 ^ 63) then some (negsuc n) else none)
      else if ltb (n + 1) (2 ^ 63)
      then some (pos (suc n))
      else none
]

-- strconv.Atoi: an optional sign and digits, within the range of int64.
unfoldable pub atoi : String → Option ℤ
unfolding read_digits
atoi String.[] = none
atoi (String.◌∷◌ c s) =
    if code c == b'-'
    then read_signed true s
    else if code c == b'+'
    then read_signed false s
    else read_signed false (String.◌∷◌ c s)

-- The value beside the error of strconv.Atoi: 0 where the text is no number, and the nearest int64
-- where the number is out of range.
abbrev signed_value : Bool → String → ℤ
signed_value minus String.[] = pos 0
signed_value minus (String.◌∷◌ c s) = elim (read_digits 0 (String.◌∷◌ c s)) [
  | none ↦ pos 0
  | some zero ↦ pos 0
  | some (suc n) ↦
      if minus
      then negsuc (if ltb n (2 ^ 63) then n else 2 ^ 63 - 1)
      else pos (if ltb (n + 1) (2 ^ 63) then suc n else 2 ^ 63 - 1)
]

unfoldable pub atoi_value : String → ℤ
unfolding read_digits
atoi_value String.[] = pos 0
atoi_value (String.◌∷◌ c s) =
    if code c == b'-'
    then signed_value true s
    else if code c == b'+'
    then signed_value false s
    else signed_value false (String.◌∷◌ c s)

-- `%d`
abbrev pub print_int : ℤ → String
print_int (pos n) = print_nat n
print_int (negsuc n) = "-" ++ print_nat (suc n)

runs :
    (print_nat 1205 ≡ "1205")
    × (atoi "0042" ≡ some (pos 42))
    × (atoi "-7" ≡ some (negsuc 6))
    × (atoi "9223372036854775808" ≡ none)
    × (atoi "1x" ≡ none)
unfolding print_nat atoi
runs = (refl, refl, refl, refl, refl)

read_digits-digit : (n d : ℕ) → d < 10 → read_digits n (digit d) ≡ some (n * 10 + d)
unfolding read_digits
read_digits-digit n zero h = ground arith
read_digits-digit n (suc zero) h = ground arith
read_digits-digit n (suc (suc zero)) h = ground arith
read_digits-digit n (suc (suc (suc zero))) h = ground arith
read_digits-digit n (suc (suc (suc (suc zero)))) h = ground arith
read_digits-digit n (suc (suc (suc (suc (suc zero))))) h = ground arith
read_digits-digit n (suc (suc (suc (suc (suc (suc zero)))))) h = ground arith
read_digits-digit n (suc (suc (suc (suc (suc (suc (suc zero))))))) h = ground arith
read_digits-digit n (suc (suc (suc (suc (suc (suc (suc (suc zero)))))))) h = ground arith
read_digits-digit n (suc (suc (suc (suc (suc (suc (suc (suc (suc zero))))))))) h = ground arith
read_digits-digit n (suc (suc (suc (suc (suc (suc (suc (suc (suc (suc d)))))))))) h =
    absurd (omega arith)

read_digits-append :
    (n m : ℕ) (s t : String) → read_digits n s ≡ some m → read_digits n (s ++ t) ≡ read_digits m t
unfolding read_digits
read_digits-append n m String.[] t h = rw nil-append (ground arith)
read_digits-append n m (String.◌∷◌ c s) t h =
    rw cons-append (ground (arith, read_digits-append (n * 10 + (code c - 48)) m s t))

pub read_digits-print : (fuel n : ℕ) → n < fuel → read_digits 0 (print_digits fuel n) ≡ some n
unfolding print_digits
read_digits-print zero n h = elim h [ ]
read_digits-print (suc fuel) n h = ground (
  arith,
  read_digits-digit 0 n,
  read_digits-digit (n / 10) (n % 10),
  read_digits-append 0 (n / 10) (print_digits fuel (n / 10)) (digit (n % 10)),
  read_digits-print fuel (n / 10),
)

abbrev StartsWithDigit : String → Type 0
StartsWithDigit String.[] = ⊥
StartsWithDigit (String.◌∷◌ c s) = is_digit (code c) ≡ true

StartsWithDigit-append : (s t : String) → StartsWithDigit s → StartsWithDigit (s ++ t)
StartsWithDigit-append String.[] t h = absurd h
StartsWithDigit-append (String.◌∷◌ c s) t h = rw cons-append h

digit-StartsWithDigit : (d : ℕ) → StartsWithDigit (digit d)
unfolding is_digit
digit-StartsWithDigit zero = refl
digit-StartsWithDigit (suc zero) = refl
digit-StartsWithDigit (suc (suc zero)) = refl
digit-StartsWithDigit (suc (suc (suc zero))) = refl
digit-StartsWithDigit (suc (suc (suc (suc zero)))) = refl
digit-StartsWithDigit (suc (suc (suc (suc (suc zero))))) = refl
digit-StartsWithDigit (suc (suc (suc (suc (suc (suc zero)))))) = refl
digit-StartsWithDigit (suc (suc (suc (suc (suc (suc (suc zero))))))) = refl
digit-StartsWithDigit (suc (suc (suc (suc (suc (suc (suc (suc zero)))))))) = refl
digit-StartsWithDigit (suc (suc (suc (suc (suc (suc (suc (suc (suc d))))))))) = refl

print-StartsWithDigit : (fuel n : ℕ) → n < fuel → StartsWithDigit (print_digits fuel n)
unfolding print_digits
print-StartsWithDigit zero n h = elim h [ ]
print-StartsWithDigit (suc fuel) n h = elim (Bool-cases (ltb n 10)) [
  | inl small ↦ rw small (digit-StartsWithDigit n)
  | inr large ↦ rw large (
      StartsWithDigit-append (print_digits fuel (n / 10)) (digit (n % 10))
        (print-StartsWithDigit fuel (n / 10) (ground arith)))
]

atoi_of_digits :
    (s : String) (n : ℕ)
    → StartsWithDigit s
    → read_digits 0 s ≡ some n
    → n < 2 ^ 63
    → atoi s ≡ some (pos n)
unfolding atoi is_digit
atoi_of_digits String.[] n start value small = absurd start
atoi_of_digits (String.◌∷◌ c s) zero start value small = ground arith
atoi_of_digits (String.◌∷◌ c s) (suc n) start value small = ground arith

value_of_digits :
    (s : String) (n : ℕ)
    → StartsWithDigit s
    → read_digits 0 s ≡ some n
    → n < 2 ^ 63
    → atoi_value s ≡ pos n
unfolding atoi_value is_digit
value_of_digits String.[] n start value small = absurd start
value_of_digits (String.◌∷◌ c s) zero start value small = ground arith
value_of_digits (String.◌∷◌ c s) (suc n) start value small = ground arith

pub atoi_value-print_nat : (n : ℕ) → n < 2 ^ 63 → atoi_value (print_nat n) ≡ pos n
unfolding print_nat
atoi_value-print_nat n small =
    value_of_digits (print_digits (suc n) n) n (print-StartsWithDigit (suc n) n (omega arith))
      (read_digits-print (suc n) n (omega arith)) small

-- `strconv.Atoi` reads back what `%d` prints, within the range of int64.
pub atoi-print_nat : (n : ℕ) → n < 2 ^ 63 → atoi (print_nat n) ≡ some (pos n)
unfolding print_nat
atoi-print_nat n small =
    atoi_of_digits (print_digits (suc n) n) n (print-StartsWithDigit (suc n) n (omega arith))
      (read_digits-print (suc n) n (omega arith)) small
