-- ===== src/Prelude/Decimal/Contains.antt =====
-- Printed numbers hold digits only.
use Prim.Native.Nat.{ℕ, zero, suc, ◌/◌, ◌%◌}
use Prim.Native.String.{String, ◌++◌}
use mathlib.Core.Path.{◌≡◌, refl}
use mathlib.Core.Bool.{false, ◌||◌}
use native.Mathlib.Omega.{arith}
use text.Mathlib.TextLemmas.{cons-append, nil-append}
use formae_plugin_kubernetes.Prelude.Text.{contains}
use formae_plugin_kubernetes.Prelude.Decimal.{digit, print_digits, print_nat, is_digit}

pub contains-append :
    (sep : ℕ) (s t : String) → contains sep (s ++ t) ≡ (contains sep s || contains sep t)
unfolding contains
contains-append sep String.[] t = rw nil-append
contains-append sep (String.◌∷◌ c s) t = rw cons-append (ground (arith, contains-append sep s t))

contains-digit : (sep d : ℕ) → is_digit sep ≡ false → contains sep (digit d) ≡ false
unfolding contains is_digit
contains-digit sep zero h = ground arith
contains-digit sep (suc zero) h = ground arith
contains-digit sep (suc (suc zero)) h = ground arith
contains-digit sep (suc (suc (suc zero))) h = ground arith
contains-digit sep (suc (suc (suc (suc zero)))) h = ground arith
contains-digit sep (suc (suc (suc (suc (suc zero))))) h = ground arith
contains-digit sep (suc (suc (suc (suc (suc (suc zero)))))) h = ground arith
contains-digit sep (suc (suc (suc (suc (suc (suc (suc zero))))))) h = ground arith
contains-digit sep (suc (suc (suc (suc (suc (suc (suc (suc zero)))))))) h = ground arith
contains-digit sep (suc (suc (suc (suc (suc (suc (suc (suc (suc d))))))))) h = ground arith

contains-print_digits :
    (fuel sep n : ℕ) → is_digit sep ≡ false → contains sep (print_digits fuel n) ≡ false
unfolding print_digits contains
contains-print_digits zero sep n h = refl
contains-print_digits (suc fuel) sep n h = ground (
  arith,
  contains-digit sep n h,
  contains-digit sep (n % 10) h,
  contains-append sep (print_digits fuel (n / 10)) (digit (n % 10)),
  contains-print_digits fuel sep (n / 10) h,
)

pub contains-print_nat : (sep n : ℕ) → is_digit sep ≡ false → contains sep (print_nat n) ≡ false
unfolding print_nat
contains-print_nat sep n h = contains-print_digits (suc n) sep n h
