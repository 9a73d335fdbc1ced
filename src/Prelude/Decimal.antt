-- ===== src/Prelude/Decimal.antt =====
-- `strconv.FormatUint(n, 10)`, and `%d` of `fmt.Sprintf`, at an unsigned integer.
use Prim.Native.Nat.{ℕ, zero, suc, ◌+◌, ◌-◌, ◌*◌, ◌/◌, ◌%◌, ◌<◌}
use Prim.Native.Char.{Char, code}
use Prim.Native.String.{String}
use mathlib.Core.Path.{◌≡◌, refl, sym, ap, ◌∙◌}
use mathlib.Core.Logic.{inl, inr}
use native.Mathlib.Omega.{arith}
use go_blockchain_demo.Prelude.Tests.{ltb, if◌then◌else◌, Bool-cases}

digit : ℕ → Char
digit zero = "0"
digit (suc zero) = "1"
digit (suc (suc zero)) = "2"
digit (suc (suc (suc zero))) = "3"
digit (suc (suc (suc (suc zero)))) = "4"
digit (suc (suc (suc (suc (suc zero))))) = "5"
digit (suc (suc (suc (suc (suc (suc zero)))))) = "6"
digit (suc (suc (suc (suc (suc (suc (suc zero))))))) = "7"
digit (suc (suc (suc (suc (suc (suc (suc (suc zero)))))))) = "8"
digit _ = "9"

-- The digits of `n` in front of `s`, on fuel.
decimal_from : ℕ → ℕ → String → String
decimal_from zero n s = s
decimal_from (suc f) n s =
    let t = String.◌∷◌ (digit (n % 10)) s in
    let rest = decimal_from f (n / 10) t in if ltb n 10 then t else rest

unfoldable pub decimal : ℕ → String
unfolding decimal_from digit
decimal n = decimal_from (suc n) n String.[]

-- The number that a text of digits stands for, after the digits that make `n`.
read_from : ℕ → String → ℕ
read_from n String.[] = n
read_from n (String.◌∷◌ c s) = read_from (n * 10 + (code c - 48)) s

pub read_decimal : String → ℕ
unfolding read_from
read_decimal = read_from 0

code-digit : (n : ℕ) → n < 10 → code (digit n) - 48 ≡ n
unfolding digit
code-digit zero h = refl
code-digit (suc zero) h = refl
code-digit (suc (suc zero)) h = refl
code-digit (suc (suc (suc zero))) h = refl
code-digit (suc (suc (suc (suc zero)))) h = refl
code-digit (suc (suc (suc (suc (suc zero))))) h = refl
code-digit (suc (suc (suc (suc (suc (suc zero)))))) h = refl
code-digit (suc (suc (suc (suc (suc (suc (suc zero))))))) h = refl
code-digit (suc (suc (suc (suc (suc (suc (suc (suc zero)))))))) h = refl
code-digit (suc (suc (suc (suc (suc (suc (suc (suc (suc n))))))))) h = omega arith

read_from-digit :
    (n d : ℕ) (s : String)
    → d < 10
    → read_from n (String.◌∷◌ (digit d) s) ≡ read_from (n * 10 + d) s
unfolding read_from
read_from-digit n d s h = ap (λ e. read_from (n * 10 + e) s) (code-digit d h)

read_from-decimal_from :
    (f n : ℕ) (s : String) → n < f → read_from 0 (decimal_from f n s) ≡ read_from n s
unfolding decimal_from
read_from-decimal_from zero n s h = elim h [ ]
read_from-decimal_from (suc f) n s h = elim (Bool-cases (ltb n 10)) [
  | inl small ↦ rw small (
      read_from-digit 0 (n % 10) s (omega arith)
      ∙ ap (λ e. read_from e s) (let e : 0 * 10 + n % 10 ≡ n = ground arith in e))
  | inr large ↦ rw large (
      read_from-decimal_from f (n / 10) (String.◌∷◌ (digit (n % 10)) s) (ground arith)
      ∙ read_from-digit (n / 10) (n % 10) s (omega arith)
      ∙ ap (λ e. read_from e s) (let e : n / 10 * 10 + n % 10 ≡ n = omega arith in e))
]

-- Printing a number in decimal and reading the digits back gives the number.
pub read_decimal-decimal : (n : ℕ) → read_decimal (decimal n) ≡ n
unfolding decimal read_decimal
read_decimal-decimal n = read_from-decimal_from (suc n) n String.[] (omega arith)

pub decimal-injective : (m n : ℕ) → decimal m ≡ decimal n → m ≡ n
decimal-injective m n h = sym (read_decimal-decimal m) ∙ ap read_decimal h ∙ read_decimal-decimal n
