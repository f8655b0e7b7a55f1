-- ===== src/Prelude/Decimal.antt =====
-- `str(n)` of a number: its decimal digits.
use Prim.Native.Nat.{ℕ, zero, suc, ◌+◌, ◌-◌, ◌*◌, ◌/◌, ◌%◌, ◌<◌, ◌≤◌}
use mathlib.Core.Path.{◌≡◌, refl}
use mathlib.Core.List.{List, [], ◌∷◌, ◌++◌}
use mathlib.Core.Logic.{inl, inr}
use native.Mathlib.Omega.{arith}
use ai_dial_generic_rag_back.Prelude.Lists.{All, All-append}
use ai_dial_generic_rag_back.Prelude.Tests.{ltb, if◌then◌else◌, Bool-cases}

-- The digits of a number below the fuel.
decimal_from : (fuel : ℕ) → ℕ → List ℕ
decimal_from zero n = []
decimal_from (suc fuel) n =
    let higher = decimal_from fuel (n / 10) in
    if ltb n 10 then (b'0' + n) ∷ [] else higher ++ (b'0' + n % 10) ∷ []

unfoldable pub decimal : ℕ → List ℕ
unfolding decimal_from
decimal n = decimal_from (n + 1) n

-- What the digits say, behind those with the value `v`.
abbrev pub read_decimal : ℕ → List ℕ → ℕ
read_decimal v [] = v
read_decimal v (c ∷ cs) = read_decimal (10 * v + (c - b'0')) cs

read_decimal-append :
    (v : ℕ) (xs : List ℕ) (c : ℕ)
    → read_decimal v (xs ++ c ∷ []) ≡ 10 * read_decimal v xs + (c - b'0')
read_decimal-append v [] c = refl
read_decimal-append v (x ∷ xs) c = read_decimal-append (10 * v + (x - b'0')) xs c

read_decimal-decimal_from : (fuel n : ℕ) → n < fuel → read_decimal 0 (decimal_from fuel n) ≡ n
unfolding decimal_from
read_decimal-decimal_from zero n h = absurd (omega arith)
read_decimal-decimal_from (suc fuel) n h = elim (Bool-cases (ltb n 10)) [
  | inl e ↦ rw e (omega arith)
  | inr e ↦
      rw (e, read_decimal-append 0 (decimal_from fuel (n / 10)) (b'0' + n % 10))
        (let higher = read_decimal-decimal_from fuel (n / 10) (ground arith) in
          omega (arith, higher))
]

-- The fuel is enough: the digits of a number say the number.
pub read_decimal-decimal : (n : ℕ) → read_decimal 0 (decimal n) ≡ n
unfolding decimal
read_decimal-decimal n = read_decimal-decimal_from (n + 1) n (omega arith)

-- A text of digits.
abbrev pub AreDigits : List ℕ → Type 0
AreDigits = All (λ c. b'0' ≤ c)

decimal_from-AreDigits : (fuel n : ℕ) → AreDigits (decimal_from fuel n)
unfolding decimal_from
decimal_from-AreDigits zero n = tt
decimal_from-AreDigits (suc fuel) n = elim (Bool-cases (ltb n 10)) [
  | inl e ↦ rw e (omega arith, tt)
  | inr e ↦ rw e (
      All-append (λ c. b'0' ≤ c) (decimal_from fuel (n / 10)) _
        (decimal_from-AreDigits fuel (n / 10)) (omega arith, tt))
]

pub decimal-AreDigits : (n : ℕ) → AreDigits (decimal n)
unfolding decimal
decimal-AreDigits n = decimal_from-AreDigits (n + 1) n
