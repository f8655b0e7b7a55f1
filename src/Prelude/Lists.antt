-- ===== src/Prelude/Lists.antt =====
-- Lists measured and sliced by native numbers, under the library's names, and the list facts that
-- several components share.
use Prim.Native.Nat.{ℕ, zero, suc, ◌+◌, ◌-◌, ◌≤◌, min}
use mathlib.Core.Path.{◌≡◌, refl, ap}
use mathlib.Core.Bool.{Bool, true, not}
use mathlib.Core.Logic.{inl, inr}
use mathlib.Core.List.{List, [], ◌∷◌, ◌++◌, append_assoc}
use mathlib.Core.Option.{Option, none, some}
use native.Mathlib.Omega.{arith}
use ai_dial_generic_rag_back.Prelude.Tests.{Bool-cases, if◌then◌else◌}

module _ {ℓ} {A : Type ℓ} where
  abbrev pub length : List A → ℕ
  length [] = 0
  length (x ∷ xs) = suc (length xs)

  abbrev pub get_elem? : List A → ℕ → Option A
  get_elem? [] i = none
  get_elem? (x ∷ xs) zero = some x
  get_elem? (x ∷ xs) (suc i) = get_elem? xs i

  abbrev pub take : ℕ → List A → List A
  take zero xs = []
  take (suc n) [] = []
  take (suc n) (x ∷ xs) = x ∷ take n xs

  abbrev pub drop : ℕ → List A → List A
  drop zero xs = xs
  drop (suc n) [] = []
  drop (suc n) (x ∷ xs) = drop n xs

  -- `[x for x in xs if test(x)]`
  abbrev pub keep : (A → Bool) → List A → List A
  keep test [] = []
  keep test (x ∷ xs) = let rest = keep test xs in if test x then x ∷ rest else rest

  -- `[y for xs in xss for y in xs]`
  abbrev pub concat : List (List A) → List A
  concat [] = []
  concat (xs ∷ xss) = xs ++ concat xss

  pub length-append : (xs ys : List A) → length (xs ++ ys) ≡ length xs + length ys
  length-append [] ys = omega arith
  length-append (x ∷ xs) ys = omega (arith, length-append xs ys)

  pub length-keep-le : (test : A → Bool) (xs : List A) → length (keep test xs) ≤ length xs
  length-keep-le test [] = omega arith
  length-keep-le test (x ∷ xs) = ground (arith, length-keep-le test xs)

  pub keep-append :
      (test : A → Bool) (xs ys : List A) → keep test (xs ++ ys) ≡ keep test xs ++ keep test ys
  keep-append test [] ys = refl
  keep-append test (x ∷ xs) ys = elim (Bool-cases (test x)) [
    | inl e ↦ rw e (ap (◌∷◌ x) (keep-append test xs ys))
    | inr e ↦ rw e (keep-append test xs ys)
  ]

  -- What a test drops, and what it keeps, does not change when it is kept again.
  pub keep-not : (test : A → Bool) (xs : List A) → keep test (keep (λ x. not (test x)) xs) ≡ []
  keep-not test [] = refl
  keep-not test (x ∷ xs) = elim (Bool-cases (test x)) [
    | inl e ↦ rw e (keep-not test xs)
    | inr e ↦ rw e (rw e (keep-not test xs))
  ]

  pub keep-keep : (test : A → Bool) (xs : List A) → keep test (keep test xs) ≡ keep test xs
  keep-keep test [] = refl
  keep-keep test (x ∷ xs) = elim (Bool-cases (test x)) [
    | inl e ↦ rw e (rw e (ap (◌∷◌ x) (keep-keep test xs)))
    | inr e ↦ rw e (keep-keep test xs)
  ]

  -- Python's `xs[:n]` where `n` is not below the length.
  pub take_of_length-le : (limit : ℕ) (xs : List A) → length xs ≤ limit → take limit xs ≡ xs
  take_of_length-le zero [] h = refl
  take_of_length-le (suc m) [] h = refl
  take_of_length-le (suc m) (x ∷ xs) h = ap (◌∷◌ x) (take_of_length-le m xs (omega arith))
  take_of_length-le zero (x ∷ xs) h = absurd (omega arith)

  pub take-nil : (n : ℕ) → take n [] ≡ []
  take-nil zero = refl
  take-nil (suc n) = refl

  pub take-append-drop : (n : ℕ) (xs : List A) → take n xs ++ drop n xs ≡ xs
  take-append-drop zero xs = refl
  take-append-drop (suc n) [] = refl
  take-append-drop (suc n) (x ∷ xs) = rw (take-append-drop n xs)

  pub length-take : (n : ℕ) (xs : List A) → length (take n xs) ≡ min n (length xs)
  length-take zero xs = omega arith
  length-take (suc n) [] = omega arith
  length-take (suc n) (x ∷ xs) = omega (arith, length-take n xs)

  pub length-drop : (n : ℕ) (xs : List A) → length (drop n xs) ≡ length xs - n
  length-drop zero xs = omega arith
  length-drop (suc n) [] = omega arith
  length-drop (suc n) (x ∷ xs) = omega (arith, length-drop n xs)

  pub concat-append : (xss yss : List (List A)) → concat (xss ++ yss) ≡ concat xss ++ concat yss
  concat-append [] yss = refl
  concat-append (xs ∷ xss) yss = rw (concat-append xss yss, append_assoc)

module _ {ℓ κ} {A : Type ℓ} where
  -- A predicate that holds of each element.
  abbrev pub All : (A → Type κ) → List A → Type κ
  All P [] = Unit
  All P (x ∷ xs) = P x × All P xs

  pub All-append : (P : A → Type κ) (xs ys : List A) → All P xs → All P ys → All P (xs ++ ys)
  All-append P [] ys h k = k
  All-append P (x ∷ xs) ys h k = (h.0, All-append P xs ys h.1 k)

  pub All-keep : (P : A → Type κ) (test : A → Bool) (xs : List A) → All P xs → All P (keep test xs)
  All-keep P test [] h = tt
  All-keep P test (x ∷ xs) h = elim (Bool-cases (test x)) [
    | inl kept ↦ rw kept (h.0, All-keep P test xs h.1)
    | inr other ↦ rw other (All-keep P test xs h.1)
  ]

-- What is kept passes the test.
pub All-keep-test {ℓ} :
    {A : Type ℓ} (test : A → Bool) (xs : List A) → All (λ x. test x ≡ true) (keep test xs)
All-keep-test test [] = tt
All-keep-test test (x ∷ xs) = elim (Bool-cases (test x)) [
  | inl kept ↦ rw kept (kept, All-keep-test test xs)
  | inr other ↦ rw other (All-keep-test test xs)
]
