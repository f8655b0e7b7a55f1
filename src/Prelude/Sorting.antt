-- ===== src/Prelude/Sorting.antt =====
-- A stable sort by a strict order of which only the comparison is given.
use Prim.Native.Nat.{◌+◌}
use mathlib.Core.Path.{◌≡◌, refl}
use mathlib.Core.Bool.{Bool, true, false}
use mathlib.Core.Logic.{inl, inr}
use mathlib.Core.List.{List, [], ◌∷◌}
use native.Mathlib.Omega.{arith}
use ai_dial_generic_rag_back.Prelude.Tests.{if◌then◌else◌, Bool-cases}
use ai_dial_generic_rag_back.Prelude.Lists.{All, keep, length}

module _ {ℓ} {A : Type ℓ} (less : A → A → Bool) where
  pub insert_sorted : A → List A → List A
  insert_sorted x [] = x ∷ []
  insert_sorted x (y ∷ ys) =
      let later = insert_sorted x ys in if less y x then y ∷ later else x ∷ y ∷ ys

  unfoldable pub sorted : List A → List A
  unfolding insert_sorted
  sorted [] = []
  sorted (x ∷ xs) = insert_sorted x (sorted xs)

  -- A strict order in which elements may be tied.
  pub record IsOrder : Type ℓ where
    pub asym : (a b : A) → less a b ≡ true → less b a ≡ false
    pub trans : (a b c : A) → less a b ≡ false → less b c ≡ false → less a c ≡ false

  -- No later element comes before an earlier one.
  abbrev pub IsSorted : List A → Type 0
  IsSorted [] = Unit
  IsSorted (x ∷ xs) = All (λ y. less y x ≡ false) xs × IsSorted xs

  All-insert_sorted {κ} :
      (P : A → Type κ) (x : A) (xs : List A) → P x → All P xs → All P (insert_sorted x xs)
  unfolding insert_sorted
  All-insert_sorted P x [] p h = (p, tt)
  All-insert_sorted P x (y ∷ ys) p h = elim (Bool-cases (less y x)) [
    | inl later ↦ rw later (h.0, All-insert_sorted P x ys p h.1)
    | inr first ↦ rw first (p, h)
  ]

  pub All-sorted {κ} : (P : A → Type κ) (xs : List A) → All P xs → All P (sorted xs)
  unfolding sorted
  All-sorted P [] h = tt
  All-sorted P (x ∷ xs) h = All-insert_sorted P x (sorted xs) h.0 (All-sorted P xs h.1)

  module _ (o : IsOrder) where
    All-trans :
        (x y : A) (zs : List A)
        → less y x ≡ false
        → All (λ z. less z y ≡ false) zs
        → All (λ z. less z x ≡ false) zs
    All-trans x y [] h k = tt
    All-trans x y (z ∷ zs) h k = (o.trans z y x k.0 h, All-trans x y zs h k.1)

    insert_sorted-IsSorted : (x : A) (xs : List A) → IsSorted xs → IsSorted (insert_sorted x xs)
    unfolding insert_sorted
    insert_sorted-IsSorted x [] h = (tt, tt)
    insert_sorted-IsSorted x (y ∷ ys) h = elim (Bool-cases (less y x)) [
      | inl later ↦ rw later (
        All-insert_sorted (λ z. less z y ≡ false) x ys (o.asym y x later) h.0,
        insert_sorted-IsSorted x ys h.1,
      )
      | inr first ↦ rw first ((first, All-trans x y ys first h.0), h)
    ]

    pub sorted-IsSorted : (xs : List A) → IsSorted (sorted xs)
    unfolding sorted
    sorted-IsSorted [] = tt
    sorted-IsSorted (x ∷ xs) = insert_sorted-IsSorted x (sorted xs) (sorted-IsSorted xs)

  count-insert_sorted :
      (test : A → Bool) (x : A) (xs : List A)
      → length (keep test (insert_sorted x xs)) ≡ length (keep test (x ∷ xs))
  unfolding insert_sorted
  count-insert_sorted test x [] = refl
  count-insert_sorted test x (y ∷ ys) = ground (arith, count-insert_sorted test x ys)

  -- As many elements pass any test as before.
  pub count-sorted :
      (test : A → Bool) (xs : List A) → length (keep test (sorted xs)) ≡ length (keep test xs)
  unfolding sorted
  count-sorted test [] = refl
  count-sorted test (x ∷ xs) =
      ground (arith, count-insert_sorted test x (sorted xs), count-sorted test xs)

  length-insert_sorted : (x : A) (xs : List A) → length (insert_sorted x xs) ≡ length xs + 1
  unfolding insert_sorted
  length-insert_sorted x [] = omega arith
  length-insert_sorted x (y ∷ ys) = ground (arith, length-insert_sorted x ys)

  pub length-sorted : (xs : List A) → length (sorted xs) ≡ length xs
  unfolding sorted
  length-sorted [] = refl
  length-sorted (x ∷ xs) = omega (arith, length-insert_sorted x (sorted xs), length-sorted xs)
