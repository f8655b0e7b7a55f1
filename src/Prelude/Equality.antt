-- ===== src/Prelude/Equality.antt =====
-- Python's `==` and `in`: a Boolean test with its law, found as an instance.
use Prim.Native.Nat.{ℕ}
use Prim.Native.String.{String}
use mathlib.Core.Path.{◌≡◌, refl}
use mathlib.Core.Bool.{Bool, true, false, ◌||◌, ◌&&◌}
use mathlib.Core.List.{List, [], ◌∷◌, ◌++◌}
use mathlib.Core.Logic.{◌↔◌}
use native.Mathlib.Omega.{arith}
use text.Mathlib.Text.{◌==◌ as str_eq}
use text.Mathlib.TextEquality.{eq_iff}
use ai_dial_generic_rag_back.Prelude.Tests.{◌==◌ as nat_beq, ==_iff}

-- What Python needs of the keys of a dictionary and the elements of a set.
pub record Hashable {ℓ} (K : Type ℓ) : Type ℓ where
  pub same : K → K → Bool
  pub same_iff : (k j : K) → (same k j ≡ true) ↔ (k ≡ j)

instance abbrev pub string_key : Hashable String
string_key = record { same = str_eq; same_iff = eq_iff }

instance abbrev pub nat_key : Hashable ℕ
nat_key = record { same = nat_beq; same_iff = ==_iff }

module _ {ℓ κ} {A : Type ℓ} {B : Type κ} ⦃e : Hashable A⦄ ⦃f : Hashable B⦄ where
  abbrev pub pair_same : A × B → A × B → Bool
  pair_same (a, b) (c, d) = e.same a c && f.same b d

  pub pair_same_iff : (p q : A × B) → (pair_same p q ≡ true) ↔ (p ≡ q)
  pair_same_iff (a, b) (c, d) = (
    λ h. ground (arith, e.same_iff a c, f.same_iff b d),
    λ h. ground (arith, e.same_iff a c, f.same_iff b d),
  )

  instance abbrev pub pair_key : Hashable (A × B)
  pair_key = record { same = pair_same; same_iff = pair_same_iff }

module _ {ℓ} {A : Type ℓ} ⦃e : Hashable A⦄ where
  pub same_refl : (a : A) → e.same a a ≡ true
  same_refl a = (e.same_iff a a).1 refl

  -- `a in xs`
  abbrev pub contains : List A → A → Bool
  contains [] a = false
  contains (x ∷ xs) a = e.same x a || contains xs a

  pub contains-append :
      (xs ys : List A) (a : A) → contains (xs ++ ys) a ≡ (contains xs a || contains ys a)
  contains-append [] ys a = refl
  contains-append (x ∷ xs) ys a = ground (arith, contains-append xs ys a)

  abbrev pub list_same : List A → List A → Bool
  list_same [] [] = true
  list_same [] (y ∷ ys) = false
  list_same (x ∷ xs) [] = false
  list_same (x ∷ xs) (y ∷ ys) = e.same x y && list_same xs ys

  pub list_same_iff : (xs ys : List A) → (list_same xs ys ≡ true) ↔ (xs ≡ ys)
  list_same_iff [] [] = (λ h. refl, λ h. refl)
  list_same_iff [] (y ∷ ys) = (λ h. cc, λ h. cc)
  list_same_iff (x ∷ xs) [] = (λ h. cc, λ h. cc)
  list_same_iff (x ∷ xs) (y ∷ ys) = (
    λ h. ground (arith, e.same_iff x y, list_same_iff xs ys),
    λ h. ground (arith, e.same_iff x y, list_same_iff xs ys),
  )

  instance abbrev pub list_key : Hashable (List A)
  list_key = record { same = list_same; same_iff = list_same_iff }
