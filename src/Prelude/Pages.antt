-- ===== src/Prelude/Pages.antt =====
-- Lists read page by page.
use Prim.Native.Nat.{ℕ, zero, suc, ◌+◌, ◌<◌}
use mathlib.Core.Path.{◌≡◌, refl, ap, sym, ◌∙◌}
use mathlib.Core.Logic.{◌⊎◌, inl, inr}
use mathlib.Core.List.{List, [], ◌∷◌, map}
use native.Mathlib.Omega.{arith}
use ai_dial_generic_rag_back.Prelude.Lists.{length, take, drop}

module _ {ℓ} {A : Type ℓ} where
  pub take_empty : (n : ℕ) (xs : List A) → 0 < n → take n xs ≡ [] → xs ≡ []
  take_empty zero xs pos h = absurd (omega arith)
  take_empty (suc n) [] pos h = refl
  take_empty (suc n) (x ∷ xs) pos h = cc

  pub List-cases : (xs : List A) → (xs ≡ []) ⊎ ((x : A) × (ys : List A) × (xs ≡ x ∷ ys))
  List-cases [] = inl refl
  List-cases (x ∷ xs) = inr (x, xs, refl)

  pub drop-nil : (n : ℕ) → drop {A = A} n [] ≡ []
  drop-nil zero = refl
  drop-nil (suc n) = refl

  pub drop-add : (m n : ℕ) (xs : List A) → drop (m + n) xs ≡ drop n (drop m xs)
  drop-add zero n xs = ap (λ k. drop k xs) (omega arith)
  drop-add (suc m) n (x ∷ xs) =
      let e : suc m + n ≡ suc (m + n) = omega arith in ap (λ k. drop k (x ∷ xs)) e ∙ drop-add m n xs
  drop-add (suc m) n [] =
      let e : suc m + n ≡ suc (m + n) = omega arith in ap (λ k. drop k []) e ∙ sym (drop-nil n)

  pub drop-length : (n : ℕ) (xs : List A) → drop (length (take n xs)) xs ≡ drop n xs
  drop-length zero xs = refl
  drop-length (suc n) [] = refl
  drop-length (suc n) (x ∷ xs) = drop-length n xs

module _ {ℓ κ} {A : Type ℓ} {B : Type κ} (f : A → B) where
  pub map-take : (n : ℕ) (xs : List A) → map f (take n xs) ≡ take n (map f xs)
  map-take zero xs = refl
  map-take (suc n) [] = refl
  map-take (suc n) (x ∷ xs) = ap (◌∷◌ (f x)) (map-take n xs)

  pub map-drop : (n : ℕ) (xs : List A) → map f (drop n xs) ≡ drop n (map f xs)
  map-drop zero xs = refl
  map-drop (suc n) [] = refl
  map-drop (suc n) (x ∷ xs) = map-drop n xs

  pub length-map : (xs : List A) → length (map f xs) ≡ length xs
  length-map [] = refl
  length-map (x ∷ xs) = ap suc (length-map xs)
