-- ===== src/Prelude/Distinct.antt =====
-- Lists without repetition, by the Boolean test of their elements.
use mathlib.Core.Path.{◌≡◌, refl}
use mathlib.Core.Bool.{Bool, false}
use mathlib.Core.Logic.{inl, inr}
use mathlib.Core.List.{List, [], ◌∷◌, ◌++◌, map}
use native.Mathlib.Omega.{arith}
use ai_dial_generic_rag_back.Prelude.Tests.{Bool-cases}
use ai_dial_generic_rag_back.Prelude.Lists.{keep}
use ai_dial_generic_rag_back.Prelude.Equality.{Hashable, contains, contains-append}

module _ {ℓ} {K : Type ℓ} ⦃h : Hashable K⦄ where
  abbrev pub Distinct : List K → Type 0
  Distinct [] = Unit
  Distinct (k ∷ ks) = (contains ks k ≡ false) × Distinct ks

  pub Distinct-append_one :
      (ks : List K) (k : K) → Distinct ks → contains ks k ≡ false → Distinct (ks ++ k ∷ [])
  Distinct-append_one [] k d fresh = (refl, tt)
  Distinct-append_one (j ∷ ks) k d fresh = (
    ground (arith, contains-append ks (k ∷ []) j, h.same_iff j k, h.same_iff k j),
    Distinct-append_one ks k d.1 (ground arith),
  )

module _ {ℓ κ} {A : Type ℓ} {K : Type κ} ⦃h : Hashable K⦄ (key : A → K) where
  pub contains-keep :
      (test : A → Bool) (xs : List A) (k : K)
      → contains (map key xs) k ≡ false
      → contains (map key (keep test xs)) k ≡ false
  contains-keep test [] k fresh = refl
  contains-keep test (x ∷ xs) k fresh = elim (Bool-cases (test x)) [
    | inl e ↦ rw e (ground (arith, contains-keep test xs k))
    | inr e ↦ rw e (contains-keep test xs k (ground arith))
  ]

  pub Distinct-keep :
      (test : A → Bool) (xs : List A) → Distinct (map key xs) → Distinct (map key (keep test xs))
  Distinct-keep test [] d = tt
  Distinct-keep test (x ∷ xs) d = elim (Bool-cases (test x)) [
    | inl e ↦ rw e (contains-keep test xs (key x) d.0, Distinct-keep test xs d.1)
    | inr e ↦ rw e (Distinct-keep test xs d.1)
  ]
