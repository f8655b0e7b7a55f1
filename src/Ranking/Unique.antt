-- ===== src/Ranking/Unique.antt =====
-- `_unique_by_key` of src/generic_rag/utils/ranking.py, and what it keeps.
use ai_dial_generic_rag_back.Prelude.{
  ◌≡◌, true, false, Option, none, some, List, [], ◌∷◌, ◌++◌, arith, if◌then◌else◌, Bool-cases, inl,
  inr,
}
use ai_dial_generic_rag_back.Prelude.Equality.{Hashable, contains, contains-append, same_refl}

module _ {ℓ κ} {T : Type ℓ} {K : Type κ} ⦃e : Hashable K⦄ (key : T → K) where
  -- `seen` is the set of the keys met so far.
  unfoldable pub unique_by_key : List K → List T → List T
  unique_by_key seen [] = []
  unique_by_key seen (x ∷ xs) = elim (contains seen (key x)) [
    | true ↦ unique_by_key seen xs
    | false ↦ x ∷ unique_by_key (seen ++ key x ∷ []) xs
  ]

  -- The first element with a key.
  unfoldable pub find_key : K → List T → Option T
  find_key k [] = none
  find_key k (x ∷ xs) = if e.same (key x) k then some x else find_key k xs

  -- No key stands twice.
  abbrev pub DistinctKeys : List T → Type (ℓ ⊔ κ)
  DistinctKeys [] = Unit
  DistinctKeys (x ∷ xs) = (find_key (key x) xs ≡ none) × DistinctKeys xs

  -- The first element with a key stays, unless the key was seen before.
  pub find_key_unique :
      (seen : List K) (xs : List T) (k : K)
      → find_key k (unique_by_key seen xs) ≡ (if contains seen k then none else find_key k xs)
  unfolding unique_by_key find_key
  find_key_unique seen [] k = ground arith
  find_key_unique seen (x ∷ xs) k = elim (Bool-cases (contains seen (key x))) [
    | inl old ↦ ground (arith, find_key_unique seen xs k, e.same_iff (key x) k)
    | inr new ↦ ground (
      arith,
      find_key_unique (seen ++ key x ∷ []) xs k,
      e.same_iff (key x) k,
      contains-append seen (key x ∷ []) k,
    )
  ]

  pub unique_of_seen :
      (seen : List K) (x : T) (xs : List T)
      → contains seen (key x) ≡ true
      → unique_by_key seen (x ∷ xs) ≡ unique_by_key seen xs
  unfolding unique_by_key
  unique_of_seen seen x xs h = rw (h, unique_by_key)

  pub unique_of_new :
      (seen : List K) (x : T) (xs : List T)
      → contains seen (key x) ≡ false
      → unique_by_key seen (x ∷ xs) ≡ x ∷ unique_by_key (seen ++ key x ∷ []) xs
  unfolding unique_by_key
  unique_of_new seen x xs h = rw (h, unique_by_key)

  pub unique-DistinctKeys : (seen : List K) (xs : List T) → DistinctKeys (unique_by_key seen xs)
  unique-DistinctKeys seen [] = unfold unique_by_key in tt
  unique-DistinctKeys seen (x ∷ xs) = elim (Bool-cases (contains seen (key x))) [
    | inl old ↦ rw (unique_of_seen seen x xs old) (unique-DistinctKeys seen xs)
    | inr new ↦ rw (unique_of_new seen x xs new) (
      ground (
        arith,
        find_key_unique (seen ++ key x ∷ []) xs (key x),
        contains-append seen (key x ∷ []) (key x),
        same_refl (key x),
      ),
      unique-DistinctKeys (seen ++ key x ∷ []) xs,
    )
  ]
