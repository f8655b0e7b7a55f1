-- ===== src/Ranking/Scores.antt =====
-- The score that the loops of `rank_fusion` add up for a key.
use ai_dial_generic_rag_back.Prelude.{
  ℕ, ◌+◌, ◌≡◌, refl, ap, ◌∙◌, Option, none, some, List, [], ◌∷◌, arith, if◌then◌else◌, Bool-cases,
  inl, inr, All,
}
use ai_dial_generic_rag_back.Prelude.Equality.{Hashable}
use ai_dial_generic_rag_back.Ranking.{Floats, score_of, add_score, score_list, score_lists}
use ai_dial_generic_rag_back.Ranking.Unique.{find_key, DistinctKeys}

module _ {ℓ κ} (f : Floats) {T : Type ℓ} {K : Type κ} ⦃e : Hashable K⦄ (key : T → K) where
  -- The rank of the first document with a key, where the first document of the list has `rank`.
  unfoldable pub rank_of : ℕ → List T → K → Option ℕ
  rank_of rank [] k = none
  rank_of rank (doc ∷ docs) k = if e.same (key doc) k then some rank else rank_of (rank + 1) docs k

  abbrev add_share : f.Float → f.Float → ℕ → Option ℕ → f.Float
  add_share s weight c none = s
  add_share s weight c (some rank) = f.plus s (f.divide weight (rank + c))

  -- The formula of the method: each list that holds the key adds `weight / (rank + c)`.
  abbrev pub rrf_from : f.Float → ℕ → List (List T) → List f.Float → K → f.Float
  rrf_from s c (docs ∷ doc_lists) (weight ∷ weights) k =
      rrf_from (add_share s weight c (rank_of 1 docs k)) c doc_lists weights k
  rrf_from s c _ _ k = s

  score_of-add_score :
      (j k : K) (x : f.Float) (scores : List (K × f.Float))
      → score_of f key (add_score f key j x scores) k
        ≡ (if e.same j k then f.plus (score_of f key scores k) x else score_of f key scores k)
  unfolding score_of add_score
  score_of-add_score j k x [] = refl
  score_of-add_score j k x ((i, s) ∷ scores) =
      ground
        (arith, score_of-add_score j k x scores, e.same_iff i j, e.same_iff j k, e.same_iff i k)

  -- A key that a list does not hold gains nothing from it.
  score_list_absent :
      (weight : f.Float) (c rank : ℕ) (docs : List T) (scores : List (K × f.Float)) (k : K)
      → find_key key k docs ≡ none
      → score_of f key (score_list f key weight c rank docs scores) k ≡ score_of f key scores k
  unfolding score_list find_key
  score_list_absent weight c rank [] scores k h = refl
  score_list_absent weight c rank (doc ∷ docs) scores k h =
      score_list_absent weight c (rank + 1) docs
        (add_score f key (key doc) (f.divide weight (rank + c)) scores) k (ground arith)
      ∙ ground (arith, score_of-add_score (key doc) k (f.divide weight (rank + c)) scores)

  score_list_lem :
      (weight : f.Float) (c rank : ℕ) (docs : List T) (scores : List (K × f.Float)) (k : K)
      → DistinctKeys key docs
      → score_of f key (score_list f key weight c rank docs scores) k
        ≡ add_share (score_of f key scores k) weight c (rank_of rank docs k)
  unfolding score_list rank_of
  score_list_lem weight c rank [] scores k d = refl
  score_list_lem weight c rank (doc ∷ docs) scores k d = elim (Bool-cases (e.same (key doc) k)) [
    | inl same ↦
        score_list_absent weight c (rank + 1) docs
          (add_score f key (key doc) (f.divide weight (rank + c)) scores) k
          (ground (arith, e.same_iff (key doc) k))
        ∙ ground (arith, score_of-add_score (key doc) k (f.divide weight (rank + c)) scores)
    | inr other ↦
        score_list_lem weight c (rank + 1) docs
          (add_score f key (key doc) (f.divide weight (rank + c)) scores) k d.1
        ∙ ground (arith, score_of-add_score (key doc) k (f.divide weight (rank + c)) scores)
  ]

  -- Where no list holds a key twice, the loops compute the formula.
  pub score_lists_lem :
      (c : ℕ) (doc_lists : List (List T)) (weights : List f.Float) (scores : List (K × f.Float))
      (k : K)
      → All (DistinctKeys key) doc_lists
      → score_of f key (score_lists f key c doc_lists weights scores) k
        ≡ rrf_from (score_of f key scores k) c doc_lists weights k
  unfolding score_lists
  score_lists_lem c [] weights scores k d = refl
  score_lists_lem c (docs ∷ doc_lists) [] scores k d = refl
  score_lists_lem c (docs ∷ doc_lists) (weight ∷ weights) scores k d =
      score_lists_lem c doc_lists weights (score_list f key weight c 1 docs scores) k d.1
      ∙ ap (λ s. rrf_from s c doc_lists weights k) (score_list_lem weight c 1 docs scores k d.0)
