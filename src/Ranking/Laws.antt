-- ===== src/Ranking/Laws.antt =====
-- What `rank_fusion` returns.
use ai_dial_generic_rag_back.Prelude.{
  ℕ, ◌≡◌, sym, subst, ◌∙◌, fun_ext, Option, none, some, List, [], ◌∷◌, arith, concat, All, keep,
  length, ==_iff,
}
use ai_dial_generic_rag_back.Prelude.Equality.{Hashable}
use ai_dial_generic_rag_back.Ranking.{
  Floats, sort_by, ok, score_of, score_lists, calculate, replicate, rank_fusion,
}
use ai_dial_generic_rag_back.Ranking.Unique.{
  unique_by_key, find_key, find_key_unique, DistinctKeys, unique-DistinctKeys,
}
use ai_dial_generic_rag_back.Ranking.Sorting.{
  IsOrdered, IsDescending, tied, sort_by-IsDescending, sort_by_stable, find_key-sort_by,
  DistinctKeys-sort_by,
}
use ai_dial_generic_rag_back.Ranking.Scores.{rrf_from, score_lists_lem}

module _ {ℓ κ} (f : Floats) {T : Type ℓ} {K : Type κ} ⦃e : Hashable K⦄ (key : T → K) where
  abbrev pub rrf : ℕ → List (List T) → List f.Float → T → f.Float
  rrf c doc_lists weights doc = rrf_from f key f.zero c doc_lists weights (key doc)

  -- The fusion of some lists: each key of theirs once, with its first document, in descending
  -- order of the formula's score, equal scores in order of first appearance.
  pub record IsFusion (doc_lists : List (List T)) (weights : List f.Float) (c : ℕ) (docs : List T)
      : Type (ℓ ⊔ κ) where
    pub distinct : DistinctKeys key docs
    pub complete : (k : K) → find_key key k docs ≡ find_key key k (concat doc_lists)
    pub descending : IsDescending f (rrf c doc_lists weights) docs
    pub stable :
        (s : f.Float)
        → keep (λ doc. tied f (rrf c doc_lists weights doc) s) docs
          ≡ keep
              (λ doc. tied f (rrf c doc_lists weights doc) s)
              (unique_by_key key [] (concat doc_lists))

  calculate-IsFusion :
      (doc_lists : List (List T)) (weights : List f.Float) (c : ℕ)
      → IsOrdered f
      → All (DistinctKeys key) doc_lists
      → IsFusion doc_lists weights c (calculate f key doc_lists weights c)
  unfolding calculate score_of
  calculate-IsFusion doc_lists weights c o d = record {
    distinct = DistinctKeys-sort_by f key score docs once;
    complete =
        λ k. find_key-sort_by f key score docs k once ∙ find_key_unique key [] (concat doc_lists) k;
    descending =
        subst (λ s. IsDescending f s (sort_by f score docs)) same
          (sort_by-IsDescending f score o docs);
    stable = λ s.
        subst
          (λ g.
            keep (λ doc. tied f (g doc) s) (sort_by f score docs)
            ≡ keep (λ doc. tied f (g doc) s) docs)
          same (sort_by_stable f score o s docs);
  }
    where
      docs : List T
      docs = unique_by_key key [] (concat doc_lists)

      score : T → f.Float
      score doc = score_of f key (score_lists f key c doc_lists weights []) (key doc)

      once : DistinctKeys key docs
      once = unique-DistinctKeys key [] (concat doc_lists)

      same : score ≡ rrf c doc_lists weights
      same = fun_ext λ doc. score_lists_lem f key c doc_lists weights [] (key doc) d

  -- The weights in force: those given, or 1 / n for each of n lists.
  abbrev pub effective : ℕ → Option (List f.Float) → List f.Float
  effective n none = replicate n (f.inverse n)
  effective n (some weights) = weights

  rank_fusion_runs :
      (docs : List T) (doc_lists : List (List T)) (weights : Option (List f.Float)) (c : ℕ)
      → length (effective (length (docs ∷ doc_lists)) weights) ≡ length (docs ∷ doc_lists)
      → rank_fusion f key (docs ∷ doc_lists) weights c
        ≡ ok (calculate f key (docs ∷ doc_lists) (effective (length (docs ∷ doc_lists)) weights) c)
  unfolding rank_fusion
  rank_fusion_runs docs doc_lists none c h = rw ((==_iff _ _).1 (sym h))
  rank_fusion_runs docs doc_lists (some (w ∷ ws)) c h = rw ((==_iff _ _).1 (sym h))
  rank_fusion_runs docs doc_lists (some []) c h = absurd (omega arith)

  -- For at least one rank list, none with a key twice, and no weights or one for each list: the
  -- call returns the fusion of the lists under the given weights, by default 1 / n for each of n.
  pub rank_fusion-IsFusion :
      (docs : List T) (doc_lists : List (List T)) (weights : Option (List f.Float)) (c : ℕ)
      → IsOrdered f
      → All (DistinctKeys key) (docs ∷ doc_lists)
      → length (effective (length (docs ∷ doc_lists)) weights) ≡ length (docs ∷ doc_lists)
      → (result : List T) × (rank_fusion f key (docs ∷ doc_lists) weights c ≡ ok result)
        × IsFusion (docs ∷ doc_lists) (effective (length (docs ∷ doc_lists)) weights) c result
  rank_fusion-IsFusion docs doc_lists weights c o d h = (
    calculate f key (docs ∷ doc_lists) (effective (length (docs ∷ doc_lists)) weights) c,
    rank_fusion_runs docs doc_lists weights c h,
    calculate-IsFusion (docs ∷ doc_lists) _ c o d,
  )
