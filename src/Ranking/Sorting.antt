-- ===== src/Ranking/Sorting.antt =====
-- The stable descending sort of `rank_fusion`.
use ai_dial_generic_rag_back.Prelude.{
  ◌≡◌, refl, ◌∙◌, Bool, true, false, not, ◌&&◌, none, some, List, [], ◌∷◌, arith, if◌then◌else◌,
  Bool-cases, inl, inr, All, keep,
}
use ai_dial_generic_rag_back.Prelude.Equality.{Hashable}
use ai_dial_generic_rag_back.Ranking.{Floats, insert_by, sort_by}
use ai_dial_generic_rag_back.Ranking.Unique.{find_key, DistinctKeys}

-- The order of floats, NaN apart.
pub record IsOrdered (f : Floats) : Type 0 where
  pub asym : (a b : f.Float) → f.less a b ≡ true → f.less b a ≡ false
  pub trans : (a b c : f.Float) → f.less a b ≡ false → f.less b c ≡ false → f.less a c ≡ false

module _ (f : Floats) where
  -- Each element scores at least as much as every later one.
  abbrev pub IsDescending {ℓ} : {T : Type ℓ} → (T → f.Float) → List T → Type 0
  IsDescending score [] = Unit
  IsDescending score (x ∷ xs) =
      All (λ y. f.less (score x) (score y) ≡ false) xs × IsDescending score xs

  -- Neither score is below the other.
  abbrev pub tied : f.Float → f.Float → Bool
  tied a b = not (f.less a b) && not (f.less b a)

  module _ {ℓ} {T : Type ℓ} (score : T → f.Float) where
    All-insert_by :
        (P : T → Type 0) (x : T) (xs : List T) → P x → All P xs → All P (insert_by f score x xs)
    unfolding insert_by
    All-insert_by P x [] p h = (p, tt)
    All-insert_by P x (y ∷ ys) p h = elim (Bool-cases (f.less (score x) (score y))) [
      | inl lt ↦ rw lt (h.0, All-insert_by P x ys p h.1)
      | inr ge ↦ rw ge (p, h)
    ]

    module _ (o : IsOrdered f) where
      All-trans :
          (x y : T) (ys : List T)
          → f.less (score x) (score y) ≡ false
          → All (λ z. f.less (score y) (score z) ≡ false) ys
          → All (λ z. f.less (score x) (score z) ≡ false) ys
      All-trans x y [] p h = tt
      All-trans x y (z ∷ zs) p h =
          (o.trans (score x) (score y) (score z) p h.0, All-trans x y zs p h.1)

      insert_by-IsDescending :
          (x : T) (xs : List T)
          → IsDescending score xs
          → IsDescending score (insert_by f score x xs)
      unfolding insert_by
      insert_by-IsDescending x [] h = (tt, tt)
      insert_by-IsDescending x (y ∷ ys) h = elim (Bool-cases (f.less (score x) (score y))) [
        | inl lt ↦ rw lt (
          All-insert_by (λ z. f.less (score y) (score z) ≡ false) x ys
              (o.asym (score x) (score y) lt) h.0,
          insert_by-IsDescending x ys h.1,
        )
        | inr ge ↦ rw ge ((ge, All-trans x y ys ge h.0), h)
      ]

      pub sort_by-IsDescending : (xs : List T) → IsDescending score (sort_by f score xs)
      unfolding sort_by
      sort_by-IsDescending [] = tt
      sort_by-IsDescending (x ∷ xs) =
          insert_by-IsDescending x (sort_by f score xs) (sort_by-IsDescending xs)

      keep-insert_by :
          (s : f.Float) (x : T) (xs : List T)
          → keep (λ y. tied (score y) s) (insert_by f score x xs)
            ≡ keep (λ y. tied (score y) s) (x ∷ xs)
      unfolding insert_by
      keep-insert_by s x [] = refl
      keep-insert_by s x (y ∷ ys) =
          ground (arith, keep-insert_by s x ys, o.trans (score x) s (score y))

      -- Elements with one score keep their order.
      pub sort_by_stable :
          (s : f.Float) (xs : List T)
          → keep (λ y. tied (score y) s) (sort_by f score xs) ≡ keep (λ y. tied (score y) s) xs
      unfolding sort_by
      sort_by_stable s [] = refl
      sort_by_stable s (x ∷ xs) =
          keep-insert_by s x (sort_by f score xs) ∙ ground (arith, sort_by_stable s xs)

  module _ {ℓ κ} {T : Type ℓ} {K : Type κ} ⦃e : Hashable K⦄ (key : T → K)
      (score : T → f.Float) where
    find_key-insert_by :
        (x : T) (xs : List T) (k : K)
        → find_key key (key x) xs ≡ none
        → find_key key k (insert_by f score x xs)
          ≡ (if e.same (key x) k then some x else find_key key k xs)
    unfolding insert_by find_key
    find_key-insert_by x [] k h = refl
    find_key-insert_by x (y ∷ ys) k h = ground (
      arith,
      find_key-insert_by x ys k,
      e.same_iff (key x) k,
      e.same_iff (key y) k,
      e.same_iff (key y) (key x),
    )

    DistinctKeys-insert_by :
        (x : T) (xs : List T)
        → find_key key (key x) xs ≡ none
        → DistinctKeys key xs
        → DistinctKeys key (insert_by f score x xs)
    unfolding insert_by
    DistinctKeys-insert_by x [] h d = (h, tt)
    DistinctKeys-insert_by x (y ∷ ys) h d = elim (Bool-cases (f.less (score x) (score y))) [
      | inr ge ↦ rw (ge, insert_by) (h, d)
      | inl lt ↦
          rw (lt, insert_by)
            (
              unfold find_key in
                  ground (
                    arith,
                    find_key-insert_by x ys (key y),
                    e.same_iff (key x) (key y),
                    e.same_iff (key y) (key x),
                  ),
              DistinctKeys-insert_by x ys
                  (unfold find_key in ground (arith, e.same_iff (key y) (key x))) d.1,
            )
    ]

    -- Sorting keeps the element of each key.
    pub find_key-sort_by :
        (xs : List T) (k : K)
        → DistinctKeys key xs
        → find_key key k (sort_by f score xs) ≡ find_key key k xs
    unfolding sort_by find_key
    find_key-sort_by [] k d = refl
    find_key-sort_by (x ∷ xs) k d =
        find_key-insert_by x (sort_by f score xs) k (find_key-sort_by xs (key x) d.1 ∙ d.0)
        ∙ ground (arith, find_key-sort_by xs k)

    pub DistinctKeys-sort_by :
        (xs : List T) → DistinctKeys key xs → DistinctKeys key (sort_by f score xs)
    unfolding sort_by
    DistinctKeys-sort_by [] d = tt
    DistinctKeys-sort_by (x ∷ xs) d =
        DistinctKeys-insert_by x (sort_by f score xs) (find_key-sort_by xs (key x) d.1 ∙ d.0)
          (DistinctKeys-sort_by xs d.1)
