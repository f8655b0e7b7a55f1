-- ===== src/Search/Tests.antt =====
-- A search over repeated rows, and the theorem at an example.
use ai_dial_generic_rag_back.Prelude.{
  ℕ, zero, suc, ◌≤◌, ◌≡◌, refl, ap, ◌∙◌, Option, none, some, List, [], ◌∷◌, take, drop, take-nil,
  length, arith,
}
use ai_dial_generic_rag_back.Prelude.Pages.{drop-nil}
use ai_dial_generic_rag_back.Prelude.Equality.{nat_key}
use ai_dial_generic_rag_back.Ranking.Unique.{unique_by_key}
use ai_dial_generic_rag_back.Search.{vector_search, text_search}
use ai_dial_generic_rag_back.Search.Paging.{relevance_search_lem}

-- Rows of which the fields asked for are alike.
abbrev ranked : List ℕ
ranked = 4 ∷ 4 ∷ 4 ∷ 4 ∷ 1 ∷ 4 ∷ 9 ∷ 1 ∷ []

abbrev page : Option (List ℕ) → ℕ → ℕ → List ℕ
page documents limit offset = take limit (drop offset ranked)

abbrev count : Option (List ℕ) → ℕ
count documents = 8

found : text_search page count 2 none ≡ some (4 ∷ 1 ∷ [])
unfolding text_search
found = refl

drop_of_le : (n : ℕ) (xs : List ℕ) → length xs ≤ n → drop n xs ≡ []
drop_of_le zero [] h = refl
drop_of_le zero (x ∷ xs) h = absurd (omega arith)
drop_of_le (suc n) [] h = drop-nil (suc n)
drop_of_le (suc n) (x ∷ xs) h = drop_of_le n xs (omega arith)

relevance_search_lem_example :
    (vector_search page count 2 none ≡ some (4 ∷ 1 ∷ []))
    × (text_search page count 2 none ≡ some (4 ∷ 1 ∷ []))
unfolding unique_by_key
relevance_search_lem_example =
    relevance_search_lem page count
      (λ documents limit offset h. ap (take limit) (drop_of_le offset ranked h) ∙ take-nil limit) 2
      none
