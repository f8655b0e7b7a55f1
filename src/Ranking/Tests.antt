-- ===== src/Ranking/Tests.antt =====
-- Runs of `rank_fusion` over scaled numbers in place of floats, and its theorems at examples.
use ai_dial_generic_rag_back.Prelude.{ℕ, ◌+◌, ◌/◌, ◌≡◌, refl, none, some, List, [], ◌∷◌, arith, ltb}
use ai_dial_generic_rag_back.Prelude.Equality.{nat_key}
use ai_dial_generic_rag_back.Ranking.{
  Floats, ok, raise, zero_division_error, value_error, assertion_error, rank_fusion,
}
use ai_dial_generic_rag_back.Ranking.Unique.{find_key}
use ai_dial_generic_rag_back.Ranking.Sorting.{IsOrdered}
use ai_dial_generic_rag_back.Ranking.Laws.{IsFusion, effective, rank_fusion-IsFusion}

abbrev scaled : Floats
scaled = record {
  Float = ℕ;
  zero = 0;
  plus = λ a b. a + b;
  inverse = λ n. 1_000_000 / n;
  divide = λ w n. w / n;
  less = ltb;
}

scaled-IsOrdered : IsOrdered scaled
scaled-IsOrdered = record { asym = λ a b h. ground arith; trans = λ a b c h k. ground arith }

abbrev id : ℕ → ℕ
id x = x

abbrev first : List ℕ
first = 7 ∷ 3 ∷ 9 ∷ []

abbrev second : List ℕ
second = 3 ∷ 5 ∷ []

runs : rank_fusion scaled id (first ∷ second ∷ []) none 60 ≡ ok (3 ∷ 7 ∷ 5 ∷ 9 ∷ [])
unfolding rank_fusion
runs = refl

rank_fusion-IsFusion_example :
    (result : List ℕ) × (rank_fusion scaled id (first ∷ second ∷ []) none 60 ≡ ok result)
    × IsFusion scaled id (first ∷ second ∷ []) (effective scaled id 2 none) 60 result
unfolding find_key
rank_fusion-IsFusion_example =
    rank_fusion-IsFusion scaled id first (second ∷ []) none 60 scaled-IsOrdered
      ((refl, (refl, (refl, tt))), ((refl, (refl, tt)), tt)) refl

wrong_calls :
    (rank_fusion scaled id [] none 60 ≡ raise zero_division_error)
    × (rank_fusion scaled id [] (some []) 60 ≡ raise assertion_error)
    × (rank_fusion scaled id (first ∷ []) (some (1 ∷ 2 ∷ [])) 60 ≡ raise value_error)
unfolding rank_fusion
wrong_calls = (refl, refl, refl)
