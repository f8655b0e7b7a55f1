-- ===== src/Ranking.antt =====
-- src/generic_rag/utils/ranking.py: weighted reciprocal rank fusion of several rank lists.
-- Python's floats are the parameter `Floats`: the operations that the code applies to them.
pub mod Unique
pub mod Sorting
mod Scores
pub mod Laws
mod Tests
use ai_dial_generic_rag_back.Prelude.{
  ℕ, zero, suc, ◌+◌, Bool, true, false, Option, none, some, List, [], ◌∷◌, ◌++◌, map, length,
  concat, ◌==◌ as nat_beq, if◌then◌else◌,
}
use ai_dial_generic_rag_back.Prelude.Equality.{Hashable}
use Unique.{unique_by_key}

-- What the code asks of `float`. The laws are those of the order of floats without NaN.
pub record Floats : Type 1 where
  pub Float : Type 0
  pub zero : Float
  pub plus : Float → Float → Float
  -- `1 / n`
  pub inverse : ℕ → Float
  -- `weight / n`
  pub divide : Float → ℕ → Float
  pub less : Float → Float → Bool

pub data Error : Type 0 where
  zero_division_error value_error assertion_error : Error

pub data Result {ℓ} (A : Type ℓ) : Type ℓ where
  ok : A → Result A
  raise : Error → Result A

abbrev pub replicate {ℓ} : {A : Type ℓ} → ℕ → A → List A
replicate zero a = []
replicate (suc n) a = a ∷ replicate n a

module _ (f : Floats) where
  open f use {Float, plus, inverse, divide, less, zero as float_zero}

  -- `sorted(..., reverse=True, key=score)`: descending, and equal scores keep their order.
  pub insert_by {ℓ} : {T : Type ℓ} → (T → Float) → T → List T → List T
  insert_by score x [] = x ∷ []
  insert_by score x (y ∷ ys) =
      let later = insert_by score x ys in if less (score x) (score y) then y ∷ later else x ∷ y ∷ ys

  pub sort_by {ℓ} : {T : Type ℓ} → (T → Float) → List T → List T
  sort_by score [] = []
  sort_by score (x ∷ xs) = insert_by score x (sort_by score xs)

  module _ {ℓ κ} {T : Type ℓ} {K : Type κ} ⦃e : Hashable K⦄ (key : T → K) where
    -- `rrf_score`, a `defaultdict(float)`
    pub score_of : List (K × Float) → K → Float
    score_of [] k = float_zero
    score_of ((j, s) ∷ scores) k = if e.same j k then s else score_of scores k

    -- `rrf_score[k] += x`
    pub add_score : K → Float → List (K × Float) → List (K × Float)
    add_score k x [] = (k, plus float_zero x) ∷ []
    add_score k x ((j, s) ∷ scores) =
        let later = add_score k x scores in
        if e.same j k then (j, plus s x) ∷ scores else (j, s) ∷ later

    -- The inner loop, from `rank` on.
    pub score_list : Float → ℕ → ℕ → List T → List (K × Float) → List (K × Float)
    score_list weight c rank [] scores = scores
    score_list weight c rank (doc ∷ docs) scores =
        score_list weight c (rank + 1) docs (add_score (key doc) (divide weight (rank + c)) scores)

    -- The outer loop, over `zip(doc_lists, weights)`.
    pub score_lists : ℕ → List (List T) → List Float → List (K × Float) → List (K × Float)
    score_lists c (docs ∷ doc_lists) (weight ∷ weights) scores =
        score_lists c doc_lists weights (score_list weight c 1 docs scores)
    score_lists c _ _ scores = scores

    pub calculate : List (List T) → List Float → ℕ → List T
    calculate doc_lists weights c =
        let scores = score_lists c doc_lists weights [] in
        sort_by (λ doc. score_of scores (key doc)) (unique_by_key key [] (concat doc_lists))

    -- `assert weights` fails for an empty list.
    checked : List (List T) → List Float → ℕ → Result (List T)
    checked doc_lists [] c = raise assertion_error
    checked doc_lists (w ∷ weights) c = ok (calculate doc_lists (w ∷ weights) c)

    default_weights : List (List T) → Option (List Float) → Result (List Float)
    default_weights doc_lists (some weights) = ok weights
    default_weights [] none = raise zero_division_error
    default_weights (docs ∷ rest) none =
        let n = length (docs ∷ rest) in ok (replicate n (inverse n))

    unfoldable pub rank_fusion : List (List T) → Option (List Float) → ℕ → Result (List T)
    unfolding default_weights checked calculate score_lists score_list add_score score_of sort_by
        insert_by unique_by_key
    rank_fusion doc_lists weights c = elim (default_weights doc_lists weights) [
      | raise e ↦ raise e
      | ok ws ↦
          if nat_beq (length doc_lists) (length ws)
          then checked doc_lists ws c
          else raise value_error
    ]
