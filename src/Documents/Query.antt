-- ===== src/Documents/Query.antt =====
-- src/generic_rag/utils/query.py: pages of results, and the fields to sort by. A database compares
-- the values of a column by their ranks; a missing value has none.
use ai_dial_generic_rag_back.Prelude.{
  ℕ, ◌≡◌, refl, Bool, true, false, ◌&&◌, ◌||◌, Option, none, some, String, List, [], ◌∷◌, ltb, ◌==◌,
  arith,
}
use ai_dial_generic_rag_back.Prelude.Sorting.{IsOrder}

pub record Pagination : Type 0 where
  pub offset : ℕ
  pub limit : ℕ

pub record PaginatedResults {ℓ} (A : Type ℓ) : Type ℓ where
  pub total_count : ℕ
  pub offset : ℕ
  pub limit : ℕ
  pub results : List A

abbrev pub create_results {ℓ} : {A : Type ℓ} → List A → Pagination → ℕ → PaginatedResults A
create_results results pagination total_count = record {
  total_count = total_count;
  offset = pagination.offset;
  limit = pagination.limit;
  results = results;
}

pub data SortDirection : Type 0 where
  asc desc : SortDirection

pub record SortBy : Type 0 where
  pub name : String
  pub direction : SortDirection

abbrev pub opposite : SortDirection → SortDirection
opposite asc = desc
opposite desc = asc

-- `~sort`
abbrev pub inverted : SortBy → SortBy
inverted s = record s { direction = opposite s.direction }

-- `asc().nulls_last()` and `desc().nulls_last()`: what comes strictly before.
abbrev pub comes_first : SortDirection → Option ℕ → Option ℕ → Bool
comes_first d none y = false
comes_first d (some x) none = true
comes_first asc (some x) (some y) = ltb x y
comes_first desc (some x) (some y) = ltb y x

abbrev pub ties : Option ℕ → Option ℕ → Bool
ties none none = true
ties none (some y) = false
ties (some x) none = false
ties (some x) (some y) = x == y

pub comes_first_total :
    (d : SortDirection) (x y : Option ℕ)
    → (comes_first d x y || comes_first d y x || ties x y) ≡ true
comes_first_total d none none = refl
comes_first_total d none (some y) = refl
comes_first_total d (some x) none = refl
comes_first_total asc (some x) (some y) = ground arith
comes_first_total desc (some x) (some y) = ground arith

comes_first_asym :
    (d : SortDirection) (x y : Option ℕ)
    → comes_first d x y ≡ true
    → (comes_first d y x ≡ false) × (ties y x ≡ false)
comes_first_asym d none y h = cc
comes_first_asym d (some x) none h = (refl, refl)
comes_first_asym asc (some x) (some y) h = ground arith
comes_first_asym desc (some x) (some y) h = ground arith

ties_sym :
    (d : SortDirection) (x y : Option ℕ)
    → ties x y ≡ true
    → (comes_first d y x ≡ false) × (ties y x ≡ true)
ties_sym d none none h = (refl, refl)
ties_sym d none (some y) h = cc
ties_sym d (some x) none h = cc
ties_sym asc (some x) (some y) h = ground arith
ties_sym desc (some x) (some y) h = ground arith

comes_first_trans :
    (d : SortDirection) (x y z : Option ℕ)
    → comes_first d x y ≡ false
    → comes_first d y z ≡ false
    → (comes_first d x z ≡ false) × (ties x z ≡ true → (ties x y ≡ true) × (ties y z ≡ true))
comes_first_trans asc none none z h k = (refl, ground arith)
comes_first_trans asc none (some y) z h k = ground arith
comes_first_trans asc (some x) none z h k = ground arith
comes_first_trans asc (some x) (some y) none h k = ground arith
comes_first_trans asc (some x) (some y) (some z) h k = (ground arith, ground arith)
comes_first_trans desc none none z h k = (refl, ground arith)
comes_first_trans desc none (some y) z h k = ground arith
comes_first_trans desc (some x) none z h k = ground arith
comes_first_trans desc (some x) (some y) none h k = ground arith
comes_first_trans desc (some x) (some y) (some z) h k = (ground arith, ground arith)

module _ {ℓ} {A : Type ℓ} where
  -- `ORDER BY` several columns: what comes strictly before.
  abbrev pub order_by : List (SortDirection × (A → Option ℕ)) → A → A → Bool
  order_by [] a b = false
  order_by ((d, column) ∷ keys) a b =
      comes_first d (column a) (column b) || ties (column a) (column b) && order_by keys a b

  order_by_asym :
      (keys : List (SortDirection × (A → Option ℕ))) (a b : A)
      → order_by keys a b ≡ true
      → order_by keys b a ≡ false
  order_by_asym [] a b h = refl
  order_by_asym ((d, column) ∷ keys) a b h = ground (
    arith,
    comes_first_asym d (column a) (column b),
    ties_sym d (column a) (column b),
    order_by_asym keys a b,
  )

  order_by_trans :
      (keys : List (SortDirection × (A → Option ℕ))) (a b c : A)
      → order_by keys a b ≡ false
      → order_by keys b c ≡ false
      → order_by keys a c ≡ false
  order_by_trans [] a b c h k = refl
  order_by_trans ((d, column) ∷ keys) a b c h k =
      let first =
        comes_first_trans d (column a) (column b) (column c) (ground arith) (ground arith) in
      ground (arith, first, order_by_trans keys a b c)

  pub order_by-IsOrder : (keys : List (SortDirection × (A → Option ℕ))) → IsOrder (order_by keys)
  order_by-IsOrder keys = record { asym = order_by_asym keys; trans = order_by_trans keys }
