-- ===== src/Documents/Matcher.antt =====
-- src/generic_rag/services/document_matcher.py: the query for the documents that match the filters
-- and are among the top N. A clause is a test of a row, and `true()` is no clause; a row for which
-- SQL has NULL does not pass. Text of JSON, dates and ranks of values in the database are
-- parameters. For values of the types that the channel's schema gives the fields; where a field asked
-- for a date has another text, or one asked for an element is no array, the database raises an error,
-- and here the row does not pass.
use ai_dial_generic_rag_back.Prelude.{
  ℕ, Bool, true, false, ◌&&◌, ◌||◌, Option, none, some, String, str_eq, List, [], ◌∷◌, leb, take,
  keep, map,
}
use ai_dial_generic_rag_back.Prelude.Equality.{nat_key, string_key, contains}
use ai_dial_generic_rag_back.Prelude.Sorting.{sorted}
use ai_dial_generic_rag_back.Types.Json.{
  Json, Items, null, bool, number, string, array, object, nil, cons, lookup,
}
use ai_dial_generic_rag_back.Documents.{DocumentEntity}
use ai_dial_generic_rag_back.Documents.Repository.{is_own}
use ai_dial_generic_rag_back.Documents.Query.{SortDirection, order_by}

-- The marker of a field of `SingleFilterModel`; a field may have none.
pub data Marker : Type 0 where
  enable_filter string_value string_array_value unmarked : Marker

-- `DateInterval` with days as numbers, a text, or a list of texts.
pub data FilterValue : Type 0 where
  interval : Option ℕ → Option ℕ → FilterValue
  text : String → FilterValue
  texts : List String → FilterValue
  absent : FilterValue

pub record FilterField : Type 0 where
  pub name : String
  pub marker : Marker
  pub value : FilterValue

abbrev pub SingleFilter : Type 0
SingleFilter = List FilterField

pub record TopDocuments : Type 0 where
  pub sort_by : List String
  pub direction : SortDirection
  pub limit : ℕ

pub record MatcherConfig : Type 0 where
  pub filters : List SingleFilter
  pub top_n : Option TopDocuments

abbrev pub Clause : Type 0
Clause = DocumentEntity → Bool

abbrev pub has_field : String → DocumentEntity → Bool
has_field name e = elim (lookup name e.metadata) [ none ↦ false | some value ↦ true ]

-- The text of a value that is there.
abbrev pub when_given {ℓ} : {A : Type ℓ} → Option A → (A → Bool) → Bool
when_given none test = false
when_given (some a) test = test a

-- What the database makes of a value of JSON: its text, its day as a date, its rank among others.
pub record Database : Type 0 where
  pub as_text : Json → Option String
  pub as_date : Json → Option ℕ
  pub rank : Json → ℕ

module _ (db : Database) where
  abbrev pub rank_of : String → DocumentEntity → Option ℕ
  rank_of name e = elim (lookup name e.metadata) [ none ↦ none | some value ↦ some (db.rank value) ]

  unfoldable pub date_in : (ℕ → Bool) → String → Clause
  unfolding lookup
  date_in test name e = elim (lookup name e.metadata) [
    | none ↦ false
    | some value ↦ when_given (db.as_date value) test
  ]

  unfoldable pub text_in : (String → Bool) → String → Clause
  unfolding lookup
  text_in test name e = elim (lookup name e.metadata) [
    | none ↦ false
    | some value ↦ when_given (db.as_text value) test
  ]

  -- `jsonb_array_elements_text`
  unfoldable pub any_item : (String → Bool) → Items → Bool
  any_item test nil = false
  any_item test (cons value items) = when_given (db.as_text value) test || any_item test items

  any_element_of : (String → Bool) → Json → Bool
  unfolding any_item
  any_element_of test null = false
  any_element_of test (bool b) = false
  any_element_of test (number n) = false
  any_element_of test (string s) = false
  any_element_of test (array items) = any_item test items
  any_element_of test (object fields) = false

  unfoldable pub any_element : (String → Bool) → String → Clause
  unfolding lookup any_element_of
  any_element test name e = elim (lookup name e.metadata) [
    | none ↦ false
    | some value ↦ any_element_of test value
  ]

  unfoldable pub field_filtering_clause : Marker → FilterValue → String → Option Clause
  unfolding date_in text_in any_element
  field_filtering_clause marker (interval (some start) (some end)) name =
      some (date_in (λ d. leb start d && leb d end) name)
  field_filtering_clause marker (interval (some start) none) name = some (date_in (leb start) name)
  field_filtering_clause marker (interval none (some end)) name =
      some (date_in (λ d. leb d end) name)
  field_filtering_clause marker (interval none none) name = none
  field_filtering_clause string_value (text s) name = some (text_in (λ t. str_eq t s) name)
  field_filtering_clause string_array_value (text s) name =
      some (any_element (λ t. str_eq t s) name)
  field_filtering_clause string_value (texts ss) name = some (text_in (contains ss) name)
  field_filtering_clause string_array_value (texts ss) name = some (any_element (contains ss) name)
  field_filtering_clause enable_filter (text s) name = none
  field_filtering_clause enable_filter (texts ss) name = none
  field_filtering_clause unmarked (text s) name = none
  field_filtering_clause unmarked (texts ss) name = none
  field_filtering_clause marker absent name = none

  -- Fields without a marker are passed over.
  abbrev pub marked_clause : Marker → FilterValue → String → Option Clause
  marked_clause unmarked value name = none
  marked_clause enable_filter value name = field_filtering_clause enable_filter value name
  marked_clause string_value value name = field_filtering_clause string_value value name
  marked_clause string_array_value value name = field_filtering_clause string_array_value value name

-- `result_clauses.append(clause)` for a clause that is there.
abbrev pub add_clause : Option Clause → List Clause → List Clause
add_clause none clauses = clauses
add_clause (some clause) clauses = clause ∷ clauses

abbrev pub all_of : List Clause → Clause
all_of [] e = true
all_of (c ∷ cs) e = c e && all_of cs e

abbrev pub any_of : List Clause → Clause
any_of [] e = false
any_of (c ∷ cs) e = c e || any_of cs e

-- `and_` of several clauses, the only one, or `true()`.
unfoldable pub conjunction : List Clause → Option Clause
conjunction [] = none
conjunction (c ∷ []) = some c
conjunction (c ∷ d ∷ cs) = some (all_of (c ∷ d ∷ cs))

unfoldable pub disjunction : List Clause → Option Clause
disjunction [] = none
disjunction (c ∷ []) = some c
disjunction (c ∷ d ∷ cs) = some (any_of (c ∷ d ∷ cs))

module _ (db : Database) where
  unfoldable pub field_clauses : SingleFilter → List Clause
  unfolding field_filtering_clause
  field_clauses [] = []
  field_clauses (f ∷ fields) =
      add_clause (marked_clause db f.marker f.value f.name) (field_clauses fields)

  unfoldable pub filter_entry_clause : SingleFilter → Option Clause
  unfolding conjunction field_clauses
  filter_entry_clause fields = conjunction (field_clauses fields)

  unfoldable pub filtering_clauses : List SingleFilter → List Clause
  unfolding filter_entry_clause
  filtering_clauses [] = []
  filtering_clauses (fields ∷ filters) =
      add_clause (filter_entry_clause fields) (filtering_clauses filters)

  -- `_apply_top_n_documents`
  abbrev pub passes : Option Clause → Clause
  passes none e = true
  passes (some clause) e = clause e

  abbrev pub has_fields : List String → Clause
  has_fields [] e = true
  has_fields (name ∷ names) e = has_field name e && has_fields names e

  abbrev pub sort_keys :
      SortDirection → List String → List (SortDirection × (DocumentEntity → Option ℕ))
  sort_keys direction [] = []
  sort_keys direction (name ∷ names) = (direction, rank_of db name) ∷ sort_keys direction names

  module _ (channel : String) (rows : List DocumentEntity) where
    abbrev pub candidates : Option Clause → TopDocuments → List DocumentEntity
    candidates clause t =
        keep (λ e. is_own channel e && passes clause e && has_fields t.sort_by e) rows

    unfoldable pub apply_top_n_documents :
        Option TopDocuments → Option Clause → Option (List DocumentEntity)
    unfolding sorted
    apply_top_n_documents none none = none
    apply_top_n_documents none (some clause) = some (keep (λ e. is_own channel e && clause e) rows)
    apply_top_n_documents (some t) clause =
        some
          (take t.limit (sorted (order_by (sort_keys t.direction t.sort_by)) (candidates clause t)))

    -- `get_query`, with its rows.
    unfoldable pub get_query : MatcherConfig → Option (List DocumentEntity)
    unfolding apply_top_n_documents filtering_clauses disjunction
    get_query config =
        apply_top_n_documents config.top_n (disjunction (filtering_clauses config.filters))

    unfoldable pub get_documents_subset : MatcherConfig → Option (List ℕ)
    unfolding get_query
    get_documents_subset config = elim (get_query config) [
      | none ↦ none
      | some es ↦ some (map (λ (e : DocumentEntity). e.document_id) es)
    ]
