-- ===== src/Documents/Matching.antt =====
-- Which documents `DocumentMatcher` selects.
use ai_dial_generic_rag_back.Prelude.{
  map, ◌≡◌, refl, ap, ap₂, ◌∙◌, fun_ext, Bool, true, false, ◌&&◌, ◌||◌, none, some, String, List,
  [], ◌∷◌, length, take, keep, arith, if◌then◌else◌,
}
use ai_dial_generic_rag_back.Prelude.Sorting.{sorted, IsSorted, sorted-IsSorted, count-sorted}
use ai_dial_generic_rag_back.Documents.{DocumentEntity}
use ai_dial_generic_rag_back.Documents.Repository.{is_own}
use ai_dial_generic_rag_back.Documents.Query.{SortDirection, order_by, order_by-IsOrder}
use ai_dial_generic_rag_back.Documents.Matcher.{
  Clause, Database, SingleFilter, TopDocuments, all_of, any_of, add_clause, conjunction,
  disjunction, field_clauses, filter_entry_clause, filtering_clauses, passes, has_field, rank_of,
  has_fields, sort_keys, apply_top_n_documents, get_query,
}

abbrev has_any : List Clause → Bool
has_any [] = false
has_any (c ∷ cs) = true

-- A document has each of the fields.
abbrev pub has_each : List String → DocumentEntity → Bool
has_each [] e = true
has_each (name ∷ names) e = has_field name e && has_each names e

module _ (db : Database) where
  -- A filter with criteria, all of which a document meets.
  abbrev pub fits : SingleFilter → DocumentEntity → Bool
  fits fields e = has_any (field_clauses db fields) && all_of (field_clauses db fields) e

  abbrev pub fits_any : List SingleFilter → DocumentEntity → Bool
  fits_any [] e = false
  fits_any (fields ∷ filters) e = fits fields e || fits_any filters e

  abbrev pub any_criteria : List SingleFilter → Bool
  any_criteria [] = false
  any_criteria (fields ∷ filters) = has_any (field_clauses db fields) || any_criteria filters

  -- What the filters ask of a document.
  abbrev pub is_wanted : List SingleFilter → DocumentEntity → Bool
  is_wanted filters e = if any_criteria filters then fits_any filters e else true

  clauses_of_conjunction :
      (clauses rest : List Clause) (e : DocumentEntity)
      → any_of (add_clause (conjunction clauses) rest) e
        ≡ (has_any clauses && all_of clauses e || any_of rest e)
  unfolding conjunction
  clauses_of_conjunction [] rest e = refl
  clauses_of_conjunction (c ∷ []) rest e = ground arith
  clauses_of_conjunction (c ∷ d ∷ cs) rest e = refl

  has_any_of_conjunction :
      (clauses rest : List Clause)
      → has_any (add_clause (conjunction clauses) rest) ≡ (has_any clauses || has_any rest)
  unfolding conjunction
  has_any_of_conjunction [] rest = refl
  has_any_of_conjunction (c ∷ []) rest = refl
  has_any_of_conjunction (c ∷ d ∷ cs) rest = refl

  filtering_clauses_lem :
      (filters : List SingleFilter) (e : DocumentEntity)
      → any_of (filtering_clauses db filters) e ≡ fits_any filters e
  unfolding filtering_clauses filter_entry_clause
  filtering_clauses_lem [] e = refl
  filtering_clauses_lem (fields ∷ filters) e =
      clauses_of_conjunction (field_clauses db fields) (filtering_clauses db filters) e
      ∙ ap (λ b. fits fields e || b) (filtering_clauses_lem filters e)

  has_any_lem :
      (filters : List SingleFilter) → has_any (filtering_clauses db filters) ≡ any_criteria filters
  unfolding filtering_clauses filter_entry_clause
  has_any_lem [] = refl
  has_any_lem (fields ∷ filters) =
      has_any_of_conjunction (field_clauses db fields) (filtering_clauses db filters)
      ∙ ap (λ b. has_any (field_clauses db fields) || b) (has_any_lem filters)

  disjunction_lem :
      (clauses : List Clause) (e : DocumentEntity)
      → passes db (disjunction clauses) e ≡ (if has_any clauses then any_of clauses e else true)
  unfolding disjunction
  disjunction_lem [] e = refl
  disjunction_lem (c ∷ []) e = ground arith
  disjunction_lem (c ∷ d ∷ cs) e = refl

  passes_lem :
      (filters : List SingleFilter) (e : DocumentEntity)
      → passes db (disjunction (filtering_clauses db filters)) e ≡ is_wanted filters e
  passes_lem filters e =
      disjunction_lem (filtering_clauses db filters) e
      ∙ ap₂ (λ b c. if b then c else true) (has_any_lem filters) (filtering_clauses_lem filters e)

  has_fields_lem :
      (names : List String) (e : DocumentEntity) → has_fields db names e ≡ has_each names e
  has_fields_lem [] e = refl
  has_fields_lem (name ∷ names) e = ap (λ b. has_field name e && b) (has_fields_lem names e)

  sort_keys_lem :
      (direction : SortDirection) (names : List String)
      → sort_keys db direction names ≡ map (λ name. (direction, rank_of db name)) names
  sort_keys_lem direction [] = refl
  sort_keys_lem direction (name ∷ names) =
      ap (◌∷◌ (direction, rank_of db name)) (sort_keys_lem direction names)

  module _ (channel : String) (rows : List DocumentEntity) where
    top_of_none :
        (clauses : List Clause)
        → apply_top_n_documents db channel rows none (disjunction clauses) ≡ (
            if has_any clauses
            then some (keep (λ e. is_own channel e && passes db (disjunction clauses) e) rows)
            else none)
    unfolding apply_top_n_documents disjunction
    top_of_none [] = refl
    top_of_none (c ∷ []) = refl
    top_of_none (c ∷ d ∷ cs) = refl

    -- Without `top_n`, the query selects the documents of the channel that meet all criteria of
    -- some filter that has criteria, in the order of the table; if no filter has criteria there is
    -- no query.
    pub get_query_lem :
        (filters : List SingleFilter)
        → get_query db channel rows (record { filters = filters; top_n = none }) ≡ (
            if any_criteria filters
            then some (keep (λ e. is_own channel e && is_wanted filters e) rows)
            else none)
    unfolding get_query
    get_query_lem filters =
        let clauses = filtering_clauses db filters in
        top_of_none clauses
        ∙ ap
            (λ (p : DocumentEntity → Bool).
              if has_any clauses then some (keep (λ e. is_own channel e && p e) rows) else none)
            (fun_ext (passes_lem filters))
        ∙ ap
            (λ b.
              if b then some (keep (λ e. is_own channel e && is_wanted filters e) rows) else none)
            (has_any_lem filters)

    -- With `top_n`, at most `limit` documents are selected: the first ones of a list that is sorted
    -- by the given fields in their order, all in the given direction, and holds, each as often as it
    -- is stored, the documents of the channel that have all these fields and that the filters ask for.
    pub get_query-top_n :
        (filters : List SingleFilter) (t : TopDocuments)
        → (whole : List DocumentEntity) × (get_query db channel rows
              (record { filters = filters; top_n = some t })
            ≡ some (take t.limit whole))
          × IsSorted (order_by (map (λ name. (t.direction, rank_of db name)) t.sort_by)) whole
          × ((test : DocumentEntity → Bool)
              → length (keep test whole)
                ≡ length (
                    keep test (
                      keep
                        (λ e. is_own channel e && is_wanted filters e && has_each t.sort_by e)
                        rows)))
    unfolding get_query apply_top_n_documents
    get_query-top_n filters t =
        let keys = map (λ name. (t.direction, rank_of db name)) t.sort_by in
        let less = order_by keys in
        let chosen =
          keep (λ e. is_own channel e && is_wanted filters e && has_each t.sort_by e) rows in
        (
          sorted less chosen,
          ap₂
              (λ keys (p : DocumentEntity → Bool).
                some (take t.limit (sorted (order_by keys) (keep p rows))))
              (sort_keys_lem t.direction t.sort_by)
              (fun_ext (λ e.
                ap₂ (λ a b. is_own channel e && a && b) (passes_lem filters e)
                  (has_fields_lem t.sort_by e))),
          sorted-IsSorted less (order_by-IsOrder keys) chosen,
          λ test. count-sorted less test chosen,
        )
