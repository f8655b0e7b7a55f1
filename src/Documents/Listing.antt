-- ===== src/Documents/Listing.antt =====
-- `DocumentRepository.list_all`, `DocumentService.list_documents`, and `_iter_documents` of
-- src/generic_rag/services/export_service.py. The ranks of the values in a column and the names of
-- the sortable fields of metadata are parameters.
use ai_dial_generic_rag_back.Prelude.{
  All, subst, fun_ext, ltb, ◌==◌, ℕ, zero, suc, ◌+◌, ◌<◌, ◌≡◌, refl, sym, ap, ◌∙◌, Bool, true, ◌&&◌,
  ◌||◌, Option, none, some, String, List, [], ◌∷◌, ◌++◌, length, take, drop, keep, map, arith, inl,
  inr, append_assoc, append-nil, take-append-drop, length-take, length-drop, if◌then◌else◌,
}
use ai_dial_generic_rag_back.Prelude.Equality.{nat_key, string_key, contains}
use ai_dial_generic_rag_back.Prelude.Pages.{
  map-take, map-drop, length-map, take_empty, List-cases, drop-add, drop-length,
}
use ai_dial_generic_rag_back.Prelude.Sorting.{
  sorted, IsSorted, sorted-IsSorted, count-sorted, length-sorted,
}
use ai_dial_generic_rag_back.Prelude.Results.{Result, ok, raise, invalid_request, ◌>>=◌}
use ai_dial_generic_rag_back.Documents.{DocumentEntity, Document, Library, from_entity}
use ai_dial_generic_rag_back.Documents.Repository.{is_own}
use ai_dial_generic_rag_back.Documents.Query.{
  Pagination, PaginatedResults, create_results, SortDirection, asc, desc, SortBy, order_by,
  comes_first, ties, comes_first_total, order_by-IsOrder,
}

-- A direction and a column.
abbrev pub Key : Type 0
Key = SortDirection × (DocumentEntity → Option ℕ)

-- The keys of `FIELDS_MAPPING`.
abbrev pub fields_mapping : List String
fields_mapping = "id" ∷ "display_name" ∷ "mime_type" ∷ "size" ∷ "status" ∷ []

-- The direction of `document_id`, the last key.
unfoldable pub last_direction : List SortBy → SortDirection
last_direction [] = desc
last_direction (s ∷ []) = s.direction
last_direction (s ∷ t ∷ sort) = last_direction (t ∷ sort)

abbrev pub id_column : DocumentEntity → Option ℕ
id_column e = some e.document_id

-- `document_id.in_(matcher_query)`, where there is a query.
abbrev pub is_chosen : Option (List ℕ) → DocumentEntity → Bool
is_chosen none e = true
is_chosen (some ids) e = contains ids e.document_id

module _ (rank : String → DocumentEntity → Option ℕ) (sortable : List String) where
  unfoldable pub field_order_expression : SortBy → Result Key
  field_order_expression s =
      if contains fields_mapping s.name || contains sortable s.name
      then ok (s.direction, rank s.name)
      else raise invalid_request

  unfoldable pub order_clause : List SortBy → SortDirection → Result (List Key)
  unfolding field_order_expression
  order_clause [] last = ok ((last, id_column) ∷ [])
  order_clause (s ∷ sort) last = do
    key ← field_order_expression s
    keys ← order_clause sort last
    ok (key ∷ keys)

  module _ (channel : String) where
    abbrev pub chosen : Option (List ℕ) → List DocumentEntity → List DocumentEntity
    chosen subset = keep (λ e. is_own channel e && is_chosen subset e)

    unfoldable pub get_total_count : Option (List ℕ) → List DocumentEntity → ℕ
    get_total_count subset rows = length (chosen subset rows)

    unfoldable pub list_all :
        Option (List ℕ)
        → List SortBy
        → Pagination
        → List DocumentEntity
        → Result (List DocumentEntity)
    unfolding order_clause last_direction sorted
    list_all subset sort page rows = do
      keys ← order_clause sort (last_direction sort)
      ok (take page.limit (drop page.offset (sorted (order_by keys) (chosen subset rows))))

    unfoldable pub list_documents :
        Pagination → Option (List ℕ) → List SortBy → Library → Result (PaginatedResults Document)
    unfolding list_all get_total_count
    list_documents page subset sort lib = do
      rows ← list_all subset sort page lib.documents
      ok (create_results (map from_entity rows) page (get_total_count subset lib.documents))

    -- The rounds of `_iter_documents`; none if they run out.
    unless_empty : List Document → List Document → Option (List Document) → Option (List Document)
    unless_empty [] done more = some done
    unless_empty (d ∷ ds) done more = more

    unfoldable pub iterate : ℕ → ℕ → List Document → Library → Option (List Document)
    unfolding unless_empty
    iterate zero offset done lib = none
    iterate (suc rounds) offset done lib =
        elim (list_documents (record { offset = offset; limit = 25 }) none [] lib) [
          | raise e ↦ none
          | ok page ↦
              let rest = iterate rounds (offset + length page.results) (done ++ page.results) lib in
              unless_empty page.results done rest
        ]

unless_empty_of_cons :
    (rank : String → DocumentEntity → Option ℕ) (sortable : List String) (channel : String)
    (page done : List Document) (more : Option (List Document)) (x : Document) (xs : List Document)
    → page ≡ x ∷ xs
    → unless_empty rank sortable channel page done more ≡ more
unfolding unless_empty
unless_empty_of_cons rank sortable channel [] done more x xs h = cc
unless_empty_of_cons rank sortable channel (y ∷ ys) done more x xs h = refl

module _ (rank : String → DocumentEntity → Option ℕ) (sortable : List String)
    (channel : String) where
  -- The documents of the channel as `_iter_documents` wants them, the newest first.
  abbrev pub all_documents : Library → List Document
  all_documents lib =
      map from_entity (
        sorted (order_by ((desc, id_column) ∷ []))
          (chosen rank sortable channel none lib.documents))

  list_page :
      (offset : ℕ) (lib : Library)
      → list_documents rank sortable channel (record { offset = offset; limit = 25 }) none [] lib
        ≡ ok (
            create_results
              (take 25 (drop offset (all_documents lib)))
              (record { offset = offset; limit = 25 })
              (get_total_count rank sortable channel none lib.documents))
  unfolding list_documents list_all order_clause last_direction
  list_page offset lib =
      let whole =
        sorted (order_by ((desc, id_column) ∷ []))
          (chosen rank sortable channel none lib.documents) in
      ap
        (λ results. ok (
          create_results results (record { offset = offset; limit = 25 })
            (get_total_count rank sortable channel none lib.documents)))
        (map-take from_entity 25 (drop offset whole)
          ∙ ap (take 25) (map-drop from_entity offset whole))

  iterate_from :
      (rounds offset : ℕ) (done : List Document) (lib : Library)
      → length (drop offset (all_documents lib)) < rounds
      → iterate rank sortable channel rounds offset done lib
        ≡ some (done ++ drop offset (all_documents lib))
  unfolding iterate
  iterate_from zero offset done lib enough = absurd (omega arith)
  iterate_from (suc rounds) offset done lib enough =
      let left = drop offset (all_documents lib) in
      let page = take 25 left in
      rw (list_page offset lib, iterate)
        (elim (List-cases page) [
          | inl e ↦ rw e (
              ap some (
                sym (append-nil done)
                ∙ ap (λ xs. done ++ xs) (sym (take_empty 25 left (omega arith) e))))
          | inr (x, xs, e) ↦
              let enough' : length (drop (offset + length page) (all_documents lib)) < rounds =
                omega (
                  arith,
                  length-drop (offset + length page) (all_documents lib),
                  length-drop offset (all_documents lib),
                  length-take 25 left,
                  ap length e,
                ) in
              let go_on = iterate_from rounds (offset + length page) (done ++ page) lib enough' in
              unless_empty_of_cons rank sortable channel page done _ x xs e
              ∙ go_on
              ∙ ap some (
                  append_assoc done page (drop (offset + length page) (all_documents lib))
                  ∙ ap (λ xs. done ++ xs)
                      (ap (λ xs. page ++ xs)
                          (drop-add offset (length page) (all_documents lib) ∙ drop-length 25 left)
                        ∙ take-append-drop 25 left))
        ])

  -- `_iter_documents` ends, on one round for each document and one more at most, and yields exactly
  -- the documents of the channel: one list of them sorted by descending id, in which as many rows
  -- pass any test as among the rows of the channel.
  pub iterate_lem :
      (lib : Library)
      → (iterate rank sortable channel
            (length (chosen rank sortable channel none lib.documents) + 1)
            0
            []
            lib
          ≡ some (
              map from_entity (
                sorted
                  (order_by ((desc, id_column) ∷ []))
                  (chosen rank sortable channel none lib.documents))))
        × IsSorted (order_by ((desc, id_column) ∷ [])) (
            sorted
              (order_by ((desc, id_column) ∷ []))
              (chosen rank sortable channel none lib.documents))
        × ((test : DocumentEntity → Bool)
            → length (
                keep test (
                  sorted
                    (order_by ((desc, id_column) ∷ []))
                    (chosen rank sortable channel none lib.documents)))
              ≡ length (keep test (chosen rank sortable channel none lib.documents)))
  iterate_lem lib =
      let rows = chosen rank sortable channel none lib.documents in
      let less : DocumentEntity → DocumentEntity → Bool = order_by ((desc, id_column) ∷ []) in
      (
        iterate_from (length rows + 1) 0 [] lib
            (omega (arith, length-map from_entity (sorted less rows), length-sorted less rows)),
        sorted-IsSorted less (order_by-IsOrder ((desc, id_column) ∷ [])) rows,
        λ test. count-sorted less test rows,
      )

  -- A sort by fields that are known.
  abbrev pub AreSortable : List SortBy → Type 0
  AreSortable = All (λ s. (contains fields_mapping s.name || contains sortable s.name) ≡ true)

  abbrev pub last_of : SortDirection → List SortBy → SortDirection
  last_of d [] = d
  last_of d (s ∷ sort) = last_of s.direction sort

  -- What comes before in a list: by the value of the first field in which the documents differ, or,
  -- if there is none, by the id.
  abbrev pub is_listed_before : SortDirection → List SortBy → DocumentEntity → DocumentEntity → Bool
  is_listed_before asc [] a b = ltb a.document_id b.document_id
  is_listed_before desc [] a b = ltb b.document_id a.document_id
  is_listed_before last (s ∷ sort) a b =
      comes_first s.direction (rank s.name a) (rank s.name b)
      || ties (rank s.name a) (rank s.name b) && is_listed_before last sort a b

  keys_of : SortDirection → List SortBy → List Key
  keys_of last [] = (last, id_column) ∷ []
  keys_of last (s ∷ sort) = (s.direction, rank s.name) ∷ keys_of last sort

  order_clause_of_sortable :
      (sort : List SortBy) (last : SortDirection)
      → AreSortable sort
      → order_clause rank sortable sort last ≡ ok (keys_of last sort)
  unfolding order_clause keys_of
  order_clause_of_sortable [] last h = refl
  order_clause_of_sortable (s ∷ sort) last h =
      rw (h.0, field_order_expression, order_clause_of_sortable sort last h.1) refl

  last_of-last_direction :
      (d : SortDirection) (s : SortBy) (sort : List SortBy)
      → last_direction (s ∷ sort) ≡ last_of d (s ∷ sort)
  unfolding last_direction
  last_of-last_direction d s [] = refl
  last_of-last_direction d s (t ∷ sort) = last_of-last_direction d t sort

  last_direction_lem : (sort : List SortBy) → last_direction sort ≡ last_of desc sort
  last_direction_lem [] = unfold last_direction in refl
  last_direction_lem (s ∷ sort) = last_of-last_direction desc s sort

  order_by-keys_of :
      (last : SortDirection) (sort : List SortBy) (a b : DocumentEntity)
      → order_by (keys_of last sort) a b ≡ is_listed_before last sort a b
  unfolding keys_of
  order_by-keys_of asc [] a b = ground arith
  order_by-keys_of desc [] a b = ground arith
  order_by-keys_of last (s ∷ sort) a b =
      ap
        (λ c.
          comes_first s.direction (rank s.name a) (rank s.name b)
          || ties (rank s.name a) (rank s.name b) && c)
        (order_by-keys_of last sort a b)

  -- Only documents with one id are not put in order.
  is_listed_before_total :
      (last : SortDirection) (sort : List SortBy) (a b : DocumentEntity)
      → (is_listed_before last sort a b
          || is_listed_before last sort b a
          || a.document_id == b.document_id)
        ≡ true
  is_listed_before_total asc [] a b = ground arith
  is_listed_before_total desc [] a b = ground arith
  is_listed_before_total last (s ∷ sort) a b = ground (
    arith,
    comes_first_total s.direction (rank s.name a) (rank s.name b),
    is_listed_before_total last sort a b,
  )

  -- For a sort by known fields, every page is a slice of one list, the same for all pages: the
  -- documents that are asked for, each as often as it is stored, sorted by the values of the fields
  -- in their order, each in its direction, missing values last, and then by the id, in the direction
  -- of the last field, or descending if there is none. This puts any two documents with different ids
  -- in order. The total count is the length of that list.
  pub list_documents_lem :
      (subset : Option (List ℕ)) (sort : List SortBy) (lib : Library)
      → AreSortable sort
      → (whole : List DocumentEntity) × ((page : Pagination)
          → list_documents rank sortable channel page subset sort lib
            ≡ ok (
                create_results
                  (map from_entity (take page.limit (drop page.offset whole)))
                  page
                  (length whole)))
        × IsSorted (is_listed_before (last_of desc sort) sort) whole
        × ((test : DocumentEntity → Bool)
            → length (keep test whole)
              ≡ length (keep test (chosen rank sortable channel subset lib.documents)))
        × ((a b : DocumentEntity)
            → (is_listed_before (last_of desc sort) sort a b
                || is_listed_before (last_of desc sort) sort b a
                || a.document_id == b.document_id)
              ≡ true)
  unfolding list_documents
  list_documents_lem subset sort lib known =
      let rows = chosen rank sortable channel subset lib.documents in
      let keys = keys_of (last_of desc sort) sort in
      let accepted : order_clause rank sortable sort (last_direction sort) ≡ ok keys =
        ap (order_clause rank sortable sort) (last_direction_lem sort)
        ∙ order_clause_of_sortable sort (last_of desc sort) known in
      let same : order_by keys ≡ is_listed_before (last_of desc sort) sort =
        fun_ext (λ a. fun_ext (order_by-keys_of (last_of desc sort) sort a)) in
      (
        sorted (order_by keys) rows,
        λ page.
            rw (accepted, list_all) (rw (length-sorted (order_by keys) rows, get_total_count) refl),
        subst (λ less. IsSorted less (sorted (order_by keys) rows)) same
            (sorted-IsSorted (order_by keys) (order_by-IsOrder keys) rows),
        λ test. count-sorted (order_by keys) test rows,
        is_listed_before_total (last_of desc sort) sort,
      )
