-- ===== src/Search.antt =====
-- `relevance_search` of src/generic_rag/components/storage/pgvector.py, which reads the rows of a
-- query page by page until it has enough distinct ones. The rows that the database gives for a
-- LIMIT and an OFFSET are a parameter, for each choice of documents: the queries order by distance or
-- rank only, so the pages need not be parts of one list. So is the number of the rows.
pub mod Paging
mod Tests
use ai_dial_generic_rag_back.Prelude.{
  ℕ, zero, suc, ◌+◌, ◌*◌, Option, none, some, List, [], ◌∷◌, ◌++◌, length, ltb, leb, if◌then◌else◌,
}
use ai_dial_generic_rag_back.Prelude.Equality.{Hashable, contains}

module _ {ℓ} {A : Type ℓ} where
  -- `if not (rows := ...): break`, else the next round.
  unfoldable pub unless_empty : List A → Option (List A) → Option (List A) → Option (List A)
  unless_empty [] stop go_on = stop
  unless_empty (row ∷ rows) stop go_on = go_on

module _ {ℓ} {Meta : Type ℓ} ⦃h : Hashable Meta⦄ where
  -- The loop over the rows of a page; `result` is an ordered set.
  unfoldable pub add_rows : ℕ → List Meta → List Meta → List Meta
  add_rows limit result [] = result
  add_rows limit result (row ∷ rows) =
      let result' = if contains result row then result else result ++ row ∷ [] in
      let rest = add_rows limit result' rows in if leb limit (length result') then result' else rest

  -- The loop over the pages, on fuel. `page` gives the rows for a limit and an offset.
  unfoldable pub search_from :
      (fuel : ℕ)
      → (ℕ → ℕ → List Meta)
      → (limit page_size : ℕ) (result : List Meta) (offset : ℕ) → Option (List Meta)
  unfolding add_rows unless_empty
  search_from zero page limit page_size result offset = none
  search_from (suc fuel) page limit page_size result offset =
      let rows = page page_size offset in
      let rest =
        search_from fuel page limit page_size (add_rows limit result rows) (offset + length rows) in
      if ltb (length result) limit then unless_empty rows (some result) rest else some result

  -- `if documents is not None and len(documents) < 1: return []`
  unfoldable pub in_documents : Option (List ℕ) → Option (List Meta) → Option (List Meta)
  in_documents (some []) found = some []
  in_documents _ found = found

  module _ (page : Option (List ℕ) → ℕ → ℕ → List Meta) (count : Option (List ℕ) → ℕ) where
    unfoldable pub search : (page_size limit : ℕ) → Option (List ℕ) → Option (List Meta)
    unfolding search_from in_documents
    search page_size limit documents =
        in_documents documents
          (search_from (count documents + 1) (page documents) limit page_size [] 0)

    -- `VectorIndexStorage.relevance_search`
    unfoldable pub vector_search : ℕ → Option (List ℕ) → Option (List Meta)
    unfolding search
    vector_search limit documents = search (limit * 2) limit documents

    -- `TextIndexStorage.relevance_search`
    unfoldable pub text_search : ℕ → Option (List ℕ) → Option (List Meta)
    unfolding search
    text_search limit documents = search limit limit documents
