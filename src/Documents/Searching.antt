-- ===== src/Documents/Searching.antt =====
-- `DocumentService.search`, over `DocumentIndex` of src/generic_rag/components/search_index.py.
-- What an index finds is a parameter; its names are the keys of a dictionary, and ids those of the
-- table.
use ai_dial_generic_rag_back.Prelude.{
  ℕ, Bool, true, false, Option, none, some, String, List, [], ◌∷◌, take, keep, map, str_eq, ◌==◌,
  if◌then◌else◌,
}
use ai_dial_generic_rag_back.Prelude.Equality.{nat_key, string_key, contains}
use ai_dial_generic_rag_back.Prelude.Results.{
  Result, ok, raise, Error, value_error, assertion_failed, zero_division, key_error, raise_if,
  ◌>>=◌, ◌>>◌,
}
use ai_dial_generic_rag_back.Ranking
use ai_dial_generic_rag_back.Ranking.{Floats, rank_fusion}
use ai_dial_generic_rag_back.Documents.{Document, Library}
use ai_dial_generic_rag_back.Documents.Service.{get_documents_by_id}
use ai_dial_generic_rag_back.Documents.Matcher.{Database, MatcherConfig, get_documents_subset}

pub record DocumentIndex : Type 0 where
  pub index_name : String
  pub include_in_hybrid : Bool
  pub default_limit : ℕ
  -- `_storage.relevance_search` for the query as it is indexed.
  pub relevance_search : String → ℕ → Option (List ℕ) → List ℕ

-- `DocumentIndex.search`
abbrev pub search_in : DocumentIndex → String → ℕ → Option (List ℕ) → List ℕ
search_in index query limit documents =
    index.relevance_search query (if limit == 0 then index.default_limit else limit) documents

abbrev pub has_duplicates : List String → Bool
has_duplicates [] = false
has_duplicates (name ∷ names) =
    let rest = has_duplicates names in if contains names name then true else rest

abbrev pub find_index : List DocumentIndex → String → Option DocumentIndex
find_index [] name = none
find_index (index ∷ indexes) name =
    if str_eq index.index_name name then some index else find_index indexes name

-- The names that are given, or those of the indexes for hybrid search.
abbrev pub names_of : List String → List DocumentIndex → List String
names_of [] indexes =
    map (λ (i : DocumentIndex). i.index_name)
      (keep (λ (i : DocumentIndex). i.include_in_hybrid) indexes)
names_of (name ∷ names) indexes = name ∷ names

unfoldable pub search_all :
    List DocumentIndex → String → ℕ → Option (List ℕ) → List String → List (List ℕ)
search_all indexes query limit scope [] = []
search_all indexes query limit scope (name ∷ names) =
    let rest = search_all indexes query limit scope names in
    elim (find_index indexes name) [
      | none ↦ rest
      | some index ↦ search_in index query limit scope ∷ rest
    ]

abbrev pub find_document : List Document → ℕ → Option Document
find_document [] id = none
find_document (d ∷ ds) id = if d.id == id then some d else find_document ds id

-- `[documents[doc_id] for doc_id in matched_ids]`
unfoldable pub pick_documents : List Document → List ℕ → Result (List Document)
pick_documents documents [] = ok []
pick_documents documents (id ∷ ids) = elim (find_document documents id) [
  | none ↦ raise key_error
  | some d ↦ (pick_documents documents ids >>= λ ds. ok (d ∷ ds))
]

-- The exceptions of `rank_fusion`.
abbrev pub ranking_error : Ranking.Error → Error
ranking_error Ranking.zero_division_error = zero_division
ranking_error Ranking.value_error = value_error
ranking_error Ranking.assertion_error = assertion_failed

module _ (f : Floats) (db : Database) (channel : String) (lib : Library)
    (indexes : List DocumentIndex) where
  abbrev pub search_scope : Option MatcherConfig → Option (List ℕ)
  search_scope none = none
  search_scope (some config) = get_documents_subset db channel lib.documents config

  -- The fused ids, and then their documents.
  unfoldable pub fuse_results : ℕ → List (List ℕ) → Result (List Document)
  unfolding pick_documents
  fuse_results limit [] = ok []
  fuse_results limit (ids ∷ lists) = elim (rank_fusion f (λ (id : ℕ). id) (ids ∷ lists) none 60) [
    | Ranking.raise e ↦ raise (ranking_error e)
    | Ranking.ok ranked ↦
        pick_documents (get_documents_by_id channel (take limit ranked) lib) (take limit ranked)
  ]

  unfoldable pub search : String → ℕ → List String → Option MatcherConfig → Result (List Document)
  unfolding search_all fuse_results
  search query limit index_names matcher_config = do
    raise_if (has_duplicates index_names) value_error
    fuse_results limit (
        search_all indexes query limit (search_scope matcher_config) (names_of index_names indexes))
