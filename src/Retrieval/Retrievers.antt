-- ===== src/Retrieval/Retrievers.antt =====
-- `AbstractRetriever.invoke` with its stages, the selectors of documents, and the two retrievers.
use ai_dial_generic_rag_back.Prelude.{
  ℕ, ◌+◌, Bool, true, false, ◌&&◌, Option, none, some, String, str_eq, List, [], ◌∷◌, ◌++◌, ◌==◌,
  if◌then◌else◌,
}
use ai_dial_generic_rag_back.Prelude.Equality.{list_key}
use ai_dial_generic_rag_back.Prelude.Options.{◌>>=◌}
use ai_dial_generic_rag_back.Types.{ChunkRef, AnyChunk, RetrievedDocument, RetrievalType}
use ai_dial_generic_rag_back.Types.Chunk.{get_identity, page_number}
use ai_dial_generic_rag_back.Chunks.{Store}
use ai_dial_generic_rag_back.Documents.{DocumentEntity, Library}
use ai_dial_generic_rag_back.Documents.Matcher.{Database, MatcherConfig, get_documents_subset}
use ai_dial_generic_rag_back.Classic.{PageChunks, index_invoke, aggregate_invoke}
use ai_dial_generic_rag_back.Ranking.{Floats, ok, raise, rank_fusion}
use ai_dial_generic_rag_back.Retrieval.{ChunkIndex, Config, Sources, index_search, ref_key}

-- The two methods in which retrievers differ: what they make of the results of an index, and how
-- they combine the lists.
pub record Retriever : Type 0 where
  pub index_results : ℕ → List RetrievedDocument → Option (List RetrievedDocument)
  pub combined_results : List (List RetrievedDocument) → Option (List RetrievedDocument)

-- `doc.chunks[0].get_identity()`; a document has a chunk, or the call raises.
abbrev pub first_identity : RetrievedDocument → List ChunkRef
first_identity doc = elim (doc.chunks) [ [] ↦ [] | c ∷ cs ↦ get_identity c ∷ [] ]

abbrev pub all_have_chunks : List RetrievedDocument → Bool
all_have_chunks [] = true
all_have_chunks (doc ∷ docs) =
    elim (doc.chunks) [ [] ↦ false | c ∷ cs ↦ true ] && all_have_chunks docs

abbrev pub lists_have_chunks : List (List RetrievedDocument) → Bool
lists_have_chunks [] = true
lists_have_chunks (docs ∷ lists) = all_have_chunks docs && lists_have_chunks lists

module _ (f : Floats) where
  -- `rank_fusion(doc_lists, key=...)`, with its default constant.
  unfoldable pub fuse : List (List RetrievedDocument) → Option (List RetrievedDocument)
  unfolding rank_fusion
  fuse lists =
      if lists_have_chunks lists
      then elim (rank_fusion f first_identity lists none 60) [
        | ok docs ↦ some docs
        | raise e ↦ none
      ]
      else none

  unfoldable pub simple_retriever : Retriever
  unfolding fuse
  simple_retriever = record { index_results = λ top_k docs. some docs; combined_results = fuse }

  unfoldable pub classic_retriever : PageChunks → ℕ → Retriever
  unfolding fuse index_invoke aggregate_invoke
  classic_retriever service num_page_images_to_use = record {
    index_results = index_invoke service;
    combined_results = λ lists. do
      docs ← fuse lists
      aggregate_invoke service num_page_images_to_use docs;
  }

-- `_run_retrieval_stage`: an exception gives no results.
unfoldable pub run_retrieval_stage {ℓ} : {A : Type ℓ} → Option (List A) → List A
run_retrieval_stage none = []
run_retrieval_stage (some result) = result

-- A row of `_get_chunks_summary`.
pub record SummaryRow : Type 0 where
  pub number : ℕ
  pub source_title : String
  pub page_number : ℕ
  pub retrieval_type : Option RetrievalType
  pub identity : ChunkRef

unfoldable pub chunk_rows : ℕ → RetrievedDocument → List AnyChunk → List SummaryRow
chunk_rows i doc [] = []
chunk_rows i doc (c ∷ cs) =
    record {
      number = i;
      source_title = doc.source_title;
      page_number = page_number c;
      retrieval_type = doc.retrieval_type;
      identity = get_identity c;
    }
    ∷ chunk_rows i doc cs

unfoldable pub chunks_summary : ℕ → List RetrievedDocument → List SummaryRow
unfolding chunk_rows
chunks_summary i [] = []
chunks_summary i (doc ∷ docs) = chunk_rows i doc doc.chunks ++ chunks_summary (i + 1) docs

-- `DocumentSelector` and its kinds.
pub data DocumentSelector : Type 0 where
  all_documents : DocumentSelector
  exact_documents : Option (List ℕ) → DocumentSelector
  explicit : MatcherConfig → DocumentSelector

unfoldable pub get_document_subset :
    Database → String → List DocumentEntity → DocumentSelector → Option (List ℕ)
unfolding get_documents_subset
get_document_subset db channel rows all_documents = none
get_document_subset db channel rows (exact_documents ids) = ids
get_document_subset db channel rows (explicit config) = get_documents_subset db channel rows config

-- `top_k.get(index_name) or 0`
unfoldable pub top_k_of : List (String × Option ℕ) → String → ℕ
top_k_of [] name = 0
top_k_of ((n, limit) ∷ top_k) name =
    if str_eq n name then elim limit [ none ↦ 0 | some k ↦ k ] else top_k_of top_k name

module _ (config : Config) (retriever : Retriever) (library : Library) (store : Store) where
  -- The stage of one index.
  unfoldable pub search_stage :
      String → ChunkIndex → ℕ → Option (List ℕ) → Sources → List RetrievedDocument × Sources
  unfolding index_search run_retrieval_stage
  search_stage query index top_k documents sources =
      let (found, sources') =
        index_search config library store query index top_k documents sources in
      (run_retrieval_stage (found >>= retriever.index_results top_k), sources')

  -- One task for each index with a limit; they share the sources.
  unfoldable pub search_tasks :
      String
      → List (String × Option ℕ)
      → Option (List ℕ)
      → List ChunkIndex
      → Sources
      → List (List RetrievedDocument)
  unfolding search_stage top_k_of
  search_tasks query top_k documents [] sources = []
  search_tasks query top_k documents (index ∷ indexes) sources =
      let limit = top_k_of top_k index.index_name in
      let (docs, sources') = search_stage query index limit documents sources in
      let with_task = docs ∷ search_tasks query top_k documents indexes sources' in
      let without = search_tasks query top_k documents indexes sources in
      if limit == 0 then without else with_task

  unfoldable pub combine_tasks : List (List RetrievedDocument) → Option (List RetrievedDocument)
  combine_tasks [] = some []
  combine_tasks (docs ∷ lists) = retriever.combined_results (docs ∷ lists)

  -- `invoke` for a subset of the documents; an empty one finds nothing.
  unfoldable pub invoke :
      String → List (String × Option ℕ) → Option (List ℕ) → List ChunkIndex → List RetrievedDocument
  unfolding search_tasks combine_tasks run_retrieval_stage
  invoke query top_k (some []) indexes = []
  invoke query top_k none indexes =
      run_retrieval_stage (combine_tasks (search_tasks query top_k none indexes []))
  invoke query top_k (some (d ∷ ds)) indexes =
      run_retrieval_stage (combine_tasks (search_tasks query top_k (some (d ∷ ds)) indexes []))
