-- ===== src/Retrieval.antt =====
-- src/generic_rag/components/retrieval/abstract_retriever.py, with the selectors of documents
-- (document_selector.py), the search of an index (components/search_index.py) and the two retrievers
-- (simple_retriever.py, classic_retriever.py). None stands for an exception: whatever its class, a
-- stage ends it. The indexers and index storages are parameters, as is the last part of a path.
pub mod Cached
pub mod Sources
pub mod Retrievers
mod Tests
use ai_dial_generic_rag_back.Prelude.{
  ℕ, ◌≡◌, refl, ◌+◌, Bool, true, false, ◌&&◌, not, Option, none, some, String, str_eq, List, [],
  ◌∷◌, ◌++◌, length, keep, map, ◌==◌, if◌then◌else◌, ◌↔◌, arith, ap, ==_iff,
}
use ai_dial_generic_rag_back.Prelude.Equality.{Hashable, nat_key, pair_key, contains}
use ai_dial_generic_rag_back.Prelude.Options.{◌>>=◌}
use ai_dial_generic_rag_back.Types.{ChunkType, ChunkRef, AnyChunk, RetrievedDocument}
use ai_dial_generic_rag_back.Types.Chunk.{get_identity, page_number}
use ai_dial_generic_rag_back.Types.Json.{
  Json, Fields, string, null, bool, number, array, object, lookup,
}
use ai_dial_generic_rag_back.Chunks.{Store}
use ai_dial_generic_rag_back.Chunks.Queries.{get_chunks_by_references, is_type}
use ai_dial_generic_rag_back.Documents.{Document, Library}
use ai_dial_generic_rag_back.Documents.Service.{get_documents_by_id}
use ai_dial_generic_rag_back.Documents.Upload.{is_given}
use ai_dial_generic_rag_back.Documents.Matcher.{Database, MatcherConfig, get_documents_subset}
use ai_dial_generic_rag_back.Classic.{PageChunks, index_invoke, aggregate_invoke}
use ai_dial_generic_rag_back.Ranking.{Floats, ok, raise, rank_fusion}
use ai_dial_generic_rag_back.Ranking as Ranking

is_type_iff : (s t : ChunkType) → (is_type s t ≡ true) ↔ (s ≡ t)
is_type_iff ChunkType.text ChunkType.text = (λ h. refl, λ h. refl)
is_type_iff ChunkType.text ChunkType.image = (λ h. cc, λ h. cc)
is_type_iff ChunkType.image ChunkType.text = (λ h. cc, λ h. cc)
is_type_iff ChunkType.image ChunkType.image = (λ h. refl, λ h. refl)

abbrev pub same_ref : ChunkRef → ChunkRef → Bool
same_ref r s =
    is_type r.chunk_type s.chunk_type && r.document_id == s.document_id && r.chunk_id == s.chunk_id

pub same_ref_iff : (r s : ChunkRef) → (same_ref r s ≡ true) ↔ (r ≡ s)
same_ref_iff r s = (
  λ h. ground (
    arith,
    is_type_iff r.chunk_type s.chunk_type,
    ==_iff r.document_id s.document_id,
    ==_iff r.chunk_id s.chunk_id,
  ),
  λ h. ground (
    arith,
    is_type_iff r.chunk_type s.chunk_type,
    ==_iff r.document_id s.document_id,
    ==_iff r.chunk_id s.chunk_id,
    ap (λ (q : ChunkRef). q.chunk_type) h,
  ),
)

-- References as keys of a dictionary.
instance abbrev pub ref_key : Hashable ChunkRef
ref_key = record { same = same_ref; same_iff = same_ref_iff }

-- `ChunkIndex` with what its storage finds for a query, a limit and a subset of the documents.
pub record ChunkIndex : Type 0 where
  pub index_name : String
  pub default_limit : ℕ
  pub relevance_search : String → ℕ → Option (List ℕ) → Option (List ChunkRef)

-- `ChunkIndex.search`; `limit or self.config.default_limit`
unfoldable pub search_index : ChunkIndex → String → ℕ → Option (List ℕ) → Option (List ChunkRef)
search_index index query limit documents =
    index.relevance_search query (if limit == 0 then index.default_limit else limit) documents

-- `chunks_by_ref`: the last chunk with an identity is kept.
unfoldable pub find_chunk : List AnyChunk → ChunkRef → Option AnyChunk
find_chunk [] ref = none
find_chunk (c ∷ cs) ref = elim (find_chunk cs ref) [
  | some d ↦ some d
  | none ↦ if same_ref (get_identity c) ref then some c else none
]

-- `self._sources`, a dictionary in which the latest entry counts.
abbrev pub Sources : Type 0
Sources = List (ℕ × Document)

unfoldable pub find_source : Sources → ℕ → Option Document
find_source [] id = none
find_source ((j, source) ∷ sources) id = if j == id then some source else find_source sources id

unfoldable pub add_sources : List Document → Sources → Sources
add_sources [] sources = sources
add_sources (d ∷ ds) sources = add_sources ds ((d.id, d) ∷ sources)

abbrev pub is_missing : Sources → ℕ → Bool
is_missing sources id = elim (find_source sources id) [ none ↦ true | some source ↦ false ]

unfoldable pub missing_sources : Sources → List ChunkRef → List ℕ
unfolding find_source
missing_sources sources refs =
    keep (is_missing sources) (map (λ (ref : ChunkRef). ref.document_id) refs)

-- `[(ref, self._sources[ref.document_id]) for ref in refs]`; a missing key raises.
unfoldable pub pair_sources : Sources → List ChunkRef → Option (List (ChunkRef × Document))
unfolding find_source
pair_sources sources [] = some []
pair_sources sources (ref ∷ refs) = do
  source ← find_source sources ref.document_id
  pairs ← pair_sources sources refs
  some ((ref, source) ∷ pairs)

-- `source.metadata.get(title_field, display_name)`, which has to be a text.
unfoldable pub field_title : Option Json → String → Option String
field_title none display_name = some display_name
field_title (some (string s)) display_name = some s
field_title (some null) display_name = none
field_title (some (bool b)) display_name = none
field_title (some (number n)) display_name = none
field_title (some (array items)) display_name = none
field_title (some (object fields)) display_name = none

unfoldable pub source_title : Option String → Document → Option String
unfolding field_title lookup
source_title none source = some source.display_name
source_title (some name) source =
    if is_given name
    then field_title (lookup name source.metadata) source.display_name
    else some source.display_name

-- What a retriever is configured with; `file_name` is `PosixPath(path).name`.
pub record Config : Type 0 where
  pub channel : String
  pub title_field : Option String
  pub file_name : String → String

module _ (config : Config) where
  unfoldable pub retrieved : AnyChunk → Document → Option RetrievedDocument
  unfolding source_title
  retrieved chunk source = do
    title ← source_title config.title_field source
    some (record {
      chunks = chunk ∷ [];
      source_id = source.id;
      source_url = source.url;
      source_mime_type = source.mime_type;
      source_name = config.file_name source.display_name;
      source_page_number = page_number chunk;
      source_title = title;
      source_metadata = source.metadata;
      retrieval_type = none;
    })

  -- One round of the comprehension of `_index_search`: references without a chunk are left out.
  abbrev pub with_chunk :
      Option AnyChunk → Document → Option (List RetrievedDocument) → Option (List RetrievedDocument)
  with_chunk none source rest = rest
  with_chunk (some chunk) source rest = do
    doc ← retrieved chunk source
    docs ← rest
    some (doc ∷ docs)

  unfoldable pub retrieve_all :
      List AnyChunk → List (ChunkRef × Document) → Option (List RetrievedDocument)
  unfolding retrieved find_chunk
  retrieve_all chunks [] = some []
  retrieve_all chunks ((ref, source) ∷ pairs) =
      with_chunk (find_chunk chunks ref) source (retrieve_all chunks pairs)

  module _ (library : Library) (store : Store) where
    -- `_load_sources`
    unfoldable pub load_sources :
        List ChunkRef → Sources → Option (List (ChunkRef × Document)) × Sources
    unfolding missing_sources get_documents_by_id add_sources pair_sources
    load_sources refs sources =
        let loaded =
          add_sources (get_documents_by_id config.channel (missing_sources sources refs) library)
            sources in
        (pair_sources loaded refs, loaded)

    -- `_index_search`
    unfoldable pub index_search :
        String
        → ChunkIndex
        → ℕ
        → Option (List ℕ)
        → Sources
        → Option (List RetrievedDocument) × Sources
    index_search query index top_k documents sources =
        elim (search_index index query top_k documents) [
          | none ↦ (none, sources)
          | some refs ↦ elim (get_chunks_by_references config.channel store refs) [
            | none ↦ (none, sources)
            | some chunks ↦
                let (pairs, sources') = load_sources refs sources in
                (pairs >>= retrieve_all chunks, sources')
          ]
        ]
