-- ===== src/Retrieval/Tests.antt =====
-- A search in one index, and the theorems at concrete arguments.
use ai_dial_generic_rag_back.Prelude.{ℕ, ◌+◌, ◌/◌, ◌≡◌, refl, none, some, List, [], ◌∷◌, ltb}
use ai_dial_generic_rag_back.Types.{
  ChunkType, ChunkRef, AnyChunk, text_chunk, RetrievedDocument, ready,
}
use ai_dial_generic_rag_back.Types.Json.{end}
use ai_dial_generic_rag_back.Chunks.{Store}
use ai_dial_generic_rag_back.Chunks.Queries.{get_chunks_by_references}
use ai_dial_generic_rag_back.Documents.{DocumentEntity, Library}
use ai_dial_generic_rag_back.Documents.Invariant.{IsValid}
use ai_dial_generic_rag_back.Documents.Service.{is_file}
use ai_dial_generic_rag_back.Ranking.{Floats}
use ai_dial_generic_rag_back.Retrieval.{
  ChunkIndex, Config, load_sources, index_search, search_index, retrieve_all,
}
use ai_dial_generic_rag_back.Retrieval.Cached.{IsCache}
use ai_dial_generic_rag_back.Retrieval.Sources.{sources_for, load_sources_lem}
use ai_dial_generic_rag_back.Retrieval.Retrievers.{simple_retriever, invoke}

abbrev config : Config
config = record { channel = "c"; title_field = none; file_name = λ path. path }

abbrev entity : DocumentEntity
entity = record {
  channel_key = "c";
  document_id = 4;
  url = "u";
  etag = none;
  mime_type = "text/plain";
  size = 1;
  display_name = "doc";
  metadata = end;
  status = ready;
}

abbrev lib : Library
lib = record { documents = entity ∷ []; files = ("u", 1 ∷ []) ∷ [] }

lib-IsValid : IsValid "c" lib
unfolding is_file
lib-IsValid = record { ids = (refl, tt); urls = (refl, tt); files = (λ own. refl, tt) }

abbrev chunk : AnyChunk
chunk = text_chunk (record {
  document_id = 4;
  chunk_id = 1;
  text = "hi";
  metadata = record { page_number = 1; extra = end };
})

abbrev store : Store
store = record {
  tables = record {
    text_chunks =
        record {
          channel_key = "c";
          document_id = 4;
          chunk_id = 1;
          columns = record { text = "hi"; metadata = record { page_number = 1; extra = end } };
        }
        ∷ [];
    image_chunks = [];
  };
  files = [];
}

abbrev ref : ℕ → ChunkRef
ref id = record { chunk_type = ChunkType.text; document_id = 4; chunk_id = id }

-- The index still knows a chunk that is gone.
abbrev refs : List ChunkRef
refs = ref 9 ∷ ref 1 ∷ []

abbrev index : ChunkIndex
index = record {
  index_name = "i";
  default_limit = 5;
  relevance_search = λ query limit documents. some refs;
}

abbrev result : RetrievedDocument
result = record {
  chunks = chunk ∷ [];
  source_id = 4;
  source_url = "u";
  source_mime_type = "text/plain";
  source_name = "doc";
  source_page_number = 1;
  source_title = "doc";
  source_metadata = end;
  retrieval_type = none;
}

index_found : search_index index "q" 3 none ≡ some refs
unfolding search_index
index_found = refl

chunks_found : get_chunks_by_references "c" store refs ≡ some (chunk ∷ [])
unfolding get_chunks_by_references
chunks_found = refl

documents_found : (index_search config lib store "q" index 3 none []).0 ≡ some (result ∷ [])
unfolding index_search search_index get_chunks_by_references load_sources retrieve_all
documents_found = refl

load_sources_lem_example :
    ((load_sources config lib store refs []).0 ≡ sources_for "c" lib refs)
    × IsCache "c" lib (load_sources config lib store refs []).1
load_sources_lem_example = load_sources_lem config lib lib-IsValid store refs [] tt

abbrev percent : Floats
percent = record {
  Float = ℕ;
  zero = 0;
  plus = λ a b. a + b;
  inverse = λ n. 10000 / n;
  divide = λ a n. a / n;
  less = ltb;
}

simple_run :
    invoke config (simple_retriever percent) lib store "q" (("i", some 3) ∷ []) none (index ∷ [])
    ≡ result ∷ []
unfolding invoke simple_retriever index_search search_index get_chunks_by_references load_sources
    retrieve_all
simple_run = refl
