-- ===== src/Indexing/Tests.antt =====
-- A small document, indexed, and the theorems at examples.
use ai_dial_generic_rag_back.Prelude.{
  ℕ, some, none, ◌≡◌, refl, Bool, true, false, none, String, List, [], ◌∷◌, ◌++◌, arith, map,
  concat,
}
use ai_dial_generic_rag_back.Prelude.Streams.{end, next, yield_all}
use ai_dial_generic_rag_back.Types.{
  ChunkMetadata, TextChunk, ImageChunk, AnyChunk, text_chunk, image_chunk, page, created,
  processing, processed, indexing, ready, error,
}
use ai_dial_generic_rag_back.Types.Json
use ai_dial_generic_rag_back.Chunks.{
  Store, add_chunks, get_chunks_by_document, delete_chunks_by_document,
}
use ai_dial_generic_rag_back.Chunks.Queries.{get_chunks_by_pages}
use ai_dial_generic_rag_back.Chunks.Pages.{IsOrdered, is_asked, get_chunks_by_pages_lem}
use ai_dial_generic_rag_back.Types.{ChunkType}
use ai_dial_generic_rag_back.Types.Chunk
use ai_dial_generic_rag_back.Prelude.Equality.{nat_key, pair_key, contains}
use ai_dial_generic_rag_back.Prelude.{length, keep, All}
use ai_dial_generic_rag_back.Indexing.{Parser, batched_async, parsed_chunks, extract_chunks}
use ai_dial_generic_rag_back.Indexing.Batches.{IsBatched, batched_async_lem}
use ai_dial_generic_rag_back.Indexing.Extraction.{number_texts, number_images, texts, images}
use ai_dial_generic_rag_back.Indexing.ImageUrls.{tally, url_of, url, url_lem}
use ai_dial_generic_rag_back.Indexing.RoundTrip.{get_chunks-add_chunks}
use ai_dial_generic_rag_back.Indexing.Documents.{
  SearchIndex, Request, remove, add_chunks_to, add_document_to, World, IndexedDocument,
  index_document, must_process,
}
use ai_dial_generic_rag_back.Indexing.Status.{Outcome, index_document_lem}

abbrev metadata : ChunkMetadata
metadata = record { page_number = 1; extra = Json.Fields.end }

abbrev words : String → TextChunk
words t = record { document_id = 7; chunk_id = 0; text = t; metadata = metadata }

abbrev picture : ImageChunk
picture = record {
  document_id = 7;
  chunk_id = 0;
  image_type = page;
  mime_type = "image/png";
  content = 1 ∷ [];
  metadata = metadata;
}

abbrev chunks : List AnyChunk
chunks =
    text_chunk (words "a")
    ∷ image_chunk picture
    ∷ text_chunk (words "b")
    ∷ text_chunk (words "c")
    ∷ []

abbrev parser : Parser
parser = record { supports = λ m. true; extract_chunks = yield_all chunks end }

abbrev empty_store : Store
empty_store = record { tables = record { text_chunks = []; image_chunks = [] }; files = [] }

batches :
    batched_async {A = ℕ} (yield_all (1 ∷ 2 ∷ 3 ∷ []) end) 2 ≡ next (1 ∷ 2 ∷ []) (next (3 ∷ []) end)
unfolding batched_async
batches = refl

batched_async_lem_example :
    (batches : List (List ℕ)) × (batched_async (yield_all (1 ∷ 2 ∷ 3 ∷ []) end) 2
      ≡ yield_all batches end)
    × (concat batches ≡ 1 ∷ 2 ∷ 3 ∷ [])
    × IsBatched 2 batches
batched_async_lem_example = batched_async_lem (1 ∷ 2 ∷ 3 ∷ []) 2 (omega arith)

abbrev document : IndexedDocument
document = record { id = 7; mime_type = "application/pdf"; status = created }

abbrev channel_indexes : List SearchIndex
channel_indexes = record { index_name = "text"; of_chunks = true } ∷ []

abbrev world : World
world = record { store = empty_store; status = created; statuses = []; requests = [] }

abbrev reliable : Request → Bool
reliable r = false

abbrev broken : Request → Bool
broken (remove name) = false
broken (add_chunks_to name batch) = true
broken (add_document_to name) = false

all_statuses :
    (index_document "ch" url channel_indexes reliable 2 50
      (parser ∷ [])
      document
      none
      false
      world).0.statuses
    ≡ processing ∷ processed ∷ indexing ∷ ready ∷ []
unfolding index_document url_of tally
all_statuses = refl

failed_statuses :
    (index_document "ch" url channel_indexes broken 2 50
      (parser ∷ [])
      document
      none
      false
      world).0.statuses
    ≡ processing ∷ processed ∷ indexing ∷ error ∷ []
unfolding index_document url_of tally
failed_statuses = refl

index_document_lem_example :
    Outcome
      (must_process "ch" url channel_indexes broken 2 50 (parser ∷ []) document false)
      world
      (index_document "ch" url channel_indexes broken 2 50 (parser ∷ []) document none false world)
index_document_lem_example =
    index_document_lem "ch" url channel_indexes broken 2 50 (parser ∷ []) document none false world

get_chunks-add_chunks_example :
    let cleared = delete_chunks_by_document "ch" url empty_store 7 in
    let (store', complete) =
      add_chunks "ch" url 2 cleared (extract_chunks "application/pdf" (parser ∷ [])) in
    (complete ≡ true)
    × (get_chunks_by_document "ch" url store' 7
        ≡ yield_all
            (map text_chunk (number_texts 0 (texts "ch" url 7 chunks))
              ++ map image_chunk (number_images 0 (images "ch" url 7 chunks)))
            end)
unfolding parsed_chunks
get_chunks-add_chunks_example =
    get_chunks-add_chunks "ch" url url_lem 7 empty_store 2 "application/pdf" (parser ∷ []) chunks
      refl (refl, (refl, (refl, (refl, tt))))

-- Two chunks on two pages, stored in the other order.
abbrev two_pages : Store
two_pages = record {
  tables = record {
    text_chunks =
        record {
          channel_key = "ch";
          document_id = 7;
          chunk_id = 2;
          columns = record { text = "b"; metadata = metadata };
        }
        ∷ record {
          channel_key = "ch";
          document_id = 7;
          chunk_id = 1;
          columns = record { text = "a"; metadata = metadata };
        }
        ∷ [];
    image_chunks = [];
  };
  files = [];
}

get_chunks_by_pages_lem_example :
    (cs : List TextChunk) × (get_chunks_by_pages "ch" two_pages ((7, 1) ∷ []) (some ChunkType.text)
      ≡ some (map text_chunk cs))
    × ((test : TextChunk → Bool)
        → length (keep test cs)
          ≡ length (keep (is_asked "ch" ((7, 1) ∷ []) test) two_pages.tables.text_chunks))
    × All (λ c. contains ((7, 1) ∷ []) (Chunk.page_key (text_chunk c)) ≡ true) cs
    × IsOrdered cs
get_chunks_by_pages_lem_example = get_chunks_by_pages_lem "ch" two_pages ((7, 1) ∷ [])
