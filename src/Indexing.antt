-- ===== src/Indexing.antt =====
-- src/generic_rag/services/indexing_service.py, services/chunk_service.py and
-- utils/iterables.py: how the chunks of a document are extracted, stored and handed to the indexes.
-- The tables are lists of rows in the order of insertion; a query filters and sorts them.
pub mod Batches
pub mod ImageUrls
pub mod Extraction
pub mod RoundTrip
pub mod Documents
pub mod Status
mod Tests
use ai_dial_generic_rag_back.Prelude.{
  ℕ, ◌+◌, Bool, true, false, ◌&&◌, Option, none, some, String, str_eq, List, [], ◌∷◌, ◌++◌, length,
  leb, ltb, ◌==◌, keep, map, if◌then◌else◌,
}
use ai_dial_generic_rag_back.Prelude.Streams.{Stream, end, raised, next}
use ai_dial_generic_rag_back.Types.{
  ImageType, ChunkMetadata, TextChunk, ImageChunk, AnyChunk, text_chunk, image_chunk,
  DocumentStatus,
}

-- `batched_async`: the items read so far are in `batch`.
module _ {ℓ} {A : Type ℓ} where
  unfoldable pub batched_from : ℕ → List A → Stream A → Stream (List A)
  batched_from batch_size [] end = end
  batched_from batch_size (x ∷ batch) end = next (x ∷ batch) end
  batched_from batch_size batch raised = raised
  batched_from batch_size batch (next item items) =
      let batch' = batch ++ item ∷ [] in
      let full = next batch' (batched_from batch_size [] items) in
      let rest = batched_from batch_size batch' items in
      if leb batch_size (length batch') then full else rest

  unfoldable pub batched_async : Stream A → ℕ → Stream (List A)
  unfolding batched_from
  batched_async items batch_size = batched_from batch_size [] items

  -- One generator after the other.
  unfoldable pub chain : Stream A → Stream A → Stream A
  chain end rest = rest
  chain raised rest = raised
  chain (next x s) rest = next x (chain s rest)

pub record Parser : Type 0 where
  pub supports : String → Bool
  pub extract_chunks : Stream AnyChunk

abbrev pub with_id : AnyChunk → ℕ → AnyChunk
with_id (text_chunk c) n = text_chunk (record c { chunk_id = n })
with_id (image_chunk c) n = image_chunk (record c { chunk_id = n })

-- The body of the loop over the chunks, with `last_text_chunk_id` and `last_image_chunk_id`.
unfoldable pub number_chunks : ℕ → ℕ → Stream AnyChunk → Stream AnyChunk
number_chunks last_text last_image end = end
number_chunks last_text last_image raised = raised
number_chunks last_text last_image (next (text_chunk c) s) =
    next (with_id (text_chunk c) (last_text + 1)) (number_chunks (last_text + 1) last_image s)
number_chunks last_text last_image (next (image_chunk c) s) =
    next (with_id (image_chunk c) (last_image + 1)) (number_chunks last_text (last_image + 1) s)

-- The chunks of the parsers that support the type of the document.
unfoldable pub parsed_chunks : String → List Parser → Stream AnyChunk
unfolding chain
parsed_chunks mime_type [] = end
parsed_chunks mime_type (parser ∷ parsers) =
    let rest = parsed_chunks mime_type parsers in
    if parser.supports mime_type then chain parser.extract_chunks rest else rest

-- `IndexingService._extract_chunks`
unfoldable pub extract_chunks : String → List Parser → Stream AnyChunk
unfolding parsed_chunks number_chunks
extract_chunks mime_type parsers = number_chunks 0 0 (parsed_chunks mime_type parsers)
