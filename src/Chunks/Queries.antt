-- ===== src/Chunks/Queries.antt =====
-- `get_chunks_by_references` and `get_chunks_by_pages` of
-- src/generic_rag/services/chunk_service.py. A query without an order gives rows as they stand.
use ai_dial_generic_rag_back.Prelude.{
  ℕ, Bool, true, false, ◌&&◌, ◌||◌, Option, none, some, String, str_eq, List, [], ◌∷◌, ltb, ◌==◌,
  keep, if◌then◌else◌,
}
use ai_dial_generic_rag_back.Prelude.Equality.{nat_key, pair_key, contains}
use ai_dial_generic_rag_back.Prelude.Sorting.{sorted}
use ai_dial_generic_rag_back.Prelude.Streams.{to_list}
use ai_dial_generic_rag_back.Types.{ChunkType, ChunkMetadata, ChunkRef, AnyChunk}
use ai_dial_generic_rag_back.Chunks.{
  Row, TextColumns, ImageColumns, Store, convert_texts, convert_images,
}

-- The ids of the references of one type.
abbrev pub is_type : ChunkType → ChunkType → Bool
is_type ChunkType.text ChunkType.text = true
is_type ChunkType.image ChunkType.image = true
is_type _ _ = false

unfoldable pub chunk_ids : ChunkType → List ChunkRef → List (ℕ × ℕ)
chunk_ids type [] = []
chunk_ids type (ref ∷ refs) =
    let rest = chunk_ids type refs in
    if is_type type ref.chunk_type then (ref.document_id, ref.chunk_id) ∷ rest else rest

module _ {ℓ} {P : Type ℓ} where
  abbrev pub is_before : Row P → Row P → Bool
  is_before r s =
      ltb r.document_id s.document_id
      || (r.document_id == s.document_id && ltb r.chunk_id s.chunk_id)

  -- `order_by(document_id, chunk_id)`
  abbrev pub order_by_document : List (Row P) → List (Row P)
  order_by_document rows = sorted is_before rows

  abbrev pub has_id : String → List (ℕ × ℕ) → Row P → Bool
  has_id channel ids r = str_eq r.channel_key channel && contains ids (r.document_id, r.chunk_id)

  abbrev pub is_on : String → (P → ChunkMetadata) → List (ℕ × ℕ) → Row P → Bool
  is_on channel metadata pages r =
      str_eq r.channel_key channel
      && contains pages (r.document_id, (metadata r.columns).page_number)

abbrev pub wants : ChunkType → Option ChunkType → Bool
wants type none = true
wants type (some type') = is_type type type'

-- The rows, if their type is wanted.
abbrev pub when {ℓ} : {A : Type ℓ} → Bool → List A → List A
when true rows = rows
when false rows = []

module _ (channel : String) where
  -- None is the exception of a missing image.
  unfoldable pub get_chunks_by_references : Store → List ChunkRef → Option (List AnyChunk)
  unfolding chunk_ids convert_texts convert_images
  get_chunks_by_references store refs = to_list (
      convert_texts (keep (has_id channel (chunk_ids ChunkType.text refs)) store.tables.text_chunks)
        (convert_images store.files
          (keep (has_id channel (chunk_ids ChunkType.image refs)) store.tables.image_chunks)))

  abbrev pub text_rows_on : Store → List (ℕ × ℕ) → List (Row TextColumns)
  text_rows_on store pages =
      order_by_document (keep (is_on channel (λ c. c.metadata) pages) store.tables.text_chunks)

  abbrev pub image_rows_on : Store → List (ℕ × ℕ) → List (Row ImageColumns)
  image_rows_on store pages =
      order_by_document (keep (is_on channel (λ c. c.metadata) pages) store.tables.image_chunks)

  -- `if not doc_pages: return []`
  unfoldable pub get_chunks_by_pages :
      Store → List (ℕ × ℕ) → Option ChunkType → Option (List AnyChunk)
  unfolding sorted convert_texts convert_images
  get_chunks_by_pages store [] type = some []
  get_chunks_by_pages store (p ∷ pages) type = to_list (
      convert_texts (when (wants ChunkType.text type) (text_rows_on store (p ∷ pages))) (
        convert_images store.files
          (when (wants ChunkType.image type) (image_rows_on store (p ∷ pages)))))
