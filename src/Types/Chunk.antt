-- ===== src/Types/Chunk.antt =====
-- The members that text and image chunks share (`ChunkRef` and its subclasses in
-- src/generic_rag/types.py).
use ai_dial_generic_rag_back.Prelude.{ℕ}
use ai_dial_generic_rag_back.Types.{ChunkType, ChunkRef, AnyChunk, text_chunk, image_chunk}

abbrev pub chunk_type : AnyChunk → ChunkType
chunk_type (text_chunk c) = ChunkType.text
chunk_type (image_chunk c) = ChunkType.image

abbrev pub document_id : AnyChunk → ℕ
document_id (text_chunk c) = c.document_id
document_id (image_chunk c) = c.document_id

abbrev pub chunk_id : AnyChunk → ℕ
chunk_id (text_chunk c) = c.chunk_id
chunk_id (image_chunk c) = c.chunk_id

abbrev pub page_number : AnyChunk → ℕ
page_number (text_chunk c) = c.metadata.page_number
page_number (image_chunk c) = c.metadata.page_number

abbrev pub page_key : AnyChunk → ℕ × ℕ
page_key c = (document_id c, page_number c)

abbrev pub get_identity : AnyChunk → ChunkRef
get_identity c = record {
  chunk_type = chunk_type c;
  document_id = document_id c;
  chunk_id = chunk_id c;
}
