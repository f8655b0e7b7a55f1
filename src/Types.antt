-- ===== src/Types.antt =====
-- The data types of src/generic_rag/types.py and db/entities.py that the components share. Ids and
-- page numbers are natural numbers; a value of JSON is a value of `Json`.
pub mod Json
pub mod Chunk
use ai_dial_generic_rag_back.Prelude.{
  ℕ, ◌≡◌, refl, ◌↔◌, Bool, true, false, ◌&&◌, Option, String, List, arith, ◌==◌,
}
use ai_dial_generic_rag_back.Prelude.Equality.{Hashable}
use Json.{Fields}

pub data ChunkType : Type 0 where
  text image : ChunkType

pub data ImageType : Type 0 where
  page table diagram : ImageType

pub data DocumentStatus : Type 0 where
  created processing processed indexing ready error : DocumentStatus

pub record ChunkRef : Type 0 where
  pub chunk_type : ChunkType
  pub document_id : ℕ
  pub chunk_id : ℕ

-- `extra="allow"`
pub record ChunkMetadata : Type 0 where
  pub page_number : ℕ
  pub extra : Fields

pub record TextChunk : Type 0 where
  pub document_id : ℕ
  pub chunk_id : ℕ
  pub text : String
  pub metadata : ChunkMetadata

pub record ImageChunk : Type 0 where
  pub document_id : ℕ
  pub chunk_id : ℕ
  pub image_type : ImageType
  pub mime_type : String
  pub content : List ℕ
  pub metadata : ChunkMetadata

pub data AnyChunk : Type 0 where
  text_chunk : TextChunk → AnyChunk
  image_chunk : ImageChunk → AnyChunk

-- The extra field that the classic retriever adds to its results.
pub data RetrievalType : Type 0 where
  text image unknown : RetrievalType

pub record RetrievedDocument : Type 0 where
  pub chunks : List AnyChunk
  pub source_id : ℕ
  pub source_url : String
  pub source_mime_type : String
  pub source_name : String
  pub source_page_number : ℕ
  pub source_title : String
  pub source_metadata : Fields
  pub retrieval_type : Option RetrievalType
