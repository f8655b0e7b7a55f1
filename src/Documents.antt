-- ===== src/Documents.antt =====
-- src/generic_rag/services/document_service.py: the documents of the channels. The table is the
-- list of its rows in the order of insertion, and a file of the storage stands under its URL. The
-- paths of `_get_upload_filepath` and `_get_display_name`, the schema test, ETags and the Unicode
-- properties behind `strip` and `lower` are parameters.
pub mod Repository
pub mod Tables
pub mod Calls
pub mod Contents
pub mod Creation
pub mod Invariant
pub mod Listing
pub mod Reading
pub mod Failures
pub mod Searching
pub mod Found
pub mod Matcher
pub mod Matching
pub mod Query
mod Tests
mod SearchTests
pub mod Upload
pub mod Service
use ai_dial_generic_rag_back.Prelude.{ℕ, Option, none, some, String, List}
use ai_dial_generic_rag_back.Types.{DocumentStatus}
use ai_dial_generic_rag_back.Types.Json.{Fields}
use ai_dial_generic_rag_back.Chunks.{Files}

-- `DocumentEntity`, without its timestamps.
pub record DocumentEntity : Type 0 where
  pub channel_key : String
  pub document_id : ℕ
  pub url : String
  pub etag : Option String
  pub mime_type : String
  pub size : ℕ
  pub display_name : String
  pub metadata : Fields
  pub status : DocumentStatus

pub record Document : Type 0 where
  pub id : ℕ
  pub url : String
  pub display_name : String
  pub mime_type : String
  pub size : ℕ
  pub metadata : Fields
  pub status : DocumentStatus

-- `_Document.from_entity`; `file_url` is the `url` again.
abbrev pub from_entity : DocumentEntity → Document
from_entity e = record {
  id = e.document_id;
  url = e.url;
  display_name = e.display_name;
  mime_type = e.mime_type;
  size = e.size;
  metadata = e.metadata;
  status = e.status;
}

pub record Library : Type 0 where
  pub documents : List DocumentEntity
  pub files : Files
