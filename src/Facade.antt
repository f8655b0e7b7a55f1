-- ===== src/Facade.antt =====
-- src/generic_rag/services/facade_service.py: what its operations work on. The queue of jobs is a
-- list. The indexing service (Indexing), exports and the access to an application are parameters.
pub mod Archives
pub mod Changes
pub mod Laws
pub mod Operations
pub mod Offers
pub mod Freshness
mod Tests
use ai_dial_generic_rag_back.Prelude.{
  ℕ, zero, suc, ◌+◌, Bool, true, false, ◌&&◌, ◌||◌, not, Option, none, some, String, str_eq, List,
  [], ◌∷◌, ◌++◌, keep, map, ◌==◌, if◌then◌else◌,
}
use ai_dial_generic_rag_back.Prelude.Equality.{nat_key, string_key, contains}
use ai_dial_generic_rag_back.Prelude.Results.{
  Error, Result, ok, raise, Action, checked, and_then, raise_if, invalid_request, runtime_error,
}
use ai_dial_generic_rag_back.Types.{DocumentStatus, ImageChunk}
use ai_dial_generic_rag_back.Types.Json.{Fields}
use ai_dial_generic_rag_back.Chunks.{Store, Files, put_file, delete_file, delete_chunks_by_document}
use ai_dial_generic_rag_back.Documents.{Document, Library}
use ai_dial_generic_rag_back.Documents.Upload.{Upload, FileMetadata, Setup}
use ai_dial_generic_rag_back.Documents.Service as Documents
use ai_dial_generic_rag_back.Documents.Service.{is_file, document_exists, get_document}

pub data EntrypointName : Type 0 where
  reindex_document create_channel_archive import_channel_archive : EntrypointName

pub data JobStatus : Type 0 where
  queued picked exception canceled successful : JobStatus

-- A job in the queue; its payload may be missing.
pub record Job : Type 0 where
  pub entrypoint : EntrypointName
  pub application_id : Option String
  pub dedupe_key : Option String
  pub status : JobStatus

pub data ChannelArchiveStatus : Type 0 where
  ready pending not_found error : ChannelArchiveStatus

-- What the services of a channel work on: documents and their files, chunks, the records of the
-- indexes by name and document, and the queue.
pub record World : Type 0 where
  pub library : Library
  pub store : Store
  pub records : List (String × ℕ)
  pub jobs : List Job

abbrev pub is_entrypoint : EntrypointName → EntrypointName → Bool
is_entrypoint reindex_document reindex_document = true
is_entrypoint create_channel_archive create_channel_archive = true
is_entrypoint import_channel_archive import_channel_archive = true
is_entrypoint _ _ = false

abbrev pub is_active : JobStatus → Bool
is_active queued = true
is_active picked = true
is_active exception = false
is_active canceled = false
is_active successful = false

abbrev pub has_failed : JobStatus → Bool
has_failed queued = false
has_failed picked = false
has_failed exception = true
has_failed canceled = false
has_failed successful = false

abbrev pub with_files : World → Files → World
with_files world files = record world { library = record (world.library) { files = files } }

-- Whether an optional text is there and is the given one.
abbrev pub is_text : String → Option String → Bool
is_text s none = false
is_text s (some t) = str_eq t s

-- Every record of the setting that the facade reads.
pub record Setting : Type 0 where
  pub documents : Setup
  pub channel : String
  pub application_id : String
  pub image_url : ImageChunk → String
  pub index_names : List String
  -- Of `/export/{channel_key}.zip` and of a document's key in the queue.
  pub archive_url : String
  pub document_dedupe_key : ℕ → String
  pub has_access : Bool
  -- The services that are parameters.
  pub run_indexing : Document → Option (List String) → Bool → Action World (Unit {0})
  pub export_channel : Action World (Unit {0})
  pub import_channel : String → Action World (Unit {0})
