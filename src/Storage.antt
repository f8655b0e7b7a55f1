-- ===== src/Storage.antt =====
-- `FileStorage` of src/generic_rag/types.py: the operations of a storage of files, as calls on its
-- state, and a client that makes them one after the other.
pub mod Dial
pub mod Caching
pub mod Soundness
pub mod Refinement
mod Tests
use ai_dial_generic_rag_back.Prelude.{ℕ, Option, none, some, String, List, [], ◌∷◌, concat}
use ai_dial_generic_rag_back.Prelude.Results.{Result, ok, raise, response_error, Action}
use ai_dial_generic_rag_back.Prelude.Streams.{Stream, to_list}
use ai_dial_generic_rag_back.Documents.Upload.{FileMetadata}

-- `bytes | BinaryIO`
pub data Content : Type 0 where
  bytes file : List ℕ → Content

pub record FileStorage : Type 1 where
  pub State : Type 0
  pub get_bucket : State → Result String
  pub put_file : (bucket filepath content_type : String) → Content → Action State FileMetadata
  pub get_file_metadata : String → State → Result (Option FileMetadata)
  pub download_file : String → Action State (Option (Stream (List ℕ)))
  pub copy_file_to_user : (source_url destination_name : String) → Action State String
  pub delete_file : String → Action State (Unit {0})

-- `b"".join([chunk async for chunk in stream])`
abbrev pub join : Stream (List ℕ) → Result (List ℕ)
join stream = elim (to_list stream) [
  | none ↦ raise response_error
  | some chunks ↦ ok (concat chunks)
]

-- A download that is read to its end.
abbrev pub read : Result (Option (Stream (List ℕ))) → Result (Option (List ℕ))
read (raise e) = raise e
read (ok none) = ok none
read (ok (some stream)) = elim (join stream) [ raise e ↦ raise e | ok content ↦ ok (some content) ]

pub data Call : Type 0 where
  own_bucket : Call
  put : (bucket filepath content_type : String) → Content → Call
  metadata download delete : String → Call
  copy : (source_url destination_name : String) → Call

pub data Reply : Type 0 where
  bucket_reply : Result String → Reply
  put_reply : Result FileMetadata → Reply
  metadata_reply : Result (Option FileMetadata) → Reply
  download_reply : Result (Option (List ℕ)) → Reply
  copy_reply : Result String → Reply
  delete_reply : Result (Unit {0}) → Reply

module _ (storage : FileStorage) where
  abbrev pub perform : Call → storage.State → Reply × storage.State
  perform own_bucket s = (bucket_reply (storage.get_bucket s), s)
  perform (put bucket filepath content_type content) s =
      let r = storage.put_file bucket filepath content_type content s in (put_reply r.0, r.1)
  perform (metadata url) s = (metadata_reply (storage.get_file_metadata url s), s)
  perform (download url) s = let r = storage.download_file url s in (download_reply (read r.0), r.1)
  perform (copy source_url destination_name) s =
      let r = storage.copy_file_to_user source_url destination_name s in (copy_reply r.0, r.1)
  perform (delete url) s = let r = storage.delete_file url s in (delete_reply r.0, r.1)

  -- Calls, each of them after others have changed the state of the files.
  unfoldable pub perform_all :
      {S : Type 0}
      → ((S → S) → storage.State → storage.State)
      → List ((S → S) × Call)
      → storage.State
      → List Reply × storage.State
  perform_all lift [] s = ([], s)
  perform_all lift ((others, call) ∷ calls) s =
      let r = perform call (lift others s) in
      let rest = perform_all lift calls r.1 in (r.0 ∷ rest.0, rest.1)
