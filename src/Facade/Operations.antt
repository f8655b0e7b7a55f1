-- ===== src/Facade/Operations.antt =====
-- The operations of the facade one after the other, and the archive of a channel beside them.
use ai_dial_generic_rag_back.Prelude.{ℕ, ◌≡◌, Bool, true, false, ◌||◌, Option, String, List}
use ai_dial_generic_rag_back.Types.Json.{Fields}
use ai_dial_generic_rag_back.Chunks.{Files}
use ai_dial_generic_rag_back.Documents.{Document}
use ai_dial_generic_rag_back.Documents.Upload.{Upload}
use ai_dial_generic_rag_back.Documents.Service.{is_file}
use ai_dial_generic_rag_back.Facade.{Setting, World, Job, is_active}
use ai_dial_generic_rag_back.Facade.Archives.{
  is_archive_job, any_job, create_channel_export_archive, upload_channel_archive,
}
use ai_dial_generic_rag_back.Facade.Changes.{
  delete_document, create_document, update_document, reindex_document_now,
}

-- The operations of the facade but imports, and a request for an archive in the background.
pub data Operation : Type 0 where
  create : Upload → String → Option Fields → Bool → Operation
  update : ℕ → Option Upload → Option Fields → Operation
  delete : ℕ → Operation
  reindex : ℕ → Option (List String) → (force background : Bool) → Operation
  request_archive : Operation
  upload_archive : Upload → String → Operation

-- The documents, chunks and index records, which an archive is made of, are the same.
pub record Same (w v : World) : Type 0 where
  pub documents : v.library.documents ≡ w.library.documents
  pub store : v.store ≡ w.store
  pub records : v.records ≡ w.records

module _ (setting : Setting) where
  unfoldable pub perform : Operation → World → World
  unfolding create_document update_document delete_document reindex_document_now
      create_channel_export_archive upload_channel_archive
  perform (create a folder metadata overwrite) w =
      (create_document setting a folder metadata overwrite w).1
  perform (update id a metadata) w = (update_document setting id a metadata w).1
  perform (delete id) w = (delete_document setting id w).1
  perform (reindex id names force background) w =
      (reindex_document_now setting id names force background w).1
  perform request_archive w = (create_channel_export_archive setting true w).1
  perform (upload_archive a path) w = (upload_channel_archive setting a path w).1

  -- The archive is served, or a job that makes it is active.
  abbrev pub is_offered : World → Bool
  is_offered w =
      any_job setting (is_archive_job setting is_active) w.jobs
      || is_file setting.archive_url w.library.files

  -- Worlds that are reached while an archive is on offer: by the operations, and by what workers and
  -- exports do to the jobs and the files in between.
  pub data Offered (w : World) : World → Type 0 where
    here : Offered w w
    after :
        {v : World}
        → Offered w v
        → (op : Operation) → is_offered (perform op v) ≡ true
        → Offered w (perform op v)
    work :
        {v : World}
        → Offered w v
        → (jobs : List Job) (files : Files)
        → Offered w (record v { jobs = jobs; library = record (v.library) { files = files } })

  -- Indexing a document makes no archive.
  pub record MakesNoArchive : Type 0 where
    pub keeps :
        (d : Document) (names : Option (List String)) (force : Bool) (w : World)
        → is_offered w ≡ false
        → is_offered (setting.run_indexing d names force w).1 ≡ false
