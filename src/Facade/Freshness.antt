-- ===== src/Facade/Freshness.antt =====
-- An archive of the channel that is served shows what the channel holds.
use ai_dial_generic_rag_back.Prelude.{
  ℕ, ◌≡◌, refl, Bool, true, false, ◌||◌, not, inl, inr, Option, none, some, Option-cases, String,
  str_eq, ◌==◌, List, arith, if◌then◌else◌,
}
use ai_dial_generic_rag_back.Prelude.Results.{
  Result, Result-cases, ok, raise, and_then, raise_if, runtime_error, invalid_request, not_found,
}
use ai_dial_generic_rag_back.Chunks.{put_file, delete_file}
use ai_dial_generic_rag_back.Documents.{Document, Library}
use ai_dial_generic_rag_back.Documents.Repository.{get_by_id}
use ai_dial_generic_rag_back.Documents.Upload.{Upload}
use ai_dial_generic_rag_back.Documents.Service as Documents
use ai_dial_generic_rag_back.Documents.Service.{is_file, document_exists, get_document}
use ai_dial_generic_rag_back.Documents.Failures.{
  KeepsRows, KeepsRows-create_document, KeepsRows-update_document,
}
use ai_dial_generic_rag_back.Documents.Contents.{is_file-delete_file}
use ai_dial_generic_rag_back.Facade.{
  create_channel_archive, import_channel_archive, ChannelArchiveStatus, Setting, World, with_files,
}
use ai_dial_generic_rag_back.Facade.Archives.{
  reset_channel_export_archive, enqueue_job, create_channel_export_archive, upload_channel_archive,
  get_channel_export_archive_status, is_done,
}
use ai_dial_generic_rag_back.Facade.Changes.{
  delete_document_data, on_library, delete_document, after_change, create_document, update_document,
  reindex_document_now,
}
use ai_dial_generic_rag_back.Prelude.Actions.{and_then_after, checked_after, if_after}
use ai_dial_generic_rag_back.Facade.Operations.{
  Operation, create, update, delete, reindex, request_archive, upload_archive, perform, is_offered,
  Offered, here, after, work, Same, MakesNoArchive,
}
use ai_dial_generic_rag_back.Facade.Offers.{
  Same-refl, Same-trans, reset-offered, enqueue_job-Same, Outcome, index_document-Outcome,
  after_change-offered,
}

module _ (setting : Setting) (indexing : MakesNoArchive setting) where
  -- A change that raises in the document service, or else goes on.
  changed-Outcome :
      (w : World) (r : Result Document × Library)
      → KeepsRows w.library.documents r
      → Outcome setting w (and_then (r.0, record w { library = r.1 }) (after_change setting)).1
  unfolding KeepsRows
  changed-Outcome w (ok d, lib) h =
      inr (after_change-offered setting indexing d (record w { library = lib }))
  changed-Outcome w (raise e, lib) h = inl (record { documents = h; store = refl; records = refl })

  -- Deleting a document deletes at most one file.
  removed-offered :
      (id : ℕ) (w : World)
      → is_offered setting w ≡ false
      → is_offered setting (on_library setting (Documents.delete_document setting.channel id) w).1
        ≡ false
  unfolding Documents.delete_document
  removed-offered id w h = elim (Option-cases (get_by_id setting.channel id w.library.documents)) [
    | inl e ↦ rw (e, Documents.delete_document) h
    | inr (row, e) ↦
        rw (e, Documents.delete_document)
          (ground (arith, h, is_file-delete_file row.url setting.archive_url w.library.files))
  ]

  delete_document-Outcome :
      (id : ℕ) (w : World) → Outcome setting w (delete_document setting id w).1
  unfolding delete_document delete_document_data
  delete_document-Outcome id w =
      let cleared = delete_document_data setting id (reset_channel_export_archive setting w) in
      if_after (Outcome setting w) (document_exists setting.channel id w.library)
        (on_library setting (Documents.delete_document setting.channel id) cleared)
        (raise not_found, w) (inr (removed-offered id cleared (reset-offered setting w)))
        (inl (Same-refl w))

  reindex-Outcome :
      (id : ℕ) (names : Option (List String)) (force background : Bool) (w : World)
      → Outcome setting w (reindex_document_now setting id names force background w).1
  unfolding reindex_document_now
  reindex-Outcome id names force background w =
      elim (Result-cases (get_document setting.channel id w.library)) [
        | inl (e, f) ↦ rw (f, reindex_document_now) (inl (Same-refl w))
        | inr (d, f) ↦
            rw (f, reindex_document_now)
              (index_document-Outcome setting indexing d names force background w)
      ]

  request-Same : (w : World) → Same w (create_channel_export_archive setting true w).1
  unfolding create_channel_export_archive
  request-Same w =
      let status = get_channel_export_archive_status setting w in
      let r = enqueue_job setting create_channel_archive (some setting.channel) w in
      let same = enqueue_job-Same setting create_channel_archive (some setting.channel) w in
      let answer = λ (is_queued : Bool) (v : World).
        if is_queued then (ok ChannelArchiveStatus.pending, v) else (raise invalid_request, v) in
      if_after (Same w) (is_done setting status) (ok status, w) (and_then r answer) (Same-refl w)
        (and_then_after (Same w) r answer same (λ is_queued.
          if_after (Same w) is_queued (ok ChannelArchiveStatus.pending, r.1)
            (raise invalid_request, r.1) same same))

  upload-Same :
      (a : Upload) (path : String) (w : World) → Same w (upload_channel_archive setting a path w).1
  unfolding upload_channel_archive
  upload-Same a path w =
      let url = (setting.documents.stored path "application/zip" a.content).url in
      let put_it = with_files w (put_file url a.content w.library.files) in
      let r = enqueue_job setting import_channel_archive none put_it in
      let queued_it = enqueue_job-Same setting import_channel_archive none put_it in
      let same : Same w r.1 = record {
        documents = queued_it.documents;
        store = queued_it.store;
        records = queued_it.records;
      } in
      let answer = λ (is_queued : Bool) (v : World).
        if is_queued
        then (ok true, v)
        else (ok false, with_files v (delete_file url v.library.files)) in
      checked_after (Same w)
        (raise_if (a.size == 0 || not (str_eq a.content_type "application/zip")) runtime_error)
        (λ v.
          and_then
            (enqueue_job setting import_channel_archive none
              (with_files v (put_file url a.content v.library.files)))
            answer)
        w (Same-refl w)
        (and_then_after (Same w) r answer same (λ is_queued.
          if_after (Same w) is_queued (ok true, r.1)
            (ok false, with_files r.1 (delete_file url r.1.library.files)) same
            (record { documents = same.documents; store = same.store; records = same.records })))

  perform-Outcome : (op : Operation) (w : World) → Outcome setting w (perform setting op w)
  unfolding perform create_document update_document
  perform-Outcome (create a folder metadata overwrite) w =
      changed-Outcome w
        (Documents.create_document setting.documents setting.channel a folder metadata overwrite
          w.library)
        (KeepsRows-create_document setting.documents setting.channel a folder metadata overwrite
          w.library)
  perform-Outcome (update id a metadata) w =
      changed-Outcome w
        (Documents.update_document setting.documents setting.channel id a metadata w.library)
        (KeepsRows-update_document setting.documents setting.channel id a metadata w.library)
  perform-Outcome (delete id) w = delete_document-Outcome id w
  perform-Outcome (reindex id names force background) w =
      reindex-Outcome id names force background w
  perform-Outcome request_archive w = inl (request-Same w)
  perform-Outcome (upload_archive a path) w = inl (upload-Same a path w)

  still_offered : (w v : World) → Outcome setting w v → is_offered setting v ≡ true → Same w v
  still_offered w v (inl same) h = same
  still_offered w v (inr gone) h = absurd (cc (h, gone))

  -- Where indexing makes no archive: through whatever uploads, updates, deletions, indexings and
  -- requests for archives, those that raise included, and whatever workers and exports do to the
  -- jobs and the files in between: as long as an archive of the channel is served or under way
  -- after each of them, the documents, the chunks and the index records are those of the beginning.
  pub served_archive_lem : {w v : World} → Offered setting w v → Same w v
  served_archive_lem here = Same-refl _
  served_archive_lem (after {v} path op h) =
      Same-trans (served_archive_lem path)
        (still_offered v (perform setting op v) (perform-Outcome op v) h)
  served_archive_lem (work path jobs files) =
      Same-trans (served_archive_lem path)
        (record { documents = refl; store = refl; records = refl })
