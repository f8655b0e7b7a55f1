-- ===== src/Facade/Archives.antt =====
-- The archives of a channel in src/generic_rag/services/facade_service.py, and `enqueue_job` of
-- src/generic_rag/app/jobs.py. That the queue refuses a job whose key an active job has is what its
-- library documents.
use ai_dial_generic_rag_back.Prelude.{
  Bool, true, false, ◌&&◌, ◌||◌, not, Option, none, some, String, str_eq, List, [], ◌∷◌, ◌++◌, ◌==◌,
  if◌then◌else◌,
}
use ai_dial_generic_rag_back.Prelude.Equality.{nat_key, string_key}
use ai_dial_generic_rag_back.Prelude.Results.{
  Result, ok, raise, Action, checked, and_then, raise_if, invalid_request, runtime_error,
}
use ai_dial_generic_rag_back.Chunks.{put_file, delete_file}
use ai_dial_generic_rag_back.Documents.Upload.{Upload}
use ai_dial_generic_rag_back.Documents.Service.{is_file}
use ai_dial_generic_rag_back.Facade.{
  EntrypointName, create_channel_archive, import_channel_archive, JobStatus, queued, canceled, Job,
  ChannelArchiveStatus, World, is_entrypoint, is_active, has_failed, with_files, is_text, Setting,
}

module _ (setting : Setting) where
  -- A job for the archive of this application.
  abbrev pub is_archive_job : (JobStatus → Bool) → Job → Bool
  is_archive_job test job =
      is_entrypoint job.entrypoint create_channel_archive
      && test job.status
      && is_text setting.application_id job.application_id

  abbrev pub any_job : (Job → Bool) → List Job → Bool
  any_job test [] = false
  any_job test (job ∷ jobs) = test job || any_job test jobs

  -- `mark_job_as_cancelled` of the jobs that are active.
  unfoldable pub cancel_jobs : List Job → List Job
  cancel_jobs [] = []
  cancel_jobs (job ∷ jobs) =
      (if is_archive_job is_active job then record job { status = canceled } else job)
      ∷ cancel_jobs jobs

  unfoldable pub reset_channel_export_archive : World → World
  unfolding cancel_jobs is_file
  reset_channel_export_archive world = record world {
    jobs = cancel_jobs world.jobs;
    library =
        if is_file setting.archive_url world.library.files
        then record (world.library) { files = delete_file setting.archive_url world.library.files }
        else world.library;
  }

  unfoldable pub get_channel_export_archive_status : World → ChannelArchiveStatus
  unfolding is_file
  get_channel_export_archive_status world =
      if any_job (is_archive_job is_active) world.jobs
      then ChannelArchiveStatus.pending
      else if any_job (is_archive_job has_failed) world.jobs
      then ChannelArchiveStatus.error
      else if is_file setting.archive_url world.library.files
      then ChannelArchiveStatus.ready
      else ChannelArchiveStatus.not_found

  -- An active job with the same key.
  abbrev pub is_duplicate : Option String → Job → Bool
  is_duplicate none job = false
  is_duplicate (some key) job = is_active job.status && is_text key job.dedupe_key

  unfoldable pub enqueue_job : EntrypointName → Option String → Action World Bool
  enqueue_job entrypoint dedupe_key world =
      if not setting.has_access
      then (ok false, world)
      else if any_job (is_duplicate dedupe_key) world.jobs
      then (raise invalid_request, world)
      else (
        ok true,
        record world {
          jobs =
              world.jobs
              ++ record {
                entrypoint = entrypoint;
                application_id = some setting.application_id;
                dedupe_key = dedupe_key;
                status = queued;
              }
                ∷ [];
        },
      )

  abbrev pub is_done : ChannelArchiveStatus → Bool
  is_done ChannelArchiveStatus.pending = true
  is_done ChannelArchiveStatus.ready = true
  is_done ChannelArchiveStatus.not_found = false
  is_done ChannelArchiveStatus.error = false

  -- Any exception of the export is reported as a status.
  unfoldable pub archive_outcome : Result (Unit {0}) × World → Result ChannelArchiveStatus × World
  archive_outcome (ok done, world) = (ok ChannelArchiveStatus.ready, world)
  archive_outcome (raise e, world) = (ok ChannelArchiveStatus.error, world)

  unfoldable pub create_channel_export_archive : Bool → Action World ChannelArchiveStatus
  unfolding get_channel_export_archive_status enqueue_job archive_outcome
  create_channel_export_archive true world =
      let status = get_channel_export_archive_status world in
      let enqueued =
        and_then (enqueue_job create_channel_archive (some setting.channel) world)
          λ is_queued world'.
            if is_queued
            then (ok ChannelArchiveStatus.pending, world')
            else (raise invalid_request, world') in
      if is_done status then (ok status, world) else enqueued
  create_channel_export_archive false world = archive_outcome (setting.export_channel world)

  -- `upload_channel_archive`, to a path that is not in use yet.
  unfoldable pub upload_channel_archive : Upload → String → Action World Bool
  unfolding enqueue_job
  upload_channel_archive a path world =
      let content_type : String = "application/zip" in
      let file_meta = setting.documents.stored path content_type a.content in
      checked (raise_if (a.size == 0 || not (str_eq a.content_type content_type)) runtime_error)
        (λ w.
          and_then
            (enqueue_job import_channel_archive none
              (with_files w (put_file file_meta.url a.content w.library.files)))
            λ is_queued w'.
              if is_queued
              then (ok true, w')
              else (ok false, with_files w' (delete_file file_meta.url w'.library.files)))
        world

  -- The handlers of `import_channel_archive`.
  unfoldable pub after_import : String → Result (Unit {0}) × World → Result (Unit {0}) × World
  after_import url (ok done, world) =
      (ok tt, with_files world (delete_file url world.library.files))
  after_import url (raise invalid_request, world) =
      (ok tt, with_files world (delete_file url world.library.files))
  after_import url (raise e, world) = (raise e, world)

  -- `import_channel_archive`: an invalid archive is deleted like one that was imported.
  unfoldable pub import_archive : String → Action World (Unit {0})
  unfolding after_import
  import_archive url world = after_import url (setting.import_channel url world)
