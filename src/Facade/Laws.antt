-- ===== src/Facade/Laws.antt =====
-- What deletions leave, and when an archive is served.
use ai_dial_generic_rag_back.Prelude.{
  ℕ, ◌≡◌, refl, Bool, true, false, ◌&&◌, ◌||◌, not, inl, inr, none, some, String, str_eq, Option,
  eq_iff, List, [], ◌∷◌, ◌++◌, keep, arith, Bool-cases, if◌then◌else◌, ◌==◌,
}
use ai_dial_generic_rag_back.Prelude.Equality.{nat_key, string_key, pair_key, contains}
use ai_dial_generic_rag_back.Prelude.Results.{ok, raise, not_found}
use ai_dial_generic_rag_back.Chunks.{is_of, Files}
use ai_dial_generic_rag_back.Documents.{DocumentEntity}
use ai_dial_generic_rag_back.Documents.Repository.{has_id, get_by_id}
use ai_dial_generic_rag_back.Documents.Service.{is_file, get_document}
use ai_dial_generic_rag_back.Documents.Service as Documents
use ai_dial_generic_rag_back.Documents.Contents.{is_file-delete_file}
use ai_dial_generic_rag_back.Facade.{
  Setting, World, Job, queued, ChannelArchiveStatus, is_active, has_failed, create_channel_archive,
}
use ai_dial_generic_rag_back.Facade.Archives.{
  is_archive_job, any_job, cancel_jobs, reset_channel_export_archive,
  get_channel_export_archive_status, enqueue_job, is_duplicate, is_done,
  create_channel_export_archive,
}

module _ (setting : Setting) where
  cancelled_none :
      (jobs : List Job)
      → any_job setting (is_archive_job setting is_active) (cancel_jobs setting jobs) ≡ false
  unfolding cancel_jobs
  cancelled_none [] = refl
  cancelled_none (job ∷ jobs) = elim (Bool-cases (is_archive_job setting is_active job)) [
    | inl yes_ ↦ rw yes_ (ground (arith, cancelled_none jobs))
    | inr no_ ↦ rw no_ (rw no_ (cancelled_none jobs))
  ]

  archive_gone :
      (world : World)
      → is_file setting.archive_url (reset_channel_export_archive setting world).library.files
        ≡ false
  unfolding reset_channel_export_archive
  archive_gone world = elim (Bool-cases (is_file setting.archive_url world.library.files)) [
    | inl yes_ ↦ rw yes_ (
        ground (
          arith,
          is_file-delete_file setting.archive_url setting.archive_url world.library.files,
          eq_iff setting.archive_url setting.archive_url,
        ))
    | inr no_ ↦ rw no_ no_
  ]

  -- After a reset no archive of the channel is served and none is under way: no job that makes one
  -- is active, the file is gone, and the status is `not_found`, or `error` if an earlier job had
  -- failed.
  pub reset_lem :
      (world : World)
      → let world' = reset_channel_export_archive setting world in
        (any_job setting (is_archive_job setting is_active) world'.jobs ≡ false)
        × (is_file setting.archive_url world'.library.files ≡ false)
        × (get_channel_export_archive_status setting world' ≡ (
            if any_job setting (is_archive_job setting has_failed) world'.jobs
            then ChannelArchiveStatus.error
            else ChannelArchiveStatus.not_found))
  unfolding get_channel_export_archive_status
  reset_lem world =
      let idle : any_job setting (is_archive_job setting is_active)
            (reset_channel_export_archive setting world).jobs
          ≡ false =
        unfold reset_channel_export_archive in cancelled_none world.jobs in
      let gone = archive_gone world in (idle, gone, rw (idle, gone) refl)

-- The files of neither a URL nor the archive.
abbrev pub other_files : Setting → String → World → Files
other_files setting url w =
    keep (λ f. not (str_eq f.0 url) && not (str_eq f.0 setting.archive_url)) w.library.files

-- The file of the document that had the id is gone, and the other ones are as before.
abbrev pub IsFileGone : Setting → World → World → Option DocumentEntity → Type 0
IsFileGone setting before after none = Unit
IsFileGone setting before after (some e) =
    (is_file e.url after.library.files ≡ false)
    × (other_files setting e.url after ≡ other_files setting e.url before)

-- What is left when a document was deleted.
pub record IsDeleted (setting : Setting) (id : ℕ) (before after : World) : Type 0 where
  pub document : get_document setting.channel id after.library ≡ raise not_found
  pub texts : keep (is_of setting.channel id) after.store.tables.text_chunks ≡ []
  pub images : keep (is_of setting.channel id) after.store.tables.image_chunks ≡ []
  pub records : keep (λ r. contains setting.index_names r.0 && r.1 == id) after.records ≡ []
  pub file : IsFileGone setting before after (get_by_id setting.channel id before.library.documents)
  pub other_texts :
      keep (λ r. not (is_of setting.channel id r)) after.store.tables.text_chunks
      ≡ keep (λ r. not (is_of setting.channel id r)) before.store.tables.text_chunks
  pub other_images :
      keep (λ r. not (is_of setting.channel id r)) after.store.tables.image_chunks
      ≡ keep (λ r. not (is_of setting.channel id r)) before.store.tables.image_chunks
  pub other_records :
      keep (λ r. not (contains setting.index_names r.0 && r.1 == id)) after.records
      ≡ keep (λ r. not (contains setting.index_names r.0 && r.1 == id)) before.records
  pub idle : any_job setting (is_archive_job setting is_active) after.jobs ≡ false
  pub archive : is_file setting.archive_url after.library.files ≡ false
  pub other_documents :
      keep (λ e. not (has_id setting.channel id e)) after.library.documents
      ≡ keep (λ e. not (has_id setting.channel id e)) before.library.documents

pub any_job-append :
    (setting : Setting) (test : Job → Bool) (jobs : List Job) (job : Job)
    → any_job setting test (jobs ++ job ∷ []) ≡ (any_job setting test jobs || test job)
any_job-append setting test [] job = ground arith
any_job-append setting test (j ∷ jobs) job = ground (arith, any_job-append setting test jobs job)

abbrev archive_job : Setting → Job
archive_job setting = record {
  entrypoint = create_channel_archive;
  application_id = some setting.application_id;
  dedupe_key = some setting.channel;
  status = queued;
}

module _ (setting : Setting) (world : World) where
  -- Asked for an archive in the background when none is served or under way, with access to the
  -- application and no active job under the key of the channel, the call queues one job and answers
  -- `pending`; asked again, it answers `pending` and queues nothing.
  pub create_channel_export_archive_lem :
      setting.has_access ≡ true
      → is_done setting (get_channel_export_archive_status setting world) ≡ false
      → any_job setting (is_duplicate setting (some setting.channel)) world.jobs ≡ false
      → let queued_one = record world { jobs = world.jobs ++ archive_job setting ∷ [] } in
        (create_channel_export_archive setting true world
          ≡ (ok ChannelArchiveStatus.pending, queued_one))
        × (create_channel_export_archive setting true queued_one
            ≡ (ok ChannelArchiveStatus.pending, queued_one))
  unfolding create_channel_export_archive enqueue_job
  create_channel_export_archive_lem access idle free =
      let queued_one = record world { jobs = world.jobs ++ archive_job setting ∷ [] } in
      let active : any_job setting (is_archive_job setting is_active) queued_one.jobs ≡ true =
        ground (
          arith,
          any_job-append setting (is_archive_job setting is_active) world.jobs
              (archive_job setting),
          eq_iff setting.application_id setting.application_id,
        ) in
      let pending : get_channel_export_archive_status setting queued_one
          ≡ ChannelArchiveStatus.pending =
        rw (active, get_channel_export_archive_status) refl in
      (rw (idle, access, free) refl, rw pending refl)
