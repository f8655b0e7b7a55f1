-- ===== src/Facade/Tests.antt =====
-- A deletion and a request for an archive, and the theorems at concrete arguments.
use ai_dial_generic_rag_back.Prelude.{
  ℕ, ◌≡◌, refl, true, false, none, some, String, [], ◌∷◌, ◌++◌, length, if◌then◌else◌,
}
use ai_dial_generic_rag_back.Prelude.Results.{ok, raise, not_found}
use ai_dial_generic_rag_back.Types.{DocumentStatus}
use ai_dial_generic_rag_back.Types.Json.{end}
use ai_dial_generic_rag_back.Documents.{DocumentEntity}
use ai_dial_generic_rag_back.Documents.Upload.{Setup}
use ai_dial_generic_rag_back.Documents.Service.{is_file}
use ai_dial_generic_rag_back.Facade.{
  Setting, World, Job, JobStatus, queued, exception, ChannelArchiveStatus, is_active, has_failed,
  create_channel_archive,
}
use ai_dial_generic_rag_back.Facade.Archives.{
  is_archive_job, any_job, reset_channel_export_archive, get_channel_export_archive_status,
  create_channel_export_archive, is_done,
}
use ai_dial_generic_rag_back.Facade.Changes.{delete_document}
use ai_dial_generic_rag_back.Facade.Operations.{
  delete, request_archive, perform, is_offered, here, after, Same, MakesNoArchive,
}
use ai_dial_generic_rag_back.Facade.Freshness.{served_archive_lem}
use ai_dial_generic_rag_back.Facade.Laws.{reset_lem, create_channel_export_archive_lem}

abbrev setup : Setup
setup = record {
  is_space = λ c. false;
  lower = λ t. t;
  allowed_document_types = [];
  conforms = λ fields. true;
  upload_filepath = λ filename folder. filename;
  display_name = λ url filename. filename;
  files_url = λ path. path;
  relative_path = λ url. url;
  stored = λ path content_type content. record {
    url = path;
    etag = "1";
    content_type = content_type;
    content_length = length content;
  };
}

abbrev setting : Setting
setting = record {
  documents = setup;
  channel = "c";
  application_id = "app";
  image_url = λ image. "image";
  index_names = "i" ∷ [];
  archive_url = "c.zip";
  document_dedupe_key = λ id. "document";
  has_access = true;
  run_indexing = λ document names force world. (ok tt, world);
  export_channel = λ world. (ok tt, world);
  import_channel = λ url world. (ok tt, world);
}

abbrev entity : ℕ → String → DocumentEntity
entity id url = record {
  channel_key = "c";
  document_id = id;
  url = url;
  etag = none;
  mime_type = "text/plain";
  size = 1;
  display_name = url;
  metadata = end;
  status = DocumentStatus.ready;
}

abbrev archiving : JobStatus → Job
archiving status = record {
  entrypoint = create_channel_archive;
  application_id = some "app";
  dedupe_key = some "c";
  status = status;
}

-- Two documents, with an archive that is served and another that is being made.
abbrev world : World
world = record {
  library = record {
    documents = entity 1 "a" ∷ entity 2 "b" ∷ [];
    files = ("a", 1 ∷ []) ∷ ("b", 2 ∷ []) ∷ ("c.zip", 3 ∷ []) ∷ [];
  };
  store = record { tables = record { text_chunks = []; image_chunks = [] }; files = [] };
  records = ("i", 1) ∷ ("i", 2) ∷ ("old", 1) ∷ [];
  jobs = archiving queued ∷ [];
}

unknown : delete_document setting 3 world ≡ (raise not_found, world)
unfolding delete_document
unknown = refl

reset_lem_example :
    let world' = reset_channel_export_archive setting world in
    (any_job setting (is_archive_job setting is_active) world'.jobs ≡ false)
    × (is_file "c.zip" world'.library.files ≡ false)
    × (get_channel_export_archive_status setting world' ≡ (
        if any_job setting (is_archive_job setting has_failed) world'.jobs
        then ChannelArchiveStatus.error
        else ChannelArchiveStatus.not_found))
reset_lem_example = reset_lem setting world

-- A world in which an earlier archive had failed.
abbrev failed : World
failed = record world {
  jobs = archiving exception ∷ [];
  library = record { documents = []; files = [] };
}

idle : is_done setting (get_channel_export_archive_status setting failed) ≡ false
unfolding get_channel_export_archive_status
idle = refl

create_channel_export_archive_lem_example :
    (create_channel_export_archive setting true failed ≡ (
      ok ChannelArchiveStatus.pending,
      record failed { jobs = failed.jobs ++ archiving queued ∷ [] },
    ))
    × (create_channel_export_archive setting true
          (record failed { jobs = failed.jobs ++ archiving queued ∷ [] })
        ≡ (
          ok ChannelArchiveStatus.pending,
          record failed { jobs = failed.jobs ++ archiving queued ∷ [] },
        ))
create_channel_export_archive_lem_example =
    create_channel_export_archive_lem setting failed refl idle refl

no_archive : MakesNoArchive setting
no_archive = record { keeps = λ d names force w h. h }

-- An unknown document is deleted, in vain, and an archive asked for, which is under way already.
abbrev later : World
later = perform setting request_archive (perform setting (delete 3) world)

still_served :
    (is_offered setting (perform setting (delete 3) world) ≡ true)
    × (is_offered setting later ≡ true)
unfolding perform delete_document create_channel_export_archive
still_served = (refl, refl)

no_more_served : is_offered setting (perform setting (delete 1) world) ≡ false
unfolding perform delete_document
no_more_served = refl

served_archive_lem_example : Same world later
served_archive_lem_example =
    served_archive_lem setting no_archive
      (after (after here (delete 3) still_served.0) request_archive still_served.1)
