-- ===== src/Documents/Service.antt =====
-- `DocumentService`: uploading, changing and deleting documents.
use ai_dial_generic_rag_back.Prelude.{
  ℕ, suc, zero, Bool, true, false, ◌&&◌, not, Option, none, some, String, str_eq, List, map,
  if◌then◌else◌,
}
use ai_dial_generic_rag_back.Prelude.Equality.{nat_key, list_key}
use ai_dial_generic_rag_back.Prelude.Results.{
  Result, ok, raise, Action, checked, ◌>>◌, raise_if, raise_unless, invalid_request, not_found,
  assertion_failed, integrity_error,
}
use ai_dial_generic_rag_back.Types.{DocumentStatus, created}
use ai_dial_generic_rag_back.Types.Json.{Fields, end}
use ai_dial_generic_rag_back.Chunks.{Files, put_file, delete_file, download_file}
use ai_dial_generic_rag_back.Documents.{DocumentEntity, Document, from_entity, Library}
use ai_dial_generic_rag_back.Documents.Repository.{
  first, get_by_id, get_by_url, get_by_ids, get_next_id, exists_by_id, exists_by_url, insert_entity,
  update_entity, delete_entity, set_status,
}
use ai_dial_generic_rag_back.Documents.Upload.{
  Upload, FileMetadata, Setup, is_given, validate_attachment, validate_metadata, validate_upload,
}

-- `metadata or {}`
abbrev pub or_empty : Option Fields → Fields
or_empty none = end
or_empty (some fields) = fields

-- `entity.etag != file_meta.etag`
unfoldable pub etag_differs : Option String → String → Bool
etag_differs none etag = true
etag_differs (some a) etag = not (str_eq a etag)

-- The row of a document whose file was put again.
unfoldable pub with_file : FileMetadata → DocumentEntity → DocumentEntity
unfolding etag_differs
with_file file_meta e = record e {
  status = if etag_differs e.etag file_meta.etag then created else e.status;
  etag = some file_meta.etag;
  mime_type = file_meta.content_type;
  size = file_meta.content_length;
}

unfoldable pub is_file : String → Files → Bool
unfolding download_file
is_file url files = elim (download_file url files) [ none ↦ false | some content ↦ true ]

-- `save` of a row that was read, and its document.
unfoldable pub save : DocumentEntity → Action Library Document
save e lib = (ok (from_entity e), record lib { documents = update_entity lib.documents e })

module _ (setup : Setup) (channel : String) where
  abbrev pub new_entity : FileMetadata → String → Option Fields → ℕ → DocumentEntity
  new_entity file_meta display_name metadata id = record {
    channel_key = channel;
    document_id = id;
    url = file_meta.url;
    etag = some file_meta.etag;
    mime_type = file_meta.content_type;
    size = file_meta.content_length;
    display_name = display_name;
    metadata = or_empty metadata;
    status = created;
  }

  -- `_create_document`: another attempt when the id is taken.
  unfoldable pub create_entity : ℕ → FileMetadata → String → Option Fields → Action Library Document
  unfolding insert_entity get_next_id
  create_entity zero file_meta display_name metadata lib = (raise integrity_error, lib)
  create_entity (suc attempts) file_meta display_name metadata lib =
      let retry = create_entity attempts file_meta display_name metadata lib in
      let e = new_entity file_meta display_name metadata (get_next_id channel lib.documents) in
      elim (insert_entity lib.documents e) [
        | ok rows ↦ (ok (from_entity e), record lib { documents = rows })
        | raise error ↦ retry
      ]

  -- What `create_document` does after the upload.
  unfoldable pub save_document : FileMetadata → String → Option Fields → Action Library Document
  unfolding create_entity with_file save first
  save_document file_meta display_name metadata lib =
      elim (get_by_url channel file_meta.url lib.documents) [
        | none ↦ create_entity 10 file_meta display_name metadata lib
        | some e ↦
            save
              (record (with_file file_meta e) {
                display_name = display_name;
                metadata = or_empty metadata;
              })
              lib
      ]

  unfoldable pub upload :
      String → Upload → (FileMetadata → Action Library Document) → Action Library Document
  upload path a then_do lib =
      let file_meta = setup.stored path a.content_type a.content in
      then_do file_meta (record lib { files = put_file file_meta.url a.content lib.files })

  unfoldable pub create_document : Upload → String → Option Fields → Bool → Action Library Document
  unfolding validate_upload is_file upload save_document
  create_document a folder metadata overwrite =
      let path = setup.upload_filepath a.filename folder in
      checked (validate_upload setup a metadata) λ lib.
        checked
          (raise_if (is_file (setup.files_url path) lib.files && not overwrite) invalid_request)
          (upload path a λ file_meta.
            save_document file_meta (setup.display_name file_meta.url a.filename) metadata)
          lib

  -- The end of `update_document`.
  unfoldable pub update_metadata : Option Fields → DocumentEntity → Action Library Document
  unfolding validate_metadata save
  update_metadata none e = save e
  update_metadata (some metadata) e =
      checked (validate_metadata setup (some metadata)) (save (record e { metadata = metadata }))

  unfoldable pub update_content :
      Option Upload → Option Fields → DocumentEntity → Action Library Document
  unfolding update_metadata with_file upload validate_attachment
  update_content none metadata e = update_metadata metadata e
  update_content (some a) metadata e =
      checked
        (raise_unless (is_given a.content_type) assertion_failed >> validate_attachment setup a)
        (upload (setup.relative_path e.url) a λ file_meta.
          checked (raise_unless (str_eq file_meta.url e.url) assertion_failed)
            (update_metadata metadata (with_file file_meta e)))

  unfoldable pub update_document : ℕ → Option Upload → Option Fields → Action Library Document
  unfolding update_content first
  update_document id attachment metadata lib = elim (get_by_id channel id lib.documents) [
    | none ↦ (raise not_found, lib)
    | some e ↦ update_content attachment metadata e lib
  ]

  unfoldable pub exists_by_name : String → String → Library → Bool
  unfolding exists_by_url
  exists_by_name filename folder lib =
      exists_by_url channel (setup.files_url (setup.upload_filepath filename folder)) lib.documents

module _ (channel : String) where
  unfoldable pub get_document : ℕ → Library → Result Document
  unfolding first
  get_document id lib = elim (get_by_id channel id lib.documents) [
    | none ↦ raise not_found
    | some e ↦ ok (from_entity e)
  ]

  unfoldable pub get_documents_by_id : List ℕ → Library → List Document
  get_documents_by_id ids lib = map from_entity (get_by_ids channel ids lib.documents)

  unfoldable pub set_document_status : ℕ → DocumentStatus → Library → Library
  unfolding set_status
  set_document_status id status lib = record lib {
    documents = set_status channel id status lib.documents;
  }

  unfoldable pub document_exists : ℕ → Library → Bool
  unfolding exists_by_id
  document_exists id lib = exists_by_id channel id lib.documents

  unfoldable pub delete_document : ℕ → Action Library (Unit {0})
  unfolding first
  delete_document id lib = elim (get_by_id channel id lib.documents) [
    | none ↦ (raise not_found, lib)
    | some e ↦ (
      ok tt,
      record { documents = delete_entity lib.documents e; files = delete_file e.url lib.files },
    )
  ]
