-- ===== src/Documents/Failures.antt =====
-- The rows of the documents after a call of `DocumentService` that raises.
use ai_dial_generic_rag_back.Prelude.{
  ℕ, zero, suc, ◌≡◌, refl, Bool, inl, inr, Option, none, some, Option-cases, String, List, str_eq,
  ◌&&◌, not,
}
use ai_dial_generic_rag_back.Prelude.Results.{
  Result, Result-cases, ok, raise, Action, checked, ◌>>◌, raise_if, raise_unless, invalid_request,
  assertion_failed,
}
use ai_dial_generic_rag_back.Types.Json.{Fields}
use ai_dial_generic_rag_back.Chunks.{put_file}
use ai_dial_generic_rag_back.Documents.{DocumentEntity, Document, Library}
use ai_dial_generic_rag_back.Documents.Repository.{
  get_by_id, get_by_url, get_next_id, insert_entity,
}
use ai_dial_generic_rag_back.Documents.Upload.{
  Upload, FileMetadata, Setup, is_given, validate_attachment, validate_metadata, validate_upload,
}
use ai_dial_generic_rag_back.Documents.Service.{
  new_entity, create_entity, save_document, upload, create_document, update_metadata,
  update_content, update_document, save, is_file, with_file,
}

-- A call that raises leaves the rows alone.
unfoldable pub KeepsRows {κ} : {A : Type κ} → List DocumentEntity → Result A × Library → Type 0
KeepsRows rows (ok a, lib) = Unit
KeepsRows rows (raise e, lib) = lib.documents ≡ rows

KeepsRows-checked :
    (c : Result (Unit {0})) (m : Action Library Document) (lib : Library)
    → KeepsRows lib.documents (m lib)
    → KeepsRows lib.documents (checked c m lib)
unfolding KeepsRows
KeepsRows-checked (ok u) m lib h = h
KeepsRows-checked (raise e) m lib h = refl

module _ (setup : Setup) (channel : String) where
  KeepsRows-create_entity :
      (attempts : ℕ) (m : FileMetadata) (name : String) (metadata : Option Fields) (lib : Library)
      → KeepsRows lib.documents (create_entity setup channel attempts m name metadata lib)
  unfolding create_entity KeepsRows
  KeepsRows-create_entity zero m name metadata lib = refl
  KeepsRows-create_entity (suc attempts) m name metadata lib =
      elim (Result-cases (
        insert_entity lib.documents
          (new_entity setup channel m name metadata (get_next_id channel lib.documents)))) [
            | inl (e, f) ↦
                rw (f, create_entity) (KeepsRows-create_entity attempts m name metadata lib)
            | inr (rows, f) ↦ rw (f, create_entity) tt
          ]

  KeepsRows-save_document :
      (m : FileMetadata) (name : String) (metadata : Option Fields) (lib : Library)
      → KeepsRows lib.documents (save_document setup channel m name metadata lib)
  unfolding save_document save KeepsRows
  KeepsRows-save_document m name metadata lib =
      elim (Option-cases (get_by_url channel m.url lib.documents)) [
        | inl e ↦ rw (e, save_document) (KeepsRows-create_entity 10 m name metadata lib)
        | inr (row, e) ↦ rw (e, save_document) tt
      ]

  pub KeepsRows-create_document :
      (a : Upload) (folder : String) (metadata : Option Fields) (overwrite : Bool) (lib : Library)
      → KeepsRows lib.documents (create_document setup channel a folder metadata overwrite lib)
  unfolding create_document upload
  KeepsRows-create_document a folder metadata overwrite lib =
      let path = setup.upload_filepath a.filename folder in
      let m = setup.stored path a.content_type a.content in
      let put_it = upload setup channel path a (λ file_meta.
        save_document setup channel file_meta (setup.display_name file_meta.url a.filename)
          metadata) in
      let allowed = λ (l : Library).
        raise_if (is_file (setup.files_url path) l.files && not overwrite) invalid_request in
      KeepsRows-checked (validate_upload setup a metadata) (λ l. checked (allowed l) put_it l) lib
        (KeepsRows-checked (allowed lib) put_it lib (
          KeepsRows-save_document m (setup.display_name m.url a.filename) metadata
            (record lib { files = put_file m.url a.content lib.files })))

  KeepsRows-update_metadata :
      (metadata : Option Fields) (e : DocumentEntity) (lib : Library)
      → KeepsRows lib.documents (update_metadata setup channel metadata e lib)
  unfolding update_metadata save KeepsRows
  KeepsRows-update_metadata none e lib = tt
  KeepsRows-update_metadata (some metadata) e lib =
      KeepsRows-checked (validate_metadata setup (some metadata))
        (save (record e { metadata = metadata })) lib tt

  KeepsRows-update_content :
      (a : Option Upload) (metadata : Option Fields) (e : DocumentEntity) (lib : Library)
      → KeepsRows lib.documents (update_content setup channel a metadata e lib)
  unfolding update_content upload
  KeepsRows-update_content none metadata e lib = KeepsRows-update_metadata metadata e lib
  KeepsRows-update_content (some a) metadata e lib =
      let path = setup.relative_path e.url in
      let m = setup.stored path a.content_type a.content in
      let same =
        λ (file_meta : FileMetadata). raise_unless (str_eq file_meta.url e.url) assertion_failed in
      let go_on = λ (file_meta : FileMetadata).
        update_metadata setup channel metadata (with_file file_meta e) in
      let lib' : Library = record lib { files = put_file m.url a.content lib.files } in
      KeepsRows-checked
        (raise_unless (is_given a.content_type) assertion_failed >> validate_attachment setup a)
        (upload setup channel path a (λ file_meta. checked (same file_meta) (go_on file_meta))) lib
        (KeepsRows-checked (same m) (go_on m) lib'
          (KeepsRows-update_metadata metadata (with_file m e) lib'))

  pub KeepsRows-update_document :
      (id : ℕ) (a : Option Upload) (metadata : Option Fields) (lib : Library)
      → KeepsRows lib.documents (update_document setup channel id a metadata lib)
  unfolding update_document KeepsRows
  KeepsRows-update_document id a metadata lib =
      elim (Option-cases (get_by_id channel id lib.documents)) [
        | inl e ↦ rw (e, update_document) refl
        | inr (row, e) ↦ rw (e, update_document) (KeepsRows-update_content a metadata row lib)
      ]
