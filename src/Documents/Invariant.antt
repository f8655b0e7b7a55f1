-- ===== src/Documents/Invariant.antt =====
-- The calls that change the documents of a channel, and the invariant of its library.
use ai_dial_generic_rag_back.Prelude.{
  ℕ, zero, suc, Bool-cases, ◌≡◌, refl, sym, ap, ◌∙◌, Bool, true, false, not, ◌&&◌, ◌⊎◌, inl, inr,
  Option, none, some, String, str_eq, eq_iff, List, [], ◌∷◌, ◌++◌, map, All, All-append, arith,
  Option-cases,
}
use mathlib.Core.List.{map-append}
use ai_dial_generic_rag_back.Prelude.Equality.{nat_key, string_key, pair_key, contains}
use ai_dial_generic_rag_back.Prelude.Distinct.{Distinct, Distinct-append_one, Distinct-keep}
use ai_dial_generic_rag_back.Prelude.Results.{
  Error, Result, ok, raise, checked, raise_if, raise_unless, Action, invalid_request,
  assertion_failed, integrity_error, ◌>>◌,
}
use ai_dial_generic_rag_back.Types.Json.{Fields}
use ai_dial_generic_rag_back.Chunks.{delete_file}
use ai_dial_generic_rag_back.Documents.{DocumentEntity, Document, Library, from_entity}
use ai_dial_generic_rag_back.Documents.Repository.{
  id_key, url_key, first, is_own, has_id, has_url, get_by_id, get_by_url, get_next_id,
  insert_entity, delete_entity, is_taken,
}
use ai_dial_generic_rag_back.Documents.Upload.{
  Upload, FileMetadata, Setup, validate_upload, validate_metadata, validate_attachment, is_given,
}
use ai_dial_generic_rag_back.Documents.Service.{
  create_document, update_document, delete_document, create_entity, new_entity, save_document, save,
  with_file, is_file, upload, update_metadata, update_content,
}
use ai_dial_generic_rag_back.Documents.Tables.{
  first_passes, first-All, update_entity_lem, map-set_first, All-set_first, get_next_id_fresh,
  contains-get_by_url,
}
use ai_dial_generic_rag_back.Documents.Contents.{
  IsStored, IsStored-delete_entity, All-IsStored-put_file, is_file-put_file,
}

pub record IsValid (channel : String) (lib : Library) : Type 0 where
  -- The ids of a channel differ, and so do its URLs.
  pub ids : Distinct (map id_key lib.documents)
  pub urls : Distinct (map url_key lib.documents)
  pub files : All (IsStored channel lib.files) lib.documents

module _ {channel : String} {lib : Library} (v : IsValid channel lib) where
  pub IsValid-put_file :
      (url : String) (content : List ℕ)
      → IsValid channel (record lib { files = (url, content) ∷ lib.files })
  IsValid-put_file url content = record {
    ids = v.ids;
    urls = v.urls;
    files = All-IsStored-put_file channel url content lib.files lib.documents v.files;
  }

  -- A row that was read is saved with its keys.
  pub IsValid-save :
      (test : DocumentEntity → Bool) (e new : DocumentEntity)
      → first test lib.documents ≡ some e
      → id_key new ≡ id_key e
      → new.url ≡ e.url
      → IsValid channel (save new lib).1
  unfolding save
  IsValid-save test e new found same_id same_url =
      let to_first = update_entity_lem test lib.documents e new found v.ids same_id in
      let same_place : url_key new ≡ url_key e = ground arith in
      record {
        ids = rw (to_first, map-set_first id_key test lib.documents e new found same_id) v.ids;
        urls =
            rw (to_first, map-set_first url_key test lib.documents e new found same_place) v.urls;
        files = rw to_first (
            All-set_first (IsStored channel lib.files) test lib.documents new
              (λ own.
                let old =
                  first-All test (IsStored channel lib.files) lib.documents e found v.files in
                ap (λ u. is_file u lib.files) same_url
                ∙ old (ap (λ (k : String × ℕ). str_eq k.0 channel) (sym same_id) ∙ own))
              v.files);
      }

insert_entity_lem :
    (rows : List DocumentEntity) (e : DocumentEntity)
    → contains (map id_key rows) (id_key e) ≡ false
    → is_taken e.url rows ≡ false
    → insert_entity rows e ≡ ok (rows ++ e ∷ [])
unfolding insert_entity
insert_entity_lem rows e fresh free = ground arith

-- The first attempt to make a new row succeeds, if no row has its URL.
pub create_entity_lem :
    (setup : Setup) (channel : String) (attempts : ℕ) (m : FileMetadata) (name : String)
    (metadata : Option Fields) (lib : Library)
    → is_taken m.url lib.documents ≡ false
    → create_entity setup channel (suc attempts) m name metadata lib ≡ (
        let e = new_entity setup channel m name metadata (get_next_id channel lib.documents) in
        (ok (from_entity e), record lib { documents = lib.documents ++ e ∷ [] }))
unfolding create_entity get_next_id
create_entity_lem setup channel attempts m name metadata lib free =
    let e = new_entity setup channel m name metadata (get_next_id channel lib.documents) in
    rw
      (
        insert_entity_lem lib.documents e (get_next_id_fresh channel lib.documents) free,
        create_entity,
      )
      refl

-- If a row has its URL, no attempt does.
pub create_entity_of_taken :
    (setup : Setup) (channel : String) (attempts : ℕ) (m : FileMetadata) (name : String)
    (metadata : Option Fields) (lib : Library)
    → is_taken m.url lib.documents ≡ true
    → create_entity setup channel attempts m name metadata lib ≡ (raise integrity_error, lib)
unfolding create_entity
create_entity_of_taken setup channel zero m name metadata lib taken = refl
create_entity_of_taken setup channel (suc attempts) m name metadata lib taken =
    let e = new_entity setup channel m name metadata (get_next_id channel lib.documents) in
    let refused : insert_entity lib.documents e ≡ raise integrity_error =
      unfold insert_entity in ground arith in
    rw (refused, create_entity)
      (create_entity_of_taken setup channel attempts m name metadata lib taken)

module _ (setup : Setup) {channel : String} {lib : Library} (v : IsValid channel lib) where
  IsValid-new_entity :
      (m : FileMetadata) (name : String) (metadata : Option Fields)
      → get_by_url channel m.url lib.documents ≡ none
      → is_file m.url lib.files ≡ true
      → is_taken m.url lib.documents ≡ false
      → IsValid channel (create_entity setup channel 10 m name metadata lib).1
  IsValid-new_entity m name metadata new stored free =
      let e = new_entity setup channel m name metadata (get_next_id channel lib.documents) in
      rw (create_entity_lem setup channel 9 m name metadata lib free) (
        let valid : IsValid channel (record lib { documents = lib.documents ++ e ∷ [] }) = record {
          ids = rw (map-append id_key lib.documents (e ∷ [])) (
              Distinct-append_one (map id_key lib.documents) (id_key e) v.ids
                (get_next_id_fresh channel lib.documents));
          urls = rw (map-append url_key lib.documents (e ∷ [])) (
              Distinct-append_one (map url_key lib.documents) (url_key e) v.urls
                (contains-get_by_url channel lib.documents m.url new));
          files =
              All-append (IsStored channel lib.files) lib.documents (e ∷ []) v.files
                (λ own. stored, tt);
        } in
        valid)

  IsValid-create_entity :
      (m : FileMetadata) (name : String) (metadata : Option Fields)
      → get_by_url channel m.url lib.documents ≡ none
      → is_file m.url lib.files ≡ true
      → IsValid channel (create_entity setup channel 10 m name metadata lib).1
  IsValid-create_entity m name metadata new stored =
      elim (Bool-cases (is_taken m.url lib.documents)) [
        | inl taken ↦ rw (create_entity_of_taken setup channel 10 m name metadata lib taken) v
        | inr free ↦ IsValid-new_entity m name metadata new stored free
      ]

  -- The row with the URL of an upload is one of the channel's.
  IsValid-save_document :
      (m : FileMetadata) (name : String) (metadata : Option Fields)
      → is_file m.url lib.files ≡ true
      → IsValid channel (save_document setup channel m name metadata lib).1
  unfolding save_document
  IsValid-save_document m name metadata stored =
      elim (Option-cases (get_by_url channel m.url lib.documents)) [
        | inl none_ ↦ rw (none_, save_document) (IsValid-create_entity m name metadata none_ stored)
        | inr (e, found) ↦
            rw (found, save_document) (IsValid-save v (has_url channel m.url) e _ found refl refl)
      ]

-- A check either raises or lets the call go on.
checked_cases {ℓ κ} :
    {S : Type ℓ} {A : Type κ} (c : Result (Unit {0})) (m : Action S A) (s : S)
    → ((e : Error) × (checked c m s ≡ (raise e, s))) ⊎ (checked c m s ≡ m s)
checked_cases (ok u) m s = inr refl
checked_cases (raise e) m s = inl (e, refl)

module _ {channel : String} where
  -- What holds of every outcome of a checked call.
  IsValid-checked {κ} :
      {A : Type κ} (c : Result (Unit {0})) (m : Action Library A) (lib : Library)
      → IsValid channel lib
      → IsValid channel (m lib).1
      → IsValid channel (checked c m lib).1
  IsValid-checked (ok u) m lib v w = w
  IsValid-checked (raise e) m lib v w = v

  module _ (setup : Setup) (lib : Library) (v : IsValid channel lib) where
    pub create_document-IsValid :
        (a : Upload) (folder : String) (metadata : Option Fields) (overwrite : Bool)
        → IsValid channel (create_document setup channel a folder metadata overwrite lib).1
    unfolding create_document
    create_document-IsValid a folder metadata overwrite =
        let path = setup.upload_filepath a.filename folder in
        let m = setup.stored path a.content_type a.content in
        let lib' = record lib { files = (m.url, a.content) ∷ lib.files } in
        let name = setup.display_name m.url a.filename in
        let action : Action Library Document =
          upload setup channel path a (λ m'.
            save_document setup channel m' (setup.display_name m'.url a.filename) metadata) in
        IsValid-checked (validate_upload setup a metadata) _ lib v (
          IsValid-checked
            (raise_if (is_file (setup.files_url path) lib.files && not overwrite) invalid_request)
            action lib v
            (IsValid-save_document setup {lib = lib'} (IsValid-put_file v m.url a.content) m name
              metadata
              (ground
                (arith, is_file-put_file m.url m.url a.content lib.files, eq_iff m.url m.url))))

    update_metadata-IsValid :
        (metadata : Option Fields) (test : DocumentEntity → Bool) (e new : DocumentEntity)
        → first test lib.documents ≡ some e
        → id_key new ≡ id_key e
        → new.url ≡ e.url
        → IsValid channel (update_metadata setup channel metadata new lib).1
    unfolding update_metadata
    update_metadata-IsValid none test e new found same_id same_url =
        IsValid-save v test e new found same_id same_url
    update_metadata-IsValid (some metadata) test e new found same_id same_url =
        IsValid-checked (validate_metadata setup (some metadata)) _ lib v
          (IsValid-save v test e (record new { metadata = metadata }) found same_id same_url)

  module _ (setup : Setup) (lib : Library) (v : IsValid channel lib) where
    update_content-IsValid :
        (attachment : Option Upload) (metadata : Option Fields) (test : DocumentEntity → Bool)
        (e : DocumentEntity)
        → first test lib.documents ≡ some e
        → IsValid channel (update_content setup channel attachment metadata e lib).1
    unfolding update_content
    update_content-IsValid none metadata test e found =
        update_metadata-IsValid setup lib v metadata test e e found refl refl
    update_content-IsValid (some a) metadata test e found =
        let m = setup.stored (setup.relative_path e.url) a.content_type a.content in
        let lib' = record lib { files = (m.url, a.content) ∷ lib.files } in
        let v' = IsValid-put_file v m.url a.content in
        IsValid-checked
          (raise_unless (is_given a.content_type) assertion_failed >> validate_attachment setup a) _
          lib v
          (IsValid-checked (raise_unless (str_eq m.url e.url) assertion_failed) _ lib' v'
            (update_metadata-IsValid setup lib' v' metadata test e (with_file m e) found refl refl))

    pub update_document-IsValid :
        (id : ℕ) (attachment : Option Upload) (metadata : Option Fields)
        → IsValid channel (update_document setup channel id attachment metadata lib).1
    unfolding update_document
    update_document-IsValid id attachment metadata =
        elim (Option-cases (get_by_id channel id lib.documents)) [
          | inl none_ ↦ rw (none_, update_document) v
          | inr (e, found) ↦
              rw (found, update_document)
                (update_content-IsValid attachment metadata (has_id channel id) e found)
        ]

    pub delete_document-IsValid : (id : ℕ) → IsValid channel (delete_document channel id lib).1
    unfolding delete_document
    delete_document-IsValid id = elim (Option-cases (get_by_id channel id lib.documents)) [
      | inl none_ ↦ rw (none_, delete_document) v
      | inr (e, found) ↦
          let own : is_own channel e ≡ true =
            ground (arith, first_passes (has_id channel id) lib.documents e found) in
          let others = λ (old : DocumentEntity). not (pair_key.same (id_key old) (id_key e)) in
          let valid : IsValid channel (record {
            documents = delete_entity lib.documents e;
            files = delete_file e.url lib.files;
          }) =
            record {
              ids = Distinct-keep id_key others lib.documents v.ids;
              urls = Distinct-keep url_key others lib.documents v.urls;
              files =
                  IsStored-delete_entity channel lib.files (has_id channel id) lib.documents e found
                    own v.ids v.urls v.files;
            } in
          rw (found, delete_document) valid
    ]
