-- ===== src/Documents/Creation.antt =====
-- What an accepted `create_document` leaves.
use ai_dial_generic_rag_back.Prelude.{
  ℕ, ◌≡◌, refl, Bool, true, false, not, ◌&&◌, inl, inr, Option, none, some, String, eq_iff, List,
  [], ◌∷◌, ◌++◌, map, keep, arith, Bool-cases, Option-cases, if◌then◌else◌, ==_iff,
}
use ai_dial_generic_rag_back.Prelude.Equality.{nat_key, string_key, pair_key}
use ai_dial_generic_rag_back.Prelude.Distinct.{Distinct}
use ai_dial_generic_rag_back.Prelude.Results.{ok}
use ai_dial_generic_rag_back.Types.{created}
use ai_dial_generic_rag_back.Types.Json.{Fields}
use ai_dial_generic_rag_back.Chunks.{put_file}
use ai_dial_generic_rag_back.Documents.{DocumentEntity, Document, Library, from_entity}
use ai_dial_generic_rag_back.Documents.Repository.{
  id_key, first, has_id, has_url, get_by_id, get_by_url, get_next_id, update_entity, is_own,
}
use ai_dial_generic_rag_back.Documents.Upload.{Upload, FileMetadata, Setup, validate_upload}
use ai_dial_generic_rag_back.Documents.Service.{
  create_document, create_entity, new_entity, save_document, with_file, is_file, or_empty,
  etag_differs, get_document,
}
use ai_dial_generic_rag_back.Documents.Tables.{
  first_passes, set_first, update_entity_lem, first-set_first_self, first-append_none,
  get_by_id-fresh, is_held_elsewhere, is_taken_of_new, get_next_id_fresh, contains-first,
  differs_of_absent,
}
use ai_dial_generic_rag_back.Documents.Invariant.{IsValid, IsValid-put_file, create_entity_lem}

-- A document with a new URL has a new id; one with a known URL keeps its id, and its status if the
-- file is the same.
abbrev pub Origin : String → FileMetadata → Library → Document → Option DocumentEntity → Type 0
Origin channel m lib doc none =
    (doc.status ≡ created) × (get_by_id channel doc.id lib.documents ≡ none)
Origin channel m lib doc (some e) =
    (doc.id ≡ e.document_id)
    × (doc.status ≡ (if etag_differs e.etag m.etag then created else e.status))

abbrev pub others : String → ℕ → Library → List DocumentEntity
others channel id lib = keep (λ e. not (has_id channel id e)) lib.documents

pub record IsSaved (setup : Setup) (channel : String) (m : FileMetadata) (name : String)
    (given : Option Fields) (lib : Library) (doc : Document) (lib' : Library) : Type 0 where
  pub found : get_document channel doc.id lib' ≡ ok doc
  pub url : doc.url ≡ m.url
  pub display_name : doc.display_name ≡ name
  pub metadata : doc.metadata ≡ or_empty given
  pub mime_type : doc.mime_type ≡ m.content_type
  pub size : doc.size ≡ m.content_length
  pub origin : Origin channel m lib doc (get_by_url channel m.url lib.documents)
  pub others : others channel doc.id lib' ≡ others channel doc.id lib
  pub files : lib'.files ≡ lib.files

keep-set_first :
    (q test : DocumentEntity → Bool) (rows : List DocumentEntity) (e new : DocumentEntity)
    → first test rows ≡ some e
    → q e ≡ false
    → q new ≡ false
    → keep q (set_first test new rows) ≡ keep q rows
unfolding first set_first
keep-set_first q test [] e new found a b = refl
keep-set_first q test (r ∷ rows) e new found a b = elim (Bool-cases (test r)) [
  | inl yes_ ↦ let same : r ≡ e = ground arith in rw (yes_, b, same, a) refl
  | inr no_ ↦
      let found' : first test rows ≡ some e = ground arith in
      rw (no_, keep-set_first q test rows e new found' a b) refl
]

keep-append_dropped :
    (q : DocumentEntity → Bool) (rows : List DocumentEntity) (new : DocumentEntity)
    → q new ≡ false
    → keep q (rows ++ new ∷ []) ≡ keep q rows
keep-append_dropped q [] new a = rw a refl
keep-append_dropped q (r ∷ rows) new a = rw (keep-append_dropped q rows new a) refl

-- A row of the channel that some query finds is found by its id.
get_by_id_of_first :
    (channel : String) (test : DocumentEntity → Bool) (rows : List DocumentEntity)
    (e : DocumentEntity)
    → first test rows ≡ some e
    → is_own channel e ≡ true
    → Distinct (map id_key rows)
    → get_by_id channel e.document_id rows ≡ some e
unfolding first
get_by_id_of_first channel test [] e found own d = cc
get_by_id_of_first channel test (r ∷ rows) e found own d = elim (Bool-cases (test r)) [
  | inl yes_ ↦
      let same : r ≡ e = ground arith in
      rw same (ground (arith, ==_iff e.document_id e.document_id))
  | inr no_ ↦
      let found' : first test rows ≡ some e = ground arith in
      let differs =
        differs_of_absent (map id_key rows) (id_key r) (id_key e) d.0
          (contains-first test rows e found').0 in
      ground (
        arith,
        differs,
        eq_iff r.channel_key channel,
        eq_iff e.channel_key channel,
        eq_iff r.channel_key e.channel_key,
        get_by_id_of_first channel test rows e found' own d.1,
      )
]

has_own_id :
    (channel : String) (e : DocumentEntity)
    → is_own channel e ≡ true
    → has_id channel e.document_id e ≡ true
has_own_id channel e own = ground (arith, ==_iff e.document_id e.document_id)

module _ (setup : Setup) (channel : String) (m : FileMetadata) (name : String)
    (given : Option Fields) (lib : Library) (v : IsValid channel lib) where
  -- `save_document` on a new URL.
  IsSaved-create_entity :
      get_by_url channel m.url lib.documents ≡ none
      → is_held_elsewhere channel m.url lib.documents ≡ false
      → (doc : Document) × (lib' : Library) × (create_entity setup channel 10 m name given lib
          ≡ (ok doc, lib'))
        × IsSaved setup channel m name given lib doc lib'
  unfolding get_document
  IsSaved-create_entity new elsewhere =
      let id = get_next_id channel lib.documents in
      let e = new_entity setup channel m name given id in
      let lib' = record lib { documents = lib.documents ++ e ∷ [] } in
      let own = has_own_id channel e (ground (arith, eq_iff channel channel)) in
      let unknown =
        get_by_id-fresh channel lib.documents id (get_next_id_fresh channel lib.documents) in
      (
        from_entity e,
        lib',
        create_entity_lem setup channel 9 m name given lib
            (is_taken_of_new channel lib.documents m.url new elsewhere),
        record {
          found =
              rw (first-append_none (has_id channel id) lib.documents e unknown own, get_document)
                refl;
          url = refl;
          display_name = refl;
          metadata = refl;
          mime_type = refl;
          size = refl;
          origin = rw new (refl, unknown);
          others =
              keep-append_dropped (λ r. not (has_id channel id r)) lib.documents e (rw own refl);
          files = refl;
        },
      )

  -- `save_document` on a known URL.
  IsSaved-save :
      (e : DocumentEntity)
      → get_by_url channel m.url lib.documents ≡ some e
      → let new = record (with_file m e) { display_name = name; metadata = or_empty given } in
        IsSaved setup channel m name given lib
          (from_entity new)
          (record lib { documents = update_entity lib.documents new })
  unfolding get_document with_file
  IsSaved-save e known =
      let new = record (with_file m e) { display_name = name; metadata = or_empty given } in
      let id = e.document_id in
      let passes = first_passes (has_url channel m.url) lib.documents e known in
      let own : is_own channel e ≡ true = ground arith in
      let found =
        get_by_id_of_first channel (has_url channel m.url) lib.documents e known own v.ids in
      let to_first = update_entity_lem (has_id channel id) lib.documents e new found v.ids refl in
      let old_id = has_own_id channel e own in
      let new_id : has_id channel id new ≡ true = has_own_id channel new own in
      record {
        found =
            rw
              (
                to_first,
                first-set_first_self (has_id channel id) lib.documents e new found new_id,
                get_document,
              )
              refl;
        url = ground (arith, eq_iff e.url m.url);
        display_name = refl;
        metadata = refl;
        mime_type = refl;
        size = refl;
        origin = rw known (refl, refl);
        others = rw to_first (
            keep-set_first (λ r. not (has_id channel id r)) (has_id channel id) lib.documents e new
              found (rw old_id refl) (rw new_id refl));
        files = refl;
      }

-- If no two documents of the channel have an id or a URL in common, each has its file, and no other
-- channel has a document with the URL of the upload:
-- a valid upload to a path with no file, or with `overwrite`, returns a document that can be read
-- back by its id, with the URL, type and size that the storage answered, the display name for that
-- URL and the given metadata. The content stands under the URL. A URL that the channel did not know
-- gets an id that was not in use and the status `created`; one that it knew keeps its id, and its
-- status exactly if the storage reports the same ETag. All other documents are as before.
pub create_document_lem :
    (setup : Setup) (channel : String) (lib : Library) (a : Upload) (folder : String)
    (given : Option Fields) (overwrite : Bool)
    → IsValid channel lib
    → validate_upload setup a given ≡ ok tt
    → (is_file (setup.files_url (setup.upload_filepath a.filename folder)) lib.files
        && not overwrite)
      ≡ false
    → is_held_elsewhere channel
        (setup.stored (setup.upload_filepath a.filename folder) a.content_type a.content).url
        lib.documents
      ≡ false
    → let m = setup.stored (setup.upload_filepath a.filename folder) a.content_type a.content in
      let uploaded = record lib { files = put_file m.url a.content lib.files } in
      (doc : Document) × (lib' : Library) × (create_document setup channel a folder given overwrite
          lib
        ≡ (ok doc, lib'))
      × IsSaved setup channel m (setup.display_name m.url a.filename) given uploaded doc lib'
unfolding create_document
create_document_lem setup channel lib a folder given overwrite v accepted free elsewhere =
    let m = setup.stored (setup.upload_filepath a.filename folder) a.content_type a.content in
    let uploaded = record lib { files = put_file m.url a.content lib.files } in
    let name = setup.display_name m.url a.filename in
    let v' = IsValid-put_file v m.url a.content in
    rw (accepted, free)
      (elim (Option-cases (get_by_url channel m.url lib.documents)) [
        | inl none_ ↦
            rw (none_, save_document)
              (IsSaved-create_entity setup channel m name given uploaded v' none_ elsewhere)
        | inr (e, known) ↦
            let new = record (with_file m e) { display_name = name; metadata = or_empty given } in
            let lib' = record uploaded { documents = update_entity lib.documents new } in
            rw (known, save_document)
              (
                from_entity new,
                lib',
                refl,
                IsSaved-save setup channel m name given uploaded v' e known,
              )
      ])
