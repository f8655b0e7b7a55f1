-- ===== src/Export/Import.antt =====
-- A whole import: the document, its chunks and its records in the indexes.
use ai_dial_generic_rag_back.Prelude.{
  ℕ, ◌≡◌, refl, sym, ap, ◌∙◌, Bool, true, false, ◌&&◌, not, inl, inr, some, String, eq_iff, List,
  [], ◌∷◌, ◌++◌, keep, map, All, arith, Bool-cases, Option-cases,
}
use ai_dial_generic_rag_back.Prelude.Equality.{string_key, contains}
use ai_dial_generic_rag_back.Prelude.Distinct.{Distinct}
use ai_dial_generic_rag_back.Prelude.Streams.{end, yield_all}
use ai_dial_generic_rag_back.Prelude.Results.{ok}
use ai_dial_generic_rag_back.Types.{DocumentStatus, text_chunk, image_chunk, TextChunk, ImageChunk}
use ai_dial_generic_rag_back.Chunks.{Store, get_chunks_by_document, put_file}
use ai_dial_generic_rag_back.Documents.{DocumentEntity, Document, Library, from_entity}
use ai_dial_generic_rag_back.Documents.Repository.{first, has_id, get_by_id, set_status}
use ai_dial_generic_rag_back.Documents.Upload.{Setup, validate_upload}
use ai_dial_generic_rag_back.Documents.Service.{
  get_document, set_document_status, is_file, or_empty,
}
use ai_dial_generic_rag_back.Documents.Invariant.{IsValid}
use ai_dial_generic_rag_back.Documents.Tables.{is_held_elsewhere}
use ai_dial_generic_rag_back.Documents.Creation.{create_document_lem}
use ai_dial_generic_rag_back.Export.{
  IndexRecord, DocumentRecord, World, is_record_of, find_records, import_indexes, import_chunks,
  import_rest, import_document, upload_of,
}
use ai_dial_generic_rag_back.Export.Laws.{restored, import_indexes_lem}
use ai_dial_generic_rag_back.Export.RoundTrip.{FollowTexts, FollowImages, moved, import_chunks_lem}

first-set_status :
    (channel : String) (id : ℕ) (status : DocumentStatus) (rows : List DocumentEntity)
    (e : DocumentEntity)
    → get_by_id channel id rows ≡ some e
    → get_by_id channel id (set_status channel id status rows) ≡ some (record e { status = status })
unfolding first set_status
first-set_status channel id status [] e h = cc
first-set_status channel id status (r ∷ rows) e h = elim (Bool-cases (has_id channel id r)) [
  | inl yes_ ↦
      let same : r ≡ e = ground arith in
      rw yes_ (rw yes_ (ap (λ (x : DocumentEntity). some (record x { status = status })) same))
  | inr no_ ↦
      let found : get_by_id channel id rows ≡ some e = ground arith in
      rw no_ (rw no_ (first-set_status channel id status rows e found))
]

get_document-set_document_status :
    (channel : String) (id : ℕ) (status : DocumentStatus) (lib : Library) (doc : Document)
    → get_document channel id lib ≡ ok doc
    → get_document channel id (set_document_status channel id status lib)
      ≡ ok (record doc { status = status })
unfolding get_document set_document_status
get_document-set_document_status channel id status lib doc h =
    elim (Option-cases (get_by_id channel id lib.documents)) [
      | inl none_ ↦ absurd (ground (arith, none_))
      | inr (e, found) ↦
          let same : from_entity e ≡ doc = ground (arith, found) in
          let changed = first-set_status channel id status lib.documents e found in
          rw (changed, get_document) (ap (λ (d : Document). ok (record d { status = status })) same)
    ]

more_names :
    (name : String) (names part : List String)
    → All (λ n. contains names n ≡ true) part
    → All (λ n. contains (name ∷ names) n ≡ true) part
more_names name names [] h = tt
more_names name names (n ∷ part) h = (ground (arith, h.0), more_names name names part h.1)

every_name : (names : List String) → All (λ n. contains names n ≡ true) names
every_name [] = tt
every_name (name ∷ names) =
    (ground (arith, eq_iff name name), more_names name names names (every_name names))

-- The records of a document in each of some indexes.
abbrev pub AllRestored {ℓ} :
    {V : Type ℓ}
    → ℕ
    → List (String × List (IndexRecord V))
    → List (String × IndexRecord V)
    → List (String × IndexRecord V)
    → List String
    → Type ℓ
AllRestored id indexes before after names =
    All
      (λ name.
        keep (is_record_of name id) after
        ≡ restored name id (find_records name indexes) (keep (is_record_of name id) before))
      names

AllRestored-import_indexes :
    {V : Type 0} (names : List String) (id : ℕ) (indexes : List (String × List (IndexRecord V)))
    (records : List (String × IndexRecord V)) (part : List String)
    → Distinct names
    → All (λ n. contains names n ≡ true) part
    → AllRestored id indexes records (import_indexes names id indexes records) part
AllRestored-import_indexes names id indexes records [] d h = tt
AllRestored-import_indexes names id indexes records (name ∷ part) d h = (
  import_indexes_lem names name id indexes records d h.0,
  AllRestored-import_indexes names id indexes records part d h.1,
)

import_rest_of_complete :
    {V : Type 0} (setup : Setup) (channel : String) (image_url : ImageChunk → String)
    (names : List String) (r : DocumentRecord V) (id : ℕ) (store : Store) (complete : Bool)
    (world : World V)
    → complete ≡ true
    → import_rest setup channel image_url names r id (store, complete) world ≡ (
      get_document channel id world.library,
      record world { store = store; records = import_indexes names id r.indexes world.records },
    )
unfolding import_rest
import_rest_of_complete setup channel image_url names r id store true world h = refl
import_rest_of_complete setup channel image_url names r id store false world h = cc

module _ {V : Type 0} (setup : Setup) (channel : String) (image_url : ImageChunk → String)
    (names : List String) (batch_size : ℕ) (r : DocumentRecord V) where
  -- What an import is to leave.
  pub record IsImported (ts : List TextChunk) (is : List ImageChunk) (before after : World V)
      (doc : Document) : Type 0 where
    pub found : get_document channel doc.id after.library ≡ ok doc
    pub status : doc.status ≡ r.status
    pub metadata : doc.metadata ≡ or_empty r.metadata
    pub content : after.library.files ≡ put_file doc.url r.content_bytes before.library.files
    pub chunks :
        get_chunks_by_document channel image_url after.store doc.id
        ≡ yield_all (moved doc.id ts is) end
    pub records : AllRestored doc.id r.indexes before.records after.records names

  -- If no two documents of the channel have an id or a URL in common, each has its file, no other
  -- channel has a document with the URL of the upload, the names of the indexes differ, and equal URLs
  -- are those of images with equal content: a bundle with a valid upload, whose
  -- chunks are texts and, behind them, images, both numbered from 1 in order, is imported to a path
  -- with no file or with `overwrite`. The document is found with the status, metadata and content
  -- of the bundle, its chunks load as those of the bundle, and in every index it has the records of
  -- the bundle; but where the bundle has none for an index, the records that the document had there
  -- before are left.
  pub import_document_lem :
      (overwrite : Bool) (world : World V) (ts : List TextChunk) (is : List ImageChunk)
      → IsValid channel world.library
      → validate_upload setup (upload_of setup channel image_url names r) r.metadata ≡ ok tt
      → (is_file (setup.files_url (setup.upload_filepath r.filename r.folder)) world.library.files
          && not overwrite)
        ≡ false
      → is_held_elsewhere channel
          (setup.stored (setup.upload_filepath r.filename r.folder) r.mime_type r.content_bytes).url
          world.library.documents
        ≡ false
      → ((a b : ImageChunk) → image_url a ≡ image_url b → a.content ≡ b.content)
      → r.chunks ≡ map text_chunk ts ++ map image_chunk is
      → FollowTexts 0 ts
      → FollowImages 0 is
      → Distinct names
      → (doc : Document) × (after : World V) × (import_document setup channel image_url names
            batch_size r overwrite world
          ≡ (ok doc, after))
        × IsImported ts is world after doc
  unfolding import_document import_rest
  import_document_lem overwrite world ts is v valid free elsewhere same_content form follow follow'
        d =
      let (doc, lib', ran, saved) =
        create_document_lem setup channel world.library (upload_of setup channel image_url names r)
          r.folder r.metadata overwrite v valid free elsewhere in
      let final = set_document_status channel doc.id r.status lib' in
      let read = get_document-set_document_status channel doc.id r.status lib' doc saved.found in
      let chunks =
        import_chunks_lem setup channel image_url names batch_size r doc.id world.store ts is
          same_content form follow follow' in
      let imported = import_chunks setup channel image_url names batch_size r doc.id world.store in
      let records = import_indexes names doc.id r.indexes world.records in
      let after : World V = record { library = final; store = imported.0; records = records } in
      (
        record doc { status = r.status },
        after,
        rw (ran, import_rest)
            (import_rest_of_complete setup channel image_url names r doc.id imported.0 imported.1 _
                chunks.0
              ∙ ap (λ g. (g, after)) read),
        record {
          found = read;
          status = refl;
          metadata = saved.metadata;
          content =
              saved.files
              ∙ ap (λ u. put_file u r.content_bytes world.library.files) (sym saved.url);
          chunks = chunks.1;
          records =
              AllRestored-import_indexes names doc.id r.indexes world.records names d
                (every_name names);
        },
      )
