-- ===== src/Export.antt =====
-- `export_document` and `import_document` of src/generic_rag/services/export_service.py. The bytes
-- of a bundle are not modelled, only the `DocumentRecord` in it; what stands in an index record
-- beside its document is of any type. The storage of an index is a list of its records.
pub mod Import
pub mod Laws
pub mod RoundTrip
mod Tests
use ai_dial_generic_rag_back.Prelude.{
  ℕ, Bool, true, false, ◌&&◌, not, Option, none, some, String, str_eq, List, [], ◌∷◌, ◌++◌, length,
  keep, map, ◌==◌, if◌then◌else◌,
}
use ai_dial_generic_rag_back.Prelude.Equality.{nat_key, string_key}
use ai_dial_generic_rag_back.Prelude.Options.{◌>>=◌}
use ai_dial_generic_rag_back.Prelude.Streams.{Stream, end, yield_all, to_list}
use ai_dial_generic_rag_back.Prelude.Results.{Result, ok, raise, Action, and_then, integrity_error}
use ai_dial_generic_rag_back.Types.{AnyChunk, text_chunk, image_chunk, ImageChunk, DocumentStatus}
use ai_dial_generic_rag_back.Types.Json.{Fields}
use ai_dial_generic_rag_back.Chunks.{
  Store, add_chunks, get_chunks_by_document, delete_chunks_by_document, download_file,
}
use ai_dial_generic_rag_back.Documents.{Document, Library}
use ai_dial_generic_rag_back.Documents.Upload.{Upload, Setup}
use ai_dial_generic_rag_back.Documents.Service.{create_document, get_document, set_document_status}

-- A record with the document of its metadata.
pub record IndexRecord {ℓ} (V : Type ℓ) : Type ℓ where
  pub document_id : ℕ
  pub value : V

pub record DocumentRecord {ℓ} (V : Type ℓ) : Type ℓ where
  pub filename : String
  pub folder : String
  pub mime_type : String
  pub metadata : Option Fields
  pub status : DocumentStatus
  pub content_bytes : List ℕ
  pub chunks : List AnyChunk
  pub indexes : List (String × List (IndexRecord V))

pub record World {ℓ} (V : Type ℓ) : Type ℓ where
  pub library : Library
  pub store : Store
  pub records : List (String × IndexRecord V)

-- `chunk.model_copy(update={"document_id": document.id})`
abbrev pub with_document : ℕ → AnyChunk → AnyChunk
with_document id (text_chunk c) = text_chunk (record c { document_id = id })
with_document id (image_chunk c) = image_chunk (record c { document_id = id })

module _ {ℓ} {V : Type ℓ} where
  abbrev pub is_record_of : String → ℕ → String × IndexRecord V → Bool
  is_record_of name id r = str_eq r.0 name && r.1.document_id == id

  -- `record.indexes.get(name)`
  unfoldable pub find_records :
      String → List (String × List (IndexRecord V)) → Option (List (IndexRecord V))
  find_records name [] = none
  find_records name ((n, data_) ∷ indexes) =
      if str_eq n name then some data_ else find_records name indexes

  abbrev pub renamed : ℕ → IndexRecord V → IndexRecord V
  renamed id r = record r { document_id = id }

  -- The storages: `export`, and `remove` followed by `add`.
  abbrev pub exported : String → ℕ → List (String × IndexRecord V) → List (IndexRecord V)
  exported name id records = map (λ r. r.1) (keep (is_record_of name id) records)

  abbrev pub replace_records :
      String
      → ℕ
      → List (IndexRecord V)
      → List (String × IndexRecord V)
      → List (String × IndexRecord V)
  replace_records name id new records =
      keep (λ r. not (is_record_of name id r)) records ++ map (λ r. (name, renamed id r)) new

  -- An index for which nothing was exported is passed over.
  abbrev pub import_data :
      String
      → ℕ
      → Option (List (IndexRecord V))
      → List (String × IndexRecord V)
      → List (String × IndexRecord V)
  import_data name id none records = records
  import_data name id (some []) records = records
  import_data name id (some (r ∷ rs)) records = replace_records name id (r ∷ rs) records

  unfoldable pub import_indexes :
      List String
      → ℕ
      → List (String × List (IndexRecord V))
      → List (String × IndexRecord V)
      → List (String × IndexRecord V)
  unfolding find_records
  import_indexes [] id indexes records = records
  import_indexes (name ∷ names) id indexes records =
      import_indexes names id indexes (import_data name id (find_records name indexes) records)

  module _ (setup : Setup) (channel : String) (image_url : ImageChunk → String)
      (index_names : List String) where
    -- `split` is `os.path.split`; none is an exception.
    unfoldable pub export_document :
        (String → String × String) → Document → World V → Option (DocumentRecord V)
    unfolding get_chunks_by_document download_file
    export_document split document world = do
      chunks ← to_list (get_chunks_by_document channel image_url world.store document.id)
      content ← download_file document.url world.library.files
      some (record {
        filename = (split document.display_name).1;
        folder = (split document.display_name).0;
        mime_type = document.mime_type;
        metadata = some document.metadata;
        status = document.status;
        content_bytes = content;
        chunks = chunks;
        indexes = map (λ name. (name, exported name document.id world.records)) index_names;
      })

    abbrev pub upload_of : DocumentRecord V → Upload
    upload_of r = record {
      filename = r.filename;
      content_type = r.mime_type;
      size = length r.content_bytes;
      content = r.content_bytes;
    }

    -- The chunks take the place of those that the document had; false if an insertion failed.
    unfoldable pub import_chunks : ℕ → DocumentRecord V → ℕ → Store → Store × Bool
    unfolding add_chunks delete_chunks_by_document
    import_chunks batch_size r id store =
        add_chunks channel image_url batch_size
          (delete_chunks_by_document channel image_url store id)
          (yield_all (map (with_document id) r.chunks) end)

    -- What follows the chunks.
    unfoldable pub import_rest : DocumentRecord V → ℕ → Store × Bool → Action (World V) Document
    unfolding import_indexes get_document
    import_rest r id (store, false) world = (raise integrity_error, record world { store = store })
    import_rest r id (store, true) world =
        let world' = record world {
          store = store;
          records = import_indexes index_names id r.indexes world.records;
        } in
        (get_document channel id world'.library, world')

    unfoldable pub import_document : ℕ → DocumentRecord V → Bool → Action (World V) Document
    unfolding create_document set_document_status import_chunks import_rest
    import_document batch_size r overwrite world =
        let (created_, library) =
          create_document setup channel (upload_of r) r.folder r.metadata overwrite world.library in
        and_then (created_, record world { library = library })
          λ document world'.
            import_rest r document.id (import_chunks batch_size r document.id world'.store)
              (record world' {
                library = set_document_status channel document.id r.status world'.library;
              })
