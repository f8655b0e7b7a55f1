-- ===== src/Chunks.antt =====
-- src/generic_rag/services/chunk_service.py over the tables of src/generic_rag/db/entities.py. A
-- table is the list of its rows in the order of insertion; a query filters and sorts them. The
-- channel is a parameter, and so is the URL under which the file storage keeps an image.
pub mod Saving
pub mod Loading
pub mod Queries
pub mod Pages
use ai_dial_generic_rag_back.Prelude.{
  ℕ, ◌+◌, Bool, true, false, not, ◌&&◌, ◌||◌, Option, none, some, String, str_eq, List, [], ◌∷◌,
  ◌++◌, length, leb, ltb, ◌==◌, keep, map, if◌then◌else◌,
}
use ai_dial_generic_rag_back.Prelude.Options.{◌>>=◌}
use ai_dial_generic_rag_back.Prelude.Streams.{Stream, end, raised, next}
use ai_dial_generic_rag_back.Types.{
  ImageType, ChunkMetadata, TextChunk, ImageChunk, AnyChunk, text_chunk, image_chunk,
}
use mathlib.Core.Option

-- The primary key of a chunk, and the other columns.
pub record Row {ℓ} (P : Type ℓ) : Type ℓ where
  pub channel_key : String
  pub document_id : ℕ
  pub chunk_id : ℕ
  pub columns : P

pub record TextColumns : Type 0 where
  pub text : String
  pub metadata : ChunkMetadata

pub record ImageColumns : Type 0 where
  pub image_type : ImageType
  pub image_url : String
  pub mime_type : String
  pub metadata : ChunkMetadata

pub data Entity : Type 0 where
  text_entity : Row TextColumns → Entity
  image_entity : Row ImageColumns → Entity

pub record Tables : Type 0 where
  pub text_chunks : List (Row TextColumns)
  pub image_chunks : List (Row ImageColumns)

abbrev pub Files : Type 0
Files = List (String × List ℕ)

-- The database and the file storage.
pub record Store : Type 0 where
  pub tables : Tables
  pub files : Files

module _ {ℓ} {P : Type ℓ} where
  abbrev pub is_of : String → ℕ → Row P → Bool
  is_of channel document r = str_eq r.channel_key channel && r.document_id == document

  unfoldable pub has_key : List (Row P) → String → ℕ → ℕ → Bool
  has_key [] channel document chunk = false
  has_key (r ∷ rows) channel document chunk =
      (is_of channel document r && r.chunk_id == chunk) || has_key rows channel document chunk

  -- The primary key is unique, or the insertion fails.
  unfoldable pub insert_row : List (Row P) → Row P → Option (List (Row P))
  unfolding has_key
  insert_row rows r =
      if has_key rows r.channel_key r.document_id r.chunk_id then none else some (rows ++ r ∷ [])

  -- `order_by(chunk_id)`
  unfoldable pub insert_ordered : Row P → List (Row P) → List (Row P)
  insert_ordered r [] = r ∷ []
  insert_ordered r (s ∷ rows) =
      let later = insert_ordered r rows in
      if ltb s.chunk_id r.chunk_id then s ∷ later else r ∷ s ∷ rows

  unfoldable pub order_by_id : List (Row P) → List (Row P)
  unfolding insert_ordered
  order_by_id [] = []
  order_by_id (r ∷ rows) = insert_ordered r (order_by_id rows)

unfoldable pub save_entity : Tables → Entity → Option Tables
unfolding insert_row
save_entity tables (text_entity r) =
    Option.map (λ rows. record tables { text_chunks = rows }) (insert_row tables.text_chunks r)
save_entity tables (image_entity r) =
    Option.map (λ rows. record tables { image_chunks = rows }) (insert_row tables.image_chunks r)

-- `_save_entities`, one transaction.
unfoldable pub save_entities : Tables → List Entity → Option Tables
unfolding save_entity
save_entities tables [] = some tables
save_entities tables (e ∷ es) = do tables' ← save_entity tables e; save_entities tables' es

-- The file storage: `put_file` replaces what stands under the URL.
abbrev pub put_file : String → List ℕ → Files → Files
put_file url content files = (url, content) ∷ files

unfoldable pub download_file : String → Files → Option (List ℕ)
download_file url [] = none
download_file url ((u, content) ∷ files) =
    if str_eq u url then some content else download_file url files

abbrev pub delete_file : String → Files → Files
delete_file url = keep (λ f. not (str_eq f.0 url))

pub delete_files : List (Row ImageColumns) → Files → Files
delete_files [] files = files
delete_files (r ∷ rows) files = delete_files rows (delete_file r.columns.image_url files)

-- What follows a saved batch; a batch that fails ends the loop.
unfoldable pub saved : Store → List Entity → (Store → Store × Bool) → Store × Bool
unfolding save_entities
saved store batch then_do = elim (save_entities store.tables batch) [
  | none ↦ (store, false)
  | some tables ↦ then_do (record store { tables = tables })
]

-- The chunk of a row, then the rest.
pub text_of_row : Row TextColumns → TextChunk
text_of_row r = record {
  document_id = r.document_id;
  chunk_id = r.chunk_id;
  text = r.columns.text;
  metadata = r.columns.metadata;
}

image_of_row : Row ImageColumns → List ℕ → ImageChunk
image_of_row r content = record {
  document_id = r.document_id;
  chunk_id = r.chunk_id;
  image_type = r.columns.image_type;
  mime_type = r.columns.mime_type;
  content = content;
  metadata = r.columns.metadata;
}

-- `_convert_entity` for each row in turn; `assert stream is not None`.
unfoldable pub convert_texts : List (Row TextColumns) → Stream AnyChunk → Stream AnyChunk
unfolding text_of_row
convert_texts [] rest = rest
convert_texts (r ∷ rows) rest = next (text_chunk (text_of_row r)) (convert_texts rows rest)

unfoldable pub convert_images : Files → List (Row ImageColumns) → Stream AnyChunk
unfolding image_of_row download_file
convert_images files [] = end
convert_images files (r ∷ rows) = elim (download_file r.columns.image_url files) [
  | none ↦ raised
  | some content ↦ next (image_chunk (image_of_row r content)) (convert_images files rows)
]

module _ (channel : String) (image_url : ImageChunk → String) where
  abbrev pub text_row : TextChunk → Row TextColumns
  text_row c = record {
    channel_key = channel;
    document_id = c.document_id;
    chunk_id = c.chunk_id;
    columns = record { text = c.text; metadata = c.metadata };
  }

  abbrev pub image_row : ImageChunk → Row ImageColumns
  image_row c = record {
    channel_key = channel;
    document_id = c.document_id;
    chunk_id = c.chunk_id;
    columns = record {
      image_type = c.image_type;
      image_url = image_url c;
      mime_type = c.mime_type;
      metadata = c.metadata;
    };
  }

  -- `_create_entity`, which uploads an image.
  abbrev pub create_entity : AnyChunk → Files → Entity × Files
  create_entity (text_chunk c) files = (text_entity (text_row c), files)
  create_entity (image_chunk c) files =
      (image_entity (image_row c), put_file (image_url c) c.content files)

  -- The loop of `add_chunks`; true if it comes to its end.
  unfoldable pub add_from : ℕ → List Entity → Store → Stream AnyChunk → Store × Bool
  unfolding saved
  add_from size [] store end = (store, true)
  add_from size (e ∷ batch) store end = saved store (e ∷ batch) λ store'. (store', true)
  add_from size batch store raised = (store, false)
  add_from size batch store (next c chunks) =
      let (entity, files) = create_entity c store.files in
      let store' = record store { files = files } in
      let batch' = batch ++ entity ∷ [] in
      let full = saved store' batch' (λ st. add_from size [] st chunks) in
      let rest = add_from size batch' store' chunks in
      if leb size (length batch') then full else rest

  unfoldable pub add_chunks : ℕ → Store → Stream AnyChunk → Store × Bool
  unfolding add_from
  add_chunks batch_size store chunks = add_from batch_size [] store chunks

  unfoldable pub get_chunks_by_document : Store → ℕ → Stream AnyChunk
  unfolding convert_texts convert_images order_by_id
  get_chunks_by_document store document =
      convert_texts (order_by_id (keep (is_of channel document) store.tables.text_chunks)) (
        convert_images store.files
          (order_by_id (keep (is_of channel document) store.tables.image_chunks)))

  unfoldable pub delete_chunks_by_document : Store → ℕ → Store
  unfolding delete_files
  delete_chunks_by_document store document = record {
    tables = record {
      text_chunks = keep (λ r. not (is_of channel document r)) store.tables.text_chunks;
      image_chunks = keep (λ r. not (is_of channel document r)) store.tables.image_chunks;
    };
    files = delete_files (keep (is_of channel document) store.tables.image_chunks) store.files;
  }
