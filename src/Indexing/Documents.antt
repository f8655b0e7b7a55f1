-- ===== src/Indexing/Documents.antt =====
-- `IndexingService.index_document` and `_index_chunks`. The indexes of the channel are a parameter;
-- `fails` tells which of the requests to their storages raise. A task group makes all its requests
-- and raises if one of them does.
use ai_dial_generic_rag_back.Prelude.{
  ℕ, Bool, true, false, not, ◌&&◌, ◌||◌, Option, none, some, String, List, [], ◌∷◌, ◌++◌, keep, map,
  if◌then◌else◌,
}
use ai_dial_generic_rag_back.Prelude.Equality.{string_key, contains}
use ai_dial_generic_rag_back.Prelude.Streams.{Stream, end, raised, next}
use ai_dial_generic_rag_back.Types.{
  ImageChunk, AnyChunk, DocumentStatus, processing, processed, indexing, ready, error,
}
use ai_dial_generic_rag_back.Chunks.{
  Store, add_chunks, get_chunks_by_document, delete_chunks_by_document,
}
use ai_dial_generic_rag_back.Indexing.{Parser, batched_async, extract_chunks}

-- An index, of chunks or of whole documents.
pub record SearchIndex : Type 0 where
  pub index_name : String
  pub of_chunks : Bool

pub data Request : Type 0 where
  remove : String → Request
  add_chunks_to : String → List AnyChunk → Request
  add_document_to : String → Request

pub record World : Type 0 where
  pub store : Store
  pub status : DocumentStatus
  -- The values that the status took, and the requests made to the indexes.
  pub statuses : List DocumentStatus
  pub requests : List Request

pub record IndexedDocument : Type 0 where
  pub id : ℕ
  pub mime_type : String
  pub status : DocumentStatus

abbrev pub set_document_status : DocumentStatus → World → World
set_document_status status world = record world {
  status = status;
  statuses = world.statuses ++ status ∷ [];
}

-- `DocumentStatusUpdateHelper.begin`
unfoldable pub finish : DocumentStatus → World × Bool → World × Bool
finish finished (world, true) = (set_document_status finished world, true)
finish finished (world, false) = (set_document_status error world, false)

unfoldable pub begin :
    DocumentStatus → DocumentStatus → (World → World × Bool) → World → World × Bool
unfolding finish
begin started finished body world = finish finished (body (set_document_status started world))

-- One step after the other; an exception skips the rest.
unfoldable pub and_then : World × Bool → (World → World × Bool) → World × Bool
and_then (world, true) then_do = then_do world
and_then (world, false) then_do = (world, false)

abbrev pub is_processed : DocumentStatus → Bool
is_processed processed = true
is_processed ready = true
is_processed _ = false

-- `index_names is None or idx.index_name in index_names`
abbrev pub is_wanted : Option (List String) → SearchIndex → Bool
is_wanted none index = true
is_wanted (some names) index = contains names index.index_name

module _ (fails : Request → Bool) where
  abbrev pub any_fails : List Request → Bool
  any_fails [] = false
  any_fails (r ∷ rs) = fails r || any_fails rs

  -- One task group.
  abbrev pub send_all : List Request → World → World × Bool
  send_all rs world = (record world { requests = world.requests ++ rs }, not (any_fails rs))

module _ (channel : String) (image_url : ImageChunk → String) (indexes : List SearchIndex)
    (fails : Request → Bool) where
  abbrev pub chunk_indexes : Option (List String) → List SearchIndex
  chunk_indexes names = keep (λ i. i.of_chunks && is_wanted names i) indexes

  abbrev pub document_indexes : Option (List String) → List SearchIndex
  document_indexes names = keep (λ i. not i.of_chunks && is_wanted names i) indexes

  -- The loop of `_index_chunks`
  unfoldable pub index_batches :
      Option (List String) → Stream (List AnyChunk) → World → World × Bool
  unfolding and_then
  index_batches names end world = (world, true)
  index_batches names raised world = (world, false)
  index_batches names (next batch batches) world =
      and_then
        (send_all fails (map (λ i. add_chunks_to i.index_name batch) (chunk_indexes names)) world)
        (λ world'. index_batches names batches world')

  unfoldable pub index_chunks : ℕ → Option (List String) → Stream AnyChunk → World → World × Bool
  unfolding index_batches batched_async
  index_chunks batch_size names chunks world =
      index_batches names (batched_async chunks batch_size) world

  -- `INDEXING_BATCH_SIZE` and the default of `add_chunks` are parameters.
  module _ (indexing_batch_size : ℕ) (batch_size : ℕ) (parsers : List Parser) where
    unfoldable pub process : IndexedDocument → World → World × Bool
    unfolding add_chunks delete_chunks_by_document extract_chunks
    process document world =
        let (store, complete) =
          add_chunks channel image_url batch_size
            (delete_chunks_by_document channel image_url world.store document.id)
            (extract_chunks document.mime_type parsers) in
        (record world { store = store }, complete)

    -- The first task group of the second phase.
    abbrev pub remove_all : Option (List String) → World → World × Bool
    remove_all names =
        send_all fails (map (λ i. remove i.index_name) (keep (is_wanted names) indexes))

    -- The second one. Its tasks run side by side: here the chunks come first.
    unfoldable pub add_all : IndexedDocument → Option (List String) → World → World × Bool
    unfolding index_chunks and_then get_chunks_by_document
    add_all document names world =
        and_then
          (index_chunks indexing_batch_size names
            (get_chunks_by_document channel image_url world.store document.id) world)
          (send_all fails (map (λ i. add_document_to i.index_name) (document_indexes names)))

    unfoldable pub rebuild : IndexedDocument → Option (List String) → World → World × Bool
    unfolding add_all and_then
    rebuild document names world = and_then (remove_all names world) (add_all document names)

    abbrev pub must_process : IndexedDocument → Bool → Bool
    must_process document force = force || not (is_processed document.status)

    unfoldable pub index_document :
        IndexedDocument → Option (List String) → Bool → World → World × Bool
    unfolding begin and_then process rebuild
    index_document document index_names force world =
        if must_process document force
        then and_then (begin processing processed (process document) world)
            (begin indexing ready (rebuild document none))
        else begin indexing ready (rebuild document index_names) world
