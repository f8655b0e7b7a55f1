-- ===== src/Facade/Changes.antt =====
-- The operations on documents in src/generic_rag/services/facade_service.py.
use ai_dial_generic_rag_back.Prelude.{
  ℕ, Bool, true, false, ◌&&◌, not, Option, none, some, String, List, keep, ◌==◌, if◌then◌else◌,
}
use ai_dial_generic_rag_back.Prelude.Equality.{nat_key, string_key, contains}
use ai_dial_generic_rag_back.Prelude.Results.{Error, ok, raise, Action, and_then}
use ai_dial_generic_rag_back.Types.{DocumentStatus}
use ai_dial_generic_rag_back.Types.Json.{Fields}
use ai_dial_generic_rag_back.Chunks.{delete_chunks_by_document}
use ai_dial_generic_rag_back.Documents.{Document, Library}
use ai_dial_generic_rag_back.Documents.Upload.{Upload}
use ai_dial_generic_rag_back.Documents.Service as Documents
use ai_dial_generic_rag_back.Documents.Service.{is_file, document_exists, get_document}
use ai_dial_generic_rag_back.Facade.{reindex_document, World, Setting}
use ai_dial_generic_rag_back.Facade.Archives.{reset_channel_export_archive, enqueue_job}

module _ (setting : Setting) where
  -- `_delete_document_data`: the records in all indexes of the channel, and the chunks.
  unfoldable pub delete_document_data : ℕ → World → World
  unfolding delete_chunks_by_document
  delete_document_data id world = record world {
    records = keep (λ r. not (contains setting.index_names r.0 && r.1 == id)) world.records;
    store = delete_chunks_by_document setting.channel setting.image_url world.store id;
  }

  -- The call of the document service on the library.
  abbrev pub on_library {ℓ} : {A : Type ℓ} → Action Library A → Action World A
  on_library action world =
      let (result, library) = action world.library in (result, record world { library = library })

  unfoldable pub delete_document : ℕ → Action World (Unit {0})
  unfolding document_exists reset_channel_export_archive delete_document_data
      Documents.delete_document
  delete_document id world =
      if document_exists setting.channel id world.library
      then on_library (Documents.delete_document setting.channel id)
          (delete_document_data id (reset_channel_export_archive setting world))
      else (raise Error.not_found, world)

  -- The blocking part of `_index_document`.
  unfoldable pub index_now : Document → Option (List String) → Bool → Action World (Document × Bool)
  unfolding reset_channel_export_archive get_document
  index_now document index_names force world =
      and_then
        (setting.run_indexing document index_names force
          (reset_channel_export_archive setting world))
        λ done world'. elim (get_document setting.channel document.id world'.library) [
          | ok d ↦ (ok (d, false), world')
          | raise e ↦ (raise e, world')
        ]

  -- `_index_document`; true for the mode "auto".
  unfoldable pub index_document :
      Document → Option (List String) → Bool → Bool → Action World (Document × Bool)
  unfolding enqueue_job index_now
  index_document document index_names force false world = index_now document index_names force world
  index_document document index_names force true world =
      and_then
        (enqueue_job setting reindex_document (some (setting.document_dedupe_key document.id))
          world)
        λ is_queued world'.
          let now = index_now document index_names force world' in
          if is_queued then (ok (document, true), world') else now

  abbrev pub is_ready : DocumentStatus → Bool
  is_ready DocumentStatus.ready = true
  is_ready _ = false

  -- What `create_document` and `update_document` do with the document that the service returns.
  unfoldable pub after_change : Document → Action World Document
  unfolding reset_channel_export_archive delete_document_data index_document
  after_change document world =
      let world' = reset_channel_export_archive setting world in
      let index =
        and_then (index_document document none false true (delete_document_data document.id world'))
          λ result w. (ok result.0, w) in
      if is_ready document.status then (ok document, world') else index

  unfoldable pub create_document : Upload → String → Option Fields → Bool → Action World Document
  unfolding Documents.create_document after_change
  create_document a folder metadata overwrite world =
      and_then
        (on_library
          (Documents.create_document setting.documents setting.channel a folder metadata overwrite)
          world)
        after_change

  unfoldable pub update_document : ℕ → Option Upload → Option Fields → Action World Document
  unfolding Documents.update_document after_change
  update_document id attachment metadata world =
      and_then
        (on_library
          (Documents.update_document setting.documents setting.channel id attachment metadata)
          world)
        after_change

  unfoldable pub reindex_document_now :
      ℕ → Option (List String) → Bool → Bool → Action World (Document × Bool)
  unfolding get_document index_document
  reindex_document_now id index_names force background world =
      elim (get_document setting.channel id world.library) [
        | raise e ↦ (raise e, world)
        | ok document ↦ index_document document index_names force background world
      ]
