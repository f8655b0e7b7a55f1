-- ===== src/Documents/Reading.antt =====
-- `DocumentService.get_document` by the row that it finds.
use ai_dial_generic_rag_back.Prelude.{ℕ, ◌≡◌, refl, none, some, String}
use ai_dial_generic_rag_back.Prelude.Results.{ok, raise, not_found}
use ai_dial_generic_rag_back.Documents.{DocumentEntity, Library, from_entity}
use ai_dial_generic_rag_back.Documents.Repository.{get_by_id}
use ai_dial_generic_rag_back.Documents.Service.{get_document}

module _ (channel : String) (lib : Library) (id : ℕ) where
  pub get_document_of_none :
      get_by_id channel id lib.documents ≡ none → get_document channel id lib ≡ raise not_found
  get_document_of_none h = unfold get_document in rw (h, get_document) refl

  pub get_document_of_some :
      (e : DocumentEntity)
      → get_by_id channel id lib.documents ≡ some e
      → get_document channel id lib ≡ ok (from_entity e)
  get_document_of_some e h = unfold get_document in rw (h, get_document) refl
