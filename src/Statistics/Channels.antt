-- ===== src/Statistics/Channels.antt =====
-- The statistics of a channel.
use ai_dial_generic_rag_back.Prelude.{
  ℕ, ◌≡◌, ◌||◌, Bool, true, false, Option, String, List, [], ◌∷◌, length, keep,
}
use ai_dial_generic_rag_back.Prelude.Results.{Result, ok, raise, validation_failed}
use ai_dial_generic_rag_back.Types.{ChunkMetadata}
use ai_dial_generic_rag_back.Chunks.{Tables}
use ai_dial_generic_rag_back.Documents.{DocumentEntity}
use ai_dial_generic_rag_back.Statistics.{
  ChunkRow, ChunkFact, DocumentChunkStats, ChannelChunkStats, sum_of, is_included, text_facts,
  image_facts, with_page,
}
use ai_dial_generic_rag_back.Statistics.Totals.{of_document, any_on_zero}

module _ (texts images : List ChunkFact) where
  abbrev pub any_zero : List DocumentEntity → Bool
  any_zero [] = false
  any_zero (e ∷ es) = any_on_zero e.document_id texts images || any_zero es

  -- The numbers of chunks and of characters that documents have together.
  abbrev pub AreTotals : List DocumentEntity → (text_chunks image_chunks characters : ℕ) → Type 0
  AreTotals shown text_chunks image_chunks characters =
      (text_chunks
        ≡ sum_of (λ (e : DocumentEntity). length (of_document e.document_id texts)) shown)
      × (image_chunks
          ≡ sum_of (λ (e : DocumentEntity). length (of_document e.document_id images)) shown)
      × (characters
          ≡ sum_of
              (λ (e : DocumentEntity).
                sum_of (λ (c : ChunkFact). c.characters) (of_document e.document_id texts))
              shown)

  abbrev AreReports : List DocumentEntity → Result (List DocumentChunkStats) → Type 0
  AreReports es (raise error) = (error ≡ validation_failed) × (any_zero es ≡ true)
  AreReports es (ok results) =
      (any_zero es ≡ false)
      × AreTotals es (sum_of (λ (d : DocumentChunkStats). d.text_chunks) results)
          (sum_of (λ (d : DocumentChunkStats). d.image_chunks) results)
          (sum_of (λ (d : DocumentChunkStats). d.text_characters) results)

module _ (stored_page : ChunkMetadata → Option ℕ) (channel : String) (tables : Tables)
    (documents : List DocumentEntity) (ids : Option (List ℕ)) where
  abbrev own_rows : List ChunkRow → List ChunkRow
  own_rows = keep (λ r. is_included ids r.document_id)

  abbrev pub own_texts : List ChunkFact
  own_texts = with_page (own_rows (text_facts stored_page channel tables.text_chunks))

  abbrev pub own_images : List ChunkFact
  own_images = with_page (own_rows (image_facts stored_page channel tables.image_chunks))

  -- The report on documents.
  abbrev pub IsChannelReport : List DocumentEntity → Result ChannelChunkStats → Type 0
  IsChannelReport shown (raise error) =
      (error ≡ validation_failed) × (any_zero own_texts own_images shown ≡ true)
  IsChannelReport shown (ok stats) =
      (any_zero own_texts own_images shown ≡ false)
      × AreTotals own_texts own_images shown stats.text_chunks stats.image_chunks
          stats.text_characters
