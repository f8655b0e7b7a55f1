-- ===== src/Statistics/Tests.antt =====
-- The report on a document, and the theorems at concrete arguments.
use ai_dial_generic_rag_back.Prelude.{
  ℕ, ◌≡◌, refl, true, Option, none, some, String, List, [], ◌∷◌, map,
}
use ai_dial_generic_rag_back.Types.{ready, ChunkMetadata}
use ai_dial_generic_rag_back.Prelude.Results.{raise, validation_failed}
use ai_dial_generic_rag_back.Types.Json.{end}
use ai_dial_generic_rag_back.Chunks.{Row, TextColumns, Tables}
use ai_dial_generic_rag_back.Documents.{DocumentEntity}
use ai_dial_generic_rag_back.Statistics.{
  ChunkRow, with_page, PageChunkStats, count_by_page, document_stats, pages_of, get_document_stats,
}
use ai_dial_generic_rag_back.Statistics.Pages.{IsAscending}
use ai_dial_generic_rag_back.Statistics.Totals.{IsReport, document_stats_lem}

abbrev entity : DocumentEntity
entity = record {
  channel_key = "c";
  document_id = 5;
  url = "a";
  etag = none;
  mime_type = "text/plain";
  size = 1;
  display_name = "a";
  metadata = end;
  status = ready;
}

abbrev fact : ℕ → ℕ → ℕ → ChunkRow
fact document page characters = record {
  document_id = document;
  page = some page;
  characters = characters;
}

abbrev texts : List ChunkRow
texts = fact 5 2 10 ∷ fact 6 1 9 ∷ fact 5 1 3 ∷ fact 5 2 4 ∷ []

abbrev images : List ChunkRow
images = fact 5 3 0 ∷ fact 5 2 0 ∷ []

pages :
    map
      (λ (p : PageChunkStats). p.page_number)
      (pages_of (count_by_page texts) (count_by_page images) 5)
    ≡ 1 ∷ 2 ∷ 3 ∷ []
unfolding count_by_page document_stats
pages = refl

document_stats_lem_example :
    IsReport entity
      (with_page texts)
      (with_page images)
      (document_stats (count_by_page texts) (count_by_page images) true entity)
    × IsAscending (
        map
          (λ (p : PageChunkStats). p.page_number)
          (pages_of (count_by_page texts) (count_by_page images) 5))
document_stats_lem_example = document_stats_lem texts images entity true

-- A chunk without a page number is in no count, and one on page 0 fails the report.
left_out : count_by_page (record { document_id = 5; page = none; characters = 4 } ∷ []) ≡ []
unfolding count_by_page
left_out = refl

on_page_zero :
    document_stats (count_by_page (fact 5 0 1 ∷ [])) [] true entity ≡ raise validation_failed
unfolding document_stats count_by_page
on_page_zero = refl

abbrev stored_page : ChunkMetadata → Option ℕ
stored_page m = some m.page_number

-- The report has no number for a document without chunks.
no_pages :
    get_document_stats stored_page "c"
      (record { text_chunks = []; image_chunks = [] })
      (entity ∷ [])
      (5 ∷ [])
    ≡ record { document_id = 5; number_of_pages = none } ∷ []
unfolding get_document_stats
no_pages = refl

abbrev row : ℕ → String → Row TextColumns
row page text = record {
  channel_key = "c";
  document_id = 5;
  chunk_id = page;
  columns = record { text = text; metadata = record { page_number = page; extra = end } };
}

abbrev tables : Tables
tables = record { text_chunks = row 1 "one" ∷ row 2 "two" ∷ []; image_chunks = [] }
