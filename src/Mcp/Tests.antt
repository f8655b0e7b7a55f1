-- ===== src/Mcp/Tests.antt =====
-- The pages of a small document, and the theorem at these.
use ai_dial_generic_rag_back.Prelude.{
  ℕ, ◌+◌, ◌-◌, ◌≡◌, ◌||◌, ltb, refl, none, some, String, List, [], ◌∷◌, concat, map, codes,
  if◌then◌else◌,
}
use ai_dial_generic_rag_back.Prelude.Decimal.{decimal}
use ai_dial_generic_rag_back.Prelude.Results.{ok, raise, value_error, assertion_failed}
use ai_dial_generic_rag_back.Types.{page, diagram, ImageType}
use ai_dial_generic_rag_back.Types.Json
use ai_dial_generic_rag_back.Chunks.{Row, TextColumns, ImageColumns, Store}
use ai_dial_generic_rag_back.Mcp.{text_content, image_content, both, text, get_pages}
use ai_dial_generic_rag_back.Mcp.Pages.{asked, loaded, blocks_of_page, get_pages_lem}

abbrev text_row : ℕ → ℕ → String → Row TextColumns
text_row id p t = record {
  channel_key = "c";
  document_id = 5;
  chunk_id = id;
  columns = record { text = t; metadata = record { page_number = p; extra = Json.Fields.end } };
}

abbrev image_row : ℕ → ℕ → ImageType → Row ImageColumns
image_row id p type = record {
  channel_key = "c";
  document_id = 5;
  chunk_id = id;
  columns = record {
    image_type = type;
    image_url = "u";
    mime_type = "image/png";
    metadata = record { page_number = p; extra = Json.Fields.end };
  };
}

abbrev store : Store
store = record {
  tables = record {
    text_chunks = text_row 1 2 "one" ∷ text_row 2 2 "two" ∷ text_row 3 4 "four" ∷ [];
    image_chunks = image_row 1 3 diagram ∷ image_row 2 2 page ∷ [];
  };
  files = ("u", 1 ∷ []) ∷ [];
}

abbrev encode : List ℕ → List ℕ
encode content = content

both_pages :
    get_pages 3 encode "c" store 5 2 3 both
    ≡ ok (
        text_content (codes "[Document 5, Page 2]")
        ∷ text_content (codes "one\ntwo")
        ∷ image_content (1 ∷ []) "image/png"
        ∷ [])
unfolding get_pages decimal
both_pages = refl

too_many : get_pages 3 encode "c" store 5 1 4 text ≡ raise value_error
unfolding get_pages
too_many = refl

get_pages_lem_example : get_pages 3 encode "c" store 5 2 4 both ≡ (
    if ltb 4 2 || ltb 3 (4 - 2 + 1) then raise value_error else elim (loaded "c" store 5 2 4 both) [
      | none ↦ raise assertion_failed
      | some cs ↦ ok (concat (map (blocks_of_page encode 5 cs) (asked 2 4)))
    ])
get_pages_lem_example = get_pages_lem 3 encode "c" store 5 2 4 both
