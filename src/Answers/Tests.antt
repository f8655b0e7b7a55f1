-- ===== src/Answers/Tests.antt =====
-- Answers on concrete inputs, and the theorems at examples.
use ai_dial_generic_rag_back.Prelude.{
  ℕ, ◌-◌, ◌≡◌, refl, Bool, true, false, Option, none, some, String, List, [], ◌∷◌, arith, leb, ◌&&◌,
  ◌==◌, if◌then◌else◌, codes, concat, map, get_elem?,
}
use ai_dial_generic_rag_back.Prelude.Equality.{nat_key, pair_key, string_key}
use ai_dial_generic_rag_back.Types.{ImageChunk, text_chunk, RetrievedDocument}
use ai_dial_generic_rag_back.Types.Json.{Json, end, lookup}
use ai_dial_generic_rag_back.Answers.Prompt.{text_element, document_elements, ainvoke}
use ai_dial_generic_rag_back.Answers.Cited.{
  shown_ids, shown_texts, ShowsEach, named, cited_documents_lem,
}
use ai_dial_generic_rag_back.Prelude.Decimal.{decimal}
use ai_dial_generic_rag_back.References.{Text, atransform}
use ai_dial_generic_rag_back.References.Printing.{Segment, plain, ref}
use ai_dial_generic_rag_back.Ranking.Unique.{unique_by_key}
use ai_dial_generic_rag_back.Answers.{
  Call, append_content, add_citation, generate, retrieval_only, empty_plain, plain_calls,
}
use ai_dial_generic_rag_back.Answers.Plain.{shown, has_citation, plain_calls-generate}
use ai_dial_generic_rag_back.Answers.Dial.{ChatSettings, empty_dial, reference_key, dial_calls}
use ai_dial_generic_rag_back.Answers.Messages.{cited_docs, attachments, text_of}
use ai_dial_generic_rag_back.Answers.Sharing.{empty_sharing, sharing_calls, url_key}
use ai_dial_generic_rag_back.Answers.SharedLinks.{shared_all, linked, sharing_calls_lem}
use ai_dial_generic_rag_back.Answers.Numbering.{number_from, call_text, answer_to, dial_calls_lem}

abbrev ascii_digit : ℕ → Option ℕ
ascii_digit c = if leb b'0' c && leb c b'9' then some (c - b'0') else none

abbrev item : ℕ → ℕ → RetrievedDocument
item id page = record {
  chunks =
      text_chunk (record {
        document_id = id;
        chunk_id = 1;
        text = "text";
        metadata = record { page_number = page; extra = end };
      })
      ∷ [];
  source_id = id;
  source_url = "files/b/d";
  source_mime_type = "application/pdf";
  source_name = "d";
  source_page_number = page;
  source_title = "d";
  source_metadata = end;
  retrieval_type = none;
}

abbrev items : List RetrievedDocument
items = item 1 5 ∷ item 2 0 ∷ []

abbrev pieces : List Text
pieces = codes "a<[" ∷ codes "1]> b<[3" ∷ codes "]>" ∷ []

abbrev segments : List Segment
segments = plain b'a' ∷ ref 1 b'1' [] ∷ plain b' ' ∷ plain b'b' ∷ ref 3 b'3' [] ∷ []

answered :
    (plain_calls empty_plain (generate ascii_digit items pieces)).content
    ≡ codes "a[Document 1, Page 5] b"
unfolding generate plain_calls atransform decimal
answered = refl

plain_calls-generate_example :
    plain_calls empty_plain (generate ascii_digit items pieces) ≡ record {
      content = concat (map (shown items) segments);
      has_references = has_citation items segments;
    }
plain_calls-generate_example =
    plain_calls-generate ascii_digit refl refl items segments pieces
      (omega arith, (refl, (omega arith, (omega arith, (refl, tt))))) refl

-- Without a model, all that was found is cited.
all_cited : cited_docs (retrieval_only items) ≡ items
all_cited = refl

abbrev uri : ImageChunk → Text
uri chunk = codes "data:,"

abbrev plain_str : Json → Text
plain_str j = []

abbrev system : Text × List String
system = (codes "s", "year" ∷ [])

-- The second document is shown in these elements.
second_element :
    get_elem? (ainvoke uri plain_str system (codes "d") (codes "q") items).1 5
    ≡ some (text_element (codes "<doc id='2' document='d' page_number='0' year=''>\ntext\n"))
unfolding document_elements decimal lookup
second_element = refl

cited_documents_lem_example :
    let elements = (ainvoke uri plain_str system (codes "d") (codes "q") items).1 in
    let ids = shown_ids elements in
    (ids ≡ 1 ∷ 2 ∷ [])
    × ShowsEach 1 items (shown_texts elements)
    × (cited_docs (generate ascii_digit items pieces) ≡ concat (map (named ids items) segments))
cited_documents_lem_example =
    cited_documents_lem ascii_digit refl refl uri plain_str system (codes "d") (codes "q") items
      segments pieces (omega arith, (refl, (omega arith, (omega arith, (refl, tt))))) refl

abbrev space : ℕ → Bool
space c = c == b' '

abbrev picture : ImageChunk → Text
picture chunk = codes "data:,"

abbrev id : ℕ → Text
id n = codes "id"

abbrev settings : ChatSettings
settings = record { enable_annotations = false; enable_thumbnails = true }

abbrev calls : List Call
calls =
    append_content (codes "x")
    ∷ add_citation (item 7 1)
    ∷ add_citation (item 8 1)
    ∷ append_content (codes "y")
    ∷ add_citation (item 7 1)
    ∷ []

numbered :
    text_of (dial_calls space picture id settings empty_dial calls).choice ≡ codes "x [1] [2]y [1]"
unfolding dial_calls decimal
numbered = refl

dial_calls_lem_example :
    let docs = unique_by_key reference_key [] (cited_docs calls) in
    (attachments (answer_to space picture id settings refl empty_dial calls).choice
      ≡ number_from space picture id settings refl 0 docs)
    × (text_of (answer_to space picture id settings refl empty_dial calls).choice
        ≡ concat (map (call_text space picture id settings refl (map reference_key docs)) calls))
dial_calls_lem_example = dial_calls_lem space picture id settings refl calls

abbrev share : ℕ → Option String
share source = some "files/shared/d"

sharing_calls_lem_example :
    let docs = unique_by_key url_key [] (cited_docs calls) in
    sharing_calls share empty_sharing calls
    ≡ some (
      shared_all share (λ n. "files/shared/d") (λ n. refl) docs,
      map (linked share (λ n. "files/shared/d") (λ n. refl) docs) calls,
    )
sharing_calls_lem_example = sharing_calls_lem share (λ n. "files/shared/d") (λ n. refl) calls
