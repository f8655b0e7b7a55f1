-- ===== src/Descriptions/Tests.antt =====
-- A description, the chunks that get it, and the theorems at these.
use ai_dial_generic_rag_back.Prelude.{ℕ, ◌≡◌, refl, none, some, List, [], ◌∷◌, All}
use ai_dial_generic_rag_back.Prelude.Streams.{end, raised, next, yield_all}
use ai_dial_generic_rag_back.Types.{ImageType, page, diagram, AnyChunk, text_chunk, image_chunk}
use ai_dial_generic_rag_back.Types.Json
use ai_dial_generic_rag_back.Descriptions.{
  page_summary, image_key_fact, PageDescription, Transform, clean_text, flatten, transform,
}
use ai_dial_generic_rag_back.Descriptions.Items.{
  IsItemOf, item_texts, cleaned, texts_of, flatten_lem,
}

stripped : clean_text "\n a\nb " ≡ "a b"
unfolding flatten
stripped = refl

abbrev description : PageDescription
description = record {
  summary = " the page\n";
  key_fact = "";
  images = record { summary = " "; key_fact = "fact" } ∷ [];
  tables = [];
}

flattened :
    flatten description
    ≡ record { text = "the page"; kind = page_summary; element_index = none }
      ∷ record { text = "fact"; kind = image_key_fact; element_index = some 0 }
      ∷ []
unfolding flatten
flattened = refl

flatten_lem_example :
    (item_texts (flatten description) ≡ cleaned (texts_of description))
    × All (IsItemOf description) (flatten description)
flatten_lem_example = flatten_lem description

abbrev picture : ImageType → ℕ → AnyChunk
picture image_type id = image_chunk (record {
  document_id = 7;
  chunk_id = id;
  image_type = image_type;
  mime_type = "image/png";
  content = 1 ∷ [];
  metadata = record { page_number = 1; extra = Json.Fields.end };
})

abbrev words : AnyChunk
words = text_chunk (record {
  document_id = 7;
  chunk_id = 1;
  text = "a";
  metadata = record { page_number = 1; extra = Json.Fields.end };
})

abbrev described : Transform
described = record {
  field_name = "description";
  dump_python = λ items. Json.Json.null;
  get_page_description = λ c. some description;
}

abbrev broken : Transform
broken = record described { get_page_description = λ c. none }

abbrev chunks : List AnyChunk
chunks = picture page 1 ∷ words ∷ picture diagram 2 ∷ []

-- The other chunks of a batch come first, also if there is no description.
first_others :
    transform broken (yield_all chunks end) ≡ next words (next (picture diagram 2) raised)
unfolding transform
first_others = refl
