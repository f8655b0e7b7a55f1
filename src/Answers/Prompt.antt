-- ===== src/Answers/Prompt.antt =====
-- `DefaultChatPromptChain` of src/generic_rag/components/generation/default.py, and `get_prompt` of
-- src/generic_rag/components/generation/prompts.py: the messages that the model is sent. The texts
-- of the prompt's sections, today's date, data URIs and `str` of a metadata value are parameters.
use ai_dial_generic_rag_back.Prelude.{
  ℕ, suc, Bool, true, false, not, Option, none, some, String, List, [], ◌∷◌, ◌++◌, map, keep, codes,
  ◌==◌, if◌then◌else◌,
}
use ai_dial_generic_rag_back.Prelude.Decimal.{decimal}
use ai_dial_generic_rag_back.Types.{
  AnyChunk, text_chunk, image_chunk, ImageChunk, RetrievedDocument,
}
use ai_dial_generic_rag_back.Types.Json.{Json, object, Fields, end, field, lookup}
use ai_dial_generic_rag_back.References.{Text}
use ai_dial_generic_rag_back.Documents.Upload.{rstrip}

-- `_text_element` and `_image_element`
pub data Element : Type 0 where
  text_element image_element : Text → Element

-- `str.join`
abbrev pub join_texts : Text → List Text → Text
join_texts separator [] = []
join_texts separator (t ∷ []) = t
join_texts separator (t ∷ u ∷ ts) = t ++ separator ++ join_texts separator (u ∷ ts)

-- `f"{key}='{value}'"`
abbrev pub attribute : Text → Text → Text
attribute key value = key ++ codes "='" ++ value ++ codes "'"

abbrev pub chunk_texts : List AnyChunk → Text
chunk_texts [] = []
chunk_texts (text_chunk c ∷ cs) = codes "\n" ++ codes c.text ++ chunk_texts cs
chunk_texts (image_chunk c ∷ cs) = chunk_texts cs

module _ (data_uri : ImageChunk → Text) (str : Json → Text) where
  abbrev pub chunk_images : List AnyChunk → List Element
  chunk_images [] = []
  chunk_images (text_chunk c ∷ cs) = chunk_images cs
  chunk_images (image_chunk c ∷ cs) = image_element (data_uri c) ∷ chunk_images cs

  -- `str(doc.source_metadata.get(name, ""))`
  abbrev pub metadata_text : RetrievedDocument → String → Text
  metadata_text doc name = elim (lookup name doc.source_metadata) [ none ↦ [] | some v ↦ str v ]

  abbrev pub format_attributes : ℕ → RetrievedDocument → List String → Text
  format_attributes i doc source_attributes = join_texts (codes " ") (
      attribute (codes "id") (decimal i)
      ∷ attribute (codes "document") (codes doc.source_title)
      ∷ attribute (codes "page_number") (decimal doc.source_page_number)
      ∷ map (λ name. attribute (codes name) (metadata_text doc name)) source_attributes)

  abbrev pub document_text : ℕ → RetrievedDocument → List String → Text
  document_text i doc source_attributes =
      codes "<doc "
      ++ format_attributes i doc source_attributes
      ++ codes ">"
      ++ chunk_texts doc.chunks
      ++ codes "\n"

  -- The documents, numbered from `i` on.
  unfoldable pub document_elements : List String → ℕ → List RetrievedDocument → List Element
  document_elements source_attributes i [] = []
  document_elements source_attributes i (doc ∷ docs) =
      text_element (document_text i doc source_attributes) ∷ chunk_images doc.chunks
      ++ text_element (codes "</doc>\n") ∷ document_elements source_attributes (suc i) docs

  abbrev pub get_context_elements : List String → List RetrievedDocument → List Element
  get_context_elements source_attributes found_items =
      text_element (codes "<context>") ∷ document_elements source_attributes 1 found_items
      ++ text_element (codes "</context>") ∷ []

-- `GenerationPromptBase`, by its class attributes.
pub record GenerationPrompt : Type 0 where
  pub system_prompt_header : Text
  pub completeness_instructions : Text
  pub formatting_instructions : Text
  pub citation_instructions : Text

abbrev pub is_line_feed : ℕ → Bool
is_line_feed c = c == 10

-- `"\n- " + val.replace("\n", " ")`
abbrev pub note_line : Text → Text
note_line val = codes "\n- " ++ map (λ c. if is_line_feed c then 32 else c) val

abbrev pub is_filled : Text → Bool
is_filled [] = false
is_filled (c ∷ cs) = true

-- `val.strip()` is not empty.
abbrev pub has_text : (ℕ → Bool) → Text → Bool
has_text is_space val = is_filled (keep (λ c. not (is_space c)) val)

module _ (is_space : ℕ → Bool) (prompt : GenerationPrompt) where
  abbrev pub prompt_header : List Text → Text
  prompt_header [] = prompt.system_prompt_header
  prompt_header (note ∷ notes) =
      rstrip is_line_feed prompt.system_prompt_header
      ++ join_texts (codes "\n") (map note_line (keep (has_text is_space) (note ∷ notes)))
      ++ codes "\n"

  abbrev pub get_prompt : List Text → Text
  get_prompt extra_llm_notes = join_texts (codes "\n") (
      keep is_filled (
        prompt_header extra_llm_notes
        ∷ prompt.completeness_instructions
        ∷ prompt.formatting_instructions
        ∷ prompt.citation_instructions
        ∷ []))

  -- `key in document_metadata_schema.get("properties", {})`, where these are an object.
  abbrev pub is_among : Option Json → String → Bool
  is_among (some (object properties)) key = elim (lookup key properties) [
    | none ↦ false
    | some v ↦ true
  ]
  is_among _ key = false

  -- The system prompt and the source attributes, without an override.
  abbrev pub described_prompt : List (String × Text) → Fields → Text × List String
  described_prompt [] schema = (get_prompt [], [])
  described_prompt (i ∷ instructions) end = (get_prompt [], [])
  described_prompt (i ∷ instructions) (field n v fs) =
      let known =
        keep (λ (p : String × Text). is_among (lookup "properties" (field n v fs)) p.0)
          (i ∷ instructions) in
      (get_prompt (map (λ p. p.1) known), map (λ p. p.0) known)

  -- `DefaultChatPromptChain.__init__`
  abbrev pub system_prompt : Option Text → List (String × Text) → Fields → Text × List String
  system_prompt (some (c ∷ cs)) instructions schema = (c ∷ cs, [])
  system_prompt (some []) instructions schema = described_prompt instructions schema
  system_prompt none instructions schema = described_prompt instructions schema

-- `ainvoke`: the system message and the human message, for a date that the request has set or
-- today's.
abbrev pub ainvoke :
    (ImageChunk → Text)
    → (Json → Text)
    → Text × List String
    → (date query : Text) → List RetrievedDocument
    → Text × List Element
ainvoke data_uri str (system, source_attributes) date query found_items = (
  system,
  text_element (codes "<current_date>" ++ date ++ codes "</current_date>")
      ∷ text_element (codes "<query>" ++ query ++ codes "</query>")
      ∷ get_context_elements data_uri str source_attributes found_items,
)
