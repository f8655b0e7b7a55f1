-- ===== src/Answers/Dial.antt =====
-- `DialAnswer` of src/generic_rag/utils/answers.py: an answer for the DIAL SDK. What is sent to the
-- user's `Choice` is a list of `Sent`. Parameters: `is_space` is the Unicode property behind
-- `strip`, `thumbnail` is `_create_thumbnail` (PIL), and `uuid4 n` is the hex text of the n-th new
-- id.
use ai_dial_generic_rag_back.Prelude.{
  ℕ, zero, suc, ◌+◌, Bool, true, false, ◌&&◌, Option, none, some, str_eq, List, [], ◌∷◌, ◌++◌,
  length, codes, if◌then◌else◌,
}
use ai_dial_generic_rag_back.Prelude.Equality.{nat_key, pair_key, contains}
use ai_dial_generic_rag_back.Prelude.Decimal.{decimal}
use ai_dial_generic_rag_back.Types.{
  ImageType, page, table, diagram, ImageChunk, AnyChunk, text_chunk, image_chunk, RetrievedDocument,
}
use ai_dial_generic_rag_back.References.{Text}
use ai_dial_generic_rag_back.Answers.{Call, append_content, add_citation}

pub record ChatSettings : Type 0 where
  pub enable_annotations : Bool
  pub enable_thumbnails : Bool

-- `Attachment` of the SDK; its type is always `text/markdown`.
pub record Attachment : Type 0 where
  pub title : Text
  pub data_ : Text
  pub reference_url : Text

-- The annotation of `_create_annotation`; the constants are left out, and `selector` is the page of
-- a `pdf_bbox`, if there is one.
pub record Annotation : Type 0 where
  pub index : ℕ
  pub target : Text
  pub title : Text
  pub quote : Text
  pub source_type : Text
  pub source_url : Text
  pub selector : Option ℕ

pub data Sent : Type 0 where
  content : Text → Sent
  attachment : Attachment → Sent
  annotation : Annotation → Sent

pub record DialAnswer : Type 0 where
  pub choice : List Sent
  pub used_references : List (ℕ × ℕ)
  pub last_citation_id : Option Text
  pub annotations_counter : ℕ
  -- The ids drawn so far.
  pub ids : ℕ

abbrev pub empty_dial : DialAnswer
empty_dial = record {
  choice = [];
  used_references = [];
  last_citation_id = none;
  annotations_counter = 0;
  ids = 0;
}

abbrev pub reference_key : RetrievedDocument → ℕ × ℕ
reference_key doc = (doc.source_id, doc.source_page_number)

-- `keys.index(key)`, for a key that is in the list.
unfoldable pub index_of : List (ℕ × ℕ) → ℕ × ℕ → ℕ
index_of [] key = 0
index_of (k ∷ keys) key =
    let later = index_of keys key in if pair_key.same k key then 0 else suc later

image_name : ImageType → Text
image_name page = codes "page"
image_name table = codes "table"
image_name diagram = codes "diagram"

-- The text that is added for the page of a document, if it is not 0.
if_page : ℕ → Text → Text
if_page zero t = []
if_page (suc n) t = t

image_page : ImageType → ℕ → Text
unfolding if_page
image_page page n = if_page n (codes " #" ++ decimal n)
image_page _ n = if_page n (codes ", page #" ++ decimal n)

image_title : RetrievedDocument → ImageChunk → Text
unfolding image_name image_page
image_title doc chunk =
    codes "Image of "
    ++ image_name chunk.image_type
    ++ image_page chunk.image_type doc.source_page_number

titled : RetrievedDocument → Text
unfolding if_page
titled doc =
    codes doc.source_title
    ++ if_page doc.source_page_number (codes ", page " ++ decimal doc.source_page_number)

-- `data or " "`
or_blank : Text → Text
or_blank [] = b' ' ∷ []
or_blank (c ∷ cs) = c ∷ cs

pdf_page : Bool → ℕ → Option ℕ
pdf_page true (suc n) = some (suc n)
pdf_page _ _ = none

module _ (is_space : ℕ → Bool) (thumbnail : ImageChunk → Text) (uuid4 : ℕ → Text) where
  -- `content.strip()` is empty.
  abbrev pub is_blank : Text → Bool
  is_blank [] = true
  is_blank (c ∷ cs) = is_space c && is_blank cs

  rstrip : Text → Text
  rstrip [] = []
  rstrip (c ∷ cs) = let rest = rstrip cs in if is_blank (c ∷ cs) then [] else c ∷ rest

  quote_chunks : RetrievedDocument → Bool → List AnyChunk → Text
  unfolding image_title
  quote_chunks doc thumbnails [] = []
  quote_chunks doc thumbnails (text_chunk c ∷ cs) =
      codes c.text ++ codes "\n\n" ++ quote_chunks doc thumbnails cs
  quote_chunks doc false (image_chunk c ∷ cs) = quote_chunks doc false cs
  quote_chunks doc true (image_chunk c ∷ cs) =
      codes "!["
      ++ image_title doc c
      ++ codes "]("
      ++ thumbnail c
      ++ codes " \""
      ++ image_title doc c
      ++ codes "\")\n\n"
      ++ quote_chunks doc true cs

  pub create_document_quote : RetrievedDocument → Bool → Text
  unfolding rstrip quote_chunks
  create_document_quote doc thumbnails = rstrip (quote_chunks doc thumbnails doc.chunks)

  pub create_attachment : RetrievedDocument → ℕ → Bool → Attachment
  unfolding create_document_quote titled if_page or_blank
  create_attachment doc citation_index thumbnails = record {
    title = codes "[" ++ decimal citation_index ++ codes "] " ++ titled doc;
    data_ = or_blank (create_document_quote doc thumbnails);
    reference_url =
        codes doc.source_url
        ++ if_page doc.source_page_number (codes "#page=" ++ decimal doc.source_page_number);
  }

  pub create_annotation : RetrievedDocument → ℕ → Text → Annotation
  unfolding create_document_quote titled pdf_page
  create_annotation doc index citation_id = record {
    index = index;
    target = citation_id;
    title = titled doc;
    quote = create_document_quote doc false;
    source_type = codes doc.source_mime_type;
    source_url = codes doc.source_url;
    selector = pdf_page (str_eq doc.source_mime_type "application/pdf") doc.source_page_number;
  }

  -- `f'<{CITATION_TAG} data-id="{...}"></{CITATION_TAG}>'`
  abbrev pub citation_tag : Text → Text
  citation_tag id = codes "<cit data-id=\"" ++ id ++ codes "\"></cit>"

  abbrev pub send : DialAnswer → Sent → DialAnswer
  send answer s = record answer { choice = answer.choice ++ s ∷ [] }

  -- `DialAnswer.append_content`
  unfoldable pub dial_append_content : DialAnswer → Text → DialAnswer
  dial_append_content answer t =
      let sent = send answer (content t) in
      if is_blank t then sent else record sent { last_citation_id = none }

  -- The annotation, with the id of the last citation.
  annotate : DialAnswer → RetrievedDocument → Text → DialAnswer
  unfolding create_annotation
  annotate answer doc id =
      let sent = send answer (annotation (create_annotation doc answer.annotations_counter id)) in
      record sent { annotations_counter = answer.annotations_counter + 1 }

  new_citation : DialAnswer → Text → DialAnswer
  new_citation answer id =
      let sent = send answer (content (citation_tag id)) in
      record sent { last_citation_id = some id; ids = answer.ids + 1 }

  unfoldable pub cite_as_annotation : DialAnswer → RetrievedDocument → DialAnswer
  unfolding annotate new_citation
  cite_as_annotation answer doc = elim answer.last_citation_id [
    | some id ↦ annotate answer doc id
    | none ↦ annotate (new_citation answer (uuid4 answer.ids)) doc (uuid4 answer.ids)
  ]

  -- `f" [{reference_index}]"`
  abbrev pub reference_text : ℕ → Text
  reference_text n = codes " [" ++ decimal n ++ codes "]"

  new_reference : ChatSettings → DialAnswer → RetrievedDocument → DialAnswer
  unfolding create_attachment
  new_reference settings answer doc =
      let used = answer.used_references ++ reference_key doc ∷ [] in
      let made = create_attachment doc (length used) settings.enable_thumbnails in
      let sent = send (send answer (attachment made)) (content (reference_text (length used))) in
      record sent { used_references = used }

  unfoldable pub cite_as_attachment : ChatSettings → DialAnswer → RetrievedDocument → DialAnswer
  unfolding new_reference index_of
  cite_as_attachment settings answer doc =
      let key = reference_key doc in
      if contains answer.used_references key
      then send answer (content (reference_text (index_of answer.used_references key + 1)))
      else new_reference settings answer doc

  unfoldable pub dial_call : ChatSettings → DialAnswer → Call → DialAnswer
  unfolding cite_as_annotation cite_as_attachment dial_append_content
  dial_call settings answer (append_content t) = dial_append_content answer t
  dial_call settings answer (add_citation doc) =
      if settings.enable_annotations
      then cite_as_annotation answer doc
      else cite_as_attachment settings answer doc

  unfoldable pub dial_calls : ChatSettings → DialAnswer → List Call → DialAnswer
  unfolding dial_call
  dial_calls settings answer [] = answer
  dial_calls settings answer (call ∷ calls) =
      dial_calls settings (dial_call settings answer call) calls
