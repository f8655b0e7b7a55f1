-- ===== src/Mcp.antt =====
-- `get_pages` of src/generic_rag/app/mcp.py: the pages of a document as blocks of text and images. A
-- text is the list of its code points.
pub mod Ranges
pub mod Contents
pub mod Loading
pub mod Pages
pub mod Sharing
mod Tests
use ai_dial_generic_rag_back.Prelude.{
  ℕ, zero, suc, ◌+◌, ◌-◌, Bool, true, false, Option, none, some, String, List, [], ◌∷◌, ◌++◌,
  length, concat, map, ltb, ◌==◌, codes, if◌then◌else◌,
}
use ai_dial_generic_rag_back.Prelude.Decimal.{decimal}
use ai_dial_generic_rag_back.Prelude.Results.{
  Result, ok, raise, assertion_failed, value_error, raise_if, ◌>>=◌, ◌>>◌,
}
use ai_dial_generic_rag_back.Types.{
  ChunkType, ImageType, page, table, diagram, AnyChunk, text_chunk, image_chunk,
}
use ai_dial_generic_rag_back.Chunks.{Store}
use ai_dial_generic_rag_back.Chunks.Queries.{get_chunks_by_pages}
use ai_dial_generic_rag_back.Statistics.{add_page}

-- `TextContent` and `ImageContent`; the content of an image is written in base64.
pub data Block : Type 0 where
  text_content : List ℕ → Block
  image_content : (data_ : List ℕ) (mime_type : String) → Block

-- `retrieve_type`
pub data RetrieveType : Type 0 where
  text image both : RetrieveType

abbrev pub chunk_type : RetrieveType → Option ChunkType
chunk_type text = some ChunkType.text
chunk_type image = some ChunkType.image
chunk_type both = none

-- A dictionary of contents by page.
module _ {ℓ} {A : Type ℓ} where
  abbrev pub get : ℕ → List (ℕ × A) → Option A
  get p [] = none
  get p ((q, x) ∷ items) = if q == p then some x else get p items

  abbrev pub set : ℕ → A → List (ℕ × A) → List (ℕ × A)
  set p x [] = (p, x) ∷ []
  set p x ((q, y) ∷ items) =
      let rest = set p x items in if q == p then (q, x) ∷ items else (q, y) ∷ rest

  abbrev pub keys : List (ℕ × A) → List ℕ
  keys = map (λ (item : ℕ × A). item.0)

-- `text_content` and `image_content`.
abbrev pub Contents : Type 0
Contents = List (ℕ × List ℕ) × List (ℕ × Block)

abbrev pub is_page_image : ImageType → Bool
is_page_image page = true
is_page_image table = false
is_page_image diagram = false

-- The text of a page with one more text.
abbrev pub add_text : List ℕ → Option (List ℕ) → List ℕ
add_text new none = new
add_text new (some old) = old ++ (10 ∷ new)

abbrev pub check_range : ℕ → ℕ → ℕ → Result (Unit {0})
check_range limit start end =
    raise_if (ltb end start) value_error >> raise_if (ltb limit (end - start + 1)) value_error

-- `range(first, first + count)`
abbrev pub range_from : ℕ → ℕ → List ℕ
range_from first zero = []
range_from first (suc count) = first ∷ range_from (first + 1) count

-- `sorted(set(numbers))`
unfoldable pub sorted_set : List ℕ → List ℕ
unfolding add_page
sorted_set [] = []
sorted_set (n ∷ ns) = add_page n (sorted_set ns)

module _ (b64encode : List ℕ → List ℕ) where
  -- The body of the loop over the chunks.
  unfoldable pub add_chunk : AnyChunk → Contents → Contents
  add_chunk (text_chunk c) (texts, images) =
      let p = c.metadata.page_number in
      (set p (add_text (codes c.text) (get p texts)) texts, images)
  add_chunk (image_chunk c) (texts, images) =
      let p = c.metadata.page_number in
      if is_page_image c.image_type
      then (texts, set p (image_content (b64encode c.content) c.mime_type) images)
      else (texts, images)

  unfoldable pub collect : List AnyChunk → Contents → Contents
  unfolding add_chunk
  collect [] contents = contents
  collect (c ∷ cs) contents = collect cs (add_chunk c contents)

-- `f"[Document {document_id}, Page {page_idx}]"`
abbrev pub label : ℕ → ℕ → List ℕ
label document p =
    codes "[Document " ++ (decimal document ++ (codes ", Page " ++ (decimal p ++ codes "]")))

abbrev pub text_block : Option (List ℕ) → List Block
text_block none = []
text_block (some t) = text_content t ∷ []

abbrev pub image_block : Option Block → List Block
image_block none = []
image_block (some b) = b ∷ []

-- A round of `_get_pages_content`.
abbrev pub page_content : ℕ → Contents → ℕ → List Block
page_content document (texts, images) p =
    text_content (label document p) ∷ (text_block (get p texts) ++ image_block (get p images))

unfoldable pub get_pages_content : ℕ → Contents → List Block
unfolding sorted_set
get_pages_content document contents =
    concat (map (page_content document contents) (sorted_set (keys contents.0 ++ keys contents.1)))

-- `GET_PAGES_LIMIT` and `base64.b64encode`; a failing assertion of the chunk service is its
-- exception.
module _ (limit : ℕ) (b64encode : List ℕ → List ℕ) (channel : String) (store : Store) where
  unfoldable pub get_pages : (document page_start page_end : ℕ) → RetrieveType → Result (List Block)
  unfolding get_chunks_by_pages collect get_pages_content
  get_pages document page_start page_end retrieve_type = do
    check_range limit page_start page_end
    let doc_pages = map (λ p. (document, p)) (range_from page_start (page_end - page_start + 1))
    elim (get_chunks_by_pages channel store doc_pages (chunk_type retrieve_type)) [
      | none ↦ raise assertion_failed
      | some chunks ↦ ok (get_pages_content document (collect b64encode chunks ([], [])))
    ]
