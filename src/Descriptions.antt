-- ===== src/Descriptions.antt =====
-- src/generic_rag/components/transform/page_description.py: the descriptions of page images, from
-- the answer of a vision model to the metadata of the chunks. The model itself is a parameter.
pub mod Cleaning
pub mod Items
pub mod Transforming
mod Tests
use Prim.Native.Char.{Char, code}
use ai_dial_generic_rag_back.Prelude.{
  ℕ, ◌+◌, Bool, true, false, not, ◌&&◌, ◌||◌, Option, none, some, String, str_eq, List, [], ◌∷◌,
  ◌++◌, leb, ◌==◌, keep, map, if◌then◌else◌,
}
use ai_dial_generic_rag_back.Prelude.Options.{◌>>=◌}
use ai_dial_generic_rag_back.Prelude.Streams.{Stream, end, raised, next, yield_all}
use ai_dial_generic_rag_back.Types.{
  ImageType, page, ChunkMetadata, ImageChunk, AnyChunk, text_chunk, image_chunk,
}
use ai_dial_generic_rag_back.Types.Json as Json
use ai_dial_generic_rag_back.Indexing.{batched_async}

pub data DescriptionKind : Type 0 where
  page_summary page_key_fact image_summary image_key_fact table_summary table_key_fact :
      DescriptionKind

pub record DescriptionItem : Type 0 where
  pub text : String
  pub kind : DescriptionKind
  pub element_index : Option ℕ

-- In the three classes of descriptions, `summary` is `image_summary`, `table_summary` and
-- `page_summary`.
pub record ImageDescription : Type 0 where
  pub summary : String
  pub key_fact : String

pub record TableDescription : Type 0 where
  pub summary : String
  pub key_fact : String

pub record PageDescription : Type 0 where
  pub summary : String
  pub key_fact : String
  pub images : List ImageDescription
  pub tables : List TableDescription

-- `str.isspace` of one character.
abbrev pub is_space : ℕ → Bool
is_space n =
    (leb 9 n && leb n 13)
    || (leb 28 n && leb n 32)
    || n == 0x85
    || n == 0xa0
    || n == 0x1680
    || (leb 0x2000 n && leb n 0x200a)
    || n == 0x2028
    || n == 0x2029
    || n == 0x202f
    || n == 0x205f
    || n == 0x3000

-- `text.replace("\n", " ").replace("\r", " ").replace("\u0000", "")`
unfoldable pub replace_breaks : String → String
replace_breaks String.[] = String.[]
replace_breaks (String.◌∷◌ c s) =
    let rest = replace_breaks s in
    if code c == 10 || code c == 13
    then String.◌∷◌ " " rest
    else if code c == 0
    then rest
    else String.◌∷◌ c rest

unfoldable pub lstrip : String → String
lstrip String.[] = String.[]
lstrip (String.◌∷◌ c s) = let rest = lstrip s in if is_space (code c) then rest else String.◌∷◌ c s

-- A character and the stripped rest: a space goes if nothing is left after it.
abbrev pub before_stripped : Char → String → String
before_stripped c String.[] = if is_space (code c) then String.[] else String.◌∷◌ c String.[]
before_stripped c (String.◌∷◌ d s) = String.◌∷◌ c (String.◌∷◌ d s)

unfoldable pub rstrip : String → String
rstrip String.[] = String.[]
rstrip (String.◌∷◌ c s) = before_stripped c (rstrip s)

abbrev pub clean_text : String → String
clean_text s = lstrip (rstrip (replace_breaks s))

abbrev pub is_empty : String → Bool
is_empty String.[] = true
is_empty (String.◌∷◌ c s) = false

-- `_add_to_result`, before what is added later.
unfoldable pub add_to_result :
    String → DescriptionKind → Option ℕ → List DescriptionItem → List DescriptionItem
unfolding replace_breaks lstrip rstrip
add_to_result text kind element_index result =
    if is_empty (clean_text text)
    then result
    else record { text = clean_text text; kind = kind; element_index = element_index } ∷ result

unfoldable pub add_images : ℕ → List ImageDescription → List DescriptionItem → List DescriptionItem
unfolding add_to_result
add_images i [] result = result
add_images i (image ∷ images) result =
    add_to_result image.summary image_summary (some i)
      (add_to_result image.key_fact image_key_fact (some i) (add_images (i + 1) images result))

unfoldable pub add_tables : ℕ → List TableDescription → List DescriptionItem → List DescriptionItem
unfolding add_to_result
add_tables i [] result = result
add_tables i (table ∷ tables) result =
    add_to_result table.summary table_summary (some i)
      (add_to_result table.key_fact table_key_fact (some i) (add_tables (i + 1) tables result))

-- `PageDescription.flatten`
unfoldable pub flatten : PageDescription → List DescriptionItem
unfolding add_images add_tables
flatten d =
    add_to_result d.summary page_summary none (
      add_to_result d.key_fact page_key_fact none
        (add_images 0 d.images (add_tables 0 d.tables [])))

-- `fields | {name: value}`
unfoldable pub set_field : String → Json.Json → Json.Fields → Json.Fields
set_field name v Json.Fields.end = Json.Fields.field name v Json.Fields.end
set_field name v (Json.Fields.field n w fs) =
    let rest = set_field name v fs in
    if str_eq n name then Json.Fields.field n v fs else Json.Fields.field n w rest

abbrev pub is_page_image : AnyChunk → Bool
is_page_image (text_chunk c) = false
is_page_image (image_chunk c) = elim c.image_type [ page ↦ true | _ ↦ false ]

-- What the transform has: the field of its configuration, the JSON of the items, and the answer of
-- the model for a page image, where none is an exception.
pub record Transform : Type 0 where
  pub field_name : String
  pub dump_python : List DescriptionItem → Json.Json
  pub get_page_description : ImageChunk → Option PageDescription

module _ (t : Transform) where
  -- `_create_page_description_task`
  unfoldable pub create_page_description_task : ImageChunk → Option ImageChunk
  unfolding flatten set_field
  create_page_description_task chunk = do
    description ← t.get_page_description chunk
    some (record chunk {
      metadata = record chunk.metadata {
        extra = set_field t.field_name (t.dump_python (flatten description)) chunk.metadata.extra;
      };
    })

  -- The results of the tasks for the page images of a batch.
  unfoldable pub task_results : List AnyChunk → Option (List AnyChunk)
  unfolding create_page_description_task
  task_results [] = some []
  task_results (text_chunk c ∷ chunks) = task_results chunks
  task_results (image_chunk c ∷ chunks) =
      if is_page_image (image_chunk c)
      then (do
        described ← create_page_description_task c
        rest ← task_results chunks
        some (image_chunk described ∷ rest))
      else task_results chunks

  -- The loop over the batches: the other chunks are handed on while the tasks run.
  unfoldable pub transform_batches : Stream (List AnyChunk) → Stream AnyChunk
  unfolding task_results
  transform_batches end = end
  transform_batches raised = raised
  transform_batches (next batch batches) =
      yield_all (keep (λ c. not (is_page_image c)) batch) (elim (task_results batch) [
        | none ↦ raised
        | some results ↦ yield_all results (transform_batches batches)
      ])

  -- `apply`
  unfoldable pub transform : Stream AnyChunk → Stream AnyChunk
  unfolding transform_batches batched_async
  transform chunks = transform_batches (batched_async chunks 10)
