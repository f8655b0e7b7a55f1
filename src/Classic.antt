-- ===== src/Classic.antt =====
-- src/generic_rag/components/retrieval/classic_retriever.py: the two post-processors of the
-- classic retriever. The chunk service is the interface `PageChunks`.
pub mod IndexResults
pub mod Attaching
pub mod Collecting
pub mod PageImages
mod Tests
use ai_dial_generic_rag_back.Prelude.{
  ℕ, ◌+◌, ◌≡◌, Bool, true, false, ◌&&◌, Option, none, some, List, [], ◌∷◌, ◌++◌, leb, length,
  if◌then◌else◌,
}
use ai_dial_generic_rag_back.Prelude.Equality.{Hashable, pair_key, nat_key, contains}
use ai_dial_generic_rag_back.Prelude.Options.{◌>>=◌}
use ai_dial_generic_rag_back.Prelude.Streams.{Stream, end, raised, next, yield_all, to_list}
use ai_dial_generic_rag_back.Types.{
  ChunkType, ImageType, page, table, diagram, TextChunk, ImageChunk, AnyChunk, text_chunk,
  image_chunk, RetrievalType, unknown, RetrievedDocument,
}
use ai_dial_generic_rag_back.Types.Chunk
use mathlib.Core.Option

abbrev pub PageKey : Type 0
PageKey = ℕ × ℕ

abbrev pub key_eq : PageKey → PageKey → Bool
key_eq = pair_key.same

-- `ChunkService.get_chunks_by_pages`, once for each type of chunks.
pub record PageChunks : Type 0 where
  pub text_chunks : List PageKey → List TextChunk
  pub image_chunks : List PageKey → List ImageChunk

-- A dictionary by page.
module _ {ℓ} {V : Type ℓ} where
  -- `d.setdefault(key, []).append(v)`
  pub append_page : PageKey → V → List (PageKey × List V) → List (PageKey × List V)
  append_page key v [] = (key, v ∷ []) ∷ []
  append_page key v ((k, vs) ∷ d) =
      let rest = append_page key v d in
      if key_eq k key then (k, vs ++ v ∷ []) ∷ d else (k, vs) ∷ rest

  pub get_page : PageKey → List (PageKey × V) → Option V
  get_page key [] = none
  get_page key ((k, v) ∷ d) = if key_eq k key then some v else get_page key d

  pub set_page : PageKey → V → List (PageKey × V) → List (PageKey × V)
  set_page key v [] = (key, v) ∷ []
  set_page key v ((k, w) ∷ d) =
      let rest = set_page key v d in if key_eq k key then (k, v) ∷ d else (k, w) ∷ rest

abbrev pub is_page : ImageType → Bool
is_page page = true
is_page table = false
is_page diagram = false

-- The comprehension `doc_pages`, for the chunks of one document and of all.
pub pages_of_chunks : List AnyChunk → List PageKey
pages_of_chunks [] = []
pages_of_chunks (text_chunk c ∷ cs) = pages_of_chunks cs
pages_of_chunks (image_chunk c ∷ cs) =
    let rest = pages_of_chunks cs in
    if is_page c.image_type then (c.document_id, c.metadata.page_number) ∷ rest else rest

pub image_pages : List RetrievedDocument → List PageKey
unfolding pages_of_chunks
image_pages [] = []
image_pages (doc ∷ docs) = pages_of_chunks doc.chunks ++ image_pages docs

pub group_by_page :
    List TextChunk → List (PageKey × List TextChunk) → List (PageKey × List TextChunk)
group_by_page [] result = result
group_by_page (c ∷ cs) result =
    group_by_page cs (append_page (c.document_id, c.metadata.page_number) c result)

pub with_chunk : RetrievedDocument → RetrievalType → TextChunk → RetrievedDocument
with_chunk doc type c = record doc { chunks = text_chunk c ∷ []; retrieval_type = some type }

pub map_chunks : RetrievedDocument → List TextChunk → List RetrievedDocument
map_chunks doc [] = []
map_chunks doc (c ∷ cs) = with_chunk doc RetrievalType.image c ∷ map_chunks doc cs

abbrev pub typed : RetrievedDocument → RetrievalType → RetrievedDocument
typed doc type = record doc { retrieval_type = some type }

-- What the loop body yields for a document, given the text of its page, if collected.
pub expand_chunk : RetrievedDocument → AnyChunk → Option (List TextChunk) → List RetrievedDocument
expand_chunk doc (image_chunk c) (some texts) = map_chunks doc texts
expand_chunk doc (image_chunk c) none = typed doc unknown ∷ []
expand_chunk doc (text_chunk c) found = typed doc RetrievalType.text ∷ []

-- The loop body; `assert len(doc.chunks) == 1`.
pub index_step :
    List (PageKey × List TextChunk)
    → RetrievedDocument
    → List AnyChunk
    → Stream RetrievedDocument
    → Stream RetrievedDocument
index_step by_page doc (c ∷ []) rest =
    yield_all (expand_chunk doc c (get_page (Chunk.page_key c) by_page)) rest
index_step by_page doc _ rest = raised

-- `ClassicIndexResultsPostprocessor._postprocess_results`
pub index_stream :
    List (PageKey × List TextChunk) → List RetrievedDocument → Stream RetrievedDocument
index_stream by_page [] = end
index_stream by_page (doc ∷ docs) = index_step by_page doc doc.chunks (index_stream by_page docs)

-- `ClassicIndexResultsPostprocessor.invoke`: the loop that stops at the limit.
pub collect :
    ℕ → List RetrievedDocument → Stream RetrievedDocument → Option (List RetrievedDocument)
collect limit result end = some result
collect limit result raised = none
collect limit result (next doc s) =
    let result' = result ++ doc ∷ [] in
    let rest = collect limit result' s in if leb limit (length result') then some result' else rest

module _ (service : PageChunks) where
  -- `_collect_text_chunks_of_page_images`
  pub text_by_page : List RetrievedDocument → List (PageKey × List TextChunk)
  text_by_page docs = group_by_page (service.text_chunks (image_pages docs)) []

  unfoldable pub index_invoke : ℕ → List RetrievedDocument → Option (List RetrievedDocument)
  unfolding text_by_page image_pages pages_of_chunks group_by_page append_page get_page index_stream
      index_step expand_chunk map_chunks with_chunk collect
  index_invoke limit docs = collect limit [] (index_stream (text_by_page docs) docs)

abbrev pub has_type : RetrievalType → Option RetrievalType → Bool
has_type RetrievalType.image (some RetrievalType.image) = true
has_type RetrievalType.text (some RetrievalType.text) = true
has_type _ _ = false

-- `doc.chunks[0]`, which raises for no chunks.
pub first_chunk {ℓ} : {A : Type ℓ} → List AnyChunk → (AnyChunk → Stream A) → Stream A
first_chunk [] then_do = raised
first_chunk (c ∷ cs) then_do = then_do c

-- One loop of `_collect_pages`, then the rest.
pub pages_of_type : RetrievalType → List RetrievedDocument → Stream PageKey → Stream PageKey
pages_of_type type [] s = s
pages_of_type type (doc ∷ docs) s = first_chunk doc.chunks λ c.
    let rest = pages_of_type type docs s in
    if has_type type doc.retrieval_type then next (Chunk.page_key c) rest else rest

pub collect_pages : List RetrievedDocument → Stream PageKey
collect_pages docs =
    pages_of_type RetrievalType.image docs (pages_of_type RetrievalType.text docs end)

-- The loop that fills `required_pages`.
pub required_pages : ℕ → List PageKey → Stream PageKey → Option (List PageKey)
required_pages num pages end = some pages
required_pages num pages raised = none
required_pages num pages (next key s) =
    let pages' = if contains pages key then pages else pages ++ key ∷ [] in
    let rest = required_pages num pages' s in if leb num (length pages') then some pages' else rest

pub index_images : List ImageChunk → List (PageKey × ImageChunk) → List (PageKey × ImageChunk)
index_images [] result = result
index_images (c ∷ cs) result = index_images cs (
    if is_page c.image_type
    then set_page (c.document_id, c.metadata.page_number) c result
    else result)

-- `doc.model_copy(update={"chunks": [original_chunk, page_image]})`
abbrev pub with_image : RetrievedDocument → AnyChunk → ImageChunk → RetrievedDocument
with_image doc c image = record doc { chunks = c ∷ image_chunk image ∷ [] }

-- `image_key not in attached_images and image_by_page.get(image_key)`
pub image_for : List (PageKey × ImageChunk) → List PageKey → PageKey → Option ImageChunk
image_for images attached key = if contains attached key then none else get_page key images

-- `assert len(doc.chunks) == 1`
pub only_chunk {ℓ} : {A : Type ℓ} → List AnyChunk → (AnyChunk → Option A) → Option A
only_chunk (c ∷ []) then_do = then_do c
only_chunk _ then_do = none

-- `ClassicAggregatedResultPostprocessor._postprocess_results`: the text of a document with the
-- image of its page, once for each page. The `assert` on `model_extra` always holds.
pub attach :
    List (PageKey × ImageChunk)
    → List PageKey
    → List RetrievedDocument
    → Option (List RetrievedDocument)
attach images attached [] = some []
attach images attached (doc ∷ docs) = only_chunk doc.chunks λ c.
    elim (image_for images attached (Chunk.page_key c)) [
      | none ↦ Option.map (◌∷◌ doc) (attach images attached docs)
      | some image ↦
          Option.map (◌∷◌ (with_image doc c image))
            (attach images (attached ++ Chunk.page_key c ∷ []) docs)
    ]

module _ (service : PageChunks) where
  -- `_get_image_by_page`
  pub image_by_page : ℕ → List RetrievedDocument → Option (List (PageKey × ImageChunk))
  image_by_page num docs =
      Option.map (λ pages. index_images (service.image_chunks pages) [])
        (required_pages num [] (collect_pages docs))

  unfoldable pub aggregate_invoke : ℕ → List RetrievedDocument → Option (List RetrievedDocument)
  unfolding image_by_page image_for only_chunk collect_pages pages_of_type first_chunk
      required_pages index_images set_page attach get_page
  aggregate_invoke num docs = do images ← image_by_page num docs; attach images [] docs
