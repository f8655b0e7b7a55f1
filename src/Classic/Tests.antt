-- ===== src/Classic/Tests.antt =====
-- Runs of the classic retriever's post-processors, and their theorems at examples.
use ai_dial_generic_rag_back.Prelude.{
  ℕ, ◌≤◌, ◌≡◌, refl, some, none, List, [], ◌∷◌, ◌++◌, arith, map, max, take, concat, keep, All,
}
use ai_dial_generic_rag_back.Prelude.Equality.{pair_key, nat_key, contains}
use ai_dial_generic_rag_back.Types.{
  ImageType, page, diagram, ChunkMetadata, TextChunk, ImageChunk, AnyChunk, text_chunk, image_chunk,
  RetrievalType, RetrievedDocument,
}
use ai_dial_generic_rag_back.Types.Json.{end}
use ai_dial_generic_rag_back.Types.Chunk
use ai_dial_generic_rag_back.Classic.{
  PageKey, PageChunks, image_pages, map_chunks, index_invoke, aggregate_invoke,
}
use ai_dial_generic_rag_back.Classic.IndexResults.{expansion, index_invoke_lem, index_invoke_part}
use ai_dial_generic_rag_back.Classic.Attaching.{strip, count_attached, IsPlaced}
use ai_dial_generic_rag_back.Classic.Collecting.{IsOnPages}
use ai_dial_generic_rag_back.Classic.PageImages.{aggregate_invoke_lem, aggregate_invoke-zero}

abbrev meta : ℕ → ChunkMetadata
meta n = record { page_number = n; extra = end }

abbrev words : ℕ → ℕ → TextChunk
words p id = record { document_id = 1; chunk_id = id; text = "words"; metadata = meta p }

abbrev picture : ImageType → ℕ → ImageChunk
picture type p = record {
  document_id = 1;
  chunk_id = p;
  image_type = type;
  mime_type = "image/png";
  content = [];
  metadata = meta p;
}

abbrev result : AnyChunk → RetrievedDocument
result c = record {
  chunks = c ∷ [];
  source_id = 1;
  source_url = "files/b/d";
  source_mime_type = "application/pdf";
  source_name = "d";
  source_page_number = Chunk.page_number c;
  source_title = "d";
  source_metadata = end;
  retrieval_type = none;
}

-- Page 1 has two text chunks, page 2 none; each page has an image.
abbrev on_first : List PageKey → List TextChunk
on_first pages =
    keep (λ c. contains pages (c.document_id, c.metadata.page_number)) (words 1 1 ∷ words 1 2 ∷ [])

abbrev images : List PageKey → List ImageChunk
images pages =
    keep (λ c. contains pages (c.document_id, c.metadata.page_number))
      (picture page 1 ∷ picture page 2 ∷ [])

abbrev service : PageChunks
service = record { text_chunks = on_first; image_chunks = images }

abbrev found : List RetrievedDocument
found = result (image_chunk (picture page 1)) ∷ result (image_chunk (picture diagram 1)) ∷ []

expands :
    index_invoke service 3 found
    ≡ some (
        map_chunks (result (image_chunk (picture page 1))) (words 1 1 ∷ words 1 2 ∷ [])
        ++ map_chunks (result (image_chunk (picture diagram 1))) (words 1 1 ∷ []))
unfolding index_invoke
expands = refl

index_invoke_lem_example :
    index_invoke service 3 found
    ≡ some (
        take (max 1 3) (
          concat (
            map (λ doc. expansion (service.text_chunks (image_pages found)) doc doc.chunks) found)))
index_invoke_lem_example =
    index_invoke_lem service 3 found
      ((image_chunk (picture page 1), refl), ((image_chunk (picture diagram 1), refl), tt))

two_images :
    index_invoke service 4 found
    ≡ some (
        map_chunks (result (image_chunk (picture page 1))) (words 1 1 ∷ words 1 2 ∷ [])
        ++ map_chunks (result (image_chunk (picture diagram 1))) (words 1 1 ∷ words 1 2 ∷ []))
unfolding image_pages
two_images =
    index_invoke_part service 4 (result (image_chunk (picture page 1)))
      (result (image_chunk (picture diagram 1))) (picture page 1) (picture diagram 1) refl refl refl
      (words 1 1) (words 1 2 ∷ []) refl (omega arith)

abbrev combined : List RetrievedDocument
combined =
    record (result (text_chunk (words 1 1))) { retrieval_type = some RetrievalType.text }
    ∷ record (result (text_chunk (words 1 2))) { retrieval_type = some RetrievalType.image }
    ∷ record (result (text_chunk (words 2 3))) { retrieval_type = some RetrievalType.text }
    ∷ []

images-IsOnPages : (pages : List PageKey) → IsOnPages pages (images pages)
images-IsOnPages pages = ground arith

aggregate_invoke_lem_example :
    (out : List RetrievedDocument) × (aggregate_invoke service 1 combined ≡ some out)
    × (map strip out ≡ combined)
    × (count_attached out ≤ max 1 1)
    × All (λ doc. IsPlaced doc.chunks) out
aggregate_invoke_lem_example = aggregate_invoke_lem service images-IsOnPages 1 combined (
  (text_chunk (words 1 1), refl),
  ((text_chunk (words 1 2), refl), ((text_chunk (words 2 3), refl), tt)),
)

zero_limit : aggregate_invoke service 0 combined ≡ aggregate_invoke service 1 combined
zero_limit = aggregate_invoke-zero service combined
