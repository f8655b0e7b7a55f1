-- ===== src/Mcp/Loading.antt =====
-- The chunks that are loaded for pages stand on these pages.
use ai_dial_generic_rag_back.Prelude.{
  ℕ, ◌≡◌, Bool, true, false, inl, inr, Option-cases, Option, none, some, String, List, [], ◌∷◌, All,
  All-keep-test, arith,
}
use ai_dial_generic_rag_back.Prelude.Equality.{nat_key, pair_key, contains}
use ai_dial_generic_rag_back.Prelude.Streams.{Stream, next, to_list}
use ai_dial_generic_rag_back.Types.{ChunkType, AnyChunk}
use ai_dial_generic_rag_back.Types.Chunk
use ai_dial_generic_rag_back.Chunks.{
  Row, TextColumns, ImageColumns, Files, Store, convert_texts, convert_images, download_file,
}
use ai_dial_generic_rag_back.Chunks.Queries.{
  is_before, is_on, when, wants, get_chunks_by_pages, text_rows_on, image_rows_on,
}
use ai_dial_generic_rag_back.Prelude.Sorting.{All-sorted}

-- The chunks of a result, if there is one.
abbrev pub AllIn : (AnyChunk → Type 0) → Option (List AnyChunk) → Type 0
AllIn P none = Unit
AllIn P (some cs) = All P cs

AllIn-cons :
    (P : AnyChunk → Type 0) (c : AnyChunk) (s : Stream AnyChunk)
    → P c
    → AllIn P (to_list s)
    → AllIn P (to_list (next c s))
AllIn-cons P c s h k = elim (Option-cases (to_list s)) [
  | inl e ↦ rw e tt
  | inr (cs, e) ↦ rw e (h, (rw e at k))
]

module _ (channel : String) (pages : List (ℕ × ℕ)) where
  abbrev pub IsOnPages : AnyChunk → Type 0
  IsOnPages c = contains pages (Chunk.page_key c) ≡ true

  AllIn-convert_images :
      (files : Files) (rows : List (Row ImageColumns))
      → All (λ r. is_on channel (λ c. c.metadata) pages r ≡ true) rows
      → AllIn IsOnPages (to_list (convert_images files rows))
  unfolding convert_images
  AllIn-convert_images files [] h = tt
  AllIn-convert_images files (r ∷ rows) h =
      elim (Option-cases (download_file r.columns.image_url files)) [
        | inl e ↦ rw (e, convert_images) tt
        | inr (content, e) ↦
            rw (e, convert_images)
              (AllIn-cons IsOnPages _ (convert_images files rows) (ground (arith, h.0))
                (AllIn-convert_images files rows h.1))
      ]

  AllIn-convert_texts :
      (rows : List (Row TextColumns)) (s : Stream AnyChunk)
      → All (λ r. is_on channel (λ c. c.metadata) pages r ≡ true) rows
      → AllIn IsOnPages (to_list s)
      → AllIn IsOnPages (to_list (convert_texts rows s))
  unfolding convert_texts
  AllIn-convert_texts [] s h k = k
  AllIn-convert_texts (r ∷ rows) s h k =
      AllIn-cons IsOnPages _ (convert_texts rows s) (ground (arith, h.0))
        (AllIn-convert_texts rows s h.1 k)

  All-when :
      {P : Type 0} (test : Row P → Type 0) (b : Bool) (rows : List (Row P))
      → All test rows
      → All test (when b rows)
  All-when test true rows h = h
  All-when test false rows h = tt

-- Whatever is stored: chunks that are loaded for pages stand on these.
pub AllIn-get_chunks_by_pages :
    (channel : String) (pages : List (ℕ × ℕ)) (store : Store) (type : Option ChunkType)
    → AllIn (IsOnPages channel pages) (get_chunks_by_pages channel store pages type)
unfolding get_chunks_by_pages
AllIn-get_chunks_by_pages channel [] store type = tt
AllIn-get_chunks_by_pages channel (p ∷ pages) store type =
    let all_pages = p ∷ pages in
    AllIn-convert_texts channel all_pages
      (when (wants ChunkType.text type) (text_rows_on channel store all_pages))
      (convert_images store.files
        (when (wants ChunkType.image type) (image_rows_on channel store all_pages)))
      (All-when channel all_pages (λ r. is_on channel (λ c. c.metadata) all_pages r ≡ true)
        (wants ChunkType.text type) (text_rows_on channel store all_pages)
        (All-sorted is_before (λ r. is_on channel (λ c. c.metadata) all_pages r ≡ true) _
          (All-keep-test (is_on channel (λ c. c.metadata) all_pages) store.tables.text_chunks)))
      (AllIn-convert_images channel all_pages store.files
        (when (wants ChunkType.image type) (image_rows_on channel store all_pages))
        (All-when channel all_pages (λ r. is_on channel (λ c. c.metadata) all_pages r ≡ true)
          (wants ChunkType.image type) (image_rows_on channel store all_pages)
          (All-sorted is_before (λ r. is_on channel (λ c. c.metadata) all_pages r ≡ true) _
            (All-keep-test (is_on channel (λ c. c.metadata) all_pages) store.tables.image_chunks))))
