-- ===== src/Chunks/Pages.antt =====
-- The text chunks of pages.
use ai_dial_generic_rag_back.Prelude.{
  ℕ, Bool, suc, length, sym, ◌∙◌, true, false, ◌≡◌, refl, ap, none, some, String, List, [], ◌∷◌,
  ◌&&◌, ◌||◌, ltb, ◌==◌, keep, All, All-keep-test, arith, Bool-cases, inl, inr, map, str_eq,
}
use ai_dial_generic_rag_back.Prelude.Equality.{nat_key, pair_key, contains}
use ai_dial_generic_rag_back.Prelude.Sorting.{
  IsOrder, IsSorted, All-sorted, sorted-IsSorted, count-sorted,
}
use ai_dial_generic_rag_back.Prelude.Streams.{end, to_list}
use ai_dial_generic_rag_back.Types.{ChunkType, TextChunk, text_chunk}
use ai_dial_generic_rag_back.Types.Chunk
use ai_dial_generic_rag_back.Chunks.{Row, TextColumns, Store, convert_texts, text_of_row}
use ai_dial_generic_rag_back.Chunks.Queries.{
  is_before, order_by_document, is_on, get_chunks_by_pages,
}

-- No row or chunk stands behind one with a greater document or, in the document, a greater id.
abbrev pub NotBefore : List TextChunk → TextChunk → Type 0
NotBefore [] c = Unit
NotBefore (d ∷ ds) c =
    ((ltb d.document_id c.document_id
        || (d.document_id == c.document_id && ltb d.chunk_id c.chunk_id))
      ≡ false)
    × NotBefore ds c

abbrev pub IsOrdered : List TextChunk → Type 0
IsOrdered [] = Unit
IsOrdered (c ∷ cs) = NotBefore cs c × IsOrdered cs

module _ {P : Type 0} where
  is_before-IsOrder : IsOrder (is_before {P = P})
  is_before-IsOrder = record { asym = λ r s h. ground arith; trans = λ r s t h k. ground arith }

-- The chunks of ordered rows on some pages.
abbrev IsLoaded : List (ℕ × ℕ) → List (Row TextColumns) → List TextChunk → Type 0
IsLoaded pages rows cs =
    (to_list (convert_texts rows end) ≡ some (map text_chunk cs))
    × All (λ c. contains pages (Chunk.page_key (text_chunk c)) ≡ true) cs
    × IsOrdered cs

abbrev text_of : List (Row TextColumns) → List TextChunk
text_of = map text_of_row

NotBefore-text_of :
    (r : Row TextColumns) (rows : List (Row TextColumns))
    → All (λ s. is_before s r ≡ false) rows
    → NotBefore (text_of rows) (text_of_row r)
unfolding text_of_row
NotBefore-text_of r [] h = tt
NotBefore-text_of r (s ∷ rows) h = (h.0, NotBefore-text_of r rows h.1)

load_rows :
    (channel : String) (pages : List (ℕ × ℕ)) (rows : List (Row TextColumns))
    → All (λ r. is_on channel (λ c. c.metadata) pages r ≡ true) rows
    → IsSorted is_before rows
    → IsLoaded pages rows (text_of rows)
unfolding convert_texts
load_rows channel pages [] h o = (refl, tt, tt)
load_rows channel pages (r ∷ rows) h o =
    let (e, on, ordered) = load_rows channel pages rows h.1 o.1 in
    (
      ap (λ x. elim x [ none ↦ none | some cs ↦ some (text_chunk (text_of_row r) ∷ cs) ]) e,
      ((unfold text_of_row in ground (arith, h.0)), on),
      (NotBefore-text_of r rows o.0, ordered),
    )

-- A row of the channel on one of the pages whose chunk passes a test.
abbrev pub is_asked : String → List (ℕ × ℕ) → (TextChunk → Bool) → Row TextColumns → Bool
is_asked channel pages test r =
    str_eq r.channel_key channel
    && contains pages (r.document_id, r.columns.metadata.page_number)
    && test (text_of_row r)

count-text_of :
    (test : TextChunk → Bool) (rows : List (Row TextColumns))
    → length (keep test (text_of rows)) ≡ length (keep (λ r. test (text_of_row r)) rows)
count-text_of test [] = refl
count-text_of test (r ∷ rows) = elim (Bool-cases (test (text_of_row r))) [
  | inl e ↦ rw e (ap suc (count-text_of test rows))
  | inr e ↦ rw e (count-text_of test rows)
]

count-is_on :
    (channel : String) (pages : List (ℕ × ℕ)) (test : TextChunk → Bool)
    (rows : List (Row TextColumns))
    → length (keep (λ r. test (text_of_row r)) (keep (is_on channel (λ c. c.metadata) pages) rows))
      ≡ length (keep (is_asked channel pages test) rows)
count-is_on channel pages test [] = refl
count-is_on channel pages test (r ∷ rows) =
    elim (Bool-cases (is_on channel (λ c. c.metadata) pages r)) [
      | inl on ↦ elim (Bool-cases (test (text_of_row r))) [
        | inl e ↦ rw (on, e) (ap suc (count-is_on channel pages test rows))
        | inr e ↦ rw (on, e) (count-is_on channel pages test rows)
      ]
      | inr off ↦ rw off (count-is_on channel pages test rows)
    ]

none_on_no_page :
    (channel : String) (test : TextChunk → Bool) (rows : List (Row TextColumns))
    → length (keep (is_asked channel [] test) rows) ≡ 0
none_on_no_page channel test [] = refl
none_on_no_page channel test (r ∷ rows) = elim (Bool-cases (str_eq r.channel_key channel)) [
  | inl e ↦ rw e (none_on_no_page channel test rows)
  | inr e ↦ rw e (none_on_no_page channel test rows)
]

-- Loading the text chunks of pages never fails: the chunks are exactly those of the rows that are of
-- the channel and on one of the pages asked for (as many of them pass any test), and they come by
-- document, and in a document by their ids.
pub get_chunks_by_pages_lem :
    (channel : String) (store : Store) (pages : List (ℕ × ℕ))
    → (cs : List TextChunk) × (get_chunks_by_pages channel store pages (some ChunkType.text)
        ≡ some (map text_chunk cs))
      × ((test : TextChunk → Bool)
          → length (keep test cs)
            ≡ length (keep (is_asked channel pages test) store.tables.text_chunks))
      × All (λ c. contains pages (Chunk.page_key (text_chunk c)) ≡ true) cs
      × IsOrdered cs
unfolding get_chunks_by_pages
get_chunks_by_pages_lem channel store [] =
    ([], refl, λ test. sym (none_on_no_page channel test store.tables.text_chunks), tt, tt)
get_chunks_by_pages_lem channel store (p ∷ pages) =
    let on = is_on channel (λ c. c.metadata) (p ∷ pages) in
    let rows = keep on store.tables.text_chunks in
    let (e, all_on, ordered) =
      load_rows channel (p ∷ pages) (order_by_document rows)
        (All-sorted is_before (λ r. on r ≡ true) rows (All-keep-test on store.tables.text_chunks))
        (sorted-IsSorted is_before is_before-IsOrder rows) in
    (
      text_of (order_by_document rows),
      e,
      λ test.
          count-text_of test (order_by_document rows)
          ∙ count-sorted is_before (λ r. test (text_of_row r)) rows
          ∙ count-is_on channel (p ∷ pages) test store.tables.text_chunks,
      all_on,
      ordered,
    )
