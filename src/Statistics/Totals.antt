-- ===== src/Statistics/Totals.antt =====
-- The statistics of a document are exact.
use ai_dial_generic_rag_back.Prelude.{
  false, true, inl, inr, Bool-cases, sym, ◌||◌, ℕ, ◌+◌, ◌≡◌, refl, ap, ◌∙◌, fun_ext, Bool, List, [],
  ◌∷◌, length, keep, map, All, arith, ◌==◌,
}
use ai_dial_generic_rag_back.Prelude.Equality.{nat_key}
use ai_dial_generic_rag_back.Prelude.Results.{Result, ok, raise, validation_failed}
use ai_dial_generic_rag_back.Prelude.Equality.{nat_key, contains}
use ai_dial_generic_rag_back.Documents.{DocumentEntity}
use ai_dial_generic_rag_back.Statistics.{
  ChunkRow, ChunkFact, DocumentChunkStats, with_page, count_by_page, PageChunkStats, sum_of,
  group_chunks, page_numbers, page_stats, pages_of, document_stats,
}
use ai_dial_generic_rag_back.Statistics.Pages.{IsAscending}
use ai_dial_generic_rag_back.Statistics.Counting.{
  on_page, get_counts_lem, any_on_page, contains-pages, IsAscending-page_numbers, sum_over_pages,
  Covered, All-Covered, All-has_page, Covered-page_numbers, keep-Covered,
}

pub sum_of-map {ℓ κ} :
    {A : Type ℓ} {B : Type κ} (f : B → ℕ) (g : A → B) (xs : List A)
    → sum_of f (map g xs) ≡ sum_of (λ x. f (g x)) xs
sum_of-map f g [] = refl
sum_of-map f g (x ∷ xs) = ap (λ n. f (g x) + n) (sum_of-map f g xs)

length_as_sum {ℓ} : {A : Type ℓ} (xs : List A) → sum_of (λ x. 1) xs ≡ length xs
length_as_sum [] = refl
length_as_sum (x ∷ xs) = omega (arith, length_as_sum xs)

abbrev pub of_document : ℕ → List ChunkFact → List ChunkFact
of_document document = keep (λ c. c.document_id == document)

-- A chunk of the document is on page 0.
abbrev pub any_on_zero : ℕ → List ChunkFact → List ChunkFact → Bool
any_on_zero document texts images = any_on_page document 0 texts || any_on_page document 0 images

-- The report fails on account of a page 0, or has the numbers of the chunks.
abbrev pub IsReport :
    DocumentEntity → List ChunkFact → List ChunkFact → Result DocumentChunkStats → Type 0
IsReport e texts images (raise error) =
    (error ≡ validation_failed) × (any_on_zero e.document_id texts images ≡ true)
IsReport e texts images (ok stats) =
    (any_on_zero e.document_id texts images ≡ false)
    × (stats.text_chunks ≡ length (of_document e.document_id texts))
    × (stats.image_chunks ≡ length (of_document e.document_id images))
    × (stats.text_characters
        ≡ sum_of (λ (c : ChunkFact). c.characters) (of_document e.document_id texts))

module _ (texts images : List ChunkFact) (e : DocumentEntity) where
  abbrev shown : List ℕ
  shown =
      page_numbers e.document_id (group_chunks texts)
        (page_numbers e.document_id (group_chunks images) [])

  ascending : IsAscending shown
  ascending =
      IsAscending-page_numbers e.document_id (group_chunks texts)
        (page_numbers e.document_id (group_chunks images) [])
        (IsAscending-page_numbers e.document_id (group_chunks images) [] tt)

  texts-Covered : All (Covered e.document_id shown) texts
  texts-Covered =
      All-Covered e.document_id texts texts (page_numbers e.document_id (group_chunks images) [])
        (All-has_page e.document_id texts)

  images-Covered : All (Covered e.document_id shown) images
  images-Covered =
      Covered-page_numbers e.document_id (group_chunks texts)
        (page_numbers e.document_id (group_chunks images) []) images
        (All-Covered e.document_id images images [] (All-has_page e.document_id images))

  -- Sums over the pages of a report.
  total :
      (weight : ChunkFact → ℕ) (cs : List ChunkFact) (field_ : PageChunkStats → ℕ)
      → ((page : ℕ)
          → field_ (page_stats (group_chunks texts) (group_chunks images) e.document_id page)
            ≡ sum_of weight (on_page e.document_id page cs))
      → All (Covered e.document_id shown) cs
      → sum_of field_ (pages_of (group_chunks texts) (group_chunks images) e.document_id)
        ≡ sum_of weight (of_document e.document_id cs)
  total weight cs field_ counts covered =
      sum_of-map field_ (page_stats (group_chunks texts) (group_chunks images) e.document_id) shown
      ∙ ap (λ (f : ℕ → ℕ). sum_of f shown) (fun_ext counts)
      ∙ sum_over_pages e.document_id weight shown cs ascending
      ∙ ap (sum_of weight) (keep-Covered e.document_id shown cs covered)

  numbers_of_pages :
      (qs : List ℕ)
      → map
          (λ (p : PageChunkStats). p.page_number)
          (map (page_stats (group_chunks texts) (group_chunks images) e.document_id) qs)
        ≡ qs
  numbers_of_pages [] = refl
  numbers_of_pages (q ∷ qs) = ap (◌∷◌ q) (numbers_of_pages qs)

  grouped_lem :
      (include_pages : Bool)
      → IsReport e texts images
          (document_stats (group_chunks texts) (group_chunks images) include_pages e)
  unfolding document_stats
  grouped_lem include_pages =
      let zero_ = contains-pages e.document_id 0 texts images in
      elim (Bool-cases (contains shown 0)) [
        | inl bad ↦ rw bad (refl, sym zero_ ∙ bad)
        | inr good ↦ rw good (
          sym zero_ ∙ good,
          total (λ c. 1) texts (λ p. p.text_chunks)
                (λ page. ap (λ (n : ℕ × ℕ). n.0) (get_counts_lem e.document_id page texts))
                texts-Covered
              ∙ length_as_sum (of_document e.document_id texts),
          total (λ c. 1) images (λ p. p.image_chunks)
                (λ page. ap (λ (n : ℕ × ℕ). n.0) (get_counts_lem e.document_id page images))
                images-Covered
              ∙ length_as_sum (of_document e.document_id images),
          total (λ c. c.characters) texts (λ p. p.text_characters)
              (λ page. ap (λ (n : ℕ × ℕ). n.1) (get_counts_lem e.document_id page texts))
              texts-Covered,
        )
      ]

-- For all chunks that the queries read: the report on a document fails exactly if a chunk of it is on
-- page 0; otherwise the numbers reported are those of its text chunks and its image chunks that
-- have a page, and of all characters of these text chunks; and the pages that it is made of are in
-- ascending order, each once.
pub document_stats_lem :
    (texts images : List ChunkRow) (e : DocumentEntity) (include_pages : Bool)
    → IsReport e
        (with_page texts)
        (with_page images)
        (document_stats (count_by_page texts) (count_by_page images) include_pages e)
      × IsAscending (
          map
            (λ (p : PageChunkStats). p.page_number)
            (pages_of (count_by_page texts) (count_by_page images) e.document_id))
unfolding count_by_page
document_stats_lem texts images e include_pages = (
  grouped_lem (with_page texts) (with_page images) e include_pages,
  rw
      (numbers_of_pages (with_page texts) (with_page images) e
        (shown (with_page texts) (with_page images) e))
      (ascending (with_page texts) (with_page images) e),
)
