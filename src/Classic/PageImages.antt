-- ===== src/Classic/PageImages.antt =====
-- Which images the post-processor of the combined results attaches.
use mathlib.Core.Option
use ai_dial_generic_rag_back.Prelude.{
  ℕ, ◌≤◌, ◌≡◌, refl, ap, ◌∙◌, not, some, List, [], arith, map, max, All, length-keep-le,
}
use ai_dial_generic_rag_back.Prelude.Equality.{pair_key, nat_key, contains}
use ai_dial_generic_rag_back.Prelude.Options.{◌>>=◌}
use ai_dial_generic_rag_back.Prelude.Streams.{Stream, end, raised, next}
use ai_dial_generic_rag_back.Types.{RetrievedDocument, RetrievalType}
use ai_dial_generic_rag_back.Classic.{
  PageKey, PageChunks, get_page, attach, collect_pages, pages_of_type, required_pages, index_images,
  aggregate_invoke,
}
use ai_dial_generic_rag_back.Classic.IndexResults.{IsSingle}
use ai_dial_generic_rag_back.Classic.Attaching.{strip, count_attached, IsPlaced, attach_lem}
use ai_dial_generic_rag_back.Classic.Collecting.{
  IsOnPages, length-required_pages, NeverRaises, pages_of_type-NeverRaises, required_pages_total,
  AllKnown-index_images,
}

required_pages-zero : (s : Stream PageKey) → required_pages 0 [] s ≡ required_pages 1 [] s
unfolding required_pages
required_pages-zero end = refl
required_pages-zero raised = refl
required_pages-zero (next key s) = refl

-- The limit 0 behaves as the limit 1: one page image is attached where none was asked for.
pub aggregate_invoke-zero :
    (service : PageChunks) (docs : List RetrievedDocument)
    → aggregate_invoke service 0 docs ≡ aggregate_invoke service 1 docs
unfolding aggregate_invoke
aggregate_invoke-zero service docs =
    ap
      (λ pages. Option.map (λ ps. index_images (service.image_chunks ps) []) pages >>= λ images.
        attach images [] docs)
      (required_pages-zero (collect_pages docs))

module _ (service : PageChunks)
    (on_pages : (pages : List PageKey) → IsOnPages pages (service.image_chunks pages)) where
  -- If the chunk service returns images of the pages it is asked for: for documents of one chunk
  -- each the post-processor does not fail, returns the same documents in the same order, attaches
  -- at most `num` images (one if `num` is 0), and each of them shows the whole page of its chunk.
  pub aggregate_invoke_lem :
      (num : ℕ) (docs : List RetrievedDocument)
      → All IsSingle docs
      → (out : List RetrievedDocument) × (aggregate_invoke service num docs ≡ some out)
        × (map strip out ≡ docs)
        × (count_attached out ≤ max 1 num)
        × All (λ doc. IsPlaced doc.chunks) out
  aggregate_invoke_lem num docs h =
      let quiet =
        pages_of_type-NeverRaises RetrievalType.image docs
          (pages_of_type RetrievalType.text docs end) h
          (pages_of_type-NeverRaises RetrievalType.text docs end h (unfold NeverRaises in tt)) in
      let (pages, r) =
        required_pages_total num [] (collect_pages docs) (unfold collect_pages in quiet) in
      let images = index_images (service.image_chunks pages) [] in
      let known =
        AllKnown-index_images pages (service.image_chunks pages) [] (on_pages pages)
          (λ k i e. unfold get_page in absurd (cc e)) in
      let (out, e, same, few, placed) = attach_lem images pages known [] docs h in
      (
        out,
        unfold aggregate_invoke in
            ap
              (λ ps. Option.map (λ qs. index_images (service.image_chunks qs) []) ps >>= λ im.
                attach im [] docs)
              r
            ∙ e,
        same,
        omega (
          arith,
          length-keep-le (λ k. not (contains [] k)) pages,
          length-required_pages num [] (collect_pages docs) pages (omega arith) r,
        ),
        placed,
      )
