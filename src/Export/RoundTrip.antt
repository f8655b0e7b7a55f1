-- ===== src/Export/RoundTrip.antt =====
-- A bundle that was exported is imported as it is.
use ai_dial_generic_rag_back.Prelude.{
  ℕ, ◌+◌, ◌≡◌, refl, sym, ap, ap₂, ◌∙◌, true, String, List, [], ◌∷◌, ◌++◌, map, All,
}
use ai_dial_generic_rag_back.Prelude.Equality.{string_key}
use ai_dial_generic_rag_back.Prelude.Streams.{end, yield_all}
use ai_dial_generic_rag_back.Types.{AnyChunk, text_chunk, image_chunk, TextChunk, ImageChunk}
use ai_dial_generic_rag_back.Chunks.{Store, get_chunks_by_document}
use ai_dial_generic_rag_back.Indexing.Extraction.{numbered, texts, images, IsFrom}
use ai_dial_generic_rag_back.Indexing.RoundTrip.{get_chunks-add_numbered}
use ai_dial_generic_rag_back.Documents.Upload.{Setup}
use ai_dial_generic_rag_back.Export.{DocumentRecord, with_document, import_chunks}

-- Ids that count on behind `n`.
abbrev pub FollowTexts : ℕ → List TextChunk → Type 0
FollowTexts n [] = Unit
FollowTexts n (c ∷ cs) = (c.chunk_id ≡ n + 1) × FollowTexts (n + 1) cs

abbrev pub FollowImages : ℕ → List ImageChunk → Type 0
FollowImages n [] = Unit
FollowImages n (c ∷ cs) = (c.chunk_id ≡ n + 1) × FollowImages (n + 1) cs

abbrev moved_texts : ℕ → List TextChunk → List TextChunk
moved_texts id = map (λ (c : TextChunk). record c { document_id = id })

abbrev moved_images : ℕ → List ImageChunk → List ImageChunk
moved_images id = map (λ (c : ImageChunk). record c { document_id = id })

-- The chunks of an export, under another id.
abbrev pub moved : ℕ → List TextChunk → List ImageChunk → List AnyChunk
moved id ts is = map (with_document id) (map text_chunk ts ++ map image_chunk is)

module _ (id : ℕ) where
  numbered_images :
      (t n : ℕ) (is : List ImageChunk)
      → FollowImages n is
      → numbered t n (moved id [] is) ≡ moved id [] is
  numbered_images t n [] h = refl
  numbered_images t n (c ∷ is) h =
      ap₂ ◌∷◌ (ap (λ k. image_chunk (record c { document_id = id; chunk_id = k })) (sym h.0))
        (numbered_images t (n + 1) is h.1)

  numbered-moved :
      (t : ℕ) (ts : List TextChunk) (is : List ImageChunk)
      → FollowTexts t ts
      → FollowImages 0 is
      → numbered t 0 (moved id ts is) ≡ moved id ts is
  numbered-moved t [] is h k = numbered_images t 0 is k
  numbered-moved t (c ∷ ts) is h k =
      ap₂ ◌∷◌ (ap (λ n. text_chunk (record c { document_id = id; chunk_id = n })) (sym h.0))
        (numbered-moved (t + 1) ts is h.1 k)

  module _ (channel : String) (image_url : ImageChunk → String) where
    moved-IsFrom :
        (ts : List TextChunk) (is : List ImageChunk)
        → All (IsFrom channel image_url id) (moved id ts is)
    moved-IsFrom [] [] = tt
    moved-IsFrom [] (c ∷ is) = (refl, moved-IsFrom [] is)
    moved-IsFrom (c ∷ ts) is = (refl, moved-IsFrom ts is)

    no_texts : (is : List ImageChunk) → texts channel image_url id (moved id [] is) ≡ []
    no_texts [] = refl
    no_texts (c ∷ is) = no_texts is

    all_images :
        (is : List ImageChunk)
        → map image_chunk (images channel image_url id (moved id [] is)) ≡ moved id [] is
    all_images [] = refl
    all_images (c ∷ is) = ap (◌∷◌ (image_chunk (record c { document_id = id }))) (all_images is)

    in_order :
        (ts : List TextChunk) (is : List ImageChunk)
        → map text_chunk (texts channel image_url id (moved id ts is))
            ++ map image_chunk (images channel image_url id (moved id ts is))
          ≡ moved id ts is
    in_order [] is = ap₂ ◌++◌ (ap (map text_chunk) (no_texts is)) (all_images is)
    in_order (c ∷ ts) is = ap (◌∷◌ (text_chunk (record c { document_id = id }))) (in_order ts is)

-- If equal URLs are those of images with equal content: a bundle of text chunks and, behind them,
-- images, both numbered from 1 in order, is imported without a failure, whatever chunks the
-- document had, and then its chunks load as those of the bundle under the id of the document.
pub import_chunks_lem :
    {V : Type 0} (setup : Setup) (channel : String) (image_url : ImageChunk → String)
    (names : List String) (batch_size : ℕ) (r : DocumentRecord V) (id : ℕ) (store : Store)
    (ts : List TextChunk) (is : List ImageChunk)
    → ((a b : ImageChunk) → image_url a ≡ image_url b → a.content ≡ b.content)
    → r.chunks ≡ map text_chunk ts ++ map image_chunk is
    → FollowTexts 0 ts
    → FollowImages 0 is
    → let imported = import_chunks setup channel image_url names batch_size r id store in
      (imported.1 ≡ true)
      × (get_chunks_by_document channel image_url imported.0 id ≡ yield_all (moved id ts is) end)
unfolding import_chunks
import_chunks_lem setup channel image_url names batch_size r id store ts is same_content form follow
      follow' =
    let done =
      get_chunks-add_numbered channel image_url same_content id store batch_size (moved id ts is)
        (numbered-moved id 0 ts is follow follow') (moved-IsFrom id channel image_url ts is) in
    rw form (done.0, done.1 ∙ ap (λ cs. yield_all cs end) (in_order id channel image_url ts is))
