-- ===== src/Classic/Attaching.antt =====
-- The loop that attaches the images of the pages.
use ai_dial_generic_rag_back.Prelude.{
  ℕ, ◌+◌, ◌-◌, ◌≤◌, ◌<◌, ◌≡◌, refl, ap, ap₂, sym, ◌∙◌, true, false, not, Option, none, some, List,
  [], ◌∷◌, ◌++◌, arith, length, take, keep, map, All, inl, inr, Option-cases,
}
use ai_dial_generic_rag_back.Prelude.Equality.{pair_key, nat_key, contains, contains-append}
use ai_dial_generic_rag_back.Types.{ImageChunk, AnyChunk, image_chunk, RetrievedDocument}
use ai_dial_generic_rag_back.Types.Chunk
use ai_dial_generic_rag_back.Classic.{
  PageKey, get_page, is_page, with_image, image_for, only_chunk, attach,
}
use ai_dial_generic_rag_back.Classic.IndexResults.{IsSingle}

-- A document without the image that was attached to it.
abbrev pub strip : RetrievedDocument → RetrievedDocument
strip doc = record doc { chunks = take 1 doc.chunks }

-- The documents that an image was attached to.
abbrev pub count_attached : List RetrievedDocument → ℕ
count_attached [] = 0
count_attached (doc ∷ docs) = (length doc.chunks - 1) + count_attached docs

-- Pages that have no image yet.
abbrev pub open_pages : List PageKey → List PageKey → List PageKey
open_pages attached = keep (λ k. not (contains attached k))

open_pages-le :
    (attached : List PageKey) (key : PageKey) (pages : List PageKey)
    → length (open_pages (attached ++ key ∷ []) pages) ≤ length (open_pages attached pages)
open_pages-le attached key [] = omega arith
open_pages-le attached key (k ∷ pages) =
    ground (arith, contains-append attached (key ∷ []) k, open_pages-le attached key pages)

open_pages-lt :
    (attached : List PageKey) (key : PageKey) (pages : List PageKey)
    → contains attached key ≡ false
    → contains pages key ≡ true
    → length (open_pages (attached ++ key ∷ []) pages) < length (open_pages attached pages)
open_pages-lt attached key [] h k = cc
open_pages-lt attached key (p ∷ pages) h k = ground (
  arith,
  contains-append attached (key ∷ []) p,
  pair_key.same_iff p key,
  pair_key.same_iff key p,
  open_pages-le attached key pages,
  open_pages-lt attached key pages,
)

only_chunk_of_single {ℓ} :
    {A : Type ℓ} (cs : List AnyChunk) (c : AnyChunk) (then_do : AnyChunk → Option A)
    → cs ≡ c ∷ []
    → only_chunk cs then_do ≡ then_do c
unfolding only_chunk
only_chunk_of_single [] c then_do h = cc
only_chunk_of_single (c' ∷ []) c then_do h = cc
only_chunk_of_single (c' ∷ c'' ∷ cs) c then_do h = cc

-- An attached image shows the whole page of the chunk that it stands behind.
abbrev pub IsPlaced : List AnyChunk → Type 0
IsPlaced (c ∷ image_chunk image ∷ []) =
    (Chunk.page_key (image_chunk image) ≡ Chunk.page_key c) × (is_page image.image_type ≡ true)
IsPlaced _ = Unit

IsPlaced-of_single : (cs : List AnyChunk) (c : AnyChunk) → cs ≡ c ∷ [] → IsPlaced cs
IsPlaced-of_single [] c h = tt
IsPlaced-of_single (c' ∷ []) c h = tt
IsPlaced-of_single (c' ∷ c'' ∷ cs) c h = cc

-- The outcome of the loop: it does not fail, drops no text, and uses each open page once at most.
abbrev pub Attached :
    List PageKey → List RetrievedDocument → Option (List RetrievedDocument) → Type 0
Attached free docs result =
    (out : List RetrievedDocument) × (result ≡ some out)
    × (map strip out ≡ docs)
    × (count_attached out ≤ length free)
    × All (λ doc. IsPlaced doc.chunks) out

strip_of_single : (doc : RetrievedDocument) (c : AnyChunk) → doc.chunks ≡ c ∷ [] → strip doc ≡ doc
strip_of_single doc c h = λ i. record doc { chunks = (ap (take 1) h ∙ sym h) i }

strip-with_image :
    (doc : RetrievedDocument) (c : AnyChunk) (image : ImageChunk)
    → doc.chunks ≡ c ∷ []
    → strip (with_image doc c image) ≡ doc
strip-with_image doc c image h = λ i. record doc { chunks = sym h i }

module _ (images : List (PageKey × ImageChunk)) where
  attach_of_none :
      (attached : List PageKey) (doc : RetrievedDocument) (docs out : List RetrievedDocument)
      (c : AnyChunk)
      → doc.chunks ≡ c ∷ []
      → image_for images attached (Chunk.page_key c) ≡ none
      → attach images attached docs ≡ some out
      → attach images attached (doc ∷ docs) ≡ some (doc ∷ out)
  unfolding attach
  attach_of_none attached doc docs out c one e r =
      only_chunk_of_single doc.chunks c _ one ∙ rw (e, r)

  attach_of_some :
      (attached : List PageKey) (doc : RetrievedDocument) (docs out : List RetrievedDocument)
      (c : AnyChunk) (image : ImageChunk)
      → doc.chunks ≡ c ∷ []
      → image_for images attached (Chunk.page_key c) ≡ some image
      → attach images (attached ++ Chunk.page_key c ∷ []) docs ≡ some out
      → attach images attached (doc ∷ docs) ≡ some (with_image doc c image ∷ out)
  unfolding attach
  attach_of_some attached doc docs out c image one e r =
      only_chunk_of_single doc.chunks c _ one ∙ rw (e, r)

  image_for-some :
      (attached : List PageKey) (k : PageKey) (image : ImageChunk)
      → image_for images attached k ≡ some image
      → (contains attached k ≡ false) × (get_page k images ≡ some image)
  unfolding image_for
  image_for-some attached k image h = ground arith

-- What is known of the image that the dictionary holds for a page.
pub record IsKnown (pages : List PageKey) (k : PageKey) (image : ImageChunk) : Type 0 where
  pub required : contains pages k ≡ true
  pub same_page : Chunk.page_key (image_chunk image) ≡ k
  pub whole : is_page image.image_type ≡ true

abbrev pub AllKnown : List PageKey → List (PageKey × ImageChunk) → Type 0
AllKnown pages images =
    (k : PageKey) (image : ImageChunk) → get_page k images ≡ some image → IsKnown pages k image

module _ (images : List (PageKey × ImageChunk)) (pages : List PageKey)
    (known : AllKnown pages images) where
  pub attach_lem :
      (attached : List PageKey) (docs : List RetrievedDocument)
      → All IsSingle docs
      → Attached (open_pages attached pages) docs (attach images attached docs)
  attach_lem attached [] h = unfold attach in ([], refl, refl, omega arith, tt)
  attach_lem attached (doc ∷ docs) ((c, one), h) =
      elim (Option-cases (image_for images attached (Chunk.page_key c))) [
        | inl e ↦
            let (out, r, same, few, placed) = attach_lem attached docs h in
            (
              doc ∷ out,
              attach_of_none images attached doc docs out c one e r,
              ap₂ ◌∷◌ (strip_of_single doc c one) same,
              omega (arith, ap length one),
              (IsPlaced-of_single doc.chunks c one, placed),
            )
        | inr (image, e) ↦
            let (out, r, same, few, placed) =
              attach_lem (attached ++ Chunk.page_key c ∷ []) docs h in
            let (fresh, got) = image_for-some images attached (Chunk.page_key c) image e in
            let k = known (Chunk.page_key c) image got in
            (
              with_image doc c image ∷ out,
              attach_of_some images attached doc docs out c image one e r,
              ap₂ ◌∷◌ (strip-with_image doc c image one) same,
              omega (arith, open_pages-lt attached (Chunk.page_key c) pages fresh k.required),
              ((k.same_page, k.whole), placed),
            )
      ]
