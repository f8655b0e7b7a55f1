-- ===== src/Classic/Collecting.antt =====
-- The pages whose images are loaded, and the dictionary of the images.
use ai_dial_generic_rag_back.Prelude.{
  ℕ, ◌≤◌, ◌<◌, ◌≡◌, refl, sym, subst, true, some, List, [], ◌∷◌, ◌++◌, arith, length, max,
  if◌then◌else◌, All, length-append, leb, Bool-cases, inl, inr,
}
use ai_dial_generic_rag_back.Prelude.Equality.{pair_key, nat_key, contains}
use ai_dial_generic_rag_back.Prelude.Streams.{Stream, end, raised, next}
use ai_dial_generic_rag_back.Types.{
  ImageChunk, AnyChunk, image_chunk, RetrievedDocument, RetrievalType,
}
use ai_dial_generic_rag_back.Types.Chunk
use ai_dial_generic_rag_back.Classic.{
  PageKey, key_eq, get_page, set_page, is_page, first_chunk, has_type, pages_of_type,
  required_pages, index_images,
}
use ai_dial_generic_rag_back.Classic.IndexResults.{IsSingle}
use ai_dial_generic_rag_back.Classic.Attaching.{IsKnown, AllKnown}

-- No more pages are required than `num`, but always room for one.
pub length-required_pages :
    (num : ℕ) (pages : List PageKey) (s : Stream PageKey) (result : List PageKey)
    → length pages < max 1 num
    → required_pages num pages s ≡ some result
    → length result ≤ max 1 num
unfolding required_pages
length-required_pages num pages end result h e = ground arith
length-required_pages num pages raised result h e = ground arith
length-required_pages num pages (next key s) result h e = ground (
  arith,
  length-append pages (key ∷ []),
  length-required_pages num pages s result,
  length-required_pages num (pages ++ key ∷ []) s result,
)

get_page-set_page :
    {V : Type 0} (k j : PageKey) (v : V) (d : List (PageKey × V))
    → get_page j (set_page k v d) ≡ (if key_eq k j then some v else get_page j d)
unfolding get_page set_page
get_page-set_page k j v [] = refl
get_page-set_page k j v ((i, w) ∷ d) = ground (
  arith,
  get_page-set_page k j v d,
  pair_key.same_iff k j,
  pair_key.same_iff i j,
  pair_key.same_iff i k,
)

-- The chunk service returns images of the pages that it was asked for.
abbrev pub IsOnPages : List PageKey → List ImageChunk → Type 0
IsOnPages pages = All (λ c. contains pages (Chunk.page_key (image_chunk c)) ≡ true)

AllKnown-set_page :
    (pages : List PageKey) (c : ImageChunk) (d : List (PageKey × ImageChunk))
    → AllKnown pages d
    → contains pages (Chunk.page_key (image_chunk c)) ≡ true
    → is_page c.image_type ≡ true
    → AllKnown pages (set_page (Chunk.page_key (image_chunk c)) c d)
AllKnown-set_page pages c d known h p k image e =
    elim (Bool-cases (key_eq (Chunk.page_key (image_chunk c)) k)) [
      | inl same ↦
          let here : c ≡ image =
            ground (arith, get_page-set_page (Chunk.page_key (image_chunk c)) k c d) in
          let at_k = (pair_key.same_iff (Chunk.page_key (image_chunk c)) k).0 same in
          subst (IsKnown pages k) here (record {
            required = subst (λ q. contains pages q ≡ true) at_k h;
            same_page = at_k;
            whole = p;
          })
      | inr other ↦
          known k image (ground (arith, get_page-set_page (Chunk.page_key (image_chunk c)) k c d))
    ]

pub AllKnown-index_images :
    (pages : List PageKey) (cs : List ImageChunk) (d : List (PageKey × ImageChunk))
    → IsOnPages pages cs
    → AllKnown pages d
    → AllKnown pages (index_images cs d)
unfolding index_images
AllKnown-index_images pages [] d h known = known
AllKnown-index_images pages (c ∷ cs) d h known = elim (Bool-cases (is_page c.image_type)) [
  | inl p ↦ rw p (AllKnown-index_images pages cs _ h.1 (AllKnown-set_page pages c d known h.0 p))
  | inr p ↦ rw p (AllKnown-index_images pages cs d h.1 known)
]

-- Collecting the pages of documents of one chunk each raises nothing.
unfoldable pub NeverRaises : Stream PageKey → Type 0
NeverRaises end = Unit
NeverRaises raised = ⊥
NeverRaises (next key s) = NeverRaises s

first_chunk_of_single :
    (cs : List AnyChunk) (c : AnyChunk) (then_do : AnyChunk → Stream PageKey)
    → cs ≡ c ∷ []
    → first_chunk cs then_do ≡ then_do c
unfolding first_chunk
first_chunk_of_single [] c then_do h = cc
first_chunk_of_single (c' ∷ cs) c then_do h = cc

pub pages_of_type-NeverRaises :
    (type : RetrievalType) (docs : List RetrievedDocument) (s : Stream PageKey)
    → All IsSingle docs
    → NeverRaises s
    → NeverRaises (pages_of_type type docs s)
unfolding pages_of_type NeverRaises
pages_of_type-NeverRaises type [] s h n = n
pages_of_type-NeverRaises type (doc ∷ docs) s ((c, one), h) n =
    subst NeverRaises (sym (first_chunk_of_single doc.chunks c _ one))
      (elim (Bool-cases (has_type type doc.retrieval_type)) [
        | inl e ↦ rw e (pages_of_type-NeverRaises type docs s h n)
        | inr e ↦ rw e (pages_of_type-NeverRaises type docs s h n)
      ])

pub required_pages_total :
    (num : ℕ) (pages : List PageKey) (s : Stream PageKey)
    → NeverRaises s
    → (result : List PageKey) × (required_pages num pages s ≡ some result)
unfolding required_pages NeverRaises
required_pages_total num pages end n = (pages, refl)
required_pages_total num pages raised n = absurd n
required_pages_total num pages (next key s) n =
    let pages' = if contains pages key then pages else pages ++ key ∷ [] in
    elim (Bool-cases (leb num (length pages'))) [
      | inl e ↦ (pages', rw e)
      | inr e ↦ let (result, r) = required_pages_total num pages' s n in (result, rw (e, r))
    ]
