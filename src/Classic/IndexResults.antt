-- ===== src/Classic/IndexResults.antt =====
-- What the post-processor of one index returns.
use native.Mathlib.Nat.{sub-zero}
use ai_dial_generic_rag_back.Prelude.{
  ℕ, suc, ◌+◌, ◌-◌, ◌≤◌, ◌≡◌, refl, ap, ap₂, sym, ◌∙◌, Bool, true, false, Option, none, some, List,
  [], ◌∷◌, ◌++◌, arith, length, take, take-nil, take_of_length-le, keep, concat, map, max,
  if◌then◌else◌, All, append_assoc, append-nil, length-append, leb, Bool-cases, inl, inr,
}
use ai_dial_generic_rag_back.Prelude.Equality.{pair_key, nat_key}
use ai_dial_generic_rag_back.Prelude.Streams.{end, yield_all, yield_all-append}
use ai_dial_generic_rag_back.Types.{
  TextChunk, ImageChunk, AnyChunk, text_chunk, image_chunk, RetrievalType, unknown,
  RetrievedDocument,
}
use ai_dial_generic_rag_back.Types.Chunk
use ai_dial_generic_rag_back.Classic.{
  PageKey, key_eq, PageChunks, get_page, append_page, image_pages, group_by_page, typed, map_chunks,
  expand_chunk, index_stream, index_step, collect, text_by_page, index_invoke,
}

abbrev on_page : PageKey → TextChunk → Bool
on_page key c = key_eq (c.document_id, c.metadata.page_number) key

-- The documents that retrieval hands over hold one chunk each.
abbrev pub IsSingle : RetrievedDocument → Type 0
IsSingle doc = (c : AnyChunk) × (doc.chunks ≡ c ∷ [])

-- The text chunks of a page: an image is replaced by them if there are any.
abbrev pub replacement : RetrievedDocument → List TextChunk → List RetrievedDocument
replacement doc [] = typed doc unknown ∷ []
replacement doc (c ∷ cs) = map_chunks doc (c ∷ cs)

-- What stands for a document in the results, where `texts` are the text chunks that were loaded.
abbrev pub expansion : List TextChunk → RetrievedDocument → List AnyChunk → List RetrievedDocument
expansion texts doc (image_chunk c ∷ []) =
    replacement doc (keep (on_page (c.document_id, c.metadata.page_number)) texts)
expansion texts doc (text_chunk c ∷ []) = typed doc RetrievalType.text ∷ []
expansion texts doc _ = []

collect-yield_all :
    (limit : ℕ) (result docs : List RetrievedDocument)
    → collect limit result (yield_all docs end)
      ≡ some (result ++ take (max 1 (limit - length result)) docs)
unfolding collect
collect-yield_all limit result [] = rw (take-nil, append-nil)
collect-yield_all limit result (d ∷ ds) =
    let m = limit - length result - 1 in
    let first : max 1 (limit - length result) ≡ suc m = omega arith in
    elim (Bool-cases (leb limit (length (result ++ d ∷ [])))) [
      | inl full ↦
          let none_left : m ≡ 0 = ground (arith, length-append result (d ∷ [])) in
          rw (full, first, none_left)
      | inr more ↦
          let left : max 1 (limit - length (result ++ d ∷ [])) ≡ m =
            ground (arith, length-append result (d ∷ [])) in
          rw (more, first, collect-yield_all limit (result ++ d ∷ []) ds, left, append_assoc)
    ]

get_page-append_page :
    {V : Type 0} (k j : PageKey) (v : V) (d : List (PageKey × List V))
    → get_page j (append_page k v d) ≡ (
        if key_eq k j
        then some (elim (get_page j d) [ none ↦ v ∷ [] | some vs ↦ vs ++ v ∷ [] ])
        else get_page j d)
unfolding get_page append_page
get_page-append_page k j v [] = refl
get_page-append_page k j v ((i, vs) ∷ d) = ground (
  arith,
  get_page-append_page k j v d,
  pair_key.same_iff k j,
  pair_key.same_iff i j,
  pair_key.same_iff i k,
)

-- The dictionary holds the text chunks of a page, in order, if there are any.
abbrev some_if_any : List TextChunk → Option (List TextChunk)
some_if_any [] = none
some_if_any (c ∷ cs) = some (c ∷ cs)

abbrev joined : Option (List TextChunk) → List TextChunk → Option (List TextChunk)
joined none cs = some_if_any cs
joined (some vs) cs = some (vs ++ cs)

joined-nil : (o : Option (List TextChunk)) → joined o [] ≡ o
joined-nil none = refl
joined-nil (some vs) = rw append-nil

joined-cons :
    (o : Option (List TextChunk)) (b : Bool) (c : TextChunk) (cs : List TextChunk)
    → joined (if b then some (elim o [ none ↦ c ∷ [] | some vs ↦ vs ++ c ∷ [] ]) else o) cs
      ≡ joined o (if b then c ∷ cs else cs)
joined-cons none true c cs = refl
joined-cons (some vs) true c cs = rw append_assoc
joined-cons o false c cs = refl

get_page-group_by_page :
    (key : PageKey) (cs : List TextChunk) (d : List (PageKey × List TextChunk))
    → get_page key (group_by_page cs d) ≡ joined (get_page key d) (keep (on_page key) cs)
unfolding group_by_page
get_page-group_by_page key [] d = sym (joined-nil (get_page key d))
get_page-group_by_page key (c ∷ cs) d =
    let home : PageKey = (c.document_id, c.metadata.page_number) in
    get_page-group_by_page key cs (append_page home c d)
    ∙ ap (λ o. joined o (keep (on_page key) cs)) (get_page-append_page home key c d)
    ∙ joined-cons (get_page key d) (key_eq home key) c (keep (on_page key) cs)

expand_chunk-expansion :
    (texts : List TextChunk) (doc : RetrievedDocument) (c : AnyChunk)
    → expand_chunk doc c (get_page (Chunk.page_key c) (group_by_page texts []))
      ≡ expansion texts doc (c ∷ [])
unfolding expand_chunk
expand_chunk-expansion texts doc (text_chunk c) = refl
expand_chunk-expansion texts doc (image_chunk c) =
    ap (expand_chunk doc (image_chunk c))
      (get_page-group_by_page (Chunk.page_key (image_chunk c)) texts [])
    ∙ unfold get_page in replaced (keep (on_page (Chunk.page_key (image_chunk c))) texts)
  where
    replaced :
        (cs : List TextChunk)
        → expand_chunk doc (image_chunk c) (some_if_any cs) ≡ replacement doc cs
    replaced [] = refl
    replaced (x ∷ xs) = refl

index_step_lem :
    (texts : List TextChunk) (doc : RetrievedDocument) (chunks : List AnyChunk) (c : AnyChunk)
    (docs : List RetrievedDocument)
    → chunks ≡ c ∷ []
    → index_step (group_by_page texts []) doc chunks (yield_all docs end)
      ≡ yield_all (expansion texts doc chunks ++ docs) end
unfolding index_step
index_step_lem texts doc (c ∷ []) _ docs h =
    ap (λ ds. yield_all ds (yield_all docs end)) (expand_chunk-expansion texts doc c)
    ∙ yield_all-append (expansion texts doc (c ∷ [])) docs end
index_step_lem texts doc [] _ docs h = cc
index_step_lem texts doc (c ∷ c' ∷ cs) _ docs h = cc

index_stream_lem :
    (texts : List TextChunk) (docs : List RetrievedDocument)
    → All IsSingle docs
    → index_stream (group_by_page texts []) docs
      ≡ yield_all (concat (map (λ doc. expansion texts doc doc.chunks) docs)) end
unfolding index_stream
index_stream_lem texts [] h = refl
index_stream_lem texts (doc ∷ docs) h =
    ap (index_step (group_by_page texts []) doc doc.chunks) (index_stream_lem texts docs h.1)
    ∙ index_step_lem texts doc doc.chunks h.0.0 _ h.0.1

length-map_chunks :
    (doc : RetrievedDocument) (cs : List TextChunk) → length (map_chunks doc cs) ≡ length cs
unfolding map_chunks
length-map_chunks doc [] = refl
length-map_chunks doc (c ∷ cs) = ap suc (length-map_chunks doc cs)

module _ (service : PageChunks) where
  -- For documents of one chunk each, the result is the first `limit` (at least one) of what stands
  -- for them, in order: a text chunk for itself, an image for the loaded text chunks of its page,
  -- or for itself where there are none. The pages loaded are those of the page images.
  pub index_invoke_lem :
      (limit : ℕ) (docs : List RetrievedDocument)
      → All IsSingle docs
      → index_invoke service limit docs
        ≡ some (
            take (max 1 limit) (
              concat (
                map
                  (λ doc. expansion (service.text_chunks (image_pages docs)) doc doc.chunks)
                  docs)))
  unfolding index_invoke text_by_page
  index_invoke_lem limit docs h =
      ap (collect limit []) (index_stream_lem (service.text_chunks (image_pages docs)) docs h)
      ∙ collect-yield_all limit [] _
      ∙ rw sub-zero

  -- Two images on one page are both replaced by all the text chunks of the page, whatever they
  -- show, if the text of the page was loaded and the limit has room for it twice.
  pub index_invoke_part :
      (limit : ℕ) (whole part : RetrievedDocument) (w p : ImageChunk)
      → whole.chunks ≡ image_chunk w ∷ []
      → part.chunks ≡ image_chunk p ∷ []
      → Chunk.page_key (image_chunk p) ≡ Chunk.page_key (image_chunk w)
      → (t : TextChunk) (ts : List TextChunk)
      → keep
          (on_page (Chunk.page_key (image_chunk w)))
          (service.text_chunks (image_pages (whole ∷ part ∷ [])))
        ≡ t ∷ ts
      → length (t ∷ ts) + length (t ∷ ts) ≤ limit
      → index_invoke service limit (whole ∷ part ∷ [])
        ≡ some (map_chunks whole (t ∷ ts) ++ map_chunks part (t ∷ ts))
  index_invoke_part limit whole part w p one one' same t ts found room =
      index_invoke_lem limit (whole ∷ part ∷ []) ((image_chunk w, one), ((image_chunk p, one'), tt))
      ∙ ap (λ ds. some (take (max 1 limit) ds))
          (ap₂ ◌++◌ for_whole (ap₂ ◌++◌ for_part refl ∙ append-nil _))
      ∙ ap some (
          take_of_length-le (max 1 limit) (map_chunks whole (t ∷ ts) ++ map_chunks part (t ∷ ts))
            fits)
    where
      texts : List TextChunk
      texts = service.text_chunks (image_pages (whole ∷ part ∷ []))

      for_whole : expansion texts whole whole.chunks ≡ map_chunks whole (t ∷ ts)
      for_whole = ap (expansion texts whole) one ∙ ap (replacement whole) found

      for_part : expansion texts part part.chunks ≡ map_chunks part (t ∷ ts)
      for_part =
          ap (expansion texts part) one'
          ∙ ap (λ k. replacement part (keep (on_page k) texts)) same
          ∙ ap (replacement part) found

      fits : length (map_chunks whole (t ∷ ts) ++ map_chunks part (t ∷ ts)) ≤ max 1 limit
      fits = omega (
        arith,
        length-append (map_chunks whole (t ∷ ts)) (map_chunks part (t ∷ ts)),
        length-map_chunks whole (t ∷ ts),
        length-map_chunks part (t ∷ ts),
      )
