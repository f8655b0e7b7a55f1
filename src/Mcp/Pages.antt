-- ===== src/Mcp/Pages.antt =====
-- The blocks of a range of pages.
use ai_dial_generic_rag_back.Prelude.{
  ℕ, zero, suc, subst, ◌+◌, ◌-◌, ◌≡◌, ◌≢◌, refl, ap, ap₂, sym, ◌∙◌, true, false, inl, inr,
  Option-cases, Option, none, some, String, List, [], ◌∷◌, ◌++◌, concat, map, All, All-append,
  arith, Bool-cases, ==_iff, ◌||◌, ltb, if◌then◌else◌,
}
use ai_dial_generic_rag_back.Prelude.Equality.{nat_key, pair_key, contains, contains-append}
use ai_dial_generic_rag_back.Prelude.Results.{ok, raise, value_error, assertion_failed}
use ai_dial_generic_rag_back.Types.{AnyChunk}
use ai_dial_generic_rag_back.Types.Chunk
use ai_dial_generic_rag_back.Chunks.{Store}
use ai_dial_generic_rag_back.Chunks.Queries.{get_chunks_by_pages}
use ai_dial_generic_rag_back.Mcp.{
  Block, text_content, RetrieveType, chunk_type, get, keys, Contents, range_from, sorted_set,
  collect, label, text_block, image_block, page_content, get_pages_content, get_pages,
}
use ai_dial_generic_rag_back.Mcp.Loading.{AllIn, IsOnPages, AllIn-get_chunks_by_pages}
use ai_dial_generic_rag_back.Mcp.Ranges.{
  IsAscending-sorted_set, contains-sorted_set, All-sorted_set, IsWithin, concat-range_from,
}
use ai_dial_generic_rag_back.Mcp.Contents.{
  texts_on, joined, image_on, contains-keys, contained-keys, All-keys-collect, contents_of_page,
}

-- The blocks of a page with a label: none if it has no text and no image.
abbrev pub titled : List ℕ → Option (List ℕ) → Option Block → List Block
titled l none none = []
titled l (some t) image = text_content l ∷ text_content t ∷ image_block image
titled l none (some b) = text_content l ∷ b ∷ []

titled_lem :
    (l : List ℕ) (t : Option (List ℕ)) (image : Option Block)
    → (t ≡ none → image ≢ none)
    → text_content l ∷ (text_block t ++ image_block image) ≡ titled l t image
titled_lem l none none h = absurd (h refl refl)
titled_lem l (some t) image h = refl
titled_lem l none (some b) h = refl

All-contained : (P : ℕ → Type 0) (ns : List ℕ) → ((p : ℕ) → contains ns p ≡ true → P p) → All P ns
All-contained P [] h = tt
All-contained P (n ∷ ns) h =
    (h n (ground (arith, ==_iff n n)), All-contained P ns (λ p e. h p (ground (arith, e))))

concat-map {ℓ} :
    {A : Type ℓ} (f g : ℕ → List A) (ns : List ℕ)
    → All (λ n. f n ≡ g n) ns
    → concat (map f ns) ≡ concat (map g ns)
concat-map f g [] h = refl
concat-map f g (n ∷ ns) h = ap₂ ◌++◌ h.0 (concat-map f g ns h.1)

-- The label, the text chunks of a page joined by line breaks, and its last page image.
abbrev pub blocks_of_page : (List ℕ → List ℕ) → ℕ → List AnyChunk → ℕ → List Block
blocks_of_page b64encode document cs p =
    titled (label document p) (joined (texts_on p cs)) (image_on b64encode p cs)

module _ (b64encode : List ℕ → List ℕ) (document : ℕ) (cs : List AnyChunk) where
  abbrev contents : Contents
  contents = collect b64encode cs ([], [])

  abbrev shown : List ℕ
  shown = keys contents.0 ++ keys contents.1

  absent_page : (p : ℕ) → contains shown p ≡ false → blocks_of_page b64encode document cs p ≡ []
  absent_page p h =
      let found = contents_of_page b64encode p cs in
      let parts = contains-append (keys contents.0) (keys contents.1) p in
      ap₂ (titled (label document p))
        (sym found.0 ∙ contains-keys p contents.0 (ground (arith, h, parts)))
        (sym found.1 ∙ contains-keys p contents.1 (ground (arith, h, parts)))

  present_page :
      (p : ℕ)
      → contains shown p ≡ true
      → page_content document contents p ≡ blocks_of_page b64encode document cs p
  present_page p h =
      let found = contents_of_page b64encode p cs in
      let parts = contains-append (keys contents.0) (keys contents.1) p in
      titled_lem (label document p) (get p contents.0) (get p contents.1) (λ no_text no_image.
        elim (Bool-cases (contains (keys contents.0) p)) [
          | inl e ↦ let known = (contained-keys p contents.0 e).1 in cc
          | inr e ↦ let known = (contained-keys p contents.1 (ground (arith, h, parts, e))).1 in cc
        ])
      ∙ ap₂ (titled (label document p)) found.0 found.1

  get_pages_content_lem :
      (first count : ℕ)
      → All (λ c. IsWithin first count (Chunk.page_number c)) cs
      → get_pages_content document contents
        ≡ concat (map (blocks_of_page b64encode document cs) (range_from first count))
  unfolding get_pages_content
  get_pages_content_lem first count h =
      let blocks = blocks_of_page b64encode document cs in
      let within = All-keys-collect b64encode (IsWithin first count) cs ([], []) h tt tt in
      concat-map (page_content document contents) blocks (sorted_set shown) (
        All-sorted_set (λ p. page_content document contents p ≡ blocks p) shown
          (All-contained (λ p. page_content document contents p ≡ blocks p) shown present_page))
      ∙ sym (
          concat-range_from blocks first count (sorted_set shown) (IsAscending-sorted_set shown)
            (All-sorted_set (IsWithin first count) shown (
              All-append (IsWithin first count) (keys contents.0) (keys contents.1) within.0
                within.1))
            (λ p later absent. absent_page p (sym (contains-sorted_set shown p) ∙ absent)))

IsWithin-contained :
    (document first count : ℕ) (key : ℕ × ℕ)
    → contains (map (λ (p : ℕ). (document, p)) (range_from first count)) key ≡ true
    → IsWithin first count key.1
IsWithin-contained document first zero key h = absurd (cc h)
IsWithin-contained document first (suc count) (d, p) h =
    elim (Bool-cases (pair_key.same (document, first) (d, p))) [
      | inl same ↦ (ground (arith, same, ==_iff first p), ground (arith, same, ==_iff first p))
      | inr differs ↦
          let later = IsWithin-contained document (first + 1) count (d, p) (rw differs at h) in
          (omega (arith, later.0), omega (arith, later.1))
    ]

All-IsWithin :
    (channel : String) (document first count : ℕ) (cs : List AnyChunk)
    → All (IsOnPages channel (map (λ (p : ℕ). (document, p)) (range_from first count))) cs
    → All (λ c. IsWithin first count (Chunk.page_number c)) cs
All-IsWithin channel document first count [] h = tt
All-IsWithin channel document first count (c ∷ cs) h = (
  IsWithin-contained document first count (Chunk.page_key c) h.0,
  All-IsWithin channel document first count cs h.1,
)

-- The pages that a range asks for, and the chunks that are loaded for them.
abbrev pub asked : ℕ → ℕ → List ℕ
asked page_start page_end = range_from page_start (page_end - page_start + 1)

abbrev pub loaded : String → Store → ℕ → ℕ → ℕ → RetrieveType → Option (List AnyChunk)
loaded channel store document page_start page_end retrieve_type =
    get_chunks_by_pages channel store (map (λ (p : ℕ). (document, p)) (asked page_start page_end))
      (chunk_type retrieve_type)

module _ (limit : ℕ) (b64encode : List ℕ → List ℕ) (channel : String) (store : Store) where
  -- `get_pages` refuses a range that ends before it starts or has more pages than the limit, and
  -- raises the exception of the chunk service; otherwise it gives, page by page over the range,
  -- nothing for a page without text chunks and page images among the chunks that are loaded, and
  -- else the label of the page, its texts joined by line breaks if there are any, and its last page
  -- image if there is one.
  pub get_pages_lem :
      (document page_start page_end : ℕ) (retrieve_type : RetrieveType)
      → get_pages limit b64encode channel store document page_start page_end retrieve_type ≡ (
          if ltb page_end page_start || ltb limit (page_end - page_start + 1)
          then raise value_error
          else elim (loaded channel store document page_start page_end retrieve_type) [
            | none ↦ raise assertion_failed
            | some cs ↦
                ok (concat (map (blocks_of_page b64encode document cs) (asked page_start page_end)))
          ])
  unfolding get_pages
  get_pages_lem document page_start page_end retrieve_type =
      elim (Bool-cases (ltb page_end page_start)) [
        | inl backwards ↦ rw backwards refl
        | inr forwards ↦ elim (Bool-cases (ltb limit (page_end - page_start + 1))) [
          | inl many ↦ rw (forwards, many) refl
          | inr few ↦
              elim (Option-cases
                (loaded channel store document page_start page_end retrieve_type)) [
                  | inl e ↦ rw (forwards, few, e) refl
                  | inr (cs, e) ↦
                      rw (forwards, few, e)
                        (ap ok (
                          get_pages_content_lem b64encode document cs page_start
                            (page_end - page_start + 1)
                            (All-IsWithin channel document page_start (page_end - page_start + 1) cs
                              (subst
                                (AllIn (
                                  IsOnPages channel
                                    (map (λ (p : ℕ). (document, p)) (asked page_start page_end))))
                                e
                                (AllIn-get_chunks_by_pages channel
                                  (map (λ (p : ℕ). (document, p)) (asked page_start page_end)) store
                                  (chunk_type retrieve_type))))))
                ]
        ]
      ]
