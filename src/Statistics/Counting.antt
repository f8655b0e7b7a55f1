-- ===== src/Statistics/Counting.antt =====
-- Counts by page add up.
use ai_dial_generic_rag_back.Prelude.{
  ℕ, ◌+◌, ◌≡◌, refl, sym, ap, ap₂, ◌∙◌, fun_ext, Bool, true, false, ◌&&◌, ◌||◌, inl, inr, List, [],
  ◌∷◌, keep, All, arith, Bool-cases, if◌then◌else◌, ◌==◌, ==_iff,
}
use ai_dial_generic_rag_back.Prelude.Equality.{nat_key, contains}
use ai_dial_generic_rag_back.Statistics.{
  ChunkFact, PageGroup, sum_of, is_on, add_to_group, group_chunks, get_counts, page_numbers,
}
use ai_dial_generic_rag_back.Statistics.Pages.{
  IsAscending, IsAscending-add_page, contains-add_page, contains_above,
}

module _ (document : ℕ) where
  abbrev pub on_page : ℕ → List ChunkFact → List ChunkFact
  on_page page = keep (is_on document page)

  get_counts-add_to_group :
      (page : ℕ) (c : ChunkFact) (groups : List PageGroup)
      → let old = get_counts document page groups in
        get_counts document page (add_to_group c groups)
        ≡ (if is_on document page c then (old.0 + 1, old.1 + c.characters) else old)
  unfolding get_counts add_to_group
  get_counts-add_to_group page c [] = ground arith
  get_counts-add_to_group page c (g ∷ groups) = ground (
    arith,
    get_counts-add_to_group page c groups,
    ==_iff c.document_id document,
    ==_iff c.page page,
    ==_iff c.document_id g.document_id,
    ==_iff c.page g.page,
    ==_iff g.document_id document,
    ==_iff g.page page,
  )

  -- The counts of a page are those of its chunks.
  pub get_counts_lem :
      (page : ℕ) (cs : List ChunkFact)
      → get_counts document page (group_chunks cs) ≡ (
        sum_of (λ c. 1) (on_page page cs),
        sum_of (λ (c : ChunkFact). c.characters) (on_page page cs),
      )
  unfolding group_chunks get_counts
  get_counts_lem page [] = refl
  get_counts_lem page (c ∷ cs) =
      get_counts-add_to_group page c (group_chunks cs)
      ∙ ap
          (λ (old : ℕ × ℕ).
            if is_on document page c then (old.0 + 1, old.1 + c.characters) else old)
          (get_counts_lem page cs)
      ∙ (ground arith)

module _ (document : ℕ) (weight : ChunkFact → ℕ) where
  sum_of-add : (f g : ℕ → ℕ) (qs : List ℕ) → sum_of (λ q. f q + g q) qs ≡ sum_of f qs + sum_of g qs
  sum_of-add f g [] = refl
  sum_of-add f g (q ∷ qs) = omega (arith, sum_of-add f g qs)

  -- A chunk counts on one page.
  once :
      (c : ChunkFact) (qs : List ℕ)
      → IsAscending qs
      → sum_of (λ q. if is_on document q c then weight c else 0) qs
        ≡ (if c.document_id == document && contains qs c.page then weight c else 0)
  once c [] h = ground arith
  once c (q ∷ qs) h = elim (Bool-cases (c.page == q)) [
    | inl same ↦
        let e : c.page ≡ q = (==_iff c.page q).0 same in
        let gone : contains qs c.page ≡ false = ap (contains qs) e ∙ contains_above q qs h.0 in
        ground (arith, once c qs h.1, gone, ==_iff q c.page)
    | inr differs ↦ ground (arith, once c qs h.1, ==_iff q c.page, ==_iff c.page q)
  ]

  sum_of-keep :
      (test : ChunkFact → Bool) (c : ChunkFact) (cs : List ChunkFact)
      → sum_of weight (keep test (c ∷ cs))
        ≡ (if test c then weight c else 0) + sum_of weight (keep test cs)
  sum_of-keep test c cs = ground arith

  -- The sum over the pages is the sum over the chunks on them.
  pub sum_over_pages :
      (qs : List ℕ) (cs : List ChunkFact)
      → IsAscending qs
      → sum_of (λ q. sum_of weight (on_page document q cs)) qs
        ≡ sum_of weight (keep (λ c. c.document_id == document && contains qs c.page) cs)
  sum_over_pages qs [] h = zeros qs
    where
      zeros : (qs : List ℕ) → sum_of (λ q. 0) qs ≡ 0
      zeros [] = refl
      zeros (q ∷ qs) = omega (arith, zeros qs)
  sum_over_pages qs (c ∷ cs) h =
      ap (λ (f : ℕ → ℕ). sum_of f qs) (fun_ext (λ q. sum_of-keep (is_on document q) c cs))
      ∙ sum_of-add (λ q. if is_on document q c then weight c else 0)
          (λ q. sum_of weight (on_page document q cs)) qs
      ∙ ap₂ ◌+◌ (once c qs h) (sum_over_pages qs cs h)
      ∙ sym (sum_of-keep (λ c'. c'.document_id == document && contains qs c'.page) c cs)

module _ (document : ℕ) where
  abbrev has_page : ℕ → List PageGroup → Bool
  has_page page [] = false
  has_page page (g ∷ groups) = (g.document_id == document && g.page == page) || has_page page groups

  has_page-add_to_group :
      (page : ℕ) (c : ChunkFact) (groups : List PageGroup)
      → has_page page (add_to_group c groups) ≡ (is_on document page c || has_page page groups)
  unfolding add_to_group
  has_page-add_to_group page c [] = refl
  has_page-add_to_group page c (g ∷ groups) = ground (
    arith,
    has_page-add_to_group page c groups,
    ==_iff c.document_id document,
    ==_iff c.page page,
    ==_iff c.document_id g.document_id,
    ==_iff c.page g.page,
    ==_iff g.document_id document,
    ==_iff g.page page,
  )

  -- Some chunk of the document is on a page.
  abbrev pub any_on_page : ℕ → List ChunkFact → Bool
  any_on_page page [] = false
  any_on_page page (c ∷ cs) = (c.document_id == document && c.page == page) || any_on_page page cs

  has_page-group_chunks :
      (page : ℕ) (cs : List ChunkFact) → has_page page (group_chunks cs) ≡ any_on_page page cs
  unfolding group_chunks
  has_page-group_chunks page [] = refl
  has_page-group_chunks page (c ∷ cs) =
      has_page-add_to_group page c (group_chunks cs)
      ∙ ap (λ b. is_on document page c || b) (has_page-group_chunks page cs)

  pub contains-page_numbers :
      (k : ℕ) (groups : List PageGroup) (pages : List ℕ)
      → contains (page_numbers document groups pages) k ≡ (has_page k groups || contains pages k)
  unfolding page_numbers
  contains-page_numbers k [] pages = refl
  contains-page_numbers k (g ∷ groups) pages = ground (
    arith,
    contains-page_numbers k groups pages,
    contains-add_page g.page k (page_numbers document groups pages),
  )

  pub contains-pages :
      (page : ℕ) (texts images : List ChunkFact)
      → contains
          (page_numbers document
            (group_chunks texts)
            (page_numbers document (group_chunks images) []))
          page
        ≡ (any_on_page page texts || any_on_page page images)
  contains-pages page texts images =
      contains-page_numbers page (group_chunks texts) _
      ∙ ap₂ ◌||◌ (has_page-group_chunks page texts) (
          contains-page_numbers page (group_chunks images) []
          ∙ ap (λ b. b || false) (has_page-group_chunks page images)
          ∙ (ground arith))

  pub IsAscending-page_numbers :
      (groups : List PageGroup) (pages : List ℕ)
      → IsAscending pages
      → IsAscending (page_numbers document groups pages)
  unfolding page_numbers
  IsAscending-page_numbers [] pages h = h
  IsAscending-page_numbers (g ∷ groups) pages h = elim (Bool-cases (g.document_id == document)) [
    | inl own ↦ rw own (
        IsAscending-add_page g.page (page_numbers document groups pages)
          (IsAscending-page_numbers groups pages h))
    | inr other ↦ rw other (IsAscending-page_numbers groups pages h)
  ]

  abbrev pub Covered : List ℕ → ChunkFact → Type 0
  Covered qs c = c.document_id == document ≡ true → contains qs c.page ≡ true

  -- The pages of some chunks, and of others.
  pub All-Covered :
      (cs part : List ChunkFact) (pages : List ℕ)
      → All (λ c. c.document_id == document ≡ true → has_page c.page (group_chunks cs) ≡ true) part
      → All (Covered (page_numbers document (group_chunks cs) pages)) part
  All-Covered cs [] pages h = tt
  All-Covered cs (c ∷ part) pages h = (
    λ own. ground (arith, contains-page_numbers c.page (group_chunks cs) pages, h.0 own),
    All-Covered cs part pages h.1,
  )

  All-more :
      (c : ChunkFact) (cs part : List ChunkFact)
      → All (λ d. d.document_id == document ≡ true → has_page d.page (group_chunks cs) ≡ true) part
      → All
          (λ d. d.document_id == document ≡ true → has_page d.page (group_chunks (c ∷ cs)) ≡ true)
          part
  unfolding group_chunks
  All-more c cs [] h = tt
  All-more c cs (d ∷ part) h = (
    λ own. ground (arith, h.0 own, has_page-add_to_group d.page c (group_chunks cs)),
    All-more c cs part h.1,
  )

  pub All-has_page :
      (cs : List ChunkFact)
      → All (λ c. c.document_id == document ≡ true → has_page c.page (group_chunks cs) ≡ true) cs
  unfolding group_chunks
  All-has_page [] = tt
  All-has_page (c ∷ cs) = (
    λ own. ground (arith, has_page-add_to_group c.page c (group_chunks cs), ==_iff c.page c.page),
    All-more c cs cs (All-has_page cs),
  )

  -- Pages that were there before stay.
  pub Covered-page_numbers :
      (groups : List PageGroup) (pages : List ℕ) (cs : List ChunkFact)
      → All (Covered pages) cs
      → All (Covered (page_numbers document groups pages)) cs
  Covered-page_numbers groups pages [] h = tt
  Covered-page_numbers groups pages (c ∷ cs) h = (
    λ own. ground (arith, contains-page_numbers c.page groups pages, h.0 own),
    Covered-page_numbers groups pages cs h.1,
  )

  pub keep-Covered :
      (qs : List ℕ) (cs : List ChunkFact)
      → All (Covered qs) cs
      → keep (λ c. c.document_id == document && contains qs c.page) cs
        ≡ keep (λ c. c.document_id == document) cs
  keep-Covered qs [] h = refl
  keep-Covered qs (c ∷ cs) h = elim (Bool-cases (c.document_id == document)) [
    | inl own ↦ let there = h.0 own in rw (own, there) (ap (◌∷◌ c) (keep-Covered qs cs h.1))
    | inr other ↦ rw other (keep-Covered qs cs h.1)
  ]
