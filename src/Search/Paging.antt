-- ===== src/Search/Paging.antt =====
-- The pages together give the first distinct rows.
use ai_dial_generic_rag_back.Prelude.{
  ℕ, zero, suc, ◌+◌, ◌*◌, ◌≤◌, ◌<◌, ◌≡◌, refl, ap, sym, ◌∙◌, false, Option, none, some, List, [],
  ◌∷◌, ◌++◌, arith, length, take, ltb, leb, length-append, take_of_length-le, append_assoc,
  append-nil, take-nil, inl, inr, Bool-cases, length-take,
}
use ai_dial_generic_rag_back.Prelude.Pages.{List-cases}
use ai_dial_generic_rag_back.Prelude.Equality.{Hashable, contains}
use ai_dial_generic_rag_back.Ranking.Unique.{unique_by_key, unique_of_seen, unique_of_new}
use ai_dial_generic_rag_back.Search.{
  add_rows, unless_empty, search_from, in_documents, search, vector_search, text_search,
}

module _ {ℓ} {A : Type ℓ} where
  take_append-le : (n : ℕ) (xs ys : List A) → n ≤ length xs → take n (xs ++ ys) ≡ take n xs
  take_append-le zero xs ys h = refl
  take_append-le (suc n) [] ys h = absurd (omega arith)
  take_append-le (suc n) (x ∷ xs) ys h = ap (◌∷◌ x) (take_append-le n xs ys (omega arith))

  -- As many as are wanted.
  filled : (n : ℕ) (xs ys : List A) → n ≤ length xs → length xs ≤ n → xs ≡ take n (xs ++ ys)
  filled n xs ys h k = sym (take_append-le n xs ys h ∙ take_of_length-le n xs k)

  take-take_append :
      (n : ℕ) (xs : List A) (more : List A → List A)
      → take n (take n xs ++ more (take n xs)) ≡ take n (xs ++ more xs)
  take-take_append n xs more = elim (Bool-cases (leb (length xs) n)) [
    | inl fits ↦ ap (λ t. take n (t ++ more t)) (take_of_length-le n xs (ground arith))
    | inr long ↦
        let le : n ≤ length xs = ground arith in
        let le' : n ≤ length (take n xs) = ground (arith, length-take n xs) in
        let ge' : length (take n xs) ≤ n = ground (arith, length-take n xs) in
        sym (filled n (take n xs) (more (take n xs)) le' ge')
        ∙ sym (take_append-le n xs (more xs) le)
  ]

  unless_empty_of_nil :
      (rows : List A) (stop go_on : Option (List A))
      → rows ≡ []
      → unless_empty rows stop go_on ≡ stop
  unfolding unless_empty
  unless_empty_of_nil [] stop go_on h = refl
  unless_empty_of_nil (x ∷ xs) stop go_on h = cc

  unless_empty_of_cons :
      (rows : List A) (stop go_on : Option (List A)) (x : A) (xs : List A)
      → rows ≡ x ∷ xs
      → unless_empty rows stop go_on ≡ go_on
  unfolding unless_empty
  unless_empty_of_cons [] stop go_on x xs h = cc
  unless_empty_of_cons (y ∷ ys) stop go_on x xs h = refl

module _ {ℓ} {Meta : Type ℓ} ⦃h : Hashable Meta⦄ where
  -- The rows that are not in `seen`, each once.
  abbrev pub distinct : List Meta → List Meta → List Meta
  distinct seen = unique_by_key (λ m. m) seen

  distinct-append :
      (seen xs ys : List Meta)
      → seen ++ distinct seen (xs ++ ys)
        ≡ (seen ++ distinct seen xs) ++ distinct (seen ++ distinct seen xs) ys
  distinct-append seen [] ys = unfold unique_by_key in rw append-nil
  distinct-append seen (x ∷ xs) ys = elim (Bool-cases (contains seen x)) [
    | inl old ↦
        rw (unique_of_seen (λ m. m) seen x (xs ++ ys) old, unique_of_seen (λ m. m) seen x xs old)
          (distinct-append seen xs ys)
    | inr new ↦
        rw (unique_of_new (λ m. m) seen x (xs ++ ys) new, unique_of_new (λ m. m) seen x xs new)
          (sym (append_assoc seen (x ∷ []) _)
            ∙ distinct-append (seen ++ x ∷ []) xs ys
            ∙ ap (λ s. s ++ distinct s ys) (append_assoc seen (x ∷ []) _))
  ]

  not_full :
      (limit : ℕ) (result : List Meta) → length result < limit → leb limit (length result) ≡ false
  not_full limit result short = ground arith

  add_rows_lem :
      (limit : ℕ) (result rows : List Meta)
      → length result < limit
      → add_rows limit result rows ≡ take limit (result ++ distinct result rows)
  unfolding add_rows
  add_rows_lem limit result [] short =
      unfold unique_by_key in rw append-nil (sym (take_of_length-le limit result (omega arith)))
  add_rows_lem limit result (row ∷ rows) short = elim (Bool-cases (contains result row)) [
    | inl old ↦
        let more = not_full limit result short in
        rw (old, more, unique_of_seen (λ m. m) result row rows old)
          (add_rows_lem limit result rows short)
    | inr new ↦
        let longer = length-append result (row ∷ []) in
        elim (Bool-cases (leb limit (length (result ++ row ∷ [])))) [
          | inl full ↦
              rw (new, full, unique_of_new (λ m. m) result row rows new)
                (filled limit (result ++ row ∷ []) _ (ground arith) (ground (arith, longer))
                  ∙ ap (take limit) (append_assoc result (row ∷ []) _))
          | inr more ↦
              rw (new, more, unique_of_new (λ m. m) result row rows new)
                (add_rows_lem limit (result ++ row ∷ []) rows (ground (arith, longer))
                  ∙ ap (take limit) (append_assoc result (row ∷ []) _))
        ]
  ]

  abbrev pub until_empty : List Meta → List Meta → List Meta
  until_empty [] rest = []
  until_empty (row ∷ rows) rest = row ∷ rows ++ rest

  -- The rows of the pages from an offset on, up to an empty page or to `n` pages.
  abbrev pub rows_from : (n : ℕ) → (ℕ → List Meta) → ℕ → List Meta
  rows_from zero page offset = []
  rows_from (suc n) page offset =
      until_empty (page offset) (rows_from n page (offset + length (page offset)))

  until_empty_of_cons :
      (rows rest : List Meta) (x : Meta) (xs : List Meta)
      → rows ≡ x ∷ xs
      → until_empty rows rest ≡ rows ++ rest
  until_empty_of_cons [] rest x xs h = cc
  until_empty_of_cons (y ∷ ys) rest x xs h = refl

  all_found :
      (limit : ℕ) (result : List Meta)
      → length result ≤ limit
      → result ≡ take limit (result ++ distinct result [])
  all_found limit result few =
      unfold unique_by_key in rw append-nil (sym (take_of_length-le limit result few))

  module _ (page : ℕ → ℕ → List Meta) (count page_size : ℕ)
      (past : (k : ℕ) → count ≤ k → page page_size k ≡ []) (limit : ℕ) where
    search_from_lem :
        (fuel : ℕ) (result : List Meta) (offset : ℕ)
        → length result ≤ limit
        → count ≤ fuel + offset
        → search_from (suc fuel) page limit page_size result offset
          ≡ some (take limit (result ++ distinct result (rows_from fuel (page page_size) offset)))
    unfolding search_from
    search_from_lem zero result offset few enough = elim (Bool-cases (ltb (length result) limit)) [
      | inr full ↦ rw full (ap some (all_found limit result few))
      | inl short ↦ rw short (
          unless_empty_of_nil (page page_size offset) (some result) _ (past offset (omega arith))
          ∙ ap some (all_found limit result few))
    ]
    search_from_lem (suc fuel) result offset few enough =
        let rows = page page_size offset in
        let result' = add_rows limit result rows in
        let rest = search_from (suc fuel) page limit page_size result' (offset + length rows) in
        let later = rows_from fuel (page page_size) (offset + length rows) in
        elim (Bool-cases (ltb (length result) limit)) [
          | inr full ↦ rw full (ap some (filled limit result _ (ground arith) few))
          | inl short ↦ elim (List-cases rows) [
            | inl e ↦ rw short (
                unless_empty_of_nil rows (some result) rest e
                ∙ ap some (all_found limit result few)
                ∙ ap
                    (λ rows. some (take limit (result ++ distinct result (until_empty rows later))))
                    (sym e))
            | inr (x, xs, e) ↦
                let r = add_rows_lem limit result rows (ground arith) in
                let few' : length result' ≤ limit =
                  omega (arith, ap length r, length-take limit (result ++ distinct result rows)) in
                let enough' : count ≤ fuel + (offset + length rows) = omega (arith, ap length e) in
                rw short (
                  unless_empty_of_cons rows (some result) rest x xs e
                  ∙ search_from_lem fuel result' (offset + length rows) few' enough'
                  ∙ ap some (
                      ap (λ s. take limit (s ++ distinct s later)) r
                      ∙ take-take_append limit (result ++ distinct result rows)
                          (λ s. distinct s later)
                      ∙ ap (take limit) (
                          sym (distinct-append result rows later)
                          ∙ ap (λ xs. result ++ distinct result xs)
                              (sym (until_empty_of_cons rows later x xs e)))))
          ]
        ]

  module _ (page : Option (List ℕ) → ℕ → ℕ → List Meta) (count : Option (List ℕ) → ℕ)
      (past : (documents : Option (List ℕ)) (limit offset : ℕ)
        → count documents ≤ offset
        → page documents limit offset ≡ []) where
    -- The rows of the pages of a size; an empty choice of documents has none.
    abbrev pub rows_in : ℕ → Option (List ℕ) → List Meta
    rows_in page_size (some []) = []
    rows_in page_size documents = rows_from (count documents) (page documents page_size) 0

    started :
        (page_size limit : ℕ) (documents : Option (List ℕ))
        → search_from (count documents + 1) (page documents) limit page_size [] 0
          ≡ some
              (take limit (distinct [] (rows_from (count documents) (page documents page_size) 0)))
    started page_size limit documents =
        let n = count documents in
        ap (λ fuel. search_from fuel (page documents) limit page_size [] 0) {x = n + 1} {y = suc n}
          (omega arith)
        ∙ search_from_lem (page documents) n page_size (past documents page_size) limit n [] 0
            (omega arith) (omega arith)

    search_lem :
        (page_size limit : ℕ) (documents : Option (List ℕ))
        → search page count page_size limit documents
          ≡ some (take limit (distinct [] (rows_in page_size documents)))
    unfolding search in_documents
    search_lem page_size limit (some []) = unfold unique_by_key in ap some (sym (take-nil limit))
    search_lem page_size limit none = started page_size limit none
    search_lem page_size limit (some (d ∷ ds)) = started page_size limit (some (d ∷ ds))

    -- Where the database gives no rows at offsets from the number of the rows on, whatever pages it
    -- gives before, with repeated or missing rows: both searches end and return the first `limit`
    -- distinct rows of the pages, each at the offset of the rows before it, up to an empty page, or
    -- all if there are fewer; the pages of the vectors are twice as long; an empty choice of
    -- documents finds none.
    pub relevance_search_lem :
        (limit : ℕ) (documents : Option (List ℕ))
        → (vector_search page count limit documents
            ≡ some (take limit (distinct [] (rows_in (limit * 2) documents))))
          × (text_search page count limit documents
              ≡ some (take limit (distinct [] (rows_in limit documents))))
    unfolding vector_search text_search
    relevance_search_lem limit documents =
        (search_lem (limit * 2) limit documents, search_lem limit limit documents)
