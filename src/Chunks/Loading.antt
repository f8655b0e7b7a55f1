-- ===== src/Chunks/Loading.antt =====
-- Rows with increasing ids, stored and loaded again.
use ai_dial_generic_rag_back.Prelude.{
  ℕ, ◌+◌, ◌≤◌, ◌≡◌, refl, ap, ◌∙◌, true, false, not, some, String, str_eq, List, [], ◌∷◌, ◌++◌,
  arith, map, keep, All, inl, inr, Bool-cases, eq_iff,
}
use ai_dial_generic_rag_back.Prelude.Streams.{Stream, end, next, yield_all}
use ai_dial_generic_rag_back.Types.{TextChunk, ImageChunk, AnyChunk, text_chunk, image_chunk}
use ai_dial_generic_rag_back.Chunks.{
  Row, Files, is_of, has_key, insert_row, insert_ordered, order_by_id, download_file, put_file,
  convert_texts, convert_images, text_row, image_row,
}
use ai_dial_generic_rag_back.Chunks.Saving.{uploaded}

module _ {ℓ} {P : Type ℓ} (channel : String) (document : ℕ) where
  -- No row of the document has an id above `n`.
  abbrev pub AllBelow : ℕ → List (Row P) → Type 0
  AllBelow n = All (λ r. is_of channel document r ≡ true → r.chunk_id ≤ n)

  -- Rows of the document with the ids n + 1, n + 2, ...
  abbrev pub Follow : ℕ → List (Row P) → Type 0
  Follow n [] = Unit
  Follow n (r ∷ rows) =
      (is_of channel document r ≡ true) × (r.chunk_id ≡ n + 1) × Follow (n + 1) rows

  pub AllBelow-suc : (n : ℕ) (rows : List (Row P)) → AllBelow n rows → AllBelow (n + 1) rows
  AllBelow-suc n [] h = tt
  AllBelow-suc n (r ∷ rows) h =
      ((λ own. let le = h.0 own in omega (arith, le)), AllBelow-suc n rows h.1)

  has_key_fresh :
      (n : ℕ) (rows : List (Row P))
      → AllBelow n rows
      → has_key rows channel document (n + 1) ≡ false
  unfolding has_key
  has_key_fresh n [] h = refl
  has_key_fresh n (r ∷ rows) h = elim (Bool-cases (is_of channel document r)) [
    | inl own ↦ let le = h.0 own in ground (arith, has_key_fresh n rows h.1)
    | inr other ↦ rw other (has_key_fresh n rows h.1)
  ]

  pub insert_row_fresh :
      (n : ℕ) (rows : List (Row P)) (r : Row P)
      → AllBelow n rows
      → r.channel_key ≡ channel
      → r.document_id ≡ document
      → r.chunk_id ≡ n + 1
      → insert_row rows r ≡ some (rows ++ r ∷ [])
  unfolding insert_row
  insert_row_fresh n rows r h c d i = rw (c, d, i, has_key_fresh n rows h) refl

  insert_ordered-Follow :
      (n : ℕ) (r : Row P) (rows : List (Row P))
      → Follow n (r ∷ rows)
      → insert_ordered r rows ≡ r ∷ rows
  unfolding insert_ordered
  insert_ordered-Follow n r [] h = refl
  insert_ordered-Follow n r (s ∷ rows) h = ground arith

  pub order_by_id-Follow : (n : ℕ) (rows : List (Row P)) → Follow n rows → order_by_id rows ≡ rows
  unfolding order_by_id
  order_by_id-Follow n [] h = refl
  order_by_id-Follow n (r ∷ rows) h =
      ap (insert_ordered r) (order_by_id-Follow (n + 1) rows h.2) ∙ insert_ordered-Follow n r rows h

  pub keep-Follow :
      (n : ℕ) (old rows : List (Row P))
      → keep (is_of channel document) old ≡ []
      → Follow n rows
      → keep (is_of channel document) (old ++ rows) ≡ rows
  keep-Follow n [] [] none_left h = refl
  keep-Follow n [] (r ∷ rows) none_left h =
      rw h.0 (ap (◌∷◌ r) (keep-Follow (n + 1) [] rows refl h.2))
  keep-Follow n (o ∷ old) rows none_left h = elim (Bool-cases (is_of channel document o)) [
    | inl own ↦ absurd (ground arith)
    | inr other ↦ rw other (keep-Follow n old rows (ground arith) h)
  ]

  pub AllBelow-keep :
      (rows : List (Row P)) → AllBelow 0 (keep (λ r. not (is_of channel document r)) rows)
  AllBelow-keep [] = tt
  AllBelow-keep (r ∷ rows) = elim (Bool-cases (is_of channel document r)) [
    | inl own ↦ rw own (AllBelow-keep rows)
    | inr other ↦ rw other ((λ own. absurd (ground arith)), AllBelow-keep rows)
  ]

module _ (channel : String) (image_url : ImageChunk → String) where
  pub convert_texts-text_row :
      (cs : List TextChunk) (rest : Stream AnyChunk)
      → convert_texts (map (text_row channel image_url) cs) rest
        ≡ yield_all (map text_chunk cs) rest
  unfolding convert_texts
  convert_texts-text_row [] rest = refl
  convert_texts-text_row (c ∷ cs) rest = ap (next (text_chunk c)) (convert_texts-text_row cs rest)

  -- The storage has the image.
  abbrev pub IsStored : Files → ImageChunk → Type 0
  IsStored files c = download_file (image_url c) files ≡ some c.content

  pub convert_images-image_row :
      (files : Files) (cs : List ImageChunk)
      → All (IsStored files) cs
      → convert_images files (map (image_row channel image_url) cs)
        ≡ yield_all (map image_chunk cs) end
  unfolding convert_images
  convert_images-image_row files [] h = refl
  convert_images-image_row files (c ∷ cs) h =
      rw (h.0, convert_images) (ap (next (image_chunk c)) (convert_images-image_row files cs h.1))

  abbrev pub images_of : List AnyChunk → List ImageChunk
  images_of [] = []
  images_of (text_chunk c ∷ cs) = images_of cs
  images_of (image_chunk c ∷ cs) = c ∷ images_of cs

  abbrev pub texts_of : List AnyChunk → List TextChunk
  texts_of [] = []
  texts_of (text_chunk c ∷ cs) = c ∷ texts_of cs
  texts_of (image_chunk c ∷ cs) = texts_of cs

  module _
      (same_content : (a b : ImageChunk) → image_url a ≡ image_url b → a.content ≡ b.content) where
    IsStored-put_file :
        (files : Files) (a b : ImageChunk)
        → IsStored files a
        → IsStored (put_file (image_url b) b.content files) a
    unfolding download_file
    IsStored-put_file files a b h = elim (Bool-cases (str_eq (image_url b) (image_url a))) [
      | inl e ↦ rw e (ap some (same_content b a ((eq_iff (image_url b) (image_url a)).0 e)))
      | inr e ↦ rw e h
    ]

    IsStored-uploaded :
        (cs : List AnyChunk) (files : Files) (a : ImageChunk)
        → IsStored files a
        → IsStored (uploaded channel image_url files cs) a
    IsStored-uploaded [] files a h = h
    IsStored-uploaded (text_chunk c ∷ cs) files a h = IsStored-uploaded cs files a h
    IsStored-uploaded (image_chunk c ∷ cs) files a h =
        IsStored-uploaded cs (put_file (image_url c) c.content files) a
          (IsStored-put_file files a c h)

    IsStored-put_file_self :
        (files : Files) (c : ImageChunk) → IsStored (put_file (image_url c) c.content files) c
    unfolding download_file
    IsStored-put_file_self files c = rw ((eq_iff (image_url c) (image_url c)).1 refl) refl

    pub uploaded-IsStored :
        (cs : List AnyChunk) (files : Files)
        → All (IsStored (uploaded channel image_url files cs)) (images_of cs)
    uploaded-IsStored [] files = tt
    uploaded-IsStored (text_chunk c ∷ cs) files = uploaded-IsStored cs files
    uploaded-IsStored (image_chunk c ∷ cs) files = (
      IsStored-uploaded cs (put_file (image_url c) c.content files) c
          (IsStored-put_file_self files c),
      uploaded-IsStored cs (put_file (image_url c) c.content files),
    )
