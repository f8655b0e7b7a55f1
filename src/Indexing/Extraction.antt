-- ===== src/Indexing/Extraction.antt =====
-- The numbers of extracted chunks, and the tables after they were added.
use mathlib.Core.Option
use ai_dial_generic_rag_back.Prelude.{
  ℕ, ◌+◌, ◌≤◌, ◌≡◌, refl, ap, ap₂, sym, ◌∙◌, true, some, String, List, [], ◌∷◌, ◌++◌, arith, map,
  All, append_assoc, append-nil, str_eq, eq_iff, ◌==◌, ◌&&◌, All-append,
}
use ai_dial_generic_rag_back.Prelude.Options.{◌>>=◌}
use ai_dial_generic_rag_back.Prelude.Streams.{end, next, yield_all}
use ai_dial_generic_rag_back.Types.{TextChunk, ImageChunk, AnyChunk, text_chunk, image_chunk}
use ai_dial_generic_rag_back.Types.Chunk
use ai_dial_generic_rag_back.Chunks.{
  Row, Tables, is_of, save_entity, save_entities, text_row, image_row,
}
use ai_dial_generic_rag_back.Chunks.Saving.{entity_of}
use ai_dial_generic_rag_back.Chunks.Loading.{
  AllBelow, Follow, AllBelow-suc, insert_row_fresh, images_of, texts_of,
}
use ai_dial_generic_rag_back.Indexing.{with_id, number_chunks}

-- Chunks numbered behind `n`.
abbrev pub number_texts : ℕ → List TextChunk → List TextChunk
number_texts n [] = []
number_texts n (c ∷ cs) = record c { chunk_id = n + 1 } ∷ number_texts (n + 1) cs

abbrev pub number_images : ℕ → List ImageChunk → List ImageChunk
number_images n [] = []
number_images n (c ∷ cs) = record c { chunk_id = n + 1 } ∷ number_images (n + 1) cs

abbrev pub numbered : ℕ → ℕ → List AnyChunk → List AnyChunk
numbered t i [] = []
numbered t i (text_chunk c ∷ cs) = with_id (text_chunk c) (t + 1) ∷ numbered (t + 1) i cs
numbered t i (image_chunk c ∷ cs) = with_id (image_chunk c) (i + 1) ∷ numbered t (i + 1) cs

pub number_chunks_lem :
    (t i : ℕ) (cs : List AnyChunk)
    → number_chunks t i (yield_all cs end) ≡ yield_all (numbered t i cs) end
unfolding number_chunks
number_chunks_lem t i [] = refl
number_chunks_lem t i (text_chunk c ∷ cs) =
    ap (next (with_id (text_chunk c) (t + 1))) (number_chunks_lem (t + 1) i cs)
number_chunks_lem t i (image_chunk c ∷ cs) =
    ap (next (with_id (image_chunk c) (i + 1))) (number_chunks_lem t (i + 1) cs)

module _ (channel : String) (image_url : ImageChunk → String) (document : ℕ) where
  abbrev pub texts : List AnyChunk → List TextChunk
  texts = texts_of channel image_url

  abbrev pub images : List AnyChunk → List ImageChunk
  images = images_of channel image_url

  pub texts-numbered :
      (t i : ℕ) (cs : List AnyChunk) → texts (numbered t i cs) ≡ number_texts t (texts cs)
  texts-numbered t i [] = refl
  texts-numbered t i (text_chunk c ∷ cs) =
      ap (◌∷◌ (record c { chunk_id = t + 1 })) (texts-numbered (t + 1) i cs)
  texts-numbered t i (image_chunk c ∷ cs) = texts-numbered t (i + 1) cs

  pub images-numbered :
      (t i : ℕ) (cs : List AnyChunk) → images (numbered t i cs) ≡ number_images i (images cs)
  images-numbered t i [] = refl
  images-numbered t i (text_chunk c ∷ cs) = images-numbered (t + 1) i cs
  images-numbered t i (image_chunk c ∷ cs) =
      ap (◌∷◌ (record c { chunk_id = i + 1 })) (images-numbered t (i + 1) cs)

  -- The tables with the rows of some chunks behind the others.
  abbrev pub extended : Tables → List AnyChunk → Tables
  extended tables cs = record {
    text_chunks = tables.text_chunks ++ map (text_row channel image_url) (texts cs);
    image_chunks = tables.image_chunks ++ map (image_row channel image_url) (images cs);
  }

  abbrev pub IsFrom : AnyChunk → Type 0
  IsFrom c = Chunk.document_id c ≡ document

  own_row : (d : ℕ) → d ≡ document → (str_eq channel channel && d == document) ≡ true
  own_row d h = ground (arith, eq_iff channel channel)

  save_text :
      (t : ℕ) (tables : Tables) (c : TextChunk)
      → c.document_id ≡ document
      → c.chunk_id ≡ t + 1
      → AllBelow channel document t tables.text_chunks
      → save_entity tables (entity_of channel image_url (text_chunk c))
        ≡ some (record tables {
          text_chunks = tables.text_chunks ++ text_row channel image_url c ∷ [];
        })
  unfolding save_entity
  save_text t tables c d i below = ap (Option.map (λ rows. record tables { text_chunks = rows })) (
      insert_row_fresh channel document t tables.text_chunks (text_row channel image_url c) below
        refl d i)

  save_image :
      (t : ℕ) (tables : Tables) (c : ImageChunk)
      → c.document_id ≡ document
      → c.chunk_id ≡ t + 1
      → AllBelow channel document t tables.image_chunks
      → save_entity tables (entity_of channel image_url (image_chunk c))
        ≡ some (record tables {
          image_chunks = tables.image_chunks ++ image_row channel image_url c ∷ [];
        })
  unfolding save_entity
  save_image t tables c d i below =
      ap (Option.map (λ rows. record tables { image_chunks = rows })) (
        insert_row_fresh channel document t tables.image_chunks (image_row channel image_url c)
          below refl d i)

  AllBelow-append :
      {P : Type 0} (n : ℕ) (rows : List (Row P)) (r : Row P)
      → AllBelow channel document n rows
      → r.chunk_id ≡ n + 1
      → AllBelow channel document (n + 1) (rows ++ r ∷ [])
  AllBelow-append n rows r below h =
      All-append (λ r. is_of channel document r ≡ true → r.chunk_id ≤ n + 1) rows (r ∷ [])
        (AllBelow-suc channel document n rows below) ((λ own. omega arith), tt)

  pub save_numbered :
      (cs : List AnyChunk) (t i : ℕ) (tables : Tables)
      → All IsFrom cs
      → AllBelow channel document t tables.text_chunks
      → AllBelow channel document i tables.image_chunks
      → save_entities tables (map (entity_of channel image_url) (numbered t i cs))
        ≡ some (extended tables (numbered t i cs))
  unfolding save_entities
  save_numbered [] t i tables from below below' =
      ap₂ (λ ts is. some (record { text_chunks = ts; image_chunks = is }))
        (sym (append-nil tables.text_chunks)) (sym (append-nil tables.image_chunks))
  save_numbered (text_chunk c ∷ cs) t i tables from below below' =
      let c' = record c { chunk_id = t + 1 } in
      let r = text_row channel image_url c' in
      ap
        (λ o.
          o >>= λ t'. save_entities t' (map (entity_of channel image_url) (numbered (t + 1) i cs)))
        (save_text t tables c' from.0 refl below)
      ∙ save_numbered cs (t + 1) i _ from.1 (AllBelow-append t tables.text_chunks r below refl)
          below'
      ∙ ap
          (λ ts. some (record {
            text_chunks = ts;
            image_chunks =
                tables.image_chunks
                ++ map (image_row channel image_url) (images (numbered (t + 1) i cs));
          }))
          (append_assoc tables.text_chunks (r ∷ []) _)
  save_numbered (image_chunk c ∷ cs) t i tables from below below' =
      let c' = record c { chunk_id = i + 1 } in
      let r = image_row channel image_url c' in
      ap
        (λ o.
          o >>= λ t'. save_entities t' (map (entity_of channel image_url) (numbered t (i + 1) cs)))
        (save_image i tables c' from.0 refl below')
      ∙ save_numbered cs t (i + 1) _ from.1 below
          (AllBelow-append i tables.image_chunks r below' refl)
      ∙ ap
          (λ is. some (record {
            text_chunks =
                tables.text_chunks
                ++ map (text_row channel image_url) (texts (numbered t (i + 1) cs));
            image_chunks = is;
          }))
          (append_assoc tables.image_chunks (r ∷ []) _)

  pub Follow-texts :
      (cs : List AnyChunk) (t i : ℕ)
      → All IsFrom cs
      → Follow channel document t (map (text_row channel image_url) (texts (numbered t i cs)))
  Follow-texts [] t i from = tt
  Follow-texts (text_chunk c ∷ cs) t i from =
      (own_row c.document_id from.0, refl, Follow-texts cs (t + 1) i from.1)
  Follow-texts (image_chunk c ∷ cs) t i from = Follow-texts cs t (i + 1) from.1

  pub Follow-images :
      (cs : List AnyChunk) (t i : ℕ)
      → All IsFrom cs
      → Follow channel document i (map (image_row channel image_url) (images (numbered t i cs)))
  Follow-images [] t i from = tt
  Follow-images (text_chunk c ∷ cs) t i from = Follow-images cs (t + 1) i from.1
  Follow-images (image_chunk c ∷ cs) t i from =
      (own_row c.document_id from.0, refl, Follow-images cs t (i + 1) from.1)
