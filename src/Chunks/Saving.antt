-- ===== src/Chunks/Saving.antt =====
-- What `add_chunks` stores does not depend on the size of its batches.
use ai_dial_generic_rag_back.Prelude.{
  ℕ, ◌≡◌, refl, ap, sym, ◌∙◌, Bool, true, none, some, String, List, [], ◌∷◌, ◌++◌, map, length, leb,
  append_assoc, append-nil, inl, inr, Bool-cases, Option-cases,
}
use ai_dial_generic_rag_back.Prelude.Options.{◌>>=◌}
use ai_dial_generic_rag_back.Prelude.Streams.{end, yield_all}
use ai_dial_generic_rag_back.Types.{ImageChunk, AnyChunk, text_chunk, image_chunk}
use ai_dial_generic_rag_back.Chunks.{
  Entity, Tables, Files, Store, save_entity, save_entities, saved, create_entity, add_from,
  add_chunks,
}

save_entities-append :
    (tables : Tables) (es fs : List Entity)
    → save_entities tables (es ++ fs) ≡ (save_entities tables es >>= λ t. save_entities t fs)
unfolding save_entities
save_entities-append tables [] fs = refl
save_entities-append tables (e ∷ es) fs = elim (Option-cases (save_entity tables e)) [
  | inl h ↦ rw h refl
  | inr (t, h) ↦ rw h (save_entities-append t es fs)
]

split_saved :
    (tables t : Tables) (es fs : List Entity)
    → save_entities tables (es ++ fs) ≡ some t
    → (t' : Tables) × (save_entities tables es ≡ some t') × (save_entities t' fs ≡ some t)
split_saved tables t es fs h = elim (Option-cases (save_entities tables es)) [
  | inl e ↦
      let none_saved : none ≡ some t =
        sym (save_entities-append tables es fs ∙ ap (λ o. o >>= λ t. save_entities t fs) e) ∙ h in
      absurd (cc none_saved)
  | inr (t', e) ↦ (
    t',
    e,
    sym (save_entities-append tables es fs ∙ ap (λ o. o >>= λ t. save_entities t fs) e) ∙ h,
  )
]

saved_lem :
    (store : Store) (batch : List Entity) (then_do : Store → Store × Bool) (t : Tables)
    → save_entities store.tables batch ≡ some t
    → saved store batch then_do ≡ then_do (record store { tables = t })
unfolding saved
saved_lem store batch then_do t h = rw (h, saved)

module _ (channel : String) (image_url : ImageChunk → String) where
  abbrev pub entity_of : AnyChunk → Entity
  entity_of c = (create_entity channel image_url c []).0

  -- The files after the images of some chunks were uploaded.
  abbrev pub uploaded : Files → List AnyChunk → Files
  uploaded files [] = files
  uploaded files (c ∷ cs) = uploaded (create_entity channel image_url c files).1 cs

  entity_of_lem :
      (c : AnyChunk) (files : Files) → (create_entity channel image_url c files).0 ≡ entity_of c
  entity_of_lem (text_chunk c) files = refl
  entity_of_lem (image_chunk c) files = refl

  add_from_lem :
      (size : ℕ) (cs : List AnyChunk) (batch : List Entity) (store : Store) (t : Tables)
      → save_entities store.tables (batch ++ map entity_of cs) ≡ some t
      → add_from channel image_url size batch store (yield_all cs end)
        ≡ (record { tables = t; files = uploaded store.files cs }, true)
  unfolding add_from
  add_from_lem size [] [] store t h =
      ap (λ (u : Tables). (record { tables = u; files = store.files }, true))
        (unfold save_entities in cc h)
  add_from_lem size [] (e ∷ batch) store t h =
      saved_lem store (e ∷ batch) (λ st. (st, true)) t
        (sym (ap (save_entities store.tables) (append-nil (e ∷ batch))) ∙ h)
  add_from_lem size (c ∷ cs) batch store t h =
      let (entity, files) = create_entity channel image_url c store.files in
      let store' : Store = record store { files = files } in
      let batch' = batch ++ entity ∷ [] in
      let h' : save_entities store.tables (batch' ++ map entity_of cs) ≡ some t =
        ap (save_entities store.tables) (
          append_assoc batch (entity ∷ []) (map entity_of cs)
          ∙ ap (λ e. batch ++ e ∷ map entity_of cs) (entity_of_lem c store.files))
        ∙ h in
      elim (Bool-cases (leb size (length batch'))) [
        | inl e ↦
            let (t', first, later) = split_saved store.tables t batch' (map entity_of cs) h' in
            rw e (
              saved_lem store' batch'
                (λ st. add_from channel image_url size [] st (yield_all cs end)) t' first
              ∙ add_from_lem size cs [] (record store' { tables = t' }) t later)
        | inr e ↦ rw e (add_from_lem size cs batch' store' t h')
      ]

  -- If the rows of all chunks can be stored at once, then whatever the size of the batches the
  -- chunks are stored just so, and all their images are uploaded.
  pub add_chunks_lem :
      (size : ℕ) (cs : List AnyChunk) (store : Store) (t : Tables)
      → save_entities store.tables (map entity_of cs) ≡ some t
      → add_chunks channel image_url size store (yield_all cs end)
        ≡ (record { tables = t; files = uploaded store.files cs }, true)
  unfolding add_chunks
  add_chunks_lem size cs store t h = add_from_lem size cs [] store t h
