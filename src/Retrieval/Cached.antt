-- ===== src/Retrieval/Cached.antt =====
-- The dictionary of sources beside the documents of the service.
use ai_dial_generic_rag_back.Prelude.{
  ℕ, ◌≡◌, refl, sym, ap, ◌∙◌, Bool, true, false, ◌&&◌, ◌||◌, not, inl, inr, none, some, String,
  eq_iff, List, [], ◌∷◌, map, All, arith, Bool-cases, ◌==◌, ==_iff,
}
use ai_dial_generic_rag_back.Prelude.Equality.{nat_key, string_key, pair_key, contains}
use ai_dial_generic_rag_back.Prelude.Distinct.{Distinct}
use ai_dial_generic_rag_back.Prelude.Results.{ok}
use ai_dial_generic_rag_back.Documents.{DocumentEntity, Document, Library, from_entity}
use ai_dial_generic_rag_back.Documents.Repository.{
  id_key, first, is_own, has_id, get_by_id, get_by_ids,
}
use ai_dial_generic_rag_back.Documents.Service.{get_document}
use ai_dial_generic_rag_back.Retrieval.{Sources, find_source, add_sources, is_missing}

-- Each source is the document that has its id.
abbrev pub IsCache : String → Library → Sources → Type 0
IsCache channel lib [] = Unit
IsCache channel lib ((id, source) ∷ sources) =
    (get_document channel id lib ≡ ok source) × IsCache channel lib sources

abbrev pub Answers : String → List DocumentEntity → DocumentEntity → Type 0
Answers channel rows e = is_own channel e ≡ true → get_by_id channel e.document_id rows ≡ some e

module _ (channel : String) where
  Answers-behind :
      (r : DocumentEntity) (rows part : List DocumentEntity)
      → contains (map id_key part) (id_key r) ≡ false
      → All (Answers channel rows) part
      → All (Answers channel (r ∷ rows)) part
  unfolding first
  Answers-behind r rows [] absent h = tt
  Answers-behind r rows (e ∷ part) absent h = (
    λ own. ground (
      arith,
      h.0 own,
      eq_iff r.channel_key channel,
      eq_iff e.channel_key channel,
      eq_iff e.channel_key r.channel_key,
      ==_iff r.document_id e.document_id,
      ==_iff e.document_id r.document_id,
    ),
    Answers-behind r rows part (ground arith) h.1,
  )

  -- With distinct keys, each row of the channel answers to its id.
  pub Answers-rows :
      (rows : List DocumentEntity) → Distinct (map id_key rows) → All (Answers channel rows) rows
  unfolding first
  Answers-rows [] d = tt
  Answers-rows (r ∷ rows) d = (
    λ own. ground (arith, ==_iff r.document_id r.document_id),
    Answers-behind r rows rows d.0 (Answers-rows rows d.1),
  )

  pub sources_of :
      (lib : Library) (ids : List ℕ) (rows : List DocumentEntity)
      → All (Answers channel lib.documents) rows
      → All
          (λ d. get_document channel d.id lib ≡ ok d)
          (map from_entity (get_by_ids channel ids rows))
  unfolding get_document
  sources_of lib ids [] h = tt
  sources_of lib ids (r ∷ rows) h =
      elim (Bool-cases (is_own channel r && contains ids r.document_id)) [
        | inl chosen ↦
            let own : is_own channel r ≡ true = ground arith in
            let answer = h.0 own in
            rw chosen (rw (answer, get_document) refl, sources_of lib ids rows h.1)
        | inr other ↦ rw other (sources_of lib ids rows h.1)
      ]

  pub IsCache-add_sources :
      (lib : Library) (ds : List Document) (sources : Sources)
      → All (λ d. get_document channel d.id lib ≡ ok d) ds
      → IsCache channel lib sources
      → IsCache channel lib (add_sources ds sources)
  unfolding add_sources
  IsCache-add_sources lib [] sources h c = c
  IsCache-add_sources lib (d ∷ ds) sources h c =
      IsCache-add_sources lib ds ((d.id, d) ∷ sources) h.1 (h.0, c)

  -- Whether one of the documents has an id.
  abbrev pub covers : List Document → ℕ → Bool
  covers [] id = false
  covers (d ∷ ds) id = d.id == id || covers ds id

  pub is_missing-add_sources :
      (ds : List Document) (sources : Sources) (id : ℕ)
      → is_missing (add_sources ds sources) id ≡ (not (covers ds id) && is_missing sources id)
  unfolding add_sources find_source
  is_missing-add_sources [] sources id = refl
  is_missing-add_sources (d ∷ ds) sources id =
      ground (arith, is_missing-add_sources ds ((d.id, d) ∷ sources) id)

  unfoldable pub exists_in : List DocumentEntity → ℕ → Bool
  exists_in [] id = false
  exists_in (r ∷ rows) id = has_id channel id r || exists_in rows id

  pub covers_lem :
      (ids : List ℕ) (rows : List DocumentEntity) (id : ℕ)
      → covers (map from_entity (get_by_ids channel ids rows)) id
        ≡ (contains ids id && exists_in rows id)
  unfolding exists_in
  covers_lem ids [] id = ground arith
  covers_lem ids (r ∷ rows) id = ground (arith, covers_lem ids rows id, ==_iff r.document_id id)

  pub get_by_id-exists_in :
      (rows : List DocumentEntity) (id : ℕ)
      → exists_in rows id ≡ false
      → get_by_id channel id rows ≡ none
  unfolding exists_in first
  get_by_id-exists_in [] id h = refl
  get_by_id-exists_in (r ∷ rows) id h = ground (arith, get_by_id-exists_in rows id)

  pub find_source-IsCache :
      (lib : Library) (sources : Sources) (id : ℕ) (d : Document)
      → IsCache channel lib sources
      → find_source sources id ≡ some d
      → get_document channel id lib ≡ ok d
  unfolding find_source
  find_source-IsCache lib [] id d c h = cc
  find_source-IsCache lib ((j, e) ∷ sources) id d c h = elim (Bool-cases (j == id)) [
    | inl same ↦
        let i : j ≡ id = (==_iff j id).0 same in
        let v : e ≡ d = ground arith in sym (ap (λ k. get_document channel k lib) i) ∙ c.0 ∙ ap ok v
    | inr other ↦ find_source-IsCache lib sources id d c.1 (ground arith)
  ]
