-- ===== src/Retrieval/Sources.antt =====
-- The cache of sources shows what the document service would answer.
use ai_dial_generic_rag_back.Prelude.{
  ℕ, ◌≡◌, refl, sym, ap₂, ◌∙◌, true, false, ◌&&◌, inl, inr, Option, none, some, String, List, [],
  ◌∷◌, keep, map, All, arith, Bool-cases, Option-cases, ◌==◌, ==_iff,
}
use ai_dial_generic_rag_back.Prelude.Equality.{nat_key, string_key, pair_key, contains}
use ai_dial_generic_rag_back.Prelude.Options.{◌>>=◌}
use ai_dial_generic_rag_back.Prelude.Results.{ok, raise}
use ai_dial_generic_rag_back.Types.{ChunkRef}
use ai_dial_generic_rag_back.Chunks.{Store}
use ai_dial_generic_rag_back.Documents.Reading.{get_document_of_none}
use ai_dial_generic_rag_back.Documents.{Document, Library}
use ai_dial_generic_rag_back.Documents.Service.{get_document, get_documents_by_id}
use ai_dial_generic_rag_back.Documents.Invariant.{IsValid}
use ai_dial_generic_rag_back.Retrieval.{
  Config, Sources, find_source, add_sources, is_missing, pair_sources, load_sources,
}
use ai_dial_generic_rag_back.Retrieval.Cached.{
  IsCache, Answers-rows, sources_of, IsCache-add_sources, is_missing-add_sources, covers_lem,
  exists_in, get_by_id-exists_in, find_source-IsCache,
}

module _ (channel : String) where
  -- A reference with the document that the service has for it.
  abbrev pub source_of : Library → ChunkRef → Option Document
  source_of lib ref = elim (get_document channel ref.document_id lib) [
    | ok d ↦ some d
    | raise e ↦ none
  ]

  abbrev pub sources_for : Library → List ChunkRef → Option (List (ChunkRef × Document))
  sources_for lib [] = some []
  sources_for lib (ref ∷ refs) =
      source_of lib ref >>= λ source. sources_for lib refs >>= λ pairs. some ((ref, source) ∷ pairs)

  pair_sources_lem :
      (lib : Library) (sources : Sources) (refs : List ChunkRef)
      → All (λ (ref : ChunkRef). find_source sources ref.document_id ≡ source_of lib ref) refs
      → pair_sources sources refs ≡ sources_for lib refs
  unfolding pair_sources
  pair_sources_lem lib sources [] h = refl
  pair_sources_lem lib sources (ref ∷ refs) h =
      ap₂
        (λ (o : Option Document) (p : Option (List (ChunkRef × Document))).
          o >>= λ source. p >>= λ pairs. some ((ref, source) ∷ pairs))
        h.0 (pair_sources_lem lib sources refs h.1)

contains_kept :
    (sources : Sources) (ids : List ℕ) (id : ℕ)
    → contains (keep (is_missing sources) ids) id ≡ (is_missing sources id && contains ids id)
contains_kept sources [] id = ground arith
contains_kept sources (j ∷ ids) id = elim (Bool-cases (j == id)) [
  | inl same ↦
      let i : j ≡ id = (==_iff j id).0 same in
      rw i (ground (arith, contains_kept sources ids id, ==_iff id id))
  | inr other ↦ ground (arith, contains_kept sources ids id, other)
]

asked_more :
    (id : ℕ) (ids : List ℕ) (refs : List ChunkRef)
    → All (λ (ref : ChunkRef). contains ids ref.document_id ≡ true) refs
    → All (λ (ref : ChunkRef). contains (id ∷ ids) ref.document_id ≡ true) refs
asked_more id ids [] h = tt
asked_more id ids (ref ∷ refs) h = (ground (arith, h.0), asked_more id ids refs h.1)

every_asked :
    (refs : List ChunkRef)
    → All
        (λ (ref : ChunkRef).
          contains (map (λ (r : ChunkRef). r.document_id) refs) ref.document_id ≡ true)
        refs
every_asked [] = tt
every_asked (ref ∷ refs) = (
  ground (arith, ==_iff ref.document_id ref.document_id),
  asked_more ref.document_id (map (λ (r : ChunkRef). r.document_id) refs) refs (every_asked refs),
)

module _ (config : Config) (lib : Library) (v : IsValid config.channel lib) where
  loaded :
      (sources : Sources) (ids : List ℕ) (id : ℕ)
      → IsCache config.channel lib sources
      → contains ids id ≡ true
      → let all_sources =
          add_sources
            (get_documents_by_id config.channel (keep (is_missing sources) ids) lib)
            sources in
        find_source all_sources id
        ≡ (elim (get_document config.channel id lib) [ ok d ↦ some d | raise e ↦ none ])
  unfolding get_documents_by_id
  loaded sources ids id c asked =
      let channel = config.channel in
      let found = get_documents_by_id channel (keep (is_missing sources) ids) lib in
      let all_sources = add_sources found sources in
      let cache : IsCache channel lib all_sources =
        IsCache-add_sources channel lib found sources
          (sources_of channel lib (keep (is_missing sources) ids) lib.documents
            (Answers-rows channel lib.documents v.ids))
          c in
      elim (Option-cases (find_source all_sources id)) [
        | inr (d, e) ↦
            let known = find_source-IsCache channel lib all_sources id d cache e in
            rw (e, known) refl
        | inl e ↦
            let gone : is_missing all_sources id ≡ true = rw (e, is_missing) refl in
            let both = sym (is_missing-add_sources channel found sources id) ∙ gone in
            let absent : exists_in channel lib.documents id ≡ false = ground (
              arith,
              both,
              covers_lem channel (keep (is_missing sources) ids) lib.documents id,
              contains_kept sources ids id,
              asked,
            ) in
            let unknown =
              get_document_of_none channel lib id
                (get_by_id-exists_in channel lib.documents id absent) in
            rw (e, unknown) refl
      ]

  every_loaded :
      (sources : Sources) (ids : List ℕ) (refs : List ChunkRef)
      → IsCache config.channel lib sources
      → All (λ (ref : ChunkRef). contains ids ref.document_id ≡ true) refs
      → let all_sources =
          add_sources
            (get_documents_by_id config.channel (keep (is_missing sources) ids) lib)
            sources in
        All
          (λ (ref : ChunkRef).
            find_source all_sources ref.document_id ≡ source_of config.channel lib ref)
          refs
  every_loaded sources ids [] c h = tt
  every_loaded sources ids (ref ∷ refs) c h =
      (loaded sources ids ref.document_id c h.0, every_loaded sources ids refs c h.1)

  -- Loading sources is transparent: whatever was cached before, if it showed documents as they are,
  -- the call answers each reference with the document that `get_document` has for its document id,
  -- and fails exactly if one of them has none; afterwards the cache again shows documents as they
  -- are.
  pub load_sources_lem :
      (store : Store) (refs : List ChunkRef) (sources : Sources)
      → IsCache config.channel lib sources
      → ((load_sources config lib store refs sources).0 ≡ sources_for config.channel lib refs)
        × IsCache config.channel lib (load_sources config lib store refs sources).1
  unfolding load_sources get_documents_by_id
  load_sources_lem store refs sources c =
      let channel = config.channel in
      let ids = map (λ (ref : ChunkRef). ref.document_id) refs in
      let found = get_documents_by_id channel (keep (is_missing sources) ids) lib in
      (
        pair_sources_lem channel lib (add_sources found sources) refs
            (every_loaded sources ids refs c (every_asked refs)),
        IsCache-add_sources channel lib found sources
            (sources_of channel lib (keep (is_missing sources) ids) lib.documents
              (Answers-rows channel lib.documents v.ids))
            c,
      )
