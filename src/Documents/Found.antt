-- ===== src/Documents/Found.antt =====
-- What a search for documents returns.
use mathlib.Core.Option
use ai_dial_generic_rag_back.Prelude.{
  ℕ, zero, suc, ◌≡◌, refl, ap, ap₂, sym, ◌∙◌, Bool, true, false, ◌&&◌, inl, inr, Bool-cases,
  Option-cases, Option, none, some, String, List, [], ◌∷◌, take, keep, map, length, All, arith,
  ◌==◌, ==_iff,
}
use ai_dial_generic_rag_back.Prelude.Equality.{nat_key, contains}
use ai_dial_generic_rag_back.Prelude.Results.{
  Result, ok, raise, value_error, key_error, not_found, ◌>>=◌,
}
use ai_dial_generic_rag_back.Ranking.{Floats, replicate}
use ai_dial_generic_rag_back.Ranking.Sorting.{IsOrdered}
use ai_dial_generic_rag_back.Ranking.Unique.{DistinctKeys}
use ai_dial_generic_rag_back.Ranking.Laws.{IsFusion, effective, rank_fusion-IsFusion}
use ai_dial_generic_rag_back.Documents.{DocumentEntity, Document, Library, from_entity}
use ai_dial_generic_rag_back.Documents.Repository.{first, is_own, has_id}
use ai_dial_generic_rag_back.Documents.Reading.{get_document_of_none, get_document_of_some}
use ai_dial_generic_rag_back.Documents.Service.{get_document, get_documents_by_id}
use ai_dial_generic_rag_back.Documents.Matcher.{Database, MatcherConfig}
use ai_dial_generic_rag_back.Documents.Searching.{
  DocumentIndex, has_duplicates, names_of, search_all, find_document, pick_documents, search_scope,
  fuse_results, search,
}

length-replicate {ℓ} : {A : Type ℓ} (n : ℕ) (a : A) → length (replicate n a) ≡ n
length-replicate zero a = refl
length-replicate (suc n) a = ap suc (length-replicate n a)

module _ (channel : String) (lib : Library) where
  -- The documents of some ids, in their order; or, if one of them has no document, the exception.
  abbrev pub IsAnswer : List ℕ → Result (List Document) → Type 0
  IsAnswer ids (ok docs) =
      (map (λ (d : Document). d.id) docs ≡ ids)
      × All (λ d. get_document channel d.id lib ≡ ok d) docs
  IsAnswer ids (raise e) =
      (e ≡ key_error)
      × (id : ℕ) × (contains ids id ≡ true)
      × (get_document channel id lib ≡ raise not_found)

  abbrev document_of : ℕ → List DocumentEntity → Option Document
  document_of id rows = Option.map from_entity (first (has_id channel id) rows)

  find_document-keep :
      (ids : List ℕ) (id : ℕ) (rows : List DocumentEntity)
      → contains ids id ≡ true
      → find_document
          (map from_entity (keep (λ e. is_own channel e && contains ids e.document_id) rows))
          id
        ≡ document_of id rows
  unfolding first
  find_document-keep ids id [] h = refl
  find_document-keep ids id (r ∷ rows) h = elim (Bool-cases (is_own channel r)) [
    | inr foreign ↦ rw foreign (find_document-keep ids id rows h)
    | inl own ↦ elim (Bool-cases (r.document_id == id)) [
      | inl same ↦
          let e : r.document_id ≡ id = (==_iff r.document_id id).0 same in
          rw (own, same, ap (contains ids) e ∙ h) (rw same refl)
      | inr differs ↦ elim (Bool-cases (contains ids r.document_id)) [
        | inl asked ↦ rw (own, differs, asked) (rw differs (find_document-keep ids id rows h))
        | inr other ↦ rw (own, differs, other) (find_document-keep ids id rows h)
      ]
    ]
  ]

  first-holds :
      (test : DocumentEntity → Bool) (rows : List DocumentEntity) (r : DocumentEntity)
      → first test rows ≡ some r
      → test r ≡ true
  unfolding first
  first-holds test [] r h = absurd (cc h)
  first-holds test (e ∷ rows) r h = elim (Bool-cases (test e)) [
    | inl passes ↦ let same : e ≡ r = cc (rw passes at h) in ap test (sym same) ∙ passes
    | inr fails ↦ first-holds test rows r (rw fails at h)
  ]

  IsAnswer-cons :
      (id : ℕ) (d : Document) (ids : List ℕ) (r : Result (List Document))
      → d.id ≡ id
      → get_document channel id lib ≡ ok d
      → IsAnswer ids r
      → IsAnswer (id ∷ ids) (r >>= λ ds. ok (d ∷ ds))
  IsAnswer-cons id d ids (ok ds) same known h =
      (ap₂ ◌∷◌ same h.0, (ap (λ n. get_document channel n lib) same ∙ known, h.1))
  IsAnswer-cons id d ids (raise e) same known (err, missing, asked, absent) =
      (err, missing, ground (arith, asked), absent)

  pick_documents_lem :
      (all ids : List ℕ)
      → All (λ id. contains all id ≡ true) ids
      → IsAnswer ids (pick_documents (get_documents_by_id channel all lib) ids)
  unfolding pick_documents get_documents_by_id
  pick_documents_lem all [] h = (refl, tt)
  pick_documents_lem all (id ∷ ids) h =
      let found = find_document-keep all id lib.documents h.0 in
      elim (Option-cases (first (has_id channel id) lib.documents)) [
        | inl e ↦
            rw (found, e, pick_documents)
              (refl, id, ground (arith, ==_iff id id), get_document_of_none channel lib id e)
        | inr (r, e) ↦
            let own = first-holds (has_id channel id) lib.documents r e in
            rw (found, e, pick_documents)
              (IsAnswer-cons id (from_entity r) ids
                (pick_documents (get_documents_by_id channel all lib) ids)
                (ground (arith, own, ==_iff r.document_id id))
                (get_document_of_some channel lib id r e) (pick_documents_lem all ids h.1))
      ]

  All-contains :
      (ids more : List ℕ)
      → All (λ id. contains ids id ≡ true) more
      → (n : ℕ) → All (λ id. contains (n ∷ ids) id ≡ true) more
  All-contains ids [] h n = tt
  All-contains ids (id ∷ more) h n = (ground (arith, h.0), All-contains ids more h.1 n)

  every_contained : (ids : List ℕ) → All (λ id. contains ids id ≡ true) ids
  every_contained [] = tt
  every_contained (n ∷ ids) =
      (ground (arith, ==_iff n n), All-contains ids ids (every_contained ids) n)

module _ (f : Floats) (db : Database) (channel : String) (lib : Library)
    (indexes : List DocumentIndex) where
  -- What a call returns, by whether names are repeated and what the indexes find.
  abbrev pub IsFound : ℕ → Bool → List (List ℕ) → Result (List Document) → Type 0
  IsFound limit true lists r = r ≡ raise value_error
  IsFound limit false [] r = r ≡ ok []
  IsFound limit false (ids ∷ lists) r =
      (ranked : List ℕ) × IsFusion f (λ (id : ℕ). id) (ids ∷ lists)
        (effective f (λ (id : ℕ). id) (length (ids ∷ lists)) none) 60 ranked
      × IsAnswer channel lib (take limit ranked) r

  fuse_results_lem :
      (limit : ℕ) (lists : List (List ℕ))
      → IsOrdered f
      → All (DistinctKeys (λ (id : ℕ). id)) lists
      → IsFound limit false lists (fuse_results f db channel lib indexes limit lists)
  unfolding fuse_results
  fuse_results_lem limit [] o once = refl
  fuse_results_lem limit (found ∷ others) o once =
      let (ranked, runs, fusion) =
        rank_fusion-IsFusion f (λ (id : ℕ). id) found others none 60 o once
          (length-replicate _ _) in
      (
        ranked,
        fusion,
        rw (runs, fuse_results)
            (pick_documents_lem channel lib (take limit ranked) (take limit ranked)
              (every_contained channel lib (take limit ranked))),
      )

  -- Where no index finds an id twice: a call that names an index twice raises a value error; one
  -- that searches no index returns nothing; and for any other call the fusion of what the indexes
  -- find has each id once, in the order of the scores, and the call returns the documents of its
  -- first `limit` ids, in this order, or, if one of them has no document, raises a KeyError.
  pub search_lem :
      (query : String) (limit : ℕ) (index_names : List String)
      (matcher_config : Option MatcherConfig)
      → IsOrdered f
      → All (DistinctKeys (λ (id : ℕ). id)) (
          search_all indexes query limit
            (search_scope f db channel lib indexes matcher_config)
            (names_of index_names indexes))
      → IsFound limit
          (has_duplicates index_names)
          (search_all indexes query limit
            (search_scope f db channel lib indexes matcher_config)
            (names_of index_names indexes))
          (search f db channel lib indexes query limit index_names matcher_config)
  unfolding search
  search_lem query limit index_names matcher_config o once =
      let lists =
        search_all indexes query limit (search_scope f db channel lib indexes matcher_config)
          (names_of index_names indexes) in
      elim (Bool-cases (has_duplicates index_names)) [
        | inl repeated ↦ rw repeated refl
        | inr single ↦ rw single (fuse_results_lem limit lists o once)
      ]
