-- ===== src/Answers/SharedLinks.antt =====
-- Which documents are shared, and under which links they are cited.
use mathlib.Core.List.{map-append}
use ai_dial_generic_rag_back.Prelude.{
  ℕ, ◌≡◌, refl, ap, ap₂, sym, ◌∙◌, true, false, Option, none, some, String, str_eq, List, [], ◌∷◌,
  ◌++◌, map, arith, if◌then◌else◌, append_assoc, append-nil, inl, inr, Bool-cases,
}
use ai_dial_generic_rag_back.Prelude.Equality.{string_key, contains, same_refl}
use ai_dial_generic_rag_back.Prelude.Options.{◌>>=◌}
use ai_dial_generic_rag_back.Types.{RetrievedDocument}
use ai_dial_generic_rag_back.Ranking.Unique.{unique_by_key, unique_of_seen, unique_of_new}
use ai_dial_generic_rag_back.Answers.{Call, append_content, add_citation}
use ai_dial_generic_rag_back.Answers.Messages.{cited_docs}
use ai_dial_generic_rag_back.Answers.Sharing.{
  Sharing, shared_url, with_url, share_document, sharing_call, sharing_calls, empty_sharing,
  url_key, source_key,
}

module _ (share : ℕ → Option String) (link : ℕ → String)
    (succeeds : (id : ℕ) → share id ≡ some (link id)) where
  -- The state after `docs` were shared.
  abbrev pub shared_all : List RetrievedDocument → Sharing
  shared_all docs = record {
    urls = map (λ d. (d.source_url, link d.source_id)) docs;
    shared = map source_key docs;
  }

  -- The link of the first document with a URL.
  unfoldable pub link_of : List RetrievedDocument → String → Option String
  link_of [] url = none
  link_of (d ∷ docs) url =
      if str_eq d.source_url url then some (link d.source_id) else link_of docs url

  -- A call as the wrapped answer gets it.
  abbrev pub linked : List RetrievedDocument → Call → Call
  linked docs (append_content t) = append_content t
  linked docs (add_citation doc) = elim (link_of docs doc.source_url) [
    | none ↦ add_citation doc
    | some l ↦ add_citation (with_url doc l)
  ]

  shared_url_lem :
      (docs : List RetrievedDocument) (url : String)
      → shared_url url (shared_all docs).urls ≡ link_of docs url
  unfolding shared_url link_of
  shared_url_lem [] url = refl
  shared_url_lem (d ∷ docs) url =
      ap (λ o. if str_eq d.source_url url then some (link d.source_id) else o)
        (shared_url_lem docs url)

  link_of_old :
      (docs more : List RetrievedDocument) (url : String)
      → contains (map url_key docs) url ≡ true
      → (l : String) × (link_of docs url ≡ some l) × (link_of (docs ++ more) url ≡ some l)
  unfolding link_of
  link_of_old [] more url h = absurd (cc h)
  link_of_old (d ∷ docs) more url h = elim (Bool-cases (str_eq d.source_url url)) [
    | inl e ↦ (link d.source_id, rw e refl, rw e refl)
    | inr e ↦
        let (l, now, later) = link_of_old docs more url (ground arith) in
        (l, rw (e, now) refl, rw (e, later) refl)
  ]

  link_of_new :
      (docs more : List RetrievedDocument) (doc : RetrievedDocument)
      → contains (map url_key docs) doc.source_url ≡ false
      → (link_of docs doc.source_url ≡ none)
        × (link_of (docs ++ doc ∷ more) doc.source_url ≡ some (link doc.source_id))
  unfolding link_of
  link_of_new [] more doc h = (refl, rw (same_refl doc.source_url) refl)
  link_of_new (d ∷ docs) more doc h = elim (Bool-cases (str_eq d.source_url doc.source_url)) [
    | inl e ↦ absurd (ground arith)
    | inr e ↦
        let (now, later) = link_of_new docs more doc (ground arith) in
        (rw (e, now) refl, rw (e, later) refl)
  ]

  share_old :
      (s : Sharing) (doc : RetrievedDocument) (l : String)
      → shared_url doc.source_url s.urls ≡ some l
      → share_document share s doc ≡ some (s, with_url doc l)
  unfolding share_document
  share_old s doc l h = rw (h, share_document)

  share_new :
      (s : Sharing) (doc : RetrievedDocument)
      → shared_url doc.source_url s.urls ≡ none
      → share_document share s doc
        ≡ some (
          record {
            urls = s.urls ++ (doc.source_url, link doc.source_id) ∷ [];
            shared = s.shared ++ doc.source_id ∷ [];
          },
          with_url doc (link doc.source_id),
        )
  unfolding share_document
  share_new s doc h = rw (h, succeeds doc.source_id, share_document)

  cite_old :
      (docs : List RetrievedDocument) (doc : RetrievedDocument) (l : String)
      → link_of docs doc.source_url ≡ some l
      → sharing_call share (shared_all docs) (add_citation doc)
        ≡ some (shared_all docs, add_citation (with_url doc l))
  unfolding sharing_call
  cite_old docs doc l h =
      ap (λ o. o >>= λ x. some (x.0, add_citation x.1))
        (share_old (shared_all docs) doc l (shared_url_lem docs doc.source_url ∙ h))

  cite_new :
      (docs : List RetrievedDocument) (doc : RetrievedDocument)
      → link_of docs doc.source_url ≡ none
      → sharing_call share (shared_all docs) (add_citation doc)
        ≡ some (shared_all (docs ++ doc ∷ []), add_citation (with_url doc (link doc.source_id)))
  unfolding sharing_call
  cite_new docs doc h =
      ap (λ o. o >>= λ x. some (x.0, add_citation x.1))
        (share_new (shared_all docs) doc (shared_url_lem docs doc.source_url ∙ h))
      ∙ ap₂
          (λ us ss.
            some
              (record { urls = us; shared = ss }, add_citation (with_url doc (link doc.source_id))))
          (sym (map-append (λ d. (d.source_url, link d.source_id)) docs (doc ∷ [])))
          (sym (map-append source_key docs (doc ∷ [])))

  one_more :
      (s s' s'' : Sharing) (call call' : Call) (calls calls' : List Call)
      → sharing_call share s call ≡ some (s', call')
      → sharing_calls share s' calls ≡ some (s'', calls')
      → sharing_calls share s (call ∷ calls) ≡ some (s'', call' ∷ calls')
  unfolding sharing_calls
  one_more s s' s'' call call' calls calls' h k = rw (h, k) refl

  -- All documents that were shared in the end.
  abbrev pub shared_docs : List RetrievedDocument → List Call → List RetrievedDocument
  shared_docs docs calls = docs ++ unique_by_key url_key (map url_key docs) (cited_docs calls)

  linked_of_some :
      (docs : List RetrievedDocument) (doc : RetrievedDocument) (l : String)
      → link_of docs doc.source_url ≡ some l
      → linked docs (add_citation doc) ≡ add_citation (with_url doc l)
  linked_of_some docs doc l h =
      ap (λ o. elim o [ none ↦ add_citation doc | some l ↦ add_citation (with_url doc l) ]) h

  -- The results of a list of calls, by the documents that were shared in the end.
  abbrev results : List RetrievedDocument → List Call → Option (Sharing × List Call)
  results docs calls = some (shared_all docs, map (linked docs) calls)

  sharing_calls_from :
      (calls : List Call) (docs : List RetrievedDocument)
      → sharing_calls share (shared_all docs) calls ≡ results (shared_docs docs calls) calls
  sharing_calls_from [] docs =
      unfold unique_by_key sharing_calls in
      ap (λ ds. some (shared_all ds, [])) (sym (append-nil docs))
  sharing_calls_from (append_content t ∷ calls) docs =
      one_more (shared_all docs) (shared_all docs) (shared_all (shared_docs docs calls))
        (append_content t) (append_content t) calls (map (linked (shared_docs docs calls)) calls)
        (unfold sharing_call in refl) (sharing_calls_from calls docs)
  sharing_calls_from (add_citation doc ∷ calls) docs =
      elim (Bool-cases (contains (map url_key docs) doc.source_url)) [
        | inl old ↦
            let final = shared_docs docs calls in
            let (l, now, later) = link_of_old docs _ doc.source_url old in
            one_more (shared_all docs) (shared_all docs) (shared_all final) (add_citation doc)
              (add_citation (with_url doc l)) calls (map (linked final) calls)
              (cite_old docs doc l now) (sharing_calls_from calls docs)
            ∙ ap (λ c. some (shared_all final, c ∷ map (linked final) calls))
                (sym (linked_of_some final doc l later))
            ∙ ap (λ more. results (docs ++ more) (add_citation doc ∷ calls))
                (sym (unique_of_seen url_key (map url_key docs) doc (cited_docs calls) old))
        | inr new ↦
            let docs' = docs ++ doc ∷ [] in
            let final = shared_docs docs' calls in
            let more = unique_by_key url_key (map url_key docs') (cited_docs calls) in
            let (now, later) = link_of_new docs more doc new in
            let same : final ≡ docs ++ doc ∷ more = append_assoc docs (doc ∷ []) more in
            let c = add_citation (with_url doc (link doc.source_id)) in
            one_more (shared_all docs) (shared_all docs') (shared_all final) (add_citation doc) c
              calls (map (linked final) calls) (cite_new docs doc now)
              (sharing_calls_from calls docs')
            ∙ ap (λ ds. some (shared_all ds, c ∷ map (linked ds) calls)) same
            ∙ ap
                (λ d.
                  some
                    (shared_all (docs ++ doc ∷ more), d ∷ map (linked (docs ++ doc ∷ more)) calls))
                (sym (linked_of_some (docs ++ doc ∷ more) doc (link doc.source_id) later))
            ∙ ap (λ ds. results (docs ++ ds) (add_citation doc ∷ calls))
                (ap (λ keys. doc ∷ unique_by_key url_key keys (cited_docs calls))
                    (map-append url_key docs (doc ∷ []))
                  ∙ sym (unique_of_new url_key (map url_key docs) doc (cited_docs calls) new))
      ]

  -- If sharing succeeds: each URL that is cited is shared once, for the first document with it and
  -- in the order of citation, and the wrapped answer gets the same calls, with the URL of each
  -- document replaced by the link that was got for its URL.
  pub sharing_calls_lem :
      (calls : List Call)
      → let docs = unique_by_key url_key [] (cited_docs calls) in
        sharing_calls share empty_sharing calls ≡ some (shared_all docs, map (linked docs) calls)
  sharing_calls_lem calls = sharing_calls_from calls []
