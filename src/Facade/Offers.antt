-- ===== src/Facade/Offers.antt =====
-- Whether an archive is on offer after a part of an operation.
use ai_dial_generic_rag_back.Prelude.{
  ◌≡◌, ◌⊎◌, refl, ◌∙◌, Bool, true, false, not, inl, inr, Option, none, some, String, List, arith,
  Bool-cases, if◌then◌else◌,
}
use ai_dial_generic_rag_back.Prelude.Results.{Result, ok, raise, and_then}
use ai_dial_generic_rag_back.Documents.{Document}
use ai_dial_generic_rag_back.Documents.Service.{get_document}
use ai_dial_generic_rag_back.Facade.{
  EntrypointName, reindex_document, Setting, World, queued, is_active,
}
use ai_dial_generic_rag_back.Facade.Archives.{
  is_archive_job, any_job, reset_channel_export_archive, enqueue_job, is_duplicate,
}
use ai_dial_generic_rag_back.Facade.Changes.{
  delete_document_data, index_now, index_document, after_change, is_ready,
}
use ai_dial_generic_rag_back.Prelude.Actions.{and_then_after, if_after}
use ai_dial_generic_rag_back.Facade.Operations.{is_offered, Same, MakesNoArchive}
use ai_dial_generic_rag_back.Facade.Laws.{reset_lem, any_job-append}

-- A document is read and returned.
answer_after :
    {S : Type 0} (P : S → Type 0) (x : Result Document) (s : S)
    → P s
    → P
        (elim x as (λ _. Result (Document × Bool) × S) [
          | ok doc ↦ (ok (doc, false), s)
          | raise e ↦ (raise e, s)
        ]).1
answer_after P (ok doc) s h = h
answer_after P (raise e) s h = h

pub Same-refl : (w : World) → Same w w
Same-refl w = record { documents = refl; store = refl; records = refl }

pub Same-trans : {u v w : World} → Same u v → Same v w → Same u w
Same-trans h k = record {
  documents = k.documents ∙ h.documents;
  store = k.store ∙ h.store;
  records = k.records ∙ h.records;
}

module _ (setting : Setting) where
  pub reset-offered :
      (w : World) → is_offered setting (reset_channel_export_archive setting w) ≡ false
  reset-offered w = let facts = reset_lem setting w in ground (arith, facts.0, facts.1)

  pub enqueue_job-Same :
      (name : EntrypointName) (key : Option String) (w : World)
      → Same w (enqueue_job setting name key w).1
  unfolding enqueue_job
  enqueue_job-Same name key w = elim (Bool-cases (not setting.has_access)) [
    | inl e ↦ rw (e, enqueue_job) (Same-refl w)
    | inr e ↦ elim (Bool-cases (any_job setting (is_duplicate setting key) w.jobs)) [
      | inl f ↦ rw (e, f, enqueue_job) (Same-refl w)
      | inr f ↦ rw (e, f, enqueue_job) (record { documents = refl; store = refl; records = refl })
    ]
  ]

  -- A job that indexes a document is none for an archive.
  enqueue_job-offered :
      (key : Option String) (w : World)
      → is_offered setting w ≡ false
      → is_offered setting (enqueue_job setting reindex_document key w).1 ≡ false
  unfolding enqueue_job
  enqueue_job-offered key w h = elim (Bool-cases (not setting.has_access)) [
    | inl e ↦ rw (e, enqueue_job) h
    | inr e ↦ elim (Bool-cases (any_job setting (is_duplicate setting key) w.jobs)) [
      | inl f ↦ rw (e, f, enqueue_job) h
      | inr f ↦
          rw (e, f, enqueue_job)
            (ground (
              arith,
              h,
              any_job-append setting (is_archive_job setting is_active) w.jobs (record {
                entrypoint = reindex_document;
                application_id = some setting.application_id;
                dedupe_key = key;
                status = queued;
              }),
            ))
    ]
  ]

  -- What an operation may do.
  abbrev pub Outcome : World → World → Type 0
  Outcome w v = Same w v ⊎ (is_offered setting v ≡ false)

  module _ (indexing : MakesNoArchive setting) where
    index_now-offered :
        (d : Document) (names : Option (List String)) (force : Bool) (w : World)
        → is_offered setting (index_now setting d names force w).1 ≡ false
    unfolding index_now
    index_now-offered d names force w =
        let w' = reset_channel_export_archive setting w in
        let kept = indexing.keeps d names force w' (reset-offered w) in
        let r = setting.run_indexing d names force w' in
        and_then_after (λ v. is_offered setting v ≡ false) r
          (λ done v. elim (get_document setting.channel d.id v.library) [
            | ok doc ↦ (ok (doc, false), v)
            | raise e ↦ (raise e, v)
          ])
          kept
          (λ done.
            answer_after (λ v. is_offered setting v ≡ false)
              (get_document setting.channel d.id r.1.library) r.1 kept)

    pub index_document-Outcome :
        (d : Document) (names : Option (List String)) (force background : Bool) (w : World)
        → Outcome w (index_document setting d names force background w).1
    unfolding index_document
    index_document-Outcome d names force false w = inr (index_now-offered d names force w)
    index_document-Outcome d names force true w =
        let key = some (setting.document_dedupe_key d.id) in
        let r = enqueue_job setting reindex_document key w in
        let same = inl (enqueue_job-Same reindex_document key w) in
        and_then_after (Outcome w) r
          (λ is_queued v.
            if is_queued then (ok (d, true), v) else index_now setting d names force v)
          same
          (λ is_queued.
            if_after (Outcome w) is_queued (ok (d, true), r.1) (index_now setting d names force r.1)
              same (inr (index_now-offered d names force r.1)))

    index_document-offered :
        (d : Document) (w : World)
        → is_offered setting w ≡ false
        → is_offered setting (index_document setting d none false true w).1 ≡ false
    unfolding index_document
    index_document-offered d w h =
        let key = some (setting.document_dedupe_key d.id) in
        let r = enqueue_job setting reindex_document key w in
        let idle = enqueue_job-offered key w h in
        and_then_after (λ v. is_offered setting v ≡ false) r
          (λ is_queued v. if is_queued then (ok (d, true), v) else index_now setting d none false v)
          idle
          (λ is_queued.
            if_after (λ v. is_offered setting v ≡ false) is_queued (ok (d, true), r.1)
              (index_now setting d none false r.1) idle (index_now-offered d none false r.1))

    pub after_change-offered :
        (d : Document) (w : World) → is_offered setting (after_change setting d w).1 ≡ false
    unfolding after_change delete_document_data
    after_change-offered d w =
        let w' = reset_channel_export_archive setting w in
        let r = index_document setting d none false true (delete_document_data setting d.id w') in
        let indexed =
          index_document-offered d (delete_document_data setting d.id w') (reset-offered w) in
        if_after (λ v. is_offered setting v ≡ false) (is_ready setting d.status) (ok d, w')
          (and_then r (λ result v. (ok result.0, v))) (reset-offered w)
          (and_then_after (λ v. is_offered setting v ≡ false) r (λ result v. (ok result.0, v))
            indexed (λ result. indexed))
