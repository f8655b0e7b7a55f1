-- ===== src/Indexing/Status.antt =====
-- The statuses that a document goes through while it is indexed.
use ai_dial_generic_rag_back.Prelude.{
  ℕ, map, ◌≡◌, refl, ap, sym, ◌∙◌, Bool, true, false, Option, String, List, [], ◌∷◌, ◌++◌,
  append_assoc, if◌then◌else◌, inl, inr, Bool-cases, subst, none,
}
use ai_dial_generic_rag_back.Prelude.Streams.{Stream, end, raised, next}
use ai_dial_generic_rag_back.Types.{
  ImageChunk, AnyChunk, DocumentStatus, processing, processed, indexing, ready, error,
}
use ai_dial_generic_rag_back.Chunks.{get_chunks_by_document}
use ai_dial_generic_rag_back.Indexing.{Parser, batched_async}
use ai_dial_generic_rag_back.Indexing.Documents.{
  SearchIndex, Request, World, IndexedDocument, finish, begin, and_then, set_document_status,
  must_process, index_document, process, rebuild, index_batches, index_chunks, remove_all, add_all,
  send_all, add_document_to, document_indexes,
}

-- The statuses of a run: whether it processes the document, and whether it ends without exception.
pub data Run : Bool → Bool → List DocumentStatus → Type 0 where
  processing_failed : Run true false (processing ∷ error ∷ [])
  rebuilding_failed : Run true false (processing ∷ processed ∷ indexing ∷ error ∷ [])
  rebuilt : Run true true (processing ∷ processed ∷ indexing ∷ ready ∷ [])
  indexing_failed : Run false false (indexing ∷ error ∷ [])
  indexed : Run false true (indexing ∷ ready ∷ [])

abbrev pub final_status : Bool → DocumentStatus
final_status true = ready
final_status false = error

-- A step that leaves the status alone.
abbrev Quiet : (World → World × Bool) → Type 0
Quiet step = (world : World) → (step world).0.statuses ≡ world.statuses

-- What a step adds to the statuses.
abbrev Adds : World → List DocumentStatus → DocumentStatus → World × Bool → Type 0
Adds world path last result =
    (result.0.statuses ≡ world.statuses ++ path) × (result.0.status ≡ last)

finish_lem :
    (started finished : DocumentStatus) (world : World) (result : World × Bool)
    → result.0.statuses ≡ world.statuses ++ started ∷ []
    → let last = if result.1 then finished else error in
      Adds world (started ∷ last ∷ []) last (finish finished result)
unfolding finish
finish_lem started finished world (w, true) h =
    (ap (λ ss. ss ++ finished ∷ []) h ∙ append_assoc world.statuses _ _, refl)
finish_lem started finished world (w, false) h =
    (ap (λ ss. ss ++ error ∷ []) h ∙ append_assoc world.statuses _ _, refl)

finish_outcome :
    (finished : DocumentStatus) (result : World × Bool) → (finish finished result).1 ≡ result.1
unfolding finish
finish_outcome finished (w, true) = refl
finish_outcome finished (w, false) = refl

begin_lem :
    (started finished : DocumentStatus) (body : World → World × Bool) (world : World)
    → Quiet body
    → let result = begin started finished body world in
      let last = if result.1 then finished else error in
      Adds world (started ∷ last ∷ []) last result
unfolding begin
begin_lem started finished body world quiet =
    let result = body (set_document_status started world) in
    subst
      (λ ok.
        let last = if ok then finished else error in
        Adds world (started ∷ last ∷ []) last (finish finished result))
      (sym (finish_outcome finished result))
      (finish_lem started finished world result (quiet (set_document_status started world)))

abbrev pub Outcome : Bool → World → World × Bool → Type 0
Outcome processes world result =
    (path : List DocumentStatus) × Run processes result.1 path
    × (result.0.statuses ≡ world.statuses ++ path)
    × (result.0.status ≡ final_status result.1)

only_indexing :
    (world : World) (result : World × Bool)
    → (let last = if result.1 then ready else error in
        Adds world (indexing ∷ last ∷ []) last result)
    → Outcome false world result
only_indexing world (w, true) (path, last) = (indexing ∷ ready ∷ [], indexed, path, last)
only_indexing world (w, false) (path, last) = (indexing ∷ error ∷ [], indexing_failed, path, last)

then_indexing :
    (world before : World) (result : World × Bool)
    → before.statuses ≡ world.statuses ++ processing ∷ processed ∷ []
    → (let last = if result.1 then ready else error in
        Adds before (indexing ∷ last ∷ []) last result)
    → Outcome true world result
then_indexing world before (w, true) h (path, last) = (
  processing ∷ processed ∷ indexing ∷ ready ∷ [],
  rebuilt,
  path ∙ ap (λ ss. ss ++ indexing ∷ ready ∷ []) h ∙ append_assoc world.statuses _ _,
  last,
)
then_indexing world before (w, false) h (path, last) = (
  processing ∷ processed ∷ indexing ∷ error ∷ [],
  rebuilding_failed,
  path ∙ ap (λ ss. ss ++ indexing ∷ error ∷ []) h ∙ append_assoc world.statuses _ _,
  last,
)

both_phases :
    (world : World) (first : World × Bool) (body : World → World × Bool)
    → (let last = if first.1 then processed else error in
        Adds world (processing ∷ last ∷ []) last first)
    → Quiet body
    → Outcome true world (and_then first (begin indexing ready body))
unfolding and_then
both_phases world (w, true) body (path, last) quiet =
    then_indexing world w (begin indexing ready body w) path (begin_lem indexing ready body w quiet)
both_phases world (w, false) body (path, last) quiet =
    (processing ∷ error ∷ [], processing_failed, path, last)

and_then-Quiet :
    (result : World × Bool) (step : World → World × Bool)
    → Quiet step
    → (and_then result step).0.statuses ≡ result.0.statuses
unfolding and_then
and_then-Quiet (w, true) step quiet = quiet w
and_then-Quiet (w, false) step quiet = refl

module _ (channel : String) (image_url : ImageChunk → String) (indexes : List SearchIndex)
    (fails : Request → Bool) where
  index_batches-Quiet :
      (names : Option (List String)) (batches : Stream (List AnyChunk))
      → Quiet (index_batches channel image_url indexes fails names batches)
  unfolding index_batches
  index_batches-Quiet names end world = refl
  index_batches-Quiet names raised world = refl
  index_batches-Quiet names (next batch batches) world =
      and_then-Quiet _
        (λ world'. index_batches channel image_url indexes fails names batches world')
        (index_batches-Quiet names batches)

  module _ (indexing_batch_size : ℕ) (batch_size : ℕ) (parsers : List Parser) where
    add_all-Quiet :
        (document : IndexedDocument) (names : Option (List String))
        → Quiet (
            add_all channel image_url indexes fails indexing_batch_size batch_size parsers document
              names)
    unfolding add_all index_chunks
    add_all-Quiet document names world =
        let chunks = get_chunks_by_document channel image_url world.store document.id in
        and_then-Quiet
          (index_batches channel image_url indexes fails names
            (batched_async chunks indexing_batch_size) world)
          (send_all fails (
            map (λ i. add_document_to i.index_name)
              (document_indexes channel image_url indexes fails names)))
          (λ w. refl)
        ∙ index_batches-Quiet names (batched_async chunks indexing_batch_size) world

    rebuild-Quiet :
        (document : IndexedDocument) (names : Option (List String))
        → Quiet (
            rebuild channel image_url indexes fails indexing_batch_size batch_size parsers document
              names)
    unfolding rebuild
    rebuild-Quiet document names world =
        and_then-Quiet
          (remove_all channel image_url indexes fails indexing_batch_size batch_size parsers names
            world)
          (add_all channel image_url indexes fails indexing_batch_size batch_size parsers document
            names)
          (add_all-Quiet document names)

    process-Quiet :
        (document : IndexedDocument)
        → Quiet (
            process channel image_url indexes fails indexing_batch_size batch_size parsers document)
    unfolding process
    process-Quiet document world = refl

    -- Whatever fails: a run goes through processing, processed and indexing to ready, or through
    -- indexing to ready if the document is processed already and processing is not forced, and the
    -- first exception ends it in the status error. It ends in ready if and only if no exception
    -- was raised.
    pub index_document_lem :
        (document : IndexedDocument) (index_names : Option (List String)) (force : Bool)
        (world : World)
        → Outcome
            (must_process channel image_url indexes fails indexing_batch_size batch_size parsers
              document force)
            world
            (index_document channel image_url indexes fails indexing_batch_size batch_size parsers
              document index_names force world)
    unfolding index_document
    index_document_lem document index_names force world =
        let first =
          process channel image_url indexes fails indexing_batch_size batch_size parsers document in
        let second =
          rebuild channel image_url indexes fails indexing_batch_size batch_size parsers document in
        elim (Bool-cases (
          must_process channel image_url indexes fails indexing_batch_size batch_size parsers
            document force)) [
              | inl e ↦ rw e (
                  both_phases world (begin processing processed first world) (second none)
                    (begin_lem processing processed first world (process-Quiet document))
                    (rebuild-Quiet document none))
              | inr e ↦ rw e (
                  only_indexing world (begin indexing ready (second index_names) world) (
                    begin_lem indexing ready (second index_names) world
                      (rebuild-Quiet document index_names)))
            ]
