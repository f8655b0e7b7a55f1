-- ===== src/Indexing/RoundTrip.antt =====
-- A document that is indexed again, and what is loaded of it afterwards.
use ai_dial_generic_rag_back.Prelude.{
  ℕ, ◌≡◌, sym, ap, ap₂, ◌∙◌, true, String, List, ◌++◌, map, keep-not, All,
}
use ai_dial_generic_rag_back.Prelude.Streams.{end, yield_all, yield_all-append}
use ai_dial_generic_rag_back.Types.{ImageChunk, AnyChunk, text_chunk, image_chunk}
use ai_dial_generic_rag_back.Chunks.{
  Store, is_of, text_row, image_row, add_chunks, get_chunks_by_document, delete_chunks_by_document,
  order_by_id, convert_texts, convert_images,
}
use ai_dial_generic_rag_back.Chunks.Saving.{uploaded, add_chunks_lem}
use ai_dial_generic_rag_back.Chunks.Loading.{
  order_by_id-Follow, keep-Follow, AllBelow-keep, convert_texts-text_row, convert_images-image_row,
  uploaded-IsStored,
}
use ai_dial_generic_rag_back.Indexing.{Parser, number_chunks, parsed_chunks, extract_chunks}
use ai_dial_generic_rag_back.Indexing.Extraction.{
  number_texts, number_images, numbered, number_chunks_lem, texts, images, texts-numbered,
  images-numbered, IsFrom, extended, save_numbered, Follow-texts, Follow-images,
}

module _ (channel : String) (image_url : ImageChunk → String)
    (same_content : (a b : ImageChunk) → image_url a ≡ image_url b → a.content ≡ b.content) where
  module _ (document : ℕ) (store : Store) (cs : List AnyChunk)
      (from : All (IsFrom channel image_url document) cs) where
    cleared : Store
    cleared = delete_chunks_by_document channel image_url store document

    filled : Store
    filled = record {
      tables = extended channel image_url document cleared.tables (numbered 0 0 cs);
      files = uploaded channel image_url cleared.files (numbered 0 0 cs);
    }

    loaded :
        get_chunks_by_document channel image_url filled document
        ≡ yield_all
            (map text_chunk (number_texts 0 (texts channel image_url document cs))
              ++ map image_chunk (number_images 0 (images channel image_url document cs)))
            end
    unfolding get_chunks_by_document filled cleared delete_chunks_by_document
    loaded =
        let ts = texts channel image_url document (numbered 0 0 cs) in
        let is = images channel image_url document (numbered 0 0 cs) in
        let text_rows = map (text_row channel image_url) ts in
        let image_rows = map (image_row channel image_url) is in
        let follow = Follow-texts channel image_url document cs 0 0 from in
        let follow' = Follow-images channel image_url document cs 0 0 from in
        ap₂ (λ t i. convert_texts t (convert_images filled.files i))
          (ap order_by_id (
              keep-Follow channel document 0 _ text_rows
                (keep-not (is_of channel document) store.tables.text_chunks) follow)
            ∙ order_by_id-Follow channel document 0 text_rows follow)
          (ap order_by_id (
              keep-Follow channel document 0 _ image_rows
                (keep-not (is_of channel document) store.tables.image_chunks) follow')
            ∙ order_by_id-Follow channel document 0 image_rows follow')
        ∙ convert_texts-text_row channel image_url ts (convert_images filled.files image_rows)
        ∙ ap (yield_all (map text_chunk ts)) (
            convert_images-image_row channel image_url filled.files is
              (uploaded-IsStored channel image_url same_content (numbered 0 0 cs) cleared.files))
        ∙ yield_all-append (map text_chunk ts) (map image_chunk is) end
        ∙ ap₂ (λ t i. yield_all (map text_chunk t ++ map image_chunk i) end)
            (texts-numbered channel image_url document 0 0 cs)
            (images-numbered channel image_url document 0 0 cs)

    added :
        (batch_size : ℕ)
        → add_chunks channel image_url batch_size cleared (yield_all (numbered 0 0 cs) end)
          ≡ (filled, true)
    unfolding filled
    added batch_size = add_chunks_lem channel image_url batch_size (numbered 0 0 cs) cleared _ (
        save_numbered channel image_url document cs 0 0 cleared.tables from
          (unfold cleared delete_chunks_by_document in
            AllBelow-keep channel document store.tables.text_chunks)
          (unfold cleared delete_chunks_by_document in
            AllBelow-keep channel document store.tables.image_chunks))

  -- If equal URLs are those of images with equal content: where the parsers of a document yield
  -- chunks of this document and raise nothing, its chunks are deleted and the extracted ones added
  -- without a failure, whatever the size of the batches and whatever was stored before, and then
  -- its chunks load as the extracted texts, numbered from 1 in order, and behind them the images,
  -- numbered from 1 in order.
  pub get_chunks-add_chunks :
      (document : ℕ) (store : Store) (batch_size : ℕ) (mime_type : String) (parsers : List Parser)
      (cs : List AnyChunk)
      → parsed_chunks mime_type parsers ≡ yield_all cs end
      → All (IsFrom channel image_url document) cs
      → let cleared = delete_chunks_by_document channel image_url store document in
        let (store', complete) =
          add_chunks channel image_url batch_size cleared (extract_chunks mime_type parsers) in
        (complete ≡ true)
        × (get_chunks_by_document channel image_url store' document
            ≡ yield_all
                (map text_chunk (number_texts 0 (texts channel image_url document cs))
                  ++ map image_chunk (number_images 0 (images channel image_url document cs)))
                end)
  unfolding extract_chunks cleared
  get_chunks-add_chunks document store batch_size mime_type parsers cs parsed from =
      let result =
        ap (λ s. add_chunks channel image_url batch_size (cleared document store cs from) s)
          (ap (number_chunks 0 0) parsed ∙ number_chunks_lem 0 0 cs)
        ∙ added document store cs from batch_size in
      (
        ap (λ r. r.1) result,
        ap (λ r. get_chunks_by_document channel image_url r.0 document) result
            ∙ loaded document store cs from,
      )

  -- The same for chunks that are numbered already and added as they are.
  pub get_chunks-add_numbered :
      (document : ℕ) (store : Store) (batch_size : ℕ) (cs : List AnyChunk)
      → numbered 0 0 cs ≡ cs
      → All (IsFrom channel image_url document) cs
      → let cleared = delete_chunks_by_document channel image_url store document in
        let (store', complete) =
          add_chunks channel image_url batch_size cleared (yield_all cs end) in
        (complete ≡ true)
        × (get_chunks_by_document channel image_url store' document
            ≡ yield_all
                (map text_chunk (texts channel image_url document cs)
                  ++ map image_chunk (images channel image_url document cs))
                end)
  unfolding cleared
  get_chunks-add_numbered document store batch_size cs same from =
      let result =
        ap
          (λ ds.
            add_chunks channel image_url batch_size (cleared document store cs from)
              (yield_all ds end))
          (sym same)
        ∙ added document store cs from batch_size in
      let ts =
        sym (texts-numbered channel image_url document 0 0 cs)
        ∙ ap (texts channel image_url document) same in
      let is =
        sym (images-numbered channel image_url document 0 0 cs)
        ∙ ap (images channel image_url document) same in
      (
        ap (λ r. r.1) result,
        ap (λ r. get_chunks_by_document channel image_url r.0 document) result
            ∙ loaded document store cs from
            ∙ ap₂ (λ t i. yield_all (map text_chunk t ++ map image_chunk i) end) ts is,
      )
