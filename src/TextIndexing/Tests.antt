-- ===== src/TextIndexing/Tests.antt =====
-- Records of two chunks, and the theorem at these.
use ai_dial_generic_rag_back.Prelude.{ℕ, ◌≡◌, refl, false, true, none, some, String, [], ◌∷◌}
use ai_dial_generic_rag_back.Types.{AnyChunk, text_chunk}
use ai_dial_generic_rag_back.Types.Json as Json
use ai_dial_generic_rag_back.TextIndexing.{
  IndexRecordMeta, TextIndexer, append, join_lines, index_chunks,
}

joined : join_lines ("a" ∷ "b" ∷ "c" ∷ []) ≡ "a\nb\nc"
joined = refl

abbrev indexer : TextIndexer String
indexer = record {
  target_path = none;
  concatenate_fields = false;
  normalize_text = λ text. append text "!";
}

abbrev words : String → AnyChunk
words text = text_chunk (record {
  document_id = 7;
  chunk_id = 1;
  text = text;
  metadata = record { page_number = 1; extra = Json.Fields.end };
})

abbrev meta : ℕ → IndexRecordMeta
meta id = record { document_id = id; extra = Json.Fields.end }

abbrev described : TextIndexer String
described = record {
  target_path = some (λ m.
      Json.Json.string "a" ∷ Json.Json.null ∷ Json.Json.string "" ∷ Json.Json.string "b" ∷ []);
  concatenate_fields = true;
  normalize_text = λ text. text;
}

one_record :
    index_chunks described ((words "x", meta 7) ∷ [])
    ≡ some (
        record {
          index = "a\nb";
          metadata = record {
            document_id = 7;
            extra = Json.Fields.field "text" (Json.Json.string "a\nb") Json.Fields.end;
          };
        }
        ∷ [])
unfolding index_chunks
one_record = refl
