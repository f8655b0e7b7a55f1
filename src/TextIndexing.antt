-- ===== src/TextIndexing.antt =====
-- src/generic_rag/components/indexers/text_indexer.py and text_normalizer.py: the records that an
-- index of texts has of chunks. Searching the metadata of a chunk and normalizing a text are
-- parameters, for the calls in which they raise nothing.
mod Tests
use ai_dial_generic_rag_back.Prelude.{
  ℕ, Bool, not, ◌&&◌, Option, none, some, String, List, [], ◌∷◌, ◌++◌, keep, map, if◌then◌else◌,
}
use ai_dial_generic_rag_back.Prelude.Options.{◌>>=◌}
use ai_dial_generic_rag_back.Types.{ChunkMetadata, AnyChunk, text_chunk, image_chunk}
use ai_dial_generic_rag_back.Types.Json as Json
use ai_dial_generic_rag_back.Descriptions.{is_empty, set_field}

pub record IndexRecordMeta : Type 0 where
  pub document_id : ℕ
  pub extra : Json.Fields

pub record IndexRecord {ℓ} (V : Type ℓ) : Type ℓ where
  pub index : V
  pub metadata : IndexRecordMeta

-- `config`, with the search of `target` in metadata if there is one, and `_normalize_text`.
pub record TextIndexer {ℓ} (V : Type ℓ) : Type ℓ where
  pub target_path : Option (ChunkMetadata → List Json.Json)
  pub concatenate_fields : Bool
  pub normalize_text : String → V

abbrev pub metadata_of : AnyChunk → ChunkMetadata
metadata_of (text_chunk c) = c.metadata
metadata_of (image_chunk c) = c.metadata

-- The values that are strings and not empty.
unfoldable pub string_values : List Json.Json → List String
string_values [] = []
string_values (Json.Json.string s ∷ values) =
    let rest = string_values values in if is_empty s then rest else s ∷ rest
string_values (_ ∷ values) = string_values values

abbrev pub append : String → String → String
append String.[] t = t
append (String.◌∷◌ c s) t = String.◌∷◌ c (append s t)

-- `"\n".join(values)`
abbrev pub join_lines : List String → String
join_lines [] = ""
join_lines (s ∷ []) = s
join_lines (s ∷ t ∷ ts) = append s (append "\n" (join_lines (t ∷ ts)))

-- The texts so far and their metadata.
abbrev pub Collected : Type 0
Collected = List String × List IndexRecordMeta

-- `for text in matched_values`
unfoldable pub add_values : IndexRecordMeta → List String → Collected → Collected
unfolding set_field
add_values meta [] (texts, record_metas) = (texts, record_metas)
add_values meta (text ∷ values) (texts, record_metas) = add_values meta values (
  texts ++ text ∷ [],
  record_metas ++ record meta { extra = set_field "text" (Json.Json.string text) meta.extra } ∷ [],
)

-- `zip(texts, record_metas, strict=True)`; none is the exception.
unfoldable pub zip_strict {ℓ κ} :
    {A : Type ℓ} {B : Type κ} → List A → List B → Option (List (A × B))
zip_strict [] [] = some []
zip_strict (x ∷ xs) [] = none
zip_strict [] (y ∷ ys) = none
zip_strict (x ∷ xs) (y ∷ ys) = do rest ← zip_strict xs ys; some ((x, y) ∷ rest)

module _ {ℓ} {V : Type ℓ} (indexer : TextIndexer V) where
  abbrev pub matched_values : (ChunkMetadata → List Json.Json) → AnyChunk → List String
  matched_values find chunk =
      let values = string_values (find (metadata_of chunk)) in
      elim values [
        | [] ↦ []
        | ◌∷◌ s ss ↦ if indexer.concatenate_fields then join_lines (s ∷ ss) ∷ [] else s ∷ ss
      ]

  -- The body of the loop of `index_chunks`.
  unfoldable pub collect_chunk : AnyChunk → IndexRecordMeta → Collected → Collected
  unfolding add_values string_values
  collect_chunk chunk meta (texts, record_metas) = elim indexer.target_path [
    | some find ↦ add_values meta (matched_values find chunk) (texts, record_metas)
    | none ↦ elim chunk [
      | text_chunk c ↦
          if is_empty c.text
          then (texts, record_metas)
          else (texts ++ c.text ∷ [], record_metas ++ meta ∷ [])
      | image_chunk c ↦ (texts, record_metas)
    ]
  ]

  unfoldable pub collect_chunks : List (AnyChunk × IndexRecordMeta) → Collected → Collected
  unfolding collect_chunk
  collect_chunks [] collected = collected
  collect_chunks ((chunk, meta) ∷ data_) collected =
      collect_chunks data_ (collect_chunk chunk meta collected)

  -- `TextNormalizer._index_texts`
  unfoldable pub index_texts : List String → List IndexRecordMeta → Option (List (IndexRecord V))
  unfolding zip_strict
  index_texts texts record_metas = do
    pairs ← zip_strict texts record_metas
    some (
        map
          (λ (p : String × IndexRecordMeta). record {
            index = indexer.normalize_text p.0;
            metadata = p.1;
          })
          pairs)

  unfoldable pub index_chunks : List (AnyChunk × IndexRecordMeta) → Option (List (IndexRecord V))
  unfolding collect_chunks index_texts
  index_chunks data_ =
      let collected = collect_chunks data_ ([], []) in index_texts collected.0 collected.1
