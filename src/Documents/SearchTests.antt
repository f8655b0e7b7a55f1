-- ===== src/Documents/SearchTests.antt =====
-- A search in two indexes, and its theorem there.
use ai_dial_generic_rag_back.Prelude.{
  ℕ, ◌+◌, ◌/◌, ◌≡◌, refl, true, Option, none, some, List, [], ◌∷◌, take, arith, ltb, String,
}
use ai_dial_generic_rag_back.Prelude.Equality.{nat_key}
use ai_dial_generic_rag_back.Prelude.Results.{ok, raise, key_error}
use ai_dial_generic_rag_back.Types.{ready}
use ai_dial_generic_rag_back.Types.Json.{end}
use ai_dial_generic_rag_back.Ranking.{Floats, rank_fusion}
use ai_dial_generic_rag_back.Ranking.Sorting.{IsOrdered}
use ai_dial_generic_rag_back.Ranking.Unique.{find_key}
use ai_dial_generic_rag_back.Documents.{DocumentEntity, Library, from_entity}
use ai_dial_generic_rag_back.Documents.Service.{get_documents_by_id}
use ai_dial_generic_rag_back.Documents.Matcher.{Database}
use ai_dial_generic_rag_back.Types.Json.{Json, string}
use ai_dial_generic_rag_back.Documents.Searching.{
  DocumentIndex, has_duplicates, names_of, search_all, search,
}
use ai_dial_generic_rag_back.Documents.Found.{IsFound, search_lem}

abbrev scaled : Floats
scaled = record {
  Float = ℕ;
  zero = 0;
  plus = λ a b. a + b;
  inverse = λ n. 1_000_000 / n;
  divide = λ w n. w / n;
  less = ltb;
}

scaled-IsOrdered : IsOrdered scaled
scaled-IsOrdered = record { asym = λ a b h. ground arith; trans = λ a b c h k. ground arith }

abbrev entity : ℕ → DocumentEntity
entity id = record {
  channel_key = "c";
  document_id = id;
  url = "a";
  etag = none;
  mime_type = "text/plain";
  size = 1;
  display_name = "a";
  metadata = end;
  status = ready;
}

abbrev library : Library
library = record { documents = entity 3 ∷ entity 7 ∷ []; files = [] }

abbrev index : String → List ℕ → DocumentIndex
index name ids = record {
  index_name = name;
  include_in_hybrid = true;
  default_limit = 5;
  relevance_search = λ query limit documents. take limit ids;
}

abbrev indexes : List DocumentIndex
indexes = index "words" (7 ∷ 3 ∷ 9 ∷ []) ∷ index "vectors" (3 ∷ 5 ∷ []) ∷ []

module _ (db : Database) where
  two_best :
      search scaled db "c" library indexes "q" 2 [] none
      ≡ ok (from_entity (entity 3) ∷ from_entity (entity 7) ∷ [])
  unfolding search rank_fusion get_documents_by_id
  two_best = refl

  -- The third id has no document.
  unknown_document : search scaled db "c" library indexes "q" 3 [] none ≡ raise key_error
  unfolding search rank_fusion get_documents_by_id
  unknown_document = refl

abbrev as_text : Json → Option String
as_text (string s) = some s
as_text j = none

abbrev plain_db : Database
plain_db = record { as_text = as_text; as_date = λ j. none; rank = λ j. 0 }

search_lem_example :
    IsFound scaled plain_db "c" library indexes 2
      (has_duplicates [])
      (search_all indexes "q" 2 none (names_of [] indexes))
      (search scaled plain_db "c" library indexes "q" 2 [] none)
unfolding find_key search_all
search_lem_example =
    search_lem scaled plain_db "c" library indexes "q" 2 [] none scaled-IsOrdered
      ((refl, (refl, tt)), ((refl, (refl, tt)), tt))
