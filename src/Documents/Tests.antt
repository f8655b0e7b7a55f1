-- ===== src/Documents/Tests.antt =====
-- Runs of the document service on small inputs, and the theorems at concrete arguments.
use ai_dial_generic_rag_back.Prelude.{
  ◌||◌, true, ◌==◌, map, ℕ, ◌+◌, ◌≡◌, refl, Bool, true, false, ◌&&◌, not, Option, none, some,
  String, List, [], ◌∷◌, length, take, drop, keep, map, codes, if◌then◌else◌, ◌==◌,
}
use ai_dial_generic_rag_back.Prelude.Results.{ok, raise, invalid_request}
use ai_dial_generic_rag_back.Prelude.Sorting.{sorted, IsSorted}
use ai_dial_generic_rag_back.Types.{ready}
use ai_dial_generic_rag_back.Types.Json.{Json, number, string, null, bool, array, object}
use ai_dial_generic_rag_back.Chunks.{put_file}
use ai_dial_generic_rag_back.Documents.{DocumentEntity, Document, Library, from_entity}
use ai_dial_generic_rag_back.Documents.Repository.{is_own}
use ai_dial_generic_rag_back.Documents.Upload.{Upload, Setup, validate_upload}
use ai_dial_generic_rag_back.Documents.Service.{create_document, is_file}
use ai_dial_generic_rag_back.Documents.Invariant.{IsValid}
use ai_dial_generic_rag_back.Documents.Calls.{
  Call, create, update, change_status, delete, run_all, run_all-IsValid,
}
use ai_dial_generic_rag_back.Documents.Creation.{IsSaved, create_document_lem}
use ai_dial_generic_rag_back.Documents.Query.{
  Pagination, create_results, SortBy, asc, desc, order_by,
}
use ai_dial_generic_rag_back.Documents.Listing.{
  Key, iterate, list_documents, chosen, id_column, iterate_lem, list_documents_lem,
  is_listed_before, last_of, order_clause, last_direction,
}
use ai_dial_generic_rag_back.Documents.Matcher.{
  Database, text, string_value, SingleFilter, TopDocuments, get_query, rank_of,
}
use ai_dial_generic_rag_back.Documents.Matching.{
  get_query_lem, get_query-top_n, has_each, any_criteria, is_wanted,
}

-- A storage that keeps a file under its path, with no folders.
abbrev demo : Setup
demo = record {
  is_space = λ c. c == 32;
  lower = λ t. t;
  allowed_document_types = codes "text/plain" ∷ [];
  conforms = λ fields. true;
  upload_filepath = λ filename folder. filename;
  display_name = λ url filename. filename;
  files_url = λ path. path;
  relative_path = λ url. url;
  stored = λ path content_type content. record {
    url = path;
    etag = "1";
    content_type = content_type;
    content_length = length content;
  };
}

abbrev note : String → Upload
note name = record {
  filename = name;
  content_type = "text/plain; charset=utf-8";
  size = 2;
  content = 7 ∷ 8 ∷ [];
}

abbrev empty : Library
empty = record { documents = []; files = [] }

empty-IsValid : IsValid "c" empty
empty-IsValid = record { ids = tt; urls = tt; files = tt }

abbrev session : List Call
session =
    create (note "a") "" none false
    ∷ create (note "b") "" none false
    ∷ create (note "a") "" none false
    ∷ change_status 1 ready
    ∷ update 1 (some (note "b")) none
    ∷ delete 1
    ∷ create (note "a") "" none true
    ∷ []

-- The second upload of `a` is refused, and its id is given again only above the ones in use.
session_ids :
    map (λ (e : DocumentEntity). e.document_id) (run_all demo "c" session empty).documents
    ≡ 2 ∷ 3 ∷ []
unfolding run_all
session_ids = refl

run_all-IsValid_example : IsValid "c" (run_all demo "c" session empty)
run_all-IsValid_example = run_all-IsValid demo "c" session empty empty-IsValid

accepted : validate_upload demo (note "a") none ≡ ok tt
unfolding validate_upload
accepted = refl

not_there : (is_file "a" [] && not false) ≡ false
unfolding is_file
not_there = refl

create_document_lem_example :
    (doc : Document) × (lib' : Library) × (create_document demo "c" (note "a") "" none false empty
      ≡ (ok doc, lib'))
    × IsSaved demo "c"
        (demo.stored "a" "text/plain; charset=utf-8" (7 ∷ 8 ∷ []))
        "a"
        none
        (record { documents = []; files = put_file "a" (7 ∷ 8 ∷ []) [] })
        doc
        lib'
create_document_lem_example =
    create_document_lem demo "c" empty (note "a") "" none false empty-IsValid accepted not_there
      refl

abbrev by_size : String → DocumentEntity → Option ℕ
by_size name e = some e.size

abbrev two : Library
two =
    run_all demo "c" (create (note "a") "" none false ∷ create (note "b") "" none false ∷ []) empty

two_ids :
    iterate by_size [] "c" 3 0 [] two
    ≡ some (map from_entity (sorted (order_by ((desc, id_column) ∷ [])) two.documents))
unfolding iterate list_documents run_all
two_ids = refl

iterate_lem_example :
    (iterate by_size [] "c" (length (chosen by_size [] "c" none two.documents) + 1) 0 [] two
      ≡ some (
          map from_entity (
            sorted (order_by ((desc, id_column) ∷ [])) (chosen by_size [] "c" none two.documents))))
    × IsSorted
        (order_by ((desc, id_column) ∷ []))
        (sorted (order_by ((desc, id_column) ∷ [])) (chosen by_size [] "c" none two.documents))
    × ((test : DocumentEntity → Bool)
        → length (
            keep test (
              sorted
                (order_by ((desc, id_column) ∷ []))
                (chosen by_size [] "c" none two.documents)))
          ≡ length (keep test (chosen by_size [] "c" none two.documents)))
iterate_lem_example = iterate_lem by_size [] "c" two

abbrev largest : List SortBy
largest = record { name = "size"; direction = asc } ∷ []

abbrev largest_keys : List Key
largest_keys = (asc, by_size "size") ∷ (asc, id_column) ∷ []

largest_accepted : order_clause by_size [] largest (last_direction largest) ≡ ok largest_keys
unfolding order_clause last_direction
largest_accepted = refl

unknown_field :
    order_clause by_size [] (record { name = "author"; direction = asc } ∷ []) asc
    ≡ raise invalid_request
unfolding order_clause
unknown_field = refl

list_documents_lem_example :
    (whole : List DocumentEntity) × ((page : Pagination)
      → list_documents by_size [] "c" page none largest two
        ≡ ok (
            create_results
              (map from_entity (take page.limit (drop page.offset whole)))
              page
              (length whole)))
    × IsSorted (is_listed_before by_size [] "c" (last_of by_size [] "c" desc largest) largest) whole
    × ((test : DocumentEntity → Bool)
        → length (keep test whole) ≡ length (keep test (chosen by_size [] "c" none two.documents)))
    × ((a b : DocumentEntity)
        → (is_listed_before by_size [] "c" (last_of by_size [] "c" desc largest) largest a b
            || is_listed_before by_size [] "c" (last_of by_size [] "c" desc largest) largest b a
            || a.document_id == b.document_id)
          ≡ true)
list_documents_lem_example = list_documents_lem by_size [] "c" none largest two (refl, tt)

text_of_json : Json → Option String
text_of_json (string s) = some s
text_of_json null = none
text_of_json (bool b) = none
text_of_json (number n) = none
text_of_json (array items) = none
text_of_json (object fields) = none

abbrev plain : Database
plain = record { as_text = text_of_json; as_date = λ j. none; rank = λ j. 0 }

abbrev by_author : SingleFilter
by_author = record { name = "author"; marker = string_value; value = text "me" } ∷ []

-- A filter without criteria beside one with a criterion.
abbrev some_filters : List SingleFilter
some_filters = by_author ∷ [] ∷ []

selected_none :
    get_query plain "c" two.documents (record { filters = some_filters; top_n = none }) ≡ some []
unfolding get_query run_all
selected_none = refl

selected_all : get_query plain "c" two.documents (record { filters = [] ∷ []; top_n = none }) ≡ none
unfolding get_query
selected_all = refl

get_query_lem_example :
    get_query plain "c" two.documents (record { filters = some_filters; top_n = none }) ≡ (
      if any_criteria plain some_filters
      then some (keep (λ e. is_own "c" e && is_wanted plain some_filters e) two.documents)
      else none)
get_query_lem_example = get_query_lem plain "c" two.documents some_filters

abbrev newest : TopDocuments
newest = record { sort_by = "year" ∷ []; direction = desc; limit = 1 }

get_query-top_n_example :
    (whole : List DocumentEntity) × (get_query plain "c" two.documents
        (record { filters = some_filters; top_n = some newest })
      ≡ some (take newest.limit whole))
    × IsSorted
        (order_by (map (λ name. (newest.direction, rank_of plain name)) newest.sort_by))
        whole
    × ((test : DocumentEntity → Bool)
        → length (keep test whole)
          ≡ length (
              keep test (
                keep
                  (λ e. is_own "c" e && is_wanted plain some_filters e && has_each newest.sort_by e)
                  two.documents)))
get_query-top_n_example = get_query-top_n plain "c" two.documents some_filters newest
