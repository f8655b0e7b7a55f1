-- ===== src/Mcp/Sharing.antt =====
-- `get_citation_url` and `retrieve_text_chunks` of src/generic_rag/app/mcp.py. The tasks that share
-- documents run one after the other; an exception of one is that of the call. What the retriever
-- returns is given.
use ai_dial_generic_rag_back.Prelude.{
  ℕ, ◌≡◌, refl, ap, Option, none, some, String, List, [], ◌∷◌, map, concat, if◌then◌else◌,
}
use ai_dial_generic_rag_back.Prelude.Equality.{string_key, contains}
use ai_dial_generic_rag_back.Prelude.Results.{Result, ok, raise, Action, and_then}
use ai_dial_generic_rag_back.Types.{AnyChunk, text_chunk, image_chunk, RetrievedDocument}
use ai_dial_generic_rag_back.Types.Json.{Fields, end, field}
use ai_dial_generic_rag_back.Documents.{Document, Library}
use ai_dial_generic_rag_back.Documents.Service.{get_documents_by_id}
use ai_dial_generic_rag_back.Storage.{FileStorage}

module _ (storage : FileStorage) where
  -- `_Document.share_with_user`
  abbrev pub share_with_user : Document → Action storage.State String
  share_with_user doc = storage.copy_file_to_user doc.url doc.display_name

  unfoldable pub share_all : List Document → Action storage.State (List (ℕ × String))
  share_all [] s = (ok [], s)
  share_all (doc ∷ docs) s =
      and_then (share_with_user doc s)
        λ url s'. and_then (share_all docs s') λ urls s''. (ok ((doc.id, url) ∷ urls), s'')

  unfoldable pub get_citation_url :
      (channel : String) → Library → List ℕ → Action storage.State (List (ℕ × String))
  unfolding share_all
  get_citation_url channel lib document_ids =
      share_all (get_documents_by_id channel document_ids lib)

pub record RetrievedChunk : Type 0 where
  pub document_id : ℕ
  pub chunk_id : ℕ
  pub text : String
  pub page_number : ℕ
  pub metadata : Fields

-- The fields with the names.
abbrev pub select_fields : List String → Fields → Fields
select_fields names end = end
select_fields names (field n v fs) =
    let rest = select_fields names fs in if contains names n then field n v rest else rest

abbrev pub shown_metadata : Option (List String) → Fields → Fields
shown_metadata none fs = fs
shown_metadata (some names) fs = select_fields names fs

-- `RetrievedChunk.create`, for the chunks of a document.
abbrev pub create_chunks :
    RetrievedDocument → Option (List String) → List AnyChunk → List RetrievedChunk
create_chunks doc names [] = []
create_chunks doc names (text_chunk c ∷ cs) =
    record {
      document_id = c.document_id;
      chunk_id = c.chunk_id;
      text = c.text;
      page_number = c.metadata.page_number;
      metadata = shown_metadata names doc.source_metadata;
    }
    ∷ create_chunks doc names cs
create_chunks doc names (image_chunk c ∷ cs) = create_chunks doc names cs

abbrev pub retrieve_text_chunks :
    Option (List String) → List RetrievedDocument → List RetrievedChunk
retrieve_text_chunks metadata_field_names docs =
    concat
      (map (λ (doc : RetrievedDocument). create_chunks doc metadata_field_names doc.chunks) docs)

module _ (storage : FileStorage) where
  -- The result of sharing documents names their ids in order.
  abbrev pub NamesIds : List Document → Result (List (ℕ × String)) → Type 0
  NamesIds docs (ok urls) = map (λ (u : ℕ × String). u.0) urls ≡ map (λ (d : Document). d.id) docs
  NamesIds docs (raise e) = Unit

  NamesIds-cons :
      (doc : Document) (docs : List Document) (url : String)
      (r : Result (List (ℕ × String)) × storage.State)
      → NamesIds docs r.0
      → NamesIds (doc ∷ docs) (and_then r (λ urls s. (ok ((doc.id, url) ∷ urls), s))).0
  NamesIds-cons doc docs url (ok urls, s) h = ap (◌∷◌ doc.id) h
  NamesIds-cons doc docs url (raise e, s) h = tt

  NamesIds-and_then :
      (doc : Document) (docs : List Document) (r : Result String × storage.State)
      → ((s : storage.State) → NamesIds docs (share_all storage docs s).0)
      → NamesIds
          (doc ∷ docs)
          (and_then r (λ url s.
            and_then (share_all storage docs s) (λ urls s'. (ok ((doc.id, url) ∷ urls), s')))).0
  NamesIds-and_then doc docs (ok url, s) h =
      NamesIds-cons doc docs url (share_all storage docs s) (h s)
  NamesIds-and_then doc docs (raise e, s) h = tt

  NamesIds-share_all :
      (docs : List Document) (s : storage.State) → NamesIds docs (share_all storage docs s).0
  unfolding share_all
  NamesIds-share_all [] s = refl
  NamesIds-share_all (doc ∷ docs) s =
      NamesIds-and_then doc docs (share_with_user storage doc s) (NamesIds-share_all docs)

  -- Unless an exception is raised, there is a URL for each document of the channel with an id that
  -- was asked for, and for no other, in the order of the table.
  pub get_citation_url_lem :
      (channel : String) (lib : Library) (ids : List ℕ) (s : storage.State)
      → NamesIds
          (get_documents_by_id channel ids lib)
          (get_citation_url storage channel lib ids s).0
  unfolding get_citation_url
  get_citation_url_lem channel lib ids s =
      NamesIds-share_all (get_documents_by_id channel ids lib) s
