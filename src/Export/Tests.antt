-- ===== src/Export/Tests.antt =====
-- An import over a document that exists, and the theorem at concrete arguments.
use ai_dial_generic_rag_back.Prelude.{
  ℕ, ◌≡◌, refl, true, false, ◌&&◌, not, none, some, String, List, [], ◌∷◌, length, codes, keep,
  ◌==◌,
}
use ai_dial_generic_rag_back.Prelude.Results.{ok}
use ai_dial_generic_rag_back.Types.{TextChunk, text_chunk, DocumentStatus}
use ai_dial_generic_rag_back.Types.Json.{end}
use ai_dial_generic_rag_back.Documents.{DocumentEntity, Document}
use ai_dial_generic_rag_back.Documents.Upload.{Setup, validate_upload}
use ai_dial_generic_rag_back.Documents.Service.{is_file}
use ai_dial_generic_rag_back.Documents.Invariant.{IsValid}
use ai_dial_generic_rag_back.Indexing.ImageUrls.{tally, url_of, url, url_lem}
use ai_dial_generic_rag_back.Export.{
  DocumentRecord, World, is_record_of, import_document, upload_of,
}
use ai_dial_generic_rag_back.Export.Import.{IsImported, import_document_lem}

abbrev setup : Setup
setup = record {
  is_space = λ c. c == 32;
  lower = λ t. t;
  allowed_document_types = codes "text/plain" ∷ [];
  conforms = λ fields. true;
  upload_filepath = λ filename folder. filename;
  display_name = λ url filename. filename;
  files_url = λ path. path;
  relative_path = λ url. url;
  stored = λ path content_type content. record {
    url = path;
    etag = "2";
    content_type = content_type;
    content_length = length content;
  };
}

abbrev entity : DocumentEntity
entity = record {
  channel_key = "c";
  document_id = 5;
  url = "a";
  etag = some "1";
  mime_type = "text/plain";
  size = 1;
  display_name = "a";
  metadata = end;
  status = DocumentStatus.ready;
}

-- The document that is overwritten has a record in each of two indexes.
abbrev world : World ℕ
world = record {
  library = record { documents = entity ∷ []; files = ("a", 9 ∷ []) ∷ [] };
  store = record { tables = record { text_chunks = []; image_chunks = [] }; files = [] };
  records =
      ("i", record { document_id = 5; value = 1 })
      ∷ ("j", record { document_id = 5; value = 2 })
      ∷ [];
}

abbrev one_chunk : TextChunk
one_chunk = record {
  document_id = 8;
  chunk_id = 1;
  text = "new";
  metadata = record { page_number = 1; extra = end };
}

abbrev bundle : DocumentRecord ℕ
bundle = record {
  filename = "a";
  folder = "";
  mime_type = "text/plain";
  metadata = none;
  status = DocumentStatus.ready;
  content_bytes = 7 ∷ [];
  chunks = text_chunk one_chunk ∷ [];
  indexes = ("i", record { document_id = 8; value = 3 } ∷ []) ∷ ("j", []) ∷ [];
}

abbrev names : List String
names = "i" ∷ "j" ∷ []

world-IsValid : IsValid "c" world.library
unfolding is_file
world-IsValid = record { ids = (refl, tt); urls = (refl, tt); files = (λ own. refl, tt) }

accepted : validate_upload setup (upload_of setup "c" url names bundle) none ≡ ok tt
unfolding validate_upload
accepted = refl

overwritten : (is_file "a" world.library.files && not true) ≡ false
unfolding is_file
overwritten = refl

-- The record in `j` belongs to the document that was overwritten.
stale :
    keep (is_record_of "j" 5) (import_document setup "c" url names 10 bundle true world).1.records
    ≡ ("j", record { document_id = 5; value = 2 }) ∷ []
unfolding import_document tally url_of
stale = refl

import_document_lem_example :
    (doc : Document) × (after : World ℕ) × (import_document setup "c" url names 10 bundle true world
      ≡ (ok doc, after))
    × IsImported setup "c" url names 10 bundle (one_chunk ∷ []) [] world after doc
import_document_lem_example =
    import_document_lem setup "c" url names 10 bundle true world (one_chunk ∷ []) [] world-IsValid
      accepted overwritten refl url_lem refl (refl, tt) tt (refl, (refl, tt))
