-- ===== src/Answers/Sharing.antt =====
-- `SharingManager` of src/generic_rag/utils/answers.py: an answer that shares the documents it cites
-- with the user. `share` is the document service's `get_document` and `share_with_user` for an id;
-- none is an exception. The calls on the wrapped answer are the result.
use ai_dial_generic_rag_back.Prelude.{
  ℕ, Option, none, some, String, str_eq, List, [], ◌∷◌, ◌++◌, if◌then◌else◌,
}
use ai_dial_generic_rag_back.Prelude.Equality.{string_key}
use ai_dial_generic_rag_back.Prelude.Options.{◌>>=◌}
use ai_dial_generic_rag_back.Types.{RetrievedDocument}
use ai_dial_generic_rag_back.Answers.{Call, append_content, add_citation}

-- `_urls`, and the ids of the documents that were shared, in order.
pub record Sharing : Type 0 where
  pub urls : List (String × String)
  pub shared : List ℕ

unfoldable pub shared_url : String → List (String × String) → Option String
shared_url url [] = none
shared_url url ((u, link) ∷ urls) = if str_eq u url then some link else shared_url url urls

abbrev pub with_url : RetrievedDocument → String → RetrievedDocument
with_url doc link = record doc { source_url = link }

module _ (share : ℕ → Option String) where
  new_share : Sharing → RetrievedDocument → Option String → Option (Sharing × RetrievedDocument)
  new_share s doc none = none
  new_share s doc (some link) = some (
    record {
      urls = s.urls ++ (doc.source_url, link) ∷ [];
      shared = s.shared ++ doc.source_id ∷ [];
    },
    with_url doc link,
  )

  unfoldable pub share_document : Sharing → RetrievedDocument → Option (Sharing × RetrievedDocument)
  unfolding shared_url new_share
  share_document s doc = elim (shared_url doc.source_url s.urls) [
    | some link ↦ some (s, with_url doc link)
    | none ↦ new_share s doc (share doc.source_id)
  ]

  -- `append_content` and `add_citation`
  unfoldable pub sharing_call : Sharing → Call → Option (Sharing × Call)
  unfolding share_document
  sharing_call s (append_content t) = some (s, append_content t)
  sharing_call s (add_citation doc) = do
    (s', doc') ← share_document s doc
    some (s', add_citation doc')

  unfoldable pub sharing_calls : Sharing → List Call → Option (Sharing × List Call)
  unfolding sharing_call
  sharing_calls s [] = some (s, [])
  sharing_calls s (call ∷ calls) = do
    (s', call') ← sharing_call s call
    (s'', calls') ← sharing_calls s' calls
    some (s'', call' ∷ calls')

abbrev pub empty_sharing : Sharing
empty_sharing = record { urls = []; shared = [] }

abbrev pub url_key : RetrievedDocument → String
url_key doc = doc.source_url

abbrev pub source_key : RetrievedDocument → ℕ
source_key doc = doc.source_id
