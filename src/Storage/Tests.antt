-- ===== src/Storage/Tests.antt =====
-- A server whose etags spell the content, a cache that is a list, and the theorem at these.
use ai_dial_generic_rag_back.Prelude.{
  concat, ℕ, ◌≡◌, ◌<◌, ◌⊎◌, inl, inr, refl, sym, ap, ◌∙◌, true, false, Bool-cases, Option, none,
  some, String, str_eq, List, [], ◌∷◌, append-nil, codes, length, ltb, arith, if◌then◌else◌,
}
use ai_dial_generic_rag_back.Prelude.Equality.{
  string_key, nat_key, pair_key, list_same, list_same_iff,
}
use ai_dial_generic_rag_back.Prelude.Results.{ok}
use ai_dial_generic_rag_back.Prelude.Streams.{end, next}
use ai_dial_generic_rag_back.Documents.Upload.{FileMetadata}
use ai_dial_generic_rag_back.Storage.{
  Content, bytes, file, Call, put, download, delete, perform_all, put_reply, download_reply,
  delete_reply,
}
use ai_dial_generic_rag_back.Storage.Dial.{Response, Server, dial_storage}
use ai_dial_generic_rag_back.Storage.Caching.{
  Key, Cache, IsCache, beside_cache, caching_storage, download_file,
}
use ai_dial_generic_rag_back.Storage.Soundness.{IsSound}
use ai_dial_generic_rag_back.Storage.Refinement.{
  IsVersionedServer, AreReplies, dial-IsVersioned, caching_storage_lem,
}

-- The etags of the files.
abbrev Etags : Type 0
Etags = List (String × String)

abbrev meta : String → String → FileMetadata
meta url etag = record {
  url = url;
  etag = etag;
  content_type = "text/plain";
  content_length = length (codes etag);
}

abbrev find_etag : String → Etags → Response String
find_etag url [] = record { status = 404; body = "" }
find_etag url ((u, etag) ∷ etags) =
    if str_eq u url then record { status = 200; body = etag } else find_etag url etags

abbrev upload : String → Content → Etags → Response FileMetadata × Etags
upload url (bytes content) etags =
    if list_same content (codes "abc")
    then (record { status = 200; body = meta url "abc" }, (url, "abc") ∷ etags)
    else (record { status = 400; body = meta url "" }, etags)
upload url (file content) etags = (record { status = 400; body = meta url "" }, etags)

abbrev server : Server
server = record {
  State = Etags;
  bucket = λ s. record { status = 200; body = ("b", some "user") };
  put = λ url content_type content s. upload url content s;
  metadata =
      λ url s. record { status = (find_etag url s).status; body = meta url (find_etag url s).body };
  content = λ url s. record {
    status = (find_etag url s).status;
    body = next (codes (find_etag url s).body) end;
  };
  copy = λ source_url destination_url s.
      (record { status = 200; body = tt }, (destination_url, (find_etag source_url s).body) ∷ s);
  delete = λ url s. (record { status = 200; body = tt }, []);
  quote = λ name. name;
}

abbrev content_of : String → String → List ℕ
content_of url etag = codes etag

uploads_abc :
    (url : String) (content : List ℕ) (s : Etags)
    → (upload url (bytes content) s).0.status < 400
    → codes (upload url (bytes content) s).0.body.etag ≡ content
uploads_abc url content s h = elim (Bool-cases (list_same content (codes "abc"))) [
  | inl e ↦ rw e (sym ((list_same_iff content (codes "abc")).0 e))
  | inr e ↦ absurd (omega (arith, rw e at h))
]

server-IsVersioned : IsVersionedServer server content_of
server-IsVersioned = record {
  uploads = λ url content_type content s h. uploads_abc url content s h;
  answers = λ url s chunks h k whole.
      sym (ap concat {x = codes (find_etag url s).body ∷ []} {y = chunks} (ground (arith, whole)))
      ∙ append-nil (codes (find_etag url s).body);
}

abbrev Items : Type 0
Items = List (Key × List ℕ)

abbrev item : Key → Items → Option (List ℕ)
item key [] = none
item key ((k, content) ∷ items) = if pair_key.same k key then some content else item key items

abbrev cache : Cache
cache = record {
  State = Items;
  maxsize = 10;
  contains = λ items key. elim (item key items) [ none ↦ false | some content ↦ true ];
  get = λ items key. (item key items, items);
  set_item =
      λ items key content. if ltb 10 (length content) then none else some ((key, content) ∷ items);
}

item-added :
    (c c' : Items) (k j : Key) (added content : List ℕ)
    → cache.set_item c k added ≡ some c'
    → item j c' ≡ some content
    → ((j ≡ k) × (content ≡ added)) ⊎ (item j c ≡ some content)
item-added c c' k j added content e h = elim (Bool-cases (ltb 10 (length added))) [
  | inl large ↦ absurd (cc (rw large at e))
  | inr fits ↦
      let now : (k, added) ∷ c ≡ c' = cc (rw fits at e) in
      let found : item j ((k, added) ∷ c) ≡ some content = ap (item j) now ∙ h in
      elim (Bool-cases (pair_key.same k j)) [
        | inl same ↦ inl (sym ((pair_key.same_iff k j).0 same), sym (cc (rw same at found)))
        | inr other ↦ inr (rw other at found)
      ]
]

cache-IsCache : IsCache cache
cache-IsCache = record {
  get-get = λ c k j content h. h;
  get-set_item = λ c c' k j added content e h. item-added c c' k j added content e h;
}

abbrev url : String
url = "files/b/a"

-- Put a file, download it, delete the files, and look for it again.
abbrev calls : List ((Etags → Etags) × Call)
calls =
    (λ s. s, put "b" "a" "text/plain" (bytes (codes "abc")))
    ∷ (λ s. s, download url)
    ∷ (λ s. (url, "new") ∷ s, download url)
    ∷ (λ s. s, delete url)
    ∷ (λ s. s, download url)
    ∷ []

replies :
    (perform_all
      (caching_storage (dial_storage server) cache)
      (beside_cache (dial_storage server) cache)
      calls
      ([], [])).0
    ≡ put_reply (ok (meta url "abc"))
      ∷ download_reply (ok (some (codes "abc")))
      ∷ download_reply (ok (some (codes "new")))
      ∷ delete_reply (ok tt)
      ∷ download_reply (ok none)
      ∷ []
unfolding perform_all download_file
replies = refl

empty-IsSound : IsSound (dial_storage server) cache cache-IsCache content_of []
empty-IsSound key content h = absurd (cc h)

caching_storage_lem_example :
    let cached =
      perform_all
        (caching_storage (dial_storage server) cache)
        (beside_cache (dial_storage server) cache)
        calls
        ([], []) in
    let plain = perform_all (dial_storage server) (λ others. others) calls [] in
    AreReplies
      (dial_storage server)
      cache
      cache-IsCache
      content_of
      (dial-IsVersioned server content_of server-IsVersioned)
      calls
      []
      cached.0
    × (cached.1.0 ≡ plain.1)
caching_storage_lem_example =
    caching_storage_lem server content_of server-IsVersioned cache cache-IsCache calls [] []
      empty-IsSound
