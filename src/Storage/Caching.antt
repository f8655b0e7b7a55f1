-- ===== src/Storage/Caching.antt =====
-- `CachingFileStorage` of src/generic_rag/utils/caching.py, over any storage and the interface of
-- `cachetools.Cache`. Sizes are numbers of bytes.
use ai_dial_generic_rag_back.Prelude.{
  ℕ, ◌≡◌, ◌⊎◌, Bool, not, ◌&&◌, Option, none, some, String, List, ltb, if◌then◌else◌,
}
use ai_dial_generic_rag_back.Prelude.Results.{Result, ok, raise, Action, and_then}
use ai_dial_generic_rag_back.Prelude.Streams.{Stream, end, next}
use ai_dial_generic_rag_back.Documents.Upload.{FileMetadata}
use ai_dial_generic_rag_back.Storage.{Content, bytes, file, FileStorage, join}

-- A URL and an etag.
abbrev pub Key : Type 0
Key = String × String

-- `set_item` has no result where it raises ValueError; reading an item may reorder the cache.
pub record Cache : Type 1 where
  pub State : Type 0
  pub maxsize : ℕ
  pub contains : State → Key → Bool
  pub get : State → Key → Option (List ℕ) × State
  pub set_item : State → Key → List ℕ → Option State

-- A cache gives only what was put into it: reading changes no item, and adding one changes no other.
pub record IsCache (cache : Cache) : Type 0 where
  pub get-get :
      (c : cache.State) (k j : Key) (content : List ℕ)
      → (cache.get (cache.get c k).1 j).0 ≡ some content
      → (cache.get c j).0 ≡ some content
  pub get-set_item :
      (c c' : cache.State) (k j : Key) (added content : List ℕ)
      → cache.set_item c k added ≡ some c'
      → (cache.get c' j).0 ≡ some content
      → ((j ≡ k) × (content ≡ added)) ⊎ ((cache.get c j).0 ≡ some content)

module _ (storage : FileStorage) (cache : Cache) where
  -- The state of the storage and of the cache.
  abbrev pub CachingState : Type 0
  CachingState = storage.State × cache.State

  -- `_add_to_cache`
  abbrev pub add_to_cache : Key → List ℕ → cache.State → cache.State
  add_to_cache key content c = elim (cache.set_item c key content) [ none ↦ c | some c' ↦ c' ]

  -- What the cache gets of an upload.
  abbrev pub add_upload : Content → Result FileMetadata → cache.State → cache.State
  add_upload (bytes content) (ok m) c = add_to_cache (m.url, m.etag) content c
  add_upload (file content) (ok m) c = c
  add_upload content (raise e) c = c

  abbrev pub put_file :
      (bucket filepath content_type : String) → Content → Action CachingState FileMetadata
  put_file bucket filepath content_type content (s, c) =
      let r = storage.put_file bucket filepath content_type content s in
      (r.0, (r.1, add_upload content r.0 c))

  -- `return await self._storage.download_file(url)`
  abbrev pub download_plain : String → Action CachingState (Option (Stream (List ℕ)))
  download_plain url (s, c) = let r = storage.download_file url s in (r.0, (r.1, c))

  abbrev pub store_stream : Key → Option (Stream (List ℕ)) → Action CachingState (Unit {0})
  store_stream key none (s, c) = (ok tt, (s, c))
  store_stream key (some stream) (s, c) = elim (join stream) [
    | raise e ↦ (raise e, (s, c))
    | ok content ↦ (ok tt, (s, add_to_cache key content c))
  ]

  -- The first `if` of the metadata's branch.
  abbrev pub fill_cache : String → FileMetadata → Action CachingState (Unit {0})
  fill_cache url m (s, c) =
      let key : Key = (url, m.etag) in
      if not (cache.contains c key) && ltb m.content_length cache.maxsize
      then and_then (download_plain url (s, c)) (store_stream key)
      else (ok tt, (s, c))

  -- The second one, and what follows.
  abbrev pub serve : String → FileMetadata → Action CachingState (Option (Stream (List ℕ)))
  serve url m (s, c) =
      let r = cache.get c (url, m.etag) in
      elim r.0 [
        | some content ↦ (ok (some (next content end)), (s, r.1))
        | none ↦ download_plain url (s, r.1)
      ]

  unfoldable pub download_file : String → Action CachingState (Option (Stream (List ℕ)))
  download_file url (s, c) = elim (storage.get_file_metadata url s) [
    | raise e ↦ (raise e, (s, c))
    | ok none ↦ download_plain url (s, c)
    | ok (some m) ↦ and_then (fill_cache url m (s, c)) (λ u. serve url m)
  ]

  abbrev pub caching_storage : FileStorage
  caching_storage = record {
    State = CachingState;
    get_bucket = λ state. storage.get_bucket state.0;
    put_file = put_file;
    get_file_metadata = λ url state. storage.get_file_metadata url state.0;
    download_file = download_file;
    copy_file_to_user = λ source_url destination_name state.
        let r = storage.copy_file_to_user source_url destination_name state.0 in
        (r.0, (r.1, state.1));
    delete_file = λ url state. let r = storage.delete_file url state.0 in (r.0, (r.1, state.1));
  }

  -- What others do to the files, they do not do to the cache.
  abbrev pub beside_cache : (storage.State → storage.State) → CachingState → CachingState
  beside_cache others (s, c) = (others s, c)
