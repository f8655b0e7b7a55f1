-- ===== src/Storage/Soundness.antt =====
-- What a cache may hold of a storage: the contents that the etags of a URL stand for.
use ai_dial_generic_rag_back.Prelude.{
  ℕ, ◌≡◌, ◌⊎◌, subst, refl, sym, ap, ◌∙◌, inl, inr, Option, none, some, String, List, append-nil,
  Option-cases,
}
use ai_dial_generic_rag_back.Prelude.Results.{Result, Result-cases, ok, raise, Error, and_then}
use ai_dial_generic_rag_back.Prelude.Streams.{Stream}
use ai_dial_generic_rag_back.Documents.Upload.{FileMetadata}
use ai_dial_generic_rag_back.Storage.{Content, bytes, file, FileStorage, join, read}
use ai_dial_generic_rag_back.Storage.Caching.{
  Key, Cache, IsCache, CachingState, add_to_cache, add_upload, store_stream, serve,
}

-- An etag of a URL stands for one content: what a download gives in full is that of the etag.
pub record IsVersioned (storage : FileStorage) (content_of : String → String → List ℕ)
    : Type 0 where
  pub download_keeps : (url : String) (s : storage.State) → (storage.download_file url s).1 ≡ s
  pub download_raises :
      (url : String) (s : storage.State) (e : Error)
      → storage.get_file_metadata url s ≡ raise e
      → (storage.download_file url s).0 ≡ raise e
  pub reads_version :
      (url : String) (s : storage.State) (m : FileMetadata) (content : List ℕ)
      → storage.get_file_metadata url s ≡ ok (some m)
      → read (storage.download_file url s).0 ≡ ok (some content)
      → content ≡ content_of url m.etag
  pub put_version :
      (bucket filepath content_type : String) (content : List ℕ) (s : storage.State)
      (m : FileMetadata)
      → (storage.put_file bucket filepath content_type (bytes content) s).0 ≡ ok m
      → content_of m.url m.etag ≡ content

-- No content was read.
abbrev pub IsUnread : Result (Option (List ℕ)) → Type 0
IsUnread (raise e) = Unit
IsUnread (ok none) = Unit
IsUnread (ok (some content)) = ⊥

module _ (storage : FileStorage) (cache : Cache) (lawful : IsCache cache)
    (content_of : String → String → List ℕ) where
  abbrev pub IsSound : cache.State → Type 0
  IsSound c =
      (key : Key) (content : List ℕ)
      → (cache.get c key).0 ≡ some content
      → content ≡ content_of key.0 key.1

  pub IsSound-add_to_cache :
      (key : Key) (content : List ℕ) (c : cache.State)
      → content ≡ content_of key.0 key.1
      → IsSound c
      → IsSound (add_to_cache storage cache key content c)
  IsSound-add_to_cache key content c right sound =
      elim (Option-cases (cache.set_item c key content)) [
        | inl e ↦ rw (e, add_to_cache) sound
        | inr (c', e) ↦
            rw (e, add_to_cache)
              (λ j found h. elim (lawful.get-set_item c c' key j content found e h) [
                | inl (same, added) ↦
                    added ∙ right ∙ ap (λ (k : Key). content_of k.0 k.1) (sym same)
                | inr before ↦ sound j found before
              ])
      ]

  pub IsSound-get : (key : Key) (c : cache.State) → IsSound c → IsSound (cache.get c key).1
  IsSound-get key c sound j content h = sound j content (lawful.get-get c key j content h)

  pub IsSound-add_upload :
      (content : Content) (r : Result FileMetadata) (c : cache.State)
      → ((x : List ℕ) (m : FileMetadata)
          → content ≡ bytes x
          → r ≡ ok m
          → content_of m.url m.etag ≡ x)
      → IsSound c
      → IsSound (add_upload storage cache content r c)
  IsSound-add_upload (bytes x) (ok m) c right sound =
      IsSound-add_to_cache (m.url, m.etag) x c (sym (right x m refl refl)) sound
  IsSound-add_upload (file x) (ok m) c right sound = sound
  IsSound-add_upload (bytes x) (raise e) c right sound = sound
  IsSound-add_upload (file x) (raise e) c right sound = sound

  -- What a download through the cache may give, for what one without it gives: the same, or, where
  -- that has no content, the content that the etag of the file stands for.
  abbrev pub IsDownload :
      String → storage.State → (plain cached : Result (Option (List ℕ))) → Type 0
  IsDownload url s plain cached =
      (cached ≡ plain)
      ⊎ ((m : FileMetadata) × (storage.get_file_metadata url s ≡ ok (some m))
          × IsUnread plain
          × (cached ≡ ok (some (content_of url m.etag))))

  -- A download through the cache beside one without it.
  abbrev pub Agrees :
      String
      → storage.State
      → Result (Option (Stream (List ℕ))) × storage.State
      → Result (Option (Stream (List ℕ))) × CachingState storage cache
      → Type 0
  Agrees url s plain cached =
      IsDownload url s (read plain.0) (read cached.0) × (cached.1.0 ≡ plain.1) × IsSound cached.1.1

  module _ (versioned : IsVersioned storage content_of) (url : String) (m : FileMetadata)
      (s : storage.State) (known : storage.get_file_metadata url s ≡ ok (some m)) where
    IsDownload-content :
        (plain : Result (Option (List ℕ)))
        → read (storage.download_file url s).0 ≡ plain
        → IsDownload url s plain (ok (some (content_of url m.etag)))
    IsDownload-content (raise e) h = inr (m, known, tt, refl)
    IsDownload-content (ok none) h = inr (m, known, tt, refl)
    IsDownload-content (ok (some content)) h =
        inl (ap (λ x. ok (some x)) (sym (versioned.reads_version url s m content known h)))

    pub Agrees-serve :
        (s' : storage.State) (c : cache.State)
        → s' ≡ s
        → IsSound c
        → Agrees url s (storage.download_file url s) (serve storage cache url m (s', c))
    Agrees-serve s' c same sound = elim (Option-cases (cache.get c (url, m.etag)).0) [
      | inl e ↦
          rw (e, serve)
            (
              inl (ap (λ x. read (storage.download_file url x).0) same),
              ap (λ x. (storage.download_file url x).1) same,
              IsSound-get (url, m.etag) c sound,
            )
      | inr (content, e) ↦
          rw (e, serve)
            (
              subst (λ x. IsDownload url s (read (storage.download_file url s).0) (ok (some x)))
                  (sym (append-nil content ∙ sound (url, m.etag) content e))
                  (IsDownload-content (read (storage.download_file url s).0) refl),
              same ∙ sym (versioned.download_keeps url s),
              IsSound-get (url, m.etag) c sound,
            )
    ]

    -- A download that goes into the cache, and then out of it.
    pub Agrees-stored :
        (r : Result (Option (Stream (List ℕ)))) (s' : storage.State) (c : cache.State)
        → read r ≡ read (storage.download_file url s).0
        → s' ≡ s
        → IsSound c
        → Agrees url s (storage.download_file url s) (
            and_then
              (and_then (r, (s', c)) (store_stream storage cache (url, m.etag)))
              (λ u. serve storage cache url m))
    Agrees-stored (raise e) s' c h same sound =
        (inl h, same ∙ sym (versioned.download_keeps url s), sound)
    Agrees-stored (ok none) s' c h same sound = Agrees-serve s' c same sound
    Agrees-stored (ok (some stream)) s' c h same sound = elim (Result-cases (join stream)) [
      | inl (e, f) ↦
          rw (f, store_stream)
            (inl (rw (f, read) at h), same ∙ sym (versioned.download_keeps url s), sound)
      | inr (content, f) ↦
          let whole : read (storage.download_file url s).0 ≡ ok (some content) =
            sym h ∙ rw (f, read) refl in
          rw (f, store_stream)
            (Agrees-serve s' (add_to_cache storage cache (url, m.etag) content c) same (
              IsSound-add_to_cache (url, m.etag) content c
                (versioned.reads_version url s m content known whole) sound))
    ]
