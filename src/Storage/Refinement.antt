-- ===== src/Storage/Refinement.antt =====
-- A caching storage beside the storage that it stands for.
use ai_dial_generic_rag_back.Prelude.{
  ℕ, Bool, true, false, ◌⊎◌, subst, ◌≡◌, ◌<◌, refl, sym, not, ◌&&◌, ap, ◌∙◌, inl, inr, some, String,
  List, [], ◌∷◌, concat, Option-cases, Bool-cases, arith, ltb,
}
use ai_dial_generic_rag_back.Prelude.Results.{Result-cases, ok, and_then}
use ai_dial_generic_rag_back.Prelude.Streams.{to_list}
use ai_dial_generic_rag_back.Storage.{
  bytes, FileStorage, read, Call, own_bucket, put, metadata, download, copy, delete, Reply,
  download_reply, perform, perform_all,
}
use ai_dial_generic_rag_back.Documents.Upload.{FileMetadata}
use ai_dial_generic_rag_back.TextIndexing.{append}
use ai_dial_generic_rag_back.Storage.Dial.{Server, dial_storage}
use ai_dial_generic_rag_back.Storage.Caching.{
  Cache, IsCache, CachingState, download_file, beside_cache, download_plain, store_stream, serve,
  caching_storage,
}
use ai_dial_generic_rag_back.Storage.Soundness.{
  IsVersioned, IsSound, IsUnread, IsSound-add_upload, Agrees, Agrees-serve, Agrees-stored,
}

module _ (storage : FileStorage) (cache : Cache) (lawful : IsCache cache)
    (content_of : String → String → List ℕ) (versioned : IsVersioned storage content_of) where
  abbrev Sound : cache.State → Type 0
  Sound = IsSound storage cache lawful content_of

  must_fill : FileMetadata → String → cache.State → Bool
  must_fill m url c = not (cache.contains c (url, m.etag)) && ltb m.content_length cache.maxsize

  download_file-filling :
      (url : String) (s : storage.State) (c : cache.State) (m : FileMetadata)
      → storage.get_file_metadata url s ≡ ok (some m)
      → must_fill m url c ≡ true
      → download_file storage cache url (s, c)
        ≡ and_then
            (and_then
              (download_plain storage cache url (s, c))
              (store_stream storage cache (url, m.etag)))
            (λ u. serve storage cache url m)
  unfolding download_file must_fill
  download_file-filling url s c m known fill = rw (known, fill, download_file) refl

  download_file-leaving :
      (url : String) (s : storage.State) (c : cache.State) (m : FileMetadata)
      → storage.get_file_metadata url s ≡ ok (some m)
      → must_fill m url c ≡ false
      → download_file storage cache url (s, c) ≡ serve storage cache url m (s, c)
  unfolding download_file must_fill
  download_file-leaving url s c m known leave = rw (known, leave, download_file) refl

  download_lem :
      (url : String) (s : storage.State) (c : cache.State)
      → Sound c
      → Agrees storage cache lawful content_of url s
          (storage.download_file url s)
          (download_file storage cache url (s, c))
  unfolding download_file must_fill
  download_lem url s c h = elim (Result-cases (storage.get_file_metadata url s)) [
    | inl (e, f) ↦
        rw (f, download_file)
          (
            inl (ap read (sym (versioned.download_raises url s e f))),
            sym (versioned.download_keeps url s),
            h,
          )
    | inr (found, f) ↦ elim (Option-cases found) [
      | inl g ↦ rw (f, g, download_file) (inl refl, refl, h)
      | inr (m, g) ↦
          let down = storage.download_file url s in
          let known : storage.get_file_metadata url s ≡ ok (some m) = f ∙ ap ok g in
          elim (Bool-cases
            (not (cache.contains c (url, m.etag)) && ltb m.content_length cache.maxsize)) [
              | inl fill ↦
                  subst (Agrees storage cache lawful content_of url s down)
                    (sym (download_file-filling url s c m known fill))
                    (Agrees-stored storage cache lawful content_of versioned url m s known
                      (storage.download_file url s).0 (storage.download_file url s).1 c refl
                      (versioned.download_keeps url s) h)
              | inr leave ↦
                  subst (Agrees storage cache lawful content_of url s down)
                    (sym (download_file-leaving url s c m known leave))
                    (Agrees-serve storage cache lawful content_of versioned url m s known s c refl
                      h)
            ]
    ]
  ]

  -- A download without the cache has no content, and the reply is the content that the etag of the
  -- file stands for.
  abbrev pub IsServed : Call → storage.State → Reply → Type 0
  IsServed (download url) s reply =
      (m : FileMetadata) × (storage.get_file_metadata url s ≡ ok (some m))
      × IsUnread (read (storage.download_file url s).0)
      × (reply ≡ download_reply (ok (some (content_of url m.etag))))
  IsServed _ s reply = ⊥

  abbrev pub IsReply : Call → storage.State → Reply → Type 0
  IsReply call s reply = (reply ≡ (perform storage call s).0) ⊎ IsServed call s reply

  -- Replies to calls on the storage without a cache, others changing it between them.
  abbrev pub AreReplies :
      List ((storage.State → storage.State) × Call) → storage.State → List Reply → Type 0
  AreReplies [] s [] = Unit
  AreReplies [] s (reply ∷ replies) = ⊥
  AreReplies (call ∷ calls) s [] = ⊥
  AreReplies ((others, call) ∷ calls) s (reply ∷ replies) =
      IsReply call (others s) reply × AreReplies calls (perform storage call (others s)).1 replies

  -- A reply and a state of the caching storage.
  abbrev Follows : Call → storage.State → Reply × CachingState storage cache → Type 0
  Follows call s cached =
      IsReply call s cached.0 × (cached.1.0 ≡ (perform storage call s).1) × Sound cached.1.1

  perform_lem :
      (call : Call) (s : storage.State) (c : cache.State)
      → Sound c
      → Follows call s (perform (caching_storage storage cache) call (s, c))
  perform_lem own_bucket s c h = (inl refl, refl, h)
  perform_lem (put bucket filepath content_type content) s c h =
      let r = storage.put_file bucket filepath content_type content s in
      (
        inl refl,
        refl,
        IsSound-add_upload storage cache lawful content_of content r.0 c
            (λ x m is_bytes e.
              versioned.put_version bucket filepath content_type x s m (
                ap (λ y. (storage.put_file bucket filepath content_type y s).0) (sym is_bytes) ∙ e))
            h,
      )
  perform_lem (metadata url) s c h = (inl refl, refl, h)
  perform_lem (download url) s c h =
      let (reply, state, sound) = download_lem url s c h in
      (
        elim reply [
          | inl same ↦ inl (ap download_reply same)
          | inr (m, known, unread, served) ↦ inr (m, known, unread, ap download_reply served)
        ],
        state,
        sound,
      )
  perform_lem (copy source_url destination_name) s c h = (inl refl, refl, h)
  perform_lem (delete url) s c h = (inl refl, refl, h)

  pub perform_all_lem :
      (calls : List ((storage.State → storage.State) × Call)) (s : storage.State) (c : cache.State)
      → Sound c
      → let cached =
          perform_all (caching_storage storage cache) (beside_cache storage cache) calls (s, c) in
        let plain = perform_all storage (λ others. others) calls s in
        AreReplies calls s cached.0 × (cached.1.0 ≡ plain.1)
  unfolding perform_all
  perform_all_lem [] s c h = (tt, refl)
  perform_all_lem ((others, call) ∷ calls) s c h =
      let (reply, state, h') = perform_lem call (others s) c h in
      let r = perform (caching_storage storage cache) call (others s, c) in
      let (replies, states) = perform_all_lem calls r.1.0 r.1.1 h' in
      (
        (
          reply,
          subst
              (λ x.
                AreReplies calls x
                  (perform_all (caching_storage storage cache) (beside_cache storage cache) calls
                    r.1).0)
              state replies,
        ),
        states ∙ ap (λ x. (perform_all storage (λ others. others) calls x).1) state,
      )

-- What the etags of a server mean: an upload that succeeds is the content that the etag of its
-- answer stands for, and where a server has metadata and its content arrives in full, this is the
-- content of their etag.
pub record IsVersionedServer (server : Server) (content_of : String → String → List ℕ)
    : Type 0 where
  pub uploads :
      (url content_type : String) (content : List ℕ) (s : server.State)
      → (server.put url content_type (bytes content) s).0.status < 400
      → let m = (server.put url content_type (bytes content) s).0.body in
        content_of m.url m.etag ≡ content
  pub answers :
      (url : String) (s : server.State) (chunks : List (List ℕ))
      → (server.metadata url s).status < 400
      → (server.content url s).status < 400
      → to_list (server.content url s).body ≡ some chunks
      → concat chunks ≡ content_of url (server.metadata url s).body.etag

module _ (server : Server) (content_of : String → String → List ℕ)
    (etags : IsVersionedServer server content_of) where
  pub dial-IsVersioned : IsVersioned (dial_storage server) content_of
  dial-IsVersioned = record {
    download_keeps = λ url s. refl;
    download_raises = λ url s e h. ground arith;
    reads_version = λ url s m content h k.
        elim (Option-cases (to_list (server.content url s).body)) [
          | inl none_ ↦ absurd (ground (arith, none_))
          | inr (chunks, whole) ↦ ground (arith, etags.answers url s chunks, whole)
        ];
    put_version = λ bucket filepath content_type content s m h. ground (
      arith,
      etags.uploads (append "files/" (append bucket (append "/" filepath))) content_type content s,
    );
  }

  -- For a server where an etag of a URL stands for one content (that of an upload that succeeds,
  -- and that of every download that arrives in full), and a cache that gives only what was put into
  -- it and holds no wrong content at first: whatever calls a client makes on the caching storage of
  -- DIAL, and whatever others change on the server between them, it leaves the server as the storage
  -- without a cache would, and gets the same replies (the bucket, an upload's metadata, a file's
  -- metadata or content, a copy's URL, or the exception); only where a download without a cache
  -- fails or gets no content though the metadata can be read, it may get the content that the etag of
  -- these metadata stands for.
  pub caching_storage_lem :
      (cache : Cache) (lawful : IsCache cache) (calls : List ((server.State → server.State) × Call))
      (s : server.State) (c : cache.State)
      → IsSound (dial_storage server) cache lawful content_of c
      → let cached =
          perform_all
            (caching_storage (dial_storage server) cache)
            (beside_cache (dial_storage server) cache)
            calls
            (s, c) in
        let plain = perform_all (dial_storage server) (λ others. others) calls s in
        AreReplies (dial_storage server) cache lawful content_of dial-IsVersioned calls s cached.0
        × (cached.1.0 ≡ plain.1)
  caching_storage_lem cache lawful calls s c h =
      perform_all_lem (dial_storage server) cache lawful content_of dial-IsVersioned calls s c h
