-- ===== src/Storage/Dial.antt =====
-- `DialFileStorage` of src/generic_rag/dial_client.py. The server is a parameter: how it answers
-- each request, and what it then has. A stream that ends with an exception is one that broke off.
-- That `_get_bucket_ids` asks once for the bucket of its key is left out: every request has the
-- same answer.
use text.Mathlib.Text.{starts_with}
use ai_dial_generic_rag_back.Prelude.{
  ℕ, Bool, true, false, not, Option, none, some, String, str_eq, List, leb, ◌==◌, if◌then◌else◌,
}
use ai_dial_generic_rag_back.Prelude.Results.{
  Result, ok, raise, assertion_failed, response_error, runtime_error, raise_unless, Action, checked,
  ◌>>=◌, ◌>>◌,
}
use ai_dial_generic_rag_back.Prelude.Streams.{Stream, raised}
use ai_dial_generic_rag_back.Documents.Upload.{FileMetadata}
use ai_dial_generic_rag_back.TextIndexing.{append}
use ai_dial_generic_rag_back.Storage.{Content, FileStorage}

pub record Response {ℓ} (A : Type ℓ) : Type ℓ where
  pub status : ℕ
  pub body : A

-- The server, and `urllib.parse.quote`.
pub record Server : Type 1 where
  pub State : Type 0
  pub bucket : State → Response (String × Option String)
  pub put : (url content_type : String) → Content → State → Response FileMetadata × State
  pub metadata : String → State → Response FileMetadata
  pub content : String → State → Response (Stream (List ℕ))
  pub copy : (source_url destination_url : String) → State → Response (Unit {0}) × State
  pub delete : String → State → Response (Unit {0}) × State
  pub quote : String → String

abbrev pub raise_for_status {ℓ} : {A : Type ℓ} → Response A → Result A
raise_for_status r = if leb 400 r.status then raise response_error else ok r.body

abbrev pub check_url : String → Result (Unit {0})
check_url url = raise_unless (starts_with url "files/") assertion_failed

abbrev pub etags_agree : Option FileMetadata → Option FileMetadata → Bool
etags_agree (some m) (some d) = str_eq m.etag d.etag
etags_agree _ _ = false

module _ (server : Server) where
  -- `_get_bucket_ids`
  abbrev pub get_bucket_ids : server.State → Result (String × Option String)
  get_bucket_ids s = raise_for_status (server.bucket s)

  abbrev pub get_bucket : server.State → Result String
  get_bucket s = get_bucket_ids s >>= λ ids. ok ids.0

  abbrev pub put_file :
      (bucket filepath content_type : String) → Content → Action server.State FileMetadata
  put_file bucket filepath content_type content s =
      let url = append "files/" (append bucket (append "/" filepath)) in
      let r = server.put url content_type content s in (raise_for_status r.0, r.1)

  abbrev pub get_file_metadata : String → server.State → Result (Option FileMetadata)
  get_file_metadata url s = do
    check_url url
    let r = server.metadata url s
    if r.status == 404 then ok none else (raise_for_status r >>= λ m. ok (some m))

  -- `_get_content_stream`: its request is made when the stream is read.
  abbrev pub get_content_stream : String → server.State → Stream (List ℕ)
  get_content_stream url s = elim (raise_for_status (server.content url s)) [
    | raise e ↦ raised
    | ok stream ↦ stream
  ]

  abbrev pub download_file : String → server.State → Result (Option (Stream (List ℕ)))
  download_file url s = do
    check_url url
    let r = server.metadata url s
    let found = raise_for_status r >>= λ m. ok (some (get_content_stream url s))
    if r.status == 404 then ok none else found

  -- `destination_url`
  abbrev pub destination : String → server.State → Result String
  destination destination_name s = do
    ids ← get_bucket_ids s
    elim ids.1 [
      | none ↦ raise runtime_error
      | some appdata ↦
          ok (append "files/" (append appdata (append "/" (server.quote destination_name))))
    ]

  -- Whether the destination has not the file yet, and its URL.
  abbrev pub must_copy :
      (source_url destination_name : String) → server.State → Result (Bool × String)
  must_copy source_url destination_name s = do
    check_url source_url
    destination_url ← destination destination_name s
    source_meta ← get_file_metadata source_url s
    destination_meta ← get_file_metadata destination_url s
    ok (not (etags_agree source_meta destination_meta), destination_url)

  unfoldable pub copy_file_to_user :
      (source_url destination_name : String) → Action server.State String
  copy_file_to_user source_url destination_name s = elim (must_copy source_url destination_name s) [
    | raise e ↦ (raise e, s)
    | ok (false, destination_url) ↦ (ok destination_url, s)
    | ok (true, destination_url) ↦
        let r = server.copy source_url destination_url s in
        (raise_for_status r.0 >>= λ u. ok destination_url, r.1)
  ]

  abbrev pub delete_file : String → Action server.State (Unit {0})
  delete_file url = checked (check_url url) (λ s.
      let r = server.delete url s in
      (if r.0.status == 404 then ok tt else raise_for_status r.0, r.1))

  abbrev pub dial_storage : FileStorage
  dial_storage = record {
    State = server.State;
    get_bucket = get_bucket;
    put_file = put_file;
    get_file_metadata = get_file_metadata;
    download_file = λ url s. (download_file url s, s);
    copy_file_to_user = copy_file_to_user;
    delete_file = delete_file;
  }
