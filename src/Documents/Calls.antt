-- ===== src/Documents/Calls.antt =====
-- What sequences of calls of `DocumentService` do to the library of a channel.
use ai_dial_generic_rag_back.Prelude.{
  ℕ, ◌≡◌, refl, ap, ap₂, Bool, inl, inr, Option, String, List, [], ◌∷◌, map, All, Bool-cases,
}
use ai_dial_generic_rag_back.Prelude.Equality.{nat_key, string_key, pair_key}
use ai_dial_generic_rag_back.Types.{DocumentStatus}
use ai_dial_generic_rag_back.Types.Json.{Fields}
use ai_dial_generic_rag_back.Chunks.{Files}
use ai_dial_generic_rag_back.Documents.{DocumentEntity, Library}
use ai_dial_generic_rag_back.Documents.Repository.{id_key, url_key, has_id, set_status}
use ai_dial_generic_rag_back.Documents.Upload.{Upload, Setup}
use ai_dial_generic_rag_back.Documents.Service.{
  create_document, update_document, set_document_status, delete_document,
}
use ai_dial_generic_rag_back.Documents.Contents.{IsStored}
use ai_dial_generic_rag_back.Documents.Invariant.{
  IsValid, create_document-IsValid, update_document-IsValid, delete_document-IsValid,
}

-- The calls that change something.
pub data Call : Type 0 where
  create : Upload → String → Option Fields → Bool → Call
  update : ℕ → Option Upload → Option Fields → Call
  change_status : ℕ → DocumentStatus → Call
  delete : ℕ → Call

module _ (setup : Setup) (channel : String) where
  unfoldable pub run : Call → Library → Library
  unfolding create_document update_document set_document_status delete_document
  run (create a folder metadata overwrite) lib =
      (create_document setup channel a folder metadata overwrite lib).1
  run (update id attachment metadata) lib =
      (update_document setup channel id attachment metadata lib).1
  run (change_status id status) lib = set_document_status channel id status lib
  run (delete id) lib = (delete_document channel id lib).1

  unfoldable pub run_all : List Call → Library → Library
  unfolding run
  run_all [] lib = lib
  run_all (call ∷ calls) lib = run_all calls (run call lib)

map-set_status {κ} :
    {K : Type κ} (key : DocumentEntity → K) (channel : String) (id : ℕ) (status : DocumentStatus)
    (rows : List DocumentEntity)
    → ((e : DocumentEntity) → key (record e { status = status }) ≡ key e)
    → map key (set_status channel id status rows) ≡ map key rows
unfolding set_status
map-set_status key channel id status [] h = refl
map-set_status key channel id status (r ∷ rows) h = elim (Bool-cases (has_id channel id r)) [
  | inl yes_ ↦ rw yes_ (ap₂ ◌∷◌ (h r) (map-set_status key channel id status rows h))
  | inr no_ ↦ rw no_ (ap (◌∷◌ (key r)) (map-set_status key channel id status rows h))
]

All-set_status :
    (files : Files) (channel : String) (id : ℕ) (status : DocumentStatus)
    (rows : List DocumentEntity)
    → All (IsStored channel files) rows
    → All (IsStored channel files) (set_status channel id status rows)
unfolding set_status
All-set_status files channel id status [] h = tt
All-set_status files channel id status (r ∷ rows) h = elim (Bool-cases (has_id channel id r)) [
  | inl yes_ ↦ rw yes_ (h.0, All-set_status files channel id status rows h.1)
  | inr no_ ↦ rw no_ (h.0, All-set_status files channel id status rows h.1)
]

run-IsValid :
    (setup : Setup) (channel : String) (call : Call) (lib : Library)
    → IsValid channel lib
    → IsValid channel (run setup channel call lib)
unfolding run
run-IsValid setup channel (create a folder metadata overwrite) lib v =
    create_document-IsValid setup lib v a folder metadata overwrite
run-IsValid setup channel (update id attachment metadata) lib v =
    update_document-IsValid setup lib v id attachment metadata
run-IsValid setup channel (change_status id status) lib v = record {
  ids = rw (map-set_status id_key channel id status lib.documents (λ e. refl)) v.ids;
  urls = rw (map-set_status url_key channel id status lib.documents (λ e. refl)) v.urls;
  files = All-set_status lib.files channel id status lib.documents v.files;
}
run-IsValid setup channel (delete id) lib v = delete_document-IsValid setup lib v id

-- Whatever calls of `create_document`, `update_document`, `set_document_status` and
-- `delete_document` are made on a channel, the ones that raise included: if no two documents of a
-- channel had the same id or the same URL, and the file of every document of this channel was in
-- the storage, all this holds again afterwards.
pub run_all-IsValid :
    (setup : Setup) (channel : String) (calls : List Call) (lib : Library)
    → IsValid channel lib
    → IsValid channel (run_all setup channel calls lib)
unfolding run_all
run_all-IsValid setup channel [] lib v = v
run_all-IsValid setup channel (call ∷ calls) lib v =
    run_all-IsValid setup channel calls (run setup channel call lib)
      (run-IsValid setup channel call lib v)
