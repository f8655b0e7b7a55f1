-- ===== src/Documents/Contents.antt =====
-- The files of the storage after one was put or deleted, and which of them the rows of a channel
-- ask for.
use ai_dial_generic_rag_back.Prelude.{
  ◌≡◌, refl, Bool, true, false, not, ◌&&◌, ◌||◌, inl, inr, some, String, str_eq, eq_iff, List, [],
  ◌∷◌, map, All, All-keep, arith, Bool-cases, ℕ, ap,
}
use ai_dial_generic_rag_back.Prelude.Equality.{nat_key, string_key, pair_key, contains}
use ai_dial_generic_rag_back.Prelude.Distinct.{Distinct}
use ai_dial_generic_rag_back.Chunks.{Files, put_file, delete_file}
use ai_dial_generic_rag_back.Documents.{DocumentEntity}
use ai_dial_generic_rag_back.Documents.Repository.{id_key, url_key, first, is_own, delete_entity}
use ai_dial_generic_rag_back.Documents.Service.{is_file}
use ai_dial_generic_rag_back.Documents.Tables.{
  contains-first, differs_of_absent, row_key, place_key,
}

pub is_file-put_file :
    (url u : String) (content : List ℕ) (files : Files)
    → is_file u (put_file url content files) ≡ (str_eq url u || is_file u files)
unfolding is_file
is_file-put_file url u content files = ground arith

pub is_file-delete_file :
    (url u : String) (files : Files)
    → is_file u (delete_file url files) ≡ (is_file u files && not (str_eq u url))
unfolding is_file
is_file-delete_file url u [] = refl
is_file-delete_file url u ((v, content) ∷ files) =
    ground (arith, is_file-delete_file url u files, eq_iff v url, eq_iff v u, eq_iff u url)

-- The file of a row of the channel is in the storage.
abbrev pub IsStored : String → Files → DocumentEntity → Type 0
IsStored channel files e = is_own channel e ≡ true → is_file e.url files ≡ true

pub All-IsStored-put_file :
    (channel url : String) (content : List ℕ) (files : Files) (rows : List DocumentEntity)
    → All (IsStored channel files) rows
    → All (IsStored channel (put_file url content files)) rows
All-IsStored-put_file channel url content files [] h = tt
All-IsStored-put_file channel url content files (r ∷ rows) h = (
  λ own. ground (arith, is_file-put_file url r.url content files, h.0 own),
  All-IsStored-put_file channel url content files rows h.1,
)

abbrev Elsewhere : DocumentEntity → DocumentEntity → Type 0
Elsewhere e r = place_key.same (url_key r) (url_key e) ≡ false

All-Elsewhere :
    (rows : List DocumentEntity) (e : DocumentEntity)
    → contains (map url_key rows) (url_key e) ≡ false
    → All (Elsewhere e) rows
All-Elsewhere [] e h = tt
All-Elsewhere (r ∷ rows) e h = (ground arith, All-Elsewhere rows e (ground arith))

-- What is left by a deletion is somewhere else.
Elsewhere-delete_entity :
    (test : DocumentEntity → Bool) (rows : List DocumentEntity) (e : DocumentEntity)
    → first test rows ≡ some e
    → Distinct (map id_key rows)
    → Distinct (map url_key rows)
    → All (Elsewhere e) (delete_entity rows e)
unfolding first
Elsewhere-delete_entity test [] e h d k = tt
Elsewhere-delete_entity test (r ∷ rows) e h d k = elim (Bool-cases (test r)) [
  | inl yes_ ↦
      let same : r ≡ e = ground arith in
      let removed : row_key.same (id_key r) (id_key e) ≡ true =
        (row_key.same_iff (id_key r) (id_key e)).1 (ap id_key same) in
      let absent : contains (map url_key rows) (url_key e) ≡ false = cc in
      rw removed (
        All-keep (Elsewhere e) (λ old. not (row_key.same (id_key old) (id_key e))) rows
          (All-Elsewhere rows e absent))
  | inr no_ ↦
      let found : first test rows ≡ some e = ground arith in
      let present = contains-first test rows e found in
      let stays : row_key.same (id_key r) (id_key e) ≡ false =
        differs_of_absent (map id_key rows) (id_key r) (id_key e) d.0 present.0 in
      rw stays (
        differs_of_absent (map url_key rows) (url_key r) (url_key e) k.0 present.1,
        Elsewhere-delete_entity test rows e found d.1 k.1,
      )
]

kept_files :
    (channel : String) (files : Files) (e : DocumentEntity) (rows : List DocumentEntity)
    → is_own channel e ≡ true
    → All (Elsewhere e) rows
    → All (IsStored channel files) rows
    → All (IsStored channel (delete_file e.url files)) rows
kept_files channel files e [] own away h = tt
kept_files channel files e (r ∷ rows) own away h = (
  λ own'. ground (
    arith,
    is_file-delete_file e.url r.url files,
    h.0 own',
    eq_iff r.channel_key channel,
    eq_iff e.channel_key channel,
    eq_iff r.channel_key e.channel_key,
    eq_iff r.url e.url,
    away.0,
  ),
  kept_files channel files e rows own away.1 h.1,
)

pub IsStored-delete_entity :
    (channel : String) (files : Files) (test : DocumentEntity → Bool) (rows : List DocumentEntity)
    (e : DocumentEntity)
    → first test rows ≡ some e
    → is_own channel e ≡ true
    → Distinct (map id_key rows)
    → Distinct (map url_key rows)
    → All (IsStored channel files) rows
    → All (IsStored channel (delete_file e.url files)) (delete_entity rows e)
IsStored-delete_entity channel files test rows e found own d k h =
    kept_files channel files e (delete_entity rows e) own
      (Elsewhere-delete_entity test rows e found d k)
      (All-keep (IsStored channel files) (λ old. not (row_key.same (id_key old) (id_key e))) rows h)
