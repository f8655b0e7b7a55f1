-- ===== src/Documents/Repository.antt =====
-- `DocumentRepository`: the queries on the table of documents.
use ai_dial_generic_rag_back.Prelude.{
  ℕ, ◌+◌, Bool, true, false, ◌&&◌, ◌||◌, not, Option, none, some, String, str_eq, List, [], ◌∷◌,
  ◌++◌, keep, map, max, ◌==◌, if◌then◌else◌,
}
use ai_dial_generic_rag_back.Prelude.Equality.{nat_key, string_key, pair_key, contains}
use ai_dial_generic_rag_back.Prelude.Results.{Result, ok, raise, integrity_error}
use ai_dial_generic_rag_back.Types.{DocumentStatus}
use ai_dial_generic_rag_back.Documents.{DocumentEntity}

-- The primary key, and the URL within a channel.
abbrev pub id_key : DocumentEntity → String × ℕ
id_key e = (e.channel_key, e.document_id)

abbrev pub url_key : DocumentEntity → String × String
url_key e = (e.channel_key, e.url)

-- The first row that passes a test.
unfoldable pub first : (DocumentEntity → Bool) → List DocumentEntity → Option DocumentEntity
first test [] = none
first test (e ∷ rows) = let rest = first test rows in if test e then some e else rest

-- `max(document_id) + 1`, or 1 for no rows.
unfoldable pub next_after : List DocumentEntity → ℕ
next_after [] = 1
next_after (e ∷ rows) = max (e.document_id + 1) (next_after rows)

abbrev pub has_row : List DocumentEntity → DocumentEntity → Bool
has_row rows e = contains (map id_key rows) (id_key e)

-- `create unique index on documents (url)`: a URL has one row, whatever the channel.
abbrev pub is_taken : String → List DocumentEntity → Bool
is_taken url [] = false
is_taken url (r ∷ rows) = str_eq r.url url || is_taken url rows

-- `save` of a row that is new, under the primary key and the unique index.
unfoldable pub insert_entity : List DocumentEntity → DocumentEntity → Result (List DocumentEntity)
insert_entity rows e =
    if has_row rows e || is_taken e.url rows then raise integrity_error else ok (rows ++ e ∷ [])

-- `save` of a row that was read before.
abbrev pub replace : DocumentEntity → DocumentEntity → DocumentEntity
replace e old = if pair_key.same (id_key old) (id_key e) then e else old

abbrev pub update_entity : List DocumentEntity → DocumentEntity → List DocumentEntity
update_entity rows e = map (replace e) rows

abbrev pub delete_entity : List DocumentEntity → DocumentEntity → List DocumentEntity
delete_entity rows e = keep (λ old. not (pair_key.same (id_key old) (id_key e))) rows

module _ (channel : String) where
  abbrev pub is_own : DocumentEntity → Bool
  is_own e = str_eq e.channel_key channel

  unfoldable pub get_next_id : List DocumentEntity → ℕ
  unfolding next_after
  get_next_id rows = next_after (keep is_own rows)

  abbrev pub has_id : ℕ → DocumentEntity → Bool
  has_id id e = is_own e && e.document_id == id

  abbrev pub has_url : String → DocumentEntity → Bool
  has_url url e = is_own e && str_eq e.url url

  abbrev pub get_by_id : ℕ → List DocumentEntity → Option DocumentEntity
  get_by_id id = first (has_id id)

  abbrev pub get_by_url : String → List DocumentEntity → Option DocumentEntity
  get_by_url url = first (has_url url)

  abbrev pub get_by_ids : List ℕ → List DocumentEntity → List DocumentEntity
  get_by_ids ids = keep (λ e. is_own e && contains ids e.document_id)

  unfoldable pub exists_by_id : ℕ → List DocumentEntity → Bool
  unfolding first
  exists_by_id id rows = elim (get_by_id id rows) [ none ↦ false | some e ↦ true ]

  unfoldable pub exists_by_url : String → List DocumentEntity → Bool
  unfolding first
  exists_by_url url rows = elim (get_by_url url rows) [ none ↦ false | some e ↦ true ]

  unfoldable pub set_status : ℕ → DocumentStatus → List DocumentEntity → List DocumentEntity
  set_status id status = map (λ e. if has_id id e then record e { status = status } else e)
