-- ===== src/Statistics.antt =====
-- src/generic_rag/services/document_stats_service.py: statistics of documents and of their chunks
-- by page. A query reads from a chunk its document, the page number in its metadata and the length
-- of its text; which page number stored metadata carry, if any, is a parameter.
pub mod Pages
pub mod Counting
pub mod Totals
pub mod Channels
mod Tests
use ai_dial_generic_rag_back.Prelude.{
  ℕ, ◌+◌, Bool, true, false, ◌&&◌, Option, none, some, String, str_eq, List, [], ◌∷◌, ◌++◌, length,
  keep, map, max, ltb, ◌==◌, if◌then◌else◌, codes,
}
use ai_dial_generic_rag_back.Prelude.Equality.{nat_key, contains}
use ai_dial_generic_rag_back.Prelude.Sorting.{sorted}
use ai_dial_generic_rag_back.Prelude.Results.{Result, ok, raise, validation_failed, ◌>>=◌}
use ai_dial_generic_rag_back.Types.{DocumentStatus, ChunkMetadata}
use ai_dial_generic_rag_back.Chunks.{Row, TextColumns, ImageColumns, Tables}
use ai_dial_generic_rag_back.Documents.{DocumentEntity}
use ai_dial_generic_rag_back.Documents.Repository.{is_own}

-- What the queries read of a chunk.
pub record ChunkRow : Type 0 where
  pub document_id : ℕ
  pub page : Option ℕ
  pub characters : ℕ

-- The same of a chunk that has a page.
pub record ChunkFact : Type 0 where
  pub document_id : ℕ
  pub page : ℕ
  pub characters : ℕ

-- A row of the result that is grouped by document and page.
pub record PageGroup : Type 0 where
  pub document_id : ℕ
  pub page : ℕ
  pub chunks : ℕ
  pub characters : ℕ

pub record DocumentStats : Type 0 where
  pub document_id : ℕ
  pub number_of_pages : Option ℕ

pub record PageChunkStats : Type 0 where
  pub page_number : ℕ
  pub text_chunks : ℕ
  pub image_chunks : ℕ
  pub text_characters : ℕ

pub record DocumentChunkStats : Type 0 where
  pub document_id : ℕ
  pub display_name : String
  pub status : DocumentStatus
  pub number_of_pages : ℕ
  pub text_chunks : ℕ
  pub image_chunks : ℕ
  pub text_characters : ℕ
  pub pages : Option (List PageChunkStats)

pub record ChannelChunkStats : Type 0 where
  pub documents : ℕ
  pub documents_without_text : ℕ
  pub text_chunks : ℕ
  pub image_chunks : ℕ
  pub text_characters : ℕ
  pub results : List DocumentChunkStats

-- `_restrict_to_documents`
abbrev pub is_included : Option (List ℕ) → ℕ → Bool
is_included none id = true
is_included (some ids) id = contains ids id

abbrev pub sum_of {ℓ} : {A : Type ℓ} → (A → ℕ) → List A → ℕ
sum_of f [] = 0
sum_of f (x ∷ xs) = f x + sum_of f xs

module _ (stored_page : ChunkMetadata → Option ℕ) (channel : String) where
  abbrev pub text_facts : List (Row TextColumns) → List ChunkRow
  text_facts rows =
      map
        (λ (r : Row TextColumns). record {
          document_id = r.document_id;
          page = stored_page r.columns.metadata;
          characters = length (codes r.columns.text);
        })
        (keep (λ r. str_eq r.channel_key channel) rows)

  abbrev pub image_facts : List (Row ImageColumns) → List ChunkRow
  image_facts rows =
      map
        (λ (r : Row ImageColumns). record {
          document_id = r.document_id;
          page = stored_page r.columns.metadata;
          characters = 0;
        })
        (keep (λ r. str_eq r.channel_key channel) rows)

-- `if page is None: continue`, and what `max` leaves out.
unfoldable pub with_page : List ChunkRow → List ChunkFact
with_page [] = []
with_page (r ∷ rows) =
    let rest = with_page rows in
    elim r.page [
      | none ↦ rest
      | some page ↦
          record { document_id = r.document_id; page = page; characters = r.characters } ∷ rest
    ]

abbrev pub is_on : ℕ → ℕ → ChunkFact → Bool
is_on document page c = c.document_id == document && c.page == page

-- `GROUP BY document_id, page_number`
unfoldable pub add_to_group : ChunkFact → List PageGroup → List PageGroup
add_to_group c [] =
    record { document_id = c.document_id; page = c.page; chunks = 1; characters = c.characters }
    ∷ []
add_to_group c (g ∷ groups) =
    let rest = add_to_group c groups in
    if is_on g.document_id g.page c
    then record g { chunks = g.chunks + 1; characters = g.characters + c.characters } ∷ groups
    else g ∷ rest

unfoldable pub group_chunks : List ChunkFact → List PageGroup
unfolding add_to_group
group_chunks [] = []
group_chunks (c ∷ cs) = add_to_group c (group_chunks cs)

-- `_count_by_page`, without the groups that have no page.
unfoldable pub count_by_page : List ChunkRow → List PageGroup
unfolding group_chunks with_page
count_by_page rows = group_chunks (with_page rows)

-- `pages.get(page_number, (0, 0))` of the pages of a document.
unfoldable pub get_counts : ℕ → ℕ → List PageGroup → ℕ × ℕ
get_counts document page [] = (0, 0)
get_counts document page (g ∷ groups) =
    if g.document_id == document && g.page == page
    then (g.chunks, g.characters)
    else get_counts document page groups

-- `sorted(set(...))`, one number at a time.
unfoldable pub add_page : ℕ → List ℕ → List ℕ
add_page p [] = p ∷ []
add_page p (q ∷ qs) =
    let rest = add_page p qs in if p == q then q ∷ qs else if ltb p q then p ∷ q ∷ qs else q ∷ rest

unfoldable pub page_numbers : ℕ → List PageGroup → List ℕ → List ℕ
unfolding add_page
page_numbers document [] pages = pages
page_numbers document (g ∷ groups) pages =
    let rest = page_numbers document groups pages in
    if g.document_id == document then add_page g.page rest else rest

module _ (texts images : List PageGroup) where
  abbrev pub page_stats : ℕ → ℕ → PageChunkStats
  page_stats document page = record {
    page_number = page;
    text_chunks = (get_counts document page texts).0;
    image_chunks = (get_counts document page images).0;
    text_characters = (get_counts document page texts).1;
  }

  abbrev pub pages_of : ℕ → List PageChunkStats
  pages_of document =
      map (page_stats document) (page_numbers document texts (page_numbers document images []))

  -- A round of the loop of `get_channel_chunk_stats`. The class of a page asks for a number of at
  -- least 1.
  unfoldable pub document_stats : Bool → DocumentEntity → Result DocumentChunkStats
  unfolding page_numbers get_counts
  document_stats include_pages e =
      if contains (page_numbers e.document_id texts (page_numbers e.document_id images [])) 0
      then raise validation_failed
      else ok (record {
        document_id = e.document_id;
        display_name = e.display_name;
        status = e.status;
        number_of_pages = length (pages_of e.document_id);
        text_chunks = sum_of (λ (p : PageChunkStats). p.text_chunks) (pages_of e.document_id);
        image_chunks = sum_of (λ (p : PageChunkStats). p.image_chunks) (pages_of e.document_id);
        text_characters =
            sum_of (λ (p : PageChunkStats). p.text_characters) (pages_of e.document_id);
        pages = if include_pages then some (pages_of e.document_id) else none;
      })

  -- The loop.
  unfoldable pub all_stats : Bool → List DocumentEntity → Result (List DocumentChunkStats)
  unfolding document_stats
  all_stats include_pages [] = ok []
  all_stats include_pages (e ∷ es) = do
    stats ← document_stats include_pages e
    rest ← all_stats include_pages es
    ok (stats ∷ rest)

-- `max(page_number)` of the chunks of a document.
unfoldable pub max_page : ℕ → List ChunkFact → Option ℕ
max_page document [] = none
max_page document (c ∷ cs) =
    let rest = max_page document cs in
    if c.document_id == document
    then some (elim rest [ none ↦ c.page | some n ↦ max c.page n ])
    else rest

module _ (stored_page : ChunkMetadata → Option ℕ) (channel : String) (tables : Tables)
    (documents : List DocumentEntity) where
  abbrev pub text_groups : Option (List ℕ) → List PageGroup
  text_groups ids = count_by_page (
      keep (λ c. is_included ids c.document_id) (text_facts stored_page channel tables.text_chunks))

  abbrev pub image_groups : Option (List ℕ) → List PageGroup
  image_groups ids = count_by_page (
      keep (λ c. is_included ids c.document_id)
        (image_facts stored_page channel tables.image_chunks))

  -- `_get_documents`, ordered by id.
  abbrev pub stats_documents : Option (List ℕ) → List DocumentEntity
  stats_documents ids =
      sorted (λ a b. ltb a.document_id b.document_id)
        (keep (λ e. is_own channel e && is_included ids e.document_id) documents)

  abbrev pub channel_stats : List DocumentChunkStats → ChannelChunkStats
  channel_stats results = record {
    documents = length results;
    documents_without_text = length (keep (λ (d : DocumentChunkStats). d.text_chunks == 0) results);
    text_chunks = sum_of (λ (d : DocumentChunkStats). d.text_chunks) results;
    image_chunks = sum_of (λ (d : DocumentChunkStats). d.image_chunks) results;
    text_characters = sum_of (λ (d : DocumentChunkStats). d.text_characters) results;
    results = results;
  }

  unfoldable pub get_channel_chunk_stats : Option (List ℕ) → Bool → Result ChannelChunkStats
  unfolding count_by_page all_stats sorted
  get_channel_chunk_stats ids include_pages = do
    results ← all_stats (text_groups ids) (image_groups ids) include_pages (stats_documents ids)
    ok (channel_stats results)

  -- The outer join keeps documents without chunks.
  unfoldable pub get_document_stats : List ℕ → List DocumentStats
  unfolding max_page with_page
  get_document_stats ids =
      map
        (λ (e : DocumentEntity). record {
          document_id = e.document_id;
          number_of_pages = max_page e.document_id (
              with_page (
                text_facts stored_page channel tables.text_chunks
                ++ image_facts stored_page channel tables.image_chunks));
        })
        (keep (λ e. is_own channel e && contains ids e.document_id) documents)
