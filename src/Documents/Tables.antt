-- ===== src/Documents/Tables.antt =====
-- How the queries of `DocumentRepository` see a table after a row was added, changed or removed.
use ai_dial_generic_rag_back.Prelude.{
  ℕ, ◌+◌, ◌≤◌, ◌≡◌, refl, sym, ap, ap₂, ◌∙◌, Bool, true, false, not, ◌&&◌, ◌||◌, inl, inr, none,
  some, String, str_eq, List, [], ◌∷◌, ◌++◌, map, keep, All, max, arith, Bool-cases, if◌then◌else◌,
  ==_iff,
}
use ai_dial_generic_rag_back.Prelude.Equality.{
  Hashable, nat_key, string_key, pair_key, contains, same_refl,
}
use ai_dial_generic_rag_back.Prelude.Distinct.{Distinct}
use ai_dial_generic_rag_back.Documents.{DocumentEntity}
use ai_dial_generic_rag_back.Documents.Repository.{
  id_key, url_key, first, next_after, get_next_id, is_own, get_by_id, get_by_url, update_entity,
  replace, is_taken,
}

module _ (test : DocumentEntity → Bool) where
  pub first_passes :
      (rows : List DocumentEntity) (e : DocumentEntity) → first test rows ≡ some e → test e ≡ true
  unfolding first
  first_passes [] e h = cc
  first_passes (r ∷ rows) e h = elim (Bool-cases (test r)) [
    | inl yes_ ↦ let same : r ≡ e = ground arith in rw (← same) yes_
    | inr no_ ↦ first_passes rows e (ground arith)
  ]

  pub first-All {κ} :
      (P : DocumentEntity → Type κ) (rows : List DocumentEntity) (e : DocumentEntity)
      → first test rows ≡ some e
      → All P rows
      → P e
  unfolding first
  first-All P [] e h all = cc
  first-All P (r ∷ rows) e h all = elim (Bool-cases (test r)) [
    | inl yes_ ↦ let same : r ≡ e = ground arith in rw (← same) all.0
    | inr no_ ↦ first-All P rows e (ground arith) all.1
  ]

  pub contains-first :
      (rows : List DocumentEntity) (e : DocumentEntity)
      → first test rows ≡ some e
      → (contains (map id_key rows) (id_key e) ≡ true)
        × (contains (map url_key rows) (url_key e) ≡ true)
  unfolding first
  contains-first [] e h = cc
  contains-first (r ∷ rows) e h = elim (Bool-cases (test r)) [
    | inl yes_ ↦
        let same : r ≡ e = ground arith in
        rw same (ground (arith, same_refl (id_key e)), ground (arith, same_refl (url_key e)))
    | inr no_ ↦
        let found : first test rows ≡ some e = ground arith in
        let ih = contains-first rows e found in (ground (arith, ih), ground (arith, ih))
  ]

  -- The first row that passes gives way to another.
  unfoldable pub set_first : DocumentEntity → List DocumentEntity → List DocumentEntity
  set_first e [] = []
  set_first e (r ∷ rows) = let rest = set_first e rows in if test r then e ∷ rows else r ∷ rest

pub update-absent :
    (rows : List DocumentEntity) (e : DocumentEntity)
    → contains (map id_key rows) (id_key e) ≡ false
    → update_entity rows e ≡ rows
update-absent [] e h = refl
update-absent (r ∷ rows) e h = ground (arith, update-absent rows e)

-- The equality of primary keys, and of URLs.
abbrev pub row_key : Hashable (String × ℕ)
row_key = pair_key

abbrev pub place_key : Hashable (String × String)
place_key = pair_key

replace_same : (e r : DocumentEntity) → id_key r ≡ id_key e → replace e r ≡ e
replace_same e r h =
    let same : row_key.same (id_key r) (id_key e) ≡ true =
      (row_key.same_iff (id_key r) (id_key e)).1 h in
    ground arith

replace_other :
    (e r : DocumentEntity) → row_key.same (id_key r) (id_key e) ≡ false → replace e r ≡ r
replace_other e r h = ground arith

-- A row that is not in the list differs from each that is.
pub differs_of_absent :
    {K : Type 0} ⦃h : Hashable K⦄ (ks : List K) (j k : K)
    → contains ks j ≡ false
    → contains ks k ≡ true
    → h.same j k ≡ false
differs_of_absent ⦃h⦄ ks j k a b = elim (Bool-cases (h.same j k)) [
  | inl same ↦ let e : j ≡ k = (h.same_iff j k).0 same in absurd (cc)
  | inr no_ ↦ no_
]

pub update_entity_lem :
    (test : DocumentEntity → Bool) (rows : List DocumentEntity) (e new : DocumentEntity)
    → first test rows ≡ some e
    → Distinct (map id_key rows)
    → id_key new ≡ id_key e
    → update_entity rows new ≡ set_first test new rows
unfolding first set_first
update_entity_lem test [] e new h d k = refl
update_entity_lem test (r ∷ rows) e new h d k = elim (Bool-cases (test r)) [
  | inl yes_ ↦
      let same : r ≡ e = ground arith in
      let same_id : id_key r ≡ id_key new = ap id_key same ∙ sym k in
      let absent : contains (map id_key rows) (id_key new) ≡ false = cc in
      rw yes_ (ap₂ ◌∷◌ (replace_same new r same_id) (update-absent rows new absent))
  | inr no_ ↦
      let found : first test rows ≡ some e = ground arith in
      let differs =
        differs_of_absent (map id_key rows) (id_key r) (id_key e) d.0
          (contains-first test rows e found).0 in
      rw no_ (
        ap₂ ◌∷◌ (replace_other new r (ap (row_key.same (id_key r)) k ∙ differs))
          (update_entity_lem test rows e new found d.1 k))
]

pub map-set_first {κ} :
    {K : Type κ} (key : DocumentEntity → K) (test : DocumentEntity → Bool)
    (rows : List DocumentEntity) (e new : DocumentEntity)
    → first test rows ≡ some e
    → key new ≡ key e
    → map key (set_first test new rows) ≡ map key rows
unfolding first set_first
map-set_first key test [] e new h k = refl
map-set_first key test (r ∷ rows) e new h k = elim (Bool-cases (test r)) [
  | inl yes_ ↦
      let same : r ≡ e = ground arith in
      rw yes_ (ap (λ k'. k' ∷ map key rows) (k ∙ ap key (sym same)))
  | inr no_ ↦
      let found : first test rows ≡ some e = ground arith in
      rw no_ (ap (◌∷◌ (key r)) (map-set_first key test rows e new found k))
]

pub All-set_first {κ} :
    (P : DocumentEntity → Type κ) (test : DocumentEntity → Bool) (rows : List DocumentEntity)
    (new : DocumentEntity)
    → P new
    → All P rows
    → All P (set_first test new rows)
unfolding set_first
All-set_first P test [] new h all = tt
All-set_first P test (r ∷ rows) new h all = elim (Bool-cases (test r)) [
  | inl yes_ ↦ rw yes_ (h, all.1)
  | inr no_ ↦ rw no_ (all.0, All-set_first P test rows new h all.1)
]

-- A query that neither the old nor the new row answers sees no difference.
pub first-set_first :
    (query test : DocumentEntity → Bool) (rows : List DocumentEntity) (e new : DocumentEntity)
    → first test rows ≡ some e
    → query e ≡ false
    → query new ≡ false
    → first query (set_first test new rows) ≡ first query rows
unfolding first set_first
first-set_first query test [] e new h p q = refl
first-set_first query test (r ∷ rows) e new h p q = elim (Bool-cases (test r)) [
  | inl yes_ ↦ let same : r ≡ e = ground arith in rw (yes_, q, same, p) refl
  | inr no_ ↦
      let found : first test rows ≡ some e = ground arith in
      rw (no_, first-set_first query test rows e new found p q) refl
]

-- The new row answers a query that only it and the old one answer.
pub first-set_first_self :
    (test : DocumentEntity → Bool) (rows : List DocumentEntity) (e new : DocumentEntity)
    → first test rows ≡ some e
    → test new ≡ true
    → first test (set_first test new rows) ≡ some new
unfolding first set_first
first-set_first_self test [] e new h p = cc
first-set_first_self test (r ∷ rows) e new h p = elim (Bool-cases (test r)) [
  | inl yes_ ↦ rw (yes_, p) refl
  | inr no_ ↦
      let found : first test rows ≡ some e = ground arith in
      ground (arith, first-set_first_self test rows e new found p)
]

pub first-append_none :
    (test : DocumentEntity → Bool) (rows : List DocumentEntity) (new : DocumentEntity)
    → first test rows ≡ none
    → test new ≡ true
    → first test (rows ++ new ∷ []) ≡ some new
unfolding first
first-append_none test [] new h p = rw p refl
first-append_none test (r ∷ rows) new h p = ground (arith, first-append_none test rows new)

pub first-append_other :
    (test : DocumentEntity → Bool) (rows : List DocumentEntity) (new : DocumentEntity)
    → test new ≡ false
    → first test (rows ++ new ∷ []) ≡ first test rows
unfolding first
first-append_other test [] new p = rw p refl
first-append_other test (r ∷ rows) new p = ground (arith, first-append_other test rows new p)

module _ (channel : String) where
  fresh_above :
      (rows : List DocumentEntity) (n : ℕ)
      → next_after (keep (is_own channel) rows) ≤ n
      → contains (map id_key rows) (channel, n) ≡ false
  unfolding next_after
  fresh_above [] n h = refl
  fresh_above (r ∷ rows) n h = elim (Bool-cases (str_eq r.channel_key channel)) [
    | inl own ↦
        let h' : max (r.document_id + 1) (next_after (keep (is_own channel) rows)) ≤ n =
          ground arith in
        let ih = fresh_above rows n (omega arith) in ground (arith, ih, ==_iff r.document_id n)
    | inr other ↦ let ih = fresh_above rows n (ground arith) in ground (arith, ih)
  ]

  -- The next id is not taken.
  pub get_next_id_fresh :
      (rows : List DocumentEntity)
      → contains (map id_key rows) (channel, get_next_id channel rows) ≡ false
  unfolding get_next_id
  get_next_id_fresh rows = fresh_above rows (next_after (keep (is_own channel) rows)) (omega arith)

  pub contains-get_by_url :
      (rows : List DocumentEntity) (url : String)
      → get_by_url channel url rows ≡ none
      → contains (map url_key rows) (channel, url) ≡ false
  unfolding first
  contains-get_by_url [] url h = refl
  contains-get_by_url (r ∷ rows) url h = ground (arith, contains-get_by_url rows url)

  -- A row of another channel has the URL.
  abbrev pub is_held_elsewhere : String → List DocumentEntity → Bool
  is_held_elsewhere url [] = false
  is_held_elsewhere url (r ∷ rows) =
      (not (is_own channel r) && str_eq r.url url) || is_held_elsewhere url rows

  pub is_taken_of_new :
      (rows : List DocumentEntity) (url : String)
      → get_by_url channel url rows ≡ none
      → is_held_elsewhere url rows ≡ false
      → is_taken url rows ≡ false
  unfolding first
  is_taken_of_new [] url h k = refl
  is_taken_of_new (r ∷ rows) url h k = ground (arith, is_taken_of_new rows url)

  pub get_by_id-fresh :
      (rows : List DocumentEntity) (id : ℕ)
      → contains (map id_key rows) (channel, id) ≡ false
      → get_by_id channel id rows ≡ none
  unfolding first
  get_by_id-fresh [] id h = refl
  get_by_id-fresh (r ∷ rows) id h = ground (arith, get_by_id-fresh rows id)
