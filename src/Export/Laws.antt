-- ===== src/Export/Laws.antt =====
-- What an import leaves in the indexes and among the chunks.
use ai_dial_generic_rag_back.Prelude.{
  ℕ, ◌≡◌, refl, sym, ap, ap₂, ◌∙◌, true, false, not, inl, inr, Option, none, some, String, str_eq,
  eq_iff, List, [], ◌∷◌, ◌++◌, keep, keep-append, keep-not, map, append-nil, arith, Bool-cases,
  ==_iff,
}
use ai_dial_generic_rag_back.Prelude.Equality.{nat_key, string_key, contains}
use ai_dial_generic_rag_back.Prelude.Distinct.{Distinct}
use ai_dial_generic_rag_back.Export.{
  IndexRecord, is_record_of, find_records, renamed, import_data, import_indexes,
}

module _ {ℓ} {V : Type ℓ} where
  added :
      (name : String) (id : ℕ) (new : List (IndexRecord V))
      → keep (is_record_of name id) (map (λ r. (name, renamed id r)) new)
        ≡ map (λ r. (name, renamed id r)) new
  added name id [] = refl
  added name id (r ∷ new) = ground (arith, added name id new, eq_iff name name, ==_iff id id)

  removed_elsewhere :
      (name other : String) (id : ℕ) (records : List (String × IndexRecord V))
      → str_eq other name ≡ false
      → keep (is_record_of name id) (keep (λ r. not (is_record_of other id r)) records)
        ≡ keep (is_record_of name id) records
  removed_elsewhere name other id [] h = refl
  removed_elsewhere name other id (r ∷ records) h = ground (
    arith,
    removed_elsewhere name other id records h,
    eq_iff r.0 name,
    eq_iff r.0 other,
    eq_iff other name,
  )

  added_elsewhere :
      (name other : String) (id : ℕ) (new : List (IndexRecord V))
      → str_eq other name ≡ false
      → keep (is_record_of name id) (map (λ r. (other, renamed id r)) new) ≡ []
  added_elsewhere name other id [] h = refl
  added_elsewhere name other id (r ∷ new) h = ground (arith, added_elsewhere name other id new h)

  -- The records of a document in an index, given what the bundle has for it: a bundle with no
  -- records leaves the old ones.
  abbrev pub restored :
      String
      → ℕ
      → Option (List (IndexRecord V))
      → List (String × IndexRecord V)
      → List (String × IndexRecord V)
  restored name id none old = old
  restored name id (some []) old = old
  restored name id (some (r ∷ rs)) old = map (λ r. (name, renamed id r)) (r ∷ rs)

  import_data_here :
      (name : String) (id : ℕ) (found : Option (List (IndexRecord V)))
      (records : List (String × IndexRecord V))
      → keep (is_record_of name id) (import_data name id found records)
        ≡ restored name id found (keep (is_record_of name id) records)
  import_data_here name id none records = refl
  import_data_here name id (some []) records = refl
  import_data_here name id (some (r ∷ rs)) records =
      keep-append (is_record_of name id) (keep (λ r. not (is_record_of name id r)) records)
        (map (λ r. (name, renamed id r)) (r ∷ rs))
      ∙ ap₂ ◌++◌ (keep-not (is_record_of name id) records) (added name id (r ∷ rs))

  import_data_elsewhere :
      (name other : String) (id : ℕ) (found : Option (List (IndexRecord V)))
      (records : List (String × IndexRecord V))
      → str_eq other name ≡ false
      → keep (is_record_of name id) (import_data other id found records)
        ≡ keep (is_record_of name id) records
  import_data_elsewhere name other id none records h = refl
  import_data_elsewhere name other id (some []) records h = refl
  import_data_elsewhere name other id (some (r ∷ rs)) records h =
      keep-append (is_record_of name id) (keep (λ r. not (is_record_of other id r)) records)
        (map (λ r. (other, renamed id r)) (r ∷ rs))
      ∙ ap₂ ◌++◌ (removed_elsewhere name other id records h)
          (added_elsewhere name other id (r ∷ rs) h)
      ∙ append-nil (keep (is_record_of name id) records)

  import_indexes_elsewhere :
      (names : List String) (name : String) (id : ℕ)
      (indexes : List (String × List (IndexRecord V))) (records : List (String × IndexRecord V))
      → contains names name ≡ false
      → keep (is_record_of name id) (import_indexes names id indexes records)
        ≡ keep (is_record_of name id) records
  unfolding import_indexes
  import_indexes_elsewhere [] name id indexes records h = refl
  import_indexes_elsewhere (other ∷ names) name id indexes records h =
      import_indexes_elsewhere names name id indexes
        (import_data other id (find_records other indexes) records) (ground arith)
      ∙ import_data_elsewhere name other id (find_records other indexes) records (ground arith)

  -- In every index of the channel, the records of the imported document are those of the bundle
  -- under its new id; but if the bundle has none for the index, the records that stood there before
  -- are left.
  pub import_indexes_lem :
      (names : List String) (name : String) (id : ℕ)
      (indexes : List (String × List (IndexRecord V))) (records : List (String × IndexRecord V))
      → Distinct names
      → contains names name ≡ true
      → keep (is_record_of name id) (import_indexes names id indexes records)
        ≡ restored name id (find_records name indexes) (keep (is_record_of name id) records)
  unfolding import_indexes
  import_indexes_lem [] name id indexes records d h = cc
  import_indexes_lem (other ∷ names) name id indexes records d h =
      elim (Bool-cases (str_eq other name)) [
        | inl same ↦
            let e : other ≡ name = (eq_iff other name).0 same in
            let later : contains names name ≡ false = ap (contains names) (sym e) ∙ d.0 in
            import_indexes_elsewhere names name id indexes
              (import_data other id (find_records other indexes) records) later
            ∙ rw e (import_data_here name id (find_records name indexes) records)
        | inr differs ↦
            import_indexes_lem names name id indexes
              (import_data other id (find_records other indexes) records) d.1 (ground arith)
            ∙ ap (restored name id (find_records name indexes))
                (import_data_elsewhere name other id (find_records other indexes) records differs)
      ]
