-- ===== src/Descriptions/Items.antt =====
-- The items of a description: their texts, and what they describe.
use mathlib.Core.Option
use ai_dial_generic_rag_back.Prelude.{
  ℕ, suc, ◌+◌, ◌≡◌, refl, ap, ◌∙◌, not, Bool-cases, inl, inr, Option, none, some, String, List, [],
  ◌∷◌, ◌++◌, keep, map, append-nil, concat, get_elem?, All, arith,
}
use ai_dial_generic_rag_back.Descriptions.Cleaning.{IsClean, IsClean-clean_text}
use ai_dial_generic_rag_back.Descriptions.{
  DescriptionKind, page_summary, page_key_fact, image_summary, image_key_fact, table_summary,
  table_key_fact, DescriptionItem, ImageDescription, TableDescription, PageDescription, clean_text,
  is_empty, add_to_result, add_images, add_tables, flatten,
}

-- The text of a description that an item of this kind and index is about.
abbrev pub described : PageDescription → DescriptionKind → Option ℕ → Option String
described d page_summary none = some d.summary
described d page_key_fact none = some d.key_fact
described d image_summary (some i) =
    Option.map (λ (x : ImageDescription). x.summary) (get_elem? d.images i)
described d image_key_fact (some i) =
    Option.map (λ (x : ImageDescription). x.key_fact) (get_elem? d.images i)
described d table_summary (some i) =
    Option.map (λ (x : TableDescription). x.summary) (get_elem? d.tables i)
described d table_key_fact (some i) =
    Option.map (λ (x : TableDescription). x.key_fact) (get_elem? d.tables i)
described d kind index = none

abbrev pub IsItemOf : PageDescription → DescriptionItem → Type 0
IsItemOf d item =
    IsClean item.text
    × (Option.map clean_text (described d item.kind item.element_index) ≡ some item.text)

-- The cleaned texts that are not empty.
abbrev pub cleaned : List String → List String
cleaned texts = keep (λ s. not (is_empty s)) (map clean_text texts)

abbrev image_texts : List ImageDescription → List String
image_texts xs = concat (map (λ (x : ImageDescription). x.summary ∷ x.key_fact ∷ []) xs)

abbrev table_texts : List TableDescription → List String
table_texts xs = concat (map (λ (x : TableDescription). x.summary ∷ x.key_fact ∷ []) xs)

-- The texts of a description, in its order.
abbrev pub texts_of : PageDescription → List String
texts_of d = d.summary ∷ d.key_fact ∷ (image_texts d.images ++ table_texts d.tables)

abbrev pub item_texts : List DescriptionItem → List String
item_texts = map (λ (item : DescriptionItem). item.text)

item_texts-add_to_result :
    (text : String) (kind : DescriptionKind) (i : Option ℕ) (items : List DescriptionItem)
    (ts : List String)
    → item_texts items ≡ cleaned ts
    → item_texts (add_to_result text kind i items) ≡ cleaned (text ∷ ts)
unfolding add_to_result
item_texts-add_to_result text kind i items ts h = elim (Bool-cases (is_empty (clean_text text))) [
  | inl e ↦ rw e h
  | inr e ↦ rw e (ap (◌∷◌ (clean_text text)) h)
]

item_texts-add_images :
    (i : ℕ) (images : List ImageDescription) (items : List DescriptionItem) (ts : List String)
    → item_texts items ≡ cleaned ts
    → item_texts (add_images i images items) ≡ cleaned (image_texts images ++ ts)
unfolding add_images
item_texts-add_images i [] items ts h = h
item_texts-add_images i (x ∷ images) items ts h =
    item_texts-add_to_result x.summary image_summary (some i) _
      (x.key_fact ∷ (image_texts images ++ ts))
      (item_texts-add_to_result x.key_fact image_key_fact (some i) _ (image_texts images ++ ts)
        (item_texts-add_images (i + 1) images items ts h))

item_texts-add_tables :
    (i : ℕ) (tables : List TableDescription) (items : List DescriptionItem) (ts : List String)
    → item_texts items ≡ cleaned ts
    → item_texts (add_tables i tables items) ≡ cleaned (table_texts tables ++ ts)
unfolding add_tables
item_texts-add_tables i [] items ts h = h
item_texts-add_tables i (x ∷ tables) items ts h =
    item_texts-add_to_result x.summary table_summary (some i) _
      (x.key_fact ∷ (table_texts tables ++ ts))
      (item_texts-add_to_result x.key_fact table_key_fact (some i) _ (table_texts tables ++ ts)
        (item_texts-add_tables (i + 1) tables items ts h))

module _ (d : PageDescription) where
  All-add_to_result :
      (text : String) (kind : DescriptionKind) (i : Option ℕ) (items : List DescriptionItem)
      → described d kind i ≡ some text
      → All (IsItemOf d) items
      → All (IsItemOf d) (add_to_result text kind i items)
  unfolding add_to_result
  All-add_to_result text kind i items h k = elim (Bool-cases (is_empty (clean_text text))) [
    | inl e ↦ rw e k
    | inr e ↦ rw e ((IsClean-clean_text text, ap (Option.map clean_text) h), k)
  ]

  All-add_images :
      (i : ℕ) (images : List ImageDescription) (items : List DescriptionItem)
      → ((k : ℕ) → get_elem? d.images (k + i) ≡ get_elem? images k)
      → All (IsItemOf d) items
      → All (IsItemOf d) (add_images i images items)
  unfolding add_images
  All-add_images i [] items h k = k
  All-add_images i (x ∷ images) items h k =
      let here : get_elem? d.images i ≡ some x = ap (get_elem? d.images) (omega arith) ∙ h 0 in
      All-add_to_result x.summary image_summary (some i) _
        (ap (Option.map (λ (y : ImageDescription). y.summary)) here)
        (All-add_to_result x.key_fact image_key_fact (some i) _
          (ap (Option.map (λ (y : ImageDescription). y.key_fact)) here)
          (All-add_images (i + 1) images items
            (λ n. ap (get_elem? d.images) (omega arith) ∙ h (suc n)) k))

  All-add_tables :
      (i : ℕ) (tables : List TableDescription) (items : List DescriptionItem)
      → ((k : ℕ) → get_elem? d.tables (k + i) ≡ get_elem? tables k)
      → All (IsItemOf d) items
      → All (IsItemOf d) (add_tables i tables items)
  unfolding add_tables
  All-add_tables i [] items h k = k
  All-add_tables i (x ∷ tables) items h k =
      let here : get_elem? d.tables i ≡ some x = ap (get_elem? d.tables) (omega arith) ∙ h 0 in
      All-add_to_result x.summary table_summary (some i) _
        (ap (Option.map (λ (y : TableDescription). y.summary)) here)
        (All-add_to_result x.key_fact table_key_fact (some i) _
          (ap (Option.map (λ (y : TableDescription). y.key_fact)) here)
          (All-add_tables (i + 1) tables items
            (λ n. ap (get_elem? d.tables) (omega arith) ∙ h (suc n)) k))

  -- The items of a description hold exactly the cleaned texts of it that are not empty, in its
  -- order; each has no line break, no null character and no space at either end, and its kind and
  -- index lead to the text of the description that it was cleaned from.
  pub flatten_lem : (item_texts (flatten d) ≡ cleaned (texts_of d)) × All (IsItemOf d) (flatten d)
  unfolding flatten
  flatten_lem = (
    item_texts-add_to_result d.summary page_summary none _
        (d.key_fact ∷ (image_texts d.images ++ table_texts d.tables))
        (item_texts-add_to_result d.key_fact page_key_fact none _
          (image_texts d.images ++ table_texts d.tables)
          (item_texts-add_images 0 d.images (add_tables 0 d.tables []) (table_texts d.tables) (
            item_texts-add_tables 0 d.tables [] [] refl
            ∙ ap cleaned (append-nil (table_texts d.tables))))),
    All-add_to_result d.summary page_summary none _ refl (
        All-add_to_result d.key_fact page_key_fact none _ refl (
          All-add_images 0 d.images (add_tables 0 d.tables [])
            (λ k. ap (get_elem? d.images) (omega arith))
            (All-add_tables 0 d.tables [] (λ k. ap (get_elem? d.tables) (omega arith)) tt))),
  )
