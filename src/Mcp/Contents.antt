-- ===== src/Mcp/Contents.antt =====
-- What the loop over the chunks leaves in its dictionaries.
use ai_dial_generic_rag_back.Prelude.{
  ℕ, ◌≡◌, refl, ap, sym, ◌∙◌, true, false, inl, inr, Option-cases, Option, none, some, List, [],
  ◌∷◌, ◌++◌, concat, map, All, arith, Bool-cases, ◌==◌, ==_iff, codes, append_assoc, append-nil,
  if◌then◌else◌,
}
use ai_dial_generic_rag_back.Prelude.Equality.{nat_key, contains}
use ai_dial_generic_rag_back.Types.{AnyChunk, text_chunk, image_chunk}
use ai_dial_generic_rag_back.Types.Chunk
use ai_dial_generic_rag_back.Mcp.{
  Block, image_content, get, set, keys, Contents, is_page_image, add_text, collect,
}

-- The texts of the text chunks of a page, and the last page image of it.
abbrev pub texts_on : ℕ → List AnyChunk → List (List ℕ)
texts_on p [] = []
texts_on p (text_chunk c ∷ cs) =
    if c.metadata.page_number == p then codes c.text ∷ texts_on p cs else texts_on p cs
texts_on p (image_chunk c ∷ cs) = texts_on p cs

-- `"\n".join(texts)`, or nothing for no text.
abbrev pub joined : List (List ℕ) → Option (List ℕ)
joined [] = none
joined (t ∷ ts) = some (t ++ concat (map (λ s. 10 ∷ s) ts))

abbrev or_else {ℓ} : {A : Type ℓ} → Option A → Option A → Option A
or_else none y = y
or_else (some x) y = some x

abbrev pub image_on : (List ℕ → List ℕ) → ℕ → List AnyChunk → Option Block
image_on b64encode p [] = none
image_on b64encode p (text_chunk c ∷ cs) = image_on b64encode p cs
image_on b64encode p (image_chunk c ∷ cs) = or_else (image_on b64encode p cs) (
    if is_page_image c.image_type
    then (if c.metadata.page_number == p
        then some (image_content (b64encode c.content) c.mime_type)
        else none)
    else none)

module _ {ℓ} {A : Type ℓ} where
  get-set :
      (p q : ℕ) (x : A) (items : List (ℕ × A))
      → get q (set p x items) ≡ (if p == q then some x else get q items)
  get-set p q x [] = refl
  get-set p q x ((r, y) ∷ items) =
      ground (arith, get-set p q x items, ==_iff r p, ==_iff p q, ==_iff r q)

  pub contains-keys :
      (p : ℕ) (items : List (ℕ × A)) → contains (keys items) p ≡ false → get p items ≡ none
  contains-keys p [] h = refl
  contains-keys p ((q, x) ∷ items) h = ground (arith, contains-keys p items)

  pub contained-keys :
      (p : ℕ) (items : List (ℕ × A))
      → contains (keys items) p ≡ true
      → (x : A) × (get p items ≡ some x)
  contained-keys p [] h = absurd (cc h)
  contained-keys p ((q, x) ∷ items) h = elim (Bool-cases (q == p)) [
    | inl same ↦ (x, rw same refl)
    | inr differs ↦ rw differs (contained-keys p items (rw differs at h))
  ]

  All-keys :
      (P : ℕ → Type 0) (p : ℕ) (x : A) (items : List (ℕ × A))
      → P p
      → All P (keys items)
      → All P (keys (set p x items))
  All-keys P p x [] h k = (h, tt)
  All-keys P p x ((q, y) ∷ items) h k = elim (Bool-cases (q == p)) [
    | inl same ↦ rw same k
    | inr differs ↦ rw differs (k.0, All-keys P p x items h k.1)
  ]

abbrev text_after : Option (List ℕ) → List (List ℕ) → Option (List ℕ)
text_after none ts = joined ts
text_after (some t) ts = joined (t ∷ ts)

text_after-add_text :
    (old : Option (List ℕ)) (new : List ℕ) (ts : List (List ℕ))
    → text_after (some (add_text new old)) ts ≡ text_after old (new ∷ ts)
text_after-add_text none new ts = refl
text_after-add_text (some t) new ts =
    ap some (append_assoc t (10 ∷ new) (concat (map (λ s. 10 ∷ s) ts)))

or_else_assoc {ℓ} :
    {A : Type ℓ} (x y z : Option A) → or_else (or_else x y) z ≡ or_else x (or_else y z)
or_else_assoc none y z = refl
or_else_assoc (some a) y z = refl

get-set-add_text :
    (p q : ℕ) (new : List ℕ) (texts : List (ℕ × List ℕ)) (ts : List (List ℕ))
    → text_after (get p (set q (add_text new (get q texts)) texts)) ts
      ≡ text_after (get p texts) (if q == p then new ∷ ts else ts)
get-set-add_text p q new texts ts =
    rw (get-set q p (add_text new (get q texts)) texts) (elim (Bool-cases (q == p)) [
      | inr differs ↦ rw differs refl
      | inl same ↦
          let e : q ≡ p = (==_iff q p).0 same in
          rw same (
            ap (λ r. text_after (some (add_text new (get r texts))) ts) e
            ∙ text_after-add_text (get p texts) new ts)
    ])

get-set-or_else {ℓ} :
    {A : Type ℓ} (p q : ℕ) (x : A) (items : List (ℕ × A))
    → get p (set q x items) ≡ or_else (if q == p then some x else none) (get p items)
get-set-or_else p q x items = elim (Bool-cases (q == p)) [
  | inl same ↦ rw (get-set q p x items) (rw same refl)
  | inr differs ↦ rw (get-set q p x items) (rw differs refl)
]

module _ (b64encode : List ℕ → List ℕ) where
  get-collect :
      (p : ℕ) (cs : List AnyChunk) (contents : Contents)
      → (get p (collect b64encode cs contents).0 ≡ text_after (get p contents.0) (texts_on p cs))
        × (get p (collect b64encode cs contents).1
            ≡ or_else (image_on b64encode p cs) (get p contents.1))
  unfolding collect
  get-collect p [] (texts, images) = (
    elim (Option-cases (get p texts)) [
      | inl e ↦ rw e refl
      | inr (t, e) ↦ rw e (ap some (sym (append-nil t)))
    ],
    refl,
  )
  get-collect p (text_chunk c ∷ cs) (texts, images) =
      let q = c.metadata.page_number in
      let after = get-collect p cs (set q (add_text (codes c.text) (get q texts)) texts, images) in
      (after.0 ∙ get-set-add_text p q (codes c.text) texts (texts_on p cs), after.1)
  get-collect p (image_chunk c ∷ cs) (texts, images) =
      let q = c.metadata.page_number in
      let new = image_content (b64encode c.content) c.mime_type in
      elim (Bool-cases (is_page_image c.image_type)) [
        | inl shown ↦
            let after = get-collect p cs (texts, set q new images) in
            rw (shown, collect)
              (
                after.0,
                after.1
                    ∙ ap (or_else (image_on b64encode p cs)) (get-set-or_else p q new images)
                    ∙ sym (
                        or_else_assoc (image_on b64encode p cs) (if q == p then some new else none)
                          (get p images)),
              )
        | inr hidden ↦
            let after = get-collect p cs (texts, images) in
            rw (hidden, collect)
              (after.0, after.1 ∙ sym (or_else_assoc (image_on b64encode p cs) none (get p images)))
      ]

  -- The pages of a dictionary are pages of chunks.
  pub All-keys-collect :
      (P : ℕ → Type 0) (cs : List AnyChunk) (contents : Contents)
      → All (λ c. P (Chunk.page_number c)) cs
      → All P (keys contents.0)
      → All P (keys contents.1)
      → All P (keys (collect b64encode cs contents).0)
        × All P (keys (collect b64encode cs contents).1)
  unfolding collect
  All-keys-collect P [] (texts, images) h k l = (k, l)
  All-keys-collect P (text_chunk c ∷ cs) (texts, images) h k l =
      let q = c.metadata.page_number in
      All-keys-collect P cs (set q (add_text (codes c.text) (get q texts)) texts, images) h.1
        (All-keys P q (add_text (codes c.text) (get q texts)) texts h.0 k) l
  All-keys-collect P (image_chunk c ∷ cs) (texts, images) h k l =
      let q = c.metadata.page_number in
      let new = image_content (b64encode c.content) c.mime_type in
      elim (Bool-cases (is_page_image c.image_type)) [
        | inl shown ↦
            rw (shown, collect)
              (All-keys-collect P cs (texts, set q new images) h.1 k
                (All-keys P q new images h.0 l))
        | inr hidden ↦ rw (hidden, collect) (All-keys-collect P cs (texts, images) h.1 k l)
      ]

  -- What is in the dictionaries of a page.
  pub contents_of_page :
      (p : ℕ) (cs : List AnyChunk)
      → (get p (collect b64encode cs ([], [])).0 ≡ joined (texts_on p cs))
        × (get p (collect b64encode cs ([], [])).1 ≡ image_on b64encode p cs)
  contents_of_page p cs =
      let found = get-collect p cs ([], []) in
      (
        found.0,
        found.1 ∙ (elim (Option-cases (image_on b64encode p cs)) [
          | inl e ↦ rw e refl
          | inr (b, e) ↦ rw e refl
        ]),
      )
