-- ===== src/Answers/Cited.antt =====
-- What the prompt says of the documents, and which of them the answer then cites.
use ai_dial_generic_rag_back.Prelude.{
  subst, ℕ, zero, suc, ◌<◌, ◌+◌, get_elem?, ◌≡◌, refl, ap, ap₂, sym, ◌∙◌, Option, none, some,
  String, List, [], ◌∷◌, ◌++◌, arith, map, concat, All, append_assoc, append-nil, inl, inr,
  Option-cases, ℤ, codes, length, ◌==◌, if◌then◌else◌,
}
use ai_dial_generic_rag_back.Prelude.Decimal.{
  decimal, read_decimal, read_decimal-decimal, AreDigits, decimal-AreDigits,
}
use ai_dial_generic_rag_back.Types.{
  RetrievedDocument, ImageChunk, AnyChunk, text_chunk, image_chunk,
}
use ai_dial_generic_rag_back.Types.Json.{Json}
use ai_dial_generic_rag_back.References.{Text, ReferenceParserOutput, atransform}
use ai_dial_generic_rag_back.References.Streaming.{Event, char, cite, chars, cited, events}
use ai_dial_generic_rag_back.References.Printing.{
  Segment, plain, ref, print, meaning, IsProper, events-atransform-print,
}
use ai_dial_generic_rag_back.Answers.{
  Call, answer_content, answer_reference, answer_items, found_item, generate,
}
use ai_dial_generic_rag_back.Answers.Messages.{cited_docs}
use ai_dial_generic_rag_back.Answers.Plain.{nth_found, found_item-nth_found}
use ai_dial_generic_rag_back.Answers.Prompt.{
  Element, text_element, image_element, chunk_texts, attribute, join_texts, metadata_text,
  document_elements, document_text, chunk_images, ainvoke,
}

abbrev strip_prefix : Text → Text → Option Text
strip_prefix [] t = some t
strip_prefix (p ∷ ps) [] = none
strip_prefix (p ∷ ps) (c ∷ cs) = if p == c then strip_prefix ps cs else none

-- What stands before the next quote.
abbrev quoted : Text → Text
quoted [] = []
quoted (c ∷ cs) = if c == 39 then [] else c ∷ quoted cs

-- The id in the tag of a document, read as a number.
abbrev pub id_of : Element → List ℕ
id_of (text_element t) = elim (strip_prefix (codes "<doc id='") t) [
  | none ↦ []
  | some rest ↦ read_decimal 0 (quoted rest) ∷ []
]
id_of (image_element url) = []

abbrev pub shown_ids : List Element → List ℕ
shown_ids elements = concat (map id_of elements)

-- The texts of the prompt that have an id, with it.
abbrev pub shown_texts : List Element → List (ℕ × Text)
shown_texts [] = []
shown_texts (image_element url ∷ elements) = shown_texts elements
shown_texts (text_element t ∷ elements) =
    map (λ i. (i, t)) (id_of (text_element t)) ++ shown_texts elements

abbrev pub text_chunks : List AnyChunk → List Text
text_chunks [] = []
text_chunks (text_chunk c ∷ cs) = codes c.text ∷ text_chunks cs
text_chunks (image_chunk c ∷ cs) = text_chunks cs

-- The texts of a document, each on a line of its own.
abbrev pub lines_of : RetrievedDocument → Text
lines_of doc = concat (map (λ t. codes "\n" ++ t) (text_chunks doc.chunks)) ++ codes "\n"

-- One text for each document, with the ids from `i` on: it has the title and ends with the document's
-- texts.
abbrev pub ShowsEach : ℕ → List RetrievedDocument → List (ℕ × Text) → Type 0
ShowsEach i [] [] = Unit
ShowsEach i [] (t ∷ ts) = ⊥
ShowsEach i (doc ∷ docs) [] = ⊥
ShowsEach i (doc ∷ docs) ((n, t) ∷ ts) =
    (n ≡ i)
    × ((before : Text) × (after : Text) × (t
          ≡ before ++ codes doc.source_title ++ after ++ lines_of doc))
    × ShowsEach (suc i) docs ts

abbrev pub count_from : ℕ → ℕ → List ℕ
count_from i zero = []
count_from i (suc n) = i ∷ count_from (suc i) n

-- The documents that stand with an id.
abbrev pub with_id : List ℕ → List RetrievedDocument → ℕ → List RetrievedDocument
with_id [] docs n = []
with_id (i ∷ ids) [] n = []
with_id (i ∷ ids) (doc ∷ docs) n =
    let rest = with_id ids docs n in if i == n then doc ∷ rest else rest

-- The documents that a part of the answer names by the ids.
abbrev pub named : List ℕ → List RetrievedDocument → Segment → List RetrievedDocument
named ids docs (plain c) = []
named ids docs (ref n d ds) = with_id ids docs n

-- The digits stand before the quote that closes them, whatever follows.
quoted-digits :
    (ds a b c d e : Text) → AreDigits ds → quoted (ds ++ 39 ∷ [] ++ a ++ b ++ c ++ d ++ e) ≡ ds
quoted-digits [] a b c d e h = refl
quoted-digits (x ∷ ds) a b c d e h = ground (arith, quoted-digits ds a b c d e h.1, h.0)

module _ (data_uri : ImageChunk → Text) (str : Json → Text) where
  shown_ids-chunk_images :
      (cs : List AnyChunk) (rest : List Element)
      → shown_ids (chunk_images data_uri str cs ++ rest) ≡ shown_ids rest
  shown_ids-chunk_images [] rest = refl
  shown_ids-chunk_images (text_chunk c ∷ cs) rest = shown_ids-chunk_images cs rest
  shown_ids-chunk_images (image_chunk c ∷ cs) rest = shown_ids-chunk_images cs rest

  id_of-document_text :
      (i : ℕ) (doc : RetrievedDocument) (names : List String)
      → id_of (text_element (document_text data_uri str i doc names)) ≡ i ∷ []
  id_of-document_text i doc names =
      ap (λ t. read_decimal 0 t ∷ []) (quoted-digits (decimal i) _ _ _ _ _ (decimal-AreDigits i))
      ∙ ap (λ n. n ∷ []) (read_decimal-decimal i)

  shown_ids-document_elements :
      (names : List String) (i : ℕ) (docs : List RetrievedDocument) (rest : List Element)
      → shown_ids (document_elements data_uri str names i docs ++ rest)
        ≡ count_from i (length docs) ++ shown_ids rest
  unfolding document_elements
  shown_ids-document_elements names i [] rest = refl
  shown_ids-document_elements names i (doc ∷ docs) rest =
      ap₂ ◌++◌ (id_of-document_text i doc names) (
        ap shown_ids (append_assoc (chunk_images data_uri str doc.chunks) _ rest)
        ∙ shown_ids-chunk_images doc.chunks _
        ∙ shown_ids-document_elements names (suc i) docs rest)

module _ (data_uri : ImageChunk → Text) (str : Json → Text) (names : List String) where
  document_texts : ℕ → List RetrievedDocument → List (ℕ × Text)
  document_texts i [] = []
  document_texts i (doc ∷ docs) =
      (i, document_text data_uri str i doc names) ∷ document_texts (suc i) docs

  around_title :
      (d i k t q s j g b l : Text)
      → d ++ (i ++ (k ++ t ++ q ++ s ++ j)) ++ g ++ b ++ l
        ≡ (d ++ i ++ k) ++ t ++ (q ++ s ++ j ++ g) ++ (b ++ l)
  around_title d i k t q s j g b l = simp append_assoc

  shown_texts-chunk_images :
      (cs : List AnyChunk) (rest : List Element)
      → shown_texts (chunk_images data_uri str cs ++ rest) ≡ shown_texts rest
  shown_texts-chunk_images [] rest = refl
  shown_texts-chunk_images (text_chunk c ∷ cs) rest = shown_texts-chunk_images cs rest
  shown_texts-chunk_images (image_chunk c ∷ cs) rest = shown_texts-chunk_images cs rest

  shown_texts-document_elements :
      (i : ℕ) (docs : List RetrievedDocument) (rest : List Element)
      → shown_texts (document_elements data_uri str names i docs ++ rest)
        ≡ document_texts i docs ++ shown_texts rest
  unfolding document_elements document_texts
  shown_texts-document_elements i [] rest = refl
  shown_texts-document_elements i (doc ∷ docs) rest =
      let t = document_text data_uri str i doc names in
      ap₂ ◌++◌ (ap (map (λ n. (n, t))) (id_of-document_text data_uri str i doc names)) (
        ap shown_texts (append_assoc (chunk_images data_uri str doc.chunks) _ rest)
        ∙ shown_texts-chunk_images doc.chunks _
        ∙ shown_texts-document_elements (suc i) docs rest)

  chunk_texts_lem :
      (cs : List AnyChunk) → chunk_texts cs ≡ concat (map (λ t. codes "\n" ++ t) (text_chunks cs))
  chunk_texts_lem [] = refl
  chunk_texts_lem (text_chunk c ∷ cs) =
      ap (λ t. codes "\n" ++ codes c.text ++ t) (chunk_texts_lem cs)
  chunk_texts_lem (image_chunk c ∷ cs) = chunk_texts_lem cs

  ShowsEach-document_texts :
      (i : ℕ) (docs : List RetrievedDocument) → ShowsEach i docs (document_texts i docs)
  unfolding document_texts
  ShowsEach-document_texts i [] = tt
  ShowsEach-document_texts i (doc ∷ docs) =
      let id_part = attribute (codes "id") (decimal i) ++ codes " " in
      let later = join_texts (codes " ") (
        attribute (codes "page_number") (decimal doc.source_page_number)
        ∷ map (λ name. attribute (codes name) (metadata_text data_uri str doc name)) names) in
      let title = codes doc.source_title in
      (
        refl,
        (
          codes "<doc " ++ id_part ++ codes "document='",
          codes "'" ++ codes " " ++ later ++ codes ">",
          around_title (codes "<doc ") id_part (codes "document='") title (codes "'") (codes " ")
                later (codes ">") (chunk_texts doc.chunks) (codes "\n")
              ∙ ap
                  (λ t.
                    (codes "<doc " ++ id_part ++ codes "document='")
                    ++ title
                    ++ (codes "'" ++ codes " " ++ later ++ codes ">")
                    ++ (t ++ codes "\n"))
                  (chunk_texts_lem doc.chunks),
        ),
        ShowsEach-document_texts (suc i) docs,
      )

-- The ids from `i` on find the documents by their places.
with_id_of_less :
    (docs : List RetrievedDocument) (i n : ℕ)
    → n < i
    → with_id (count_from i (length docs)) docs n ≡ []
with_id_of_less [] i n h = refl
with_id_of_less (doc ∷ docs) i n h = ground (arith, with_id_of_less docs (suc i) n (omega arith))

listed : Option RetrievedDocument → List RetrievedDocument
listed none = []
listed (some doc) = doc ∷ []

with_id-count_from :
    (docs : List RetrievedDocument) (i k : ℕ)
    → with_id (count_from i (length docs)) docs (i + k) ≡ listed (get_elem? docs k)
unfolding listed
with_id-count_from [] i k = refl
with_id-count_from (doc ∷ docs) i zero =
    ground (arith, with_id_of_less docs (suc i) (i + zero) (omega arith))
with_id-count_from (doc ∷ docs) i (suc k) = ground (
  arith,
  with_id-count_from docs (suc i) k,
  ap (with_id (count_from (suc i) (length docs)) docs) {x = i + suc k} {y = suc i + k}
      (omega arith),
)

module _ (found_items : List RetrievedDocument) where
  -- The documents cited by events.
  cited_events : List Event → List RetrievedDocument
  unfolding listed
  cited_events [] = []
  cited_events (char c ∷ es) = cited_events es
  cited_events (cite i ∷ es) = listed (found_item found_items i) ++ cited_events es

  cited_events-chars : (t : Text) (es : List Event) → cited_events (chars t ++ es) ≡ cited_events es
  unfolding cited_events
  cited_events-chars [] es = refl
  cited_events-chars (c ∷ t) es = cited_events-chars t es

  cited_docs-answer_content :
      (t : Text) (rest : List Call) → cited_docs (answer_content t rest) ≡ cited_docs rest
  unfolding answer_content
  cited_docs-answer_content [] rest = refl
  cited_docs-answer_content (c ∷ t) rest = refl

  cited_docs-answer_reference :
      (reference : Option ℤ) (rest : List Call) (es : List Event)
      → cited_docs rest ≡ cited_events es
      → cited_docs (answer_reference found_items reference rest) ≡ cited_events (cited reference es)
  unfolding answer_reference cited_events
  cited_docs-answer_reference none rest es h = h
  cited_docs-answer_reference (some i) rest es h = elim (Option-cases (found_item found_items i)) [
    | inl e ↦ rw (e, answer_reference, cited, cited_events) h
    | inr (doc, e) ↦ rw (e, answer_reference, cited, cited_events) (ap (◌∷◌ doc) h)
  ]

  cited_docs-answer_items :
      (items : List ReferenceParserOutput)
      → cited_docs (answer_items found_items items) ≡ cited_events (events items)
  unfolding answer_items cited_events
  cited_docs-answer_items [] = refl
  cited_docs-answer_items (item ∷ items) =
      cited_docs-answer_content item.content _
      ∙ cited_docs-answer_reference item.reference _ (events items) (cited_docs-answer_items items)
      ∙ sym (cited_events-chars item.content (cited item.reference (events items)))

  ids_from_one : List ℕ
  ids_from_one = count_from 1 (length found_items)

  with_id-nth_found :
      (n : ℕ) → with_id ids_from_one found_items n ≡ listed (nth_found found_items n)
  unfolding ids_from_one listed
  with_id-nth_found zero = with_id_of_less found_items 1 0 (omega arith)
  with_id-nth_found (suc n) =
      ap (with_id ids_from_one found_items) {x = suc n} {y = 1 + n} (omega arith)
      ∙ with_id-count_from found_items 1 n

  cited_events-meaning :
      (ss : List Segment)
      → cited_events (meaning ss) ≡ concat (map (named ids_from_one found_items) ss)
  unfolding cited_events
  cited_events-meaning [] = refl
  cited_events-meaning (plain c ∷ ss) = cited_events-meaning ss
  cited_events-meaning (ref n d ds ∷ ss) =
      ap₂ ◌++◌ (ap listed (found_item-nth_found found_items n) ∙ sym (with_id-nth_found n))
        (cited_events-meaning ss)

module _ (digit : ℕ → Option ℕ) (lt_no_digit : digit b'<' ≡ none)
    (bracket_no_digit : digit b']' ≡ none) where
  -- Where neither `<` nor `]` is a digit: the prompt shows the documents found in order, with the
  -- ids from 1 on, each in a text that has its title and ends with the texts of its chunks, whatever
  -- the query, the metadata and the titles are; and if the model answers
  -- with plain text and references, then the documents cited are, whatever chunks the text arrives
  -- in, the ones that the prompt shows with the numbers of the references, in their order; a number
  -- that is no id cites none.
  pub cited_documents_lem :
      (data_uri : ImageChunk → Text) (str : Json → Text) (system : Text × List String)
      (date query : Text) (found_items : List RetrievedDocument) (ss : List Segment)
      (chunks : List Text)
      → All (IsProper digit) ss
      → concat chunks ≡ print ss
      → let elements = (ainvoke data_uri str system date query found_items).1 in
        let ids = shown_ids elements in
        (ids ≡ count_from 1 (length found_items))
        × ShowsEach 1 found_items (shown_texts elements)
        × (cited_docs (generate digit found_items chunks) ≡ concat (map (named ids found_items) ss))
  unfolding generate ids_from_one
  cited_documents_lem data_uri str system date query found_items ss chunks proper cut =
      let ids : shown_ids (ainvoke data_uri str system date query found_items).1
          ≡ count_from 1 (length found_items) =
        shown_ids-document_elements data_uri str system.1 1 found_items _ ∙ append-nil _ in
      (
        ids,
        subst (ShowsEach 1 found_items)
            (sym
              (shown_texts-document_elements data_uri str system.1 1 found_items _ ∙ append-nil _))
            (ShowsEach-document_texts data_uri str system.1 1 found_items),
        cited_docs-answer_items found_items (atransform digit chunks)
            ∙ ap (cited_events found_items)
                (events-atransform-print digit lt_no_digit bracket_no_digit ss chunks proper cut)
            ∙ cited_events-meaning found_items ss
            ∙ ap (λ numbers. concat (map (named numbers found_items) ss)) (sym ids),
      )
