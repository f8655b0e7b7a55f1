-- ===== src/Answers/Plain.antt =====
-- The answer as plain text, from the model's chunks to its content.
use ai_dial_generic_rag_back.Prelude.{
  ℕ, zero, suc, get_elem?, pred_ℤ, ◌≡◌, refl, ap, ap₂, sym, ◌∙◌, Bool, true, false, ◌||◌, Option,
  none, some, List, [], ◌∷◌, ◌++◌, arith, map, concat, All, append_assoc, append-nil, inl, inr,
  Option-cases, ℤ,
}
use ai_dial_generic_rag_back.Types.{RetrievedDocument}
use ai_dial_generic_rag_back.References.{Text, ReferenceParserOutput, atransform}
use ai_dial_generic_rag_back.References.Streaming.{Event, char, cite, chars, cited, events}
use ai_dial_generic_rag_back.References.Printing.{
  Segment, plain, ref, print, meaning, IsProper, events-atransform-print,
}
use ai_dial_generic_rag_back.Answers.{
  Call, add_citation, answer_content, answer_reference, answer_items, found_item, generate,
  PlainAnswer, empty_plain, plain_citation, plain_call, plain_calls,
}

module _ (found_items : List RetrievedDocument) where
  -- What the user reads for a character, and for a citation: nothing if no document has the index.
  abbrev shown_event : Event → Text
  shown_event (char c) = c ∷ []
  shown_event (cite i) = elim (found_item found_items i) [
    | none ↦ []
    | some doc ↦ plain_citation doc
  ]

  abbrev has_citation_event : List Event → Bool
  has_citation_event [] = false
  has_citation_event (char c ∷ es) = has_citation_event es
  has_citation_event (cite i ∷ es) = elim (found_item found_items i) [
    | none ↦ has_citation_event es
    | some doc ↦ true
  ]

  -- The answer that continues one by what the events show.
  abbrev plain_events : PlainAnswer → List Event → PlainAnswer
  plain_events answer [] = answer
  plain_events answer (char c ∷ es) =
      plain_events (record answer { content = answer.content ++ c ∷ [] }) es
  plain_events answer (cite i ∷ es) = elim (found_item found_items i) [
    | none ↦ plain_events answer es
    | some doc ↦ plain_events (plain_call answer (add_citation doc)) es
  ]

  plain_events-chars :
      (answer : PlainAnswer) (t : Text) (es : List Event)
      → plain_events answer (chars t ++ es)
        ≡ plain_events (record answer { content = answer.content ++ t }) es
  plain_events-chars answer [] es =
      ap (λ t. plain_events (record answer { content = t }) es) (sym (append-nil answer.content))
  plain_events-chars answer (c ∷ cs) es =
      plain_events-chars (record answer { content = answer.content ++ c ∷ [] }) cs es
      ∙ ap (λ t. plain_events (record answer { content = t }) es)
          (append_assoc answer.content (c ∷ []) cs)

  plain_calls-answer_content :
      (answer : PlainAnswer) (t : Text) (rest : List Call)
      → plain_calls answer (answer_content t rest)
        ≡ plain_calls (record answer { content = answer.content ++ t }) rest
  unfolding plain_calls plain_call answer_content
  plain_calls-answer_content answer [] rest =
      ap (λ t. plain_calls (record answer { content = t }) rest) (sym (append-nil answer.content))
  plain_calls-answer_content answer (c ∷ cs) rest = refl

  plain_calls-answer_reference :
      (reference : Option ℤ) (rest : List Call) (es : List Event)
      → ((answer : PlainAnswer) → plain_calls answer rest ≡ plain_events answer es)
      → (answer : PlainAnswer)
      → plain_calls answer (answer_reference found_items reference rest)
        ≡ plain_events answer (cited reference es)
  unfolding answer_reference plain_calls
  plain_calls-answer_reference none rest es h answer = h answer
  plain_calls-answer_reference (some i) rest es h answer =
      elim (Option-cases (found_item found_items i)) [
        | inl e ↦ rw (e, answer_reference, cited, plain_events) (h answer)
        | inr (doc, e) ↦
            rw (e, answer_reference, cited, plain_events) (h (plain_call answer (add_citation doc)))
      ]

  plain_calls-answer_items :
      (items : List ReferenceParserOutput) (answer : PlainAnswer)
      → plain_calls answer (answer_items found_items items) ≡ plain_events answer (events items)
  unfolding answer_items plain_calls
  plain_calls-answer_items [] answer = refl
  plain_calls-answer_items (item ∷ items) answer =
      plain_calls-answer_content answer item.content _
      ∙ plain_calls-answer_reference item.reference _ (events items)
          (plain_calls-answer_items items) _
      ∙ sym (plain_events-chars answer item.content (cited item.reference (events items)))

  -- The content grows by what is shown.
  plain_events_lem :
      (es : List Event) (answer : PlainAnswer)
      → plain_events answer es ≡ record {
        content = answer.content ++ concat (map shown_event es);
        has_references = answer.has_references || has_citation_event es;
      }
  unfolding plain_call
  plain_events_lem [] answer =
      ap₂ (λ t b. record { content = t; has_references = b }) (sym (append-nil answer.content))
        (ground arith)
  plain_events_lem (char c ∷ es) answer =
      plain_events_lem es (record answer { content = answer.content ++ c ∷ [] })
      ∙ ap
          (λ t. record {
            content = t;
            has_references = answer.has_references || has_citation_event es;
          })
          (append_assoc answer.content (c ∷ []) (concat (map shown_event es)))
  plain_events_lem (cite i ∷ es) answer = elim (Option-cases (found_item found_items i)) [
    | inl e ↦ rw (e, plain_events, shown_event, has_citation_event) (plain_events_lem es answer)
    | inr (doc, e) ↦
        rw (e, plain_events, shown_event, has_citation_event)
          (plain_events_lem es (plain_call answer (add_citation doc))
            ∙ ap₂ (λ t b. record { content = t; has_references = b })
                (append_assoc answer.content (plain_citation doc) (concat (map shown_event es)))
                (ground arith))
  ]

  -- The n-th document found, counted from 1.
  abbrev pub nth_found : ℕ → Option RetrievedDocument
  nth_found zero = none
  nth_found (suc n) = get_elem? found_items n

  -- What the user reads for a part of the model's answer.
  abbrev pub shown : Segment → Text
  shown (plain c) = c ∷ []
  shown (ref n d ds) = elim (nth_found n) [ none ↦ [] | some doc ↦ plain_citation doc ]

  abbrev pub has_citation : List Segment → Bool
  has_citation [] = false
  has_citation (plain c ∷ ss) = has_citation ss
  has_citation (ref n d ds ∷ ss) = elim (nth_found n) [ none ↦ has_citation ss | some doc ↦ true ]

  pub found_item-nth_found : (n : ℕ) → found_item found_items (pred_ℤ n) ≡ nth_found n
  unfolding found_item
  found_item-nth_found zero = refl
  found_item-nth_found (suc n) = refl

  shown-meaning :
      (ss : List Segment) → concat (map shown_event (meaning ss)) ≡ concat (map shown ss)
  shown-meaning [] = refl
  shown-meaning (plain c ∷ ss) = ap (◌∷◌ c) (shown-meaning ss)
  shown-meaning (ref n d ds ∷ ss) =
      ap₂ ◌++◌
        (ap (λ found. elim found [ none ↦ [] | some doc ↦ plain_citation doc ])
          (found_item-nth_found n))
        (shown-meaning ss)

  has_citation-meaning : (ss : List Segment) → has_citation_event (meaning ss) ≡ has_citation ss
  has_citation-meaning [] = refl
  has_citation-meaning (plain c ∷ ss) = has_citation-meaning ss
  has_citation-meaning (ref n d ds ∷ ss) =
      ap₂ (λ found b. elim found [ none ↦ b | some doc ↦ true ]) (found_item-nth_found n)
        (has_citation-meaning ss)

module _ (digit : ℕ → Option ℕ) (lt_no_digit : digit b'<' ≡ none)
    (bracket_no_digit : digit b']' ≡ none) where
  -- Where neither `<` nor `]` is a digit: if the model writes plain text and references, then the
  -- plain answer is, whatever chunks the text arrives in, this text with each reference n replaced
  -- by a citation of the n-th document found, and with the references to no document cut out. It
  -- has references if and only if a citation stands in it.
  pub plain_calls-generate :
      (found_items : List RetrievedDocument) (ss : List Segment) (chunks : List Text)
      → All (IsProper digit) ss
      → concat chunks ≡ print ss
      → plain_calls empty_plain (generate digit found_items chunks) ≡ record {
        content = concat (map (shown found_items) ss);
        has_references = has_citation found_items ss;
      }
  unfolding generate
  plain_calls-generate found_items ss chunks proper cut =
      plain_calls-answer_items found_items (atransform digit chunks) empty_plain
      ∙ ap (plain_events found_items empty_plain)
          (events-atransform-print digit lt_no_digit bracket_no_digit ss chunks proper cut)
      ∙ plain_events_lem found_items (meaning ss) empty_plain
      ∙ ap₂ (λ t b. record { content = t; has_references = b }) (shown-meaning found_items ss)
          (has_citation-meaning found_items ss)
