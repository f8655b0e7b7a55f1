-- ===== src/Answers/Numbering.antt =====
-- The numbers of the references, where citations are sent as attachments.
use ai_dial_generic_rag_back.Prelude.{
  ℕ, ◌+◌, ◌≡◌, refl, ap, ap₂, sym, ◌∙◌, Bool, true, false, List, [], ◌∷◌, ◌++◌, map, concat, length,
  length-append, append_assoc, append-nil, inl, inr, Bool-cases,
}
use ai_dial_generic_rag_back.Prelude.Equality.{nat_key, pair_key, contains}
use ai_dial_generic_rag_back.Types.{ImageChunk, RetrievedDocument}
use ai_dial_generic_rag_back.References.{Text}
use ai_dial_generic_rag_back.Ranking.Unique.{unique_by_key, unique_of_seen, unique_of_new}
use ai_dial_generic_rag_back.Answers.{Call, append_content, add_citation}
use ai_dial_generic_rag_back.Answers.Dial.{
  ChatSettings, Attachment, Sent, content, attachment, DialAnswer, empty_dial, reference_key,
  index_of, is_blank, create_attachment, dial_append_content, reference_text, cite_as_attachment,
  dial_call, dial_calls,
}
use ai_dial_generic_rag_back.Answers.Messages.{
  cited_docs, attachments, text_of, keys_after, attachments-append, text_of-append, index_of_old,
  index_of_new,
}

module _ (is_space : ℕ → Bool) (thumbnail : ImageChunk → Text) (uuid4 : ℕ → Text)
    (settings : ChatSettings) (as_attachments : settings.enable_annotations ≡ false) where
  -- What a call shows to the user, where `keys` are those of all references.
  abbrev pub call_text : List (ℕ × ℕ) → Call → Text
  call_text keys (append_content t) = t
  call_text keys (add_citation doc) =
      reference_text is_space thumbnail uuid4 (index_of keys (reference_key doc) + 1)

  -- The attachments of documents, numbered behind `n`.
  abbrev pub number_from : ℕ → List RetrievedDocument → List Attachment
  number_from n [] = []
  number_from n (doc ∷ docs) =
      create_attachment is_space thumbnail uuid4 doc (n + 1) settings.enable_thumbnails
      ∷ number_from (n + 1) docs

  abbrev call_once : DialAnswer → Call → DialAnswer
  call_once = dial_call is_space thumbnail uuid4 settings

  abbrev pub answer_to : DialAnswer → List Call → DialAnswer
  answer_to = dial_calls is_space thumbnail uuid4 settings

  -- What one call adds, and the keys after it.
  abbrev Adds : DialAnswer → Call → List Sent → List (ℕ × ℕ) → Type 0
  Adds answer call sent used =
      ((call_once answer call).choice ≡ answer.choice ++ sent)
      × ((call_once answer call).used_references ≡ used)

  append_content_lem :
      (answer : DialAnswer) (t : Text)
      → Adds answer (append_content t) (content t ∷ []) answer.used_references
  unfolding dial_call dial_append_content
  append_content_lem answer t = elim (Bool-cases (is_blank is_space thumbnail uuid4 t)) [
    | inl e ↦ rw e (refl, refl)
    | inr e ↦ rw e (refl, refl)
  ]

  cite_old :
      (answer : DialAnswer) (doc : RetrievedDocument)
      → contains answer.used_references (reference_key doc) ≡ true
      → Adds answer
          (add_citation doc)
          (content (call_text answer.used_references (add_citation doc)) ∷ [])
          answer.used_references
  unfolding dial_call cite_as_attachment
  cite_old answer doc h = rw (as_attachments, h) (refl, refl)

  cite_new :
      (answer : DialAnswer) (doc : RetrievedDocument)
      → contains answer.used_references (reference_key doc) ≡ false
      → let used = answer.used_references ++ reference_key doc ∷ [] in
        Adds answer
          (add_citation doc)
          (attachment (
              create_attachment is_space thumbnail uuid4 doc
                (length used)
                settings.enable_thumbnails)
            ∷ content (reference_text is_space thumbnail uuid4 (length used))
            ∷ [])
          used
  unfolding dial_call cite_as_attachment
  cite_new answer doc h = rw (as_attachments, h) (append_assoc answer.choice _ _, refl)

  attachments-answer_to :
      (calls : List Call) (answer : DialAnswer)
      → attachments (answer_to answer calls).choice
        ≡ attachments answer.choice
          ++ number_from
              (length answer.used_references)
              (unique_by_key reference_key answer.used_references (cited_docs calls))
  unfolding dial_calls unique_by_key
  attachments-answer_to [] answer = sym (append-nil (attachments answer.choice))
  attachments-answer_to (append_content t ∷ calls) answer =
      let (sent, used) = append_content_lem answer t in
      attachments-answer_to calls (call_once answer (append_content t))
      ∙ ap₂
          (λ ch us.
            attachments ch
            ++ number_from (length us) (unique_by_key reference_key us (cited_docs calls)))
          sent used
      ∙ rw (attachments-append answer.choice (content t ∷ []), append-nil)
  attachments-answer_to (add_citation doc ∷ calls) answer =
      attachments-answer_to calls (call_once answer (add_citation doc))
      ∙ elim (Bool-cases (contains answer.used_references (reference_key doc))) [
        | inl h ↦
            let (sent, used) = cite_old answer doc h in
            ap₂
              (λ ch us.
                attachments ch
                ++ number_from (length us) (unique_by_key reference_key us (cited_docs calls)))
              sent used
            ∙ rw (
              attachments-append answer.choice _,
              append-nil,
              unique_of_seen reference_key answer.used_references doc (cited_docs calls) h,
            )
        | inr h ↦
            let (sent, used) = cite_new answer doc h in
            ap₂
              (λ ch us.
                attachments ch
                ++ number_from (length us) (unique_by_key reference_key us (cited_docs calls)))
              sent used
            ∙ rw (
              attachments-append answer.choice _,
              unique_of_new reference_key answer.used_references doc (cited_docs calls) h,
              append_assoc,
              length-append,
            )
      ]

  abbrev texts : List (ℕ × ℕ) → List Call → Text
  texts keys calls = concat (map (call_text keys) calls)

  texts_old :
      (used : List (ℕ × ℕ)) (doc : RetrievedDocument) (calls : List Call)
      → contains used (reference_key doc) ≡ true
      → call_text used (add_citation doc) ++ texts (keys_after used (cited_docs calls)) calls
        ≡ texts (keys_after used (doc ∷ cited_docs calls)) (add_citation doc ∷ calls)
  texts_old used doc calls h =
      ap
        (λ n.
          reference_text is_space thumbnail uuid4 (n + 1)
          ++ texts (keys_after used (cited_docs calls)) calls)
        (sym (index_of_old used _ (reference_key doc) h))
      ∙ ap (λ docs. texts (used ++ map reference_key docs) (add_citation doc ∷ calls))
          (sym (unique_of_seen reference_key used doc (cited_docs calls) h))

  texts_new :
      (used : List (ℕ × ℕ)) (doc : RetrievedDocument) (calls : List Call)
      → contains used (reference_key doc) ≡ false
      → let used' = used ++ reference_key doc ∷ [] in
        reference_text is_space thumbnail uuid4 (length used')
          ++ texts (keys_after used' (cited_docs calls)) calls
        ≡ texts (keys_after used (doc ∷ cited_docs calls)) (add_citation doc ∷ calls)
  texts_new used doc calls h =
      let used' = used ++ reference_key doc ∷ [] in
      let later = map reference_key (unique_by_key reference_key used' (cited_docs calls)) in
      ap
        (λ n.
          reference_text is_space thumbnail uuid4 n
          ++ texts (keys_after used' (cited_docs calls)) calls)
        (length-append used (reference_key doc ∷ [])
          ∙ ap (λ n. n + 1) (sym (index_of_new used later (reference_key doc) h)))
      ∙ ap
          (λ keys.
            reference_text is_space thumbnail uuid4
              (index_of (used ++ reference_key doc ∷ later) (reference_key doc) + 1)
            ++ texts keys calls)
          (append_assoc used (reference_key doc ∷ []) later)
      ∙ ap (λ docs. texts (used ++ map reference_key docs) (add_citation doc ∷ calls))
          (sym (unique_of_new reference_key used doc (cited_docs calls) h))

  text_of-answer_to :
      (calls : List Call) (answer : DialAnswer)
      → text_of (answer_to answer calls).choice
        ≡ text_of answer.choice
          ++ concat (map (call_text (keys_after answer.used_references (cited_docs calls))) calls)
  unfolding dial_calls
  text_of-answer_to [] answer = sym (append-nil (text_of answer.choice))
  text_of-answer_to (append_content t ∷ calls) answer =
      let (sent, used) = append_content_lem answer t in
      text_of-answer_to calls (call_once answer (append_content t))
      ∙ ap₂
          (λ ch us. text_of ch ++ concat (map (call_text (keys_after us (cited_docs calls))) calls))
          sent used
      ∙ rw (text_of-append answer.choice (content t ∷ []), append-nil, append_assoc)
  text_of-answer_to (add_citation doc ∷ calls) answer =
      text_of-answer_to calls (call_once answer (add_citation doc))
      ∙ elim (Bool-cases (contains answer.used_references (reference_key doc))) [
        | inl h ↦
            let (sent, used) = cite_old answer doc h in
            ap₂
              (λ ch us.
                text_of ch ++ concat (map (call_text (keys_after us (cited_docs calls))) calls))
              sent used
            ∙ rw (text_of-append answer.choice _, append-nil, append_assoc)
                (ap (◌++◌ (text_of answer.choice)) (texts_old answer.used_references doc calls h))
        | inr h ↦
            let (sent, used) = cite_new answer doc h in
            ap₂
              (λ ch us.
                text_of ch ++ concat (map (call_text (keys_after us (cited_docs calls))) calls))
              sent used
            ∙ rw (text_of-append answer.choice _, append-nil, append_assoc)
                (ap (◌++◌ (text_of answer.choice)) (texts_new answer.used_references doc calls h))
      ]

  -- Where citations are not sent as annotations, for any calls on a new answer: the attachments are
  -- the documents cited without repetition of source and page, in the order of their first
  -- citation and numbered from 1, and the text is the content with each citation replaced by the
  -- number of its document.
  pub dial_calls_lem :
      (calls : List Call)
      → let docs = unique_by_key reference_key [] (cited_docs calls) in
        (attachments (answer_to empty_dial calls).choice ≡ number_from 0 docs)
        × (text_of (answer_to empty_dial calls).choice
            ≡ concat (map (call_text (map reference_key docs)) calls))
  dial_calls_lem calls =
      (attachments-answer_to calls empty_dial, text_of-answer_to calls empty_dial)
