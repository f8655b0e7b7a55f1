-- ===== src/References/Chunking.antt =====
-- The output does not depend on where the model's answer was cut into chunks.
use ai_dial_generic_rag_back.Prelude.{
  ℕ, zero, suc, ◌-◌, ◌≤◌, ◌≡◌, refl, ap, sym, subst, ◌∙◌, Option, none, some, List, [], ◌∷◌, ◌++◌,
  arith, length, pred_ℤ, take, drop, concat, append_assoc, inl, inr, Option-cases,
}
use ai_dial_generic_rag_back.References.{
  Text, ReferenceParserOutput, hold_pos, match_ref, find_all, transform_piece, last_piece,
  transform_from, atransform,
}
use ai_dial_generic_rag_back.References.Matching.{
  match_ref-append, match_ref_bounds, match_ref_lt, match_ref_head,
}
use ai_dial_generic_rag_back.References.Streaming.{
  Event, char, cite, chars, events, events-append, events-plain, scan, scan_of_none, scan_of_some,
  scan-hold,
}

module _ (digit : ℕ → Option ℕ) where
  -- No character of `acc` begins a match in `acc ++ t`.
  abbrev NoMatch : Text → Text → Type 0
  NoMatch [] t = Unit
  NoMatch (c ∷ acc) t = (match_ref digit (c ∷ acc ++ t) ≡ none) × NoMatch acc t

  NoMatch-snoc :
      (acc : Text) (c : ℕ) (t : Text)
      → NoMatch acc (c ∷ t)
      → match_ref digit (c ∷ t) ≡ none
      → NoMatch (acc ++ c ∷ []) t
  NoMatch-snoc [] c t h e = (e, tt)
  NoMatch-snoc (a ∷ acc) c t h e = (rw append_assoc h.0, NoMatch-snoc acc c t h.1 e)

  NoMatch-drop : (n : ℕ) (t : Text) → NoMatch t [] → NoMatch (drop n t) []
  NoMatch-drop zero t h = h
  NoMatch-drop (suc n) [] h = h
  NoMatch-drop (suc n) (c ∷ t) h = NoMatch-drop n t h.1

  scan_of_NoMatch :
      (acc t : Text) → NoMatch acc t → scan digit 0 (acc ++ t) ≡ chars acc ++ scan digit 0 t
  scan_of_NoMatch [] t h = refl
  scan_of_NoMatch (c ∷ acc) t h =
      rw (scan_of_none digit c (acc ++ t) h.0) (ap (◌∷◌ (char c)) (scan_of_NoMatch acc t h.1))

  find_all_of_none :
      (acc : Text) (c : ℕ) (t : Text)
      → match_ref digit (c ∷ t) ≡ none
      → find_all digit 0 acc (c ∷ t) ≡ find_all digit 0 (acc ++ c ∷ []) t
  unfolding find_all
  find_all_of_none acc c t e = rw (e, find_all)

  -- What a match at the head adds to the results for the rest.
  abbrev found : Text → ℕ → List ReferenceParserOutput × Text → List ReferenceParserOutput × Text
  found acc v (outs, rest) = (record { content = acc; reference = some (pred_ℤ v) } ∷ outs, rest)

  find_all_of_some :
      (acc : Text) (c : ℕ) (t : Text) (v n : ℕ)
      → match_ref digit (c ∷ t) ≡ some (v, n)
      → find_all digit 0 acc (c ∷ t) ≡ found acc v (find_all digit (n - 1) [] t)
  unfolding find_all
  find_all_of_some acc c t v n e = rw (e, find_all)

  -- The results of the loop account for the events `told`, and no match is left in their rest.
  abbrev Explains : List Event → List ReferenceParserOutput × Text → Text → Type 0
  Explains told (outs, rest) u = (told ≡ events outs ++ scan digit 0 (rest ++ u)) × NoMatch rest []

  module _ (lt_no_digit : digit b'<' ≡ none) where
    NoMatch-lt : (acc s t : Text) → NoMatch acc (b'<' ∷ s) → NoMatch acc (b'<' ∷ t)
    NoMatch-lt [] s t h = tt
    NoMatch-lt (c ∷ acc) s t h =
        (sym (match_ref_lt digit lt_no_digit c acc s t) ∙ h.0, NoMatch-lt acc s t h.1)

    Explains-found :
        (acc : Text) (c : ℕ) (t u : Text) (v n : ℕ)
        → NoMatch acc (c ∷ t)
        → match_ref digit (c ∷ t) ≡ some (v, n)
        → Explains (scan digit (n - 1) (t ++ u)) (find_all digit (n - 1) [] t) u
        → Explains (scan digit 0 (acc ++ (c ∷ t ++ u))) (find_all digit 0 acc (c ∷ t)) u
    Explains-found acc c t u v n h e ih =
        let lt : c ≡ b'<' = match_ref_head digit c t (v, n) e in
        let quiet : NoMatch acc (c ∷ t ++ u) =
          subst (λ x. NoMatch acc (x ∷ t ++ u)) (sym lt)
            (NoMatch-lt acc t (t ++ u) (subst (λ x. NoMatch acc (x ∷ t)) lt h)) in
        rw (find_all_of_some acc c t v n e) (
          scan_of_NoMatch acc (c ∷ t ++ u) quiet
              ∙ ap (λ r. chars acc ++ r)
                  (scan_of_some digit c (t ++ u) v n (match_ref-append digit (c ∷ t) u (v, n) e)
                    ∙ ap (◌∷◌ (cite (pred_ℤ v))) ih.0)
              ∙ sym (append_assoc (chars acc) _ _),
          ih.1,
        )

    Explains-passed :
        (acc : Text) (c : ℕ) (t u : Text)
        → match_ref digit (c ∷ t) ≡ none
        → Explains
            (scan digit 0 ((acc ++ c ∷ []) ++ (t ++ u)))
            (find_all digit 0 (acc ++ c ∷ []) t)
            u
        → Explains (scan digit 0 (acc ++ (c ∷ t ++ u))) (find_all digit 0 acc (c ∷ t)) u
    Explains-passed acc c t u e ih = rw (find_all_of_none acc c t e) (
        subst (λ s. Explains (scan digit 0 s) (find_all digit 0 (acc ++ c ∷ []) t) u)
          (append_assoc acc (c ∷ []) (t ++ u)) ih)

    mutual
      unfolding scan find_all

      find_all_skip :
          (t u : Text) (skip : ℕ)
          → skip ≤ length t
          → Explains (scan digit skip (t ++ u)) (find_all digit skip [] t) u
      find_all_skip [] u zero k = (refl, tt)
      find_all_skip [] u (suc skip) k = absurd (omega arith)
      find_all_skip (c ∷ t) u (suc skip) k = find_all_skip t u skip (omega arith)
      find_all_skip (c ∷ t) u zero k = elim (Option-cases (match_ref digit (c ∷ t))) [
        | inl e ↦ Explains-passed [] c t u e (find_all_acc t u (c ∷ []) (e, tt))
        | inr ((v, n), e) ↦
            Explains-found [] c t u v n tt e
              (find_all_skip t u (n - 1) (omega (arith, match_ref_bounds digit (c ∷ t) v n e)))
      ]

      find_all_acc :
          (t u acc : Text)
          → NoMatch acc t
          → Explains (scan digit 0 (acc ++ (t ++ u))) (find_all digit 0 acc t) u
      find_all_acc [] u acc h = (refl, h)
      find_all_acc (c ∷ t) u acc h = elim (Option-cases (match_ref digit (c ∷ t))) [
        | inl e ↦
            Explains-passed acc c t u e
              (find_all_acc t u (acc ++ c ∷ []) (NoMatch-snoc acc c t h e))
        | inr ((v, n), e) ↦
            Explains-found acc c t u v n h e
              (find_all_skip t u (n - 1) (omega (arith, match_ref_bounds digit (c ∷ t) v n e)))
      ]

    -- One round: what is yielded, then what the held back part reads as once more text is there.
    transform_piece-scan :
        (t u : Text) → Explains (scan digit 0 (t ++ u)) (transform_piece digit t) u
    unfolding transform_piece
    transform_piece-scan t u =
        let rest = (find_all digit 0 [] t).1 in
        let (told, quiet) = find_all_acc t u [] tt in
        (
          told
              ∙ ap (◌++◌ (events (find_all digit 0 [] t).0)) (scan-hold digit rest u)
              ∙ sym (append_assoc (events (find_all digit 0 [] t).0) _ _)
              ∙ ap (λ r. r ++ scan digit 0 (drop (hold_pos rest) rest ++ u))
                  (sym (events-plain (find_all digit 0 [] t).0 (take (hold_pos rest) rest))),
          NoMatch-drop (hold_pos rest) rest quiet,
        )

    last_piece-scan :
        (held : Text) → NoMatch held [] → scan digit 0 (held ++ []) ≡ events (last_piece held)
    unfolding last_piece
    last_piece-scan [] quiet = unfold scan in refl
    last_piece-scan (c ∷ held) quiet = scan_of_NoMatch (c ∷ held) [] quiet ∙ unfold scan in refl

    transform_from-scan :
        (held : Text) (chunks : List Text)
        → NoMatch held []
        → events (transform_from digit held chunks) ≡ scan digit 0 (held ++ concat chunks)
    unfolding transform_from
    transform_from-scan held [] quiet = sym (last_piece-scan held quiet)
    transform_from-scan held (chunk ∷ chunks) quiet =
        let (told, quiet') = transform_piece-scan (held ++ chunk) (concat chunks) in
        events-append (transform_piece digit (held ++ chunk)).0 _
        ∙ ap (◌++◌ (events (transform_piece digit (held ++ chunk)).0))
            (transform_from-scan (transform_piece digit (held ++ chunk)).1 chunks quiet')
        ∙ sym told
        ∙ ap (scan digit 0) (append_assoc held chunk (concat chunks))

    -- Where `<` is no digit: the characters and citations that the parser yields for a stream of
    -- chunks are those of one scan of the whole text, in order, wherever the text was cut.
    pub events-atransform :
        (chunks : List Text) → events (atransform digit chunks) ≡ scan digit 0 (concat chunks)
    unfolding atransform
    events-atransform chunks = transform_from-scan [] chunks tt
