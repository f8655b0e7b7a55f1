-- ===== src/References/Printing.antt =====
-- An answer as the model is asked to write it, plain text and references, and what the parser
-- makes of it.
use ai_dial_generic_rag_back.Prelude.{
  ℕ, zero, suc, ◌+◌, ◌*◌, ◌≡◌, ◌≢◌, refl, ap, ◌∙◌, Option, none, some, List, [], ◌∷◌, ◌++◌, arith,
  length, pred_ℤ, concat, append_assoc, inl, inr, Option-cases, All,
}
use ai_dial_generic_rag_back.References.{Text, close, digits, match_ref, atransform}
use ai_dial_generic_rag_back.References.Streaming.{
  Event, char, cite, events, scan, scan_of_none, scan_of_some, match_ref_of_ne-lt,
}
use ai_dial_generic_rag_back.References.Chunking.{events-atransform}

-- A part of an answer: one character, or a reference: its number, its first digit and the others.
pub data Segment : Type 0 where
  plain : ℕ → Segment
  ref : ℕ → ℕ → List ℕ → Segment

abbrev pub print_segment : Segment → Text
print_segment (plain c) = c ∷ []
print_segment (ref z d ds) = (b'<' ∷ b'[' ∷ d ∷ ds) ++ b']' ∷ b'>' ∷ []

abbrev pub print : List Segment → Text
print [] = []
print (s ∷ ss) = print_segment s ++ print ss

-- The citations count from 0, the references from 1.
abbrev pub meaning : List Segment → List Event
meaning [] = []
meaning (plain c ∷ ss) = char c ∷ meaning ss
meaning (ref z d ds ∷ ss) = cite (pred_ℤ z) ∷ meaning ss

module _ (digit : ℕ → Option ℕ) where
  -- The number that the digits write, behind those with the value `v`.
  abbrev pub value_from : ℕ → List ℕ → Option ℕ
  value_from v [] = some v
  value_from v (d ∷ ds) = elim (digit d) [ none ↦ none | some w ↦ value_from (10 * v + w) ds ]

  abbrev pub value : ℕ → List ℕ → Option ℕ
  value d ds = elim (digit d) [ none ↦ none | some v ↦ value_from v ds ]

  -- Plain text holds no `<`, and the digits of a reference write its number.
  abbrev pub IsProper : Segment → Type 0
  IsProper (plain c) = c ≢ b'<'
  IsProper (ref z d ds) = value d ds ≡ some z

  scan_past :
      (x : Text) (a b : ℕ) (t : Text) (n : ℕ)
      → n ≡ length x + 2
      → scan digit n (x ++ a ∷ b ∷ t) ≡ scan digit 0 t
  unfolding scan
  scan_past [] a b t n h = rw h
  scan_past (c ∷ x) a b t zero h = absurd (omega arith)
  scan_past (c ∷ x) a b t (suc n) h = scan_past x a b t n (omega arith)

  module _ (lt_no_digit : digit b'<' ≡ none) (bracket_no_digit : digit b']' ≡ none) where
    digits-print :
        (ds : List ℕ) (t : Text) (v n z : ℕ)
        → value_from v ds ≡ some z
        → digits digit v n (ds ++ b']' ∷ b'>' ∷ t) ≡ some (z, n + length ds + 2)
    unfolding digits close
    digits-print [] t v n z h = ground arith
    digits-print (d ∷ ds) t v n z h = elim (Option-cases (digit d)) [
      | inl e ↦ ground arith
      | inr (w, e) ↦ ground (arith, digits-print ds t (10 * v + w) (n + 1) z)
    ]

    match_ref-print :
        (d : ℕ) (ds : List ℕ) (t : Text) (z : ℕ)
        → value d ds ≡ some z
        → match_ref digit (b'<' ∷ b'[' ∷ d ∷ ds ++ b']' ∷ b'>' ∷ t) ≡ some (z, length ds + 5)
    unfolding match_ref
    match_ref-print d ds t z h = elim (Option-cases (digit d)) [
      | inl e ↦ ground arith
      | inr (w, e) ↦ ground (arith, digits-print ds t w 3 z)
    ]

    scan-print : (ss : List Segment) → All IsProper ss → scan digit 0 (print ss) ≡ meaning ss
    scan-print [] h = unfold scan in refl
    scan-print (plain c ∷ ss) h =
        scan_of_none digit c (print ss) (match_ref_of_ne-lt digit c (print ss) (ground arith))
        ∙ ap (◌∷◌ (char c)) (scan-print ss h.1)
    scan-print (ref z d ds ∷ ss) h =
        ap (scan digit 0) (append_assoc (b'<' ∷ b'[' ∷ d ∷ ds) (b']' ∷ b'>' ∷ []) (print ss))
        ∙ scan_of_some digit b'<' _ z (length ds + 5) (match_ref-print d ds (print ss) z h.0)
        ∙ ap (◌∷◌ (cite (pred_ℤ z)))
            (scan_past (b'[' ∷ d ∷ ds) b']' b'>' (print ss) _ (omega arith) ∙ scan-print ss h.1)

    -- Where neither `<` nor `]` is a digit, an answer of plain text and references is understood
    -- whatever chunks it arrives in: the parser yields its characters, and for the reference n
    -- the index n - 1, in order.
    pub events-atransform-print :
        (ss : List Segment) (chunks : List Text)
        → All IsProper ss
        → concat chunks ≡ print ss
        → events (atransform digit chunks) ≡ meaning ss
    events-atransform-print ss chunks h cut =
        events-atransform digit lt_no_digit chunks ∙ ap (scan digit 0) cut ∙ scan-print ss h
