-- ===== src/References/Streaming.antt =====
-- What the parser's output says as a whole, and that it does not depend on where the model's
-- answer was cut into chunks.
use ai_dial_generic_rag_back.Prelude.{
  ℕ, zero, suc, ◌-◌, ◌≡◌, refl, ap, ◌∙◌, Option, none, some, List, [], ◌∷◌, ◌++◌, arith, ℤ, pred_ℤ,
  take, drop, append_assoc, append-nil, inl, inr, Option-cases, ◌==◌, Bool-cases, false, ◌&&◌,
  if◌then◌else◌,
}
use ai_dial_generic_rag_back.References.{
  Text, ReferenceParserOutput, find_open, ends_in_lt, hold_pos, match_ref,
}

-- A reader of the output sees characters and citations.
pub data Event : Type 0 where
  char : ℕ → Event
  cite : ℤ → Event

abbrev pub chars : Text → List Event
chars [] = []
chars (c ∷ cs) = char c ∷ chars cs

abbrev pub cited : Option ℤ → List Event → List Event
cited none rest = rest
cited (some z) rest = cite z ∷ rest

abbrev pub events : List ReferenceParserOutput → List Event
events [] = []
events (out ∷ outs) = chars out.content ++ cited out.reference (events outs)

pub chars-append : (t u : Text) → chars (t ++ u) ≡ chars t ++ chars u
chars-append [] u = refl
chars-append (c ∷ t) u = rw (chars-append t u)

pub events-append :
    (xs ys : List ReferenceParserOutput) → events (xs ++ ys) ≡ events xs ++ events ys
events-append [] ys = refl
events-append (x ∷ xs) ys = elim (Option-cases x.reference) [
  | inl e ↦ simp (e, events-append xs ys, append_assoc)
  | inr (z, e) ↦ simp (e, events-append xs ys, append_assoc)
]

-- `hold_pos` by recursion on the text.
hold_pos-cons :
    (c d : ℕ) (t : Text)
    → hold_pos (c ∷ d ∷ t) ≡ (if c == b'<' && d == b'[' then 0 else suc (hold_pos (d ∷ t)))
unfolding hold_pos find_open ends_in_lt
hold_pos-cons c d t = elim (Option-cases (find_open (d ∷ t))) [
  | inl n ↦ ground arith
  | inr (i, n) ↦ ground arith
]

pub events-plain :
    (xs : List ReferenceParserOutput) (t : Text)
    → events (xs ++ record { content = t; reference = none } ∷ []) ≡ events xs ++ chars t
events-plain xs t = events-append xs _ ∙ rw append-nil

module _ (digit : ℕ → Option ℕ) where
  -- The text read once from left to right: each match of the pattern is a citation, each other
  -- character stands for itself.
  unfoldable pub scan : (skip : ℕ) → Text → List Event
  scan skip [] = []
  scan (suc skip) (c ∷ cs) = scan skip cs
  scan zero (c ∷ cs) = elim (match_ref digit (c ∷ cs)) [
    | none ↦ char c ∷ scan zero cs
    | some (v, n) ↦ cite (pred_ℤ v) ∷ scan (n - 1) cs
  ]

  pub scan_of_none :
      (c : ℕ) (t : Text) → match_ref digit (c ∷ t) ≡ none → scan 0 (c ∷ t) ≡ char c ∷ scan 0 t
  unfolding scan
  scan_of_none c t e = rw (e, scan)

  pub scan_of_some :
      (c : ℕ) (t : Text) (v n : ℕ)
      → match_ref digit (c ∷ t) ≡ some (v, n)
      → scan 0 (c ∷ t) ≡ cite (pred_ℤ v) ∷ scan (n - 1) t
  unfolding scan
  scan_of_some c t v n e = rw (e, scan)

  pub match_ref_of_ne-lt : (c : ℕ) (t : Text) → (c == b'<') ≡ false → match_ref digit (c ∷ t) ≡ none
  unfolding match_ref
  match_ref_of_ne-lt c [] h = refl
  match_ref_of_ne-lt c (d ∷ []) h = refl
  match_ref_of_ne-lt c (d ∷ e ∷ t) h = ground arith

  match_ref_of_not_open :
      (c d : ℕ) (t : Text) → (c == b'<' && d == b'[') ≡ false → match_ref digit (c ∷ d ∷ t) ≡ none
  unfolding match_ref
  match_ref_of_not_open c d [] h = refl
  match_ref_of_not_open c d (e ∷ t) h = rw h

  -- What is not held back is plain text, whatever comes next.
  pub scan-hold :
      (t u : Text)
      → scan 0 (t ++ u) ≡ chars (take (hold_pos t) t) ++ scan 0 (drop (hold_pos t) t ++ u)
  scan-hold [] u = unfold hold_pos find_open ends_in_lt in refl
  scan-hold (c ∷ []) u = elim (Bool-cases (c == b'<')) [
    | inl e ↦ unfold hold_pos find_open ends_in_lt in rw e
    | inr e ↦
        rw (scan_of_none c u (match_ref_of_ne-lt c u e))
          (unfold hold_pos find_open ends_in_lt in rw e)
  ]
  scan-hold (c ∷ d ∷ t) u = elim (Bool-cases (c == b'<' && d == b'[')) [
    | inl e ↦ rw (hold_pos-cons c d t, e)
    | inr e ↦
        rw
          (
            hold_pos-cons c d t,
            e,
            scan_of_none c (d ∷ t ++ u) (match_ref_of_not_open c d (t ++ u) e),
          )
          (ap (◌∷◌ (char c)) (scan-hold (d ∷ t) u))
  ]
