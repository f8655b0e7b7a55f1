-- ===== src/References/Matching.antt =====
-- Facts on one match of `REF_PATTERN`: a match does not look behind its end, and one that fails
-- in front of a `<` fails whatever follows that `<`.
use ai_dial_generic_rag_back.Prelude.{
  ℕ, ◌+◌, ◌*◌, ◌≤◌, ◌<◌, ◌≡◌, refl, Option, none, some, [], ◌∷◌, ◌++◌, arith, length, inl, inr,
  Option-cases,
}
use ai_dial_generic_rag_back.References.{Text, close, digits, match_ref}

close-append :
    (v n : ℕ) (t u : Text) (r : ℕ × ℕ) → close v n t ≡ some r → close v n (t ++ u) ≡ some r
unfolding close
close-append v n [] u r h = ground arith
close-append v n (c ∷ t) u r h = ground arith

close_bounds :
    (v n : ℕ) (t : Text) (w m : ℕ) → close v n t ≡ some (w, m) → (n < m) × (m ≤ n + length t)
unfolding close
close_bounds v n [] w m h = ground arith
close_bounds v n (c ∷ t) w m h = ground arith

close_lt : (v n : ℕ) (x s t : Text) → close v n (x ++ b'<' ∷ s) ≡ close v n (x ++ b'<' ∷ t)
unfolding close
close_lt v n [] s t = refl
close_lt v n (c ∷ x) s t = refl

module _ (digit : ℕ → Option ℕ) where
  digits-append :
      (v n : ℕ) (t u : Text) (r : ℕ × ℕ)
      → digits digit v n t ≡ some r
      → digits digit v n (t ++ u) ≡ some r
  unfolding digits
  digits-append v n [] u r h = ground arith
  digits-append v n (c ∷ t) u r h = elim (Option-cases (digit c)) [
    | inl e ↦ ground (arith, close-append v (n + 1) t u r)
    | inr (d, e) ↦ ground (arith, digits-append (10 * v + d) (n + 1) t u r)
  ]

  digits_bounds :
      (v n : ℕ) (t : Text) (w m : ℕ)
      → digits digit v n t ≡ some (w, m)
      → (n < m) × (m ≤ n + length t)
  unfolding digits
  digits_bounds v n [] w m h = ground arith
  digits_bounds v n (c ∷ t) w m h = elim (Option-cases (digit c)) [
    | inl e ↦ ground (arith, close_bounds v (n + 1) t w m)
    | inr (d, e) ↦ ground (arith, digits_bounds (10 * v + d) (n + 1) t w m)
  ]

  pub match_ref-append :
      (t u : Text) (r : ℕ × ℕ) → match_ref digit t ≡ some r → match_ref digit (t ++ u) ≡ some r
  unfolding match_ref
  match_ref-append (c ∷ d ∷ e ∷ t) u r h = elim (Option-cases (digit e)) [
    | inl q ↦ ground arith
    | inr (v, q) ↦ ground (arith, digits-append v 3 t u r)
  ]
  match_ref-append [] u r h = ground arith
  match_ref-append (c ∷ []) u r h = ground arith
  match_ref-append (c ∷ d ∷ []) u r h = ground arith

  pub match_ref_head : (c : ℕ) (t : Text) (r : ℕ × ℕ) → match_ref digit (c ∷ t) ≡ some r → c ≡ b'<'
  unfolding match_ref
  match_ref_head c (d ∷ e ∷ t) r h = ground arith
  match_ref_head c [] r h = ground arith
  match_ref_head c (d ∷ []) r h = ground arith

  pub match_ref_bounds :
      (t : Text) (v n : ℕ) → match_ref digit t ≡ some (v, n) → (0 < n) × (n ≤ length t)
  unfolding match_ref
  match_ref_bounds (c ∷ d ∷ e ∷ t) v n h = elim (Option-cases (digit e)) [
    | inl q ↦ ground arith
    | inr (w, q) ↦ ground (arith, digits_bounds w 3 t v n)
  ]
  match_ref_bounds [] v n h = ground arith
  match_ref_bounds (c ∷ []) v n h = ground arith
  match_ref_bounds (c ∷ d ∷ []) v n h = ground arith

  module _ (lt_no_digit : digit b'<' ≡ none) where
    digits_lt :
        (v n : ℕ) (x s t : Text)
        → digits digit v n (x ++ b'<' ∷ s) ≡ digits digit v n (x ++ b'<' ∷ t)
    unfolding digits
    digits_lt v n [] s t = ground arith
    digits_lt v n (c ∷ x) s t = elim (Option-cases (digit c)) [
      | inl e ↦ ground (arith, close_lt v (n + 1) x s t)
      | inr (d, e) ↦ ground (arith, digits_lt (10 * v + d) (n + 1) x s t)
    ]

    pub match_ref_lt :
        (c : ℕ) (x s t : Text)
        → match_ref digit (c ∷ x ++ b'<' ∷ s) ≡ match_ref digit (c ∷ x ++ b'<' ∷ t)
    unfolding match_ref
    match_ref_lt c [] [] [] = refl
    match_ref_lt c [] [] (_ ∷ t) = ground arith
    match_ref_lt c [] (_ ∷ s) [] = ground arith
    match_ref_lt c [] (_ ∷ s) (_ ∷ t) = ground arith
    match_ref_lt c (d ∷ []) s t = ground arith
    match_ref_lt c (d ∷ e ∷ x) s t = elim (Option-cases (digit e)) [
      | inl q ↦ ground arith
      | inr (v, q) ↦ ground (arith, digits_lt v 3 x s t)
    ]
