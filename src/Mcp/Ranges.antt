-- ===== src/Mcp/Ranges.antt =====
-- Sorted page numbers beside the range that they are from.
use ai_dial_generic_rag_back.Prelude.{
  ℕ, zero, suc, ◌+◌, ◌≤◌, ◌<◌, ◌≡◌, refl, ap, ap₂, subst, sym, ◌∙◌, false, inl, inr, List, [], ◌∷◌,
  ◌++◌, concat, map, All, arith, Bool-cases, ◌==◌, ==_iff, ◌||◌,
}
use ai_dial_generic_rag_back.Prelude.Equality.{nat_key, contains}
use ai_dial_generic_rag_back.Statistics.Pages.{
  IsAscending, IsAscending-add_page, All-add_page, All-lt, contains-add_page, contains_above,
}
use ai_dial_generic_rag_back.Mcp.{range_from, sorted_set}

pub IsAscending-sorted_set : (ns : List ℕ) → IsAscending (sorted_set ns)
unfolding sorted_set
IsAscending-sorted_set [] = tt
IsAscending-sorted_set (n ∷ ns) = IsAscending-add_page n (sorted_set ns) (IsAscending-sorted_set ns)

pub contains-sorted_set : (ns : List ℕ) (p : ℕ) → contains (sorted_set ns) p ≡ contains ns p
unfolding sorted_set
contains-sorted_set [] p = refl
contains-sorted_set (n ∷ ns) p =
    contains-add_page n p (sorted_set ns) ∙ ap (λ b. n == p || b) (contains-sorted_set ns p)

pub All-sorted_set : (P : ℕ → Type 0) (ns : List ℕ) → All P ns → All P (sorted_set ns)
unfolding sorted_set
All-sorted_set P [] h = tt
All-sorted_set P (n ∷ ns) h = All-add_page P n (sorted_set ns) h.0 (All-sorted_set P ns h.1)

abbrev pub IsWithin : ℕ → ℕ → ℕ → Type 0
IsWithin first count q = (first ≤ q) × (q < first + count)

All-IsWithin-less :
    (first count : ℕ) (qs : List ℕ)
    → All (λ q. first < q) qs
    → All (IsWithin first (suc count)) qs
    → All (IsWithin (first + 1) count) qs
All-IsWithin-less first count [] h k = tt
All-IsWithin-less first count (q ∷ qs) h k =
    ((omega (arith, h.0), omega (arith, k.0.1)), All-IsWithin-less first count qs h.1 k.1)

module _ {ℓ} {A : Type ℓ} (f : ℕ → List A) where
  -- The numbers of a range that are not in the list give nothing.
  pub concat-range_from :
      (first count : ℕ) (qs : List ℕ)
      → IsAscending qs
      → All (IsWithin first count) qs
      → ((p : ℕ) → first ≤ p → contains qs p ≡ false → f p ≡ [])
      → concat (map f (range_from first count)) ≡ concat (map f qs)
  concat-range_from first zero [] h k none_else = refl
  concat-range_from first zero (q ∷ qs) h k none_else = absurd (omega (arith, k.0.0, k.0.1))
  concat-range_from first (suc count) [] h k none_else =
      rw (none_else first (omega arith) refl)
        (concat-range_from (first + 1) count [] tt tt (λ p l e. none_else p (omega arith) e))
  concat-range_from first (suc count) (q ∷ qs) h k none_else = elim (Bool-cases (q == first)) [
    | inl same ↦
        let e : q ≡ first = (==_iff q first).0 same in
        ap₂ ◌++◌ (ap f (sym e)) (
          concat-range_from (first + 1) count qs h.1
            (All-IsWithin-less first count qs (subst (λ n. All (λ r. n < r) qs) e h.0) k.1)
            (λ p later absent. none_else p (omega arith) (ground (arith, absent, ==_iff q p))))
    | inr differs ↦
        let above : All (λ r. first < r) (q ∷ qs) =
          (ground (arith, k.0.0), All-lt first q qs (ground (arith, k.0.0)) h.0) in
        ap₂ ◌++◌ (none_else first (omega arith) (contains_above first (q ∷ qs) above)) (
          concat-range_from (first + 1) count (q ∷ qs) h
            (All-IsWithin-less first count (q ∷ qs) above k)
            (λ p later absent. none_else p (omega arith) absent))
  ]
