-- ===== src/Statistics/Pages.antt =====
-- Sorted pages without repetition, which `add_page` keeps.
use ai_dial_generic_rag_back.Prelude.{
  ℕ, ◌<◌, ◌≡◌, refl, false, ◌||◌, inl, inr, List, [], ◌∷◌, All, arith, Bool-cases, ◌==◌, ==_iff,
  ltb,
}
use ai_dial_generic_rag_back.Prelude.Equality.{nat_key, contains}
use ai_dial_generic_rag_back.Statistics.{add_page}

abbrev pub IsAscending : List ℕ → Type 0
IsAscending [] = Unit
IsAscending (p ∷ ps) = All (λ q. p < q) ps × IsAscending ps

pub All-add_page : (P : ℕ → Type 0) (p : ℕ) (qs : List ℕ) → P p → All P qs → All P (add_page p qs)
unfolding add_page
All-add_page P p [] h all = (h, tt)
All-add_page P p (q ∷ qs) h all = elim (Bool-cases (p == q)) [
  | inl same ↦ rw same all
  | inr differs ↦ elim (Bool-cases (ltb p q)) [
    | inl less ↦ rw (differs, less) (h, all)
    | inr more ↦ rw (differs, more) (all.0, All-add_page P p qs h all.1)
  ]
]

pub All-lt : (m n : ℕ) (qs : List ℕ) → m < n → All (λ q. n < q) qs → All (λ q. m < q) qs
All-lt m n [] h all = tt
All-lt m n (q ∷ qs) h all = (ground (arith, all.0), All-lt m n qs h all.1)

pub IsAscending-add_page : (p : ℕ) (qs : List ℕ) → IsAscending qs → IsAscending (add_page p qs)
unfolding add_page
IsAscending-add_page p [] h = (tt, tt)
IsAscending-add_page p (q ∷ qs) h = elim (Bool-cases (p == q)) [
  | inl same ↦ rw same h
  | inr differs ↦ elim (Bool-cases (ltb p q)) [
    | inl less ↦ rw (differs, less) ((ground arith, All-lt p q qs (ground arith) h.0), h)
    | inr more ↦
        rw (differs, more)
          (All-add_page (λ r. q < r) p qs (ground arith) h.0, IsAscending-add_page p qs h.1)
  ]
]

pub contains-add_page :
    (p k : ℕ) (qs : List ℕ) → contains (add_page p qs) k ≡ (p == k || contains qs k)
unfolding add_page
contains-add_page p k [] = refl
contains-add_page p k (q ∷ qs) =
    ground (arith, contains-add_page p k qs, ==_iff p q, ==_iff p k, ==_iff q k)

pub contains_above : (p : ℕ) (qs : List ℕ) → All (λ q. p < q) qs → contains qs p ≡ false
contains_above p [] h = refl
contains_above p (q ∷ qs) h = ground (arith, h.0, contains_above p qs h.1, ==_iff q p)
