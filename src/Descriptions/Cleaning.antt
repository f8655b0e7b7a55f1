-- ===== src/Descriptions/Cleaning.antt =====
-- The texts that are cleaned before they are kept.
use Prim.Native.Char.{Char, code}
use ai_dial_generic_rag_back.Prelude.{
  ◌≡◌, refl, Bool, true, false, not, ◌&&◌, ◌||◌, Bool-cases, inl, inr, String, arith, ◌==◌,
}
use ai_dial_generic_rag_back.Descriptions.{
  is_space, replace_breaks, lstrip, rstrip, before_stripped, clean_text,
}

abbrev no_breaks : String → Bool
no_breaks String.[] = true
no_breaks (String.◌∷◌ c s) = not (code c == 10 || code c == 13 || code c == 0) && no_breaks s

abbrev space_first : String → Bool
space_first String.[] = false
space_first (String.◌∷◌ c s) = is_space (code c)

abbrev space_last : String → Bool
space_last String.[] = false
space_last (String.◌∷◌ c String.[]) = is_space (code c)
space_last (String.◌∷◌ c (String.◌∷◌ d s)) = space_last (String.◌∷◌ d s)

-- No line breaks or null characters, and no space at either end.
abbrev pub IsClean : String → Type 0
IsClean s = (no_breaks s ≡ true) × (space_first s ≡ false) × (space_last s ≡ false)

no_breaks-replace_breaks : (s : String) → no_breaks (replace_breaks s) ≡ true
unfolding replace_breaks
no_breaks-replace_breaks String.[] = refl
no_breaks-replace_breaks (String.◌∷◌ c s) = ground (arith, no_breaks-replace_breaks s)

no_breaks-before_stripped :
    (c : Char) (s : String)
    → not (code c == 10 || code c == 13 || code c == 0) ≡ true
    → no_breaks s ≡ true
    → no_breaks (before_stripped c s) ≡ true
no_breaks-before_stripped c String.[] h k = elim (Bool-cases (is_space (code c))) [
  | inl e ↦ rw e refl
  | inr e ↦ rw (e, h) refl
]
no_breaks-before_stripped c (String.◌∷◌ d s) h k = rw (h, k) refl

no_breaks-rstrip : (s : String) → no_breaks s ≡ true → no_breaks (rstrip s) ≡ true
unfolding rstrip
no_breaks-rstrip String.[] h = refl
no_breaks-rstrip (String.◌∷◌ c s) h =
    no_breaks-before_stripped c (rstrip s) (ground (arith, h))
      (no_breaks-rstrip s (ground (arith, h)))

no_breaks-lstrip : (s : String) → no_breaks s ≡ true → no_breaks (lstrip s) ≡ true
unfolding lstrip
no_breaks-lstrip String.[] h = refl
no_breaks-lstrip (String.◌∷◌ c s) h = elim (Bool-cases (is_space (code c))) [
  | inl e ↦ rw e (no_breaks-lstrip s (ground (arith, h)))
  | inr e ↦ rw e h
]

space_first-lstrip : (s : String) → space_first (lstrip s) ≡ false
unfolding lstrip
space_first-lstrip String.[] = refl
space_first-lstrip (String.◌∷◌ c s) = elim (Bool-cases (is_space (code c))) [
  | inl e ↦ rw e (space_first-lstrip s)
  | inr e ↦ rw e e
]

space_last-before_stripped :
    (c : Char) (s : String) → space_last s ≡ false → space_last (before_stripped c s) ≡ false
space_last-before_stripped c String.[] h = elim (Bool-cases (is_space (code c))) [
  | inl e ↦ rw e refl
  | inr e ↦ rw e e
]
space_last-before_stripped c (String.◌∷◌ d s) h = h

space_last-rstrip : (s : String) → space_last (rstrip s) ≡ false
unfolding rstrip
space_last-rstrip String.[] = refl
space_last-rstrip (String.◌∷◌ c s) = space_last-before_stripped c (rstrip s) (space_last-rstrip s)

space_last-lstrip : (s : String) → space_last s ≡ false → space_last (lstrip s) ≡ false
unfolding lstrip
space_last-lstrip String.[] h = refl
space_last-lstrip (String.◌∷◌ c String.[]) h = rw h h
space_last-lstrip (String.◌∷◌ c (String.◌∷◌ d s)) h = elim (Bool-cases (is_space (code c))) [
  | inl e ↦ rw e (space_last-lstrip (String.◌∷◌ d s) h)
  | inr e ↦ rw e h
]

pub IsClean-clean_text : (s : String) → IsClean (clean_text s)
IsClean-clean_text s =
    let stripped = rstrip (replace_breaks s) in
    (
      no_breaks-lstrip stripped (no_breaks-rstrip (replace_breaks s) (no_breaks-replace_breaks s)),
      space_first-lstrip stripped,
      space_last-lstrip stripped (space_last-rstrip (replace_breaks s)),
    )
