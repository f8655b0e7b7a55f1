-- ===== src/Prelude/Streams.antt =====
-- A generator as its consumer sees it: the values that it yields, then its end or an exception.
use mathlib.Core.Path.{◌≡◌, refl, ap}
use mathlib.Core.List.{List, [], ◌∷◌, ◌++◌}
use mathlib.Core.Option.{Option, none, some}

pub data Stream {ℓ} (A : Type ℓ) : Type ℓ where
  end : Stream A
  raised : Stream A
  next : A → Stream A → Stream A

module _ {ℓ} {A : Type ℓ} where
  -- `yield` of several values, then the rest.
  abbrev pub yield_all : List A → Stream A → Stream A
  yield_all [] s = s
  yield_all (x ∷ xs) s = next x (yield_all xs s)

  -- `[x async for x in stream]`; none is the exception.
  abbrev pub to_list : Stream A → Option (List A)
  to_list end = some []
  to_list raised = none
  to_list (next x s) = elim (to_list s) [ none ↦ none | some xs ↦ some (x ∷ xs) ]

  pub yield_all-append :
      (xs ys : List A) (s : Stream A) → yield_all xs (yield_all ys s) ≡ yield_all (xs ++ ys) s
  yield_all-append [] ys s = refl
  yield_all-append (x ∷ xs) ys s = ap (next x) (yield_all-append xs ys s)
