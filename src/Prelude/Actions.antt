-- ===== src/Prelude/Actions.antt =====
-- What holds of the state that a call leaves.
use mathlib.Core.Bool.{Bool, true, false}
use ai_dial_generic_rag_back.Prelude.Tests.{if◌then◌else◌}
use ai_dial_generic_rag_back.Prelude.Results.{Result, ok, raise, Action, checked, and_then}

-- The state that a call leaves, whichever way it goes.
module _ {S : Type 0} (P : S → Type 0) where
  pub and_then_after :
      {A : Type 0} {B : Type 0} (r : Result A × S) (f : A → Action S B)
      → P r.1
      → ((a : A) → P (f a r.1).1)
      → P (and_then r f).1
  and_then_after (ok a, s) f h k = k a
  and_then_after (raise e, s) f h k = h

  pub checked_after :
      {A : Type 0} (c : Result (Unit {0})) (m : Action S A) (s : S)
      → P s
      → P (m s).1
      → P (checked c m s).1
  checked_after (ok u) m s h k = k
  checked_after (raise e) m s h k = h

  pub if_after : {A : Type 0} (b : Bool) (r t : A × S) → P r.1 → P t.1 → P (if b then r else t).1
  if_after true r t h k = h
  if_after false r t h k = k
