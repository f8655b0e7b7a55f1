-- ===== src/Jobs/Restarts.antt =====
-- The delays with which a worker is restarted.
use ai_dial_generic_rag_back.Prelude.{
  ℕ, ap, ◌∙◌, sym, subst, inl, inr, ◌⊎◌, ◌+◌, ◌-◌, ◌^◌, ◌≤◌, ◌<◌, min, ◌≡◌, refl, List, [], ◌∷◌,
  length, All, arith, if◌then◌else◌, ◌==◌, ltb, Bool-cases,
}
use ai_dial_generic_rag_back.Jobs.{
  Ending, cancelled, finished, working, idle, on_task_done, worker_after,
}

-- A run that does not count as stable.
abbrev pub IsQuick : Ending → Type 0
IsQuick cancelled = ⊥
IsQuick (finished run) = run < 60000

abbrev delay_of : ℕ → ℕ
delay_of failures = if failures == 0 then 0 else min (2 ^ (failures - 1)) 60

le-cases : (m n : ℕ) → (m < n) ⊎ (n ≤ m)
le-cases m n = elim (Bool-cases (ltb m n)) [
  | inl e ↦ inl (ground arith)
  | inr e ↦ inr (ground arith)
]

quick_run :
    (failures delay run : ℕ)
    → run < 60000
    → failures < 1024
    → on_task_done (working failures delay) (finished run)
      ≡ working (failures + 1) (delay_of (failures + 1))
unfolding on_task_done
quick_run failures delay run h k = ground arith

worker_after-idle : (es : List Ending) → worker_after idle es ≡ idle
unfolding worker_after
worker_after-idle [] = refl
worker_after-idle (e ∷ es) = worker_after-idle es

quick_runs :
    (failures : ℕ) (es : List Ending)
    → All IsQuick es
    → failures + length es ≤ 1024
    → worker_after (working failures (delay_of failures)) es
      ≡ working (failures + length es) (delay_of (failures + length es))
unfolding worker_after
quick_runs failures [] h k = ap (λ n. working n (delay_of n)) (omega arith)
quick_runs failures (cancelled ∷ es) h k = absurd h.0
quick_runs failures (finished run ∷ es) h k =
    ap (λ w. worker_after w es) (quick_run failures (delay_of failures) run h.0 (omega arith))
    ∙ quick_runs (failures + 1) es h.1 (omega arith)
    ∙ ap (λ n. working n (delay_of n)) (omega arith)

last_run : (delay run : ℕ) → run < 60000 → on_task_done (working 1024 delay) (finished run) ≡ idle
unfolding on_task_done
last_run delay run h = ground arith

too_many_runs :
    (failures : ℕ) (es : List Ending)
    → All IsQuick es
    → failures ≤ 1024
    → 1024 < failures + length es
    → worker_after (working failures (delay_of failures)) es ≡ idle
unfolding worker_after
too_many_runs failures [] h k m = absurd (omega arith)
too_many_runs failures (cancelled ∷ es) h k m = absurd h.0
too_many_runs failures (finished run ∷ es) h k m = elim (le-cases failures 1024) [
  | inl less ↦
      ap (λ w. worker_after w es) (quick_run failures (delay_of failures) run h.0 less)
      ∙ too_many_runs (failures + 1) es h.1 (omega arith) (omega arith)
  | inr not_less ↦
      subst (λ n. worker_after (on_task_done (working n (delay_of n)) (finished run)) es ≡ idle)
        (sym (the_last not_less))
        (ap (λ w. worker_after w es) (last_run (delay_of 1024) run h.0) ∙ worker_after-idle es)
]
  where
    the_last : 1024 ≤ failures → failures ≡ 1024
    the_last m = omega arith

stable_run :
    (failures delay run : ℕ)
    → 60000 ≤ run
    → on_task_done (working failures delay) (finished run) ≡ working 0 (delay_of 0)
unfolding on_task_done
stable_run failures delay run h = ground arith

module _ (failures delay run : ℕ) (stable : 60000 ≤ run) (es : List Ending)
    (quick : All IsQuick es) where
  -- After a run of at least a minute and then at most 1024 shorter ones, none of them cancelled, the
  -- worker is restarted: at once if there was none of those, otherwise after one second that doubles
  -- with each, up to a minute.
  pub worker_after_lem :
      length es ≤ 1024
      → worker_after (working failures delay) (finished run ∷ es)
        ≡ working (length es) (if length es == 0 then 0 else min (2 ^ (length es - 1)) 60)
  unfolding worker_after
  worker_after_lem h =
      ap (λ w. worker_after w es) (stable_run failures delay run stable)
      ∙ quick_runs 0 es quick (omega arith)
      ∙ ap (λ n. working n (delay_of n)) (omega arith)

  -- After a run of at least a minute and then more than 1024 shorter ones, none of them cancelled,
  -- there is no worker any more.
  pub worker_after_lost :
      1024 < length es → worker_after (working failures delay) (finished run ∷ es) ≡ idle
  unfolding worker_after
  worker_after_lost h =
      ap (λ w. worker_after w es) (stable_run failures delay run stable)
      ∙ too_many_runs 0 es quick (omega arith) (omega arith)
