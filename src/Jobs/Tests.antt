-- ===== src/Jobs/Tests.antt =====
-- Restarts and events at concrete runs.
use ai_dial_generic_rag_back.Prelude.{
  ℕ, zero, suc, ◌≡◌, refl, true, false, List, [], ◌∷◌, length, All, arith,
}
use ai_dial_generic_rag_back.Prelude.Streams.{next, end}
use ai_dial_generic_rag_back.Jobs.{
  Ending, finished, working, idle, started, worker_after, returned, Round, run_as_event_stream,
  event_stream_helper, heartbeat, message,
}
use ai_dial_generic_rag_back.Jobs.Restarts.{IsQuick, worker_after_lem, worker_after_lost}
use ai_dial_generic_rag_back.Jobs.Events.{ends, waits, event_stream_helper_lem}

three : worker_after started (finished 5 ∷ finished 20 ∷ finished 9 ∷ []) ≡ working 3 4
unfolding worker_after
three = refl

six :
    worker_after started (
      finished 5
      ∷ finished 20
      ∷ finished 9
      ∷ finished 0
      ∷ finished 1
      ∷ finished 2
      ∷ finished 3
      ∷ [])
    ≡ working 7 60
unfolding worker_after
six = refl

worker_after_lem_example :
    worker_after (working 9 60) (finished 60000 ∷ finished 5 ∷ finished 7 ∷ []) ≡ working 2 2
worker_after_lem_example =
    worker_after_lem 9 60 60000 (omega arith) (finished 5 ∷ finished 7 ∷ [])
      (omega arith, (omega arith, tt)) (omega arith)

abbrev crashes : ℕ → List Ending
crashes zero = []
crashes (suc n) = finished 5 ∷ crashes n

All-crashes : (n : ℕ) → All IsQuick (crashes n)
All-crashes zero = tt
All-crashes (suc n) = (omega arith, All-crashes n)

length-crashes : (n : ℕ) → length (crashes n) ≡ n
length-crashes zero = refl
length-crashes (suc n) = omega (arith, length-crashes n)

worker_after_lost_example : worker_after (working 0 0) (finished 60000 ∷ crashes 1025) ≡ idle
worker_after_lost_example =
    worker_after_lost 0 0 60000 (omega arith) (crashes 1025) (All-crashes 1025)
      (omega (arith, length-crashes 1025))

abbrev rounds : List Round
rounds =
    record { done = false; disconnected = false }
    ∷ record { done = true; disconnected = false }
    ∷ []

event_stream_helper_lem_example :
    (run_as_event_stream (returned "done") rounds ≡ heartbeat ∷ heartbeat ∷ message "done" ∷ [])
    × (event_stream_helper (run_as_event_stream (returned "done") rounds)
        ≡ next (message "done") end)
event_stream_helper_lem_example =
    event_stream_helper_lem (returned "done") rounds 2 true (waits ends)
