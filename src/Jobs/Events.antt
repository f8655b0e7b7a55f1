-- ===== src/Jobs/Events.antt =====
-- The events of a job's request, from the server to the runner.
use ai_dial_generic_rag_back.Prelude.{ℕ, zero, suc, ◌≡◌, refl, ap, Bool, true, false, List, [], ◌∷◌}
use ai_dial_generic_rag_back.Prelude.Streams.{Stream, end, raised, next}
use ai_dial_generic_rag_back.Jobs.{
  Outcome, returned, failed, Event, heartbeat, message, exception, task_error, invalid_state, Round,
  run_as_event_stream, event_stream_helper,
}

-- What happens in the rounds: after some of them, the task ends or the client is gone.
pub data Course : List Round → ℕ → Bool → Type 0 where
  ends :
      {gone : Bool} {later : List Round}
      → Course (record { done = true; disconnected = gone } ∷ later) 1 true
  leaves :
      {later : List Round} → Course (record { done = false; disconnected = true } ∷ later) 1 false
  waits :
      {n : ℕ} {b : Bool} {later : List Round}
      → Course later n b
      → Course (record { done = false; disconnected = false } ∷ later) (suc n) b

-- Heartbeats, and then one more event.
abbrev pub heartbeats_then : ℕ → Event → List Event
heartbeats_then zero last = last ∷ []
heartbeats_then (suc n) last = heartbeat ∷ heartbeats_then n last

-- The event that tells how the task went; it was not done where the client left.
abbrev pub told : Bool → Outcome → Event
told true (returned data_) = message data_
told true (failed e) = exception (task_error e)
told false outcome = exception invalid_state

-- What the runner of a task that ended sees.
abbrev pub IsReceived : Bool → Outcome → Stream Event → Type 0
IsReceived true (returned data_) s = s ≡ next (message data_) end
IsReceived true (failed e) s = s ≡ raised
IsReceived false outcome s = Unit

-- If after some rounds the task ends, or the client is gone: the server sends a heartbeat in each
-- of them and then one event, with the value that the task has returned, or the exception that it
-- has raised, or, where the client is gone before the task is done, that there is no result; and a
-- runner that is there till the task ends gets no heartbeat: the value as a message and nothing
-- else, or the exception raised.
pub event_stream_helper_lem :
    (outcome : Outcome) (rounds : List Round) (n : ℕ) (is_done : Bool)
    → Course rounds n is_done
    → (run_as_event_stream outcome rounds ≡ heartbeats_then n (told is_done outcome))
      × IsReceived is_done outcome (event_stream_helper (run_as_event_stream outcome rounds))
unfolding run_as_event_stream event_stream_helper
event_stream_helper_lem (returned d) rounds n is_done ends = (refl, refl)
event_stream_helper_lem (failed e) rounds n is_done ends = (refl, refl)
event_stream_helper_lem outcome rounds n is_done leaves = (refl, tt)
event_stream_helper_lem outcome rounds n is_done (waits course) =
    let (sent, received) = event_stream_helper_lem outcome _ _ is_done course in
    (ap (◌∷◌ heartbeat) sent, received)
