-- ===== src/Jobs.antt =====
-- src/generic_rag/app/jobs.py: the worker that is restarted, and the events of a job's request.
pub mod Restarts
pub mod Events
mod Tests
use ai_dial_generic_rag_back.Prelude.{
  ℕ, ◌+◌, ◌-◌, ◌^◌, min, Bool, true, false, Option, none, some, String, List, [], ◌∷◌, leb, ltb,
  ◌==◌, if◌then◌else◌,
}
use ai_dial_generic_rag_back.Prelude.Streams.{Stream, end, raised, next}

-- How a worker task ended: cancelled, or otherwise after some milliseconds of its run.
pub data Ending : Type 0 where
  cancelled : Ending
  finished : ℕ → Ending

-- The worker process: `failures` and the delay in seconds of the task that was created last, or no
-- task any more.
pub data Worker : Type 0 where
  working : (failures delay : ℕ) → Worker
  idle : Worker

-- `2.0 ** n` for a natural number: the largest power of two that a float holds is `2.0 ** 1023`, and
-- beyond there is an `OverflowError`.
abbrev pub float_power_of_two : ℕ → Option ℕ
float_power_of_two n = if ltb n 1024 then some (2 ^ n) else none

abbrev pub worker_restart_max_delay : ℕ
worker_restart_max_delay = 60

-- `_WORKER_STABLE_RUN_DURATION` in milliseconds
abbrev pub worker_stable_run_duration : ℕ
worker_stable_run_duration = 60000

abbrev pub count_failures : ℕ → ℕ → ℕ
count_failures failures run = if leb worker_stable_run_duration run then 0 else failures + 1

-- The delay of the next task; none is the exception.
abbrev pub restart_delay : ℕ → Option ℕ
restart_delay failures =
    if failures == 0 then some 0 else elim (float_power_of_two (failures - 1)) [
      | none ↦ none
      | some power ↦ some (min power worker_restart_max_delay)
    ]

-- `_on_task_done`: an exception in a callback of a task is logged by the event loop, and the task
-- that was to be created is not.
unfoldable pub on_task_done : Worker → Ending → Worker
on_task_done idle ending = idle
on_task_done (working failures delay) cancelled = idle
on_task_done (working failures delay) (finished run) =
    elim (restart_delay (count_failures failures run)) [
      | none ↦ idle
      | some delay' ↦ working (count_failures failures run) delay'
    ]

-- The worker after the given runs.
unfoldable pub worker_after : Worker → List Ending → Worker
unfolding on_task_done
worker_after w [] = w
worker_after w (e ∷ es) = worker_after (on_task_done w e) es

-- `worker_task = asyncio.create_task(_run(0.0))`
abbrev pub started : Worker
started = working 0 0

-- The result of a coroutine.
pub data Outcome : Type 0 where
  returned : String → Outcome
  failed : String → Outcome

-- What `task.result()` raises: the exception of the task, or that it has no result yet.
pub data Failure : Type 0 where
  task_error : String → Failure
  invalid_state : Failure

pub data Event : Type 0 where
  heartbeat : Event
  message : String → Event
  exception : Failure → Event

-- A round of the loop: the task is done at the end of it, and the client is found to be gone.
pub record Round : Type 0 where
  pub done : Bool
  pub disconnected : Bool

-- `task.result()`, and the handler of its exceptions.
abbrev pub last_event : Bool → Outcome → Event
last_event true (returned data_) = message data_
last_event true (failed e) = exception (task_error e)
last_event false outcome = exception invalid_state

-- `run_as_event_stream`. A task that is created is not done before the first round. Where the task
-- fails while it is waited for, its exception leaves the loop, and is the one that `task.result()`
-- would raise. Without further rounds the task still runs.
unfoldable pub run_as_event_stream : Outcome → List Round → List Event
run_as_event_stream outcome [] = []
run_as_event_stream outcome (round ∷ rounds) =
    let rest = run_as_event_stream outcome rounds in
    heartbeat
    ∷ (if round.done
        then last_event true outcome ∷ []
        else if round.disconnected
        then last_event false outcome ∷ []
        else rest)

-- `JobRunner._event_stream_helper` over the events of the server: a heartbeat is a comment, which the
-- client of the stream does not yield, and an exception that it reads is raised.
unfoldable pub event_stream_helper : List Event → Stream Event
event_stream_helper [] = end
event_stream_helper (exception e ∷ events) = raised
event_stream_helper (heartbeat ∷ events) = event_stream_helper events
event_stream_helper (message data_ ∷ events) = next (message data_) (event_stream_helper events)
