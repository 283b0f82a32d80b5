-- ===== src/Runner/Fifo.antt =====
-- The promise that the run lock and the queue of run_foreman_ai keep: one turn runs at a time, and
-- those that wait run in the order in which they came.
mod Queued
pub mod Refined
use pioneer_square.Shared.{
  ℕ, ◌≤◌, ◌≡◌, refl, sym, ap, ◌∙◌, Bool, true, false, not, ◌||◌, List, [], ◌∷◌, ◌++◌, leb, length,
  length-append, any, filter, if◌then◌else◌, arith, Bool-cases, inl, inr, append-nil, append_assoc,
  subst,
}
use pioneer_square.Runner.{
  QueuedHumanTurn, human_queue_max, is_github, remove_first, tail, enqueue_human_turn, annotated,
  Phase, Slot, is_running, run_foreman_ai, drain_human_queue, pending_of, run_ended,
}

-- Who comes and who returns, for one key.
pub data Event : Type 0 where
  invoked : Bool → QueuedHumanTurn → Event
  ended : Event

unfoldable pub on_event : Event → Slot → Slot
on_event (Event.invoked is_human turn) slot = run_foreman_ai is_human turn slot
on_event Event.ended slot = run_ended slot

unfoldable pub on_events : List Event → Slot → Slot
on_events [] slot = slot
on_events (event ∷ events) slot = on_events events (on_event event slot)

-- A queue with one server.
pub record Fifo : Type 0 where
  pub busy : Bool
  pub waiting : List QueuedHumanTurn
  pub served : List QueuedHumanTurn

abbrev pub fifo : Bool → List QueuedHumanTurn → List QueuedHumanTurn → Fifo
fifo busy waiting served = record { busy = busy; waiting = waiting; served = served }

-- What may be left of a waiting line when somebody joins it: all of it, or, where as many as the
-- queue may hold, or more, wait, all but one.
pub data Kept : List QueuedHumanTurn → List QueuedHumanTurn → Type 0 where
  whole : (waiting : List QueuedHumanTurn) → Kept waiting waiting
  without :
      (turn : QueuedHumanTurn) (before after : List QueuedHumanTurn)
      → human_queue_max ≤ length (before ++ turn ∷ after)
      → Kept (before ++ turn ∷ after) (before ++ after)

-- What a queue with one server does on an event: `serve` starts at once what finds it idle and nobody
-- waiting; `take_next` starts the next in line; a newcomer joins last; turned away are a GitHub batch where
-- the line is long, and what is neither from a human nor from GitHub.
pub data FifoStep : Event → Fifo → Fifo → Type 0 where
  serve :
      (is_human : Bool) (turn : QueuedHumanTurn) (served : List QueuedHumanTurn)
      → FifoStep
          (Event.invoked is_human turn)
          (fifo false [] served)
          (fifo true [] (served ++ turn ∷ []))
  join :
      (is_human : Bool) (turn : QueuedHumanTurn) (waiting kept served : List QueuedHumanTurn)
      → (is_human || is_github turn) ≡ true
      → Kept waiting kept
      → FifoStep
          (Event.invoked is_human turn)
          (fifo true waiting served)
          (fifo true (kept ++ turn ∷ []) served)
  refuse_batch :
      (is_human : Bool) (turn : QueuedHumanTurn) (waiting served : List QueuedHumanTurn)
      → is_github turn ≡ true
      → human_queue_max ≤ length waiting
      → FifoStep (Event.invoked is_human turn) (fifo true waiting served) (fifo true waiting served)
  refuse_snapshot :
      (is_human : Bool) (turn : QueuedHumanTurn) (waiting served : List QueuedHumanTurn)
      → (is_human || is_github turn) ≡ false
      → FifoStep (Event.invoked is_human turn) (fifo true waiting served) (fifo true waiting served)
  take_next :
      (turn : QueuedHumanTurn) (waiting served : List QueuedHumanTurn)
      → FifoStep Event.ended
          (fifo true (turn ∷ waiting) served)
          (fifo true waiting (served ++ annotated turn ∷ []))
  rest :
      (served : List QueuedHumanTurn)
      → FifoStep Event.ended (fifo true [] served) (fifo false [] served)
  quiet :
      (waiting served : List QueuedHumanTurn)
      → FifoStep Event.ended (fifo false waiting served) (fifo false waiting served)

pub data FifoSteps : List Event → Fifo → Fifo → Type 0 where
  stay : {a : Fifo} → FifoSteps [] a a
  more :
      {event : Event} {events : List Event} {a b c : Fifo}
      → FifoStep event a b
      → FifoSteps events b c
      → FifoSteps (event ∷ events) a c

-- What the slot is as a queue: the rest of the snapshot stands before the live queue.
abbrev pub view : Slot → Fifo
view slot = fifo (is_running slot.phase) (pending_of slot.phase ++ slot.queue) slot.runs

-- Nobody waits for an idle foreman.
abbrev pub IsSound : Slot → Type 0
IsSound slot = is_running slot.phase ≡ false → slot.queue ≡ []
