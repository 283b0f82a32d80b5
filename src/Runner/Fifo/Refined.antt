-- ===== src/Runner/Fifo/Refined.antt =====
-- The run lock and the queue of run_foreman_ai as a queue with one server.
use pioneer_square.Shared.{
  ◌≡◌, refl, Bool, true, false, ◌||◌, List, [], ◌∷◌, ◌++◌, Bool-cases, inl, inr, append-nil,
}
use pioneer_square.Runner.{
  QueuedHumanTurn, is_github, Phase, Slot, is_running, run_foreman_ai, drain_human_queue,
  pending_of, run_ended,
}
use pioneer_square.Runner.Fifo.{Event, FifoStep, FifoSteps, view, IsSound, on_event, on_events}
use pioneer_square.Runner.Fifo.Queued.{FifoStep-enqueue_human_turn}

FifoStep-busy :
    (is_human : Bool) (turn : QueuedHumanTurn) (slot : Slot)
    → is_running slot.phase ≡ true
    → FifoStep (Event.invoked is_human turn) (view slot) (view (run_foreman_ai is_human turn slot))
unfolding run_foreman_ai
FifoStep-busy is_human turn slot busy = elim (Bool-cases (is_human || is_github turn)) [
  | inl kept ↦
      rw (busy, kept, busy)
        (FifoStep-enqueue_human_turn is_human turn (pending_of slot.phase) slot.queue slot.runs
          kept)
  | inr dropped ↦
      rw (busy, dropped, busy)
        (FifoStep.refuse_snapshot is_human turn (pending_of slot.phase ++ slot.queue) slot.runs
          dropped)
]

abbrev slot_of : Phase → List QueuedHumanTurn → List QueuedHumanTurn → Slot
slot_of phase queue runs = record { phase = phase; queue = queue; runs = runs }

FifoStep-idle :
    (is_human : Bool) (turn : QueuedHumanTurn) (phase : Phase) (queue runs : List QueuedHumanTurn)
    → is_running phase ≡ false
    → queue ≡ []
    → FifoStep
        (Event.invoked is_human turn)
        (view (slot_of phase queue runs))
        (view (run_foreman_ai is_human turn (slot_of phase queue runs)))
unfolding run_foreman_ai
FifoStep-idle is_human turn Phase.idle [] runs idle none = FifoStep.serve is_human turn runs
FifoStep-idle is_human turn Phase.idle (next ∷ queue) runs idle none = cc
FifoStep-idle is_human turn Phase.first queue runs idle none = cc
FifoStep-idle is_human turn (Phase.draining pending) queue runs idle none = cc

FifoStep-ended :
    (phase : Phase) (queue runs : List QueuedHumanTurn)
    → FifoStep Event.ended
        (view (slot_of phase queue runs))
        (view (run_ended (slot_of phase queue runs)))
unfolding run_ended drain_human_queue
FifoStep-ended Phase.idle queue runs = FifoStep.quiet queue runs
FifoStep-ended Phase.first [] runs = FifoStep.rest runs
FifoStep-ended Phase.first (turn ∷ queue) runs = rw append-nil (FifoStep.take_next turn queue runs)
FifoStep-ended (Phase.draining []) [] runs = FifoStep.rest runs
FifoStep-ended (Phase.draining []) (turn ∷ queue) runs =
    rw append-nil (FifoStep.take_next turn queue runs)
FifoStep-ended (Phase.draining (turn ∷ pending)) queue runs =
    FifoStep.take_next turn (pending ++ queue) runs

FifoStep-on_event :
    (event : Event) (slot : Slot)
    → IsSound slot
    → FifoStep event (view slot) (view (on_event event slot))
unfolding on_event
FifoStep-on_event (Event.invoked is_human turn) slot sound =
    elim (Bool-cases (is_running slot.phase)) [
      | inl busy ↦ FifoStep-busy is_human turn slot busy
      | inr idle ↦ FifoStep-idle is_human turn slot.phase slot.queue slot.runs idle (sound idle)
    ]
FifoStep-on_event Event.ended slot sound = FifoStep-ended slot.phase slot.queue slot.runs

IsSound-ended :
    (phase : Phase) (queue runs : List QueuedHumanTurn)
    → IsSound (slot_of phase queue runs)
    → IsSound (run_ended (slot_of phase queue runs))
unfolding run_ended drain_human_queue
IsSound-ended Phase.idle queue runs sound idle = sound idle
IsSound-ended Phase.first [] runs sound idle = refl
IsSound-ended Phase.first (turn ∷ queue) runs sound idle = cc
IsSound-ended (Phase.draining []) [] runs sound idle = refl
IsSound-ended (Phase.draining []) (turn ∷ queue) runs sound idle = cc
IsSound-ended (Phase.draining (turn ∷ pending)) queue runs sound idle = cc

IsSound-invoked :
    (is_human : Bool) (turn : QueuedHumanTurn) (slot : Slot)
    → IsSound slot
    → IsSound (run_foreman_ai is_human turn slot)
unfolding run_foreman_ai
IsSound-invoked is_human turn slot sound = elim (Bool-cases (is_running slot.phase)) [
  | inl busy ↦ elim (Bool-cases (is_human || is_github turn)) [
    | inl kept ↦ rw (busy, kept) (λ idle. cc)
    | inr dropped ↦ rw (busy, dropped) sound
  ]
  | inr idle ↦ rw idle (λ free. cc)
]

-- Nobody waits for an idle foreman: no sequence of invocations and returns leaves a queued turn
-- behind a lock that is free.
pub IsSound-on_events :
    (events : List Event) (slot : Slot) → IsSound slot → IsSound (on_events events slot)
unfolding on_events on_event
IsSound-on_events [] slot sound = sound
IsSound-on_events (Event.invoked is_human turn ∷ events) slot sound =
    IsSound-on_events events (run_foreman_ai is_human turn slot)
      (IsSound-invoked is_human turn slot sound)
IsSound-on_events (Event.ended ∷ events) slot sound =
    IsSound-on_events events (run_ended slot) (IsSound-ended slot.phase slot.queue slot.runs sound)

-- From a slot whose queue is empty if it is idle, whatever sequence of invocations and returns
-- follows, the lock and the queue answer each event with a step of a queue with one server, of which
-- the rest of the snapshot and then the live queue are the waiting line.
pub FifoSteps-on_events :
    (events : List Event) (slot : Slot)
    → IsSound slot
    → FifoSteps events (view slot) (view (on_events events slot))
unfolding on_events
FifoSteps-on_events [] slot sound = FifoSteps.stay
FifoSteps-on_events (event ∷ events) slot sound =
    FifoSteps.more (FifoStep-on_event event slot sound)
      (FifoSteps-on_events events (on_event event slot) (IsSound-on_events (event ∷ []) slot sound))
