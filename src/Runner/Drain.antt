-- ===== src/Runner/Drain.antt =====
-- How the queue of run_foreman_ai empties, when the turns return and nobody new comes.
use pioneer_square.Shared.{
  ℕ, zero, suc, ◌≡◌, refl, ap, ◌∙◌, Bool, true, false, List, [], ◌∷◌, ◌++◌, map, length, append-nil,
  append_assoc,
}
use pioneer_square.Runner.{
  QueuedHumanTurn, annotated, Phase, Slot, is_running, drain_human_queue, pending_of, run_ended,
}
use pioneer_square.Runner.Fifo.{Fifo, fifo, view}

-- The turn in progress returns, then the next one, and so on.
unfoldable pub returns : ℕ → Slot → Slot
returns zero slot = slot
returns (suc n) slot = returns n (run_ended slot)

abbrev next_of : Bool → List QueuedHumanTurn → List QueuedHumanTurn → Fifo
next_of false waiting served = fifo false waiting served
next_of true [] served = fifo false [] served
next_of true (turn ∷ waiting) served = fifo true waiting (served ++ annotated turn ∷ [])

view-run_ended :
    (phase : Phase) (queue runs : List QueuedHumanTurn)
    → view (run_ended (record { phase = phase; queue = queue; runs = runs }))
      ≡ next_of (is_running phase) (pending_of phase ++ queue) runs
unfolding run_ended drain_human_queue
view-run_ended Phase.idle queue runs = refl
view-run_ended Phase.first [] runs = refl
view-run_ended Phase.first (turn ∷ queue) runs = rw append-nil refl
view-run_ended (Phase.draining []) [] runs = refl
view-run_ended (Phase.draining []) (turn ∷ queue) runs = rw append-nil refl
view-run_ended (Phase.draining (turn ∷ pending)) queue runs = refl

view-next :
    (slot : Slot) (busy : Bool) (waiting served : List QueuedHumanTurn)
    → view slot ≡ fifo busy waiting served
    → view (run_ended slot) ≡ next_of busy waiting served
view-next slot busy waiting served h =
    view-run_ended slot.phase slot.queue slot.runs
    ∙ ap (λ (state : Fifo). next_of state.busy state.waiting state.served) h

all_served :
    (waiting served : List QueuedHumanTurn) (slot : Slot)
    → view slot ≡ fifo true waiting served
    → view (returns (length waiting) slot) ≡ fifo true [] (served ++ map annotated waiting)
unfolding returns
all_served [] served slot h = rw append-nil h
all_served (turn ∷ waiting) served slot h =
    rw (← append_assoc served (annotated turn ∷ []) (map annotated waiting)) (
      all_served waiting (served ++ annotated turn ∷ []) (run_ended slot)
        (view-next slot true (turn ∷ waiting) served h))

returns-suc : (n : ℕ) (slot : Slot) → returns (suc n) slot ≡ run_ended (returns n slot)
unfolding returns
returns-suc zero slot = refl
returns-suc (suc n) slot = returns-suc n (run_ended slot)

idle_of_view :
    (phase : Phase) (queue runs served : List QueuedHumanTurn)
    → view (record { phase = phase; queue = queue; runs = runs }) ≡ fifo false [] served
    → ◌≡◌ {A = Slot}
        (record { phase = phase; queue = queue; runs = runs })
        (record { phase = Phase.idle; queue = []; runs = served })
idle_of_view Phase.idle queue runs served h = cc
idle_of_view Phase.first queue runs served h = cc
idle_of_view (Phase.draining pending) queue runs served h = cc

-- If nobody new comes, a busy foreman runs all who wait, in the order of the rest of the snapshot and
-- then of the queue, each exactly once and with the note on its message, in as many returns as there
-- are turns that wait; the return of the last one gives the lock back, with the queue empty.
pub returns-drained :
    (slot : Slot)
    → is_running slot.phase ≡ true
    → returns (suc (length (pending_of slot.phase ++ slot.queue))) slot ≡ record {
      phase = Phase.idle;
      queue = [];
      runs = slot.runs ++ map annotated (pending_of slot.phase ++ slot.queue);
    }
returns-drained slot busy = rw (returns-suc (length waiting) slot) (
    idle_of_view after.phase after.queue after.runs (slot.runs ++ map annotated waiting) (
      view-next last true [] (slot.runs ++ map annotated waiting)
        (all_served waiting slot.runs slot (rw busy refl))))
  where
    waiting : List QueuedHumanTurn
    waiting = pending_of slot.phase ++ slot.queue

    last : Slot
    last = returns (length waiting) slot

    after : Slot
    after = run_ended last
