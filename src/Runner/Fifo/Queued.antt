-- ===== src/Runner/Fifo/Queued.antt =====
-- The waiting line of run_foreman_ai when somebody joins it.
use pioneer_square.Shared.{
  ◌≤◌, ◌≡◌, Bool, true, ◌||◌, List, [], ◌∷◌, ◌++◌, leb, length, length-append, any, if◌then◌else◌,
  arith, Bool-cases, inl, inr, append_assoc,
}
use pioneer_square.Runner.{
  QueuedHumanTurn, human_queue_max, is_github, remove_first, tail, enqueue_human_turn,
}
use pioneer_square.Runner.Queue.{
  enqueue_human_turn_room, enqueue_human_turn_evicting, enqueue_human_turn_humans_only,
}
use pioneer_square.Runner.Fifo.{Event, fifo, Kept, FifoStep}

crowded :
    (pending queue : List QueuedHumanTurn)
    → leb human_queue_max (length queue) ≡ true
    → human_queue_max ≤ length (pending ++ queue)
crowded pending queue full = ground (arith, full, length-append pending queue)

Kept-remove_first :
    (p : QueuedHumanTurn → Bool) (pending queue : List QueuedHumanTurn)
    → any p queue ≡ true
    → human_queue_max ≤ length (pending ++ queue)
    → Kept (pending ++ queue) (pending ++ remove_first p queue)
unfolding any remove_first
Kept-remove_first p pending [] h full = cc
Kept-remove_first p pending (turn ∷ queue) h full = elim (Bool-cases (p turn)) [
  | inl found ↦ rw found (Kept.without turn pending queue full)
  | inr other ↦
      rw
        (
          other,
          ← append_assoc pending (turn ∷ []) queue,
          ← append_assoc pending (turn ∷ []) (remove_first p queue),
        )
        (Kept-remove_first p (pending ++ turn ∷ []) queue (ground (arith, other, h))
          (rw (append_assoc pending (turn ∷ []) queue) full))
]

Kept-tail :
    (pending queue : List QueuedHumanTurn)
    → human_queue_max ≤ length (pending ++ queue)
    → Kept (pending ++ queue) (pending ++ tail queue)
Kept-tail pending [] full = Kept.whole (pending ++ [])
Kept-tail pending (next ∷ queue) full = Kept.without next pending queue full

-- `enqueue_human_turn` behind the rest of a snapshot.
module _ (is_human : Bool) (turn : QueuedHumanTurn) (pending queue served : List QueuedHumanTurn)
    (welcome : (is_human || is_github turn) ≡ true) where
  FifoStep-joined :
      (kept : List QueuedHumanTurn)
      → Kept (pending ++ queue) (pending ++ kept)
      → FifoStep
          (Event.invoked is_human turn)
          (fifo true (pending ++ queue) served)
          (fifo true (pending ++ (kept ++ turn ∷ [])) served)
  FifoStep-joined kept h =
      rw (← append_assoc pending kept (turn ∷ []))
        (FifoStep.join is_human turn (pending ++ queue) (pending ++ kept) served welcome h)

  FifoStep-humans_only :
      human_queue_max ≤ length (pending ++ queue)
      → FifoStep (Event.invoked is_human turn) (fifo true (pending ++ queue) served) (
          fifo true (pending ++ (if is_github turn then queue else tail queue ++ turn ∷ [])) served)
  FifoStep-humans_only full = elim (Bool-cases (is_github turn)) [
    | inl github ↦
        rw github (FifoStep.refuse_batch is_human turn (pending ++ queue) served github full)
    | inr human ↦ rw human (FifoStep-joined (tail queue) (Kept-tail pending queue full))
  ]

  pub FifoStep-enqueue_human_turn :
      FifoStep
        (Event.invoked is_human turn)
        (fifo true (pending ++ queue) served)
        (fifo true (pending ++ enqueue_human_turn turn queue) served)
  FifoStep-enqueue_human_turn = elim (Bool-cases (leb human_queue_max (length queue))) [
    | inl full ↦ elim (Bool-cases (any is_github queue)) [
      | inl some_github ↦ rw (enqueue_human_turn_evicting turn queue full some_github) (
          FifoStep-joined (remove_first is_github queue)
            (Kept-remove_first is_github pending queue some_github (crowded pending queue full)))
      | inr none_github ↦
          rw (enqueue_human_turn_humans_only turn queue full none_github)
            (FifoStep-humans_only (crowded pending queue full))
    ]
    | inr short ↦
        rw (enqueue_human_turn_room turn queue short)
          (FifoStep-joined queue (Kept.whole (pending ++ queue)))
  ]
