-- ===== src/Runner/Queue.antt =====
-- The bounded queue of turns that wait for a busy foreman.
use pioneer_square.Shared.{
  suc, ◌≤◌, ◌<◌, ◌≡◌, refl, ap, Bool, true, false, not, List, [], ◌∷◌, ◌++◌, leb, ltb, length, any,
  filter, if◌then◌else◌, arith, Bool-cases, inl, inr, length-append, append-nil, filter-append,
  filter-not_all, length-filter, length-filter_lt,
}
use pioneer_square.Runner.{
  QueuedHumanTurn, human_queue_max, is_github, remove_first, tail, enqueue_human_turn,
}

length-remove_first :
    (p : QueuedHumanTurn → Bool) (queue : List QueuedHumanTurn)
    → any p queue ≡ true
    → suc (length (remove_first p queue)) ≡ length queue
unfolding remove_first any
length-remove_first p [] h = cc
length-remove_first p (turn ∷ queue) h = ground (arith, length-remove_first p queue)

pub length-enqueue_human_turn :
    (turn : QueuedHumanTurn) (queue : List QueuedHumanTurn)
    → length queue ≤ human_queue_max
    → length (enqueue_human_turn turn queue) ≤ human_queue_max
unfolding enqueue_human_turn
length-enqueue_human_turn turn [] h = ground arith
length-enqueue_human_turn turn (next ∷ queue) h = ground (
  arith,
  length-remove_first is_github (next ∷ queue),
  length-append (remove_first is_github (next ∷ queue)) (turn ∷ []),
  length-append queue (turn ∷ []),
)

abbrev pub is_human : QueuedHumanTurn → Bool
is_human turn = not (is_github turn)

humans-remove_first :
    (queue : List QueuedHumanTurn)
    → filter is_human (remove_first is_github queue) ≡ filter is_human queue
unfolding remove_first filter
humans-remove_first [] = refl
humans-remove_first (turn ∷ queue) = ground (arith, humans-remove_first queue)

-- A bounded queue of human turns alone: a newcomer joins, and the oldest goes if there are too many.
abbrev pub newest_humans : List QueuedHumanTurn → List QueuedHumanTurn
newest_humans queue = if ltb human_queue_max (length queue) then tail queue else queue

filter-single :
    (turn : QueuedHumanTurn)
    → filter is_human (turn ∷ []) ≡ (if is_github turn then [] else turn ∷ [])
unfolding filter
filter-single turn = ground arith

-- What `enqueue_human_turn` comes to in each of its branches.
pub enqueue_human_turn_room :
    (turn : QueuedHumanTurn) (queue : List QueuedHumanTurn)
    → leb human_queue_max (length queue) ≡ false
    → enqueue_human_turn turn queue ≡ queue ++ turn ∷ []
unfolding enqueue_human_turn
enqueue_human_turn_room turn queue short = ground (arith, short)

pub enqueue_human_turn_evicting :
    (turn : QueuedHumanTurn) (queue : List QueuedHumanTurn)
    → leb human_queue_max (length queue) ≡ true
    → any is_github queue ≡ true
    → enqueue_human_turn turn queue ≡ remove_first is_github queue ++ turn ∷ []
unfolding enqueue_human_turn
enqueue_human_turn_evicting turn queue full some_github = ground (arith, full, some_github)

pub enqueue_human_turn_humans_only :
    (turn : QueuedHumanTurn) (queue : List QueuedHumanTurn)
    → leb human_queue_max (length queue) ≡ true
    → any is_github queue ≡ false
    → enqueue_human_turn turn queue ≡ (if is_github turn then queue else tail queue ++ turn ∷ [])
unfolding enqueue_human_turn
enqueue_human_turn_humans_only turn queue full none_github = ground (arith, full, none_github)

filter-joined :
    (turn : QueuedHumanTurn) (queue : List QueuedHumanTurn)
    → filter is_human (queue ++ turn ∷ [])
      ≡ (if is_github turn then filter is_human queue else filter is_human queue ++ turn ∷ [])
filter-joined turn queue = elim (Bool-cases (is_github turn)) [
  | inl github ↦
      rw (filter-append is_human queue (turn ∷ []), filter-single turn, github)
        (append-nil (filter is_human queue))
  | inr human ↦ rw (filter-append is_human queue (turn ∷ []), filter-single turn, human)
]

newest_humans_short :
    (turn : QueuedHumanTurn) (humans : List QueuedHumanTurn)
    → length humans < human_queue_max
    → newest_humans (humans ++ turn ∷ []) ≡ humans ++ turn ∷ []
newest_humans_short turn humans h = ground (arith, length-append humans (turn ∷ []))

newest_humans_full :
    (turn : QueuedHumanTurn) (humans : List QueuedHumanTurn)
    → length humans ≡ human_queue_max
    → newest_humans (humans ++ turn ∷ []) ≡ tail humans ++ turn ∷ []
newest_humans_full turn [] h = ground arith
newest_humans_full turn (next ∷ humans) h = ground (arith, length-append humans (turn ∷ []))

humans-tail :
    (queue : List QueuedHumanTurn)
    → any is_github queue ≡ false
    → filter is_human (tail queue) ≡ tail queue
unfolding any
humans-tail [] h = filter-not_all is_github [] h
humans-tail (turn ∷ queue) h = filter-not_all is_github queue (ground (arith, h))

joining_humans :
    (turn : QueuedHumanTurn) (queue : List QueuedHumanTurn)
    → any is_github queue ≡ false
    → filter is_human (if is_github turn then queue else tail queue ++ turn ∷ [])
      ≡ (if is_github turn then queue else tail queue ++ turn ∷ [])
joining_humans turn queue h = elim (Bool-cases (is_github turn)) [
  | inl github ↦ rw github (filter-not_all is_github queue h)
  | inr human ↦
      rw (human, filter-joined turn (tail queue), human)
        (ap (λ humans. humans ++ turn ∷ []) (humans-tail queue h))
]

-- A human turn is dropped only for a newer one, and only when fifty human turns wait: the human
-- part of the queue is a bounded queue of its own, whatever GitHub batches come between.
pub filter-enqueue_human_turn :
    (turn : QueuedHumanTurn) (queue : List QueuedHumanTurn)
    → length queue ≤ human_queue_max
    → filter is_human (enqueue_human_turn turn queue) ≡ (
        if is_github turn
        then filter is_human queue
        else newest_humans (filter is_human queue ++ turn ∷ []))
filter-enqueue_human_turn turn queue h = elim (Bool-cases (leb human_queue_max (length queue))) [
  | inl full ↦ elim (Bool-cases (any is_github queue)) [
    | inl some_github ↦ rw (
      enqueue_human_turn_evicting turn queue full some_github,
      filter-joined turn (remove_first is_github queue),
      humans-remove_first queue,
      newest_humans_short turn (filter is_human queue)
          (omega (arith, length-filter_lt is_github queue some_github)),
    )
    | inr none_github ↦
        rw
          (
            enqueue_human_turn_humans_only turn queue full none_github,
            filter-not_all is_github queue none_github,
            newest_humans_full turn queue (ground (arith, full)),
          )
          (joining_humans turn queue none_github)
  ]
  | inr short ↦ rw (
    enqueue_human_turn_room turn queue short,
    filter-joined turn queue,
    newest_humans_short turn (filter is_human queue)
        (ground (arith, short, length-filter is_human queue)),
  )
]
