-- ===== src/Runner/Examples.antt =====
-- The foreman's turns and polls on concrete inputs.
use pioneer_square.Shared.{
  ℕ, zero, suc, any, count, ◌≡◌, refl, String, true, false, Option, none, some, List, [], ◌∷◌, ◌++◌,
  filter, if◌then◌else◌, arith,
}
use pioneer_square.Runner.{
  QueuedHumanTurn, is_github, remove_first, enqueue_human_turn, annotated, Phase, Slot,
  run_foreman_ai, drain_human_queue, run_ended,
}
use pioneer_square.Runner.Queue.{is_human, newest_humans, filter-enqueue_human_turn}
use pioneer_square.Runner.Fifo.{Event, FifoSteps, view, on_event, on_events}
use pioneer_square.Runner.Fifo.Refined.{FifoSteps-on_events}
use pioneer_square.Runner.Drain.{returns, returns-drained}
use pioneer_square.Runner.Poll.{Polling, PollEvent, poll_events}
use pioneer_square.Runner.Poll.Single.{IsSingle, poll_events-IsSingle}

abbrev turn_of : Option String → String → QueuedHumanTurn
turn_of trigger message = record {
  guild_id = "g";
  human_message = message;
  extra_context = "";
  user_id = some "u";
  task_id = none;
  queued_at = "noon";
  reply_channel_id = none;
  trigger = trigger;
  conversation_id = none;
}

abbrev hello : QueuedHumanTurn
hello = turn_of none "hello"

abbrev batch : QueuedHumanTurn
batch = turn_of (some "github-event") "merged"

abbrev copies : ℕ → QueuedHumanTurn → List QueuedHumanTurn
copies zero turn = []
copies (suc n) turn = turn ∷ copies n turn

abbrev crowd : List QueuedHumanTurn
crowd = copies 20 hello ++ batch ∷ copies 29 hello

batch_evicted : enqueue_human_turn hello crowd ≡ copies 50 hello
unfolding enqueue_human_turn is_github any remove_first
batch_evicted = refl

batch_turned_away : enqueue_human_turn batch (copies 50 hello) ≡ copies 50 hello
unfolding enqueue_human_turn is_github any
batch_turned_away = refl

filter-enqueue_human_turn_example : filter is_human (enqueue_human_turn hello crowd) ≡ (
    if is_github hello
    then filter is_human crowd
    else newest_humans (filter is_human crowd ++ hello ∷ []))
filter-enqueue_human_turn_example = filter-enqueue_human_turn hello crowd (omega arith)

abbrev idle_slot : Slot
idle_slot = record { phase = Phase.idle; queue = []; runs = [] }

abbrev events : List Event
events =
    Event.invoked true hello
    ∷ Event.invoked true (turn_of none "more")
    ∷ Event.invoked false (turn_of (some "periodic-check") "poll")
    ∷ Event.invoked false batch
    ∷ Event.ended
    ∷ Event.invoked true hello
    ∷ Event.ended
    ∷ []

events_handled : on_events events idle_slot ≡ record {
  phase = Phase.draining [];
  queue = hello ∷ [];
  runs = hello ∷ annotated (turn_of none "more") ∷ annotated batch ∷ [];
}
unfolding on_events on_event run_foreman_ai run_ended drain_human_queue enqueue_human_turn is_github
events_handled = refl

FifoSteps-on_events_example : FifoSteps events (view idle_slot) (view (on_events events idle_slot))
FifoSteps-on_events_example = FifoSteps-on_events events idle_slot (λ idle. refl)

abbrev busy_slot : Slot
busy_slot = record { phase = Phase.draining (hello ∷ []); queue = batch ∷ []; runs = [] }

returns-drained_example :
    returns 3 busy_slot
    ≡ record { phase = Phase.idle; queue = []; runs = annotated hello ∷ annotated batch ∷ [] }
returns-drained_example = returns-drained busy_slot refl

abbrev unpolled : Polling
unpolled = record { loops = []; registered = none; last_action_at = none }

abbrev poll_story : List PollEvent
poll_story =
    PollEvent.ensured
    ∷ PollEvent.woke 0 (some 86400)
    ∷ PollEvent.acted 1000
    ∷ PollEvent.reset "g" [] 1100
    ∷ PollEvent.woke 0 none
    ∷ PollEvent.woke 1 (some 500)
    ∷ PollEvent.ensured
    ∷ []

poll_events-IsSingle_example : IsSingle (poll_events poll_story unpolled)
unfolding count any
poll_events-IsSingle_example = poll_events-IsSingle poll_story unpolled (omega arith, refl)

abbrev polled : Polling
polled = record {
  loops = record { serial = 0; interval = 2400; is_alive = true } ∷ [];
  registered = some 0;
  last_action_at = some 1000;
}
