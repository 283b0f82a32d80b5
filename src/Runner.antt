-- ===== src/Runner.antt =====
-- The turns of backend/foreman/runner.py: the run lock and the queue of one (guild, user) key. The
-- source's dicts hold one such slot for each key; a key that is absent is an idle slot with an empty
-- queue. Each event below is what happens between two awaits.
pub mod Queue
pub mod Fifo
pub mod Drain
pub mod Poll
mod Examples
use Prim.Native.String.{◌++◌ as str_append}
use pioneer_square.Shared.{
  ℕ, String, Bool, true, false, not, ◌&&◌, ◌||◌, Option, none, some, List, [], ◌∷◌, ◌++◌, leb,
  length, any, ◌==◌, string_eq, option_eq, if◌then◌else◌, filter,
}

-- `_QueuedHumanTurn`; for an invocation, `queued_at` is the instant of the call.
pub record QueuedHumanTurn : Type 0 where
  pub guild_id : String
  pub human_message : String
  pub extra_context : String
  pub user_id : Option String
  pub task_id : Option String
  pub queued_at : String
  pub reply_channel_id : Option String
  pub trigger : Option String
  pub conversation_id : Option ℕ

abbrev pub human_queue_max : ℕ
human_queue_max = 50

-- `turn.trigger == "github-event"`
unfoldable pub is_github : QueuedHumanTurn → Bool
is_github turn = turn.trigger == some "github-event"

-- `queue.remove(dropped)`, where `dropped` is the first turn that passes the test.
unfoldable pub remove_first : (QueuedHumanTurn → Bool) → List QueuedHumanTurn → List QueuedHumanTurn
remove_first test [] = []
remove_first test (turn ∷ queue) = if test turn then queue else turn ∷ remove_first test queue

-- `queue.popleft()`
abbrev pub tail : List QueuedHumanTurn → List QueuedHumanTurn
tail [] = []
tail (turn ∷ queue) = queue

unfoldable pub enqueue_human_turn : QueuedHumanTurn → List QueuedHumanTurn → List QueuedHumanTurn
enqueue_human_turn turn queue =
    if leb human_queue_max (length queue)
    then (if any is_github queue
        then remove_first is_github queue ++ turn ∷ []
        else if is_github turn
        then queue
        else tail queue ++ turn ∷ [])
    else queue ++ turn ∷ []

abbrev pub annotated : QueuedHumanTurn → QueuedHumanTurn
annotated turn = record turn {
  human_message =
      str_append "[queued at "
        (str_append turn.queued_at (str_append " while Foreman was busy]\n" turn.human_message));
}

-- Where the holder of the lock stands: in the turn that took it, or in a queued turn, with the
-- rest of the snapshot that is being drained.
pub data Phase : Type 0 where
  idle : Phase
  first : Phase
  draining : List QueuedHumanTurn → Phase

-- `runs` are the calls of `_run_foreman_ai` so far.
pub record Slot : Type 0 where
  pub phase : Phase
  pub queue : List QueuedHumanTurn
  pub runs : List QueuedHumanTurn

abbrev pub is_running : Phase → Bool
is_running Phase.idle = false
is_running _ = true

-- `run_foreman_ai` up to its first await.
unfoldable pub run_foreman_ai : Bool → QueuedHumanTurn → Slot → Slot
run_foreman_ai is_human turn slot =
    if is_running slot.phase
    then (if is_human || is_github turn
        then record slot { queue = enqueue_human_turn turn slot.queue }
        else slot)
    else record slot { phase = Phase.first; runs = slot.runs ++ turn ∷ [] }

-- The loop of `_drain_human_queue` up to its next await: what is left of the snapshot, or a new
-- snapshot, or the end, where the lock is given back.
unfoldable pub drain_human_queue :
    List QueuedHumanTurn → List QueuedHumanTurn → List QueuedHumanTurn → Slot
drain_human_queue (turn ∷ pending) queue runs = record {
  phase = Phase.draining pending;
  queue = queue;
  runs = runs ++ annotated turn ∷ [];
}
drain_human_queue [] (turn ∷ pending) runs = record {
  phase = Phase.draining pending;
  queue = [];
  runs = runs ++ annotated turn ∷ [];
}
drain_human_queue [] [] runs = record { phase = Phase.idle; queue = []; runs = runs }

abbrev pub pending_of : Phase → List QueuedHumanTurn
pending_of (Phase.draining pending) = pending
pending_of _ = []

-- `_run_foreman_ai` returned, or raised an `Exception`: the drain goes on either way. A cancellation,
-- which is no `Exception` and skips the drain, is not modelled.
unfoldable pub run_ended : Slot → Slot
run_ended slot =
    if is_running slot.phase
    then drain_human_queue (pending_of slot.phase) slot.queue slot.runs
    else slot
