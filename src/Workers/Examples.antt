-- ===== src/Workers/Examples.antt =====
-- The workers' lifecycle on concrete inputs.
use pioneer_square.Shared.{
  ℕ, zero, suc, String, ◌≡◌, refl, true, false, not, ◌&&◌, Option, none, some, [], ◌∷◌, any, update,
  find?, member, seconds, string_eq, nat_eq,
}
use pioneer_square.Workers.{
  Worker, Tables, Effect, newest, worker_is_inactive, holds_alive, keeps_busy,
}
use pioneer_square.Workers.Inactive.{worker_is_inactive_lem, is_recent_log}
use pioneer_square.Workers.Reaper.{
  Pass, Reaping, candidates, reap_idle_workers_once, reap_each, reap_one, disabled_at, stops,
}
use pioneer_square.Workers.Reaper.Sweep.{
  is_due, HasUniqueIds, unique_of_fresh, workers-reap_idle_workers_once,
}
use pioneer_square.Workers.ForceKill.{
  Outcome, Justified, escalation, wait, turn, escalation-Justified,
}
use pioneer_square.Workers.Spawning.{first_free, generate_worker_id}

abbrev worker : String → String → Option ℕ → Option String → Worker
worker id state last_seen container_id = record {
  id = id;
  guild_id = 1;
  state = state;
  last_seen = last_seen;
  container_id = container_id;
  spawned_version = some "v1";
  started_at = some 10;
  drain_requested_at = none;
  disabled = false;
}

-- An idle one, a busy one, a dead one, one that reconnects, and one that was started outside.
abbrev fleet : Reaping
fleet = record {
  workers =
      worker "w-idle" "idle" (some 990) (some "c1")
      ∷ worker "w-busy" "idle" (some 990) (some "c2")
      ∷ worker "w-dead" "offline" none (some "c3")
      ∷ worker "w-back" "offline" (some 950) (some "c4")
      ∷ worker "w-own" "idle" (some 990) none
      ∷ [];
  sent = [];
}

abbrev tables : Tables
tables = record {
  guilds = record { id = 1; slug = "g" } ∷ [];
  tasks = [];
  agents =
      record {
        id = "a";
        guild_id = 1;
        worker_id = some "w-busy";
        state = "thinking";
        activity = none;
        current_task_id = none;
      }
      ∷ [];
  task_logs = record { task_id = some "t"; worker_id = some "w-idle"; timestamp = 800 } ∷ [];
}

abbrev pass : Pass
pass = record { timeout = 100; now = 1000; clock = 1000; tables = tables; delivers = λ e. true }

abbrev fails : Pass
fails = record pass { delivers = λ e. false }

reaped : (reap_idle_workers_once pass fleet).0 ≡ ("w-idle" ∷ "w-dead" ∷ [])
unfolding reap_idle_workers_once candidates reap_each reap_one worker_is_inactive newest any find?
    member update stops
reaped = refl

messages : (reap_idle_workers_once pass fleet).1.sent ≡ (
    Effect.shutdown "g" "w-idle"
    ∷ Effect.terminal_line "g" "w-idle"
    ∷ Effect.escalate "w-idle"
    ∷ Effect.stop_container "c3" "w-dead"
    ∷ [])
unfolding reap_idle_workers_once candidates reap_each reap_one worker_is_inactive newest any find?
    member update stops
messages = refl

-- A signal that raises leaves the row disabled and its id out of the answer.
lost_signal : (reap_idle_workers_once fails fleet).0 ≡ ("w-dead" ∷ [])
unfolding reap_idle_workers_once candidates reap_each reap_one worker_is_inactive newest any find?
    member update stops
lost_signal = refl

fleet-HasUniqueIds : HasUniqueIds fleet.workers
unfolding any
fleet-HasUniqueIds = unique_of_fresh fleet.workers (refl, (refl, (refl, (refl, (refl, tt)))))

workers-reap_idle_workers_once_example :
    (reap_idle_workers_once fails fleet).1.workers
    ≡ update (is_due fails) (disabled_at 1000) fleet.workers
workers-reap_idle_workers_once_example =
    workers-reap_idle_workers_once fails fleet fleet-HasUniqueIds

worker_is_inactive_lem_example : worker_is_inactive 1000 100 1000 tables "w-idle" ≡ (
    not (any (holds_alive 1000 "w-idle") tables.tasks)
    && not (any (keeps_busy "w-idle") tables.agents)
    && not (any (is_recent_log 100 1000 "w-idle") tables.task_logs))
worker_is_inactive_lem_example = worker_is_inactive_lem 1000 100 1000 tables "w-idle"

-- The worker answers for two polls and then goes offline.
abbrev leaving : ℕ → Option String
leaving zero = some "idle"
leaving (suc zero) = some "idle"
leaving (suc (suc n)) = some "offline"

abbrev deaf : ℕ → Option String
deaf n = some "working"

abbrev on_time : ℕ → ℕ
on_time k = 0

left : escalation leaving on_time (seconds 300) ≡ Outcome.graceful 2 (seconds 15)
unfolding escalation wait turn
left = refl

escalated : escalation deaf on_time (seconds 12) ≡ Outcome.killed 3 (seconds 12)
unfolding escalation wait turn
escalated = refl

escalation-Justified_example :
    Justified deaf on_time (seconds 12) 0 (escalation deaf on_time (seconds 12))
escalation-Justified_example = escalation-Justified deaf on_time (seconds 12)

second_draw : generate_worker_id fleet.workers "own" "aa" "bb" "cc" "dd" ≡ some "w-aa"
unfolding first_free any
second_draw = refl
