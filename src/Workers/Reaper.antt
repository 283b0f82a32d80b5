-- ===== src/Workers/Reaper.antt =====
-- `reap_idle_workers_once` of backend/worker_lifecycle.py. An effect that raises is one that
-- `delivers` does not deliver: the handler of the loop then goes on with the next candidate.
pub mod Sweep
pub mod Reported
use pioneer_square.Shared.{
  ℕ, ◌+◌, zero, suc, String, Bool, true, false, not, ◌&&◌, ◌||◌, Option, none, some, List, [], ◌∷◌,
  ◌++◌, ltb, ◌==◌, ◌!=◌, string_eq, nat_eq, if◌then◌else◌, find?, filter, update,
}
use pioneer_square.Workers.{Worker, Guild, Tables, Effect, is_set, is_old, worker_is_inactive}

-- One row of the candidate query.
pub record Candidate : Type 0 where
  pub worker_id : String
  pub state : String
  pub last_seen : Option ℕ
  pub guild_slug : String

-- What the pass writes.
pub record Reaping : Type 0 where
  pub workers : List Worker
  pub sent : List Effect

-- The instants and the environment of one pass.
pub record Pass : Type 0 where
  pub timeout : ℕ
  pub now : ℕ
  pub clock : ℕ
  pub tables : Tables
  pub delivers : Effect → Bool

abbrev pub started_before : ℕ → ℕ → Option ℕ → Bool
started_before timeout now none = false
started_before timeout now (some at) = ltb (at + timeout) now

abbrev pub is_candidate : Pass → Worker → Bool
is_candidate pass w =
    is_set w.container_id && not w.disabled && started_before pass.timeout pass.now w.started_at

abbrev pub with_slug : Worker → Option Guild → List Candidate → List Candidate
with_slug w none rest = rest
with_slug w (some g) rest =
    record { worker_id = w.id; state = w.state; last_seen = w.last_seen; guild_slug = g.slug }
    ∷ rest

-- The join with the guilds; a guild's id is its primary key.
unfoldable pub candidates : Pass → List Worker → List Candidate
candidates pass [] = []
candidates pass (w ∷ ws) =
    let rest = candidates pass ws in
    if is_candidate pass w
    then with_slug w (find? (λ g. g.id == w.guild_id) pass.tables.guilds) rest
    else rest

abbrev pub has_id : String → Worker → Bool
has_id worker_id w = w.id == worker_id

abbrev pub disabled_at : ℕ → Worker → Worker
disabled_at now w = record w { disabled = true; drain_requested_at = some now }

abbrev pub disable : ℕ → String → Reaping → Reaping
disable now worker_id r = record r {
  workers = update (has_id worker_id) (disabled_at now) r.workers;
}

abbrev pub send : Effect → Reaping → Reaping
send effect r = record r { sent = r.sent ++ effect ∷ [] }

-- The containers of the rows with the id; an exception of the runtime is caught there.
unfoldable pub stops : String → List Worker → List Effect
stops worker_id [] = []
stops worker_id (w ∷ ws) =
    let rest = stops worker_id ws in
    if has_id worker_id w
    then elim w.container_id [
      | none ↦ rest
      | some handle ↦ if handle != "" then Effect.stop_container handle w.id ∷ rest else rest
    ]
    else rest

abbrev pub force_kill_containers : String → Reaping → Reaping
force_kill_containers worker_id r = record r { sent = r.sent ++ stops worker_id r.workers }

-- The signal, the terminal line and the backstop.
abbrev pub announce : Pass → Candidate → Reaping → Bool × Reaping
announce pass c r =
    if not (pass.delivers (Effect.shutdown c.guild_slug c.worker_id))
    then (false, r)
    else if not (pass.delivers (Effect.terminal_line c.guild_slug c.worker_id))
    then (false, send (Effect.shutdown c.guild_slug c.worker_id) r)
    else (
      true,
      send (Effect.escalate c.worker_id) (
          send (Effect.terminal_line c.guild_slug c.worker_id)
            (send (Effect.shutdown c.guild_slug c.worker_id) r)),
    )

abbrev pub reap_offline : Pass → Candidate → Reaping → Bool × Reaping
reap_offline pass c r =
    if not (is_old pass.timeout pass.now c.last_seen)
    then (false, r)
    else (true, force_kill_containers c.worker_id (disable pass.now c.worker_id r))

abbrev pub reap_online : Pass → Candidate → Reaping → Bool × Reaping
reap_online pass c r =
    if not (worker_is_inactive pass.clock pass.timeout pass.now pass.tables c.worker_id)
    then (false, r)
    else announce pass c (disable pass.now c.worker_id r)

unfoldable pub reap_one : Pass → Candidate → Reaping → Bool × Reaping
reap_one pass c r = if c.state == "offline" then reap_offline pass c r else reap_online pass c r

unfoldable pub reap_each : Pass → List Candidate → Reaping → List String × Reaping
reap_each pass [] r = ([], r)
reap_each pass (c ∷ cs) r =
    let one = reap_one pass c r in
    let rest = reap_each pass cs one.1 in (if one.0 then c.worker_id ∷ rest.0 else rest.0, rest.1)

-- A timeout of 0 disables the reaper.
unfoldable pub reap_idle_workers_once : Pass → Reaping → List String × Reaping
reap_idle_workers_once pass r =
    if pass.timeout == 0 then ([], r) else reap_each pass (candidates pass r.workers) r
