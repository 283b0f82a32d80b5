-- ===== src/Workers/Spawning.antt =====
-- The spawn bookkeeping of backend/worker_lifecycle.py: ids, the record of a spawn, the cooldown,
-- the guild's defaults and the signal to a worker of another version. `json.dumps` of the lists
-- is left out: the row holds the lists.
pub mod Cooldown
pub mod Ids
use Prim.Native.String.{◌++◌}
use pioneer_square.Shared.{
  ℕ, ◌+◌, ◌-◌, zero, suc, String, Bool, true, false, not, ◌&&◌, ◌||◌, Option, none, some, List, [],
  ◌∷◌, ltb, ◌==◌, ◌!=◌, string_eq, nat_eq, if◌then◌else◌, any, find?, update,
}
use pioneer_square.Workers.{Worker, Effect}
use pioneer_square.Workers.Reaper.{has_id}

-- `draws` are the suffixes that `token_hex` yields: five of them are tried.
unfoldable pub first_free : List Worker → List String → Option String
first_free workers [] = none
first_free workers (draw ∷ draws) =
    let rest = first_free workers draws in
    if any (has_id ("w-" ++ draw)) workers then rest else some ("w-" ++ draw)

abbrev pub generate_worker_id :
    List Worker → String → String → String → String → String → Option String
generate_worker_id workers a b c d e = first_free workers (a ∷ b ∷ c ∷ d ∷ e ∷ [])

abbrev pub spawned_at : ℕ → Option String → String → Worker → Worker
spawned_at now version container_id w = record w {
  container_id = some container_id;
  spawned_version = version;
  started_at = some now;
}

unfoldable pub record_worker_spawn : ℕ → Option String → String → String → List Worker → List Worker
record_worker_spawn now version worker_id container_id workers =
    update (has_id worker_id) (spawned_at now version container_id) workers

abbrev pub latest : Option ℕ → Option ℕ → Option ℕ
latest none b = b
latest (some a) none = some a
latest (some a) (some b) = if ltb a b then some b else some a

-- SELECT max(started_at) WHERE guild_id = guild_pk
unfoldable pub last_spawn : ℕ → List Worker → Option ℕ
last_spawn guild_pk [] = none
last_spawn guild_pk (w ∷ ws) =
    let rest = last_spawn guild_pk ws in
    if w.guild_id == guild_pk then latest w.started_at rest else rest

-- `cooldown - (now - last)` when it is positive.
abbrev pub remaining : ℕ → ℕ → Option ℕ → Option ℕ
remaining cooldown now none = none
remaining cooldown now (some last) =
    if ltb now (last + cooldown) then some (last + cooldown - now) else none

unfoldable pub check_worker_spawn_cooldown : ℕ → ℕ → ℕ → List Worker → Option ℕ
check_worker_spawn_cooldown cooldown now guild_pk workers =
    remaining cooldown now (last_spawn guild_pk workers)

pub record GuildSpawnDefaults : Type 0 where
  pub guild_id : ℕ
  pub repos : List String
  pub tools : List String
  pub agent_count : Option ℕ
  pub updated_at : ℕ

unfoldable pub get_guild_spawn_defaults : ℕ → List GuildSpawnDefaults → Option GuildSpawnDefaults
get_guild_spawn_defaults guild_pk rows = find? (λ r. r.guild_id == guild_pk) rows

abbrev pub with_defaults :
    List String → List String → Option ℕ → GuildSpawnDefaults → GuildSpawnDefaults
with_defaults repos tools agent_count r = record r {
  repos = repos;
  tools = tools;
  agent_count = agent_count;
}

-- INSERT ... ON CONFLICT (guild_id) DO UPDATE
unfoldable pub set_guild_spawn_defaults :
    ℕ → ℕ → List String → List String → Option ℕ → List GuildSpawnDefaults → List GuildSpawnDefaults
set_guild_spawn_defaults now guild_pk repos tools agent_count rows =
    if any (λ r. r.guild_id == guild_pk) rows
    then update (λ r. r.guild_id == guild_pk) (with_defaults repos tools agent_count) rows
    else record {
      guild_id = guild_pk;
      repos = repos;
      tools = tools;
      agent_count = agent_count;
      updated_at = now;
    }
      ∷ rows

abbrev is_newborn : ℕ → ℕ → Option ℕ → Bool
is_newborn min_age now none = false
is_newborn min_age now (some at) = ltb now (at + min_age)

-- `current` is the version of the backend.
unfoldable pub signal_stale_worker_on_join :
    ℕ → ℕ → Option String → String → String → Option String → Option ℕ → Bool × List Effect
signal_stale_worker_on_join min_age now current guild_slug worker_id none started_at = (false, [])
signal_stale_worker_on_join min_age now none guild_slug worker_id (some version) started_at =
    (false, [])
signal_stale_worker_on_join min_age now (some current) guild_slug worker_id (some version)
      started_at =
    if version == "" || version == current || is_newborn min_age now started_at
    then (false, [])
    else (true, Effect.outdated guild_slug worker_id ∷ [])
