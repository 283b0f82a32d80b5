-- ===== src/Runner/Poll.antt =====
-- The poll loops of backend/foreman/runner.py, for one guild: their registry, their intervals, and
-- what resets them. Seconds are whole, and a guild's `poll_max_interval` is not negative.
pub mod Single
pub mod Backoff
use Prim.Native.Nat.{min}
use pioneer_square.Shared.{
  ℕ, suc, ◌*◌, ◌-◌, String, Bool, true, false, not, ◌&&◌, ◌||◌, Option, none, some, List, [], ◌∷◌,
  ◌++◌, leb, length, any, update, ◌==◌, nat_eq, string_eq, option_eq, if◌then◌else◌,
}

abbrev pub poll_min_secs : ℕ
poll_min_secs = 300

abbrev pub poll_max_secs : ℕ
poll_max_secs = 86400

-- An item of `_guild_locks`.
pub record GuildRunLock : Type 0 where
  pub guild_id : String
  pub user_id : Option String
  pub busy : Bool

-- A task that runs `_poll_loop`. A task that was cancelled, or that returned, is not alive.
pub record PollLoop : Type 0 where
  pub serial : ℕ
  pub interval : ℕ
  pub is_alive : Bool

-- `registered` is the guild's entry of `_poll_tasks`; `loops` are all tasks that were ever spawned.
pub record Polling : Type 0 where
  pub loops : List PollLoop
  pub registered : Option ℕ
  pub last_action_at : Option ℕ

-- `_guild_active_recently`; `now` is not before the last action.
unfoldable pub guild_active_recently : ℕ → Option ℕ → Bool
guild_active_recently now none = false
guild_active_recently now (some ts) = leb (now - ts) poll_min_secs

unfoldable pub record_guild_action : ℕ → Polling → Polling
record_guild_action now s = record s { last_action_at = some now }

abbrev pub is_registered : Option ℕ → PollLoop → Bool
is_registered registered loop = some loop.serial == registered

-- `spawn(_poll_loop(guild_id))`, put into the registry.
unfoldable pub spawn_poll_loop : Polling → Polling
spawn_poll_loop s = record s {
  loops =
      s.loops ++ record { serial = length s.loops; interval = poll_min_secs; is_alive = true } ∷ [];
  registered = some (length s.loops);
}

-- Whether there is a registered task that is not done.
abbrev pub has_loop : Polling → Bool
has_loop s = any (λ loop. is_registered s.registered loop && loop.is_alive) s.loops

unfoldable pub ensure_poll_loop : Polling → Polling
ensure_poll_loop s = if has_loop s then s else spawn_poll_loop s

abbrev pub stopped : PollLoop → PollLoop
stopped loop = record loop { is_alive = false }

-- `old.cancel()`
unfoldable pub cancel_registered : Polling → Polling
cancel_registered s = record s { loops = update (is_registered s.registered) stopped s.loops }

abbrev pub is_in_flight : String → List GuildRunLock → Bool
is_in_flight guild locks = any (λ lock. lock.guild_id == guild && lock.busy) locks

unfoldable pub reset_foreman_poll : String → List GuildRunLock → ℕ → Polling → Polling
reset_foreman_poll guild locks now s =
    if is_in_flight guild locks
    then s
    else if guild_active_recently now s.last_action_at
    then spawn_poll_loop (cancel_registered s)
    else ensure_poll_loop s

-- The interval that `_poll_loop_once` returns.
abbrev pub next_interval : ℕ → ℕ → ℕ
next_interval interval poll_max = min (interval * 2) poll_max

-- What a cycle comes to: `_poll_loop_once` returned, with the ceiling that the guild's configuration
-- had then, or it raised, and the interval stays.
abbrev pub interval_after : ℕ → Option ℕ → ℕ
interval_after interval (some poll_max) = next_interval interval poll_max
interval_after interval none = interval

-- The sleep of the loop `serial` ends: a loop that was superseded returns, the other does its cycle.
unfoldable pub poll_loop : ℕ → Option ℕ → Polling → Polling
poll_loop serial cycle s =
    if s.registered == some serial
    then record s {
      loops =
          update (λ loop. loop.serial == serial)
            (λ loop. record loop { interval = interval_after loop.interval cycle }) s.loops;
    }
    else record s { loops = update (λ loop. loop.serial == serial) stopped s.loops }

-- What happens to the poll of a guild.
pub data PollEvent : Type 0 where
  ensured : PollEvent
  reset : String → List GuildRunLock → ℕ → PollEvent
  acted : ℕ → PollEvent
  woke : ℕ → Option ℕ → PollEvent

unfoldable pub poll_event : PollEvent → Polling → Polling
poll_event PollEvent.ensured s = ensure_poll_loop s
poll_event (PollEvent.reset guild locks now) s = reset_foreman_poll guild locks now s
poll_event (PollEvent.acted now) s = record_guild_action now s
poll_event (PollEvent.woke serial cycle) s = poll_loop serial cycle s

unfoldable pub poll_events : List PollEvent → Polling → Polling
poll_events [] s = s
poll_events (event ∷ events) s = poll_events events (poll_event event s)
