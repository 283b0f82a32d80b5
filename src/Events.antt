-- ===== src/Events.antt =====
-- backend/events.py: the sockets of a guild and what is broadcast to them. A socket is a number; the
-- sockets on which a send raises are a test, and no socket joins or leaves during a broadcast.
pub mod Broadcast
mod Examples
use pioneer_square.Shared.{
  ℕ, String, Bool, true, false, not, ◌&&◌, Option, none, some, List, [], ◌∷◌, ◌++◌, map, ◌==◌,
  string_eq, nat_eq, sql_eq, filter, find?, if◌then◌else◌, Dict, get, set,
}
use pioneer_square.Workers.{Agent}

-- `connections`, and each text that was sent with its socket.
pub record Sockets : Type 0 where
  pub connections : Dict (List ℕ)
  pub sent : List (ℕ × String)

unfoldable pub remove_socket : ℕ → List ℕ → List ℕ
remove_socket ws [] = []
remove_socket ws (x ∷ xs) = let rest = remove_socket ws xs in if x == ws then xs else x ∷ rest

unfoldable pub remove_each : List ℕ → List ℕ → List ℕ
remove_each [] xs = xs
remove_each (ws ∷ dead) xs = remove_each dead (remove_socket ws xs)

abbrev pub is_addressed : Option ℕ → ℕ → Bool
is_addressed exclude ws = not (sql_eq exclude ws)

-- The loop: what was sent, and the sockets whose send raised.
unfoldable pub send_each : (ℕ → Bool) → Option ℕ → String → List ℕ → List (ℕ × String) × List ℕ
send_each fails exclude text [] = ([], [])
send_each fails exclude text (ws ∷ rest) =
    let (sent, dead) = send_each fails exclude text rest in
    if not (is_addressed exclude ws)
    then (sent, dead)
    else if fails ws
    then (sent, ws ∷ dead)
    else ((ws, text) ∷ sent, dead)

abbrev pub broadcast_to :
    (ℕ → Bool) → String → String → Option ℕ → Option (List ℕ) → Sockets → Sockets
broadcast_to fails guild_id text exclude none sockets = sockets
broadcast_to fails guild_id text exclude (some members) sockets =
    let (sent, dead) = send_each fails exclude text members in
    record sockets {
      connections = set guild_id (remove_each dead members) sockets.connections;
      sent = sockets.sent ++ sent;
    }

unfoldable pub broadcast : (ℕ → Bool) → String → String → Option ℕ → Sockets → Sockets
broadcast fails guild_id text exclude sockets =
    broadcast_to fails guild_id text exclude (get guild_id sockets.connections) sockets

-- The log line that `emit_terminal_line` inserts: the time, the text, the worker and the agent.
pub record LogLine : Type 0 where
  pub timestamp : ℕ
  pub line : String
  pub worker_id : Option String
  pub agent_id : String

abbrev pub worker_of_agent : Option Agent → Option String
worker_of_agent none = none
worker_of_agent (some a) = a.worker_id

-- `text` is the serialised message.
unfoldable pub emit_terminal_line :
    ℕ
    → (ℕ → Bool)
    → String
    → String
    → String
    → String
    → List Agent
    → List LogLine
    → Sockets
    → List LogLine × Sockets
emit_terminal_line now fails guild_id agent_id line text agents logs sockets =
    let after = broadcast fails guild_id text none sockets in
    if line == "" then (logs, after) else (
      logs
          ++ record {
            timestamp = now;
            line = line;
            worker_id = worker_of_agent (find? (λ (a : Agent). a.id == agent_id) agents);
            agent_id = agent_id;
          }
            ∷ [],
      after,
    )
