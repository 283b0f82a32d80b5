-- ===== src/Conversations/Sweep.antt =====
-- backend/foreman/conversation_maintenance.py: conversations that rest are archived, and archived
-- ones are closed in the end. `now - duration` is compared by moving the duration.
use pioneer_square.Shared.{
  ℕ, ◌+◌, ◌*◌, String, Bool, not, ◌&&◌, Option, none, some, List, [], ◌∷◌, ltb, ◌==◌, string_eq,
  nat_eq, sql_eq, any, filter, length, hours,
}
use pioneer_square.Tasks.{is_terminal, is_live}
use pioneer_square.Tools.{TaskRow}
use pioneer_square.Conversations.{Conversation, Board, guild_pk_of, set_conversation_status}

-- The defaults of the two settings: 24 hours, and 14 days.
abbrev pub auto_archive_after : ℕ
auto_archive_after = hours 24

abbrev pub auto_close_after : ℕ
auto_close_after = hours (14 * 24)

-- An unfinished task of the conversation.
abbrev pub is_unfinished : ℕ → ℕ → TaskRow → Bool
is_unfinished now conversation_id row =
    sql_eq row.conversation_id conversation_id
    && not (is_terminal row.task.state)
    && is_live now row.task

-- The two queries.
unfoldable pub is_stale_active : ℕ → ℕ → List TaskRow → Conversation → Bool
is_stale_active now guild_pk tasks c =
    c.guild_id == guild_pk
    && c.status == "active"
    && ltb (c.updated_at + auto_archive_after) now
    && not (any (is_unfinished now c.id) tasks)

unfoldable pub is_stale_archived : ℕ → ℕ → Conversation → Bool
is_stale_archived now guild_pk c =
    c.guild_id == guild_pk && c.status == "archived" && ltb (c.updated_at + auto_close_after) now

unfoldable pub set_each : ℕ → String → List Conversation → Board → Board
set_each now status [] board = board
set_each now status (c ∷ rest) board =
    set_each now status rest (set_conversation_status now status c board)

-- `now` stands for each instant that one sweep takes from the clock.
unfoldable pub sweep_conversations_once : ℕ → ℕ → List TaskRow → Board → (ℕ × ℕ) × Board
sweep_conversations_once now guild_pk tasks board =
    let stale_active = filter (is_stale_active now guild_pk tasks) board.conversations in
    let stale_archived = filter (is_stale_archived now guild_pk) board.conversations in
    (
      (length stale_active, length stale_archived),
      set_each now "closed" stale_archived (set_each now "archived" stale_active board),
    )

abbrev pub sweep_guild : ℕ → List TaskRow → Option ℕ → Board → (ℕ × ℕ) × Board
sweep_guild now tasks none board = ((0, 0), board)
sweep_guild now tasks (some guild_pk) board = sweep_conversations_once now guild_pk tasks board

unfoldable pub sweep_conversations : ℕ → String → List TaskRow → Board → (ℕ × ℕ) × Board
sweep_conversations now guild_id tasks board =
    sweep_guild now tasks (guild_pk_of board guild_id) board
