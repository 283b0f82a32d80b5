-- ===== src/Conversations.antt =====
-- backend/foreman/conversation_service.py: the conversations of a guild's users, their status and
-- what the frontend is told. Each function is one transaction; the id of a row that is inserted is an
-- argument, and a conversation that is passed in is its row as it stands. The mirroring to Discord, which never fails a call, is left out, and so is a broadcast
-- that fails and is only logged.
pub mod Names
pub mod Sweep
pub mod Current
pub mod Swept
mod Examples
use pioneer_square.Shared.{
  ℕ, String, Bool, true, false, not, ◌&&◌, ◌||◌, Option, none, some, List, [], ◌∷◌, ◌++◌, ltb, ◌==◌,
  ◌!=◌, string_eq, nat_eq, sql_eq, any, filter, find?, update, if◌then◌else◌,
}
use pioneer_square.Workers.{Guild}
use pioneer_square.Tools.{TaskRow}
use pioneer_square.Conversations.Names.{name_from_message}

pub record Conversation : Type 0 where
  pub id : ℕ
  pub guild_id : ℕ
  pub user_id : Option String
  pub created_at : ℕ
  pub updated_at : ℕ
  pub name : Option String
  pub status : String
  pub discord_thread_id : Option String

-- What the frontend is told.
pub data ConversationNotice : Type 0 where
  conversation_created :
      String → ℕ → Option String → Option String → String → ℕ → ConversationNotice
  conversation_updated : String → ℕ → Option String → String → Option String → ConversationNotice

pub record Board : Type 0 where
  pub guilds : List Guild
  pub conversations : List Conversation
  pub notices : List ConversationNotice

abbrev found_slug : Option Guild → String
found_slug none = ""
found_slug (some g) = g.slug

abbrev pub slug_of_guild : Board → ℕ → String
slug_of_guild board guild_pk = found_slug (find? (λ (g : Guild). g.id == guild_pk) board.guilds)

abbrev pub created_notice : String → Conversation → ConversationNotice
created_notice to c =
    ConversationNotice.conversation_created to c.id c.user_id c.name c.status c.created_at

abbrev pub updated_notice : String → Conversation → ConversationNotice
updated_notice to c =
    ConversationNotice.conversation_updated to c.id c.name c.status c.discord_thread_id

-- Nobody is told when the guild has no slug.
unfoldable pub tell : (String → Conversation → ConversationNotice) → Conversation → Board → Board
tell notice c board =
    if slug_of_guild board c.guild_id == ""
    then board
    else record board { notices = board.notices ++ notice (slug_of_guild board c.guild_id) c ∷ [] }

abbrev pub owned : ℕ → String → Conversation → Bool
owned guild_pk user_id c = c.guild_id == guild_pk && sql_eq c.user_id user_id

-- The first of the rows that were updated last.
abbrev pub later_of : Conversation → Option Conversation → Conversation
later_of c none = c
later_of c (some best) = if ltb c.updated_at best.updated_at then best else c

unfoldable pub newest_of : List Conversation → Option Conversation
newest_of [] = none
newest_of (c ∷ rows) = some (later_of c (newest_of rows))

unfoldable pub latest_conversation : ℕ → String → List Conversation → Option Conversation
latest_conversation guild_pk user_id rows = newest_of (filter (owned guild_pk user_id) rows)

-- The row that `create_conversation` inserts.
abbrev pub new_conversation : ℕ → ℕ → ℕ → Option String → Option String → Conversation
new_conversation now fresh guild_pk user_id name = record {
  id = fresh;
  guild_id = guild_pk;
  user_id = user_id;
  created_at = now;
  updated_at = now;
  name = name;
  status = "active";
  discord_thread_id = none;
}

unfoldable pub create_conversation :
    ℕ → ℕ → ℕ → Option String → Option String → Board → Conversation × Board
create_conversation now fresh guild_pk user_id name board =
    let c = new_conversation now fresh guild_pk user_id name in
    (c, tell created_notice c (record board { conversations = board.conversations ++ c ∷ [] }))

abbrev pub or_create : ℕ → ℕ → ℕ → String → Option Conversation → Board → Conversation × Board
or_create now fresh guild_pk user_id none board =
    create_conversation now fresh guild_pk (some user_id) none board
or_create now fresh guild_pk user_id (some c) board = (c, board)

unfoldable pub get_or_create_conversation : ℕ → ℕ → ℕ → String → Board → Conversation × Board
get_or_create_conversation now fresh guild_pk user_id board =
    or_create now fresh guild_pk user_id (latest_conversation guild_pk user_id board.conversations)
      board

-- The UPDATE of the changed columns that a commit makes.
abbrev pub save : ℕ → (Conversation → Conversation) → Board → Board
save id change board = record board {
  conversations = update (λ (r : Conversation). r.id == id) change board.conversations;
}

abbrev pub name_or_hint : Option String → Option String → Option String
name_or_hint none hint = hint
name_or_hint (some name) hint = some name

-- The user's conversation goes on.
abbrev pub resumed : ℕ → Option String → Conversation → Conversation
resumed now hint c = record c {
  status = "active";
  name = name_or_hint c.name hint;
  updated_at = now;
}

unfoldable pub resume : ℕ → Option String → Conversation → Board → Board
resume now hint c board =
    let saved =
      save c.id
        (λ (r : Conversation). record r {
          status = "active";
          name = name_or_hint c.name hint;
          updated_at = now;
        })
        board in
    if c.status != "active" then tell updated_notice (resumed now hint c) saved else saved

abbrev pub resume_or_create :
    ℕ → ℕ → ℕ → String → Option String → Option Conversation → Board → Conversation × Bool × Board
resume_or_create now fresh guild_pk user_id hint none board =
    let (c, after) = create_conversation now fresh guild_pk (some user_id) hint board in
    (c, true, after)
resume_or_create now fresh guild_pk user_id hint (some c) board =
    (resumed now hint c, false, resume now hint c board)

-- Returns whether the conversation was created, too.
unfoldable pub get_or_create_active_conversation :
    ℕ → ℕ → ℕ → String → Option String → Bool → Board → Conversation × Bool × Board
get_or_create_active_conversation now fresh guild_pk user_id name_hint force_new board =
    resume_or_create now fresh guild_pk user_id (name_from_message name_hint)
      (if force_new then none else latest_conversation guild_pk user_id board.conversations) board

unfoldable pub reactivate_conversation : ℕ → Conversation → Board → Board
reactivate_conversation now c board = resume now c.name c board

abbrev pub with_status : ℕ → String → Conversation → Conversation
with_status now status c = record c { status = status; updated_at = now }

unfoldable pub set_conversation_status : ℕ → String → Conversation → Board → Board
set_conversation_status now status c board =
    tell updated_notice (with_status now status c) (save c.id (with_status now status) board)

unfoldable pub close_conversation : ℕ → Conversation → Board → Board
close_conversation now c board = set_conversation_status now "closed" c board

unfoldable pub rename_conversation : ℕ → String → Conversation → Board → Board
rename_conversation now name c board =
    let change = λ (r : Conversation). record r { name = some name; updated_at = now } in
    tell updated_notice (change c) (save c.id change board)

unfoldable pub touch_conversation : ℕ → Conversation → Board → Board
touch_conversation now c board =
    save c.id (λ (r : Conversation). record r { updated_at = now }) board

abbrev pub pk_of : Option Guild → Option ℕ
pk_of none = none
pk_of (some g) = some g.id

abbrev pub guild_pk_of : Board → String → Option ℕ
guild_pk_of board guild_id = pk_of (find? (λ (g : Guild). g.slug == guild_id) board.guilds)

abbrev pub close_found : ℕ → Option Conversation → Board → Board
close_found now none board = board
close_found now (some c) board = close_conversation now c board

abbrev pub close_in : ℕ → String → Option ℕ → Board → Board
close_in now user_id none board = board
close_in now user_id (some guild_pk) board =
    close_found now
      (newest_of
        (filter (λ c. owned guild_pk user_id c && c.status == "active") board.conversations))
      board

unfoldable pub close_active_conversation_for_user : ℕ → String → String → Board → Board
close_active_conversation_for_user now guild_slug user_id board =
    close_in now user_id (guild_pk_of board guild_slug) board

abbrev pub conversation_of_user : ℕ → ℕ → ℕ → Option String → Board → Option ℕ × Board
conversation_of_user now fresh guild_pk none board = (none, board)
conversation_of_user now fresh guild_pk (some user_id) board =
    if user_id == ""
    then (none, board)
    else (let (c, after) = get_or_create_conversation now fresh guild_pk user_id board in
        (some c.id, after))

abbrev pub stamped : Option TaskRow → Option ℕ
stamped none = none
stamped (some row) = row.conversation_id

abbrev pub conversation_of_task : Option String → List TaskRow → Option ℕ
conversation_of_task none tasks = none
conversation_of_task (some task_id) tasks =
    if task_id == "" then none else stamped (find? (λ (r : TaskRow). r.task.id == task_id) tasks)

abbrev pub or_user : ℕ → ℕ → ℕ → Option String → Option ℕ → Board → Option ℕ × Board
or_user now fresh guild_pk user_id (some id) board = (some id, board)
or_user now fresh guild_pk user_id none board =
    conversation_of_user now fresh guild_pk user_id board

unfoldable pub resolve_conversation_id :
    ℕ → ℕ → ℕ → Option String → Option String → List TaskRow → Board → Option ℕ × Board
resolve_conversation_id now fresh guild_pk task_id user_id tasks board =
    or_user now fresh guild_pk user_id (conversation_of_task task_id tasks) board

abbrev pub ensure_in :
    ℕ → ℕ → String → Option String → Bool → Option ℕ → Board → Option Conversation × Board
ensure_in now fresh user_id content force_new none board = (none, board)
ensure_in now fresh user_id content force_new (some guild_pk) board =
    let (c, created, after) =
      get_or_create_active_conversation now fresh guild_pk user_id content force_new board in
    (some c, after)

unfoldable pub ensure_conversation :
    ℕ → ℕ → String → String → Option String → Bool → Board → Option Conversation × Board
ensure_conversation now fresh guild_slug user_id content force_new board =
    ensure_in now fresh user_id content force_new (guild_pk_of board guild_slug) board

unfoldable pub get_conversation_by_discord_thread_id : ℕ → String → Board → Option Conversation
get_conversation_by_discord_thread_id guild_pk thread_id board =
    find? (λ (c : Conversation). c.guild_id == guild_pk && sql_eq c.discord_thread_id thread_id)
      board.conversations
