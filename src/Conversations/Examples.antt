-- ===== src/Conversations/Examples.antt =====
-- Conversations on concrete inputs.
use Prim.Native.String.{count as count_chars}
use mathlib.Core.List.{Memᴰ}
use pioneer_square.Shared.{
  ℕ, ◌+◌, ◌≤◌, ◌≡◌, refl, String, false, none, some, List, [], ◌∷◌, nat_eq, count, find?, filter,
  update, any, map, arith,
}
use pioneer_square.Conversations.{
  Conversation, Board, get_or_create_active_conversation, latest_conversation, newest_of, resume,
  tell, set_conversation_status,
}
use pioneer_square.Conversations.Sweep.{
  auto_archive_after, auto_close_after, sweep_conversations, sweep_conversations_once,
  is_stale_active, is_stale_archived, set_each,
}
use pioneer_square.Conversations.Swept.{HasUniqueIds, swept, conversations-sweep_conversations_once}
use pioneer_square.Conversations.Current.{
  IsAnswer, latest_conversation-IsAnswer, sweep-get_or_create_active_conversation,
}
use pioneer_square.Conversations.Names.{name_from_message, name_from_message_bound}

-- Fifteen days after the start.
abbrev today : ℕ
today = auto_close_after + auto_archive_after

abbrev conversation : ℕ → String → String → ℕ → Conversation
conversation id user_id status updated_at = record {
  id = id;
  guild_id = 1;
  user_id = some user_id;
  created_at = 0;
  updated_at = updated_at;
  name = none;
  status = status;
  discord_thread_id = none;
}

-- One that rests, one that was archived long ago, and one in use.
abbrev board : Board
board = record {
  guilds = record { id = 1; slug = "acme" } ∷ [];
  conversations =
      conversation 1 "ann" "active" 0
      ∷ conversation 2 "bob" "archived" 0
      ∷ conversation 3 "ann" "active" today
      ∷ [];
  notices = [];
}

abbrev statuses : Board → List String
statuses b = map (λ (c : Conversation). c.status) b.conversations

one_of_each : (sweep_conversations (today + 1) "acme" [] board).0 ≡ (1, 1)
unfolding sweep_conversations sweep_conversations_once find? filter is_stale_active
    is_stale_archived any
one_of_each = refl

both_swept :
    statuses (sweep_conversations (today + 1) "acme" [] board).1
    ≡ "archived" ∷ "closed" ∷ "active" ∷ []
unfolding sweep_conversations sweep_conversations_once find? filter is_stale_active
    is_stale_archived any set_each set_conversation_status tell update
both_swept = refl

unknown_guild : (sweep_conversations (today + 1) "other" [] board).0 ≡ (0, 0)
unfolding sweep_conversations find?
unknown_guild = refl

board-HasUniqueIds : HasUniqueIds board.conversations
unfolding count
board-HasUniqueIds id = ground arith

conversations-sweep_conversations_once_example :
    (sweep_conversations_once (today + 1) 1 [] board).1.conversations
    ≡ map (swept (today + 1) 1 []) board.conversations
conversations-sweep_conversations_once_example =
    conversations-sweep_conversations_once (today + 1) 1 [] board board-HasUniqueIds

resumed-HasUniqueIds :
    HasUniqueIds
      (get_or_create_active_conversation today 4 1 "bob"
        (some " hello  there ")
        false
        board).2.conversations
unfolding get_or_create_active_conversation latest_conversation newest_of filter resume tell find?
    update count
resumed-HasUniqueIds id = ground arith

sweep-get_or_create_active_conversation_example :
    let (c, created, after) =
      get_or_create_active_conversation today 4 1 "bob" (some " hello  there ") false board in
    Memᴰ c (sweep_conversations_once (today + 5) 1 [] after).1.conversations
sweep-get_or_create_active_conversation_example =
    sweep-get_or_create_active_conversation today (today + 5) 4 1 "bob" (some " hello  there ")
      false [] board (omega arith) resumed-HasUniqueIds

words_joined : name_from_message (some " hello  there ") ≡ some "hello there"
unfolding name_from_message
words_joined = refl

name_from_message_bound_example : (1 ≤ count_chars "hello there") × (count_chars "hello there" ≤ 80)
name_from_message_bound_example =
    name_from_message_bound (some " hello  there ") "hello there" words_joined

latest_conversation-IsAnswer_example :
    IsAnswer 1 "ann" board.conversations (latest_conversation 1 "ann" board.conversations)
latest_conversation-IsAnswer_example = latest_conversation-IsAnswer 1 "ann" board.conversations
