-- ===== src/Conversations/Swept.antt =====
-- What a sweep makes of the conversations.
use mathlib.Core.List.{Memᴰ}
use pioneer_square.Shared.{
  ℕ, ◌≤◌, ◌≡◌, refl, sym, ap, ◌∙◌, String, Bool, true, false, ◌&&◌, List, [], ◌∷◌, ◌==◌, string_eq,
  nat_eq, any, filter, count, update, if◌then◌else◌, arith, any-filter, any-own_unique, update_none,
  update-update, any_congr, eq_of_==, map,
}
use pioneer_square.Tools.{TaskRow}
use pioneer_square.Conversations.{
  Conversation, Board, ConversationNotice, tell, save, updated_notice, with_status,
  set_conversation_status,
}
use pioneer_square.Conversations.Sweep.{
  is_stale_active, is_stale_archived, set_each, sweep_conversations_once,
}

pub conversations-tell :
    (notice : String → Conversation → ConversationNotice) (c : Conversation) (board : Board)
    → (tell notice c board).conversations ≡ board.conversations
unfolding tell
conversations-tell notice c board = ground arith

abbrev is_among : List Conversation → Conversation → Bool
is_among cs r = any (λ (c : Conversation). r.id == c.id) cs

set_each-update :
    (now : ℕ) (status : String) (cs : List Conversation) (board : Board)
    → (set_each now status cs board).conversations
      ≡ update (is_among cs) (with_status now status) board.conversations
unfolding set_each set_conversation_status any
set_each-update now status [] board =
    sym (update_none (λ r. false) (with_status now status) board.conversations (λ r. refl))
set_each-update now status (c ∷ cs) board =
    set_each-update now status cs (set_conversation_status now status c board)
    ∙ ap (update (is_among cs) (with_status now status)) (
        conversations-tell updated_notice (with_status now status c)
          (save c.id (with_status now status) board))
    ∙ update-update (λ (r : Conversation). r.id == c.id) (is_among cs) (with_status now status)
        board.conversations (λ r. refl) (λ r. refl)

-- A change after another, row by row.
updates-map :
    (p q : Conversation → Bool) (f g h : Conversation → Conversation) (rows : List Conversation)
    → ((r : Conversation) → q (f r) ≡ q r)
    → ((r : Conversation)
        → Memᴰ r rows
        → (let made = if p r then f r else r in if q r then g made else made) ≡ h r)
    → update q g (update p f rows) ≡ map h rows
unfolding update
updates-map p q f g h [] keep row = refl
updates-map p q f g h (r ∷ rows) keep row = ground (
  arith,
  keep r,
  row r (Memᴰ.head refl),
  updates-map p q f g h rows keep (λ c m. row c (Memᴰ.tail m)),
)

abbrev pub HasUniqueIds : List Conversation → Type 0
HasUniqueIds rows = (id : ℕ) → count (λ (c : Conversation). c.id == id) rows ≤ 1

-- Among the rows that a query chose, a row is found by its id when the query chose it.
is_among-filter :
    (p : Conversation → Bool) (rows : List Conversation) (r : Conversation)
    → Memᴰ r rows
    → HasUniqueIds rows
    → is_among (filter p rows) r ≡ p r
is_among-filter p rows r m unique =
    any-filter (λ (c : Conversation). r.id == c.id) p rows
    ∙ any_congr _ (λ (c : Conversation). p c && c.id == r.id) rows (λ c. ground arith)
    ∙ any-own_unique p (λ (c : Conversation). c.id == r.id) m (ground arith) (unique r.id)

-- What a sweep makes of one conversation.
abbrev pub swept : ℕ → ℕ → List TaskRow → Conversation → Conversation
swept now guild_pk tasks c =
    if is_stale_active now guild_pk tasks c
    then with_status now "archived" c
    else if is_stale_archived now guild_pk c
    then with_status now "closed" c
    else c

not_archived : (c : Conversation) → (c.status == "active") ≡ true → (c.status == "archived") ≡ false
not_archived c active = let at : c.status ≡ "active" = eq_of_== active in rw at refl

swept_lem :
    (now guild_pk : ℕ) (tasks : List TaskRow) (c : Conversation) (p q : Bool)
    → p ≡ is_stale_active now guild_pk tasks c
    → q ≡ is_stale_archived now guild_pk c
    → (let made = if p then with_status now "archived" c else c in
        if q then with_status now "closed" made else made)
      ≡ swept now guild_pk tasks c
unfolding is_stale_active is_stale_archived
swept_lem now guild_pk tasks c p q e e2 = ground (arith, e, e2, not_archived c)

-- A sweep archives exactly the active conversations of the guild that rest without an unfinished
-- task, closes exactly the archived ones that have rested long enough, all as they stood when it
-- started, and leaves the others alone, when the ids of the conversations are unique.
pub conversations-sweep_conversations_once :
    (now guild_pk : ℕ) (tasks : List TaskRow) (board : Board)
    → HasUniqueIds board.conversations
    → (sweep_conversations_once now guild_pk tasks board).1.conversations
      ≡ map (swept now guild_pk tasks) board.conversations
unfolding sweep_conversations_once
conversations-sweep_conversations_once now guild_pk tasks board unique =
    let resting = filter (is_stale_active now guild_pk tasks) board.conversations in
    let over = filter (is_stale_archived now guild_pk) board.conversations in
    set_each-update now "closed" over (set_each now "archived" resting board)
    ∙ ap (update (is_among over) (with_status now "closed"))
        (set_each-update now "archived" resting board)
    ∙ updates-map (is_among resting) (is_among over) (with_status now "archived")
        (with_status now "closed") (swept now guild_pk tasks) board.conversations (λ r. refl)
        (λ r m.
          swept_lem now guild_pk tasks r (is_among resting r) (is_among over r)
            (is_among-filter (is_stale_active now guild_pk tasks) board.conversations r m unique)
            (is_among-filter (is_stale_archived now guild_pk) board.conversations r m unique))
