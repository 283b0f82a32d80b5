-- ===== src/Conversations/Current.antt =====
-- The conversation that `get_or_create_active_conversation` of
-- backend/foreman/conversation_service.py answers.
use mathlib.Core.List.{Memᴰ}
use mathlib.Core.List.Memᴰ
use pioneer_square.Shared.{
  ℕ, ◌+◌, ◌≤◌, ◌≡◌, refl, ap, ◌∙◌, String, Bool, true, false, Option, none, some, List, [], ◌∷◌,
  ◌++◌, ltb, ◌==◌, string_eq, nat_eq, filter, update, if◌then◌else◌, arith, inl, inr, subst, map,
  ◌⊎◌, All,
}
use pioneer_square.Conversations.{
  Conversation, Board, tell, created_notice, owned, later_of, newest_of, latest_conversation,
  resumed, resume, get_or_create_active_conversation, create_conversation, new_conversation,
  resume_or_create, name_or_hint,
}
use pioneer_square.Conversations.Swept.{
  conversations-tell, HasUniqueIds, swept, conversations-sweep_conversations_once,
}
use pioneer_square.Conversations.Names.{name_from_message}
use pioneer_square.Conversations.Sweep.{
  auto_archive_after, is_stale_active, is_stale_archived, sweep_conversations_once,
}
use pioneer_square.Tools.{TaskRow}

abbrev pub NoneLater : Conversation → List Conversation → Type 0
NoneLater c rows = All (λ (r : Conversation). r.updated_at ≤ c.updated_at) rows

NoneLater-trans :
    (b c : Conversation) (rows : List Conversation)
    → b.updated_at ≤ c.updated_at
    → NoneLater b rows
    → NoneLater c rows
NoneLater-trans b c [] h all = tt
NoneLater-trans b c (r ∷ rows) h all = (omega (arith, h, all.0), NoneLater-trans b c rows h all.1)

abbrev IsNewest : List Conversation → Option Conversation → Type 0
IsNewest rows none = rows ≡ []
IsNewest rows (some c) = Memᴰ c rows × NoneLater c rows

IsNewest-pick :
    (older : Bool) (c b : Conversation) (rows : List Conversation)
    → ltb c.updated_at b.updated_at ≡ older
    → IsNewest rows (some b)
    → IsNewest (c ∷ rows) (some (if older then b else c))
IsNewest-pick true c b rows is h = (Memᴰ.tail h.0, (ground (arith, is), h.1))
IsNewest-pick false c b rows is h =
    (Memᴰ.head refl, (omega arith, NoneLater-trans b c rows (ground (arith, is)) h.1))

IsNewest-cons :
    (c : Conversation) (rows : List Conversation) (best : Option Conversation)
    → IsNewest rows best
    → IsNewest (c ∷ rows) (some (later_of c best))
IsNewest-cons c rows none h = rw h (Memᴰ.head refl, (omega arith, tt))
IsNewest-cons c rows (some b) h = IsNewest-pick _ c b rows refl h

newest_of-IsNewest : (rows : List Conversation) → IsNewest rows (newest_of rows)
unfolding newest_of
newest_of-IsNewest [] = refl
newest_of-IsNewest (c ∷ rows) = IsNewest-cons c rows (newest_of rows) (newest_of-IsNewest rows)

-- A member of a list that starts with a row only when the row is kept.
Memᴰ_of_kept :
    (kept : Bool) (c r : Conversation) (rows : List Conversation)
    → Memᴰ c (if kept then r ∷ rows else rows)
    → ((kept ≡ true) × (c ≡ r)) ⊎ Memᴰ c rows
Memᴰ_of_kept true c r rows m = elim (Memᴰ.cases_cons m) [ inl e ↦ inl (refl, e) | inr n ↦ inr n ]
Memᴰ_of_kept false c r rows m = inr m

Memᴰ_of_filter :
    (p : Conversation → Bool) (c : Conversation) (rows : List Conversation)
    → Memᴰ c (filter p rows)
    → Memᴰ c rows × (p c ≡ true)
unfolding filter
Memᴰ_of_filter p c [] m = absurd (Memᴰ.not-nil m)
Memᴰ_of_filter p c (r ∷ rows) m = elim (Memᴰ_of_kept (p r) c r (filter p rows) m) [
  | inl h ↦ (Memᴰ.head h.1, ap p h.1 ∙ h.0)
  | inr n ↦ let h = Memᴰ_of_filter p c rows n in (Memᴰ.tail h.0, h.1)
]

-- A row of the user than which no row of the user is newer.
abbrev pub IsLatest : ℕ → String → List Conversation → Conversation → Type 0
IsLatest guild_pk user_id rows c =
    Memᴰ c rows
    × (owned guild_pk user_id c ≡ true)
    × NoneLater c (filter (owned guild_pk user_id) rows)

abbrev pub IsAnswer : ℕ → String → List Conversation → Option Conversation → Type 0
IsAnswer guild_pk user_id rows none = filter (owned guild_pk user_id) rows ≡ []
IsAnswer guild_pk user_id rows (some c) = IsLatest guild_pk user_id rows c

IsAnswer-IsNewest :
    (guild_pk : ℕ) (user_id : String) (rows : List Conversation) (found : Option Conversation)
    → IsNewest (filter (owned guild_pk user_id) rows) found
    → IsAnswer guild_pk user_id rows found
IsAnswer-IsNewest guild_pk user_id rows none h = h
IsAnswer-IsNewest guild_pk user_id rows (some c) h =
    let m = Memᴰ_of_filter (owned guild_pk user_id) c rows h.0 in (m.0, m.1, h.1)

-- The latest conversation of a user of a guild is one of the user's rows there, and none of those
-- was updated after it; there is none only when the user has no row there.
pub latest_conversation-IsAnswer :
    (guild_pk : ℕ) (user_id : String) (rows : List Conversation)
    → IsAnswer guild_pk user_id rows (latest_conversation guild_pk user_id rows)
unfolding latest_conversation
latest_conversation-IsAnswer guild_pk user_id rows =
    IsAnswer-IsNewest guild_pk user_id rows _
      (newest_of-IsNewest (filter (owned guild_pk user_id) rows))

Memᴰ-update :
    (p : Conversation → Bool) (f : Conversation → Conversation) (c : Conversation)
    (rows : List Conversation)
    → Memᴰ c rows
    → p c ≡ true
    → Memᴰ (f c) (update p f rows)
unfolding update
Memᴰ-update p f c [] m h = absurd (Memᴰ.not-nil m)
Memᴰ-update p f c (r ∷ rows) (Memᴰ.head e) h = Memᴰ.head (ground (arith, h, ap p e, ap f e))
Memᴰ-update p f c (r ∷ rows) (Memᴰ.tail m) h = Memᴰ.tail (Memᴰ-update p f c rows m h)

-- The conversation stands in the table, is active, and was updated just now.
abbrev pub IsCurrent : ℕ → Conversation → Board → Type 0
IsCurrent now c board = Memᴰ c board.conversations × (c.status ≡ "active") × (c.updated_at ≡ now)

conversations-resume :
    (now : ℕ) (hint : Option String) (c : Conversation) (board : Board)
    → (resume now hint c board).conversations
      ≡ update
          (λ (r : Conversation). r.id == c.id)
          (λ (r : Conversation). record r {
            status = "active";
            name = name_or_hint c.name hint;
            updated_at = now;
          })
          board.conversations
unfolding resume tell
conversations-resume now hint c board = ground arith

IsCurrent-resume :
    (now : ℕ) (hint : Option String) (c : Conversation) (board : Board)
    → Memᴰ c board.conversations
    → IsCurrent now (resumed now hint c) (resume now hint c board)
IsCurrent-resume now hint c board m = (
  rw (conversations-resume now hint c board)
      (Memᴰ-update _ _ c board.conversations m (ground arith)),
  refl,
  refl,
)

IsCurrent-create_conversation :
    (now fresh guild_pk : ℕ) (user_id name : Option String) (board : Board)
    → let (c, after) = create_conversation now fresh guild_pk user_id name board in
      IsCurrent now c after
unfolding create_conversation
IsCurrent-create_conversation now fresh guild_pk user_id name board =
    let c = new_conversation now fresh guild_pk user_id name in
    (
      rw
          (conversations-tell created_notice c
            (record board { conversations = board.conversations ++ c ∷ [] }))
          (Memᴰ.append_right board.conversations (Memᴰ.head refl)),
      refl,
      refl,
    )

IsCurrent-resume_or_create :
    (now fresh guild_pk : ℕ) (user_id : String) (hint : Option String) (found : Option Conversation)
    (board : Board)
    → ((c : Conversation) → found ≡ some c → Memᴰ c board.conversations)
    → let (c, created, after) = resume_or_create now fresh guild_pk user_id hint found board in
      IsCurrent now c after
IsCurrent-resume_or_create now fresh guild_pk user_id hint none board m =
    IsCurrent-create_conversation now fresh guild_pk (some user_id) hint board
IsCurrent-resume_or_create now fresh guild_pk user_id hint (some c) board m =
    IsCurrent-resume now hint c board (m c refl)

Memᴰ_of_IsAnswer :
    (guild_pk : ℕ) (user_id : String) (rows : List Conversation) (found : Option Conversation)
    (c : Conversation)
    → IsAnswer guild_pk user_id rows found
    → found ≡ some c
    → Memᴰ c rows
Memᴰ_of_IsAnswer guild_pk user_id rows none c h e = cc
Memᴰ_of_IsAnswer guild_pk user_id rows (some d) c h e =
    let at : d ≡ c = cc in subst (λ x. Memᴰ x rows) at h.0

Memᴰ_of_choice :
    (force_new : Bool) (guild_pk : ℕ) (user_id : String) (rows : List Conversation)
    (c : Conversation)
    → (if force_new then none else latest_conversation guild_pk user_id rows) ≡ some c
    → Memᴰ c rows
Memᴰ_of_choice true guild_pk user_id rows c e = cc
Memᴰ_of_choice false guild_pk user_id rows c e =
    Memᴰ_of_IsAnswer guild_pk user_id rows _ c (latest_conversation-IsAnswer guild_pk user_id rows)
      e

-- Whether a conversation is resumed, reactivated or created, the answer stands in the table as it
-- is returned, is active, and was updated at that instant.
pub get_or_create_active_conversation-IsCurrent :
    (now fresh guild_pk : ℕ) (user_id : String) (name_hint : Option String) (force_new : Bool)
    (board : Board)
    → let (c, created, after) =
        get_or_create_active_conversation now fresh guild_pk user_id name_hint force_new board in
      IsCurrent now c after
unfolding get_or_create_active_conversation
get_or_create_active_conversation-IsCurrent now fresh guild_pk user_id name_hint force_new board =
    IsCurrent-resume_or_create now fresh guild_pk user_id (name_from_message name_hint) _ board
      (λ c e. Memᴰ_of_choice force_new guild_pk user_id board.conversations c e)

swept-current :
    (later now guild_pk : ℕ) (tasks : List TaskRow) (c : Conversation)
    → c.status ≡ "active"
    → c.updated_at ≡ now
    → later ≤ now + auto_archive_after
    → swept later guild_pk tasks c ≡ c
unfolding is_stale_active is_stale_archived
swept-current later now guild_pk tasks c active fresh soon =
    let not_archived : (c.status == "archived") ≡ false = rw active refl in
    ground (arith, not_archived, fresh, soon)

-- A sweep that comes at most 24 hours later, with nothing done to the conversations in between,
-- leaves the user's conversation as it was answered, when the ids of the conversations are unique.
pub sweep-get_or_create_active_conversation :
    (now later fresh guild_pk : ℕ) (user_id : String) (name_hint : Option String) (force_new : Bool)
    (tasks : List TaskRow) (board : Board)
    → later ≤ now + auto_archive_after
    → HasUniqueIds
        (get_or_create_active_conversation now fresh guild_pk user_id name_hint force_new
          board).2.conversations
    → let (c, created, after) =
        get_or_create_active_conversation now fresh guild_pk user_id name_hint force_new board in
      Memᴰ c (sweep_conversations_once later guild_pk tasks after).1.conversations
sweep-get_or_create_active_conversation now later fresh guild_pk user_id name_hint force_new tasks
      board soon unique =
    let answer =
      get_or_create_active_conversation now fresh guild_pk user_id name_hint force_new board in
    let current =
      get_or_create_active_conversation-IsCurrent now fresh guild_pk user_id name_hint force_new
        board in
    let kept = swept-current later now guild_pk tasks answer.0 current.1 current.2 soon in
    rw (conversations-sweep_conversations_once later guild_pk tasks answer.2 unique) (
      subst (λ x. Memᴰ x (map (swept later guild_pk tasks) answer.2.conversations)) kept
        (Memᴰ.map (swept later guild_pk tasks) current.0))
