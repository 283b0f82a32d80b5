-- ===== src/History.antt =====
-- The messages that the Foreman sends to the model: backend/foreman/message_utils.py. A content
-- block is known by its `type` and its id; the rest of it stays a text.
pub mod Orphans
pub mod Budget
pub mod Pairing
pub mod Unchanged
pub mod Window
mod Examples
use mathlib.Core.List.{reverse}
use pioneer_square.Shared.{
  ℕ, zero, suc, ◌+◌, ◌-◌, ◌/◌, String, Bool, true, false, not, ◌&&◌, Option, none, some, List, [],
  ◌∷◌, map, ltb, leb, ◌==◌, nat_eq, length, drop, if◌then◌else◌,
}

pub data Role : Type 0 where
  user assistant system : Role

pub data Block : Type 0 where
  tool_use : String → String → Block
  tool_result : String → String → Block
  other : String → Block

pub data Content : Type 0 where
  text : String → Content
  blocks : List Block → Content

pub record Message : Type 0 where
  pub role : Role
  pub content : Content

abbrev pub is_user : Role → Bool
is_user Role.user = true
is_user _ = false

-- messages[-n:], which is the whole list for n = 0
unfoldable pub last_messages : ℕ → List Message → List Message
last_messages n messages = if n == 0 then messages else drop (length messages - n) messages

-- while messages and messages[0]["role"] != "user": messages = messages[1:]
unfoldable pub drop_until_user : List Message → List Message
drop_until_user [] = []
drop_until_user (message ∷ rest) =
    if is_user message.role then message ∷ rest else drop_until_user rest

unfoldable pub prune_history : List Message → ℕ → List Message
unfolding last_messages
prune_history messages max_messages =
    drop_until_user
      (if ltb max_messages (length messages) then last_messages max_messages messages else messages)

abbrev pub chars_per_token : ℕ
chars_per_token = 4

unfoldable pub sum : List ℕ → ℕ
sum [] = 0
sum (n ∷ ns) = n + sum ns

-- The loop of `fit_token_budget` from the newest message on: the sizes that are left, newest
-- first, so that the index `i` is the number of those behind; `total` and `start` as in the
-- source, `count` the number of messages.
unfoldable pub scan : ℕ → ℕ → List ℕ → ℕ → ℕ → ℕ
scan budget count [] total start = start
scan budget count (size ∷ older) total start =
    let rest = scan budget count older (total + size) (length older) in
    if ltb start count && ltb budget (total + size) then start else rest

-- `serialized` is the length of `json.dumps(message)`.
module _ (serialized : Message → ℕ) where
  unfoldable pub message_tokens : Message → ℕ
  message_tokens message = serialized message / chars_per_token

  unfoldable pub estimate_tokens : List Message → ℕ
  estimate_tokens messages = sum (map message_tokens messages)

  unfoldable pub fit_start : List Message → ℕ → ℕ
  fit_start messages budget =
      scan budget (length messages) (reverse (map message_tokens messages)) 0 (length messages)

  unfoldable pub fit_token_budget : List Message → ℕ → List Message
  fit_token_budget messages budget = drop_until_user (drop (fit_start messages budget) messages)
