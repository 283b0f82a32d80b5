-- ===== src/History/Orphans.antt =====
-- `strip_orphaned_tool_results`.
use mathlib.Core.List.{head?}
use pioneer_square.Shared.{
  String, Bool, true, false, not, ◌&&◌, Option, none, some, List, [], ◌∷◌, filter, member,
  string_eq, if◌then◌else◌,
}
use pioneer_square.History.{Role, Block, tool_use, tool_result, Content, text, blocks, Message}

unfoldable pub use_ids : List Block → List String
use_ids [] = []
use_ids (tool_use id body ∷ bs) = id ∷ use_ids bs
use_ids (_ ∷ bs) = use_ids bs

unfoldable pub result_ids : List Block → List String
result_ids [] = []
result_ids (tool_result id body ∷ bs) = id ∷ result_ids bs
result_ids (_ ∷ bs) = result_ids bs

-- The tool_use ids of an assistant message whose content is a list, else none.
abbrev pub ids_of_uses : Role → Content → List String
ids_of_uses Role.assistant (blocks bs) = use_ids bs
ids_of_uses _ _ = []

abbrev pub ids_of_results : Role → Content → List String
ids_of_results Role.user (blocks bs) = result_ids bs
ids_of_results _ _ = []

-- `valid_ids`, from the message before.
abbrev pub valid_ids : Option Message → List String
valid_ids none = []
valid_ids (some m) = ids_of_uses m.role m.content

-- `result_ids`, from the message after.
abbrev pub answered_ids : Option Message → List String
answered_ids none = []
answered_ids (some m) = ids_of_results m.role m.content

abbrev pub keeps_use : List String → Block → Bool
keeps_use ids (tool_use id body) = member id ids
keeps_use ids _ = true

abbrev pub keeps_result : List String → Block → Bool
keeps_result ids (tool_result id body) = member id ids
keeps_result ids _ = true

abbrev pub is_empty : List Block → Bool
is_empty [] = true
is_empty (b ∷ bs) = false

-- A content that lost all its blocks takes its message along (`none`: `out.pop(i)`); any other
-- is replaced by what is left of it, which changes nothing if nothing was removed.
abbrev pub replaced : Message → List Block → List Block → Option Message
replaced message content new_content =
    if is_empty new_content && not (is_empty content)
    then none
    else some (record message { content = blocks new_content })

abbrev pub clean_by : Option Message → Option Message → Message → Role → Content → Option Message
clean_by prev next message Role.assistant (blocks content) =
    replaced message content (filter (keeps_use (answered_ids next)) content)
clean_by prev next message Role.user (blocks content) =
    replaced message content (filter (keeps_result (valid_ids prev)) content)
clean_by prev next message _ _ = some message

-- One round of the first loop: `prev` is out[i - 1], as it is by then, and `next` is out[i + 1].
unfoldable pub clean : Option Message → Option Message → Message → Option Message
clean prev next message = clean_by prev next message message.role message.content

-- The first loop from index i on.
unfoldable pub strip_from : Option Message → List Message → List Message
unfolding clean
strip_from prev [] = []
strip_from prev (message ∷ rest) = elim (clean prev (head? rest) message) [
  | none ↦ strip_from prev rest
  | some cleaned ↦ cleaned ∷ strip_from (some cleaned) rest
]

abbrev pub is_result : Block → Bool
is_result (tool_result id body) = true
is_result _ = false

-- The head after the second loop has looked at it: `none` if it is popped.
abbrev pub head_by : Message → Role → Content → Option Message
head_by message Role.user (blocks content) =
    let new_content = filter (λ b. not (is_result b)) content in
    if is_empty new_content then none else some (record message { content = blocks new_content })
head_by message Role.user (text t) = some message
head_by message _ _ = none

unfoldable pub clean_head : Message → Option Message
clean_head message = head_by message message.role message.content

-- The second loop.
unfoldable pub trim_head : List Message → List Message
unfolding clean_head
trim_head [] = []
trim_head (message ∷ rest) = elim (clean_head message) [
  | none ↦ trim_head rest
  | some head ↦ head ∷ rest
]

unfoldable pub strip_orphaned_tool_results : List Message → List Message
unfolding strip_from trim_head
strip_orphaned_tool_results messages = trim_head (strip_from none messages)
