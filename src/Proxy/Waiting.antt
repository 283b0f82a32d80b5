-- ===== src/Proxy/Waiting.antt =====
-- Nobody waits for a socket that has gone.
use pioneer_square.Shared.{
  ℕ, String, ◌≡◌, refl, ◌∙◌, Bool, true, false, not, ◌&&◌, Option, none, some, List, [], ◌==◌,
  string_eq, nat_eq, if◌then◌else◌, any, any-update, any-filter, any-false_of_imp, find?, update,
  Dict, get, arith, Bool-cases, inl, inr,
}
use pioneer_square.Proxy.{
  Frame, PendingRequest, is_waiting, has_request, is_pending, send_over, end_call, resolve_id,
  send_request, end_await, resolve_pending, resolve_foreman_api_response, is_foreign,
  fail_pending_for_websocket,
}

-- One event of the loop.
pub data Step : List PendingRequest → List PendingRequest → Type 0 where
  sends :
      (connections : Dict ℕ) (guild_id request_id : String) (delivered : Bool)
      (calls : List PendingRequest)
      → any (has_request request_id) calls ≡ false
      → Step calls (send_request connections guild_id request_id delivered calls).1
  responds :
      (frame : Frame) (calls : List PendingRequest)
      → Step calls (resolve_foreman_api_response frame calls).1
  disconnects :
      (ws : ℕ) (reason : String) (calls : List PendingRequest)
      → Step calls (fail_pending_for_websocket ws reason calls)
  ends :
      (request_id : String) (calls : List PendingRequest)
      → Step calls (end_await request_id calls).1

pub data Reachable : List PendingRequest → Type 0 where
  at_start : Reachable []
  after : (a b : List PendingRequest) → Reachable a → Step a b → Reachable b

-- A call that waits and that no response or disconnection can reach.
abbrev pub is_lost : PendingRequest → Bool
is_lost p = is_waiting p.future && not p.registered

abbrev NoneLost : List PendingRequest → Type 0
NoneLost calls = any is_lost calls ≡ false

update-NoneLost :
    (p : PendingRequest → Bool) (f : PendingRequest → PendingRequest) (calls : List PendingRequest)
    → ((c : PendingRequest) → is_lost (f c) ≡ true → is_lost c ≡ true)
    → NoneLost calls
    → NoneLost (update p f calls)
update-NoneLost p f calls keep sound =
    any-update is_lost p f calls
    ∙ any-false_of_imp is_lost (λ c. is_lost (if p c then f c else c)) calls kept sound
  where
    kept : (c : PendingRequest) → is_lost (if p c then f c else c) ≡ true → is_lost c ≡ true
    kept c lost = elim (Bool-cases (p c)) [
      | inl touched ↦ keep c (rw touched at lost)
      | inr other ↦ rw other at lost
    ]

sends-NoneLost :
    (guild_id request_id : String) (delivered : Bool) (ws : Option ℕ) (calls : List PendingRequest)
    → NoneLost calls
    → NoneLost (send_over guild_id request_id delivered ws calls).1
unfolding any
sends-NoneLost guild_id request_id delivered none calls sound = sound
sends-NoneLost guild_id request_id true (some ws) calls sound = sound
sends-NoneLost guild_id request_id false (some ws) calls sound = sound

resolve-NoneLost :
    (frame : Frame) (id : String) (found : Option PendingRequest) (calls : List PendingRequest)
    → NoneLost calls
    → NoneLost (resolve_pending frame id found calls).1
resolve-NoneLost frame id none calls sound = sound
resolve-NoneLost frame id (some p) calls sound = elim (Bool-cases (is_foreign frame p)) [
  | inl foreign ↦ rw foreign sound
  | inr own ↦ rw own (update-NoneLost _ _ calls (λ c. ground arith) sound)
]

responds-NoneLost :
    (frame : Frame) (named : Option String) (calls : List PendingRequest)
    → NoneLost calls
    → NoneLost (resolve_id frame named calls).1
responds-NoneLost frame none calls sound = sound
responds-NoneLost frame (some id) calls sound = elim (Bool-cases (id == "")) [
  | inl blank ↦ rw blank sound
  | inr text ↦ rw text (resolve-NoneLost frame id (find? (is_pending id) calls) calls sound)
]

ends-NoneLost :
    (id : String) (found : Option PendingRequest) (calls : List PendingRequest)
    → NoneLost calls
    → NoneLost (end_call id found calls).1
ends-NoneLost id none calls sound = sound
ends-NoneLost id (some p) calls sound =
    any-filter is_lost _ calls
    ∙ any-false_of_imp is_lost _ calls (λ c lost. ground (arith, lost)) sound

reachable-NoneLost : (calls : List PendingRequest) → Reachable calls → NoneLost calls
unfolding any fail_pending_for_websocket send_request resolve_foreman_api_response end_await
reachable-NoneLost calls Reachable.at_start = refl
reachable-NoneLost calls
      (Reachable.after a b r (Step.sends connections guild_id id delivered a' fresh)) =
    sends-NoneLost guild_id id delivered (get guild_id connections) a' (reachable-NoneLost a' r)
reachable-NoneLost calls (Reachable.after a b r (Step.responds frame a')) =
    responds-NoneLost frame frame.request_id a' (reachable-NoneLost a' r)
reachable-NoneLost calls (Reachable.after a b r (Step.disconnects ws reason a')) =
    update-NoneLost _ _ a' (λ c. ground arith) (reachable-NoneLost a' r)
reachable-NoneLost calls (Reachable.after a b r (Step.ends id a')) =
    ends-NoneLost id (find? (has_request id) a') a' (reachable-NoneLost a' r)

-- In every state that sends, responses, disconnections and ends of calls lead to, once a socket was
-- reported gone no call waits for it.
pub fail_pending_for_websocket-none_waiting :
    (calls : List PendingRequest) (ws : ℕ) (reason : String)
    → Reachable calls
    → any
        (λ p. p.websocket == ws && is_waiting p.future)
        (fail_pending_for_websocket ws reason calls)
      ≡ false
unfolding fail_pending_for_websocket
fail_pending_for_websocket-none_waiting calls ws reason r =
    any-update _ _ _ calls
    ∙ any-false_of_imp is_lost _ calls (λ c waits. ground (arith, waits))
        (reachable-NoneLost calls r)
