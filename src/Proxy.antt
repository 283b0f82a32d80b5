-- ===== src/Proxy.antt =====
-- backend/foreman/proxy.py: the requests that wait for a foreman proxy. The list has one entry for
-- each call that is still awaited; `registered` says whether it is in `_pending_requests`, and a
-- socket is a number. What a request carries to the model, and the logging, are left out.
pub mod Waiting
pub mod First
mod Examples
use pioneer_square.Shared.{
  ℕ, String, Bool, true, false, not, ◌&&◌, ◌||◌, Option, none, some, List, [], ◌∷◌, ◌==◌, ◌!=◌,
  string_eq, nat_eq, if◌then◌else◌, any, filter, find?, update, Dict, get, ◌≡◌,
}

-- A response frame: an absent or null field is none.
pub record Frame : Type 0 where
  pub request_id : Option String
  pub guild_id : Option String
  pub ok : Option Bool
  pub error : Option String
  pub response : Option String

pub data Future : Type 0 where
  waiting : Future
  result : Frame → Future
  exception : String → Future

-- `_PendingRequest`, with its key.
pub record PendingRequest : Type 0 where
  pub request_id : String
  pub guild_id : String
  pub websocket : ℕ
  pub registered : Bool
  pub future : Future

-- What a call of the proxy returns or raises.
pub data ProxyOutcome : Type 0 where
  returned : Frame → ProxyOutcome
  unavailable : String → ProxyOutcome
  error : String → ProxyOutcome
  send_failed : ProxyOutcome
  timed_out : ProxyOutcome

abbrev pub is_waiting : Future → Bool
is_waiting Future.waiting = true
is_waiting _ = false

abbrev pub set_future : Future → PendingRequest → PendingRequest
set_future f p = if is_waiting p.future then record p { future = f } else p

abbrev pub has_request : String → PendingRequest → Bool
has_request id p = p.request_id == id

abbrev pub is_pending : String → PendingRequest → Bool
is_pending id p = p.request_id == id && p.registered

-- A send that fails pops the entry.
abbrev pub send_over :
    String
    → String
    → Bool
    → Option ℕ
    → List PendingRequest
    → Option ProxyOutcome × List PendingRequest
send_over guild_id request_id delivered none calls =
    (some (ProxyOutcome.unavailable "no foreman API proxy connected"), calls)
send_over guild_id request_id delivered (some ws) calls =
    if delivered
    then (
      none,
      record {
        request_id = request_id;
        guild_id = guild_id;
        websocket = ws;
        registered = true;
        future = Future.waiting;
      }
          ∷ calls,
    )
    else (some ProxyOutcome.send_failed, calls)

-- The first half of `call_foreman_api_proxy`, up to the await.
unfoldable pub send_request :
    Dict ℕ
    → String
    → String
    → Bool
    → List PendingRequest
    → Option ProxyOutcome × List PendingRequest
send_request connections guild_id request_id delivered calls =
    send_over guild_id request_id delivered (get guild_id connections) calls

abbrev ok_or_default : Option Bool → Bool
ok_or_default none = true
ok_or_default (some b) = b

abbrev text_or : Option String → String → String
text_or none t = t
text_or (some s) t = if s == "" then t else s

unfoldable pub judge : Frame → ProxyOutcome
judge frame =
    if not (ok_or_default frame.ok)
    then ProxyOutcome.error (text_or frame.error "foreman API proxy returned an error")
    else elim frame.response [
      | none ↦ ProxyOutcome.error "foreman API proxy returned no response payload"
      | some r ↦ ProxyOutcome.returned frame
    ]

abbrev pub outcome_of : Future → ProxyOutcome
outcome_of Future.waiting = ProxyOutcome.timed_out
outcome_of (Future.exception reason) = ProxyOutcome.unavailable reason
outcome_of (Future.result frame) = judge frame

abbrev pub end_call :
    String → Option PendingRequest → List PendingRequest → Option ProxyOutcome × List PendingRequest
end_call request_id none calls = (none, calls)
end_call request_id (some p) calls =
    (some (outcome_of p.future), filter (λ q. not (has_request request_id q)) calls)

-- The second half: the await ends, with the future or at the timeout, and the entry is popped.
unfoldable pub end_await : String → List PendingRequest → Option ProxyOutcome × List PendingRequest
end_await request_id calls = end_call request_id (find? (has_request request_id) calls) calls

abbrev pub is_foreign : Frame → PendingRequest → Bool
is_foreign frame p = elim frame.guild_id [ none ↦ false | some guild ↦ guild != p.guild_id ]

abbrev pub resolve_pending :
    Frame → String → Option PendingRequest → List PendingRequest → Bool × List PendingRequest
resolve_pending frame id none calls = (false, calls)
resolve_pending frame id (some p) calls =
    if is_foreign frame p
    then (false, calls)
    else (true, update (is_pending id) (set_future (Future.result frame)) calls)

abbrev pub resolve_id : Frame → Option String → List PendingRequest → Bool × List PendingRequest
resolve_id frame none calls = (false, calls)
resolve_id frame (some id) calls =
    if id == ""
    then (false, calls)
    else resolve_pending frame id (find? (is_pending id) calls) calls

unfoldable pub resolve_foreman_api_response :
    Frame → List PendingRequest → Bool × List PendingRequest
resolve_foreman_api_response frame calls = resolve_id frame frame.request_id calls

abbrev pub unregistered : PendingRequest → PendingRequest
unregistered p = record p { registered = false }

unfoldable pub fail_pending_for_websocket : ℕ → String → List PendingRequest → List PendingRequest
fail_pending_for_websocket ws reason calls =
    update (λ p. p.registered && p.websocket == ws)
      (λ p. unregistered (set_future (Future.exception reason) p)) calls
