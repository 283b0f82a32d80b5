-- ===== src/Proxy/Examples.antt =====
-- Requests of a proxy on concrete inputs.
use pioneer_square.Shared.{
  ℕ, String, ◌≡◌, refl, Bool, true, false, ◌&&◌, Option, none, some, List, [], ◌∷◌, ◌==◌, nat_eq,
  string_eq, any, find?, update, get, Dict,
}
use pioneer_square.Proxy.{
  Frame, Future, ProxyOutcome, PendingRequest, is_waiting, send_request, end_await, judge,
  resolve_foreman_api_response, fail_pending_for_websocket,
}
use pioneer_square.Proxy.Waiting.{Step, Reachable, fail_pending_for_websocket-none_waiting}
use pioneer_square.Proxy.First.{Arrival, arrive_all, is_decided, arrive_all-is_decided}

abbrev connections : Dict ℕ
connections = ("g", 4) ∷ []

abbrev waiting_calls : List PendingRequest
waiting_calls =
    record {
      request_id = "r";
      guild_id = "g";
      websocket = 4;
      registered = true;
      future = Future.waiting;
    }
    ∷ []

abbrev answer : Option String → Frame
answer guild = record {
  request_id = some "r";
  guild_id = guild;
  ok = none;
  error = none;
  response = some "{}";
}

sent : (send_request connections "g" "r" true []).1 ≡ waiting_calls
unfolding send_request get
sent = refl

foreign_answer : (resolve_foreman_api_response (answer (some "h")) waiting_calls).0 ≡ false
unfolding resolve_foreman_api_response find?
foreign_answer = refl

answered :
    (end_await "r" (resolve_foreman_api_response (answer (some "g")) waiting_calls).1).0
    ≡ some (ProxyOutcome.returned (answer (some "g")))
unfolding end_await judge resolve_foreman_api_response find? update
answered = refl

waiting_calls-Reachable : Reachable waiting_calls
unfolding send_request get any
waiting_calls-Reachable =
    Reachable.after [] waiting_calls Reachable.at_start
      (Step.sends connections "g" "r" true [] refl)

fail_pending_for_websocket-none_waiting_example :
    any
      (λ p. p.websocket == 4 && is_waiting p.future)
      (fail_pending_for_websocket 4 "gone" waiting_calls)
    ≡ false
fail_pending_for_websocket-none_waiting_example =
    fail_pending_for_websocket-none_waiting waiting_calls 4 "gone" waiting_calls-Reachable

abbrev is_result : Future → Bool
is_result (Future.result frame) = true
is_result _ = false

abbrev answered_calls : List PendingRequest
answered_calls =
    record {
      request_id = "r";
      guild_id = "g";
      websocket = 4;
      registered = true;
      future = Future.result (answer none);
    }
    ∷ []

arrive_all-is_decided_example :
    any (is_decided is_result refl "r") (
      arrive_all
        (Arrival.disconnection 4 "gone" ∷ Arrival.response (answer none) ∷ [])
        answered_calls)
    ≡ true
unfolding any
arrive_all-is_decided_example =
    arrive_all-is_decided is_result refl "r"
      (Arrival.disconnection 4 "gone" ∷ Arrival.response (answer none) ∷ []) answered_calls refl
