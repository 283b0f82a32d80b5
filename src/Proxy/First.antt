-- ===== src/Proxy/First.antt =====
-- The first response to a request, or the loss of its socket, decides it.
use pioneer_square.Shared.{
  ℕ, String, ◌≡◌, refl, ◌∙◌, Bool, true, false, ◌&&◌, Option, none, some, List, [], ◌∷◌, ◌==◌,
  string_eq, nat_eq, if◌then◌else◌, any, any-update, any_imp, update, find?, arith, Bool-cases, inl,
  inr,
}
use pioneer_square.Proxy.{
  Frame, Future, PendingRequest, is_waiting, has_request, is_pending, resolve_pending, resolve_id,
  is_foreign, resolve_foreman_api_response, set_future, fail_pending_for_websocket,
}

-- What can reach the requests while they are awaited.
pub data Arrival : Type 0 where
  response : Frame → Arrival
  disconnection : ℕ → String → Arrival

unfoldable pub arrive : Arrival → List PendingRequest → List PendingRequest
arrive (Arrival.response frame) calls = (resolve_foreman_api_response frame calls).1
arrive (Arrival.disconnection ws reason) calls = fail_pending_for_websocket ws reason calls

unfoldable pub arrive_all : List Arrival → List PendingRequest → List PendingRequest
arrive_all [] calls = calls
arrive_all (a ∷ more) calls = arrive_all more (arrive a calls)

-- `decided` is a test of futures that a waiting one fails.
module _ (decided : Future → Bool) (open_undecided : decided Future.waiting ≡ false)
    (id : String) where
  abbrev pub is_decided : PendingRequest → Bool
  is_decided p = has_request id p && decided p.future

  decided_done : (f : Future) → decided f ≡ true → is_waiting f ≡ false
  decided_done Future.waiting h = absurd (cc (h, open_undecided))
  decided_done (Future.result frame) h = refl
  decided_done (Future.exception reason) h = refl

  kept_set :
      (f : Future) (p : PendingRequest) → is_decided p ≡ true → is_decided (set_future f p) ≡ true
  kept_set f p h =
      let known : decided p.future ≡ true = ground (arith, h) in rw (decided_done p.future known) h

  update-is_decided :
      (q : PendingRequest → Bool) (f : PendingRequest → PendingRequest)
      (calls : List PendingRequest)
      → ((p : PendingRequest) → is_decided p ≡ true → is_decided (f p) ≡ true)
      → any is_decided calls ≡ true
      → any is_decided (update q f calls) ≡ true
  update-is_decided q f calls keep h =
      any-update is_decided q f calls ∙ any_imp is_decided _ calls kept h
    where
      kept : (p : PendingRequest) → is_decided p ≡ true → is_decided (if q p then f p else p) ≡ true
      kept p d = elim (Bool-cases (q p)) [
        | inl touched ↦ rw touched (keep p d)
        | inr other ↦ rw other d
      ]

  resolve-is_decided :
      (frame : Frame) (named : Option String) (calls : List PendingRequest)
      → any is_decided calls ≡ true
      → any is_decided (resolve_id frame named calls).1 ≡ true
  resolve-is_decided frame none calls h = h
  resolve-is_decided frame (some j) calls h = elim (Bool-cases (j == "")) [
    | inl blank ↦ rw blank h
    | inr text ↦ rw text (found (find? (is_pending j) calls))
  ]
    where
      found :
          (p : Option PendingRequest) → any is_decided (resolve_pending frame j p calls).1 ≡ true
      found none = h
      found (some p) = elim (Bool-cases (is_foreign frame p)) [
        | inl foreign ↦ rw foreign h
        | inr own ↦ rw own (update-is_decided _ _ calls (kept_set (Future.result frame)) h)
      ]

  arrive-is_decided :
      (a : Arrival) (calls : List PendingRequest)
      → any is_decided calls ≡ true
      → any is_decided (arrive a calls) ≡ true
  unfolding arrive resolve_foreman_api_response fail_pending_for_websocket
  arrive-is_decided (Arrival.response frame) calls h =
      resolve-is_decided frame frame.request_id calls h
  arrive-is_decided (Arrival.disconnection ws reason) calls h =
      update-is_decided _ _ calls (λ p. kept_set (Future.exception reason) p) h

  -- Whatever is true of the future of a request that has been decided, and is not true of a waiting
  -- one, stays true under any later responses and disconnections.
  pub arrive_all-is_decided :
      (arrivals : List Arrival) (calls : List PendingRequest)
      → any is_decided calls ≡ true
      → any is_decided (arrive_all arrivals calls) ≡ true
  unfolding arrive_all
  arrive_all-is_decided [] calls h = h
  arrive_all-is_decided (a ∷ more) calls h =
      arrive_all-is_decided more (arrive a calls) (arrive-is_decided a calls h)
