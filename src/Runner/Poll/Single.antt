-- ===== src/Runner/Poll/Single.antt =====
-- One poll loop for a guild: the registry of backend/foreman/runner.py.
use pioneer_square.Shared.{
  ℕ, ◌≤◌, ◌≡◌, refl, String, Bool, true, false, not, ◌&&◌, Option, some, List, [], ◌∷◌, ◌++◌,
  length, any, count, update, ◌==◌, nat_eq, option_eq, arith, Bool-cases, inl, inr,
}
use pioneer_square.Runner.Poll.{
  GuildRunLock, PollLoop, Polling, poll_min_secs, is_registered, spawn_poll_loop, has_loop,
  ensure_poll_loop, stopped, cancel_registered, is_in_flight, guild_active_recently,
  reset_foreman_poll, interval_after, poll_loop, record_guild_action, PollEvent, poll_event,
  poll_events,
}

abbrev alive : PollLoop → Bool
alive loop = loop.is_alive

abbrev is_stray : Option ℕ → PollLoop → Bool
is_stray registered loop = loop.is_alive && not (is_registered registered loop)

-- At most one loop is alive, and it is the registered one.
abbrev pub IsSingle : Polling → Type 0
IsSingle s = (count alive s.loops ≤ 1) × (any (is_stray s.registered) s.loops ≡ false)

any-stray :
    (registered : Option ℕ) (loops : List PollLoop)
    → any (is_stray registered) loops ≡ false
    → any (λ loop. is_registered registered loop && loop.is_alive) loops ≡ false
    → any alive loops ≡ false
unfolding any
any-stray registered [] stray none_alive = refl
any-stray registered (loop ∷ loops) stray none_alive = ground (arith, any-stray registered loops)

any-cancelled :
    (registered : Option ℕ) (loops : List PollLoop)
    → any (is_stray registered) loops ≡ false
    → any alive (update (is_registered registered) stopped loops) ≡ false
unfolding any update
any-cancelled registered [] stray = refl
any-cancelled registered (loop ∷ loops) stray = ground (arith, any-cancelled registered loops)

any-alive_append :
    (loops : List PollLoop) (loop : PollLoop)
    → any alive loops ≡ false
    → any (is_stray (some loop.serial)) (loops ++ loop ∷ []) ≡ false
unfolding any
any-alive_append [] loop h = ground arith
any-alive_append (other ∷ loops) loop h = ground (arith, any-alive_append loops loop)

count-alive_append :
    (loops : List PollLoop) (loop : PollLoop)
    → any alive loops ≡ false
    → count alive (loops ++ loop ∷ []) ≤ 1
unfolding any count
count-alive_append [] loop h = ground arith
count-alive_append (other ∷ loops) loop h = ground (arith, count-alive_append loops loop)

spawn_poll_loop-IsSingle : (s : Polling) → any alive s.loops ≡ false → IsSingle (spawn_poll_loop s)
unfolding spawn_poll_loop
spawn_poll_loop-IsSingle s none_alive =
    (count-alive_append s.loops started none_alive, any-alive_append s.loops started none_alive)
  where
    started : PollLoop
    started = record { serial = length s.loops; interval = poll_min_secs; is_alive = true }

pub ensure_poll_loop-IsSingle : (s : Polling) → IsSingle s → IsSingle (ensure_poll_loop s)
unfolding ensure_poll_loop
ensure_poll_loop-IsSingle s single = elim (Bool-cases (has_loop s)) [
  | inl there ↦ rw there single
  | inr absent ↦
      rw absent (spawn_poll_loop-IsSingle s (any-stray s.registered s.loops single.1 absent))
]

cancel_registered-stray : (s : Polling) → IsSingle s → any alive (cancel_registered s).loops ≡ false
unfolding cancel_registered
cancel_registered-stray s single = any-cancelled s.registered s.loops single.1

reset_foreman_poll-IsSingle :
    (guild : String) (locks : List GuildRunLock) (now : ℕ) (s : Polling)
    → IsSingle s
    → IsSingle (reset_foreman_poll guild locks now s)
unfolding reset_foreman_poll
reset_foreman_poll-IsSingle guild locks now s single =
    elim (Bool-cases (is_in_flight guild locks)) [
      | inl in_flight ↦ rw in_flight single
      | inr free ↦ elim (Bool-cases (guild_active_recently now s.last_action_at)) [
        | inl recent ↦
            rw (free, recent)
              (spawn_poll_loop-IsSingle (cancel_registered s) (cancel_registered-stray s single))
        | inr idle ↦ rw (free, idle) (ensure_poll_loop-IsSingle s single)
      ]
    ]

-- A change of some loops that brings none of them to life.
module _ (p : PollLoop → Bool) (f : PollLoop → PollLoop) where
  count-alive-update :
      (loops : List PollLoop)
      → ((loop : PollLoop) → (f loop).is_alive ≡ true → loop.is_alive ≡ true)
      → count alive (update p f loops) ≤ count alive loops
  unfolding count update
  count-alive-update [] h = omega arith
  count-alive-update (loop ∷ loops) h = ground (arith, h loop, count-alive-update loops h)

  any-stray-update :
      (registered : Option ℕ) (loops : List PollLoop)
      → ((loop : PollLoop) → is_stray registered (f loop) ≡ true → is_stray registered loop ≡ true)
      → any (is_stray registered) loops ≡ false
      → any (is_stray registered) (update p f loops) ≡ false
  unfolding any update
  any-stray-update registered [] h stray = refl
  any-stray-update registered (loop ∷ loops) h stray =
      ground (arith, h loop, any-stray-update registered loops h)

poll_loop-IsSingle :
    (serial : ℕ) (cycle : Option ℕ) (s : Polling) → IsSingle s → IsSingle (poll_loop serial cycle s)
unfolding poll_loop
poll_loop-IsSingle serial cycle s (few, stray) = elim (Bool-cases (s.registered == some serial)) [
  | inl current ↦ rw (current) (
    ground (arith, few, count-alive-update woken go_on s.loops (λ loop h. h)),
    any-stray-update woken go_on s.registered s.loops (λ loop h. h) stray,
  )
  | inr superseded ↦ rw superseded (
    ground (arith, few, count-alive-update woken stopped s.loops (λ loop h. cc)),
    any-stray-update woken stopped s.registered s.loops (λ loop h. cc) stray,
  )
]
  where
    woken : PollLoop → Bool
    woken loop = loop.serial == serial

    go_on : PollLoop → PollLoop
    go_on loop = record loop { interval = interval_after loop.interval cycle }

poll_event-IsSingle : (event : PollEvent) (s : Polling) → IsSingle s → IsSingle (poll_event event s)
unfolding poll_event record_guild_action
poll_event-IsSingle PollEvent.ensured s single = ensure_poll_loop-IsSingle s single
poll_event-IsSingle (PollEvent.reset guild locks now) s single =
    reset_foreman_poll-IsSingle guild locks now s single
poll_event-IsSingle (PollEvent.acted now) s single = single
poll_event-IsSingle (PollEvent.woke serial cycle) s single =
    poll_loop-IsSingle serial cycle s single

-- However the loops of a guild are ensured, reset and woken, at most one of them is alive, and the
-- one that is alive is the registered one, if that was so before.
pub poll_events-IsSingle :
    (events : List PollEvent) (s : Polling) → IsSingle s → IsSingle (poll_events events s)
unfolding poll_events
poll_events-IsSingle [] s single = single
poll_events-IsSingle (event ∷ events) s single =
    poll_events-IsSingle events (poll_event event s) (poll_event-IsSingle event s single)
