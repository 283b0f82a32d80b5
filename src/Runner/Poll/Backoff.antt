-- ===== src/Runner/Poll/Backoff.antt =====
-- The intervals of the poll loops of backend/foreman/runner.py.
use Prim.Native.Nat.{min, ◌^◌}
use native.Mathlib.Nat.{pow-suc, mul_assoc}
use pioneer_square.Shared.{
  ap, ◌∙◌, ℕ, zero, suc, ◌*◌, ◌≡◌, ◌⊎◌, refl, String, Bool, true, false, not, ◌&&◌, ◌||◌, some,
  List, [], ◌∷◌, ◌++◌, length, any, ◌==◌, nat_eq, option_eq, arith, Bool-cases, inl, inr,
}
use pioneer_square.Runner.Poll.{
  GuildRunLock, PollLoop, Polling, poll_min_secs, is_registered, spawn_poll_loop, has_loop,
  ensure_poll_loop, cancel_registered, is_in_flight, guild_active_recently, reset_foreman_poll,
  next_interval,
}

-- The interval after some cycles under one ceiling.
unfoldable pub interval_in : ℕ → ℕ → ℕ
interval_in zero poll_max = poll_min_secs
interval_in (suc n) poll_max = next_interval (interval_in n poll_max) poll_max

next_interval_capped : (a c : ℕ) → next_interval (min a c) c ≡ min (a * 2) c
next_interval_capped a c = omega arith

-- The next sleep is the first one doubled once for every cycle, and no longer than the ceiling; only
-- the first sleep may be longer than a ceiling that is below five minutes.
pub interval_in_lem :
    (n poll_max : ℕ) → interval_in (suc n) poll_max ≡ min (poll_min_secs * 2 ^ suc n) poll_max
unfolding interval_in
interval_in_lem zero poll_max = refl
interval_in_lem (suc n) poll_max =
    rw (pow-suc 2 (suc n), ← mul_assoc poll_min_secs (2 ^ suc n) 2)
      (ap (λ interval. next_interval interval poll_max) (interval_in_lem n poll_max)
        ∙ next_interval_capped (poll_min_secs * 2 ^ suc n) poll_max)

any-append_single :
    (p : PollLoop → Bool) (loops : List PollLoop) (loop : PollLoop)
    → p loop ≡ true
    → any p (loops ++ loop ∷ []) ≡ true
unfolding any
any-append_single p [] loop h = ground (arith, h)
any-append_single p (other ∷ loops) loop h = ground (arith, any-append_single p loops loop h)

-- Whether the registered loop is alive and sleeps the shortest interval.
abbrev pub is_floor : Polling → Bool
is_floor s =
    any (λ loop. is_registered s.registered loop && loop.is_alive && loop.interval == poll_min_secs)
      s.loops

spawn_poll_loop-is_floor : (s : Polling) → is_floor (spawn_poll_loop s) ≡ true
unfolding spawn_poll_loop
spawn_poll_loop-is_floor s =
    any-append_single
      (λ loop.
        is_registered (some (length s.loops)) loop
        && loop.is_alive
        && loop.interval == poll_min_secs)
      s.loops (record { serial = length s.loops; interval = poll_min_secs; is_alive = true })
      (ground arith)

-- What a reset does: nothing while a run of the guild holds its lock, whosever turn it is. Otherwise
-- the next check comes in five minutes if the guild acted in the last five, or if none of its loops is
-- registered and alive; and a loop that is there keeps its sleep if the guild did not act.
pub reset_foreman_poll_lem :
    (guild : String) (locks : List GuildRunLock) (now : ℕ) (s : Polling)
    → ((is_in_flight guild locks ≡ true) × (reset_foreman_poll guild locks now s ≡ s))
      ⊎ ((is_in_flight guild locks ≡ false)
          × ((guild_active_recently now s.last_action_at || not (has_loop s)) ≡ true)
          × (is_floor (reset_foreman_poll guild locks now s) ≡ true))
      ⊎ ((is_in_flight guild locks ≡ false)
          × ((guild_active_recently now s.last_action_at || not (has_loop s)) ≡ false)
          × (reset_foreman_poll guild locks now s ≡ s))
unfolding reset_foreman_poll ensure_poll_loop
reset_foreman_poll_lem guild locks now s = elim (Bool-cases (is_in_flight guild locks)) [
  | inl in_flight ↦ inl (in_flight, rw in_flight refl)
  | inr free ↦ inr (elim (Bool-cases (guild_active_recently now s.last_action_at)) [
    | inl recent ↦
        inl
          (free, rw recent refl, rw (free, recent) (spawn_poll_loop-is_floor (cancel_registered s)))
    | inr idle ↦ elim (Bool-cases (has_loop s)) [
      | inl there ↦ inr (free, rw (idle, there) refl, rw (free, idle, there) refl)
      | inr absent ↦
          inl (free, rw (idle, absent) refl, rw (free, idle, absent) (spawn_poll_loop-is_floor s))
    ]
  ])
]
