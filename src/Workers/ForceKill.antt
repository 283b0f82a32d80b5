-- ===== src/Workers/ForceKill.antt =====
-- `force_kill_worker_if_unresponsive` of backend/worker_lifecycle.py. `seen k` is what the k-th
-- SELECT of the worker's state returns, and `late k` how much later than asked the k-th sleep ends.
use pioneer_square.Shared.{
  nat_eq, ℕ, ◌+◌, ◌-◌, ◌*◌, ◌/◌, ◌≤◌, ◌<◌, zero, suc, String, ◌≡◌, Bool, true, false, Option, none,
  some, ltb, seconds, ◌==◌, string_eq, if◌then◌else◌, arith, Bool-cases, inl, inr, eq_of_==,
}
use pioneer_square.Workers.Reaper.{Reaping, force_kill_containers}

abbrev pub poll_interval : ℕ
poll_interval = seconds 5

-- `state is None or state == "offline"`
abbrev pub is_gone : Option String → Bool
is_gone none = true
is_gone (some state) = state == "offline"

-- How the wait ended: which SELECT decided it, and the time since the start.
pub data Outcome : Type 0 where
  graceful : ℕ → ℕ → Outcome
  killed : ℕ → ℕ → Outcome
  unfinished : Outcome

abbrev min : ℕ → ℕ → ℕ
min a b = if ltb b a then b else a

module _ (seen : ℕ → Option String) (late : ℕ → ℕ) (timeout : ℕ) where
  abbrev pub slept : ℕ → ℕ → ℕ
  slept k elapsed = elapsed + min poll_interval (timeout - elapsed) + late k

  -- One turn of the loop, with the outcome of the turns after it; past the timeout the
  -- last check before the escalation.
  unfoldable pub turn : ℕ → ℕ → Outcome → Outcome
  turn k elapsed rest =
      if ltb elapsed timeout
      then (if is_gone (seen k) then Outcome.graceful k (slept k elapsed) else rest)
      else (if is_gone (seen k) then Outcome.graceful k elapsed else Outcome.killed k elapsed)

  unfoldable pub wait : ℕ → ℕ → ℕ → Outcome
  wait zero k elapsed = Outcome.unfinished
  wait (suc fuel) k elapsed = turn k elapsed (wait fuel (suc k) (slept k elapsed))

  -- None of the SELECTs from the k-th to the one before the n-th saw the worker gone.
  abbrev pub Alive : ℕ → ℕ → Type 0
  Alive k n = (j : ℕ) → k ≤ j → j < n → is_gone (seen j) ≡ false

  -- What the outcome says of the SELECTs from the k-th on.
  pub data Justified (k : ℕ) : Outcome → Type 0 where
    gone : (n e : ℕ) → Alive k n → is_gone (seen n) ≡ true → Justified k (Outcome.graceful n e)
    silent : (n e : ℕ) → Alive k (suc n) → timeout ≤ e → Justified k (Outcome.killed n e)

  Alive-suc : (k n : ℕ) → is_gone (seen k) ≡ false → Alive (suc k) n → Alive k n
  Alive-suc k n here later j from to = elim (Bool-cases (j == k)) [
    | inl same ↦ let at : j ≡ k = eq_of_== same in rw at here
    | inr other ↦ later j (ground (arith, other)) to
  ]

  one_more : (k : ℕ) (o : Outcome) → is_gone (seen k) ≡ false → Justified (suc k) o → Justified k o
  one_more k o here (Justified.gone n e alive g) = Justified.gone n e (Alive-suc k n here alive) g
  one_more k o here (Justified.silent n e alive enough) =
      Justified.silent n e (Alive-suc k (suc n) here alive) enough

  nobody_yet : (k : ℕ) → Alive k k
  nobody_yet k j from to = absurd (omega arith)

  only_here : (k : ℕ) → is_gone (seen k) ≡ false → Alive k (suc k)
  only_here k here = Alive-suc k (suc k) here (nobody_yet (suc k))

  -- One more sleep brings the end nearer by an interval.
  progress :
      (fuel k elapsed : ℕ)
      → timeout ≤ elapsed + suc fuel * poll_interval
      → timeout ≤ slept k elapsed + fuel * poll_interval
  progress fuel k elapsed enough = ground arith

  -- One turn of the loop, given what the turns after it come to.
  judged :
      (k elapsed : ℕ) (rest : Outcome)
      → (ltb elapsed timeout ≡ true → Justified (suc k) rest)
      → Justified k (turn k elapsed rest)
  unfolding turn
  judged k elapsed rest later = elim (Bool-cases (is_gone (seen k))) [
    | inl g ↦ elim (Bool-cases (ltb elapsed timeout)) [
      | inl more ↦ rw more (rw g (Justified.gone k (slept k elapsed) (nobody_yet k) g))
      | inr over ↦ rw over (rw g (Justified.gone k elapsed (nobody_yet k) g))
    ]
    | inr here ↦ elim (Bool-cases (ltb elapsed timeout)) [
      | inl more ↦ rw more (rw here (one_more k rest here (later more)))
      | inr over ↦
          rw over (rw here (Justified.silent k elapsed (only_here k here) (ground (arith, over))))
    ]
  ]

  pub wait-Justified :
      (fuel k elapsed : ℕ)
      → timeout ≤ elapsed + fuel * poll_interval
      → Justified k (wait (suc fuel) k elapsed)
  unfolding wait
  wait-Justified zero k elapsed enough =
      judged k elapsed Outcome.unfinished (λ more. absurd (ground (arith, more)))
  wait-Justified (suc fuel) k elapsed enough =
      judged k elapsed (wait (suc fuel) (suc k) (slept k elapsed))
        (λ more. wait-Justified fuel (suc k) (slept k elapsed) (progress fuel k elapsed enough))

-- The fuel is two more than the whole intervals of the timeout.
abbrev pub polls : ℕ → ℕ
polls timeout = suc (suc (timeout / poll_interval))

unfoldable pub escalation : (ℕ → Option String) → (ℕ → ℕ) → ℕ → Outcome
escalation seen late timeout = wait seen late timeout (polls timeout) 0 0

unfoldable pub force_kill_worker_if_unresponsive :
    (ℕ → Option String) → (ℕ → ℕ) → ℕ → String → Reaping → Reaping
force_kill_worker_if_unresponsive seen late timeout worker_id r =
    elim (escalation seen late timeout) [
      | Outcome.killed n e ↦ force_kill_containers worker_id r
      | _ ↦ r
    ]

-- The wait ends, and its outcome is right: a kill comes only at the timeout or after it and when no
-- SELECT up to the last one saw the worker gone; a graceful end comes with the first SELECT that did.
pub escalation-Justified :
    (seen : ℕ → Option String) (late : ℕ → ℕ) (timeout : ℕ)
    → Justified seen late timeout 0 (escalation seen late timeout)
unfolding escalation
escalation-Justified seen late timeout =
    wait-Justified seen late timeout (suc (timeout / poll_interval)) 0 0 (omega arith)
