-- ===== src/Workers/Reaper/Sweep.antt =====
-- One pass of the reaper is a single UPDATE of the rows that are idle when it starts.
use mathlib.Core.List.{Memᴰ}
use pioneer_square.Shared.{
  ◌≤◌, String, ◌≡◌, refl, sym, ap, ◌∙◌, Bool, false, not, ◌&&◌, ◌||◌, Option, none, some, List, [],
  ◌∷◌, ◌==◌, string_eq, nat_eq, eq_iff, if◌then◌else◌, find?, update, any, count, update_none,
  update-if_update, update_congr_of_Mem, any_congr, any-own_unique, ==_refl, eq_of_==,
  count-zero_of_any, arith, Bool-cases, inl, inr,
}
use pioneer_square.Workers.{Worker, Guild, is_set, is_old, worker_is_inactive}
use pioneer_square.Workers.Reaper.{
  Candidate, Reaping, Pass, is_candidate, candidates, with_slug, has_id, disabled_at, reap_one,
  reap_each, reap_idle_workers_once,
}

-- Whether the branch of its state lets a candidate through.
unfoldable pub passes : Pass → Candidate → Bool
passes pass c =
    if c.state == "offline"
    then is_old pass.timeout pass.now c.last_seen
    else worker_is_inactive pass.clock pass.timeout pass.now pass.tables c.worker_id

workers-reap_one :
    (pass : Pass) (c : Candidate) (r : Reaping)
    → (reap_one pass c r).1.workers ≡ (
        if passes pass c
        then update (has_id c.worker_id) (disabled_at pass.now) r.workers
        else r.workers)
unfolding reap_one passes
workers-reap_one pass c r = ground arith

-- The rows that a list of candidates has disabled in the end.
abbrev pub chosen : Pass → List Candidate → Worker → Bool
chosen pass cs w = any (λ c. passes pass c && has_id c.worker_id w) cs

workers-reap_each :
    (pass : Pass) (cs : List Candidate) (r : Reaping)
    → (reap_each pass cs r).1.workers ≡ update (chosen pass cs) (disabled_at pass.now) r.workers
unfolding reap_each any
workers-reap_each pass [] r = sym (update_none _ _ r.workers (λ w. refl))
workers-reap_each pass (c ∷ cs) r =
    workers-reap_each pass cs (reap_one pass c r).1
    ∙ ap (update (chosen pass cs) (disabled_at pass.now)) (workers-reap_one pass c r)
    ∙ update-if_update (passes pass c) (has_id c.worker_id) (chosen pass cs) (disabled_at pass.now)
        r.workers (λ w. refl) (λ w. refl)

abbrev pub lets_through : Pass → Worker → Bool
lets_through pass w =
    if w.state == "offline"
    then is_old pass.timeout pass.now w.last_seen
    else worker_is_inactive pass.clock pass.timeout pass.now pass.tables w.id

-- The row is idle at the start of the pass: spawned, not yet disabled, started before the cutoff,
-- of a guild that there is, and let through by the branch of its state.
abbrev pub is_idle : Pass → Worker → Bool
is_idle pass w =
    is_candidate pass w && any (λ g. g.id == w.guild_id) pass.tables.guilds && lets_through pass w

-- A timeout of 0 switches the reaper off.
abbrev pub is_due : Pass → Worker → Bool
is_due pass w = not (pass.timeout == 0) && is_idle pass w

pub any-find? : (p : Guild → Bool) (gs : List Guild) → any p gs ≡ is_set (find? p gs)
unfolding any find?
any-find? p [] = refl
any-find? p (g ∷ gs) = ground (arith, any-find? p gs)

chosen-with_slug :
    (pass : Pass) (v : Worker) (found : Option Guild) (cs : List Candidate) (w : Worker)
    → chosen pass (with_slug v found cs) w
      ≡ (is_set found && lets_through pass v && w.id == v.id || chosen pass cs w)
unfolding any passes
chosen-with_slug pass v none cs w = refl
chosen-with_slug pass v (some g) cs w = refl

chosen-candidates :
    (pass : Pass) (ws : List Worker) (w : Worker)
    → chosen pass (candidates pass ws) w ≡ any (λ v. is_idle pass v && w.id == v.id) ws
unfolding candidates any
chosen-candidates pass [] w = refl
chosen-candidates pass (v ∷ ws) w = ground (
  arith,
  chosen-candidates pass ws w,
  chosen-with_slug pass v (find? (λ g. g.id == v.guild_id) pass.tables.guilds) (candidates pass ws)
      w,
  any-find? (λ g. g.id == v.guild_id) pass.tables.guilds,
)

abbrev pub HasUniqueIds : List Worker → Type 0
HasUniqueIds ws = (id : String) → count (has_id id) ws ≤ 1

-- A table grows by a row with a new id.
HasUniqueIds-cons :
    (w : Worker) (ws : List Worker)
    → any (has_id w.id) ws ≡ false
    → HasUniqueIds ws
    → HasUniqueIds (w ∷ ws)
unfolding count
HasUniqueIds-cons w ws fresh unique id = elim (Bool-cases (w.id == id)) [
  | inl same ↦
      let at : w.id ≡ id = eq_of_== same in
      let others : any (has_id id) ws ≡ false = rw (sym at) fresh in
      ground (arith, same, count-zero_of_any (has_id id) ws others)
  | inr other ↦ ground (arith, other, unique id)
]

-- The table grew row by row, each with a new id.
abbrev pub AreFresh : List Worker → Type 0
AreFresh [] = Unit
AreFresh (w ∷ ws) = (any (has_id w.id) ws ≡ false) × AreFresh ws

pub unique_of_fresh : (ws : List Worker) → AreFresh ws → HasUniqueIds ws
unfolding count
unique_of_fresh [] h id = omega arith
unique_of_fresh (w ∷ ws) h id = HasUniqueIds-cons w ws h.0 (unique_of_fresh ws h.1) id

-- A row with an id of its own answers for that id.
any-own :
    (p : Worker → Bool) (ws : List Worker) (w : Worker)
    → Memᴰ w ws
    → count (has_id w.id) ws ≤ 1
    → any (λ v. p v && w.id == v.id) ws ≡ p w
any-own p ws w m unique =
    any_congr _ (λ v. p v && v.id == w.id) ws
      (λ v. ground (arith, eq_iff w.id v.id, eq_iff v.id w.id))
    ∙ any-own_unique p (has_id w.id) m (==_refl w.id) unique

-- When the worker ids are unique, one pass disables exactly the rows that are due when it starts,
-- and leaves the others alone, whichever of its messages raise.
pub workers-reap_idle_workers_once :
    (pass : Pass) (r : Reaping)
    → HasUniqueIds r.workers
    → (reap_idle_workers_once pass r).1.workers
      ≡ update (is_due pass) (disabled_at pass.now) r.workers
unfolding reap_idle_workers_once
workers-reap_idle_workers_once pass r unique = elim (Bool-cases (pass.timeout == 0)) [
  | inl off ↦
      rw off (
        sym (update_none (is_due pass) (disabled_at pass.now) r.workers (λ w. ground (arith, off))))
  | inr on ↦ rw on (
      workers-reap_each pass (candidates pass r.workers) r
      ∙ update_congr_of_Mem _ _ _ r.workers (λ w m.
        chosen-candidates pass r.workers w
        ∙ any-own (is_idle pass) r.workers w m (unique w.id)
        ∙ ground (arith, on)))
]
