-- ===== src/Workers/Reaper/Reported.antt =====
-- Which ids a pass of the reaper returns.
use pioneer_square.Shared.{
  ◌≡◌, refl, sym, ap, ◌∙◌, true, false, ◌&&◌, ◌||◌, Option, none, some, String, List, [], ◌∷◌, ◌==◌,
  nat_eq, string_eq, if◌then◌else◌, find?, filter, map, any, arith, any-update, any_congr,
  filter_none, filter_congr, any_none, Bool-cases, inl, inr,
}
use pioneer_square.Workers.{Worker, Guild, Effect, is_set}
use pioneer_square.Workers.Reaper.{
  Candidate, Reaping, Pass, candidates, with_slug, reap_one, reap_each, reap_idle_workers_once,
}
use pioneer_square.Workers.Reaper.Sweep.{
  passes, is_idle, is_due, lets_through, any-find?, HasUniqueIds, workers-reap_idle_workers_once,
}

-- Every message goes out.
abbrev pub Delivers : Pass → Type 0
Delivers pass = (effect : Effect) → pass.delivers effect ≡ true

reported-reap_one :
    (pass : Pass) (c : Candidate) (r : Reaping)
    → Delivers pass
    → (reap_one pass c r).0 ≡ passes pass c
unfolding reap_one passes
reported-reap_one pass c r sends = ground (
  arith,
  sends (Effect.shutdown c.guild_slug c.worker_id),
  sends (Effect.terminal_line c.guild_slug c.worker_id),
)

reported-spared :
    (pass : Pass) (c : Candidate) (r : Reaping)
    → passes pass c ≡ false
    → (reap_one pass c r).0 ≡ false
unfolding reap_one passes
reported-spared pass c r spared = ground (arith, spared)

abbrev candidate_id : Candidate → String
candidate_id c = c.worker_id

reap_each-reported :
    (pass : Pass) (cs : List Candidate) (r : Reaping)
    → Delivers pass
    → (reap_each pass cs r).0 ≡ map candidate_id (filter (passes pass) cs)
unfolding reap_each filter
reap_each-reported pass [] r sends = refl
reap_each-reported pass (c ∷ cs) r sends = ground (
  arith,
  reported-reap_one pass c r sends,
  reap_each-reported pass cs (reap_one pass c r).1 sends,
)

reap_each-none :
    (pass : Pass) (cs : List Candidate) (r : Reaping)
    → any (passes pass) cs ≡ false
    → (reap_each pass cs r).0 ≡ []
unfolding reap_each any
reap_each-none pass [] r none_pass = refl
reap_each-none pass (c ∷ cs) r none_pass =
    ground
      (arith, none_pass, reported-spared pass c r, reap_each-none pass cs (reap_one pass c r).1)

filter-with_slug :
    (pass : Pass) (v : Worker) (found : Option Guild) (cs : List Candidate)
    → map candidate_id (filter (passes pass) (with_slug v found cs)) ≡ (
        if is_set found && lets_through pass v
        then v.id ∷ map candidate_id (filter (passes pass) cs)
        else map candidate_id (filter (passes pass) cs))
unfolding filter passes
filter-with_slug pass v none cs = refl
filter-with_slug pass v (some g) cs = ground arith

abbrev pub worker_id : Worker → String
worker_id w = w.id

filter-candidates :
    (pass : Pass) (ws : List Worker)
    → map candidate_id (filter (passes pass) (candidates pass ws))
      ≡ map worker_id (filter (is_idle pass) ws)
unfolding filter candidates
filter-candidates pass [] = refl
filter-candidates pass (v ∷ ws) = ground (
  arith,
  filter-candidates pass ws,
  filter-with_slug pass v (find? (λ g. g.id == v.guild_id) pass.tables.guilds) (candidates pass ws),
  any-find? (λ g. g.id == v.guild_id) pass.tables.guilds,
)

-- When no message raises, a pass returns the ids of the rows that are due, in their order.
pub reap_idle_workers_once-filter :
    (pass : Pass) (r : Reaping)
    → Delivers pass
    → (reap_idle_workers_once pass r).0 ≡ map worker_id (filter (is_due pass) r.workers)
unfolding reap_idle_workers_once
reap_idle_workers_once-filter pass r sends = elim (Bool-cases (pass.timeout == 0)) [
  | inl off ↦
      rw off
        (ap (map worker_id) (sym (filter_none (is_due pass) r.workers (λ w. ground (arith, off)))))
  | inr on ↦ rw on (
      reap_each-reported pass (candidates pass r.workers) r sends
      ∙ filter-candidates pass r.workers
      ∙ ap (map worker_id) (filter_congr _ _ r.workers (λ w. ground (arith, on))))
]

any-passes-with_slug :
    (pass : Pass) (v : Worker) (found : Option Guild) (cs : List Candidate)
    → any (passes pass) (with_slug v found cs)
      ≡ (is_set found && lets_through pass v || any (passes pass) cs)
unfolding any passes
any-passes-with_slug pass v none cs = refl
any-passes-with_slug pass v (some g) cs = refl

any-candidates :
    (pass : Pass) (ws : List Worker)
    → any (passes pass) (candidates pass ws) ≡ any (is_idle pass) ws
unfolding any candidates
any-candidates pass [] = refl
any-candidates pass (v ∷ ws) = ground (
  arith,
  any-candidates pass ws,
  any-passes-with_slug pass v (find? (λ g. g.id == v.guild_id) pass.tables.guilds)
      (candidates pass ws),
  any-find? (λ g. g.id == v.guild_id) pass.tables.guilds,
)

none_left :
    (pass : Pass) (r : Reaping)
    → HasUniqueIds r.workers
    → any (is_due pass) (reap_idle_workers_once pass r).1.workers ≡ false
none_left pass r unique =
    ap (any (is_due pass)) (workers-reap_idle_workers_once pass r unique)
    ∙ any-update _ _ _ r.workers
    ∙ any_none _ r.workers (λ w. ground arith)

reap_idle_workers_once-none :
    (pass : Pass) (r : Reaping)
    → any (is_due pass) r.workers ≡ false
    → (reap_idle_workers_once pass r).0 ≡ []
unfolding reap_idle_workers_once
reap_idle_workers_once-none pass r nobody = elim (Bool-cases (pass.timeout == 0)) [
  | inl off ↦ rw off refl
  | inr on ↦
      let idle : any (is_idle pass) r.workers ≡ false =
        any_congr _ _ r.workers (λ w. ground (arith, on)) ∙ nobody in
      rw on
        (reap_each-none pass (candidates pass r.workers) r (any-candidates pass r.workers ∙ idle))
]

-- When the worker ids are unique, a second pass at the same instant reaps nobody.
pub reap_idle_workers_once-again :
    (pass : Pass) (r : Reaping)
    → HasUniqueIds r.workers
    → (reap_idle_workers_once pass (reap_idle_workers_once pass r).1).0 ≡ []
reap_idle_workers_once-again pass r unique =
    reap_idle_workers_once-none pass (reap_idle_workers_once pass r).1 (none_left pass r unique)
