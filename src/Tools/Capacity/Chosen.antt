-- ===== src/Tools/Capacity/Chosen.antt =====
-- Whom a follow-up goes to.
use pioneer_square.Shared.{
  ℕ, ◌≡◌, ◌⊎◌, inl, inr, refl, String, Bool, true, false, ◌&&◌, ◌||◌, Option, none, some, List, [],
  ◌∷◌, ◌==◌, ◌!=◌, string_eq, nat_eq, sql_eq, any, any_imp, arith, find?, if◌then◌else◌, Bool-cases,
  Option-cases, ==_refl,
}
use pioneer_square.Workers.{Agent, is_set}
use pioneer_square.Tools.{Store}
use pioneer_square.Tools.Capacity.{
  works_for_open, has_idle_agent, worker_of, select_followup_worker,
}

-- An idle agent of the worker, which is enabled and not draining.
abbrev pub can_serve : Store → String → Bool
can_serve store worker_id =
    any (λ a. sql_eq a.worker_id worker_id && a.state == "idle" && works_for_open store.workers a)
      store.agents

and_right : (a b : Bool) → (a && b) ≡ true → b ≡ true
and_right true b h = h
and_right false b h = cc

-- The same of an agent of the guild.
abbrev pub can_serve_in : ℕ → Store → String → Bool
can_serve_in guild_pk store worker_id =
    any
      (λ a.
        a.guild_id == guild_pk
        && sql_eq a.worker_id worker_id
        && a.state == "idle"
        && works_for_open store.workers a)
      store.agents

can_serve_of_in :
    (guild_pk : ℕ) (store : Store) (worker_id : String)
    → can_serve_in guild_pk store worker_id ≡ true
    → can_serve store worker_id ≡ true
can_serve_of_in guild_pk store worker_id h =
    any_imp
      (λ a.
        a.guild_id == guild_pk
        && sql_eq a.worker_id worker_id
        && a.state == "idle"
        && works_for_open store.workers a)
      (λ a. sql_eq a.worker_id worker_id && a.state == "idle" && works_for_open store.workers a)
      store.agents (λ a own. ground (arith, own)) h

-- Such an agent of the guild, of any worker.
abbrev pub idle_in : ℕ → Store → Agent → Bool
idle_in guild_pk store a =
    a.guild_id == guild_pk
    && a.state == "idle"
    && is_set a.worker_id
    && works_for_open store.workers a

abbrev pub anyone_idle : ℕ → Store → Bool
anyone_idle guild_pk store =
    any
      (λ a.
        a.guild_id == guild_pk
        && a.state == "idle"
        && is_set a.worker_id
        && works_for_open store.workers a)
      store.agents

some-injective : {b a : String} → some b ≡ some a → b ≡ a
some-injective h = cc

idle_and_open :
    (g i s w : Bool) → (g && i && s && w) ≡ true → (g ≡ true) × (i ≡ true) × (s ≡ true) × (w ≡ true)
idle_and_open true true true true h = (refl, refl, refl, refl)
idle_and_open true true true false h = cc
idle_and_open true true false w h = cc
idle_and_open true false s w h = cc
idle_and_open false i s w h = cc

sql_eq-some : (o : Option String) (a : String) → o ≡ some a → sql_eq o a ≡ true
sql_eq-some none a h = cc
sql_eq-some (some b) a h = rw (some-injective h) (==_refl a)

idle_one :
    (store : Store) (who : Option String)
    → has_idle_agent store who ≡ true
    → (worker_id : String) × (who ≡ some worker_id) × (can_serve store worker_id ≡ true)
unfolding has_idle_agent
idle_one store none h = cc
idle_one store (some w) h = (w, refl, and_right (w != "") (can_serve store w) h)

or_right : (a b : Bool) → b ≡ true → (a || b) ≡ true
or_right true b h = refl
or_right false b h = h

of_found :
    (b : Bool) (a : Agent) (rest : Option Agent) {o : Option String}
    → b ≡ true
    → worker_of (if b then some a else rest) ≡ o
    → a.worker_id ≡ o
of_found true a rest e h = h
of_found false a rest e h = cc

of_other :
    (b : Bool) (a : Agent) (rest : Option Agent) {o : Option String}
    → b ≡ false
    → worker_of (if b then some a else rest) ≡ o
    → worker_of rest ≡ o
of_other true a rest e h = cc
of_other false a rest e h = h

found_agent :
    (guild_pk : ℕ) (store : Store) (agents : List Agent) (worker_id : String)
    → worker_of (
        find?
          (λ a.
            a.guild_id == guild_pk
            && a.state == "idle"
            && is_set a.worker_id
            && works_for_open store.workers a)
          agents)
      ≡ some worker_id
    → any
        (λ a.
          a.guild_id == guild_pk
          && sql_eq a.worker_id worker_id
          && a.state == "idle"
          && works_for_open store.workers a)
        agents
      ≡ true
unfolding find? any
found_agent guild_pk store [] worker_id h = cc
found_agent guild_pk store (a ∷ agents) worker_id h =
    elim (Bool-cases (
      a.guild_id == guild_pk
      && a.state == "idle"
      && is_set a.worker_id
      && works_for_open store.workers a)) [
        | inl found ↦
            let (own, idle, has_worker, open_worker) =
              idle_and_open (a.guild_id == guild_pk) (a.state == "idle") (is_set a.worker_id)
                (works_for_open store.workers a) found in
            let owner : a.worker_id ≡ some worker_id = of_found _ _ _ found h in
            rw (own, sql_eq-some a.worker_id worker_id owner, idle, open_worker) refl
        | inr other ↦
            or_right _ _ (found_agent guild_pk store agents worker_id (of_other _ _ _ other h))
      ]

not_set : (o : Option String) → is_set o ≡ true → o ≡ none → ⊥
not_set none h e = cc
not_set (some w) h e = cc

no_agent :
    (guild_pk : ℕ) (store : Store) (agents : List Agent)
    → worker_of (
        find?
          (λ a.
            a.guild_id == guild_pk
            && a.state == "idle"
            && is_set a.worker_id
            && works_for_open store.workers a)
          agents)
      ≡ none
    → any
        (λ a.
          a.guild_id == guild_pk
          && a.state == "idle"
          && is_set a.worker_id
          && works_for_open store.workers a)
        agents
      ≡ false
unfolding find? any
no_agent guild_pk store [] h = refl
no_agent guild_pk store (a ∷ agents) h =
    elim (Bool-cases (
      a.guild_id == guild_pk
      && a.state == "idle"
      && is_set a.worker_id
      && works_for_open store.workers a)) [
        | inl found ↦
            let (own, idle, has_worker, open_worker) =
              idle_and_open (a.guild_id == guild_pk) (a.state == "idle") (is_set a.worker_id)
                (works_for_open store.workers a) found in
            absurd (not_set a.worker_id has_worker (of_found _ _ _ found h))
        | inr other ↦ rw other (no_agent guild_pk store agents (of_other _ _ _ other h))
      ]

-- Whose turn it is: the preferred worker, the task's own one if the preferred one cannot, or a
-- worker with such an agent in the guild if neither can.
abbrev pub InOrder : ℕ → Option String → Option String → Store → String → Type 0
InOrder guild_pk original preferred store worker_id =
    (preferred ≡ some worker_id)
    ⊎ ((has_idle_agent store preferred ≡ false) × (original ≡ some worker_id))
    ⊎ ((has_idle_agent store preferred ≡ false)
        × (has_idle_agent store original ≡ false)
        × (can_serve_in guild_pk store worker_id ≡ true))

-- A follow-up goes to a worker that has an idle agent, is enabled and is not draining: the preferred
-- one if it is such, in whatever guild, else the task's own if it is, in whatever guild, else one
-- with such an agent in the guild; and to nobody only when neither of the two is such and the guild
-- has no such agent.
pub select_followup_worker_lem :
    (guild_pk : ℕ) (original preferred : Option String) (store : Store)
    → ((select_followup_worker guild_pk original preferred store ≡ none)
        × (has_idle_agent store preferred ≡ false)
        × (has_idle_agent store original ≡ false)
        × (anyone_idle guild_pk store ≡ false))
      ⊎ ((worker_id : String) × (select_followup_worker guild_pk original preferred store
            ≡ some worker_id)
          × (can_serve store worker_id ≡ true)
          × InOrder guild_pk original preferred store worker_id)
unfolding select_followup_worker
select_followup_worker_lem guild_pk original preferred store =
    elim (Bool-cases (has_idle_agent store preferred)) [
      | inl is_preferred ↦
          let (w, named, serves) = idle_one store preferred is_preferred in
          inr (w, rw is_preferred named, serves, inl named)
      | inr not_preferred ↦ elim (Bool-cases (has_idle_agent store original)) [
        | inl is_own ↦
            let (w, named, serves) = idle_one store original is_own in
            inr (w, rw (not_preferred, is_own) named, serves, inr (inl (not_preferred, named)))
        | inr not_own ↦
            elim (Option-cases (worker_of (find? (idle_in guild_pk store) store.agents))) [
              | inl nobody ↦ inl (
                rw (not_preferred, not_own) nobody,
                not_preferred,
                not_own,
                no_agent guild_pk store store.agents nobody,
              )
              | inr (w, found) ↦ inr (
                w,
                rw (not_preferred, not_own) found,
                can_serve_of_in guild_pk store w (found_agent guild_pk store store.agents w found),
                inr (inr (not_preferred, not_own, found_agent guild_pk store store.agents w found)),
              )
            ]
      ]
    ]
