-- ===== src/Workers/Spawning/Cooldown.antt =====
-- When the cooldown holds a spawn back.
use pioneer_square.Shared.{
  ℕ, ◌+◌, ◌<◌, String, ◌≡◌, refl, ◌∙◌, Bool, true, false, ◌&&◌, ◌||◌, Option, none, some, List, [],
  ◌∷◌, ltb, ◌==◌, nat_eq, string_eq, any, arith, any-update, any_imp,
}
use pioneer_square.Workers.{Worker, is_set}
use pioneer_square.Workers.Reaper.{has_id}
use pioneer_square.Workers.Spawning.{
  latest, last_spawn, remaining, check_worker_spawn_cooldown, record_worker_spawn,
}

abbrev pub started_within : ℕ → ℕ → Option ℕ → Bool
started_within cooldown now none = false
started_within cooldown now (some at) = ltb now (at + cooldown)

within-latest :
    (cooldown now : ℕ) (a b : Option ℕ)
    → started_within cooldown now (latest a b)
      ≡ (started_within cooldown now a || started_within cooldown now b)
within-latest cooldown now none b = refl
within-latest cooldown now (some a) none = ground arith
within-latest cooldown now (some a) (some b) = ground arith

within-last_spawn :
    (cooldown now guild_pk : ℕ) (ws : List Worker)
    → started_within cooldown now (last_spawn guild_pk ws)
      ≡ any (λ w. w.guild_id == guild_pk && started_within cooldown now w.started_at) ws
unfolding last_spawn any
within-last_spawn cooldown now guild_pk [] = refl
within-last_spawn cooldown now guild_pk (w ∷ ws) = ground (
  arith,
  within-latest cooldown now w.started_at (last_spawn guild_pk ws),
  within-last_spawn cooldown now guild_pk ws,
)

is_set-remaining :
    (cooldown now : ℕ) (last : Option ℕ)
    → is_set (remaining cooldown now last) ≡ started_within cooldown now last
is_set-remaining cooldown now none = refl
is_set-remaining cooldown now (some last) = ground arith

-- A remaining cooldown is reported exactly when a worker of the guild was started within it.
pub is_set-check_worker_spawn_cooldown :
    (cooldown now guild_pk : ℕ) (ws : List Worker)
    → is_set (check_worker_spawn_cooldown cooldown now guild_pk ws)
      ≡ any (λ w. w.guild_id == guild_pk && started_within cooldown now w.started_at) ws
unfolding check_worker_spawn_cooldown
is_set-check_worker_spawn_cooldown cooldown now guild_pk ws =
    is_set-remaining cooldown now (last_spawn guild_pk ws)
    ∙ within-last_spawn cooldown now guild_pk ws

-- After a spawn of one of the guild's workers was recorded, a cooldown is reported until its time
-- has passed, whatever the other rows say.
pub check_worker_spawn_cooldown-record_worker_spawn :
    (cooldown now then_ guild_pk : ℕ) (version : Option String) (worker_id container_id : String)
    (ws : List Worker)
    → any (λ w. has_id worker_id w && w.guild_id == guild_pk) ws ≡ true
    → now < then_ + cooldown
    → is_set (
        check_worker_spawn_cooldown cooldown now guild_pk
          (record_worker_spawn then_ version worker_id container_id ws))
      ≡ true
unfolding record_worker_spawn
check_worker_spawn_cooldown-record_worker_spawn cooldown now then_ guild_pk version worker_id
      container_id ws here soon =
    is_set-check_worker_spawn_cooldown cooldown now guild_pk _
    ∙ any-update _ _ _ ws
    ∙ any_imp (λ w. has_id worker_id w && w.guild_id == guild_pk) _ ws
        (λ w both. ground (arith, both, soon)) here
