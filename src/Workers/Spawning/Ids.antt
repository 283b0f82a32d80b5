-- ===== src/Workers/Spawning/Ids.antt =====
-- The ids that are generated are new.
use Prim.Native.String.{◌++◌}
use pioneer_square.Shared.{
  String, ◌≡◌, refl, Bool, false, some, List, [], ◌∷◌, any, arith, Bool-cases, inl, inr, subst, not,
}
use pioneer_square.Workers.{Worker, is_set}
use pioneer_square.Workers.Reaper.{has_id}
use pioneer_square.Workers.Spawning.{first_free, generate_worker_id}

some_inj : (a b : String) → some a ≡ some b → a ≡ b
some_inj a b h = cc

first_free-fresh :
    (workers : List Worker) (draws : List String) (id : String)
    → first_free workers draws ≡ some id
    → any (has_id id) workers ≡ false
unfolding first_free
first_free-fresh workers [] id h = cc
first_free-fresh workers (draw ∷ draws) id h =
    elim (Bool-cases (any (has_id ("w-" ++ draw)) workers)) [
      | inl taken ↦ first_free-fresh workers draws id (ground (arith, taken, h))
      | inr free ↦
          let at : some ("w-" ++ draw) ≡ some id = ground (arith, free, h) in
          subst (λ j. any (has_id j) workers ≡ false) (some_inj ("w-" ++ draw) id at) free
    ]

-- A generated id is the id of no row.
pub generate_worker_id-fresh :
    (workers : List Worker) (a b c d e id : String)
    → generate_worker_id workers a b c d e ≡ some id
    → any (has_id id) workers ≡ false
generate_worker_id-fresh workers a b c d e id h =
    first_free-fresh workers (a ∷ b ∷ c ∷ d ∷ e ∷ []) id h

abbrev pub is_free : List Worker → String → Bool
is_free workers draw = not (any (has_id ("w-" ++ draw)) workers)

is_set-first_free :
    (workers : List Worker) (draws : List String)
    → is_set (first_free workers draws) ≡ any (is_free workers) draws
unfolding first_free any
is_set-first_free workers [] = refl
is_set-first_free workers (draw ∷ draws) = ground (arith, is_set-first_free workers draws)

-- An id is generated exactly when one of the five draws is not taken.
pub is_set-generate_worker_id :
    (workers : List Worker) (a b c d e : String)
    → is_set (generate_worker_id workers a b c d e) ≡ any (is_free workers) (a ∷ b ∷ c ∷ d ∷ e ∷ [])
is_set-generate_worker_id workers a b c d e = is_set-first_free workers (a ∷ b ∷ c ∷ d ∷ e ∷ [])
