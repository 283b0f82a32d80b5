-- ===== src/Locks/Examples.antt =====
-- The lock table on concrete inputs.
use pioneer_square.Shared.{
  String, eq_iff, ◌≡◌, ◌≢◌, ◌⊎◌, refl, sym, true, false, none, some, List, [], ◌∷◌, arith, inr,
  filter, any,
}
use pioneer_square.Locks.{
  Lock, Op, acquire_op, release_op, cleanup_op, acquire, release, is_locked, run, lock_row,
}
use pioneer_square.Locks.Exclusion.{
  held, expiring_now, acquire-eq-not-held, acquire_excludes, is_locked-acquire,
}
use pioneer_square.Locks.Ending.{acquire-release, is_locked-release_ne, acquire_after_expiry}

-- "task:a" is locked by "w-1" at instant 100 for two seconds.
abbrev table : List Lock
table = lock_row 100 "task:a" "w-1" 2 ∷ []

abbrev others : List Op
others =
    acquire_op 500 "task:a" "w-2" 60
    ∷ release_op "task:a" (some "w-2")
    ∷ release_op "task:b" none
    ∷ cleanup_op 900
    ∷ []

texts_differ : ◌≢◌ {A = String} "w-2" "w-1"
texts_differ = ground (arith, eq_iff "w-2" "w-1")

keys_differ : ◌≢◌ {A = String} "task:b" "task:a"
keys_differ = ground (arith, eq_iff "task:b" "task:a")

acquire_twice : (acquire 100 "task:a" "w-1" 2 []).1 ≡ table
unfolding acquire filter any
acquire_twice = refl

-- The instant of the expiry: no longer locked, and yet not to be had.
boundary :
    (is_locked 2000100 "task:a" table ≡ false)
    × ((acquire 2000100 "task:a" "w-2" 2 table).0 ≡ false)
unfolding acquire is_locked filter any
boundary = (refl, refl)

acquire_excludes_example :
    (acquire 1000 "task:a" "w-3" 60 (run others (acquire 100 "task:a" "w-1" 2 []).1)).0 ≡ false
unfolding acquire filter any
acquire_excludes_example =
    acquire_excludes 100 "task:a" "w-1" 2 [] others 1000 "w-3" 60 refl
      (omega arith, (inr texts_differ, (keys_differ, (omega arith, tt)))) (omega arith)

acquire-eq-not-held_example : (acquire 1000 "task:a" "w-3" 60 table).0 ≡ false
unfolding held filter any
acquire-eq-not-held_example = acquire-eq-not-held 1000 "task:a" "w-3" 60 table

is_locked-acquire_example :
    (is_locked 2000100 "task:a" table ≡ true → (acquire 2000100 "task:a" "w-2" 2 table).0 ≡ false)
    × ((acquire 2000100 "task:a" "w-2" 2 table).0 ≡ false
        → (is_locked 2000100 "task:a" table ≡ true) ⊎ (expiring_now 2000100 "task:a" table ≡ true))
is_locked-acquire_example = is_locked-acquire 2000100 "task:a" "w-2" 2 table

acquire-release_example : (acquire 500 "task:a" "w-2" 60 (release "task:a" none table)).0 ≡ true
acquire-release_example = acquire-release 500 "task:a" "w-2" 60 table

is_locked-release_ne_example :
    is_locked 500 "task:a" (release "task:b" none table) ≡ is_locked 500 "task:a" table
is_locked-release_ne_example =
    is_locked-release_ne 500 "task:b" "task:a" none table (λ e. keys_differ (sym e))

acquire_after_expiry_example :
    (acquire 2000101 "task:a" "w-2" 60 (acquire 100 "task:a" "w-1" 2 []).1).0 ≡ true
unfolding acquire filter any
acquire_after_expiry_example =
    acquire_after_expiry 100 "task:a" "w-1" 2 [] 2000101 "w-2" 60 refl (omega arith)
