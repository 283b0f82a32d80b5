-- ===== src/Locks/Ending.antt =====
-- How a lock ends: by `release`, and by its expiry.
use pioneer_square.Shared.{
  ℕ, ◌+◌, ◌<◌, String, eq_iff, ◌≡◌, ◌≢◌, refl, ap, ◌∙◌, Bool, true, false, not, ◌&&◌, Option, none,
  List, [], ◌∷◌, arith, seconds, ◌==◌, string_eq, nat_eq, any, any-filter, any_congr,
  any-false_of_imp,
}
use pioneer_square.Locks.{
  Lock, acquire, release, insert, expired, lock_row, is_locked, owned_by, after, granted,
}
use pioneer_square.Locks.Exclusion.{held, acquire-eq-not-held}

any-false {ℓ} : {A : Type ℓ} (xs : List A) → any (λ (x : A). false) xs ≡ false
unfolding any
any-false [] = refl
any-false (x ∷ xs) = any-false xs

-- A release by nobody in particular frees the key for the next `acquire`.
pub acquire-release :
    (now : ℕ) (key owner : String) (ttl : ℕ) (table : List Lock)
    → (acquire now key owner ttl (release key none table)).0 ≡ true
acquire-release now key owner ttl table =
    acquire-eq-not-held now key owner ttl (release key none table) ∙ ap not gone
  where
    none_left :
        (row : Lock)
        → (not (row.key == key && true) && (row.key == key && not (expired now row))) ≡ false
    none_left row = ground arith

    gone : held now key (release key none table) ≡ false
    gone =
        unfold held release in
        (any-filter _ _ table ∙ any_congr _ _ table none_left ∙ any-false table)

-- A release touches no other key.
pub is_locked-release_ne :
    (now : ℕ) (key j : String) (owner : Option String) (table : List Lock)
    → j ≢ key
    → is_locked now j (release key owner table) ≡ is_locked now j table
unfolding is_locked release
is_locked-release_ne now key j owner table ne = any-filter _ _ table ∙ any_congr _ _ table same
  where
    same :
        (row : Lock)
        → (not (row.key == key && owned_by owner row) && (row.key == j && after now row.expires_at))
          ≡ (row.key == j && after now row.expires_at)
    same row = ground (arith, eq_iff row.key key, eq_iff row.key j)

held-granted :
    (now : ℕ) (row : Lock) (table : List Lock)
    → expired now row ≡ true
    → (granted (insert row table) table).0 ≡ true
    → held now row.key (granted (insert row table) table).1 ≡ false
unfolding held insert any
held-granted now row table old g = ground (
  arith,
  any-false_of_imp (λ (r : Lock). r.key == row.key)
      (λ (r : Lock). r.key == row.key && not (expired now r)) table
      (λ (r : Lock). same_key (r.key == row.key) (expired now r)),
)
  where
    same_key : (a b : Bool) → (a && not b) ≡ true → a ≡ true
    same_key a b h = ground arith

held-acquired :
    (now : ℕ) (key owner : String) (ttl : ℕ) (table : List Lock) (now' : ℕ)
    → (acquire now key owner ttl table).0 ≡ true
    → now + seconds ttl < now'
    → held now' key (acquire now key owner ttl table).1 ≡ false
unfolding acquire
held-acquired now key owner ttl table now' g late =
    held-granted now' (lock_row now key owner ttl) _ (ground arith) g

-- A lock that nobody released is free again once its time has passed.
pub acquire_after_expiry :
    (now : ℕ) (key owner : String) (ttl : ℕ) (table : List Lock) (now' : ℕ) (owner' : String)
    (ttl' : ℕ)
    → (acquire now key owner ttl table).0 ≡ true
    → now + seconds ttl < now'
    → (acquire now' key owner' ttl' (acquire now key owner ttl table).1).0 ≡ true
acquire_after_expiry now key owner ttl table now' owner' ttl' g late =
    acquire-eq-not-held now' key owner' ttl' (acquire now key owner ttl table).1
    ∙ ap not (held-acquired now key owner ttl table now' g late)
