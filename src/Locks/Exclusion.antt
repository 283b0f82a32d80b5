-- ===== src/Locks/Exclusion.antt =====
-- Mutual exclusion: what `acquire` answers, and how long a granted lock holds against the others.
use pioneer_square.Shared.{
  ℕ, ◌+◌, ◌≤◌, String, eq_iff, ◌≡◌, ◌≢◌, ap, ◌∙◌, sql_eq, some_of_sql_eq, ◌⊎◌, Bool, true, false,
  not, ◌&&◌, ◌||◌, Option, none, some, List, [], ◌∷◌, arith, seconds, ◌==◌, string_eq, option_eq,
  nat_eq, any, All, any-filter, any-or, any-filter_of_imp, any_imp, any_congr, if◌then◌else◌,
}
use pioneer_square.Locks.{
  Lock, Op, acquire_op, release_op, cleanup_op, acquire, release, cleanup_expired, insert, expired,
  apply, run, delete, lock_row, is_locked, after, granted,
}

-- A row for `key` that has not passed its expiry.
unfoldable pub held : ℕ → String → List Lock → Bool
unfolding expired
held now key table = any (λ row. row.key == key && not (expired now row)) table

pub evicted-eq-held :
    (now : ℕ) (key : String) (table : List Lock)
    → any (λ (r : Lock). r.key == key) (delete (λ row. row.key == key && expired now row) table)
      ≡ held now key table
unfolding held
evicted-eq-held now key table =
    any-filter _ _ table ∙ any_congr _ _ table (λ row. absorb (row.key == key) (expired now row))
  where
    absorb : (a b : Bool) → (not (a && b) && a) ≡ (a && not b)
    absorb a b = ground arith

granted_if :
    (b : Bool) (after before : List Lock)
    → (granted (if b then none else some after) before).0 ≡ not b
granted_if b after before = ground arith

-- `acquire` grants the lock exactly when no unexpired row of the key is there.
pub acquire-eq-not-held :
    (now : ℕ) (key owner : String) (ttl : ℕ) (table : List Lock)
    → (acquire now key owner ttl table).0 ≡ not (held now key table)
unfolding acquire
acquire-eq-not-held now key owner ttl table =
    granted_if _ _ _ ∙ ap not (evicted-eq-held now key table)

-- A row of `owner` on `key` that expires at `until`.
abbrev is_lease : String → String → ℕ → Lock → Bool
is_lease key owner until row =
    row.key == key && sql_eq row.owner owner && sql_eq row.expires_at until

unfoldable pub leased : String → String → ℕ → List Lock → Bool
leased key owner until table = any (is_lease key owner until) table

-- The operations that cannot end a lease: all but a release by the owner or by nobody in
-- particular, made no later than the lease's expiry.
abbrev pub Harmless : String → String → ℕ → Op → Type 0
Harmless key owner until (acquire_op now _ _ _) = now ≤ until
Harmless key owner until (release_op k none) = k ≢ key
Harmless key owner until (release_op k (some o)) = (k ≢ key) ⊎ (o ≢ owner)
Harmless key owner until (cleanup_op now) = now ≤ until

lease-not-expired :
    (key owner : String) (until now : ℕ) (row : Lock)
    → now ≤ until
    → is_lease key owner until row ≡ true
    → expired now row ≡ false
unfolding expired
lease-not-expired key owner until now row le h = ground arith

any-granted :
    (p : Lock → Bool) (row : Lock) (table : List Lock)
    → any p table ≡ true
    → any p (granted (insert row table) table).1 ≡ true
unfolding insert any
any-granted p row table h = ground arith

acquire-leased :
    (key owner : String) (until now : ℕ) (k o : String) (ttl : ℕ) (table : List Lock)
    → now ≤ until
    → leased key owner until table ≡ true
    → leased key owner until (acquire now k o ttl table).1 ≡ true
unfolding leased acquire
acquire-leased key owner until now k o ttl table le h =
    any-granted _ _ _ (any-filter_of_imp _ _ table keep h)
  where
    keep :
        (row : Lock)
        → is_lease key owner until row ≡ true
        → not (row.key == k && expired now row) ≡ true
    keep row l = ground (arith, lease-not-expired key owner until now row le l)

release-leased :
    (key owner : String) (until : ℕ) (k : String) (o : Option String) (table : List Lock)
    → Harmless key owner until (release_op k o)
    → leased key owner until table ≡ true
    → leased key owner until (release k o table) ≡ true
unfolding leased release
release-leased key owner until k none table safe h = any-filter_of_imp _ _ table keep h
  where
    keep : (row : Lock) → is_lease key owner until row ≡ true → not (row.key == k && true) ≡ true
    keep row l = ground (arith, eq_iff row.key key, eq_iff row.key k)
release-leased key owner until k (some o) table safe h = any-filter_of_imp _ _ table keep h
  where
    keep :
        (row : Lock)
        → is_lease key owner until row ≡ true
        → not (row.key == k && sql_eq row.owner o) ≡ true
    keep row l = ground (
      arith,
      some_of_sql_eq row.owner owner,
      eq_iff row.key key,
      eq_iff row.key k,
      eq_iff owner o,
    )

cleanup-leased :
    (key owner : String) (until now : ℕ) (table : List Lock)
    → now ≤ until
    → leased key owner until table ≡ true
    → leased key owner until (cleanup_expired now table).1 ≡ true
unfolding leased cleanup_expired
cleanup-leased key owner until now table le h =
    any-filter_of_imp _ _ table
      (λ row l. ground (arith, lease-not-expired key owner until now row le l)) h

apply-leased :
    (key owner : String) (until : ℕ) (op : Op) (table : List Lock)
    → Harmless key owner until op
    → leased key owner until table ≡ true
    → leased key owner until (apply op table) ≡ true
unfolding apply
apply-leased key owner until (acquire_op now k o ttl) table safe h =
    acquire-leased key owner until now k o ttl table safe h
apply-leased key owner until (release_op k o) table safe h =
    release-leased key owner until k o table safe h
apply-leased key owner until (cleanup_op now) table safe h =
    cleanup-leased key owner until now table safe h

run-leased :
    (key owner : String) (until : ℕ) (ops : List Op) (table : List Lock)
    → All (Harmless key owner until) ops
    → leased key owner until table ≡ true
    → leased key owner until (run ops table) ≡ true
unfolding run
run-leased key owner until [] table safe h = h
run-leased key owner until (op ∷ ops) table safe h =
    run-leased key owner until ops (apply op table) safe.1
      (apply-leased key owner until op table safe.0 h)

any-granted_row :
    (p : Lock → Bool) (row : Lock) (table : List Lock)
    → p row ≡ true
    → (granted (insert row table) table).0 ≡ true
    → any p (granted (insert row table) table).1 ≡ true
unfolding insert any
any-granted_row p row table h g = ground arith

is_lease-lock_row :
    (now : ℕ) (key owner : String) (ttl : ℕ)
    → is_lease key owner (now + seconds ttl) (lock_row now key owner ttl) ≡ true
is_lease-lock_row now key owner ttl = ground (arith, eq_iff key key, eq_iff owner owner)

acquire-grants-lease :
    (now : ℕ) (key owner : String) (ttl : ℕ) (table : List Lock)
    → (acquire now key owner ttl table).0 ≡ true
    → leased key owner (now + seconds ttl) (acquire now key owner ttl table).1 ≡ true
unfolding acquire leased
acquire-grants-lease now key owner ttl table h =
    any-granted_row _ _ _ (is_lease-lock_row now key owner ttl) h

lease-held :
    (key owner : String) (until now : ℕ) (table : List Lock)
    → now ≤ until
    → leased key owner until table ≡ true
    → held now key table ≡ true
unfolding leased held
lease-held key owner until now table le h =
    any_imp _ _ table (λ row l. ground (arith, lease-not-expired key owner until now row le l)) h

-- Mutual exclusion. Once `owner` has been granted `key` at `now` for `ttl`, then after any
-- operations made no later than `now + seconds ttl`, none of which releases `key` in the owner's name or
-- in nobody's, every further `acquire` of `key` up to that instant is refused, whoever asks.
pub acquire_excludes :
    (now : ℕ) (key owner : String) (ttl : ℕ) (table : List Lock) (ops : List Op) (now' : ℕ)
    (owner' : String) (ttl' : ℕ)
    → (acquire now key owner ttl table).0 ≡ true
    → All (Harmless key owner (now + seconds ttl)) ops
    → now' ≤ now + seconds ttl
    → (acquire now' key owner' ttl' (run ops (acquire now key owner ttl table).1)).0 ≡ false
acquire_excludes now key owner ttl table ops now' owner' ttl' granted safe le =
    let left = run ops (acquire now key owner ttl table).1 in
    let lease =
      run-leased key owner (now + seconds ttl) ops _ safe
        (acquire-grants-lease now key owner ttl table granted) in
    acquire-eq-not-held now' key owner' ttl' left
    ∙ ap not (lease-held key owner (now + seconds ttl) now' left le lease)

abbrev pub expiring_now : ℕ → String → List Lock → Bool
expiring_now now key table = any (λ row. row.key == key && sql_eq row.expires_at now) table

held-eq-or :
    (now : ℕ) (key : String) (table : List Lock)
    → held now key table ≡ (is_locked now key table || expiring_now now key table)
unfolding held is_locked
held-eq-or now key table = any_congr _ _ table split ∙ any-or _ _ table
  where
    split :
        (row : Lock)
        → (row.key == key && not (expired now row)) ≡ (
            row.key == key && after now row.expires_at
            || row.key == key && sql_eq row.expires_at now)
    split row = ground arith

-- What `is_locked` says of the next `acquire` at the same instant: a key that is locked is refused;
-- and one that is refused is locked, or has a row that expires at this very instant.
pub is_locked-acquire :
    (now : ℕ) (key owner : String) (ttl : ℕ) (table : List Lock)
    → (is_locked now key table ≡ true → (acquire now key owner ttl table).0 ≡ false)
      × ((acquire now key owner ttl table).0 ≡ false
          → (is_locked now key table ≡ true) ⊎ (expiring_now now key table ≡ true))
is_locked-acquire now key owner ttl table =
    ground (arith, acquire-eq-not-held now key owner ttl table, held-eq-or now key table)
