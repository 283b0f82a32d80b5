-- ===== src/Locks.antt =====
-- backend/lock_service.py: the key-value lock table. Each method of `LockService` is a function of
-- the table and of the instant that `datetime.now(UTC)` returns in it. The unique index on
-- `locks.key` (the migrations) is the failing case of `insert`.
pub mod Unique
pub mod Exclusion
pub mod Ending
mod Examples
use pioneer_square.Shared.{
  ℕ, ◌+◌, String, Bool, true, false, not, ◌&&◌, ◌||◌, Option, none, some, seconds, List, [], ◌∷◌,
  ltb, ◌==◌, sql_eq, if◌then◌else◌, filter, any, count, string_eq,
}

pub record Lock : Type 0 where
  pub key : String
  pub owner : Option String
  pub acquired_at : ℕ
  pub expires_at : Option ℕ

abbrev pub default_ttl_seconds : ℕ
default_ttl_seconds = 1800

-- `expires_at IS NOT NULL AND expires_at < now`
unfoldable pub expired : ℕ → Lock → Bool
expired now row = elim row.expires_at [ none ↦ false | some e ↦ ltb e now ]

-- DELETE FROM locks WHERE test
abbrev pub delete : (Lock → Bool) → List Lock → List Lock
delete test table = filter (λ row. not (test row)) table

-- INSERT under the unique index on `key`: `none` is the IntegrityError.
unfoldable pub insert : Lock → List Lock → Option (List Lock)
insert row table = if any (λ r. r.key == row.key) table then none else some (row ∷ table)

abbrev pub granted : Option (List Lock) → List Lock → Bool × List Lock
granted none before = (false, before)
granted (some after) before = (true, after)

-- The row that a successful `acquire` writes.
abbrev pub lock_row : ℕ → String → String → ℕ → Lock
lock_row now key owner ttl = record {
  key = key;
  owner = some owner;
  acquired_at = now;
  expires_at = some (now + seconds ttl);
}

-- The eviction stays when the insert of the savepoint fails.
unfoldable pub acquire : ℕ → String → String → ℕ → List Lock → Bool × List Lock
unfolding expired insert
acquire now key owner ttl table =
    let evicted = delete (λ row. row.key == key && expired now row) table in
    granted (insert (lock_row now key owner ttl) evicted) evicted

abbrev pub owned_by : Option String → Lock → Bool
owned_by none row = true
owned_by (some o) row = sql_eq row.owner o

unfoldable pub release : String → Option String → List Lock → List Lock
release key owner table = delete (λ row. row.key == key && owned_by owner row) table

abbrev pub after : ℕ → Option ℕ → Bool
after now none = true
after now (some e) = ltb now e

unfoldable pub is_locked : ℕ → String → List Lock → Bool
is_locked now key table = any (λ row. row.key == key && after now row.expires_at) table

-- Returns the number of rows removed, too.
unfoldable pub cleanup_expired : ℕ → List Lock → ℕ × List Lock
unfolding expired
cleanup_expired now table = (count (expired now) table, delete (expired now) table)

-- The operations as the clients interleave them; each is one transaction.
pub data Op : Type 0 where
  acquire_op : ℕ → String → String → ℕ → Op
  release_op : String → Option String → Op
  cleanup_op : ℕ → Op

unfoldable pub apply : Op → List Lock → List Lock
apply (acquire_op now key owner ttl) table = (acquire now key owner ttl table).1
apply (release_op key owner) table = release key owner table
apply (cleanup_op now) table = (cleanup_expired now table).1

unfoldable pub run : List Op → List Lock → List Lock
run [] table = table
run (op ∷ ops) table = run ops (apply op table)
