-- ===== src/Locks/Unique.antt =====
-- At most one row for a key, under every sequence of operations.
use pioneer_square.Shared.{
  ℕ, ◌≤◌, String, eq_iff, Option, some, none, ◌≡◌, refl, Bool, List, [], ◌∷◌, arith, ◌==◌,
  string_eq, filter, count, count-filter, count-zero_of_any,
}
use pioneer_square.Locks.{
  Lock, Op, acquire_op, release_op, cleanup_op, acquire, release, cleanup_expired, insert, apply,
  run, lock_row, granted,
}

pub record HasUniqueKeys (table : List Lock) : Type 0 where
  pub at_most_one : (k : String) → count (λ row. row.key == k) table ≤ 1

filter-HasUniqueKeys :
    (p : Lock → Bool) {table : List Lock} → HasUniqueKeys table → HasUniqueKeys (filter p table)
filter-HasUniqueKeys p {table} u = record {
  at_most_one =
      λ k. omega (arith, count-filter (λ (row : Lock). row.key == k) p table, u.at_most_one k);
}

pub empty-HasUniqueKeys : HasUniqueKeys []
unfolding count
empty-HasUniqueKeys = record { at_most_one = λ k. omega arith }

-- The unique index: a row is inserted only beside rows of other keys.
insert-HasUniqueKeys :
    (row : Lock) (table : List Lock) {table' : List Lock}
    → HasUniqueKeys table
    → insert row table ≡ some table'
    → HasUniqueKeys table'
unfolding insert count
insert-HasUniqueKeys row table u h = record {
  at_most_one = λ k. ground (
    arith,
    u.at_most_one k,
    count-zero_of_any (λ (r : Lock). r.key == row.key) table,
    eq_iff row.key k,
  );
}

granted-HasUniqueKeys :
    (o : Option (List Lock)) {table : List Lock}
    → HasUniqueKeys table
    → ((table' : List Lock) → o ≡ some table' → HasUniqueKeys table')
    → HasUniqueKeys (granted o table).1
granted-HasUniqueKeys none u k = u
granted-HasUniqueKeys (some t) u k = k t refl

acquire-HasUniqueKeys :
    (now : ℕ) (key owner : String) (ttl : ℕ) {table : List Lock}
    → HasUniqueKeys table
    → HasUniqueKeys (acquire now key owner ttl table).1
unfolding acquire
acquire-HasUniqueKeys now key owner ttl u =
    let kept = filter-HasUniqueKeys _ u in
    granted-HasUniqueKeys _ kept (λ t h. insert-HasUniqueKeys (lock_row now key owner ttl) _ kept h)

apply-HasUniqueKeys :
    (op : Op) {table : List Lock} → HasUniqueKeys table → HasUniqueKeys (apply op table)
unfolding apply release cleanup_expired
apply-HasUniqueKeys (acquire_op now key owner ttl) u = acquire-HasUniqueKeys now key owner ttl u
apply-HasUniqueKeys (release_op key owner) u = filter-HasUniqueKeys _ u
apply-HasUniqueKeys (cleanup_op now) u = filter-HasUniqueKeys _ u

-- Whatever operations the clients interleave, no key ever has two rows.
pub run-HasUniqueKeys :
    (ops : List Op) (table : List Lock) → HasUniqueKeys table → HasUniqueKeys (run ops table)
unfolding run
run-HasUniqueKeys [] table u = u
run-HasUniqueKeys (op ∷ ops) table u =
    run-HasUniqueKeys ops (apply op table) (apply-HasUniqueKeys op u)
