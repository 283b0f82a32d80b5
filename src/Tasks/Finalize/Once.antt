-- ===== src/Tasks/Finalize/Once.antt =====
-- A task is finalized at most once, and what is terminal stays as it is, whatever calls run
-- between the SELECT and the UPDATE of one another.
use pioneer_square.Shared.{
  ℕ, String, eq_iff, ◌≡◌, ◌≢◌, refl, ap, ◌∙◌, Bool, true, false, not, ◌&&◌, Option, none, some,
  List, [], ◌∷◌, ◌==◌, string_eq, nat_eq, arith, any, count, any-eq-count, any_imp, any_none,
  any-false_of_imp, Bool-cases, inl, inr,
}
use pioneer_square.Tasks.{Task, is_terminal}
use pioneer_square.Tasks.Descendants.Cascade.{IgnoresDeletion}
use pioneer_square.Tasks.Finalize.Rows.{after_update, any-finalize_found, finalize_found_idle}
use pioneer_square.Tasks.Finalize.{
  Db, Call, finalized, open_row, finalize_found, finalize_selected, stamp,
}

-- The other calls: each with what its SELECT returned, at whatever time that was.
unfoldable pub run : List (Call × Option Task) → Db → Db
run [] db = db
run ((c, selected) ∷ calls) db = run calls (finalize_selected c selected db).1

-- The row of `c` is terminal, or there is none.
abbrev pub closed : Call → List Task → Bool
closed c tasks = not (any (open_row c) tasks)

open_row_ignores : (c : Call) → IgnoresDeletion (open_row c)
unfolding open_row
open_row_ignores c t at = refl

-- An UPDATE opens no row.
open_row-after_update :
    (c c' : Call) (at : Option ℕ) (t : Task)
    → open_row c (after_update c' at t) ≡ true
    → open_row c t ≡ true
unfolding after_update open_row
open_row-after_update c c' at t h = ground arith

found-closed :
    (c c' : Call) (task : Task) (db : Db)
    → closed c db.tasks ≡ true
    → closed c (finalize_found c' task db).1.tasks ≡ true
found-closed c c' task db h = elim (Bool-cases (count (open_row c') db.tasks == 0)) [
  | inl idle ↦ rw (finalize_found_idle c' task db idle) h
  | inr some_row ↦
      let e = any-finalize_found (open_row c) c' task db (open_row_ignores c) some_row in
      ground (
        arith,
        e,
        any-false_of_imp (open_row c) (λ t. open_row c (after_update c' (stamp c' task) t)) db.tasks
            (open_row-after_update c c' (stamp c' task)),
      )
]

selected-closed :
    (c c' : Call) (selected : Option Task) (db : Db)
    → closed c db.tasks ≡ true
    → closed c (finalize_selected c' selected db).1.tasks ≡ true
unfolding finalize_selected
selected-closed c c' none db h = h
selected-closed c c' (some task) db h = found-closed c c' task db h

run-closed :
    (c : Call) (calls : List (Call × Option Task)) (db : Db)
    → closed c db.tasks ≡ true
    → closed c (run calls db).tasks ≡ true
unfolding run
run-closed c [] db h = h
run-closed c ((c', selected) ∷ calls) db h =
    run-closed c calls _ (selected-closed c c' selected db h)

open_row_terminal :
    (c : Call) (at : Option ℕ) (t : Task)
    → is_terminal c.outcome ≡ true
    → open_row c (after_update c at t) ≡ false
unfolding after_update open_row
open_row_terminal c at t terminal = ground arith

finalized-some_row :
    (c : Call) (task : Task) (db : Db)
    → (finalize_found c task db).0.status ≡ finalized
    → (count (open_row c) db.tasks == 0) ≡ false
unfolding finalize_found
finalized-some_row c task db h = elim (Bool-cases (count (open_row c) db.tasks == 0)) [
  | inl idle ↦ cc (rw idle at h)
  | inr some_row ↦ some_row
]

-- The call that makes the transition leaves the row terminal.
finalized-closed :
    (c : Call) (selected : Option Task) (db : Db)
    → is_terminal c.outcome ≡ true
    → (finalize_selected c selected db).0.status ≡ finalized
    → closed c (finalize_selected c selected db).1.tasks ≡ true
unfolding finalize_selected
finalized-closed c none db terminal h = cc
finalized-closed c (some task) db terminal h = ap not (
    any-finalize_found (open_row c) c task db (open_row_ignores c) (finalized-some_row c task db h)
    ∙ any_none _ db.tasks (λ t. open_row_terminal c (stamp c task) t terminal))

-- A call on a closed row changes nothing and does not report `finalized`.
closed_refuses :
    (c : Call) (selected : Option Task) (db : Db)
    → closed c db.tasks ≡ true
    → ((finalize_selected c selected db).0.status ≢ finalized)
      × ((finalize_selected c selected db).1 ≡ db)
unfolding finalize_selected finalize_found
closed_refuses c none db h = (λ e. cc, refl)
closed_refuses c (some task) db h =
    let idle : (count (open_row c) db.tasks == 0) ≡ true =
      ground (arith, any-eq-count (open_row c) db.tasks) in
    rw idle (λ e. cc, refl)

closed_same_row :
    (c c' : Call) (tasks : List Task)
    → c'.task_id ≡ c.task_id
    → c'.guild_pk ≡ c.guild_pk
    → closed c' tasks ≡ closed c tasks
unfolding open_row
closed_same_row c c' tasks same_task same_guild = rw (same_task, same_guild)

-- Two calls for one row. The second may have made its SELECT at any time, so that it still sees
-- the task open; other calls may come before it. Once a call with a terminal outcome has
-- reported `finalized`, the second does not report it, and changes no table and sends nothing.
pub finalize_once :
    (c c' : Call) (selected selected' : Option Task) (calls : List (Call × Option Task)) (db : Db)
    → is_terminal c.outcome ≡ true
    → c'.task_id ≡ c.task_id
    → c'.guild_pk ≡ c.guild_pk
    → (finalize_selected c selected db).0.status ≡ finalized
    → let left = run calls (finalize_selected c selected db).1 in
      ((finalize_selected c' selected' left).0.status ≢ finalized)
      × ((finalize_selected c' selected' left).1 ≡ left)
finalize_once c c' selected selected' calls db terminal same_task same_guild done =
    let left = run calls (finalize_selected c selected db).1 in
    closed_refuses c' selected' left (
      closed_same_row c c' left.tasks same_task same_guild
      ∙ run-closed c calls _ (finalized-closed c selected db terminal done))

-- A terminal row keeps its state under any calls.
abbrev pub has_state : String → String → List Task → Bool
has_state id state tasks = any (λ t. t.id == id && t.state == state) tasks

has_state-after_update :
    (id state : String) (c : Call) (at : Option ℕ) (t : Task)
    → is_terminal state ≡ true
    → (t.id == id && t.state == state) ≡ true
    → ((after_update c at t).id == id && (after_update c at t).state == state) ≡ true
unfolding after_update open_row
has_state-after_update id state c at t terminal h = ground (arith, eq_iff t.state state)

pub finalize_selected-has_state :
    (id state : String) (c : Call) (selected : Option Task) (db : Db)
    → is_terminal state ≡ true
    → has_state id state db.tasks ≡ true
    → has_state id state (finalize_selected c selected db).1.tasks ≡ true
unfolding finalize_selected
finalize_selected-has_state id state c none db terminal h = h
finalize_selected-has_state id state c (some task) db terminal h =
    elim (Bool-cases (count (open_row c) db.tasks == 0)) [
      | inl idle ↦ rw (finalize_found_idle c task db idle) h
      | inr some_row ↦
          any-finalize_found _ c task db (λ t at. refl) some_row
          ∙ any_imp _ _ db.tasks (λ t. has_state-after_update id state c (stamp c task) t terminal)
              h
    ]

-- A row in a terminal state is in that state after any calls, with any outcomes and any reads.
pub run-has_state :
    (id state : String) (calls : List (Call × Option Task)) (db : Db)
    → is_terminal state ≡ true
    → has_state id state db.tasks ≡ true
    → has_state id state (run calls db).tasks ≡ true
unfolding run
run-has_state id state [] db terminal h = h
run-has_state id state ((c, selected) ∷ calls) db terminal h =
    run-has_state id state calls _ terminal
      (finalize_selected-has_state id state c selected db terminal h)
