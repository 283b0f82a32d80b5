-- ===== src/Tools/Orders/Terminal.antt =====
-- What the foreman's orders leave of a task that has ended.
use pioneer_square.Shared.{
  ℕ, ◌+◌, ◌≤◌, ◌≡◌, refl, sym, ap, ◌∙◌, subst, String, Bool, true, false, not, ◌&&◌, Option, none,
  some, List, [], ◌∷◌, ◌++◌, ◌==◌, string_eq, nat_eq, any, find?, count, if◌then◌else◌, arith,
  Bool-cases, inl, inr, eq_of_==, any-not_unique, any_imp, any-update, count-update,
}
use pioneer_square.Tasks.{Task, is_terminal}
use pioneer_square.Tools.{TaskRow, Store, ToolContext, with_task}
use pioneer_square.Tools.Assign.{task_row, worker_row}
use pioneer_square.Tools.Orders.{
  CreateInput, Order, created_row, handle_create_task, redirect_found, handle_redirect_task,
  cancel_found, handle_cancel_task, handle_shutdown_worker, set_by_id, carry_out, carry_out_all,
}

abbrev in_state : String → String → TaskRow → Bool
in_state id state r = r.task.id == id && r.task.state == state

-- The row of the id is in the state, and no other row has the id.
abbrev pub RowHasEnded : String → String → List TaskRow → Type 0
RowHasEnded id state rows =
    (any (in_state id state) rows ≡ true) × (count (λ (r : TaskRow). r.task.id == id) rows ≤ 1)

module _ {ℓ} {A : Type ℓ} where
  found :
      {b : Bool} (x : A) {a : A} (o : Option A)
      → b ≡ true
      → (if b then some x else o) ≡ some a
      → x ≡ a
  found x o e h = ground (arith, e, h)

  rest :
      {b : Bool} (x : A) {a : A} (o : Option A)
      → b ≡ false
      → (if b then some x else o) ≡ some a
      → o ≡ some a
  rest x o e h = ground (arith, e, h)

  any_of_found :
      (p q : A → Bool) (xs : List A) (a : A)
      → find? p xs ≡ some a
      → q a ≡ true
      → any (λ x. p x && q x) xs ≡ true
  unfolding find? any
  any_of_found p q [] a h e = cc
  any_of_found p q (x ∷ xs) a h e = elim (Bool-cases (p x)) [
    | inl here ↦ rw (here, found _ _ here h, e) refl
    | inr there ↦ rw there (any_of_found p q xs a (rest _ _ there h) e)
  ]

both : {b : Bool} → b ≡ true → b ≡ false → ⊥
both h e = cc

found_ended :
    (guild_pk : ℕ) (id state : String) (rows : List TaskRow) (row : TaskRow)
    → RowHasEnded id state rows
    → find? (task_row guild_pk id) rows ≡ some row
    → (row.task.state == state) ≡ true
found_ended guild_pk id state rows row (ended, unique) h =
    elim (Bool-cases (row.task.state == state)) [
      | inl same ↦ same
      | inr differs ↦
          let other : any (λ (r : TaskRow). r.task.id == id && not (r.task.state == state)) rows
              ≡ true =
            any_imp (λ r. task_row guild_pk id r && not (r.task.state == state)) _ rows
              (λ r e. ground (arith, e))
              (any_of_found (task_row guild_pk id) (λ r. not (r.task.state == state)) rows row h
                (rw differs refl)) in
          let none_other : any (λ (r : TaskRow). r.task.id == id && not (r.task.state == state))
                rows
              ≡ false =
            any-not_unique (λ (r : TaskRow). r.task.id == id) (λ r. r.task.state == state) rows
              unique ended in
          absurd (both other none_other)
    ]

kept :
    (id state task_id : String) (f : Task → Task)
    → (task_id == id) ≡ false
    → (r : TaskRow) → in_state id state r ≡ true
    → in_state id state (if r.task.id == task_id then with_task f r else r) ≡ true
kept id state task_id f other r h = elim (Bool-cases (r.task.id == task_id)) [
  | inl named ↦
      absurd (both (own r h) (subst (λ i. (i == id) ≡ false) (sym (eq_of_== named)) other))
  | inr unnamed ↦ rw unnamed h
]
  where
    own : (r : TaskRow) → in_state id state r ≡ true → (r.task.id == id) ≡ true
    own r e = ground (arith, e)

set_by_id-RowHasEnded :
    (id state task_id : String) (f : Task → Task) (rows : List TaskRow)
    → ((t : Task) → (f t).id ≡ t.id)
    → (task_id == id) ≡ false
    → RowHasEnded id state rows
    → RowHasEnded id state (set_by_id task_id f rows)
set_by_id-RowHasEnded id state task_id f rows same other (ended, unique) = (
  any-update (in_state id state) (λ r. r.task.id == task_id) (with_task f) rows
      ∙ any_imp (in_state id state) _ rows (kept id state task_id f other) ended,
  rw
      (count-update (λ (r : TaskRow). r.task.id == id) (λ r. r.task.id == task_id) (with_task f)
        rows (λ r. ap (λ i. i == id) (same r.task)))
      unique,
)

module _ (id state : String) (over : is_terminal state ≡ true) where
  -- The guard of redirect and cancel: what the SELECT found is not the ended row.
  found_open :
      (guild_pk : ℕ) (task_id : String) (rows : List TaskRow) (row : TaskRow)
      → RowHasEnded id state rows
      → find? (task_row guild_pk task_id) rows ≡ some row
      → is_terminal row.task.state ≡ false
      → (task_id == id) ≡ false
  found_open guild_pk task_id rows row ended h still = elim (Bool-cases (task_id == id)) [
    | inl same ↦
        let at_state =
          found_ended guild_pk id state rows row ended
            (subst (λ i. find? (task_row guild_pk i) rows ≡ some row) (eq_of_== same) h) in
        absurd (both over (subst (λ s. is_terminal s ≡ false) (eq_of_== at_state) still))
    | inr other ↦ other
  ]

  redirect-RowHasEnded :
      (guild_pk : ℕ) (task_id instructions : String) (found_row : Option TaskRow) (store : Store)
      → find? (task_row guild_pk task_id) store.tasks ≡ found_row
      → RowHasEnded id state store.tasks
      → RowHasEnded id state (redirect_found task_id instructions found_row store).1.tasks
  unfolding redirect_found
  redirect-RowHasEnded guild_pk task_id instructions none store h ended = ended
  redirect-RowHasEnded guild_pk task_id instructions (some row) store h ended =
      elim (Bool-cases (is_terminal row.task.state)) [
        | inl closed ↦ rw closed ended
        | inr still ↦ rw still (
            set_by_id-RowHasEnded id state task_id (λ t. record t { state = "working" }) store.tasks
              (λ t. refl) (found_open guild_pk task_id store.tasks row ended h still) ended)
      ]

  cancel-RowHasEnded :
      (now guild_pk : ℕ) (task_id : String) (found_row : Option TaskRow) (store : Store)
      → find? (task_row guild_pk task_id) store.tasks ≡ found_row
      → RowHasEnded id state store.tasks
      → RowHasEnded id state (cancel_found now task_id found_row store).1.tasks
  unfolding cancel_found
  cancel-RowHasEnded now guild_pk task_id none store h ended = ended
  cancel-RowHasEnded now guild_pk task_id (some row) store h ended =
      elim (Bool-cases (is_terminal row.task.state)) [
        | inl closed ↦ rw closed ended
        | inr still ↦ rw still (
            set_by_id-RowHasEnded id state task_id
              (λ t. record t { state = "cancelled"; deleted_at = some now }) store.tasks (λ t. refl)
              (found_open guild_pk task_id store.tasks row ended h still) ended)
      ]

  any-append_row :
      (p : TaskRow → Bool) (rows : List TaskRow) (row : TaskRow)
      → any p rows ≡ true
      → any p (rows ++ row ∷ []) ≡ true
  unfolding any
  any-append_row p [] row h = cc
  any-append_row p (r ∷ rows) row h = ground (arith, h, any-append_row p rows row)

  count-append_other :
      (p : TaskRow → Bool) (rows : List TaskRow) (row : TaskRow)
      → p row ≡ false
      → count p (rows ++ row ∷ []) ≡ count p rows
  unfolding count
  count-append_other p [] row h = rw h refl
  count-append_other p (r ∷ rows) row h =
      ap (λ n. (if p r then 1 else 0) + n) (count-append_other p rows row h)

  fresh_other :
      (fresh : String) (rows : List TaskRow)
      → any (in_state id state) rows ≡ true
      → any (λ (r : TaskRow). r.task.id == fresh) rows ≡ false
      → (fresh == id) ≡ false
  fresh_other fresh rows ended free = elim (Bool-cases (fresh == id)) [
    | inl same ↦ absurd (
        both
          (any_imp (in_state id state) (λ (r : TaskRow). r.task.id == id) rows
            (λ r h. ground (arith, h)) ended)
          (subst (λ i. any (λ (r : TaskRow). r.task.id == i) rows ≡ false) (eq_of_== same) free))
    | inr other ↦ other
  ]

  create-RowHasEnded :
      (now : ℕ) (fresh : String) (ctx : ToolContext) (inp : CreateInput) (store : Store)
      → RowHasEnded id state store.tasks
      → RowHasEnded id state (handle_create_task now fresh ctx inp store).1.tasks
  unfolding handle_create_task
  create-RowHasEnded now fresh ctx inp store (ended, unique) =
      elim (Bool-cases (any (λ (r : TaskRow). r.task.id == fresh) store.tasks)) [
        | inl clash ↦ rw clash (ended, unique)
        | inr free ↦ rw free (
          any-append_row (in_state id state) store.tasks (created_row now fresh ctx inp) ended,
          rw
              (count-append_other (λ (r : TaskRow). r.task.id == id) store.tasks
                (created_row now fresh ctx inp) (fresh_other fresh store.tasks ended free))
              unique,
        )
      ]

  shutdown-tasks :
      (ctx : ToolContext) (worker_id : String) (reason : Option String) (store : Store)
      → (handle_shutdown_worker ctx worker_id reason store).1.tasks ≡ store.tasks
  unfolding handle_shutdown_worker
  shutdown-tasks ctx worker_id reason store =
      elim (Bool-cases (any (worker_row ctx.guild_pk worker_id) store.workers)) [
        | inl known ↦ rw known refl
        | inr unknown ↦ rw unknown refl
      ]

  carry_out-RowHasEnded :
      (ctx : ToolContext) (order : Order) (store : Store)
      → RowHasEnded id state store.tasks
      → RowHasEnded id state (carry_out ctx order store).tasks
  unfolding carry_out handle_redirect_task handle_cancel_task
  carry_out-RowHasEnded ctx (Order.create now fresh inp) store ended =
      create-RowHasEnded now fresh ctx inp store ended
  carry_out-RowHasEnded ctx (Order.redirect task_id instructions) store ended =
      redirect-RowHasEnded ctx.guild_pk task_id instructions _ store refl ended
  carry_out-RowHasEnded ctx (Order.cancel now task_id) store ended =
      cancel-RowHasEnded now ctx.guild_pk task_id _ store refl ended
  carry_out-RowHasEnded ctx (Order.shutdown worker_id reason) store ended =
      rw (shutdown-tasks ctx worker_id reason store) ended

  -- A task with an id of its own that is in a terminal state is in that state after any sequence of
  -- orders of any guilds that create, redirect and cancel tasks and shut workers down, if each order
  -- is carried out before the next one begins.
  pub carry_out_all-RowHasEnded :
      (orders : List (ToolContext × Order)) (store : Store)
      → RowHasEnded id state store.tasks
      → RowHasEnded id state (carry_out_all orders store).tasks
  unfolding carry_out_all
  carry_out_all-RowHasEnded [] store ended = ended
  carry_out_all-RowHasEnded ((ctx, order) ∷ orders) store ended =
      carry_out_all-RowHasEnded orders (carry_out ctx order store)
        (carry_out-RowHasEnded ctx order store ended)
