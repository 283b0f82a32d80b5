-- ===== src/History/Window.antt =====
-- What `prune_history` keeps.
use pioneer_square.Shared.{
  ℕ, ◌+◌, ◌-◌, ◌≤◌, ◌<◌, ◌≡◌, refl, ◌∙◌, true, false, List, arith, ltb, ◌==◌, nat_eq, length, drop,
  length-drop, drop-drop, if◌then◌else◌, Bool-cases, inl, inr,
}
use pioneer_square.History.{Message, last_messages, prune_history}
use pioneer_square.History.Budget.{starts_with_user, drop_until_user_lem}

cut_drop :
    (messages : List Message) (max_messages : ℕ)
    → 0 < max_messages
    → (n : ℕ) × ((if ltb max_messages (length messages)
          then last_messages max_messages messages
          else messages)
        ≡ drop n messages)
      × (length messages ≤ max_messages + n)
unfolding last_messages
cut_drop messages max_messages h = elim (Bool-cases (ltb max_messages (length messages))) [
  | inl long ↦
      let some_kept : (max_messages == 0) ≡ false = ground arith in
      (length messages - max_messages, rw long (rw some_kept refl), omega arith)
  | inr short ↦ (0, rw short refl, ground (arith, short))
]

-- For a bound above 0: the result has at most that many messages, ends the given ones, and begins
-- with a user message or is empty.
pub prune_history_within :
    (messages : List Message) (max_messages : ℕ)
    → 0 < max_messages
    → ((n : ℕ) × (prune_history messages max_messages ≡ drop n messages))
      × (starts_with_user (prune_history messages max_messages) ≡ true)
      × (length (prune_history messages max_messages) ≤ max_messages)
unfolding prune_history
prune_history_within messages max_messages h =
    let (cut, e, bound) = cut_drop messages max_messages h in
    let (n, e', opening) = drop_until_user_lem (drop cut messages) in
    rw e (
      (cut + n, e' ∙ drop-drop cut n messages),
      opening,
      rw e' (omega (arith, bound, length-drop n (drop cut messages), length-drop cut messages)),
    )
