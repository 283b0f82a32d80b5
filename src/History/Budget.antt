-- ===== src/History/Budget.antt =====
-- What `fit_token_budget` keeps.
use mathlib.Core.List.{reverse, reverse_aux, reverse-reverse}
use pioneer_square.Shared.{
  ℕ, zero, suc, ◌+◌, ◌≤◌, ◌<◌, ◌≡◌, refl, sym, subst, ◌∙◌, ◌⊎◌, inl, inr, Bool, true, ◌&&◌, List,
  [], ◌∷◌, map, arith, ltb, length, drop, Bool-cases, length-reverse_aux, drop-reverse_aux,
  drop-map, length-map, length-drop, drop-drop,
}
use pioneer_square.History.{
  Message, is_user, sum, scan, fit_start, message_tokens, estimate_tokens, fit_token_budget,
  drop_until_user,
}

-- What is kept fits, or is the newest item alone.
abbrev Fits : ℕ → List ℕ → Type 0
Fits budget kept = (sum kept ≤ budget) ⊎ (length kept ≤ 1)

-- All is kept, or one item more would not fit.
abbrev IsFull : ℕ → ℕ → List ℕ → Type 0
IsFull budget start sizes =
    (start ≡ 0) ⊎ ((j : ℕ) × (start ≡ suc j) × (budget < sum (drop j sizes)))

scan_lem :
    (budget count total : ℕ) (older kept : List ℕ)
    → Fits budget kept
    → count ≡ length older + length kept
    → total ≡ sum kept
    → let start = scan budget count older total (length older) in
      Fits budget (drop start (reverse_aux older kept))
      × IsFull budget start (reverse_aux older kept)
unfolding scan sum
scan_lem budget count total [] kept fits c t = (fits, inl refl)
scan_lem budget count total (size ∷ older) kept fits c t =
    elim (Bool-cases (ltb (suc (length older)) count && ltb budget (total + size))) [
      | inl full ↦
          let e = drop-reverse_aux (size ∷ older) kept in
          let e' = drop-reverse_aux older (size ∷ kept) in
          rw full (rw e fits, inr (length older, refl, rw e' (ground (arith, full))))
      | inr room ↦ rw room (
          scan_lem budget count (total + size) older (size ∷ kept) (ground (arith, room))
            (omega arith) (omega arith))
    ]

abbrev IsCut : ℕ → ℕ → List ℕ → Type 0
IsCut budget start sizes = Fits budget (drop start sizes) × IsFull budget start sizes

scan_all :
    (budget count : ℕ) (sizes : List ℕ)
    → count ≡ length sizes
    → IsCut budget (scan budget count (reverse sizes) 0 count) sizes
scan_all budget count sizes c =
    let len : length (reverse sizes) ≡ count = omega (arith, length-reverse_aux sizes []) in
    subst (λ ns. IsCut budget (scan budget count (reverse sizes) 0 count) ns)
      (reverse-reverse sizes)
      (subst (λ n. IsCut budget (scan budget count (reverse sizes) 0 n) (reverse (reverse sizes)))
        len
        (scan_lem budget count 0 (reverse sizes) [] (inr (omega arith)) (omega arith)
          (unfold sum in refl)))

-- The start of the kept part, in terms of the messages' own sizes.
fit_start_lem :
    (serialized : Message → ℕ) (messages : List Message) (budget : ℕ)
    → let start = fit_start serialized messages budget in
      IsCut budget start (map (message_tokens serialized) messages)
unfolding fit_start
fit_start_lem serialized messages budget =
    scan_all budget (length messages) (map (message_tokens serialized) messages)
      (sym (length-map (message_tokens serialized) messages))

sum-drop : (n : ℕ) (ns : List ℕ) → sum (drop n ns) ≤ sum ns
unfolding sum
sum-drop zero ns = omega arith
sum-drop (suc n) [] = omega arith
sum-drop (suc n) (m ∷ ns) = omega (arith, sum-drop n ns)

abbrev pub starts_with_user : List Message → Bool
starts_with_user [] = true
starts_with_user (m ∷ ms) = is_user m.role

pub drop_until_user_lem :
    (ms : List Message)
    → (n : ℕ) × (drop_until_user ms ≡ drop n ms) × (starts_with_user (drop_until_user ms) ≡ true)
unfolding drop_until_user
drop_until_user_lem [] = (0, refl, refl)
drop_until_user_lem (m ∷ ms) = elim (Bool-cases (is_user m.role)) [
  | inl here ↦ rw here (0, refl, here)
  | inr there ↦ let (n, e, u) = drop_until_user_lem ms in rw there (suc n, e, u)
]

module _ (serialized : Message → ℕ) (messages : List Message) (budget : ℕ) where
  tokens_of_drop :
      (start n : ℕ)
      → Fits budget (drop start (map (message_tokens serialized) messages))
      → (estimate_tokens serialized (drop n (drop start messages)) ≤ budget)
        ⊎ (length (drop n (drop start messages)) ≤ 1)
  unfolding estimate_tokens
  tokens_of_drop start n fits =
      let size = message_tokens serialized in
      let kept = drop start messages in
      let fits' : Fits budget (map size kept) =
        subst (Fits budget) (drop-map size start messages) fits in
      elim fits' [
        | inl small ↦ inl (rw (← drop-map size n kept) (omega (arith, sum-drop n (map size kept))))
        | inr one ↦ inr (omega (arith, length-map size kept, length-drop n kept))
      ]

  -- The result ends the given messages: only whole messages of the front are dropped. It begins with
  -- a user message or is empty. Its estimate is within the budget, unless it is one message.
  pub fit_token_budget_within :
      ((n : ℕ) × (fit_token_budget serialized messages budget ≡ drop n messages))
      × (starts_with_user (fit_token_budget serialized messages budget) ≡ true)
      × ((estimate_tokens serialized (fit_token_budget serialized messages budget) ≤ budget)
          ⊎ (length (fit_token_budget serialized messages budget) ≤ 1))
  unfolding fit_token_budget
  fit_token_budget_within =
      let start = fit_start serialized messages budget in
      let (n, e, opening) = drop_until_user_lem (drop start messages) in
      let (fits, full) = fit_start_lem serialized messages budget in
      (
        (start + n, e ∙ drop-drop start n messages),
        opening,
        subst (λ (ms : List Message). (estimate_tokens serialized ms ≤ budget) ⊎ (length ms ≤ 1))
            (sym e) (tokens_of_drop start n fits),
      )

  -- Before the messages in front of the first user message go too, the kept part is the longest
  -- that fits: it is all the messages, or with one message more it is over the budget.
  pub fit_token_budget_longest :
      (start : ℕ) × (fit_token_budget serialized messages budget
        ≡ drop_until_user (drop start messages))
      × ((start ≡ 0)
          ⊎ ((j : ℕ) × (start ≡ suc j) × (budget < estimate_tokens serialized (drop j messages))))
  unfolding fit_token_budget estimate_tokens
  fit_token_budget_longest =
      let start = fit_start serialized messages budget in
      let (fits, full) = fit_start_lem serialized messages budget in
      (
        start,
        refl,
        elim full [
          | inl all ↦ inl all
          | inr (j, e, over) ↦
              inr (j, e, rw (← drop-map (message_tokens serialized) j messages) over)
        ],
      )
