-- ===== src/History/Examples.antt =====
-- A conversation with one call of a tool that was answered and one that was not.
use pioneer_square.Shared.{
  ℕ, suc, ◌≤◌, ◌<◌, String, ◌≡◌, ◌⊎◌, refl, true, none, List, [], ◌∷◌, length, drop, filter, member,
}
use pioneer_square.History.{
  Role, user, assistant, Block, tool_use, tool_result, other, text, blocks, Message,
  fit_token_budget, fit_start, estimate_tokens, message_tokens, prune_history, drop_until_user,
  scan,
}
use pioneer_square.History.Orphans.{strip_orphaned_tool_results, use_ids, result_ids}
use pioneer_square.History.Pairing.{all_paired, strip_orphaned_tool_results-paired}
use pioneer_square.History.Unchanged.{strip_orphaned_tool_results_paired}
use pioneer_square.History.Budget.{
  starts_with_user, fit_token_budget_within, fit_token_budget_longest,
}

abbrev says : Role → String → Message
says r t = record { role = r; content = text t }

abbrev shows : Role → List Block → Message
shows r bs = record { role = r; content = blocks bs }

abbrev answered : List Message
answered =
    says user "go"
    ∷ shows assistant (other "thinking" ∷ tool_use "a" "{}" ∷ [])
    ∷ shows user (tool_result "a" "ok" ∷ [])
    ∷ []

-- A result whose call was cut off, and a call whose result is missing.
abbrev broken : List Message
broken =
    shows user (tool_result "z" "late" ∷ [])
    ∷ says user "go"
    ∷ shows assistant (tool_use "a" "{}" ∷ tool_use "b" "{}" ∷ [])
    ∷ shows user (tool_result "a" "ok" ∷ [])
    ∷ shows assistant (tool_use "c" "{}" ∷ [])
    ∷ []

repaired :
    strip_orphaned_tool_results broken
    ≡ says user "go"
      ∷ shows assistant (tool_use "a" "{}" ∷ [])
      ∷ shows user (tool_result "a" "ok" ∷ [])
      ∷ []
unfolding strip_orphaned_tool_results use_ids result_ids filter member
repaired = refl

abbrev size : Message → ℕ
size m = 40

budget_cut : fit_token_budget size answered 25 ≡ shows user (tool_result "a" "ok" ∷ []) ∷ []
unfolding fit_token_budget fit_start message_tokens scan drop_until_user
budget_cut = refl

-- A bound of 0 keeps all: in Python messages[-0:] is the whole list.
prune_zero : prune_history answered 0 ≡ answered
unfolding prune_history drop_until_user
prune_zero = refl

strip_orphaned_tool_results-paired_example :
    all_paired none (strip_orphaned_tool_results broken) ≡ true
strip_orphaned_tool_results-paired_example = strip_orphaned_tool_results-paired broken

strip_orphaned_tool_results_paired_example : strip_orphaned_tool_results answered ≡ answered
unfolding all_paired use_ids result_ids member
strip_orphaned_tool_results_paired_example = strip_orphaned_tool_results_paired answered refl refl

fit_token_budget_within_example :
    ((n : ℕ) × (fit_token_budget size answered 25 ≡ drop n answered))
    × (starts_with_user (fit_token_budget size answered 25) ≡ true)
    × ((estimate_tokens size (fit_token_budget size answered 25) ≤ 25)
        ⊎ (length (fit_token_budget size answered 25) ≤ 1))
fit_token_budget_within_example = fit_token_budget_within size answered 25

fit_token_budget_longest_example :
    (start : ℕ) × (fit_token_budget size answered 25 ≡ drop_until_user (drop start answered))
    × ((start ≡ 0) ⊎ ((j : ℕ) × (start ≡ suc j) × (25 < estimate_tokens size (drop j answered))))
fit_token_budget_longest_example = fit_token_budget_longest size answered 25
