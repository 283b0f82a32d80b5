-- ===== src/History/Unchanged.antt =====
-- What `strip_orphaned_tool_results` leaves alone, and how its result begins.
use mathlib.Core.List.{head?}
use pioneer_square.Shared.{
  ◌≡◌, refl, subst, ap, Bool, true, false, not, Option, none, some, List, [], ◌∷◌, filter, member,
  string_eq, if◌then◌else◌, arith, Option-cases, inl, inr,
}
use pioneer_square.History.{
  Role, user, assistant, system, Block, tool_use, tool_result, other, Content, text, blocks,
  Message,
}
use pioneer_square.History.Orphans.{
  valid_ids, answered_ids, keeps_use, keeps_result, is_empty, replaced, clean_by, clean, strip_from,
  is_result, head_by, clean_head, trim_head, strip_orphaned_tool_results,
}
use pioneer_square.History.Pairing.{
  every, fits_between, all_paired, of_some, strip_orphaned_tool_results-paired,
}

filter-every : (p : Block → Bool) (bs : List Block) → every p bs ≡ true → filter p bs ≡ bs
unfolding filter
filter-every p [] h = refl
filter-every p (b ∷ bs) h = ground (arith, filter-every p bs)

replaced_same : (m : Message) (bs : List Block) → m.content ≡ blocks bs → replaced m bs bs ≡ some m
replaced_same m [] e = rw (← e)
replaced_same m (b ∷ bs) e = rw (← e)

clean_by_fitting :
    (prev next : Option Message) (m : Message) (r : Role) (c : Content)
    → m.content ≡ c
    → fits_between prev next r c ≡ true
    → clean_by prev next m r c ≡ some m
clean_by_fitting prev next m assistant (blocks bs) e h =
    rw (filter-every (keeps_use (answered_ids next)) bs h) (replaced_same m bs e)
clean_by_fitting prev next m user (blocks bs) e h =
    rw (filter-every (keeps_result (valid_ids prev)) bs h) (replaced_same m bs e)
clean_by_fitting prev next m assistant (text t) e h = refl
clean_by_fitting prev next m user (text t) e h = refl
clean_by_fitting prev next m system (blocks bs) e h = refl
clean_by_fitting prev next m system (text t) e h = refl

strip_from_paired :
    (prev : Option Message) (ms : List Message)
    → all_paired prev ms ≡ true
    → strip_from prev ms ≡ ms
unfolding strip_from all_paired
strip_from_paired prev [] h = refl
strip_from_paired prev (m ∷ rest) h =
    let kept : clean prev (head? rest) m ≡ some m =
      clean_by_fitting prev (head? rest) m m.role m.content refl (ground (arith, h)) in
    rw (kept, strip_from) (ap (λ ms. m ∷ ms) (strip_from_paired (some m) rest (ground (arith, h))))

-- A user message with something in it.
abbrev pub opens : Role → Content → Bool
opens Role.user (text t) = true
opens Role.user (blocks bs) = not (is_empty bs)
opens _ _ = false

abbrev pub is_opening : List Message → Bool
is_opening [] = true
is_opening (m ∷ ms) = opens m.role m.content

no_results :
    (bs : List Block) → every (keeps_result []) bs ≡ true → every (λ b. not (is_result b)) bs ≡ true
unfolding member
no_results [] h = refl
no_results (tool_use id body ∷ bs) h = no_results bs h
no_results (tool_result id body ∷ bs) h = cc
no_results (other body ∷ bs) h = no_results bs h

head_by_opening :
    (next : Option Message) (m : Message) (r : Role) (c : Content)
    → m.content ≡ c
    → opens r c ≡ true
    → fits_between none next r c ≡ true
    → head_by m r c ≡ some m
head_by_opening next m user (text t) e o h = refl
head_by_opening next m user (blocks []) e o h = cc
head_by_opening next m user (blocks (b ∷ bs)) e o h =
    rw (filter-every (λ b. not (is_result b)) (b ∷ bs) (no_results (b ∷ bs) h)) (rw (← e))
head_by_opening next m assistant c e o h = cc
head_by_opening next m system c e o h = cc

trim_head_opening :
    (ms : List Message) → all_paired none ms ≡ true → is_opening ms ≡ true → trim_head ms ≡ ms
unfolding trim_head all_paired
trim_head_opening [] h o = refl
trim_head_opening (m ∷ rest) h o =
    let kept : clean_head m ≡ some m =
      head_by_opening (head? rest) m m.role m.content refl o (ground (arith, h)) in
    rw (kept, trim_head)

-- Messages that are paired and begin with a user message that is not empty come back unchanged.
pub strip_orphaned_tool_results_paired :
    (messages : List Message)
    → all_paired none messages ≡ true
    → is_opening messages ≡ true
    → strip_orphaned_tool_results messages ≡ messages
unfolding strip_orphaned_tool_results
strip_orphaned_tool_results_paired messages h o =
    rw (strip_from_paired none messages h) (trim_head_opening messages h o)

if_nonempty :
    (m : Message) (bs : List Block) (m' : Message)
    → m.role ≡ user
    → (if is_empty bs then none else some (record m { content = blocks bs })) ≡ some m'
    → opens m'.role m'.content ≡ true
if_nonempty m [] m' role h = cc
if_nonempty m (b ∷ bs) m' role h =
    subst (λ (x : Message). opens x.role x.content ≡ true) (of_some h) (rw role)

head_by-opens :
    (m : Message) (r : Role) (c : Content) (m' : Message)
    → m.role ≡ r
    → m.content ≡ c
    → head_by m r c ≡ some m'
    → opens m'.role m'.content ≡ true
head_by-opens m user (blocks bs) m' role content h =
    if_nonempty m (filter (λ b. not (is_result b)) bs) m' role h
head_by-opens m user (text t) m' role content h =
    subst (λ (x : Message). opens x.role x.content ≡ true) (of_some h) (rw (role, content))
head_by-opens m assistant c m' role content h = cc
head_by-opens m system c m' role content h = cc

trim_head_opens : (ms : List Message) → is_opening (trim_head ms) ≡ true
unfolding trim_head
trim_head_opens [] = refl
trim_head_opens (m ∷ rest) = elim (Option-cases (clean_head m)) [
  | inl gone ↦ rw (gone, trim_head) (trim_head_opens rest)
  | inr (m', kept) ↦ rw (kept, trim_head) (head_by-opens m m.role m.content m' refl refl kept)
]

stripped_opens :
    (messages : List Message) → is_opening (strip_orphaned_tool_results messages) ≡ true
unfolding strip_orphaned_tool_results
stripped_opens messages = trim_head_opens (strip_from none messages)

-- The result is empty or begins with a user message that is not empty; and doing it again changes
-- nothing.
pub strip_orphaned_tool_results_idem :
    (messages : List Message)
    → (is_opening (strip_orphaned_tool_results messages) ≡ true)
      × (strip_orphaned_tool_results (strip_orphaned_tool_results messages)
          ≡ strip_orphaned_tool_results messages)
strip_orphaned_tool_results_idem messages =
    let opening : is_opening (strip_orphaned_tool_results messages) ≡ true =
      stripped_opens messages in
    (
      opening,
      strip_orphaned_tool_results_paired (strip_orphaned_tool_results messages)
          (strip_orphaned_tool_results-paired messages) opening,
    )
