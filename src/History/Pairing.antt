-- ===== src/History/Pairing.antt =====
-- After `strip_orphaned_tool_results` every tool_use is answered and every tool_result is asked for.
use mathlib.Core.List.{head?}
use pioneer_square.Shared.{
  String, eq_iff, ◌≡◌, refl, sym, subst, ◌∙◌, Bool, true, false, not, ◌&&◌, Option, none, some,
  List, [], ◌∷◌, filter, member, string_eq, if◌then◌else◌, arith, Option-cases, inl, inr,
}
use pioneer_square.History.{
  Role, user, assistant, system, Block, tool_use, tool_result, other, Content, text, blocks,
  Message, is_user,
}
use pioneer_square.History.Orphans.{
  use_ids, result_ids, ids_of_uses, ids_of_results, valid_ids, answered_ids, keeps_use,
  keeps_result, is_empty, replaced, clean_by, clean, strip_from, is_result, head_by, clean_head,
  trim_head, strip_orphaned_tool_results,
}

abbrev pub every : (Block → Bool) → List Block → Bool
every p [] = true
every p (b ∷ bs) = p b && every p bs

-- A message between its neighbours: each tool_use of an assistant message has a tool_result in
-- the message after it, and each tool_result of a user message a tool_use in the one before it.
abbrev pub fits_between : Option Message → Option Message → Role → Content → Bool
fits_between prev next Role.assistant (blocks bs) = every (keeps_use (answered_ids next)) bs
fits_between prev next Role.user (blocks bs) = every (keeps_result (valid_ids prev)) bs
fits_between prev next _ _ = true

-- All messages fit, the first one after `prev`.
unfoldable pub all_paired : Option Message → List Message → Bool
all_paired prev [] = true
all_paired prev (m ∷ ms) = fits_between prev (head? ms) m.role m.content && all_paired (some m) ms

pub every-filter : (p : Block → Bool) (bs : List Block) → every p (filter p bs) ≡ true
unfolding filter
every-filter p [] = refl
every-filter p (b ∷ bs) = ground (arith, every-filter p bs)

-- A filter on tool_results keeps the ids that it lets through.
member-result_ids :
    (u : String) (ids : List String) (bs : List Block)
    → member u ids ≡ true
    → member u (result_ids bs) ≡ true
    → member u (result_ids (filter (keeps_result ids) bs)) ≡ true
unfolding filter result_ids member
member-result_ids u ids [] m h = h
member-result_ids u ids (tool_use id body ∷ bs) m h = member-result_ids u ids bs m h
member-result_ids u ids (other body ∷ bs) m h = member-result_ids u ids bs m h
member-result_ids u ids (tool_result id body ∷ bs) m h =
    ground (arith, eq_iff u id, member-result_ids u ids bs m)

result_ids-not-empty :
    (u : String) (bs : List Block) → member u (result_ids bs) ≡ true → is_empty bs ≡ false
unfolding result_ids member
result_ids-not-empty u [] h = cc
result_ids-not-empty u (b ∷ bs) h = refl

-- A message that answers `u` is kept, and still answers it.
clean_by-answers :
    (prev next : Option Message) (m : Message) (r : Role) (c : Content) (u : String)
    → m.role ≡ r
    → member u (valid_ids prev) ≡ true
    → member u (ids_of_results r c) ≡ true
    → (m' : Message) × (clean_by prev next m r c ≡ some m')
      × (member u (answered_ids (some m')) ≡ true)
clean_by-answers prev next m user (blocks bs) u role asked answered =
    let kept = filter (keeps_result (valid_ids prev)) bs in
    let still = member-result_ids u (valid_ids prev) bs asked answered in
    (record m { content = blocks kept }, rw (result_ids-not-empty u kept still), rw role still)
clean_by-answers prev next m user (text t) u role asked answered =
    absurd (unfold member in ground arith)
clean_by-answers prev next m assistant c u role asked answered =
    absurd (unfold member in ground arith)
clean_by-answers prev next m system c u role asked answered = absurd (unfold member in ground arith)

next_answers :
    (prev : Option Message) (rest : List Message) (u : String)
    → member u (valid_ids prev) ≡ true
    → member u (answered_ids (head? rest)) ≡ true
    → member u (answered_ids (head? (strip_from prev rest))) ≡ true
next_answers prev [] u asked answered = absurd (unfold member in ground arith)
next_answers prev (n ∷ rest) u asked answered =
    let (n', kept, still) =
      clean_by-answers prev (head? rest) n n.role n.content u refl asked answered in
    unfold strip_from in rw (kept, strip_from) still

-- What `clean` leaves of a message fits, as soon as the ids in its tool_uses stay answered.
every-imp :
    (p q : Block → Bool) (bs : List Block)
    → ((b : Block) → p b ≡ true → q b ≡ true)
    → every p bs ≡ true
    → every q bs ≡ true
every-imp p q [] imp h = refl
every-imp p q (b ∷ bs) imp h = ground (arith, imp b, every-imp p q bs imp)

abbrev StaysAnswered : Message → Option Message → Option Message → Type 0
StaysAnswered m next next' =
    (u : String)
    → member u (valid_ids (some m)) ≡ true
    → member u (answered_ids next) ≡ true
    → member u (answered_ids next') ≡ true

use_of_kept :
    (ids ids' : List String) (bs : List Block)
    → ((u : String) → member u (use_ids bs) ≡ true → member u ids ≡ true → member u ids' ≡ true)
    → every (keeps_use ids) bs ≡ true
    → every (keeps_use ids') bs ≡ true
unfolding use_ids member
use_of_kept ids ids' [] stay h = refl
use_of_kept ids ids' (tool_use id body ∷ bs) stay h =
    ground
      (arith, stay id, eq_iff id id, use_of_kept ids ids' bs (λ u m. stay u (ground (arith, m))))
use_of_kept ids ids' (tool_result id body ∷ bs) stay h = use_of_kept ids ids' bs stay h
use_of_kept ids ids' (other body ∷ bs) stay h = use_of_kept ids ids' bs stay h

pub of_some {ℓ} : {A : Type ℓ} {a b : A} → some a ≡ some b → a ≡ b
of_some h = cc

if_some {ℓ} : {A : Type ℓ} (b : Bool) (x y : A) → (if b then none else some x) ≡ some y → x ≡ y
if_some b x y h = ground arith

replaced_eq :
    (m : Message) (bs new : List Block) (m' : Message)
    → replaced m bs new ≡ some m'
    → record m { content = blocks new } ≡ m'
replaced_eq m bs new m' h =
    if_some (is_empty new && not (is_empty bs)) (record m { content = blocks new }) m' h

fits_system : (prev next : Option Message) (c : Content) → fits_between prev next system c ≡ true
fits_system prev next (text t) = refl
fits_system prev next (blocks bs) = refl

clean_by-fits :
    (prev next next' : Option Message) (m : Message) (r : Role) (c : Content) (m' : Message)
    → m.role ≡ r
    → m.content ≡ c
    → clean_by prev next m r c ≡ some m'
    → StaysAnswered m' next next'
    → fits_between prev next' m'.role m'.content ≡ true
clean_by-fits prev next next' m assistant (blocks bs) m' role content h stay =
    let kept = filter (keeps_use (answered_ids next)) bs in
    let e = replaced_eq m bs kept m' h in
    subst
      (λ (x : Message).
        StaysAnswered x next next' → fits_between prev next' x.role x.content ≡ true)
      e
      (rw role λ s. use_of_kept (answered_ids next) (answered_ids next') kept s (every-filter _ bs))
      stay
clean_by-fits prev next next' m user (blocks bs) m' role content h stay =
    let kept = filter (keeps_result (valid_ids prev)) bs in
    subst (λ (x : Message). fits_between prev next' x.role x.content ≡ true)
      (replaced_eq m bs kept m' h) (rw role (every-filter _ bs))
clean_by-fits prev next next' m assistant (text t) m' role content h stay =
    subst (λ (x : Message). fits_between prev next' x.role x.content ≡ true) (of_some h)
      (rw (role, content))
clean_by-fits prev next next' m user (text t) m' role content h stay =
    subst (λ (x : Message). fits_between prev next' x.role x.content ≡ true) (of_some h)
      (rw (role, content))
clean_by-fits prev next next' m system c m' role content h stay =
    subst (λ (x : Message). fits_between prev next' x.role x.content ≡ true) (of_some h)
      (rw role (fits_system prev next' m.content))

strip_from-paired :
    (prev : Option Message) (ms : List Message) → all_paired prev (strip_from prev ms) ≡ true
unfolding strip_from all_paired
strip_from-paired prev [] = refl
strip_from-paired prev (m ∷ rest) = elim (Option-cases (clean prev (head? rest) m)) [
  | inl gone ↦ rw (gone, strip_from) (strip_from-paired prev rest)
  | inr (m', kept) ↦
      let fits =
        clean_by-fits prev (head? rest) (head? (strip_from (some m') rest)) m m.role m.content m'
          refl refl kept (next_answers (some m') rest) in
      rw (kept, strip_from) (rw (fits, strip_from-paired (some m') rest))
]

-- The second loop only takes from the front.
every-no_results :
    (ids : List String) (bs : List Block)
    → every (keeps_result ids) (filter (λ b. not (is_result b)) bs) ≡ true
unfolding filter
every-no_results ids [] = refl
every-no_results ids (tool_use id body ∷ bs) = every-no_results ids bs
every-no_results ids (tool_result id body ∷ bs) = every-no_results ids bs
every-no_results ids (other body ∷ bs) = every-no_results ids bs

-- What becomes of the head: it is a user message without tool_results.
head_by_lem :
    (m : Message) (r : Role) (c : Content) (m' : Message)
    → m.role ≡ r
    → m.content ≡ c
    → head_by m r c ≡ some m'
    → (m'.role ≡ user)
      × (m.role ≡ user)
      × ((next : Option Message) → fits_between none next m'.role m'.content ≡ true)
head_by_lem m user (blocks bs) m' role content h =
    let kept = filter (λ b. not (is_result b)) bs in
    subst
      (λ (x : Message).
        (x.role ≡ user)
        × (m.role ≡ user)
        × ((next : Option Message) → fits_between none next x.role x.content ≡ true))
      (if_some (is_empty kept) (record m { content = blocks kept }) m' h)
      (role, role, rw role (λ next. every-no_results [] bs))
head_by_lem m user (text t) m' role content h =
    subst
      (λ (x : Message).
        (x.role ≡ user)
        × (m.role ≡ user)
        × ((next : Option Message) → fits_between none next x.role x.content ≡ true))
      (of_some h) (role, role, rw (role, content) (λ next. refl))
head_by_lem m assistant (blocks bs) m' role content h = cc
head_by_lem m assistant (text t) m' role content h = cc
head_by_lem m system (blocks bs) m' role content h = cc
head_by_lem m system (text t) m' role content h = cc

fits_prev :
    (p q next : Option Message) (r : Role) (c : Content)
    → valid_ids p ≡ valid_ids q
    → fits_between p next r c ≡ fits_between q next r c
fits_prev p q next assistant (blocks bs) e = refl
fits_prev p q next user (blocks bs) e = rw e
fits_prev p q next assistant (text t) e = refl
fits_prev p q next user (text t) e = refl
fits_prev p q next system (blocks bs) e = refl
fits_prev p q next system (text t) e = refl

no_uses_of_user : (c : Content) → ids_of_uses user c ≡ []
no_uses_of_user (blocks bs) = refl
no_uses_of_user (text t) = refl

valid_ids_user :
    (a b : Message) → a.role ≡ user → b.role ≡ user → valid_ids (some a) ≡ valid_ids (some b)
valid_ids_user a b p q = rw (p, q) (no_uses_of_user a.content ∙ sym (no_uses_of_user b.content))

all_paired_prev :
    (p q : Option Message) (ms : List Message)
    → valid_ids p ≡ valid_ids q
    → all_paired p ms ≡ all_paired q ms
unfolding all_paired
all_paired_prev p q [] e = refl
all_paired_prev p q (m ∷ ms) e = rw (fits_prev p q (head? ms) m.role m.content e)

trim_head-paired :
    (prev : Option Message) (ms : List Message)
    → all_paired prev ms ≡ true
    → all_paired none (trim_head ms) ≡ true
unfolding trim_head all_paired
trim_head-paired prev [] h = refl
trim_head-paired prev (m ∷ rest) h = elim (Option-cases (clean_head m)) [
  | inl gone ↦ rw (gone, trim_head) (trim_head-paired (some m) rest (ground (arith, h)))
  | inr (m', kept) ↦
      let (is_user', is_user, fits) = head_by_lem m m.role m.content m' refl refl kept in
      rw (kept, trim_head)
        (rw (fits (head? rest)) (
          all_paired_prev (some m') (some m) rest (valid_ids_user m' m is_user' is_user)
          ∙ ground (arith, h)))
]

-- In the cleaned messages every tool_use of an assistant message is answered in the very next
-- message, and every tool_result of a user message is asked for in the one before.
pub strip_orphaned_tool_results-paired :
    (messages : List Message) → all_paired none (strip_orphaned_tool_results messages) ≡ true
unfolding strip_orphaned_tool_results
strip_orphaned_tool_results-paired messages =
    trim_head-paired none (strip_from none messages) (strip_from-paired none messages)
