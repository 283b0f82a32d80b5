-- ===== src/Conversations/Names.antt =====
-- The name of a conversation: `name_from_message` of backend/foreman/conversation_service.py.
use Prim.Native.Nat.{ℕ, zero, suc}
use Prim.Native.String.{String, [], ◌∷◌, ◌++◌, count}
use text.Mathlib.TextLemmas.{length-cons, length-append}
use pioneer_square.Shared.{
  Bool, true, false, ◌&&◌, if◌then◌else◌, leb, ◌==◌, string_eq, Option, none, some, or_default, ◌≡◌,
  ◌≤◌, ◌+◌, arith,
}
use pioneer_square.Tools.Choice.Texts.{is_space}

-- `" ".join(text.split())`: whether a word has begun, and whether blanks have come since.
abbrev pub join_words : Bool → Bool → String → String
join_words begun blank [] = []
join_words begun blank (c ∷ s) =
    let skipped = join_words begun true s in
    let kept = join_words true false s in
    if is_space c then skipped else if begun && blank then " " ++ (c ∷ kept) else c ∷ kept

abbrev pub take_chars : ℕ → String → String
take_chars zero s = []
take_chars (suc n) [] = []
take_chars (suc n) (c ∷ s) = c ∷ take_chars n s

abbrev pub max_name_len : ℕ
max_name_len = 80

abbrev pub shortened : String → Option String
shortened text =
    if text == ""
    then none
    else some (if leb (count text) max_name_len then text else take_chars 79 text ++ "…")

unfoldable pub name_from_message : Option String → Option String
name_from_message content = shortened (join_words false false (or_default content ""))

count-take_chars : (n : ℕ) (s : String) → count (take_chars n s) ≤ n
count-take_chars zero s = ground arith
count-take_chars (suc n) [] = ground arith
count-take_chars (suc n) (c ∷ s) =
    ground (arith, length-cons c (take_chars n s), count-take_chars n s)

count_nonempty : (s : String) → (s == "") ≡ false → 1 ≤ count s
count_nonempty [] h = ground (arith, h)
count_nonempty (c ∷ s) h = ground (arith, length-cons c s)

shortened_bound :
    (text name : String) → shortened text ≡ some name → (1 ≤ count name) × (count name ≤ 80)
shortened_bound text name h =
    let cut : count (take_chars 79 text ++ "…") ≡ count (take_chars 79 text) + count "…" =
      length-append (take_chars 79 text) "…" in
    ground (arith, h, cut, count-take_chars 79 text, count_nonempty text)

-- A name that is derived from a message is not empty and has at most 80 characters.
pub name_from_message_bound :
    (content : Option String) (name : String)
    → name_from_message content ≡ some name
    → (1 ≤ count name) × (count name ≤ 80)
unfolding name_from_message
name_from_message_bound content name h =
    shortened_bound (join_words false false (or_default content "")) name h
