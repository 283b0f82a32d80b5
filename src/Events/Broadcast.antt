-- ===== src/Events/Broadcast.antt =====
-- What a broadcast delivers, and which sockets it evicts.
use pioneer_square.Shared.{
  ℕ, String, ◌≡◌, refl, sym, ap, ◌∙◌, Bool, true, false, not, ◌&&◌, Option, some, List, [], ◌∷◌,
  ◌++◌, append_assoc, map, ◌==◌, string_eq, nat_eq, any, filter, if◌then◌else◌, get, get-set, arith,
  Bool-cases, inl, inr,
}
use pioneer_square.Events.{Sockets, remove_socket, remove_each, is_addressed, send_each, broadcast}

abbrev pub is_dead : (ℕ → Bool) → Option ℕ → ℕ → Bool
is_dead fails exclude ws = is_addressed exclude ws && fails ws

abbrev pub is_reached : (ℕ → Bool) → Option ℕ → ℕ → Bool
is_reached fails exclude ws = is_addressed exclude ws && not (fails ws)

send_each_lem :
    (fails : ℕ → Bool) (exclude : Option ℕ) (text : String) (members : List ℕ)
    → ((send_each fails exclude text members).0
        ≡ map (λ ws. (ws, text)) (filter (is_reached fails exclude) members))
      × ((send_each fails exclude text members).1 ≡ filter (is_dead fails exclude) members)
unfolding send_each filter
send_each_lem fails exclude text [] = (refl, refl)
send_each_lem fails exclude text (ws ∷ rest) =
    let h = send_each_lem fails exclude text rest in ground (arith, h.0, h.1)

remove_socket-append :
    (d : ℕ → Bool) (ws : ℕ) (ys xs : List ℕ)
    → d ws ≡ true
    → any d ys ≡ false
    → remove_socket ws (ys ++ ws ∷ xs) ≡ ys ++ xs
unfolding remove_socket any
remove_socket-append d ws [] xs dead alive = ground arith
remove_socket-append d ws (y ∷ ys) xs dead alive = elim (Bool-cases (y == ws)) [
  | inl same ↦ let at : y ≡ ws = ground (arith, same) in ground (arith, alive, dead, ap d at)
  | inr other ↦ ground (arith, other, alive, remove_socket-append d ws ys xs dead)
]

any-snoc :
    (d : ℕ → Bool) (ys : List ℕ) (x : ℕ)
    → any d ys ≡ false
    → d x ≡ false
    → any d (ys ++ x ∷ []) ≡ false
unfolding any
any-snoc d [] x alive stays = ground (arith, stays)
any-snoc d (y ∷ ys) x alive stays = ground (arith, alive, any-snoc d ys x)

remove_each-filter :
    (d : ℕ → Bool) (ys xs : List ℕ)
    → any d ys ≡ false
    → remove_each (filter d xs) (ys ++ xs) ≡ ys ++ filter (λ ws. not (d ws)) xs
unfolding remove_each filter
remove_each-filter d ys [] alive = refl
remove_each-filter d ys (x ∷ xs) alive = elim (Bool-cases (d x)) [
  | inl dead ↦
      let gone = ap (remove_each (filter d xs)) (remove_socket-append d x ys xs dead alive) in
      rw dead (gone ∙ remove_each-filter d ys xs alive)
  | inr stays ↦
      let split = append_assoc ys (x ∷ []) xs in
      let more : any d (ys ++ x ∷ []) ≡ false = any-snoc d ys x alive stays in
      rw stays (
        ap (remove_each (filter d xs)) (sym split)
        ∙ remove_each-filter d (ys ++ x ∷ []) xs more
        ∙ append_assoc ys (x ∷ []) (filter (λ ws. not (d ws)) xs))
]

-- After a broadcast to a guild that has sockets, those are left on which no send raised, in their
-- order; the message went to each socket, but for the excluded one, whose send did not raise,
-- in that order, and the other guilds keep their sockets.
pub broadcast_lem :
    (fails : ℕ → Bool) (guild_id text : String) (exclude : Option ℕ) (sockets : Sockets)
    (members : List ℕ)
    → get guild_id sockets.connections ≡ some members
    → let after = broadcast fails guild_id text exclude sockets in
      (after.sent
        ≡ sockets.sent ++ map (λ ws. (ws, text)) (filter (is_reached fails exclude) members))
      × ((other : String)
          → get other after.connections ≡ (
              if guild_id == other
              then some (filter (λ ws. not (is_dead fails exclude ws)) members)
              else get other sockets.connections))
unfolding broadcast any
broadcast_lem fails guild_id text exclude sockets members h =
    let each = send_each_lem fails exclude text members in
    let left =
      ap (λ dead. remove_each dead members) each.1
      ∙ remove_each-filter (is_dead fails exclude) [] members refl in
    rw h (
      ap (λ xs. sockets.sent ++ xs) each.0,
      λ other.
          get-set guild_id other _ sockets.connections
          ∙ ap (λ xs. if guild_id == other then some xs else get other sockets.connections) left,
    )
