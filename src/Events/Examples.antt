-- ===== src/Events/Examples.antt =====
-- A broadcast on concrete sockets.
use pioneer_square.Shared.{
  ℕ, String, ◌≡◌, refl, Bool, not, some, [], ◌∷◌, ◌++◌, map, ◌==◌, string_eq, nat_eq, filter,
  if◌then◌else◌, get, set,
}
use pioneer_square.Events.{
  Sockets, send_each, remove_socket, remove_each, broadcast, emit_terminal_line,
}
use pioneer_square.Events.Broadcast.{is_reached, is_dead, broadcast_lem}

-- Socket 2 is broken.
abbrev breaks : ℕ → Bool
breaks ws = ws == 2

abbrev sockets : Sockets
sockets = record { connections = ("acme", 1 ∷ 2 ∷ 3 ∷ []) ∷ ("other", 2 ∷ []) ∷ []; sent = [] }

broken_evicted :
    broadcast breaks "acme" "hi" (some 3) sockets
    ≡ record { connections = ("acme", 1 ∷ 3 ∷ []) ∷ ("other", 2 ∷ []) ∷ []; sent = (1, "hi") ∷ [] }
unfolding broadcast get set send_each remove_socket remove_each
broken_evicted = refl

empty_line_kept_out : (emit_terminal_line 5 breaks "none" "a-1" "" "hi" [] [] sockets).0 ≡ []
unfolding emit_terminal_line
empty_line_kept_out = refl

members_found : get "acme" sockets.connections ≡ some (1 ∷ 2 ∷ 3 ∷ [])
unfolding get
members_found = refl

broadcast_lem_example :
    let after = broadcast breaks "acme" "hi" (some 3) sockets in
    (after.sent
      ≡ sockets.sent
        ++ map (λ ws. (ws, "hi")) (filter (is_reached breaks (some 3)) (1 ∷ 2 ∷ 3 ∷ [])))
    × ((other : String)
        → get other after.connections ≡ (
            if "acme" == other
            then some (filter (λ ws. not (is_dead breaks (some 3) ws)) (1 ∷ 2 ∷ 3 ∷ []))
            else get other sockets.connections))
broadcast_lem_example =
    broadcast_lem breaks "acme" "hi" (some 3) sockets (1 ∷ 2 ∷ 3 ∷ []) members_found
