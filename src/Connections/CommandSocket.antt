-- ===== src/Connections/CommandSocket.antt =====
-- backend/srs/connections/FecSwitchSocket.cpp and .hpp: the connections that wait for a response, by
-- their remote endpoints. The sending, the log and the time stamps are left out.
pub mod Counts
pub mod Loop
use srs_control.Base.{ℕ, Bool, true, false, not, ◌&&◌, List, [], ◌∷◌, ◌++◌, ◌==◌, if◌then◌else◌}
use srs_control.Connections.Command.{CommandBase, check_response}

abbrev pub SmallConnections : Type 0
SmallConnections = List CommandBase

-- The map `all_connections_`, whose keys differ.
abbrev pub AllConnections : Type 0
AllConnections = List (ℕ × SmallConnections)

module _ {ℓ} {A : Type ℓ} where
  unfoldable pub behind : A → A × List A → A × List A
  behind x (last, init) = (last, x ∷ init)

  unfoldable pub split_last : A → List A → A × List A
  split_last x [] = (x, [])
  split_last x (y ∷ ys) = behind x (split_last y ys)

  -- The vector without its first element, whose place the last one takes.
  unfoldable pub swap_pop : List A → List A
  swap_pop [] = []
  swap_pop (x ∷ xs) = let (last, init) = split_last x xs in last ∷ init

  unfoldable pub kept : A → Bool × List A → Bool × List A
  kept c (res, cs) = (res, c ∷ cs)

  -- The first connection goes for which the predicate does not hold.
  unfoldable pub remove_once_if : (A → Bool) → List A → Bool × List A
  remove_once_if unitary_opt [] = (false, [])
  remove_once_if unitary_opt (c ∷ cs) =
      let rest = remove_once_if unitary_opt cs in
      if not (unitary_opt c) then (true, swap_pop cs) else kept c rest

-- `try_emplace`, and the connection at the end of the entry.
unfoldable pub register_send_action : AllConnections → CommandBase → AllConnections
register_send_action [] c = (c.remote_endpoint, c ∷ []) ∷ []
register_send_action ((e, cs) ∷ rest) c =
    let others = register_send_action rest c in
    if e == c.remote_endpoint then (e, cs ++ (c ∷ [])) ∷ rest else (e, cs) ∷ others

-- Whether the response was recognized, and what is left of the connections.
unfoldable pub deregister_connection :
    (response : List ℕ) → SmallConnections → Bool × SmallConnections
deregister_connection response [] = (false, [])
deregister_connection response (c ∷ cs) =
    remove_once_if (λ connection. let is_same = check_response connection response in not is_same)
      (c ∷ cs)

unfoldable pub replaced :
    (endpoint : ℕ) → AllConnections → Bool × SmallConnections → Bool × AllConnections
replaced endpoint rest (res, cs) = (res, (endpoint, cs) ∷ rest)

unfoldable pub passed : ℕ × SmallConnections → Bool × AllConnections → Bool × AllConnections
passed entry (res, rest) = (res, entry ∷ rest)

-- The response of an unknown endpoint is dropped.
unfoldable pub response_handler :
    AllConnections → (endpoint : ℕ) (response : List ℕ) → Bool × AllConnections
response_handler [] endpoint response = (false, [])
response_handler ((e, cs) ∷ rest) endpoint response =
    let others = response_handler rest endpoint response in
    if e == endpoint
    then replaced e rest (deregister_connection response cs)
    else passed (e, cs) others

-- The loop of `async_listen_all_connections`: the messages received, each with the endpoint that it
-- comes from, up to the one at which the socket is closed.
unfoldable pub listen_all : AllConnections → List (ℕ × List ℕ) → AllConnections
listen_all all_connections [] = all_connections
listen_all all_connections ((endpoint, response) ∷ messages) =
    listen_all (response_handler all_connections endpoint response).1 messages

unfoldable pub has_no_connections : SmallConnections → Bool
has_no_connections [] = true
has_no_connections (_ ∷ _) = false

unfoldable pub is_finished : AllConnections → Bool
is_finished [] = true
is_finished ((_, cs) ∷ rest) = has_no_connections cs && is_finished rest
