-- ===== src/Connections/CommandSocket/Loop.antt =====
-- backend/srs/connections/FecSwitchSocket.cpp and SpecialSocketBase.hpp: how many responses of each
-- endpoint the socket waits for while it listens.
use srs_control.Base.{
  ℕ, ◌+◌, ◌-◌, ◌≡◌, refl, subst, Bool, true, false, not, List, [], ◌∷◌, ◌++◌, ◌==◌, ==_iff, arith,
  if◌then◌else◌, Bool-cases, inl, inr,
}
use srs_control.Connections.Command.{CommandBase, check_response}
use srs_control.Connections.CommandSocket.{
  SmallConnections, AllConnections, register_send_action, deregister_connection, replaced, passed,
  response_handler, has_no_connections, is_finished,
}
use srs_control.Connections.CommandSocket.Counts.{
  one, count, count_all, connections_at, IsDeregistered, deregister_connection_lem, count-append,
}

-- The connections of one endpoint that wait.
abbrev pub n_at : (endpoint : ℕ) → AllConnections → ℕ
n_at endpoint all_connections = count (λ _. true) (connections_at endpoint all_connections)

abbrev pub refuses : (response : List ℕ) → CommandBase → Bool
refuses response c = not (check_response c response)

-- The keys of a map differ.
abbrev pub NoKey : ℕ → AllConnections → Type 0
NoKey k [] = Unit
NoKey k ((e, _) ∷ rest) = ((e == k) ≡ false) × NoKey k rest

abbrev pub IsMap : AllConnections → Type 0
IsMap [] = Unit
IsMap ((e, _) ∷ rest) = NoKey e rest × IsMap rest

==_false : (a b : ℕ) → (a == b) ≡ false → (b == a) ≡ false
==_false a b h = ground arith

replaced_left :
    (e : ℕ) (rest : AllConnections) (d : Bool × SmallConnections)
    → (replaced e rest d).1 ≡ (e, d.1) ∷ rest
unfolding replaced
replaced_left e rest (res, cs) = refl

passed_left :
    (entry : ℕ × SmallConnections) (r : Bool × AllConnections) → (passed entry r).1 ≡ entry ∷ r.1
unfolding passed
passed_left entry (res, rest) = refl

same_key : (a b k : ℕ) → (a == b) ≡ true → (b == k) ≡ (a == k)
same_key a b k h = rw ((==_iff a b).0 h) refl

other_key : (a b k : ℕ) → (a == b) ≡ false → (a == k) ≡ true → (b == k) ≡ false
other_key a b k h g = ground arith

NoKey-if :
    (k e : ℕ) (cs : SmallConnections) (rest others : AllConnections) (c : CommandBase) (b : Bool)
    → (e == k) ≡ false
    → NoKey k rest
    → NoKey k others
    → NoKey k (if b then (e, cs ++ c ∷ []) ∷ rest else (e, cs) ∷ others)
NoKey-if k e cs rest others c true h p q = (h, p)
NoKey-if k e cs rest others c false h p q = (h, q)

NoKey-register_send_action :
    (k : ℕ) (all_connections : AllConnections) (c : CommandBase)
    → (c.remote_endpoint == k) ≡ false
    → NoKey k all_connections
    → NoKey k (register_send_action all_connections c)
unfolding register_send_action
NoKey-register_send_action k [] c h n = (h, tt)
NoKey-register_send_action k ((e, cs) ∷ rest) c h (m, n) =
    NoKey-if k e cs rest (register_send_action rest c) c (e == c.remote_endpoint) m n
      (NoKey-register_send_action k rest c h n)

pub IsMap-register_send_action :
    (all_connections : AllConnections) (c : CommandBase)
    → IsMap all_connections
    → IsMap (register_send_action all_connections c)
unfolding register_send_action
IsMap-register_send_action [] c m = (tt, tt)
IsMap-register_send_action ((e, cs) ∷ rest) c (n, m) = elim (Bool-cases (e == c.remote_endpoint)) [
  | inl h ↦ rw h (n, m)
  | inr h ↦ rw h (
    NoKey-register_send_action e rest c (==_false (e) c.remote_endpoint h) n,
    IsMap-register_send_action rest c m,
  )
]

NoKey-response_handler :
    (k : ℕ) (all_connections : AllConnections) (endpoint : ℕ) (response : List ℕ)
    → NoKey k all_connections
    → NoKey k (response_handler all_connections endpoint response).1
unfolding response_handler
NoKey-response_handler k [] endpoint response n = tt
NoKey-response_handler k ((e, cs) ∷ rest) endpoint response (m, n) =
    elim (Bool-cases (e == endpoint)) [
      | inl h ↦ rw (h, replaced_left e rest (deregister_connection response cs)) (m, n)
      | inr h ↦
          rw (h, passed_left (e, cs) (response_handler rest endpoint response))
            (m, NoKey-response_handler k rest endpoint response n)
    ]

pub IsMap-response_handler :
    (all_connections : AllConnections) (endpoint : ℕ) (response : List ℕ)
    → IsMap all_connections
    → IsMap (response_handler all_connections endpoint response).1
unfolding response_handler
IsMap-response_handler [] endpoint response m = tt
IsMap-response_handler ((e, cs) ∷ rest) endpoint response (n, m) =
    elim (Bool-cases (e == endpoint)) [
      | inl h ↦ rw (h, replaced_left e rest (deregister_connection response cs)) (n, m)
      | inr h ↦
          rw (h, passed_left (e, cs) (response_handler rest endpoint response))
            (
              NoKey-response_handler e rest endpoint response n,
              IsMap-response_handler rest endpoint response m,
            )
    ]

-- Registering adds one to the endpoint of the connection.
pub n_at-register_send_action :
    (k : ℕ) (all_connections : AllConnections) (c : CommandBase)
    → n_at k (register_send_action all_connections c)
      ≡ n_at k all_connections + one (c.remote_endpoint == k)
unfolding register_send_action
n_at-register_send_action k [] c = elim (Bool-cases (c.remote_endpoint == k)) [
  | inl h ↦ rw h (omega arith)
  | inr h ↦ rw h (omega arith)
]
n_at-register_send_action k ((e, cs) ∷ rest) c = elim (Bool-cases (e == c.remote_endpoint)) [
  | inl h ↦
      rw (h, same_key e c.remote_endpoint k h)
        (elim (Bool-cases (e == k)) [
          | inl g ↦ rw (g, count-append (λ _. true) cs (c ∷ [])) (omega arith)
          | inr g ↦ rw g (omega arith)
        ])
  | inr h ↦ rw h (elim (Bool-cases (e == k)) [
    | inl g ↦ rw (g, other_key e c.remote_endpoint k h g) (omega arith)
    | inr g ↦ rw g (n_at-register_send_action k rest c)
  ])
]

none_left :
    (response : List ℕ) (cs : SmallConnections) (d : Bool × SmallConnections)
    → count (refuses response) cs ≡ 0
    → IsDeregistered response cs d
    → count (λ _. true) d.1 ≡ count (λ _. true) cs - 1
none_left response cs (true, ys) h (c, ok, n) = let m = n (λ _. true) in omega arith
none_left response [] (false, ys) h (same, refused) = rw same refl
none_left response (c ∷ cs) (false, ys) h (same, refused) =
    absurd (let h' = rw refused.0 at h in omega arith)

-- An accepted response takes one away from its endpoint.
pub n_at-response_handler :
    (k : ℕ) (all_connections : AllConnections) (endpoint : ℕ) (response : List ℕ)
    → count_all (refuses response) all_connections ≡ 0
    → n_at k (response_handler all_connections endpoint response).1
      ≡ n_at k all_connections - one (endpoint == k)
unfolding response_handler
n_at-response_handler k [] endpoint response h = omega arith
n_at-response_handler k ((e, cs) ∷ rest) endpoint response h = elim (Bool-cases (e == endpoint)) [
  | inl same ↦
      rw
        (same, replaced_left e rest (deregister_connection response cs), same_key e endpoint k same)
        (elim (Bool-cases (e == k)) [
          | inl g ↦ rw g (
              none_left response cs (deregister_connection response cs) (omega arith)
                (deregister_connection_lem response cs))
          | inr g ↦ rw g (omega arith)
        ])
  | inr other ↦
      rw (other, passed_left (e, cs) (response_handler rest endpoint response))
        (elim (Bool-cases (e == k)) [
          | inl g ↦ rw (g, other_key e endpoint k other g) (omega arith)
          | inr g ↦ rw g (n_at-response_handler k rest endpoint response (omega arith))
        ])
]

NoKey-n_at :
    (k : ℕ) (all_connections : AllConnections)
    → NoKey k all_connections
    → n_at k all_connections ≡ 0
NoKey-n_at k [] n = refl
NoKey-n_at k ((e, cs) ∷ rest) (m, n) = rw m (NoKey-n_at k rest n)

-- A socket that waits for no response of any endpoint is finished.
pub n_at-is_finished :
    (all_connections : AllConnections)
    → IsMap all_connections
    → ((k : ℕ) → n_at k all_connections ≡ 0)
    → is_finished all_connections ≡ true
unfolding is_finished has_no_connections
n_at-is_finished [] m h = refl
n_at-is_finished ((e, []) ∷ rest) (n, m) h = n_at-is_finished rest m (λ k.
    elim (Bool-cases (e == k)) [
      | inl g ↦ NoKey-n_at k rest (subst (λ x. NoKey x rest) ((==_iff e k).0 g) n)
      | inr g ↦ rw g at (h k)
    ])
n_at-is_finished ((e, c ∷ cs) ∷ rest) (n, m) h =
    absurd (let h' = rw ((==_iff e e).1 refl) at (h e) in omega arith)
