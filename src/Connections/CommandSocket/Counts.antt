-- ===== src/Connections/CommandSocket/Counts.antt =====
-- backend/srs/connections/FecSwitchSocket.cpp: how many responses the socket waits for.
use srs_control.Base.{
  ℕ, ◌+◌, ◌≤◌, ◌≡◌, refl, sym, ap, ◌∙◌, Bool, true, false, not, List, [], ◌∷◌, ◌++◌, ◌==◌, All,
  All-imp, ◌↔◌, arith, if◌then◌else◌,
}
use srs_control.Connections.Command.{CommandBase, check_response}
use srs_control.Connections.CommandSocket.{
  SmallConnections, AllConnections, behind, split_last, swap_pop, kept, remove_once_if,
  register_send_action, deregister_connection, replaced, passed, response_handler,
  has_no_connections, is_finished,
}

-- A sum of these counts the elements for which a predicate holds.
abbrev pub one : Bool → ℕ
one true = 1
one false = 0

module _ {ℓ} {A : Type ℓ} (q : A → Bool) where
  abbrev pub count : List A → ℕ
  count [] = 0
  count (x ∷ xs) = one (q x) + count xs

  abbrev pub count_pair : A × List A → ℕ
  count_pair (x, xs) = one (q x) + count xs

  pub count-append : (xs ys : List A) → count (xs ++ ys) ≡ count xs + count ys
  count-append [] ys = omega arith
  count-append (x ∷ xs) ys = rw (count-append xs ys) (omega arith)

  count_pair-behind : (x : A) (p : A × List A) → count_pair (behind x p) ≡ one (q x) + count_pair p
  unfolding behind
  count_pair-behind x (l, i) = omega arith

  count-split_last : (x : A) (xs : List A) → count_pair (split_last x xs) ≡ count (x ∷ xs)
  unfolding split_last
  count-split_last x [] = refl
  count-split_last x (y ∷ ys) =
      count_pair-behind x (split_last y ys) ∙ ap (λ n. one (q x) + n) (count-split_last y ys)

  count-swap_pop : (xs : List A) → count (swap_pop xs) ≡ count xs
  unfolding swap_pop
  count-swap_pop [] = refl
  count-swap_pop (x ∷ xs) = count-split_last x xs

  count_answer : Bool × List A → ℕ
  count_answer (_, xs) = count xs

module _ {ℓ} {A : Type ℓ} where
  -- Either one element that the predicate refuses goes, or all stay as they are.
  abbrev IsRemoved : (A → Bool) → List A → Bool × List A → Type ℓ
  IsRemoved p xs (true, ys) =
      (c : A) × (p c ≡ false) × ((q : A → Bool) → count q xs ≡ one (q c) + count q ys)
  IsRemoved p xs (false, ys) = (ys ≡ xs) × All (λ c. p c ≡ true) xs

  IsRemoved-kept :
      (p : A → Bool) (x : A) (xs : List A) (r : Bool × List A)
      → p x ≡ true
      → IsRemoved p xs r
      → IsRemoved p (x ∷ xs) (kept x r)
  unfolding kept
  IsRemoved-kept p x xs (true, ys) e (c, refused, n) = (c, refused, λ q. let m = n q in omega arith)
  IsRemoved-kept p x xs (false, ys) e (same, all) = (ap (λ zs. x ∷ zs) same, (e, all))

  IsRemoved-if :
      (p : A → Bool) (x : A) (xs : List A) (r : Bool × List A) (b : Bool)
      → p x ≡ b
      → IsRemoved p xs r
      → IsRemoved p (x ∷ xs) (if not b then (true, swap_pop xs) else kept x r)
  IsRemoved-if p x xs r true e i = IsRemoved-kept p x xs r e i
  IsRemoved-if p x xs r false e i = (x, e, λ q. ap (λ n. one (q x) + n) (sym (count-swap_pop q xs)))

  remove_once_if-IsRemoved : (p : A → Bool) (xs : List A) → IsRemoved p xs (remove_once_if p xs)
  unfolding remove_once_if
  remove_once_if-IsRemoved p [] = (refl, tt)
  remove_once_if-IsRemoved p (x ∷ xs) =
      IsRemoved-if p x xs (remove_once_if p xs) (p x) refl (remove_once_if-IsRemoved p xs)

-- Either one connection that accepts the response goes, or none accepts it and all stay.
abbrev pub IsDeregistered :
    (response : List ℕ) → SmallConnections → Bool × SmallConnections → Type 0
IsDeregistered response xs (true, ys) =
    (c : CommandBase) × (check_response c response ≡ true)
    × ((q : CommandBase → Bool) → count q xs ≡ one (q c) + count q ys)
IsDeregistered response xs (false, ys) = (ys ≡ xs) × All (λ c. check_response c response ≡ false) xs

-- What `response_handler` leaves of the connections of every endpoint together.
abbrev pub count_all : (CommandBase → Bool) → AllConnections → ℕ
count_all q [] = 0
count_all q ((_, cs) ∷ rest) = count q cs + count_all q rest

-- The connections of one endpoint, none if it is unknown.
abbrev pub connections_at : (endpoint : ℕ) → AllConnections → SmallConnections
connections_at endpoint [] = []
connections_at endpoint ((e, cs) ∷ rest) =
    let others = connections_at endpoint rest in if e == endpoint then cs else others

-- Either one of some connections goes, one that accepts the response, or none of them accepts it.
abbrev pub IsHandled :
    (response : List ℕ) → SmallConnections → AllConnections → Bool × AllConnections → Type 0
IsHandled response there all (true, left) =
    (c : CommandBase) × (check_response c response ≡ true)
    × ((q : CommandBase → Bool)
        → (one (q c) ≤ count q there) × (count_all q all ≡ one (q c) + count_all q left))
IsHandled response there all (false, left) =
    (left ≡ all) × All (λ c. check_response c response ≡ false) there

module _ (q : CommandBase → Bool) where
  count_all-if :
      (e : ℕ) (cs : SmallConnections) (rest others : AllConnections) (c : CommandBase) (b : Bool)
      → count_all q others ≡ one (q c) + count_all q rest
      → count_all q (if b then ((e, cs ++ (c ∷ [])) ∷ rest) else ((e, cs) ∷ others))
        ≡ one (q c) + (count q cs + count_all q rest)
  count_all-if e cs rest others c true h = rw (count-append q cs (c ∷ [])) (omega arith)
  count_all-if e cs rest others c false h = omega arith

  -- Registering a connection adds it, and nothing else, to those that the socket waits for.
  pub count_all-register_send_action :
      (all : AllConnections) (c : CommandBase)
      → count_all q (register_send_action all c) ≡ one (q c) + count_all q all
  unfolding register_send_action
  count_all-register_send_action [] c = omega arith
  count_all-register_send_action ((e, cs) ∷ rest) c =
      count_all-if e cs rest (register_send_action rest c) c (e == c.remote_endpoint)
        (count_all-register_send_action rest c)

not-false : (b : Bool) → not b ≡ false → b ≡ true
not-false true _ = refl
not-false false e = sym e

not-true : (b : Bool) → not b ≡ true → b ≡ false
not-true true e = sym e
not-true false _ = refl

module _ (response : List ℕ) where
  IsDeregistered-IsRemoved :
      (xs : SmallConnections) (r : Bool × SmallConnections)
      → IsRemoved (λ c. not (check_response c response)) xs r
      → IsDeregistered response xs r
  IsDeregistered-IsRemoved xs (true, ys) (c, refused, n) =
      (c, not-false (check_response c response) refused, n)
  IsDeregistered-IsRemoved xs (false, ys) (same, all) = (
    same,
    All-imp (λ c. not (check_response c response) ≡ true) (λ c. check_response c response ≡ false)
        xs (λ c. not-true (check_response c response)) all,
  )

  -- Of the connections of one endpoint a response takes away exactly one that accepts it, the others
  -- being kept up to their order, or none accepts it and all stay as they are.
  pub deregister_connection_lem :
      (cs : SmallConnections) → IsDeregistered response cs (deregister_connection response cs)
  unfolding deregister_connection
  deregister_connection_lem [] = (refl, tt)
  deregister_connection_lem (c ∷ cs) =
      IsDeregistered-IsRemoved (c ∷ cs)
        (remove_once_if (λ x. not (check_response x response)) (c ∷ cs))
        (remove_once_if-IsRemoved (λ x. not (check_response x response)) (c ∷ cs))

  IsHandled-replaced :
      (e : ℕ) (cs : SmallConnections) (rest : AllConnections) (d : Bool × SmallConnections)
      → IsDeregistered response cs d
      → IsHandled response cs ((e, cs) ∷ rest) (replaced e rest d)
  unfolding replaced
  IsHandled-replaced e cs rest (true, ys) (c, ok, n) =
      (c, ok, λ q. let m = n q in (omega arith, omega arith))
  IsHandled-replaced e cs rest (false, ys) (same, refused) =
      (ap (λ zs. (e, zs) ∷ rest) same, refused)

  IsHandled-passed :
      (entry : ℕ × SmallConnections) (rest : AllConnections) (r : Bool × AllConnections)
      (there : SmallConnections)
      → IsHandled response there rest r
      → IsHandled response there (entry ∷ rest) (passed entry r)
  unfolding passed
  IsHandled-passed (e, cs) rest (true, left) there (c, ok, n) =
      (c, ok, λ q. let (m, k) = n q in (m, omega arith))
  IsHandled-passed (e, cs) rest (false, left) there (same, refused) =
      (ap (λ zs. (e, cs) ∷ zs) same, refused)

  IsHandled-if :
      (e : ℕ) (cs : SmallConnections) (rest : AllConnections) (r : Bool × AllConnections)
      (there : SmallConnections) (b : Bool)
      → IsHandled response there rest r
      → IsHandled response
          (if b then cs else there)
          ((e, cs) ∷ rest)
          (if b then replaced e rest (deregister_connection response cs) else passed (e, cs) r)
  IsHandled-if e cs rest r there true h =
      IsHandled-replaced e cs rest (deregister_connection response cs)
        (deregister_connection_lem cs)
  IsHandled-if e cs rest r there false h = IsHandled-passed (e, cs) rest r there h

  -- A response that is recognized takes away exactly one of the connections of all endpoints, one of
  -- the endpoint it comes from that accepts it. A response that is not recognized changes nothing,
  -- and no connection of that endpoint accepts it.
  pub response_handler_lem :
      (all : AllConnections) (endpoint : ℕ)
      → IsHandled response
          (connections_at endpoint all)
          all
          (response_handler all endpoint response)
  unfolding response_handler
  response_handler_lem [] endpoint = (refl, tt)
  response_handler_lem ((e, cs) ∷ rest) endpoint =
      IsHandled-if e cs rest (response_handler rest endpoint response)
        (connections_at endpoint rest) (e == endpoint) (response_handler_lem rest endpoint)

-- The command socket is finished exactly if it waits for no response of any endpoint.
pub is_finished_iff :
    (all : AllConnections) → (is_finished all ≡ true) ↔ (count_all (λ _. true) all ≡ 0)
unfolding is_finished has_no_connections
is_finished_iff [] = (λ _. refl, λ _. refl)
is_finished_iff ((e, []) ∷ rest) =
    let (there, back) = is_finished_iff rest in
    (λ h. let n = there h in omega arith, λ h. back (omega arith))
is_finished_iff ((e, c ∷ cs) ∷ rest) = (λ h. grind arith, λ h. grind arith)
