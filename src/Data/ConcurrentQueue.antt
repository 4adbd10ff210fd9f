-- ===== src/Data/ConcurrentQueue.antt =====
-- The queues of the library moodycamel, which is not part of the repository: an interface that the
-- buffer queue takes as a parameter. The laws are what its documentation says: an element that went
-- in stands in the queue until it is taken out, once. Nothing is said about the order, which the
-- library keeps for each producer only, nor about when an operation fails.
use srs_control.Base.{ℕ, ◌≡◌, Bool, true, false, List, [], ◌∷◌, ◌++◌, Option, some}
use srs_control.Data.LargeBuffer.{LargeBuffer}

-- The second list is the first without one occurrence of the element.
pub data Taken {ℓ} {A : Type ℓ} (x : A) : List A → List A → Type ℓ where
  here : {xs : List A} → Taken x (x ∷ xs) xs
  there : {y : A} {xs ys : List A} → Taken x xs ys → Taken x (y ∷ xs) (y ∷ ys)

pub record ConcurrentQueue : Type 1 where
  pub Queue : Type 0
  pub contents : Queue → List LargeBuffer
  pub create : (capacity : ℕ) → Queue
  pub try_enqueue : Queue → LargeBuffer → Bool × Queue
  pub try_dequeue : Queue → Option (LargeBuffer × Queue)
  pub enqueue_bulk : Queue → List LargeBuffer → Queue
  pub create-contents : (capacity : ℕ) → contents (create capacity) ≡ []
  pub try_enqueue_accepts :
      (q : Queue) (b : LargeBuffer)
      → (try_enqueue q b).0 ≡ true
      → Taken b (contents (try_enqueue q b).1) (contents q)
  pub try_enqueue_refuses :
      (q : Queue) (b : LargeBuffer)
      → (try_enqueue q b).0 ≡ false
      → contents (try_enqueue q b).1 ≡ contents q
  pub try_dequeue_takes :
      (q q' : Queue) (b : LargeBuffer)
      → try_dequeue q ≡ some (b, q')
      → Taken b (contents q) (contents q')
  pub enqueue_bulk-contents :
      (q : Queue) (bs : List LargeBuffer) → contents (enqueue_bulk q bs) ≡ contents q ++ bs
