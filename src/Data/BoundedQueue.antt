-- ===== src/Data/BoundedQueue.antt =====
-- A queue that keeps the laws of `ConcurrentQueue`, at which the theorems on the queues of
-- backend/srs/data/BufferQueue.cpp are tried.
use srs_control.Base.{
  ℕ, ◌≡◌, refl, subst, Bool, true, false, List, [], ◌∷◌, ◌++◌, Option, none, some, arith, ltb,
  length,
}
use mathlib.Core.Option.{some-injective, none-ne-some}
use srs_control.Data.ConcurrentQueue.{ConcurrentQueue, Taken, here, there}
use srs_control.Data.LargeBuffer.{LargeBuffer}

-- A queue with a capacity: it refuses an element when it is full, and keeps the order.
abbrev pub Bounded : Type 0
Bounded = ℕ × List LargeBuffer

unfoldable pub offer : Bool → Bounded → LargeBuffer → Bool × Bounded
offer true (capacity, elements) b = (true, (capacity, elements ++ b ∷ []))
offer false q b = (false, q)

unfoldable pub first : Bounded → Option (LargeBuffer × Bounded)
first (capacity, []) = none
first (capacity, b ∷ elements) = some (b, (capacity, elements))

Taken-last : {A : Type 0} (x : A) (xs : List A) → Taken x (xs ++ x ∷ []) xs
Taken-last x [] = here
Taken-last x (y ∷ xs) = there (Taken-last x xs)

pub offer-accepts :
    (room : Bool) (q : Bounded) (b : LargeBuffer)
    → (offer room q b).0 ≡ true
    → Taken b (offer room q b).1.1 q.1
unfolding offer
offer-accepts true q b e = Taken-last b q.1
offer-accepts false q b e = absurd (ground arith)

pub offer-refuses :
    (room : Bool) (q : Bounded) (b : LargeBuffer)
    → (offer room q b).0 ≡ false
    → (offer room q b).1.1 ≡ q.1
unfolding offer
offer-refuses true q b e = absurd (ground arith)
offer-refuses false q b e = refl

pub first-takes : (q q' : Bounded) (b : LargeBuffer) → first q ≡ some (b, q') → Taken b q.1 q'.1
unfolding first
first-takes (capacity, []) q' b e = absurd (none-ne-some _ e)
first-takes (capacity, x ∷ elements) q' b e =
    subst (λ (r : LargeBuffer × Bounded). Taken r.0 (x ∷ elements) r.1.1) (some-injective _ _ e)
      here

unfoldable pub bounded : ConcurrentQueue
unfolding offer first
bounded = record {
  Queue = Bounded;
  contents = λ q. q.1;
  create = λ capacity. (capacity, []);
  try_enqueue = λ q b. offer (ltb (length q.1) q.0) q b;
  try_dequeue = first;
  enqueue_bulk = λ q bs. (q.0, q.1 ++ bs);
  create-contents = λ capacity. refl;
  try_enqueue_accepts = λ q b. offer-accepts (ltb (length q.1) q.0) q b;
  try_enqueue_refuses = λ q b. offer-refuses (ltb (length q.1) q.0) q b;
  try_dequeue_takes = first-takes;
  enqueue_bulk-contents = λ q bs. refl;
}
