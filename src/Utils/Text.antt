-- ===== src/Utils/Text.antt =====
-- The comparisons of texts that several parts of backend/srs use. A text is the list of its bytes.
use srs_control.Base.{
  ℕ, ◌-◌, ◌≡◌, refl, sym, ap₂, ◌∙◌, Bool, true, false, ◌&&◌, List, [], ◌∷◌, ◌++◌, ◌==◌, ==_iff,
  length, length-append, drop, drop-append, take, take-append-drop, ap, leb, le→leb, arith,
}

-- `==` of `std::string_view`.
unfoldable pub eq_bytes : List ℕ → List ℕ → Bool
eq_bytes [] [] = true
eq_bytes [] (_ ∷ _) = false
eq_bytes (_ ∷ _) [] = false
eq_bytes (x ∷ xs) (y ∷ ys) = (x == y) && eq_bytes xs ys

pub eq_bytes_refl : (xs : List ℕ) → eq_bytes xs xs ≡ true
unfolding eq_bytes
eq_bytes_refl [] = refl
eq_bytes_refl (x ∷ xs) = rw (eq_bytes_refl xs, (==_iff x x).1 refl) refl

pub both : (a b : Bool) → (a && b) ≡ true → (a ≡ true) × (b ≡ true)
both true b e = (refl, e)
both false b e = grind arith

pub eq_bytes→eq : (xs ys : List ℕ) → eq_bytes xs ys ≡ true → xs ≡ ys
unfolding eq_bytes
eq_bytes→eq [] [] _ = refl
eq_bytes→eq [] (_ ∷ _) e = grind arith
eq_bytes→eq (_ ∷ _) [] e = grind arith
eq_bytes→eq (x ∷ xs) (y ∷ ys) e =
    let (head, tail) = both (x == y) (eq_bytes xs ys) e in
    ap₂ ◌∷◌ ((==_iff x y).0 head) (eq_bytes→eq xs ys tail)

-- `std::string_view::ends_with`.
unfoldable pub ends_with : (msg suffix : List ℕ) → Bool
ends_with msg suffix =
    leb (length suffix) (length msg) && eq_bytes (drop (length msg - length suffix) msg) suffix

pub ends_with-append : (xs ys : List ℕ) → ends_with (xs ++ ys) ys ≡ true
unfolding ends_with
ends_with-append xs ys =
    rw
      (
        le→leb (length ys) (length (xs ++ ys)) (rw (length-append xs ys) (omega arith)),
        drop-append xs ys (length (xs ++ ys) - length ys) (rw (length-append xs ys) (omega arith)),
        eq_bytes_refl ys,
      )
      refl

-- What a fitting suffix ends.
pub ends_with-split :
    (msg suffix : List ℕ) → ends_with msg suffix ≡ true → (base : List ℕ) × (msg ≡ base ++ suffix)
unfolding ends_with
ends_with-split msg suffix e =
    let n = length msg - length suffix in
    let (_, fits) = both (leb (length suffix) (length msg)) (eq_bytes (drop n msg) suffix) e in
    (
      take n msg,
      sym (take-append-drop n msg)
          ∙ ap (λ xs. take n msg ++ xs) (eq_bytes→eq (drop n msg) suffix fits),
    )

-- Two suffixes of one length do not both fit.
pub ends_with-append_eq :
    (xs ys zs : List ℕ) → length ys ≡ length zs → ends_with (xs ++ ys) zs ≡ true → ys ≡ zs
unfolding ends_with
ends_with-append_eq xs ys zs same e =
    let (_, fits) =
      both (leb (length zs) (length (xs ++ ys)))
        (eq_bytes (drop (length (xs ++ ys) - length zs) (xs ++ ys)) zs) e in
    sym (drop-append xs ys (length (xs ++ ys) - length zs) (rw (length-append xs ys) (omega arith)))
    ∙ eq_bytes→eq (drop (length (xs ++ ys) - length zs) (xs ++ ys)) zs fits
