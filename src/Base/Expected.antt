-- ===== src/Base/Expected.antt =====
-- `std::expected<A, E>`, with the chaining of its `and_then`.
use mathlib.Core.Bool.{Bool, true, false}

pub data Expected {ℓ κ} (E : Type ℓ) (A : Type κ) : Type (ℓ ⊔ κ) where
  value : A → Expected E A
  unexpected : E → Expected E A

infixl 5 ◌>>=◌ ◌>>◌
abbrev pub ◌>>=◌ {ℓ κ μ} :
    {E : Type ℓ} {A : Type κ} {B : Type μ} → Expected E A → (A → Expected E B) → Expected E B
value a >>= f = f a
unexpected e >>= f = unexpected e

abbrev pub ◌>>◌ {ℓ κ} :
    {E : Type ℓ} {B : Type κ} → Expected E (Unit {0}) → Expected E B → Expected E B
m >> k = m >>= λ _. k

-- `has_value`.
abbrev pub has_value {ℓ κ} : {E : Type ℓ} {A : Type κ} → Expected E A → Bool
has_value (value a) = true
has_value (unexpected e) = false
