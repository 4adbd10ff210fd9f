-- ===== src/LogCheck/Counts.antt =====
-- backend/srs_check.cpp: what the entries of a log are counted up to, and what is reported.
use srs_control.Base.Int.{ℤ, pos, ◌+ℤ◌}
use srs_control.Base.{
  ◌≡◌, refl, ap, ap₂, ◌∙◌, sym, inl, inr, Bool, true, false, not, ◌&&◌, ◌||◌, List, [], ◌∷◌, arith,
  if◌then◌else◌, Bool-cases,
}
use srs_control.LogCheck.{Text, add_to_entry, is_zero, filter_view}
use srs_control.Utils.Text.{eq_bytes, eq_bytes→eq}

eq_bytes_sym : (a b : Text) → eq_bytes a b ≡ eq_bytes b a
unfolding eq_bytes
eq_bytes_sym [] [] = refl
eq_bytes_sym [] (_ ∷ _) = refl
eq_bytes_sym (_ ∷ _) [] = refl
eq_bytes_sym (x ∷ a) (y ∷ b) = ap₂ ◌&&◌ (ground arith) (eq_bytes_sym a b)

equal_texts : (a b : Text) → eq_bytes a b ≡ true → (n : Text) → eq_bytes a n ≡ eq_bytes b n
equal_texts a b e n = ap (λ t. eq_bytes t n) (eq_bytes→eq a b e)

-- The value of a name, 0 without an entry.
abbrev pub count_of : Text → List (Text × ℤ) → ℤ
count_of name [] = pos 0
count_of name ((key, n) ∷ call_map) =
    let others = count_of name call_map in if eq_bytes key name then n else others

other_text : (a b c : Text) → eq_bytes a b ≡ false → eq_bytes b c ≡ true → eq_bytes a c ≡ false
other_text a b c e k = ap (eq_bytes a) (sym (eq_bytes→eq b c k)) ∙ e

pub count_of-add_to_entry :
    (name other : Text) (change : ℤ) (call_map : List (Text × ℤ))
    → count_of name (add_to_entry other change call_map)
      ≡ (if eq_bytes other name then count_of name call_map +ℤ change else count_of name call_map)
unfolding add_to_entry
count_of-add_to_entry name other change [] = refl
count_of-add_to_entry name other change ((key, n) ∷ call_map) =
    elim (Bool-cases (eq_bytes key other)) [
      | inl e ↦ elim (Bool-cases (eq_bytes other name)) [
        | inl k ↦ rw (e, k, equal_texts key other e name ∙ k) refl
        | inr k ↦ rw (e, k, equal_texts key other e name ∙ k) refl
      ]
      | inr e ↦ elim (Bool-cases (eq_bytes other name)) [
        | inl k ↦
            rw (e, other_text key other name e k) (count_of-add_to_entry name other change call_map)
        | inr k ↦
            rw (e, k)
              (ap (λ v. if eq_bytes key name then n else v)
                (count_of-add_to_entry name other change call_map ∙ rw k refl))
      ]
    ]

-- The keys of a map differ.
abbrev NoEntry : Text → List (Text × ℤ) → Type 0
NoEntry name [] = Unit
NoEntry name ((key, n) ∷ call_map) = (eq_bytes key name ≡ false) × NoEntry name call_map

abbrev pub IsMap : List (Text × ℤ) → Type 0
IsMap [] = Unit
IsMap ((key, n) ∷ call_map) = NoEntry key call_map × IsMap call_map

NoEntry-add_to_entry :
    (name other : Text) (change : ℤ) (call_map : List (Text × ℤ))
    → eq_bytes other name ≡ false
    → NoEntry name call_map
    → NoEntry name (add_to_entry other change call_map)
unfolding add_to_entry
NoEntry-add_to_entry name other change [] e h = (e, tt)
NoEntry-add_to_entry name other change ((key, n) ∷ call_map) e h =
    elim (Bool-cases (eq_bytes key other)) [
      | inl k ↦ rw k h
      | inr k ↦ rw k (h.0, NoEntry-add_to_entry name other change call_map e h.1)
    ]

pub IsMap-add_to_entry :
    (other : Text) (change : ℤ) (call_map : List (Text × ℤ))
    → IsMap call_map
    → IsMap (add_to_entry other change call_map)
unfolding add_to_entry
IsMap-add_to_entry other change [] h = (tt, tt)
IsMap-add_to_entry other change ((key, n) ∷ call_map) h = elim (Bool-cases (eq_bytes key other)) [
  | inl k ↦ rw k h
  | inr k ↦ rw k (
    NoEntry-add_to_entry key other change call_map (eq_bytes_sym other key ∙ k) h.0,
    IsMap-add_to_entry other change call_map h.1,
  )
]

count_of-NoEntry :
    (name : Text) (call_map : List (Text × ℤ))
    → NoEntry name call_map
    → count_of name call_map ≡ pos 0
count_of-NoEntry name [] h = refl
count_of-NoEntry name ((key, n) ∷ call_map) h = rw (h.0) (count_of-NoEntry name call_map h.1)

abbrev pub has_name : Text → List Text → Bool
has_name name [] = false
has_name name (x ∷ names) = eq_bytes x name || has_name name names

pub has_name-filter_view :
    (name : Text) (call_map : List (Text × ℤ))
    → IsMap call_map
    → has_name name (filter_view call_map) ≡ not (is_zero (count_of name call_map))
unfolding filter_view
has_name-filter_view name [] h = refl
has_name-filter_view name ((key, n) ∷ call_map) h =
    let rest = has_name-filter_view name call_map h.1 in
    elim (Bool-cases (eq_bytes key name)) [
      | inl k ↦
          let none_left =
            rest
            ∙ ap (λ v. not (is_zero v))
                (ap (λ t. count_of t call_map) (sym (eq_bytes→eq key name k))
                  ∙ count_of-NoEntry key call_map h.0) in
          elim (Bool-cases (is_zero n)) [
            | inl z ↦ rw (z, k, z) none_left
            | inr z ↦ rw (z, k, z) refl
          ]
      | inr k ↦ elim (Bool-cases (is_zero n)) [ inl z ↦ rw (z, k) rest | inr z ↦ rw (z, k) rest ]
    ]
