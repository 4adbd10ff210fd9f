-- ===== src/Converters/DataConvertOptions/Reachable.antt =====
-- `convert_option_has_dependency` of backend/srs/converters/DataConvertOptions.hpp decides which
-- options depend on which, along any number of relations.
use mathlib.Core.List.{Memᴰ}
use srs_control.Base.{
  ℕ, zero, suc, ◌<◌, ◌≤◌, ◌≡◌, ◌↔◌, refl, sym, subst, ap, ◌∙◌, Bool, true, ◌&&◌, ◌||◌, List, [],
  ◌∷◌, arith, ◌==◌, ==_iff, if◌then◌else◌, inl, inr, ◌⊎◌, All-Mem,
}
use srs_control.Converters.DataConvertOptions.{
  DataConvertOptions, no_conversion, raw, raw_frame, structure, structure_to_proto, proto,
  proto_frame, value_of, same_option, ConvertOptionRelation, relation, convert_option_relations,
  any_of, has_dependency, convert_option_has_dependency, DependsOn, itself, through,
}

option_of : ℕ → DataConvertOptions
option_of n =
    if n == 0
    then no_conversion
    else if n == 1
    then raw
    else if n == 2
    then raw_frame
    else if n == 3
    then structure
    else if n == 4
    then structure_to_proto
    else if n == 5
    then proto
    else proto_frame

option_of-value_of : (a : DataConvertOptions) → option_of (value_of a) ≡ a
unfolding option_of
option_of-value_of a = ground arith

same_option-eq : (a b : DataConvertOptions) → same_option a b ≡ true → a ≡ b
same_option-eq a b e =
    sym (option_of-value_of a)
    ∙ ap option_of ((==_iff (value_of a) (value_of b)).0 e)
    ∙ option_of-value_of b

same_option_refl : (a : DataConvertOptions) → same_option a a ≡ true
same_option_refl a = ground arith

and-true : (a b : Bool) → (a && b) ≡ true → (a ≡ true) × (b ≡ true)
and-true a b e = ground arith

or-true : (a b : Bool) → (a || b) ≡ true → (a ≡ true) ⊎ (b ≡ true)
or-true a b e = ground arith

and-intro : (a b : Bool) → a ≡ true → b ≡ true → (a && b) ≡ true
and-intro a b p q = ground arith

pub or-true_right : (a b : Bool) → b ≡ true → (a || b) ≡ true
or-true_right a b e = ground arith

any_of-Mem {ℓ} :
    {A : Type ℓ} (p : A → Bool) (xs : List A)
    → any_of p xs ≡ true
    → (x : A) × Memᴰ x xs × (p x ≡ true)
any_of-Mem p [] e = absurd (ground arith)
any_of-Mem p (x ∷ xs) e = elim (or-true (p x) (any_of p xs) e) [
  | inl h ↦ (x, Memᴰ.head refl, h)
  | inr h ↦ let (y, m, hy) = any_of-Mem p xs h in (y, Memᴰ.tail m, hy)
]

pub Mem-any_of {ℓ} :
    {A : Type ℓ} (p : A → Bool) (x : A) (xs : List A) → Memᴰ x xs → p x ≡ true → any_of p xs ≡ true
Mem-any_of p x [] m h = elim m [ ]
Mem-any_of p x (y ∷ xs) (Memᴰ.head e) h = rw (sym e, h) refl
Mem-any_of p x (y ∷ xs) (Memᴰ.tail m) h =
    let rest = Mem-any_of p x xs m h in or-true_right (p y) (any_of p xs) rest

-- The step of the recursion, as a test on a relation.
abbrev leads_on : (fuel : ℕ) (dependee depender : DataConvertOptions) → ConvertOptionRelation → Bool
leads_on fuel dependee depender r =
    same_option dependee r.dependee
    && (same_option depender r.depender || has_dependency fuel r.depender depender)

-- Whatever the fuel, an answer `true` is a path.
has_dependency_sound :
    (fuel : ℕ) (dependee depender : DataConvertOptions)
    → has_dependency fuel dependee depender ≡ true
    → DependsOn dependee depender
unfolding has_dependency
has_dependency_sound zero a b e = subst (DependsOn a) (same_option-eq a b e) itself
has_dependency_sound (suc fuel) a b e = elim (or-true (same_option a b) _ e) [
  | inl same ↦ subst (DependsOn a) (same_option-eq a b same) itself
  | inr some_relation ↦
      let (r, m, leads) = any_of-Mem (leads_on fuel a b) convert_option_relations some_relation in
      let (from, onwards) = and-true (same_option a r.dependee) _ leads in
      let edge : Memᴰ (relation a r.depender) convert_option_relations =
        subst (λ x. Memᴰ (relation x r.depender) convert_option_relations)
          (sym (same_option-eq a r.dependee from)) m in
      through edge (elim (or-true (same_option b r.depender) _ onwards) [
        | inl there ↦ subst (DependsOn r.depender) (sym (same_option-eq b r.depender there)) itself
        | inr rest ↦ has_dependency_sound fuel r.depender b rest
      ])
]

-- The length of the longest path from an option, which every relation shortens.
abbrev depth : DataConvertOptions → ℕ
depth raw = 3
depth structure = 2
depth structure_to_proto = 1
depth _ = 0

relation-depth :
    (a b : DataConvertOptions) → Memᴰ (relation a b) convert_option_relations → depth b < depth a
relation-depth a b m =
    All-Mem (λ r. depth r.depender < depth r.dependee) (relation a b) convert_option_relations
      (omega arith) m

has_dependency_complete :
    (fuel : ℕ) (dependee depender : DataConvertOptions)
    → DependsOn dependee depender
    → depth dependee ≤ fuel
    → has_dependency fuel dependee depender ≡ true
unfolding has_dependency
has_dependency_complete zero a _ (itself) h = same_option_refl a
has_dependency_complete (suc fuel) a _ (itself) h = rw (same_option_refl a) refl
has_dependency_complete zero a b (through {mid} m path) h =
    absurd (omega (arith, relation-depth a _ m))
has_dependency_complete (suc fuel) a b (through {mid} m path) h =
    let onwards = has_dependency_complete fuel mid b path (omega (arith, relation-depth a mid m)) in
    or-true_right (same_option a b) _ (
      Mem-any_of (leads_on fuel a b) (relation a mid) convert_option_relations m (
        and-intro (same_option a a) _ (same_option_refl a)
          (or-true_right (same_option b mid) (has_dependency fuel mid b) onwards)))

-- `convert_option_has_dependency` answers `true` exactly for the options between which a path of
-- relations leads, the empty one included. Its recursion ends, since more fuel than the path from
-- an option is long changes no answer.
pub convert_option_has_dependency_iff :
    (dependee depender : DataConvertOptions)
    → ((convert_option_has_dependency dependee depender ≡ true) ↔ DependsOn dependee depender)
      × ((fuel : ℕ)
          → 3 ≤ fuel
          → (has_dependency fuel dependee depender ≡ true) ↔ DependsOn dependee depender)
unfolding convert_option_has_dependency
convert_option_has_dependency_iff a b =
    let enough : (fuel : ℕ) → 3 ≤ fuel → (has_dependency fuel a b ≡ true) ↔ DependsOn a b =
      λ fuel h. (
        has_dependency_sound fuel a b,
        λ path. has_dependency_complete fuel a b path (ground (arith, h)),
      ) in
    (enough 7 (omega arith), enough)
